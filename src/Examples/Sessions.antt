-- ===== src/Examples/Sessions.antt =====
-- Sessions at concrete inputs: a batch that is read back, and a batch that shows a message twice.
use aihi.Prelude.{
  ℕ, String, ◌≡◌, refl, false, true, none, some, List, [], ◌∷◌, ◌++◌, Result, ok, err, map, length,
  value_error, event_conflict,
}
use aihi.Json.{str, float, obj, arr, end, field, nil, cons}
use aihi.Dict
use aihi.Event.{Event, persisted}
use aihi.Messages.{
  Message, ToolCallBlock, call_block, Role, text_block, encode_message, message_to_dict,
  decode_message, message_from_dict, block_to_dict, block_from_dict,
}
use aihi.Sessions.Store.{Store, finite_fields, append, create_session, get, read}
use aihi.Sessions.Store.Soundness.{IsSound}
use aihi.Sessions.Reload.{IsDurable, append_many-IsDurable}
use aihi.Sessions.Projection.{
  project_messages, is_message_event, is_compaction, add_message, project_from, project_event,
  compact, place_summary, find_orphan_tool_calls, pair_messages, pair_message, note_calls,
  note_call, note_results, note_result,
}
use aihi.Sessions.Session.{
  load, Session, create, append_many, check_batch, check_event, sync, sync_event, fork, fork_batch,
  fork_prefix, copy_events,
}
use aihi.Sessions.Sync.{ShowsAlways}
use aihi.Sessions.Replay.{InSync, append_many-InSync, compaction_then_message}
use aihi.Sessions.Repair
use aihi.Sessions.Repair.Repaired.{repair_orphan_tool_calls-open}
use aihi.Context.Grouping.{group_tool_exchanges, group_from, take_group, opened, carried}
use aihi.Context.Grouping.Groups.{AreGroups, group_tool_exchanges-AreGroups}
use aihi.Policy.Leases.{CapabilityLease}
use aihi.Policy.Approvals.{Approval}
use aihi.Examples.Sample
use aihi.Examples.Sample.{sample_python, event}
use aihi.Examples.Stores.{created, created-IsSound}

abbrev new_id : ℕ → Event → String
new_id n e = e.id

abbrev said : Role → String → String → Message
said role id text = record {
  role = role;
  content = text_block text false ∷ [];
  id = id;
  metadata = end;
}

abbrev question : Event
question = event "e1" "user.message" none (encode_message (said Role.user "m1" "Hello"))

abbrev answer : Event
answer = event "e3" "assistant.message" none (encode_message (said Role.assistant "m3" "Hi"))

abbrev compaction : Event
compaction = event "e2" "compaction.created" none (
    field "replaced_message_ids" (arr (cons (str "m1") nil))
      (field "summary" (obj (message_to_dict (said Role.user "m2" "Greeting"))) end))

abbrev session : Session
session = record { id = "s"; metadata = end; head_seq = 0; events = []; messages = [] }

sessions_run : Unit {0}
unfolding finite_fields append_many check_batch check_event sync sync_event add_message
    project_messages project_from project_event compact place_summary find_orphan_tool_calls append
    Dict.lookup Dict.insert encode_message message_to_dict decode_message message_from_dict
    block_to_dict block_from_dict is_message_event is_compaction
sessions_run = tt

append_many_runs :
    (append_many new_id created session (question ∷ answer ∷ [])).result
    ≡ ok (persisted question 1 ∷ persisted answer 2 ∷ [])
unfolding sessions_run
append_many_runs = refl

blank_InSync : InSync session
unfolding sessions_run
blank_InSync redraw = refl

append_many-InSync_example :
    InSync (append_many new_id created session (question ∷ answer ∷ [])).session
unfolding sessions_run
append_many-InSync_example =
    append_many-InSync new_id created session (question ∷ answer ∷ [])
      (persisted question 1 ∷ persisted answer 2 ∷ []) append_many_runs refl refl blank_InSync

-- A summary of the question, and an answer behind it.
abbrev compacted : List Event
compacted = question ∷ compaction ∷ answer ∷ []

abbrev compacted_saved : List Event
compacted_saved = persisted question 1 ∷ persisted compaction 2 ∷ persisted answer 3 ∷ []

compacted_runs : (append_many new_id created session compacted).result ≡ ok compacted_saved
unfolding sessions_run
compacted_runs = refl

compaction_then_message_example :
    let after = (append_many new_id created session compacted).session in
    (front : List Message) × (x : Message) × ((id : String)
      → decode_message id answer.payload ≡ ok x)
    × ShowsAlways after.events (front ++ x ∷ [])
    × (after.messages ≡ (front ++ x ∷ []) ++ x ∷ [])
    × ¬ InSync after
unfolding is_compaction is_message_event encode_message message_to_dict
compaction_then_message_example =
    compaction_then_message new_id created session compacted (persisted question 1 ∷ [])
      (persisted compaction 2) (persisted answer 3) _ blank_InSync compacted_runs refl refl refl
      refl

-- The same session written in three calls is in step; its fork is not.
abbrev parent : Session
parent = record { id = "s"; metadata = end; head_seq = 3; events = compacted_saved; messages = [] }

abbrev child_ids : ℕ → String
child_ids n = Sample.marks n

forks : Unit {0}
unfolding sessions_run fork fork_batch fork_prefix copy_events create create_session
forks = tt

abbrev forked_messages : Store × Result Session → List String
forked_messages (store, ok child) = map (λ m. m.id) child.messages
forked_messages (store, err x) = []

-- Metadata with an endless number are refused before anything is written.
endless_metadata :
    create created "t" (field "limit" (float "inf") end) "e1" "now" ≡ (created, err value_error)
unfolding forks
endless_metadata = refl

-- A session whose first event has an id that is taken stays in the store without an event.
abbrev taken : Store
taken = record created { event_sessions = ("e1", "s") ∷ [] }

created_but_raises : (create taken "t" end "e1" "now").1 ≡ err event_conflict
unfolding forks
created_but_raises = refl

stays_created : read (create taken "t" end "e1" "now").0 "t" 0 ≡ ok []
unfolding forks read
stays_created = refl

fork_shows_twice :
    forked_messages (fork new_id child_ids "now" created parent 3 "child")
    ≡ ("m2" ∷ "m3" ∷ "m3" ∷ [])
unfolding forks
fork_shows_twice = refl

abbrev lease : CapabilityLease
lease = record {
  lease_id = "l";
  run_id = "r";
  capabilities = "process.exec" ∷ "fs.write" ∷ [];
  expires_at = 9;
}

abbrev one_shot : Approval
one_shot = record {
  scope = "bash";
  granted_by = "user";
  expires_at = some 5;
  run_id = none;
  one_shot = true;
  approval_id = "a";
}

-- Two calls are open; the one that waits for an approval is kept.
abbrev call : String → ToolCallBlock
call id = record { id = id; name = "bash"; input = end }

abbrev asking : Message
asking = record {
  role = Role.assistant;
  content = call_block (call "c1") ∷ call_block (call "c2") ∷ [];
  id = "m1";
  metadata = end;
}

abbrev suspended : Session
suspended = record session { messages = asking ∷ [] }

abbrev repair_ids : Repair.Fresh
repair_ids = record { message_id = "m2"; first_id = "e1"; second_id = "e2"; now = "now" }

repairs : Unit {0}
unfolding sessions_run Repair.repair_orphan_tool_calls Repair.lost_calls pair_messages pair_message
    note_calls note_call note_results note_result Dict.values Dict.remove
repairs = tt

two_open : find_orphan_tool_calls (asking ∷ []) ≡ ok (call "c1" ∷ call "c2" ∷ [])
unfolding repairs
two_open = refl

repair_orphan_tool_calls-open_example :
    find_orphan_tool_calls
      (Repair.repair_orphan_tool_calls new_id repair_ids created suspended "r"
        ("c2" ∷ [])).session.messages
    ≡ ok (call "c2" ∷ [])
unfolding repairs
repair_orphan_tool_calls-open_example =
    repair_orphan_tool_calls-open new_id repair_ids created suspended "r" ("c2" ∷ []) refl
      (call "c1" ∷ call "c2" ∷ []) _ two_open refl

-- An exchange of a call and its result stays whole between two other messages.
abbrev exchange : List Message
exchange =
    said Role.user "m1" "Hello"
    ∷ record asking { content = call_block (call "c1") ∷ [] }
    ∷ record (said Role.user "m3" "") { content = Repair.lost_result (call "c1") ∷ [] }
    ∷ said Role.assistant "m4" "Done"
    ∷ []

grouped : map length (group_tool_exchanges exchange) ≡ (1 ∷ 2 ∷ 1 ∷ [])
unfolding group_tool_exchanges group_from take_group opened carried
grouped = refl

group_tool_exchanges-AreGroups_example : AreGroups exchange (group_tool_exchanges exchange)
group_tool_exchanges-AreGroups_example = group_tool_exchanges-AreGroups exchange

session-IsDurable : IsDurable created session
unfolding load get read project_messages project_from Dict.lookup
session-IsDurable redraw = refl

append_many-IsDurable_example :
    let o = append_many new_id created session (question ∷ answer ∷ []) in
    IsSound o.store × IsDurable o.store o.session
unfolding sessions_run
append_many-IsDurable_example =
    append_many-IsDurable new_id created session (question ∷ answer ∷ [])
      (persisted question 1 ∷ persisted answer 2 ∷ []) created-IsSound session-IsDurable refl refl
      append_many_runs

-- ===== src/Examples/Calls.antt =====
-- A run that is resumed, a session that is refreshed, the tool calls of a message, and the pressure
-- on a context, at concrete inputs.
use aihi.Prelude.{
  String, ◌≡◌, refl, true, false, none, some, List, [], ◌∷◌, Option, ok, arith, Bool-cases, inl,
  inr, map, length, ◌==◌, if◌then◌else◌,
}
use aihi.Json.{Fields, end, field, pos, get}
use aihi.Dict
use aihi.Event.{Event, persisted}
use aihi.Messages.{ToolCallBlock}
use aihi.Policy.Engine.{ToolSpec}
use aihi.Sessions.Store
use aihi.Sessions.Store.{Store, SessionInfo}
use aihi.Sessions.Session.{Session}
use aihi.Sessions.Projection.{
  project_messages, project_from, project_event, is_message_event, is_compaction,
}
use aihi.Sessions.Refresh.{refresh, refresh_rounds, replaced}
use aihi.Sessions.Refresh.Consistent.{IsGrowing, IsCurrent, refresh-IsCurrent}
use aihi.Runtime.Lifecycle.{last_lifecycle_event, run_started_event}
use aihi.Runtime.Opening.{RunRequest, run_configuration_data, check_run, resume_request}
use aihi.Runtime.Opening.Refused.{same_again, resume_request-check_run}
use aihi.Runtime.ToolCalls.{
  CallEnd, CallsEnd, tool_groups, execute_tool_calls, is_parallelizable, parallel_group, group_rest,
  commit_group,
}
use aihi.Runtime.ToolCalls.Grouped.{
  Accounts, AreGroups, concat, tool_groups-AreGroups, execute_tool_calls-Accounts,
}
use aihi.Examples.Sample.{sample_python, event, same_value}

abbrev new_id : Event → String
new_id e = e.id

abbrev call : String → String → ToolCallBlock
call id name = record { id = id; name = name; input = end }

-- `read` is safe to run beside others, `bash` is not, and other tools are unknown.
abbrev registry : String → Option ToolSpec
registry name =
    if name == "read"
    then some (record {
      name = "read";
      concurrency_safe = true;
      mutates = false;
      required_capabilities = [];
    })
    else if name == "bash"
    then some (record {
      name = "bash";
      concurrency_safe = false;
      mutates = true;
      required_capabilities = "process.exec" ∷ [];
    })
    else none

abbrev calls : List ToolCallBlock
calls = call "c1" "read" ∷ call "c2" "read" ∷ call "c3" "bash" ∷ call "c4" "read" ∷ []

calls_run : Unit {0}
unfolding tool_groups execute_tool_calls is_parallelizable parallel_group group_rest commit_group
calls_run = tt

groups : map length (tool_groups registry false 4 true calls) ≡ (2 ∷ 1 ∷ 1 ∷ [])
unfolding calls_run
groups = refl

tool_groups-AreGroups_example :
    (concat (tool_groups registry false 4 true calls) ≡ calls)
    × AreGroups registry false (tool_groups registry false 4 true calls)
tool_groups-AreGroups_example = tool_groups-AreGroups registry false 4 true calls (omega arith)

-- The command waits for an approval.
abbrev ends : ToolCallBlock → CallEnd
ends c = if c.name == "bash" then CallEnd.waiting "a" else CallEnd.answered "done"

suspends :
    (execute_tool_calls registry false ends 4 true calls).1
    ≡ CallsEnd.suspended "a" ("c3" ∷ "c4" ∷ [])
unfolding calls_run
suspends = refl

execute_tool_calls-Accounts_example :
    Accounts calls (execute_tool_calls registry false ends 4 true calls)
execute_tool_calls-Accounts_example =
    execute_tool_calls-Accounts registry false ends 4 true calls (omega arith)

abbrev request : RunRequest
request = record {
  run_id = "r";
  model = "m";
  require_capability_lease = true;
  system_prompt = "Be brief.";
  max_output_tokens = pos 100;
  max_turns = pos 8;
  run_profile = none;
  user_message = none;
}

abbrev hash : String → String
hash prompt = prompt

-- The run was started so and was suspended.
abbrev configuration : Fields
configuration = run_configuration_data hash "p" request

abbrev started : Event
started = event "e1" "run.started" (some "r") configuration

abbrev log : List Event
log = started ∷ event "e2" "run.suspended" (some "r") end ∷ []

reads : Unit {0}
unfolding run_started_event last_lifecycle_event run_configuration_data
reads = tt

abbrev AllSame : Fields → Type 0
AllSame end = Unit
AllSame (field k v fs) = (same_value v v ≡ true) × AllSame fs

same_get : (fs : Fields) (k : String) → AllSame fs → same_value (get fs k) (get fs k) ≡ true
same_get end k h = refl
same_get (field n v fs) k (h, hs) = elim (Bool-cases (n == k)) [
  | inl e ↦ rw e h
  | inr e ↦ rw e (same_get fs k hs)
]

equal_to_itself :
    (k : String) → sample_python.equal (get configuration k) (get configuration k) ≡ true
unfolding reads
equal_to_itself k =
    same_get configuration k (refl, (refl, (refl, (refl, (refl, (refl, (refl, tt)))))))

resume_request-check_run_example :
    (q : RunRequest) × (resume_request hash (pos 8) log (same_again request) ≡ ok q)
    × (q.run_id ≡ "r")
    × (run_configuration_data hash "p" q ≡ started.payload)
    × (check_run log q.run_id (run_configuration_data hash "p" q) ≡ ok true)
unfolding reads
resume_request-check_run_example =
    resume_request-check_run hash "p" (pos 8) log request started "run.suspended" refl refl refl
      refl refl refl refl equal_to_itself

-- A session that has seen nothing yet of a log with one message-less event.
abbrev info : SessionInfo
info = record {
  session_id = "s";
  head_seq = 1;
  created_at = "now";
  metadata = end;
  parent_session_id = none;
}

abbrev store : Store
store = record {
  sessions = ("s", info) ∷ [];
  events = ("s", persisted (event "e1" "run.started" none end) 1 ∷ []) ∷ [];
  event_sessions = ("e1", "s") ∷ [];
}

abbrev stale : Session
stale = record { id = "s"; metadata = end; head_seq = 0; events = []; messages = [] }

refreshes : Unit {0}
unfolding refresh refresh_rounds replaced Store.get Store.read Dict.lookup project_messages
    project_from project_event is_message_event is_compaction
refreshes = tt

at_rest : IsGrowing (λ i. store) "s"
unfolding refreshes
at_rest = record {
  info = λ i. info;
  present = λ i. refl;
  rises = λ i. omega arith;
  same_metadata = λ i. refl;
}

refresh_runs : (refresh new_id (λ i. store) stale).1 ≡ ok tt
unfolding refreshes
refresh_runs = refl

refresh-IsCurrent_example :
    IsCurrent new_id (λ i. store) stale at_rest (refresh new_id (λ i. store) stale).0
refresh-IsCurrent_example = refresh-IsCurrent new_id (λ i. store) stale at_rest refresh_runs

-- ===== src/Sessions/Repair.antt =====
-- `message_event` and `repair_orphan_tool_calls` of `Session` (sessions/session.py). Generated ids and
-- the time are arguments.
pub mod Pending
pub mod Repaired
use aihi.Prelude.{
  ℕ, String, Bool, true, false, not, Option, none, some, List, [], ◌∷◌, map, filter, Result, ok,
  err, ◌>>=◌, contains, if◌then◌else◌,
}
use aihi.Json.{Fields, Items, arr, str, bool, end, field, items_of}
use aihi.Event.{Event, new_event}
use aihi.Python.{Python}
use aihi.Messages.{
  Message, ToolCallBlock, ToolResultBlock, ContentBlock, result_block, Role, encode_message,
  tool_results,
}
use aihi.Sessions.Store.{Store}
use aihi.Sessions.Projection.{find_orphan_tool_calls}
use aihi.Sessions.Session.{Session, Outcome, append_many}

abbrev role_type : Role → String
role_type Role.user = "user.message"
role_type Role.system = "system.message"
role_type Role.assistant = "assistant.message"

abbrev message_type : List ToolResultBlock → Role → String
message_type [] role = role_type role
message_type (r ∷ rs) role = "tool.result"

unfoldable pub message_event : String → String → Session → Message → Option String → Event
message_event event_id now session message run_id =
    new_event event_id now (message_type (tool_results message) message.role) session.id run_id
      (encode_message message)

-- The calls to repair: those that are open and not excluded.
abbrev pub is_lost : List String → ToolCallBlock → Bool
is_lost exclude call = not (contains call.id exclude)

unfoldable pub lost_calls : Session → List String → Result (List ToolCallBlock)
lost_calls session exclude = do
  orphans ← find_orphan_tool_calls session.messages
  ok (filter (is_lost exclude) orphans)

abbrev pub lost_result : ToolCallBlock → ContentBlock
lost_result call = result_block (record {
  tool_call_id = call.id;
  content = "Execution state was lost before a result was committed; not replayed.";
  is_error = true;
  metadata = field "recovered" (bool true) end;
})

abbrev pub repaired_message : String → List ToolCallBlock → Message
repaired_message message_id orphans = record {
  role = Role.user;
  content = map lost_result orphans;
  id = message_id;
  metadata = field "recovery" (str "orphan_tool_calls") end;
}

-- The ids and the time that a repair generates.
pub record Fresh : Type 0 where
  pub message_id : String
  pub first_id : String
  pub second_id : String
  pub now : String

abbrev pub repair_events : Fresh → Session → String → List ToolCallBlock → List Event
repair_events f session run_id orphans =
    new_event f.first_id f.now "session.repaired" session.id (some run_id) (
      field "orphan_tool_call_ids" (arr (items_of (map (λ (c : ToolCallBlock). str c.id) orphans)))
        end)
    ∷ new_event f.second_id f.now "tool.result" session.id (some run_id)
        (encode_message (repaired_message f.message_id orphans))
    ∷ []

module _ ⦃py : Python⦄ (fresh : ℕ → Event → String) where
  abbrev pub repair_calls :
      Fresh → Store → Session → String → List ToolCallBlock → Outcome (List Event)
  repair_calls f store session run_id [] = record {
    result = ok [];
    store = store;
    session = session;
  }
  repair_calls f store session run_id (c ∷ cs) =
      append_many fresh store session (repair_events f session run_id (c ∷ cs))

  unfoldable pub repair_orphan_tool_calls :
      Fresh → Store → Session → String → List String → Outcome (List Event)
  unfolding lost_calls
  repair_orphan_tool_calls f store session run_id exclude = elim (lost_calls session exclude) [
    | ok orphans ↦ repair_calls f store session run_id orphans
    | err x ↦ record { result = err x; store = store; session = session }
  ]

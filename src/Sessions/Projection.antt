-- ===== src/Sessions/Projection.antt =====
-- The projections of sessions/session.py: the messages that an event log shows the model, and the
-- tool calls that have no result yet. `fresh` gives the ids that `new_message_id`
-- generates during one replay for the messages of events that carry none.
use aihi.Prelude.{
  ℕ, zero, suc, String, Bool, not, ◌||◌, Option, none, some, List, [], ◌∷◌, ◌++◌, map, Result, ok,
  event_invariant_violation, ◌>>=◌, ◌>>◌, raise_if, is_some, ◌==◌, contains, filter, if◌then◌else◌,
}
use aihi.Json.{Json, Fields, obj, arr, int, nil, end, field, pos, get, get_or, as_dict, as_list}
use aihi.Dict
use aihi.Dict.{Dict}
use aihi.Event.{Event}
use aihi.Python.{Python, text}
use aihi.Messages.{
  Message, ToolCallBlock, ToolResultBlock, decode_message, tool_calls, tool_results,
}

abbrev pub message_event_types : List String
message_event_types =
    "message.added" ∷ "user.message" ∷ "assistant.message" ∷ "system.message" ∷ "tool.result" ∷ []

unfoldable pub is_message_event : Event → Bool
is_message_event e = contains e.type message_event_types

unfoldable pub is_compaction : Event → Bool
is_compaction e = e.type == "compaction.created"

-- `messages.insert(i, m)`
abbrev pub insert_at : List Message → ℕ → Message → List Message
insert_at ms zero m = m ∷ ms
insert_at [] (suc i) m = m ∷ []
insert_at (x ∷ ms) (suc i) m = x ∷ insert_at ms i m

-- `min` of the indices whose message passes the test
abbrev pub first_index : (Message → Bool) → List Message → Option ℕ
first_index p [] = none
first_index p (m ∷ ms) =
    let rest = first_index p ms in
    if p m then some 0 else elim rest [ none ↦ none | some i ↦ some (suc i) ]

module _ ⦃py : Python⦄ (fresh : Event → String) where
  unfoldable pub add_message : List Message → Event → Result (List Message)
  add_message messages e = elim (as_dict (get e.payload "message")) [
    | none ↦ ok messages
    | some raw ↦ do m ← decode_message (fresh e) e.payload; ok (messages ++ m ∷ [])
  ]

  unfoldable pub place_summary : List Message → List Json → Fields → Event → Result (List Message)
  place_summary messages replaced raw_summary e =
      let replaced_ids = map text replaced in
      let is_replaced = λ (m : Message). contains m.id replaced_ids in
      elim (first_index is_replaced messages) [
        | none ↦ ok messages
        | some i ↦ do
          summary ← decode_message (fresh e) (
              field "message_schema_version"
                (get_or e.payload "summary_message_schema_version" (int (pos 1)))
                (field "message" (obj raw_summary) end))
          ok (insert_at (filter (λ m. not (is_replaced m)) messages) i summary)
      ]

  unfoldable pub compact : List Message → Event → Result (List Message)
  compact messages e = elim (as_list (get_or e.payload "replaced_message_ids" (arr nil))) [
    | none ↦ ok messages
    | some replaced ↦ elim (as_dict (get e.payload "summary")) [
      | none ↦ ok messages
      | some raw_summary ↦ place_summary messages replaced raw_summary e
    ]
  ]

  -- One round of the loop of `project_messages`.
  unfoldable pub project_event : List Message → Event → Result (List Message)
  project_event messages e =
      if is_message_event e
      then add_message messages e
      else if is_compaction e
      then compact messages e
      else ok messages

  unfoldable pub project_from : List Message → List Event → Result (List Message)
  project_from messages [] = ok messages
  project_from messages (e ∷ es) = do ms ← project_event messages e; project_from ms es

  unfoldable pub project_messages : List Event → Result (List Message)
  project_messages events = project_from [] events

-- The variables of `find_orphan_tool_calls`.
pub record Pairing : Type 0 where
  pub pending : Dict ToolCallBlock
  pub completed : List String

abbrev pub unpaired : Pairing
unpaired = record { pending = []; completed = [] }

unfoldable pub note_call : Pairing → ToolCallBlock → Result Pairing
note_call p call = do
  raise_if (is_some (Dict.lookup p.pending call.id) || contains call.id p.completed)
      event_invariant_violation
  ok (record p { pending = Dict.insert p.pending call.id call })

unfoldable pub note_result : Pairing → ToolResultBlock → Result Pairing
note_result p result = do
  raise_if (contains result.tool_call_id p.completed) event_invariant_violation
  raise_if (not (is_some (Dict.lookup p.pending result.tool_call_id))) event_invariant_violation
  ok (record p {
    pending = Dict.remove p.pending result.tool_call_id;
    completed = result.tool_call_id ∷ p.completed;
  })

unfoldable pub note_calls : Pairing → List ToolCallBlock → Result Pairing
unfolding note_call
note_calls p [] = ok p
note_calls p (c ∷ cs) = do q ← note_call p c; note_calls q cs

unfoldable pub note_results : Pairing → List ToolResultBlock → Result Pairing
unfolding note_result
note_results p [] = ok p
note_results p (r ∷ rs) = do q ← note_result p r; note_results q rs

unfoldable pub pair_message : Pairing → Message → Result Pairing
unfolding note_calls note_results
pair_message p m = do q ← note_calls p (tool_calls m); note_results q (tool_results m)

unfoldable pub pair_messages : Pairing → List Message → Result Pairing
unfolding pair_message
pair_messages p [] = ok p
pair_messages p (m ∷ ms) = do q ← pair_message p m; pair_messages q ms

unfoldable pub find_orphan_tool_calls : List Message → Result (List ToolCallBlock)
unfolding pair_messages
find_orphan_tool_calls messages = do p ← pair_messages unpaired messages; ok (Dict.values p.pending)

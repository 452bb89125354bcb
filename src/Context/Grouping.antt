-- ===== src/Context/Grouping.antt =====
-- `group_tool_exchanges` of packages/aihi/agent/src/aihi/agent/context/grouping.py. A set of ids is
-- a list that is read by membership and emptiness only.
pub mod Groups
use aihi.Prelude.{
  ℕ, zero, suc, String, Bool, true, false, not, List, [], ◌∷◌, ◌++◌, map, filter, length, contains,
  if◌then◌else◌,
}
use aihi.Messages.{Message, ToolCallBlock, ToolResultBlock, tool_calls, tool_results}

abbrev pub call_ids : Message → List String
call_ids m = map (λ (c : ToolCallBlock). c.id) (tool_calls m)

abbrev pub result_ids : Message → List String
result_ids m = map (λ (r : ToolResultBlock). r.tool_call_id) (tool_results m)

-- `pending.difference_update(ids)`
abbrev pub without : List String → List String → List String
without pending ids = filter (λ i. not (contains i ids)) pending

-- What a group's first message leaves open, and what a further one does.
unfoldable pub opened : Message → List String
opened m = without (call_ids m) (result_ids m)

unfoldable pub carried : List String → Message → List String
carried pending m = without pending (result_ids m) ++ call_ids m

abbrev pub is_closed : List String → Bool
is_closed [] = true
is_closed (x ∷ xs) = false

-- The inner loop: the messages that the group takes, and those that it leaves.
unfoldable pub take_group : List String → List Message → List Message × List Message
unfolding carried
take_group pending [] = ([], [])
take_group pending (m ∷ ms) =
    let rest = take_group (carried pending m) ms in
    if is_closed pending then ([], m ∷ ms) else (m ∷ rest.0, rest.1)

-- The outer loop, with the messages that are left.
unfoldable pub group_from : ℕ → List Message → List (List Message)
unfolding opened take_group
group_from zero ms = []
group_from (suc n) [] = []
group_from (suc n) (m ∷ ms) =
    let taken = take_group (opened m) ms in (m ∷ taken.0) ∷ group_from n taken.1

unfoldable pub group_tool_exchanges : List Message → List (List Message)
unfolding group_from
group_tool_exchanges messages = group_from (length messages) messages

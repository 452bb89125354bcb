-- ===== src/Runtime/ToolCalls.antt =====
-- runtime/coordinator.py: the order in which `_execute_tool_calls` runs the calls of a message. The
-- registry is the argument `tool_spec`, how the dispatch of each call ends is the argument `ends`,
-- and the index into the calls is the list of those to come. An answer is the result message that
-- is added to the session; the cancellation between two groups is left out.
pub mod Grouped
use aihi.Prelude.{
  ℕ, zero, suc, String, Bool, true, false, not, ◌&&◌, ◌||◌, Option, none, some, List, [], ◌∷◌, ◌++◌,
  length, drop, map, Error, if◌then◌else◌,
}
use aihi.Messages.{ToolCallBlock}
use aihi.Policy.Engine.{ToolSpec, is_nil}

-- How a dispatch ends: with a result, waiting for an approval, or with another exception.
pub data CallEnd : Type 0 where
  answered : String → CallEnd
  waiting : String → CallEnd
  raised : Error → CallEnd

-- How the calls of a message end; `suspended` has the approval and the ids of the calls to come.
pub data CallsEnd : Type 0 where
  done : CallsEnd
  suspended : String → List String → CallsEnd
  failed : Error → CallsEnd

abbrev pub ids_of : List ToolCallBlock → List String
ids_of = map (λ c. c.id)

abbrev pub add_answer :
    ToolCallBlock
    → String
    → List (ToolCallBlock × String) × CallsEnd
    → List (ToolCallBlock × String) × CallsEnd
add_answer call result (answers, end) = ((call, result) ∷ answers, end)

-- The loop over the outcomes of a group: the calls from here on, and what is done behind the group.
unfoldable pub commit_group :
    (ToolCallBlock → CallEnd)
    → List ToolCallBlock
    → List ToolCallBlock
    → List (ToolCallBlock × String) × CallsEnd
    → List (ToolCallBlock × String) × CallsEnd
commit_group ends [] calls behind = behind
commit_group ends (call ∷ group) calls behind =
    let rest = commit_group ends group (drop 1 calls) behind in
    elim (ends call) [
      | answered result ↦ add_answer call result rest
      | waiting approval_id ↦ ([], suspended approval_id (ids_of calls))
      | raised x ↦ ([], failed x)
    ]

module _ (tool_spec : String → Option ToolSpec) (require_capability_lease : Bool) where
  unfoldable pub is_parallelizable : ToolCallBlock → Bool
  is_parallelizable call = elim (tool_spec call.name) [
    | none ↦ false
    | some spec ↦
        spec.concurrency_safe
        && not spec.mutates
        && not (require_capability_lease && not (is_nil spec.required_capabilities))
  ]

  -- The loop of `_parallel_group` behind its first call.
  unfoldable pub group_rest : List ToolCallBlock → List ToolCallBlock
  group_rest [] = []
  group_rest (call ∷ calls) =
      let rest = group_rest calls in if is_parallelizable call then call ∷ rest else []

  -- `_parallel_group` of the calls from a first one on
  unfoldable pub parallel_group : Bool → ToolCallBlock → List ToolCallBlock → List ToolCallBlock
  unfolding group_rest
  parallel_group allow_parallel_tools call calls =
      if not allow_parallel_tools || not (is_parallelizable call)
      then call ∷ []
      else call ∷ group_rest calls

  -- The groups that the `while` loop runs one after the other; a group has one call at least, so
  -- no more rounds are needed than there are calls.
  unfoldable pub tool_groups : ℕ → Bool → List ToolCallBlock → List (List ToolCallBlock)
  unfolding parallel_group
  tool_groups zero allow_parallel_tools calls = []
  tool_groups (suc rounds) allow_parallel_tools [] = []
  tool_groups (suc rounds) allow_parallel_tools (call ∷ calls) =
      let group = parallel_group allow_parallel_tools call calls in
      group ∷ tool_groups rounds allow_parallel_tools (drop (length group) (call ∷ calls))

  -- `_execute_tool_calls`: the calls that are answered, in order, and how it ends.
  unfoldable pub execute_tool_calls :
      (ToolCallBlock → CallEnd)
      → ℕ
      → Bool
      → List ToolCallBlock
      → List (ToolCallBlock × String) × CallsEnd
  unfolding parallel_group commit_group
  execute_tool_calls ends zero allow_parallel_tools calls = ([], done)
  execute_tool_calls ends (suc rounds) allow_parallel_tools [] = ([], done)
  execute_tool_calls ends (suc rounds) allow_parallel_tools (call ∷ calls) =
      let group = parallel_group allow_parallel_tools call calls in
      commit_group ends group (call ∷ calls)
        (execute_tool_calls ends rounds allow_parallel_tools (drop (length group) (call ∷ calls)))

-- ===== src/Context/Compaction.antt =====
-- context/compaction.py: what `ContextCompactor.compact` keeps of the messages, and the budget of
-- context/models.py. The estimate of tokens of messages is an argument, and so are the test for a
-- message that holds a context state and the summary message that is made of the omitted and the
-- retained messages. A set of indexes is the list of its members, the least one first.
pub mod Rows
pub mod Kept
use Prim.Native.Nat.{◌/◌}
use aihi.Prelude.{
  ℕ, zero, suc, ◌+◌, ◌-◌, ◌*◌, String, Bool, true, false, not, ◌||◌, List, [], ◌∷◌, ◌++◌, map,
  filter, length, drop, any, contains, Result, ok, err, value_error, context_window_exceeded, ◌>>=◌,
  ◌>>◌, raise_if, leb, ltb, nat_eq, if◌then◌else◌,
}
use aihi.Messages.{Message}
use aihi.Context.Grouping.{group_tool_exchanges}
use aihi.Context.Pressure.{CompactionPolicy, share, lesser, recent_tail_budget}

pub record ContextBudget : Type 0 where
  pub context_window : ℕ
  pub reserved_output : ℕ
  pub tool_schema_tokens : ℕ
  pub safety_margin : ℕ

-- Where these are negative in the source, they are refused there.
abbrev pub input_capacity : ContextBudget → ℕ
input_capacity b = b.context_window - b.reserved_output - b.safety_margin

abbrev pub usable_input : ContextBudget → ℕ
usable_input b = input_capacity b - b.tool_schema_tokens

-- `ContextBudget.__post_init__`
unfoldable pub check_budget : ContextBudget → Result ContextBudget
check_budget b = do
  raise_if (nat_eq b.context_window 0) value_error
  raise_if (nat_eq (input_capacity b) 0 || nat_eq (usable_input b) 0) value_error
  ok b

-- The messages, the estimated tokens of the system prompt, and the budget.
pub record AssembledContext : Type 0 where
  pub messages : List Message
  pub system_tokens : ℕ
  pub budget : ContextBudget

pub record CompiledContext : Type 0 where
  pub messages : List Message
  pub estimated_tokens : ℕ
  pub replaced_message_ids : List String
  pub retained_message_ids : List String

abbrev pub no_index : List ℕ → Bool
no_index [] = true
no_index (i ∷ indexes) = false

-- `groups[index]`, for an index of the groups
abbrev pub group_at : ℕ → List (List Message) → List Message
group_at index [] = []
group_at zero (g ∷ groups) = g
group_at (suc index) (g ∷ groups) = group_at index groups

-- `retained` and `omitted`
unfoldable pub retained_at : List (List Message) → List ℕ → List Message
retained_at groups [] = []
retained_at groups (index ∷ indexes) = group_at index groups ++ retained_at groups indexes

unfoldable pub omitted_from : ℕ → List ℕ → List (List Message) → List Message
omitted_from index indexes [] = []
omitted_from index indexes (g ∷ groups) =
    let rest = omitted_from (suc index) indexes groups in
    if any (nat_eq index) indexes then rest else g ++ rest

abbrev pub ids : List Message → List String
ids = map (λ m. m.id)

module _ (tokens_of : List Message → ℕ) (is_state : Message → Bool)
    (summary : List Message → List Message → Message) where
  -- the ids that `_previous_context_state` gives, and the messages without them
  abbrev pub summary_ids : List Message → List String
  summary_ids messages = ids (filter is_state messages)

  abbrev pub raw_messages : List Message → List Message
  raw_messages messages = filter (λ m. not (contains m.id (summary_ids messages))) messages

  -- The loop of `_initial_tail_indexes`, on one more than its index.
  unfoldable pub select_tail : ℕ → List (List Message) → ℕ → List ℕ → ℕ → List ℕ
  select_tail zero groups tail_budget selected tokens = selected
  select_tail (suc index) groups tail_budget selected tokens =
      let group_tokens = tokens_of (group_at index groups) in
      let rest = select_tail index groups tail_budget (index ∷ selected) (tokens + group_tokens) in
      if no_index selected || leb (tokens + group_tokens) tail_budget then rest else selected

  unfoldable pub initial_tail_indexes :
      List (List Message) → AssembledContext → CompactionPolicy → Result (List ℕ)
  unfolding select_tail
  initial_tail_indexes groups a p = do
    let target_tokens = share (input_capacity a.budget) p.compaction_target_ratio
    let fixed_tokens = a.system_tokens + a.budget.tool_schema_tokens
    let summary_reserve = p.summary_max_tokens * 4 / 3 + 8
    recent ← recent_tail_budget p (input_capacity a.budget)
    let tail_budget = lesser recent (target_tokens - fixed_tokens - summary_reserve)
    ok (select_tail (length groups) groups tail_budget [] 0)

  unfoldable pub full_tokens : AssembledContext → List Message → ℕ
  full_tokens a messages = a.system_tokens + a.budget.tool_schema_tokens + tokens_of messages

  -- the messages of a candidate
  abbrev pub candidate : List (List Message) → List ℕ → List Message
  candidate groups indexes =
      let retained = retained_at groups indexes in
      summary (omitted_from 0 indexes groups) retained ∷ retained

  -- The `while` loop: the indexes that it ends with. `min` of no index raises.
  unfoldable pub shrink : AssembledContext → ℕ → List (List Message) → List ℕ → Result (List ℕ)
  unfolding full_tokens
  shrink a target_tokens groups [] =
      if leb (full_tokens a (candidate groups [])) target_tokens then ok [] else err value_error
  shrink a target_tokens groups (index ∷ []) =
      let after_tokens = full_tokens a (candidate groups (index ∷ [])) in
      if leb after_tokens target_tokens
      then ok (index ∷ [])
      else if leb after_tokens (input_capacity a.budget)
      then ok (index ∷ [])
      else err context_window_exceeded
  shrink a target_tokens groups (index ∷ next ∷ indexes) =
      let rest = shrink a target_tokens groups (next ∷ indexes) in
      if leb (full_tokens a (candidate groups (index ∷ next ∷ indexes))) target_tokens
      then ok (index ∷ next ∷ indexes)
      else rest

  abbrev pub compiled : AssembledContext → List (List Message) → List ℕ → CompiledContext
  compiled a groups indexes = record {
    messages = candidate groups indexes;
    estimated_tokens = full_tokens a (candidate groups indexes);
    replaced_message_ids = summary_ids a.messages ++ ids (omitted_from 0 indexes groups);
    retained_message_ids = ids (retained_at groups indexes);
  }

  unfoldable pub compact : AssembledContext → CompactionPolicy → Result CompiledContext
  unfolding initial_tail_indexes shrink
  compact a p = do
    let groups = group_tool_exchanges (raw_messages a.messages)
    raise_if (ltb (length groups) 2) context_window_exceeded
    tail ← initial_tail_indexes groups a p
    let indexes = if nat_eq (length tail) (length groups) then drop 1 tail else tail
    kept ← shrink a (share (input_capacity a.budget) p.compaction_target_ratio) groups indexes
    ok (compiled a groups kept)

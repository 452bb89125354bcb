-- ===== src/Context/Pressure.antt =====
-- context/policy.py: `CompactionPolicy`, and the pressure of one request against its capacity. A
-- ratio, a float in the source, is a fraction of two natural numbers; products and quotients are
-- exact here. The tests of an argument's Python type have nothing to refuse.
pub mod Hysteresis
use Prim.Native.Nat.{◌/◌}
use aihi.Prelude.{
  ℕ, suc, ◌*◌, String, Bool, true, false, not, ◌&&◌, ◌||◌, Option, none, some, Result, ok, err,
  value_error, ◌>>=◌, ◌>>◌, raise_if, ltb, leb, nat_eq, if◌then◌else◌,
}

-- `num / den`
pub record Ratio : Type 0 where
  pub num : ℕ
  pub den : ℕ

abbrev pub ratio_lt : Ratio → Ratio → Bool
ratio_lt a b = ltb (a.num * b.den) (b.num * a.den)

-- `0 < r`, `r < 1` and `r <= 1`
abbrev pub is_positive : Ratio → Bool
is_positive r = ltb 0 r.num && ltb 0 r.den

abbrev pub below_one : Ratio → Bool
below_one r = ltb r.num r.den

abbrev pub at_most_one : Ratio → Bool
at_most_one r = leb r.num r.den

-- `int(n * r)`, and `min`
abbrev pub share : ℕ → Ratio → ℕ
share n r = n * r.num / r.den

abbrev pub lesser : ℕ → ℕ → ℕ
lesser a b = if leb a b then a else b

pub record CompactionPolicy : Type 0 where
  pub exact_count_ratio : Ratio
  pub compaction_trigger_ratio : Ratio
  pub compaction_target_ratio : Ratio
  pub recent_tail_ratio : Ratio
  pub recent_tail_max_tokens : ℕ
  pub summary_max_tokens : ℕ
  pub summary_fact_max_chars : ℕ

-- `CompactionPolicy.__post_init__`
unfoldable pub check_policy : CompactionPolicy → Result CompactionPolicy
check_policy p = do
  raise_if
      (not (
        is_positive p.compaction_target_ratio
        && ratio_lt p.compaction_target_ratio p.compaction_trigger_ratio
        && below_one p.compaction_trigger_ratio))
      value_error
  raise_if (not (is_positive p.exact_count_ratio && at_most_one p.exact_count_ratio)) value_error
  raise_if (not (is_positive p.recent_tail_ratio && at_most_one p.recent_tail_ratio)) value_error
  raise_if
      (nat_eq p.recent_tail_max_tokens 0
        || nat_eq p.summary_max_tokens 0
        || nat_eq p.summary_fact_max_chars 0)
      value_error
  ok p

-- `_validate_capacity`
unfoldable pub validate_capacity : ℕ → Result (Unit {0})
validate_capacity input_capacity = raise_if (nat_eq input_capacity 0) value_error

unfoldable pub recent_tail_budget : CompactionPolicy → ℕ → Result ℕ
unfolding validate_capacity
recent_tail_budget p input_capacity = do
  valid ← validate_capacity input_capacity
  ok (lesser (share input_capacity p.recent_tail_ratio) p.recent_tail_max_tokens)

pub data CountMethod : Type 0 where
  estimate provider estimate_fallback : CountMethod

pub data DecisionReason : Type 0 where
  below_threshold threshold over_capacity : DecisionReason

-- `ratio` is the fraction of the tokens and the capacity; the decision is to compact unless the
-- reason is `below_threshold`.
pub record ContextPressure : Type 0 where
  pub input_tokens : ℕ
  pub input_capacity : ℕ
  pub target_tokens : ℕ
  pub count_method : CountMethod
  pub needs_compaction : Bool
  pub reason : DecisionReason
  pub count_fallback_reason : Option String

abbrev pub pressure_reason : CompactionPolicy → ℕ → ℕ → DecisionReason
pressure_reason p input_tokens input_capacity =
    if ltb input_capacity input_tokens
    then over_capacity
    else if leb (p.compaction_trigger_ratio.num * input_capacity)
        (input_tokens * p.compaction_trigger_ratio.den)
    then threshold
    else below_threshold

abbrev pub compacts : DecisionReason → Bool
compacts below_threshold = false
compacts _ = true

unfoldable pub evaluate :
    CompactionPolicy → ℕ → ℕ → CountMethod → Option String → Result ContextPressure
unfolding validate_capacity
evaluate p input_tokens input_capacity count_method count_fallback_reason = do
  valid ← validate_capacity input_capacity
  let reason = pressure_reason p input_tokens input_capacity
  ok (record {
    input_tokens = input_tokens;
    input_capacity = input_capacity;
    target_tokens = share input_capacity p.compaction_target_ratio;
    count_method = count_method;
    needs_compaction = compacts reason;
    reason = reason;
    count_fallback_reason = count_fallback_reason;
  })

-- What a provider's counter gives: a count, or the name of the exception that it raised, which is
-- that of `ValueError` for a count that is no natural number.
pub data Counted : Type 0 where
  count : ℕ → Counted
  raised : String → Counted

abbrev pub is_near : CompactionPolicy → ℕ → ℕ → Bool
is_near p tokens capacity =
    leb (p.exact_count_ratio.num * capacity) (tokens * p.exact_count_ratio.den)

-- `measure` of a request with the given estimate; the counter is there if the provider has one.
unfoldable pub measure : CompactionPolicy → ℕ → ℕ → Option Counted → Bool → Result ContextPressure
unfolding evaluate
measure p estimated input_capacity none force_exact = do
  valid ← validate_capacity input_capacity
  evaluate p estimated input_capacity CountMethod.estimate none
measure p estimated input_capacity (some counted) force_exact = do
  valid ← validate_capacity input_capacity
  elim (force_exact || is_near p estimated input_capacity) [
    | false ↦ evaluate p estimated input_capacity CountMethod.estimate none
    | true ↦ elim counted [
      | count n ↦ evaluate p n input_capacity CountMethod.provider none
      | raised name ↦ evaluate p estimated input_capacity CountMethod.estimate_fallback (some name)
    ]
  ]

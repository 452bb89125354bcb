-- ===== src/Context/Pressure/Hysteresis.antt =====
-- A compaction down to the target takes the pressure away.
use Prim.Native.Nat.{◌/◌}
use aihi.Prelude.{
  ℕ, zero, suc, ◌*◌, ◌≤◌, ◌<◌, String, ◌≡◌, subst, ap, ◌∙◌, false, Option, ok, arith, ◌⊎◌, inl, inr,
}
use aihi.Context.Pressure.{
  CompactionPolicy, CountMethod, ContextPressure, check_policy, share, pressure_reason,
  below_threshold, validate_capacity, evaluate, compacts,
}

le_trans : {a b c : ℕ} → a ≤ b → b ≤ c → a ≤ c
le_trans h k = omega arith

share-le : (n a b : ℕ) → 0 < b → n * a / b * b ≤ n * a
share-le n a b h = grind arith

mul-le-mul_right : (c : ℕ) {a b : ℕ} → a ≤ b → a * c ≤ b * c
mul-le-mul_right zero {a} {b} h = omega arith
mul-le-mul_right (suc c) {a} {b} h = let rest = mul-le-mul_right c h in omega arith

not-below :
    (tokens capacity tn td gn gd : ℕ)
    → 0 < capacity
    → suc (tn * gd) * capacity ≤ gn * td * capacity
    → tokens * td * gd ≤ capacity * tn * gd
    → gn * capacity * td ≤ tokens * gd * td
    → ⊥
not-below tokens capacity tn td gn gd pos above h k = omega arith

lt_or_le : (a b : ℕ) → (a < b) ⊎ (b ≤ a)
lt_or_le a b = ground arith

below-target :
    (tokens capacity tn td gn gd : ℕ)
    → 0 < capacity
    → tn * gd < gn * td
    → tokens * td ≤ capacity * tn
    → tokens * gd < gn * capacity
below-target tokens capacity tn td gn gd pos lt h = elim (lt_or_le (tokens * gd) (gn * capacity)) [
  | inl k ↦ k
  | inr k ↦
      elim (not-below tokens capacity tn td gn gd pos (mul-le-mul_right capacity lt)
        (mul-le-mul_right gd h) (mul-le-mul_right td k)) [ ]
]

within : (tokens capacity gn gd : ℕ) → tokens * gd < gn * capacity → gn < gd → tokens ≤ capacity
within tokens capacity gn gd h lt = elim (lt_or_le tokens (suc capacity)) [
  | inl k ↦ omega arith
  | inr k ↦
      let above = mul-le-mul_right gd k in
      let below = mul-le-mul_right capacity lt in elim (no-room above below h) [ ]
]
  where
    no-room :
        suc capacity * gd ≤ tokens * gd
        → suc gn * capacity ≤ gd * capacity
        → tokens * gd < gn * capacity
        → ⊥
    no-room above below h = omega arith

-- What a valid policy says of its target and its trigger.
check_policy_lem :
    (p : CompactionPolicy)
    → check_policy p ≡ ok p
    → (p.compaction_target_ratio.num * p.compaction_trigger_ratio.den
        < p.compaction_trigger_ratio.num * p.compaction_target_ratio.den)
      × (0 < p.compaction_target_ratio.den)
      × (p.compaction_trigger_ratio.num < p.compaction_trigger_ratio.den)
unfolding check_policy
check_policy_lem p valid = ground arith

pressure_reason_below :
    (p : CompactionPolicy) (tokens capacity : ℕ)
    → tokens ≤ capacity
    → tokens * p.compaction_trigger_ratio.den < p.compaction_trigger_ratio.num * capacity
    → pressure_reason p tokens capacity ≡ below_threshold
pressure_reason_below p tokens capacity small lt = ground arith

evaluate_lem :
    (p : CompactionPolicy) (tokens capacity : ℕ) (method : CountMethod) (why : Option String)
    (pressure : ContextPressure)
    → evaluate p tokens capacity method why ≡ ok pressure
    → (0 < capacity)
      × (pressure.target_tokens ≡ share capacity p.compaction_target_ratio)
      × (pressure.reason ≡ pressure_reason p tokens capacity)
      × (pressure.needs_compaction ≡ compacts (pressure_reason p tokens capacity))
unfolding evaluate validate_capacity
evaluate_lem p tokens capacity method why pressure eq = ground arith

-- Once a compaction brought the tokens of a request down to the target of a valid policy, the
-- pressure of the request asks for no other compaction.
pub evaluate_settled :
    (p : CompactionPolicy) (tokens capacity : ℕ) (method : CountMethod) (why : Option String)
    → check_policy p ≡ ok p
    → (pressure : ContextPressure) → evaluate p tokens capacity method why ≡ ok pressure
    → tokens ≤ pressure.target_tokens
    → (pressure.needs_compaction ≡ false) × (pressure.reason ≡ below_threshold)
evaluate_settled p tokens capacity method why valid pressure eq small =
    let (pos, target, reason, needs) = evaluate_lem p tokens capacity method why pressure eq in
    let (lower, den, trigger) = check_policy_lem p valid in
    let r = p.compaction_trigger_ratio in
    let t = p.compaction_target_ratio in
    let few = share-le capacity t.num t.den den in
    let scaled = mul-le-mul_right t.den (subst (λ (n : ℕ). tokens ≤ n) target small) in
    let lt = below-target tokens capacity t.num t.den r.num r.den pos lower (le_trans scaled few) in
    let calm =
      pressure_reason_below p tokens capacity (within tokens capacity r.num r.den lt trigger) lt in
    (needs ∙ ap compacts calm, reason ∙ calm)

-- ===== src/Context/Eviction/Order.antt =====
-- What the eviction gives up, and in which order.
use aihi.Prelude.{
  ℕ, ◌≤◌, ◌<◌, ◌≡◌, refl, true, false, none, some, List, [], ◌∷◌, filter, length, nat_eq,
  if◌then◌else◌, In, here, there, In-filter, In_filter, arith, Bool-cases, Option-cases, inl, inr,
  ◌⊎◌, ap, sym, ◌∙◌, subst, some-injective,
}
use aihi.Context.Eviction.{
  FactField, ContextState, eviction_order, place, tier, has_facts, is_lower, least, evicted_field,
}

field_at : ℕ → FactField
field_at n =
    if nat_eq n 0
    then FactField.failures
    else if nat_eq n 1
    then FactField.verified
    else if nat_eq n 2
    then FactField.files
    else if nat_eq n 3
    then FactField.subagents
    else if nat_eq n 4
    then FactField.skills
    else if nat_eq n 5
    then FactField.constraints
    else if nat_eq n 6
    then FactField.decisions
    else if nat_eq n 7
    then FactField.open_questions
    else if nat_eq n 8
    then FactField.next_steps
    else FactField.pending_approvals

field_at-place : (f : FactField) → field_at (place f) ≡ f
unfolding field_at
field_at-place FactField.failures = refl
field_at-place FactField.verified = refl
field_at-place FactField.files = refl
field_at-place FactField.subagents = refl
field_at-place FactField.skills = refl
field_at-place FactField.constraints = refl
field_at-place FactField.decisions = refl
field_at-place FactField.open_questions = refl
field_at-place FactField.next_steps = refl
field_at-place FactField.pending_approvals = refl

pub place-injective : (f g : FactField) → place f ≡ place g → f ≡ g
place-injective f g h = sym (field_at-place f) ∙ ap field_at h ∙ field_at-place g

pub eviction_order-In : (f : FactField) → In f eviction_order
eviction_order-In FactField.failures = here refl
eviction_order-In FactField.verified = there (here refl)
eviction_order-In FactField.files = there (there (here refl))
eviction_order-In FactField.subagents = there (there (there (here refl)))
eviction_order-In FactField.skills = there (there (there (there (here refl))))
eviction_order-In FactField.constraints = there (there (there (there (there (here refl)))))
eviction_order-In FactField.decisions = there (there (there (there (there (there (here refl))))))
eviction_order-In FactField.open_questions =
    there (there (there (there (there (there (there (here refl)))))))
eviction_order-In FactField.next_steps =
    there (there (there (there (there (there (there (there (here refl))))))))
eviction_order-In FactField.pending_approvals =
    there (there (there (there (there (there (there (there (there (here refl)))))))))

is_lower-tier : (s : ContextState) (f g : FactField) → is_lower s f g ≡ true → tier f ≤ tier g
unfolding is_lower
is_lower-tier s f g h = ground arith

not-lower_tier : (s : ContextState) (f g : FactField) → is_lower s f g ≡ false → tier g ≤ tier f
unfolding is_lower
not-lower_tier s f g h = ground arith

least-none : (s : ContextState) (fields : List FactField) → least s fields ≡ none → fields ≡ []
unfolding least
least-none s [] h = refl
least-none s (f ∷ fields) h = elim (Option-cases (least s fields)) [
  | inl q ↦ cc (rw q at h)
  | inr (g, q) ↦ cc (rw q at h)
]

-- Which of the two is the lesser one.
lesser_field :
    (s : ContextState) (f g h : FactField)
    → (if is_lower s g f then g else f) ≡ h
    → ((h ≡ g) ⊎ (h ≡ f)) × (tier h ≤ tier g) × (tier h ≤ tier f)
lesser_field s f g h e = elim (Bool-cases (is_lower s g f)) [
  | inl lower ↦
      let same : g ≡ h = rw lower at e in
      (
        inl (sym same),
        subst (λ x. tier x ≤ tier g) same (omega arith),
        subst (λ x. tier x ≤ tier f) same (is_lower-tier s g f lower),
      )
  | inr lower ↦
      let same : f ≡ h = rw lower at e in
      (
        inr (sym same),
        subst (λ x. tier x ≤ tier g) same (not-lower_tier s g f lower),
        subst (λ x. tier x ≤ tier f) same (omega arith),
      )
]

abbrev IsLeast : List FactField → FactField → Type 0
IsLeast fields h = In h fields × ((f : FactField) → In f fields → tier h ≤ tier f)

IsLeast-only :
    (f h : FactField) (fields : List FactField) → f ≡ h → fields ≡ [] → IsLeast (f ∷ fields) h
IsLeast-only f h fields same empty = subst (λ fs. IsLeast (f ∷ fs) h) (sym empty) (here same, below)
  where
    below : (x : FactField) → In x (f ∷ []) → tier h ≤ tier x
    below x (here e) =
        subst (λ y. tier y ≤ tier x) same (subst (λ y. tier f ≤ tier y) e (omega arith))
    below x (there m) = elim m [ ]

IsLeast-step :
    (f g h : FactField) (fields : List FactField)
    → IsLeast fields g
    → ((h ≡ g) ⊎ (h ≡ f)) × (tier h ≤ tier g) × (tier h ≤ tier f)
    → IsLeast (f ∷ fields) h
IsLeast-step f g h fields (inside, low) (which, lg, lf) = (
  elim which [ inl e ↦ there (subst (λ x. In x fields) (sym e) inside) | inr e ↦ here (sym e) ],
  below,
)
  where
    below : (x : FactField) → In x (f ∷ fields) → tier h ≤ tier x
    below x (here e) = subst (λ y. tier h ≤ tier y) e lf
    below x (there m) = omega (arith, lg, low x m)

-- The least of the fields is one of them, and none is of a lower tier.
least-IsLeast :
    (s : ContextState) (fields : List FactField) (h : FactField)
    → least s fields ≡ some h
    → IsLeast fields h
unfolding least
least-IsLeast s [] h e = cc
least-IsLeast s (f ∷ fields) h e = elim (Option-cases (least s fields)) [
  | inl q ↦ IsLeast-only f h fields (some-injective (rw q at e)) (least-none s fields q)
  | inr (g, q) ↦
      IsLeast-step f g h fields (least-IsLeast s fields g q)
        (lesser_field s f g h (some-injective (rw q at e)))
]

some_facts : (s : ContextState) (f : FactField) → has_facts s f ≡ true → 0 < length (s.facts f)
some_facts s f h = ground arith

no_facts : (s : ContextState) (f : FactField) → has_facts s f ≡ false → length (s.facts f) ≡ 0
no_facts s f h = ground arith

-- The field that gives up a fact has one, and every field of a lower tier is empty.
pub evicted_field_lem :
    (s : ContextState) (h : FactField)
    → evicted_field s ≡ some h
    → (0 < length (s.facts h)) × ((f : FactField) → tier f < tier h → length (s.facts f) ≡ 0)
unfolding evicted_field
evicted_field_lem s h e =
    let (inside, low) = least-IsLeast s (filter (has_facts s) eviction_order) h e in
    let (ordered, held) = In-filter (has_facts s) eviction_order h inside in
    (some_facts s h held, empty low)
  where
    empty :
        ((f : FactField) → In f (filter (has_facts s) eviction_order) → tier h ≤ tier f)
        → (f : FactField) → tier f < tier h
        → length (s.facts f) ≡ 0
    empty low f lt = elim (Bool-cases (has_facts s f)) [
      | inl q ↦
          absurd (
            omega (arith, low f (In_filter (has_facts s) eviction_order f (eviction_order-In f) q)))
      | inr q ↦ no_facts s f q
    ]

pub evicted_none :
    (s : ContextState) → evicted_field s ≡ none → (f : FactField) → length (s.facts f) ≡ 0
unfolding evicted_field
evicted_none s e f = elim (Bool-cases (has_facts s f)) [
  | inl q ↦ absurd (
      nothing (
        subst (In f) (least-none s _ e)
          (In_filter (has_facts s) eviction_order f (eviction_order-In f) q)))
  | inr q ↦ no_facts s f q
]
  where
    nothing : In f [] → ⊥
    nothing m = elim m [ ]

-- ===== src/Context/Eviction/Bounded.antt =====
-- The eviction ends with a small state, or an empty one, and keeps what matters most.
use aihi.Prelude.{
  ℕ, zero, suc, ◌≤◌, ◌<◌, ◌≡◌, refl, false, some, List, [], ◌∷◌, ◌++◌, length, drop, length-append,
  append_assoc, leb, nat_eq, if◌then◌else◌, In, here, there, arith, Bool-cases, Option-cases, inl,
  inr, ◌⊎◌, ap, sym, ◌∙◌, subst,
}
use aihi.Context.Eviction.{
  FactField, ContextFact, ContextState, eviction_order, place, tier, evicted_field, drop_first,
  count_facts, evict, bound_facts,
}
use aihi.Context.Eviction.Order.{
  evicted_field_lem, evicted_none, eviction_order-In, place-injective,
}

drop_first_apart :
    (s : ContextState) (h f : FactField)
    → nat_eq (place f) (place h) ≡ false
    → (drop_first s h).facts f ≡ s.facts f
unfolding drop_first
drop_first_apart s h f e = rw e refl

drop_first-suffix :
    (s : ContextState) (h f : FactField)
    → (gone : List ContextFact) × (s.facts f ≡ gone ++ (drop_first s h).facts f)
unfolding drop_first
drop_first-suffix s h f = elim (Bool-cases (nat_eq (place f) (place h))) [
  | inl e ↦ rw e (front (s.facts f))
  | inr e ↦ rw e ([], refl)
]
  where
    front : (facts : List ContextFact) → (gone : List ContextFact) × (facts ≡ gone ++ drop 1 facts)
    front [] = ([], refl)
    front (x ∷ facts) = (x ∷ [], refl)

-- What the row of rounds does to each field, and where it ends.
pub record Evicts (tokens_of : ContextState → ℕ) (limit : ℕ) (s t : ContextState) : Type 0 where
  pub bounded : (tokens_of t ≤ limit) ⊎ ((f : FactField) → length (t.facts f) ≡ 0)
  pub suffix : (f : FactField) → (gone : List ContextFact) × (s.facts f ≡ gone ++ t.facts f)
  pub ordered :
      (f g : FactField)
      → tier f < tier g
      → length (t.facts g) < length (s.facts g)
      → length (t.facts f) ≡ 0
  pub same_objective : t.objective ≡ s.objective

drop_first-le :
    (s : ContextState) (h f : FactField) → length ((drop_first s h).facts f) ≤ length (s.facts f)
drop_first-le s h f =
    let (gone, q) = drop_first-suffix s h f in
    omega (arith, ap length q, length-append gone ((drop_first s h).facts f))

drop_first-lt :
    (s : ContextState) (h f : FactField)
    → f ≡ h
    → 0 < length (s.facts h)
    → length ((drop_first s h).facts f) < length (s.facts f)
unfolding drop_first
drop_first-lt s h f same pos =
    subst (λ g. length ((drop_first s h).facts g) < length (s.facts g)) (sym same)
      (front (s.facts h) pos)
  where
    front :
        (facts : List ContextFact)
        → 0 < length facts
        → length (if nat_eq (place h) (place h) then drop 1 facts else facts) < length facts
    front [] pos = absurd (omega arith)
    front (x ∷ facts) pos = elim (Bool-cases (nat_eq (place h) (place h))) [
      | inl e ↦ rw e (omega arith)
      | inr e ↦ absurd (ground arith)
    ]

count-drop_le :
    (s : ContextState) (h : FactField) (fields : List FactField)
    → count_facts (drop_first s h) fields ≤ count_facts s fields
count-drop_le s h [] = omega arith
count-drop_le s h (f ∷ fields) = omega (arith, drop_first-le s h f, count-drop_le s h fields)

count-drop_lt :
    (s : ContextState) (h : FactField) (fields : List FactField)
    → In h fields
    → 0 < length (s.facts h)
    → count_facts (drop_first s h) fields < count_facts s fields
count-drop_lt s h [] m pos = elim m [ ]
count-drop_lt s h (f ∷ fields) (here e) pos =
    omega (arith, drop_first-lt s h f e pos, count-drop_le s h fields)
count-drop_lt s h (f ∷ fields) (there m) pos =
    omega (arith, drop_first-le s h f, count-drop_lt s h fields m pos)

none_left :
    (s : ContextState) (fields : List FactField) (f : FactField)
    → In f fields
    → count_facts s fields ≤ 0
    → length (s.facts f) ≡ 0
none_left s [] f m h = elim m [ ]
none_left s (g ∷ fields) f (here e) h = subst (λ x. length (s.facts x) ≡ 0) e (omega arith)
none_left s (g ∷ fields) f (there m) h = none_left s fields f m (omega arith)

module _ (tokens_of : ContextState → ℕ) (limit : ℕ) where
  -- A state that is left as it is.
  stays :
      (s : ContextState)
      → (tokens_of s ≤ limit) ⊎ ((f : FactField) → length (s.facts f) ≡ 0)
      → Evicts tokens_of limit s s
  stays s h = record {
    bounded = h;
    suffix = λ f. ([], refl);
    ordered = λ f g lt less. absurd (omega arith);
    same_objective = refl;
  }

  -- One fact is given up before the others are.
  after :
      (s t : ContextState) (h : FactField)
      → evicted_field s ≡ some h
      → Evicts tokens_of limit (drop_first s h) t
      → Evicts tokens_of limit s t
  after s t h e rest =
      let (pos, lower_empty) = evicted_field_lem s h e in
      record {
        bounded = rest.bounded;
        suffix = λ f. joined f;
        ordered = λ f g lt less. in_order lower_empty f g lt less;
        same_objective = rest.same_objective ∙ (unfold drop_first in refl);
      }
    where
      joined : (f : FactField) → (gone : List ContextFact) × (s.facts f ≡ gone ++ t.facts f)
      joined f =
          let (first, q) = drop_first-suffix s h f in
          let (gone, r) = rest.suffix f in
          (first ++ gone, q ∙ ap (λ l. first ++ l) r ∙ sym (append_assoc first gone (t.facts f)))

      still_empty : (f : FactField) → length (s.facts f) ≡ 0 → length (t.facts f) ≡ 0
      still_empty f empty =
          let (gone, q) = joined f in
          omega (arith, ap length q, length-append gone (t.facts f), empty)

      in_order :
          ((f : FactField) → tier f < tier h → length (s.facts f) ≡ 0)
          → (f g : FactField) → tier f < tier g
          → length (t.facts g) < length (s.facts g)
          → length (t.facts f) ≡ 0
      in_order lower_empty f g lt less = elim (Bool-cases (nat_eq (place g) (place h))) [
        | inl e ↦
            still_empty f
              (lower_empty f (subst (λ x. tier f < tier x) (place-injective g h (ground arith)) lt))
        | inr e ↦
            rest.ordered f g lt
              (subst (λ l. length (t.facts g) < length l) (sym (drop_first_apart s h g e)) less)
      ]

  evict-Evicts :
      (rounds : ℕ) (s : ContextState)
      → count_facts s eviction_order ≤ rounds
      → Evicts tokens_of limit s (evict tokens_of limit rounds s)
  unfolding evict
  evict-Evicts zero s h = stays s (inr (λ f. none_left s eviction_order f (eviction_order-In f) h))
  evict-Evicts (suc rounds) s h = elim (Bool-cases (leb (tokens_of s) limit)) [
    | inl e ↦ rw (e, evict) (stays s (inl (ground (arith, e))))
    | inr e ↦ elim (Option-cases (evicted_field s)) [
      | inl q ↦ rw (e, evict, q) (stays s (inr (evicted_none s q)))
      | inr (f, q) ↦
          let (pos, lower_empty) = evicted_field_lem s f q in
          rw (e, evict, q)
            (after s _ f q (
              evict-Evicts rounds (drop_first s f)
                (omega (arith, h, count-drop_lt s f eviction_order (eviction_order-In f) pos))))
    ]
  ]

  -- The state that is kept is within the limit or has no facts at all; each field has lost facts
  -- from its front only, and has lost one only if the fields of every lower tier are empty.
  pub bound_facts-Evicts :
      (s : ContextState) → Evicts tokens_of limit s (bound_facts tokens_of limit s)
  unfolding bound_facts
  bound_facts-Evicts s = evict-Evicts (count_facts s eviction_order) s (omega arith)

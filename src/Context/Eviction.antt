-- ===== src/Context/Eviction.antt =====
-- context/compaction.py: the facts that `_bound_state` gives up, on a state whose texts and lists
-- it has cut. The estimate of the tokens of a state is an argument. A sequence number is natural;
-- the recency of a fact is one more than in the source, where it is -1 for a fact without one.
pub mod Order
pub mod Bounded
use aihi.Prelude.{
  ℕ, zero, suc, ◌+◌, String, Bool, true, false, not, ◌&&◌, ◌||◌, Option, none, some, List, [], ◌∷◌,
  filter, length, drop, leb, ltb, nat_eq, if◌then◌else◌,
}

-- The fields of facts, tier by tier as `_EVICTION_TIERS` has them.
pub data FactField : Type 0 where
  failures verified files subagents skills : FactField
  constraints decisions open_questions next_steps : FactField
  pending_approvals : FactField

abbrev pub eviction_order : List FactField
eviction_order =
    FactField.failures ∷ FactField.verified ∷ FactField.files ∷ FactField.subagents
    ∷ FactField.skills ∷ FactField.constraints ∷ FactField.decisions ∷ FactField.open_questions
    ∷ FactField.next_steps ∷ FactField.pending_approvals ∷ []

-- the place of a field in that order
abbrev pub place : FactField → ℕ
place FactField.failures = 0
place FactField.verified = 1
place FactField.files = 2
place FactField.subagents = 3
place FactField.skills = 4
place FactField.constraints = 5
place FactField.decisions = 6
place FactField.open_questions = 7
place FactField.next_steps = 8
place FactField.pending_approvals = 9

unfoldable pub tier : FactField → ℕ
tier f = if ltb (place f) 5 then 0 else if ltb (place f) 9 then 1 else 2

pub record ContextFact : Type 0 where
  pub id : String
  pub text : String
  pub source_event_seqs : List ℕ
  pub observed_seq : Option ℕ

pub record ContextState : Type 0 where
  pub objective : String
  pub facts : FactField → List ContextFact

abbrev pub latest : List ℕ → ℕ
latest [] = 0
latest (n ∷ ns) = let rest = latest ns in if ltb n rest then rest else suc n

unfoldable pub fact_recency : ContextFact → ℕ
fact_recency fact = elim fact.observed_seq [ some n ↦ suc n | none ↦ latest fact.source_event_seqs ]

abbrev pub first_recency : List ContextFact → ℕ
first_recency [] = 0
first_recency (fact ∷ facts) = fact_recency fact

abbrev pub has_facts : ContextState → FactField → Bool
has_facts s f = not (nat_eq (length (s.facts f)) 0)

-- `<` of `(tier, recency, index)`
unfoldable pub is_lower : ContextState → FactField → FactField → Bool
unfolding tier fact_recency
is_lower s f g =
    ltb (tier f) (tier g)
    || (nat_eq (tier f) (tier g)
        && (ltb (first_recency (s.facts f)) (first_recency (s.facts g))
            || (nat_eq (first_recency (s.facts f)) (first_recency (s.facts g))
                && ltb (place f) (place g))))

-- `min`, if there is a candidate
unfoldable pub least : ContextState → List FactField → Option FactField
unfolding is_lower
least s [] = none
least s (f ∷ fields) = elim (least s fields) [
  | none ↦ some f
  | some g ↦ some (if is_lower s g f then g else f)
]

unfoldable pub evicted_field : ContextState → Option FactField
unfolding least
evicted_field s = least s (filter (has_facts s) eviction_order)

unfoldable pub drop_first : ContextState → FactField → ContextState
drop_first s f = record s {
  facts = λ g. if nat_eq (place g) (place f) then drop 1 (s.facts g) else s.facts g;
}

abbrev pub count_facts : ContextState → List FactField → ℕ
count_facts s [] = 0
count_facts s (f ∷ fields) = length (s.facts f) + count_facts s fields

module _ (tokens_of : ContextState → ℕ) (summary_max_tokens : ℕ) where
  -- The `while` loop, which gives up a fact a round, with the number of rounds that are left.
  unfoldable pub evict : ℕ → ContextState → ContextState
  unfolding evicted_field drop_first
  evict zero s = s
  evict (suc rounds) s = elim (leb (tokens_of s) summary_max_tokens) [
    | true ↦ s
    | false ↦ elim (evicted_field s) [ none ↦ s | some f ↦ evict rounds (drop_first s f) ]
  ]

  unfoldable pub bound_facts : ContextState → ContextState
  unfolding evict
  bound_facts s = evict (count_facts s eviction_order) s

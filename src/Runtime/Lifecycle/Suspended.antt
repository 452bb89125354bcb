-- ===== src/Runtime/Lifecycle/Suspended.antt =====
-- `suspended_runs` against the last lifecycle event of each run.
use aihi.Prelude.{
  String, ◌≡◌, refl, Bool, ◌&&◌, Option, none, some, List, [], ◌∷◌, filter, contains, any-append,
  is_some, ◌==◌, eq_iff, arith, Bool-cases, Option-cases, inl, inr, ap, ◌∙◌, if◌then◌else◌,
}
use aihi.Dict
use aihi.Dict.{Dict, lookup-insert, lookup-empty}
use aihi.Event.{Event, same_text}
use aihi.Runtime.Lifecycle.{
  run_lifecycle_events, find_last, is_lifecycle, last_lifecycle_event, note_event, last_events,
  suspended_runs,
}

abbrev or_else : Option String → Option String → Option String
or_else (some a) d = some a
or_else none d = d

note_event-lookup :
    (e : Event) (last : Dict String) (order : List String) (run : String)
    → Dict.lookup (note_event e (last, order)).0 run
      ≡ (if is_lifecycle run e then some e.type else Dict.lookup last run)
note_event-lookup e last order run = elim (Option-cases e.run_id) [
  | inl q ↦ rw (q, note_event) (ground (arith, q))
  | inr (r, q) ↦ elim (Bool-cases (contains e.type run_lifecycle_events)) [
    | inl c ↦ rw (q, note_event, c) (lookup-insert last r run e.type ∙ ground (arith, q, c))
    | inr c ↦ rw (q, note_event, c) (ground (arith, q, c))
  ]
]

last-cons :
    (e : Event) (es : List Event) (run : String) (before : Option String)
    → or_else (last_lifecycle_event es run) (if is_lifecycle run e then some e.type else before)
      ≡ or_else (last_lifecycle_event (e ∷ es) run) before
unfolding last_lifecycle_event
last-cons e es run before = elim (Option-cases (find_last (is_lifecycle run) es)) [
  | inl q ↦ rw (q, last_lifecycle_event) (ground arith)
  | inr (y, q) ↦ rw (q, last_lifecycle_event) refl
]

-- The dictionary of the loop holds the last lifecycle event of each run.
last_events-lookup :
    (events : List Event) (last : Dict String) (order : List String) (run : String)
    → Dict.lookup (last_events events (last, order)).0 run
      ≡ or_else (last_lifecycle_event events run) (Dict.lookup last run)
unfolding last_events
last_events-lookup [] last order run = unfold last_lifecycle_event in refl
last_events-lookup (e ∷ es) last order run =
    last_events-lookup es (note_event e (last, order)).0 (note_event e (last, order)).1 run
    ∙ ap (or_else (last_lifecycle_event es run)) (note_event-lookup e last order run)
    ∙ last-cons e es run (Dict.lookup last run)

-- The runs that the loop lists are those that its dictionary holds.
abbrev Lists : Dict String × List String → Type 0
Lists (last, order) = (run : String) → contains run order ≡ is_some (Dict.lookup last run)

note_event-Lists :
    (e : Event) (last : Dict String) (order : List String)
    → Lists (last, order)
    → Lists (note_event e (last, order))
note_event-Lists e last order h run = elim (Option-cases e.run_id) [
  | inl q ↦ rw (q, note_event) (h run)
  | inr (r, q) ↦ elim (Bool-cases (contains e.type run_lifecycle_events)) [
    | inl c ↦ elim (Bool-cases (is_some (Dict.lookup last r))) [
      | inl known ↦
          rw (q, note_event, c, known)
            (ground (arith, lookup-insert last r run e.type, h run, h r, eq_iff r run))
      | inr new ↦
          rw (q, note_event, c, new)
            (any-append (λ x. x == run) order (r ∷ [])
              ∙ ground (arith, lookup-insert last r run e.type, h run, eq_iff r run))
    ]
    | inr c ↦ rw (q, note_event, c) (h run)
  ]
]

last_events-Lists :
    (events : List Event) (last : Dict String) (order : List String)
    → Lists (last, order)
    → Lists (last_events events (last, order))
unfolding last_events
last_events-Lists [] last order h = h
last_events-Lists (e ∷ es) last order h =
    last_events-Lists es (note_event e (last, order)).0 (note_event e (last, order)).1
      (note_event-Lists e last order h)

contains-filter :
    (p : String → Bool) (k : String) (xs : List String)
    → contains k (filter p xs) ≡ (p k && contains k xs)
contains-filter p k [] = ground arith
contains-filter p k (x ∷ xs) = elim (Bool-cases (x == k)) [
  | inl e ↦ ground (arith, e, ap p ((eq_iff x k).0 e), contains-filter p k xs)
  | inr e ↦ ground (arith, e, contains-filter p k xs)
]

same_text-is_some :
    (o : Option String) (s : String) → (same_text o (some s) && is_some o) ≡ same_text o (some s)
same_text-is_some none s = refl
same_text-is_some (some a) s = ground arith

or_else-none : (o : Option String) → or_else o none ≡ o
or_else-none none = refl
or_else-none (some a) = refl

-- A run is among the suspended ones exactly if its last lifecycle event suspended it.
pub contains-suspended_runs :
    (events : List Event) (run : String)
    → contains run (suspended_runs events)
      ≡ same_text (last_lifecycle_event events run) (some "run.suspended")
unfolding suspended_runs
contains-suspended_runs events run =
    let found = last_events-lookup events [] [] run in
    let listed = last_events-Lists events [] [] (λ r. unfold Dict.lookup in refl) run in
    contains-filter _ run (last_events events ([], [])).1
    ∙ ap
        (λ b.
          same_text (Dict.lookup (last_events events ([], [])).0 run) (some "run.suspended") && b)
        listed
    ∙ same_text-is_some (Dict.lookup (last_events events ([], [])).0 run) "run.suspended"
    ∙ ap (λ o. same_text o (some "run.suspended"))
        (found
          ∙ ap (or_else (last_lifecycle_event events run)) (lookup-empty run)
          ∙ or_else-none (last_lifecycle_event events run))

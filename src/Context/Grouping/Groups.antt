-- ===== src/Context/Grouping/Groups.antt =====
-- Grouping splits the messages into the smallest runs that close their tool calls.
use aihi.Prelude.{
  ℕ, zero, suc, ◌≤◌, String, ◌≡◌, refl, ap, ◌∙◌, Bool, true, false, not, ◌&&◌, List, [], ◌∷◌, ◌++◌,
  arith, inl, inr, Bool-cases, all, length, length-append,
}
use aihi.Messages.{Message}
use aihi.Context.Grouping.{opened, carried, is_closed, take_group, group_from, group_tool_exchanges}

abbrev pub concat : List (List Message) → List Message
concat [] = []
concat (g ∷ gs) = g ++ concat gs

-- The calls that are open after the messages of a group.
abbrev pub open_after : List String → List Message → List String
open_after pending [] = pending
open_after pending (m ∷ ms) = open_after (carried pending m) ms

-- No shorter run would do: before each further message some call is open.
abbrev pub is_smallest : List String → List Message → Bool
is_smallest pending [] = true
is_smallest pending (m ∷ ms) = not (is_closed pending) && is_smallest (carried pending m) ms

-- A group that closes its calls, and one that at least is not longer than it must be.
abbrev pub closes : List Message → Bool
closes [] = false
closes (m ∷ ms) = is_closed (open_after (opened m) ms)

abbrev pub smallest : List Message → Bool
smallest [] = false
smallest (m ∷ ms) = is_smallest (opened m) ms

abbrev pub all_but_last : (List Message → Bool) → List (List Message) → Bool
all_but_last p [] = true
all_but_last p (g ∷ []) = true
all_but_last p (g ∷ h ∷ gs) = p g && all_but_last p (h ∷ gs)

take_group-append :
    (pending : List String) (ms : List Message)
    → (take_group pending ms).0 ++ (take_group pending ms).1 ≡ ms
unfolding take_group
take_group-append pending [] = refl
take_group-append pending (m ∷ ms) = elim (Bool-cases (is_closed pending)) [
  | inl e ↦ rw e
  | inr e ↦ rw e (ap (λ r. m ∷ r) (take_group-append (carried pending m) ms))
]

take_group-smallest :
    (pending : List String) (ms : List Message)
    → is_smallest pending (take_group pending ms).0 ≡ true
unfolding take_group
take_group-smallest pending [] = refl
take_group-smallest pending (m ∷ ms) = elim (Bool-cases (is_closed pending)) [
  | inl e ↦ rw e
  | inr e ↦ rw (e, e, take_group-smallest (carried pending m) ms)
]

-- A group that leaves a message has closed its calls.
take_group-closes :
    (pending : List String) (ms : List Message) (x : Message) (xs : List Message)
    → (take_group pending ms).1 ≡ x ∷ xs
    → is_closed (open_after pending (take_group pending ms).0) ≡ true
unfolding take_group
take_group-closes pending [] x xs h = cc
take_group-closes pending (m ∷ ms) x xs h = elim (Bool-cases (is_closed pending)) [
  | inl e ↦ rw (e, e)
  | inr e ↦ rw e (take_group-closes (carried pending m) ms x xs (rw e at h))
]

group_from-cons :
    (n : ℕ) (ms : List Message) (g : List Message) (gs : List (List Message))
    → group_from n ms ≡ g ∷ gs
    → (x : Message) × (xs : List Message) × (ms ≡ x ∷ xs)
unfolding group_from
group_from-cons zero ms g gs h = cc
group_from-cons (suc n) [] g gs h = cc
group_from-cons (suc n) (m ∷ ms) g gs h = (m, ms, refl)

all_but_last-cons :
    (p : List Message → Bool) (g : List Message) (gs : List (List Message))
    → ((h : List Message) (hs : List (List Message)) → gs ≡ h ∷ hs → p g ≡ true)
    → all_but_last p gs ≡ true
    → all_but_last p (g ∷ gs) ≡ true
all_but_last-cons p g [] c r = refl
all_but_last-cons p g (h ∷ hs) c r = rw (c h hs refl) r

-- The groups, in order, are the messages; each is as short as it can be, and each but the last
-- closes its tool calls.
pub record AreGroups (ms : List Message) (gs : List (List Message)) : Type 0 where
  pub whole : concat gs ≡ ms
  pub shortest : all smallest gs ≡ true
  pub closed : all_but_last closes gs ≡ true

group_from-AreGroups : (n : ℕ) (ms : List Message) → length ms ≤ n → AreGroups ms (group_from n ms)
unfolding group_from
group_from-AreGroups zero [] h = record { whole = refl; shortest = refl; closed = refl }
group_from-AreGroups zero (m ∷ ms) h = absurd (omega (arith, h))
group_from-AreGroups (suc n) [] h = record { whole = refl; shortest = refl; closed = refl }
group_from-AreGroups (suc n) (m ∷ ms) h =
    let taken = take_group (opened m) ms in
    let split = take_group-append (opened m) ms in
    let shorter : length taken.1 ≤ n =
      omega (arith, h, length-append taken.0 taken.1, ap length split) in
    let rest = group_from-AreGroups n taken.1 shorter in
    record {
      whole = ap (λ r. m ∷ r) (ap (λ r. taken.0 ++ r) rest.whole ∙ split);
      shortest = rw (take_group-smallest (opened m) ms) rest.shortest;
      closed =
          all_but_last-cons closes (m ∷ taken.0) (group_from n taken.1)
            (λ g gs p.
              let (x, xs, q) = group_from-cons n taken.1 g gs p in
              take_group-closes (opened m) ms x xs q)
            rest.closed;
    }

-- Grouping loses and moves no message, cuts no tool call from its result, and cannot be finer: the
-- groups in order are the messages, each group but the last closes the calls that it opens, and none
-- goes on once its calls are closed.
pub group_tool_exchanges-AreGroups :
    (messages : List Message) → AreGroups messages (group_tool_exchanges messages)
unfolding group_tool_exchanges
group_tool_exchanges-AreGroups messages =
    group_from-AreGroups (length messages) messages (omega arith)

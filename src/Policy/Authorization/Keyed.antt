-- ===== src/Policy/Authorization/Keyed.antt =====
-- The grants of a replay are found under their own ids.
use aihi.Prelude.{
  String, ◌≡◌, refl, Bool, true, false, Option, some, List, [], ◌∷◌, ok, ok-injective, >>=-eq-ok,
  distinct, In, here, In-filter, subst, arith, ℕ, some-injective, sym,
}
use aihi.Dict
use aihi.Event.{Event, same_text}
use aihi.Python.{Python}
use aihi.Policy.Approvals.{Approval}
use aihi.Policy.Authorization.{
  AuthorizationState, empty, resolve, apply, apply_all, from_events, consumable_approval, first,
}
use aihi.Policy.Authorization.Moves.{
  Move, ignore, issue, revoke, request, answer, consume, apply-Move,
}
use aihi.Policy.Authorization.Replay.{from_events-IsConsistent}

first-In : (xs : List Approval) (a : Approval) → first xs ≡ some a → In a xs
first-In [] a h = cc
first-In (x ∷ xs) a h = here (some-injective h)

abbrev HasKeys : AuthorizationState → Type 0
HasKeys s = distinct (Dict.keys s.approvals) ≡ true

answer-HasKeys :
    (s : AuthorizationState) (k : String) (a : Approval) (is_granted one_shot : Bool)
    → HasKeys s
    → HasKeys (resolve s k a is_granted one_shot)
unfolding resolve
answer-HasKeys s k a true one_shot h = Dict.insert-distinct s.approvals _ _ h
answer-HasKeys s k a false one_shot h = h

Move-HasKeys :
    {run : Option String} {s t : AuthorizationState} → Move s run t → HasKeys s → HasKeys t
Move-HasKeys (ignore run) h = h
Move-HasKeys (issue l owned unseen unrevoked) h = h
Move-HasKeys (revoke k l found) h = h
Move-HasKeys (request a owned unseen unresolved) h = h
Move-HasKeys {s = s} (answer k a is_granted one_shot found own) h =
    answer-HasKeys s k a is_granted one_shot h
Move-HasKeys {s = s} (consume k a found unspent once) h = Dict.remove-distinct s.approvals k h

module _ ⦃py : Python⦄ where
  apply_all-HasKeys :
      (s t : AuthorizationState) (es : List Event) → apply_all s es ≡ ok t → HasKeys s → HasKeys t
  unfolding apply_all
  apply_all-HasKeys s t [] e h = subst HasKeys (ok-injective e) h
  apply_all-HasKeys s t (x ∷ es) e h =
      let (u, p, q) = >>=-eq-ok (apply s x) _ e in
      apply_all-HasKeys u t es q (Move-HasKeys (apply-Move s u x p) h)

  from_events-HasKeys :
      (es : List Event) (t : AuthorizationState) → from_events es ≡ ok t → HasKeys t
  unfolding from_events Dict.keys
  from_events-HasKeys es t e = apply_all-HasKeys empty t es e refl

  -- The grant that a call may spend is in force under its own id, and is of the run of the call.
  pub consumable_approval_lem :
      (es : List Event) (t : AuthorizationState) (run scope : String) (now : ℕ) (a : Approval)
      → from_events es ≡ ok t
      → consumable_approval t run scope now ≡ some a
      → (Dict.lookup t.approvals a.approval_id ≡ some a) × (same_text a.run_id (some run) ≡ true)
  unfolding consumable_approval
  consumable_approval_lem es t run scope now a e h =
      let (inside, fits) = In-filter _ (Dict.values t.approvals) a (first-In _ a h) in
      let (k, entry) = Dict.In-values t.approvals a inside in
      let found = Dict.lookup_of_In t.approvals k a (from_events-HasKeys es t e) entry in
      let owned = (from_events-IsConsistent es t e).granted_owned k a found in
      (subst (λ j. Dict.lookup t.approvals j ≡ some a) (sym (owned.0)) found, ground (arith, fits))

-- ===== src/Runtime/Approvals/Spent.antt =====
-- Spending a one-shot grant keeps the log replayable.
use aihi.Prelude.{
  ℕ, String, ◌≡◌, true, false, Option, none, some, ok, err, event_invariant_violation, Bool-cases,
  Option-cases, inl, inr, if◌then◌else◌, ap, ◌∙◌, subst, sym,
}
use aihi.Event.{Event, same_text, same_text-eq}
use aihi.Python.{Python}
use aihi.Policy.Authorization.{AuthorizationState, from_events, consumable_approval}
use aihi.Policy.Authorization.Keyed.{consumable_approval_lem}
use aihi.Sessions.Store.{Store}
use aihi.Sessions.Session.{Session}
use aihi.Sessions.Grants.{Call}
use aihi.Sessions.Grants.Applied.{grant_spent}
use aihi.Sessions.Grants.Replays.{consume_approval-from_events}
use aihi.Runtime.Approvals.{consume_one_shot}

same_text-sym : (a b : Option String) → same_text a b ≡ true → same_text b a ≡ true
same_text-sym a b h =
    subst (λ x. same_text x a ≡ true) (same_text-eq a b h)
      (subst (λ x. same_text a x ≡ true) (sym (same_text-eq a b h)) h)

-- The state that a call leaves: the grant that covered it is spent, if a grant let it run.
unfoldable pub spent_state : AuthorizationState → Call → String → Option String → AuthorizationState
spent_state t c scope rule_id = elim (same_text rule_id (some "approval.granted")) [
  | false ↦ t
  | true ↦ elim (consumable_approval t c.run_id scope c.now) [
    | none ↦ t
    | some a ↦ grant_spent t a.approval_id
  ]
]

-- When the call returns, the log replays to the state in which the grant that covered the call is
-- spent, if the rule was that of a granted approval and a one-shot grant of the run covers the
-- scope, and in every other case to the state before.
pub consume_one_shot-from_events :
    ⦃py : Python⦄ (fresh : ℕ → Event → String) (store : Store) (session : Session) (c : Call)
    (scope : String) (rule_id : Option String) (t : AuthorizationState)
    → from_events session.events ≡ ok t
    → let o = consume_one_shot fresh store session c scope rule_id in
      o.result ≡ ok tt → from_events o.session.events ≡ ok (spent_state t c scope rule_id)
unfolding consume_one_shot spent_state
consume_one_shot-from_events fresh store session c scope rule_id t before h =
    elim (Bool-cases (same_text rule_id (some "approval.granted"))) [
      | inr e ↦ rw (e, consume_one_shot, spent_state) before
      | inl e ↦ elim (Option-cases (consumable_approval t c.run_id scope c.now)) [
        | inl q ↦ rw (e, consume_one_shot, spent_state, before, q) before
        | inr (a, q) ↦
            let (held, own) =
              consumable_approval_lem session.events t c.run_id scope c.now a before q in
            let after =
              consume_approval-from_events fresh store session c t before a.approval_id scope tt a
                held (rw (e, consume_one_shot, spent_state, before, q) at h) in
            rw (e, consume_one_shot, spent_state, before, q)
              (after
                ∙ ap
                    (λ b.
                      if b then ok (grant_spent t a.approval_id) else err event_invariant_violation)
                    (same_text-sym a.run_id (some c.run_id) own))
      ]
    ]

-- ===== src/Policy/Authorization/Replay.antt =====
-- `from_events` over whole logs: consistency, and the ids that stay settled.
use mathlib.Core.Bool.{true≢false}
use aihi.Prelude.{
  String, ◌≡◌, Bool, true, false, Option, none, some, List, [], ◌∷◌, ◌++◌, ok, ◌>>=◌, contains,
  eq_iff, arith, inl, inr, Bool-cases, ok-injective, >>=-eq-ok, subst, sym, ◌∙◌, refl, Option-cases,
  >>=-step, or_raise, event_invariant_violation, eq_refl, ◌==◌,
}
use aihi.Dict
use aihi.Dict.{dict_laws}
use aihi.Json.{get, str, as_dict}
use aihi.Event.{Event}
use aihi.Python.{Python}
use aihi.Policy.Approvals
use aihi.Policy.Approvals.{Approval}
use aihi.Policy.Authorization.{
  AuthorizationState, empty, resolve, apply, apply_all, from_events, approval_consumed,
  approval_resolved,
}
use aihi.Policy.Authorization.Moves.{
  Move, ignore, issue, revoke, request, answer, consume, apply-Move,
}
use aihi.Policy.Authorization.Invariant.{IsConsistent, empty-IsConsistent, Move-IsConsistent}

module _ ⦃py : Python⦄ where
  pub apply_all-IsConsistent :
      (s t : AuthorizationState) (es : List Event)
      → apply_all s es ≡ ok t
      → IsConsistent s
      → IsConsistent t
  unfolding apply_all
  apply_all-IsConsistent s t [] e h = subst IsConsistent (ok-injective e) h
  apply_all-IsConsistent s t (x ∷ es) e h =
      let (u, p, q) = >>=-eq-ok (apply s x) _ e in
      apply_all-IsConsistent u t es q (Move-IsConsistent (apply-Move s u x p) h)

  -- Whatever events a session holds, if they replay at all then the state is consistent: a request
  -- that waits was seen and is not resolved, a grant in force was resolved and is not consumed, a
  -- consumed id was resolved, a lease in force was seen and is not revoked, and each stands under
  -- its own id with a run.
  pub from_events-IsConsistent :
      (es : List Event) (t : AuthorizationState) → from_events es ≡ ok t → IsConsistent t
  unfolding from_events
  from_events-IsConsistent es t e = apply_all-IsConsistent empty t es e empty-IsConsistent

-- What has been resolved and is not in force, denied or spent, never comes back into force.
abbrev pub IsSettled : String → AuthorizationState → Type 0
IsSettled k s = (contains k s.resolved_approval_ids ≡ true) × (Dict.lookup s.approvals k ≡ none)

answer-IsSettled :
    (s : AuthorizationState) (j k : String) (a : Approval) (is_granted one_shot : Bool)
    → IsConsistent s
    → Dict.lookup s.pending_approvals k ≡ some a
    → IsSettled j s
    → IsSettled j (resolve s k a is_granted one_shot)
unfolding resolve
answer-IsSettled s j k a is_granted one_shot h found (r, n) = elim (Bool-cases (k == j)) [
  | inl e ↦ absurd (
      true≢false (
        sym r
        ∙ subst (λ i. contains i s.resolved_approval_ids ≡ false) ((eq_iff k j).0 e)
            (h.pending_open k a found)))
  | inr e ↦ elim is_granted as (λ g. IsSettled j (resolve s k a g one_shot)) [
    | true ↦ (ground arith, simp dict_laws (rw e n))
    | false ↦ (ground arith, n)
  ]
]

Move-IsSettled :
    {run : Option String} {s t : AuthorizationState} (j : String)
    → Move s run t
    → IsConsistent s
    → IsSettled j s
    → IsSettled j t
Move-IsSettled j (ignore run) h p = p
Move-IsSettled j (issue l owned unseen unrevoked) h p = p
Move-IsSettled j (revoke k l found) h p = p
Move-IsSettled j (request a owned unseen unresolved) h p = p
Move-IsSettled {s} j (answer k a is_granted one_shot found named) h p =
    answer-IsSettled s j k a is_granted one_shot h found p
Move-IsSettled {s} j (consume k a found unspent once) h (r, n) = (r, simp dict_laws (ground arith))

module _ ⦃py : Python⦄ where
  apply_all-IsSettled :
      (j : String) (s t : AuthorizationState) (es : List Event)
      → apply_all s es ≡ ok t
      → IsConsistent s
      → IsSettled j s
      → IsSettled j t
  unfolding apply_all
  apply_all-IsSettled j s t [] e h p = subst (IsSettled j) (ok-injective e) p
  apply_all-IsSettled j s t (x ∷ es) e h p =
      let (u, q, r) = >>=-eq-ok (apply s x) _ e in
      let m = apply-Move s u x q in
      apply_all-IsSettled j u t es r (Move-IsConsistent m h) (Move-IsSettled j m h p)

  pub apply_all-append :
      (s : AuthorizationState) (es fs : List Event)
      → apply_all s (es ++ fs) ≡ (apply_all s es >>= λ t. apply_all t fs)
  unfolding apply_all
  apply_all-append s [] fs = refl
  apply_all-append s (e ∷ es) fs =
      >>=-step (apply s e) (λ t. apply_all t es) (λ t. apply_all t fs) (λ t. apply_all t (es ++ fs))
        (λ t. apply_all-append t es fs)

  apply-consumed :
      (s : AuthorizationState) (e : Event)
      → e.type ≡ "approval.consumed"
      → apply s e ≡ approval_consumed s e
  unfolding apply
  apply-consumed s e p = rw p

  consumed-IsSettled :
      (s t : AuthorizationState) (e : Event) (k : String)
      → get e.payload "approval_id" ≡ str k
      → approval_consumed s e ≡ ok t
      → IsConsistent s
      → IsSettled k t
  unfolding approval_consumed
  consumed-IsSettled s t e k p q h =
      let (a, r, q1) =
        >>=-eq-ok (or_raise (Dict.lookup s.approvals k) event_invariant_violation) _ (rw p at q) in
      let found : Dict.lookup s.approvals k ≡ some a = ground arith in
      (
        ground (arith, h.granted_resolved k a found),
        ground (arith, Dict.lookup-remove s.approvals k k, eq_refl k),
      )

  -- A split of the replay of a log at one of its events.
  replay_split :
      (es fs : List Event) (e : Event) (t : AuthorizationState)
      → from_events (es ++ e ∷ fs) ≡ ok t
      → (s u : AuthorizationState) × IsConsistent s × (apply s e ≡ ok u) × (apply_all u fs ≡ ok t)
  unfolding from_events
  replay_split es fs e t h =
      let (s, p, q) = >>=-eq-ok (apply_all empty es) _ (rw apply_all-append at h) in
      let (u, a, b) = >>=-eq-ok (apply s e) (λ v. apply_all v fs) (unfold apply_all in q) in
      (s, u, apply_all-IsConsistent empty s es p empty-IsConsistent, a, b)

  -- A one-shot grant is spent for good: in a log that replays, no grant is in force under an id
  -- that an earlier event consumed, whatever the events after it.
  pub consumed_for_good :
      (es fs : List Event) (e : Event) (k : String) (t : AuthorizationState)
      → e.type ≡ "approval.consumed"
      → get e.payload "approval_id" ≡ str k
      → from_events (es ++ e ∷ fs) ≡ ok t
      → Dict.lookup t.approvals k ≡ none
  consumed_for_good es fs e k t p q h =
      let (s, u, c, a, b) = replay_split es fs e t h in
      let settled = consumed-IsSettled s u e k q (sym (apply-consumed s e p) ∙ a) c in
      (apply_all-IsSettled k u t fs b (Move-IsConsistent (apply-Move s u e a) c) settled).1

  apply-resolved :
      (s : AuthorizationState) (e : Event)
      → e.type ≡ "approval.resolved"
      → apply s e ≡ approval_resolved s e
  unfolding apply
  apply-resolved s e p = rw p

  -- What waits for an answer is not in force.
  pending_ungranted :
      (s : AuthorizationState) (k : String) (a : Approval)
      → IsConsistent s
      → Dict.lookup s.pending_approvals k ≡ some a
      → Dict.lookup s.approvals k ≡ none
  pending_ungranted s k a h found = elim (Option-cases (Dict.lookup s.approvals k)) [
    | inl absent ↦ absent
    | inr (b, there) ↦
        absurd (true≢false (sym (h.granted_resolved k b there) ∙ h.pending_open k a found))
  ]

  denied-IsSettled :
      (s t : AuthorizationState) (e : Event) (k : String)
      → get e.payload "approval_id" ≡ str k
      → get e.payload "status" ≡ str "denied"
      → approval_resolved s e ≡ ok t
      → IsConsistent s
      → IsSettled k t
  unfolding approval_resolved
  denied-IsSettled s t e k p d q h =
      let (raw, p1, h1) =
        >>=-eq-ok (or_raise (as_dict (get e.payload "approval")) event_invariant_violation) _
          (rw (p, d) at q) in
      let (b, p2, h2) = >>=-eq-ok (Approvals.from_dict raw) _ h1 in
      let (a, p3, h3) =
        >>=-eq-ok (or_raise (Dict.lookup s.pending_approvals k) event_invariant_violation) _ h2 in
      (ground (arith, eq_refl k), ground (arith, pending_ungranted s k a h (ground arith)))

  -- A denial is final: in a log that replays, no grant is in force under an id that an earlier
  -- event denied, whatever the events after it.
  pub denied_for_good :
      (es fs : List Event) (e : Event) (k : String) (t : AuthorizationState)
      → e.type ≡ "approval.resolved"
      → get e.payload "approval_id" ≡ str k
      → get e.payload "status" ≡ str "denied"
      → from_events (es ++ e ∷ fs) ≡ ok t
      → Dict.lookup t.approvals k ≡ none
  denied_for_good es fs e k t p q d h =
      let (s, u, c, a, b) = replay_split es fs e t h in
      let settled = denied-IsSettled s u e k q d (sym (apply-resolved s e p) ∙ a) c in
      (apply_all-IsSettled k u t fs b (Move-IsConsistent (apply-Move s u e a) c) settled).1

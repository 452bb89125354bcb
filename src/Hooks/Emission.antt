-- ===== src/Hooks/Emission.antt =====
-- What `emit` does with the handlers of an event.
use aihi.Prelude.{
  String, ◌≡◌, refl, Bool, true, false, not, ◌&&◌, ◌⊎◌, inl, inr, Option, List, [], ◌∷◌, ◌++◌, ok,
  err, hook_governance_error, hook_dispatch_error, raise_if, any, >>=-eq-ok, ok-injective,
  ok-ne-err, ap, sym, ◌∙◌, append_assoc, append-nil, Result-cases, Bool-cases, subst, In, any_of_In,
}
use aihi.Json.{Fields}
use aihi.Hooks.{
  HookFailurePolicy, HookGovernance, HookEvent, HandlerEnd, HookRegistration, HookBus, handlers_of,
  registrations,
}
use aihi.Hooks.Ordering.{registrations-In}
use aihi.Hooks.Emit.{
  HookOutcome, HookDispatch, is_fail_fast, may_mutate, outcome_of, settle, dispatch, emit,
}

module _ {W : Type 0} where
  -- The world behind a call of each handler, one after the other.
  abbrev pub call_all : HookEvent → List (HookRegistration W) → W → W
  call_all event [] w = w
  call_all event (r ∷ rs) w = call_all event rs (r.handler event w).0

  -- The outcomes are those of the registrations, one for each in order, and each failure is one
  -- that its hook asks to go on after.
  abbrev pub AreOutcomes : List (HookRegistration W) → List HookOutcome → Type 0
  AreOutcomes [] [] = Unit
  AreOutcomes (r ∷ rs) (o ∷ os) =
      (o.hook_id ≡ r.hook_id)
      × ((o.success ≡ true) ⊎ (r.failure_policy ≡ HookFailurePolicy.continue))
      × AreOutcomes rs os
  AreOutcomes _ _ = ⊥

  own_id :
      (r : HookRegistration W) (event : HookEvent) (end : HandlerEnd) (o : HookOutcome)
      → outcome_of r event end ≡ ok o
      → o.hook_id ≡ r.hook_id
  unfolding outcome_of
  own_id r event HandlerEnd.cancelled o e = cc
  own_id r event HandlerEnd.returned o e =
      ap (λ (x : HookOutcome). x.hook_id) (sym (ok-injective e))
  own_id r event HandlerEnd.timed_out o e =
      ap (λ (x : HookOutcome). x.hook_id) (sym (ok-injective e))
  own_id r event (HandlerEnd.failed code) o e =
      ap (λ (x : HookOutcome). x.hook_id) (sym (ok-injective e))

  settle-outcome :
      (r : HookRegistration W) (event : HookEvent) (end : HandlerEnd) (o : HookOutcome)
      → settle r event end ≡ ok o
      → (o.hook_id ≡ r.hook_id)
        × ((o.success ≡ true) ⊎ (r.failure_policy ≡ HookFailurePolicy.continue))
  unfolding settle
  settle-outcome r event end o h =
      let (o', e, h1) = >>=-eq-ok (outcome_of r event end) _ h in
      let (u, guard, h2) =
        >>=-eq-ok (raise_if (not o'.success && is_fail_fast r.failure_policy) hook_dispatch_error) _
          h1 in
      subst
        (λ (o : HookOutcome).
          (o.hook_id ≡ r.hook_id)
          × ((o.success ≡ true) ⊎ (r.failure_policy ≡ HookFailurePolicy.continue)))
        (ok-injective h2) (own_id r event end o' e, tolerated r.failure_policy o'.success guard)
    where
      tolerated :
          (p : HookFailurePolicy) (success : Bool)
          → raise_if (not success && is_fail_fast p) hook_dispatch_error ≡ ok tt
          → (success ≡ true) ⊎ (p ≡ HookFailurePolicy.continue)
      tolerated p true g = inl refl
      tolerated HookFailurePolicy.fail_fast false g = cc
      tolerated HookFailurePolicy.continue false g = inr refl

  dispatch-AreOutcomes :
      (event : HookEvent) (rs : List (HookRegistration W)) (done outs : List HookOutcome) (w : W)
      → (dispatch event rs done w).1 ≡ ok outs
      → (os : List HookOutcome) × (outs ≡ done ++ os)
        × AreOutcomes rs os
        × ((dispatch event rs done w).0 ≡ call_all event rs w)
  unfolding dispatch
  dispatch-AreOutcomes event [] done outs w h =
      ([], sym (ok-injective h) ∙ sym (append-nil done), tt, refl)
  dispatch-AreOutcomes event (r ∷ rs) done outs w h =
      elim (Result-cases (settle r event (r.handler event w).1)) [
        | inl (o, e) ↦
            let (os, joined, fits, world) =
              dispatch-AreOutcomes event rs (done ++ o ∷ []) outs (r.handler event w).0
                (rw (e, dispatch) at h) in
            let (id, tolerated) = settle-outcome r event (r.handler event w).1 o e in
            (
              o ∷ os,
              joined ∙ append_assoc done (o ∷ []) os,
              (id, tolerated, fits),
              rw (e, dispatch) world,
            )
        | inr (x, e) ↦ absurd (ok-ne-err (sym (rw (e, dispatch) at h)))
      ]

  -- When `emit` returns, each hook of the event has been called once, in the order of the
  -- registrations, on the world that the one before it left; the outcomes are theirs in that order,
  -- and each failed one is of a hook that asks to go on after a failure.
  pub emit-AreOutcomes :
      (bus : HookBus W) (name : String) (payload : Fields) (governance : Option HookGovernance)
      (w : W) (d : HookDispatch)
      → (emit bus name payload governance w).1 ≡ ok d
      → AreOutcomes (registrations bus name) d.outcomes
        × ((emit bus name payload governance w).0 ≡ call_all d.event (registrations bus name) w)
        × (d.event ≡ record { name = name; payload = payload; governance = governance })
  unfolding emit
  emit-AreOutcomes bus name payload governance w d h =
      elim (Bool-cases
        (any (λ r. r.mutates) (registrations bus name) && not (may_mutate governance))) [
          | inl e ↦ absurd (ok-ne-err (sym (rw e at h)))
          | inr e ↦
              let event : HookEvent = record {
                name = name;
                payload = payload;
                governance = governance;
              } in
              let (outs, q, made) =
                >>=-eq-ok (dispatch event (registrations bus name) [] w).1 _ (rw e at h) in
              let (os, joined, fits, world) =
                dispatch-AreOutcomes event (registrations bus name) [] outs w q in
              let same : record { event = event; outcomes = os } ≡ d =
                ap (λ outs. record { event = event; outcomes = outs }) (sym joined)
                ∙ ok-injective made in
              (
                subst (λ (d : HookDispatch). AreOutcomes (registrations bus name) d.outcomes) same
                    fits,
                rw e (
                    subst
                      (λ (d : HookDispatch).
                        (dispatch event (registrations bus name) [] w).0
                        ≡ call_all d.event (registrations bus name) w)
                      same world),
                ap (λ (d : HookDispatch). d.event) (sym same),
              )
        ]

  -- Where a hook of the event mutates and no governance allows it, `emit` raises and calls none of
  -- the hooks of the event: the world is as it was.
  pub emit_ungoverned :
      (bus : HookBus W) (name : String) (payload : Fields) (governance : Option HookGovernance)
      (w : W) (r : HookRegistration W)
      → In r (handlers_of bus name)
      → r.mutates ≡ true
      → may_mutate governance ≡ false
      → emit bus name payload governance w ≡ (w, err hook_governance_error)
  unfolding emit
  emit_ungoverned bus name payload governance w r held mutates refused = rw (
    any_of_In (λ (r : HookRegistration W). r.mutates) (registrations bus name) r
        (registrations-In bus name r held) mutates,
    refused,
  )

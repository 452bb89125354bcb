-- ===== src/Runtime/Coordinator/Ended.antt =====
-- The end of a run in the log of its session.
use aihi.Prelude.{
  ℕ, suc, String, ◌≡◌, refl, Bool, true, false, some, List, [], ◌∷◌, ◌++◌, Error, ok, err, contains,
  ◌⊎◌, eq_refl, arith, ap, sym, ◌∙◌, Bool-cases, Result-cases, Option-cases, inl, inr, >>=-eq-ok,
  ok-ne-err,
}
use aihi.Json.{Fields}
use aihi.Event.{Event, persisted, same_text}
use aihi.Python.{Python}
use aihi.Sessions.Store.{Store}
use aihi.Sessions.Session.{Session, Outcome, append_many}
use aihi.Sessions.Replay.{append_many-accept, written}
use aihi.Sessions.Repair.{Fresh, repair_orphan_tool_calls}
use aihi.Sessions.Repair.Repaired.{append_two}
use aihi.Runtime.State.{RunState, transition}
use aihi.Runtime.State.Ends.{is_final}
use aihi.Runtime.Lifecycle.{
  run_lifecycle_events, terminal_run_events, find_last, is_lifecycle, last_lifecycle_event,
  suspended_runs,
}
use aihi.Runtime.Lifecycle.Suspended.{contains-suspended_runs}
use aihi.Runtime.Coordinator.{
  RunResult, Stamps, state_changed, terminal_event, finish_events, finish, cancel_events,
  cancel_run, refused, abandon,
}

find_last-end {ℓ} :
    {A : Type ℓ} (p : A → Bool) (xs : List A) (a b : A)
    → p b ≡ true
    → find_last p (xs ++ a ∷ b ∷ []) ≡ some b
find_last-end p [] a b h = rw (find_last, h) refl
find_last-end p (x ∷ xs) a b h = rw (find_last-end p xs a b h) refl

-- The last lifecycle event of a log that ends with it.
last_lifecycle-end :
    (events : List Event) (a b : Event) (run : String)
    → b.run_id ≡ some run
    → contains b.type run_lifecycle_events ≡ true
    → last_lifecycle_event (events ++ a ∷ b ∷ []) run ≡ some b.type
unfolding last_lifecycle_event
last_lifecycle-end events a b run own lifecycle = rw (
  find_last-end (is_lifecycle run) events a b (ground (arith, own, lifecycle, eq_refl run)),
  last_lifecycle_event,
)

transition-ok : (s t u : RunState) → transition s t ≡ ok u → u ≡ t
unfolding transition
transition-ok s t u h = ground arith

abbrev last_two : Stamps → Session → String → RunState → String → Fields → List Event
last_two s session run target type more =
    state_changed s session run target ∷ terminal_event s session run type target more ∷ []

-- From a state that is not final, the machine moves to the target or the call raises.
finish_events-open :
    (s : Stamps) (session : Session) (run type : String) (machine target : RunState) (more : Fields)
    → is_final machine ≡ false
    → (finish_events s session run machine target type more
        ≡ ok (target, last_two s session run target type more))
      ⊎ ((x : Error) × (finish_events s session run machine target type more ≡ err x))
unfolding finish_events
finish_events-open s session run type machine target more still_open =
    elim (Result-cases (transition machine target)) [
      | inl (u, e) ↦ inl (
          rw (still_open, finish_events, e)
            (ap (λ u. ok (u, last_two s session run u type more))
              (transition-ok machine target u e)))
      | inr (x, e) ↦ inr (x, rw (still_open, finish_events, e) refl)
    ]

module _ ⦃py : Python⦄ (fresh : ℕ → Event → String) where
  -- A batch of two events that was appended.
  append_many-two :
      (store : Store) (session : Session) (e f : Event) (saved : List Event)
      → (append_many fresh store session (e ∷ f ∷ [])).result ≡ ok saved
      → (append_many fresh store session (e ∷ f ∷ [])).session.events
        ≡ session.events
          ++ persisted e (suc session.head_seq) ∷ persisted f (suc (suc session.head_seq)) ∷ []
  append_many-two store session e f saved h =
      let (store', q, p, done) = append_many-accept fresh store session (e ∷ f ∷ []) saved h in
      let (ms, b, q2) = written fresh store store' session (e ∷ f ∷ []) saved q in
      ap (λ (o : Outcome (List Event)). o.session.events) p
      ∙ ap (λ l. session.events ++ l)
          (sym (append_two store store' session.id session.head_seq e f saved q2))

  -- Finishing a run that has not ended, when it returns, has moved the machine to the target, and
  -- has added the change of state and the terminal event, both with that state, to the log.
  pub finish-ends :
      (s : Stamps) (store : Store) (session : Session) (run type : String)
      (machine target : RunState) (more : Fields) (saved : List Event)
      → is_final machine ≡ false
      → (finish fresh s store session run machine target type more).1.result ≡ ok saved
      → ((finish fresh s store session run machine target type more).0 ≡ target)
        × ((finish fresh s store session run machine target type more).1.session.events
            ≡ session.events
              ++ persisted (state_changed s session run target) (suc session.head_seq)
                ∷ persisted
                    (terminal_event s session run type target more)
                    (suc (suc session.head_seq))
                ∷ [])
  unfolding finish
  finish-ends s store session run type machine target more saved still_open h =
      elim (finish_events-open s session run type machine target more still_open) [
        | inl e ↦
            rw (e, finish) (refl, append_many-two store session _ _ saved (rw (e, finish) at h))
        | inr (x, e) ↦ absurd (ok-ne-err (sym (rw (e, finish) at h)))
      ]

  cancel_run-ends :
      (s : Stamps) (store : Store) (session : Session) (run reason : String) (r : RunResult)
      → (cancel_run fresh s store session run reason).result ≡ ok r
      → last_lifecycle_event (cancel_run fresh s store session run reason).session.events run
        ≡ some "run.cancelled"
  cancel_run-ends s store session run reason r h =
      let (saved, q, made) =
        >>=-eq-ok (append_many fresh store session (cancel_events s session run reason)).result _
          h in
      ap (λ es. last_lifecycle_event es run) (append_many-two store session _ _ saved q)
      ∙ last_lifecycle-end session.events _ _ run refl refl

  pub abandon-ends :
      (f : Fresh) (s : Stamps) (store : Store) (session : Session) (run reason : String)
      (r : RunResult)
      → (abandon fresh f s store session run reason).result ≡ ok r
      → last_lifecycle_event (abandon fresh f s store session run reason).session.events run
        ≡ some "run.cancelled"
  unfolding abandon
  abandon-ends f s store session run reason r h =
      elim (Bool-cases (contains run (suspended_runs session.events))) [
        | inl suspended ↦
            elim (Result-cases (repair_orphan_tool_calls fresh f store session run []).result) [
              | inl (saved, e) ↦
                  rw (suspended, abandon, e)
                    (cancel_run-ends s _ _ run reason r (rw (suspended, abandon, e) at h))
              | inr (x, e) ↦ absurd (ok-ne-err (sym (rw (suspended, abandon, e) at h)))
            ]
        | inr other ↦ elim (Option-cases (last_lifecycle_event session.events run)) [
          | inl e ↦ absurd (ok-ne-err (sym (rw (other, abandon, e) at h)))
          | inr (type, e) ↦ elim (Bool-cases (contains type terminal_run_events)) [
            | inl over ↦ absurd (ok-ne-err (sym (rw (other, abandon, e, over) at h)))
            | inr going ↦
                rw (other, abandon, e, going)
                  (cancel_run-ends s store session run reason r
                    (rw (other, abandon, e, going) at h))
          ]
        ]
      ]

  -- A run whose log says that it was cancelled is not abandoned again.
  pub abandon-cancelled :
      (f : Fresh) (s : Stamps) (store : Store) (session : Session) (run reason : String)
      → last_lifecycle_event session.events run ≡ some "run.cancelled"
      → abandon fresh f s store session run reason ≡ refused store session
  unfolding abandon
  abandon-cancelled f s store session run reason h =
      rw
        (
          contains-suspended_runs session.events run
              ∙ ap (λ o. same_text o (some "run.suspended")) h,
          abandon,
          h,
        )
        refl

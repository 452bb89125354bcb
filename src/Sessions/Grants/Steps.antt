-- ===== src/Sessions/Grants/Steps.antt =====
-- What an authorization call that succeeds adds to the log of its session.
use aihi.Prelude.{
  ℕ, suc, String, ◌≡◌, sym, ap, ◌∙◌, List, [], ◌∷◌, ◌++◌, ok, err, arith, ok-injective, ok-ne-err,
  >>=-eq-ok,
}
use aihi.Event.{Event, persisted}
use aihi.Python.{Python}
use aihi.Sessions.Store
use aihi.Sessions.Store.{Store}
use aihi.Sessions.Session.{Session, Outcome, append_many}
use aihi.Sessions.Replay.{append_many-accept, written}
use aihi.Sessions.Grants.{Plan, perform}

append_single :
    (s t : Store) (sid : String) (n : ℕ) (e : Event) (saved : List Event)
    → Store.append s sid n (e ∷ []) ≡ ok (saved, t)
    → persisted e (suc n) ∷ [] ≡ saved
unfolding Store.append
append_single s t sid n e saved h = ground arith

module _ ⦃py : Python⦄ (fresh : ℕ → Event → String) (store : Store) (session : Session) where
  append_one :
      (e : Event) (saved : List Event)
      → (append_many fresh store session (e ∷ [])).result ≡ ok saved
      → (append_many fresh store session (e ∷ [])).session.events
        ≡ session.events ++ persisted e (suc session.head_seq) ∷ []
  append_one e saved h =
      let (store', q, p, done) = append_many-accept fresh store session (e ∷ []) saved h in
      let (ms, b, q2) = written fresh store store' session (e ∷ []) saved q in
      ap (λ (o : Outcome (List Event)). o.session.events) p
      ∙ ap (λ l. session.events ++ l)
          (sym (append_single store store' session.id session.head_seq e saved q2))

  -- A call that returns has appended the one event of its plan.
  pub perform-adds :
      {A : Type 0} (plan : Plan A) (a : A)
      → (perform fresh store session plan).result ≡ ok a
      → (e : Event) × (plan ≡ ok (a, e))
        × ((perform fresh store session plan).session.events
            ≡ session.events ++ persisted e (suc session.head_seq) ∷ [])
  unfolding perform
  perform-adds (err x) a h = absurd (ok-ne-err (sym h))
  perform-adds (ok (b, e)) a h =
      let (saved, p, q) =
        >>=-eq-ok (append_many fresh store session (e ∷ [])).result (λ _. ok b) h in
      (e, ap (λ v. ok (v, e)) (ok-injective q), append_one e saved p)

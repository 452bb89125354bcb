-- ===== src/Sessions/Refresh/Consistent.antt =====
-- A refresh among appends of other owners.
use aihi.Prelude.{
  ℕ, zero, suc, ◌+◌, ◌≤◌, String, ◌≡◌, refl, true, List, ok, nat_eq, arith, sym, ap, ◌∙◌, subst,
  Bool-cases, Result-cases, inl, inr, ◌⊎◌, ok-ne-err,
}
use aihi.Event.{Event}
use aihi.Python.{Python}
use aihi.Sessions.Store
use aihi.Sessions.Store.{Store, SessionInfo}
use aihi.Sessions.Projection.{project_messages}
use aihi.Sessions.Session.{Session, load}
use aihi.Sessions.Refresh.{replaced, refresh_rounds, refresh}

-- From call to call the session stays in the store, its head never falls, and its metadata stay.
pub record IsGrowing (env : ℕ → Store) (sid : String) : Type 0 where
  pub info : ℕ → SessionInfo
  pub present : (i : ℕ) → Store.get (env i) sid ≡ ok (info i)
  pub rises : (i : ℕ) → (info i).head_seq ≤ (info (i + 1)).head_seq
  pub same_metadata : (i : ℕ) → (info (i + 1)).metadata ≡ (info i).metadata

module _ ⦃py : Python⦄ (fresh : Event → String) (env : ℕ → Store) where
  -- The session as it was, at the head of the store as some call saw it, or the session that a
  -- load, with the message ids that the refresh drew, gives from the store as some call saw it.
  abbrev pub IsCurrent : (session : Session) → IsGrowing env session.id → Session → Type 0
  IsCurrent session g result =
      ((result ≡ session) × ((i : ℕ) × ((g.info i).head_seq ≡ session.head_seq)))
      ⊎ ((i : ℕ) × (load fresh (env i) session.id ≡ ok result))

  replaced-load :
      (session : Session) (i : ℕ) (info : SessionInfo) (events : List Event)
      → Store.get (env i) session.id ≡ ok info
      → Store.read (env i) session.id 0 ≡ ok events
      → (replaced fresh session info events).1 ≡ ok tt
      → load fresh (env i) session.id ≡ ok (replaced fresh session info events).0
  unfolding load replaced
  replaced-load session i info events p q h = elim (Result-cases (project_messages fresh events)) [
    | inl (ms, e) ↦ rw (p, q, e, replaced) refl
    | inr (x, e) ↦ absurd (ok-ne-err (sym (rw (e, replaced) at h)))
  ]

  replaced_head :
      (session : Session) (info info' : SessionInfo) (events : List Event)
      → info.metadata ≡ info'.metadata
      → info.head_seq ≡ info'.head_seq
      → replaced fresh session info events ≡ replaced fresh session info' events
  unfolding replaced
  replaced_head session info info' events m h = rw (m, h) refl

  module _ (session : Session) (g : IsGrowing env session.id) where
    -- A round that finds the head where it was has read the log at that head.
    at_rest :
        (i : ℕ) (events : List Event)
        → Store.read (env (i + 1)) session.id 0 ≡ ok events
        → nat_eq (g.info (i + 2)).head_seq (g.info i).head_seq ≡ true
        → (replaced fresh session (g.info i) events).1 ≡ ok tt
        → IsCurrent session g (replaced fresh session (g.info i) events).0
    at_rest i events e rest h =
        let next : i + 1 + 1 ≡ i + 2 = omega arith in
        let later : (g.info (i + 1)).head_seq ≤ (g.info (i + 2)).head_seq =
          subst (λ k. (g.info (i + 1)).head_seq ≤ (g.info k).head_seq) next (g.rises (i + 1)) in
        let head : (g.info i).head_seq ≡ (g.info (i + 1)).head_seq = ground (arith, g.rises i) in
        let same =
          replaced_head session (g.info i) (g.info (i + 1)) events (sym (g.same_metadata i)) head in
        inr (
          i + 1,
          replaced-load session (i + 1) (g.info (i + 1)) events (g.present (i + 1)) e
                (ap (λ r. r.1) (sym same) ∙ h)
              ∙ ap (λ r. ok (r.0)) (sym same),
        )

    refresh_rounds-IsCurrent :
        (rounds i : ℕ)
        → (refresh_rounds fresh rounds env i session).1 ≡ ok tt
        → IsCurrent session g (refresh_rounds fresh rounds env i session).0
    unfolding refresh_rounds
    refresh_rounds-IsCurrent zero i h = absurd (ok-ne-err (sym h))
    refresh_rounds-IsCurrent (suc rounds) i h =
        elim (Bool-cases (nat_eq (g.info i).head_seq session.head_seq)) [
          | inl same ↦ rw (g.present i, refresh_rounds, same) (inl (refl, (i, ground arith)))
          | inr stale ↦ elim (Result-cases (Store.read (env (i + 1)) session.id 0)) [
            | inr (x, e) ↦
                absurd (ok-ne-err (sym (rw (g.present i, refresh_rounds, stale, e) at h)))
            | inl (events, e) ↦
                elim (Bool-cases (nat_eq (g.info (i + 2)).head_seq (g.info i).head_seq)) [
                  | inl rest ↦
                      rw (g.present i, refresh_rounds, stale, e, g.present (i + 2), rest)
                        (at_rest i events e rest (
                          rw (g.present i, refresh_rounds, stale, e, g.present (i + 2), rest) at h))
                  | inr moved ↦
                      rw (g.present i, refresh_rounds, stale, e, g.present (i + 2), moved)
                        (refresh_rounds-IsCurrent rounds (i + 3) (
                          rw (g.present i, refresh_rounds, stale, e, g.present (i + 2), moved) at
                            h))
                ]
          ]
        ]

    -- However other owners append between its calls, a refresh that returns leaves either the session
    -- as it was, with the head of the store at some call, or what a load from the store at some
    -- call gives with the message ids that the refresh drew.
    pub refresh-IsCurrent :
        (refresh fresh env session).1 ≡ ok tt → IsCurrent session g (refresh fresh env session).0
    unfolding refresh
    refresh-IsCurrent h = refresh_rounds-IsCurrent 3 0 h

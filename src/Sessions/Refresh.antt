-- ===== src/Sessions/Refresh.antt =====
-- `Session.refresh` of sessions/session.py. Other owners may append between any two calls on the
-- store, so the calls are numbered and `env` gives the store as each of them sees it. What was
-- assigned before a call raised stays, so the session comes back beside the result.
pub mod Consistent
use aihi.Prelude.{
  ℕ, zero, suc, ◌+◌, String, true, false, List, Result, ok, err, event_invariant_violation, nat_eq,
}
use aihi.Event.{Event}
use aihi.Python.{Python}
use aihi.Sessions.Store
use aihi.Sessions.Store.{Store, SessionInfo}
use aihi.Sessions.Projection.{project_messages}
use aihi.Sessions.Session.{Session}

module _ ⦃py : Python⦄ (fresh : Event → String) where
  -- the assignments of a round that found the log at rest
  unfoldable pub replaced : Session → SessionInfo → List Event → Session × Result (Unit {0})
  replaced session info events =
      let session' = record session {
        metadata = info.metadata;
        head_seq = info.head_seq;
        events = events;
      } in
      elim (project_messages fresh events) [
        | err x ↦ (session', err x)
        | ok messages ↦ (record session' { messages = messages }, ok tt)
      ]

  -- The rounds that are left, and the number of the next call.
  unfoldable pub refresh_rounds : ℕ → (ℕ → Store) → ℕ → Session → Session × Result (Unit {0})
  refresh_rounds zero env i session = (session, err event_invariant_violation)
  refresh_rounds (suc rounds) env i session = elim (Store.get (env i) session.id) [
    | err x ↦ (session, err x)
    | ok info ↦ elim (nat_eq info.head_seq session.head_seq) [
      | true ↦ (session, ok tt)
      | false ↦ elim (Store.read (env (i + 1)) session.id 0) [
        | err x ↦ (session, err x)
        | ok events ↦ elim (Store.get (env (i + 2)) session.id) [
          | err x ↦ (session, err x)
          | ok again ↦ elim (nat_eq again.head_seq info.head_seq) [
            | true ↦ replaced session info events
            | false ↦ refresh_rounds rounds env (i + 3) session
          ]
        ]
      ]
    ]
  ]

  unfoldable pub refresh : (ℕ → Store) → Session → Session × Result (Unit {0})
  unfolding refresh_rounds
  refresh env session = refresh_rounds 3 env 0 session

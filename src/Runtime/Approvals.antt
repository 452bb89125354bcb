-- ===== src/Runtime/Approvals.antt =====
-- runtime/coordinator.py: how `RunCoordinator` spends the one-shot grant that let a call run. The
-- decision of a dispatch, if there is one, is given by its rule.
pub mod Spent
use aihi.Prelude.{
  ℕ, String, Bool, true, false, not, ◌&&◌, ◌||◌, Option, none, some, List, [], ◌∷◌, Result, ok, err,
  ◌==◌, if◌then◌else◌, filter, map,
}
use aihi.Json.{Json, Fields, str, obj, get, is_text}
use aihi.Dict
use aihi.Dict.{Dict}
use aihi.Event.{Event, same_text}
use aihi.Python.{Python, text}
use aihi.Policy.Approvals
use aihi.Policy.Approvals.{Approval}
use aihi.Policy.Authorization.{AuthorizationState, from_events, consumable_approval}
use aihi.Sessions.Store.{Store}
use aihi.Sessions.Session.{Session, Outcome}
use aihi.Sessions.Grants.{Call, consume_approval}

abbrev pub unchanged : Store → Session → Result (Unit {0}) → Outcome (Unit {0})
unchanged store session result = record { result = result; store = store; session = session }

module _ ⦃py : Python⦄ (fresh : ℕ → Event → String) where
  -- `_consume_one_shot`
  unfoldable pub consume_one_shot :
      Store → Session → Call → String → Option String → Outcome (Unit {0})
  consume_one_shot store session c scope rule_id =
      elim (same_text rule_id (some "approval.granted")) [
        | false ↦ unchanged store session (ok tt)
        | true ↦ elim (from_events session.events) [
          | err x ↦ unchanged store session (err x)
          | ok authorization ↦ elim (consumable_approval authorization c.run_id scope c.now) [
            | none ↦ unchanged store session (ok tt)
            | some approval ↦ consume_approval fresh store session c approval.approval_id scope
          ]
        ]
      ]

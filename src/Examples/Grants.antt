-- ===== src/Examples/Grants.antt =====
-- The authorization calls of a session at concrete inputs.
use aihi.Prelude.{
  ℕ, String, ◌≡◌, refl, true, none, some, List, [], ◌∷◌, ok, err, event_invariant_violation,
}
use aihi.Json.{Fields, pos, str, end, field}
use aihi.Dict
use aihi.Event.{Event, persisted}
use aihi.Policy.Leases
use aihi.Policy.Leases.{CapabilityLease}
use aihi.Policy.Approvals
use aihi.Policy.Approvals.{Approval}
use aihi.Policy.Authorization
use aihi.Policy.Authorization.{
  AuthorizationState, from_events, apply, approval_requested, approval_resolved, approval_consumed,
  resolve, lease_issued, lease_revoked, pending_approval, consumable_approval,
}
use aihi.Sessions.Store
use aihi.Sessions.Store
use aihi.Sessions.Store.{Store, append}
use aihi.Sessions.Session.{
  Session, Outcome, append_many, check_batch, check_event, sync, sync_event,
}
use aihi.Sessions.Projection.{is_message_event, is_compaction}
use aihi.Sessions.Grants.{
  Call, perform, add_metadata, issue_lease_plan, revoke_lease_plan, request_approval_plan,
  resolve_approval_plan, consume_approval_plan, issue_capability_lease, revoke_capability_lease,
  request_approval, resolve_approval, consume_approval,
}
use aihi.Sessions.Grants.Applied.{lease_added, request_added, grant_spent}
use aihi.Sessions.Grants.Replays.{consume_approval-from_events}
use aihi.Runtime.Approvals.{consume_one_shot}
use aihi.Runtime.Approvals.Spent.{spent_state, consume_one_shot-from_events}
use aihi.Examples.Sample.{sample_python}
use aihi.Examples.Stores.{info}
use aihi.Examples.Policy.{shell, asked, answered}

abbrev new_id : ℕ → Event → String
new_id n e = e.id

-- A store that holds one session with `n` events of which none has an id that is used below.
abbrev at : ℕ → Store
at n = record { sessions = ("s", info n) ∷ []; events = ("s", []) ∷ []; event_sessions = [] }

abbrev session : ℕ → List Event → Session
session n events = record { id = "s"; metadata = end; head_seq = n; events = events; messages = [] }

abbrev call : String → Call
call run = record { now = 3; stamp = "now"; event_id = "new"; run_id = run }

calls : Unit {0}
unfolding Store.finite_fields from_events apply approval_requested approval_resolved
    approval_consumed Approvals.from_dict Approvals.approval_eq Dict.lookup Dict.insert Dict.remove
    issue_capability_lease revoke_capability_lease request_approval resolve_approval
    consume_approval perform add_metadata issue_lease_plan revoke_lease_plan request_approval_plan
    resolve_approval_plan consume_approval_plan append_many append check_batch check_event sync
    sync_event is_message_event is_compaction Leases.issue Leases.from_dict Leases.to_dict
    lease_issued lease_revoked Leases.sorted Approvals.active Approvals.issue Approvals.to_dict
    pending_approval resolve consumable_approval consume_one_shot Dict.values Approvals.covers
calls = tt

abbrev lease : CapabilityLease
lease = record { lease_id = "l"; run_id = "r"; capabilities = "process.exec" ∷ []; expires_at = 8 }

abbrev nothing : AuthorizationState
nothing = Authorization.empty

no_events : from_events [] ≡ ok nothing
unfolding calls
no_events = refl

issues :
    (issue_capability_lease new_id
      (at 0)
      (session 0 [])
      (call "r")
      "l"
      ("process.exec" ∷ [])
      (pos 5)
      "user").result
    ≡ ok lease
unfolding calls
issues = refl

abbrev issued_log : List Event
issued_log =
    (issue_capability_lease new_id (at 0) (session 0 []) (call "r") "l" ("process.exec" ∷ [])
      (pos 5) "user").session.events

issued_replays : from_events issued_log ≡ ok (lease_added nothing lease)
unfolding calls
issued_replays = refl

abbrev again : Call
again = record (call "r") { event_id = "newer" }

revokes :
    (revoke_capability_lease new_id (at 1) (session 1 issued_log) again "l" "user").result ≡ ok tt
unfolding calls
revokes = refl

-- A note of the caller.
abbrev note : Fields
note = field "tool_call_id" (str "c1") end

requests :
    (request_approval new_id
      (at 0)
      (session 0 [])
      (call "r")
      "a"
      "bash"
      "user"
      (some (pos 2))
      note).result
    ≡ ok shell
unfolding calls
requests = refl

abbrev waiting_log : List Event
waiting_log = persisted asked 1 ∷ []

waiting : from_events waiting_log ≡ ok (request_added nothing shell)
unfolding calls
waiting = refl

resolves :
    (resolve_approval new_id (at 1) (session 1 waiting_log) (call "r") "a" true "user" true).result
    ≡ ok (some shell)
unfolding calls
resolves = refl

abbrev granted_log : List Event
granted_log = persisted asked 1 ∷ persisted (answered "granted") 2 ∷ []

abbrev granted : AuthorizationState
granted = record nothing {
  approvals = ("a", record shell { one_shot = true }) ∷ [];
  seen_approval_ids = "a" ∷ [];
  resolved_approval_ids = "a" ∷ [];
}

grant_replays : from_events granted_log ≡ ok granted
unfolding calls
grant_replays = refl

consumes :
    (consume_approval new_id (at 2) (session 2 granted_log) (call "other") "a" "bash").result
    ≡ ok tt
unfolding calls
consumes = refl

-- Another run consumes the grant: the call returns, and the log is broken.
consume_approval-from_events_example :
    from_events
      (consume_approval new_id
        (at 2)
        (session 2 granted_log)
        (call "other")
        "a"
        "bash").session.events
    ≡ err event_invariant_violation
unfolding calls
consume_approval-from_events_example =
    consume_approval-from_events new_id (at 2) (session 2 granted_log) (call "other") granted
      grant_replays "a" "bash" tt (record shell { one_shot = true }) refl consumes

-- A run without a name asks for an approval: the call returns, and the log is broken.
unnamed_run_asks :
    (request_approval new_id (at 0) (session 0 []) (call "") "a" "bash" "user" none end).result
    ≡ ok (record shell { expires_at = none; run_id = some "" })
unfolding calls
unnamed_run_asks = refl

unnamed_run_breaks :
    from_events
      (request_approval new_id
        (at 0)
        (session 0 [])
        (call "")
        "a"
        "bash"
        "user"
        none
        end).session.events
    ≡ err event_invariant_violation
unfolding calls
unnamed_run_breaks = refl

-- The run of the grant spends it, and a rule that is no approval spends nothing.
abbrev spends : Outcome (Unit {0})
spends =
    consume_one_shot new_id (at 2) (session 2 granted_log) (call "r") "bash"
      (some "approval.granted")

spends_runs : spends.result ≡ ok tt
unfolding calls
spends_runs = refl

spends_nothing :
    (consume_one_shot new_id
      (at 2)
      (session 2 granted_log)
      (call "r")
      "bash"
      (some "tool.read_only")).session
    ≡ session 2 granted_log
unfolding calls
spends_nothing = refl

spends_a : spent_state granted (call "r") "bash" (some "approval.granted") ≡ grant_spent granted "a"
unfolding calls spent_state
spends_a = refl

consume_one_shot-from_events_example :
    from_events spends.session.events
    ≡ ok (spent_state granted (call "r") "bash" (some "approval.granted"))
consume_one_shot-from_events_example =
    consume_one_shot-from_events new_id (at 2) (session 2 granted_log) (call "r") "bash"
      (some "approval.granted") granted grant_replays spends_runs

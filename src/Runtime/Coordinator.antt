-- ===== src/Runtime/Coordinator.antt =====
-- runtime/coordinator.py: how `RunCoordinator` closes a run, and how it abandons one. Generated ids
-- and times are arguments; the model's response is left out of the result of a run, and hooks,
-- recorders and telemetry, whose exceptions are dropped here, are left out.
pub mod Ended
use aihi.Prelude.{
  ℕ, String, Bool, true, false, Option, none, some, List, [], ◌∷◌, ◌++◌, Result, Error, ok, err,
  value_error, ◌>>=◌, map, contains, if◌then◌else◌,
}
use aihi.Json.{Fields, str, arr, end, field, set_field, items_of}
use aihi.Event.{Event, new_event}
use aihi.Python.{Python}
use aihi.Messages.{ToolCallBlock}
use aihi.Sessions.Store.{Store}
use aihi.Sessions.Projection.{find_orphan_tool_calls}
use aihi.Sessions.Session.{Session, Outcome, append_many}
use aihi.Sessions.Repair.{Fresh, repair_orphan_tool_calls}
use aihi.Runtime.State.{RunState, transition}
use aihi.Runtime.State.Ends.{is_final}
use aihi.Runtime.Lifecycle.{terminal_run_events, last_lifecycle_event, suspended_runs}

abbrev pub state_value : RunState → String
state_value RunState.created = "created"
state_value RunState.running = "running"
state_value RunState.waiting_tool = "waiting_tool"
state_value RunState.waiting_approval = "waiting_approval"
state_value RunState.completed = "completed"
state_value RunState.failed = "failed"
state_value RunState.interrupted = "interrupted"
state_value RunState.cancelled = "cancelled"

pub record RunResult : Type 0 where
  pub run_id : String
  pub state : RunState
  pub error : Option String
  pub pending_approval_id : Option String
  pub pending_tool_call_ids : List String

abbrev pub plain_result : String → RunState → Option String → RunResult
plain_result run_id state error = record {
  run_id = run_id;
  state = state;
  error = error;
  pending_approval_id = none;
  pending_tool_call_ids = [];
}

-- The ids and the time that a batch of two events takes.
pub record Stamps : Type 0 where
  pub first_id : String
  pub second_id : String
  pub now : String

-- `{**fields, **more}`
abbrev pub with_fields : Fields → Fields → Fields
with_fields fields end = fields
with_fields fields (field k v more) = with_fields (set_field fields k v) more

abbrev pub state_changed : Stamps → Session → String → RunState → Event
state_changed s session run_id state =
    new_event s.first_id s.now "run.state_changed" session.id (some run_id)
      (field "state" (str (state_value state)) end)

abbrev pub terminal_event : Stamps → Session → String → String → RunState → Fields → Event
terminal_event s session run_id type state more =
    new_event s.second_id s.now type session.id (some run_id)
      (with_fields (field "state" (str (state_value state)) end) more)

abbrev pub cancel_events : Stamps → Session → String → String → List Event
cancel_events s session run_id reason =
    state_changed s session run_id RunState.cancelled
    ∷ terminal_event s session run_id "run.cancelled" RunState.cancelled
        (field "reason" (str reason) end)
    ∷ []

abbrev pub refused : Store → Session → Outcome RunResult
refused store session = record { result = err value_error; store = store; session = session }

-- The state of the machine behind `_finish`, and the events that it commits.
unfoldable pub finish_events :
    Stamps
    → Session
    → String
    → RunState
    → RunState
    → String
    → Fields
    → Result (RunState × List Event)
finish_events s session run_id machine target type more =
    if is_final machine
    then ok (machine, terminal_event s session run_id type machine more ∷ [])
    else do
      state ← transition machine target
      ok (
        state,
        state_changed s session run_id state ∷ terminal_event s session run_id type state more ∷ [],
      )

module _ ⦃py : Python⦄ (fresh : ℕ → Event → String) where
  -- `_finish`: the machine has moved also where the append raises.
  unfoldable pub finish :
      Stamps
      → Store
      → Session
      → String
      → RunState
      → RunState
      → String
      → Fields
      → RunState × Outcome (List Event)
  finish s store session run_id machine target type more =
      elim (finish_events s session run_id machine target type more) [
        | err x ↦ (machine, record { result = err x; store = store; session = session })
        | ok (state, events) ↦ (state, append_many fresh store session events)
      ]

  -- `_repair_after_interrupt`
  unfoldable pub repair_after_interrupt : Fresh → Store → Session → String → Outcome (List Event)
  repair_after_interrupt f store session run_id = elim (find_orphan_tool_calls session.messages) [
    | err x ↦ record { result = err x; store = store; session = session }
    | ok [] ↦ record { result = ok []; store = store; session = session }
    | ok (c ∷ cs) ↦ repair_orphan_tool_calls fresh f store session run_id []
  ]

  abbrev pub finished : RunState × Outcome (List Event) → String → Option String → Outcome RunResult
  finished (state, o) run_id error = record {
    result = o.result >>= λ _. ok (plain_result run_id state error);
    store = o.store;
    session = o.session;
  }

  -- The handlers of `run` for a run that failed or was cancelled.
  unfoldable pub stop_run :
      Fresh
      → Stamps
      → Store
      → Session
      → String
      → RunState
      → RunState
      → String
      → Fields
      → String
      → Outcome RunResult
  stop_run f s store session run_id machine target type more error =
      let repaired = repair_after_interrupt f store session run_id in
      elim repaired.result [
        | err x ↦ record { result = err x; store = repaired.store; session = repaired.session }
        | ok saved ↦
            finished (finish s repaired.store repaired.session run_id machine target type more)
              run_id (some error)
      ]

  abbrev pub fail_run :
      Fresh → Stamps → Store → Session → String → RunState → String → Outcome RunResult
  fail_run f s store session run_id machine error =
      stop_run f s store session run_id machine RunState.failed "run.failed"
        (field "error" (str error) end) error

  abbrev pub interrupt_run :
      Fresh → Stamps → Store → Session → String → RunState → Outcome RunResult
  interrupt_run f s store session run_id machine =
      stop_run f s store session run_id machine RunState.interrupted "run.interrupted" end
        "run_interrupted"

  -- The loop has returned: an exception of `_finish` is the failure of the run, with its text.
  unfoldable pub complete_run :
      (Error → String)
      → Fresh
      → Stamps
      → Stamps
      → Store
      → Session
      → String
      → RunState
      → Outcome RunResult
  complete_run error_text f s s' store session run_id machine =
      let (state, o) =
        finish s store session run_id machine RunState.completed "run.completed" end in
      elim o.result [
        | ok saved ↦ finished (state, o) run_id none
        | err x ↦ fail_run f s' o.store o.session run_id state (error_text x)
      ]

  -- A suspension is no terminal event.
  unfoldable pub suspend_run :
      String
      → String
      → Store
      → Session
      → String
      → RunState
      → String
      → List String
      → Outcome RunResult
  suspend_run event_id now store session run_id machine approval_id pending =
      let o = append_many fresh store session (
        new_event event_id now "run.suspended" session.id (some run_id) (
          field "state" (str (state_value machine)) (
            field "reason" (str "approval_required") (
              field "approval_id" (str approval_id)
                (field "pending_tool_call_ids" (arr (items_of (map str pending))) end))))
        ∷ []) in
      record {
        result = o.result >>= λ _. ok (record {
          run_id = run_id;
          state = machine;
          error = none;
          pending_approval_id = some approval_id;
          pending_tool_call_ids = pending;
        });
        store = o.store;
        session = o.session;
      }

  abbrev pub cancel_run : Stamps → Store → Session → String → String → Outcome RunResult
  cancel_run s store session run_id reason =
      finished
        (
          RunState.cancelled,
          append_many fresh store session (cancel_events s session run_id reason),
        )
        run_id (some "run_cancelled")

  -- `abandon`
  unfoldable pub abandon : Fresh → Stamps → Store → Session → String → String → Outcome RunResult
  abandon f s store session run_id reason =
      if contains run_id (suspended_runs session.events)
      then (let o = repair_orphan_tool_calls fresh f store session run_id [] in
          elim o.result [
            | err x ↦ record { result = err x; store = o.store; session = o.session }
            | ok saved ↦ cancel_run s o.store o.session run_id reason
          ])
      else elim (last_lifecycle_event session.events run_id) [
        | none ↦ refused store session
        | some type ↦
            if contains type terminal_run_events
            then refused store session
            else cancel_run s store session run_id reason
      ]

-- ===== src/Examples/Runs.antt =====
-- The life of a run at concrete inputs.
use aihi.Prelude.{
  ℕ, String, ◌≡◌, refl, none, some, List, [], ◌∷◌, ◌++◌, ok, err, contains, value_error,
}
use aihi.Json.{end, pos}
use aihi.Dict
use aihi.Event.{Event, persisted, same_text}
use aihi.Sessions.Store
use aihi.Sessions.Store.{Store, SessionInfo}
use aihi.Sessions.Session.{
  Session, Outcome, append_many, check_batch, check_event, sync, sync_event,
}
use aihi.Sessions.Projection.{is_message_event, is_compaction, find_orphan_tool_calls}
use aihi.Sessions.Repair.{Fresh, repair_orphan_tool_calls}
use aihi.Runtime.State.{RunState, transition, transitions}
use aihi.Runtime.Lifecycle.{last_lifecycle_event, suspended_runs, last_events}
use aihi.Runtime.Lifecycle.Suspended.{contains-suspended_runs}
use aihi.Runtime.Coordinator.{
  RunResult, Stamps, plain_result, state_changed, terminal_event, refused, finish, finish_events,
  abandon,
}
use aihi.Runtime.Coordinator.Ended.{finish-ends}
use aihi.Runtime.Opening.{ResumeRequest, check_run, resume_request}
use aihi.Runtime.Opening.Refused.{abandon-stays_closed}
use aihi.Examples.Sample.{sample_python, event}
use aihi.Examples.Stores.{created}

abbrev new_id : ℕ → Event → String
new_id n e = e.id

abbrev session : Session
session = record { id = "s"; metadata = end; head_seq = 0; events = []; messages = [] }

abbrev stamps : Stamps
stamps = record { first_id = "e1"; second_id = "e2"; now = "now" }

runs : Unit {0}
unfolding Store.finite_fields append_many check_batch check_event sync sync_event Store.append
    Dict.lookup Dict.insert finish finish_events transition transitions abandon suspended_runs
    last_events last_lifecycle_event repair_orphan_tool_calls find_orphan_tool_calls
    is_message_event is_compaction Dict.values
runs = tt

abbrev finishes : RunState × Outcome (List Event)
finishes =
    finish new_id stamps created session "r" RunState.running RunState.completed "run.completed" end

abbrev closing : List Event
closing =
    persisted (state_changed stamps session "r" RunState.completed) 1
    ∷ persisted (terminal_event stamps session "r" "run.completed" RunState.completed end) 2
    ∷ []

finish_runs : finishes.1.result ≡ ok closing
unfolding runs
finish_runs = refl

finish-ends_example : (finishes.0 ≡ RunState.completed) × (finishes.1.session.events ≡ closing)
finish-ends_example =
    finish-ends new_id stamps created session "r" "run.completed" RunState.running
      RunState.completed end closing refl finish_runs

-- A log with a run that waits for an approval.
abbrev started : Event
started = event "e8" "run.started" (some "r") end

abbrev waiting : Event
waiting = event "e9" "run.suspended" (some "r") end

abbrev log : List Event
log = started ∷ waiting ∷ []

is_suspended : suspended_runs log ≡ ("r" ∷ [])
unfolding runs
is_suspended = refl

contains-suspended_runs_example :
    contains "r" (suspended_runs log)
    ≡ same_text (last_lifecycle_event log "r") (some "run.suspended")
contains-suspended_runs_example = contains-suspended_runs log "r"

abbrev suspended : Session
suspended = record session { events = log }

abbrev fresh_ids : Fresh
fresh_ids = record { message_id = "m2"; first_id = "e3"; second_id = "e4"; now = "now" }

abbrev resumption : ResumeRequest
resumption = record {
  run_id = "r";
  model = none;
  require_capability_lease = none;
  system_prompt = none;
  max_output_tokens = none;
  max_turns = none;
  run_profile = none;
}

abbrev abandoned : Outcome RunResult
abandoned = abandon new_id fresh_ids stamps created suspended "r" "user"

abandons : abandoned.result ≡ ok (plain_result "r" RunState.cancelled (some "run_cancelled"))
unfolding runs
abandons = refl

abbrev hash : String → String
hash prompt = prompt

-- The same session with an event of another run behind it.
abbrev later : Session
later = record abandoned.session {
  events = abandoned.session.events ++ event "e12" "run.started" (some "q") end ∷ [];
}

abandon-stays_closed_example :
    (last_lifecycle_event later.events "r" ≡ some "run.cancelled")
    × (check_run later.events "r" end ≡ err value_error)
    × (resume_request hash (pos 8) later.events resumption ≡ err value_error)
    × (abandon new_id fresh_ids stamps abandoned.store later "r" "user"
        ≡ refused abandoned.store later)
abandon-stays_closed_example =
    abandon-stays_closed new_id fresh_ids fresh_ids stamps stamps created abandoned.store suspended
      later "user" "user" _ hash (pos 8) resumption end
      (event "e12" "run.started" (some "q") end ∷ []) abandons refl refl

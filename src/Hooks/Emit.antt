-- ===== src/Hooks/Emit.antt =====
-- `HookBus.emit` of hooks/bus.py, on the registrations of the event in their order.
use aihi.Prelude.{
  String, Bool, true, false, not, ◌&&◌, Option, none, some, List, [], ◌∷◌, ◌++◌, Result, ok, err,
  hook_governance_error, hook_dispatch_error, cancelled_error, ◌>>=◌, ◌>>◌, raise_if, any,
  if◌then◌else◌,
}
use aihi.Json.{Fields}
use aihi.Hooks.{
  HookFailurePolicy, HookGovernance, allows_mutation, HookEvent, HandlerEnd, returned, timed_out,
  cancelled, failed, HookRegistration, HookBus, registrations,
}

pub record HookOutcome : Type 0 where
  pub hook_id : String
  pub event_name : String
  pub success : Bool
  pub error_code : Option String

pub record HookDispatch : Type 0 where
  pub event : HookEvent
  pub outcomes : List HookOutcome

abbrev pub is_fail_fast : HookFailurePolicy → Bool
is_fail_fast HookFailurePolicy.fail_fast = true
is_fail_fast HookFailurePolicy.continue = false

unfoldable pub may_mutate : Option HookGovernance → Bool
may_mutate none = false
may_mutate (some g) = allows_mutation g

module _ {W : Type 0} where
  abbrev pub outcome : HookRegistration W → HookEvent → Bool → Option String → HookOutcome
  outcome r event success error_code = record {
    hook_id = r.hook_id;
    event_name = event.name;
    success = success;
    error_code = error_code;
  }

  -- what an end of a call is recorded as; a cancellation is raised on
  unfoldable pub outcome_of : HookRegistration W → HookEvent → HandlerEnd → Result HookOutcome
  outcome_of r event returned = ok (outcome r event true none)
  outcome_of r event timed_out = ok (outcome r event false (some "hook_timeout"))
  outcome_of r event cancelled = err cancelled_error
  outcome_of r event (failed code) = ok (outcome r event false (some code))

  -- Recording the end of a call, which raises for a failure under `fail_fast`.
  unfoldable pub settle : HookRegistration W → HookEvent → HandlerEnd → Result HookOutcome
  settle r event end = do
    o ← outcome_of r event end
    raise_if (not o.success && is_fail_fast r.failure_policy) hook_dispatch_error
    ok o

  -- The loop over the registrations, with the outcomes so far.
  unfoldable pub dispatch :
      HookEvent → List (HookRegistration W) → List HookOutcome → W → W × Result (List HookOutcome)
  dispatch event [] outcomes w = (w, ok outcomes)
  dispatch event (r ∷ rs) outcomes w =
      let (w', end) = r.handler event w in
      elim (settle r event end) [
        | err x ↦ (w', err x)
        | ok o ↦ dispatch event rs (outcomes ++ o ∷ []) w'
      ]

  unfoldable pub emit :
      HookBus W → String → Fields → Option HookGovernance → W → W × Result HookDispatch
  emit bus name payload governance w =
      let event : HookEvent = record { name = name; payload = payload; governance = governance } in
      let regs = registrations bus name in
      if any (λ r. r.mutates) regs && not (may_mutate governance)
      then (w, err hook_governance_error)
      else (let (w', result) = dispatch event regs [] w in
          (w', result >>= λ outcomes. ok (record { event = event; outcomes = outcomes })))

-- ===== src/Examples/Hooks.antt =====
-- A bus with three hooks, whose handlers count their calls.
use aihi.Prelude.{
  ℕ, suc, String, ◌≡◌, refl, true, false, none, some, [], ◌∷◌, Option, ok, err, map, contains,
  hook_registration_error, hook_governance_error, here, there, ap,
}
use aihi.Json.{pos, negsuc, end, ℤ}
use aihi.Dict
use aihi.Text.{strip}
use aihi.Hooks.{
  HookFailurePolicy, HookGovernance, HookEvent, HandlerEnd, HookRegistration, HookBus, HookRequest,
  new_bus, check_request, enter, register, handlers_of, others, unregister, drop_hook, holds_hook,
  registrations, sort_registrations, insert_registration, is_before,
}
use aihi.Hooks.Emit.{HookDispatch, emit, dispatch, settle, outcome_of, may_mutate}
use aihi.Hooks.Registry.{register-IsValid}
use aihi.Hooks.Validity.{IsValid, new_bus-IsValid}
use aihi.Hooks.Removal.{unregister_lem}
use aihi.Hooks.Emission.{AreOutcomes, call_all, emit-AreOutcomes, emit_ungoverned}
use aihi.Examples.Sample.{sample_python}

abbrev count : HandlerEnd → HookEvent → ℕ → ℕ × HandlerEnd
count how event n = (suc n, how)

abbrev request : String → ℤ → HandlerEnd → HookRequest ℕ
request id priority how = record {
  event_name = "tool.started";
  handler = count how;
  hook_id = some id;
  priority = priority;
  timeout_seconds = none;
  failure_policy = HookFailurePolicy.continue;
  mutates = false;
  trusted = true;
  source = "test";
}

abbrev bare : HookBus ℕ
bare = record { handlers = []; ids = []; sequence = 0; timeout_seconds = pos 5 }

hooks : Unit {0}
unfolding new_bus check_request enter register handlers_of others unregister drop_hook holds_hook
    registrations sort_registrations insert_registration is_before emit dispatch settle outcome_of
    may_mutate Dict.lookup Dict.insert strip
hooks = tt

bare-IsValid : IsValid bare
unfolding hooks
bare-IsValid = new_bus-IsValid (pos 5) bare refl

abbrev last : HookRequest ℕ
last = request "last" (pos 1) HandlerEnd.returned

abbrev first : HookRequest ℕ
first = record (request "first" (negsuc 0) (HandlerEnd.failed "oops")) { mutates = true }

-- The second registration goes before the first one.
abbrev bus : HookBus ℕ
bus = (register (register bare last).0 first).0

order :
    map (λ (r : HookRegistration ℕ). r.hook_id) (registrations bus "tool.started")
    ≡ ("first" ∷ "last" ∷ [])
unfolding hooks
order = refl

again : (register bus last).1 ≡ err hook_registration_error
unfolding hooks
again = refl

register-IsValid_example : IsValid (register bare last).0
register-IsValid_example = register-IsValid bare last bare-IsValid

bus-IsValid : IsValid bus
bus-IsValid =
    register-IsValid (register bare last).0 first (register-IsValid bare last bare-IsValid)

unregister_lem_example :
    IsValid (unregister bus "first").0
    × ((unregister bus "first").1 ≡ ok (contains "first" bus.ids))
    × (contains "first" (unregister bus "first").0.ids ≡ false)
    × ((n : String) → handlers_of (unregister bus "first").0 n ≡ others "first" (handlers_of bus n))
unregister_lem_example = unregister_lem bus "first" bus-IsValid

abbrev allowed : Option HookGovernance
allowed =
    some (record {
      run_id = none;
      policy_allowed = true;
      approval_id = none;
      capability_lease_ids = [];
    })

abbrev dispatched : HookDispatch
dispatched = record {
  event = record { name = "tool.started"; payload = end; governance = allowed };
  outcomes =
      record {
        hook_id = "first";
        event_name = "tool.started";
        success = false;
        error_code = some "oops";
      }
      ∷ record { hook_id = "last"; event_name = "tool.started"; success = true; error_code = none }
      ∷ [];
}

emits : emit bus "tool.started" end allowed 0 ≡ (2, ok dispatched)
unfolding hooks
emits = refl

emit-AreOutcomes_example :
    AreOutcomes (registrations bus "tool.started") dispatched.outcomes
    × ((emit bus "tool.started" end allowed 0).0
        ≡ call_all dispatched.event (registrations bus "tool.started") 0)
    × (dispatched.event ≡ record { name = "tool.started"; payload = end; governance = allowed })
emit-AreOutcomes_example =
    emit-AreOutcomes bus "tool.started" end allowed 0 dispatched (ap (λ r. r.1) emits)

emit_ungoverned_example : emit bus "tool.started" end none 0 ≡ (0, err hook_governance_error)
unfolding hooks
emit_ungoverned_example =
    emit_ungoverned bus "tool.started" end none 0 _ (there (here refl)) refl refl

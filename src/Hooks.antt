-- ===== src/Hooks.antt =====
-- packages/aihi/agent/src/aihi/agent/hooks/bus.py. A handler is a call from outside: a function of
-- the event and of a world `W` to the world it leaves and to how it ended, by the timeout too. The
-- clock's `elapsed_ms` and the texts of errors are left out. A priority is an integer and a timeout
-- a whole number of some small unit; the arguments have the types that `register` asks for.
pub mod Emit
pub mod Validity
pub mod Registry
pub mod Removal
pub mod Ordering
pub mod Emission
use aihi.Prelude.{
  ℕ, suc, String, Bool, true, false, not, ◌&&◌, ◌||◌, Option, none, some, List, [], ◌∷◌, ◌++◌,
  Result, ok, err, hook_registration_error, hook_governance_error, hook_dispatch_error,
  cancelled_error, value_error, key_error, ◌>>=◌, ◌>>◌, raise_if, filter, any, length, contains,
  leb, nat_eq, ◌==◌, if◌then◌else◌,
}
use aihi.Json.{ℤ, pos, Fields, int}
use aihi.Dict
use aihi.Dict.{Dict}
use aihi.Text.{is_space, strip, any_char, text_append}
use aihi.Python.{Python, text}
use aihi.Agents.Types.{is_positive, leb_int}

pub data HookFailurePolicy : Type 0 where
  fail_fast continue : HookFailurePolicy

pub record HookGovernance : Type 0 where
  pub run_id : Option String
  pub policy_allowed : Bool
  pub approval_id : Option String
  pub capability_lease_ids : List String

abbrev pub allows_mutation : HookGovernance → Bool
allows_mutation g = g.policy_allowed

pub record HookEvent : Type 0 where
  pub name : String
  pub payload : Fields
  pub governance : Option HookGovernance

-- How a call of a handler ended; `failed` has the code of the exception.
pub data HandlerEnd : Type 0 where
  returned timed_out cancelled : HandlerEnd
  failed : String → HandlerEnd

pub record HookRegistration (W : Type 0) : Type 0 where
  pub hook_id : String
  pub event_name : String
  pub handler : HookEvent → W → W × HandlerEnd
  pub priority : ℤ
  pub sequence : ℕ
  pub timeout_seconds : ℤ
  pub failure_policy : HookFailurePolicy
  pub mutates : Bool
  pub trusted : Bool
  pub source : String

pub record HookBus (W : Type 0) : Type 0 where
  pub handlers : Dict (List (HookRegistration W))
  pub ids : List String
  pub sequence : ℕ
  pub timeout_seconds : ℤ

-- the arguments of `register`
pub record HookRequest (W : Type 0) : Type 0 where
  pub event_name : String
  pub handler : HookEvent → W → W × HandlerEnd
  pub hook_id : Option String
  pub priority : ℤ
  pub timeout_seconds : Option ℤ
  pub failure_policy : HookFailurePolicy
  pub mutates : Bool
  pub trusted : Bool
  pub source : String

abbrev pub option_or {ℓ} : {A : Type ℓ} → A → Option A → A
option_or d none = d
option_or d (some a) = a

abbrev pub given_id : Option String → Option String
given_id none = none
given_id (some id) = if id == "" then none else some id

unfoldable pub new_bus : {W : Type 0} → ℤ → Result (HookBus W)
new_bus timeout = do
  raise_if (not (is_positive timeout)) value_error
  ok (record { handlers = []; ids = []; sequence = 0; timeout_seconds = timeout })

module _ {W : Type 0} where
  -- the registrations of an event; a missing key of the `defaultdict` is the empty list
  unfoldable pub handlers_of : HookBus W → String → List (HookRegistration W)
  handlers_of bus name = option_or [] (Dict.lookup bus.handlers name)

  -- what `register` checks before it counts
  unfoldable pub check_request : ℤ → HookRequest W → Result ℤ
  check_request default_timeout request =
      let timeout = option_or default_timeout request.timeout_seconds in
      do
        raise_if (request.event_name == "" || any_char is_space request.event_name)
            hook_registration_error
        raise_if (not (is_positive timeout)) hook_registration_error
        raise_if (request.mutates && not request.trusted) hook_registration_error
        raise_if (strip request.source == "") hook_registration_error
        ok timeout

  abbrev pub new_registration : HookRequest W → String → ℤ → ℕ → HookRegistration W
  new_registration request identifier timeout sequence = record {
    hook_id = identifier;
    event_name = request.event_name;
    handler = request.handler;
    priority = request.priority;
    sequence = sequence;
    timeout_seconds = timeout;
    failure_policy = request.failure_policy;
    mutates = request.mutates;
    trusted = request.trusted;
    source = request.source;
  }

  -- Behind the checks the bus has counted; a refused id leaves it so.
  unfoldable pub enter : HookBus W → HookRequest W → String → ℤ → HookBus W × Result String
  enter bus request identifier timeout =
      if strip identifier == "" || contains identifier bus.ids
      then (bus, err hook_registration_error)
      else (
        record bus {
          handlers = Dict.insert bus.handlers request.event_name (
              handlers_of bus request.event_name
              ++ new_registration request identifier timeout bus.sequence ∷ []);
          ids = identifier ∷ bus.ids;
        },
        ok identifier,
      )

  unfoldable pub register : ⦃py : Python⦄ → HookBus W → HookRequest W → HookBus W × Result String
  register bus request = elim (check_request bus.timeout_seconds request) [
    | err x ↦ (bus, err x)
    | ok timeout ↦
        let counted = record bus { sequence = suc bus.sequence } in
        let generated = text_append "hook-" (text (int (pos (suc bus.sequence)))) in
        enter counted request (option_or generated (given_id request.hook_id)) timeout
  ]

  unfoldable pub others : String → List (HookRegistration W) → List (HookRegistration W)
  others hook_id = filter (λ r. not (r.hook_id == hook_id))

  unfoldable pub drop_hook :
      String → Dict (List (HookRegistration W)) → Dict (List (HookRegistration W))
  drop_hook hook_id [] = []
  drop_hook hook_id ((name, regs) ∷ d) = (name, others hook_id regs) ∷ drop_hook hook_id d

  unfoldable pub holds_hook : String → Dict (List (HookRegistration W)) → Bool
  holds_hook hook_id d =
      any (λ entry. not (nat_eq (length (others hook_id (entry.1))) (length (entry.1)))) d

  unfoldable pub unregister : HookBus W → String → HookBus W × Result Bool
  unregister bus hook_id =
      let left = record bus { handlers = drop_hook hook_id bus.handlers } in
      if holds_hook hook_id bus.handlers
      then if contains hook_id bus.ids
        then (record left { ids = filter (λ i. not (i == hook_id)) bus.ids }, ok true)
        else (left, err key_error)
      else (bus, ok false)

  -- `(priority, sequence)` is at most that of the other
  unfoldable pub is_before : HookRegistration W → HookRegistration W → Bool
  is_before r q =
      if leb_int r.priority q.priority
      then not (leb_int q.priority r.priority) || leb r.sequence q.sequence
      else false

  -- `sorted` keeps the order of equals
  unfoldable pub insert_registration :
      HookRegistration W → List (HookRegistration W) → List (HookRegistration W)
  insert_registration r [] = r ∷ []
  insert_registration r (q ∷ qs) =
      let rest = insert_registration r qs in if is_before r q then r ∷ q ∷ qs else q ∷ rest

  unfoldable pub sort_registrations : List (HookRegistration W) → List (HookRegistration W)
  sort_registrations [] = []
  sort_registrations (r ∷ rs) = insert_registration r (sort_registrations rs)

  unfoldable pub registrations : HookBus W → String → List (HookRegistration W)
  registrations bus name = sort_registrations (handlers_of bus name)

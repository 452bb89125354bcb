-- ===== src/Runtime/Opening.antt =====
-- runtime/coordinator.py: how `RunCoordinator.run` opens or resumes a run, and which configuration
-- `RunCoordinator.resume` hands it. The hash of the system prompt is the argument `sha256`; the
-- name of the provider is an argument. The tests of an argument's Python type have nothing to
-- refuse, but those of what was stored have.
pub mod Refused
use aihi.Prelude.{
  ℕ, String, Bool, true, false, not, ◌&&◌, ◌||◌, Option, none, some, List, [], ◌∷◌, ◌++◌, any,
  Result, ok, err, value_error, ◌>>=◌, ◌>>◌, raise_if, or_raise, contains, is_some, ◌==◌,
  if◌then◌else◌,
}
use aihi.Json.{
  ℤ, Json, Fields, pos, null, bool, int, str, obj, end, field, get, get_or, has_field, as_dict,
  is_null,
}
use aihi.Event.{Event, new_event}
use aihi.Python.{Python, text}
use aihi.Messages.{Message}
use aihi.Agents.Types.{is_positive}
use aihi.Sessions.Store.{Store}
use aihi.Sessions.Session.{Session, Outcome, append_many}
use aihi.Sessions.Repair.{message_event}
use aihi.Sessions.Refresh.{refresh}
use aihi.Runtime.Lifecycle.{
  non_resumable_run_events, last_lifecycle_event, run_started_event, suspended_tool_call_ids,
}

-- What a run is asked for with.
pub record RunRequest : Type 0 where
  pub run_id : String
  pub model : String
  pub require_capability_lease : Bool
  pub system_prompt : String
  pub max_output_tokens : ℤ
  pub max_turns : ℤ
  pub run_profile : Option Fields
  pub user_message : Option Message

abbrev pub profile_or_empty : Option Fields → Fields
profile_or_empty none = end
profile_or_empty (some profile) = profile

-- `_run_configuration_data`
unfoldable pub run_configuration_data : (String → String) → String → RunRequest → Fields
run_configuration_data sha256 provider r = field "model" (str r.model) (
    field "provider" (str provider) (
      field "require_capability_lease" (bool r.require_capability_lease) (
        field "system_prompt_sha256" (str (sha256 r.system_prompt)) (
          field "max_output_tokens" (int r.max_output_tokens) (
            field "max_turns" (int r.max_turns)
              (field "application_profile" (obj (profile_or_empty r.run_profile)) end))))))

abbrev pub compared_keys : List String
compared_keys =
    "model" ∷ "provider" ∷ "require_capability_lease" ∷ "system_prompt_sha256" ∷ "max_output_tokens"
    ∷ "max_turns" ∷ "application_profile" ∷ []

module _ ⦃py : Python⦄ where
  -- `_validate_run_configuration`
  abbrev pub differs : Fields → Fields → String → Bool
  differs persisted current key =
      has_field persisted key && not (py.equal (get persisted key) (get current key))

  unfoldable pub validate_run_configuration : Fields → Fields → Result (Unit {0})
  validate_run_configuration persisted current =
      raise_if (any (differs persisted current) compared_keys) value_error

  -- What `run` checks of the log behind its refresh: whether the run was started before.
  unfoldable pub check_run : List Event → String → Fields → Result Bool
  unfolding validate_run_configuration
  check_run events run_id configuration = elim (last_lifecycle_event events run_id) [
    | none ↦ ok false
    | some type ↦ do
      raise_if (contains type non_resumable_run_events) value_error
      started ← or_raise (run_started_event events run_id) value_error
      valid ← validate_run_configuration started.payload configuration
      ok true
  ]

-- The ids and the time of the opening events.
pub record OpeningStamps : Type 0 where
  pub message_id : String
  pub event_id : String
  pub now : String

abbrev pub opening_message : OpeningStamps → Session → RunRequest → List Event
opening_message s session r = elim r.user_message [
  | none ↦ []
  | some m ↦ message_event s.message_id s.now session m (some r.run_id) ∷ []
]

abbrev pub opening_events : OpeningStamps → Session → RunRequest → Fields → Bool → List Event
opening_events s session r configuration already_started =
    opening_message s session r
    ++ new_event s.event_id s.now (if already_started then "run.resumed" else "run.started")
        session.id (some r.run_id) configuration
      ∷ []

-- What `run` goes on with: whether it resumed, and the calls of a suspension to finish.
pub record Opened : Type 0 where
  pub resumed : Bool
  pub suspended_calls : List String

module _ ⦃py : Python⦄ (fresh : ℕ → Event → String) (sha256 : String → String)
    (provider : String) where
  abbrev pub open_refreshed : OpeningStamps → Store → Session → RunRequest → Outcome Opened
  open_refreshed s store session r =
      let configuration = run_configuration_data sha256 provider r in
      elim (check_run session.events r.run_id configuration) [
        | err x ↦ record { result = err x; store = store; session = session }
        | ok already_started ↦
            let o =
              append_many fresh store session
                (opening_events s session r configuration already_started) in
            record {
              result = o.result >>= λ _. ok (record {
                resumed = already_started;
                suspended_calls = suspended_tool_call_ids session.events r.run_id;
              });
              store = o.store;
              session = o.session;
            }
      ]

  -- `run` up to its opening events, on a store that no other owner writes to meanwhile.
  unfoldable pub open_run : OpeningStamps → Store → Session → RunRequest → Outcome Opened
  open_run s store session r =
      if not (is_positive r.max_output_tokens) || not (is_positive r.max_turns)
      then record { result = err value_error; store = store; session = session }
      else (let (refreshed, done) = refresh (fresh 0) (λ _. store) session in
          elim done [
            | err x ↦ record { result = err x; store = store; session = refreshed }
            | ok u ↦ open_refreshed s store refreshed r
          ])

-- What `resume` may be given in place of what is stored.
pub record ResumeRequest : Type 0 where
  pub run_id : String
  pub model : Option String
  pub require_capability_lease : Option Bool
  pub system_prompt : Option String
  pub max_output_tokens : Option ℤ
  pub max_turns : Option ℤ
  pub run_profile : Option Fields

abbrev pub given_or {ℓ} : {A : Type ℓ} → A → Option A → A
given_or d none = d
given_or d (some a) = a

abbrev pub as_bool : Json → Option Bool
as_bool (bool b) = some b
as_bool _ = none

-- an integer above zero
abbrev pub as_positive : Json → Option ℤ
as_positive (int n) = if is_positive n then some n else none
as_positive _ = none

module _ ⦃py : Python⦄ (sha256 : String → String) where
  abbrev pub resumed_prompt : Json → Option String → Result String
  resumed_prompt expected (some prompt) = ok prompt
  resumed_prompt expected none = do
    raise_if (is_null expected) value_error
    raise_if (not (py.equal expected (str (sha256 "")))) value_error
    ok ""

  -- The request that `resume` makes of the events of the refreshed session.
  unfoldable pub resume_request : ℤ → List Event → ResumeRequest → Result RunRequest
  resume_request default_max_turns events r = do
    started ← or_raise (run_started_event events r.run_id) value_error
    type ← or_raise (last_lifecycle_event events r.run_id) value_error
    raise_if (contains type non_resumable_run_events) value_error
    let persisted = started.payload
    let model = given_or (text (get_or persisted "model" (str ""))) r.model
    raise_if (model == "") value_error
    lease ←
        or_raise (as_bool (get_or persisted "require_capability_lease" (bool false))) value_error
    output ←
        or_raise (as_positive (get_or persisted "max_output_tokens" (int (pos 4096)))) value_error
    turns ←
        or_raise (as_positive (get_or persisted "max_turns" (int default_max_turns))) value_error
    raise_if (not (is_positive (given_or turns r.max_turns))) value_error
    profile ← or_raise (as_dict (get_or persisted "application_profile" (obj end))) value_error
    prompt ← resumed_prompt (get persisted "system_prompt_sha256") r.system_prompt
    ok (record {
      run_id = r.run_id;
      model = model;
      require_capability_lease = given_or lease r.require_capability_lease;
      system_prompt = prompt;
      max_output_tokens = given_or output r.max_output_tokens;
      max_turns = given_or turns r.max_turns;
      run_profile = some (given_or profile r.run_profile);
      user_message = none;
    })

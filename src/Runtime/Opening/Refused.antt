-- ===== src/Runtime/Opening/Refused.antt =====
-- Which runs are opened again, and with which configuration.
use aihi.Prelude.{
  ℕ, String, ◌≡◌, refl, true, false, none, some, List, [], ◌∷◌, ◌++◌, ap, ◌∙◌, Bool, any, ok, err,
  value_error, contains, ◌==◌, arith, sym, subst, Option-cases, inl, inr,
}
use aihi.Json.{ℤ, Fields, get}
use aihi.Event.{Event}
use aihi.Python.{Python}
use aihi.Agents.Types.{is_positive}
use aihi.Sessions.Store.{Store}
use aihi.Sessions.Session.{Session}
use aihi.Sessions.Repair.{Fresh}
use aihi.Runtime.Lifecycle.{
  non_resumable_run_events, last_lifecycle_event, run_started_event, is_lifecycle, find_last,
}
use aihi.Runtime.Coordinator.{RunResult, Stamps, refused, abandon}
use aihi.Runtime.Coordinator.Ended.{abandon-ends, abandon-cancelled}
use aihi.Runtime.Opening.{
  RunRequest, ResumeRequest, run_configuration_data, compared_keys, differs,
  validate_run_configuration, check_run, resume_request, profile_or_empty,
}

find_last-none {ℓ} :
    {A : Type ℓ} (p : A → Bool) (xs : List A) → any p xs ≡ false → find_last p xs ≡ none
find_last-none p [] h = refl
find_last-none p (x ∷ xs) h = rw (find_last-none p xs (ground arith)) (ground arith)

find_last-append {ℓ} :
    {A : Type ℓ} (p : A → Bool) (xs ys : List A)
    → any p ys ≡ false
    → find_last p (xs ++ ys) ≡ find_last p xs
find_last-append p [] ys h = find_last-none p ys h
find_last-append p (x ∷ xs) ys h = rw (find_last-append p xs ys h) refl

module _ ⦃py : Python⦄ where
  check_run_ended :
      (events : List Event) (run type : String) (configuration : Fields)
      → last_lifecycle_event events run ≡ some type
      → contains type non_resumable_run_events ≡ true
      → check_run events run configuration ≡ err value_error
  unfolding check_run
  check_run_ended events run type configuration h over = rw (h, check_run, over) refl

  resume_request_ended :
      (sha256 : String → String) (turns : ℤ) (events : List Event) (r : ResumeRequest)
      (type : String)
      → last_lifecycle_event events r.run_id ≡ some type
      → contains type non_resumable_run_events ≡ true
      → resume_request sha256 turns events r ≡ err value_error
  unfolding resume_request
  resume_request_ended sha256 turns events r type h over =
      elim (Option-cases (run_started_event events r.run_id)) [
        | inl e ↦ rw (e, resume_request) refl
        | inr (started, e) ↦ rw (e, resume_request, h, over) refl
      ]

abbrev pub has_lifecycle : String → List Event → Bool
has_lifecycle run = any (is_lifecycle run)

-- Events that say nothing of the run leave its last lifecycle event as it was.
last_lifecycle_event-append :
    (run : String) (events more : List Event)
    → has_lifecycle run more ≡ false
    → last_lifecycle_event (events ++ more) run ≡ last_lifecycle_event events run
unfolding last_lifecycle_event
last_lifecycle_event-append run events more quiet =
    rw (last_lifecycle_event, find_last-append (is_lifecycle run) events more quiet) refl

-- When `abandon` has returned, its run stays closed as long as no lifecycle event of the run is
-- appended behind it: of every session with such a log, the last lifecycle event of the run says
-- that it was cancelled, `run` and `resume` refuse its id whatever else they are given, and
-- abandoning it again raises and changes nothing.
pub abandon-stays_closed :
    ⦃py : Python⦄ (fresh : ℕ → Event → String) (f g : Fresh) (s t : Stamps)
    (store other_store : Store) (session later : Session) (reason other_reason : String)
    (r : RunResult) (sha256 : String → String) (turns : ℤ) (request : ResumeRequest)
    (configuration : Fields) (more : List Event)
    → let o = abandon fresh f s store session request.run_id reason in
      o.result ≡ ok r
      → later.events ≡ o.session.events ++ more
      → has_lifecycle request.run_id more ≡ false
      → (last_lifecycle_event later.events request.run_id ≡ some "run.cancelled")
        × (check_run later.events request.run_id configuration ≡ err value_error)
        × (resume_request sha256 turns later.events request ≡ err value_error)
        × (abandon fresh g t other_store later request.run_id other_reason
            ≡ refused other_store later)
abandon-stays_closed fresh f g s t store other_store session later reason other r sha256 turns
      request configuration more h grown quiet =
    let run = request.run_id in
    let ended : last_lifecycle_event later.events run ≡ some "run.cancelled" =
      ap (λ es. last_lifecycle_event es run) grown
      ∙ last_lifecycle_event-append run _ more quiet
      ∙ abandon-ends fresh f s store session run reason r h in
    (
      ended,
      check_run_ended later.events run "run.cancelled" configuration ended refl,
      resume_request_ended sha256 turns later.events request "run.cancelled" ended refl,
      abandon-cancelled fresh g t other_store later run other ended,
    )

-- A request that leaves all to what is stored, but for the system prompt.
abbrev pub same_again : RunRequest → ResumeRequest
same_again r = record {
  run_id = r.run_id;
  model = none;
  require_capability_lease = none;
  system_prompt = some r.system_prompt;
  max_output_tokens = none;
  max_turns = none;
  run_profile = none;
}

module _ ⦃py : Python⦄ (sha256 : String → String) (provider : String) where
  resume_request-reads :
      (turns : ℤ) (events : List Event) (r : RunRequest) (started : Event) (type : String)
      → run_started_event events r.run_id ≡ some started
      → started.payload ≡ run_configuration_data sha256 provider r
      → last_lifecycle_event events r.run_id ≡ some type
      → contains type non_resumable_run_events ≡ false
      → (r.model == "") ≡ false
      → is_positive r.max_output_tokens ≡ true
      → is_positive r.max_turns ≡ true
      → resume_request sha256 turns events (same_again r)
        ≡ ok (record r { run_profile = some (profile_or_empty r.run_profile); user_message = none })
  unfolding resume_request run_configuration_data
  resume_request-reads turns events r started type found stored last going named output some_turns =
      rw (found, resume_request, last, going, stored, named, output, some_turns)
        (rw some_turns refl)

  same-differs :
      (configuration : Fields) (keys : List String)
      → ((k : String) → py.equal (get configuration k) (get configuration k) ≡ true)
      → any (differs configuration configuration) keys ≡ false
  same-differs configuration [] h = refl
  same-differs configuration (k ∷ keys) h = ground (arith, h k, same-differs configuration keys h)

  -- A run that was started and may go on is resumed as it was started: with only the system prompt
  -- given, `resume` asks for a run with the stored configuration, and `run` accepts it as that of a
  -- run that was started. Each stored value must be equal to itself.
  pub resume_request-check_run :
      (turns : ℤ) (events : List Event) (r : RunRequest) (started : Event) (type : String)
      → run_started_event events r.run_id ≡ some started
      → started.payload ≡ run_configuration_data sha256 provider r
      → last_lifecycle_event events r.run_id ≡ some type
      → contains type non_resumable_run_events ≡ false
      → (r.model == "") ≡ false
      → is_positive r.max_output_tokens ≡ true
      → is_positive r.max_turns ≡ true
      → ((k : String) → py.equal (get started.payload k) (get started.payload k) ≡ true)
      → (q : RunRequest) × (resume_request sha256 turns events (same_again r) ≡ ok q)
        × (q.run_id ≡ r.run_id)
        × (run_configuration_data sha256 provider q ≡ started.payload)
        × (check_run events q.run_id (run_configuration_data sha256 provider q) ≡ ok true)
  unfolding check_run validate_run_configuration
  resume_request-check_run turns events r started type found stored last going named output
        some_turns h =
      let q = record r {
        run_profile = some (profile_or_empty r.run_profile);
        user_message = none;
      } in
      let same : run_configuration_data sha256 provider q ≡ started.payload =
        unfold run_configuration_data in sym stored in
      (
        q,
        resume_request-reads turns events r started type found stored last going named output
            some_turns,
        refl,
        same,
        subst (λ c. check_run events r.run_id c ≡ ok true) (sym same)
            (rw (last, check_run, going, found, same-differs started.payload compared_keys h) refl),
      )

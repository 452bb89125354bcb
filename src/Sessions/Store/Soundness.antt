-- ===== src/Sessions/Store/Soundness.antt =====
-- The invariant of the in-memory event store, kept by its operations.
use aihi.Prelude.{
  ◌+◌, String, ◌≡◌, sym, subst, true, Option, none, some, List, [], ◌++◌, ok, concurrency_conflict,
  raise_if, is_some, ◌==◌, length, contains, distinct, arith, eq_iff, if◌then◌else◌, >>=-eq-ok,
  ok-injective, inl, inr, Bool-cases, ◌∙◌, length-append, map-append,
}
use aihi.Json.{Fields}
use aihi.Dict
use aihi.Dict.{Dict, dict_laws}
use aihi.Event.{Event}
use aihi.Sessions.Store.{
  Store, SessionInfo, empty, ids, claim_ids, events_of, create_session, json_copy, commit,
}
use aihi.Sessions.Store.Log.{
  Log, Log-mono, Log-append, Log-claims, lookup-claim_ids, distinct-append, Stamped,
}

-- Every session's events are numbered 1 to its head without a gap, belong to it and are not
-- ephemeral; their ids are distinct and taken by that session alone; no session, no events.
pub record IsSound (s : Store) : Type 0 where
  pub logged : (sid : String) → Log s.event_sessions sid 0 (events_of s sid)
  pub counted :
      (sid : String) (info : SessionInfo)
      → Dict.lookup s.sessions sid ≡ some info
      → length (events_of s sid) ≡ info.head_seq
  pub unique : (sid : String) → distinct (ids (events_of s sid)) ≡ true
  pub silent : (sid : String) → Dict.lookup s.sessions sid ≡ none → events_of s sid ≡ []

pub empty-IsSound : IsSound empty
empty-IsSound = record {
  logged = λ sid. rw Dict.lookup-empty tt;
  counted = λ sid info h. absurd (Dict.absent sid h);
  unique = λ sid. rw Dict.lookup-empty;
  silent = λ sid h. rw Dict.lookup-empty;
}

-- Creating a session in a sound store gives a sound store.
pub create_session-IsSound :
    (s t : Store) (sid : String) (metadata : Fields) (parent : Option String) (now : String)
    → create_session s sid metadata parent now ≡ ok t
    → IsSound s
    → IsSound t
unfolding create_session
create_session-IsSound s t sid metadata parent now h v =
    let info : SessionInfo = record {
      session_id = sid;
      head_seq = 0;
      created_at = now;
      metadata = metadata;
      parent_session_id = parent;
    } in
    let (u, p, q) =
      >>=-eq-ok (raise_if (is_some (Dict.lookup s.sessions sid)) concurrency_conflict) _ h in
    let (copied, c, q') = >>=-eq-ok (json_copy metadata) _ q in
    subst IsSound (ok-injective q') (record {
      logged = λ k. elim (Bool-cases (sid == k)) [
        | inl e ↦ rw (Dict.lookup-insert s.events sid k [], e) tt
        | inr e ↦ rw (Dict.lookup-insert s.events sid k [], e) (v.logged k)
      ];
      counted = λ k i m. ground (
        arith,
        Dict.lookup-insert s.sessions sid k info,
        Dict.lookup-insert s.events sid k [],
        v.counted k i,
      );
      unique = λ k. ground (arith, Dict.lookup-insert s.events sid k [], v.unique k);
      silent = λ k m. ground (
        arith,
        Dict.lookup-insert s.sessions sid k info,
        Dict.lookup-insert s.events sid k [],
        v.silent k,
      );
    })

-- The writes of `append`, after its checks have passed.
module _ (s : Store) (v : IsSound s) (sid : String) (info : SessionInfo) (es saved : List Event)
    (present : Dict.lookup s.sessions sid ≡ some info) (distinct_ids : distinct (ids es) ≡ true)
    (stamped : Stamped s sid info.head_seq es saved) where
  abbrev pub claims : Dict String
  claims = claim_ids s.event_sessions sid saved

  abbrev pub log : List Event
  log = events_of s sid ++ saved

  keeps_claims :
      (j owner : String)
      → Dict.lookup s.event_sessions j ≡ some owner
      → Dict.lookup claims j ≡ some owner
  keeps_claims j owner h =
      ground (arith, lookup-claim_ids s.event_sessions sid saved j, stamped.fresh j)

  pub saved-claims : (j : String) → contains j (ids saved) ≡ true → Dict.lookup claims j ≡ some sid
  saved-claims j h = rw (lookup-claim_ids s.event_sessions sid saved j, h)

  pub own_log : Log claims sid 0 log
  own_log =
      Log-append claims sid 0 (events_of s sid) saved
        (Log-mono s.event_sessions claims sid 0 (events_of s sid) (λ j. keeps_claims j sid)
          (v.logged sid))
        (subst (λ n. Log claims sid n saved) (sym (v.counted sid info present) ∙ omega arith)
          (stamped.logged claims saved-claims))

  own_unique : distinct (ids log) ≡ true
  own_unique = rw (map-append (λ (e : Event). e.id) (events_of s sid) saved) (
      distinct-append (ids (events_of s sid)) (ids saved) (v.unique sid)
        (rw stamped.same_ids distinct_ids)
        (λ k m. ground (
          arith,
          Log-claims s.event_sessions sid 0 (events_of s sid) k (v.logged sid) m,
          stamped.fresh k,
        )))

  pub events_of-commit :
      (k : String)
      → events_of (commit s sid info info.head_seq saved) k
        ≡ (if sid == k then log else events_of s k)
  unfolding commit
  events_of-commit k = ground (arith, Dict.lookup-insert s.events sid k log)

  pub sessions-commit :
      (k : String)
      → Dict.lookup (commit s sid info info.head_seq saved).sessions k ≡ (
          if sid == k
          then some (record info { head_seq = info.head_seq + length saved })
          else Dict.lookup s.sessions k)
  unfolding commit
  sessions-commit k = Dict.lookup-insert s.sessions sid k _

  pub commit-IsSound : IsSound (commit s sid info info.head_seq saved)
  commit-IsSound = record {
    logged = λ k. elim (Bool-cases (sid == k)) [
      | inl e ↦
          rw (events_of-commit k, e)
            (unfold commit in subst (λ j. Log claims j 0 log) ((eq_iff sid k).0 e) own_log)
      | inr e ↦
          rw (events_of-commit k, e)
            (unfold commit in
              Log-mono s.event_sessions claims k 0 (events_of s k) (λ j. keeps_claims j k)
                (v.logged k))
    ];
    counted = λ k i m. ground (
      arith,
      sessions-commit k,
      events_of-commit k,
      length-append (events_of s sid) saved,
      v.counted sid info present,
      v.counted k i,
    );
    unique = λ k. elim (Bool-cases (sid == k)) [
      | inl e ↦ rw (events_of-commit k, e) own_unique
      | inr e ↦ rw (events_of-commit k, e) (v.unique k)
    ];
    silent = λ k m. ground (arith, sessions-commit k, events_of-commit k, v.silent k);
  }

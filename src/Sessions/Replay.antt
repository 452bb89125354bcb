-- ===== src/Sessions/Replay.antt =====
-- The messages that a session holds against those that a reload of its log would show.
use aihi.Prelude.{
  all, append_assoc, ℕ, raise_if, event_invariant_violation, String, ◌≡◌, sym, ap, subst, ◌∙◌, true,
  some, List, [], ◌∷◌, ◌++◌, Result, ok, err, Error, arith, inl, inr, >>=-eq-ok, ok-injective,
  length, length-append, Result-cases, ok-ne-err,
}
use aihi.Json.{Fields, get, as_dict, truthy}
use aihi.Event.{Event}
use aihi.Python.{Python}
use aihi.Messages.{Message, decode_message}
use aihi.Sessions.Store
use aihi.Sessions.Store.{Store}
use aihi.Sessions.Projection.{is_message_event, is_compaction, add_message, project_messages}
use aihi.Sessions.Session.{
  has_ephemeral, pass, check_batch, Session, Outcome, sync_event, sync, append_many, checked,
  accept,
}
use aihi.Sessions.Named.{is_named, decode_message_named}
use aihi.Sessions.Sync.{
  ShowsAlways, replay_named, replay_ends, orderly, sync-Agrees, sync_event-compaction, sync-cons_ok,
  sync-cons_err,
}

-- The messages are those of a full replay, whatever ids the replay generates.
abbrev pub InSync : ⦃py : Python⦄ → Session → Type 0
InSync session = ShowsAlways session.events session.messages

-- A message event at the end of a batch in which every event names its message
last_named :
    (before : List Event) (c m : Event) (raw : Fields)
    → all is_named (before ++ c ∷ m ∷ []) ≡ true
    → is_message_event m ≡ true
    → as_dict (get m.payload "message") ≡ some raw
    → truthy (get raw "id") ≡ true
last_named [] c m raw h pm pr = ground (arith, pm, pr)
last_named (e ∷ es) c m raw h pm pr = last_named es c m raw (ground arith) pm pr

module _ ⦃py : Python⦄ (fresh : ℕ → Event → String) where
  -- A batch that was written has passed the check of its messages.
  pub written :
      (store store' : Store) (session : Session) (events saved : List Event)
      → checked fresh store session events ≡ ok (saved, store')
      → (ms : List Message) × (check_batch fresh session.messages events ≡ ok ms)
        × (Store.append store session.id session.head_seq events ≡ ok (saved, store'))
  written store store' session events saved h =
      let (u, a, q1) = >>=-eq-ok (raise_if (has_ephemeral events) event_invariant_violation) _ h in
      let (ms, b, q2) = >>=-eq-ok (check_batch fresh session.messages events) _ q1 in (ms, b, q2)

  pub append_many-accept :
      (store : Store) (session : Session) (events saved : List Event)
      → (append_many fresh store session events).result ≡ ok saved
      → (store' : Store) × (checked fresh store session events ≡ ok (saved, store'))
        × (append_many fresh store session events ≡ accept fresh session saved store')
        × ((sync fresh (session.events ++ saved) session.messages saved).1 ≡ ok tt)
  unfolding append_many
  append_many-accept store session events saved h =
      elim (Result-cases (checked fresh store session events)) [
        | inr (x, q) ↦
            let whole : append_many fresh store session events
                ≡ record { result = err x; store = store; session = session } =
              rw (q, append_many) in
            absurd (ok-ne-err {x = x} (sym h ∙ ap (λ (o : Outcome (List Event)). o.result) whole))
        | inl ((out, store'), q) ↦
            let whole : append_many fresh store session events ≡ accept fresh session out store' =
              rw (q, append_many) in
            let (u, done, same) =
              >>=-eq-ok (sync fresh (session.events ++ out) session.messages out).1 (λ _. ok out)
                (rw whole at h) in
            let P = λ (o : List Event).
              (store' : Store) × (checked fresh store session events ≡ ok (o, store'))
              × (append_many fresh store session events ≡ accept fresh session o store')
              × ((sync fresh (session.events ++ o) session.messages o).1 ≡ ok tt) in
            subst P (ok-injective same) (store', q, whole, done)
      ]

  -- An append that returns keeps a session in step with its log, whatever ids are generated, if
  -- every message and every summary of the batch has an id of its own and no event of it that
  -- carries a message stands behind a compaction.
  pub append_many-InSync :
      (store : Store) (session : Session) (events saved : List Event)
      → (append_many fresh store session events).result ≡ ok saved
      → orderly saved ≡ true
      → all is_named saved ≡ true
      → InSync session
      → InSync (append_many fresh store session events).session
  append_many-InSync store session events saved h tidy named v =
      let (store', q, p, done) = append_many-accept store session events saved h in
      rw p (sync-Agrees fresh session.events session.messages saved v tidy named done)

  -- The last round of the loop, at an event with a message.
  added :
      (all : List Event) (ms : List Message) (m : Event) (raw : Fields)
      → is_message_event m ≡ true
      → as_dict (get m.payload "message") ≡ some raw
      → (sync fresh all ms (m ∷ [])).1 ≡ ok tt
      → (x : Message) × (decode_message (pass fresh m m) m.payload ≡ ok x)
        × ((sync fresh all ms (m ∷ [])).0 ≡ ms ++ x ∷ [])
  added all ms m raw pm pr done = elim (Result-cases (decode_message (pass fresh m m) m.payload)) [
    | inr (x, q) ↦ unfold sync add_message in ground (arith, q)
    | inl (x, q) ↦ (x, q, unfold sync add_message in ground (arith, q))
  ]

  raised :
      (all : List Event) (ms : List Message) (e : Event) (es : List Event) (x : Error)
      → sync_event fresh all ms e ≡ err x
      → (sync fresh all ms (e ∷ es)).1 ≡ ok tt
      → ⊥
  raised all ms e es x q done = ok-ne-err {x = x} (
      sym done
      ∙ ap (λ (r : List Message × Result (Unit {0})). r.1) (sync-cons_err fresh all ms e es x q))

  sync_shows_twice :
      (all : List Event) (ms : List Message) (before : List Event) (c m : Event) (raw : Fields)
      → is_compaction c ≡ true
      → is_message_event m ≡ true
      → as_dict (get m.payload "message") ≡ some raw
      → (sync fresh all ms (before ++ c ∷ m ∷ [])).1 ≡ ok tt
      → (shown : List Message) × (x : Message) × (project_messages (pass fresh c) all ≡ ok shown)
        × (decode_message (pass fresh m m) m.payload ≡ ok x)
        × ((sync fresh all ms (before ++ c ∷ m ∷ [])).0 ≡ shown ++ x ∷ [])
  sync_shows_twice all ms [] c m raw pc pm pr done =
      elim (Result-cases (sync_event fresh all ms c)) [
        | inr (x, q) ↦ absurd (raised all ms c (m ∷ []) x q done)
        | inl (shown, q) ↦
            let replay = sym (sync_event-compaction fresh all ms c pc) ∙ q in
            let (x, d, p) =
              added all shown m raw pm pr
                (rw (sync-cons_ok fresh all ms c (m ∷ []) shown q) at done) in
            (shown, x, replay, d, rw (sync-cons_ok fresh all ms c (m ∷ []) shown q) p)
      ]
  sync_shows_twice all ms (e ∷ es) c m raw pc pm pr done =
      elim (Result-cases (sync_event fresh all ms e)) [
        | inr (x, q) ↦ absurd (raised all ms e (es ++ c ∷ m ∷ []) x q done)
        | inl (next, q) ↦
            let step = sync-cons_ok fresh all ms e (es ++ c ∷ m ∷ []) next q in
            let (shown, x, p, d, r) =
              sync_shows_twice all next es c m raw pc pm pr (rw step at done) in
            (shown, x, p, d, rw step r)
      ]

  -- When a session in step appends a batch in which every message and every summary has an id of
  -- its own and that ends in a compaction and an event with a message, and the call returns, the
  -- session shows that message twice: it is the last that a replay of the log shows, and it stands
  -- once more behind that replay, so the session is out of step.
  pub compaction_then_message :
      (store : Store) (session : Session) (events before : List Event) (c m : Event) (raw : Fields)
      → InSync session
      → (append_many fresh store session events).result ≡ ok (before ++ c ∷ m ∷ [])
      → all is_named (before ++ c ∷ m ∷ []) ≡ true
      → is_compaction c ≡ true
      → is_message_event m ≡ true
      → as_dict (get m.payload "message") ≡ some raw
      → let after = (append_many fresh store session events).session in
        (front : List Message) × (x : Message) × ((id : String)
          → decode_message id m.payload ≡ ok x)
        × ShowsAlways after.events (front ++ x ∷ [])
        × (after.messages ≡ (front ++ x ∷ []) ++ x ∷ [])
        × ¬ InSync after
  compaction_then_message store session events before c m raw v h named pc pm pr =
      let saved = before ++ c ∷ m ∷ [] in
      let (store', made, p, done) = append_many-accept store session events saved h in
      let log = session.events ++ saved in
      let (shown, x, q, d, r) =
        sync_shows_twice log session.messages before c m raw pc pm pr done in
      let own = last_named before c m raw named pm pr in
      let decodes : (id : String) → decode_message id m.payload ≡ ok x =
        λ id. decode_message_named id (pass fresh m m) m.payload raw pr own ∙ d in
      let always : ShowsAlways log shown = λ redraw.
        replay_named redraw (pass fresh c) session.events session.messages saved v named ∙ q in
      let split : (session.events ++ (before ++ c ∷ [])) ++ m ∷ [] ≡ log =
        append_assoc session.events (before ++ c ∷ []) (m ∷ [])
        ∙ ap (λ es. session.events ++ es) (append_assoc before (c ∷ []) (m ∷ [])) in
      let (front, same) =
        replay_ends (pass fresh c) (session.events ++ (before ++ c ∷ [])) m raw shown x pm pr
          (decodes (pass fresh c m)) (ap (project_messages (pass fresh c)) split ∙ q) in
      rw p (
        front,
        x,
        decodes,
        subst (ShowsAlways log) same always,
        r ∙ ap (λ ms. ms ++ x ∷ []) same,
        λ w. omega (
          arith,
          ap length (ok-injective (sym q ∙ w (pass fresh c)) ∙ r),
          length-append shown (x ∷ []),
        ),
      )

-- ===== src/Sessions/Sync.antt =====
-- `append_many` brings the messages of a session up to date event by event; `project_messages`
-- replays the whole log. When the two agree, and when they do not.
use aihi.Prelude.{
  some, >>=-eq-ok, ok-injective, ℕ, String, ◌≡◌, refl, sym, subst, ◌∙◌, Bool, true, false, not,
  List, [], ◌∷◌, ◌++◌, append_assoc, append-nil, ok, err, ◌>>=◌, any, all, arith, inl, inr,
  Bool-cases, >>=-step, if◌then◌else◌, eq_iff, Result-cases, Error,
}
use aihi.Event.{Event}
use aihi.Python.{Python}
use aihi.Json.{Fields, get, as_dict}
use aihi.Messages.{Message, decode_message}
use aihi.Sessions.Projection.{
  is_message_event, is_compaction, add_message, project_event, project_from, project_messages,
}
use aihi.Sessions.Named.{is_named, project_event_named, project_from_named}
use aihi.Sessions.Session.{sync_event, sync, pass}

-- No event that carries a message stands behind a compaction.
abbrev pub orderly : List Event → Bool
orderly [] = true
orderly (e ∷ es) = if is_compaction e then not (any is_message_event es) else orderly es

module _ ⦃py : Python⦄ (fresh : Event → String) where
  pub project_from-append :
      (ms : List Message) (es fs : List Event)
      → project_from fresh ms (es ++ fs)
        ≡ (project_from fresh ms es >>= λ x. project_from fresh x fs)
  unfolding project_from
  project_from-append ms [] fs = refl
  project_from-append ms (e ∷ es) fs =
      >>=-step (project_event fresh ms e) (λ x. project_from fresh x es)
        (λ x. project_from fresh x fs) (λ x. project_from fresh x (es ++ fs))
        (λ x. project_from-append x es fs)

  project-snoc :
      (before : List Event) (ms next : List Message) (e : Event)
      → project_messages fresh before ≡ ok ms
      → project_event fresh ms e ≡ ok next
      → project_messages fresh (before ++ e ∷ []) ≡ ok next
  unfolding project_messages project_from
  project-snoc before ms next e h p = project_from-append [] before (e ∷ []) ∙ rw (h, p)

pub message_added :
    ⦃py : Python⦄ (f : Event → String) (ms : List Message) (e : Event) (m : Message) (raw : Fields)
    → as_dict (get e.payload "message") ≡ some raw
    → decode_message (f e) e.payload ≡ ok m
    → add_message f ms e ≡ ok (ms ++ m ∷ [])
unfolding add_message
message_added f ms e m raw p q = ground (arith, p, q)

-- A replay that shows the same messages whatever ids it generates.
abbrev pub ShowsAlways : ⦃py : Python⦄ → List Event → List Message → Type 0
ShowsAlways events ms = (redraw : Event → String) → project_messages redraw events ≡ ok ms

project_messages-append :
    ⦃py : Python⦄ (f : Event → String) (before : List Event) (ms : List Message) (es : List Event)
    → project_messages f before ≡ ok ms
    → project_messages f (before ++ es) ≡ project_from f ms es
unfolding project_messages
project_messages-append f before ms es h = project_from-append f [] before es ∙ rw h refl

-- Events that name their messages, behind such a replay, show the same whatever ids are generated.
pub replay_named :
    ⦃py : Python⦄ (f g : Event → String) (before : List Event) (ms : List Message) (es : List Event)
    → ShowsAlways before ms
    → all is_named es ≡ true
    → project_messages f (before ++ es) ≡ project_messages g (before ++ es)
replay_named f g before ms es h named =
    project_messages-append f before ms es (h f)
    ∙ project_from_named f g ms es named
    ∙ sym (project_messages-append g before ms es (h g))

-- The message that the last event of a log carries is the last that its replay shows.
pub replay_ends :
    ⦃py : Python⦄ (f : Event → String) (es : List Event) (m : Event) (raw : Fields)
    (shown : List Message) (x : Message)
    → is_message_event m ≡ true
    → as_dict (get m.payload "message") ≡ some raw
    → decode_message (f m) m.payload ≡ ok x
    → project_messages f (es ++ m ∷ []) ≡ ok shown
    → (front : List Message) × (shown ≡ front ++ x ∷ [])
unfolding project_messages project_from project_event
replay_ends f es m raw shown x pm pr px h =
    let (front, p, q) =
      >>=-eq-ok (project_from f [] es) (λ ms. project_from f ms (m ∷ []))
        (sym (project_from-append f [] es (m ∷ [])) ∙ h) in
    (front, sym (ok-injective (rw (pm, message_added f front m x raw pr px) at q)))

module _ ⦃py : Python⦄ (fresh : ℕ → Event → String) where
  module _ (all : List Event) (ms : List Message) (e : Event) (es : List Event) where
    pub sync-cons_ok :
        (next : List Message)
        → sync_event fresh all ms e ≡ ok next
        → sync fresh all ms (e ∷ es) ≡ sync fresh all next es
    unfolding sync
    sync-cons_ok next h = rw (h, sync)

    pub sync-cons_err :
        (x : Error) → sync_event fresh all ms e ≡ err x → sync fresh all ms (e ∷ es) ≡ (ms, err x)
    unfolding sync
    sync-cons_err x h = rw (h, sync)

  pub compaction_only : (e : Event) → is_compaction e ≡ true → is_message_event e ≡ false
  unfolding is_compaction is_message_event
  compaction_only e h = rw ((eq_iff e.type "compaction.created").0 h) refl

  pub sync_event-compaction :
      (all : List Event) (ms : List Message) (e : Event)
      → is_compaction e ≡ true
      → sync_event fresh all ms e ≡ project_messages (pass fresh e) all
  unfolding sync_event
  sync_event-compaction all ms e h = ground (arith, compaction_only e h)

  pub sync_event-other :
      (all : List Event) (ms : List Message) (e : Event)
      → is_compaction e ≡ false
      → sync_event fresh all ms e ≡ project_event (pass fresh e) ms e
  unfolding sync_event project_event
  sync_event-other all ms e h = ground arith

  sync_event-idle :
      (all : List Event) (ms : List Message) (e : Event)
      → is_message_event e ≡ false
      → project_messages (pass fresh e) all ≡ ok ms
      → sync_event fresh all ms e ≡ ok ms
  unfolding sync_event
  sync_event-idle all ms e h p = ground arith

  -- Behind a compaction, and with no message to come, the loop stays at the replay.
  sync_stays :
      (all : List Event) (ms : List Message) (es : List Event)
      → ShowsAlways all ms
      → any is_message_event es ≡ false
      → sync fresh all ms es ≡ (ms, ok tt)
  sync_stays all ms [] h none_left = unfold sync in refl
  sync_stays all ms (e ∷ es) h none_left =
      sync-cons_ok all ms e es ms (sync_event-idle all ms e (ground arith) (h (pass fresh e)))
      ∙ sync_stays all ms es h (ground arith)

  abbrev pub Agrees : List Event → List Message → List Event → Type 0
  Agrees all ms es = (sync fresh all ms es).1 ≡ ok tt → ShowsAlways all (sync fresh all ms es).0

  pub sync-Agrees :
      (before : List Event) (ms : List Message) (es : List Event)
      → ShowsAlways before ms
      → orderly es ≡ true
      → all is_named es ≡ true
      → Agrees (before ++ es) ms es
  sync-Agrees before ms [] h tidy named done = unfold sync in rw append-nil h
  sync-Agrees before ms (e ∷ es) h tidy named done =
      let log = before ++ e ∷ es in
      elim (Result-cases (sync_event fresh log ms e)) [
        | inr (x, q) ↦ cc (done, sync-cons_err log ms e es x q)
        | inl (next, q) ↦ elim (Bool-cases (is_compaction e)) [
          | inl c ↦
              let replay : ShowsAlways log next = λ redraw.
                replay_named redraw (pass fresh e) before ms (e ∷ es) h named
                ∙ sym (sync_event-compaction log ms e c)
                ∙ q in
              rw (sync-cons_ok log ms e es next q, sync_stays log next es replay (ground arith))
                replay
          | inr c ↦
              let shown : ShowsAlways (before ++ e ∷ []) next = λ redraw.
                project-snoc redraw before ms next e (h redraw) (
                  project_event_named redraw (pass fresh e) ms e (ground arith)
                  ∙ sym (sync_event-other log ms e c)
                  ∙ q) in
              rw (sync-cons_ok log ms e es next q) (
                subst (λ l. Agrees l next es) (append_assoc before (e ∷ []) es)
                  (sync-Agrees (before ++ e ∷ []) next es shown (ground arith) (ground arith))
                  (rw (sync-cons_ok log ms e es next q) at done))
        ]
      ]

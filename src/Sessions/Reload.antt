-- ===== src/Sessions/Reload.antt =====
-- What a session holds in memory against what `Session.load` reads from the store.
use aihi.Prelude.{
  all, ℕ, ◌+◌, String, ◌≡◌, refl, sym, ap, ◌∙◌, subst, true, some, List, ◌++◌, ok, arith, >>=-eq-ok,
  ok-injective, length,
}
use aihi.Dict
use aihi.Event.{Event}
use aihi.Python.{Python}
use aihi.Sessions.Store
use aihi.Sessions.Store.{Store, SessionInfo, events_of}
use aihi.Sessions.Store.Soundness.{IsSound}
use aihi.Sessions.Store.Appends.{read-all, grown_head, read-append, append-IsSound}
use aihi.Sessions.Projection.{project_messages}
use aihi.Sessions.Session.{Session, Outcome, load, append_many, accept}
use aihi.Sessions.Named.{is_named}
use aihi.Sessions.Sync.{orderly}
use aihi.Sessions.Replay.{InSync, append_many-accept, append_many-InSync, written}

-- The session is what a load of its id gives, whatever ids the load generates.
abbrev pub IsDurable : ⦃py : Python⦄ → Store → Session → Type 0
IsDurable store session = (redraw : Event → String) → load redraw store session.id ≡ ok session

module _ ⦃py : Python⦄ where
  record Loaded (store : Store) (session : Session) : Type 0 where
    pub info : SessionInfo
    pub present : Dict.lookup store.sessions session.id ≡ some info
    pub read : Store.read store session.id 0 ≡ ok session.events
    pub in_sync : InSync session
    pub same_metadata : info.metadata ≡ session.metadata
    pub same_head : info.head_seq ≡ session.head_seq

  known :
      (store : Store) (sid : String) (info : SessionInfo)
      → Store.get store sid ≡ ok info
      → Dict.lookup store.sessions sid ≡ some info
  unfolding Store.get
  known store sid info h = ground arith

  -- What a load with the ids of `redraw` says of the session.
  loaded_with :
      (redraw : Event → String) (store : Store) (session : Session)
      → load redraw store session.id ≡ ok session
      → (info : SessionInfo) × (Store.get store session.id ≡ ok info)
        × (Store.read store session.id 0 ≡ ok session.events)
        × (project_messages redraw session.events ≡ ok session.messages)
        × (info.metadata ≡ session.metadata)
        × (info.head_seq ≡ session.head_seq)
  unfolding load
  loaded_with redraw store session h =
      let (info, p, h1) = >>=-eq-ok (Store.get store session.id) _ h in
      let (events, q, h2) = >>=-eq-ok (Store.read store session.id 0) _ h1 in
      let (ms, r, h3) = >>=-eq-ok (project_messages redraw events) _ h2 in
      let same = ok-injective h3 in
      (
        info,
        p,
        q ∙ ap (λ (s : Session). ok s.events) same,
        sym (ap (λ (s : Session). project_messages redraw s.events) same)
            ∙ r
            ∙ ap (λ (s : Session). ok s.messages) same,
        ap (λ (s : Session). s.metadata) same,
        ap (λ (s : Session). s.head_seq) same,
      )

  load-Loaded : (store : Store) (session : Session) → IsDurable store session → Loaded store session
  load-Loaded store session h =
      let (info, p, q, r, same_metadata, same_head) =
        loaded_with (λ e. e.id) store session (h (λ e. e.id)) in
      record {
        info = info;
        present = known store session.id info p;
        read = q;
        in_sync = λ redraw. (loaded_with redraw store session (h redraw)).3;
        same_metadata = same_metadata;
        same_head = same_head;
      }

  Loaded-load : (store : Store) (session : Session) → Loaded store session → IsDurable store session
  unfolding load Store.get
  Loaded-load store session l redraw =
      rw (l.present, l.read, l.in_sync redraw, l.same_metadata, l.same_head)

module _ ⦃py : Python⦄ (fresh : ℕ → Event → String) where
  -- From a sound store, an append that returns keeps a durable session durable: what it holds
  -- afterwards, its head and its messages included, is what a load gives, whatever ids are
  -- generated, and the store stays sound. Every message and every summary of the batch must have an
  -- id of its own, and no event of it that carries a message may stand behind a compaction.
  pub append_many-IsDurable :
      (store : Store) (session : Session) (events saved : List Event)
      → IsSound store
      → IsDurable store session
      → orderly saved ≡ true
      → all is_named saved ≡ true
      → let o = append_many fresh store session events in
        o.result ≡ ok saved → IsSound o.store × IsDurable o.store o.session
  append_many-IsDurable store session events saved v durable tidy named h =
      let (store', q, p, done) = append_many-accept fresh store session events saved h in
      let (ms, b, stored) = written fresh store store' session events saved q in
      let l = load-Loaded store session durable in
      let in_sync = append_many-InSync fresh store session events saved h tidy named l.in_sync in
      let whole =
        (read-append store store' session.id session.head_seq events saved stored v).1
        ∙ ap (λ es. ok (es ++ saved)) (read-all store session.id session.events v l.read) in
      subst (λ (o : Outcome (List Event)). IsSound o.store × IsDurable o.store o.session) (sym p)
        (
          append-IsSound store store' session.id session.head_seq events saved stored v,
          Loaded-load store' (accept fresh session saved store').session (record {
            info = record l.info { head_seq = session.head_seq + length saved };
            present =
                grown_head store store' session.id session.head_seq events saved stored v l.info
                  l.present;
            read = whole;
            in_sync = subst (λ (o : Outcome (List Event)). InSync o.session) p in_sync;
            same_metadata = l.same_metadata;
            same_head = refl;
          }),
        )

-- ===== src/Sessions/Session.antt =====
-- The `Session` aggregate of sessions/session.py over the in-memory store: creating, loading,
-- appending, forking and repairing. Observers see copies and their exceptions are dropped, so they
-- are left out. Generated ids and times are arguments. What a call wrote before it raised stays
-- written, so the state comes back beside the result.
use aihi.Prelude.{
  ℕ, suc, ◌+◌, String, Bool, false, not, ◌&&◌, none, some, List, [], ◌∷◌, ◌++◌, Result, ok, err,
  event_invariant_violation, ◌>>=◌, ◌>>◌, raise_if, ◌==◌, filter, any, leb, ltb, length,
  if◌then◌else◌,
}
use aihi.Json.{Fields, int, str, end, field, pos, get, as_dict, as_str, set_field}
use aihi.Event.{Event, new_event}
use aihi.Python.{Python}
use aihi.Messages.{Message, decode_message}
use aihi.Sessions.Store
use aihi.Sessions.Store.{Store, seq_or_zero}
use aihi.Sessions.Projection.{
  is_message_event, is_compaction, add_message, project_messages, find_orphan_tool_calls,
}

pub record Session : Type 0 where
  pub id : String
  pub metadata : Fields
  pub head_seq : ℕ
  pub events : List Event
  pub messages : List Message

-- What a call gives back: its result, and the store and the session after it.
pub record Outcome {ℓ} (A : Type ℓ) : Type ℓ where
  pub result : Result A
  pub store : Store
  pub session : Session

-- `Session.create`, with the id that it takes or generates, and the id and time of its first
-- event. A session whose first event is refused stays in the store.
unfoldable pub create : Store → String → Fields → String → String → Store × Result Session
create store sid metadata event_id now =
    let parent = as_str (get metadata "parent_session_id") in
    elim (Store.create_session store sid metadata parent now) [
      | err x ↦ (store, err x)
      | ok created ↦
          let first = new_event event_id now "session.created" sid none metadata in
          elim (Store.append created sid 0 (first ∷ [])) [
            | err x ↦ (created, err x)
            | ok (saved, store') ↦ (
              store',
              ok (record {
                id = sid;
                metadata = metadata;
                head_seq = 1;
                events = saved;
                messages = [];
              }),
            )
          ]
    ]

-- `append_many` refuses a batch with an ephemeral event before anything else.
abbrev pub has_ephemeral : List Event → Bool
has_ephemeral = any (λ e. e.ephemeral)

-- `Session.load`, with the ids that its replay generates for messages without one
unfoldable pub load : ⦃py : Python⦄ → (Event → String) → Store → String → Result Session
load fresh store sid = do
  info ← Store.get store sid
  events ← Store.read store sid 0
  messages ← project_messages fresh events
  ok (record {
    id = sid;
    metadata = info.metadata;
    head_seq = info.head_seq;
    events = events;
    messages = messages;
  })

-- `new_message_id` gives a new id for each decoding of a message without one. The decodings of an
-- append are told apart by the pass over the events that they belong to: `fresh 0` are the ids of the
-- check of a batch, which are dropped, and `fresh n` those drawn when the event number `n` is taken
-- up, of a whole replay if it is a compaction.
module _ ⦃py : Python⦄ (fresh : ℕ → Event → String) where
  -- One event of the loop that checks a batch before it is written.
  unfoldable pub check_event : List Message → Event → Result (List Message)
  check_event candidates e =
      if is_message_event e
      then elim (as_dict (get e.payload "message")) [
        | none ↦ ok candidates
        | some raw ↦ do
          m ← decode_message (fresh 0 e) e.payload
          orphans ← find_orphan_tool_calls (candidates ++ m ∷ [])
          ok (candidates ++ m ∷ [])
      ]
      else ok candidates

  unfoldable pub check_batch : List Message → List Event → Result (List Message)
  unfolding check_event
  check_batch candidates [] = ok candidates
  check_batch candidates (e ∷ es) = do ms ← check_event candidates e; check_batch ms es

  -- the ids that are drawn when a persisted event is taken up
  abbrev pub pass : Event → Event → String
  pass e = fresh (seq_or_zero e.seq)

  -- One event of the loop that brings the messages up to date, with `all` the whole log.
  unfoldable pub sync_event : List Event → List Message → Event → Result (List Message)
  sync_event all messages e =
      if is_message_event e
      then add_message (pass e) messages e
      else if is_compaction e
      then project_messages (pass e) all
      else ok messages

  -- The messages as far as the loop came, and whether it raised.
  unfoldable pub sync : List Event → List Message → List Event → List Message × Result (Unit {0})
  unfolding sync_event
  sync all messages [] = (messages, ok tt)
  sync all messages (e ∷ es) = elim (sync_event all messages e) [
    | ok ms ↦ sync all ms es
    | err x ↦ (messages, err x)
  ]

  abbrev pub accept : Session → List Event → Store → Outcome (List Event)
  accept session saved store =
      let all = session.events ++ saved in
      let synced = sync all session.messages saved in
      record {
        result = synced.1 >>= λ _. ok saved;
        store = store;
        session = record session {
          head_seq = session.head_seq + length saved;
          events = all;
          messages = synced.0;
        };
      }

  abbrev pub checked : Store → Session → List Event → Result (List Event × Store)
  checked store session events = do
    raise_if (has_ephemeral events) event_invariant_violation
    candidates ← check_batch session.messages events
    Store.append store session.id session.head_seq events

  unfoldable pub append_many : Store → Session → List Event → Outcome (List Event)
  append_many store session events = elim (checked store session events) [
    | err x ↦ record { result = err x; store = store; session = session }
    | ok (saved, store') ↦ accept session saved store'
  ]

  -- The part of the log that `fork` copies.
  unfoldable pub fork_prefix : List Event → ℕ → List Event
  fork_prefix events at_seq =
      filter
        (λ e. elim e.seq [
          | none ↦ false
          | some n ↦ leb n at_seq && not (e.type == "session.created")
        ])
        events

  -- A copy keeps the run, the payload, the time and the version, under a new id.
  unfoldable pub copy_events : (ℕ → String) → ℕ → String → List Event → List Event
  copy_events new_id i child_id [] = []
  copy_events new_id i child_id (e ∷ es) =
      record {
        type = e.type;
        session_id = child_id;
        payload = e.payload;
        run_id = e.run_id;
        id = new_id i;
        seq = none;
        created_at = e.created_at;
        ephemeral = false;
        schema_version = e.schema_version;
      }
      ∷ copy_events new_id (suc i) child_id es

  -- The batch that `fork` appends to the new session.
  unfoldable pub fork_batch : (ℕ → String) → String → Session → ℕ → String → List Event
  unfolding fork_prefix copy_events
  fork_batch new_id now parent at_seq child_id =
      let prefix = fork_prefix parent.events at_seq in
      new_event (new_id 1) now "session.forked" child_id none (
        field "parent_session_id" (str parent.id) (
          field "forked_at_seq" (int (pos at_seq))
            (field "copied_event_count" (int (pos (length prefix))) end)))
      ∷ copy_events new_id 2 child_id prefix

  abbrev pub check_fork : Session → ℕ → Result (Unit {0})
  check_fork parent at_seq = do
    raise_if (ltb at_seq 1) event_invariant_violation
    raise_if (ltb parent.head_seq at_seq) event_invariant_violation

  abbrev pub fork_metadata : Session → ℕ → Fields
  fork_metadata parent at_seq =
      set_field (set_field parent.metadata "parent_session_id" (str parent.id)) "forked_at_seq"
        (int (pos at_seq))

  -- `fork` returns the child as `append_many` leaves it, or raises. A child whose batch is refused
  -- stays in the store with its first event.
  unfoldable pub fork :
      (ℕ → String) → String → Store → Session → ℕ → String → Store × Result Session
  fork new_id now store parent at_seq child_id = elim (check_fork parent at_seq) [
    | err x ↦ (store, err x)
    | ok u ↦
        let (store', made) = create store child_id (fork_metadata parent at_seq) (new_id 0) now in
        elim made [
          | err x ↦ (store', err x)
          | ok child ↦
              let o = append_many store' child (fork_batch new_id now parent at_seq child_id) in
              (o.store, o.result >>= λ saved. ok o.session)
        ]
  ]

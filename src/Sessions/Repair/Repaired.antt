-- ===== src/Sessions/Repair/Repaired.antt =====
-- After a repair only the excluded calls are open.
use aihi.Prelude.{
  ℕ, suc, String, ◌≡◌, refl, sym, ap, ◌∙◌, false, not, some, List, [], ◌∷◌, ◌++◌, map, filter,
  Result, ok, ◌>>=◌, arith, ◌==◌, contains, >>=-eq-ok, ok-injective,
}
use aihi.Json.{arr, str, end, field, items_of, as_dict, get}
use aihi.Dict
use aihi.Dict.{Dict}
use aihi.Event.{Event, persisted, new_event}
use aihi.Python.{Python}
use aihi.Messages.{
  Message, ToolCallBlock, ToolResultBlock, encode_message, message_to_dict, tool_calls,
  tool_results, calls_of, results_of,
}
use aihi.Messages.Roundtrip.{decode_message-encode_message}
use aihi.Sessions.Store
use aihi.Sessions.Store.{Store}
use aihi.Sessions.Projection.{
  unpaired, find_orphan_tool_calls, pair_message, pair_messages, note_results, note_calls,
  is_message_event, is_compaction, add_message,
}
use aihi.Sessions.Session.{
  Session, Outcome, append_many, check_batch, check_event, sync, sync_event, pass,
}
use aihi.Sessions.Replay.{append_many-accept, written}
use aihi.Sessions.Sync.{sync-cons_ok, message_added}
use aihi.Sessions.Repair.{
  Fresh, is_lost, lost_calls, lost_result, repaired_message, repair_events, repair_calls,
  repair_orphan_tool_calls,
}
use aihi.Sessions.Repair.Pending.{
  is_open, note_results-removed, pair_messages-keyed, pair_messages-snoc, values-removed, answered,
  filter_all,
}

abbrev result_ids : List ToolResultBlock → List String
result_ids rs = map (λ (r : ToolResultBlock). r.tool_call_id) rs

-- A message without calls takes from the open calls those that its results name.
orphans_after :
    (ms : List Message) (m : Message) (calls later : List ToolCallBlock)
    → find_orphan_tool_calls ms ≡ ok calls
    → tool_calls m ≡ []
    → find_orphan_tool_calls (ms ++ m ∷ []) ≡ ok later
    → filter (is_open (result_ids (tool_results m))) calls ≡ later
unfolding find_orphan_tool_calls pair_message note_calls
orphans_after ms m calls later h no_calls g =
    let (p, a, b) = >>=-eq-ok (pair_messages unpaired ms) _ h in
    let (q, c, d) = >>=-eq-ok (pair_messages unpaired (ms ++ m ∷ [])) _ g in
    let step = sym (pair_messages-snoc ms m unpaired p a) ∙ c in
    let noted : note_results p (tool_results m) ≡ ok q = rw no_calls at step in
    ap (filter (is_open (result_ids (tool_results m)))) (sym (ok-injective b))
    ∙ sym (values-removed p.pending (tool_results m) (pair_messages-keyed ms unpaired p a refl))
    ∙ ap Dict.values (sym (note_results-removed (tool_results m) p q noted))
    ∙ ok-injective d

no_calls : (cs : List ToolCallBlock) → calls_of (map lost_result cs) ≡ []
no_calls [] = refl
no_calls (c ∷ cs) = no_calls cs

named_results :
    (cs : List ToolCallBlock)
    → result_ids (results_of (map lost_result cs)) ≡ map (λ (x : ToolCallBlock). x.id) cs
named_results [] = refl
named_results (c ∷ cs) = ap (λ r. c.id ∷ r) (named_results cs)

has_message : (m : Message) → as_dict (get (encode_message m) "message") ≡ some (message_to_dict m)
unfolding encode_message
has_message m = refl

pub append_two :
    (s t : Store) (sid : String) (n : ℕ) (e f : Event) (saved : List Event)
    → Store.append s sid n (e ∷ f ∷ []) ≡ ok (saved, t)
    → persisted e (suc n) ∷ persisted f (suc (suc n)) ∷ [] ≡ saved
unfolding Store.append
append_two s t sid n e f saved h = ground arith

module _ ⦃py : Python⦄ (fresh : ℕ → Event → String) (f : Fresh) (session : Session)
    (run_id : String) (orphans : List ToolCallBlock) (named : (f.message_id == "") ≡ false) where
  abbrev message : Message
  message = repaired_message f.message_id orphans

  abbrev second : Event
  second =
      new_event f.second_id f.now "tool.result" session.id (some run_id) (encode_message message)

  repaired_check :
      (ms out : List Message)
      → check_batch fresh ms (repair_events f session run_id orphans) ≡ ok out
      → (later : List ToolCallBlock) × (find_orphan_tool_calls (ms ++ message ∷ []) ≡ ok later)
  unfolding check_batch check_event is_message_event
  repaired_check ms out h =
      let read = decode_message-encode_message (fresh 0 second) message named in
      let checked = rw (has_message message, read) at h in
      let (x, c, d) =
        >>=-eq-ok (find_orphan_tool_calls (ms ++ message ∷ []) >>= λ _. ok (ms ++ message ∷ []))
          (λ ms'. ok ms') checked in
      let (later, p, q) =
        >>=-eq-ok (find_orphan_tool_calls (ms ++ message ∷ [])) (λ _. ok (ms ++ message ∷ [])) c in
      (later, p)

  abbrev first : Event
  first = new_event f.first_id f.now "session.repaired" session.id (some run_id) (
      field "orphan_tool_call_ids" (arr (items_of (map (λ (c : ToolCallBlock). str c.id) orphans)))
        end)

  first_sync :
      (all : List Event) (ms : List Message) (n : ℕ)
      → sync_event fresh all ms (persisted first n) ≡ ok ms
  unfolding sync_event is_message_event is_compaction
  first_sync all ms n = refl

  second_added :
      (ms : List Message) (n : ℕ)
      → add_message (pass fresh (persisted second n)) ms (persisted second n)
        ≡ ok (ms ++ message ∷ [])
  second_added ms n =
      message_added (pass fresh (persisted second n)) ms (persisted second n) message
        (message_to_dict message) (has_message message)
        (decode_message-encode_message (pass fresh (persisted second n) (persisted second n))
          message named)

  second_sync :
      (all : List Event) (ms : List Message) (n : ℕ)
      → sync_event fresh all ms (persisted second n) ≡ ok (ms ++ message ∷ [])
  unfolding sync_event is_message_event
  second_sync all ms n = second_added ms n

  repaired_sync :
      (all : List Event) (ms : List Message) (m n : ℕ)
      → (sync fresh all ms (persisted first m ∷ persisted second n ∷ [])).0 ≡ ms ++ message ∷ []
  unfolding sync
  repaired_sync all ms m n =
      ap (λ (r : List Message × Result (Unit {0})). r.0)
        (sync-cons_ok fresh all ms (persisted first m) (persisted second n ∷ []) ms
            (first_sync all ms m)
          ∙ sync-cons_ok fresh all ms (persisted second n) [] (ms ++ message ∷ [])
              (second_sync all ms n))

  -- The batch of a repair that returns leaves the calls open that it does not name.
  batch_repairs :
      (store : Store) (calls : List ToolCallBlock) (saved : List Event)
      → find_orphan_tool_calls session.messages ≡ ok calls
      → (append_many fresh store session (repair_events f session run_id orphans)).result ≡ ok saved
      → find_orphan_tool_calls
          (append_many fresh store session
            (repair_events f session run_id orphans)).session.messages
        ≡ ok (filter (is_open (map (λ (x : ToolCallBlock). x.id) orphans)) calls)
  batch_repairs store calls saved h g =
      let events = repair_events f session run_id orphans in
      let (store', q, p, done) = append_many-accept fresh store session events saved g in
      let (ms, b, q2) = written fresh store store' session events saved q in
      let (later, c) = repaired_check session.messages ms b in
      let two = append_two store store' session.id session.head_seq first second saved q2 in
      let after =
        ap (λ (o : Outcome (List Event)). o.session.messages) p
        ∙ ap (λ es. (sync fresh (session.events ++ es) session.messages es).0) (sym two)
        ∙ repaired_sync _ session.messages _ _ in
      let now_open = orphans_after session.messages message calls later h (no_calls orphans) c in
      ap find_orphan_tool_calls after
      ∙ c
      ∙ ap ok (sym now_open)
      ∙ ap (λ ids. ok (filter (is_open ids) calls)) (named_results orphans)

module _ ⦃py : Python⦄ (fresh : ℕ → Event → String) (f : Fresh) (store : Store) (session : Session)
    (run_id : String) (exclude : List String) (named : (f.message_id == "") ≡ false) where
  calls_repaired :
      (calls orphans : List ToolCallBlock) (saved : List Event)
      → find_orphan_tool_calls session.messages ≡ ok calls
      → (repair_calls fresh f store session run_id orphans).result ≡ ok saved
      → find_orphan_tool_calls (repair_calls fresh f store session run_id orphans).session.messages
        ≡ ok (filter (is_open (map (λ (x : ToolCallBlock). x.id) orphans)) calls)
  calls_repaired calls [] saved h g = h ∙ ap ok (sym (filter_all calls))
  calls_repaired calls (c ∷ cs) saved h g =
      batch_repairs fresh f session run_id (c ∷ cs) named store calls saved h g

  -- A repair that returns, with a message id that is not empty, leaves exactly those calls open
  -- that were open and are excluded.
  pub repair_orphan_tool_calls-open :
      (calls : List ToolCallBlock) (saved : List Event)
      → find_orphan_tool_calls session.messages ≡ ok calls
      → (repair_orphan_tool_calls fresh f store session run_id exclude).result ≡ ok saved
      → find_orphan_tool_calls
          (repair_orphan_tool_calls fresh f store session run_id exclude).session.messages
        ≡ ok (filter (λ c. not (is_lost exclude c)) calls)
  unfolding repair_orphan_tool_calls lost_calls
  repair_orphan_tool_calls-open calls saved h g =
      let orphans = filter (is_lost exclude) calls in
      let found : lost_calls session exclude ≡ ok orphans = rw h in
      rw (found, repair_orphan_tool_calls)
        (calls_repaired calls orphans saved h (rw (found, repair_orphan_tool_calls) at g)
          ∙ ap ok (answered (λ i. not (contains i exclude)) calls))

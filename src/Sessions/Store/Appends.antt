-- ===== src/Sessions/Store/Appends.antt =====
-- What a reader and a second writer see after `append`.
use aihi.Prelude.{
  ℕ, suc, ◌+◌, ◌≤◌, ◌<◌, String, ◌≡◌, ◌≢◌, refl, sym, subst, subst₂, ap, Bool, true, not, some,
  List, [], ◌∷◌, ◌++◌, ok, err, concurrency_conflict, event_conflict, session_not_found, raise_if,
  or_raise, length, nat_eq, ltb, filter, contains, distinct, arith, eq_refl, >>=-eq-ok,
  ok-injective, ◌∙◌, In, here, is_some,
}
use aihi.Dict
use aihi.Dict.{Dict}
use aihi.Event.{Event}
use aihi.Sessions.Store.{
  Store, SessionInfo, ids, stamp, claim_ids, events_of, seq_or_zero, commit, append, read,
}
use aihi.Sessions.Store.Log.{Log, Stamped, stamp-Stamped, lookup-claim_ids}
use aihi.Sessions.Store.Soundness.{IsSound, commit-IsSound, events_of-commit, sessions-commit}

-- The facts behind an accepted batch.
pub record Accepted (s t : Store) (sid : String) (n : ℕ) (es saved : List Event) : Type 0 where
  pub info : SessionInfo
  pub present : Dict.lookup s.sessions sid ≡ some info
  pub at_head : info.head_seq ≡ n
  pub distinct_ids : distinct (ids es) ≡ true
  pub stamped : Stamped s sid info.head_seq es saved
  pub committed : commit s sid info info.head_seq saved ≡ t

pub append-Accepted :
    (s t : Store) (sid : String) (n : ℕ) (es saved : List Event)
    → append s sid n es ≡ ok (saved, t)
    → Accepted s t sid n es saved
unfolding append
append-Accepted s t sid n es saved h =
    let (info, p, h1) = >>=-eq-ok (or_raise (Dict.lookup s.sessions sid) session_not_found) _ h in
    let (u, q, h2) =
      >>=-eq-ok (raise_if (not (nat_eq info.head_seq n)) concurrency_conflict) _ h1 in
    let (w, r, h3) = >>=-eq-ok (raise_if (not (distinct (ids es))) event_conflict) _ h2 in
    let (out, a, h4) = >>=-eq-ok (stamp s sid n es) _ h3 in
    let head : info.head_seq ≡ n = ground arith in
    let here_is : Dict.lookup s.sessions sid ≡ some info = ground arith in
    let apart : distinct (ids es) ≡ true = ground arith in
    let same : ◌≡◌ {A = List Event × Store} (out, commit s sid info n out) (saved, t) =
      ok-injective h4 in
    let out_eq : out ≡ saved = ap (λ (x : List Event × Store). x.0) same in
    record {
      info = info;
      present = here_is;
      at_head = head;
      distinct_ids = apart;
      stamped =
          subst₂ (λ m xs. Stamped s sid m es xs) (sym head) out_eq (stamp-Stamped s sid n es out a);
      committed = cc (head, out_eq, ap (λ (x : List Event × Store). x.1) same);
    }

-- A store that is sound stays so under an accepted batch of events.
pub append-IsSound :
    (s t : Store) (sid : String) (n : ℕ) (es saved : List Event)
    → append s sid n es ≡ ok (saved, t)
    → IsSound s
    → IsSound t
append-IsSound s t sid n es saved h v =
    let a = append-Accepted s t sid n es saved h in
    subst IsSound a.committed
      (commit-IsSound s v sid a.info es saved a.present a.distinct_ids a.stamped)

-- Reading past `k` passes over a log that ends by `k`, and keeps one that starts there.
abbrev past : ℕ → Event → Bool
past k e = ltb k (seq_or_zero e.seq)

past_none :
    (d : Dict String) (sid : String) (k n : ℕ) (es : List Event)
    → Log d sid n es
    → n + length es ≤ k
    → filter (past k) es ≡ []
past_none d sid k n [] h le = refl
past_none d sid k n (e ∷ es) (q, o, x, c, r) le =
    ground (arith, q, past_none d sid k (suc n) es r (omega arith))

past_all :
    (d : Dict String) (sid : String) (k n : ℕ) (es : List Event)
    → Log d sid n es
    → k ≤ n
    → filter (past k) es ≡ es
past_all d sid k n [] h le = refl
past_all d sid k n (e ∷ es) (q, o, x, c, r) le =
    ground (arith, q, past_all d sid k (suc n) es r (omega arith))

-- A sound store is read from its start as a whole.
pub read-all :
    (s : Store) (sid : String) (es : List Event)
    → IsSound s
    → read s sid 0 ≡ ok es
    → events_of s sid ≡ es
unfolding read
read-all s sid es v h =
    let (u, p, q) =
      >>=-eq-ok (raise_if (not (is_some (Dict.lookup s.sessions sid))) session_not_found) _ h in
    sym (past_all s.event_sessions sid 0 0 (events_of s sid) (v.logged sid) (omega arith))
    ∙ ok-injective q

filter-append :
    (p : Event → Bool) (es fs : List Event) → filter p (es ++ fs) ≡ filter p es ++ filter p fs
filter-append p [] fs = refl
filter-append p (e ∷ es) fs = ground (arith, filter-append p es fs)

length_pos : (es : List Event) → es ≢ [] → 0 < length es
length_pos [] h = absurd (h refl)
length_pos (e ∷ es) h = omega arith

-- A batch with a taken id is refused.
stamp_taken :
    (t : Store) (sid : String) (m : ℕ) (es : List Event)
    → es ≢ []
    → ((e : Event) → In e es → e.session_id ≡ sid)
    → ((k : String) → contains k (ids es) ≡ true → Dict.lookup t.event_sessions k ≡ some sid)
    → stamp t sid m es ≡ err event_conflict
unfolding stamp
stamp_taken t sid m [] some_events own taken = absurd (some_events refl)
stamp_taken t sid m (e ∷ es) some_events own taken =
    ground (arith, own e (here refl), eq_refl sid, taken e.id (ground (arith, eq_refl e.id)))

option-injective : {A : Type 0} {a b : A} → some a ≡ some b → a ≡ b
option-injective p = cc

module _ (s t : Store) (sid : String) (n : ℕ) (es saved : List Event)
    (h : append s sid n es ≡ ok (saved, t)) (v : IsSound s) where
  accepted : Accepted s t sid n es saved
  accepted = append-Accepted s t sid n es saved h

  grown : events_of t sid ≡ events_of s sid ++ saved
  grown =
      let a = accepted in
      ap (λ u. events_of u sid) (sym a.committed)
      ∙ events_of-commit s v sid a.info es saved a.present a.distinct_ids a.stamped sid
      ∙ rw (eq_refl sid)

  claims : Dict String
  claims = claim_ids s.event_sessions sid saved

  new_head : Dict.lookup t.sessions sid ≡ some (record accepted.info { head_seq = n + length es })
  unfolding accepted
  new_head =
      let a = accepted in
      ap (λ (u : Store). Dict.lookup u.sessions sid) (sym a.committed)
      ∙ sessions-commit s v sid a.info es saved a.present a.distinct_ids a.stamped sid
      ∙ ground (arith, eq_refl sid, a.at_head, a.stamped.same_length)

  -- The head of the log after the append.
  pub grown_head :
      (info : SessionInfo)
      → Dict.lookup s.sessions sid ≡ some info
      → Dict.lookup t.sessions sid ≡ some (record info { head_seq = n + length saved })
  unfolding accepted
  grown_head info p =
      let a = accepted in
      let same = option-injective (sym p ∙ a.present) in
      new_head
      ∙ ap (λ (i : SessionInfo). some (record i { head_seq = n + length es })) (sym same)
      ∙ ap (λ k. some (record info { head_seq = n + k })) (sym a.stamped.same_length)

  new_claims : (k : String) → contains k (ids es) ≡ true → Dict.lookup t.event_sessions k ≡ some sid
  unfolding commit
  new_claims k m =
      let a = accepted in
      ap (λ (u : Store). Dict.lookup u.event_sessions k) (sym a.committed)
      ∙ lookup-claim_ids s.event_sessions sid saved k
      ∙ rw (a.stamped.same_ids, m)

  saved-Log : Log claims sid n saved
  unfolding claims
  saved-Log =
      let a = accepted in
      subst (λ m. Log claims sid m saved) a.at_head
        (a.stamped.logged claims
          (λ j m. ground (arith, lookup-claim_ids s.event_sessions sid saved j, m)))

  old_end : length (events_of s sid) ≡ n
  old_end = let a = accepted in v.counted sid a.info a.present ∙ a.at_head

  -- From a sound store, a reader that asks for what came after the head of the append gets exactly
  -- the events that the append returned, and one that asks for all gets them behind the old ones.
  pub read-append : (read t sid n ≡ ok saved) × (read t sid 0 ≡ ok (events_of s sid ++ saved))
  unfolding read
  read-append =
      let old = events_of s sid in
      let d = s.event_sessions in
      (
        ground (
          arith,
          new_head,
          grown,
          filter-append (past n) old saved,
          past_none d sid n 0 old (v.logged sid) (omega (arith, old_end)),
          past_all claims sid n n saved saved-Log (omega arith),
        ),
        ground (
          arith,
          new_head,
          grown,
          filter-append (past 0) old saved,
          past_all d sid 0 0 old (v.logged sid) (omega arith),
          past_all claims sid 0 n saved saved-Log (omega arith),
        ),
      )

  -- After a batch with an event was accepted by a sound store, every batch that expects the same
  -- head is refused as a conflict: the second of two writers overwrites nothing.
  pub append_conflict : (fs : List Event) → es ≢ [] → append t sid n fs ≡ err concurrency_conflict
  unfolding append
  append_conflict fs some_events = ground (arith, new_head, length_pos es some_events)

  -- A batch with an event that a sound store accepted is refused when it is sent again at the new
  -- head.
  pub append_again : es ≢ [] → append t sid (n + length es) es ≡ err event_conflict
  unfolding append
  append_again some_events =
      let a = accepted in
      ground (
        arith,
        new_head,
        a.distinct_ids,
        stamp_taken t sid (n + length es) es some_events a.stamped.own new_claims,
      )

-- ===== src/Sessions/Repair/Pending.antt =====
-- The calls that are open: what results take from them.
use mathlib.Core.Bool.{true≢false}
use aihi.Prelude.{
  String, ◌≡◌, refl, sym, ap, ◌∙◌, Bool, true, not, ◌&&◌, ◌||◌, List, [], ◌∷◌, ◌++◌, map, filter,
  Result, ok, err, event_invariant_violation, ◌>>=◌, raise_if, is_some, arith, ◌==◌, eq_iff,
  eq_refl, contains, >>=-eq-ok, ok-injective,
}
use aihi.Dict
use aihi.Dict.{Dict}
use aihi.Messages.{Message, ToolCallBlock, ToolResultBlock, tool_calls, tool_results}
use aihi.Sessions.Projection.{
  Pairing, note_call, note_result, note_calls, note_results, pair_message, pair_messages,
}

-- Each call stands under its own id.
abbrev pub keyed : Dict ToolCallBlock → Bool
keyed [] = true
keyed ((k, c) ∷ d) = (c.id == k) && keyed d

keyed-insert :
    (d : Dict ToolCallBlock) (c : ToolCallBlock)
    → keyed d ≡ true
    → keyed (Dict.insert d c.id c) ≡ true
unfolding Dict.insert
keyed-insert [] c h = ground (arith, eq_refl c.id)
keyed-insert ((k, x) ∷ d) c h = ground (arith, keyed-insert d c, eq_iff k c.id, eq_refl c.id)

keyed-remove :
    (d : Dict ToolCallBlock) (k : String) → keyed d ≡ true → keyed (Dict.remove d k) ≡ true
unfolding Dict.remove
keyed-remove [] k h = refl
keyed-remove ((j, x) ∷ d) k h = ground (arith, keyed-remove d k)

note_calls-keyed :
    (cs : List ToolCallBlock) (p q : Pairing)
    → note_calls p cs ≡ ok q
    → keyed p.pending ≡ true
    → keyed q.pending ≡ true
unfolding note_calls note_call
note_calls-keyed [] p q h v = ap (λ (x : Pairing). keyed x.pending) (sym (ok-injective h)) ∙ v
note_calls-keyed (c ∷ cs) p q h v =
    let (r, a, b) = >>=-eq-ok (note_call p c) _ h in
    let (u, d, e) =
      >>=-eq-ok
        (raise_if (is_some (Dict.lookup p.pending c.id) || contains c.id p.completed)
          event_invariant_violation)
        _ a in
    note_calls-keyed cs r q b
      (ap (λ (x : Pairing). keyed x.pending) (sym (ok-injective e)) ∙ keyed-insert p.pending c v)

-- What the results of a message take away.
abbrev pub removed : Dict ToolCallBlock → List ToolResultBlock → Dict ToolCallBlock
removed d [] = d
removed d (r ∷ rs) = removed (Dict.remove d r.tool_call_id) rs

pub note_results-removed :
    (rs : List ToolResultBlock) (p q : Pairing)
    → note_results p rs ≡ ok q
    → q.pending ≡ removed p.pending rs
unfolding note_results note_result
note_results-removed [] p q h = ap (λ (x : Pairing). x.pending) (sym (ok-injective h))
note_results-removed (r ∷ rs) p q h =
    let (s, a, b) = >>=-eq-ok (note_result p r) _ h in
    let (u, d, e) =
      >>=-eq-ok (raise_if (contains r.tool_call_id p.completed) event_invariant_violation) _ a in
    let (w, f, g) =
      >>=-eq-ok
        (raise_if (not (is_some (Dict.lookup p.pending r.tool_call_id))) event_invariant_violation)
        _ e in
    note_results-removed rs s q b
    ∙ ap (λ d. removed d rs) (ap (λ (x : Pairing). x.pending) (sym (ok-injective g)))

removed-keyed :
    (d : Dict ToolCallBlock) (rs : List ToolResultBlock)
    → keyed d ≡ true
    → keyed (removed d rs) ≡ true
removed-keyed d [] h = h
removed-keyed d (r ∷ rs) h =
    removed-keyed (Dict.remove d r.tool_call_id) rs (keyed-remove d r.tool_call_id h)

pub pair_messages-keyed :
    (ms : List Message) (p q : Pairing)
    → pair_messages p ms ≡ ok q
    → keyed p.pending ≡ true
    → keyed q.pending ≡ true
unfolding pair_messages pair_message
pair_messages-keyed [] p q h v = ap (λ (x : Pairing). keyed x.pending) (sym (ok-injective h)) ∙ v
pair_messages-keyed (m ∷ ms) p q h v =
    let (r, a, b) = >>=-eq-ok (pair_message p m) _ h in
    let (s, d, e) = >>=-eq-ok (note_calls p (tool_calls m)) _ a in
    pair_messages-keyed ms r q b (
      ap keyed (note_results-removed (tool_results m) s r e)
      ∙ removed-keyed s.pending (tool_results m) (note_calls-keyed (tool_calls m) p s d v))

>>=-ok : {A : Type 0} (r : Result A) → (r >>= λ a. ok a) ≡ r
>>=-ok (ok a) = refl
>>=-ok (err x) = refl

pub pair_messages-snoc :
    (ms : List Message) (m : Message) (p q : Pairing)
    → pair_messages p ms ≡ ok q
    → pair_messages p (ms ++ m ∷ []) ≡ pair_message q m
unfolding pair_messages
pair_messages-snoc [] m p q h =
    ap (λ r. r >>= λ v. pair_message v m >>= λ s. ok s) h ∙ >>=-ok (pair_message q m)
pair_messages-snoc (x ∷ ms) m p q h =
    let (r, a, b) = >>=-eq-ok (pair_message p x) _ h in
    ap (λ s. s >>= λ v. pair_messages v (ms ++ m ∷ [])) a ∙ pair_messages-snoc ms m r q b

-- The calls that stay open are those that no result names.
abbrev pub is_open : List String → ToolCallBlock → Bool
is_open ids c = not (contains c.id ids)

values-remove :
    (d : Dict ToolCallBlock) (k : String)
    → keyed d ≡ true
    → Dict.values (Dict.remove d k) ≡ filter (λ c. not (k == c.id)) (Dict.values d)
unfolding Dict.values Dict.remove
values-remove [] k h = refl
values-remove ((j, c) ∷ d) k h =
    ground (arith, values-remove d k, eq_iff j k, eq_iff c.id j, eq_iff k c.id)

filter-filter :
    {A : Type 0} (p q r : A → Bool) (xs : List A)
    → ((x : A) → r x ≡ (q x && p x))
    → filter p (filter q xs) ≡ filter r xs
filter-filter p q r [] h = refl
filter-filter p q r (x ∷ xs) h = ground (arith, h x, filter-filter p q r xs h)

pub filter_all : (cs : List ToolCallBlock) → filter (is_open []) cs ≡ cs
filter_all [] = refl
filter_all (c ∷ cs) = ap (λ r. c ∷ r) (filter_all cs)

pub values-removed :
    (d : Dict ToolCallBlock) (rs : List ToolResultBlock)
    → keyed d ≡ true
    → Dict.values (removed d rs)
      ≡ filter (is_open (map (λ (r : ToolResultBlock). r.tool_call_id) rs)) (Dict.values d)
values-removed d [] h = sym (filter_all (Dict.values d))
values-removed d (r ∷ rs) h =
    let k = r.tool_call_id in
    let ids = map (λ (r : ToolResultBlock). r.tool_call_id) rs in
    values-removed (Dict.remove d k) rs (keyed-remove d k h)
    ∙ ap (filter (is_open ids)) (values-remove d k h)
    ∙ filter-filter (is_open ids) (λ c. not (k == c.id)) (is_open (k ∷ ids)) (Dict.values d)
        (λ c. ground arith)

-- Results for the calls that pass a test on their id leave the calls that do not.
contains-ids :
    (test : String → Bool) (c : ToolCallBlock) (cs : List ToolCallBlock)
    → contains c.id (map (λ (x : ToolCallBlock). x.id) (filter (λ x. test x.id) cs)) ≡ true
    → test c.id ≡ true
contains-ids test c [] h = absurd (true≢false (sym h))
contains-ids test c (x ∷ cs) h = ground (arith, contains-ids test c cs, eq_iff x.id c.id)

contained-ids :
    (test : String → Bool) (c : ToolCallBlock) (cs : List ToolCallBlock)
    → test c.id ≡ true
    → contains c.id (map (λ (x : ToolCallBlock). x.id) cs) ≡ true
    → contains c.id (map (λ (x : ToolCallBlock). x.id) (filter (λ x. test x.id) cs)) ≡ true
contained-ids test c [] t h = h
contained-ids test c (x ∷ cs) t h = ground (arith, contained-ids test c cs t, eq_iff x.id c.id)

still_open :
    (test : String → Bool) (all cs : List ToolCallBlock)
    → ((c : ToolCallBlock)
        → contains c.id (map (λ (x : ToolCallBlock). x.id) cs) ≡ true
        → contains c.id (map (λ (x : ToolCallBlock). x.id) all) ≡ true)
    → filter (is_open (map (λ (x : ToolCallBlock). x.id) (filter (λ x. test x.id) all))) cs
      ≡ filter (λ x. not (test x.id)) cs
still_open test all [] h = refl
still_open test all (c ∷ cs) h = ground (
  arith,
  still_open test all cs (λ x i. h x (ground (arith, i))),
  contains-ids test c all,
  contained-ids test c all,
  h c (ground (arith, eq_refl c.id)),
)

pub answered :
    (test : String → Bool) (cs : List ToolCallBlock)
    → filter (is_open (map (λ (x : ToolCallBlock). x.id) (filter (λ x. test x.id) cs))) cs
      ≡ filter (λ x. not (test x.id)) cs
answered test cs = still_open test cs cs (λ c i. i)

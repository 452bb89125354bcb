-- ===== src/Sessions/Store/Log.antt =====
-- What the batch loop of `append` writes, and when a list of events is a session's log.
use aihi.Prelude.{
  ℕ, suc, ◌+◌, String, ◌≡◌, refl, sym, subst, ap, true, false, not, none, some, List, [], ◌∷◌, ◌++◌,
  ok, value_error, event_conflict, raise_if, is_some, ◌==◌, length, contains, distinct, arith,
  eq_iff, eq_refl, if◌then◌else◌, >>=-eq-ok, ok-injective, any-append, inl, inr, Bool-cases, ◌∙◌,
  In, here, there,
}
use aihi.Dict
use aihi.Dict.{Dict, dict_laws}
use aihi.Event.{Event}
use aihi.Sessions.Store.{Store, ids, json_copy, stamp, claim_ids}

-- The events after the first `n` of the log of session `sid`, with `d` the ids that are taken:
-- consecutive sequence numbers, the session's own events, each id taken by the session.
abbrev pub Log : Dict String → String → ℕ → List Event → Type 0
Log d sid n [] = Unit
Log d sid n (e ∷ es) =
    (e.seq ≡ some (suc n))
    × (e.session_id ≡ sid)
    × (e.ephemeral ≡ false)
    × (Dict.lookup d e.id ≡ some sid)
    × Log d sid (suc n) es

pub Log-mono :
    (d d' : Dict String) (sid : String) (n : ℕ) (es : List Event)
    → ((k : String) → Dict.lookup d k ≡ some sid → Dict.lookup d' k ≡ some sid)
    → Log d sid n es
    → Log d' sid n es
Log-mono d d' sid n [] keep h = tt
Log-mono d d' sid n (e ∷ es) keep (a, b, c, i, r) =
    (a, b, c, keep e.id i, Log-mono d d' sid (suc n) es keep r)

pub Log-append :
    (d : Dict String) (sid : String) (n : ℕ) (es fs : List Event)
    → Log d sid n es
    → Log d sid (n + length es) fs
    → Log d sid n (es ++ fs)
Log-append d sid n [] fs h k = subst (λ m. Log d sid m fs) (omega arith) k
Log-append d sid n (e ∷ es) fs (a, b, c, i, r) k =
    (a, b, c, i, Log-append d sid (suc n) es fs r (subst (λ m. Log d sid m fs) (omega arith) k))

pub Log-claims :
    (d : Dict String) (sid : String) (n : ℕ) (es : List Event) (k : String)
    → Log d sid n es
    → contains k (ids es) ≡ true
    → Dict.lookup d k ≡ some sid
Log-claims d sid n [] k h p = cc
Log-claims d sid n (e ∷ es) k (a, b, c, i, r) p = elim (Bool-cases (e.id == k)) [
  | inl q ↦ subst (λ j. Dict.lookup d j ≡ some sid) ((eq_iff e.id k).0 q) i
  | inr q ↦ Log-claims d sid (suc n) es k r (rw q at p)
]

pub lookup-claim_ids :
    (d : Dict String) (sid : String) (es : List Event) (k : String)
    → Dict.lookup (claim_ids d sid es) k
      ≡ (if contains k (ids es) then some sid else Dict.lookup d k)
unfolding claim_ids
lookup-claim_ids d sid [] k = refl
lookup-claim_ids d sid (e ∷ es) k =
    simp (lookup-claim_ids (Dict.insert d e.id sid) sid es k, Dict.lookup-insert) (ground arith)

pub distinct-append :
    (xs ys : List String)
    → distinct xs ≡ true
    → distinct ys ≡ true
    → ((k : String) → contains k xs ≡ true → contains k ys ≡ false)
    → distinct (xs ++ ys) ≡ true
distinct-append [] ys h k apart = k
distinct-append (x ∷ xs) ys h k apart =
    let rest = distinct-append xs ys (ground arith) k (λ j p. apart j (ground arith)) in
    ground (arith, rest, any-append (λ z. z == x) xs ys, apart x (ground (arith, eq_refl x)))

own_cons :
    {sid : String} (e : Event) (es : List Event) (x : Event)
    → e.session_id ≡ sid
    → ((y : Event) → In y es → y.session_id ≡ sid)
    → In x (e ∷ es)
    → x.session_id ≡ sid
own_cons e es x p rest (here q) = ap (λ (y : Event). y.session_id) (sym q) ∙ p
own_cons e es x p rest (there m) = rest x m

module _ (s : Store) (sid : String) where
  -- What an accepted batch looks like: the same ids, none of them taken before, numbered on.
  pub record Stamped (n : ℕ) (es saved : List Event) : Type 0 where
    pub same_ids : ids saved ≡ ids es
    pub own : (e : Event) → In e es → e.session_id ≡ sid
    pub same_length : length saved ≡ length es
    pub fresh : (k : String) → contains k (ids saved) ≡ true → Dict.lookup s.event_sessions k ≡ none
    pub logged :
        (d : Dict String)
        → ((k : String) → contains k (ids saved) ≡ true → Dict.lookup d k ≡ some sid)
        → Log d sid n saved

  pub stamp-Stamped :
      (n : ℕ) (es saved : List Event) → stamp s sid n es ≡ ok saved → Stamped n es saved
  unfolding stamp
  stamp-Stamped n [] saved h = subst (Stamped n []) (ok-injective h) (record {
    own = λ e m. elim m [ ];
    same_ids = refl;
    same_length = refl;
    fresh = λ k p. cc;
    logged = λ d k. tt;
  })
  stamp-Stamped n (e ∷ es) saved h =
      let (u, p, h1) = >>=-eq-ok (raise_if (not (e.session_id == sid)) value_error) _ h in
      let (v, q, h2) =
        >>=-eq-ok (raise_if (is_some (Dict.lookup s.event_sessions e.id)) event_conflict) _ h1 in
      let (copied, w, h2') = >>=-eq-ok (json_copy e.payload) _ h2 in
      let (rest, r, h3) = >>=-eq-ok (stamp s sid (suc n) es) _ h2' in
      let ih = stamp-Stamped (suc n) es rest r in
      subst (Stamped n (e ∷ es)) (ok-injective h3) (record {
        own = λ x m. own_cons e es x ((eq_iff e.session_id sid).0 (ground arith)) ih.own m;
        same_ids = ap (λ is. e.id ∷ is) ih.same_ids;
        same_length = ap suc ih.same_length;
        fresh = λ k m. elim (Bool-cases (e.id == k)) [
          | inl same ↦
              subst (λ j. Dict.lookup s.event_sessions j ≡ none) ((eq_iff e.id k).0 same)
                (ground arith)
          | inr other ↦ ih.fresh k (rw other at m)
        ];
        logged = λ d taken. (
          refl,
          (eq_iff e.session_id sid).0 (ground arith),
          refl,
          taken e.id (ground (arith, eq_refl e.id)),
          ih.logged d (λ k m. taken k (ground arith)),
        );
      })

-- ===== src/Context/Compaction/Kept.antt =====
-- A compaction keeps the newest groups whole and replaces all the others.
use aihi.Prelude.{
  ℕ, zero, suc, ◌+◌, ◌≤◌, ◌<◌, ◌≡◌, refl, Bool, false, ◌||◌, List, [], ◌∷◌, ◌++◌, length, drop, ok,
  context_window_exceeded, raise_if, leb, ltb, nat_eq, arith, Bool-cases, inl, inr, ◌⊎◌, ap, sym,
  ◌∙◌, subst, >>=-eq-ok, ok-injective, ok-ne-err, if◌then◌else◌,
}
use aihi.Messages.{Message}
use aihi.Context.Grouping.{group_tool_exchanges}
use aihi.Context.Grouping.Groups.{concat}
use aihi.Context.Pressure.{CompactionPolicy, share, recent_tail_budget}
use aihi.Context.Compaction.{
  AssembledContext, CompiledContext, no_index, group_at, retained_at, omitted_from, ids,
  select_tail, input_capacity, initial_tail_indexes, full_tokens, candidate, shrink, compiled,
  compact, summary_ids, raw_messages,
}
use aihi.Context.Compaction.Rows.{
  rising, length-rising, omitted-row, retained-row, split-at, not_all,
}

module _ (tokens_of : List Message → ℕ) (is_state : Message → Bool)
    (summary : List Message → List Message → Message) where
  -- The selection is a row that ends at the last group, and is empty only where it started so.
  select_tail-rising :
      (index : ℕ) (groups : List (List Message)) (tail_budget m tokens : ℕ)
      → (k : ℕ) × (n : ℕ) × (select_tail tokens_of is_state summary index groups tail_budget
            (rising index m)
            tokens
          ≡ rising k n)
        × (k + n ≡ index + m)
        × (0 < index + m → 0 < n)
  unfolding select_tail
  select_tail-rising zero groups b m tokens = (0, m, refl, refl, λ h. omega arith)
  select_tail-rising (suc index) groups b m tokens =
      let taken = tokens + tokens_of (group_at index groups) in
      elim (Bool-cases (no_index (rising (suc index) m) || leb taken b)) [
        | inl e ↦
            let (k, n, q, sum, some_left) = select_tail-rising index groups b (suc m) taken in
            (k, n, rw e q, omega arith, λ h. some_left (omega arith))
        | inr e ↦ (suc index, m, rw e refl, refl, λ h. nonempty m e)
      ]
    where
      nonempty :
          (m : ℕ)
          → (no_index (rising (suc index) m) || leb (tokens + tokens_of (group_at index groups)) b)
            ≡ false
          → 0 < m
      nonempty zero h = cc
      nonempty (suc m) h = omega arith

  -- A candidate that the loop ends with is within the target, or is that of the newest group alone
  -- and within the capacity.
  abbrev pub Fits : AssembledContext → ℕ → List (List Message) → List ℕ → Type 0
  Fits a target groups kept =
      let after =
        full_tokens tokens_of is_state summary a
          (candidate tokens_of is_state summary groups kept) in
      (after ≤ target) ⊎ ((length kept ≡ 1) × (after ≤ input_capacity a.budget))

  -- The loop takes groups off the row from its front, and never the last one.
  shrink-rising :
      (a : AssembledContext) (target : ℕ) (groups : List (List Message)) (k n : ℕ) (kept : List ℕ)
      → shrink tokens_of is_state summary a target groups (rising k (suc n)) ≡ ok kept
      → (j : ℕ) × (m : ℕ) × (kept ≡ rising j m)
        × (j + m ≡ k + suc n)
        × (k ≤ j)
        × (0 < m)
        × Fits a target groups kept
  unfolding shrink
  shrink-rising a target groups k zero kept h =
      elim (Bool-cases (
        leb
          (full_tokens tokens_of is_state summary a
            (candidate tokens_of is_state summary groups (k ∷ [])))
          target)) [
            | inl e ↦
                let same : k ∷ [] ≡ kept = ok-injective (rw e at h) in
                (
                  k,
                  1,
                  sym same,
                  refl,
                  omega arith,
                  omega arith,
                  subst (Fits a target groups) same (inl (ground (arith, e))),
                )
            | inr e ↦
                elim (Bool-cases (
                  leb
                    (full_tokens tokens_of is_state summary a
                      (candidate tokens_of is_state summary groups (k ∷ [])))
                    (input_capacity a.budget))) [
                      | inl f ↦
                          let same : k ∷ [] ≡ kept = ok-injective (rw (e, f) at h) in
                          (
                            k,
                            1,
                            sym same,
                            refl,
                            omega arith,
                            omega arith,
                            subst (Fits a target groups) same (inr (refl, ground (arith, f))),
                          )
                      | inr f ↦ absurd (ok-ne-err (sym (rw (e, f) at h)))
                    ]
          ]
  shrink-rising a target groups k (suc n) kept h =
      elim (Bool-cases (
        leb
          (full_tokens tokens_of is_state summary a
            (candidate tokens_of is_state summary groups (rising k (suc (suc n)))))
          target)) [
            | inl e ↦
                let same : rising k (suc (suc n)) ≡ kept = ok-injective (rw e at h) in
                (
                  k,
                  suc (suc n),
                  sym same,
                  refl,
                  omega arith,
                  omega arith,
                  subst (Fits a target groups) same (inl (ground (arith, e))),
                )
            | inr e ↦
                let (j, m, q, sum, later, pos, fits) =
                  shrink-rising a target groups (suc k) n kept (rw e at h) in
                (j, m, q, omega arith, omega arith, pos, fits)
          ]

  -- What a compaction does: the raw messages fall into older groups and newer ones, at least one of
  -- each; the newer ones are kept whole and in order behind the summary, and the ids of the older
  -- ones are recorded as replaced, behind those of the summaries before.
  pub record IsCompacted (a : AssembledContext) (p : CompactionPolicy) (c : CompiledContext)
      : Type 0 where
    pub old : List (List Message)
    pub new : List (List Message)
    pub split :
        group_tool_exchanges (raw_messages tokens_of is_state summary a.messages) ≡ old ++ new
    pub some_old : 0 < length old
    pub some_new : 0 < length new
    pub messages : c.messages ≡ summary (concat old) (concat new) ∷ concat new
    pub tokens : c.estimated_tokens ≡ full_tokens tokens_of is_state summary a c.messages
    pub replaced :
        c.replaced_message_ids
        ≡ summary_ids tokens_of is_state summary a.messages ++ ids (concat old)
    pub retained : c.retained_message_ids ≡ ids (concat new)
    pub fits :
        (c.estimated_tokens ≤ share (input_capacity a.budget) p.compaction_target_ratio)
        ⊎ ((length new ≡ 1) × (c.estimated_tokens ≤ input_capacity a.budget))

  compiled-IsCompacted :
      (a : AssembledContext) (p : CompactionPolicy) (j m : ℕ)
      → let groups = group_tool_exchanges (raw_messages tokens_of is_state summary a.messages) in
        j + m ≡ length groups
        → 0 < j
        → 0 < m
        → Fits a (share (input_capacity a.budget) p.compaction_target_ratio) groups (rising j m)
        → IsCompacted a p (compiled tokens_of is_state summary a groups (rising j m))
  compiled-IsCompacted a p j m sum older newer fits =
      let groups = group_tool_exchanges (raw_messages tokens_of is_state summary a.messages) in
      let (old, new, joined, x, y) = split-at j m groups sum in
      let omitted : omitted_from 0 (rising j m) groups ≡ concat old =
        subst (λ gs. omitted_from 0 (rising j m) gs ≡ concat old) (sym joined)
          (subst (λ n. omitted_from 0 (rising j n) (old ++ new) ≡ concat old) y
            (subst (λ n. omitted_from 0 (rising n (length new)) (old ++ new) ≡ concat old) x
              (omitted-row old new))) in
      let kept : retained_at groups (rising j m) ≡ concat new =
        subst (λ gs. retained_at gs (rising j m) ≡ concat new) (sym joined)
          (subst (λ n. retained_at (old ++ new) (rising j n) ≡ concat new) y
            (subst (λ n. retained_at (old ++ new) (rising n (length new)) ≡ concat new) x
              (retained-row old new))) in
      record {
        old = old;
        new = new;
        split = joined;
        some_old = omega arith;
        some_new = omega arith;
        messages = rw (omitted, kept) refl;
        tokens = refl;
        replaced = ap (λ l. summary_ids tokens_of is_state summary a.messages ++ ids l) omitted;
        retained = ap ids kept;
        fits = elim fits [
          | inl h ↦ inl h
          | inr (one, h) ↦ inr (y ∙ sym (length-rising j m) ∙ one, h)
        ];
      }

  initial-rising :
      (a : AssembledContext) (p : CompactionPolicy) (groups : List (List Message)) (tail : List ℕ)
      → 0 < length groups
      → initial_tail_indexes tokens_of is_state summary groups a p ≡ ok tail
      → (k : ℕ) × (n : ℕ) × (tail ≡ rising k n) × (k + n ≡ length groups) × (0 < n)
  unfolding initial_tail_indexes
  initial-rising a p groups tail some_group h =
      let (recent, q, made) = >>=-eq-ok (recent_tail_budget p (input_capacity a.budget)) _ h in
      let (k, n, row, sum, left) = select_tail-rising (length groups) groups _ 0 0 in
      (k, n, sym (ok-injective made) ∙ row, omega arith, left (omega arith))

  -- A compaction that succeeds keeps the newest exchanges whole, at least one, and replaces all the
  -- others, at least one, by the summary; what it keeps is within the target, or is one exchange
  -- within the capacity.
  pub compact-IsCompacted :
      (a : AssembledContext) (p : CompactionPolicy) (c : CompiledContext)
      → compact tokens_of is_state summary a p ≡ ok c
      → IsCompacted a p c
  unfolding compact
  compact-IsCompacted a p c h =
      let groups = group_tool_exchanges (raw_messages tokens_of is_state summary a.messages) in
      let target = share (input_capacity a.budget) p.compaction_target_ratio in
      let (u, guard, h1) =
        >>=-eq-ok (raise_if (ltb (length groups) 2) context_window_exceeded) _ h in
      let many : 1 < length groups = ground (arith, guard) in
      let (tail, t, h2) =
        >>=-eq-ok (initial_tail_indexes tokens_of is_state summary groups a p) _ h1 in
      let (kept, s, made) =
        >>=-eq-ok
          (shrink tokens_of is_state summary a target groups
            (if nat_eq (length tail) (length groups) then drop 1 tail else tail))
          _ h2 in
      let (k, n, row, sum, pos) = initial-rising a p groups tail (omega arith) t in
      let (j, m, cut, sum', older) = not_all k n (length groups) sum many pos in
      let start : (if nat_eq (length tail) (length groups) then drop 1 tail else tail)
          ≡ rising j (suc m) =
        ap (λ l. if nat_eq (length l) (length groups) then drop 1 l else l) row ∙ cut in
      let (i, l, ends, sum'', later, newer, fits) =
        shrink-rising a target groups j m kept
          (subst (λ l. shrink tokens_of is_state summary a target groups l ≡ ok kept) start s) in
      subst (IsCompacted a p)
        (ap (λ l. compiled tokens_of is_state summary a groups l) (sym ends) ∙ ok-injective made)
        (compiled-IsCompacted a p i l (omega arith) (omega arith) newer
          (subst (Fits a target groups) ends fits))

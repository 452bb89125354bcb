-- ===== src/Runtime/ToolCalls/Grouped.antt =====
-- The calls of a message are run in order, each once, and alone where that matters.
use aihi.Prelude.{
  ℕ, zero, suc, ◌≤◌, String, ◌≡◌, refl, Bool, true, not, ◌||◌, Option, List, [], ◌∷◌, ◌++◌, length,
  drop, map, all, arith, ap, sym, ◌∙◌, Bool-cases, inl, inr, subst, length-append,
}
use aihi.Messages.{ToolCallBlock}
use aihi.Policy.Engine.{ToolSpec}
use aihi.Runtime.ToolCalls.{
  CallEnd, CallsEnd, ids_of, answered, waiting, raised, commit_group, add_answer, is_parallelizable,
  group_rest, parallel_group, tool_groups, execute_tool_calls,
}

abbrev pub concat : List (List ToolCallBlock) → List ToolCallBlock
concat [] = []
concat (g ∷ gs) = g ++ concat gs

drop-length {ℓ} : {A : Type ℓ} (xs ys : List A) → drop (length xs) (xs ++ ys) ≡ ys
drop-length [] ys = refl
drop-length (x ∷ xs) ys = drop-length xs ys

abbrev calls_of : List (ToolCallBlock × String) → List ToolCallBlock
calls_of = map (λ p. p.0)

-- The calls of a message are those that are answered, in order, and those to come: none when all
-- is done, and those whose ids are handed on when a call waits for an approval.
abbrev pub Accounts : List ToolCallBlock → List (ToolCallBlock × String) × CallsEnd → Type 0
Accounts calls (answers, CallsEnd.done) = calls_of answers ≡ calls
Accounts calls (answers, CallsEnd.suspended approval_id pending) =
    ids_of (calls_of answers) ++ pending ≡ ids_of calls
Accounts calls (answers, CallsEnd.failed x) =
    (rest : List ToolCallBlock) × (calls_of answers ++ rest ≡ calls)

Accounts-add_answer :
    (c : ToolCallBlock) (result : String) (calls : List ToolCallBlock)
    (r : List (ToolCallBlock × String) × CallsEnd)
    → Accounts calls r
    → Accounts (c ∷ calls) (add_answer c result r)
Accounts-add_answer c result calls (answers, CallsEnd.done) h = ap (λ l. c ∷ l) h
Accounts-add_answer c result calls (answers, CallsEnd.suspended approval_id pending) h =
    ap (λ l. c.id ∷ l) h
Accounts-add_answer c result calls (answers, CallsEnd.failed x) (rest, h) =
    (rest, ap (λ l. c ∷ l) h)

commit_group-Accounts :
    (ends : ToolCallBlock → CallEnd) (group rest : List ToolCallBlock)
    (behind : List (ToolCallBlock × String) × CallsEnd)
    → Accounts rest behind
    → Accounts (group ++ rest) (commit_group ends group (group ++ rest) behind)
unfolding commit_group
commit_group-Accounts ends [] rest behind h = h
commit_group-Accounts ends (c ∷ group) rest behind h =
    ended (ends c) (commit_group-Accounts ends group rest behind h)
  where
    ended :
        (e : CallEnd)
        → Accounts (group ++ rest) (commit_group ends group (group ++ rest) behind)
        → Accounts (c ∷ group ++ rest) (elim e [
          | answered result ↦ add_answer c result (commit_group ends group (group ++ rest) behind)
          | waiting approval_id ↦ ([], CallsEnd.suspended approval_id (ids_of (c ∷ group ++ rest)))
          | raised x ↦ ([], CallsEnd.failed x)
        ])
    ended (answered result) k = Accounts-add_answer c result (group ++ rest) _ k
    ended (waiting approval_id) k = refl
    ended (raised x) k = (c ∷ group ++ rest, refl)

module _ (tool_spec : String → Option ToolSpec) (leases : Bool) where
  group_rest-split :
      (calls : List ToolCallBlock)
      → (rest : List ToolCallBlock) × (calls ≡ group_rest tool_spec leases calls ++ rest)
        × (all (is_parallelizable tool_spec leases) (group_rest tool_spec leases calls) ≡ true)
  unfolding group_rest
  group_rest-split [] = ([], refl, refl)
  group_rest-split (c ∷ cs) = elim (Bool-cases (is_parallelizable tool_spec leases c)) [
    | inl e ↦
        let (rest, q, a) = group_rest-split cs in (rest, rw e (ap (λ l. c ∷ l) q), rw (e, e) a)
    | inr e ↦ (c ∷ cs, rw e refl, rw e refl)
  ]

  -- A group is one call, or calls that may all run together.
  abbrev pub IsGroup : List ToolCallBlock → Type 0
  IsGroup [] = ⊥
  IsGroup (c ∷ []) = Unit
  IsGroup (c ∷ d ∷ cs) = all (is_parallelizable tool_spec leases) (c ∷ d ∷ cs) ≡ true

  together :
      (c : ToolCallBlock) (cs : List ToolCallBlock)
      → all (is_parallelizable tool_spec leases) (c ∷ cs) ≡ true
      → IsGroup (c ∷ cs)
  together c [] h = tt
  together c (d ∷ cs) h = h

  parallel_group-split :
      (allow : Bool) (c : ToolCallBlock) (cs : List ToolCallBlock)
      → (rest : List ToolCallBlock) × (c ∷ cs ≡ parallel_group tool_spec leases allow c cs ++ rest)
        × IsGroup (parallel_group tool_spec leases allow c cs)
        × (length rest ≤ length cs)
  unfolding parallel_group
  parallel_group-split allow c cs =
      elim (Bool-cases (not allow || not (is_parallelizable tool_spec leases c))) [
        | inl e ↦ (cs, rw e refl, rw e tt, omega arith)
        | inr e ↦
            let (rest, q, a) = group_rest-split cs in
            (
              rest,
              rw e (ap (λ l. c ∷ l) q),
              rw e (together c (group_rest tool_spec leases cs) (ground (arith, a))),
              omega (arith, ap length q, length-append (group_rest tool_spec leases cs) rest),
            )
      ]

  abbrev pub AreGroups : List (List ToolCallBlock) → Type 0
  AreGroups [] = Unit
  AreGroups (g ∷ gs) = IsGroup g × AreGroups gs

  -- The groups that run one after the other are the calls in order, and each is a single call or
  -- calls of tools that are all known, safe to run together, and change nothing.
  pub tool_groups-AreGroups :
      (rounds : ℕ) (allow : Bool) (calls : List ToolCallBlock)
      → length calls ≤ rounds
      → (concat (tool_groups tool_spec leases rounds allow calls) ≡ calls)
        × AreGroups (tool_groups tool_spec leases rounds allow calls)
  unfolding tool_groups
  tool_groups-AreGroups zero allow [] h = (refl, tt)
  tool_groups-AreGroups zero allow (c ∷ cs) h = absurd (omega arith)
  tool_groups-AreGroups (suc rounds) allow [] h = (refl, tt)
  tool_groups-AreGroups (suc rounds) allow (c ∷ cs) h =
      let g = parallel_group tool_spec leases allow c cs in
      let (rest, split, group, shorter) = parallel_group-split allow c cs in
      let behind : drop (length g) (c ∷ cs) ≡ rest =
        ap (drop (length g)) split ∙ drop-length g rest in
      let (joined, groups) = tool_groups-AreGroups rounds allow rest (omega arith) in
      (
        ap (λ l. g ++ concat (tool_groups tool_spec leases rounds allow l)) behind
            ∙ ap (λ l. g ++ l) joined
            ∙ sym split,
        (
          group,
          subst (λ l. AreGroups (tool_groups tool_spec leases rounds allow l)) (sym behind) groups,
        ),
      )

  -- However the dispatches end, each call is answered in order or is still to come: all are
  -- answered when the execution is done, and when it stops for an approval, the ids that it hands
  -- on are those of exactly the calls behind the answered ones.
  pub execute_tool_calls-Accounts :
      (ends : ToolCallBlock → CallEnd) (rounds : ℕ) (allow : Bool) (calls : List ToolCallBlock)
      → length calls ≤ rounds
      → Accounts calls (execute_tool_calls tool_spec leases ends rounds allow calls)
  unfolding execute_tool_calls
  execute_tool_calls-Accounts ends zero allow [] h = refl
  execute_tool_calls-Accounts ends zero allow (c ∷ cs) h = absurd (omega arith)
  execute_tool_calls-Accounts ends (suc rounds) allow [] h = refl
  execute_tool_calls-Accounts ends (suc rounds) allow (c ∷ cs) h =
      let g = parallel_group tool_spec leases allow c cs in
      let (rest, split, group, shorter) = parallel_group-split allow c cs in
      let behind : drop (length g) (c ∷ cs) ≡ rest =
        ap (drop (length g)) split ∙ drop-length g rest in
      subst
        (λ calls. Accounts calls (
          commit_group ends g calls
            (execute_tool_calls tool_spec leases ends rounds allow (drop (length g) (c ∷ cs)))))
        (sym split)
        (commit_group-Accounts ends g rest _ (
          subst
            (λ l.
              Accounts l
                (execute_tool_calls tool_spec leases ends rounds allow (drop (length g) (c ∷ cs))))
            behind
            (subst (λ l. Accounts l (execute_tool_calls tool_spec leases ends rounds allow l))
              (sym behind) (execute_tool_calls-Accounts ends rounds allow rest (omega arith)))))

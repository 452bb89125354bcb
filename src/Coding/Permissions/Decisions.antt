-- ===== src/Coding/Permissions/Decisions.antt =====
-- When `CodeAgentPolicy.evaluate` allows a tool.
use aihi.Prelude.{
  Result, ok, err, Result-cases, ℕ, String, ◌≡◌, true, false, not, ◌&&◌, ◌↔◌, ◌⊎◌, some, inl, inr,
  arith, Bool-cases,
}
use aihi.Json.{Fields}
use aihi.Policy.Engine.{
  ToolSpec, PermissionContext, Decision, DecisionEffect, is_nil, has_capabilities, is_approved,
}
use aihi.Policy.Engine.Authority.{
  is_approved-ApprovedBy, has_capabilities-LeasedBy, ApprovedBy-is_approved,
  LeasedBy-has_capabilities,
}
use aihi.Coding.Permissions.{
  CodeAgentPermissionContext, is_read_only, is_full_access, is_plan, executes_process,
  local_file_write, evaluate_modes, evaluate_coding,
}
use aihi.Coding.Paths.{sensitive_path}
use aihi.Coding.Permissions.Authority.{
  IsAuthorized, IsAllowed, is_privileged, local_file_write-IsLocalEdit,
  IsLocalEdit-local_file_write, IsLocalEdit-executes, is_plan-execute, execute-is_plan,
  is_full_access-eq, is_read_only-ne,
}

module _ (spec : ToolSpec) (app : CodeAgentPermissionContext) (c : PermissionContext)
    (now : ℕ) where
  abbrev Allows : Type 0
  Allows = (evaluate_modes spec app c now).effect ≡ DecisionEffect.allow

  Allows-capable :
      Allows
      → c.require_capability_lease ≡ true
      → has_capabilities c spec.required_capabilities now ≡ true
  unfolding evaluate_modes
  Allows-capable h r = ground arith

  Allows-modes :
      Allows
      → is_privileged spec ≡ true
      → (is_plan app.run_mode ≡ false) × (is_read_only app.access_mode ≡ false)
  unfolding evaluate_modes
  Allows-modes h p = (ground arith, ground arith)

  -- A privileged tool that no approval, lease or full access lets run is an edit of local files.
  Allows-rest :
      Allows
      → is_privileged spec ≡ true
      → is_approved c spec.name now ≡ false
      → (c.require_capability_lease && not (is_nil spec.required_capabilities)) ≡ false
      → is_full_access app.access_mode ≡ false
      → local_file_write spec ≡ true
  unfolding evaluate_modes
  Allows-rest h p no_approval no_lease not_full = ground arith

  Allows-authority : Allows → is_privileged spec ≡ true → IsAuthorized spec app c now
  Allows-authority h p =
      let (executing, writable) = Allows-modes h p in
      record {
        executing = is_plan-execute app.run_mode executing;
        not_read_only = (is_read_only-ne app.access_mode).0 writable;
        authority = elim (Bool-cases (is_approved c spec.name now)) [
          | inl e ↦ inl (is_approved-ApprovedBy c spec.name now e)
          | inr no_approval ↦
              inr
                (elim (Bool-cases
                  (c.require_capability_lease && not (is_nil spec.required_capabilities))) [
                    | inl e ↦
                        let r : c.require_capability_lease ≡ true = ground arith in
                        let n : is_nil spec.required_capabilities ≡ false = ground arith in
                        inl (
                          r,
                          n,
                          has_capabilities-LeasedBy c spec.required_capabilities now
                              (Allows-capable h r) n,
                        )
                    | inr no_lease ↦ inr (elim (Bool-cases (is_full_access app.access_mode)) [
                      | inl e ↦ inl ((is_full_access-eq app.access_mode).0 e)
                      | inr not_full ↦ inr (
                          local_file_write-IsLocalEdit spec
                            (Allows-rest h p no_approval no_lease not_full))
                    ])
                  ])
        ];
      }

  Allows-IsAllowed : Allows → IsAllowed spec app c now
  Allows-IsAllowed h = record {
    leased =
        λ r n. has_capabilities-LeasedBy c spec.required_capabilities now (Allows-capable h r) n;
    within = elim (Bool-cases (is_privileged spec)) [
      | inl p ↦ inr (Allows-authority h p)
      | inr p ↦ inl p
    ];
  }

  -- The lease that is asked for, as the test that the rules make.
  capable_of :
      IsAllowed spec app c now
      → (c.require_capability_lease && not (has_capabilities c spec.required_capabilities now))
        ≡ false
  capable_of a = elim (Bool-cases (is_nil spec.required_capabilities)) [
    | inl n ↦ ground (arith, capable_nil n)
    | inr n ↦ elim (Bool-cases c.require_capability_lease) [
      | inl r ↦
          ground (arith, LeasedBy-has_capabilities c spec.required_capabilities now (a.leased r n))
      | inr r ↦ ground arith
    ]
  ]
    where
      capable_nil :
          is_nil spec.required_capabilities ≡ true
          → has_capabilities c spec.required_capabilities now ≡ true
      capable_nil n = unfold has_capabilities in ground arith

  Allows_of :
      IsAllowed spec app c now
      → (is_plan app.run_mode && is_privileged spec) ≡ false
      → (is_read_only app.access_mode && is_privileged spec) ≡ false
      → (is_privileged spec ≡ false)
        ⊎ (is_approved c spec.name now ≡ true)
        ⊎ ((c.require_capability_lease
              && not (is_nil spec.required_capabilities)
              && has_capabilities c spec.required_capabilities now)
            ≡ true)
        ⊎ (is_full_access app.access_mode ≡ true)
        ⊎ ((executes_process spec ≡ false) × (local_file_write spec ≡ true))
      → Allows
  unfolding evaluate_modes
  Allows_of a not_plan not_read_only (inl p) = ground (arith, capable_of a)
  Allows_of a not_plan not_read_only (inr (inl p)) = ground (arith, capable_of a)
  Allows_of a not_plan not_read_only (inr (inr (inl p))) = ground (arith, capable_of a)
  Allows_of a not_plan not_read_only (inr (inr (inr (inl p)))) = ground (arith, capable_of a)
  Allows_of a not_plan not_read_only (inr (inr (inr (inr (p, q))))) = ground (arith, capable_of a)

  IsAuthorized-Allows : IsAllowed spec app c now → IsAuthorized spec app c now → Allows
  IsAuthorized-Allows a by =
      Allows_of a (rw (execute-is_plan app.run_mode by.executing))
        (rw ((is_read_only-ne app.access_mode).1 by.not_read_only))
        (inr (elim by.authority [
          | inl approved ↦ inl (ApprovedBy-is_approved c spec.name now approved)
          | inr (inl (r, n, leased)) ↦ inr (
              inl (
                ground
                  (arith, r, n, LeasedBy-has_capabilities c spec.required_capabilities now leased)))
          | inr (inr (inl full)) ↦ inr (inr (inl ((is_full_access-eq app.access_mode).1 full)))
          | inr (inr (inr edit)) ↦
              inr
                (inr (inr (IsLocalEdit-executes spec edit, IsLocalEdit-local_file_write spec edit)))
        ]))

  IsAllowed-Allows : IsAllowed spec app c now → Allows
  IsAllowed-Allows a = elim a.within [
    | inl p ↦ Allows_of a (ground arith) (ground arith) (inl p)
    | inr by ↦ IsAuthorized-Allows a by
  ]

  pub evaluate_modes-IsAllowed :
      ((evaluate_modes spec app c now).effect ≡ DecisionEffect.allow) ↔ IsAllowed spec app c now
  evaluate_modes-IsAllowed = (Allows-IsAllowed, IsAllowed-Allows)

-- The policy returns a decision, and it is to allow.
abbrev pub Permits : Result Decision → Type 0
Permits (ok d) = d.effect ≡ DecisionEffect.allow
Permits (err x) = ⊥

module _ (resolved : String → String → Result String) (spec : ToolSpec) (input : Fields)
    (app : CodeAgentPermissionContext) (c : PermissionContext) (now : ℕ) where
  deny-ne-allow : DecisionEffect.deny ≡ DecisionEffect.allow → ⊥
  deny-ne-allow p = cc

  Permits-modes :
      Permits (evaluate_coding resolved spec input (some app) c now)
      → (sensitive_path resolved input app.workspace ≡ ok false)
        × ((evaluate_modes spec app c now).effect ≡ DecisionEffect.allow)
  unfolding evaluate_coding
  Permits-modes h = elim (Result-cases (sensitive_path resolved input app.workspace)) [
    | inr (x, e) ↦ absurd (rw (e, evaluate_coding) at h)
    | inl (true, e) ↦ absurd (deny-ne-allow (rw (e, evaluate_coding) at h))
    | inl (false, e) ↦ (e, rw (e, evaluate_coding) at h)
  ]

  -- The check of the path comes first.
  pub evaluate_coding-modes :
      Permits (evaluate_coding resolved spec input (some app) c now)
      ↔ (sensitive_path resolved input app.workspace ≡ ok false)
        × ((evaluate_modes spec app c now).effect ≡ DecisionEffect.allow)
  unfolding evaluate_coding
  evaluate_coding-modes = (Permits-modes, λ q. rw q.0 q.1)

-- In an application context, a tool is allowed exactly when the paths of its input are resolved
-- without an error and none of them is sensitive, a live lease covers what it requires if leases are
-- asked for, and it is read-only or authorized: outside plan and read-only mode, by an approval, by
-- such a lease, by full access, or because it edits local files and may do nothing else.
pub evaluate_coding-IsAllowed :
    (resolved : String → String → Result String) (spec : ToolSpec) (input : Fields)
    (app : CodeAgentPermissionContext) (c : PermissionContext) (now : ℕ)
    → Permits (evaluate_coding resolved spec input (some app) c now)
      ↔ (sensitive_path resolved input app.workspace ≡ ok false) × IsAllowed spec app c now
evaluate_coding-IsAllowed resolved spec input app c now =
    let (checked, allowed) = evaluate_coding-modes resolved spec input app c now in
    let (to, from) = evaluate_modes-IsAllowed spec app c now in
    (λ h. ((checked h).0, to (checked h).1), λ q. allowed (q.0, from q.1))

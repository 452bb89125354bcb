-- ===== src/Policy/Engine/Authority.antt =====
-- The authority that `PermissionContext` holds, as a statement, against its Boolean tests.
use mathlib.Core.Bool.{false≢true}
use aihi.Prelude.{
  ℕ, String, ◌≡◌, ◌≢◌, ◌<◌, true, false, ◌&&◌, none, some, List, [], ◌∷◌, ◌==◌, In, any-In,
  any_of_In, subset, eq_iff, arith, ◌⊎◌, inl, inr, refl, ap, sym, subst, ◌∙◌, Option-cases, here,
  there, eq_refl,
}
use aihi.Event.{same_text, same_text-eq}
use aihi.Policy.Leases
use aihi.Policy.Leases.{CapabilityLease}
use aihi.Policy.Approvals
use aihi.Policy.Approvals.{Approval}
use aihi.Policy.Engine.{PermissionContext, is_nil, has_capabilities, is_approved}

-- A live approval of the tool, or of every tool, for the run of the context.
pub record ApprovedBy (c : PermissionContext) (scope : String) (now : ℕ) : Type 0 where
  pub approval : Approval
  pub held : In approval c.approvals
  pub own_run : approval.run_id ≡ c.run_id
  pub in_run : c.run_id ≢ none
  pub alive : (t : ℕ) → approval.expires_at ≡ some t → now < t
  pub in_scope : (approval.scope ≡ scope) ⊎ (approval.scope ≡ "*")

-- A live lease of all the capabilities, for the run of the context.
pub record LeasedBy (c : PermissionContext) (required : List String) (now : ℕ) : Type 0 where
  pub lease : CapabilityLease
  pub held : In lease c.leases
  pub own_run : c.run_id ≡ some lease.run_id
  pub alive : now < lease.expires_at
  pub covers : (k : String) → In k required → In k lease.capabilities

pub is_approved-ApprovedBy :
    (c : PermissionContext) (scope : String) (now : ℕ)
    → is_approved c scope now ≡ true
    → ApprovedBy c scope now
unfolding is_approved
is_approved-ApprovedBy c scope now h = elim (Option-cases c.run_id) [
  | inl e ↦ absurd (false≢true (rw (e, is_approved) at h))
  | inr (run, e) ↦
      let (a, m, p) =
        any-In (λ a. same_text a.run_id (some run) && Approvals.covers a scope now) c.approvals
          (rw (e, is_approved) at h) in
      record {
        approval = a;
        held = m;
        own_run = same_text-eq a.run_id (some run) (ground arith) ∙ sym e;
        in_run = λ q. cc;
        alive = λ t q. unfold Approvals.covers in ground arith;
        in_scope =
            unfold Approvals.covers in ground (arith, eq_iff a.scope scope, eq_iff a.scope "*");
      }
]

-- A subset test finds each required item.
pub subset-In : (xs ys : List String) (k : String) → subset xs ys ≡ true → In k xs → In k ys
subset-In [] ys k h m = elim m [ ]
subset-In (x ∷ xs) ys k h (here e) =
    let (y, m, q) = any-In (λ y. y == x) ys (ground arith) in
    subst (λ z. In z ys) ((eq_iff y x).0 q ∙ e) m
subset-In (x ∷ xs) ys k h (there m) = subset-In xs ys k (ground arith) m

pub has_capabilities-LeasedBy :
    (c : PermissionContext) (required : List String) (now : ℕ)
    → has_capabilities c required now ≡ true
    → is_nil required ≡ false
    → LeasedBy c required now
unfolding has_capabilities
has_capabilities-LeasedBy c required now h some_required = elim (Option-cases c.run_id) [
  | inl e ↦ absurd (false≢true (rw (some_required, e, has_capabilities) at h))
  | inr (run, e) ↦
      let (l, m, p) =
        any-In (λ l. (l.run_id == run) && Leases.grants l required now) c.leases
          (rw (some_required, e, has_capabilities) at h) in
      record {
        lease = l;
        held = m;
        own_run = e ∙ ap some (sym ((eq_iff l.run_id run).0 (ground arith)));
        alive = unfold Leases.grants in ground arith;
        covers = λ k. subset-In required l.capabilities k (unfold Leases.grants in ground arith);
      }
]

covers_of :
    (a : Approval) (scope : String) (now : ℕ)
    → ((t : ℕ) → a.expires_at ≡ some t → now < t)
    → (a.scope ≡ scope) ⊎ (a.scope ≡ "*")
    → Approvals.covers a scope now ≡ true
unfolding Approvals.covers
covers_of a scope now alive within = elim (Option-cases a.expires_at) [
  | inl e ↦ ground (arith, eq_iff a.scope scope, eq_iff a.scope "*")
  | inr (t, e) ↦ ground (arith, alive t e, eq_iff a.scope scope, eq_iff a.scope "*")
]

pub ApprovedBy-is_approved :
    (c : PermissionContext) (scope : String) (now : ℕ)
    → ApprovedBy c scope now
    → is_approved c scope now ≡ true
unfolding is_approved
ApprovedBy-is_approved c scope now by = elim (Option-cases c.run_id) [
  | inl e ↦ absurd (by.in_run e)
  | inr (run, e) ↦
      rw (e, is_approved)
        (any_of_In (λ a. same_text a.run_id (some run) && Approvals.covers a scope now) c.approvals
          by.approval by.held
          (ground (
            arith,
            by.own_run,
            e,
            eq_refl run,
            covers_of by.approval scope now by.alive by.in_scope,
          )))
]

pub subset_of_In : (xs ys : List String) → ((k : String) → In k xs → In k ys) → subset xs ys ≡ true
subset_of_In [] ys h = refl
subset_of_In (x ∷ xs) ys h =
    rw (any_of_In (λ y. y == x) ys x (h x (here refl)) (eq_refl x))
      (subset_of_In xs ys (λ k m. h k (there m)))

grants_of :
    (l : CapabilityLease) (required : List String) (now : ℕ)
    → now < l.expires_at
    → ((k : String) → In k required → In k l.capabilities)
    → Leases.grants l required now ≡ true
unfolding Leases.grants
grants_of l required now alive covered =
    rw (subset_of_In required l.capabilities covered) (ground arith)

pub LeasedBy-has_capabilities :
    (c : PermissionContext) (required : List String) (now : ℕ)
    → LeasedBy c required now
    → has_capabilities c required now ≡ true
unfolding has_capabilities
LeasedBy-has_capabilities c required now by =
    let lease = by.lease in
    rw
      (
        by.own_run,
        has_capabilities,
        any_of_In (λ l. (l.run_id == lease.run_id) && Leases.grants l required now) c.leases lease
            by.held (rw (eq_refl lease.run_id, grants_of lease required now by.alive by.covers)),
      )
      (ground arith)

-- ===== src/Coding/Permissions/Authority.antt =====
-- What lets a tool run under the rules of `CodeAgentPolicy`, against the tests that they make.
use mathlib.Core.Bool.{false≢true}
use aihi.Prelude.{
  ℕ, String, ◌≡◌, ◌≢◌, Bool, true, false, ◌||◌, ◌↔◌, ◌⊎◌, inl, inr, In, here, there, any-In,
  any_of_In, eq_iff, eq_refl, arith, Bool-cases, refl, sym, subst, List, contains, ◌==◌,
}
use aihi.Policy.Engine.{ToolSpec, PermissionContext, is_nil}
use aihi.Policy.Engine.Authority.{ApprovedBy, LeasedBy, subset-In, subset_of_In}
use aihi.Coding.Permissions.{
  AccessMode, RunMode, CodeAgentPermissionContext, is_read_only, is_full_access, is_plan,
  executes_process, local_file_write, local_file_capabilities,
}

abbrev pub is_privileged : ToolSpec → Bool
is_privileged spec = spec.mutates || executes_process spec

-- A tool that writes and requires the right to write files, with no right beyond those on files.
pub record IsLocalEdit (spec : ToolSpec) : Type 0 where
  pub mutating : spec.mutates ≡ true
  pub writing : In "filesystem.write" spec.required_capabilities
  pub only_files :
      (k : String)
      → In k spec.required_capabilities
      → (k ≡ "filesystem.read") ⊎ (k ≡ "filesystem.write")

-- What lets a tool run that mutates or executes: within the modes, an approval, a lease, full
-- access, or an edit of local files.
pub record IsAuthorized (spec : ToolSpec) (app : CodeAgentPermissionContext) (c : PermissionContext)
    (now : ℕ) : Type 0 where
  pub executing : app.run_mode ≡ RunMode.execute
  pub not_read_only : app.access_mode ≢ AccessMode.read_only
  pub authority :
      ApprovedBy c spec.name now
      ⊎ ((c.require_capability_lease ≡ true)
          × (is_nil spec.required_capabilities ≡ false)
          × LeasedBy c spec.required_capabilities now)
      ⊎ (app.access_mode ≡ AccessMode.full_access)
      ⊎ IsLocalEdit spec

pub record IsAllowed (spec : ToolSpec) (app : CodeAgentPermissionContext) (c : PermissionContext)
    (now : ℕ) : Type 0 where
  pub leased :
      c.require_capability_lease ≡ true
      → is_nil spec.required_capabilities ≡ false
      → LeasedBy c spec.required_capabilities now
  pub within : (is_privileged spec ≡ false) ⊎ IsAuthorized spec app c now

contains_of_In : (k : String) (xs : List String) → In k xs → contains k xs ≡ true
contains_of_In k xs m = any_of_In (λ x. x == k) xs k m (eq_refl k)

In_of_contains : (k : String) (xs : List String) → contains k xs ≡ true → In k xs
In_of_contains k xs h =
    let (y, m, q) = any-In (λ x. x == k) xs h in subst (λ z. In z xs) ((eq_iff y k).0 q) m

file_right :
    (k : String) → In k local_file_capabilities → (k ≡ "filesystem.read") ⊎ (k ≡ "filesystem.write")
file_right k (here e) = inl (sym e)
file_right k (there (here e)) = inr (sym e)
file_right k (there (there m)) = elim m [ ]

file_right_In :
    (k : String) → (k ≡ "filesystem.read") ⊎ (k ≡ "filesystem.write") → In k local_file_capabilities
file_right_In k (inl e) = here (sym e)
file_right_In k (inr e) = there (here (sym e))

pub local_file_write-IsLocalEdit :
    (spec : ToolSpec) → local_file_write spec ≡ true → IsLocalEdit spec
unfolding local_file_write
local_file_write-IsLocalEdit spec h = record {
  mutating = ground arith;
  writing = In_of_contains "filesystem.write" spec.required_capabilities (ground arith);
  only_files = λ k m.
      file_right k
        (subset-In spec.required_capabilities local_file_capabilities k (ground arith) m);
}

pub IsLocalEdit-local_file_write :
    (spec : ToolSpec) → IsLocalEdit spec → local_file_write spec ≡ true
unfolding local_file_write
IsLocalEdit-local_file_write spec edit = ground (
  arith,
  edit.mutating,
  contains_of_In "filesystem.write" spec.required_capabilities edit.writing,
  subset_of_In spec.required_capabilities local_file_capabilities
      (λ k m. file_right_In k (edit.only_files k m)),
)

-- Such a tool runs no process.
pub IsLocalEdit-executes : (spec : ToolSpec) → IsLocalEdit spec → executes_process spec ≡ false
unfolding executes_process
IsLocalEdit-executes spec edit =
    elim (Bool-cases (contains "process.exec" spec.required_capabilities)) [
      | inl e ↦ elim (edit.only_files "process.exec" (In_of_contains _ _ e)) [
        | inl q ↦ absurd (false≢true ((eq_iff "process.exec" "filesystem.read").1 q))
        | inr q ↦ absurd (false≢true ((eq_iff "process.exec" "filesystem.write").1 q))
      ]
      | inr e ↦ e
    ]

pub is_plan-execute : (m : RunMode) → is_plan m ≡ false → m ≡ RunMode.execute
unfolding is_plan
is_plan-execute RunMode.execute h = refl
is_plan-execute RunMode.plan h = cc

pub execute-is_plan : (m : RunMode) → m ≡ RunMode.execute → is_plan m ≡ false
unfolding is_plan
execute-is_plan RunMode.execute h = refl
execute-is_plan RunMode.plan h = cc

pub is_full_access-eq : (m : AccessMode) → (is_full_access m ≡ true) ↔ (m ≡ AccessMode.full_access)
unfolding is_full_access
is_full_access-eq AccessMode.read_only = (λ h. cc, λ h. cc)
is_full_access-eq AccessMode.workspace_write = (λ h. cc, λ h. cc)
is_full_access-eq AccessMode.full_access = (λ h. refl, λ h. refl)

pub is_read_only-ne : (m : AccessMode) → (is_read_only m ≡ false) ↔ (m ≢ AccessMode.read_only)
unfolding is_read_only
is_read_only-ne AccessMode.read_only = (λ h q. cc, λ h. absurd (h refl))
is_read_only-ne AccessMode.workspace_write = (λ h q. cc, λ h. refl)
is_read_only-ne AccessMode.full_access = (λ h q. cc, λ h. refl)

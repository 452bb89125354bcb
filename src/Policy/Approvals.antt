-- ===== src/Policy/Approvals.antt =====
-- `Approval` of policy/leases.py, and the answers of policy/approvals.py.
use aihi.Prelude.{
  ℕ, String, Bool, true, false, ◌&&◌, ◌||◌, Option, none, some, Result, ok, value_error, ◌>>=◌,
  ◌>>◌, raise_if, ◌==◌, ltb, nat_eq,
}
use aihi.Json.{ℤ, Json, Fields, null, bool, str, end, field, get, get_or, at_key, is_null, truthy}
use aihi.Event.{same_text}
use aihi.Python.{Python, text, parse_time}
use aihi.Policy.Leases.{expiry}

pub record Approval : Type 0 where
  pub scope : String
  pub granted_by : String
  pub expires_at : Option ℕ
  pub run_id : Option String
  pub one_shot : Bool
  pub approval_id : String

abbrev pub expiry_or_none : ℕ → Option ℤ → Result (Option ℕ)
expiry_or_none now none = ok none
expiry_or_none now (some ttl) = do t ← expiry now ttl; ok (some t)

-- `Approval.issue`, with the generated id given
unfoldable pub issue : String → ℕ → String → String → Option String → Option ℤ → Result Approval
issue approval_id now scope granted_by run_id ttl = do
  raise_if (scope == "") value_error
  expires_at ← expiry_or_none now ttl
  ok (record {
    scope = scope;
    granted_by = granted_by;
    expires_at = expires_at;
    run_id = run_id;
    one_shot = false;
    approval_id = approval_id;
  })

unfoldable pub active : Approval → ℕ → Bool
active a now = elim a.expires_at [ none ↦ true | some t ↦ ltb now t ]

unfoldable pub covers : Approval → String → ℕ → Bool
unfolding active
covers a scope now = active a now && (a.scope == scope || a.scope == "*")

abbrev pub same_time : Option ℕ → Option ℕ → Bool
same_time none none = true
same_time (some s) (some t) = nat_eq s t
same_time _ _ = false

abbrev pub same_flag : Bool → Bool → Bool
same_flag true b = b
same_flag false true = false
same_flag false false = true

-- the `==` of the dataclass
unfoldable pub approval_eq : Approval → Approval → Bool
approval_eq a b =
    (a.scope == b.scope)
    && (a.granted_by == b.granted_by)
    && same_time a.expires_at b.expires_at
    && same_text a.run_id b.run_id
    && same_flag a.one_shot b.one_shot
    && (a.approval_id == b.approval_id)

abbrev pub json_text : Option String → Json
json_text none = null
json_text (some s) = str s

module _ ⦃py : Python⦄ where
  abbrev pub json_time : Option ℕ → Json
  json_time none = null
  json_time (some t) = str (py.isoformat t)

  unfoldable pub to_dict : Approval → Fields
  to_dict a = field "approval_id" (str a.approval_id) (
      field "scope" (str a.scope) (
        field "granted_by" (str a.granted_by) (
          field "expires_at" (json_time a.expires_at)
            (field "run_id" (json_text a.run_id) (field "one_shot" (bool a.one_shot) end)))))

  abbrev pub time_or_none : Json → Result (Option ℕ)
  time_or_none raw = elim (truthy raw) [
    | true ↦ do t ← parse_time raw; ok (some t)
    | false ↦ ok none
  ]

  abbrev pub text_or_none : Json → Option String
  text_or_none raw = elim (is_null raw) [ true ↦ none | false ↦ some (text raw) ]

  unfoldable pub from_dict : Fields → Result Approval
  from_dict value = do
    expires_at ← time_or_none (get value "expires_at")
    approval_id ← at_key value "approval_id"
    scope ← at_key value "scope"
    granted_by ← at_key value "granted_by"
    ok (record {
      scope = text scope;
      granted_by = text granted_by;
      expires_at = expires_at;
      run_id = text_or_none (get value "run_id");
      one_shot = truthy (get_or value "one_shot" (bool false));
      approval_id = text approval_id;
    })

-- `ApprovalOutcome`
pub data ApprovalOutcome : Type 0 where
  granted granted_once denied deferred : ApprovalOutcome

unfoldable pub is_grant : ApprovalOutcome → Bool
is_grant granted = true
is_grant granted_once = true
is_grant _ = false

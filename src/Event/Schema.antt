-- ===== src/Event/Schema.antt =====
-- _core/schema.py: the types and versions of stored events, and their upgrades. An upgrade works
-- on the stored form of an event, and changes a deep copy of it in place.
pub mod Upgrades
use aihi.Prelude.{
  ℕ, zero, suc, ◌-◌, String, Bool, true, false, not, ◌&&◌, ◌||◌, Option, none, some, List, [], ◌∷◌,
  Result, ok, err, unsupported_event_schema, ◌>>=◌, ◌>>◌, raise_if, ltb, nat_eq, if◌then◌else◌,
}
use aihi.Json.{
  Json, Items, Fields, pos, int, str, arr, obj, nil, cons, get, get_or, is_text, one_of, set_field,
  remove_field, change_field,
}
use aihi.Python.{Python}

-- `EVENT_SCHEMA_VERSION` and the first of `SUPPORTED_EVENT_SCHEMA_VERSIONS`
abbrev pub event_schema_version : ℕ
event_schema_version = 3

abbrev pub first_schema_version : ℕ
first_schema_version = 1

abbrev pub version_key : String
version_key = "schema_version"

-- a change of a value that is a dict
abbrev pub in_dict : (Fields → Fields) → Json → Json
in_dict change (obj fs) = obj (change fs)
in_dict change v = v

abbrev pub without : List String → Fields → Fields
without [] fs = fs
without (k ∷ ks) fs = without ks (remove_field fs k)

unfoldable pub upgrade_v1_to_v2 : Fields → Result Fields
upgrade_v1_to_v2 payload =
    if is_text (get payload "type") "subagent.spawned"
    then ok (
        change_field payload "data"
          (in_dict (λ payload. change_field payload "task" (in_dict (without ("workspace" ∷ []))))))
    else ok payload

module _ ⦃py : Python⦄ where
  -- the text of a block, if it is a summary of a compaction
  abbrev pub without_permission_mode : Json → Json
  without_permission_mode (str text) = elim (py.loads text) [
    | some (obj summary) ↦
        if is_text (get summary "kind") "context_compaction_summary"
        then str (py.dumps (obj (remove_field summary "permission_mode")))
        else str text
    | _ ↦ str text
  ]
  without_permission_mode v = v

  abbrev pub each_block : Items → Items
  each_block nil = nil
  each_block (cons block blocks) =
      cons (in_dict (λ block. change_field block "text" without_permission_mode) block)
        (each_block blocks)

  abbrev pub in_list : (Items → Items) → Json → Json
  in_list change (arr vs) = arr (change vs)
  in_list change v = v

  unfoldable pub remove_summary_permission_mode : Json → Json
  remove_summary_permission_mode value =
      in_dict (λ value. change_field value "content" (in_list each_block)) value

  -- what becomes of the data of an event
  unfoldable pub upgraded_data : Json → Fields → Result Fields
  unfolding remove_summary_permission_mode
  upgraded_data event_type payload = do
    starts ← one_of event_type ("run.started" ∷ "run.resumed" ∷ [])
    ok (
        if starts
        then without
            ("sandbox" ∷ "sandbox_descriptor" ∷ "workspace_root" ∷ "unsafe" ∷ "permission_mode"
              ∷ [])
            payload
        else if is_text event_type "tool.started"
        then without ("sandbox" ∷ "sandbox_descriptor" ∷ "unsafe" ∷ []) payload
        else if is_text event_type "approval.requested"
        then remove_field payload "sandbox"
        else if is_text event_type "compaction.created"
        then change_field payload "summary" remove_summary_permission_mode
        else payload)

  unfoldable pub upgrade_v2_to_v3 : Fields → Result Fields
  unfolding upgraded_data
  upgrade_v2_to_v3 payload = elim (get payload "data") [
    | obj fs ↦ do
      changed ← upgraded_data (get payload "type") fs
      ok (change_field payload "data" (λ _. obj changed))
    | _ ↦ ok payload
  ]

  -- `EVENT_UPGRADES`
  unfoldable pub event_upgrade : ℕ → Fields → Result Fields
  unfolding upgrade_v1_to_v2 upgrade_v2_to_v3
  event_upgrade version payload =
      if nat_eq version 1
      then upgrade_v1_to_v2 payload
      else if nat_eq version 2
      then upgrade_v2_to_v3 payload
      else err unsupported_event_schema

  -- The `while` loop, with the number of rounds that are left.
  unfoldable pub upgrade_rounds : ℕ → ℕ → Fields → Result Fields
  unfolding event_upgrade
  upgrade_rounds zero version payload = ok payload
  upgrade_rounds (suc rounds) version payload = do
    upgraded ← event_upgrade version payload
    upgrade_rounds rounds (suc version) (set_field upgraded version_key (int (pos (suc version))))

  abbrev pub as_version : Json → Option ℕ
  as_version (int (pos n)) = some n
  as_version _ = none

  unfoldable pub upgrade_event_payload : Fields → Result Fields
  unfolding upgrade_rounds
  upgrade_event_payload value =
      elim (as_version (get_or value version_key (int (pos event_schema_version)))) [
        | none ↦ err unsupported_event_schema
        | some version ↦ do
          raise_if (ltb event_schema_version version || ltb version first_schema_version)
              unsupported_event_schema
          upgrade_rounds (event_schema_version - version) version
              (set_field value version_key (int (pos version)))
      ]

-- ===== src/Examples/Schema.antt =====
-- Stored events of older versions at concrete inputs.
use aihi.Prelude.{◌≡◌, refl, some, ok, err, unsupported_event_schema, ℕ}
use aihi.Json.{Fields, str, int, obj, end, field, pos, find_field}
use aihi.Event.Schema.{
  event_schema_version, version_key, upgrade_event_payload, upgrade_rounds, event_upgrade,
  upgrade_v1_to_v2, upgrade_v2_to_v3, upgraded_data, remove_summary_permission_mode,
}
use aihi.Event.Schema.Upgrades.{HasVersion, upgrade_event_payload_twice}
use aihi.Examples.Sample.{sample_python}

abbrev old : Fields
old = field "type" (str "tool.started") (
    field "data" (obj (field "sandbox" (str "local") (field "name" (str "bash") end)))
      (field "schema_version" (int (pos 1)) end))

abbrev upgraded : Fields
upgraded =
    field "type" (str "tool.started") (
      field "data" (obj (field "name" (str "bash") end)) (field "schema_version" (int (pos 3)) end))

schema : Unit {0}
unfolding upgrade_event_payload upgrade_rounds event_upgrade upgrade_v1_to_v2 upgrade_v2_to_v3
    upgraded_data remove_summary_permission_mode
schema = tt

upgrades : upgrade_event_payload old ≡ ok upgraded
unfolding schema
upgrades = refl

too_new :
    upgrade_event_payload (field "schema_version" (int (pos 4)) end) ≡ err unsupported_event_schema
unfolding schema
too_new = refl

upgrade_event_payload_twice_example :
    ((n : ℕ) × HasVersion old n)
    × (find_field version_key upgraded ≡ some (int (pos event_schema_version)))
    × (upgrade_event_payload upgraded ≡ ok upgraded)
upgrade_event_payload_twice_example = upgrade_event_payload_twice old upgraded upgrades

-- ===== src/Event/Codec.antt =====
-- `Event.to_dict` and `Event.from_dict` of _core/events.py.
use aihi.Prelude.{ℕ, String, ◌≡◌, refl, false, Option, none, some, Result, ok, ◌>>=◌, true}
use aihi.Json.{
  Json, Fields, pos, null, bool, int, str, obj, end, field, get, get_or, at_key, truthy, is_null,
}
use aihi.Python.{Python, text, natural, dict_copy}
use aihi.Policy.Approvals.{json_text, text_or_none}
use aihi.Event.{Event}
use aihi.Event.Schema.{event_schema_version, upgrade_event_payload}
use aihi.Event.Schema.Upgrades.{upgrade_current}

abbrev pub json_natural : Option ℕ → Json
json_natural none = null
json_natural (some n) = int (pos n)

unfoldable pub to_dict : Event → Fields
to_dict e = field "id" (str e.id) (
    field "type" (str e.type) (
      field "session_id" (str e.session_id) (
        field "run_id" (json_text e.run_id) (
          field "seq" (json_natural e.seq) (
            field "created_at" (str e.created_at) (
              field "ephemeral" (bool e.ephemeral) (
                field "schema_version" (int (pos e.schema_version))
                  (field "data" (obj e.payload) end))))))))

module _ ⦃py : Python⦄ where
  abbrev pub natural_or_none : Json → Result (Option ℕ)
  natural_or_none raw = elim (is_null raw) [
    | true ↦ ok none
    | false ↦ do n ← natural raw; ok (some n)
  ]

  -- what `from_dict` reads of an upgraded payload
  unfoldable pub read_event : Fields → Result Event
  read_event value = do
    id ← at_key value "id"
    type ← at_key value "type"
    session_id ← at_key value "session_id"
    seq ← natural_or_none (get value "seq")
    created_at ← at_key value "created_at"
    schema_version ← natural (get_or value "schema_version" (int (pos event_schema_version)))
    payload ← dict_copy (get_or value "data" (obj end))
    ok (record {
      type = text type;
      session_id = text session_id;
      payload = payload;
      run_id = text_or_none (get value "run_id");
      id = text id;
      seq = seq;
      created_at = text created_at;
      ephemeral = truthy (get_or value "ephemeral" (bool false));
      schema_version = schema_version;
    })

  unfoldable pub from_dict : Fields → Result Event
  unfolding read_event
  from_dict value = do value ← upgrade_event_payload value; read_event value

  read_event-to_dict : (e : Event) → read_event (to_dict e) ≡ ok e
  unfolding read_event to_dict
  read_event-to_dict e = read_fields e.run_id e.seq
    where
      read_fields :
          (run : Option String) (seq : Option ℕ)
          → read_event (to_dict (record e { run_id = run; seq = seq }))
            ≡ ok (record e { run_id = run; seq = seq })
      read_fields none none = refl
      read_fields none (some n) = refl
      read_fields (some run) none = refl
      read_fields (some run) (some n) = refl

  -- An event of the current version is read back as it was written.
  pub from_dict-to_dict :
      (e : Event) → e.schema_version ≡ event_schema_version → from_dict (to_dict e) ≡ ok e
  unfolding from_dict
  from_dict-to_dict e v =
      rw (upgrade_current (to_dict e) (unfold to_dict in rw v)) (read_event-to_dict e)

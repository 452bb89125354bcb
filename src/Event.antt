-- ===== src/Event.antt =====
-- `Event` of packages/aihi/agent/src/aihi/agent/_core/events.py. Values are immutable here, so the
-- deep copies of the source are the values themselves.
pub mod Codec
pub mod Schema
use aihi.Prelude.{
  ℕ, String, Bool, true, false, Option, none, some, ◌==◌, ◌≡◌, refl, ap, eq_iff, eq_refl,
}
use aihi.Json.{Fields}
use aihi.Event.Schema.{event_schema_version}

-- `payload` is the source's `data`.
pub record Event : Type 0 where
  pub type : String
  pub session_id : String
  pub payload : Fields
  pub run_id : Option String
  pub id : String
  pub seq : Option ℕ
  pub created_at : String
  pub ephemeral : Bool
  pub schema_version : ℕ

abbrev pub persisted : Event → ℕ → Event
persisted e n = record e { seq = some n; ephemeral = false }

-- A new event, with the generated id and time given.
abbrev pub new_event : String → String → String → String → Option String → Fields → Event
new_event id now type session_id run_id payload = record {
  type = type;
  session_id = session_id;
  payload = payload;
  run_id = run_id;
  id = id;
  seq = none;
  created_at = now;
  ephemeral = false;
  schema_version = event_schema_version;
}

-- `==` on `str | None`
abbrev pub same_text : Option String → Option String → Bool
same_text none none = true
same_text (some a) (some b) = a == b
same_text _ _ = false

pub same_text-eq : (a b : Option String) → same_text a b ≡ true → a ≡ b
same_text-eq none none h = refl
same_text-eq none (some b) h = cc
same_text-eq (some a) none h = cc
same_text-eq (some a) (some b) h = ap some ((eq_iff a b).0 h)

pub same_text_refl : (a : Option String) → same_text a a ≡ true
same_text_refl none = refl
same_text_refl (some a) = eq_refl a

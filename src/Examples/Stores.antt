-- ===== src/Examples/Stores.antt =====
-- The store and the message codec at concrete inputs.
use aihi.Prelude.{ℕ, ◌≡◌, refl, false, none, List, [], ◌∷◌, ok}
use aihi.Json.{str, end, field}
use aihi.Dict
use aihi.Event.{Event, persisted}
use aihi.Messages.{Message, text_block, call_block, Role, encode_message, decode_message}
use aihi.Messages.Roundtrip.{decode_message-encode_message}
use aihi.Sessions.Store.{Store, SessionInfo, empty, finite_fields, create_session, append, read}
use aihi.Sessions.Store.Soundness.{IsSound, empty-IsSound, create_session-IsSound}
use aihi.Sessions.Store.Appends.{append-IsSound}
use aihi.Examples.Sample.{sample_python, event}

abbrev pub info : ℕ → SessionInfo
info n = record {
  session_id = "s";
  head_seq = n;
  created_at = "now";
  metadata = end;
  parent_session_id = none;
}

abbrev pub created : Store
created = record { sessions = ("s", info 0) ∷ []; events = ("s", []) ∷ []; event_sessions = [] }

stores : Unit {0}
unfolding finite_fields create_session append read Dict.lookup Dict.insert
stores = tt

create_session_runs : create_session empty "s" end none "now" ≡ ok created
unfolding stores
create_session_runs = refl

abbrev batch : List Event
batch = event "e1" "run.started" none end ∷ event "e2" "run.completed" none end ∷ []

abbrev saved : List Event
saved =
    persisted (event "e1" "run.started" none end) 1
    ∷ persisted (event "e2" "run.completed" none end) 2
    ∷ []

abbrev after : Store
after = record {
  sessions = ("s", info 2) ∷ [];
  events = ("s", saved) ∷ [];
  event_sessions = ("e1", "s") ∷ ("e2", "s") ∷ [];
}

append_runs : append created "s" 0 batch ≡ ok (saved, after)
unfolding stores
append_runs = refl

pub created-IsSound : IsSound created
created-IsSound =
    create_session-IsSound empty created "s" end none "now" create_session_runs empty-IsSound

append-IsSound_example : IsSound after
append-IsSound_example = append-IsSound created after "s" 0 batch saved append_runs created-IsSound

abbrev call_message : Message
call_message = record {
  role = Role.assistant;
  content =
      text_block "Listing." false
      ∷ call_block (record { id = "c1"; name = "bash"; input = field "cmd" (str "ls") end })
      ∷ [];
  id = "m1";
  metadata = end;
}

decode_message-encode_message_example :
    decode_message "unused" (encode_message call_message) ≡ ok call_message
decode_message-encode_message_example = decode_message-encode_message "unused" call_message refl

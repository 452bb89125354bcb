-- ===== src/Messages.antt =====
-- packages/aihi/models/src/aihi/models: the content blocks and messages of types.py, and their
-- versioned codec of serialization.py. `fresh` is the id that `new_message_id` would generate.
pub mod Roundtrip
use aihi.Prelude.{
  ℕ, zero, suc, String, ◌≡◌, Bool, true, false, not, ◌&&◌, ◌||◌, Option, none, some, List, [], ◌∷◌,
  map, Result, ok, err, value_error, type_error, unsupported_message_schema, ◌>>=◌, ◌>>◌, raise_if,
  or_raise, map_result, ◌==◌, nat_eq, contains, if◌then◌else◌,
}
use aihi.Json.{
  ℤ, pos, negsuc, Json, Fields, null, bool, int, str, arr, obj, nil, end, field, get, get_or,
  as_dict, as_list, items_of, list_of, is_null, truthy, is_text, one_of,
}
use aihi.Python.{Python, text, dict_copy}

pub record ToolCallBlock : Type 0 where
  pub id : String
  pub name : String
  pub input : Fields

pub record ToolResultBlock : Type 0 where
  pub tool_call_id : String
  pub content : String
  pub is_error : Bool
  pub metadata : Fields

-- `ContentBlock`, a constructor for each class
pub data ContentBlock : Type 0 where
  text_block : (text : String) → (stable_prefix : Bool) → ContentBlock
  thinking_block : (text provider : String) → (opaque : Option Fields) → ContentBlock
  call_block : ToolCallBlock → ContentBlock
  result_block : ToolResultBlock → ContentBlock
  image_block : (media_type image_data : String) → (source_path : Option String) → ContentBlock

pub data Role : Type 0 where
  user assistant system : Role

pub record Message : Type 0 where
  pub role : Role
  pub content : List ContentBlock
  pub id : String
  pub metadata : Fields

abbrev pub calls_of : List ContentBlock → List ToolCallBlock
calls_of [] = []
calls_of (call_block c ∷ bs) = c ∷ calls_of bs
calls_of (_ ∷ bs) = calls_of bs

abbrev pub results_of : List ContentBlock → List ToolResultBlock
results_of [] = []
results_of (result_block r ∷ bs) = r ∷ results_of bs
results_of (_ ∷ bs) = results_of bs

abbrev pub tool_calls : Message → List ToolCallBlock
tool_calls m = calls_of m.content

abbrev pub tool_results : Message → List ToolResultBlock
tool_results m = results_of m.content

abbrev pub dict_or_null : Option Fields → Json
dict_or_null none = null
dict_or_null (some fs) = obj fs

abbrev pub text_or_null : Option String → Json
text_or_null none = null
text_or_null (some s) = str s

unfoldable pub block_to_dict : ContentBlock → Json
block_to_dict (text_block t stable) =
    obj (field "kind" (str "text") (field "text" (str t) (field "stable_prefix" (bool stable) end)))
block_to_dict (thinking_block t provider opaque) = obj (
    field "kind" (str "thinking") (
      field "text" (str t)
        (field "provider" (str provider) (field "opaque" (dict_or_null opaque) end))))
block_to_dict (call_block c) = obj (
    field "kind" (str "tool_call")
      (field "id" (str c.id) (field "name" (str c.name) (field "input" (obj c.input) end))))
block_to_dict (result_block r) = obj (
    field "kind" (str "tool_result") (
      field "tool_call_id" (str r.tool_call_id) (
        field "content" (str r.content)
          (field "is_error" (bool r.is_error) (field "metadata" (obj r.metadata) end)))))
block_to_dict (image_block media_type image_data source_path) = obj (
    field "kind" (str "image") (
      field "media_type" (str media_type)
        (field "data" (str image_data) (field "source_path" (text_or_null source_path) end))))

abbrev pub role_text : Role → String
role_text user = "user"
role_text assistant = "assistant"
role_text system = "system"

abbrev role_of : Json → Role
role_of role =
    if is_text role "user" then user else if is_text role "assistant" then assistant else system

unfoldable pub message_to_dict : Message → Fields
message_to_dict m = field "id" (str m.id) (
    field "role" (str (role_text m.role)) (
      field "content" (arr (items_of (map block_to_dict m.content)))
        (field "metadata" (obj m.metadata) end)))

-- `MESSAGE_SCHEMA_VERSION`
abbrev pub message_schema_version : ℤ
message_schema_version = pos 1

unfoldable pub encode_message : Message → Fields
encode_message m =
    field "message_schema_version" (int message_schema_version)
      (field "message" (obj (message_to_dict m)) end)

abbrev pub or_empty : Option Fields → Fields
or_empty none = end
or_empty (some fs) = fs

abbrev pub same_int : ℤ → ℤ → Bool
same_int (pos a) (pos b) = nat_eq a b
same_int (negsuc a) (negsuc b) = nat_eq a b
same_int _ _ = false

module _ ⦃py : Python⦄ where
  abbrev some_text : Json → Option String
  some_text v = if is_null v then none else some (text v)

  unfoldable pub block_from_dict : Fields → Result ContentBlock
  block_from_dict value =
      let kind = get value "kind" in
      if is_text kind "text"
      then ok (
          text_block (text (get_or value "text" (str "")))
            (truthy (get_or value "stable_prefix" (bool false))))
      else if is_text kind "thinking"
      then ok (
          thinking_block (text (get_or value "text" (str "")))
            (text (get_or value "provider" (str ""))) (as_dict (get value "opaque")))
      else do
        is_call ← one_of kind ("tool_call" ∷ "tool_use" ∷ [])
        if is_call
            then ok (
                call_block (record {
                  id = text (get_or value "id" (str ""));
                  name = text (get_or value "name" (str ""));
                  input = or_empty (as_dict (get_or value "input" (obj end)));
                }))
            else if is_text kind "tool_result"
            then ok (
                result_block (record {
                  tool_call_id =
                      text (get_or value "tool_call_id" (get_or value "tool_use_id" (str "")));
                  content = text (get_or value "content" (str ""));
                  is_error = truthy (get_or value "is_error" (bool false));
                  metadata = or_empty (as_dict (get_or value "metadata" (obj end)));
                }))
            else if is_text kind "image"
            then ok (
                image_block (text (get_or value "media_type" (str "application/octet-stream")))
                  (text (get_or value "data" (str ""))) (some_text (get value "source_path")))
            else err value_error

  abbrev block_of : Json → Result ContentBlock
  block_of item = do value ← dict_copy item; block_from_dict value

  -- `Message.from_dict`
  unfoldable pub message_from_dict : String → Fields → Result Message
  message_from_dict fresh value = do
    let role = get value "role"
    known ← one_of role ("user" ∷ "assistant" ∷ "system" ∷ [])
    raise_if (not known) value_error
    raw_content ← or_raise (as_list (get_or value "content" (arr nil))) value_error
    content ← map_result block_of raw_content
    let id = get value "id"
    ok (record {
      role = role_of role;
      content = content;
      id = if truthy id then text id else fresh;
      metadata = or_empty (as_dict (get_or value "metadata" (obj end)));
    })

  abbrev version_of : Json → Result ℤ
  version_of (int v) = ok v
  version_of _ = err unsupported_message_schema

  -- `ModelMessageEnvelope.from_dict` and `decode_message`
  unfoldable pub decode_message : String → Fields → Result Message
  decode_message fresh value = do
    version ← version_of (get_or value "message_schema_version" (int message_schema_version))
    raise_if (not (same_int version message_schema_version)) unsupported_message_schema
    raw_message ← or_raise (as_dict (get value "message")) value_error
    message_from_dict fresh raw_message

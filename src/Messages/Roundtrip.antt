-- ===== src/Messages/Roundtrip.antt =====
-- `decode_message` reads back what `encode_message` writes.
use aihi.Prelude.{
  String, ◌≡◌, refl, true, false, List, [], ◌∷◌, map, ok, map_result, ◌==◌, none, some, ap,
  contains,
}
use aihi.Json.{Json, list_of, items_of, str}
use aihi.Python.{Python}
use aihi.Messages.{
  Message, ContentBlock, Role, text_block, thinking_block, call_block, result_block, image_block,
  user, assistant, system, block_to_dict, block_of, message_to_dict, message_from_dict,
  encode_message, decode_message, block_from_dict, role_text, role_of,
}

list_of-items_of : (vs : List Json) → list_of (items_of vs) ≡ vs
list_of-items_of [] = refl
list_of-items_of (v ∷ vs) = ap (λ r. v ∷ r) (list_of-items_of vs)

role_known : (r : Role) → contains (role_text r) ("user" ∷ "assistant" ∷ "system" ∷ []) ≡ true
role_known user = refl
role_known assistant = refl
role_known system = refl

role_of-role_text : (r : Role) → role_of (str (role_text r)) ≡ r
role_of-role_text user = refl
role_of-role_text assistant = refl
role_of-role_text system = refl

module _ ⦃py : Python⦄ where
  block_of-block_to_dict : (b : ContentBlock) → block_of (block_to_dict b) ≡ ok b
  unfolding block_to_dict block_from_dict
  block_of-block_to_dict (text_block t stable) = refl
  block_of-block_to_dict (thinking_block t provider none) = refl
  block_of-block_to_dict (thinking_block t provider (some fs)) = refl
  block_of-block_to_dict (call_block c) = refl
  block_of-block_to_dict (result_block r) = refl
  block_of-block_to_dict (image_block media_type image_data none) = refl
  block_of-block_to_dict (image_block media_type image_data (some path)) = refl

  blocks_of-blocks : (bs : List ContentBlock) → map_result block_of (map block_to_dict bs) ≡ ok bs
  blocks_of-blocks [] = refl
  blocks_of-blocks (b ∷ bs) = simp (block_of-block_to_dict, blocks_of-blocks bs)

  message_from-to :
      (fresh : String) (m : Message)
      → (m.id == "") ≡ false
      → message_from_dict fresh (message_to_dict m) ≡ ok m
  unfolding message_from_dict message_to_dict
  message_from-to fresh m h = rw (
    role_known m.role,
    list_of-items_of (map block_to_dict m.content),
    blocks_of-blocks m.content,
    role_of-role_text m.role,
    h,
  )

  -- A message with a non-empty id is read back as it was written, whatever id would be generated.
  pub decode_message-encode_message :
      (fresh : String) (m : Message)
      → (m.id == "") ≡ false
      → decode_message fresh (encode_message m) ≡ ok m
  unfolding decode_message encode_message
  decode_message-encode_message fresh m h = message_from-to fresh m h

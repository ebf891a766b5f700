-- ===== src/Recorder/Truncate.antt =====
-- The truncation of media in recorded requests in pkg/metrics/openai_recorder.go. Texts are bytes.
use model_runner.Common.{
  ℕ, ◌+◌, ◌-◌, ◌∷◌, ◌++◌, Option, none, some, Text, codes, has_prefix, if◌then◌else◌, length, take,
  drop, ltb, leb, index_of,
}
use model_runner.Common.Decimal.{decimal}
use model_runner.Recorder.Json.{
  Json, string, array, object, Items, no_item, item, Fields, get_field, set_field, as_string,
  as_object, as_array,
}

abbrev pub max_media_data_length : ℕ
max_media_data_length = 100

unfoldable pub truncated_note : ℕ → Text
truncated_note n = codes "...[truncated " ++ (decimal n ++ codes " chars]")

unfoldable pub truncate_data_url : Text → Text
truncate_data_url data_text = elim (index_of (codes ",") data_text) [
  | none ↦ data_text
  | some comma ↦
      let head = take comma data_text in
      let tail = drop (comma + 1) data_text in
      if ltb max_media_data_length (length tail)
      then head
        ++ 44
          ∷ (take max_media_data_length tail
              ++ truncated_note (length tail - max_media_data_length))
      else data_text
]

unfoldable pub truncate_base64_data : Text → Text
truncate_base64_data data_text =
    if leb (length data_text) max_media_data_length
    then data_text
    else if has_prefix (codes "data:") data_text
    then truncate_data_url data_text
    else take max_media_data_length data_text
      ++ truncated_note (length data_text - max_media_data_length)

-- `v[key] = truncateBase64Data(v[key])` where the object `v` is at `outer` and has a string there.
unfoldable pub truncate_field : Text → Text → Fields → Fields
truncate_field outer key m = elim (as_object (get_field outer m)) [
  | none ↦ m
  | some v ↦ elim (as_string (get_field key v)) [
    | none ↦ m
    | some s ↦ set_field outer (object (set_field key (string (truncate_base64_data s)) v)) m
  ]
]

unfoldable pub truncate_content_item : Json → Json
truncate_content_item (object m) = object (
    truncate_field (codes "input_audio") (codes "data")
      (truncate_field (codes "image_url") (codes "url") m))
truncate_content_item v = v

-- The loop over the items of a content.
unfoldable pub truncate_content : Items → Items
truncate_content no_item = no_item
truncate_content (item v rest) = item (truncate_content_item v) (truncate_content rest)

unfoldable pub truncate_message : Json → Json
truncate_message (object m) = elim (as_array (get_field (codes "content") m)) [
  | none ↦ object m
  | some content ↦ object (set_field (codes "content") (array (truncate_content content)) m)
]
truncate_message v = v

-- The loop over the messages.
unfoldable pub truncate_messages : Items → Items
truncate_messages no_item = no_item
truncate_messages (item v rest) = item (truncate_message v) (truncate_messages rest)

module _ (unmarshal : Text → Option (Option Fields)) (marshal : Json → Option Text) where
  unfoldable pub truncate_request : Text → Fields → Text
  truncate_request body data_fields = elim (as_array (get_field (codes "messages") data_fields)) [
    | none ↦ body
    | some messages ↦
        elim (marshal (
          object (set_field (codes "messages") (array (truncate_messages messages)) data_fields))) [
            | none ↦ body
            | some modified ↦ modified
          ]
  ]

  -- A null body has no messages.
  unfoldable pub truncate_media_fields : Text → Text
  truncate_media_fields body = elim (unmarshal body) [
    | none ↦ body
    | some found ↦ elim found [ none ↦ body | some data_fields ↦ truncate_request body data_fields ]
  ]

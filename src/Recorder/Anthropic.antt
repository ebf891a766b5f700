-- ===== src/Recorder/Anthropic.antt =====
-- The conversion of streamed Anthropic responses in pkg/metrics/openai_recorder.go.
use model_runner.Common.{
  not, ◌||◌, List, [], ◌∷◌, ◌++◌, Option, none, some, Text, codes, text_eq, has_prefix,
  if◌then◌else◌, drop,
}
use model_runner.Distribution.Hash.{split_at}
use model_runner.Recorder.Json.{
  Json, string, array, object, no_item, item, Fields, no_field, field, get_field, set_field,
  as_string, as_object,
}
use model_runner.Recorder.Streams.{StreamingError, default_streaming_error_code, or_text, or_empty}

-- The builder, `messageData` with `none` for nil, and `currentEvent`.
pub record Messages : Type 0 where
  pub content : Text
  pub message_data : Option Fields
  pub current_event : Text

abbrev pub no_messages : Messages
no_messages = record { content = []; message_data = none; current_event = [] }

pub data Heard : Type 0 where
  heard : Messages → Heard
  hearing_failed : StreamingError → Heard

unfoldable pub text_at : Text → Fields → Text
text_at key m = or_text [] (as_string (get_field key m))

unfoldable pub anthropic_error : Text → Fields → StreamingError
anthropic_error data_text chunk =
    let inner = or_empty (as_object (get_field (codes "error") chunk)) in
    record {
      status_code = default_streaming_error_code;
      message = or_text (codes "streaming error") (as_string (get_field (codes "message") inner));
      kind = text_at (codes "type") inner;
      details = data_text;
    }

-- The text that a `content_block_delta` adds.
unfoldable pub block_text : Fields → Text
block_text chunk =
    let delta = or_empty (as_object (get_field (codes "delta") chunk)) in
    if text_eq (text_at (codes "type") delta) (codes "text_delta")
    then text_at (codes "text") delta
    else []

-- What a `message_delta` puts into the message.
unfoldable pub update_message : Fields → Fields → Fields
update_message chunk message =
    let used = elim (as_object (get_field (codes "usage") chunk)) as (λ _. Fields) [
      | none ↦ message
      | some usage ↦ set_field (codes "usage") (object usage) message
    ] in
    let delta = or_empty (as_object (get_field (codes "delta") chunk)) in
    elim (as_string (get_field (codes "stop_reason") delta)) [
      | none ↦ used
      | some reason ↦ set_field (codes "stop_reason") (string reason) used
    ]

-- The steps for the three types of chunks, of which a chunk has one at most.
unfoldable pub hear_chunk : Messages → Fields → Messages
hear_chunk w chunk =
    let chunk_type = text_at (codes "type") chunk in
    if text_eq chunk_type (codes "message_start")
    then elim (as_object (get_field (codes "message") chunk)) [
      | none ↦ w
      | some message ↦ record w { message_data = some message }
    ]
    else if text_eq chunk_type (codes "content_block_delta")
    then record w { content = w.content ++ block_text chunk }
    else if text_eq chunk_type (codes "message_delta")
    then elim w.message_data [
      | none ↦ w
      | some message ↦ record w { message_data = some (update_message chunk message) }
    ]
    else w

module _ (unmarshal : Text → Option (Option Fields)) (marshal : Json → Option Text) where
  -- The loop over the lines. A text that is not decoded is skipped.
  unfoldable pub hear_lines : List Text → Messages → Heard
  hear_lines [] w = heard w
  hear_lines (line ∷ lines) w =
      let text = drop 6 line in
      let skipped = hear_lines lines w in
      if has_prefix (codes "event: ") line
      then hear_lines lines (record w { current_event = drop 7 line })
      else if not (has_prefix (codes "data: ") line) || text_eq text []
      then skipped
      else elim (unmarshal text) [
        | none ↦ skipped
        | some found ↦
            let chunk = or_empty found in
            if text_eq w.current_event (codes "error")
              || text_eq (text_at (codes "type") chunk) (codes "error")
            then hearing_failed (anthropic_error text chunk)
            else hear_lines lines (hear_chunk w chunk)
      ]

  unfoldable pub final_message : Text → Fields → Fields
  final_message content message =
      let told =
        set_field (codes "content")
          (array (
            item
              (object (
                field (codes "type") (string (codes "text"))
                  (field (codes "text") (string content) no_field)))
              no_item))
          message in
      elim (get_field (codes "stop_reason") told) [
        | none ↦ set_field (codes "stop_reason") (string (codes "end_turn")) told
        | some _ ↦ told
      ]

  unfoldable pub convert_anthropic_streaming_response : Text → Text × Option StreamingError
  convert_anthropic_streaming_response body = elim (hear_lines (split_at 10 body) no_messages) [
    | hearing_failed e ↦ (body, some e)
    | heard w ↦ elim w.message_data [
      | none ↦ (body, none)
      | some message ↦ elim (marshal (object (final_message w.content message))) [
        | none ↦ (body, none)
        | some text ↦ (text, none)
      ]
    ]
  ]

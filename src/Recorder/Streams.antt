-- ===== src/Recorder/Streams.antt =====
-- The conversion of streamed responses in pkg/metrics/openai_recorder.go. json.Unmarshal into a map
-- and json.Marshal are parameters: the first gives `none` for an error and `some none` for a null.
use model_runner.Common.{
  ℕ, not, List, [], ◌∷◌, ◌++◌, Option, none, some, Text, codes, text_eq, has_prefix, if◌then◌else◌,
  length, drop, ltb,
}
use model_runner.Common.Int.{ℤ, pos}
use model_runner.Common.Decimal.{decimal_int}
use model_runner.Distribution.Hash.{split_at}
use model_runner.Recorder.Json.{
  Json, string, array, object, no_item, item, Fields, no_field, field, get_field, set_field,
  delete_field, as_string, as_number, as_object, as_array, first_item,
}

pub record StreamingError : Type 0 where
  pub status_code : ℤ
  pub message : Text
  pub kind : Text
  pub details : Text

-- The method Error.
unfoldable pub error_message : StreamingError → Text
error_message e =
    if text_eq e.kind []
    then codes "streaming error (code " ++ (decimal_int e.status_code ++ (codes "): " ++ e.message))
    else codes "streaming error (code "
      ++ (decimal_int e.status_code ++ (codes ", type " ++ (e.kind ++ (codes "): " ++ e.message))))

abbrev pub default_streaming_error_code : ℤ
default_streaming_error_code = pos 400

-- What the loop has gathered: the two builders, and `lastChoice` and `lastChunk`, `none` for nil.
pub record Joined : Type 0 where
  pub content : Text
  pub reasoning_content : Text
  pub last_choice : Option Fields
  pub last_chunk : Option Fields

abbrev pub nothing_joined : Joined
nothing_joined = record {
  content = [];
  reasoning_content = [];
  last_choice = none;
  last_chunk = none;
}

pub data Scanned : Type 0 where
  scanned : Joined → Scanned
  stream_failed : StreamingError → Scanned

-- The first choice of a chunk.
unfoldable pub choice_of : Fields → Option Fields
choice_of chunk = elim (as_array (get_field (codes "choices") chunk)) [
  | none ↦ none
  | some choices ↦ as_object (first_item choices)
]

-- A text of the delta of a choice, empty if there is none.
unfoldable pub delta_text : Text → Fields → Text
delta_text key choice = elim (as_object (get_field (codes "delta") choice)) [
  | none ↦ []
  | some delta ↦ elim (as_string (get_field key delta)) [ none ↦ [] | some s ↦ s ]
]

unfoldable pub join_chunk : Joined → Fields → Joined
join_chunk j chunk = elim (choice_of chunk) [
  | none ↦ record j { last_chunk = some chunk }
  | some choice ↦ record {
    content = j.content ++ delta_text (codes "content") choice;
    reasoning_content = j.reasoning_content ++ delta_text (codes "reasoning_content") choice;
    last_choice = some choice;
    last_chunk = some chunk;
  }
]

-- A chunk that is null makes `lastChunk` nil.
unfoldable pub join : Joined → Option Fields → Joined
join j none = record j { last_chunk = none }
join j (some chunk) = join_chunk j chunk

unfoldable pub or_text : Text → Option Text → Text
or_text s none = s
or_text s (some t) = t

-- A nil map reads as an empty one.
unfoldable pub or_empty : Option Fields → Fields
or_empty none = no_field
or_empty (some m) = m

-- `int_of` is the conversion of a float64 to an int.
module _ (int_of : ℕ → ℤ) (unmarshal : Text → Option (Option Fields))
    (marshal : Json → Option Text) where
  unfoldable pub error_of_fields : Text → Fields → StreamingError
  error_of_fields data_text m = record {
    status_code = elim (as_number (get_field (codes "code") m)) [
      | none ↦ default_streaming_error_code
      | some code ↦ int_of code
    ];
    message = or_text (codes "streaming error") (as_string (get_field (codes "message") m));
    kind = or_text [] (as_string (get_field (codes "type") m));
    details = data_text;
  }

  unfoldable pub streaming_error : Text → StreamingError
  streaming_error error_data = elim (unmarshal error_data) [
    | none ↦ record {
      status_code = default_streaming_error_code;
      message = codes "unparseable streaming error";
      kind = [];
      details = error_data;
    }
    | some found ↦ error_of_fields error_data (or_empty found)
  ]

  -- The loop over the lines.
  unfoldable pub scan_lines : List Text → Joined → Scanned
  scan_lines [] j = scanned j
  scan_lines (line ∷ lines) j =
      let text = drop 6 line in
      let skipped = scan_lines lines j in
      if has_prefix (codes "error: ") line
      then stream_failed (streaming_error (drop 7 line))
      else if not (has_prefix (codes "data: ") line)
      then skipped
      else if text_eq text (codes "[DONE]")
      then scanned j
      else elim (unmarshal text) [ none ↦ skipped | some chunk ↦ scan_lines lines (join j chunk) ]

  unfoldable pub assistant_message : Joined → Fields
  assistant_message j =
      let message =
        field (codes "role") (string (codes "assistant"))
          (field (codes "content") (string j.content) no_field) in
      if ltb 0 (length j.reasoning_content)
      then set_field (codes "reasoning_content") (string j.reasoning_content) message
      else message

  unfoldable pub final_choice : Joined → Fields
  final_choice j =
      let choice = or_empty j.last_choice in
      let told =
        delete_field (codes "delta")
          (set_field (codes "message") (object (assistant_message j)) choice) in
      elim (get_field (codes "finish_reason") told) [
        | none ↦ set_field (codes "finish_reason") (string (codes "stop")) told
        | some _ ↦ told
      ]

  unfoldable pub final_response : Joined → Fields → Fields
  final_response j chunk =
      set_field (codes "object") (string (codes "chat.completion"))
        (set_field (codes "choices") (array (item (object (final_choice j)) no_item)) chunk)

  unfoldable pub convert_streaming_response : Text → Text × Option StreamingError
  convert_streaming_response body = elim (scan_lines (split_at 10 body) nothing_joined) [
    | stream_failed e ↦ (body, some e)
    | scanned j ↦ elim j.last_chunk [
      | none ↦ (body, none)
      | some chunk ↦ elim (marshal (object (final_response j chunk))) [
        | none ↦ (body, none)
        | some text ↦ (text, none)
      ]
    ]
  ]

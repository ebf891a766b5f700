-- ===== src/Recorder/Tests.antt =====
-- Small runs of the recorder, and the theorems at them.
use model_runner.Common.{
  ℕ, ◌≡◌, Bool, true, List, [], ◌∷◌, ◌++◌, Option, none, some, Text, codes, arith,
}
use model_runner.Common.Int.{ℤ, pos}
use model_runner.Recorder.Json.{Json, string, array, object, no_item, item, Fields, no_field, field}
use model_runner.Recorder.Streams.{StreamingError}
use model_runner.Recorder.Records.{RecordedRequest, new_open_ai_recorder}
use model_runner.Recorder.Runs.{Call, requested, responded, removed, run, notes, recorded, last_ten}
use model_runner.Recorder.Window.{recorded-run_new}
use model_runner.Recorder.Settled.{IsValid}
use model_runner.Recorder.Validity.{run-IsValid}

-- A chunk whose delta says the text.
abbrev chunk_saying : Text → Fields
chunk_saying s =
    field (codes "choices")
      (array (
        item
          (object
            (field (codes "delta") (object (field (codes "content") (string s) no_field)) no_field))
          no_item))
      no_field

-- Decodes a text to the chunk that says it, and nothing that is empty.
abbrev decode : Text → Option (Option Fields)
decode [] = none
decode (c ∷ s) = some (some (chunk_saying (c ∷ s)))

abbrev write_any : Json → Option Text
write_any v = some (codes "{}")

abbrev int_of : ℕ → ℤ
int_of n = pos n

abbrev stream_body : Text
stream_body = codes "data: He" ++ 10 ∷ 10 ∷ codes "data: llo" ++ 10 ∷ codes "data: [DONE]"

abbrev same_name : Text → Text
same_name s = s

abbrev any_json : Text → Bool
any_json s = true

abbrev no_text : Text → Option Text
no_text s = none

abbrev no_error_text : StreamingError → Option Text
no_error_text e = none

abbrev as_is : Bool → Text → Text × Option StreamingError
as_is anthropic body = (body, none)

abbrev small_request : RecordedRequest
small_request = record {
  method = codes "POST";
  path = codes "/v1";
  user_agent = [];
  origin = [];
  body = [];
}

abbrev small_run : List Call
small_run =
    requested (codes "m") small_request 7 0
    ∷ responded new_open_ai_recorder (codes "m_7") (codes "m") 500 (codes "no")
    ∷ removed (codes "n")
    ∷ []

recorded-run_new_example :
    recorded same_name any_json no_text no_error_text as_is same_name
      (run same_name any_json no_text no_error_text as_is same_name new_open_ai_recorder small_run)
      (codes "m")
    ≡ last_ten
        (notes same_name any_json no_text no_error_text as_is same_name (codes "m") [] small_run)
recorded-run_new_example =
    recorded-run_new same_name any_json no_text no_error_text as_is same_name small_run (codes "m")

run-IsValid_example :
    IsValid
      (run same_name any_json no_text no_error_text as_is same_name new_open_ai_recorder small_run)
run-IsValid_example =
    run-IsValid same_name any_json no_text no_error_text as_is same_name
      (λ e t q. absurd (ground arith)) small_run

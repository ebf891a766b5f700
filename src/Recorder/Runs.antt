-- ===== src/Recorder/Runs.antt =====
-- Runs of the methods of pkg/metrics/openai_recorder.go, and the IDs that a run leaves recorded.
use model_runner.Common.{
  ℕ, ◌-◌, Bool, List, [], ◌∷◌, ◌++◌, Option, Text, text_eq, if◌then◌else◌, length, drop,
}
use model_runner.Common.Assoc.{text_eq_inst}
use model_runner.Loader.State.{BackendConfiguration}
use model_runner.Recorder.Streams.{StreamingError}
use model_runner.Recorder.Records.{
  RequestResponsePair, ModelRecordsResponse, OpenAiRecorder, RecordedRequest, model_data, record_id,
  set_config_for_model, record_request, record_response, remove_model, broadcast_to_subscribers,
  subscribe, unsubscribe, receive,
}

-- A call of a method. `responded` has the state at which the origin was read, and the request's ID,
-- model, status and body.
pub data Call : Type 0 where
  configured : Text → Option BackendConfiguration → Call
  requested : Text → RecordedRequest → ℕ → ℕ → Call
  responded : OpenAiRecorder → Text → Text → ℕ → Text → Call
  removed : Text → Call
  announced : List ModelRecordsResponse → Call
  subscribed : Text → Call
  unsubscribed : Text → Call
  received : Text → Call

unfoldable pub ids_of : List RequestResponsePair → List Text
ids_of [] = []
ids_of (p ∷ ps) = p.id ∷ ids_of ps

-- The last ten of a list.
abbrev pub last_ten {ℓ} : {A : Type ℓ} → List A → List A
last_ten xs = drop (length xs - 10) xs

module _ (resolve_id : Text → Text) (is_json : Text → Bool) (marshal_text : Text → Option Text)
    (marshal_error : StreamingError → Option Text)
    (convert : Bool → Text → Text × Option StreamingError) (truncate : Text → Text) where
  unfoldable pub step : OpenAiRecorder → Call → OpenAiRecorder
  step r (configured model config) =
      set_config_for_model resolve_id is_json marshal_text marshal_error convert truncate r model
        config
  step r (requested model req now seconds) =
      (record_request resolve_id is_json marshal_text marshal_error convert truncate r model req now
        seconds).0
  step r (responded before id model status body) =
      (record_response resolve_id is_json marshal_text marshal_error convert truncate before r id
        model status body).0
  step r (removed model) =
      remove_model resolve_id is_json marshal_text marshal_error convert truncate r model
  step r (announced event) = broadcast_to_subscribers r event
  step r (subscribed id) = subscribe r id
  step r (unsubscribed id) = unsubscribe r id
  step r (received id) = (receive r id).0

  unfoldable pub run : OpenAiRecorder → List Call → OpenAiRecorder
  run r [] = r
  run r (c ∷ cs) = run (step r c) cs

  -- The IDs of the requests of a model since it was removed last, after those given.
  unfoldable pub note : Text → List Text → Call → List Text
  note model_id ids (requested model req now seconds) =
      if text_eq (resolve_id model) model_id then ids ++ record_id model_id now ∷ [] else ids
  note model_id ids (removed model) = if text_eq (resolve_id model) model_id then [] else ids
  note model_id ids _ = ids

  unfoldable pub notes : Text → List Text → List Call → List Text
  notes model_id ids [] = ids
  notes model_id ids (c ∷ cs) = notes model_id (note model_id ids c) cs

  -- The IDs that are recorded for a model.
  unfoldable pub recorded : OpenAiRecorder → Text → List Text
  recorded r model_id = ids_of (model_data r model_id).records

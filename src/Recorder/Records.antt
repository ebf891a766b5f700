-- ===== src/Recorder/Records.antt =====
-- The records and the subscribers of pkg/metrics/openai_recorder.go. Each method is one function of
-- the state. A record is known by its values: what a method changes through its pointer it changes in
-- the list. Times are given with the call.
use model_runner.Common.{
  ℕ, Bool, true, List, [], ◌∷◌, ◌++◌, Option, none, some, Text, codes, text_eq, contains,
  if◌then◌else◌, length, drop, ltb, leb, ◌==◌, map,
}
use model_runner.Common.Assoc.{lookup, insert, delete, text_eq_inst}
use model_runner.Common.Decimal.{decimal}
use model_runner.Loader.State.{BackendConfiguration}
use model_runner.Recorder.Streams.{StreamingError, error_message}

abbrev pub maximum_records_per_model : ℕ
maximum_records_per_model = 10

abbrev pub subscriber_channel_buffer : ℕ
subscriber_channel_buffer = 100

pub record RequestResponsePair : Type 0 where
  pub id : Text
  pub model : Text
  pub method : Text
  pub url : Text
  pub request : Text
  pub response : Text
  pub error_text : Text
  pub timestamp : ℕ
  pub status_code : ℕ
  pub user_agent : Text
  pub origin : Text

pub record ModelData : Type 0 where
  pub config : BackendConfiguration
  pub records : List RequestResponsePair

pub record ModelRecordsResponse : Type 0 where
  pub count : ℕ
  pub model : Text
  pub found_data : ModelData

-- `subscribers` holds what waits in each channel.
pub record OpenAiRecorder : Type 0 where
  pub records : List (Text × ModelData)
  pub subscribers : List (Text × List (List ModelRecordsResponse))

-- What RecordRequest reads of a request.
pub record RecordedRequest : Type 0 where
  pub method : Text
  pub path : Text
  pub user_agent : Text
  pub origin : Text
  pub body : Text

unfoldable pub new_open_ai_recorder : OpenAiRecorder
new_open_ai_recorder = record { records = []; subscribers = [] }

abbrev pub no_configuration : BackendConfiguration
no_configuration = record {
  context_size = none;
  draft_model = none;
  keep_alive = none;
  others = [];
}

-- The data of a model, new if there is none.
unfoldable pub model_data : OpenAiRecorder → Text → ModelData
model_data r model_id = elim (lookup model_id r.records) [
  | none ↦ record { config = no_configuration; records = [] }
  | some found ↦ found
]

-- A new record; the oldest one goes if there are ten.
unfoldable pub push_record :
    List RequestResponsePair → RequestResponsePair → List RequestResponsePair
push_record records new =
    if length records == maximum_records_per_model
    then drop 1 records ++ new ∷ []
    else records ++ new ∷ []

unfoldable pub record_id : Text → ℕ → Text
record_id model_id now = model_id ++ (codes "_" ++ decimal now)

-- The loop that looks for the record of an ID and changes it.
unfoldable pub change_record :
    Text
    → (RequestResponsePair → RequestResponsePair)
    → List RequestResponsePair
    → Option (RequestResponsePair × List RequestResponsePair)
change_record id change [] = none
change_record id change (p ∷ ps) =
    let rest = change_record id change ps in
    if text_eq p.id id
    then some (change p, change p ∷ ps)
    else elim rest [ none ↦ none | some found ↦ some (found.0, p ∷ found.1) ]

unfoldable pub origin_of : Text → List RequestResponsePair → Text
origin_of id [] = []
origin_of id (p ∷ ps) = let rest = origin_of id ps in if text_eq p.id id then p.origin else rest

unfoldable pub get_record_origin : OpenAiRecorder → Text → Text → Text
get_record_origin r id model_id = elim (lookup model_id r.records) [
  | none ↦ []
  | some found ↦ origin_of id found.records
]

unfoldable pub response_of : Text → ModelData → ModelRecordsResponse
response_of model found = record { count = length found.records; model = model; found_data = found }

unfoldable pub get_all_records : OpenAiRecorder → List ModelRecordsResponse
get_all_records r = map (λ e. response_of e.0 e.1) r.records

-- The sends of a broadcast: a full channel is skipped.
unfoldable pub send_each :
    List ModelRecordsResponse
    → List (Text × List (List ModelRecordsResponse))
    → List (Text × List (List ModelRecordsResponse))
send_each event [] = []
send_each event ((id, waiting) ∷ rest) =
    (id, if ltb (length waiting) subscriber_channel_buffer then waiting ++ event ∷ [] else waiting)
    ∷ send_each event rest

unfoldable pub broadcast_to_subscribers :
    OpenAiRecorder → List ModelRecordsResponse → OpenAiRecorder
broadcast_to_subscribers r event = record r { subscribers = send_each event r.subscribers }

-- The registration and the end of a stream of events, and a receive from the channel.
unfoldable pub subscribe : OpenAiRecorder → Text → OpenAiRecorder
subscribe r id = record r { subscribers = insert id [] r.subscribers }

unfoldable pub unsubscribe : OpenAiRecorder → Text → OpenAiRecorder
unsubscribe r id = record r { subscribers = delete id r.subscribers }

unfoldable pub receive : OpenAiRecorder → Text → OpenAiRecorder × Option (List ModelRecordsResponse)
receive r id = elim (lookup id r.subscribers) [
  | none ↦ (r, none)
  | some waiting ↦ elim waiting [
    | [] ↦ (r, none)
    | event ∷ rest ↦ (record r { subscribers = insert id rest r.subscribers }, some event)
  ]
]

-- Whether an event is for a stream that asked for a model; all are, if it asked for none.
unfoldable pub is_wanted : Text → List ModelRecordsResponse → Bool
is_wanted model [] = true
is_wanted model (e ∷ es) = if text_eq model [] then true else text_eq e.model model

-- `resolve_id` is the model manager's; `is_json`, `marshal_text` and `marshal_error` are encoding/json
-- on any value, on a text and on a StreamingError; `convert` are the two conversions of a streamed
-- body, the Anthropic one for true; `truncate` is the truncation of media.
module _ (resolve_id : Text → Text) (is_json : Text → Bool) (marshal_text : Text → Option Text)
    (marshal_error : StreamingError → Option Text)
    (convert : Bool → Text → Text × Option StreamingError) (truncate : Text → Text) where
  -- A nil configuration changes nothing.
  unfoldable pub set_config_for_model :
      OpenAiRecorder → Text → Option BackendConfiguration → OpenAiRecorder
  set_config_for_model r model none = r
  set_config_for_model r model (some config) =
      let model_id = resolve_id model in
      record r {
        records = insert model_id (record (model_data r model_id) { config = config }) r.records;
      }

  -- `now` and `seconds` are the two readings of the clock.
  unfoldable pub record_request :
      OpenAiRecorder → Text → RecordedRequest → ℕ → ℕ → OpenAiRecorder × Text
  record_request r model req now seconds =
      let model_id = resolve_id model in
      let id = record_id model_id now in
      let new : RequestResponsePair = record {
        id = id;
        model = model;
        method = req.method;
        url = req.path;
        request = truncate req.body;
        response = [];
        error_text = [];
        timestamp = seconds;
        status_code = 0;
        user_agent = req.user_agent;
        origin = req.origin;
      } in
      let found = model_data r model_id in
      (
        record r {
          records =
              insert model_id (record found { records = push_record found.records new }) r.records;
        },
        id,
      )

  unfoldable pub normalize_error_to_json : Text → Text
  normalize_error_to_json content =
      if text_eq content []
      then codes "{\"error\": \"unknown error\"}"
      else if is_json content
      then content
      else elim (marshal_text content) [
        | none ↦ codes "{\"error\": \"Failed to process error content\"}"
        | some escaped ↦ codes "{\"error\": " ++ (escaped ++ codes "}")
      ]

  unfoldable pub serialize_streaming_error : StreamingError → Text
  serialize_streaming_error e = elim (marshal_error e) [
    | some text ↦ text
    | none ↦ normalize_error_to_json (error_message e)
  ]

  unfoldable pub handle_error_recording :
      RequestResponsePair → Option StreamingError → Text → ℕ → RequestResponsePair
  handle_error_recording p (some e) response status = record p {
    error_text = serialize_streaming_error e;
    response = [];
  }
  handle_error_recording p none response status =
      if leb 400 status
      then record p { error_text = normalize_error_to_json response; response = [] }
      else record p { response = response; error_text = [] }

  -- What RecordResponse puts into the record.
  unfoldable pub complete_record :
      Text × Option StreamingError → ℕ → RequestResponsePair → RequestResponsePair
  complete_record converted status p =
      handle_error_recording (record p { status_code = status }) converted.1 converted.0 status

  -- The response of the body, converted if it is a stream.
  unfoldable pub read_response : OpenAiRecorder → Text → Text → Text → Text × Option StreamingError
  read_response r id model_id body =
      if contains (codes "data: ") body
      then convert (text_eq (get_record_origin r id model_id) (codes "anthropic/messages")) body
      else (body, none)

  -- A status that was not written is a timeout.
  unfoldable pub written_status : ℕ → ℕ
  written_status status = if status == 0 then 408 else status

  -- RecordResponse, with the event that is then broadcast, if the record was found. The origin is
  -- read under an earlier lock, in `before`.
  unfoldable pub record_response :
      OpenAiRecorder
      → OpenAiRecorder
      → Text
      → Text
      → ℕ
      → Text
      → OpenAiRecorder × Option (List ModelRecordsResponse)
  record_response before r id model status body =
      let model_id = resolve_id model in
      let change =
        complete_record (read_response before id model_id body) (written_status status) in
      elim (lookup model_id r.records) [
        | none ↦ (r, none)
        | some found ↦ elim (change_record id change found.records) [
          | none ↦ (r, none)
          | some changed ↦ (
            record r { records = insert model_id (record found { records = changed.1 }) r.records },
            some (
                record {
                  count = 1;
                  model = model;
                  found_data = record found { records = changed.0 ∷ [] };
                }
                ∷ []),
          )
        ]
      ]

  unfoldable pub get_records_by_model : OpenAiRecorder → Text → List ModelRecordsResponse
  get_records_by_model r model = elim (lookup (resolve_id model) r.records) [
    | none ↦ []
    | some found ↦ response_of (resolve_id model) found ∷ []
  ]

  unfoldable pub remove_model : OpenAiRecorder → Text → OpenAiRecorder
  remove_model r model = elim (lookup (resolve_id model) r.records) [
    | none ↦ r
    | some _ ↦ record r { records = delete (resolve_id model) r.records }
  ]

-- ===== src/Recorder/Validity.antt =====
-- Every run of the methods of pkg/metrics/openai_recorder.go keeps its records and channels bounded,
-- and its records settled.
use model_runner.Common.{
  ℕ, ◌≤◌, ◌≡◌, ◌≢◌, inl, inr, refl, sym, ◌∙◌, Bool, List, [], ◌∷◌, Option, none, some, arith, Text,
  text_eq, text_eq_iff, length, leb, Bool-cases, Option-cases,
}
use model_runner.Common.Assoc.{lookup, delete, lookup-delete, text_eq_inst}
use model_runner.Recorder.Streams.{StreamingError}
use model_runner.Recorder.Records.{
  RequestResponsePair, ModelRecordsResponse, OpenAiRecorder, RecordedRequest, new_open_ai_recorder,
  model_data, change_record, set_config_for_model, record_request, handle_error_recording,
  complete_record, record_response, remove_model, broadcast_to_subscribers, subscribe, unsubscribe,
  receive, read_response, written_status,
}
use model_runner.Recorder.Records.{normalize_error_to_json, serialize_streaming_error}
use model_runner.Recorder.Runs.{
  Call, configured, requested, responded, removed, announced, subscribed, unsubscribed, received,
  step, run,
}
use model_runner.Recorder.Settled.{
  IsSettled, IsBounded, IsValid, push_record-IsBounded, change_record-IsBounded, lookup-send_each,
  IsBounded-insert, IsBounded-delete, channels-insert,
}

module _ (resolve_id : Text → Text) (is_json : Text → Bool) (marshal_text : Text → Option Text)
    (marshal_error : StreamingError → Option Text)
    (convert : Bool → Text → Text × Option StreamingError) (truncate : Text → Text)
    (told : (e : StreamingError) (t : Text) → marshal_error e ≡ some t → t ≢ []) where
  abbrev after : OpenAiRecorder → Call → OpenAiRecorder
  after = step resolve_id is_json marshal_text marshal_error convert truncate

  cons_ne : {c : ℕ} {s : Text} → c ∷ s ≢ []
  cons_ne e = absurd (ground arith)

  normalize_error_to_json_ne :
      (content : Text)
      → normalize_error_to_json resolve_id is_json marshal_text marshal_error convert truncate
          content
        ≢ []
  unfolding normalize_error_to_json
  normalize_error_to_json_ne content = elim (Bool-cases (text_eq content [])) [
    | inl e ↦ simp e cons_ne
    | inr e ↦ elim (Bool-cases (is_json content)) [
      | inl j ↦ simp (e, j) (λ q. absurd (ground (arith, text_eq_iff content [])))
      | inr j ↦ elim (Option-cases (marshal_text content)) [
        | inl m ↦ simp (e, j, m) cons_ne
        | inr (x, m) ↦ simp (e, j, m) cons_ne
      ]
    ]
  ]

  serialize_streaming_error_ne :
      (e : StreamingError)
      → serialize_streaming_error resolve_id is_json marshal_text marshal_error convert truncate e
        ≢ []
  unfolding serialize_streaming_error
  serialize_streaming_error_ne e = elim (Option-cases (marshal_error e)) [
    | inl m ↦ rw (m, serialize_streaming_error) (normalize_error_to_json_ne _)
    | inr (t, m) ↦ rw (m, serialize_streaming_error) (told e t m)
  ]

  complete_record-IsSettled :
      (converted : Text × Option StreamingError) (status : ℕ) (p : RequestResponsePair)
      → IsSettled (
          complete_record resolve_id is_json marshal_text marshal_error convert truncate converted
            status p)
  unfolding complete_record handle_error_recording
  complete_record-IsSettled converted status p = elim (Option-cases converted.1) [
    | inr (x, e) ↦
        rw (e, complete_record)
          (record { one_of = inl refl; error_told = λ _. serialize_streaming_error_ne x })
    | inl e ↦
        rw (e, complete_record)
          (elim (Bool-cases (leb 400 status)) [
            | inl s ↦ simp s (record {
              one_of = inl refl;
              error_told = λ _. normalize_error_to_json_ne converted.0;
            })
            | inr s ↦ simp s (record { one_of = inr refl; error_told = λ h. absurd (ground arith) })
          ])
  ]

  requested-IsValid :
      (r : OpenAiRecorder) (model : Text) (req : RecordedRequest) (now seconds : ℕ)
      → IsValid r
      → IsValid (after r (requested model req now seconds))
  unfolding step record_request
  requested-IsValid r model req now seconds v = record {
    models =
        IsBounded-insert r (resolve_id model) _
          (push_record-IsBounded _ _ (v.models (resolve_id model))
            (record { one_of = inl refl; error_told = λ h. absurd (omega arith) }))
          v.models;
    channels = v.channels;
  }

  responded-IsValid :
      (before r : OpenAiRecorder) (id model : Text) (status : ℕ) (body : Text)
      → IsValid r
      → IsValid (after r (responded before id model status body))
  unfolding step record_response model_data
  responded-IsValid before r id model status body v =
      let change =
        complete_record resolve_id is_json marshal_text marshal_error convert truncate
          (read_response resolve_id is_json marshal_text marshal_error convert truncate before id
            (resolve_id model) body)
          (written_status resolve_id is_json marshal_text marshal_error convert truncate status) in
      elim (Option-cases (lookup (resolve_id model) r.records)) [
        | inl l ↦ rw (l, step, record_response) v
        | inr (found, l) ↦ elim (Option-cases (change_record id change found.records)) [
          | inl c ↦ rw (l, step, record_response) (rw (c, step, record_response) v)
          | inr (changed, c) ↦
              let old : IsBounded found.records =
                rw (l, model_data) at (v.models (resolve_id model)) in
              let (all, len) =
                change_record-IsBounded id change found.records changed
                  (complete_record-IsSettled _ _) c old.settled in
              let few : length changed.1 ≤ 10 = omega (arith, old.few, len) in
              rw (l, step, record_response)
                (rw (c, step, record_response)
                  (record {
                    models =
                        IsBounded-insert r (resolve_id model) (record found { records = changed.1 })
                          (record { few = few; settled = all }) v.models;
                    channels = v.channels;
                  }))
        ]
      ]

  removed-IsValid :
      (r : OpenAiRecorder) (model : Text) → IsValid r → IsValid (after r (removed model))
  unfolding step remove_model
  removed-IsValid r model v = elim (Option-cases (lookup (resolve_id model) r.records)) [
    | inl l ↦ rw (l, step, remove_model) v
    | inr (found, l) ↦
        rw (l, step, remove_model)
          (record {
            models = IsBounded-delete r (resolve_id model) v.models;
            channels = v.channels;
          })
  ]

  received_from :
      (r : OpenAiRecorder) (id : Text) (waiting : List (List ModelRecordsResponse))
      → lookup id r.subscribers ≡ some waiting
      → IsValid r
      → IsValid (receive r id).0
  unfolding receive model_data
  received_from r id [] l v = rw (l, receive) v
  received_from r id (event ∷ rest) l v =
      let small : length (event ∷ rest) ≤ 100 = v.channels id (event ∷ rest) l in
      rw (l, receive)
        (record {
          models = v.models;
          channels = channels-insert r.subscribers id rest (omega (arith, small)) v.channels;
        })

  received-IsValid : (r : OpenAiRecorder) (id : Text) → IsValid r → IsValid (after r (received id))
  unfolding step receive
  received-IsValid r id v = elim (Option-cases (lookup id r.subscribers)) [
    | inl l ↦ rw (l, step, receive) v
    | inr (waiting, l) ↦ received_from r id waiting l v
  ]

  unsubscribed-IsValid :
      (r : OpenAiRecorder) (id : Text) → IsValid r → IsValid (after r (unsubscribed id))
  unfolding step unsubscribe model_data
  unsubscribed-IsValid r id v = record {
    models = v.models;
    channels = λ i w e. elim (Bool-cases (text_eq id i)) [
      | inl s ↦
          let gone : none ≡ some w = sym (lookup-delete id i r.subscribers ∙ (rw s refl)) ∙ e in
          absurd (ground arith)
      | inr s ↦
          let same : lookup i (delete id r.subscribers) ≡ lookup i r.subscribers =
            lookup-delete id i r.subscribers ∙ (rw s refl) in
          v.channels i w (sym same ∙ e)
    ];
  }

  step-IsValid : (r : OpenAiRecorder) (c : Call) → IsValid r → IsValid (after r c)
  unfolding step
  step-IsValid r (configured model none) v = unfold set_config_for_model in v
  step-IsValid r (configured model (some config)) v =
      unfold set_config_for_model in
      (record {
        models = IsBounded-insert r (resolve_id model) _ (v.models (resolve_id model)) v.models;
        channels = v.channels;
      })
  step-IsValid r (requested model req now seconds) v = requested-IsValid r model req now seconds v
  step-IsValid r (responded before id model status body) v =
      responded-IsValid before r id model status body v
  step-IsValid r (removed model) v = removed-IsValid r model v
  step-IsValid r (announced event) v =
      unfold broadcast_to_subscribers model_data in
      (record {
        models = v.models;
        channels = λ id w e. lookup-send_each event id r.subscribers (v.channels id) w e;
      })
  step-IsValid r (subscribed id) v =
      unfold subscribe model_data in
      (record {
        models = v.models;
        channels = channels-insert r.subscribers id [] (omega arith) v.channels;
      })
  step-IsValid r (unsubscribed id) v = unsubscribed-IsValid r id v
  step-IsValid r (received id) v = received-IsValid r id v

  run_from-IsValid :
      (cs : List Call) (r : OpenAiRecorder)
      → IsValid r
      → IsValid (run resolve_id is_json marshal_text marshal_error convert truncate r cs)
  unfolding run
  run_from-IsValid [] r v = v
  run_from-IsValid (c ∷ cs) r v = run_from-IsValid cs (after r c) (step-IsValid r c v)

  -- If no streaming error is written as an empty text, then after any calls of the recorder's
  -- methods a model has ten records at most, of which none has both a response and an error and
  -- each with a status of 400 or more has an error, and a channel holds 100 events at most.
  pub run-IsValid :
      (cs : List Call)
      → IsValid (
          run resolve_id is_json marshal_text marshal_error convert truncate new_open_ai_recorder
            cs)
  run-IsValid cs = run_from-IsValid cs new_open_ai_recorder (
      unfold new_open_ai_recorder lookup model_data in
      record {
        models = λ m. record { few = omega arith; settled = tt };
        channels = λ id w e. absurd (ground arith);
      })

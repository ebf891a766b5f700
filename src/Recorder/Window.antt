-- ===== src/Recorder/Window.antt =====
-- Which requests the records of pkg/metrics/openai_recorder.go hold after a run of its methods.
use model_runner.Common.{
  ℕ, ◌-◌, ◌+◌, ◌≤◌, ◌<◌, suc, ◌≡◌, inl, inr, refl, sym, ap, ◌∙◌, subst, Bool, true, false, List, [],
  ◌∷◌, ◌++◌, Option, none, some, arith, Text, text_eq, text_eq_iff, text_eq_refl, if◌then◌else◌,
  length, drop, length-append, length-drop, drop-append, drop-drop, ◌==◌, leb, Bool-cases,
  Option-cases,
}
use model_runner.Common.Assoc.{lookup, insert, delete, lookup-insert, lookup-delete, text_eq_inst}
use model_runner.Recorder.Streams.{StreamingError}
use model_runner.Recorder.Records.{
  RequestResponsePair, ModelData, OpenAiRecorder, RecordedRequest, new_open_ai_recorder, model_data,
  push_record, record_id, change_record, set_config_for_model, record_request,
  handle_error_recording, complete_record, record_response, remove_model, broadcast_to_subscribers,
  subscribe, unsubscribe, receive, read_response, written_status,
}
use model_runner.Recorder.Runs.{
  Call, configured, requested, responded, removed, announced, subscribed, unsubscribed, received,
  ids_of, last_ten, step, run, note, notes, recorded,
}

ids_of-append :
    (ps : List RequestResponsePair) (p : RequestResponsePair)
    → ids_of (ps ++ p ∷ []) ≡ ids_of ps ++ p.id ∷ []
unfolding ids_of
ids_of-append [] p = refl
ids_of-append (q ∷ ps) p = ap (λ xs. q.id ∷ xs) (ids_of-append ps p)

length-ids_of : (ps : List RequestResponsePair) → length (ids_of ps) ≡ length ps
unfolding ids_of
length-ids_of [] = refl
length-ids_of (p ∷ ps) = ap suc (length-ids_of ps)

drop_zero : (xs : List Text) → drop 0 xs ≡ xs
drop_zero [] = refl
drop_zero (x ∷ xs) = refl

last_ten-append_full :
    (xs : List Text) (x : Text)
    → 10 ≤ length xs
    → last_ten (xs ++ x ∷ []) ≡ drop 1 (last_ten xs) ++ x ∷ []
last_ten-append_full xs x h =
    let n = length xs in
    let len : length (xs ++ x ∷ []) - 10 ≡ n - 10 + 1 = omega (arith, length-append xs (x ∷ [])) in
    let past : n - 10 + 1 - n ≡ 0 = omega arith in
    ap (λ k. drop k (xs ++ x ∷ [])) len
    ∙ drop-append (n - 10 + 1) xs (x ∷ [])
    ∙ ap (λ k. drop (n - 10 + 1) xs ++ drop k (x ∷ [])) past
    ∙ ap (λ ys. ys ++ x ∷ []) (sym (drop-drop 1 (n - 10) xs))

last_ten-append_short :
    (xs : List Text) (x : Text) → length xs < 10 → last_ten (xs ++ x ∷ []) ≡ last_ten xs ++ x ∷ []
last_ten-append_short xs x h =
    let len : length (xs ++ x ∷ []) - 10 ≡ 0 = omega (arith, length-append xs (x ∷ [])) in
    let len' : length xs - 10 ≡ 0 = omega arith in
    ap (λ k. drop k (xs ++ x ∷ [])) len
    ∙ drop_zero (xs ++ x ∷ [])
    ∙ ap (λ ys. ys ++ x ∷ []) (sym (ap (λ k. drop k xs) len' ∙ drop_zero xs))

ids_of-drop : (ps : List RequestResponsePair) → ids_of (drop 1 ps) ≡ drop 1 (ids_of ps)
unfolding ids_of
ids_of-drop [] = refl
ids_of-drop (p ∷ []) = refl
ids_of-drop (p ∷ q ∷ ps) = refl

push_full :
    (ps : List RequestResponsePair) (p : RequestResponsePair)
    → (length ps == 10) ≡ true
    → ids_of (push_record ps p) ≡ ids_of (drop 1 ps) ++ p.id ∷ []
unfolding push_record
push_full ps p e = rw (e, push_record) (ids_of-append (drop 1 ps) p)

push_short :
    (ps : List RequestResponsePair) (p : RequestResponsePair)
    → (length ps == 10) ≡ false
    → ids_of (push_record ps p) ≡ ids_of ps ++ p.id ∷ []
unfolding push_record
push_short ps p e = rw (e, push_record) (ids_of-append ps p)

-- The IDs after a new record, if they are the last ten.
push_record-last_ten :
    (ps : List RequestResponsePair) (p : RequestResponsePair) (xs : List Text)
    → ids_of ps ≡ last_ten xs
    → ids_of (push_record ps p) ≡ last_ten (xs ++ p.id ∷ [])
unfolding push_record
push_record-last_ten ps p xs e =
    let len : length ps ≡ length xs - (length xs - 10) =
      sym (length-ids_of ps) ∙ ap length e ∙ length-drop (length xs - 10) xs in
    elim (Bool-cases (leb 10 (length xs))) [
      | inl full ↦
          let is_full : (length ps == 10) ≡ true = ground arith in
          let many : 10 ≤ length xs = ground arith in
          push_full ps p is_full
          ∙ ap (λ ys. ys ++ p.id ∷ []) (ids_of-drop ps ∙ ap (drop 1) e)
          ∙ sym (last_ten-append_full xs p.id many)
      | inr short ↦
          let few : length xs < 10 = ground arith in
          let not_full : (length ps == 10) ≡ false = grind arith in
          push_short ps p not_full
          ∙ ap (λ ys. ys ++ p.id ∷ []) e
          ∙ sym (last_ten-append_short xs p.id few)
    ]

change_record-ids_of :
    (id : Text) (change : RequestResponsePair → RequestResponsePair) (ps : List RequestResponsePair)
    (found : RequestResponsePair × List RequestResponsePair)
    → ((p : RequestResponsePair) → (change p).id ≡ p.id)
    → change_record id change ps ≡ some found
    → ids_of found.1 ≡ ids_of ps
unfolding change_record ids_of
change_record-ids_of id change [] found keeps e = absurd (ground arith)
change_record-ids_of id change (p ∷ ps) found keeps e = elim (Bool-cases (text_eq p.id id)) [
  | inl same ↦
      let at : (change p, change p ∷ ps) ≡ found = ground arith in
      sym (ap (λ (f : RequestResponsePair × List RequestResponsePair). ids_of f.1) at)
      ∙ ap (λ i. i ∷ ids_of ps) (keeps p)
  | inr other ↦ elim (Option-cases (change_record id change ps)) [
    | inl none_found ↦ absurd (ground arith)
    | inr (below, b) ↦
        let at : (below.0, p ∷ below.1) ≡ found = ground arith in
        sym (ap (λ (f : RequestResponsePair × List RequestResponsePair). ids_of f.1) at)
        ∙ ap (λ is. p.id ∷ is) (change_record-ids_of id change ps below keeps b)
  ]
]

pub model_data-insert_self :
    (r : OpenAiRecorder) (k : Text) (v : ModelData)
    → model_data (record r { records = insert k v r.records }) k ≡ v
unfolding model_data
model_data-insert_self r k v =
    let at : lookup k (insert k v r.records) ≡ some v =
      lookup-insert k k v r.records ∙ rw (text_eq_refl k) refl in
    rw (at, model_data) refl

pub model_data-insert_ne :
    (r : OpenAiRecorder) (k m : Text) (v : ModelData)
    → text_eq k m ≡ false
    → model_data (record r { records = insert k v r.records }) m ≡ model_data r m
unfolding model_data
model_data-insert_ne r k m v e =
    let at : lookup m (insert k v r.records) ≡ lookup m r.records =
      lookup-insert k m v r.records ∙ rw e refl in
    rw (at, model_data) refl

model_data-delete :
    (r : OpenAiRecorder) (k m : Text)
    → ids_of (model_data (record r { records = delete k r.records }) m).records
      ≡ (if text_eq k m then [] else ids_of (model_data r m).records)
unfolding model_data ids_of
model_data-delete r k m = elim (Bool-cases (text_eq k m)) [
  | inl e ↦
      let at : lookup m (delete k r.records) ≡ none = lookup-delete k m r.records ∙ rw e refl in
      rw (at, model_data) (rw e refl)
  | inr e ↦
      let at : lookup m (delete k r.records) ≡ lookup m r.records =
        lookup-delete k m r.records ∙ rw e refl in
      rw (at, model_data) (rw e refl)
]

module _ (resolve_id : Text → Text) (is_json : Text → Bool) (marshal_text : Text → Option Text)
    (marshal_error : StreamingError → Option Text)
    (convert : Bool → Text → Text × Option StreamingError) (truncate : Text → Text) where
  abbrev after : OpenAiRecorder → Call → OpenAiRecorder
  after = step resolve_id is_json marshal_text marshal_error convert truncate

  abbrev recorded_of : OpenAiRecorder → Text → List Text
  recorded_of = recorded resolve_id is_json marshal_text marshal_error convert truncate

  abbrev note_of : Text → List Text → Call → List Text
  note_of = note resolve_id is_json marshal_text marshal_error convert truncate

  -- A new data with the same IDs changes no IDs.
  recorded-insert :
      (r : OpenAiRecorder) (k m : Text) (v : ModelData)
      → ids_of v.records ≡ recorded_of r k
      → recorded_of (record r { records = insert k v r.records }) m ≡ recorded_of r m
  unfolding recorded
  recorded-insert r k m v same = elim (Bool-cases (text_eq k m)) [
    | inl e ↦
        subst (λ x. recorded_of (record r { records = insert k v r.records }) x ≡ recorded_of r x)
          ((text_eq_iff k m).0 e)
          (ap (λ (d : ModelData). ids_of d.records) (model_data-insert_self r k v) ∙ same)
    | inr e ↦ ap (λ (d : ModelData). ids_of d.records) (model_data-insert_ne r k m v e)
  ]

  responded_ids :
      (r : OpenAiRecorder) (k m : Text) (found : ModelData)
      (changed : RequestResponsePair × List RequestResponsePair)
      → lookup k r.records ≡ some found
      → ids_of changed.1 ≡ ids_of found.records
      → recorded_of
          (record r { records = insert k (record found { records = changed.1 }) r.records })
          m
        ≡ recorded_of r m
  unfolding recorded model_data
  responded_ids r k m found changed l same =
      recorded-insert r k m (record found { records = changed.1 })
        (same ∙ (rw (l, model_data) refl))

  complete_record-id :
      (converted : Text × Option StreamingError) (status : ℕ) (p : RequestResponsePair)
      → (complete_record resolve_id is_json marshal_text marshal_error convert truncate converted
          status p).id
        ≡ p.id
  unfolding complete_record handle_error_recording
  complete_record-id converted status p = elim (Option-cases converted.1) [
    | inl e ↦ rw (e, complete_record) (ground arith)
    | inr (x, e) ↦ rw (e, complete_record) refl
  ]

  requested_ids :
      (r : OpenAiRecorder) (model : Text) (req : RecordedRequest) (now seconds : ℕ) (m : Text)
      (xs : List Text)
      → recorded_of r m ≡ last_ten xs
      → recorded_of (after r (requested model req now seconds)) m
        ≡ last_ten (note_of m xs (requested model req now seconds))
  unfolding step note record_request recorded
  requested_ids r model req now seconds m xs e = elim (Bool-cases (text_eq (resolve_id model) m)) [
    | inl s ↦
        let at : resolve_id model ≡ m = (text_eq_iff (resolve_id model) m).0 s in
        simp s (
          ap (λ k. recorded_of (after r (requested model req now seconds)) k) (sym at)
          ∙ ap (λ (d : ModelData). ids_of d.records) (model_data-insert_self r (resolve_id model) _)
          ∙ push_record-last_ten _ _ xs (ap (λ k. recorded_of r k) at ∙ e)
          ∙ ap (λ k. last_ten (xs ++ record_id k now ∷ [])) at)
    | inr s ↦ simp s (
        ap (λ (d : ModelData). ids_of d.records) (model_data-insert_ne r (resolve_id model) m _ s)
        ∙ e)
  ]

  responded_step :
      (before r : OpenAiRecorder) (id model : Text) (status : ℕ) (body m : Text)
      → recorded_of (after r (responded before id model status body)) m ≡ recorded_of r m
  unfolding step record_response
  responded_step before r id model status body m =
      let change =
        complete_record resolve_id is_json marshal_text marshal_error convert truncate
          (read_response resolve_id is_json marshal_text marshal_error convert truncate before id
            (resolve_id model) body)
          (written_status resolve_id is_json marshal_text marshal_error convert truncate status) in
      elim (Option-cases (lookup (resolve_id model) r.records)) [
        | inl l ↦ rw (l, step, record_response) refl
        | inr (found, l) ↦ elim (Option-cases (change_record id change found.records)) [
          | inl c ↦ rw (l, step, record_response) (rw (c, step, record_response) refl)
          | inr (changed, c) ↦
              rw (l, step, record_response)
                (rw (c, step, record_response)
                  (responded_ids r (resolve_id model) m found changed l (
                    change_record-ids_of id change found.records changed (complete_record-id _ _)
                      c)))
        ]
      ]

  removed_step :
      (r : OpenAiRecorder) (model m : Text)
      → recorded_of (after r (removed model)) m
        ≡ (if text_eq (resolve_id model) m then [] else recorded_of r m)
  unfolding step remove_model recorded
  removed_step r model m = elim (Option-cases (lookup (resolve_id model) r.records)) [
    | inl l ↦
        rw (l, remove_model)
          (elim (Bool-cases (text_eq (resolve_id model) m)) [
            | inl s ↦
                let at : resolve_id model ≡ m = (text_eq_iff (resolve_id model) m).0 s in
                simp s (
                  ap (λ k. recorded_of r k) (sym at)
                  ∙ (unfold model_data ids_of in rw (l, model_data) refl))
            | inr s ↦ simp s refl
          ])
    | inr (found, l) ↦ rw (l, remove_model) (model_data-delete r (resolve_id model) m)
  ]

  received_step : (r : OpenAiRecorder) (id : Text) → (receive r id).0.records ≡ r.records
  unfolding receive
  received_step r id = ground arith

  recorded-step :
      (r : OpenAiRecorder) (c : Call) (m : Text) (xs : List Text)
      → recorded_of r m ≡ last_ten xs
      → recorded_of (after r c) m ≡ last_ten (note_of m xs c)
  unfolding step note
  recorded-step r (configured model none) m xs e = unfold set_config_for_model in e
  recorded-step r (configured model (some config)) m xs e =
      unfold set_config_for_model recorded in
      (recorded-insert r (resolve_id model) m
          (record (model_data r (resolve_id model)) { config = config }) refl
        ∙ e)
  recorded-step r (requested model req now seconds) m xs e =
      requested_ids r model req now seconds m xs e
  recorded-step r (responded before id model status body) m xs e =
      responded_step before r id model status body m ∙ e
  recorded-step r (removed model) m xs e = elim (Bool-cases (text_eq (resolve_id model) m)) [
    | inl s ↦ simp s (removed_step r model m ∙ rw s refl)
    | inr s ↦ simp s (removed_step r model m ∙ rw s e)
  ]
  recorded-step r (announced event) m xs e =
      unfold broadcast_to_subscribers recorded model_data in e
  recorded-step r (subscribed id) m xs e = unfold subscribe recorded model_data in e
  recorded-step r (unsubscribed id) m xs e = unfold unsubscribe recorded model_data in e
  recorded-step r (received id) m xs e =
      unfold recorded model_data in
      (ap (λ recs. recorded_of (record r { records = recs }) m) (received_step r id) ∙ e)

  recorded-run :
      (r : OpenAiRecorder) (cs : List Call) (m : Text) (xs : List Text)
      → recorded_of r m ≡ last_ten xs
      → recorded_of (run resolve_id is_json marshal_text marshal_error convert truncate r cs) m
        ≡ last_ten (notes resolve_id is_json marshal_text marshal_error convert truncate m xs cs)
  unfolding run notes
  recorded-run r [] m xs e = e
  recorded-run r (c ∷ cs) m xs e =
      recorded-run (after r c) cs m (note_of m xs c) (recorded-step r c m xs e)

  -- After any calls of the recorder's methods the records of a model are, in order, those of the
  -- last ten requests of it that were recorded since it was removed last.
  pub recorded-run_new :
      (cs : List Call) (m : Text)
      → recorded_of
          (run resolve_id is_json marshal_text marshal_error convert truncate new_open_ai_recorder
            cs)
          m
        ≡ last_ten (notes resolve_id is_json marshal_text marshal_error convert truncate m [] cs)
  recorded-run_new cs m =
      recorded-run new_open_ai_recorder cs m []
        (unfold recorded model_data lookup ids_of new_open_ai_recorder in refl)

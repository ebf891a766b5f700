-- ===== src/Recorder/Settled.antt =====
-- What holds of the records and the channels of pkg/metrics/openai_recorder.go after any run.
use model_runner.Common.{
  ◌≤◌, ◌<◌, suc, ◌≡◌, ◌≢◌, ◌⊎◌, inl, inr, refl, sym, ap, ◌∙◌, subst, List, [], ◌∷◌, ◌++◌, none,
  some, arith, Text, text_eq, text_eq_iff, length, drop, length-append, length-drop, ◌==◌, ltb,
  Bool-cases, Option-cases,
}
use model_runner.Common.Assoc.{lookup, insert, delete, lookup-insert, lookup-delete, text_eq_inst}
use model_runner.Recorder.Records.{
  RequestResponsePair, ModelData, ModelRecordsResponse, OpenAiRecorder, model_data, push_record,
  change_record,
}
use model_runner.Common.{All}
use model_runner.Recorder.Records.{send_each}
use model_runner.Recorder.Window.{model_data-insert_self, model_data-insert_ne}

-- A record has a response or an error, and an error if its status is one.
pub record IsSettled (p : RequestResponsePair) : Type 0 where
  pub one_of : (p.response ≡ []) ⊎ (p.error_text ≡ [])
  pub error_told : 400 ≤ p.status_code → p.error_text ≢ []

-- The records of a model: ten at most, all settled.
pub record IsBounded (records : List RequestResponsePair) : Type 0 where
  pub few : length records ≤ 10
  pub settled : All IsSettled records

-- Every model's records and every channel are bounded.
pub record IsValid (r : OpenAiRecorder) : Type 0 where
  pub models : (m : Text) → IsBounded (model_data r m).records
  pub channels :
      (id : Text) (waiting : List (List ModelRecordsResponse))
      → lookup id r.subscribers ≡ some waiting
      → length waiting ≤ 100

All-append :
    (ps : List RequestResponsePair) (p : RequestResponsePair)
    → All IsSettled ps
    → IsSettled p
    → All IsSettled (ps ++ p ∷ [])
All-append [] p a s = (s, tt)
All-append (q ∷ ps) p a s = (a.0, All-append ps p a.1 s)

All-drop_one : (ps : List RequestResponsePair) → All IsSettled ps → All IsSettled (drop 1 ps)
All-drop_one [] a = tt
All-drop_one (p ∷ []) a = tt
All-drop_one (p ∷ q ∷ ps) a = a.1

pub push_record-IsBounded :
    (ps : List RequestResponsePair) (p : RequestResponsePair)
    → IsBounded ps
    → IsSettled p
    → IsBounded (push_record ps p)
unfolding push_record
push_record-IsBounded ps p b s = elim (Bool-cases (length ps == 10)) [
  | inl full ↦
      let len = length-append (drop 1 ps) (p ∷ []) in
      let len' = length-drop 1 ps in
      rw (full, push_record)
        (record {
          few = omega (arith, b.few, len, len');
          settled = All-append (drop 1 ps) p (All-drop_one ps b.settled) s;
        })
  | inr free ↦
      let len = length-append ps (p ∷ []) in
      let few : length ps ≤ 10 = b.few in
      let room : length ps < 10 = grind arith in
      rw (free, push_record) (record { few = omega arith; settled = All-append ps p b.settled s })
]

pub change_record-IsBounded :
    (id : Text) (change : RequestResponsePair → RequestResponsePair) (ps : List RequestResponsePair)
    (found : RequestResponsePair × List RequestResponsePair)
    → ((p : RequestResponsePair) → IsSettled (change p))
    → change_record id change ps ≡ some found
    → All IsSettled ps
    → All IsSettled found.1 × (length found.1 ≡ length ps)
unfolding change_record
change_record-IsBounded id change [] found settles e a = absurd (ground arith)
change_record-IsBounded id change (p ∷ ps) found settles e a = elim (Bool-cases (text_eq p.id id)) [
  | inl same ↦
      let at : (change p, change p ∷ ps) ≡ found = ground arith in
      subst
        (λ (f : RequestResponsePair × List RequestResponsePair).
          All IsSettled f.1 × (length f.1 ≡ length (p ∷ ps)))
        at ((settles p, a.1), refl)
  | inr other ↦ elim (Option-cases (change_record id change ps)) [
    | inl none_found ↦ absurd (ground arith)
    | inr (below, b) ↦
        let at : (below.0, p ∷ below.1) ≡ found = ground arith in
        let (all, len) = change_record-IsBounded id change ps below settles b a.1 in
        subst
          (λ (f : RequestResponsePair × List RequestResponsePair).
            All IsSettled f.1 × (length f.1 ≡ length (p ∷ ps)))
          at ((a.0, all), ap suc len)
  ]
]

some-injective : {A : Type 0} {a b : A} → some a ≡ some b → a ≡ b
some-injective {A} {a} {b} e = ap (λ o. elim o as (λ _. A) [ none ↦ a | some x ↦ x ]) e

pub lookup-send_each :
    (event : List ModelRecordsResponse) (id : Text)
    (subs : List (Text × List (List ModelRecordsResponse)))
    → ((w : List (List ModelRecordsResponse)) → lookup id subs ≡ some w → length w ≤ 100)
    → (waiting : List (List ModelRecordsResponse)) → lookup id (send_each event subs) ≡ some waiting
    → length waiting ≤ 100
unfolding lookup send_each
lookup-send_each event id [] h waiting e = absurd (ground arith)
lookup-send_each event id ((i, w) ∷ subs) h waiting e = elim (Bool-cases (text_eq i id)) [
  | inl same ↦
      let old : length w ≤ 100 = h w (simp same refl) in
      let len = length-append w (event ∷ []) in
      elim (Bool-cases (ltb (length w) 100)) [
        | inl room ↦
            let at : w ++ event ∷ [] ≡ waiting = some-injective (simp (same, room) at e) in
            subst (λ x. length x ≤ 100) at (let lt : length w < 100 = ground arith in omega arith)
        | inr full ↦
            let at : w ≡ waiting = some-injective (simp (same, full) at e) in
            subst (λ x. length x ≤ 100) at old
      ]
  | inr other ↦ lookup-send_each event id subs (λ x q. h x (simp other q)) waiting (simp other at e)
]

pub IsBounded-insert :
    (r : OpenAiRecorder) (k : Text) (v : ModelData)
    → IsBounded v.records
    → ((m : Text) → IsBounded (model_data r m).records)
    → (m : Text) → IsBounded (model_data (record r { records = insert k v r.records }) m).records
IsBounded-insert r k v b models m = elim (Bool-cases (text_eq k m)) [
  | inl e ↦
      subst (λ x. IsBounded (model_data (record r { records = insert k v r.records }) x).records)
        ((text_eq_iff k m).0 e)
        (subst (λ (d : ModelData). IsBounded d.records) (sym (model_data-insert_self r k v)) b)
  | inr e ↦
      subst (λ (d : ModelData). IsBounded d.records) (sym (model_data-insert_ne r k m v e))
        (models m)
]

pub IsBounded-delete :
    (r : OpenAiRecorder) (k : Text)
    → ((m : Text) → IsBounded (model_data r m).records)
    → (m : Text) → IsBounded (model_data (record r { records = delete k r.records }) m).records
unfolding model_data
IsBounded-delete r k models m = elim (Bool-cases (text_eq k m)) [
  | inl e ↦
      let at : lookup m (delete k r.records) ≡ none = lookup-delete k m r.records ∙ rw e refl in
      rw (at, model_data) (record { few = omega arith; settled = tt })
  | inr e ↦
      let at : lookup m (delete k r.records) ≡ lookup m r.records =
        lookup-delete k m r.records ∙ rw e refl in
      rw (at, model_data) (models m)
]

-- The channels after one of them was set.
pub channels-insert :
    (subs : List (Text × List (List ModelRecordsResponse))) (k : Text)
    (v : List (List ModelRecordsResponse))
    → length v ≤ 100
    → ((id : Text) (w : List (List ModelRecordsResponse))
        → lookup id subs ≡ some w
        → length w ≤ 100)
    → (id : Text) (w : List (List ModelRecordsResponse)) → lookup id (insert k v subs) ≡ some w
    → length w ≤ 100
channels-insert subs k v small h id w e = elim (Bool-cases (text_eq k id)) [
  | inl s ↦
      let at : some v ≡ some w = sym (lookup-insert k id v subs ∙ rw s refl) ∙ e in
      subst (λ x. length x ≤ 100) (some-injective at) small
  | inr s ↦ h id w (sym (lookup-insert k id v subs ∙ rw s refl) ∙ e)
]

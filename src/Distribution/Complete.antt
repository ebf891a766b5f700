-- ===== src/Distribution/Complete.antt =====
-- Write of store.go keeps every file of every model of the index on disk.
use model_runner.Common.{
  ◌≡◌, inl, inr, refl, sym, ap, ◌∙◌, subst, Bool, true, false, List, [], ◌∷◌, ◌++◌, Option, arith,
  Text, text_eq, Bool-cases, Option-cases, Occurs, map,
}
use model_runner.Distribution.Hash.{Hash, hash_string, hash_ok, new_hash}
use model_runner.Distribution.HashLaws.{IsSha256, new_hash_iff}
use model_runner.Distribution.Reference.{Named, Options, Tag, new_tag}
use model_runner.Distribution.Index.{
  IndexEntry, ok, bare_tag, matches_reference, tag_entry, untag_entry, retag, tag_index,
}
use model_runner.Distribution.LocalStore.{
  Disk, Faults, IndexWrite, index_written, index_kept, index_lost, index_unlaid, written_index,
  add_tags, tag_each, write_index,
}
use model_runner.Distribution.Blobs.{has_hash}
use model_runner.Distribution.Rollback.{Result-cases, Tagged-cases}
use model_runner.Distribution.Write.{
  WriteFaults, Attempt, all_blobs_exist, has_stored_blob, tag_written,
}

-- Every model of the new index has the files of one of the old.
abbrev pub HasOldFiles : List IndexEntry → List IndexEntry → Type 0
HasOldFiles old models =
    (m : IndexEntry) → Occurs m models → (m' : IndexEntry) × Occurs m' old × (m'.files ≡ m.files)

-- However the write of a new index ends.
written-HasOldFiles :
    (w : IndexWrite) (old new : List IndexEntry)
    → HasOldFiles old new
    → HasOldFiles old (written_index w old new)
unfolding written_index
written-HasOldFiles index_written old new h = h
written-HasOldFiles index_kept old new h = λ m q. (m, q, refl)
written-HasOldFiles index_lost old new h = λ m q. elim q [ ]
written-HasOldFiles index_unlaid old new h = h

module _ (parse_named : Text → Option Named) (o : Options) where
  tag_entry-files : (e : IndexEntry) (t : Tag) → (tag_entry parse_named o e t).files ≡ e.files
  unfolding tag_entry
  tag_entry-files e t = ground arith

  retag-HasOldFiles :
      (ref : Text) (t : Tag) (models : List IndexEntry)
      → HasOldFiles models (retag parse_named o ref t models).0
  unfolding retag untag_entry
  retag-HasOldFiles ref t [] m q = elim q [ ]
  retag-HasOldFiles ref t (e ∷ es) m q = elim (Bool-cases (matches_reference parse_named o e ref)) [
    | inl hit ↦ elim (simp hit at q) [
      | inl here ↦ (e, inl refl, sym (tag_entry-files e t) ∙ ap (λ (x : IndexEntry). x.files) here)
      | inr below ↦
          let (m', there, same) = retag-HasOldFiles ref t es m below in (m', inr there, same)
    ]
    | inr miss ↦ elim (simp miss at q) [
      | inl here ↦ (e, inl refl, ap (λ (x : IndexEntry). x.files) here)
      | inr below ↦
          let (m', there, same) = retag-HasOldFiles ref t es m below in (m', inr there, same)
    ]
  ]

  tag_index-HasOldFiles :
      (models models' : List IndexEntry) (ref t : Text)
      → tag_index parse_named o models ref t ≡ ok models'
      → HasOldFiles models models'
  unfolding tag_index
  tag_index-HasOldFiles models models' ref t e = elim (Bool-cases (text_eq (bare_tag ref t) [])) [
    | inl empty ↦
        let same : models ≡ models' = ground arith in
        subst (HasOldFiles models) same (λ m q. (m, q, refl))
    | inr given ↦ elim (Option-cases (new_tag parse_named o (bare_tag ref t))) [
      | inl bad ↦ absurd (ground arith)
      | inr (tag_ref, parsed) ↦
          let same : (retag parse_named o ref tag_ref models).0 ≡ models' = ground arith in
          subst (HasOldFiles models) same (retag-HasOldFiles ref tag_ref models)
    ]
  ]

  tag_each-HasOldFiles :
      (models models' : List IndexEntry) (ref : Text) (tags : List Text)
      → tag_each parse_named o models ref tags ≡ ok models'
      → HasOldFiles models models'
  unfolding tag_each
  tag_each-HasOldFiles models models' ref [] e =
      let same : models ≡ models' = ground arith in
      subst (HasOldFiles models) same (λ m q. (m, q, refl))
  tag_each-HasOldFiles models models' ref (t ∷ ts) e =
      elim (Result-cases (tag_index parse_named o models ref t)) [
        | inr (x, bad) ↦ absurd (ground arith)
        | inl (next, tagged) ↦
            let rest : tag_each parse_named o next ref ts ≡ ok models' =
              rw (tagged, tag_each) at e in
            λ m q.
              let (m₁, q₁, same₁) = tag_each-HasOldFiles next models' ref ts rest m q in
              let (m₂, q₂, same₂) = tag_index-HasOldFiles models next ref t tagged m₁ q₁ in
              (m₂, q₂, same₂ ∙ same₁)
      ]

  pub add_tags-HasOldFiles :
      (calls : Faults) (d : Disk) (ref : Text) (tags : List Text)
      → HasOldFiles d.index (add_tags parse_named o calls d ref tags).0.index
  unfolding add_tags write_index
  add_tags-HasOldFiles calls d ref tags =
      let unchanged : HasOldFiles d.index d.index = λ m q. (m, q, refl) in
      elim (Bool-cases calls.read_index) [
        | inl e ↦ rw (e, add_tags) unchanged
        | inr e ↦ elim (Result-cases (tag_each parse_named o d.index ref tags)) [
          | inr (x, t) ↦ rw (e, add_tags) (rw (t, add_tags) unchanged)
          | inl (models, t) ↦
              rw (e, add_tags)
                (rw (t, add_tags)
                  (written-HasOldFiles calls.write_index d.index models
                    (tag_each-HasOldFiles d.index models ref tags t)))
        ]
      ]

  pub tag_written-HasOldFiles :
      (faults : WriteFaults) (a : Attempt) (digest : Hash) (tags : List Text)
      → HasOldFiles a.disk.index (tag_written parse_named o faults a digest tags).disk.index
  unfolding tag_written
  tag_written-HasOldFiles faults a digest tags =
      let calls : Faults = record {
        read_index = faults.read_tags;
        write_index = faults.write_tags;
        remove_manifest = λ _. false;
        remove_bundle = λ _. false;
        remove_blob = λ _. false;
      } in
      let old = add_tags-HasOldFiles calls a.disk (hash_string digest) tags in
      elim (Tagged-cases (add_tags parse_named o calls a.disk (hash_string digest) tags).1) [
        | inl e ↦ rw (e, tag_written) old
        | inr (x, e) ↦ rw (e, tag_written) old
      ]

one_hash : (f : Text) (a b : Hash) → new_hash f ≡ hash_ok a → new_hash f ≡ hash_ok b → a ≡ b
one_hash f a b p q = ground arith

pub all_blobs_exist-has_hash :
    (stats : Hash → Bool) (d : Disk) (hs : List Hash)
    → all_blobs_exist stats d hs ≡ true
    → (h : Hash) → Occurs h hs
    → has_hash h d.blobs ≡ true
unfolding all_blobs_exist has_stored_blob
all_blobs_exist-has_hash stats d [] e h q = elim q [ ]
all_blobs_exist-has_hash stats d (g ∷ hs) e h q = elim q [
  | inl same ↦ subst (λ x. has_hash x d.blobs ≡ true) same (ground arith)
  | inr below ↦ all_blobs_exist-has_hash stats d hs (ground arith) h below
]

-- The files of a manifest on disk, each the hash of a sha256 digest.
pub files_there :
    (blobs : List Hash) (hs : List Hash) (config : Hash)
    → ((h : Hash) → Occurs h hs → IsSha256 h × (has_hash h blobs ≡ true))
    → IsSha256 config
    → has_hash config blobs ≡ true
    → (f : Text) (h : Hash) → Occurs f (map hash_string hs ++ hash_string config ∷ [])
    → new_hash f ≡ hash_ok h
    → has_hash h blobs ≡ true
files_there blobs [] config there sha stored f h q e = elim q [
  | inl same ↦
      subst (λ x. has_hash x blobs ≡ true)
        (one_hash f config h ((new_hash_iff f config).1 (sha, sym same)) e) stored
  | inr past ↦ elim past [ ]
]
files_there blobs (g ∷ hs) config there sha stored f h q e = elim q [
  | inl same ↦
      let (sha', stored') = there g (inl refl) in
      subst (λ x. has_hash x blobs ≡ true)
        (one_hash f g h ((new_hash_iff f g).1 (sha', sym same)) e) stored'
  | inr below ↦ files_there blobs hs config (λ x o. there x (inr o)) sha stored f h below e
]

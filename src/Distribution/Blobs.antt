-- ===== src/Distribution/Blobs.antt =====
-- What Delete of store.go leaves on disk.
use model_runner.Common.{
  ℕ, ◌<◌, ◌≡◌, ◌≢◌, ◌↔◌, inl, inr, refl, sym, ◌∙◌, ap, subst, Bool, true, false, List, [], ◌∷◌,
  Option, none, some, arith, Text, text_eq, text_eq_iff, ltb, if◌then◌else◌, Bool-cases,
  Option-cases, Occurs,
}
use model_runner.Distribution.Hash.{Hash, hash_ok, HashError, hash_error, new_hash}
use model_runner.Distribution.HashLaws.{new_hash_iff, HashResult-cases}
use model_runner.Distribution.Reference.{Named, Options}
use model_runner.Distribution.Index.{IndexEntry, matches_reference, find, remove}
use model_runner.Distribution.LocalStore.{
  Disk, Faults, hash_eq, without, remove_blob, count_files, blob_refs, delete_blobs, delete_model,
  write_index, index_written, written_index, remove_bundle, remove_manifest,
}

unfoldable pub has_hash : Hash → List Hash → Bool
has_hash h [] = false
has_hash h (g ∷ gs) = if hash_eq g h then true else has_hash h gs

hash_eq_iff : (a b : Hash) → (hash_eq a b ≡ true) ↔ (a ≡ b)
unfolding hash_eq
hash_eq_iff a b = ground (arith, text_eq_iff a.algorithm b.algorithm, text_eq_iff a.hex b.hex)

pub has_hash-without :
    (h g : Hash) (gs : List Hash) → g ≢ h → has_hash h gs ≡ true → has_hash h (without g gs) ≡ true
unfolding has_hash without
has_hash-without h g [] other there = there
has_hash-without h g (x ∷ gs) other there =
    let ih = has_hash-without h g gs other in
    let at = hash_eq_iff x g in
    let here = hash_eq_iff x h in
    elim (Bool-cases (hash_eq x g)) [
      | inl gone ↦ simp gone (ih (ground arith))
      | inr stays ↦ elim (Bool-cases (hash_eq x h)) [
        | inl found ↦ simp stays (simp found refl)
        | inr below ↦ simp stays (simp below (ih (ground arith)))
      ]
    ]

remove_blob-ne :
    (faults : Faults) (blobs : List Hash) (g h : Hash)
    → g ≢ h
    → has_hash h blobs ≡ true
    → has_hash h (remove_blob faults blobs g) ≡ true
unfolding remove_blob
remove_blob-ne faults blobs g h other there = ground (arith, has_hash-without h g blobs other there)

-- Two texts of one hash are the same.
same_text : (f f' : Text) (h : Hash) → new_hash f ≡ hash_ok h → new_hash f' ≡ hash_ok h → f ≡ f'
same_text f f' h e e' = ((new_hash_iff f h).0 e).1 ∙ sym ((new_hash_iff f' h).0 e').1

delete_blobs-kept :
    (faults : Faults) (refs : Text → ℕ) (files : List Text) (blobs : List Hash) (f : Text)
    (h : Hash)
    → new_hash f ≡ hash_ok h
    → 0 < refs f
    → has_hash h blobs ≡ true
    → has_hash h (delete_blobs faults refs files blobs) ≡ true
unfolding delete_blobs
delete_blobs-kept faults refs [] blobs f h e used there = there
delete_blobs-kept faults refs (g ∷ gs) blobs f h e used there = elim (Bool-cases (ltb 0 (refs g))) [
  | inl skip ↦ simp skip (delete_blobs-kept faults refs gs blobs f h e used there)
  | inr free ↦ elim (HashResult-cases (new_hash g)) [
    | inr (err, bad) ↦
        simp free (rw (bad, delete_blobs) (delete_blobs-kept faults refs gs blobs f h e used there))
    | inl (g', good) ↦
        let other : g' ≢ h = λ q.
          let same = same_text g f h (good ∙ ap hash_ok q) e in
          let zero_refs = ap refs same in absurd (ground arith) in
        simp free (
          rw (good, delete_blobs)
            (delete_blobs-kept faults refs gs (remove_blob faults blobs g') f h e used
              (remove_blob-ne faults blobs g' h other there)))
  ]
]

count_files-Occurs : (f : Text) (files : List Text) → Occurs f files → 0 < count_files f files
unfolding count_files
count_files-Occurs f [] o = elim o [ ]
count_files-Occurs f (g ∷ gs) o = elim o [
  | inl e ↦ ground (arith, text_eq_iff g f)
  | inr q ↦ ground (arith, count_files-Occurs f gs q)
]

blob_refs-Occurs :
    (id : Text) (models : List IndexEntry) (m : IndexEntry) (f : Text)
    → Occurs m models
    → text_eq m.id id ≡ false
    → Occurs f m.files
    → 0 < blob_refs id models f
unfolding blob_refs
blob_refs-Occurs id [] m f o other listed = elim o [ ]
blob_refs-Occurs id (x ∷ xs) m f o other listed = elim o [
  | inl e ↦
      let count = count_files-Occurs f m.files listed in
      let same = ap (λ (y : IndexEntry). count_files f y.files) e in
      let away = ap (λ (y : IndexEntry). text_eq y.id id) e in ground arith
  | inr q ↦ ground (arith, blob_refs-Occurs id xs m f q other listed)
]

-- The files of a model are on disk.
abbrev pub HasFiles : List Hash → IndexEntry → Type 0
HasFiles blobs m =
    (f : Text) (h : Hash) → Occurs f m.files → new_hash f ≡ hash_ok h → has_hash h blobs ≡ true

-- Every file of every model of the index is on disk.
abbrev pub IsComplete : Disk → Type 0
IsComplete d = (m : IndexEntry) → Occurs m d.index → HasFiles d.blobs m

module _ (parse_named : Text → Option Named) (o : Options) where
  matches_own_id :
      (m : IndexEntry) (ref : Text)
      → matches_reference parse_named o m ref ≡ false
      → text_eq m.id ref ≡ false
  unfolding matches_reference
  matches_own_id m ref h = elim (Bool-cases (text_eq m.id ref)) [
    | inl e ↦ absurd (ground arith)
    | inr e ↦ e
  ]

  Occurs-remove :
      (models : List IndexEntry) (ref : Text) (m : IndexEntry)
      → Occurs m (remove parse_named o models ref)
      → Occurs m models × (text_eq m.id ref ≡ false)
  unfolding remove
  Occurs-remove [] ref m q = elim q [ ]
  Occurs-remove (x ∷ xs) ref m q = elim (Bool-cases (matches_reference parse_named o x ref)) [
    | inl hit ↦ let (there, other) = Occurs-remove xs ref m (simp hit at q) in (inr there, other)
    | inr miss ↦ elim (simp miss at q) as (λ _. Occurs m (x ∷ xs) × (text_eq m.id ref ≡ false)) [
      | inl e ↦
          (inl e, ap (λ (y : IndexEntry). text_eq y.id ref) (sym e) ∙ matches_own_id x ref miss)
      | inr below ↦ let (there, other) = Occurs-remove xs ref m below in (inr there, other)
    ]
  ]

  kept_files :
      (faults : Faults) (d : Disk) (model m : IndexEntry)
      → IsComplete d
      → Occurs m (remove parse_named o d.index model.id)
      → HasFiles (delete_blobs faults (blob_refs model.id d.index) model.files d.blobs) m
  kept_files faults d model m complete q = λ f h listed e.
      let (there, other) = Occurs-remove d.index model.id m q in
      delete_blobs-kept faults (blob_refs model.id d.index) model.files d.blobs f h e
        (blob_refs-Occurs model.id d.index m f there other listed) (complete m there f h listed e)

  -- The disk after a deletion that goes through.
  unfoldable pub disk_after : Faults → Disk → IndexEntry → Hash → Disk
  disk_after faults d model digest =
      let d₁ = remove_bundle faults (remove_manifest faults d digest) digest in
      write_index faults
        (record d₁ {
          blobs = delete_blobs faults (blob_refs model.id d.index) model.files d₁.blobs;
        })
        (remove parse_named o d.index model.id)

  pub delete_model_found :
      (faults : Faults) (d : Disk) (ref : Text) (model : IndexEntry) (digest : Hash)
      → faults.read_index ≡ false
      → find parse_named o d.index ref ≡ some model
      → new_hash model.id ≡ hash_ok digest
      → (delete_model parse_named o faults d ref).0 ≡ disk_after faults d model digest
  unfolding delete_model disk_after
  delete_model_found faults d ref model digest read found good =
      simp read (rw (found, delete_model) (rw (good, delete_model) refl))

  delete_model_unread :
      (faults : Faults) (d : Disk) (ref : Text)
      → faults.read_index ≡ true
      → (delete_model parse_named o faults d ref).0 ≡ d
  unfolding delete_model
  delete_model_unread faults d ref read = ground arith

  delete_model_missing :
      (faults : Faults) (d : Disk) (ref : Text)
      → find parse_named o d.index ref ≡ none
      → (delete_model parse_named o faults d ref).0 ≡ d
  unfolding delete_model
  delete_model_missing faults d ref missing = ground arith

  delete_model_bad :
      (faults : Faults) (d : Disk) (ref : Text) (model : IndexEntry) (e : HashError)
      → find parse_named o d.index ref ≡ some model
      → new_hash model.id ≡ hash_error e
      → (delete_model parse_named o faults d ref).0 ≡ d
  unfolding delete_model
  delete_model_bad faults d ref model e found bad = ground arith

  disk_after-blobs :
      (faults : Faults) (d : Disk) (model : IndexEntry) (digest : Hash)
      → (disk_after faults d model digest).blobs
        ≡ delete_blobs faults (blob_refs model.id d.index) model.files d.blobs
  unfolding disk_after write_index written_index remove_bundle remove_manifest
  disk_after-blobs faults d model digest = ground arith

  disk_after-index :
      (faults : Faults) (d : Disk) (model : IndexEntry) (digest : Hash)
      → faults.write_index ≡ index_written
      → (disk_after faults d model digest).index ≡ remove parse_named o d.index model.id
  unfolding disk_after write_index written_index remove_bundle remove_manifest
  disk_after-index faults d model digest written = rw written refl

  disk_after-IsComplete :
      (faults : Faults) (d : Disk) (model : IndexEntry) (digest : Hash)
      → faults.write_index ≡ index_written
      → IsComplete d
      → IsComplete (disk_after faults d model digest)
  disk_after-IsComplete faults d model digest written complete = λ m q.
      subst (λ b. HasFiles b m) (sym (disk_after-blobs faults d model digest))
        (kept_files faults d model m complete
          (subst (Occurs m) (disk_after-index faults d model digest written) q))

  -- If every file of every model of the index is on disk, this is so after Delete too, whatever
  -- removals fail, as long as the index can be written.
  pub delete_model-IsComplete :
      (faults : Faults) (d : Disk) (ref : Text)
      → faults.write_index ≡ index_written
      → IsComplete d
      → IsComplete (delete_model parse_named o faults d ref).0
  delete_model-IsComplete faults d ref written complete = elim (Bool-cases faults.read_index) [
    | inl unread ↦ subst IsComplete (sym (delete_model_unread faults d ref unread)) complete
    | inr read ↦ elim (Option-cases (find parse_named o d.index ref)) [
      | inl missing ↦ subst IsComplete (sym (delete_model_missing faults d ref missing)) complete
      | inr (model, found) ↦ elim (HashResult-cases (new_hash model.id)) [
        | inr (e, bad) ↦
            subst IsComplete (sym (delete_model_bad faults d ref model e found bad)) complete
        | inl (digest, good) ↦
            subst IsComplete (sym (delete_model_found faults d ref model digest read found good))
              (disk_after-IsComplete faults d model digest written complete)
      ]
    ]
  ]

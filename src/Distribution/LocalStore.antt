-- ===== src/Distribution/LocalStore.antt =====
-- Delete, AddTags, RemoveTags and MigrateTags of pkg/distribution/internal/store/store.go, with
-- the blobs, manifests and bundles on disk as lists of their hashes. Which calls of the file system
-- fail is a parameter.
use model_runner.Common.{
  ℕ, ◌+◌, Bool, true, false, not, ltb, List, [], ◌∷◌, ◌++◌, Option, none, some, Text, text_eq, ◌==◌,
  if◌then◌else◌, ◌&&◌,
}
use model_runner.Distribution.Hash.{Hash, hash_ok, hash_error, new_hash, validate_hash}
use model_runner.Distribution.Reference.{Named, Options, tag_string}
use model_runner.Distribution.Index.{
  IndexEntry, IndexError, Result, ok, error, find, remove, tag_index, untag_index,
}

pub record Disk : Type 0 where
  pub index : List IndexEntry
  pub manifests : List Hash
  pub bundles : List Hash
  pub blobs : List Hash

-- How writeIndex ends. A failure can leave the old file; it can lose it, when writeFile has removed
-- it to replace it, and readIndex then gives the empty index; and it can leave the new one, when
-- ensureLayout fails after the write.
pub data IndexWrite : Type 0 where
  index_written index_kept index_lost index_unlaid : IndexWrite

unfoldable pub write_fails : IndexWrite → Bool
write_fails index_written = false
write_fails index_kept = true
write_fails index_lost = true
write_fails index_unlaid = true

-- What is read as the index after a write of `new` over `old`.
unfoldable pub written_index : IndexWrite → List IndexEntry → List IndexEntry → List IndexEntry
written_index index_written old new = new
written_index index_kept old new = old
written_index index_lost old new = []
written_index index_unlaid old new = new

-- Which calls fail.
pub record Faults : Type 0 where
  pub read_index : Bool
  pub write_index : IndexWrite
  pub remove_manifest : Hash → Bool
  pub remove_bundle : Hash → Bool
  pub remove_blob : Hash → Bool

pub data StoreError : Type 0 where
  read_failed write_failed not_found bad_digest : StoreError
  tagging : IndexError → StoreError
  untagging : IndexError → StoreError
  untagging_unsaved : IndexError → StoreError

unfoldable pub hash_eq : Hash → Hash → Bool
hash_eq a b = text_eq a.algorithm b.algorithm && text_eq a.hex b.hex

unfoldable pub without : Hash → List Hash → List Hash
without h [] = []
without h (g ∷ gs) = let rest = without h gs in if hash_eq g h then rest else g ∷ rest

unfoldable pub write_index : Faults → Disk → List IndexEntry → Disk
write_index faults d models = record d { index = written_index faults.write_index d.index models }

unfoldable pub remove_manifest : Faults → Disk → Hash → Disk
remove_manifest faults d h =
    if faults.remove_manifest h then d else record d { manifests = without h d.manifests }

unfoldable pub remove_bundle : Faults → Disk → Hash → Disk
remove_bundle faults d h =
    if faults.remove_bundle h then d else record d { bundles = without h d.bundles }

-- An unsafe hash has no path and is not removed.
unfoldable pub remove_blob : Faults → List Hash → Hash → List Hash
remove_blob faults blobs h =
    if not (validate_hash h) then blobs else if faults.remove_blob h then blobs else without h blobs

unfoldable pub count_files : Text → List Text → ℕ
count_files f [] = 0
count_files f (g ∷ gs) = if text_eq g f then 1 + count_files f gs else count_files f gs

-- `blobRefs[f]` after the loop over the models, without the one that is deleted.
unfoldable pub blob_refs : Text → List IndexEntry → Text → ℕ
blob_refs id [] f = 0
blob_refs id (m ∷ ms) f =
    if text_eq m.id id then blob_refs id ms f else count_files f m.files + blob_refs id ms f

-- The loop over the files of the model.
unfoldable pub delete_blobs : Faults → (Text → ℕ) → List Text → List Hash → List Hash
delete_blobs faults refs [] blobs = blobs
delete_blobs faults refs (f ∷ fs) blobs =
    if ltb 0 (refs f) then delete_blobs faults refs fs blobs else elim (new_hash f) [
      | hash_error e ↦ delete_blobs faults refs fs blobs
      | hash_ok h ↦ delete_blobs faults refs fs (remove_blob faults blobs h)
    ]

pub data Deleted : Type 0 where
  deleted : Text → List Text → Deleted
  not_deleted : StoreError → Deleted

pub data Tagged : Type 0 where
  all_done : Tagged
  failed : StoreError → Tagged

module _ (parse_named : Text → Option Named) (o : Options) where
  unfoldable pub delete_model : Faults → Disk → Text → Disk × Deleted
  delete_model faults d ref =
      if faults.read_index
      then (d, not_deleted read_failed)
      else elim (find parse_named o d.index ref) [
        | none ↦ (d, not_deleted not_found)
        | some model ↦ elim (new_hash model.id) [
          | hash_error e ↦ (d, not_deleted bad_digest)
          | hash_ok digest ↦
              let d₁ = remove_bundle faults (remove_manifest faults d digest) digest in
              let d₂ = record d₁ {
                blobs = delete_blobs faults (blob_refs model.id d.index) model.files d₁.blobs;
              } in
              (
                write_index faults d₂ (remove parse_named o d.index model.id),
                if write_fails faults.write_index
                    then not_deleted write_failed
                    else deleted model.id model.tags,
              )
        ]
      ]

  -- The loop of AddTags.
  unfoldable pub tag_each : List IndexEntry → Text → List Text → Result (List IndexEntry)
  tag_each models ref [] = ok models
  tag_each models ref (t ∷ ts) = elim (tag_index parse_named o models ref t) [
    | error e ↦ error e
    | ok models' ↦ tag_each models' ref ts
  ]

  unfoldable pub add_tags : Faults → Disk → Text → List Text → Disk × Tagged
  add_tags faults d ref new_tags =
      if faults.read_index then (d, failed read_failed) else elim (tag_each d.index ref new_tags) [
        | error e ↦ (d, failed (tagging e))
        | ok models ↦ (
          write_index faults d models,
          if write_fails faults.write_index then failed write_failed else all_done,
        )
      ]

  -- The loop of RemoveTags, with what it returns. On an error it writes `newIndex`, which is the
  -- empty index then.
  unfoldable pub untag_each :
      Faults → Disk → List IndexEntry → List Text → List Text → Disk × List Text × Tagged
  untag_each faults d models [] tag_refs = (
    write_index faults d models,
    tag_refs,
    if write_fails faults.write_index then failed write_failed else all_done,
  )
  untag_each faults d models (t ∷ ts) tag_refs = elim (untag_index parse_named o models t) [
    | error e ↦ (
      write_index faults d [],
      tag_refs,
      if write_fails faults.write_index then failed (untagging_unsaved e) else failed (untagging e),
    )
    | ok r ↦ untag_each faults d r.1 ts (tag_refs ++ tag_string r.0 ∷ [])
  ]

  unfoldable pub remove_tags : Faults → Disk → List Text → Disk × List Text × Tagged
  remove_tags faults d tags =
      if faults.read_index then (d, [], failed read_failed) else untag_each faults d d.index tags []

-- The tags of one entry after the transformation, and how many changed.
unfoldable pub migrate_entry_tags : (Text → Text) → List Text → List Text × ℕ
migrate_entry_tags transform [] = ([], 0)
migrate_entry_tags transform (t ∷ ts) =
    let rest = migrate_entry_tags transform ts in
    let new_tag = transform t in
    (new_tag ∷ rest.0, if text_eq new_tag t then rest.1 else 1 + rest.1)

unfoldable pub migrate_entries : (Text → Text) → List IndexEntry → List IndexEntry × ℕ
migrate_entries transform [] = ([], 0)
migrate_entries transform (e ∷ es) =
    let rest = migrate_entries transform es in
    let tags = migrate_entry_tags transform e.tags in
    (record e { tags = tags.0 } ∷ rest.0, tags.1 + rest.1)

-- `none` is an error.
unfoldable pub migrate_tags : Faults → Disk → (Text → Text) → Disk × Option ℕ
migrate_tags faults d transform =
    if faults.read_index
    then (d, none)
    else let migrated = migrate_entries transform d.index in
      if migrated.1 == 0 then (d, some 0) else (
        write_index faults d migrated.0,
        if write_fails faults.write_index then none else some migrated.1,
      )

-- ===== src/Distribution/Resume.antt =====
-- The blob files of pkg/distribution/internal/store/blobs.go: WriteBlobWithResume and what it calls,
-- over the two files of one hash. A file is the list of its bytes. Which calls of the file system
-- fail is a parameter, and so is SHA256.
use model_runner.Common.{
  ℕ, Bool, true, false, not, List, [], ◌∷◌, ◌++◌, Option, none, some, Text, text_eq, codes, ◌==◌,
  ◌&&◌, if◌then◌else◌, length,
}
use model_runner.Common.Assoc.{lookup, insert, text_eq_inst}
use model_runner.Distribution.Hash.{Hash, hash_string, validate_hash}

-- The file of the blob, and the file with the suffix `.incomplete`.
pub record BlobFile : Type 0 where
  pub complete : Option (List ℕ)
  pub incomplete : Option (List ℕ)

-- Which calls fail, in the order of the code; `discard` is the removal whose error is ignored.
pub record BlobFaults : Type 0 where
  pub stat_complete : Bool
  pub stat_incomplete : Bool
  pub open_incomplete : Bool
  pub hash_incomplete : Bool
  pub rename_incomplete : Bool
  pub open_resume : Bool
  pub remove_incomplete : Bool
  pub create : Bool
  pub write_first : Bool
  pub rename_short : Bool
  pub open_completed : Bool
  pub hash_completed : Bool
  pub discard : Bool
  pub rename_final : Bool

pub data ReadEnd : Type 0 where
  more at_end broken : ReadEnd

-- What the reader gives: the byte of the first Read, how that Read ends, then the bytes that
-- io.Copy brings to the file and whether it fails after them.
pub record Stream : Type 0 where
  pub first : Option ℕ
  pub first_end : ReadEnd
  pub rest : List ℕ
  pub rest_fails : Bool

pub data BlobError : Type 0 where
  unsafe_hash open_failed rename_failed read_failed remove_failed create_failed : BlobError
  first_write_failed copy_failed verification_failed digest_mismatch : BlobError

pub data Written : Type 0 where
  written : Written
  refused : BlobError → Written

-- `RangeSuccess`: the offset that a request for the digest got its answer from.
unfoldable pub range_add : List (Text × ℕ) → Text → ℕ → List (Text × ℕ)
range_add offsets digest offset = insert digest offset offsets

unfoldable pub range_get : List (Text × ℕ) → Text → Option ℕ
range_get offsets digest = lookup digest offsets

-- `none` is an error.
unfoldable pub has_blob : BlobFaults → BlobFile → Hash → Option Bool
has_blob faults f h =
    if not (validate_hash h)
    then none
    else if faults.stat_complete
    then some false
    else (elim f.complete [ none ↦ some false | some _ ↦ some true ])

-- os.Stat of the incomplete file.
unfoldable pub stat_incomplete : BlobFaults → BlobFile → Option (List ℕ)
stat_incomplete faults f = if faults.stat_incomplete then none else f.incomplete

unfoldable pub first_bytes : Stream → List ℕ
first_bytes r = elim r.first [ none ↦ [] | some x ↦ x ∷ [] ]

-- What io.Copy makes of a reader that has not been read: the bytes, and whether it fails.
unfoldable pub copy_all : Stream → List ℕ × Bool
copy_all r = elim r.first_end [
  | more ↦ (first_bytes r ++ r.rest, r.rest_fails)
  | at_end ↦ (first_bytes r, false)
  | broken ↦ (first_bytes r, true)
]

-- Whether to append to the incomplete file. `offsets` is `none` for a nil pointer.
unfoldable pub should_resume : Option (List (Text × ℕ)) → Text → ℕ → Bool
should_resume none digest_str size = false
should_resume (some offsets) digest_str size =
    if text_eq digest_str []
    then false
    else elim (range_get offsets digest_str) [ none ↦ false | some offset ↦ offset == size ]

-- The ignored removal of the incomplete file after an error.
unfoldable pub discard_incomplete : BlobFaults → BlobFile → BlobFile
discard_incomplete faults f = if faults.discard then f else record f { incomplete = none }

-- os.Rename of the incomplete file.
unfoldable pub publish : Bool → BlobFile → BlobFile × Written
publish fails f =
    if fails
    then (f, refused rename_failed)
    else (record { complete = f.incomplete; incomplete = none }, written)

module _ (sha256_hex : List ℕ → Text) where
  -- `oci.SHA256(existingFile).String() == diffID.String()`
  unfoldable pub is_content_of : List ℕ → Hash → Bool
  is_content_of bytes h =
      text_eq (hash_string (record { algorithm = codes "sha256"; hex = sha256_hex bytes }))
        (hash_string h)

  -- From the verification of the digest on, with `bytes` in the incomplete file.
  unfoldable pub verify_and_publish : BlobFaults → BlobFile → Hash → List ℕ → BlobFile × Written
  verify_and_publish faults f h bytes =
      if not (text_eq h.algorithm (codes "sha256"))
      then publish faults.rename_final f
      else if faults.open_completed
      then (discard_incomplete faults f, refused verification_failed)
      else if faults.hash_completed
      then (discard_incomplete faults f, refused verification_failed)
      else if not (text_eq (sha256_hex bytes) h.hex)
      then (discard_incomplete faults f, refused digest_mismatch)
      else publish faults.rename_final f

  -- From io.Copy on: `start` is in the open file, and `copied` comes from the reader.
  unfoldable pub copy_and_publish :
      BlobFaults → BlobFile → Hash → List ℕ → List ℕ × Bool → BlobFile × Written
  copy_and_publish faults f h start copied =
      let bytes = start ++ copied.0 in
      let f' = record f { incomplete = some bytes } in
      if copied.1 then (f', refused copy_failed) else verify_and_publish faults f' h bytes

  -- After the first Read, with `start` in the file that was opened or created; `at_eof` is that the
  -- Read ended in io.EOF.
  unfoldable pub write_after_first :
      BlobFaults → BlobFile → Hash → Stream → Bool → List ℕ → BlobFile × Written
  write_after_first faults f h r at_eof start =
      let bytes = start ++ first_bytes r in
      let opened = record f { incomplete = some start } in
      let f' = record f { incomplete = some bytes } in
      let go_on =
        if at_eof
        then publish faults.rename_short f'
        else copy_and_publish faults f' h bytes (r.rest, r.rest_fails) in
      elim r.first [
        | none ↦ go_on
        | some _ ↦ if faults.write_first then (opened, refused first_write_failed) else go_on
      ]

  -- Opens the incomplete file to append to it, or starts a new one.
  unfoldable pub reopen :
      BlobFaults → BlobFile → Hash → Stream → Bool → List ℕ → Bool → BlobFile × Written
  reopen faults f h r at_eof existing resume =
      if resume
      then if faults.open_resume
        then (f, refused open_failed)
        else write_after_first faults f h r at_eof existing
      else if faults.remove_incomplete
      then (f, refused remove_failed)
      else if faults.create
      then (record f { incomplete = none }, refused create_failed)
      else write_after_first faults f h r at_eof []

  -- The incomplete file holds `existing`.
  unfoldable pub write_over :
      BlobFaults
      → BlobFile
      → Hash
      → Text
      → Option (List (Text × ℕ))
      → Stream
      → List ℕ
      → BlobFile × Written
  write_over faults f h digest_str offsets r existing =
      let resume = should_resume offsets digest_str (length existing) in
      if faults.open_incomplete
      then (f, refused open_failed)
      else if not faults.hash_incomplete && is_content_of existing h
      then publish faults.rename_incomplete f
      else elim r.first_end [
        | more ↦ reopen faults f h r false existing resume
        | at_end ↦ reopen faults f h r true existing resume
        | broken ↦ (f, refused read_failed)
      ]

  -- From os.Stat of the incomplete file on, with its content if it is there.
  unfoldable pub write_missing :
      BlobFaults
      → BlobFile
      → Hash
      → Text
      → Option (List (Text × ℕ))
      → Stream
      → Option (List ℕ)
      → BlobFile × Written
  write_missing faults f h digest_str offsets r (some existing) =
      write_over faults f h digest_str offsets r existing
  write_missing faults f h digest_str offsets r none =
      if faults.create
      then (f, refused create_failed)
      else copy_and_publish faults f h [] (copy_all r)

  -- WriteBlobWithResume.
  unfoldable pub write_blob :
      BlobFaults → BlobFile → Hash → Text → Option (List (Text × ℕ)) → Stream → BlobFile × Written
  write_blob faults f h digest_str offsets r = elim (has_blob faults f h) [
    | none ↦ (f, refused unsafe_hash)
    | some true ↦ (f, written)
    | some false ↦ write_missing faults f h digest_str offsets r (stat_incomplete faults f)
  ]

-- GetIncompleteSize: `none` is an error. A failing Stat that is no "not exist" is one.
unfoldable pub get_incomplete_size : BlobFaults → BlobFile → Hash → Option ℕ
get_incomplete_size faults f h =
    if not (validate_hash h)
    then none
    else if faults.stat_incomplete
    then none
    else (elim f.incomplete [ none ↦ some 0 | some bytes ↦ some (length bytes) ])

-- What writeLayer asks of a layer: its DiffID, where `none` is an error, the string of its digest,
-- empty if it has none, and its reader, where `none` is an error.
pub record Layer : Type 0 where
  pub diff_id : Option Hash
  pub digest_str : Text
  pub uncompressed : Option Stream

pub data LayerError : Type 0 where
  no_diff_id no_size no_reader : LayerError
  not_written : BlobError → LayerError

-- Whether a new blob was created, with its DiffID.
pub data LayerResult : Type 0 where
  layer_done : Bool → Hash → LayerResult
  layer_failed : LayerError → LayerResult

-- writeLayer, over the files of the layer's DiffID. `sizes` are the faults of GetIncompleteSize.
module _ (sha256_hex : List ℕ → Text) where
  unfoldable pub write_stream :
      BlobFaults
      → BlobFile
      → Hash
      → Text
      → Option (List (Text × ℕ))
      → Stream
      → BlobFile × LayerResult
  write_stream faults f h digest_str offsets r =
      let done = write_blob sha256_hex faults f h digest_str offsets r in
      elim done.1 [
        | refused e ↦ (done.0, layer_failed (not_written e))
        | written ↦ (done.0, layer_done true h)
      ]

  unfoldable pub write_layer :
      BlobFaults → BlobFaults → BlobFile → Layer → Option (List (Text × ℕ)) → BlobFile × LayerResult
  write_layer sizes faults f layer offsets = elim layer.diff_id [
    | none ↦ (f, layer_failed no_diff_id)
    | some h ↦ elim (has_blob sizes f h) [
      | none ↦ (f, layer_failed (not_written unsafe_hash))
      | some true ↦ (f, layer_done false h)
      | some false ↦ elim (get_incomplete_size sizes f h) [
        | none ↦ (f, layer_failed no_size)
        | some _ ↦ elim layer.uncompressed [
          | none ↦ (f, layer_failed no_reader)
          | some r ↦ write_stream faults f h layer.digest_str offsets r
        ]
      ]
    ]
  ]

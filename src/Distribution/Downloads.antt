-- ===== src/Distribution/Downloads.antt =====
-- Downloads of a blob in several attempts, over WriteBlobWithResume of blobs.go: every attempt asks
-- for what is missing from the incomplete file on, as PullModel of distribution/client.go does.
use model_runner.Common.{
  ℕ, ◌≡◌, Bool, true, false, not, List, [], ◌∷◌, ◌++◌, Option, none, some, Text, drop, take, length,
  if◌then◌else◌, ◌&&◌, ltb,
}
use model_runner.Common.Assoc.{text_eq_inst}
use model_runner.Distribution.Hash.{Hash}
use model_runner.Distribution.Resume.{
  BlobFile, BlobFaults, more, at_end, broken, Stream, Written, written, write_blob, range_add,
}

-- No call of the file system fails.
abbrev pub no_faults : BlobFaults
no_faults = record {
  stat_complete = false;
  stat_incomplete = false;
  open_incomplete = false;
  hash_incomplete = false;
  rename_incomplete = false;
  open_resume = false;
  remove_incomplete = false;
  create = false;
  write_first = false;
  rename_short = false;
  open_completed = false;
  hash_completed = false;
  discard = false;
  rename_final = false;
}

-- A reader of the bytes that breaks off after them or ends; `eager` is that it says io.EOF with its
-- last byte already.
unfoldable pub stream_of : Bool → Bool → List ℕ → Stream
stream_of eager breaks [] = record {
  first = none;
  first_end = if breaks then broken else at_end;
  rest = [];
  rest_fails = breaks;
}
stream_of eager breaks (x ∷ []) = record {
  first = some x;
  first_end = if not breaks && eager then at_end else more;
  rest = [];
  rest_fails = breaks;
}
stream_of eager breaks (x ∷ y ∷ bytes) = record {
  first = some x;
  first_end = more;
  rest = y ∷ bytes;
  rest_fails = breaks;
}

-- What an attempt asks for: the size of the incomplete file.
abbrev pub offset_of : BlobFile → ℕ
offset_of f = elim f.incomplete [ none ↦ 0 | some bytes ↦ length bytes ]

-- A blob with a beginning of its bytes.
abbrev pub partly : List ℕ → BlobFile
partly a = record { complete = none; incomplete = some a }

-- A blob that nothing is there of.
abbrev pub absent : BlobFile
absent = record { complete = none; incomplete = none }

-- The ranges that the server has answered: it answers a request from an offset other than 0 on.
abbrev pub answered : Text → ℕ → List (Text × ℕ)
answered digest offset = if ltb 0 offset then range_add [] digest offset else []

module _ (sha256_hex : List ℕ → Text) (h : Hash) (digest : Text) (content : List ℕ) where
  -- An attempt whose connection breaks after `n` bytes.
  unfoldable pub broken_attempt : Bool → ℕ → BlobFile → BlobFile
  broken_attempt eager n f =
      (write_blob sha256_hex no_faults f h digest (some (answered digest (offset_of f)))
        (stream_of eager true (take n (drop (offset_of f) content)))).0

  unfoldable pub broken_attempts : Bool → List ℕ → BlobFile → BlobFile
  broken_attempts eager [] f = f
  broken_attempts eager (n ∷ ns) f = broken_attempts eager ns (broken_attempt eager n f)

  -- An attempt that gets all that is missing.
  unfoldable pub last_attempt : Bool → BlobFile → BlobFile × Written
  last_attempt eager f =
      write_blob sha256_hex no_faults f h digest (some (answered digest (offset_of f)))
        (stream_of eager false (drop (offset_of f) content))

  -- Nothing, a beginning of the content, or a file with the digest.
  pub data Progress : BlobFile → Type 0 where
    nothing : Progress absent
    partial : (a b : List ℕ) → a ++ b ≡ content → Progress (partly a)
    finished :
        (bytes : List ℕ) (i : Option (List ℕ))
        → sha256_hex bytes ≡ h.hex
        → Progress (record { complete = some bytes; incomplete = i })

  -- What is there when a download is done.
  abbrev pub IsDownloaded : BlobFile × Written → Type 0
  IsDownloaded done =
      (done.1 ≡ written)
      × (bytes : List ℕ) × (done.0.complete ≡ some bytes)
      × (sha256_hex bytes ≡ h.hex)

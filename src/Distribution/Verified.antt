-- ===== src/Distribution/Verified.antt =====
-- What WriteBlobWithResume of blobs.go leaves under the name of a blob.
use model_runner.Common.{
  ℕ, ◌≡◌, ◌≢◌, ◌⊎◌, refl, ap, Bool, true, false, List, [], ◌++◌, Option, none, some, arith, Text,
  text_eq, text_eq_iff, codes, drop,
}
use model_runner.Distribution.Hash.{Hash, hash_string}
use model_runner.Distribution.Resume.{
  BlobFile, BlobFaults, at_end, Stream, has_blob, stat_incomplete, first_bytes, copy_all,
  discard_incomplete, publish, is_content_of, verify_and_publish, copy_and_publish,
  write_after_first, reopen, write_over, write_missing, write_blob,
}

module _ (sha256_hex : List ℕ → Text) (h : Hash) (is_sha : h.algorithm ≡ codes "sha256") where
  abbrev pub HasDigest : Option (List ℕ) → Type 0
  HasDigest none = Unit {0}
  HasDigest (some bytes) = sha256_hex bytes ≡ h.hex

  -- The blob is not there, or its bytes have the digest.
  abbrev pub IsVerified : BlobFile → Type 0
  IsVerified f = HasDigest f.complete

  pub is_content_of-hex :
      (bytes : List ℕ) → is_content_of sha256_hex bytes h ≡ true → sha256_hex bytes ≡ h.hex
  unfolding is_content_of hash_string
  is_content_of-hex bytes e = let same = (text_eq_iff _ _).0 e in ap (drop 7) (rw is_sha at same)

  publish-IsVerified :
      (fails : Bool) (f : BlobFile) (bytes : List ℕ)
      → f.incomplete ≡ some bytes
      → sha256_hex bytes ≡ h.hex
      → IsVerified f
      → IsVerified (publish fails f).0
  unfolding publish
  publish-IsVerified fails f bytes e good v = ground arith

  verify_and_publish-IsVerified :
      (faults : BlobFaults) (f : BlobFile) (bytes : List ℕ)
      → f.incomplete ≡ some bytes
      → IsVerified f
      → IsVerified (verify_and_publish sha256_hex faults f h bytes).0
  unfolding verify_and_publish discard_incomplete publish
  verify_and_publish-IsVerified faults f bytes e v =
      let known : text_eq h.algorithm (codes "sha256") ≡ true = (text_eq_iff _ _).1 is_sha in
      let same = text_eq_iff (sha256_hex bytes) h.hex in simp known (ground arith)

  copy_and_publish-IsVerified :
      (faults : BlobFaults) (f : BlobFile) (start : List ℕ) (copied : List ℕ × Bool)
      → IsVerified f
      → IsVerified (copy_and_publish sha256_hex faults f h start copied).0
  unfolding copy_and_publish
  copy_and_publish-IsVerified faults f start copied v =
      let f' = record f { incomplete = some (start ++ copied.0) } in
      let done = verify_and_publish-IsVerified faults f' (start ++ copied.0) refl v in ground arith

  write_after_first-IsVerified :
      (faults : BlobFaults) (f : BlobFile) (r : Stream) (start : List ℕ)
      → IsVerified f
      → IsVerified (write_after_first sha256_hex faults f h r false start).0
  unfolding write_after_first
  write_after_first-IsVerified faults f r start v =
      let bytes = start ++ first_bytes r in
      let f' = record f { incomplete = some bytes } in
      let done = copy_and_publish-IsVerified faults f' bytes (r.rest, r.rest_fails) v in
      ground arith

  write_over-IsVerified :
      (faults : BlobFaults) (f : BlobFile) (digest_str : Text) (offsets : Option (List (Text × ℕ)))
      (r : Stream) (existing : List ℕ)
      → f.incomplete ≡ some existing
      → r.first_end ≢ at_end
      → IsVerified f
      → IsVerified (write_over sha256_hex faults f h digest_str offsets r existing).0
  unfolding write_over reopen
  write_over-IsVerified faults f digest_str offsets r existing e ends v =
      let resumed = write_after_first-IsVerified faults f r existing v in
      let fresh = write_after_first-IsVerified faults f r [] v in
      let renamed = publish-IsVerified faults.rename_incomplete f existing e in
      let same = is_content_of-hex existing in ground arith

  write_missing-IsVerified :
      (faults : BlobFaults) (f : BlobFile) (digest_str : Text) (offsets : Option (List (Text × ℕ)))
      (r : Stream) (there : Option (List ℕ))
      → stat_incomplete faults f ≡ there
      → (f.incomplete ≡ none) ⊎ (r.first_end ≢ at_end)
      → IsVerified f
      → IsVerified (write_missing sha256_hex faults f h digest_str offsets r there).0
  unfolding write_missing stat_incomplete
  write_missing-IsVerified faults f digest_str offsets r none e ends v =
      let fresh = copy_and_publish-IsVerified faults f [] (copy_all r) v in ground arith
  write_missing-IsVerified faults f digest_str offsets r (some existing) e ends v =
      let there : f.incomplete ≡ some existing = ground arith in
      write_over-IsVerified faults f digest_str offsets r existing there (ground arith) v

  -- For a sha256 hash WriteBlobWithResume leaves no blob whose bytes lack the digest, whatever
  -- calls fail, if there was none before, and there is no incomplete file or the first Read does
  -- not end in io.EOF.
  pub write_blob-IsVerified :
      (faults : BlobFaults) (f : BlobFile) (digest_str : Text) (offsets : Option (List (Text × ℕ)))
      (r : Stream)
      → (f.incomplete ≡ none) ⊎ (r.first_end ≢ at_end)
      → IsVerified f
      → IsVerified (write_blob sha256_hex faults f h digest_str offsets r).0
  unfolding write_blob has_blob
  write_blob-IsVerified faults f digest_str offsets r ends v =
      let missing =
        write_missing-IsVerified faults f digest_str offsets r (stat_incomplete faults f) refl ends
          v in
      ground arith

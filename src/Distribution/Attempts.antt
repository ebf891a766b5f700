-- ===== src/Distribution/Attempts.antt =====
-- One attempt to download a blob: what WriteBlobWithResume of blobs.go makes of an answer that goes
-- on at the end of the incomplete file.
use model_runner.Common.{
  ℕ, ◌≡◌, ◌≢◌, refl, sym, ap, ◌∙◌, subst, Bool, true, false, List, [], ◌∷◌, ◌++◌, Option, none,
  some, append-nil, append_assoc, arith, Text, text_eq, text_eq_iff, codes, length, if◌then◌else◌,
}
use model_runner.Common.Assoc.{lookup, insert, text_eq_inst}
use model_runner.Distribution.Hash.{Hash, hash_string, validate_hash}
use model_runner.Distribution.Resume.{
  BlobFile, more, at_end, broken, Stream, written, refused, has_blob, stat_incomplete, first_bytes,
  copy_all, should_resume, publish, is_content_of, verify_and_publish, copy_and_publish,
  write_after_first, reopen, write_over, write_missing, write_blob, read_failed, range_add,
  range_get,
}
use model_runner.Distribution.Verified.{is_content_of-hex}
use model_runner.Distribution.Downloads.{no_faults, stream_of, partly, absent, answered}

module _ (sha256_hex : List ℕ → Text) (h : Hash) (digest : Text)
    (is_sha : h.algorithm ≡ codes "sha256") (safe : validate_hash h ≡ true)
    (named : digest ≢ []) where
  reopen_at_end :
      (f : BlobFile) (r : Stream) (eof : Bool) (a : List ℕ)
      → reopen sha256_hex no_faults f h r eof a
          (should_resume (some (answered digest (length a))) digest (length a))
        ≡ write_after_first sha256_hex no_faults f h r eof a
  unfolding reopen should_resume range_add range_get lookup insert
  reopen_at_end f r eof [] = ground arith
  reopen_at_end f r eof (x ∷ a) = ground (arith, text_eq_iff digest [], text_eq_iff digest digest)

  has_blob_safe :
      (f : BlobFile)
      → has_blob no_faults f h ≡ (elim f.complete [ none ↦ some false | some _ ↦ some true ])
  unfolding has_blob
  has_blob_safe f = rw (safe, has_blob) refl

  write_partial :
      (r : Stream) (a : List ℕ) (eof : Bool)
      → is_content_of sha256_hex a h ≡ false
      → r.first_end ≡ (if eof then at_end else more)
      → write_blob sha256_hex no_faults (partly a) h digest (some (answered digest (length a))) r
        ≡ write_after_first sha256_hex no_faults (partly a) h r eof a
  unfolding write_blob stat_incomplete write_missing write_over
  write_partial r a true other e =
      rw (has_blob_safe (partly a), write_blob)
        (rw (other, write_over) (simp e (reopen_at_end (partly a) r true a)))
  write_partial r a false other e =
      rw (has_blob_safe (partly a), write_blob)
        (rw (other, write_over) (simp e (reopen_at_end (partly a) r false a)))

  write_partial_broken :
      (r : Stream) (a : List ℕ)
      → is_content_of sha256_hex a h ≡ false
      → r.first_end ≡ broken
      → write_blob sha256_hex no_faults (partly a) h digest (some (answered digest (length a))) r
        ≡ (partly a, refused read_failed)
  unfolding write_blob stat_incomplete write_missing write_over
  write_partial_broken r a other e =
      rw (has_blob_safe (partly a), write_blob) (rw (other, write_over) (rw e refl))

  -- If the incomplete file is the blob already, it is only renamed.
  pub write_partial_whole :
      (r : Stream) (a : List ℕ)
      → is_content_of sha256_hex a h ≡ true
      → write_blob sha256_hex no_faults (partly a) h digest (some (answered digest (length a))) r
        ≡ (record { complete = some a; incomplete = none }, written)
  unfolding write_blob stat_incomplete write_missing write_over publish
  write_partial_whole r a whole =
      rw (has_blob_safe (partly a), write_blob) (rw (whole, write_over) refl)

  pub write_finished :
      (r : Stream) (bytes : List ℕ) (i : Option (List ℕ)) (offsets : Option (List (Text × ℕ)))
      → let f : BlobFile = record { complete = some bytes; incomplete = i } in
        write_blob sha256_hex no_faults f h digest offsets r ≡ (f, written)
  unfolding write_blob
  write_finished r bytes i offsets =
      let f : BlobFile = record { complete = some bytes; incomplete = i } in
      rw (has_blob_safe f, write_blob) refl

  pub copy_all-stream_of :
      (eager breaks : Bool) (bytes : List ℕ)
      → copy_all (stream_of eager breaks bytes) ≡ (bytes, breaks)
  unfolding copy_all stream_of first_bytes
  copy_all-stream_of eager breaks [] = ground arith
  copy_all-stream_of eager breaks (x ∷ []) = ground arith
  copy_all-stream_of eager breaks (x ∷ y ∷ bytes) = ground arith

  -- A broken connection leaves what was there and what came.
  pub write_broken :
      (eager : Bool) (a piece : List ℕ)
      → is_content_of sha256_hex a h ≡ false
      → (write_blob sha256_hex no_faults
          (partly a)
          h
          digest
          (some (answered digest (length a)))
          (stream_of eager true piece)).0
        ≡ partly (a ++ piece)
  unfolding stream_of write_after_first copy_and_publish first_bytes
  write_broken eager a [] other =
      ap (λ p. p.0) (write_partial_broken (stream_of eager true []) a other refl)
      ∙ ap partly (sym (append-nil a))
  write_broken eager a (x ∷ []) other =
      ap (λ p. p.0) (write_partial (stream_of eager true (x ∷ [])) a false other refl)
      ∙ ap partly (append-nil (a ++ x ∷ []))
  write_broken eager a (x ∷ y ∷ piece) other =
      ap (λ p. p.0) (write_partial (stream_of eager true (x ∷ y ∷ piece)) a false other refl)
      ∙ ap partly (append_assoc a (x ∷ []) (y ∷ piece))

  pub verify_good :
      (f : BlobFile) (bytes : List ℕ)
      → sha256_hex bytes ≡ h.hex
      → verify_and_publish sha256_hex no_faults f h bytes ≡ publish false f
  unfolding verify_and_publish
  verify_good f bytes good =
      let known : text_eq h.algorithm (codes "sha256") ≡ true = (text_eq_iff _ _).1 is_sha in
      let same : text_eq (sha256_hex bytes) h.hex ≡ true = (text_eq_iff _ _).1 good in
      simp (known, same) refl

  is_content_of_hex :
      (bytes : List ℕ) → sha256_hex bytes ≡ h.hex → is_content_of sha256_hex bytes h ≡ true
  unfolding is_content_of hash_string
  is_content_of_hex bytes good = (text_eq_iff _ _).1 (rw (is_sha, good) refl)

  pub write_rest :
      (eager : Bool) (a b : List ℕ)
      → sha256_hex (a ++ b) ≡ h.hex
      → is_content_of sha256_hex a h ≡ false
      → write_blob sha256_hex no_faults
          (partly a)
          h
          digest
          (some (answered digest (length a)))
          (stream_of eager false b)
        ≡ (record { complete = some (a ++ b); incomplete = none }, written)
  unfolding stream_of write_after_first copy_and_publish first_bytes publish
  write_rest eager a [] good other =
      let whole = is_content_of_hex a (subst (λ x. sha256_hex x ≡ h.hex) (append-nil a) good) in
      absurd (ground arith)
  write_rest true a (x ∷ []) good other =
      write_partial (stream_of true false (x ∷ [])) a true other refl
  write_rest false a (x ∷ []) good other =
      let all = a ++ x ∷ [] in
      write_partial (stream_of false false (x ∷ [])) a false other refl
      ∙ rw (append-nil all) (verify_good (partly all) all good)
  write_rest eager a (x ∷ y ∷ b) good other =
      let all = a ++ x ∷ y ∷ b in
      write_partial (stream_of eager false (x ∷ y ∷ b)) a false other refl
      ∙ rw (append_assoc a (x ∷ []) (y ∷ b)) (verify_good (partly all) all good)

  pub write_nothing :
      (r : Stream) (offsets : Option (List (Text × ℕ)))
      → write_blob sha256_hex no_faults absent h digest offsets r
        ≡ copy_and_publish sha256_hex no_faults absent h [] (copy_all r)
  unfolding write_blob stat_incomplete write_missing
  write_nothing r offsets = rw (has_blob_safe absent, write_blob) refl

  -- When no call fails, an empty answer to the request for the rest of an incomplete file, noted
  -- as a range, makes the file the blob of a safe sha256 hash, although its bytes lack the digest.
  pub write_unverified :
      (eager : Bool) (a : List ℕ)
      → sha256_hex a ≢ h.hex
      → write_blob sha256_hex no_faults
          (partly a)
          h
          digest
          (some (answered digest (length a)))
          (stream_of eager false [])
        ≡ (record { complete = some a; incomplete = none }, written)
  unfolding stream_of write_after_first first_bytes publish
  write_unverified eager a different =
      let other : is_content_of sha256_hex a h ≡ false =
        ground (arith, is_content_of-hex sha256_hex h is_sha a) in
      write_partial (stream_of eager false []) a true other refl
      ∙ ap (λ b. (record { complete = some b; incomplete = none }, written)) (append-nil a)

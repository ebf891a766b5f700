-- ===== src/Distribution/Completion.antt =====
-- Downloads of a blob in several attempts: what is there after each of them, and at the end.
use model_runner.Common.{
  ℕ, ◌≡◌, ◌≢◌, inl, inr, refl, sym, ap, ◌∙◌, subst, Bool, true, false, List, [], ◌∷◌, ◌++◌, none,
  some, append_assoc, arith, Text, codes, drop, take, take-drop, drop-append, drop_all, ◌-◌, length,
  Bool-cases,
}
use model_runner.Common.Assoc.{text_eq_inst}
use model_runner.Distribution.Hash.{Hash, validate_hash}
use model_runner.Distribution.Resume.{BlobFile, publish, is_content_of, copy_and_publish}
use model_runner.Distribution.Verified.{is_content_of-hex}
use model_runner.Distribution.Downloads.{
  no_faults, stream_of, partly, absent, answered, offset_of, broken_attempt, broken_attempts,
  last_attempt, Progress, nothing, partial, finished, IsDownloaded,
}
use model_runner.Distribution.Attempts.{
  write_partial_whole, write_finished, write_broken, write_rest, write_nothing, verify_good,
  copy_all-stream_of,
}

module _ (sha256_hex : List ℕ → Text) (h : Hash) (digest : Text) (content : List ℕ) where
  module _ (is_sha : h.algorithm ≡ codes "sha256") (safe : validate_hash h ≡ true)
      (named : digest ≢ []) where
    rest_of : (a b : List ℕ) → a ++ b ≡ content → drop (length a) content ≡ b
    rest_of a b e =
        rw (← e, drop-append (length a) a b, drop_all (length a) a (omega arith))
          (ap (λ n. drop n b) (let z : length a - length a ≡ 0 = omega arith in z))

    broken_attempt-Progress :
        (eager : Bool) (n : ℕ) (f : BlobFile)
        → Progress sha256_hex h digest content f
        → Progress sha256_hex h digest content
            (broken_attempt sha256_hex h digest content eager n f)
    unfolding broken_attempt copy_and_publish
    broken_attempt-Progress eager n _ nothing =
        subst (Progress sha256_hex h digest content)
          (sym (
            ap (λ p. p.0)
              (write_nothing sha256_hex h digest is_sha safe named
                (stream_of eager true (take n content)) (some []))
            ∙ ap (λ c. (copy_and_publish sha256_hex no_faults absent h [] c).0)
                (copy_all-stream_of sha256_hex h digest is_sha safe named eager true
                  (take n content))))
          (partial (take n content) (drop n content) (take-drop n content))
    broken_attempt-Progress eager n _ (partial a b e) =
        let piece = take n (drop (length a) content) in
        elim (Bool-cases (is_content_of sha256_hex a h)) [
          | inl whole ↦
              subst (Progress sha256_hex h digest content)
                (sym (
                  ap (λ p. p.0)
                    (write_partial_whole sha256_hex h digest is_sha safe named
                      (stream_of eager true piece) a whole)))
                (finished a none (is_content_of-hex sha256_hex h is_sha a whole))
          | inr other ↦
              let piece_of : piece ≡ take n b = ap (take n) (rest_of a b e) in
              subst (Progress sha256_hex h digest content)
                (sym (write_broken sha256_hex h digest is_sha safe named eager a piece other))
                (partial (a ++ piece) (drop n b) (
                  append_assoc a piece (drop n b)
                  ∙ ap (λ p. a ++ (p ++ drop n b)) piece_of
                  ∙ ap (λ p. a ++ p) (take-drop n b)
                  ∙ e))
        ]
    broken_attempt-Progress eager n _ (finished bytes i good) =
        let f : BlobFile = record { complete = some bytes; incomplete = i } in
        let r = stream_of eager true (take n (drop (offset_of f) content)) in
        subst (Progress sha256_hex h digest content)
          (sym (
            ap (λ p. p.0)
              (write_finished sha256_hex h digest is_sha safe named r bytes i
                (some (answered digest (offset_of f))))))
          (finished bytes i good)

    broken_attempts-Progress :
        (eager : Bool) (ns : List ℕ) (f : BlobFile)
        → Progress sha256_hex h digest content f
        → Progress sha256_hex h digest content
            (broken_attempts sha256_hex h digest content eager ns f)
    unfolding broken_attempts
    broken_attempts-Progress eager [] f p = p
    broken_attempts-Progress eager (n ∷ ns) f p =
        broken_attempts-Progress eager ns (broken_attempt sha256_hex h digest content eager n f)
          (broken_attempt-Progress eager n f p)

    last_attempt-IsDownloaded :
        (eager : Bool) (f : BlobFile)
        → sha256_hex content ≡ h.hex
        → Progress sha256_hex h digest content f
        → IsDownloaded sha256_hex h digest content
            (last_attempt sha256_hex h digest content eager f)
    unfolding last_attempt copy_and_publish publish
    last_attempt-IsDownloaded eager _ good nothing =
        subst (IsDownloaded sha256_hex h digest content)
          (sym (
            write_nothing sha256_hex h digest is_sha safe named (stream_of eager false content)
              (some [])
            ∙ ap (λ c. copy_and_publish sha256_hex no_faults absent h [] c)
                (copy_all-stream_of sha256_hex h digest is_sha safe named eager false content)
            ∙ verify_good sha256_hex h digest is_sha safe named (partly content) content good))
          (refl, content, refl, good)
    last_attempt-IsDownloaded eager _ good (partial a b e) =
        let rest = drop (length a) content in
        elim (Bool-cases (is_content_of sha256_hex a h)) [
          | inl whole ↦
              subst (IsDownloaded sha256_hex h digest content)
                (sym (
                  write_partial_whole sha256_hex h digest is_sha safe named
                    (stream_of eager false rest) a whole))
                (refl, a, refl, is_content_of-hex sha256_hex h is_sha a whole)
          | inr other ↦
              let joined : a ++ rest ≡ content = ap (λ p. a ++ p) (rest_of a b e) ∙ e in
              let same : sha256_hex (a ++ rest) ≡ h.hex = ap sha256_hex joined ∙ good in
              subst (IsDownloaded sha256_hex h digest content)
                (sym (write_rest sha256_hex h digest is_sha safe named eager a rest same other))
                (refl, a ++ rest, refl, same)
        ]
    last_attempt-IsDownloaded eager _ good (finished bytes i same) =
        let f : BlobFile = record { complete = some bytes; incomplete = i } in
        let r = stream_of eager false (drop (offset_of f) content) in
        subst (IsDownloaded sha256_hex h digest content)
          (sym (
            write_finished sha256_hex h digest is_sha safe named r bytes i
              (some (answered digest (offset_of f)))))
          (refl, bytes, refl, same)

    -- A download of a content with the digest of a safe sha256 hash that breaks off any number of
    -- times, anywhere, and is then asked for what is missing ends with a blob that has the digest,
    -- if no call of the file system fails and the digest string is not empty.
    pub last_attempt_completes :
        (eager : Bool) (ns : List ℕ)
        → sha256_hex content ≡ h.hex
        → IsDownloaded sha256_hex h digest content (
            last_attempt sha256_hex h digest content eager
              (broken_attempts sha256_hex h digest content eager ns absent))
    last_attempt_completes eager ns good =
        last_attempt-IsDownloaded eager
          (broken_attempts sha256_hex h digest content eager ns absent) good
          (broken_attempts-Progress eager ns absent nothing)

-- ===== src/Distribution/TransferTests.antt =====
-- Runs of the transfers of blobs: blobs.go and the range transport of remote.go.
use model_runner.Common.{
  ℕ, ◌≡◌, ◌↔◌, inl, refl, true, false, List, [], ◌∷◌, ◌++◌, Option, none, some, Text, codes,
  text_eq, replicate, length, ◌==◌, if◌then◌else◌, arith, has_prefix, index_of, contains,
}
use model_runner.Common.Assoc.{text_eq_inst, lookup, insert}
use model_runner.Common.Strings.{last_index, trim_left, prefix_length}
use model_runner.Common.Decimal.{
  decimal, scan_int, scan_signed, scan_unsigned, is_decimal_digit, has_digit, number_from,
}
use model_runner.Distribution.Hash.{
  Hash, validate_hash, is_safe_algorithm, is_safe_hex, are_hex_digits,
}
use model_runner.Distribution.Resume.{written, write_blob, should_resume, range_get, range_add}
use model_runner.Distribution.Verified.{IsVerified, write_blob-IsVerified}
use model_runner.Distribution.Downloads.{
  no_faults, stream_of, partly, absent, answered, broken_attempts, last_attempt, IsDownloaded,
}
use model_runner.Distribution.Attempts.{write_unverified}
use model_runner.Distribution.Completion.{last_attempt_completes}
use model_runner.Distribution.Range.{
  Url, HttpRequest, HttpResponse, answer, range_start_matches_offset, asked,
  extract_digest_and_offset, round_trip, send_all, follow, refuse_redirect, note_success,
  is_redirect, redirect_request, ranged_request, strips, range_start, is_offset,
}
use model_runner.Distribution.RangeLaws.{
  range_start_matches_iff, IsRangeTrip, round_trip-IsRangeTrip, IsHonoured,
  round_trip-should_resume,
}

abbrev zeros : Text
zeros = replicate 64 48

-- A stand-in for SHA256 that tells texts of three bytes from others.
abbrev digest_of : List ℕ → Text
digest_of bytes = if length bytes == 3 then zeros else replicate 64 49

abbrev blob_hash : Hash
blob_hash = record { algorithm = codes "sha256"; hex = zeros }

abbrev blob_digest : Text
blob_digest = codes "sha256:" ++ zeros

abbrev blob_bytes : List ℕ
blob_bytes = 7 ∷ 8 ∷ 9 ∷ []

blob_hash_safe : validate_hash blob_hash ≡ true
unfolding validate_hash is_safe_algorithm is_safe_hex are_hex_digits text_eq
blob_hash_safe = refl

write_blob-IsVerified_example :
    IsVerified digest_of blob_hash refl
      (write_blob digest_of no_faults absent blob_hash blob_digest none
        (stream_of true false blob_bytes)).0
write_blob-IsVerified_example =
    write_blob-IsVerified digest_of blob_hash refl no_faults absent blob_digest none
      (stream_of true false blob_bytes) (inl refl) tt

last_attempt_completes_example : IsDownloaded digest_of blob_hash blob_digest blob_bytes (
    last_attempt digest_of blob_hash blob_digest blob_bytes true
      (broken_attempts digest_of blob_hash blob_digest blob_bytes true (1 ∷ 0 ∷ 1 ∷ []) absent))
last_attempt_completes_example =
    last_attempt_completes digest_of blob_hash blob_digest blob_bytes refl blob_hash_safe
      (λ e. absurd (ground arith)) true (1 ∷ 0 ∷ 1 ∷ []) refl

write_unverified_example :
    write_blob digest_of no_faults
      (partly (7 ∷ []))
      blob_hash
      blob_digest
      (some (answered blob_digest 1))
      (stream_of true false [])
    ≡ (record { complete = some (7 ∷ []); incomplete = none }, written)
write_unverified_example =
    write_unverified digest_of blob_hash blob_digest refl blob_hash_safe
      (λ e. absurd (ground arith)) true (7 ∷ []) (λ e. absurd (ground arith))

range_start_matches_iff_example :
    (range_start_matches_offset (codes "bytes " ++ (decimal 42 ++ 45 ∷ codes "99/100")) 42 ≡ true)
    ↔ (◌≡◌ {A = ℕ} 42 42)
range_start_matches_iff_example = range_start_matches_iff 42 42 (codes "99/100") (omega arith)

-- A registry that sends the blob's readers on to another host.
abbrev blob_url : Text → Url
blob_url host = record {
  scheme = codes "https";
  host = host;
  path = codes "/v2/ai/model/blobs/" ++ blob_digest;
  digest = [];
}

abbrev blob_request : HttpRequest
blob_request = record {
  url = blob_url (codes "registry");
  host = codes "registry";
  headers = (codes "Authorization", codes "secret") ∷ [];
}

abbrev registry : ℕ → HttpRequest → Option HttpResponse
registry n req =
    if n == 0
    then some (record { status_code = 307; location = codes "cdn"; content_range = [] })
    else some (record { status_code = 206; location = []; content_range = codes "bytes 2-2/3" })

abbrev to_host : Url → Text → Option Url
to_host u location = some (blob_url location)

round_trip-IsRangeTrip_example :
    IsRangeTrip
      (blob_url (codes "registry"))
      2
      (round_trip registry to_host [] (some ((blob_digest, 2) ∷ [])) blob_request []).0
unfolding asked extract_digest_and_offset contains index_of has_prefix lookup text_eq last_index
round_trip-IsRangeTrip_example =
    round_trip-IsRangeTrip registry to_host [] (some ((blob_digest, 2) ∷ [])) blob_request []
      (omega arith)

first_trip_resumes :
    should_resume
      (some (round_trip registry to_host [] (some ((blob_digest, 2) ∷ [])) blob_request []).1)
      blob_digest
      2
    ≡ true
unfolding should_resume round_trip send_all follow refuse_redirect note_success is_redirect
    redirect_request ranged_request strips range_start_matches_offset range_start is_offset scan_int
    scan_signed scan_unsigned is_decimal_digit has_digit number_from trim_left prefix_length
    range_get range_add asked extract_digest_and_offset contains index_of has_prefix lookup insert
    text_eq last_index
first_trip_resumes = refl

round_trip-should_resume_example :
    (resp : HttpResponse) × ((round_trip registry to_host []
        (some ((blob_digest, 2) ∷ []))
        blob_request
        []).0.1
      ≡ answer resp)
    × IsHonoured
        (asked registry to_host (some ((blob_digest, 2) ∷ [])) blob_request.url).0
        (asked registry to_host (some ((blob_digest, 2) ∷ [])) blob_request.url).1
        blob_digest
        2
        resp
round_trip-should_resume_example =
    round_trip-should_resume registry to_host [] (some ((blob_digest, 2) ∷ [])) blob_request
      blob_digest 2 first_trip_resumes

-- ===== src/Distribution/Range.antt =====
-- The transport of pkg/distribution/oci/remote/remote.go that asks for ranges of blobs, follows
-- redirects and notes which ranges were answered. The transport below it and the parser of URLs are
-- parameters.
use model_runner.Common.{
  ℕ, zero, suc, ◌+◌, Bool, false, not, ◌&&◌, ◌||◌, List, [], ◌∷◌, ◌++◌, Option, none, some, Text,
  text_eq, codes, ltb, ◌==◌, if◌then◌else◌, drop, take, has_prefix, index_of, contains,
}
use model_runner.Common.Int.{ℤ, pos, negsuc}
use model_runner.Common.Assoc.{lookup, insert, delete, text_eq_inst}
use model_runner.Common.Strings.{last_index}
use model_runner.Common.Decimal.{decimal, scan_int}
use model_runner.Distribution.Hash.{split_at}
use model_runner.Distribution.Resume.{range_add}

-- What the code reads of a URL; `digest` is the query parameter, empty if there is none.
pub record Url : Type 0 where
  pub scheme : Text
  pub host : Text
  pub path : Text
  pub digest : Text

pub record HttpRequest : Type 0 where
  pub url : Url
  pub host : Text
  pub headers : List (Text × Text)

-- A missing header is empty.
pub record HttpResponse : Type 0 where
  pub status_code : ℕ
  pub location : Text
  pub content_range : Text

pub data TransportError : Type 0 where
  transport_failed bad_redirect too_many_redirects : TransportError

pub data Answer : Type 0 where
  answer : HttpResponse → Answer
  no_answer : TransportError → Answer

abbrev pub max_range_redirects : ℕ
max_range_redirects = 10

unfoldable pub is_redirect : ℕ → Bool
is_redirect code = code == 301 || code == 302 || code == 303 || code == 307 || code == 308

-- The loop over the segments of the path.
unfoldable pub find_segment : List Text → List (Text × ℕ) → Text × ℕ
find_segment [] offsets = ([], 0)
find_segment (segment ∷ segments) offsets =
    let rest = find_segment segments offsets in
    if contains (codes ":") segment
    then elim (lookup segment offsets) [ none ↦ rest | some offset ↦ (segment, offset) ]
    else rest

-- From the query parameter on.
unfoldable pub find_in_query : Url → List (Text × ℕ) → Text × ℕ
find_in_query u offsets =
    let segment = find_segment (split_at 47 u.path) offsets in
    if text_eq u.digest []
    then segment
    else elim (lookup u.digest offsets) [ none ↦ segment | some offset ↦ (u.digest, offset) ]

unfoldable pub extract_digest_and_offset : Url → List (Text × ℕ) → Text × ℕ
extract_digest_and_offset u offsets = elim (last_index (codes "/blobs/") u.path) [
  | none ↦ find_in_query u offsets
  | some idx ↦
      let digest = drop (idx + 7) u.path in
      if contains (codes ":") digest
      then elim (lookup digest offsets) [
        | none ↦ find_in_query u offsets
        | some offset ↦ (digest, offset)
      ]
      else find_in_query u offsets
]

-- The text before the first "-" of what follows the unit.
unfoldable pub range_start : Text → Option ℤ
range_start after = elim (index_of (codes "-") after) [
  | none ↦ none
  | some dash_idx ↦ scan_int (take dash_idx after)
]

unfoldable pub is_offset : ℕ → Option ℤ → Bool
is_offset offset none = false
is_offset offset (some (negsuc _)) = false
is_offset offset (some (pos start)) = start == offset

unfoldable pub range_start_matches_offset : Text → ℕ → Bool
range_start_matches_offset content_range offset =
    if text_eq content_range []
    then false
    else if not (has_prefix (codes "bytes ") content_range)
    then false
    else (is_offset offset (range_start (drop 6 content_range)))

-- What is deleted from the header when a redirect leaves the host or https.
unfoldable pub strip_sensitive_headers : List (Text × Text) → List (Text × Text)
strip_sensitive_headers headers =
    delete (codes "Proxy-Authorization")
      (delete (codes "Cookie2") (delete (codes "Cookie") (delete (codes "Authorization") headers)))

unfoldable pub strips : Url → Url → Bool
strips u v =
    not (text_eq u.host v.host)
    || (text_eq u.scheme (codes "https") && text_eq v.scheme (codes "http"))

unfoldable pub redirect_request : HttpRequest → Url → HttpRequest
redirect_request req v = record {
  url = v;
  host = v.host;
  headers = if strips req.url v then strip_sensitive_headers req.headers else req.headers;
}

-- The clone of the request with the headers that the transport sets.
unfoldable pub ranged_request : Text → ℕ → HttpRequest → HttpRequest
ranged_request user_agent offset req =
    let agent =
      if text_eq user_agent []
      then req.headers
      else insert (codes "User-Agent") user_agent req.headers in
    record req {
      headers =
          if ltb 0 offset
          then insert (codes "Range") (codes "bytes=" ++ (decimal offset ++ codes "-")) agent
          else agent;
    }

-- The requests that were sent, in order, and the answer.
abbrev pub Trip : Type 0
Trip = List HttpRequest × Answer

-- `send n` is the transport below at its call number n, `none` an error.
module _ (send : ℕ → HttpRequest → Option HttpResponse) (parse_url : Url → Text → Option Url) where
  -- The rounds of the loop that are left, after the answer to `req` as call number `n`.
  unfoldable pub follow : ℕ → ℕ → HttpRequest → HttpResponse → Trip
  follow zero n req resp = ([], answer resp)
  follow (suc left) n req resp =
      if is_redirect resp.status_code
      then if text_eq resp.location []
        then ([], answer resp)
        else elim (parse_url req.url resp.location) [
          | none ↦ ([], no_answer bad_redirect)
          | some v ↦
              let req' = redirect_request req v in
              elim (send (suc n) req') [
                | none ↦ (req' ∷ [], no_answer transport_failed)
                | some resp' ↦ let trip = follow left (suc n) req' resp' in (req' ∷ trip.0, trip.1)
              ]
        ]
      else ([], answer resp)

  -- The check after the loop.
  unfoldable pub refuse_redirect : Answer → Answer
  refuse_redirect (no_answer e) = no_answer e
  refuse_redirect (answer resp) =
      if is_redirect resp.status_code then no_answer too_many_redirects else answer resp

  unfoldable pub send_all : ℕ → HttpRequest → Trip
  send_all offset req = elim (send 0 req) [
    | none ↦ (req ∷ [], no_answer transport_failed)
    | some resp ↦
        let trip = follow max_range_redirects 0 req resp in
        if ltb 0 offset then (req ∷ trip.0, refuse_redirect trip.1) else (req ∷ [], answer resp)
  ]

  -- The ranges that are noted after the answer, where there is a tracker.
  unfoldable pub note_success : Text → ℕ → Answer → List (Text × ℕ) → List (Text × ℕ)
  note_success digest offset (no_answer e) successes = successes
  note_success digest offset (answer resp) successes =
      if ltb 0 offset && resp.status_code == 206
      then if range_start_matches_offset resp.content_range offset
        then range_add successes digest offset
        else successes
      else successes

  -- The digest and the offset that are asked for.
  unfoldable pub asked : Option (List (Text × ℕ)) → Url → Text × ℕ
  asked none u = ([], 0)
  asked (some offsets) u = extract_digest_and_offset u offsets

  -- RoundTrip, with the offsets and the tracker of the context.
  unfoldable pub round_trip :
      Text → Option (List (Text × ℕ)) → HttpRequest → List (Text × ℕ) → Trip × List (Text × ℕ)
  round_trip user_agent offsets req successes =
      let (digest, offset) = asked offsets req.url in
      let trip = send_all offset (ranged_request user_agent offset req) in
      (trip, note_success digest offset trip.1 successes)

-- ===== src/Distribution/RangeLaws.antt =====
-- What the range transport of pkg/distribution/oci/remote/remote.go sends, gives and notes.
use model_runner.Common.{
  ℕ, zero, suc, ◌^◌, ◌≤◌, ◌<◌, ◌≡◌, ◌↔◌, ◌⊎◌, inl, inr, refl, sym, ap, ◌∙◌, subst, true, false,
  List, [], ◌∷◌, ◌++◌, Option, none, some, arith, Text, text_eq, text_eq_iff, codes, ltb,
  if◌then◌else◌, length, take-append, All, has_prefix, Bool-cases, Option-cases,
}
use model_runner.Common.Int.{pos}
use model_runner.Common.Assoc.{lookup, insert, lookup-delete, lookup-insert, text_eq_inst}
use model_runner.Common.Bytes.{index_of-parts}
use model_runner.Common.Decimal.{decimal, scan_int, scan_int-decimal, mem-decimal, is_decimal_digit}
use model_runner.Distribution.Resume.{range_add, range_get, should_resume}
use model_runner.Distribution.Range.{
  Url, HttpRequest, HttpResponse, Answer, answer, no_answer, Trip, is_redirect, range_start,
  is_offset, range_start_matches_offset, strip_sensitive_headers, strips, redirect_request,
  ranged_request, follow, refuse_redirect, send_all, note_success, asked, round_trip,
  max_range_redirects, transport_failed,
}

range_start-decimal :
    (start : ℕ) (tail : Text)
    → start < 2 ^ 63
    → range_start (decimal start ++ 45 ∷ tail) ≡ some (pos start)
unfolding range_start
range_start-decimal start tail h =
    rw
      (
        index_of-parts 45 (decimal start) tail
            (mem-decimal 45 start (unfold is_decimal_digit in refl)),
        range_start,
      )
      (ap scan_int (take-append (decimal start) (45 ∷ tail)) ∙ scan_int-decimal start h)

-- A Content-Range that starts at a number below 2 ^ 63 in decimal matches exactly that offset.
pub range_start_matches_iff :
    (start offset : ℕ) (tail : Text)
    → start < 2 ^ 63
    → (range_start_matches_offset (codes "bytes " ++ (decimal start ++ 45 ∷ tail)) offset ≡ true)
      ↔ (start ≡ offset)
unfolding range_start_matches_offset is_offset text_eq has_prefix
range_start_matches_iff start offset tail h = rw (range_start-decimal start tail h) (ground arith)

-- None of the headers that a redirect to another host must not get.
pub record HasNoCredentials (headers : List (Text × Text)) : Type 0 where
  pub authorization : lookup (codes "Authorization") headers ≡ none
  pub cookie : lookup (codes "Cookie") headers ≡ none
  pub cookie2 : lookup (codes "Cookie2") headers ≡ none
  pub proxy_authorization : lookup (codes "Proxy-Authorization") headers ≡ none

-- The request asks for the range, and leaves the first host without credentials only.
pub record IsSafeRequest (first : Url) (range : Option Text) (req : HttpRequest) : Type 0 where
  pub range_kept : lookup (codes "Range") req.headers ≡ range
  pub credentials : (req.url.host ≡ first.host) ⊎ HasNoCredentials req.headers

lookup-strip_sensitive_headers :
    (k : Text) (headers : List (Text × Text))
    → lookup k (strip_sensitive_headers headers) ≡ (
        if text_eq (codes "Proxy-Authorization") k
        then none
        else if text_eq (codes "Cookie2") k
        then none
        else if text_eq (codes "Cookie") k
        then none
        else if text_eq (codes "Authorization") k
        then none
        else lookup k headers)
unfolding strip_sensitive_headers
lookup-strip_sensitive_headers k headers =
    rw
      (
        lookup-delete (codes "Proxy-Authorization") k,
        lookup-delete (codes "Cookie2") k,
        lookup-delete (codes "Cookie") k,
        lookup-delete (codes "Authorization") k headers,
      )
      refl

strip_sensitive_headers-HasNoCredentials :
    (headers : List (Text × Text)) → HasNoCredentials (strip_sensitive_headers headers)
unfolding text_eq
strip_sensitive_headers-HasNoCredentials headers = record {
  authorization = lookup-strip_sensitive_headers (codes "Authorization") headers;
  cookie = lookup-strip_sensitive_headers (codes "Cookie") headers;
  cookie2 = lookup-strip_sensitive_headers (codes "Cookie2") headers;
  proxy_authorization = lookup-strip_sensitive_headers (codes "Proxy-Authorization") headers;
}

same_host : (u v : Url) → strips u v ≡ false → u.host ≡ v.host
unfolding strips
same_host u v e = (text_eq_iff u.host v.host).0 (ground arith)

redirect_request-IsSafeRequest :
    (first : Url) (range : Option Text) (req : HttpRequest) (v : Url)
    → IsSafeRequest first range req
    → IsSafeRequest first range (redirect_request req v)
unfolding redirect_request text_eq
redirect_request-IsSafeRequest first range req v safe = elim (Bool-cases (strips req.url v)) [
  | inl e ↦
      rw (e, redirect_request)
        (record {
          range_kept = lookup-strip_sensitive_headers (codes "Range") req.headers ∙ safe.range_kept;
          credentials = inr (strip_sensitive_headers-HasNoCredentials req.headers);
        })
  | inr e ↦
      let same : req.url.host ≡ v.host = same_host req.url v e in
      rw (e, redirect_request)
        (record {
          range_kept = safe.range_kept;
          credentials = elim safe.credentials [ inl q ↦ inl (sym same ∙ q) | inr n ↦ inr n ];
        })
]

module _ (send : ℕ → HttpRequest → Option HttpResponse) (parse_url : Url → Text → Option Url) where
  -- What the rounds of the loop send.
  abbrev pub AreSafe : Url → Option Text → ℕ → List HttpRequest → Type 0
  AreSafe first range left sent = All (IsSafeRequest first range) sent × (length sent ≤ left)

  follow-AreSafe :
      (first : Url) (range : Option Text) (left n : ℕ) (req : HttpRequest) (resp : HttpResponse)
      → IsSafeRequest first range req
      → AreSafe first range left (follow send parse_url left n req resp).0
  unfolding follow
  follow-AreSafe first range zero n req resp safe = (tt, omega arith)
  follow-AreSafe first range (suc left) n req resp safe =
      elim (Bool-cases (is_redirect resp.status_code)) [
        | inr e ↦ rw (e, follow) (tt, omega arith)
        | inl e ↦ elim (Bool-cases (text_eq resp.location [])) [
          | inl l ↦ rw (e, follow) (rw (l, follow) (tt, omega arith))
          | inr l ↦ elim (Option-cases (parse_url req.url resp.location)) [
            | inl p ↦ rw (e, follow) (rw (l, follow) (rw (p, follow) (tt, omega arith)))
            | inr (v, p) ↦
                let req' = redirect_request req v in
                let safe' = redirect_request-IsSafeRequest first range req v safe in
                rw (e, follow)
                  (rw (l, follow)
                    (rw (p, follow)
                      (elim (Option-cases (send (suc n) req')) [
                        | inl s ↦ rw (s, follow) ((safe', tt), omega arith)
                        | inr (resp', s) ↦
                            let (all, few) =
                              follow-AreSafe first range left (suc n) req' resp' safe' in
                            rw (s, follow) ((safe', all), omega arith)
                      ])))
          ]
        ]
      ]

  send_all_ranged :
      (offset : ℕ) (req : HttpRequest) (resp : HttpResponse)
      → 0 < offset
      → send 0 req ≡ some resp
      → send_all send parse_url offset req ≡ (
        req ∷ (follow send parse_url max_range_redirects 0 req resp).0,
        refuse_redirect send parse_url (follow send parse_url max_range_redirects 0 req resp).1,
      )
  unfolding send_all
  send_all_ranged offset req resp h s =
      let e : ltb 0 offset ≡ true = ground arith in rw (s, send_all) (rw (e, send_all) refl)

  send_all_failed :
      (offset : ℕ) (req : HttpRequest)
      → send 0 req ≡ none
      → send_all send parse_url offset req ≡ (req ∷ [], no_answer transport_failed)
  unfolding send_all
  send_all_failed offset req s = rw (s, send_all) refl

  send_all-AreSafe :
      (offset : ℕ) (req : HttpRequest) (range : Option Text)
      → 0 < offset
      → lookup (codes "Range") req.headers ≡ range
      → AreSafe req.url range 11 (send_all send parse_url offset req).0
  send_all-AreSafe offset req range h e =
      let safe : IsSafeRequest req.url range req = record {
        range_kept = e;
        credentials = inl refl;
      } in
      elim (Option-cases (send 0 req)) [
        | inl s ↦ rw (send_all_failed offset req s) ((safe, tt), omega arith)
        | inr (resp, s) ↦
            let (all, few) = follow-AreSafe req.url range max_range_redirects 0 req resp safe in
            rw (send_all_ranged offset req resp h s) ((safe, all), omega arith)
      ]

  refuse_redirect_lem :
      (a : Answer) (resp : HttpResponse)
      → refuse_redirect send parse_url a ≡ answer resp
      → (a ≡ answer resp) × (is_redirect resp.status_code ≡ false)
  unfolding refuse_redirect
  refuse_redirect_lem (no_answer e) resp h = absurd (ground arith)
  refuse_redirect_lem (answer r) resp h = ground arith

  send_all-answer :
      (offset : ℕ) (req : HttpRequest) (resp : HttpResponse)
      → 0 < offset
      → (send_all send parse_url offset req).1 ≡ answer resp
      → is_redirect resp.status_code ≡ false
  send_all-answer offset req resp h e = elim (Option-cases (send 0 req)) [
    | inl s ↦ absurd (let e' = rw (send_all_failed offset req s) at e in ground arith)
    | inr (first, s) ↦
        (refuse_redirect_lem _ resp (rw (send_all_ranged offset req first h s) at e)).1
  ]

lookup-ranged :
    (offset : ℕ) (user_agent : Text) (req : HttpRequest)
    → 0 < offset
    → lookup (codes "Range") (ranged_request user_agent offset req).headers
      ≡ some (codes "bytes=" ++ (decimal offset ++ codes "-"))
unfolding ranged_request
lookup-ranged offset user_agent req h =
    let e : ltb 0 offset ≡ true = ground arith in
    rw (e, ranged_request)
      (lookup-insert (codes "Range") (codes "Range") _ _ ∙ (unfold text_eq in refl))

-- A response from the offset on that was asked for, as many bytes as there are already.
pub record IsHonoured (asked_for : Text) (offset : ℕ) (digest : Text) (size : ℕ)
    (resp : HttpResponse) : Type 0 where
  pub digest_asked : asked_for ≡ digest
  pub offset_asked : offset ≡ size
  pub partial_content : resp.status_code ≡ 206
  pub starts_at : range_start_matches_offset resp.content_range size ≡ true

-- What the transport sends for a range, and what it answers with.
pub record IsRangeTrip (first : Url) (offset : ℕ) (trip : Trip) : Type 0 where
  pub requests :
      All (IsSafeRequest first (some (codes "bytes=" ++ (decimal offset ++ codes "-")))) trip.0
  pub few : length trip.0 ≤ 11
  pub final : (resp : HttpResponse) → trip.1 ≡ answer resp → is_redirect resp.status_code ≡ false

module _ (send : ℕ → HttpRequest → Option HttpResponse) (parse_url : Url → Text → Option Url) where
  -- If RoundTrip asks for a range, every request it sends carries the range and, on another host
  -- than the first, no credentials; it sends 11 at most, and no response it gives is a redirect.
  pub round_trip-IsRangeTrip :
      (user_agent : Text) (offsets : Option (List (Text × ℕ))) (req : HttpRequest)
      (successes : List (Text × ℕ))
      → 0 < (asked send parse_url offsets req.url).1
      → IsRangeTrip req.url
          (asked send parse_url offsets req.url).1
          (round_trip send parse_url user_agent offsets req successes).0
  unfolding round_trip ranged_request
  round_trip-IsRangeTrip user_agent offsets req successes h =
      let offset = (asked send parse_url offsets req.url).1 in
      let ranged = ranged_request user_agent offset req in
      let safe =
        send_all-AreSafe send parse_url offset ranged
          (some (codes "bytes=" ++ (decimal offset ++ codes "-"))) h
          (lookup-ranged offset user_agent req h) in
      record {
        requests = safe.0;
        few = safe.1;
        final = λ resp e. send_all-answer send parse_url offset ranged resp h e;
      }

  note_success-should_resume :
      (asked_for digest : Text) (offset size : ℕ) (a : Answer)
      → should_resume (some (note_success send parse_url asked_for offset a [])) digest size ≡ true
      → (resp : HttpResponse) × (a ≡ answer resp) × IsHonoured asked_for offset digest size resp
  unfolding note_success should_resume range_add range_get lookup insert
  note_success-should_resume asked_for digest offset size (no_answer e) h = absurd (ground arith)
  note_success-should_resume asked_for digest offset size (answer resp) h =
      let same = text_eq_iff asked_for digest in
      let at_size : offset ≡ size = ground arith in
      (
        resp,
        refl,
        record {
          digest_asked = ground arith;
          offset_asked = at_size;
          partial_content = ground arith;
          starts_at =
              subst (λ k. range_start_matches_offset resp.content_range k ≡ true) at_size
                (ground arith);
        },
      )

  -- WriteBlobWithResume appends to an incomplete file after a RoundTrip that noted its ranges in
  -- an empty tracker only if the response was a 206 whose Content-Range starts at the file's size,
  -- which was the offset asked for.
  pub round_trip-should_resume :
      (user_agent : Text) (offsets : Option (List (Text × ℕ))) (req : HttpRequest) (digest : Text)
      (size : ℕ)
      → let (trip, successes) = round_trip send parse_url user_agent offsets req [] in
        let asked_for = asked send parse_url offsets req.url in
        should_resume (some successes) digest size ≡ true
        → (resp : HttpResponse) × (trip.1 ≡ answer resp)
          × IsHonoured asked_for.0 asked_for.1 digest size resp
  unfolding round_trip
  round_trip-should_resume user_agent offsets req digest size h =
      let asked_for = asked send parse_url offsets req.url in
      note_success-should_resume asked_for.0 digest asked_for.1 size _ h

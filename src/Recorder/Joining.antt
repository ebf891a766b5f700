-- ===== src/Recorder/Joining.antt =====
-- What the conversion of a streamed response in pkg/metrics/openai_recorder.go makes of its chunks.
use model_runner.Common.{
  ℕ, ◌≡◌, inl, inr, refl, sym, ◌∙◌, subst, Bool, true, false, List, [], ◌∷◌, ◌++◌, Option, none,
  some, arith, Text, codes, text_eq, text_eq_iff, has_prefix, if◌then◌else◌, length, drop, ◌&&◌,
  append_assoc, append-nil, Bool-cases, Option-cases, All,
}
use model_runner.Common.Int.{ℤ}
use model_runner.Recorder.Json.{Json, Fields}
use model_runner.Recorder.Streams.{
  Joined, scanned, choice_of, delta_text, join_chunk, join, scan_lines,
}

-- The lines before the line that ends the stream.
unfoldable pub before_done : List Text → List Text
before_done [] = []
before_done (line ∷ lines) =
    let rest = before_done lines in if text_eq line (codes "data: [DONE]") then [] else line ∷ rest

-- The contents of the deltas of the chunks, one after the other.
unfoldable pub contents : List (Option Fields) → Text
contents [] = []
contents (none ∷ chunks) = contents chunks
contents (some chunk ∷ chunks) =
    elim (choice_of chunk) as (λ _. Text) [
      | none ↦ []
      | some choice ↦ delta_text (codes "content") choice
    ]
    ++ contents chunks

abbrev pub join_all : Joined → List (Option Fields) → Joined
join_all j [] = j
join_all j (chunk ∷ chunks) = join_all (join j chunk) chunks

abbrev pub is_error_line : Text → Bool
is_error_line line = has_prefix (codes "error: ") line

pub join_all-content :
    (j : Joined) (chunks : List (Option Fields))
    → (join_all j chunks).content ≡ j.content ++ contents chunks
unfolding contents join join_chunk
join_all-content j [] = sym (append-nil j.content)
join_all-content j (none ∷ chunks) = join_all-content (record j { last_chunk = none }) chunks
join_all-content j (some chunk ∷ chunks) =
    join_all-content (join_chunk j chunk) chunks ∙ elim (Option-cases (choice_of chunk)) [
      | inl e ↦ rw (e, join_chunk) refl
      | inr (choice, e) ↦
          rw (e, join_chunk)
            (append_assoc j.content (delta_text (codes "content") choice) (contents chunks))
    ]

pub join_all-last :
    (j : Joined) (chunks : List (Option Fields)) (chunk : Option Fields)
    → (join_all j (chunks ++ chunk ∷ [])).last_chunk ≡ chunk
unfolding join join_chunk
join_all-last j [] none = refl
join_all-last j [] (some chunk) = ground arith
join_all-last j (c ∷ chunks) chunk = join_all-last (join j c) chunks chunk

text_eq-append :
    (p s line : Text)
    → text_eq line (p ++ s) ≡ (has_prefix p line && text_eq (drop (length p) line) s)
unfolding text_eq has_prefix
text_eq-append [] s [] = refl
text_eq-append [] s (c ∷ line) = refl
text_eq-append (a ∷ p) s [] = refl
text_eq-append (a ∷ p) s (c ∷ line) = ground (arith, text_eq-append p s line)

ends_stream : Text → Bool
ends_stream line = has_prefix (codes "data: ") line && text_eq (drop 6 line) (codes "[DONE]")

module _ (int_of : ℕ → ℤ) (unmarshal : Text → Option (Option Fields))
    (marshal : Json → Option Text) where
  -- The chunks that are decoded from the lines of data.
  unfoldable pub decoded : List Text → List (Option Fields)
  decoded [] = []
  decoded (line ∷ lines) =
      let rest = decoded lines in
      if has_prefix (codes "data: ") line
      then elim (unmarshal (drop 6 line)) [ none ↦ rest | some chunk ↦ chunk ∷ rest ]
      else rest

  scan_lines_done :
      (line : Text) (lines : List Text) (j : Joined)
      → is_error_line line ≡ false
      → ends_stream line ≡ true
      → scan_lines int_of unmarshal marshal (line ∷ lines) j ≡ scanned j
  unfolding scan_lines ends_stream
  scan_lines_done line lines j clean e = ground arith

  scan_lines_other :
      (line : Text) (lines : List Text) (j : Joined)
      → is_error_line line ≡ false
      → has_prefix (codes "data: ") line ≡ false
      → scan_lines int_of unmarshal marshal (line ∷ lines) j
        ≡ scan_lines int_of unmarshal marshal lines j
  unfolding scan_lines
  scan_lines_other line lines j clean e = ground arith

  scan_lines_data :
      (line : Text) (lines : List Text) (j : Joined)
      → is_error_line line ≡ false
      → has_prefix (codes "data: ") line ≡ true
      → text_eq (drop 6 line) (codes "[DONE]") ≡ false
      → scan_lines int_of unmarshal marshal (line ∷ lines) j ≡ (elim (unmarshal (drop 6 line)) [
        | none ↦ scan_lines int_of unmarshal marshal lines j
        | some chunk ↦ scan_lines int_of unmarshal marshal lines (join j chunk)
      ])
  unfolding scan_lines
  scan_lines_data line lines j clean e other = simp (clean, e, other) refl

  pub scan_lines-decoded :
      (lines : List Text) (j : Joined)
      → All (λ line. is_error_line line ≡ false) (before_done lines)
      → scan_lines int_of unmarshal marshal lines j
        ≡ scanned (join_all j (decoded (before_done lines)))
  unfolding before_done decoded ends_stream
  scan_lines-decoded [] j clean = unfold scan_lines in refl
  scan_lines-decoded (line ∷ lines) j clean =
      let same = text_eq-append (codes "data: ") (codes "[DONE]") line in
      elim (Bool-cases (text_eq line (codes "data: [DONE]"))) [
        | inl e ↦
            let is : line ≡ codes "data: [DONE]" = (text_eq_iff line _).0 e in
            let harmless : is_error_line line ≡ false =
              subst (λ l. is_error_line l ≡ false) (sym is) (unfold has_prefix in refl) in
            simp e (scan_lines_done line lines j harmless (sym same ∙ e))
        | inr e ↦
            let (harmless, rest) = simp e at clean in
            elim (Bool-cases (has_prefix (codes "data: ") line)) [
              | inr p ↦
                  simp (e, p)
                    (scan_lines_other line lines j harmless p ∙ scan_lines-decoded lines j rest)
              | inl p ↦
                  let other : text_eq (drop 6 line) (codes "[DONE]") ≡ false = ground arith in
                  let step = scan_lines_data line lines j harmless p other in
                  elim (Option-cases (unmarshal (drop 6 line))) [
                    | inl u ↦ simp (e, p, u) ((rw u at step) ∙ scan_lines-decoded lines j rest)
                    | inr (chunk, u) ↦
                        simp (e, p, u)
                          ((rw u at step) ∙ scan_lines-decoded lines (join j chunk) rest)
                  ]
            ]
      ]

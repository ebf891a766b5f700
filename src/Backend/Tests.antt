-- ===== src/Backend/Tests.antt =====
-- The theorems on the texts of backend.go at concrete texts.
use model_runner.Common.{
  ℕ, ◌<◌, ◌^◌, not, ltb, arith, ◌≡◌, ◌⊎◌, inl, inr, refl, false, [], ◌∷◌, Option, none, some, Text,
  codes, text_eq, if◌then◌else◌, ◌==◌,
}
use model_runner.Common.Int.{ℤ, pos, negsuc, ltb_ℤ}
use model_runner.Backend.Forms.{
  status_error, format_status, parse_status, keep_alive_forever, keep_alive_string,
  parse_keep_alive,
}
use model_runner.Backend.RoundTrip.{
  parse_status-format_status, DurationLaws, parse_keep_alive_again,
}

-- A printer and a parser of durations that keep the laws: a sign and the number as one byte, if it
-- has 64 bits.
abbrev toy_string : ℤ → Text
toy_string (pos n) = 1 ∷ n ∷ []
toy_string (negsuc n) = 2 ∷ n ∷ []

abbrev toy_number : ℕ → ℕ → Option ℤ
toy_number sign n =
    if not (ltb n (2 ^ 63))
    then none
    else if sign == 1
    then some (pos n)
    else if sign == 2
    then some (negsuc n)
    else none

abbrev toy_parse : Text → Option ℤ
toy_parse [] = none
toy_parse (a ∷ []) = if a == 48 then some (pos 0) else none
toy_parse (a ∷ n ∷ []) = toy_number a n
toy_parse (a ∷ n ∷ m ∷ s) = none

toy-bounded : (s : Text) (n : ℕ) → toy_parse s ≡ some (pos n) → n < 2 ^ 63
toy-bounded [] n e = absurd (ground arith)
toy-bounded (a ∷ []) n e = ground arith
toy-bounded (a ∷ x ∷ []) n e = ground arith
toy-bounded (a ∷ x ∷ y ∷ s) n e = absurd (ground arith)

toy-DurationLaws : DurationLaws toy_string toy_parse
toy-DurationLaws = record {
  parses = λ n fits. ground arith;
  bounded = toy-bounded;
  zero_text = refl;
  no_unit = refl;
}

parse_status-format_status_example :
    parse_status (format_status status_error (codes "Running: no"))
    ≡ (status_error, codes "Running: no")
parse_status-format_status_example =
    parse_status-format_status status_error (codes "Running: no") (inr (inl refl))

negative_parses : parse_keep_alive toy_parse (2 ∷ 59 ∷ []) ≡ some keep_alive_forever
unfolding parse_keep_alive text_eq
negative_parses = refl

parse_keep_alive_again_example :
    ((ltb_ℤ keep_alive_forever (pos 0) ≡ false) ⊎ (keep_alive_forever ≡ keep_alive_forever))
    × (parse_keep_alive toy_parse (keep_alive_string toy_string keep_alive_forever)
        ≡ some keep_alive_forever)
parse_keep_alive_again_example =
    parse_keep_alive_again toy_string toy_parse (2 ∷ 59 ∷ []) keep_alive_forever toy-DurationLaws
      negative_parses

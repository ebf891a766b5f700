-- ===== src/Common/Decimal.antt =====
-- Decimal numbers of Go's `fmt`: `%d` of a positive int64, and Sscanf with `%d`.
use Prim.Native.Nat.{ℕ, zero, suc, ◌+◌, ◌-◌, ◌*◌, ◌/◌, ◌%◌, ◌^◌, ◌<◌}
use mathlib.Core.Path.{◌≡◌, refl, ap, ◌∙◌}
use mathlib.Core.Logic.{inl, inr}
use mathlib.Core.Bool.{Bool, true, false, ◌&&◌, not}
use mathlib.Core.List.{List, [], ◌∷◌}
use mathlib.Core.Option.{Option, none, some}
use native.Mathlib.Omega.{arith}
use model_runner.Common.Tests.{leb, ltb, ◌==◌, if◌then◌else◌, Bool-cases}
use model_runner.Common.Lists.{length, drop}
use model_runner.Common.Texts.{Text, has_prefix}
use model_runner.Common.Strings.{spaces, trim_left, prefix_length}
use model_runner.Common.Int.{ℤ, pos, negsuc}
use model_runner.Common.Pigeonhole.{mem}

-- The digits of `n` before `out`, 20 at most, which is enough for an int64.
unfoldable pub digits_onto : ℕ → ℕ → Text → Text
digits_onto zero n out = out
digits_onto (suc fuel) n out =
    let out' = (48 + n % 10) ∷ out in
    elim (ltb n 10) [ true ↦ out' | false ↦ digits_onto fuel (n / 10) out' ]

unfoldable pub decimal : ℕ → Text
decimal n = digits_onto 20 n []

-- `%d` of an int.
unfoldable pub decimal_int : ℤ → Text
decimal_int (pos n) = decimal n
decimal_int (negsuc n) = 45 ∷ decimal (suc n)

unfoldable pub is_decimal_digit : ℕ → Bool
is_decimal_digit c = leb 48 c && leb c 57

-- The number that the digits at the front of the text are, after `acc`.
unfoldable pub number_from : ℕ → Text → ℕ
number_from acc [] = acc
number_from acc (c ∷ s) =
    let rest = number_from (acc * 10 + (c - 48)) s in if is_decimal_digit c then rest else acc

unfoldable pub has_digit : Text → Bool
has_digit [] = false
has_digit (c ∷ s) = is_decimal_digit c

-- A number after its sign; `none` where there is no digit or no int64 is that large.
unfoldable pub scan_unsigned : Bool → Text → Option ℤ
scan_unsigned negative s =
    let n = number_from 0 s in
    if not (has_digit s)
    then none
    else if negative
    then if n == 0 then some (pos 0) else if leb n (2 ^ 63) then some (negsuc (n - 1)) else none
    else if ltb n (2 ^ 63)
    then some (pos n)
    else none

unfoldable pub scan_signed : Text → Option ℤ
scan_signed [] = none
scan_signed (c ∷ s) =
    if c == 43
    then scan_unsigned false s
    else if c == 45
    then scan_unsigned true s
    else (scan_unsigned false (c ∷ s))

-- `fmt.Sscanf(s, "%d", &n)` on a text without line ends.
unfoldable pub scan_int : Text → Option ℤ
scan_int s = scan_signed (trim_left (length s) spaces s)

is_decimal_digit_of : (d : ℕ) → d < 10 → is_decimal_digit (48 + d) ≡ true
unfolding is_decimal_digit
is_decimal_digit_of d h = ground arith

number_from-digit :
    (acc n : ℕ) (out : Text)
    → number_from acc ((48 + n % 10) ∷ out) ≡ number_from (acc * 10 + n % 10) out
unfolding number_from
number_from-digit acc n out = simp (is_decimal_digit_of (n % 10) (omega arith)) (
    ap (λ k. number_from (acc * 10 + k) out) (let e : 48 + n % 10 - 48 ≡ n % 10 = omega arith in e))

tenth_lt : (n p : ℕ) → n < 10 * p → n / 10 < p
tenth_lt n p h = omega arith

digits_onto_last :
    (fuel n : ℕ) (out : Text) → ltb n 10 ≡ true → digits_onto (suc fuel) n out ≡ (48 + n % 10) ∷ out
unfolding digits_onto
digits_onto_last fuel n out e = ground arith

digits_onto_next :
    (fuel n : ℕ) (out : Text)
    → ltb n 10 ≡ false
    → digits_onto (suc fuel) n out ≡ digits_onto fuel (n / 10) ((48 + n % 10) ∷ out)
unfolding digits_onto
digits_onto_next fuel n out e = ground arith

number_from-digits_onto :
    (fuel n : ℕ) (out : Text)
    → n < 10 ^ fuel
    → number_from 0 (digits_onto fuel n out) ≡ number_from n out
unfolding digits_onto
number_from-digits_onto zero n out h =
    ap (λ k. number_from k out) (let e : 0 ≡ n = omega arith in e)
number_from-digits_onto (suc fuel) n out h = elim (Bool-cases (ltb n 10)) [
  | inl e ↦ rw (digits_onto_last fuel n out e) (
      number_from-digit 0 n out
      ∙ ap (λ k. number_from k out) (let s : 0 * 10 + n % 10 ≡ n = ground arith in s))
  | inr e ↦
      let smaller : n / 10 < 10 ^ fuel = tenth_lt n (10 ^ fuel) (omega arith) in
      rw (digits_onto_next fuel n out e) (
        number_from-digits_onto fuel (n / 10) ((48 + n % 10) ∷ out) smaller
        ∙ number_from-digit (n / 10) n out
        ∙ ap (λ k. number_from k out) (let s : n / 10 * 10 + n % 10 ≡ n = omega arith in s))
]

has_digit-digits_onto :
    (fuel n : ℕ) (out : Text) → has_digit out ≡ true → has_digit (digits_onto fuel n out) ≡ true
unfolding digits_onto has_digit
has_digit-digits_onto zero n out h = h
has_digit-digits_onto (suc fuel) n out h = elim (Bool-cases (ltb n 10)) [
  | inl e ↦ rw (digits_onto_last fuel n out e) (is_decimal_digit_of (n % 10) (omega arith))
  | inr e ↦ rw (digits_onto_next fuel n out e) (
      has_digit-digits_onto fuel (n / 10) ((48 + n % 10) ∷ out)
        (is_decimal_digit_of (n % 10) (omega arith)))
]

-- Digits stay digits: what a digit is not, no digit of a number is.
mem-digits_onto :
    (c fuel n : ℕ) (out : Text)
    → is_decimal_digit c ≡ false
    → mem c out ≡ false
    → mem c (digits_onto fuel n out) ≡ false
unfolding digits_onto mem
mem-digits_onto c zero n out other h = h
mem-digits_onto c (suc fuel) n out other h =
    let digit = is_decimal_digit_of (n % 10) (omega arith) in
    let different : (48 + n % 10 == c) ≡ false = grind arith in
    let here : mem c ((48 + n % 10) ∷ out) ≡ false = ground arith in
    elim (Bool-cases (ltb n 10)) [
      | inl e ↦ rw (digits_onto_last fuel n out e) here
      | inr e ↦
          rw (digits_onto_next fuel n out e)
            (mem-digits_onto c fuel (n / 10) ((48 + n % 10) ∷ out) other here)
    ]

-- Every text of the list starts, and not with a digit.
starts_otherwise : List Text → Bool
starts_otherwise [] = true
starts_otherwise ([] ∷ ps) = false
starts_otherwise ((c ∷ p) ∷ ps) = not (is_decimal_digit c) && starts_otherwise ps

prefix_length-digit :
    (ps : List Text) (s : Text)
    → starts_otherwise ps ≡ true
    → has_digit s ≡ true
    → prefix_length ps s ≡ 0
unfolding starts_otherwise prefix_length has_digit has_prefix
prefix_length-digit ps [] o d = absurd (ground arith)
prefix_length-digit [] (c ∷ s) o d = refl
prefix_length-digit ([] ∷ ps) (c ∷ s) o d = absurd (ground arith)
prefix_length-digit ((a ∷ p) ∷ ps) (c ∷ s) o d = ground (arith, prefix_length-digit ps (c ∷ s))

drop_zero : (s : Text) → drop 0 s ≡ s
drop_zero [] = refl
drop_zero (c ∷ s) = refl

trim_left-digit : (fuel : ℕ) (s : Text) → has_digit s ≡ true → trim_left fuel spaces s ≡ s
unfolding trim_left
trim_left-digit zero s d = refl
trim_left-digit (suc fuel) s d =
    let none_there : prefix_length spaces s ≡ 0 =
      prefix_length-digit spaces s (unfold starts_otherwise is_decimal_digit in refl) d in
    ap (λ k. trim_left fuel spaces (drop k s)) none_there
    ∙ ap (trim_left fuel spaces) (drop_zero s)
    ∙ trim_left-digit fuel s d

scan_signed-digit : (s : Text) → has_digit s ≡ true → scan_signed s ≡ scan_unsigned false s
unfolding scan_signed has_digit is_decimal_digit
scan_signed-digit [] d = absurd (ground arith)
scan_signed-digit (c ∷ s) d = ground arith

has_digit-decimal : (n : ℕ) → has_digit (decimal n) ≡ true
unfolding decimal has_digit
has_digit-decimal n = elim (Bool-cases (ltb n 10)) [
  | inl e ↦ rw (digits_onto_last 19 n [] e) (is_decimal_digit_of (n % 10) (omega arith))
  | inr e ↦ rw (digits_onto_next 19 n [] e) (
      has_digit-digits_onto 19 (n / 10) ((48 + n % 10) ∷ [])
        (is_decimal_digit_of (n % 10) (omega arith)))
]

scan_unsigned-value :
    (s : Text) (n : ℕ)
    → has_digit s ≡ true
    → number_from 0 s ≡ n
    → n < 2 ^ 63
    → scan_unsigned false s ≡ some (pos n)
unfolding scan_unsigned
scan_unsigned-value s n d e h = rw e (ground arith)

-- What `%d` writes, Sscanf reads.
pub scan_int-decimal : (n : ℕ) → n < 2 ^ 63 → scan_int (decimal n) ≡ some (pos n)
unfolding scan_int
scan_int-decimal n h =
    let digit = has_digit-decimal n in
    let value : number_from 0 (decimal n) ≡ n =
      unfold decimal number_from in number_from-digits_onto 20 n [] (omega arith) in
    ap scan_signed (trim_left-digit (length (decimal n)) (decimal n) digit)
    ∙ scan_signed-digit (decimal n) digit
    ∙ scan_unsigned-value (decimal n) n digit value h

-- The digits of a number are no dash.
pub mem-decimal : (c n : ℕ) → is_decimal_digit c ≡ false → mem c (decimal n) ≡ false
unfolding decimal mem
mem-decimal c n other = mem-digits_onto c 20 n [] other refl

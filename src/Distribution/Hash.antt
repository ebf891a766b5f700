-- ===== src/Distribution/Hash.antt =====
-- Hashes: pkg/distribution/oci/hash.go, and the checks of them in
-- pkg/distribution/internal/store/blobs.go.
use model_runner.Common.{
  ℕ, ◌*◌, Bool, true, false, ◌&&◌, ◌||◌, not, List, [], ◌∷◌, ◌++◌, Option, none, some, Text, codes,
  text_eq, leb, ◌==◌, if◌then◌else◌, length,
}

pub record Hash : Type 0 where
  pub algorithm : Text
  pub hex : Text

unfoldable pub hash_string : Hash → Text
hash_string h = h.algorithm ++ 58 ∷ h.hex

pub data HashError : Type 0 where
  cannot_parse non_hex_character unsupported_hash wrong_length : HashError

pub data HashResult : Type 0 where
  hash_ok : Hash → HashResult
  hash_error : HashError → HashResult

-- strings.Split at a separator of one byte.
unfoldable pub split_at : ℕ → Text → List Text
split_at c [] = [] ∷ []
split_at c (a ∷ s) =
    let rest = split_at c s in
    if a == c then [] ∷ rest else elim rest [ [] ↦ (a ∷ []) ∷ [] | p ∷ ps ↦ (a ∷ p) ∷ ps ]

unfoldable pub is_lower_hex : ℕ → Bool
is_lower_hex c = (leb 48 c && leb c 57) || (leb 97 c && leb c 102)

-- strings.TrimLeft with the digits and the letters from "a" to "f".
unfoldable pub trim_hex : Text → Text
trim_hex [] = []
trim_hex (c ∷ s) = let rest = trim_hex s in if is_lower_hex c then rest else c ∷ s

-- `hasher.Size()`, in bytes.
unfoldable pub hasher_size : Text → Option ℕ
hasher_size name = if text_eq name (codes "sha256") then some 32 else none

unfoldable pub parse_parts : List Text → HashResult
parse_parts (alg ∷ hex ∷ []) =
    if not (text_eq (trim_hex hex) [])
    then hash_error non_hex_character
    else elim (hasher_size alg) [
      | none ↦ hash_error unsupported_hash
      | some size ↦
          if not (length hex == size * 2)
          then hash_error wrong_length
          else hash_ok (record { algorithm = alg; hex = hex })
    ]
parse_parts [] = hash_error cannot_parse
parse_parts (alg ∷ []) = hash_error cannot_parse
parse_parts (alg ∷ hex ∷ more ∷ parts) = hash_error cannot_parse

unfoldable pub new_hash : Text → HashResult
new_hash s = parse_parts (split_at 58 s)

-- The checks of blobs.go.
unfoldable pub is_safe_algorithm : Text → Option ℕ
is_safe_algorithm a =
    if text_eq a (codes "sha256")
    then some 64
    else if text_eq a (codes "sha512")
    then some 128
    else none

unfoldable pub are_hex_digits : Text → Bool
are_hex_digits [] = true
are_hex_digits (c ∷ s) =
    ((leb 48 c && leb c 57) || (leb 97 c && leb c 102) || (leb 65 c && leb c 70))
    && are_hex_digits s

unfoldable pub is_safe_hex : ℕ → Text → Bool
is_safe_hex hex_length s = if length s == hex_length then are_hex_digits s else false

-- Whether validateHash returns nil.
unfoldable pub validate_hash : Hash → Bool
validate_hash h = elim (is_safe_algorithm h.algorithm) [
  | none ↦ false
  | some n ↦ is_safe_hex n h.hex
]

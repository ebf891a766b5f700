-- ===== src/Distribution/HashLaws.antt =====
-- The parsing and printing of hashes, and that a parsed hash is safe for a path.
use model_runner.Common.{
  ℕ, ◌≡◌, ◌↔◌, ◌⊎◌, refl, sym, ◌∙◌, ap, subst, true, false, List, [], ◌∷◌, ◌++◌, arith, Text, codes,
  text_eq, text_eq_iff, ◌==◌, if◌then◌else◌, length, Bool-cases, inl, inr,
}
use model_runner.Common.Pigeonhole.{mem}
use model_runner.Distribution.Hash.{
  Hash, hash_string, HashResult, HashError, hash_error, hash_ok, split_at, is_lower_hex, trim_hex,
  hasher_size, parse_parts, new_hash, is_safe_algorithm, are_hex_digits, is_safe_hex, validate_hash,
}

unfoldable pub join_at : ℕ → List Text → Text
join_at c [] = []
join_at c (p ∷ []) = p
join_at c (p ∷ q ∷ ps) = p ++ c ∷ join_at c (q ∷ ps)

-- The parts begin with one more byte.
grow : ℕ → List Text → List Text
grow x [] = (x ∷ []) ∷ []
grow x (p ∷ ps) = (x ∷ p) ∷ ps

split_at_step :
    (c x : ℕ) (s : Text)
    → split_at c (x ∷ s) ≡ (if x == c then [] ∷ split_at c s else grow x (split_at c s))
unfolding split_at grow
split_at_step c x s = ground arith

join_at-grow : (c x : ℕ) (ps : List Text) → join_at c (grow x ps) ≡ x ∷ join_at c ps
unfolding join_at grow
join_at-grow c x [] = refl
join_at-grow c x (p ∷ []) = refl
join_at-grow c x (p ∷ q ∷ ps) = refl

join_at_empty :
    (c : ℕ) (p : Text) (ps qs : List Text) → qs ≡ p ∷ ps → join_at c ([] ∷ qs) ≡ c ∷ join_at c qs
unfolding join_at
join_at_empty c p ps qs e = subst (λ x. join_at c ([] ∷ x) ≡ c ∷ join_at c x) (sym e) refl

split_at_filled : (c : ℕ) (s : Text) → (p : Text) × (ps : List Text) × (split_at c s ≡ p ∷ ps)
unfolding split_at grow
split_at_filled c [] = ([], [], refl)
split_at_filled c (x ∷ s) =
    let (p, ps, e) = split_at_filled c s in
    elim (Bool-cases (x == c)) [
      | inl hit ↦ ([], split_at c s, simp hit refl)
      | inr miss ↦ (x ∷ p, ps, ground (arith, split_at_step c x s))
    ]

pub join_at-split_at : (c : ℕ) (s : Text) → join_at c (split_at c s) ≡ s
join_at-split_at c [] = unfold join_at split_at in refl
join_at-split_at c (x ∷ s) =
    let (p, ps, e) = split_at_filled c s in
    let ih = join_at-split_at c s in
    elim (Bool-cases (x == c)) [
      | inl hit ↦
          let same : c ≡ x = ground arith in
          ap (join_at c) (split_at_step c x s ∙ simp hit refl)
          ∙ join_at_empty c p ps (split_at c s) e
          ∙ ap (λ y. y ∷ join_at c (split_at c s)) same
          ∙ ap (λ y. x ∷ y) ih
      | inr miss ↦
          ap (join_at c) (split_at_step c x s ∙ simp miss refl)
          ∙ join_at-grow c x (split_at c s)
          ∙ ap (λ y. x ∷ y) ih
    ]

-- A text that splits in two is the parts with the separator between.
split_at_two : (c : ℕ) (s a b : Text) → split_at c s ≡ a ∷ b ∷ [] → s ≡ a ++ c ∷ b
unfolding join_at
split_at_two c s a b h = sym (join_at-split_at c s) ∙ ap (join_at c) h

split_at-whole : (c : ℕ) (b : Text) → mem c b ≡ false → split_at c b ≡ b ∷ []
unfolding split_at mem
split_at-whole c [] h = refl
split_at-whole c (x ∷ b) h = let ih = split_at-whole c b in ground arith

split_at-append :
    (c : ℕ) (a b : Text) → mem c a ≡ false → mem c b ≡ false → split_at c (a ++ c ∷ b) ≡ a ∷ b ∷ []
unfolding split_at mem
split_at-append c [] b ha hb = ground (arith, split_at-whole c b hb)
split_at-append c (x ∷ a) b ha hb = let ih = split_at-append c a b in ground arith

-- What a hash is that NewHash gives: of sha256, with 64 digits.
pub record IsSha256 (h : Hash) : Type 0 where
  pub algorithm : h.algorithm ≡ codes "sha256"
  pub digits : length h.hex ≡ 64
  pub lower : trim_hex h.hex ≡ []

parse_parts_ok :
    (parts : List Text) (h : Hash)
    → parse_parts parts ≡ hash_ok h
    → (parts ≡ h.algorithm ∷ h.hex ∷ []) × IsSha256 h
unfolding parse_parts hasher_size
parse_parts_ok [] h e = absurd (ground arith)
parse_parts_ok (alg ∷ []) h e = absurd (ground arith)
parse_parts_ok (alg ∷ hex ∷ more ∷ parts) h e = absurd (ground arith)
parse_parts_ok (alg ∷ hex ∷ []) h e = elim (Bool-cases (text_eq (trim_hex hex) [])) [
  | inr bad ↦ absurd (ground arith)
  | inl lower ↦ elim (Bool-cases (text_eq alg (codes "sha256"))) [
    | inr other ↦ absurd (ground arith)
    | inl sha ↦ elim (Bool-cases (length hex == 64)) [
      | inr wrong ↦ absurd (ground arith)
      | inl right ↦
          let same : (let made : Hash = record { algorithm = alg; hex = hex } in made) ≡ h =
            ground arith in
          (
            ap (λ (x : Hash). x.algorithm ∷ x.hex ∷ []) same,
            subst IsSha256 same (record {
              algorithm = (text_eq_iff alg (codes "sha256")).0 sha;
              digits = ground arith;
              lower = (text_eq_iff (trim_hex hex) []).0 lower;
            }),
          )
    ]
  ]
]

parse_parts_of : (h : Hash) → IsSha256 h → parse_parts (h.algorithm ∷ h.hex ∷ []) ≡ hash_ok h
unfolding parse_parts hasher_size
parse_parts_of h v =
    let lower : text_eq (trim_hex h.hex) [] ≡ true = (text_eq_iff (trim_hex h.hex) []).1 v.lower in
    let sha : text_eq h.algorithm (codes "sha256") ≡ true =
      (text_eq_iff h.algorithm (codes "sha256")).1 v.algorithm in
    ground (arith, v.digits)

no_colon : (s : Text) → trim_hex s ≡ [] → mem 58 s ≡ false
unfolding trim_hex is_lower_hex mem
no_colon [] h = refl
no_colon (c ∷ s) h = let ih = no_colon s in ground arith

hex_digits_of_lower : (s : Text) → trim_hex s ≡ [] → are_hex_digits s ≡ true
unfolding trim_hex is_lower_hex are_hex_digits
hex_digits_of_lower [] h = refl
hex_digits_of_lower (c ∷ s) h = let ih = hex_digits_of_lower s in ground arith

sha256_no_colon : mem 58 (codes "sha256") ≡ false
unfolding mem
sha256_no_colon = refl

-- NewHash accepts exactly the strings of sha256 hashes with 64 lower-case digits, and gives the
-- hash that prints as the string.
pub new_hash_iff :
    (s : Text) (h : Hash) → (new_hash s ≡ hash_ok h) ↔ (IsSha256 h × (s ≡ hash_string h))
unfolding new_hash hash_string
new_hash_iff s h = (
  λ e.
      let (parts, v) = parse_parts_ok (split_at 58 s) h e in
      (v, split_at_two 58 s h.algorithm h.hex parts),
  λ e.
      let plain : mem 58 h.algorithm ≡ false = ap (mem 58) e.0.algorithm ∙ sha256_no_colon in
      ap (λ x. parse_parts (split_at 58 x)) e.1
      ∙ ap parse_parts (split_at-append 58 h.algorithm h.hex plain (no_colon h.hex e.0.lower))
      ∙ parse_parts_of h e.0,
)

-- Every hash that NewHash gives passes validateHash of the blob store.
pub new_hash-validate_hash : (s : Text) (h : Hash) → new_hash s ≡ hash_ok h → validate_hash h ≡ true
unfolding validate_hash is_safe_algorithm is_safe_hex
new_hash-validate_hash s h e =
    let v = ((new_hash_iff s h).0 e).0 in
    let sha : text_eq h.algorithm (codes "sha256") ≡ true =
      (text_eq_iff h.algorithm (codes "sha256")).1 v.algorithm in
    ground (arith, v.digits, hex_digits_of_lower h.hex v.lower)

pub HashResult-cases :
    (r : HashResult) → ((h : Hash) × (r ≡ hash_ok h)) ⊎ ((e : HashError) × (r ≡ hash_error e))
HashResult-cases (hash_ok h) = inl (h, refl)
HashResult-cases (hash_error e) = inr (e, refl)

-- ===== src/Flags/Safe.antt =====
-- Which flags ValidateRuntimeFlags of runtime_flags.go accepts, and why it refuses others.
use model_runner.Common.{
  ℕ, ◌≤◌, ◌≡◌, ◌↔◌, ◌⊎◌, inl, inr, refl, sym, ◌∙◌, ap, subst, true, false, ◌||◌, List, [], ◌∷◌,
  ◌++◌, none, some, arith, Text, codes, text_eq, has_prefix, index_of, length, take, take-append,
  Bool-cases,
}
use model_runner.Common.Pigeonhole.{mem}
use model_runner.Common.Bytes.{whole, parts, split, index_of-parts, index_of-whole}
use model_runner.Flags.Validate.{has_key, parse_flag_key}

-- `k` is the key of a flag: it starts with "-", and is all of it or what stands before its first
-- "=".
pub record IsKeyOf (k flag : Text) : Type 0 where
  pub dash : has_prefix (codes "-") k ≡ true
  pub plain : mem 61 k ≡ false
  pub place : (flag ≡ k) ⊎ ((v : Text) × (flag ≡ k ++ 61 ∷ v))

-- A value that cannot be taken for a flag: a digit follows where it starts with "-".
pub record IsPlainValue (v : Text) : Type 0 where
  pub digit :
      (rest : Text)
      → v ≡ 45 ∷ rest
      → (d : ℕ) × (more : Text) × (rest ≡ d ∷ more) × (48 ≤ d) × (d ≤ 57)

-- What the check is for, of one flag.
pub record IsSafe (allowed : List Text) (flag : Text) : Type 0 where
  pub key : (k : Text) → IsKeyOf k flag → has_key allowed k ≡ true
  pub value : (k v : Text) → mem 61 k ≡ false → flag ≡ k ++ 61 ∷ v → IsPlainValue v
  pub no_slash : mem 47 flag ≡ false
  pub no_backslash : mem 92 flag ≡ false

has_prefix-append_dash :
    (k v : Text) → has_prefix (codes "-") k ≡ true → has_prefix (codes "-") (k ++ v) ≡ true
unfolding has_prefix
has_prefix-append_dash [] v h = cc
has_prefix-append_dash (c ∷ k) v h = h

pub has_prefix-append_key :
    (k v : Text) → has_prefix (codes "-") (k ++ 61 ∷ v) ≡ true → has_prefix (codes "-") k ≡ true
unfolding has_prefix
has_prefix-append_key [] v h = absurd (ground arith)
has_prefix-append_key (c ∷ k) v h = h

pub parse_whole :
    (flag : Text)
    → has_prefix (codes "-") flag ≡ true
    → index_of (codes "=") flag ≡ none
    → parse_flag_key flag ≡ flag
unfolding parse_flag_key
parse_whole flag dash e = simp dash (rw (e, parse_flag_key) refl)

parts_of_flag :
    (flag k v : Text)
    → has_prefix (codes "-") flag ≡ true
    → index_of (codes "=") flag ≡ some (length k)
    → flag ≡ k ++ 61 ∷ v
    → parse_flag_key flag ≡ k
unfolding parse_flag_key
parts_of_flag flag k v dash e q =
    simp dash (rw (e, parse_flag_key) (ap (take (length k)) q ∙ take-append k (61 ∷ v)))

pub parse_flag_key_lem : (k flag : Text) → IsKeyOf k flag → parse_flag_key flag ≡ k
parse_flag_key_lem k flag h = elim h.place [
  | inl e ↦
      parse_whole flag (ap (has_prefix (codes "-")) e ∙ h.dash)
        (ap (index_of (codes "=")) e ∙ index_of-whole 61 k h.plain)
      ∙ e
  | inr (v, e) ↦
      parts_of_flag flag k v
        (ap (has_prefix (codes "-")) e ∙ has_prefix-append_dash k (61 ∷ v) h.dash)
        (ap (index_of (codes "=")) e ∙ index_of-parts 61 k v h.plain) e
]

pub parse-IsKeyOf :
    (flag : Text) → has_prefix (codes "-") flag ≡ true → IsKeyOf (parse_flag_key flag) flag
parse-IsKeyOf flag dash = elim (split 61 flag) [
  | whole m i ↦
      subst (λ k. IsKeyOf k flag) (sym (parse_whole flag dash i))
        (record { dash = dash; plain = m; place = inl refl })
  | parts k v m q i ↦
      subst (λ k. IsKeyOf k flag) (sym (parts_of_flag flag k v dash i q))
        (record {
          dash = has_prefix-append_key k v (ap (has_prefix (codes "-")) (sym q) ∙ dash);
          plain = m;
          place = inr (v, q);
        })
]

abbrev pub KeyOk : List Text → Text → Type 0
KeyOk allowed flag =
    (text_eq (parse_flag_key flag) [] || has_key allowed (parse_flag_key flag)) ≡ true

pub dash_not_empty : (k : Text) → has_prefix (codes "-") k ≡ true → text_eq k [] ≡ false
unfolding has_prefix text_eq
dash_not_empty [] h = cc
dash_not_empty (c ∷ k) h = refl

pub KeyOk-iff :
    (allowed : List Text) (flag : Text)
    → KeyOk allowed flag ↔ ((k : Text) → IsKeyOf k flag → has_key allowed k ≡ true)
KeyOk-iff allowed flag = (
  λ h k q.
      let same = parse_flag_key_lem k flag q in
      let there : has_key allowed (parse_flag_key flag) ≡ true =
        ground (arith, ap (λ x. text_eq x []) same ∙ dash_not_empty k q.dash) in
      sym (ap (has_key allowed) same) ∙ there,
  λ h. elim (Bool-cases (has_prefix (codes "-") flag)) [
    | inl dash ↦ let e = h (parse_flag_key flag) (parse-IsKeyOf flag dash) in ground arith
    | inr plain ↦ unfold parse_flag_key text_eq in simp plain refl
  ],
)

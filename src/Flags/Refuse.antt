-- ===== src/Flags/Refuse.antt =====
-- Why ValidateRuntimeFlags of runtime_flags.go refuses flags.
use model_runner.Common.{
  ◌≡◌, ◌⊎◌, inl, inr, refl, ap, ◌∙◌, true, false, ◌||◌, List, [], ◌∷◌, ◌++◌, some, arith, Text,
  codes, text_eq, text_eq_refl, has_prefix, contains, Bool-cases, Option-cases, length, drop, subst,
  drop-append_past, ◌+◌,
}
use model_runner.Common.Pigeonhole.{mem}
use model_runner.Common.Bytes.{whole, parts, split, contains-mem}
use model_runner.Flags.Validate.{
  has_key, get_allowed_flags, parse_flag_key, FlagError, not_allowed, invalid_value, has_path,
  check_keys, is_injected, validate_no_flag_injection, validate_path_safety, validate_runtime_flags,
}
use model_runner.Flags.Safe.{IsKeyOf, IsPlainValue, parse-IsKeyOf, dash_not_empty}
use model_runner.Flags.Accept.{is_injected_iff}

-- What an error says of the flags: one of them is at fault, in the way that the error names.
pub data Fault (allowed flags : List Text) : FlagError → Type 0 where
  bad_key :
      (k flag : Text)
      → has_key flags flag ≡ true
      → IsKeyOf k flag
      → has_key allowed k ≡ false
      → Fault allowed flags (not_allowed k)
  bad_value :
      (k v flag : Text)
      → has_key flags flag ≡ true
      → mem 61 k ≡ false
      → flag ≡ k ++ 61 ∷ v
      → (IsPlainValue v → ⊥)
      → Fault allowed flags (invalid_value flag)
  bad_path :
      (flag : Text)
      → has_key flags flag ≡ true
      → (mem 47 flag ≡ true) ⊎ (mem 92 flag ≡ true)
      → Fault allowed flags (has_path flag)

has_key_head : (flag : Text) (flags : List Text) → has_key (flag ∷ flags) flag ≡ true
unfolding has_key
has_key_head flag flags = ground (arith, text_eq_refl flag)

has_key_tail :
    (f flag : Text) (flags : List Text)
    → has_key flags flag ≡ true
    → has_key (f ∷ flags) flag ≡ true
unfolding has_key
has_key_tail f flag flags h = ground arith

Fault-tail :
    (allowed : List Text) (f : Text) (flags : List Text) (e : FlagError)
    → Fault allowed flags e
    → Fault allowed (f ∷ flags) e
Fault-tail allowed f flags e (bad_key k flag h q b) =
    bad_key k flag (has_key_tail f flag flags h) q b
Fault-tail allowed f flags e (bad_value k v flag h p q b) =
    bad_value k v flag (has_key_tail f flag flags h) p q b
Fault-tail allowed f flags e (bad_path flag h b) = bad_path flag (has_key_tail f flag flags h) b

plain_key_empty :
    (flag : Text) → has_prefix (codes "-") flag ≡ false → text_eq (parse_flag_key flag) [] ≡ true
unfolding parse_flag_key text_eq
plain_key_empty flag h = simp h refl

check_keys-Fault :
    (allowed flags : List Text) (e : FlagError)
    → check_keys allowed flags ≡ some e
    → Fault allowed flags e
unfolding check_keys
check_keys-Fault allowed [] e h = absurd (ground arith)
check_keys-Fault allowed (flag ∷ flags) e h = elim (Bool-cases (has_prefix (codes "-") flag)) [
  | inr plain ↦
      Fault-tail allowed flag flags e
        (check_keys-Fault allowed flags e (ground (arith, plain_key_empty flag plain)))
  | inl dash ↦
      let key = parse_flag_key flag in
      let is_key = parse-IsKeyOf flag dash in
      let filled = dash_not_empty key is_key.dash in
      elim (Bool-cases (has_key allowed key)) [
        | inl ok ↦ Fault-tail allowed flag flags e (check_keys-Fault allowed flags e (ground arith))
        | inr bad ↦
            subst (Fault allowed (flag ∷ flags)) (let f : not_allowed key ≡ e = ground arith in f)
              (bad_key key flag (has_key_head flag flags) is_key bad)
      ]
]

injection-Fault :
    (allowed flags : List Text) (e : FlagError)
    → validate_no_flag_injection flags ≡ some e
    → Fault allowed flags e
unfolding validate_no_flag_injection
injection-Fault allowed [] e h = absurd (ground arith)
injection-Fault allowed (flag ∷ flags) e h = elim (split 61 flag) [
  | whole m i ↦ Fault-tail allowed flag flags e (injection-Fault allowed flags e (ground arith))
  | parts k v m q i ↦
      let test : is_injected (drop (length k + 1) flag) ≡ is_injected v =
        ap is_injected (ap (drop (length k + 1)) q ∙ drop-append_past k 61 v) in
      elim (Bool-cases (is_injected v)) [
        | inl bad ↦
            subst (Fault allowed (flag ∷ flags))
              (let f : invalid_value flag ≡ e = ground arith in f)
              (bad_value k v flag (has_key_head flag flags) m q
                (λ ok. let f = (is_injected_iff v).1 ok in ground arith))
        | inr ok ↦ Fault-tail allowed flag flags e (injection-Fault allowed flags e (ground arith))
      ]
]

path-Fault :
    (allowed flags : List Text) (e : FlagError)
    → validate_path_safety flags ≡ some e
    → Fault allowed flags e
unfolding validate_path_safety
path-Fault allowed [] e h = absurd (ground arith)
path-Fault allowed (flag ∷ flags) e h =
    elim (Bool-cases (contains (codes "/") flag || contains (codes "\\") flag)) [
      | inl bad ↦
          subst (Fault allowed (flag ∷ flags)) (let f : has_path flag ≡ e = ground arith in f) (
            bad_path flag (has_key_head flag flags)
              (ground (arith, contains-mem 47 flag, contains-mem 92 flag)))
      | inr ok ↦ Fault-tail allowed flag flags e (path-Fault allowed flags e (ground arith))
    ]

-- An error of ValidateRuntimeFlags names a flag that was given and is at fault as the error says.
pub validate_runtime_flags-Fault :
    (backend_name : Text) (flags : List Text) (e : FlagError)
    → validate_runtime_flags backend_name flags ≡ some e
    → Fault (get_allowed_flags backend_name) flags e
unfolding validate_runtime_flags
validate_runtime_flags-Fault backend_name flags e h =
    elim (Option-cases (check_keys (get_allowed_flags backend_name) flags)) [
      | inr (e', at) ↦ check_keys-Fault (get_allowed_flags backend_name) flags e (ground arith)
      | inl clean ↦ elim (Option-cases (validate_no_flag_injection flags)) [
        | inr (e', at) ↦ injection-Fault (get_allowed_flags backend_name) flags e (ground arith)
        | inl pure ↦ path-Fault (get_allowed_flags backend_name) flags e (ground arith)
      ]
    ]

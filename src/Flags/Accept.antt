-- ===== src/Flags/Accept.antt =====
-- Which flags ValidateRuntimeFlags of runtime_flags.go accepts.
use model_runner.Common.{
  ◌+◌, ◌≤◌, ◌≡◌, ◌↔◌, inl, inr, refl, sym, ◌∙◌, ap, subst, false, List, [], ◌∷◌, ◌++◌, none, some,
  arith, Text, codes, has_prefix, index_of, ◌==◌, length, drop, drop-append_past, All, Bool-cases,
}
use model_runner.Common.Pigeonhole.{mem}
use model_runner.Common.Bytes.{whole, parts, split, index_of-parts, contains-mem}
use model_runner.Flags.Validate.{
  get_allowed_flags, is_digit, check_keys, is_injected, validate_no_flag_injection,
  validate_path_safety, validate_runtime_flags,
}
use model_runner.Flags.Safe.{IsPlainValue, IsSafe, KeyOk, KeyOk-iff}

pub is_injected_iff : (v : Text) → (is_injected v ≡ false) ↔ IsPlainValue v
unfolding is_injected is_digit has_prefix
is_injected_iff [] = (λ h. record { digit = λ rest e. absurd (ground arith) }, λ h. refl)
is_injected_iff (a ∷ []) = (
  λ h. record { digit = λ rest e. absurd (ground arith) },
  λ h. elim (Bool-cases (45 == a)) [
    | inl dash ↦
        let (d, more, e, low, high) =
          h.digit [] (ap (λ x. x ∷ []) (let f : a ≡ 45 = ground arith in f)) in
        absurd (ground arith)
    | inr other ↦ simp other refl
  ],
)
is_injected_iff (a ∷ b ∷ v) = (
  λ h. record {
    digit = λ rest e. (
      b,
      v,
      (let f : rest ≡ b ∷ v = ground arith in f),
      (let f : 48 ≤ b = ground arith in f),
      (let f : b ≤ 57 = ground arith in f),
    );
  },
  λ h. elim (Bool-cases (45 == a)) [
    | inl dash ↦
        let (d, more, e, low, high) =
          h.digit (b ∷ v) (ap (λ x. x ∷ b ∷ v) (let f : a ≡ 45 = ground arith in f)) in
        ground arith
    | inr other ↦ simp other refl
  ],
)

abbrev ValueOk : Text → Type 0
ValueOk flag = (k v : Text) → mem 61 k ≡ false → flag ≡ k ++ 61 ∷ v → IsPlainValue v

value_unique :
    (flag k v k' v' : Text)
    → index_of (codes "=") flag ≡ some (length k)
    → flag ≡ k ++ 61 ∷ v
    → mem 61 k' ≡ false
    → flag ≡ k' ++ 61 ∷ v'
    → v ≡ v'
value_unique flag k v k' v' i q plain e =
    let at = ap (index_of (codes "=")) e ∙ index_of-parts 61 k' v' plain in
    let same : length k ≡ length k' = ground arith in
    sym (ap (drop (length k + 1)) q ∙ drop-append_past k 61 v)
    ∙ ap (λ n. drop (n + 1) flag) same
    ∙ ap (drop (length k' + 1)) e
    ∙ drop-append_past k' 61 v'

value_step :
    (flag : Text) (flags : List Text)
    → (validate_no_flag_injection (flag ∷ flags) ≡ none)
      ↔ (ValueOk flag × (validate_no_flag_injection flags ≡ none))
unfolding validate_no_flag_injection
value_step flag flags = elim (split 61 flag) [
  | whole m i ↦ (
    λ h. (
      λ k v plain e.
          absurd
            (let f = ap (index_of (codes "=")) e ∙ index_of-parts 61 k v plain in ground arith),
      ground arith,
    ),
    λ h. rw (i, validate_no_flag_injection) h.1,
  )
  | parts k v m q i ↦
      let same : drop (length k + 1) flag ≡ v =
        ap (drop (length k + 1)) q ∙ drop-append_past k 61 v in
      let test = ap is_injected same in
      let iff = is_injected_iff v in
      (
        λ h. (
          λ k' v' plain e.
              subst IsPlainValue (value_unique flag k v k' v' i q plain e) (iff.0 (ground arith)),
          ground arith,
        ),
        λ h. let ok = iff.1 (h.0 k v m q) in ground arith,
      )
]

path_step :
    (flag : Text) (flags : List Text)
    → (validate_path_safety (flag ∷ flags) ≡ none)
      ↔ ((mem 47 flag ≡ false) × (mem 92 flag ≡ false) × (validate_path_safety flags ≡ none))
unfolding validate_path_safety
path_step flag flags =
    let slash = contains-mem 47 flag in
    let backslash = contains-mem 92 flag in (λ h. ground arith, λ h. ground arith)

key_step :
    (allowed : List Text) (flag : Text) (flags : List Text)
    → (check_keys allowed (flag ∷ flags) ≡ none)
      ↔ (KeyOk allowed flag × (check_keys allowed flags ≡ none))
unfolding check_keys
key_step allowed flag flags = (λ h. ground arith, λ h. ground arith)

AllLoops : List Text → List Text → Type 0
AllLoops allowed flags =
    (check_keys allowed flags ≡ none)
    × (validate_no_flag_injection flags ≡ none)
    × (validate_path_safety flags ≡ none)

all_loops :
    (allowed flags : List Text)
    → AllLoops allowed flags
    → (check_keys allowed flags ≡ none)
      × (validate_no_flag_injection flags ≡ none)
      × (validate_path_safety flags ≡ none)
unfolding AllLoops
all_loops allowed flags h = h

AllLoops-iff : (allowed flags : List Text) → AllLoops allowed flags ↔ All (IsSafe allowed) flags
unfolding AllLoops
AllLoops-iff allowed [] = (
  λ h. tt,
  λ h. unfold check_keys validate_no_flag_injection validate_path_safety in (refl, refl, refl),
)
AllLoops-iff allowed (flag ∷ flags) =
    let (to, from) = AllLoops-iff allowed flags in
    (
      λ h.
          let (key, keys) = (key_step allowed flag flags).0 h.0 in
          let (value, values) = (value_step flag flags).0 h.1 in
          let (slash, backslash, paths) = (path_step flag flags).0 h.2 in
          (
            record {
              key = (KeyOk-iff allowed flag).0 key;
              value = value;
              no_slash = slash;
              no_backslash = backslash;
            },
            to (keys, values, paths),
          ),
      λ h.
          let (keys, values, paths) = from h.1 in
          let safe = h.0 in
          (
            (key_step allowed flag flags).1 ((KeyOk-iff allowed flag).1 safe.key, keys),
            (value_step flag flags).1 (safe.value, values),
            (path_step flag flags).1 (safe.no_slash, safe.no_backslash, paths),
          ),
    )

-- ValidateRuntimeFlags accepts exactly the flags that are all safe: key on the allowlist, value
-- not a flag, no path separator.
pub validate_runtime_flags_lem :
    (backend_name : Text) (flags : List Text)
    → (validate_runtime_flags backend_name flags ≡ none)
      ↔ All (IsSafe (get_allowed_flags backend_name)) flags
unfolding validate_runtime_flags
validate_runtime_flags_lem backend_name flags =
    let (to, from) = AllLoops-iff (get_allowed_flags backend_name) flags in
    (
      λ h. to (unfold AllLoops in (ground arith, ground arith, ground arith)),
      λ h. let loops = all_loops (get_allowed_flags backend_name) flags (from h) in ground arith,
    )

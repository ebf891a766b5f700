-- ===== src/Flags/Validate.antt =====
-- ValidateRuntimeFlags of runtime_flags.go with its helpers, and ParseFlagKey and GetAllowedFlags
-- of runtime_flags_allowlist.go.

use model_runner.Common.{
  ℕ, ◌+◌, Bool, false, ◌&&◌, ◌||◌, not, List, [], ◌∷◌, Option, none, some, map, Text, codes,
  text_eq, has_prefix, index_of, contains, ltb, leb, if◌then◌else◌, length, get_or, take, drop,
}
use model_runner.Flags.LlamaCpp.{llama_cpp_allowed_flags}
use model_runner.Flags.Vllm.{vllm_allowed_flags}

-- `!m[key]` of a map whose values are all true, kept as the list of its keys.
unfoldable pub has_key : List Text → Text → Bool
has_key [] key = false
has_key (k ∷ ks) key = text_eq k key || has_key ks key

abbrev pub backend_llama_cpp : Text
backend_llama_cpp = codes "llama.cpp"

abbrev pub backend_vllm : Text
backend_vllm = codes "vllm"

-- The nil map of an unknown backend has no key.
unfoldable pub get_allowed_flags : Text → List Text
get_allowed_flags backend_name =
    if text_eq backend_name backend_llama_cpp
    then map codes llama_cpp_allowed_flags
    else if text_eq backend_name backend_vllm
    then map codes vllm_allowed_flags
    else []

unfoldable pub parse_flag_key : Text → Text
parse_flag_key flag =
    if not (has_prefix (codes "-") flag)
    then []
    else elim (index_of (codes "=") flag) [ none ↦ flag | some i ↦ take i flag ]

unfoldable pub is_digit : ℕ → Bool
is_digit b = leb 48 b && leb b 57

pub data FlagError : Type 0 where
  not_allowed invalid_value has_path : Text → FlagError

-- The loop of ValidateRuntimeFlags.
unfoldable pub check_keys : List Text → List Text → Option FlagError
check_keys allowed [] = none
check_keys allowed (flag ∷ flags) =
    let rest = check_keys allowed flags in
    let key = parse_flag_key flag in
    if text_eq key []
    then rest
    else if not (has_key allowed key)
    then some (not_allowed key)
    else rest

-- Whether a value is taken for a flag: it starts with "-" and no digit follows.
unfoldable pub is_injected : Text → Bool
is_injected value =
    has_prefix (codes "-") value && (ltb (length value) 2 || not (is_digit (get_or value 1 0)))

unfoldable pub validate_no_flag_injection : List Text → Option FlagError
validate_no_flag_injection [] = none
validate_no_flag_injection (flag ∷ flags) =
    let rest = validate_no_flag_injection flags in
    elim (index_of (codes "=") flag) [
      | none ↦ rest
      | some i ↦ if is_injected (drop (i + 1) flag) then some (invalid_value flag) else rest
    ]

unfoldable pub validate_path_safety : List Text → Option FlagError
validate_path_safety [] = none
validate_path_safety (flag ∷ flags) =
    let rest = validate_path_safety flags in
    if contains (codes "/") flag || contains (codes "\\") flag then some (has_path flag) else rest

-- `none` is a nil error.
unfoldable pub validate_runtime_flags : Text → List Text → Option FlagError
validate_runtime_flags backend_name flags =
    elim (check_keys (get_allowed_flags backend_name) flags) [
      | some e ↦ some e
      | none ↦ elim (validate_no_flag_injection flags) [
        | some e ↦ some e
        | none ↦ validate_path_safety flags
      ]
    ]

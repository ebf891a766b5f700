-- ===== src/Flags/Tests.antt =====
-- Runs of the flag check, and the theorems at concrete flags.
use model_runner.Common.{
  ◌≡◌, ◌↔◌, refl, List, [], ◌∷◌, none, some, Text, codes, All, true, text_eq, has_prefix, index_of,
  contains,
}
use model_runner.Flags.Validate.{
  has_key, get_allowed_flags, backend_vllm, validate_runtime_flags, invalid_value, check_keys,
  validate_no_flag_injection, validate_path_safety, parse_flag_key, is_injected, is_digit,
}
use model_runner.Flags.Vllm.{vllm_allowed_flags}
use model_runner.Flags.Safe.{IsSafe}
use model_runner.Flags.Accept.{validate_runtime_flags_lem}
use model_runner.Flags.Refuse.{Fault, validate_runtime_flags-Fault}

abbrev good_flags : List Text
good_flags = codes "--seed=-1" ∷ codes "--max-model-len" ∷ codes "4096" ∷ []

abbrev injected_flags : List Text
injected_flags = codes "--seed=--log-file=foo" ∷ []

good_flags_accepted : validate_runtime_flags backend_vllm good_flags ≡ none
unfolding validate_runtime_flags check_keys has_key get_allowed_flags parse_flag_key
    vllm_allowed_flags validate_no_flag_injection validate_path_safety is_injected is_digit text_eq
    has_prefix index_of contains
good_flags_accepted = refl

injected_flags_refused :
    validate_runtime_flags backend_vllm injected_flags
    ≡ some (invalid_value (codes "--seed=--log-file=foo"))
unfolding validate_runtime_flags check_keys has_key get_allowed_flags parse_flag_key
    vllm_allowed_flags validate_no_flag_injection validate_path_safety is_injected is_digit text_eq
    has_prefix index_of contains
injected_flags_refused = refl

seed_listed : has_key (get_allowed_flags backend_vllm) (codes "--seed") ≡ true
unfolding has_key get_allowed_flags vllm_allowed_flags text_eq
seed_listed = refl

validate_runtime_flags_example :
    (validate_runtime_flags backend_vllm good_flags ≡ none)
    ↔ All (IsSafe (get_allowed_flags backend_vllm)) good_flags
validate_runtime_flags_example = validate_runtime_flags_lem backend_vllm good_flags

validate_runtime_flags-Fault_example :
    Fault
      (get_allowed_flags backend_vllm)
      injected_flags
      (invalid_value (codes "--seed=--log-file=foo"))
validate_runtime_flags-Fault_example =
    validate_runtime_flags-Fault backend_vllm injected_flags
      (invalid_value (codes "--seed=--log-file=foo")) injected_flags_refused

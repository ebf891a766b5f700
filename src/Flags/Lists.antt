-- ===== src/Flags/Lists.antt =====
-- The lists of runtime_flags_allowlist.go as a whole.

use model_runner.Common.{
  ℕ, ◌≡◌, refl, sym, ap, ◌∙◌, Bool, true, false, ◌&&◌, not, List, [], ◌∷◌, ◌++◌, none, arith, inl,
  inr, Text, codes, map, text_eq, text_eq_iff, has_prefix, if◌then◌else◌, Bool-cases,
}
use model_runner.Common.Pigeonhole.{mem}
use model_runner.Common.Bytes.{index_of-whole}
use model_runner.Flags.LlamaCpp.{llama_cpp_allowed_flags}
use model_runner.Flags.Vllm.{vllm_allowed_flags}
use model_runner.Flags.Validate.{has_key, get_allowed_flags, validate_runtime_flags}
use model_runner.Flags.Safe.{IsSafe, parse_flag_key_lem, parse_whole}
use model_runner.Flags.Accept.{validate_runtime_flags_lem}

is_clean : Text → Bool
is_clean k = has_prefix (codes "-") k && not (mem 61 k) && not (mem 47 k) && not (mem 92 k)

are_clean : List Text → Bool
are_clean [] = true
are_clean (k ∷ ks) = is_clean k && are_clean ks

has_key-is_clean :
    (ks : List Text) (k : Text) → are_clean ks ≡ true → has_key ks k ≡ true → is_clean k ≡ true
unfolding are_clean has_key
has_key-is_clean [] k h q = cc
has_key-is_clean (j ∷ ks) k h q = elim (Bool-cases (text_eq j k)) [
  | inl e ↦ ap is_clean (sym ((text_eq_iff j k).0 e)) ∙ ground arith
  | inr e ↦ has_key-is_clean ks k (ground arith) (ground arith)
]

vllm_clean : are_clean (map codes vllm_allowed_flags) ≡ true
unfolding are_clean is_clean vllm_allowed_flags has_prefix mem
vllm_clean = refl

llama_cpp_clean : are_clean (map codes llama_cpp_allowed_flags) ≡ true
unfolding are_clean is_clean llama_cpp_allowed_flags has_prefix mem
llama_cpp_clean = refl

if-are_clean :
    (b : Bool) (x y : List Text)
    → are_clean x ≡ true
    → are_clean y ≡ true
    → are_clean (if b then x else y) ≡ true
if-are_clean true x y hx hy = hx
if-are_clean false x y hx hy = hy

nil_clean : are_clean [] ≡ true
unfolding are_clean
nil_clean = refl

allowed_clean : (backend_name : Text) → are_clean (get_allowed_flags backend_name) ≡ true
unfolding get_allowed_flags
allowed_clean backend_name =
    if-are_clean _ _ _ llama_cpp_clean (if-are_clean _ _ _ vllm_clean nil_clean)

not_parts : (c : ℕ) (k v : Text) → mem c (k ++ c ∷ v) ≡ true
unfolding mem
not_parts c [] v = ground arith
not_parts c (a ∷ k) v = ground (arith, not_parts c k v)

clean-IsSafe :
    (allowed : List Text) (key : Text)
    → has_key allowed key ≡ true
    → is_clean key ≡ true
    → IsSafe allowed key
unfolding is_clean
clean-IsSafe allowed key listed clean =
    let dash : has_prefix (codes "-") key ≡ true = ground arith in
    let plain : mem 61 key ≡ false = ground arith in
    record {
      key = λ k q.
          let same : key ≡ k =
            sym (parse_whole key dash (index_of-whole 61 key plain)) ∙ parse_flag_key_lem k key q in
          ap (has_key allowed) (sym same) ∙ listed;
      value = λ k v m e. absurd (let f = ap (mem 61) e ∙ not_parts 61 k v in ground arith);
      no_slash = ground arith;
      no_backslash = ground arith;
    }

-- Every flag on a backend's allowlist is accepted for it when given alone.
pub validate_runtime_flags-allowed :
    (backend_name key : Text)
    → has_key (get_allowed_flags backend_name) key ≡ true
    → validate_runtime_flags backend_name (key ∷ []) ≡ none
validate_runtime_flags-allowed backend_name key listed =
    (validate_runtime_flags_lem backend_name (key ∷ [])).1 (
      clean-IsSafe (get_allowed_flags backend_name) key listed (
          has_key-is_clean (get_allowed_flags backend_name) key (allowed_clean backend_name)
            listed),
      tt,
    )

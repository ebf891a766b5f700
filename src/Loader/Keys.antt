-- ===== src/Loader/Keys.antt =====
-- pkg/inference/scheduling/loader.go: the keys under which runners and configurations are kept.
use model_runner.Common.{◌≡◌, ◌↔◌, Bool, true, false, ◌&&◌, arith, [], Text, text_eq, text_eq_iff}
use model_runner.Common.Assoc.{Eq}

-- inference.BackendMode of pkg/inference/backend.go, with its declared values.
pub data BackendMode : Type 0 where
  completion embedding reranking image_generation : BackendMode

unfoldable pub mode_eq : BackendMode → BackendMode → Bool
mode_eq completion completion = true
mode_eq embedding embedding = true
mode_eq reranking reranking = true
mode_eq image_generation image_generation = true
mode_eq _ _ = false

pub mode_eq_iff : (a b : BackendMode) → (mode_eq a b ≡ true) ↔ (a ≡ b)
unfolding mode_eq
mode_eq_iff a b = ground arith

pub record RunnerKey : Type 0 where
  pub backend : Text
  pub model_id : Text
  pub draft_model_id : Text
  pub mode : BackendMode

unfoldable pub make_config_key : Text → Text → BackendMode → RunnerKey
make_config_key backend_name model_id mode = record {
  backend = backend_name;
  model_id = model_id;
  draft_model_id = [];
  mode = mode;
}

unfoldable pub make_runner_key : Text → Text → Text → BackendMode → RunnerKey
make_runner_key backend_name model_id draft_model_id mode = record {
  backend = backend_name;
  model_id = model_id;
  draft_model_id = draft_model_id;
  mode = mode;
}

-- `==` on the struct, which Go's maps compare keys by.
unfoldable pub key_eq : RunnerKey → RunnerKey → Bool
key_eq a b =
    text_eq a.backend b.backend
    && text_eq a.model_id b.model_id
    && text_eq a.draft_model_id b.draft_model_id
    && mode_eq a.mode b.mode

pub key_eq_iff : (a b : RunnerKey) → (key_eq a b ≡ true) ↔ (a ≡ b)
unfolding key_eq
key_eq_iff a b = ground (
  arith,
  text_eq_iff a.backend b.backend,
  text_eq_iff a.model_id b.model_id,
  text_eq_iff a.draft_model_id b.draft_model_id,
  mode_eq_iff a.mode b.mode,
)

instance abbrev pub runner_key_eq : Eq RunnerKey
runner_key_eq = record { beq = key_eq; beq_iff = key_eq_iff }

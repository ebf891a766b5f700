-- ===== src/Loader/Protect.antt =====
-- Runners in use stay: eviction and unloading in loader.go free only slots without references.
use model_runner.Common.{
  ℕ, ◌≡◌, ◌≢◌, refl, sym, ◌∙◌, ap, Bool, true, false, List, [], ◌∷◌, some, arith, Text,
  if◌then◌else◌, Bool-cases, inl, inr, get_or,
}
use model_runner.Common.Assoc.{lookup}
use model_runner.Loader.Keys.{
  RunnerKey, BackendMode, completion, embedding, reranking, image_generation, runner_key_eq,
}
use model_runner.Loader.State.{Loader, RunnerInfo, BackendConfiguration, references_at}
use model_runner.Loader.Evict.{
  free_where, is_evictable, evict, is_target, evict_runner, is_of_backend, unload_backend,
  UnloadRequest, delete_configs, unload_model, unload_models, unload,
}
use model_runner.Loader.Invariant.{IsValid}
use model_runner.Loader.Eviction.{
  IsLocal, lookup-free_where, is_evictable-IsLocal, is_target-IsLocal, is_of_backend-IsLocal,
  evict_runner-IsValid,
}
use model_runner.Loader.Shrink.{free_where-Keeps}
use model_runner.Loader.Operations.{configs-IsValid, unload_model-IsValid}

-- From `l` to `l'` every registered runner that has a reference stays registered, with a reference.
abbrev pub Protects : Loader → Loader → Type 0
Protects l l' =
    (k : RunnerKey) (i : RunnerInfo)
    → lookup k l.runners ≡ some i
    → references_at l i.slot ≢ 0
    → (lookup k l'.runners ≡ some i) × (references_at l' i.slot ≢ 0)

pub Protects-trans : (l m n : Loader) → Protects l m → Protects m n → Protects l n
Protects-trans l m n a b =
    λ k i found used. let (there, still) = a k i found used in b k i there still

pub Protects-same :
    (l l' : Loader) → l'.runners ≡ l.runners → l'.references ≡ l.references → Protects l l'
unfolding references_at
Protects-same l l' runners references = λ k i found used.
    (ap (lookup k) runners ∙ found, λ z. used (ap (λ xs. get_or xs i.slot 0) (sym references) ∙ z))

pub free_where-Protects :
    (picks : Loader → RunnerKey → RunnerInfo → Bool) (l : Loader)
    → IsLocal picks
    → ((k : RunnerKey) (i : RunnerInfo) → picks l k i ≡ true → references_at l i.slot ≡ 0)
    → IsValid l
    → Protects l (free_where picks l.runners l 0).0
free_where-Protects picks l local unused v = λ k i found used.
    let after = lookup-free_where picks local l.runners l 0 v.keys (λ j a h. h) v k in
    let keeps = (free_where-Keeps picks l.runners l 0).references in
    let spared_it : picks l k i ≡ false = elim (Bool-cases (picks l k i)) [
      | inl hit ↦ absurd (used (unused k i hit))
      | inr miss ↦ miss
    ] in
    (
      ground arith,
      unfold references_at in λ z. used (ap (λ xs. get_or xs i.slot 0) (sym keeps) ∙ z),
    )

is_evictable_unused :
    (l : Loader) (now : ℕ) (idle_only : Bool) (k : RunnerKey) (i : RunnerInfo)
    → is_evictable l now idle_only k i ≡ true
    → references_at l i.slot ≡ 0
unfolding is_evictable
is_evictable_unused l now idle_only k i h = ground arith

is_target_unused :
    (backend model : Text) (mode : BackendMode) (l : Loader) (k : RunnerKey) (i : RunnerInfo)
    → is_target backend model mode l k i ≡ true
    → references_at l i.slot ≡ 0
unfolding is_target
is_target_unused backend model mode l k i h = ground arith

is_of_backend_unused :
    (backend : Text) (l : Loader) (k : RunnerKey) (i : RunnerInfo)
    → is_of_backend backend l k i ≡ true
    → references_at l i.slot ≡ 0
unfolding is_of_backend
is_of_backend_unused backend l k i h = ground arith

pub evict-Protects :
    (l : Loader) (now : ℕ) (idle_only : Bool) → IsValid l → Protects l (evict l now idle_only).0
unfolding evict
evict-Protects l now idle_only v =
    free_where-Protects (λ s. is_evictable s now idle_only) l (is_evictable-IsLocal now idle_only)
      (λ k i h. is_evictable_unused l now idle_only k i h) v

pub evict_runner-Protects :
    (l : Loader) (backend model : Text) (mode : BackendMode)
    → IsValid l
    → Protects l (evict_runner l backend model mode).0
unfolding evict_runner
evict_runner-Protects l backend model mode v =
    free_where-Protects (is_target backend model mode) l (is_target-IsLocal backend model mode)
      (λ k i h. is_target_unused backend model mode l k i h) v

pub unload_backend-Protects :
    (l : Loader) (locked : Bool) (backend : Text)
    → IsValid l
    → Protects l (unload_backend l locked backend).0
unfolding unload_backend
unload_backend-Protects l false backend v = λ k i found used. (found, used)
unload_backend-Protects l true backend v =
    free_where-Protects (is_of_backend backend) l (is_of_backend-IsLocal backend)
      (λ k i h. is_of_backend_unused backend l k i h) v

configs-Protects :
    (l : Loader) (configs : List (RunnerKey × BackendConfiguration))
    → Protects l (record l { runner_configs = configs })
configs-Protects l configs = Protects-same l (record l { runner_configs = configs }) refl refl

unload_model-Protects :
    (l : Loader) (backend model_id : Text)
    → IsValid l
    → Protects l (unload_model l backend model_id)
unfolding unload_model
unload_model-Protects l backend model_id v =
    let configs = delete_configs backend model_id l.runner_configs l.runner_configs in
    let l₀ = record l { runner_configs = configs } in
    let v₀ = configs-IsValid l configs v in
    let l₁ = (evict_runner l₀ backend model_id completion).0 in
    let v₁ = evict_runner-IsValid l₀ backend model_id completion v₀ in
    let l₂ = (evict_runner l₁ backend model_id embedding).0 in
    let v₂ = evict_runner-IsValid l₁ backend model_id embedding v₁ in
    let l₃ = (evict_runner l₂ backend model_id reranking).0 in
    let v₃ = evict_runner-IsValid l₂ backend model_id reranking v₂ in
    let l₄ = (evict_runner l₃ backend model_id image_generation).0 in
    Protects-trans l l₀ l₄ (configs-Protects l configs) (
      Protects-trans l₀ l₁ l₄ (evict_runner-Protects l₀ backend model_id completion v₀) (
        Protects-trans l₁ l₂ l₄ (evict_runner-Protects l₁ backend model_id embedding v₁) (
          Protects-trans l₂ l₃ l₄ (evict_runner-Protects l₂ backend model_id reranking v₂)
            (evict_runner-Protects l₃ backend model_id image_generation v₃))))

unload_models-Protects :
    (resolve_id : Text → Text) (models : List Text) (l : Loader) (backend : Text)
    → IsValid l
    → Protects l (unload_models resolve_id l backend models)
unfolding unload_models
unload_models-Protects resolve_id [] l backend v = λ k i found used. (found, used)
unload_models-Protects resolve_id (m ∷ ms) l backend v =
    let l' = unload_model l backend (resolve_id m) in
    Protects-trans l l' (unload_models resolve_id l' backend ms)
      (unload_model-Protects l backend (resolve_id m) v)
      (unload_models-Protects resolve_id ms l' backend
        (unload_model-IsValid l backend (resolve_id m) v))

pub if-Protects :
    (b : Bool) (l x y : Loader) → Protects l x → Protects l y → Protects l (if b then x else y)
if-Protects true l x y hx hy = hx
if-Protects false l x y hx hy = hy

pub unload-Protects :
    (resolve_id : Text → Text) (l : Loader) (now : ℕ) (locked : Bool) (request : UnloadRequest)
    → IsValid l
    → Protects l (unload resolve_id l now locked request).0
unfolding unload
unload-Protects resolve_id l now false request v = λ k i found used. (found, used)
unload-Protects resolve_id l now true request v =
    let l₀ = record l { runner_configs = [] } in
    if-Protects request.all l _ _
      (Protects-trans l l₀ (evict l₀ now false).0 (configs-Protects l [])
        (evict-Protects l₀ now false (configs-IsValid l [] v)))
      (unload_models-Protects resolve_id request.models l request.backend v)

-- ===== src/Loader/Unloading.antt =====
-- What `Unload` and `UnloadBackend` of loader.go remove and return.
use model_runner.Common.{
  ℕ, ◌+◌, ◌≤◌, ◌≡◌, ◌∙◌, Bool, true, false, List, [], ◌∷◌, none, some, arith, Text, length,
  if◌then◌else◌, ◌⊎◌, inl, inr, text_eq, text_eq_iff, Bool-cases,
}
use model_runner.Common.Assoc.{lookup}
use model_runner.Loader.Keys.{
  RunnerKey, BackendMode, mode_eq_iff, completion, embedding, reranking, image_generation,
  runner_key_eq,
}
use model_runner.Loader.State.{Loader, RunnerInfo, references_at}
use model_runner.Loader.Evict.{
  is_evictable, evict, is_target, evict_runner, is_of_backend, unload_backend, UnloadRequest,
  delete_configs, unload_model, unload_models, unload,
}
use model_runner.Loader.Invariant.{IsValid}
use model_runner.Loader.Eviction.{
  spared, evict_runner-lookup, lookup-free_where, is_of_backend-IsLocal, evict_runner-IsValid,
}
use model_runner.Loader.Shrink.{free_where_count}
use model_runner.Loader.Operations.{configs-IsValid, unload_model-IsValid}

-- On a well-formed loader UnloadBackend under the guard removes exactly the unused runners of the
-- backend and returns their number.
pub unload_backend_lem :
    (l : Loader) (backend : Text) (k : RunnerKey)
    → IsValid l
    → let r = unload_backend l true backend in
      (lookup k r.0.runners ≡ elim (lookup k l.runners) [
        | none ↦ none
        | some i ↦ spared (is_of_backend backend l k i) i
      ])
      × (r.1 + length r.0.runners ≡ length l.runners)
unfolding unload_backend
unload_backend_lem l backend k v = (
  ground (
    arith,
    lookup-free_where (is_of_backend backend) (is_of_backend-IsLocal backend) l.runners l 0 v.keys
        (λ j i h. h) v k,
  ),
  free_where_count (is_of_backend backend) l.runners l 0 v.keys (λ j i h. h) v.keys
      ∙ (let e : 0 + length l.runners ≡ length l.runners = omega arith in e),
)

-- A runner that evictRunner is meant for: nobody uses it, and it has the backend, where an empty
-- name stands for every backend, the model and the mode.
pub record IsMeant (l : Loader) (backend model : Text) (mode : BackendMode) (k : RunnerKey)
    (i : RunnerInfo) : Type 0 where
  pub unused : references_at l i.slot ≡ 0
  pub backend_meant : (backend ≡ []) ⊎ (k.backend ≡ backend)
  pub same_model : k.model_id ≡ model
  pub same_mode : k.mode ≡ mode

is_target-IsMeant :
    (l : Loader) (backend model : Text) (mode : BackendMode) (k : RunnerKey) (i : RunnerInfo)
    → is_target backend model mode l k i ≡ true
    → IsMeant l backend model mode k i
unfolding is_target
is_target-IsMeant l backend model mode k i h = record {
  unused = ground arith;
  backend_meant = elim (Bool-cases (text_eq backend [])) [
    | inl every ↦ inl ((text_eq_iff backend []).0 every)
    | inr named ↦ inr ((text_eq_iff k.backend backend).0 (ground arith))
  ];
  same_model = (text_eq_iff k.model_id model).0 (ground arith);
  same_mode = (mode_eq_iff k.mode mode).0 (ground arith);
}

IsMeant-is_target :
    (l : Loader) (backend model : Text) (mode : BackendMode) (k : RunnerKey) (i : RunnerInfo)
    → IsMeant l backend model mode k i
    → is_target backend model mode l k i ≡ true
unfolding is_target
IsMeant-is_target l backend model mode k i m =
    let unused = m.unused in
    let same_model = (text_eq_iff k.model_id model).1 m.same_model in
    let same_mode = (mode_eq_iff k.mode mode).1 m.same_mode in
    elim m.backend_meant [
      | inl every ↦ let e = (text_eq_iff backend []).1 every in ground arith
      | inr named ↦ let e = (text_eq_iff k.backend backend).1 named in ground arith
    ]

-- On a well-formed loader evictRunner takes a registered runner away if nobody uses it and it has
-- the model, the mode and the backend, where an empty name stands for every backend; any other
-- runner stays registered as it was.
pub evict_runner_exact :
    (l : Loader) (backend model : Text) (mode : BackendMode) (k : RunnerKey) (i : RunnerInfo)
    → IsValid l
    → lookup k l.runners ≡ some i
    → let after = lookup k (evict_runner l backend model mode).0.runners in
      (IsMeant l backend model mode k i × (after ≡ none))
      ⊎ ((IsMeant l backend model mode k i → ⊥) × (after ≡ some i))
evict_runner_exact l backend model mode k i v found =
    let after = evict_runner-lookup l backend model mode k v in
    elim (Bool-cases (is_target backend model mode l k i)) [
      | inl hit ↦ inl (is_target-IsMeant l backend model mode k i hit, ground arith)
      | inr miss ↦ inr (
        (λ m. absurd (let hit = IsMeant-is_target l backend model mode k i m in ground arith)),
        ground arith,
      )
    ]

evict_fewer :
    (l : Loader) (now : ℕ) (idle_only : Bool)
    → IsValid l
    → length (evict l now idle_only).0.runners ≤ length l.runners
unfolding evict
evict_fewer l now idle_only v = omega (
  arith,
  free_where_count (λ s. is_evictable s now idle_only) l.runners l 0 v.keys (λ j i h. h) v.keys,
)

evict_runner_fewer :
    (l : Loader) (backend model : Text) (mode : BackendMode)
    → IsValid l
    → length (evict_runner l backend model mode).0.runners ≤ length l.runners
unfolding evict_runner
evict_runner_fewer l backend model mode v = omega (
  arith,
  free_where_count (is_target backend model mode) l.runners l 0 v.keys (λ j i h. h) v.keys,
)

unload_model_fewer :
    (l : Loader) (backend model_id : Text)
    → IsValid l
    → length (unload_model l backend model_id).runners ≤ length l.runners
unfolding unload_model
unload_model_fewer l backend model_id v =
    let l₀ = record l {
      runner_configs = delete_configs backend model_id l.runner_configs l.runner_configs;
    } in
    let v₀ =
      configs-IsValid l (delete_configs backend model_id l.runner_configs l.runner_configs) v in
    let l₁ = (evict_runner l₀ backend model_id completion).0 in
    let v₁ = evict_runner-IsValid l₀ backend model_id completion v₀ in
    let l₂ = (evict_runner l₁ backend model_id embedding).0 in
    let v₂ = evict_runner-IsValid l₁ backend model_id embedding v₁ in
    let l₃ = (evict_runner l₂ backend model_id reranking).0 in
    let v₃ = evict_runner-IsValid l₂ backend model_id reranking v₂ in
    let first = evict_runner_fewer l₀ backend model_id completion v₀ in
    let second = evict_runner_fewer l₁ backend model_id embedding v₁ in
    let third = evict_runner_fewer l₂ backend model_id reranking v₂ in
    let fourth = evict_runner_fewer l₃ backend model_id image_generation v₃ in
    omega (arith, first, second, third, fourth)

unload_models_fewer :
    (resolve_id : Text → Text) (models : List Text) (l : Loader) (backend : Text)
    → IsValid l
    → length (unload_models resolve_id l backend models).runners ≤ length l.runners
unfolding unload_models
unload_models_fewer resolve_id [] l backend v = omega arith
unload_models_fewer resolve_id (m ∷ ms) l backend v = omega (
  arith,
  unload_models_fewer resolve_id ms (unload_model l backend (resolve_id m)) backend
      (unload_model-IsValid l backend (resolve_id m) v),
  unload_model_fewer l backend (resolve_id m) v,
)

if_fewer :
    (b : Bool) (x y : Loader) (n : ℕ)
    → length x.runners ≤ n
    → length y.runners ≤ n
    → length (if b then x else y).runners ≤ n
if_fewer true x y n hx hy = hx
if_fewer false x y n hx hy = hy

-- On a well-formed loader Unload returns the number of runners that it removed, for every request,
-- with the guard or without.
pub unload_count :
    (resolve_id : Text → Text) (l : Loader) (now : ℕ) (locked : Bool) (request : UnloadRequest)
    → IsValid l
    → let r = unload resolve_id l now locked request in r.1 + length r.0.runners ≡ length l.runners
unfolding unload
unload_count resolve_id l now false request v = omega arith
unload_count resolve_id l now true request v =
    let fewer =
      if_fewer request.all (evict (record l { runner_configs = [] }) now false).0
        (unload_models resolve_id l request.backend request.models) (length l.runners)
        (evict_fewer (record l { runner_configs = [] }) now false (configs-IsValid l [] v))
        (unload_models_fewer resolve_id request.models l request.backend v) in
    omega (arith, fewer)

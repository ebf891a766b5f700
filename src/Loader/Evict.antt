-- ===== src/Loader/Evict.antt =====
-- Eviction of runners: evict, evictRunner, UnloadBackend and Unload of loader.go, and
-- idleCheckDuration. A loop over `l.runners` goes over the entries that are there at its start,
-- since a round deletes at most its own entry.
use model_runner.Common.{
  ℕ, ◌-◌, ◌+◌, ◌*◌, Bool, true, false, ◌&&◌, ◌||◌, not, List, [], ◌∷◌, Text, text_eq, ◌==◌,
  if◌then◌else◌, length,
}
use model_runner.Common.Int.{ℤ, to_int64, pos, negsuc, ltb_ℤ, ◌+ℤ◌, ◌-ℤ◌}
use model_runner.Common.Assoc.{delete}
use model_runner.Loader.Keys.{
  BackendMode, completion, embedding, reranking, image_generation, RunnerKey, mode_eq,
  runner_key_eq,
}
use model_runner.Loader.State.{
  Loader, RunnerInfo, BackendConfiguration, free_runner_slot, runner_idle_timeout_for, since,
  is_done, references_at, timestamp_at, second,
}

-- The test of a round of `evict`.
unfoldable pub is_evictable : Loader → ℕ → Bool → RunnerKey → RunnerInfo → Bool
is_evictable l now idle_only r info =
    let unused = references_at l info.slot == 0 in
    let timeout = runner_idle_timeout_for l r in
    let never_evict = ltb_ℤ timeout (pos 0) in
    let idle = unused && not never_evict && ltb_ℤ timeout (since now (timestamp_at l info.slot)) in
    let defunct = is_done l info.slot in
    unused && (not idle_only || idle || defunct) && (not idle_only || not never_evict || defunct)

-- A loop that frees the slots of the entries that a test picks, with the count of these.
unfoldable pub free_where :
    (Loader → RunnerKey → RunnerInfo → Bool)
    → List (RunnerKey × RunnerInfo)
    → Loader
    → ℕ
    → Loader × ℕ
free_where picks [] l count = (l, count)
free_where picks ((r, info) ∷ rest) l count =
    let hit = picks l r info in
    free_where picks rest (if hit then free_runner_slot l info.slot r else l)
      (if hit then count + 1 else count)

unfoldable pub evict : Loader → ℕ → Bool → Loader × ℕ
evict l now idle_only =
    let l' = (free_where (λ s. is_evictable s now idle_only) l.runners l 0).0 in
    (l', length l'.runners)

-- The test of a round of `evictRunner`. An empty name stands for all backends.
unfoldable pub is_target : Text → Text → BackendMode → Loader → RunnerKey → RunnerInfo → Bool
is_target backend model mode l r info =
    references_at l info.slot == 0
    && (text_eq backend [] || text_eq r.backend backend)
    && text_eq r.model_id model
    && mode_eq r.mode mode

unfoldable pub evict_runner : Loader → Text → Text → BackendMode → Loader × ℕ
evict_runner l backend model mode =
    let l' = (free_where (is_target backend model mode) l.runners l 0).0 in (l', length l'.runners)

unfoldable pub is_of_backend : Text → Loader → RunnerKey → RunnerInfo → Bool
is_of_backend backend l r info = text_eq r.backend backend && references_at l info.slot == 0

-- `locked` is what `l.lock(ctx)` returned.
unfoldable pub unload_backend : Loader → Bool → Text → Loader × ℕ
unload_backend l locked backend =
    if locked then free_where (is_of_backend backend) l.runners l 0 else (l, 0)

pub record UnloadRequest : Type 0 where
  pub all : Bool
  pub backend : Text
  pub models : List Text

unfoldable pub delete_configs :
    Text
    → Text
    → List (RunnerKey × BackendConfiguration)
    → List (RunnerKey × BackendConfiguration)
    → List (RunnerKey × BackendConfiguration)
delete_configs backend model_id [] configs = configs
delete_configs backend model_id ((key, _) ∷ rest) configs = delete_configs backend model_id rest (
    if text_eq key.backend backend && text_eq key.model_id model_id
    then delete key configs
    else configs)

-- The body of the loop of `Unload`, for one model.
unfoldable pub unload_model : Loader → Text → Text → Loader
unload_model l backend model_id =
    let l₀ = record l {
      runner_configs = delete_configs backend model_id l.runner_configs l.runner_configs;
    } in
    let l₁ = (evict_runner l₀ backend model_id completion).0 in
    let l₂ = (evict_runner l₁ backend model_id embedding).0 in
    let l₃ = (evict_runner l₂ backend model_id reranking).0 in
    (evict_runner l₃ backend model_id image_generation).0

-- `resolve_id` is the model manager's ResolveID.
unfoldable pub unload_models : (Text → Text) → Loader → Text → List Text → Loader
unload_models resolve_id l backend [] = l
unload_models resolve_id l backend (model ∷ models) =
    unload_models resolve_id (unload_model l backend (resolve_id model)) backend models

-- Go evaluates `len(l.runners)` before it calls the function that is subtracted.
unfoldable pub unload : (Text → Text) → Loader → ℕ → Bool → UnloadRequest → Loader × ℕ
unload resolve_id l now false request = (l, 0)
unload resolve_id l now true request =
    let before = length l.runners in
    let l' =
      if request.all
      then (evict (record l { runner_configs = [] }) now false).0
      else unload_models resolve_id l request.backend request.models in
    (l', before - length l'.runners)

-- `remaining` of idleCheckDuration, and the same after `remaining += 100 * time.Millisecond`.
unfoldable pub remaining : Loader → ℕ → RunnerKey → RunnerInfo → ℤ
remaining l now r info =
    to_int64 (runner_idle_timeout_for l r -ℤ since now (timestamp_at l info.slot))

unfoldable pub padded : Loader → ℕ → RunnerKey → RunnerInfo → ℤ
padded l now r info = to_int64 (remaining l now r info +ℤ pos (100 * 1_000_000))

-- The rounds of the loop; a `return 0` ends it.
unfoldable pub idle_check_loop : Loader → ℕ → List (RunnerKey × RunnerInfo) → ℤ → Bool → ℤ
idle_check_loop l now [] soonest has_candidate = soonest
idle_check_loop l now ((r, info) ∷ rest) soonest has_candidate =
    let skip = idle_check_loop l now rest soonest has_candidate in
    let new = padded l now r info in
    let better = not has_candidate || ltb_ℤ new soonest in
    let next =
      idle_check_loop l now rest (if better then new else soonest)
        (if better then true else has_candidate) in
    if is_done l info.slot
    then pos 0
    else if not (references_at l info.slot == 0)
    then skip
    else if ltb_ℤ (runner_idle_timeout_for l r) (pos 0)
    then skip
    else if ltb_ℤ (remaining l now r info) (pos 0)
    then pos 0
    else next

-- -1 second stands for no candidate.
unfoldable pub idle_check_duration : Loader → ℕ → ℤ
idle_check_duration l now = idle_check_loop l now l.runners (negsuc (second - 1)) false

-- ===== src/Loader/Loading.antt =====
-- What the steps of loader.go do to the table of loads.
use model_runner.Common.{
  ℕ, ◌≡◌, refl, ◌∙◌, ap, Bool, true, false, List, [], ◌∷◌, Text, inl, inr, length, Bool-cases,
  if◌then◌else◌, Option-cases, ltb, leb, ◌==◌,
}
use model_runner.Common.Assoc.{lookup, insert, nat_eq}
use model_runner.Loader.Keys.{
  RunnerKey, completion, embedding, reranking, image_generation, runner_key_eq, make_runner_key,
  make_config_key,
}
use model_runner.Loader.State.{
  Loader, Runner, RunnerInfo, used_slots, broadcast, runner_at, references_at,
}
use model_runner.Loader.Evict.{
  evict, UnloadRequest, unload, unload_backend, unload_model, unload_models, is_of_backend,
}
use model_runner.Loader.Load.{
  draft_of, Request, request_key, loading_info, Round, failed, reused, again, waiting, started,
  load_round, cleanup, start_or_wait, allocate, load_existing, use_existing, find_free_slot,
  is_model_loading, reserve,
}
use model_runner.Loader.Release.{
  release, drop_reference, set_runner_config, evict_configured, enable_loads, disable_loads,
  shutdown_round, idle_tick, find_runner_slot, is_unchanged, has_runner,
}
use model_runner.Loader.Shrink.{evict-Keeps, evict_runner-Keeps, free_where-Keeps}
use model_runner.Loader.Configure.{stop_runner}
use model_runner.Loader.Steps.{
  Plain, enables, disables, shuts_down, ticks, unloads, unloads_backend, releases, configures,
  registers, stops,
}

unload_model-loading :
    (l : Loader) (backend model_id : Text) → (unload_model l backend model_id).loading ≡ l.loading
unfolding unload_model
unload_model-loading l backend model_id =
    (evict_runner-Keeps _ backend model_id image_generation).loading
    ∙ (evict_runner-Keeps _ backend model_id reranking).loading
    ∙ (evict_runner-Keeps _ backend model_id embedding).loading
    ∙ (evict_runner-Keeps _ backend model_id completion).loading

unload_models-loading :
    (resolve_id : Text → Text) (models : List Text) (l : Loader) (backend : Text)
    → (unload_models resolve_id l backend models).loading ≡ l.loading
unfolding unload_models
unload_models-loading resolve_id [] l backend = refl
unload_models-loading resolve_id (m ∷ ms) l backend =
    unload_models-loading resolve_id ms _ backend ∙ unload_model-loading l backend (resolve_id m)

if-loading :
    (b : Bool) (x y l : Loader)
    → x.loading ≡ l.loading
    → y.loading ≡ l.loading
    → (if b then x else y).loading ≡ l.loading
if-loading true x y l hx hy = hx
if-loading false x y l hx hy = hy

if-loading_fst :
    (b : Bool) (x y : Loader × Bool) (l : Loader)
    → x.0.loading ≡ l.loading
    → y.0.loading ≡ l.loading
    → (if b then x else y).0.loading ≡ l.loading
if-loading_fst true x y l hx hy = hx
if-loading_fst false x y l hx hy = hy

unload-loading :
    (resolve_id : Text → Text) (l : Loader) (now : ℕ) (locked : Bool) (request : UnloadRequest)
    → (unload resolve_id l now locked request).0.loading ≡ l.loading
unfolding unload
unload-loading resolve_id l now false request = refl
unload-loading resolve_id l now true request =
    if-loading request.all _ _ l (evict-Keeps _ now false).loading
      (unload_models-loading resolve_id request.models l request.backend)

release-loading : (l : Loader) (r : Runner) (now : ℕ) → (release l r now).loading ≡ l.loading
unfolding release broadcast drop_reference
release-loading l r now =
    if-loading
      (references_at (drop_reference l (find_runner_slot r l.runners))
          (find_runner_slot r l.runners)
        == 0)
      _ _ l (if-loading r.done _ _ l (evict_runner-Keeps _ r.backend r.model r.mode).loading refl)
      refl

evict_configured-loading :
    (l : Loader) (key : RunnerKey) → (evict_configured l key).loading ≡ l.loading
unfolding evict_configured
evict_configured-loading l key =
    if-loading (has_runner l key) _ _ l
      (evict_runner-Keeps l key.backend key.model_id key.mode).loading refl

pub Plain-loading : {l l' : Loader} → Plain l l' → l'.loading ≡ l.loading
unfolding enable_loads idle_tick disable_loads broadcast shutdown_round unload_backend
    set_runner_config stop_runner
Plain-loading (enables l) = refl
Plain-loading (disables l poll) = refl
Plain-loading (shuts_down l poll now) =
    if-loading_fst _ _ _ l (evict-Keeps _ now false).loading (evict-Keeps _ now false).loading
Plain-loading (ticks l now) = (evict-Keeps l now true).loading
Plain-loading (unloads resolve_id l now locked request) =
    unload-loading resolve_id l now locked request
Plain-loading (unloads_backend l true backend) =
    (free_where-Keeps (is_of_backend backend) l.runners l 0).loading
Plain-loading (unloads_backend l false backend) = refl
Plain-loading (releases l r now) = release-loading l r now
Plain-loading (configures resolve_id l backend_name model_id mode config) =
    let key = make_runner_key backend_name model_id (draft_of resolve_id config) mode in
    let kept = evict_configured-loading l key in
    if-loading_fst (is_unchanged l (make_config_key backend_name model_id mode) config) _ _ l refl
      (if-loading_fst (has_runner (evict_configured l key) key) _ _ l kept kept)
Plain-loading (registers l waiters) = refl
Plain-loading (stops l slot r at) = refl

-- What a round does to the table of loads.
abbrev pub RoundLoads : Loader → Request → Round → Type 0
RoundLoads l q (failed e l') = l'.loading ≡ l.loading
RoundLoads l q (reused r l') = l'.loading ≡ l.loading
RoundLoads l q (again l') = l'.loading ≡ l.loading
RoundLoads l q (waiting l') = l'.loading ≡ l.loading
RoundLoads l q (started s l') = l'.loading ≡ insert s (loading_info q) l.loading

start_or_wait-RoundLoads :
    (l₀ l : Loader) (q : Request) → l.loading ≡ l₀.loading → RoundLoads l₀ q (start_or_wait l q)
unfolding start_or_wait
start_or_wait-RoundLoads l₀ l q same = elim (Option-cases (find_free_slot l)) [
  | inl e ↦ rw (e, start_or_wait) same
  | inr (s, e) ↦ rw (e, start_or_wait) (unfold reserve in ap (insert s (loading_info q)) same)
]

load_existing-RoundLoads :
    (l : Loader) (q : Request) (existing : RunnerInfo) → RoundLoads l q (load_existing l q existing)
unfolding load_existing use_existing cleanup
load_existing-RoundLoads l q existing = elim (Option-cases (runner_at l existing.slot)) [
  | inl e ↦ rw (e, load_existing) refl
  | inr (r, e) ↦ elim (Bool-cases r.done) [
    | inr live ↦ rw (e, load_existing) (rw live refl)
    | inl dead ↦ elim (Bool-cases (references_at l existing.slot == 0)) [
      | inr used ↦ rw (e, load_existing) (rw (dead, used) refl)
      | inl unused ↦
          rw (e, load_existing)
            (rw (dead, unused) (evict_runner-Keeps l q.backend_name q.model_id q.mode).loading)
    ]
  ]
]

allocate-RoundLoads : (l : Loader) (q : Request) (now : ℕ) → RoundLoads l q (allocate l q now)
unfolding allocate
allocate-RoundLoads l q now =
    let kept = (evict-Keeps l now false).loading in
    elim (Bool-cases (leb (length l.slots) (used_slots l))) [
      | inr room ↦ rw (room, allocate) (start_or_wait-RoundLoads l l q refl)
      | inl full ↦ elim (Bool-cases (ltb (evict l now false).1 (length l.runners))) [
        | inl fewer ↦ rw (full, allocate) (rw fewer kept)
        | inr same ↦
            rw (full, allocate) (rw same (start_or_wait-RoundLoads l (evict l now false).0 q kept))
      ]
    ]

pub load_round-RoundLoads :
    (l : Loader) (q : Request) (now : ℕ) → RoundLoads l q (load_round l q now)
unfolding load_round cleanup
load_round-RoundLoads l q now = elim (Bool-cases l.loads_enabled) [
  | inr off ↦ simp off refl
  | inl on ↦ elim (Bool-cases (is_model_loading l.loading q)) [
    | inl busy ↦ simp (on, busy) refl
    | inr idle ↦ elim (Option-cases (lookup (request_key q) l.runners)) [
      | inl fresh ↦ rw (fresh, load_round) (simp (on, idle) (allocate-RoundLoads l q now))
      | inr (i, found) ↦ rw (found, load_round) (simp (on, idle) (load_existing-RoundLoads l q i))
    ]
  ]
]

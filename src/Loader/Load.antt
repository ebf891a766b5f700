-- ===== src/Loader/Load.antt =====
-- `load` of loader.go. The guard is held from one of these functions' start to its end:
-- `load_begin` is the code before the loop, `load_round` one round of the loop up to a return, a
-- `continue`, the release of the guard for `run` and `wait`, or WaitForChange; the others are the
-- code after the guard is taken again.
use model_runner.Common.{
  ℕ, zero, suc, ◌+◌, ◌%◌, ◌^◌, Bool, false, ◌&&◌, ◌||◌, not, List, [], ◌∷◌, Option, none, some,
  Text, text_eq, ltb, leb, ◌==◌, if◌then◌else◌, length, set,
}
use model_runner.Common.Assoc.{lookup, insert, delete, nat_eq, text_eq_inst}
use model_runner.Loader.Keys.{
  BackendMode, completion, reranking, image_generation, RunnerKey, make_config_key, make_runner_key,
  mode_eq, runner_key_eq,
}
use model_runner.Loader.State.{
  Loader, Runner, RunnerInfo, LoadingInfo, BackendConfiguration, broadcast, runner_at,
  references_at, used_slots, is_slot_loading,
}
use model_runner.Loader.Evict.{evict, evict_runner}

pub data LoadError : Type 0 where
  backend_not_found canceled loads_disabled unable_to_start not_ready : LoadError

-- The arguments of a call of `load` with what it computes before its loop; `poll` is the
-- channel that it waits on.
pub record Request : Type 0 where
  pub backend_name : Text
  pub model_id : Text
  pub draft_model_id : Text
  pub model_ref : Text
  pub mode : BackendMode
  pub poll : ℕ

unfoldable pub request_key : Request → RunnerKey
request_key q = make_runner_key q.backend_name q.model_id q.draft_model_id q.mode

unfoldable pub find_config : Loader → Text → Text → BackendMode → Option BackendConfiguration
find_config l backend_name model_id mode =
    elim (lookup (make_config_key backend_name model_id mode) l.runner_configs) [
      | some rc ↦ some rc
      | none ↦
          if mode_eq mode reranking || mode_eq mode image_generation
          then lookup (make_config_key backend_name model_id completion) l.runner_configs
          else none
    ]

-- `resolve_id` is the model manager's ResolveID.
unfoldable pub draft_of : (Text → Text) → BackendConfiguration → Text
draft_of resolve_id c = elim c.draft_model [
  | none ↦ []
  | some m ↦ if text_eq m [] then [] else resolve_id m
]

-- `context_size_of` is the context size that the model's bundle gives, if there is one.
unfoldable pub default_config : (Text → Option ℕ) → Text → BackendConfiguration
default_config context_size_of model_id = record {
  context_size = context_size_of model_id;
  draft_model = none;
  keep_alive = none;
  others = [];
}

-- The configuration that `run` is given, and the draft model of the runner's key.
unfoldable pub choose_config :
    (Text → Text)
    → (Text → Option ℕ)
    → Loader
    → Text
    → Text
    → BackendMode
    → BackendConfiguration × Text
choose_config resolve_id context_size_of l backend_name model_id mode =
    elim (find_config l backend_name model_id mode) [
      | some rc ↦ (rc, draft_of resolve_id rc)
      | none ↦ (default_config context_size_of model_id, [])
    ]

unfoldable pub contains_backend : Text → List Text → Bool
contains_backend name [] = false
contains_backend name (b ∷ bs) = text_eq b name || contains_backend name bs

-- What comes before the loop: an error, or the request with its poll channel registered.
pub data Begin : Type 0 where
  refused : LoadError → Begin
  begun : Request → BackendConfiguration → Loader → Begin

-- `locked` is what `l.lock(ctx)` returned, and `poll` the channel that `make` returns.
unfoldable pub load_begin :
    (Text → Text) → (Text → Option ℕ) → Loader → Bool → ℕ → Text → Text → Text → BackendMode → Begin
load_begin resolve_id context_size_of l locked poll backend_name model_id model_ref mode =
    if not (contains_backend backend_name l.backends)
    then refused backend_not_found
    else if not locked
    then refused canceled
    else let chosen = choose_config resolve_id context_size_of l backend_name model_id mode in
      begun
        (record {
          backend_name = backend_name;
          model_id = model_id;
          draft_model_id = chosen.1;
          model_ref = model_ref;
          mode = mode;
          poll = poll;
        })
        chosen.0 (record l { waiters = insert poll false l.waiters })

unfoldable pub cleanup : Loader → Request → Loader
cleanup l q = record l { waiters = delete q.poll l.waiters }

unfoldable pub is_same_load : Request → LoadingInfo → Bool
is_same_load q info =
    text_eq info.backend_name q.backend_name
    && text_eq info.model_id q.model_id
    && text_eq info.draft_model_id q.draft_model_id
    && mode_eq info.mode q.mode

unfoldable pub is_model_loading : List (ℕ × LoadingInfo) → Request → Bool
is_model_loading [] q = false
is_model_loading ((_, info) ∷ rest) q = is_same_load q info || is_model_loading rest q

-- The loop over `l.slots`: the first slot from `s` on that is free and not reserved.
unfoldable pub find_slot : Loader → List (Option Runner) → ℕ → Option ℕ
find_slot l [] s = none
find_slot l (r ∷ rest) s =
    let next = find_slot l rest (s + 1) in
    elim r [ none ↦ if is_slot_loading l s then next else some s | some _ ↦ next ]

pub data Round : Type 0 where
  failed : LoadError → Loader → Round
  reused : Runner → Loader → Round
  again : Loader → Round
  waiting : Loader → Round
  started : ℕ → Loader → Round

-- `l.references[slot]++` is on a uint of 64 bits.
unfoldable pub use_existing : Loader → Request → ℕ → Runner → Loader
use_existing l q slot r =
    cleanup
      (record l {
        references = set l.references slot ((references_at l slot + 1) % 2 ^ 64);
        timestamps = set l.timestamps slot 0;
      })
      q

abbrev pub loading_info : Request → LoadingInfo
loading_info q = record {
  backend_name = q.backend_name;
  model_id = q.model_id;
  draft_model_id = q.draft_model_id;
  model_ref = q.model_ref;
  mode = q.mode;
}

unfoldable pub reserve : Loader → Request → ℕ → Loader
reserve l q slot = record l { loading = insert slot (loading_info q) l.loading }

unfoldable pub find_free_slot : Loader → Option ℕ
find_free_slot l = if ltb (used_slots l) (length l.slots) then find_slot l l.slots 0 else none

unfoldable pub start_or_wait : Loader → Request → Round
start_or_wait l q = elim (find_free_slot l) [
  | none ↦ waiting l
  | some slot ↦ started slot (reserve l q slot)
]

-- The part of a round after no runner for the request was found.
unfoldable pub allocate : Loader → Request → ℕ → Round
allocate l q now =
    let (evicted, remaining) = evict l now false in
    if leb (length l.slots) (used_slots l)
    then (if ltb remaining (length l.runners) then again evicted else start_or_wait evicted q)
    else start_or_wait l q

-- A free slot here would be a panic of the source; IsValid of Loader/Invariant rules it out.
unfoldable pub load_existing : Loader → Request → RunnerInfo → Round
load_existing l q existing = elim (runner_at l existing.slot) [
  | none ↦ waiting l
  | some r ↦
      if r.done
      then (if references_at l existing.slot == 0
          then again (evict_runner l q.backend_name q.model_id q.mode).0
          else waiting l)
      else reused r (use_existing l q existing.slot r)
]

unfoldable pub load_round : Loader → Request → ℕ → Round
load_round l q now =
    if not l.loads_enabled
    then failed loads_disabled (cleanup l q)
    else if is_model_loading l.loading q
    then waiting l
    else elim (lookup (request_key q) l.runners) [
      | some existing ↦ load_existing l q existing
      | none ↦ allocate l q now
    ]

-- The rounds of the loop up to one that is no `continue`; `none` means that the fuel ran out.
unfoldable pub load_loop : ℕ → Loader → Request → ℕ → Option Round
load_loop zero l q now = none
load_loop (suc fuel) l q now = elim (load_round l q now) [
  | again l' ↦ load_loop fuel l' q now
  | failed e l' ↦ some (failed e l')
  | reused r l' ↦ some (reused r l')
  | waiting l' ↦ some (waiting l')
  | started slot l' ↦ some (started slot l')
]

-- After WaitForChange, with the guard taken again: the context is done, or a signal was read.
unfoldable pub wait_canceled : Loader → Request → Loader
wait_canceled l q = cleanup l q

unfoldable pub wait_signaled : Loader → Request → Loader
wait_signaled l q = record l { waiters = insert q.poll false l.waiters }

-- `run` or `wait` returned an error.
unfoldable pub load_failed : Loader → Request → ℕ → Loader
load_failed l q slot = cleanup (broadcast (record l { loading = delete slot l.loading })) q

-- The new runner is ready.
unfoldable pub load_finish : Loader → Request → ℕ → Runner → Loader
load_finish l q slot r =
    cleanup
      (broadcast (record l {
        loading = delete slot l.loading;
        runners =
            insert (request_key q) (record { slot = slot; model_ref = q.model_ref }) l.runners;
        slots = set l.slots slot (some r);
        references = set l.references slot 1;
      }))
      q

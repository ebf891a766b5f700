-- ===== src/Loader/Steps.antt =====
-- Executions of loader.go: the operations as steps, in any order and number, by any callers. A
-- step is one stretch of code under the guard. `starting` holds the loads that have given the
-- guard back while their runner starts, by their slots.
use model_runner.Common.{ℕ, ◌≡◌, refl, Bool, true, List, Option, none, some, get_elem?, Text}
use model_runner.Common.Assoc.{lookup, insert, delete, nat_eq}
use model_runner.Loader.Keys.{BackendMode, runner_key_eq}
use model_runner.Loader.State.{Loader, Runner, BackendConfiguration}
use model_runner.Loader.Evict.{UnloadRequest, unload, unload_backend}
use model_runner.Loader.Load.{
  Request, loading_info, Round, failed, reused, again, waiting, started, load_round, load_finish,
  load_failed,
}
use model_runner.Loader.Release.{
  release, set_runner_config, enable_loads, disable_loads, shutdown_round, idle_tick,
}
use model_runner.Loader.Invariant.{IsValid}
use model_runner.Loader.Eviction.{evict-IsValid}
use model_runner.Loader.Operations.{
  unload-IsValid, unload_backend-IsValid, release-IsValid, IsValid-update, waiters-IsValid,
}
use model_runner.Loader.Configure.{
  set_runner_config-IsValid, shutdown_round-IsValid, disable_loads-IsValid, stop_runner,
  stop_runner-IsValid,
}

pub record System : Type 0 where
  pub loader : Loader
  pub starting : List (ℕ × Request)

-- The operations that neither reserve a slot nor end a load.
pub data Plain : Loader → Loader → Type 0 where
  enables : (l : Loader) → Plain l (enable_loads l)
  disables : (l : Loader) (poll : ℕ) → Plain l (disable_loads l poll)
  shuts_down : (l : Loader) (poll now : ℕ) → Plain l (shutdown_round l poll now).0
  ticks : (l : Loader) (now : ℕ) → Plain l (idle_tick l now).0
  unloads :
      (resolve_id : Text → Text) (l : Loader) (now : ℕ) (locked : Bool) (request : UnloadRequest)
      → Plain l (unload resolve_id l now locked request).0
  unloads_backend :
      (l : Loader) (locked : Bool) (backend : Text) → Plain l (unload_backend l locked backend).0
  releases : (l : Loader) (r : Runner) (now : ℕ) → Plain l (release l r now)
  configures :
      (resolve_id : Text → Text) (l : Loader) (backend_name model_id : Text) (mode : BackendMode)
      (config : BackendConfiguration)
      → Plain l (set_runner_config resolve_id l backend_name model_id mode config).0
  -- `load_begin` and the code around WaitForChange change the waiters only.
  registers : (l : Loader) (waiters : List (ℕ × Bool)) → Plain l (record l { waiters = waiters })
  stops :
      (l : Loader) (slot : ℕ) (r : Runner)
      → get_elem? l.slots slot ≡ some (some r)
      → Plain l (stop_runner l slot r)

-- The loader after a round that starts no runner.
abbrev pub loader_after : Round → Option Loader
loader_after (failed e l) = some l
loader_after (reused r l) = some l
loader_after (again l) = some l
loader_after (waiting l) = some l
loader_after (started s l) = none

pub data Step (s : System) : System → Type 0 where
  operates : {l : Loader} → Plain s.loader l → Step s (record s { loader = l })
  rounds :
      {l : Loader} (q : Request) (now : ℕ)
      → loader_after (load_round s.loader q now) ≡ some l
      → Step s (record s { loader = l })
  starts :
      {l : Loader} (q : Request) (now slot : ℕ)
      → load_round s.loader q now ≡ started slot l
      → Step s (record { loader = l; starting = insert slot q s.starting })
  fails :
      (q : Request) (slot : ℕ)
      → lookup slot s.starting ≡ some q
      → Step s (record { loader = load_failed s.loader q slot; starting = delete slot s.starting })
  finishes :
      (q : Request) (slot : ℕ) (r : Runner)
      → lookup slot s.starting ≡ some q
      → Step s
          (record { loader = load_finish s.loader q slot r; starting = delete slot s.starting })

pub data Reach (s : System) : System → Type 0 where
  here : Reach s s
  next : {t u : System} → Reach s t → Step t u → Reach s u

-- The loader is well formed, and every load that is starting its runner holds the reservation of
-- its slot.
pub record SystemIsValid (s : System) : Type 0 where
  pub valid : IsValid s.loader
  pub holds :
      (slot : ℕ) (q : Request)
      → lookup slot s.starting ≡ some q
      → lookup slot s.loader.loading ≡ some (loading_info q)

pub Plain-IsValid : {l l' : Loader} → Plain l l' → IsValid l → IsValid l'
unfolding enable_loads idle_tick
Plain-IsValid (enables l) v =
    IsValid-update l true l.idle_check l.waiters l.references l.timestamps l.runner_configs refl
      refl v
Plain-IsValid (disables l poll) v = disable_loads-IsValid l poll v
Plain-IsValid (shuts_down l poll now) v = shutdown_round-IsValid l poll now v
Plain-IsValid (ticks l now) v = evict-IsValid l now true v
Plain-IsValid (unloads resolve_id l now locked request) v =
    unload-IsValid resolve_id l now locked request v
Plain-IsValid (unloads_backend l locked backend) v = unload_backend-IsValid l locked backend v
Plain-IsValid (releases l r now) v = release-IsValid l r now v
Plain-IsValid (configures resolve_id l backend_name model_id mode config) v =
    set_runner_config-IsValid resolve_id l backend_name model_id mode config v
Plain-IsValid (registers l waiters) v = waiters-IsValid l waiters v
Plain-IsValid (stops l slot r at) v = stop_runner-IsValid l slot r at v

-- ===== src/Loader/Release.antt =====
-- `release`, `setRunnerConfig` and the enabling of loads by `run` of loader.go.
use model_runner.Common.{
  ℕ, ◌+◌, ◌-◌, ◌%◌, ◌^◌, Bool, true, false, ◌&&◌, List, [], ◌∷◌, Option, none, some, Text, text_eq,
  ◌==◌, if◌then◌else◌, set,
}
use model_runner.Common.Int.{ℤ, pos, negsuc}
use model_runner.Common.Assoc.{lookup, insert, delete, nat_eq}
use model_runner.Loader.Keys.{
  BackendMode, RunnerKey, make_config_key, make_runner_key, mode_eq, runner_key_eq,
}
use model_runner.Loader.State.{
  Loader, Runner, RunnerInfo, BackendConfiguration, broadcast, references_at,
}
use model_runner.Loader.Evict.{evict, evict_runner, idle_check_duration}
use model_runner.Loader.Load.{draft_of}

unfoldable pub is_key_of : Runner → RunnerKey → Bool
is_key_of r key =
    text_eq key.backend r.backend && text_eq key.model_id r.model && mode_eq key.mode r.mode

-- The loop that finds the runner's slot. With no match `slotInfo` stays zero.
unfoldable pub find_runner_slot : Runner → List (RunnerKey × RunnerInfo) → ℕ
unfolding is_key_of
find_runner_slot r [] = 0
find_runner_slot r ((key, info) ∷ rest) =
    if is_key_of r key then info.slot else find_runner_slot r rest

-- `l.references[slot]--` on a uint of 64 bits.
unfoldable pub drop_reference : Loader → ℕ → Loader
drop_reference l slot = record l {
  references = set l.references slot ((references_at l slot + 2 ^ 64 - 1) % 2 ^ 64);
}

-- `r.done` is whether the channel is closed at the time of the call.
unfoldable pub release : Loader → Runner → ℕ → Loader
release l r now =
    let slot = find_runner_slot r l.runners in
    let dropped = drop_reference l slot in
    broadcast (
      if references_at dropped slot == 0
      then (if r.done
          then (evict_runner dropped r.backend r.model r.mode).0
          else record dropped { timestamps = set dropped.timestamps slot now; idle_check = true })
      else dropped)

abbrev pub option_eq {ℓ} : {A : Type ℓ} → (A → A → Bool) → Option A → Option A → Bool
option_eq same none none = true
option_eq same none (some b) = false
option_eq same (some a) none = false
option_eq same (some a) (some b) = same a b

unfoldable pub duration_eq : ℤ → ℤ → Bool
duration_eq (pos a) (pos b) = a == b
duration_eq (pos a) (negsuc b) = false
duration_eq (negsuc a) (pos b) = false
duration_eq (negsuc a) (negsuc b) = a == b

-- reflect.DeepEqual on two configurations.
unfoldable pub config_eq : BackendConfiguration → BackendConfiguration → Bool
unfolding duration_eq
config_eq a b =
    option_eq ◌==◌ a.context_size b.context_size
    && option_eq text_eq a.draft_model b.draft_model
    && option_eq duration_eq a.keep_alive b.keep_alive
    && text_eq a.others b.others

unfoldable pub has_runner : Loader → RunnerKey → Bool
has_runner l key = elim (lookup key l.runners) [ none ↦ false | some _ ↦ true ]

unfoldable pub is_unchanged : Loader → RunnerKey → BackendConfiguration → Bool
is_unchanged l key config = elim (lookup key l.runner_configs) [
  | none ↦ false
  | some old ↦ config_eq config old
]

-- An active runner under the key gives way if it is not in use.
unfoldable pub evict_configured : Loader → RunnerKey → Loader
evict_configured l key =
    if has_runner l key then (evict_runner l key.backend key.model_id key.mode).0 else l

-- The result is false for errRunnerAlreadyActive.
unfoldable pub set_runner_config :
    (Text → Text) → Loader → Text → Text → BackendMode → BackendConfiguration → Loader × Bool
set_runner_config resolve_id l backend_name model_id mode config =
    let config_key = make_config_key backend_name model_id mode in
    let r_key = make_runner_key backend_name model_id (draft_of resolve_id config) mode in
    let l' = evict_configured l r_key in
    if is_unchanged l config_key config
    then (l, true)
    else if has_runner l' r_key
    then (l', false)
    else (record l' { runner_configs = insert config_key config l'.runner_configs }, true)

unfoldable pub enable_loads : Loader → Loader
enable_loads l = record l { loads_enabled = true }

-- The start of the shutdown of `run`; its channel `poll` holds a signal from the start.
unfoldable pub disable_loads : Loader → ℕ → Loader
disable_loads l poll =
    let l' = broadcast (record l { loads_enabled = false }) in
    record l' { waiters = insert poll true l'.waiters }

-- A round of the shutdown's loop, after a signal was read; the flag is whether it was the last.
unfoldable pub shutdown_round : Loader → ℕ → ℕ → Loader × Bool
shutdown_round l poll now =
    let (l', remaining) = evict (record l { waiters = insert poll false l.waiters }) now false in
    if remaining == 0 then (record l' { waiters = delete poll l'.waiters }, true) else (l', false)

-- The timer of `run` has fired: eviction, and the duration to which the timer is reset.
unfoldable pub idle_tick : Loader → ℕ → Loader × ℤ
idle_tick l now = let l' = (evict l now true).0 in (l', idle_check_duration l' now)

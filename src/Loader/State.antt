-- ===== src/Loader/State.antt =====
-- The state of the loader of pkg/inference/scheduling/loader.go. A function of the model is one
-- stretch of code under the guard, so that the guard itself needs no model. Durations and times
-- are counts of nanoseconds, times from Go's zero time.
use model_runner.Common.{
  ℕ, ◌-◌, ◌+◌, ◌*◌, Bool, true, false, List, [], ◌∷◌, Option, none, some, map, Text, if◌then◌else◌,
  length, get_or, get_elem?, set, replicate, min, ◌^◌,
}
use model_runner.Common.Int.{ℤ, pos, negsuc, sub_ℕ}
use model_runner.Common.Assoc.{lookup, delete, nat_eq}
use model_runner.Loader.Keys.{BackendMode, RunnerKey, make_config_key, runner_key_eq}

pub record RunnerInfo : Type 0 where
  pub slot : ℕ
  pub model_ref : Text

pub record LoadingInfo : Type 0 where
  pub backend_name : Text
  pub model_id : Text
  pub draft_model_id : Text
  pub model_ref : Text
  pub mode : BackendMode

-- A runner as the loader sees it: what identifies it, and whether its channel `done` is closed.
pub record Runner : Type 0 where
  pub backend : Text
  pub model : Text
  pub mode : BackendMode
  pub done : Bool

-- inference.BackendConfiguration of pkg/inference/backend.go. `draft_model` is
-- `Speculative.DraftModel`, with `none` for no `Speculative`; `others` stands for the fields that
-- the loader only compares.
pub record BackendConfiguration : Type 0 where
  pub context_size : Option ℕ
  pub draft_model : Option Text
  pub keep_alive : Option ℤ
  pub others : Text

-- `waiters` maps a poll channel to whether a signal waits in it, and `idle_check` is whether one
-- waits in the channel of that name. `terminated` lists the runners that were terminated.
pub record Loader : Type 0 where
  pub backends : List Text
  pub runner_idle_timeout : ℤ
  pub idle_check : Bool
  pub loads_enabled : Bool
  pub waiters : List (ℕ × Bool)
  pub runners : List (RunnerKey × RunnerInfo)
  pub loading : List (ℕ × LoadingInfo)
  pub slots : List (Option Runner)
  pub references : List ℕ
  pub timestamps : List ℕ
  pub runner_configs : List (RunnerKey × BackendConfiguration)
  pub terminated : List Runner

abbrev pub maximum_runner_slots : ℕ
maximum_runner_slots = 8

abbrev pub second : ℕ
second = 1_000_000_000

-- Five minutes.
abbrev pub default_runner_idle_timeout : ℕ
default_runner_idle_timeout = 5 * 60 * second

-- `cpus` is runtime.NumCPU(); `gpu_cloud` is whether the environment is a cloud with a GPU.
unfoldable pub new_loader : List Text → ℕ → Bool → Loader
new_loader backends cpus gpu_cloud =
    let n = min cpus maximum_runner_slots in
    record {
      backends = backends;
      runner_idle_timeout =
          if gpu_cloud then pos (8 * 60 * 60 * second) else pos default_runner_idle_timeout;
      idle_check = false;
      loads_enabled = false;
      waiters = [];
      runners = [];
      loading = [];
      slots = replicate n none;
      references = replicate n 0;
      timestamps = replicate n 0;
      runner_configs = [];
      terminated = [];
    }

-- A send that finds the buffer of size 1 full does nothing.
unfoldable pub broadcast : Loader → Loader
broadcast l = record l { waiters = map (λ w. (w.0, true)) l.waiters }

-- The runner in a slot. A free slot or one out of range is `none`, and the source would panic on
-- it; IsValid of Loader/Invariant rules that out for the slots of `runners`.
unfoldable pub runner_at : Loader → ℕ → Option Runner
runner_at l slot = elim (get_elem? l.slots slot) [ none ↦ none | some r ↦ r ]

unfoldable pub terminate : Option Runner → List Runner → List Runner
terminate none gone = gone
terminate (some r) gone = record r { done = true } ∷ gone

unfoldable pub free_runner_slot : Loader → ℕ → RunnerKey → Loader
unfolding runner_at terminate
free_runner_slot l slot key = record l {
  terminated = terminate (runner_at l slot) l.terminated;
  slots = set l.slots slot none;
  timestamps = set l.timestamps slot 0;
  runners = delete key l.runners;
}

unfoldable pub runner_idle_timeout_for : Loader → RunnerKey → ℤ
runner_idle_timeout_for l r =
    elim (lookup (make_config_key r.backend r.model_id r.mode) l.runner_configs) [
      | none ↦ l.runner_idle_timeout
      | some cfg ↦ elim cfg.keep_alive [ none ↦ l.runner_idle_timeout | some d ↦ d ]
    ]

-- `time.Duration` is an int64, and `Time.Sub` saturates.
abbrev pub saturate : ℤ → ℤ
saturate (pos n) = pos (min n (2 ^ 63 - 1))
saturate (negsuc n) = negsuc (min n (2 ^ 63 - 1))

abbrev pub since : ℕ → ℕ → ℤ
since now t = saturate (sub_ℕ now t)

unfoldable pub is_done : Loader → ℕ → Bool
unfolding runner_at
is_done l slot = elim (runner_at l slot) [ none ↦ false | some r ↦ r.done ]

unfoldable pub references_at : Loader → ℕ → ℕ
references_at l slot = get_or l.references slot 0

unfoldable pub timestamp_at : Loader → ℕ → ℕ
timestamp_at l slot = get_or l.timestamps slot 0

unfoldable pub used_slots : Loader → ℕ
used_slots l = length l.runners + length l.loading

unfoldable pub is_slot_loading : Loader → ℕ → Bool
is_slot_loading l slot = elim (lookup slot l.loading) [ none ↦ false | some _ ↦ true ]

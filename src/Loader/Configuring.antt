-- ===== src/Loader/Configuring.antt =====
-- What `setRunnerConfig` of loader.go does in each of its outcomes.
use model_runner.Common.{◌≡◌, ◌≢◌, Bool, true, false, none, some}
use model_runner.Common.Assoc.{lookup}
use model_runner.Loader.Keys.{RunnerKey, runner_key_eq}
use model_runner.Loader.State.{Loader, RunnerInfo, BackendConfiguration, references_at}
use model_runner.Loader.Release.{is_unchanged}

-- The outcomes of a configuration under `config_key` for the runner under `key`.
pub data Configured (l : Loader) (config_key key : RunnerKey) (config : BackendConfiguration)
    : Loader → Bool → Type 0 where
  -- The same configuration is there already, and nothing changes.
  unchanged : is_unchanged l config_key config ≡ true → Configured l config_key key config l true
  -- It is stored, and no runner with another one is left under the key.
  stored :
      (l' : Loader)
      → lookup config_key l'.runner_configs ≡ some config
      → lookup key l'.runners ≡ none
      → Configured l config_key key config l' true
  -- A runner under the key is in use; it and the configurations stay.
  active :
      (l' : Loader) (i : RunnerInfo)
      → lookup key l.runners ≡ some i
      → references_at l i.slot ≢ 0
      → lookup key l'.runners ≡ some i
      → l'.runner_configs ≡ l.runner_configs
      → Configured l config_key key config l' false

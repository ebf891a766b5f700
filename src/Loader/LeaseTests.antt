-- ===== src/Loader/LeaseTests.antt =====
-- Runs of the loader with two runners of one model, and with an idle one.
use model_runner.Common.{
  ℕ, zero, suc, ◌≤◌, ◌+◌, ◌≡◌, refl, sym, subst, get_or, true, [], ◌∷◌, some, arith, codes, text_eq,
  none,
}
use model_runner.Common.Int.{pos, ◌+ℤ◌, ◌-ℤ◌, ltb_ℤ, to_int64}
use model_runner.Common.Assoc.{lookup, insert, delete, nat_eq}
use model_runner.Loader.Keys.{RunnerKey, make_runner_key, mode_eq, key_eq, runner_key_eq}
use model_runner.Loader.State.{
  Loader, RunnerInfo, new_loader, broadcast, runner_at, runner_idle_timeout_for, is_done,
  references_at, timestamp_at, used_slots, is_slot_loading, BackendConfiguration,
}
use model_runner.Loader.Evict.{
  is_evictable, remaining, padded, idle_check_loop, idle_check_duration,
}
use model_runner.Loader.Load.{
  request_key, started, cleanup, is_model_loading, find_slot, reserve, find_free_slot,
  start_or_wait, allocate, load_round, load_finish, reused, use_existing, load_existing,
}
use model_runner.Loader.Release.{release, drop_reference, find_runner_slot, is_key_of, enable_loads}
use model_runner.Loader.Invariant.{IsValid}
use model_runner.Loader.Rounds.{RoundIsValid, load_round-IsValid}
use model_runner.Loader.Loop.{load_finish-IsValid}
use model_runner.Loader.Operations.{release-IsValid}
use model_runner.Loader.IdleCheck.{idle_check_wakes, max_duration}
use model_runner.Loader.Leases.{release_ambiguous}
use model_runner.Loader.Tests.{
  plain_a, drafted_a, runner_a, holding_a, holding_a-IsValid, info_a, holding_a-IsValid_two,
}
use model_runner.Loader.Reuse.{IsReuse, load_round-IsReuse}

abbrev both_loader : Loader
both_loader = load_finish (reserve (holding_a 2) drafted_a 1) drafted_a 1 runner_a

second_of_two : load_round (holding_a 2) drafted_a 8 ≡ started 1 (reserve (holding_a 2) drafted_a 1)
unfolding load_round enable_loads new_loader is_model_loading request_key make_runner_key lookup
    allocate used_slots find_free_slot find_slot start_or_wait is_slot_loading load_finish reserve
    cleanup broadcast insert delete text_eq mode_eq key_eq
second_of_two = refl

both_loader-IsValid : IsValid both_loader
both_loader-IsValid =
    let v =
      subst (RoundIsValid (holding_a 2) drafted_a) second_of_two
        (load_round-IsValid (holding_a 2) drafted_a 8 holding_a-IsValid_two) in
    load_finish-IsValid (reserve (holding_a 2) drafted_a 1) drafted_a 1 runner_a v.2 v.0

abbrev drafted_info : RunnerInfo
drafted_info = record { slot = 1; model_ref = codes "a" }

release_ambiguous_example :
    references_at (release both_loader runner_a 30) 1 ≡ references_at both_loader 1
release_ambiguous_example =
    release_ambiguous both_loader runner_a (request_key plain_a) (request_key drafted_a) info_a
      drafted_info ((request_key drafted_a, drafted_info) ∷ []) 30 both_loader-IsValid
      (unfold load_finish reserve cleanup broadcast enable_loads new_loader insert request_key
          make_runner_key key_eq text_eq mode_eq in
        refl)
      (unfold is_key_of request_key make_runner_key text_eq mode_eq in refl)
      (unfold is_key_of request_key make_runner_key text_eq mode_eq in refl)
      (unfold lookup request_key make_runner_key key_eq text_eq mode_eq in refl)

-- After the release of the only runner it is idle from time 30 on.
abbrev idle_loader : Loader
idle_loader = release (holding_a 1) runner_a 30

idle_loader-timestamps : idle_loader.timestamps ≡ 30 ∷ []
unfolding release drop_reference find_runner_slot is_key_of references_at load_finish reserve
    cleanup broadcast enable_loads new_loader insert delete request_key make_runner_key key_eq
    text_eq mode_eq
idle_loader-timestamps = refl

times_past : (s : ℕ) → get_or (30 ∷ []) s 0 ≤ 40
times_past zero = omega arith
times_past (suc s) = omega arith

idle_timeouts :
    (k : RunnerKey) → ltb_ℤ (runner_idle_timeout_for idle_loader k) (pos max_duration) ≡ true
unfolding runner_idle_timeout_for lookup release drop_reference find_runner_slot is_key_of
    references_at load_finish reserve cleanup broadcast enable_loads new_loader insert delete
    request_key make_runner_key key_eq text_eq mode_eq
idle_timeouts k = refl

idle_check_time : idle_check_duration idle_loader 40 ≡ pos (suc 300_099_999_989)
unfolding idle_check_duration idle_check_loop padded remaining is_done runner_at timestamp_at ◌+ℤ◌
    ◌-ℤ◌ runner_idle_timeout_for lookup release drop_reference find_runner_slot is_key_of
    references_at load_finish reserve cleanup broadcast enable_loads new_loader insert delete
    request_key make_runner_key key_eq text_eq mode_eq to_int64
idle_check_time = refl

idle_check_wakes_example :
    (k : RunnerKey) × (i : RunnerInfo) × (lookup k idle_loader.runners ≡ some i)
    × (is_evictable idle_loader (40 + suc 300_099_999_989) true k i ≡ true)
idle_check_wakes_example =
    idle_check_wakes idle_loader 40 300_099_999_989
      (release-IsValid (holding_a 1) runner_a 30 holding_a-IsValid)
      (λ s.
        unfold timestamp_at in
        subst (λ xs. get_or xs s 0 ≤ 40) (sym idle_loader-timestamps) (times_past s))
      idle_timeouts idle_check_time

abbrev small_context : BackendConfiguration
small_context = record {
  context_size = some 4096;
  draft_model = none;
  keep_alive = none;
  others = [];
}

-- A second load for "a" takes the runner that is there.
second_load :
    load_round (holding_a 1) plain_a 9
    ≡ reused runner_a (use_existing (holding_a 1) plain_a 0 runner_a)
unfolding load_round load_existing runner_at is_model_loading request_key make_runner_key lookup
    load_finish reserve cleanup broadcast enable_loads new_loader insert delete key_eq text_eq
    mode_eq
second_load = refl

load_round-IsReuse_example :
    IsReuse (holding_a 1) plain_a runner_a (use_existing (holding_a 1) plain_a 0 runner_a)
load_round-IsReuse_example =
    load_round-IsReuse (holding_a 1) (use_existing (holding_a 1) plain_a 0 runner_a) plain_a 9
      runner_a holding_a-IsValid second_load

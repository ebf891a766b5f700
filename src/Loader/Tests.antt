-- ===== src/Loader/Tests.antt =====
-- Runs of the loader, and its theorems at concrete loaders.
use model_runner.Common.{
  ◌⊎◌, zero, suc, ℕ, ◌≤◌, ◌≡◌, refl, sym, ◌∙◌, ap, subst, true, false, [], ◌∷◌, none, some, arith,
  Text, codes, text_eq, length, ◌==◌, if◌then◌else◌,
}
use model_runner.Common.Assoc.{lookup, insert, delete, nat_eq, lookup_step}
use model_runner.Loader.Keys.{
  RunnerKey, completion, make_config_key, make_runner_key, mode_eq, key_eq, key_eq_iff,
  runner_key_eq,
}
use model_runner.Loader.State.{
  Loader, Runner, RunnerInfo, new_loader, broadcast, runner_idle_timeout_for, is_done,
  references_at, timestamp_at, used_slots, is_slot_loading,
}
use model_runner.Loader.Evict.{is_evictable, free_where, evict, evict_runner}
use model_runner.Loader.Load.{
  Request, request_key, Round, waiting, started, cleanup, is_model_loading, find_slot, reserve,
  find_free_slot, start_or_wait, allocate, load_round, load_loop, load_finish,
}
use model_runner.Loader.Release.{release, is_key_of, enable_loads}
use model_runner.Loader.Invariant.{IsValid}
use model_runner.Loader.Eviction.{evict-lookup, spared}
use model_runner.Loader.Unloading.{IsMeant, evict_runner_exact}
use model_runner.Loader.Protect.{Protects}
use model_runner.Loader.Held.{Step-Protects}
use model_runner.Loader.InUse.{CountsFit}
use model_runner.Loader.Steps.{
  rounds, loader_after, Reach, here, next, operates, starts, finishes, enables, SystemIsValid,
}
use model_runner.Loader.Rounds.{RoundIsValid, load_round-IsValid}
use model_runner.Loader.Loop.{load_loop_total, load_finish-IsValid, IsResult}
use model_runner.Loader.Operations.{new_loader-IsValid, IsValid-update}
use model_runner.Loader.Reach.{new_system, Reach-SystemIsValid}
use model_runner.Loader.Waiting.{find_free_slot_complete}
use model_runner.Loader.Reasons.{WaitReason, load_round_waits}
use model_runner.Loader.Leases.{IsOnlyMatch, release_lem, is_last_of_stopped}

abbrev pub llama : Text
llama = codes "llama.cpp"

abbrev empty_loader : ℕ → Loader
empty_loader cpus = enable_loads (new_loader (llama ∷ []) cpus false)

abbrev request : Text → Text → Request
request model draft = record {
  backend_name = llama;
  model_id = model;
  draft_model_id = draft;
  model_ref = model;
  mode = completion;
  poll = 1;
}

abbrev pub runner : Text → Runner
runner model = record { backend = llama; model = model; mode = completion; done = false }

abbrev pub plain_a : Request
plain_a = request (codes "a") []

abbrev pub drafted_a : Request
drafted_a = request (codes "a") (codes "d")

abbrev plain_b : Request
plain_b = request (codes "b") []

abbrev pub runner_a : Runner
runner_a = runner (codes "a")

-- The loader with one slot, or with more, after a load for `plain_a`.
abbrev starting_a : ℕ → Loader
starting_a cpus = reserve (empty_loader cpus) plain_a 0

abbrev pub holding_a : ℕ → Loader
holding_a cpus = load_finish (starting_a cpus) plain_a 0 runner_a

first_round : load_round (empty_loader 1) plain_a 7 ≡ started 0 (starting_a 1)
unfolding load_round enable_loads new_loader is_model_loading request_key make_runner_key lookup
    allocate used_slots find_free_slot find_slot start_or_wait is_slot_loading
first_round = refl

empty_loader-IsValid : (cpus : ℕ) → IsValid (empty_loader cpus)
unfolding enable_loads
empty_loader-IsValid cpus =
    let v = new_loader-IsValid (llama ∷ []) cpus false in
    let l = new_loader (llama ∷ []) cpus false in
    IsValid-update l true l.idle_check l.waiters l.references l.timestamps l.runner_configs refl
      refl v

-- A load of "a" that ends: the state after it is reached.
holding_a-Reach :
    Reach
      (new_system (llama ∷ []) 1 false)
      (record { loader = holding_a 1; starting = delete 0 (insert 0 plain_a []) })
unfolding new_system
holding_a-Reach =
    next
      (next (next here (operates (enables (new_loader (llama ∷ []) 1 false))))
        (starts plain_a 7 0 first_round))
      (finishes plain_a 0 runner_a (unfold lookup insert in refl))

pub holding_a-IsValid : IsValid (holding_a 1)
holding_a-IsValid = (Reach-SystemIsValid (llama ∷ []) 1 false holding_a-Reach).valid

Reach-SystemIsValid_example :
    SystemIsValid (record { loader = holding_a 1; starting = delete 0 (insert 0 plain_a []) })
Reach-SystemIsValid_example = Reach-SystemIsValid (llama ∷ []) 1 false holding_a-Reach

load_loop_total_example :
    (r : Round) × (load_loop 1 (empty_loader 1) plain_a 7 ≡ some r) × IsResult r
unfolding enable_loads new_loader
load_loop_total_example =
    load_loop_total 1 (empty_loader 1) plain_a 7 (omega arith) (empty_loader-IsValid 1)

load_round-IsValid_example : RoundIsValid (holding_a 1) plain_b (load_round (holding_a 1) plain_b 9)
load_round-IsValid_example = load_round-IsValid (holding_a 1) plain_b 9 holding_a-IsValid

-- With one slot and its runner in use, a load of "b" waits.
second_waits : load_round (holding_a 1) plain_b 9 ≡ waiting (holding_a 1)
unfolding load_round enable_loads new_loader is_model_loading request_key make_runner_key lookup
    allocate used_slots find_free_slot find_slot start_or_wait is_slot_loading load_finish reserve
    cleanup broadcast insert delete evict free_where is_evictable references_at is_done timestamp_at
    runner_idle_timeout_for text_eq mode_eq key_eq make_config_key
second_waits = refl

load_round_waits_example : WaitReason (holding_a 1) plain_b (holding_a 1)
load_round_waits_example =
    load_round_waits (holding_a 1) (holding_a 1) plain_b 9 holding_a-IsValid second_waits

find_free_slot_example : length (holding_a 1).slots ≤ used_slots (holding_a 1)
find_free_slot_example = find_free_slot_complete (holding_a 1) holding_a-IsValid (
    unfold find_free_slot used_slots load_finish reserve cleanup broadcast enable_loads new_loader
      insert delete in
    refl)

evict-lookup_example :
    lookup (request_key plain_a) (evict (holding_a 1) 20 false).0.runners
    ≡ elim (lookup (request_key plain_a) (holding_a 1).runners) [
      | none ↦ none
      | some i ↦ spared (is_evictable (holding_a 1) 20 false (request_key plain_a) i) i
    ]
evict-lookup_example = evict-lookup (holding_a 1) 20 false (request_key plain_a) holding_a-IsValid

abbrev pub info_a : RunnerInfo
info_a = record { slot = 0; model_ref = codes "a" }

-- The runner for "a" is in use.
evict_runner_exact_example :
    let after =
      lookup
        (request_key plain_a)
        (evict_runner (holding_a 1) [] (codes "a") completion).0.runners in
    (IsMeant (holding_a 1) [] (codes "a") completion (request_key plain_a) info_a × (after ≡ none))
    ⊎ ((IsMeant (holding_a 1) [] (codes "a") completion (request_key plain_a) info_a → ⊥)
        × (after ≡ some info_a))
unfolding lookup load_finish reserve cleanup broadcast enable_loads new_loader insert delete
    request_key make_runner_key key_eq text_eq mode_eq
evict_runner_exact_example =
    evict_runner_exact (holding_a 1) [] (codes "a") completion (request_key plain_a) info_a
      holding_a-IsValid refl

holding_a-runners : (holding_a 1).runners ≡ (request_key plain_a, info_a) ∷ []
unfolding load_finish reserve cleanup broadcast enable_loads new_loader insert
holding_a-runners = refl

lookup_empty : (j : RunnerKey) → lookup {V = RunnerInfo} j [] ≡ none
unfolding lookup
lookup_empty j = refl

only_a : IsOnlyMatch runner_a (holding_a 1).runners (request_key plain_a) info_a
only_a = record {
  registered =
      ap (lookup (request_key plain_a)) holding_a-runners
      ∙ unfold lookup request_key make_runner_key key_eq text_eq mode_eq in refl;
  matches = unfold is_key_of request_key make_runner_key text_eq mode_eq in refl;
  only = λ j a found matched.
      let there = ap (lookup j) (sym holding_a-runners) ∙ found in
      ground (
        arith,
        lookup_step (request_key plain_a) j info_a [],
        key_eq_iff (request_key plain_a) j,
        lookup_empty j,
      );
}

release_example :
    ((s : ℕ)
      → references_at (release (holding_a 1) runner_a 30) s
        ≡ (if 0 == s then 0 else references_at (holding_a 1) s))
    × (lookup (request_key plain_a) (release (holding_a 1) runner_a 30).runners
        ≡ (if is_last_of_stopped 0 runner_a then none else some info_a))
release_example =
    release_lem (holding_a 1) runner_a (request_key plain_a) info_a 30 0 holding_a-IsValid only_a
      (unfold references_at load_finish reserve cleanup broadcast enable_loads new_loader in refl)
      (omega arith)

-- Two runners of one model with different draft models.
first_of_two : load_round (empty_loader 2) plain_a 7 ≡ started 0 (starting_a 2)
unfolding load_round enable_loads new_loader is_model_loading request_key make_runner_key lookup
    allocate used_slots find_free_slot find_slot start_or_wait is_slot_loading
first_of_two = refl

pub holding_a-IsValid_two : IsValid (holding_a 2)
holding_a-IsValid_two =
    let v =
      subst (RoundIsValid (empty_loader 2) plain_a) first_of_two
        (load_round-IsValid (empty_loader 2) plain_a 7 (empty_loader-IsValid 2)) in
    load_finish-IsValid (starting_a 2) plain_a 0 runner_a v.2 v.0

holding_a-CountsFit : CountsFit (holding_a 1)
unfolding load_finish reserve cleanup broadcast enable_loads new_loader references_at
holding_a-CountsFit zero = omega arith
holding_a-CountsFit (suc s) = ground arith

-- While "a" is in use, a load of "b" that waits does not take its runner away.
Step-Protects_example : Protects (holding_a 1) (holding_a 1)
Step-Protects_example =
    Step-Protects (record { loader = holding_a 1; starting = delete 0 (insert 0 plain_a []) })
      (record { loader = holding_a 1; starting = delete 0 (insert 0 plain_a []) })
      (rounds plain_b 9 (ap loader_after second_waits)) tt
      (Reach-SystemIsValid (llama ∷ []) 1 false holding_a-Reach) holding_a-CountsFit

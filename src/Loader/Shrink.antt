-- ===== src/Loader/Shrink.antt =====
-- What no loop of loader.go that frees slots touches, and how the number of runners changes.
use model_runner.Common.{
  ℕ, ◌+◌, ◌<◌, ◌≡◌, refl, ◌∙◌, ap, Bool, true, false, List, [], ◌∷◌, none, some, arith, ◌⊎◌, length,
  length-set, if◌then◌else◌, inl, inr, Text,
}
use model_runner.Common.Assoc.{
  lookup, length-delete, delete-HasDistinctKeys, HasDistinctKeys, lookup_head, length-delete-lt,
}
use model_runner.Loader.Keys.{RunnerKey, BackendMode, runner_key_eq}
use model_runner.Loader.State.{Loader, RunnerInfo, free_runner_slot}
use model_runner.Loader.Evict.{free_where, is_evictable, evict, is_target, evict_runner}
use model_runner.Loader.Invariant.{IsValid, AreRegistered, after_round, after_round-AreRegistered}
use model_runner.Loader.Eviction.{evict_runner-lookup}

-- What no loop that frees slots touches.
pub record Keeps (l l' : Loader) : Type 0 where
  pub backends : l'.backends ≡ l.backends
  pub loads_enabled : l'.loads_enabled ≡ l.loads_enabled
  pub waiters : l'.waiters ≡ l.waiters
  pub loading : l'.loading ≡ l.loading
  pub references : l'.references ≡ l.references
  pub runner_configs : l'.runner_configs ≡ l.runner_configs
  pub slot_count : length l'.slots ≡ length l.slots

pub Keeps-refl : (l : Loader) → Keeps l l
Keeps-refl l = record {
  backends = refl;
  loads_enabled = refl;
  waiters = refl;
  loading = refl;
  references = refl;
  runner_configs = refl;
  slot_count = refl;
}

pub Keeps-trans : {l m n : Loader} → Keeps l m → Keeps m n → Keeps l n
Keeps-trans a b = record {
  backends = b.backends ∙ a.backends;
  loads_enabled = b.loads_enabled ∙ a.loads_enabled;
  waiters = b.waiters ∙ a.waiters;
  loading = b.loading ∙ a.loading;
  references = b.references ∙ a.references;
  runner_configs = b.runner_configs ∙ a.runner_configs;
  slot_count = b.slot_count ∙ a.slot_count;
}

after_round-Keeps :
    (l : Loader) (r : RunnerKey) (info : RunnerInfo) (hit : Bool)
    → Keeps l (after_round l r info hit)
unfolding free_runner_slot
after_round-Keeps l r info true = record {
  backends = refl;
  loads_enabled = refl;
  waiters = refl;
  loading = refl;
  references = refl;
  runner_configs = refl;
  slot_count = length-set l.slots info.slot none;
}
after_round-Keeps l r info false = Keeps-refl l

pub free_where-Keeps :
    (picks : Loader → RunnerKey → RunnerInfo → Bool) (entries : List (RunnerKey × RunnerInfo))
    (l : Loader) (count : ℕ)
    → Keeps l (free_where picks entries l count).0
unfolding free_where
free_where-Keeps picks [] l count = Keeps-refl l
free_where-Keeps picks ((r, info) ∷ rest) l count =
    let hit = picks l r info in
    Keeps-trans (after_round-Keeps l r info hit)
      (free_where-Keeps picks rest (after_round l r info hit) (if hit then count + 1 else count))

after_round_count :
    (l : Loader) (r : RunnerKey) (info : RunnerInfo) (hit : Bool) (count : ℕ)
    → lookup r l.runners ≡ some info
    → HasDistinctKeys l.runners
    → ((if hit then count + 1 else count) + length (after_round l r info hit).runners
        ≡ count + length l.runners)
      × HasDistinctKeys (after_round l r info hit).runners
unfolding free_runner_slot
after_round_count l r info true count h d =
    (omega (arith, length-delete r info l.runners d h), delete-HasDistinctKeys r l.runners d)
after_round_count l r info false count h d = (refl, d)

-- The count of a loop is by how much the registered runners became fewer.
pub free_where_count :
    (picks : Loader → RunnerKey → RunnerInfo → Bool) (entries : List (RunnerKey × RunnerInfo))
    (l : Loader) (count : ℕ)
    → HasDistinctKeys entries
    → AreRegistered entries l
    → HasDistinctKeys l.runners
    → (free_where picks entries l count).1 + length (free_where picks entries l count).0.runners
      ≡ count + length l.runners
unfolding free_where
free_where_count picks [] l count d h k = refl
free_where_count picks ((r, info) ∷ rest) l count d h k =
    let hit = picks l r info in
    let (counted, distinct) =
      after_round_count l r info hit count (h r info (lookup_head r info rest)) k in
    free_where_count picks rest (after_round l r info hit) (if hit then count + 1 else count) d.1
      (after_round-AreRegistered l r info hit rest d h) distinct
    ∙ counted

after_round_shrinks :
    (l : Loader) (r : RunnerKey) (info : RunnerInfo) (hit : Bool)
    → lookup r l.runners ≡ some info
    → ((after_round l r info hit).runners ≡ l.runners)
      ⊎ (length (after_round l r info hit).runners < length l.runners)
unfolding free_runner_slot
after_round_shrinks l r info true h = inr (length-delete-lt r info l.runners h)
after_round_shrinks l r info false h = inl refl

-- A loop that changes the registered runners makes them fewer.
pub free_where_shrinks :
    (picks : Loader → RunnerKey → RunnerInfo → Bool) (entries : List (RunnerKey × RunnerInfo))
    (l : Loader) (count : ℕ)
    → HasDistinctKeys entries
    → AreRegistered entries l
    → ((free_where picks entries l count).0.runners ≡ l.runners)
      ⊎ (length (free_where picks entries l count).0.runners < length l.runners)
unfolding free_where
free_where_shrinks picks [] l count d h = inl refl
free_where_shrinks picks ((r, info) ∷ rest) l count d h =
    let hit = picks l r info in
    let first = after_round_shrinks l r info hit (h r info (lookup_head r info rest)) in
    let ih =
      free_where_shrinks picks rest (after_round l r info hit) (if hit then count + 1 else count)
        d.1 (after_round-AreRegistered l r info hit rest d h) in
    ground arith

pub evict-Keeps : (l : Loader) (now : ℕ) (idle_only : Bool) → Keeps l (evict l now idle_only).0
unfolding evict
evict-Keeps l now idle_only = free_where-Keeps (λ s. is_evictable s now idle_only) l.runners l 0

pub evict_runner-Keeps :
    (l : Loader) (backend model : Text) (mode : BackendMode)
    → Keeps l (evict_runner l backend model mode).0
unfolding evict_runner
evict_runner-Keeps l backend model mode =
    free_where-Keeps (is_target backend model mode) l.runners l 0

evict_runner_less :
    (l : Loader) (backend model : Text) (mode : BackendMode)
    → IsValid l
    → ((evict_runner l backend model mode).0.runners ≡ l.runners)
      ⊎ (length (evict_runner l backend model mode).0.runners < length l.runners)
unfolding evict_runner
evict_runner_less l backend model mode v =
    free_where_shrinks (is_target backend model mode) l.runners l 0 v.keys (λ j a h. h)

-- evictRunner on an unused runner of its target makes the runners fewer.
pub evict_runner_shrinks :
    (l : Loader) (backend model : Text) (mode : BackendMode) (k : RunnerKey) (i : RunnerInfo)
    → IsValid l
    → lookup k l.runners ≡ some i
    → is_target backend model mode l k i ≡ true
    → length (evict_runner l backend model mode).0.runners < length l.runners
evict_runner_shrinks l backend model mode k i v found target =
    let gone = evict_runner-lookup l backend model mode k v in
    elim (evict_runner_less l backend model mode v) [
      | inl same ↦ absurd (ground (arith, gone, ap (λ m. lookup k m) same))
      | inr fewer ↦ fewer
    ]

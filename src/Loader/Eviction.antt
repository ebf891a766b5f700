-- ===== src/Loader/Eviction.antt =====
-- Exactly which runners the loops of loader.go free.
use model_runner.Common.{
  ℕ, ◌+◌, ◌≡◌, ◌≢◌, refl, Bool, true, false, List, [], ◌∷◌, Option, none, some, arith,
  get_elem?-set_ne, get_or-set_ne, if◌then◌else◌, Bool-cases, Option-cases, inl, inr, Text,
}
use model_runner.Common.Assoc.{
  lookup, HasDistinctKeys, lookup-delete_ne, lookup-delete_self, lookup_head, lookup_tail,
  lookup_step,
}
use model_runner.Loader.Keys.{RunnerKey, BackendMode, key_eq_iff, runner_key_eq, key_eq}
use model_runner.Loader.State.{
  Loader, RunnerInfo, free_runner_slot, is_done, references_at, timestamp_at,
  runner_idle_timeout_for,
}
use model_runner.Loader.Evict.{
  free_where, is_evictable, evict, is_target, evict_runner, is_of_backend,
}
use model_runner.Loader.Invariant.{
  IsValid, AreRegistered, after_round, after_round-AreRegistered, after_round-IsValid,
  free_where-IsValid,
}

-- A test of an entry is local if it does not change when another entry's slot is freed.
abbrev pub IsLocal : (Loader → RunnerKey → RunnerInfo → Bool) → Type 0
IsLocal picks =
    (l : Loader) (r k : RunnerKey) (info i : RunnerInfo)
    → info.slot ≢ i.slot
    → picks (free_runner_slot l info.slot r) k i ≡ picks l k i

pub is_done-free :
    (l : Loader) (slot s : ℕ) (r : RunnerKey)
    → slot ≢ s
    → is_done (free_runner_slot l slot r) s ≡ is_done l s
unfolding is_done free_runner_slot
is_done-free l slot s r h = ground (arith, get_elem?-set_ne l.slots slot s none h)

timestamp_at-free :
    (l : Loader) (slot s : ℕ) (r : RunnerKey)
    → slot ≢ s
    → timestamp_at (free_runner_slot l slot r) s ≡ timestamp_at l s
unfolding timestamp_at free_runner_slot
timestamp_at-free l slot s r h = get_or-set_ne l.timestamps slot s 0 0 h

references_at-free :
    (l : Loader) (slot s : ℕ) (r : RunnerKey)
    → references_at (free_runner_slot l slot r) s ≡ references_at l s
unfolding references_at free_runner_slot
references_at-free l slot s r = refl

timeout-free :
    (l : Loader) (slot : ℕ) (r k : RunnerKey)
    → runner_idle_timeout_for (free_runner_slot l slot r) k ≡ runner_idle_timeout_for l k
unfolding runner_idle_timeout_for free_runner_slot
timeout-free l slot r k = refl

pub is_evictable-IsLocal :
    (now : ℕ) (idle_only : Bool) → IsLocal (λ l. is_evictable l now idle_only)
unfolding is_evictable
is_evictable-IsLocal now idle_only l r k info i h = rw (
  references_at-free l info.slot i.slot r,
  timestamp_at-free l info.slot i.slot r h,
  timeout-free l info.slot r k,
  is_done-free l info.slot i.slot r h,
)

pub is_target-IsLocal :
    (backend model : Text) (mode : BackendMode) → IsLocal (is_target backend model mode)
unfolding is_target free_runner_slot references_at
is_target-IsLocal backend model mode l r k info i h = refl

pub is_of_backend-IsLocal : (backend : Text) → IsLocal (is_of_backend backend)
unfolding is_of_backend free_runner_slot references_at
is_of_backend-IsLocal backend l r k info i h = refl

-- What becomes of an entry under a test: `none` if it is picked.
abbrev pub spared : Bool → RunnerInfo → Option RunnerInfo
spared hit i = if hit then none else some i

after_round-lookup_self :
    (l : Loader) (r : RunnerKey) (info : RunnerInfo) (hit : Bool)
    → lookup r l.runners ≡ some info
    → lookup r (after_round l r info hit).runners ≡ spared hit info
unfolding free_runner_slot
after_round-lookup_self l r info true h = lookup-delete_self r l.runners
after_round-lookup_self l r info false h = h

after_round-lookup_ne :
    (l : Loader) (r k : RunnerKey) (info : RunnerInfo) (hit : Bool)
    → r ≢ k
    → lookup k (after_round l r info hit).runners ≡ lookup k l.runners
unfolding free_runner_slot
after_round-lookup_ne l r k info true h = lookup-delete_ne r k l.runners h
after_round-lookup_ne l r k info false h = refl

after_round_local :
    (picks : Loader → RunnerKey → RunnerInfo → Bool)
    → IsLocal picks
    → (l : Loader) (r k : RunnerKey) (info i : RunnerInfo) (hit : Bool) → info.slot ≢ i.slot
    → picks (after_round l r info hit) k i ≡ picks l k i
after_round_local picks local l r k info i true h = local l r k info i h
after_round_local picks local l r k info i false h = refl

-- A runner is registered after the loop exactly if its entry was there and the test, made on the
-- loader as it was at the start, did not pick it.
pub lookup-free_where :
    (picks : Loader → RunnerKey → RunnerInfo → Bool)
    → IsLocal picks
    → (entries : List (RunnerKey × RunnerInfo)) (l : Loader) (count : ℕ) → HasDistinctKeys entries
    → AreRegistered entries l
    → IsValid l
    → (k : RunnerKey)
    → lookup k (free_where picks entries l count).0.runners
      ≡ elim (lookup k entries) [ none ↦ lookup k l.runners | some i ↦ spared (picks l k i) i ]
unfolding free_where
lookup-free_where picks local [] l count d h v k = unfold lookup in refl
lookup-free_where picks local ((r, info) ∷ rest) l count d h v k =
    let hit = picks l r info in
    let l' = after_round l r info hit in
    let here = h r info (lookup_head r info rest) in
    let ih =
      lookup-free_where picks local rest l' (if hit then count + 1 else count) d.1
        (after_round-AreRegistered l r info hit rest d h) (after_round-IsValid l r info hit here v)
        k in
    elim (Bool-cases (key_eq r k)) [
      | inl e ↦
          let same : r ≡ k = (key_eq_iff r k).0 e in
          ground (arith, lookup_step r k info rest, ih, after_round-lookup_self l r info hit here)
      | inr e ↦
          let other : r ≢ k = ground (arith, key_eq_iff r k) in
          elim (Option-cases (lookup k rest)) [
            | inl gone ↦
                ground
                  (arith, lookup_step r k info rest, ih, after_round-lookup_ne l r k info hit other)
            | inr (i, found) ↦
                let apart : info.slot ≢ i.slot = λ q.
                  other (
                    v.separate r k info i here (h k i (lookup_tail r k info i rest d found).0) q) in
                ground (
                  arith,
                  lookup_step r k info rest,
                  ih,
                  after_round_local picks local l r k info i hit apart,
                )
          ]
    ]

-- On a well-formed loader evict removes exactly the runners that are evictable in the state it
-- starts from.
pub evict-lookup :
    (l : Loader) (now : ℕ) (idle_only : Bool) (k : RunnerKey)
    → IsValid l
    → lookup k (evict l now idle_only).0.runners ≡ elim (lookup k l.runners) [
      | none ↦ none
      | some i ↦ spared (is_evictable l now idle_only k i) i
    ]
unfolding evict
evict-lookup l now idle_only k v = ground (
  arith,
  lookup-free_where (λ s. is_evictable s now idle_only) (is_evictable-IsLocal now idle_only)
      l.runners l 0 v.keys (λ j i h. h) v k,
)

-- On a well-formed loader evictRunner removes exactly the unused runners of the backend, model and
-- mode.
pub evict_runner-lookup :
    (l : Loader) (backend model : Text) (mode : BackendMode) (k : RunnerKey)
    → IsValid l
    → lookup k (evict_runner l backend model mode).0.runners ≡ elim (lookup k l.runners) [
      | none ↦ none
      | some i ↦ spared (is_target backend model mode l k i) i
    ]
unfolding evict_runner
evict_runner-lookup l backend model mode k v = ground (
  arith,
  lookup-free_where (is_target backend model mode) (is_target-IsLocal backend model mode) l.runners
      l 0 v.keys (λ j i h. h) v k,
)

pub evict-IsValid :
    (l : Loader) (now : ℕ) (idle_only : Bool) → IsValid l → IsValid (evict l now idle_only).0
unfolding evict
evict-IsValid l now idle_only v =
    free_where-IsValid (λ s. is_evictable s now idle_only) l.runners l 0 v.keys (λ j i h. h) v

pub evict_runner-IsValid :
    (l : Loader) (backend model : Text) (mode : BackendMode)
    → IsValid l
    → IsValid (evict_runner l backend model mode).0
unfolding evict_runner
evict_runner-IsValid l backend model mode v =
    free_where-IsValid (is_target backend model mode) l.runners l 0 v.keys (λ j i h. h) v

-- ===== src/Loader/InUse.antt =====
-- Runners in use stay through every step of loader.go that is no release.
use model_runner.Common.{
  ℕ, ◌+◌, ◌-◌, ◌%◌, ◌^◌, ◌<◌, ◌≡◌, ◌≢◌, refl, sym, ◌∙◌, ap, subst, Bool, true, false, List, none,
  some, arith, if◌then◌else◌, Option-cases, inl, inr, get_or, set, get_or-set_ne, get_or-set_self,
  get_elem?-lt, length, ltb, leb, ◌==◌,
}
use native.Mathlib.Decide.{ℕ_discrete}
use model_runner.Common.Assoc.{insert, delete, nat_eq}
use model_runner.Loader.Keys.{RunnerKey, make_config_key, make_runner_key, runner_key_eq}
use model_runner.Loader.State.{
  Loader, Runner, RunnerInfo, references_at, broadcast, runner_at, used_slots,
}
use model_runner.Loader.Evict.{evict, evict_runner}
use model_runner.Loader.Load.{
  draft_of, Request, Round, failed, reused, again, waiting, started, cleanup, use_existing, reserve,
  start_or_wait, find_free_slot, allocate, load_existing,
}
use model_runner.Loader.Release.{
  set_runner_config, evict_configured, has_runner, is_unchanged, enable_loads, disable_loads,
  shutdown_round, idle_tick,
}
use model_runner.Loader.Invariant.{IsValid}
use model_runner.Loader.Operations.{waiters-IsValid}
use model_runner.Loader.Configure.{stop_runner}
use model_runner.Loader.Steps.{
  Plain, enables, disables, shuts_down, ticks, unloads, unloads_backend, releases, configures,
  registers, stops,
}
use model_runner.Loader.Protect.{
  Protects, Protects-trans, Protects-same, evict-Protects, evict_runner-Protects,
  unload_backend-Protects, unload-Protects, if-Protects,
}

if-Protects_fst :
    (b : Bool) (l : Loader) (x y : Loader × Bool)
    → Protects l x.0
    → Protects l y.0
    → Protects l (if b then x else y).0
if-Protects_fst true l x y hx hy = hx
if-Protects_fst false l x y hx hy = hy

evict_configured-Protects :
    (l : Loader) (key : RunnerKey) → IsValid l → Protects l (evict_configured l key)
unfolding evict_configured
evict_configured-Protects l key v =
    if-Protects (has_runner l key) l _ _
      (evict_runner-Protects l key.backend key.model_id key.mode v)
      (λ k i found used. (found, used))

-- Whether a step is something else than a release.
abbrev pub IsNoRelease : (l l' : Loader) → Plain l l' → Type 0
IsNoRelease l l' (releases _ r now) = ⊥
IsNoRelease l l' _ = Unit {0}

pub Plain-Protects :
    (l l' : Loader) (p : Plain l l') → IsNoRelease l l' p → IsValid l → Protects l l'
unfolding enable_loads disable_loads broadcast shutdown_round idle_tick set_runner_config
    stop_runner
Plain-Protects l l' (enables _) n v = Protects-same l l' refl refl
Plain-Protects l l' (disables _ poll) n v = Protects-same l l' refl refl
Plain-Protects l l' (shuts_down _ poll now) n v =
    let w = record l { waiters = insert poll false l.waiters } in
    let l₂ = (evict w now false).0 in
    let base : Protects l l₂ =
      Protects-trans l w l₂ (Protects-same l w refl refl)
        (evict-Protects w now false (waiters-IsValid l (insert poll false l.waiters) v)) in
    let last = record l₂ { waiters = delete poll l₂.waiters } in
    if-Protects_fst _ l (last, true) (l₂, false)
      (Protects-trans l l₂ last base (Protects-same l₂ last refl refl)) base
Plain-Protects l l' (ticks _ now) n v = evict-Protects l now true v
Plain-Protects l l' (unloads resolve_id _ now locked request) n v =
    unload-Protects resolve_id l now locked request v
Plain-Protects l l' (unloads_backend _ locked backend) n v =
    unload_backend-Protects l locked backend v
Plain-Protects l l' (releases _ r now) n v = elim n [ ]
Plain-Protects l l' (configures resolve_id _ backend_name model_id mode config) n v =
    let key = make_runner_key backend_name model_id (draft_of resolve_id config) mode in
    let config_key = make_config_key backend_name model_id mode in
    let l₂ = evict_configured l key in
    let kept = evict_configured-Protects l key v in
    let stored = record l₂ { runner_configs = insert config_key config l₂.runner_configs } in
    if-Protects_fst (is_unchanged l config_key config) l (l, true) _
      (λ k i found used. (found, used))
      (if-Protects_fst (has_runner l₂ key) l (l₂, false) (stored, true) kept
        (Protects-trans l l₂ stored kept (Protects-same l₂ stored refl refl)))
Plain-Protects l l' (registers _ waiters) n v = Protects-same l l' refl refl
Plain-Protects l l' (stops _ slot r at) n v = Protects-same l l' refl refl

-- The loader that a round leaves.
abbrev pub left_by : Round → Loader
left_by (failed e l) = l
left_by (reused r l) = l
left_by (again l) = l
left_by (waiting l) = l
left_by (started s l) = l

start_or_wait-Protects : (l : Loader) (q : Request) → Protects l (left_by (start_or_wait l q))
unfolding start_or_wait
start_or_wait-Protects l q = elim (Option-cases (find_free_slot l)) [
  | inl e ↦
      Protects-same l (left_by (start_or_wait l q)) (rw (e, start_or_wait) refl)
        (rw (e, start_or_wait) refl)
  | inr (s, e) ↦
      Protects-same l (left_by (start_or_wait l q)) (rw (e, start_or_wait) (unfold reserve in refl))
        (rw (e, start_or_wait) (unfold reserve in refl))
]

pub left_if :
    (b : Bool) (x y : Round) (l : Loader)
    → Protects l (left_by x)
    → Protects l (left_by y)
    → Protects l (left_by (if b then x else y))
left_if true x y l hx hy = hx
left_if false x y l hx hy = hy

pub allocate-Protects :
    (l : Loader) (q : Request) (now : ℕ) → IsValid l → Protects l (left_by (allocate l q now))
unfolding allocate
allocate-Protects l q now v =
    let l₂ = (evict l now false).0 in
    let gone = evict-Protects l now false v in
    left_if (leb (length l.slots) (used_slots l)) _ _ l
      (left_if (ltb (evict l now false).1 (length l.runners)) (again l₂) (start_or_wait l₂ q) l gone
        (Protects-trans l l₂ (left_by (start_or_wait l₂ q)) gone (start_or_wait-Protects l₂ q)))
      (start_or_wait-Protects l q)

more_used :
    (xs : List ℕ) (slot s : ℕ)
    → s < length xs
    → get_or xs slot 0 < 2 ^ 64 - 1
    → get_or xs s 0 ≢ 0
    → get_or (set xs slot ((get_or xs slot 0 + 1) % 2 ^ 64)) s 0 ≢ 0
more_used xs slot s lt fits used = elim (ℕ_discrete slot s) [
  | yes e ↦ λ z.
      let here = get_or-set_self xs s ((get_or xs s 0 + 1) % 2 ^ 64) 0 lt in
      let moved = ap (λ t. get_or (set xs t ((get_or xs t 0 + 1) % 2 ^ 64)) s 0) e in
      let fits_here = subst (λ t. get_or xs t 0 < 2 ^ 64 - 1) e fits in
      absurd (omega (arith, sym moved ∙ z, here, fits_here))
  | no e ↦ λ z. used (sym (get_or-set_ne xs slot s ((get_or xs slot 0 + 1) % 2 ^ 64) 0 e) ∙ z)
]

-- No count is at the end of a uint of 64 bits, so that one more holder can be counted.
abbrev pub CountsFit : Loader → Type 0
CountsFit l = (slot : ℕ) → references_at l slot < 2 ^ 64 - 1

use_existing-Protects :
    (l : Loader) (q : Request) (slot : ℕ) (r : Runner)
    → IsValid l
    → CountsFit l
    → Protects l (use_existing l q slot r)
unfolding use_existing cleanup references_at
use_existing-Protects l q slot r v fits = λ k i found used.
    let (x, at) = v.occupied k i found in
    let inside : i.slot < length l.references =
      omega (arith, get_elem?-lt l.slots i.slot (some x) at, v.same_references) in
    (found, more_used l.references slot i.slot inside (fits slot) used)

existing_none :
    (l : Loader) (q : Request) (i : RunnerInfo)
    → runner_at l i.slot ≡ none
    → load_existing l q i ≡ waiting l
unfolding load_existing
existing_none l q i e = ground arith

existing_some :
    (l : Loader) (q : Request) (i : RunnerInfo) (r : Runner)
    → runner_at l i.slot ≡ some r
    → load_existing l q i ≡ (
        if r.done
        then (if references_at l i.slot == 0
            then again (evict_runner l q.backend_name q.model_id q.mode).0
            else waiting l)
        else reused r (use_existing l q i.slot r))
unfolding load_existing
existing_some l q i r e = ground arith

pub load_existing-Protects :
    (l : Loader) (q : Request) (i : RunnerInfo)
    → IsValid l
    → CountsFit l
    → Protects l (left_by (load_existing l q i))
unfolding load_existing
load_existing-Protects l q i v fits = elim (Option-cases (runner_at l i.slot)) [
  | inl e ↦
      subst (λ x. Protects l (left_by x)) (sym (existing_none l q i e))
        (λ k j found used. (found, used))
  | inr (r, e) ↦
      subst (λ x. Protects l (left_by x)) (sym (existing_some l q i r e))
        (left_if r.done _ _ l
          (left_if (references_at l i.slot == 0) _ _ l
            (evict_runner-Protects l q.backend_name q.model_id q.mode v)
            (λ k j found used. (found, used)))
          (use_existing-Protects l q i.slot r v fits))
]

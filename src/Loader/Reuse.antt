-- ===== src/Loader/Reuse.antt =====
-- When `load` of loader.go hands out a runner that is there already.
use model_runner.Common.{
  ℕ, ◌+◌, ◌%◌, ◌^◌, ◌<◌, ◌≡◌, ◌≢◌, refl, sym, ◌∙◌, ap, false, some, arith, get_elem?, get_elem?-lt,
  length, get_or, get_or-set_self, get_or-set_ne, Bool-cases, Option-cases, inl, inr, ltb, leb,
  ◌==◌,
}
use model_runner.Common.Assoc.{lookup}
use model_runner.Loader.Keys.{runner_key_eq}
use model_runner.Loader.State.{Loader, Runner, RunnerInfo, runner_at, references_at, used_slots}
use model_runner.Loader.Evict.{evict}
use model_runner.Loader.Load.{
  Request, request_key, reused, use_existing, cleanup, load_existing, load_round, allocate,
  start_or_wait, find_free_slot, is_model_loading,
}
use model_runner.Loader.Invariant.{IsValid}

-- What is known of a runner that is handed out again: it is registered for the request's key and
-- has not stopped; its holder is counted, on a uint of 64 bits, and no other count and no registration changes.
pub record IsReuse (l : Loader) (q : Request) (r : Runner) (l' : Loader) : Type 0 where
  pub info : RunnerInfo
  pub registered : lookup (request_key q) l.runners ≡ some info
  pub at_slot : get_elem? l.slots info.slot ≡ some (some r)
  pub live : r.done ≡ false
  pub counted : references_at l' info.slot ≡ (references_at l info.slot + 1) % 2 ^ 64
  pub others : (s : ℕ) → info.slot ≢ s → references_at l' s ≡ references_at l s
  pub same_runners : l'.runners ≡ l.runners

use_existing-references :
    (l : Loader) (q : Request) (slot : ℕ) (r : Runner)
    → slot < length l.references
    → (references_at (use_existing l q slot r) slot ≡ (references_at l slot + 1) % 2 ^ 64)
      × ((s : ℕ) → slot ≢ s → references_at (use_existing l q slot r) s ≡ references_at l s)
unfolding use_existing cleanup references_at
use_existing-references l q slot r lt = (
  get_or-set_self l.references slot ((get_or l.references slot 0 + 1) % 2 ^ 64) 0 lt,
  λ s other. get_or-set_ne l.references slot s ((get_or l.references slot 0 + 1) % 2 ^ 64) 0 other,
)

use_existing-runners :
    (l : Loader) (q : Request) (slot : ℕ) (r : Runner)
    → (use_existing l q slot r).runners ≡ l.runners
unfolding use_existing cleanup
use_existing-runners l q slot r = refl

runner_at-slot :
    (l : Loader) (slot : ℕ) (r : Runner)
    → runner_at l slot ≡ some r
    → get_elem? l.slots slot ≡ some (some r)
unfolding runner_at
runner_at-slot l slot r h = elim (Option-cases (get_elem? l.slots slot)) [
  | inl e ↦ absurd (ground arith)
  | inr (o, e) ↦ e ∙ ap some (let f : o ≡ some r = ground arith in f)
]

load_existing-IsReuse :
    (l l' : Loader) (q : Request) (i : RunnerInfo) (r : Runner)
    → IsValid l
    → lookup (request_key q) l.runners ≡ some i
    → load_existing l q i ≡ reused r l'
    → IsReuse l q r l'
unfolding load_existing
load_existing-IsReuse l l' q i r v found h = elim (Option-cases (runner_at l i.slot)) [
  | inl free ↦ absurd (ground arith)
  | inr (x, here) ↦ elim (Bool-cases x.done) [
    | inl stopped ↦ elim (Bool-cases (references_at l i.slot == 0)) [
      | inl unused ↦ absurd (ground arith)
      | inr used ↦ absurd (ground arith)
    ]
    | inr live ↦
        let same : x ≡ r = ground arith in
        let after : use_existing l q i.slot x ≡ l' = ground arith in
        let at = runner_at-slot l i.slot x here in
        let inside : i.slot < length l.references =
          omega (arith, get_elem?-lt l.slots i.slot (some x) at, v.same_references) in
        let (counted, others) = use_existing-references l q i.slot x inside in
        record {
          info = i;
          registered = found;
          at_slot = at ∙ ap (λ y. some (some y)) same;
          live = ap (λ (y : Runner). y.done) (sym same) ∙ live;
          counted = ap (λ y. references_at y i.slot) (sym after) ∙ counted;
          others = λ s other. ap (λ y. references_at y s) (sym after) ∙ others s other;
          same_runners =
              ap (λ (y : Loader). y.runners) (sym after) ∙ use_existing-runners l q i.slot x;
        }
  ]
]

start_or_wait_new : (l l' : Loader) (q : Request) (r : Runner) → start_or_wait l q ≡ reused r l' → ⊥
unfolding start_or_wait
start_or_wait_new l l' q r h = elim (Option-cases (find_free_slot l)) [
  | inl e ↦ absurd (ground arith)
  | inr (s, e) ↦ absurd (ground arith)
]

allocate_new :
    (l l' : Loader) (q : Request) (now : ℕ) (r : Runner) → allocate l q now ≡ reused r l' → ⊥
unfolding allocate
allocate_new l l' q now r h = elim (Bool-cases (leb (length l.slots) (used_slots l))) [
  | inr room ↦ start_or_wait_new l l' q r (ground arith)
  | inl full ↦ elim (Bool-cases (ltb (evict l now false).1 (length l.runners))) [
    | inl fewer ↦ absurd (ground arith)
    | inr kept ↦ start_or_wait_new (evict l now false).0 l' q r (ground arith)
  ]
]

-- On a well-formed loader a round of load that hands out a runner gives the one registered for the
-- request, which has not stopped, and counts the new holder, modulo 2 ^ 64, and nothing else.
pub load_round-IsReuse :
    (l l' : Loader) (q : Request) (now : ℕ) (r : Runner)
    → IsValid l
    → load_round l q now ≡ reused r l'
    → IsReuse l q r l'
unfolding load_round
load_round-IsReuse l l' q now r v h = elim (Bool-cases l.loads_enabled) [
  | inr off ↦ absurd (ground arith)
  | inl on ↦ elim (Bool-cases (is_model_loading l.loading q)) [
    | inl busy ↦ absurd (ground arith)
    | inr idle ↦ elim (Option-cases (lookup (request_key q) l.runners)) [
      | inl fresh ↦ absurd (allocate_new l l' q now r (ground arith))
      | inr (i, found) ↦ load_existing-IsReuse l l' q i r v found (ground arith)
    ]
  ]
]

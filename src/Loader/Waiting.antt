-- ===== src/Loader/Waiting.antt =====
-- When `load` of loader.go has to wait.
use model_runner.Common.{
  ℕ, zero, suc, ◌+◌, ◌<◌, ◌≤◌, ◌≡◌, refl, sym, ◌∙◌, ap, true, List, [], ◌∷◌, ◌++◌, Option, none,
  some, arith, length, get_elem?, length-append, ◌⊎◌, inl, inr, Bool-cases, Option-cases, ltb,
}
use model_runner.Common.Assoc.{lookup, nat_eq}
use model_runner.Common.Pigeonhole.{mem, length_of_covers, mem-append_left, mem-append_right}
use model_runner.Loader.Keys.{RunnerKey, runner_key_eq}
use model_runner.Loader.State.{Loader, Runner, RunnerInfo, LoadingInfo, used_slots, is_slot_loading}
use model_runner.Loader.Load.{find_slot, find_free_slot}
use model_runner.Loader.Invariant.{IsValid}

runner_slots : List (RunnerKey × RunnerInfo) → List ℕ
runner_slots [] = []
runner_slots ((k, i) ∷ m) = i.slot ∷ runner_slots m

loading_slots : List (ℕ × LoadingInfo) → List ℕ
loading_slots [] = []
loading_slots ((s, i) ∷ m) = s ∷ loading_slots m

length-runner_slots : (m : List (RunnerKey × RunnerInfo)) → length (runner_slots m) ≡ length m
unfolding runner_slots
length-runner_slots [] = refl
length-runner_slots ((k, i) ∷ m) = ap suc (length-runner_slots m)

length-loading_slots : (m : List (ℕ × LoadingInfo)) → length (loading_slots m) ≡ length m
unfolding loading_slots
length-loading_slots [] = refl
length-loading_slots ((s, i) ∷ m) = ap suc (length-loading_slots m)

mem-runner_slots :
    (m : List (RunnerKey × RunnerInfo)) (k : RunnerKey) (i : RunnerInfo)
    → lookup k m ≡ some i
    → mem i.slot (runner_slots m) ≡ true
unfolding runner_slots mem lookup
mem-runner_slots [] k i h = absurd (ground arith)
mem-runner_slots ((j, a) ∷ m) k i h = ground (arith, mem-runner_slots m k i)

mem-loading_slots :
    (m : List (ℕ × LoadingInfo)) (s : ℕ) (i : LoadingInfo)
    → lookup s m ≡ some i
    → mem s (loading_slots m) ≡ true
unfolding loading_slots mem lookup
mem-loading_slots [] s i h = absurd (ground arith)
mem-loading_slots ((t, a) ∷ m) s i h = ground (arith, mem-loading_slots m s i)

-- If the search fails, each slot holds a runner or is reserved.
find_slot-none :
    (l : Loader) (rest : List (Option Runner)) (n : ℕ)
    → find_slot l rest n ≡ none
    → (s d : ℕ) → s ≡ n + d
    → d < length rest
    → ((r : Runner) × (get_elem? rest d ≡ some (some r))) ⊎ (is_slot_loading l s ≡ true)
unfolding find_slot
find_slot-none l [] n h s d at lt = absurd (omega arith)
find_slot-none l (some r ∷ rest) n h s zero at lt = inl (r, refl)
find_slot-none l (some r ∷ rest) n h s (suc d) at lt =
    find_slot-none l rest (n + 1) h s d (omega arith) (omega arith)
find_slot-none l (none ∷ rest) n h s zero at lt =
    let same : n ≡ s = omega arith in inr (ground (arith, ap (is_slot_loading l) same))
find_slot-none l (none ∷ rest) n h s (suc d) at lt =
    find_slot-none l rest (n + 1) (ground arith) s d (omega arith) (omega arith)

is_slot_loading_inv :
    (l : Loader) (s : ℕ)
    → is_slot_loading l s ≡ true
    → (i : LoadingInfo) × (lookup s l.loading ≡ some i)
unfolding is_slot_loading
is_slot_loading_inv l s h = elim (Option-cases (lookup s l.loading)) [
  | inl e ↦ absurd (ground arith)
  | inr (i, e) ↦ (i, e)
]

-- If the search fails, every slot is among those of the runners and of the loads.
pub taken : Loader → List ℕ
taken l = runner_slots l.runners ++ loading_slots l.loading

mem-taken :
    (l : Loader) (s : ℕ)
    → IsValid l
    → find_slot l l.slots 0 ≡ none
    → s < length l.slots
    → mem s (taken l) ≡ true
unfolding taken
mem-taken l s v h lt = elim (find_slot-none l l.slots 0 h s s (omega arith) lt) [
  | inl (r, at) ↦
      let (k, i, found, same) = v.owned s r at in
      mem-append_left s (runner_slots l.runners) (loading_slots l.loading)
        (ap (λ x. mem x (runner_slots l.runners)) (sym same) ∙ mem-runner_slots l.runners k i found)
  | inr busy ↦
      let (i, found) = is_slot_loading_inv l s busy in
      mem-append_right s (runner_slots l.runners) (loading_slots l.loading)
        (mem-loading_slots l.loading s i found)
]

length-taken : (l : Loader) → length (taken l) ≡ used_slots l
unfolding taken used_slots
length-taken l = omega (
  arith,
  length-append (runner_slots l.runners) (loading_slots l.loading),
  length-runner_slots l.runners,
  length-loading_slots l.loading,
)

-- On a well-formed loader the search for a slot finds one as long as runners and loads use fewer
-- slots than there are.
pub find_free_slot_complete :
    (l : Loader) → IsValid l → find_free_slot l ≡ none → length l.slots ≤ used_slots l
unfolding find_free_slot
find_free_slot_complete l v h = elim (Bool-cases (ltb (used_slots l) (length l.slots))) [
  | inr full ↦ ground arith
  | inl room ↦
      let none_found : find_slot l l.slots 0 ≡ none = ground arith in
      let covered =
        length_of_covers (length l.slots) (taken l) (λ s lt. mem-taken l s v none_found lt) in
      omega (arith, length-taken l)
]

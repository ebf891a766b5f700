-- ===== src/Loader/Reasons.antt =====
-- Why a round of `load` in loader.go waits.
use model_runner.Common.{
  ℕ, ◌≤◌, ◌≡◌, ◌≢◌, sym, ◌∙◌, ap, subst, get_or, true, false, some, arith, length, get_elem?, inl,
  inr, Bool-cases, Option-cases, ltb, leb, ◌==◌,
}
use model_runner.Common.Assoc.{lookup, nat_eq}
use model_runner.Loader.Keys.{RunnerKey, runner_key_eq}
use model_runner.Loader.State.{
  Loader, Runner, RunnerInfo, runner_at, is_done, references_at, used_slots,
}
use model_runner.Loader.Evict.{evict, is_evictable}
use model_runner.Loader.Load.{
  Request, request_key, waiting, is_model_loading, find_free_slot, start_or_wait, allocate,
  load_existing, load_round,
}
use model_runner.Loader.Invariant.{IsValid}
use model_runner.Loader.Eviction.{evict-lookup, evict-IsValid}
use model_runner.Loader.Shrink.{evict-Keeps}
use model_runner.Loader.Waiting.{find_free_slot_complete}

start_or_wait_full :
    (l l' : Loader) (q : Request)
    → IsValid l
    → start_or_wait l q ≡ waiting l'
    → (l ≡ l') × (length l.slots ≤ used_slots l)
unfolding start_or_wait
start_or_wait_full l l' q v h = elim (Option-cases (find_free_slot l)) [
  | inl e ↦ (ground arith, find_free_slot_complete l v e)
  | inr (s, e) ↦ absurd (ground arith)
]

-- Why a request waits.
pub data WaitReason (l : Loader) (q : Request) (l' : Loader) : Type 0 where
  -- A runner for the request is being started already.
  same_load : is_model_loading l.loading q ≡ true → WaitReason l q l'
  -- The runner for the request has stopped, and somebody still holds it.
  stopped :
      (i : RunnerInfo)
      → lookup (request_key q) l.runners ≡ some i
      → is_done l i.slot ≡ true
      → references_at l i.slot ≢ 0
      → WaitReason l q l'
  -- Every slot is taken, and every runner that is left is in use.
  no_room :
      length l'.slots ≤ used_slots l'
      → ((k : RunnerKey) (i : RunnerInfo)
          → lookup k l'.runners ≡ some i
          → references_at l' i.slot ≢ 0)
      → WaitReason l q l'

references_at-evict :
    (l : Loader) (now : ℕ) (s : ℕ) → references_at (evict l now false).0 s ≡ references_at l s
unfolding references_at
references_at-evict l now s = ap (λ xs. get_or xs s 0) (evict-Keeps l now false).references

is_evictable_all :
    (l : Loader) (now : ℕ) (k : RunnerKey) (i : RunnerInfo)
    → is_evictable l now false k i ≡ (references_at l i.slot == 0)
unfolding is_evictable
is_evictable_all l now k i = ground arith

-- After an eviction of all unused runners those that are left are in use.
evict_all_used :
    (l : Loader) (now : ℕ) (k : RunnerKey) (i : RunnerInfo)
    → IsValid l
    → lookup k (evict l now false).0.runners ≡ some i
    → references_at (evict l now false).0 i.slot ≢ 0
evict_all_used l now k i v found = λ unused.
    let spec = evict-lookup l now false k v in
    let test = is_evictable_all l now k i in
    let free : references_at l i.slot ≡ 0 = sym (references_at-evict l now i.slot) ∙ unused in
    elim (Option-cases (lookup k l.runners)) [
      | inl e ↦ ground arith
      | inr (j, e) ↦ elim (Bool-cases (is_evictable l now false k j)) [
        | inl hit ↦ ground arith
        | inr miss ↦
            let same : j ≡ i = ground arith in ground (arith, ap (is_evictable l now false k) same)
      ]
    ]

is_done-runner_at :
    (l : Loader) (s : ℕ) (r : Runner) → runner_at l s ≡ some r → is_done l s ≡ r.done
unfolding is_done
is_done-runner_at l s r h = ground arith

runner_at_occupied :
    (l : Loader) (s : ℕ) (r : Runner) → get_elem? l.slots s ≡ some (some r) → runner_at l s ≡ some r
unfolding runner_at
runner_at_occupied l s r h = ground arith

allocate_waits :
    (l l' : Loader) (q : Request) (now : ℕ)
    → IsValid l
    → allocate l q now ≡ waiting l'
    → WaitReason l q l'
unfolding allocate
allocate_waits l l' q now v h =
    let valid = evict-IsValid l now false v in
    elim (Bool-cases (leb (length l.slots) (used_slots l))) [
      | inr room ↦
          let (same, full) = start_or_wait_full l l' q v (ground arith) in absurd (ground arith)
      | inl over ↦ elim (Bool-cases (ltb (evict l now false).1 (length l.runners))) [
        | inl fewer ↦ absurd (ground arith)
        | inr kept ↦
            let (same, full) = start_or_wait_full (evict l now false).0 l' q valid (ground arith) in
            no_room (subst (λ x. length x.slots ≤ used_slots x) same full) (
              subst
                (λ (x : Loader).
                  (k : RunnerKey) (i : RunnerInfo)
                  → lookup k x.runners ≡ some i
                  → references_at x i.slot ≢ 0)
                same (λ k i found. evict_all_used l now k i v found))
      ]
    ]

load_existing_waits :
    (l l' : Loader) (q : Request) (i : RunnerInfo)
    → IsValid l
    → lookup (request_key q) l.runners ≡ some i
    → load_existing l q i ≡ waiting l'
    → WaitReason l q l'
unfolding load_existing
load_existing_waits l l' q i v found h =
    let (r, at) = v.occupied (request_key q) i found in
    let here = runner_at_occupied l i.slot r at in
    elim (Bool-cases r.done) [
      | inr live ↦ absurd (ground arith)
      | inl dead ↦ elim (Bool-cases (references_at l i.slot == 0)) [
        | inl unused ↦ absurd (ground arith)
        | inr used ↦ stopped i found (is_done-runner_at l i.slot r here ∙ dead) (ground arith)
      ]
    ]

-- On a well-formed loader a round of load waits only if its runner is being started already, has
-- stopped but is held, or every slot is taken and every remaining runner is in use.
pub load_round_waits :
    (l l' : Loader) (q : Request) (now : ℕ)
    → IsValid l
    → load_round l q now ≡ waiting l'
    → WaitReason l q l'
unfolding load_round
load_round_waits l l' q now v h = elim (Bool-cases l.loads_enabled) [
  | inr off ↦ absurd (ground arith)
  | inl on ↦ elim (Bool-cases (is_model_loading l.loading q)) [
    | inl busy ↦ same_load busy
    | inr idle ↦ elim (Option-cases (lookup (request_key q) l.runners)) [
      | inl fresh ↦ allocate_waits l l' q now v (ground arith)
      | inr (i, found) ↦ load_existing_waits l l' q i v found (ground arith)
    ]
  ]
]

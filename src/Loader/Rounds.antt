-- ===== src/Loader/Rounds.antt =====
-- Every round of the loop of `load` in loader.go keeps the loader well formed.
use model_runner.Common.{
  ℕ, ◌+◌, ◌%◌, ◌^◌, ◌<◌, ◌≡◌, refl, sym, ◌∙◌, ap, true, false, none, some, arith, length, get_elem?,
  length-set, Bool-cases, Option-cases, inl, inr, text_eq_iff, ◌==◌, ltb, leb,
}
use model_runner.Common.Assoc.{lookup, lookup-insert_self, nat_eq}
use model_runner.Loader.Keys.{make_runner_key, runner_key_eq, mode_eq_iff}
use model_runner.Loader.State.{
  Loader, Runner, RunnerInfo, runner_at, references_at, used_slots, is_slot_loading,
}
use model_runner.Loader.Evict.{evict, is_target}
use model_runner.Loader.Load.{
  Request, request_key, Round, failed, reused, again, waiting, started, is_model_loading,
  find_free_slot, use_existing, loading_info, reserve, start_or_wait, allocate, load_existing,
  load_round, cleanup,
}
use model_runner.Loader.Invariant.{IsValid}
use model_runner.Loader.Eviction.{evict-IsValid, evict_runner-IsValid, evict-lookup}
use model_runner.Loader.Shrink.{evict_runner_shrinks, evict-Keeps}
use model_runner.Loader.Reserve.{find_slot_sound, reserve-IsValid}

-- What a round leaves is well formed, whichever way it goes. A slot that was started is in range,
-- free, and reserved for the request, and was not reserved before.
abbrev pub RoundIsValid : Loader → Request → Round → Type 0
RoundIsValid l q (failed e l') = IsValid l'
RoundIsValid l q (reused r l') = IsValid l'
RoundIsValid l q (again l') = IsValid l' × (length l'.runners < length l.runners)
RoundIsValid l q (waiting l') = IsValid l'
RoundIsValid l q (started s l') =
    IsValid l'
    × (get_elem? l'.slots s ≡ some none)
    × (lookup s l'.loading ≡ some (loading_info q))
    × (is_slot_loading l s ≡ false)

pub cleanup-IsValid : (l : Loader) (q : Request) → IsValid l → IsValid (cleanup l q)
unfolding cleanup
cleanup-IsValid l q v = record {
  same_references = v.same_references;
  same_timestamps = v.same_timestamps;
  keys = v.keys;
  load_keys = v.load_keys;
  occupied = v.occupied;
  separate = v.separate;
  owned = v.owned;
  reserved = v.reserved;
  unique_load = v.unique_load;
  fresh_load = v.fresh_load;
}

use_existing-IsValid :
    (l : Loader) (q : Request) (slot : ℕ) (r : Runner)
    → IsValid l
    → IsValid (use_existing l q slot r)
unfolding use_existing cleanup
use_existing-IsValid l q slot r v = record {
  same_references =
      length-set l.references slot ((references_at l slot + 1) % 2 ^ 64) ∙ v.same_references;
  same_timestamps = length-set l.timestamps slot 0 ∙ v.same_timestamps;
  keys = v.keys;
  load_keys = v.load_keys;
  occupied = v.occupied;
  separate = v.separate;
  owned = v.owned;
  reserved = v.reserved;
  unique_load = v.unique_load;
  fresh_load = v.fresh_load;
}

find_free_slot_sound :
    (l : Loader) (s : ℕ)
    → find_free_slot l ≡ some s
    → (get_elem? l.slots s ≡ some none) × (is_slot_loading l s ≡ false)
unfolding find_free_slot
find_free_slot_sound l s h =
    let (d, at, free, open_slot) = find_slot_sound l l.slots 0 s (ground arith) in
    let same : s ≡ d = omega (arith, at) in (ap (get_elem? l.slots) same ∙ free, open_slot)

is_slot_loading-eq :
    (l m : Loader) (s : ℕ) → l.loading ≡ m.loading → is_slot_loading l s ≡ is_slot_loading m s
unfolding is_slot_loading
is_slot_loading-eq l m s h = ground (arith, ap (lookup s) h)

start_or_wait-IsValid :
    (l₀ l : Loader) (q : Request)
    → l.loading ≡ l₀.loading
    → is_model_loading l.loading q ≡ false
    → lookup (request_key q) l.runners ≡ none
    → IsValid l
    → RoundIsValid l₀ q (start_or_wait l q)
unfolding start_or_wait
start_or_wait-IsValid l₀ l q same idle fresh v = elim (Option-cases (find_free_slot l)) [
  | inl e ↦ rw (e, start_or_wait) v
  | inr (s, e) ↦
      let (free, open_slot) = find_free_slot_sound l s e in
      rw (e, start_or_wait)
        (
          reserve-IsValid l q s free idle fresh v,
          unfold reserve in free,
          unfold reserve in lookup-insert_self s (loading_info q) l.loading,
          sym (is_slot_loading-eq l l₀ s same) ∙ open_slot,
        )
]

-- A runner that the request may use is a target of the eviction that `load` makes for it.
pub request-is_target :
    (l : Loader) (q : Request) (i : RunnerInfo)
    → references_at l i.slot ≡ 0
    → is_target q.backend_name q.model_id q.mode l (request_key q) i ≡ true
unfolding is_target request_key make_runner_key
request-is_target l q i unused = ground (
  arith,
  text_eq_iff q.backend_name q.backend_name,
  text_eq_iff q.model_id q.model_id,
  mode_eq_iff q.mode q.mode,
)

load_existing-IsValid :
    (l : Loader) (q : Request) (existing : RunnerInfo)
    → lookup (request_key q) l.runners ≡ some existing
    → IsValid l
    → RoundIsValid l q (load_existing l q existing)
unfolding load_existing use_existing
load_existing-IsValid l q existing found v = elim (Option-cases (runner_at l existing.slot)) [
  | inl e ↦ rw (e, load_existing) v
  | inr (r, e) ↦ elim (Bool-cases r.done) [
    | inr live ↦ rw (e, load_existing) (rw live (use_existing-IsValid l q existing.slot r v))
    | inl dead ↦ elim (Bool-cases (references_at l existing.slot == 0)) [
      | inr used ↦ rw (e, load_existing) (rw (dead, used) v)
      | inl unused ↦
          let target = request-is_target l q existing (ground arith) in
          rw (e, load_existing)
            (rw (dead, unused)
              (
                evict_runner-IsValid l q.backend_name q.model_id q.mode v,
                evict_runner_shrinks l q.backend_name q.model_id q.mode (request_key q) existing v
                    found target,
              ))
    ]
  ]
]

evict_less :
    (l : Loader) (now : ℕ)
    → ltb (evict l now false).1 (length l.runners) ≡ true
    → length (evict l now false).0.runners < length l.runners
unfolding evict
evict_less l now h = ground arith

allocate-IsValid :
    (l : Loader) (q : Request) (now : ℕ)
    → is_model_loading l.loading q ≡ false
    → lookup (request_key q) l.runners ≡ none
    → IsValid l
    → RoundIsValid l q (allocate l q now)
unfolding allocate
allocate-IsValid l q now idle fresh v =
    let gone = evict-lookup l now false (request_key q) v in
    let kept = (evict-Keeps l now false).loading in
    let valid = evict-IsValid l now false v in
    let less = λ (f : ltb (evict l now false).1 (length l.runners) ≡ true). evict_less l now f in
    elim (Bool-cases (leb (length l.slots) (used_slots l))) [
      | inr room ↦ rw (room, allocate) (start_or_wait-IsValid l l q refl idle fresh v)
      | inl full ↦ elim (Bool-cases (ltb (evict l now false).1 (length l.runners))) [
        | inl fewer ↦ rw (full, allocate) (rw fewer (valid, less fewer))
        | inr same ↦
            rw (full, allocate)
              (rw same (
                start_or_wait-IsValid l (evict l now false).0 q kept
                  (ap (λ m. is_model_loading m q) kept ∙ idle) (ground arith) valid))
      ]
    ]

-- Every round of load keeps a well-formed loader well formed; a continue leaves fewer runners, and
-- a started slot was free and not reserved.
pub load_round-IsValid :
    (l : Loader) (q : Request) (now : ℕ) → IsValid l → RoundIsValid l q (load_round l q now)
unfolding load_round
load_round-IsValid l q now v = elim (Bool-cases l.loads_enabled) [
  | inr off ↦ simp off (cleanup-IsValid l q v)
  | inl on ↦ elim (Bool-cases (is_model_loading l.loading q)) [
    | inl busy ↦ simp (on, busy) v
    | inr idle ↦ elim (Option-cases (lookup (request_key q) l.runners)) [
      | inl fresh ↦ rw (fresh, load_round) (simp (on, idle) (allocate-IsValid l q now idle fresh v))
      | inr (i, found) ↦
          rw (found, load_round) (simp (on, idle) (load_existing-IsValid l q i found v))
    ]
  ]
]

-- ===== src/Loader/Invariant.antt =====
-- The well-formedness of the loader of loader.go, and that freeing a slot and the loops that free
-- slots keep it.
use model_runner.Common.{
  ℕ, ◌+◌, ◌≡◌, ◌≢◌, ◌∙◌, Bool, true, false, List, [], ◌∷◌, none, some, arith, length, get_elem?,
  length-set, get_elem?-set_ne, get_elem?-set_inv, if◌then◌else◌, inl, inr,
}
use model_runner.Common.Assoc.{
  lookup, HasDistinctKeys, lookup-delete_inv, lookup-delete_ne, lookup-delete-none,
  delete-HasDistinctKeys, lookup_head, lookup_tail, nat_eq,
}
use model_runner.Loader.Keys.{RunnerKey, runner_key_eq, make_runner_key}
use model_runner.Loader.State.{Loader, Runner, RunnerInfo, LoadingInfo, free_runner_slot}
use model_runner.Loader.Evict.{free_where}

-- The key under which the runner that is being loaded will be registered.
abbrev pub load_key : LoadingInfo → RunnerKey
load_key i = make_runner_key i.backend_name i.model_id i.draft_model_id i.mode

pub record IsValid (l : Loader) : Type 0 where
  pub same_references : length l.references ≡ length l.slots
  pub same_timestamps : length l.timestamps ≡ length l.slots
  pub keys : HasDistinctKeys l.runners
  pub load_keys : HasDistinctKeys l.loading
  -- A registered runner has a slot of its own, and every occupied slot is some runner's.
  pub occupied :
      (k : RunnerKey) (i : RunnerInfo)
      → lookup k l.runners ≡ some i
      → (r : Runner) × (get_elem? l.slots i.slot ≡ some (some r))
  pub separate :
      (k j : RunnerKey) (i i' : RunnerInfo)
      → lookup k l.runners ≡ some i
      → lookup j l.runners ≡ some i'
      → i.slot ≡ i'.slot
      → k ≡ j
  pub owned :
      (s : ℕ) (r : Runner)
      → get_elem? l.slots s ≡ some (some r)
      → (k : RunnerKey) × (i : RunnerInfo) × (lookup k l.runners ≡ some i) × (i.slot ≡ s)
  -- A reserved slot is free, and no two loads, nor a load and a runner, have one key.
  pub reserved :
      (s : ℕ) (i : LoadingInfo) → lookup s l.loading ≡ some i → get_elem? l.slots s ≡ some none
  pub unique_load :
      (s t : ℕ) (i j : LoadingInfo)
      → lookup s l.loading ≡ some i
      → lookup t l.loading ≡ some j
      → load_key i ≡ load_key j
      → s ≡ t
  pub fresh_load :
      (s : ℕ) (i : LoadingInfo) → lookup s l.loading ≡ some i → lookup (load_key i) l.runners ≡ none

slot_of_key :
    (l : Loader) (k j : RunnerKey) (a b : RunnerInfo)
    → lookup k l.runners ≡ some a
    → lookup j l.runners ≡ some b
    → k ≡ j
    → a.slot ≡ b.slot
slot_of_key l k j a b ha hb e = cc

pub free_runner_slot-IsValid :
    (l : Loader) (key : RunnerKey) (i : RunnerInfo)
    → lookup key l.runners ≡ some i
    → IsValid l
    → IsValid (free_runner_slot l i.slot key)
unfolding free_runner_slot
free_runner_slot-IsValid l key i found v = record {
  same_references = omega (arith, length-set l.slots i.slot none);
  same_timestamps = omega (arith, length-set l.timestamps i.slot 0, length-set l.slots i.slot none);
  keys = delete-HasDistinctKeys key l.runners v.keys;
  load_keys = v.load_keys;
  occupied = λ k j h.
      let (kept, other) = lookup-delete_inv key k j l.runners h in
      let (r, at) = v.occupied k j kept in
      (
        r,
        get_elem?-set_ne l.slots i.slot j.slot none (λ e. other (v.separate key k i j found kept e))
            ∙ at,
      );
  separate = λ k j a b ha hb.
      v.separate k j a b (lookup-delete_inv key k a l.runners ha).0
        (lookup-delete_inv key j b l.runners hb).0;
  owned = λ s r h. elim (get_elem?-set_inv l.slots i.slot s none (some r) h) [
    | inl e ↦ cc
    | inr e ↦
        let (k, j, at, here) = v.owned s r e.1 in
        let other : key ≢ k = λ q. e.0 (slot_of_key l key k i j found at q ∙ here) in
        (k, j, lookup-delete_ne key k l.runners other ∙ at, here)
  ];
  reserved = λ s j h.
      let (r, at) = v.occupied key i found in
      let free = v.reserved s j h in get_elem?-set_ne l.slots i.slot s none (λ e. cc) ∙ free;
  unique_load = v.unique_load;
  fresh_load = λ s j h. lookup-delete-none key (load_key j) l.runners (v.fresh_load s j h);
}

-- Entries of a list are registered runners.
abbrev pub AreRegistered : List (RunnerKey × RunnerInfo) → Loader → Type 0
AreRegistered entries l =
    (k : RunnerKey) (i : RunnerInfo) → lookup k entries ≡ some i → lookup k l.runners ≡ some i

-- Where a round stands after its entry: `hit` is whether the entry was picked.
abbrev pub after_round : Loader → RunnerKey → RunnerInfo → Bool → Loader
after_round l r info hit = if hit then free_runner_slot l info.slot r else l

pub after_round-IsValid :
    (l : Loader) (r : RunnerKey) (info : RunnerInfo) (hit : Bool)
    → lookup r l.runners ≡ some info
    → IsValid l
    → IsValid (after_round l r info hit)
after_round-IsValid l r info true found v = free_runner_slot-IsValid l r info found v
after_round-IsValid l r info false found v = v

pub after_round-AreRegistered :
    (l : Loader) (r : RunnerKey) (info : RunnerInfo) (hit : Bool)
    (rest : List (RunnerKey × RunnerInfo))
    → HasDistinctKeys ((r, info) ∷ rest)
    → AreRegistered ((r, info) ∷ rest) l
    → AreRegistered rest (after_round l r info hit)
unfolding free_runner_slot
after_round-AreRegistered l r info true rest d h = λ k i found.
    let (listed, other) = lookup_tail r k info i rest d found in
    lookup-delete_ne r k l.runners other ∙ h k i listed
after_round-AreRegistered l r info false rest d h =
    λ k i found. h k i (lookup_tail r k info i rest d found).0

-- A loop that frees slots keeps the loader well formed, whatever it picks.
pub free_where-IsValid :
    (picks : Loader → RunnerKey → RunnerInfo → Bool) (entries : List (RunnerKey × RunnerInfo))
    (l : Loader) (count : ℕ)
    → HasDistinctKeys entries
    → AreRegistered entries l
    → IsValid l
    → IsValid (free_where picks entries l count).0
unfolding free_where
free_where-IsValid picks [] l count d h v = v
free_where-IsValid picks ((r, info) ∷ rest) l count d h v =
    let hit = picks l r info in
    free_where-IsValid picks rest (after_round l r info hit) (if hit then count + 1 else count) d.1
      (after_round-AreRegistered l r info hit rest d h)
      (after_round-IsValid l r info hit (h r info (lookup_head r info rest)) v)

-- ===== src/Loader/Operations.antt =====
-- The other operations of loader.go keep the loader well formed.
use model_runner.Common.{
  ℕ, zero, suc, ◌≡◌, refl, sym, ◌∙◌, Bool, true, false, List, [], ◌∷◌, Option, none, some, arith,
  length, get_elem?, length-set, length-replicate, inl, inr, Text, Bool-cases, replicate,
  if◌then◌else◌,
}
use model_runner.Common.Assoc.{lookup, nat_eq}
use model_runner.Loader.Keys.{
  RunnerKey, completion, embedding, reranking, image_generation, runner_key_eq,
}
use model_runner.Loader.State.{Loader, Runner, BackendConfiguration, new_loader, broadcast}
use model_runner.Loader.Evict.{
  is_of_backend, unload_backend, UnloadRequest, unload_model, unload_models, unload,
}
use model_runner.Loader.Release.{release, drop_reference, find_runner_slot}
use model_runner.Loader.Invariant.{IsValid, free_where-IsValid}
use model_runner.Loader.Eviction.{evict-IsValid, evict_runner-IsValid}

-- Well-formedness is about the runners, the loads and the slots, and two lengths.
pub IsValid-update :
    (l : Loader) (loads_enabled idle_check : Bool) (waiters : List (ℕ × Bool))
    (references timestamps : List ℕ) (configs : List (RunnerKey × BackendConfiguration))
    → length references ≡ length l.references
    → length timestamps ≡ length l.timestamps
    → IsValid l
    → IsValid (record l {
      loads_enabled = loads_enabled;
      idle_check = idle_check;
      waiters = waiters;
      references = references;
      timestamps = timestamps;
      runner_configs = configs;
    })
IsValid-update l loads_enabled idle_check waiters references timestamps configs hr ht v = record {
  same_references = hr ∙ v.same_references;
  same_timestamps = ht ∙ v.same_timestamps;
  keys = v.keys;
  load_keys = v.load_keys;
  occupied = v.occupied;
  separate = v.separate;
  owned = v.owned;
  reserved = v.reserved;
  unique_load = v.unique_load;
  fresh_load = v.fresh_load;
}

broadcast-IsValid : (l : Loader) → IsValid l → IsValid (broadcast l)
unfolding broadcast
broadcast-IsValid l v =
    IsValid-update l l.loads_enabled l.idle_check _ l.references l.timestamps l.runner_configs refl
      refl v

pub configs-IsValid :
    (l : Loader) (configs : List (RunnerKey × BackendConfiguration))
    → IsValid l
    → IsValid (record l { runner_configs = configs })
configs-IsValid l configs v =
    IsValid-update l l.loads_enabled l.idle_check l.waiters l.references l.timestamps configs refl
      refl v

pub waiters-IsValid :
    (l : Loader) (waiters : List (ℕ × Bool)) → IsValid l → IsValid (record l { waiters = waiters })
waiters-IsValid l waiters v =
    IsValid-update l l.loads_enabled l.idle_check waiters l.references l.timestamps l.runner_configs
      refl refl v

free_slots_none : (n s : ℕ) (r : Option Runner) → get_elem? (replicate n none) s ≡ some r → r ≡ none
free_slots_none zero s r h = cc
free_slots_none (suc n) zero r h = ground arith
free_slots_none (suc n) (suc s) r h = free_slots_none n s r h

pub new_loader-IsValid :
    (backends : List Text) (cpus : ℕ) (gpu : Bool) → IsValid (new_loader backends cpus gpu)
unfolding new_loader lookup
new_loader-IsValid backends cpus gpu = record {
  same_references = length-replicate _ 0 ∙ sym (length-replicate _ none);
  same_timestamps = length-replicate _ 0 ∙ sym (length-replicate _ none);
  keys = tt;
  load_keys = tt;
  occupied = λ k i h. absurd (ground arith);
  separate = λ k j a b ha hb e. absurd (ground arith);
  owned = λ s r h. absurd (let e = free_slots_none _ s (some r) h in ground arith);
  reserved = λ s i h. absurd (ground arith);
  unique_load = λ s t i j hs ht e. absurd (ground arith);
  fresh_load = λ s i h. absurd (ground arith);
}

pub unload_backend-IsValid :
    (l : Loader) (locked : Bool) (backend : Text)
    → IsValid l
    → IsValid (unload_backend l locked backend).0
unfolding unload_backend
unload_backend-IsValid l false backend v = v
unload_backend-IsValid l true backend v =
    free_where-IsValid (is_of_backend backend) l.runners l 0 v.keys (λ j i h. h) v

pub unload_model-IsValid :
    (l : Loader) (backend model_id : Text) → IsValid l → IsValid (unload_model l backend model_id)
unfolding unload_model
unload_model-IsValid l backend model_id v =
    evict_runner-IsValid _ backend model_id image_generation (
      evict_runner-IsValid _ backend model_id reranking (
        evict_runner-IsValid _ backend model_id embedding
          (evict_runner-IsValid _ backend model_id completion (configs-IsValid l _ v))))

unload_models-IsValid :
    (resolve_id : Text → Text) (models : List Text) (l : Loader) (backend : Text)
    → IsValid l
    → IsValid (unload_models resolve_id l backend models)
unfolding unload_models
unload_models-IsValid resolve_id [] l backend v = v
unload_models-IsValid resolve_id (m ∷ ms) l backend v =
    unload_models-IsValid resolve_id ms _ backend (unload_model-IsValid l backend (resolve_id m) v)

pub unload-IsValid :
    (resolve_id : Text → Text) (l : Loader) (now : ℕ) (locked : Bool) (request : UnloadRequest)
    → IsValid l
    → IsValid (unload resolve_id l now locked request).0
unfolding unload
unload-IsValid resolve_id l now false request v = v
unload-IsValid resolve_id l now true request v = elim (Bool-cases request.all) [
  | inl e ↦ simp e (evict-IsValid _ now false (configs-IsValid l [] v))
  | inr e ↦ simp e (unload_models-IsValid resolve_id request.models l request.backend v)
]

pub if-IsValid : (b : Bool) (x y : Loader) → IsValid x → IsValid y → IsValid (if b then x else y)
if-IsValid true x y vx vy = vx
if-IsValid false x y vx vy = vy

pub drop_reference-IsValid : (l : Loader) (slot : ℕ) → IsValid l → IsValid (drop_reference l slot)
unfolding drop_reference
drop_reference-IsValid l slot v =
    IsValid-update l l.loads_enabled l.idle_check l.waiters _ l.timestamps l.runner_configs
      (length-set l.references slot _) refl v

pub release-IsValid : (l : Loader) (r : Runner) (now : ℕ) → IsValid l → IsValid (release l r now)
unfolding release
release-IsValid l r now v =
    let slot = find_runner_slot r l.runners in
    let dropped = drop_reference l slot in
    let kept = drop_reference-IsValid l slot v in
    broadcast-IsValid _ (
      if-IsValid _ _ _
        (if-IsValid _ _ _ (evict_runner-IsValid dropped r.backend r.model r.mode kept) (
          IsValid-update dropped dropped.loads_enabled true dropped.waiters dropped.references _
            dropped.runner_configs refl (length-set dropped.timestamps slot now) kept))
        kept)

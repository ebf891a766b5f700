-- ===== src/Loader/Configure.antt =====
-- The configuration and the start and end of `run` of loader.go keep the loader well formed.
use model_runner.Common.{
  ℕ, ◌≡◌, refl, sym, ◌∙◌, ap, Bool, true, false, not, Option, some, get_elem?, set, length-set,
  get_elem?-set_self, get_elem?-set_ne, get_elem?-set_inv, inl, inr, Text, if◌then◌else◌,
}
use native.Mathlib.Decide.{ℕ_discrete}
use model_runner.Common.Assoc.{insert, nat_eq}
use model_runner.Loader.Keys.{
  RunnerKey, BackendMode, make_config_key, make_runner_key, runner_key_eq,
}
use model_runner.Loader.State.{Loader, Runner, BackendConfiguration, broadcast}
use model_runner.Loader.Load.{draft_of, contains_backend, load_begin, Begin, refused, begun}
use model_runner.Loader.Release.{
  set_runner_config, has_runner, evict_configured, is_unchanged, disable_loads, shutdown_round,
}
use model_runner.Loader.Invariant.{IsValid}
use model_runner.Loader.Eviction.{evict-IsValid, evict_runner-IsValid}
use model_runner.Loader.Operations.{IsValid-update, configs-IsValid, waiters-IsValid, if-IsValid}

if-IsValid_fst :
    (b : Bool) (x y : Loader × Bool) → IsValid x.0 → IsValid y.0 → IsValid (if b then x else y).0
if-IsValid_fst true x y vx vy = vx
if-IsValid_fst false x y vx vy = vy

evict_configured-IsValid :
    (l : Loader) (key : RunnerKey) → IsValid l → IsValid (evict_configured l key)
unfolding evict_configured
evict_configured-IsValid l key v =
    if-IsValid (has_runner l key) _ _ (evict_runner-IsValid l key.backend key.model_id key.mode v) v

pub set_runner_config-IsValid :
    (resolve_id : Text → Text) (l : Loader) (backend_name model_id : Text) (mode : BackendMode)
    (config : BackendConfiguration)
    → IsValid l
    → IsValid (set_runner_config resolve_id l backend_name model_id mode config).0
unfolding set_runner_config
set_runner_config-IsValid resolve_id l backend_name model_id mode config v =
    let key = make_runner_key backend_name model_id (draft_of resolve_id config) mode in
    let kept = evict_configured-IsValid l key v in
    if-IsValid_fst (is_unchanged l (make_config_key backend_name model_id mode) config) _ _ v
      (if-IsValid_fst (has_runner (evict_configured l key) key) _ _ kept (configs-IsValid _ _ kept))

abbrev pub BeginIsValid : Begin → Type 0
BeginIsValid (refused e) = Unit {0}
BeginIsValid (begun q config l) = IsValid l

if-BeginIsValid :
    (b : Bool) (x y : Begin) → BeginIsValid x → BeginIsValid y → BeginIsValid (if b then x else y)
if-BeginIsValid true x y vx vy = vx
if-BeginIsValid false x y vx vy = vy

pub load_begin-IsValid :
    (resolve_id : Text → Text) (context_size_of : Text → Option ℕ) (l : Loader) (locked : Bool)
    (poll : ℕ) (backend_name model_id model_ref : Text) (mode : BackendMode)
    → IsValid l
    → BeginIsValid
        (load_begin resolve_id context_size_of l locked poll backend_name model_id model_ref mode)
unfolding load_begin
load_begin-IsValid resolve_id context_size_of l locked poll backend_name model_id model_ref mode v =
    if-BeginIsValid (not (contains_backend backend_name l.backends)) _ _ tt
      (if-BeginIsValid (not locked) _ _ tt (waiters-IsValid l (insert poll false l.waiters) v))

pub shutdown_round-IsValid :
    (l : Loader) (poll now : ℕ) → IsValid l → IsValid (shutdown_round l poll now).0
unfolding shutdown_round
shutdown_round-IsValid l poll now v =
    let kept = evict-IsValid _ now false (waiters-IsValid l (insert poll false l.waiters) v) in
    if-IsValid_fst _ _ _ (waiters-IsValid _ _ kept) kept

pub disable_loads-IsValid : (l : Loader) (poll : ℕ) → IsValid l → IsValid (disable_loads l poll)
unfolding disable_loads broadcast
disable_loads-IsValid l poll v =
    IsValid-update l false l.idle_check _ l.references l.timestamps l.runner_configs refl refl v

-- The channel `done` of the runner in a slot is closed: it has stopped by itself.
unfoldable pub stop_runner : Loader → ℕ → Runner → Loader
stop_runner l slot r = record l { slots = set l.slots slot (some (record r { done = true })) }

pub stop_runner-IsValid :
    (l : Loader) (slot : ℕ) (r : Runner)
    → get_elem? l.slots slot ≡ some (some r)
    → IsValid l
    → IsValid (stop_runner l slot r)
unfolding stop_runner
stop_runner-IsValid l slot r at v = record {
  same_references =
      v.same_references ∙ sym (length-set l.slots slot (some (record r { done = true })));
  same_timestamps =
      v.same_timestamps ∙ sym (length-set l.slots slot (some (record r { done = true })));
  keys = v.keys;
  load_keys = v.load_keys;
  occupied = λ k i h. elim (ℕ_discrete slot i.slot) [
    | yes e ↦ (
      record r { done = true },
      ap (get_elem? (set l.slots slot (some (record r { done = true })))) (sym e)
          ∙ get_elem?-set_self l.slots slot (some (record r { done = true })) (some r) at,
    )
    | no e ↦
        let (old, here) = v.occupied k i h in
        (old, get_elem?-set_ne l.slots slot i.slot (some (record r { done = true })) e ∙ here)
  ];
  separate = v.separate;
  owned = λ s old h.
      elim (get_elem?-set_inv l.slots slot s (some (record r { done = true })) (some old) h) [
        | inl e ↦ v.owned s r (ap (get_elem? l.slots) (sym e.0) ∙ at)
        | inr e ↦ v.owned s old e.1
      ];
  reserved = λ s i h.
      let free = v.reserved s i h in
      get_elem?-set_ne l.slots slot s (some (record r { done = true })) (λ e. cc) ∙ free;
  unique_load = v.unique_load;
  fresh_load = v.fresh_load;
}

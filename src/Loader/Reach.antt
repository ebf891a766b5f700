-- ===== src/Loader/Reach.antt =====
-- Every state that the loader of loader.go reaches is well formed.
use model_runner.Common.{ℕ, ◌≡◌, sym, ◌∙◌, ap, subst, Bool, List, [], some, arith, Text, inl, inr}
use model_runner.Common.Assoc.{
  lookup, insert, nat_eq, lookup-insert_inv, lookup-insert_self, lookup-insert_ne,
  lookup-delete_inv, lookup-delete_ne,
}
use model_runner.Loader.Keys.{runner_key_eq}
use model_runner.Loader.State.{Loader, new_loader, broadcast}
use model_runner.Loader.Load.{
  Request, loading_info, Round, failed, reused, again, waiting, started, load_round, load_finish,
  load_failed, cleanup,
}
use model_runner.Loader.Invariant.{IsValid}
use model_runner.Loader.Rounds.{RoundIsValid, load_round-IsValid}
use model_runner.Loader.Loop.{load_failed-IsValid, load_finish-IsValid}
use model_runner.Loader.Operations.{new_loader-IsValid}
use model_runner.Loader.Steps.{
  System, loader_after, Step, Reach, SystemIsValid, Plain-IsValid, operates, rounds, starts, fails,
  finishes, here, next,
}
use model_runner.Loader.Loading.{Plain-loading, RoundLoads, load_round-RoundLoads}

round_kept :
    (l l' : Loader) (q : Request) (round : Round)
    → RoundIsValid l q round
    → RoundLoads l q round
    → loader_after round ≡ some l'
    → IsValid l' × (l'.loading ≡ l.loading)
round_kept l l' q (failed e m) v same h =
    let at : m ≡ l' = ground arith in
    (subst IsValid at v, ap (λ (x : Loader). x.loading) (sym at) ∙ same)
round_kept l l' q (reused r m) v same h =
    let at : m ≡ l' = ground arith in
    (subst IsValid at v, ap (λ (x : Loader). x.loading) (sym at) ∙ same)
round_kept l l' q (again m) v same h =
    let at : m ≡ l' = ground arith in
    (subst IsValid at v.0, ap (λ (x : Loader). x.loading) (sym at) ∙ same)
round_kept l l' q (waiting m) v same h =
    let at : m ≡ l' = ground arith in
    (subst IsValid at v, ap (λ (x : Loader). x.loading) (sym at) ∙ same)
round_kept l l' q (started s m) v same h = absurd (ground arith)

-- Every step keeps the system well formed.
pub Step-SystemIsValid : {s t : System} → Step s t → SystemIsValid s → SystemIsValid t
unfolding load_failed load_finish cleanup broadcast
Step-SystemIsValid {s} (operates {l} p) v = record {
  valid = Plain-IsValid p v.valid;
  holds = λ slot q h. ap (lookup slot) (Plain-loading p) ∙ v.holds slot q h;
}
Step-SystemIsValid {s} (rounds {l} q now h) v =
    let (valid, same) =
      round_kept s.loader l q (load_round s.loader q now)
        (load_round-IsValid s.loader q now v.valid) (load_round-RoundLoads s.loader q now) h in
    record { valid = valid; holds = λ slot p held. ap (lookup slot) same ∙ v.holds slot p held }
Step-SystemIsValid {s} (starts {l} q now slot h) v =
    let valid = subst (RoundIsValid s.loader q) h (load_round-IsValid s.loader q now v.valid) in
    let loads = subst (RoundLoads s.loader q) h (load_round-RoundLoads s.loader q now) in
    record {
      valid = valid.0;
      holds = λ t p held.
          ap (lookup t) loads ∙ (elim (lookup-insert_inv slot t q p s.starting held) [
            | inl e ↦
                ap (λ k. lookup k (insert slot (loading_info q) s.loader.loading)) (sym e.0)
                ∙ lookup-insert_self slot (loading_info q) s.loader.loading
                ∙ ap (λ (x : Request). some (loading_info x)) e.1
            | inr e ↦
                lookup-insert_ne slot t (loading_info q) s.loader.loading e.0 ∙ v.holds t p e.1
          ]);
    }
Step-SystemIsValid {s} (fails q slot h) v = record {
  valid = load_failed-IsValid s.loader q slot v.valid;
  holds = λ t p held.
      let (kept, other) = lookup-delete_inv slot t p s.starting held in
      lookup-delete_ne slot t s.loader.loading other ∙ v.holds t p kept;
}
Step-SystemIsValid {s} (finishes q slot r h) v = record {
  valid = load_finish-IsValid s.loader q slot r (v.holds slot q h) v.valid;
  holds = λ t p held.
      let (kept, other) = lookup-delete_inv slot t p s.starting held in
      lookup-delete_ne slot t s.loader.loading other ∙ v.holds t p kept;
}

unfoldable pub new_system : List Text → ℕ → Bool → System
new_system backends cpus gpu_cloud = record {
  loader = new_loader backends cpus gpu_cloud;
  starting = [];
}

-- Whatever sequence of loads, releases, unloads, configurations, idle checks and shutdown rounds
-- runs from a new loader on, slots, runners, loads and reservations stay consistent: no slot has
-- two runners, no key two loads.
pub Reach-SystemIsValid :
    (backends : List Text) (cpus : ℕ) (gpu_cloud : Bool) {s : System}
    → Reach (new_system backends cpus gpu_cloud) s
    → SystemIsValid s
unfolding new_system lookup
Reach-SystemIsValid backends cpus gpu_cloud here = record {
  valid = new_loader-IsValid backends cpus gpu_cloud;
  holds = λ slot q h. absurd (ground arith);
}
Reach-SystemIsValid backends cpus gpu_cloud (next r step) =
    Step-SystemIsValid step (Reach-SystemIsValid backends cpus gpu_cloud r)

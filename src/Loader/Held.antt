-- ===== src/Loader/Held.antt =====
-- A runner that somebody holds stays through every step of loader.go but a release.
use model_runner.Common.{
  ℕ, ◌≡◌, ◌≢◌, refl, sym, ◌∙◌, ap, subst, not, none, some, arith, if◌then◌else◌, Option-cases, inl,
  inr, get_or-set_ne, get_elem?,
}
use model_runner.Common.Assoc.{lookup, lookup-insert_ne, nat_eq}
use model_runner.Loader.Keys.{runner_key_eq}
use model_runner.Loader.State.{Loader, Runner, RunnerInfo, references_at, broadcast}
use model_runner.Loader.Load.{
  Request, request_key, loading_info, Round, loads_disabled, failed, reused, again, waiting,
  started, cleanup, load_existing, allocate, load_round, load_failed, load_finish, is_model_loading,
}
use model_runner.Loader.Invariant.{IsValid}
use model_runner.Loader.Reserve.{load_key-loading_info}
use model_runner.Loader.Steps.{
  System, Step, SystemIsValid, loader_after, operates, rounds, starts, fails, finishes,
}
use model_runner.Loader.Protect.{Protects, Protects-same}
use model_runner.Loader.InUse.{
  IsNoRelease, CountsFit, Plain-Protects, left_by, left_if, load_existing-Protects,
  allocate-Protects,
}

-- A round, with what it does when no runner is being started for the request.
guarded : Loader → Request → Round → Round
guarded l q next =
    if not l.loads_enabled
    then failed loads_disabled (cleanup l q)
    else if is_model_loading l.loading q
    then waiting l
    else next

load_round_fresh :
    (l : Loader) (q : Request) (now : ℕ)
    → lookup (request_key q) l.runners ≡ none
    → load_round l q now ≡ guarded l q (allocate l q now)
unfolding load_round guarded
load_round_fresh l q now e = rw (e, load_round) refl

load_round_found :
    (l : Loader) (q : Request) (now : ℕ) (i : RunnerInfo)
    → lookup (request_key q) l.runners ≡ some i
    → load_round l q now ≡ guarded l q (load_existing l q i)
unfolding load_round guarded
load_round_found l q now i e = rw (e, load_round) refl

guarded-Protects :
    (l : Loader) (q : Request) (next : Round)
    → Protects l (left_by next)
    → Protects l (left_by (guarded l q next))
unfolding guarded cleanup
guarded-Protects l q next h =
    left_if (not l.loads_enabled) (failed loads_disabled (cleanup l q)) _ l
      (Protects-same l (cleanup l q) refl refl)
      (left_if (is_model_loading l.loading q) (waiting l) next l (λ k i found used. (found, used))
        h)

load_round-Protects :
    (l : Loader) (q : Request) (now : ℕ)
    → IsValid l
    → CountsFit l
    → Protects l (left_by (load_round l q now))
load_round-Protects l q now v fits = elim (Option-cases (lookup (request_key q) l.runners)) [
  | inl fresh ↦
      subst (λ x. Protects l (left_by x)) (sym (load_round_fresh l q now fresh))
        (guarded-Protects l q (allocate l q now) (allocate-Protects l q now v))
  | inr (i, found) ↦
      subst (λ x. Protects l (left_by x)) (sym (load_round_found l q now i found))
        (guarded-Protects l q (load_existing l q i) (load_existing-Protects l q i v fits))
]

load_finish-Protects :
    (l : Loader) (q : Request) (slot : ℕ) (r : Runner)
    → lookup slot l.loading ≡ some (loading_info q)
    → IsValid l
    → Protects l (load_finish l q slot r)
unfolding load_finish cleanup broadcast references_at
load_finish-Protects l q slot r pending v = λ k i found used.
    let free = v.reserved slot (loading_info q) pending in
    let fresh =
      ap (λ j. lookup j l.runners) (sym (load_key-loading_info q))
      ∙ v.fresh_load slot (loading_info q) pending in
    let (x, at) = v.occupied k i found in
    let apart : slot ≢ i.slot = λ e. let here = ap (get_elem? l.slots) e in absurd (ground arith) in
    let other : request_key q ≢ k =
      λ e. let here = ap (λ j. lookup j l.runners) e in absurd (ground arith) in
    (
      lookup-insert_ne (request_key q) k (record { slot = slot; model_ref = q.model_ref }) l.runners
            other
          ∙ found,
      λ z. used (sym (get_or-set_ne l.references slot i.slot 1 0 apart) ∙ z),
    )

left_by-loader_after :
    (round : Round) (l : Loader) → loader_after round ≡ some l → left_by round ≡ l
left_by-loader_after (failed e m) l h = ground arith
left_by-loader_after (reused r m) l h = ground arith
left_by-loader_after (again m) l h = ground arith
left_by-loader_after (waiting m) l h = ground arith
left_by-loader_after (started s m) l h = absurd (ground arith)

-- Whether a step of the system is something else than a release.
abbrev pub IsOther : (s t : System) → Step s t → Type 0
IsOther s t (operates {l} p) = IsNoRelease s.loader l p
IsOther s t _ = Unit {0}

-- If no reference count is at the end of its 64 bits, a registered runner that has a reference
-- stays registered, with a reference, through every step of a well-formed system that is no
-- release: no load, eviction, unload, configuration or shutdown takes away a runner that is in
-- use.
pub Step-Protects :
    (s t : System) (step : Step s t)
    → IsOther s t step
    → SystemIsValid s
    → CountsFit s.loader
    → Protects s.loader t.loader
Step-Protects s t (operates {l} p) other v fits = Plain-Protects s.loader l p other v.valid
Step-Protects s t (rounds {l} q now h) other v fits =
    subst (Protects s.loader) (left_by-loader_after (load_round s.loader q now) l h)
      (load_round-Protects s.loader q now v.valid fits)
Step-Protects s t (starts {l} q now slot h) other v fits =
    subst (λ x. Protects s.loader (left_by x)) h (load_round-Protects s.loader q now v.valid fits)
Step-Protects s t (fails q slot h) other v fits =
    Protects-same s.loader t.loader (unfold load_failed cleanup broadcast in refl)
      (unfold load_failed cleanup broadcast in refl)
Step-Protects s t (finishes q slot r h) other v fits =
    load_finish-Protects s.loader q slot r (v.holds slot q h) v.valid

-- ===== src/Loader/Loop.antt =====
-- The loop of `load` of loader.go as a whole, and the registration of a new runner.
use model_runner.Common.{
  ℕ, zero, suc, ◌<◌, ◌≡◌, ◌≢◌, refl, sym, ◌∙◌, ap, none, some, arith, length, get_elem?, set,
  length-set, get_elem?-set_self, get_elem?-set_ne, get_elem?-set_inv, inl, inr,
}
use model_runner.Common.Assoc.{
  lookup, lookup-insert_inv, lookup-insert_self, lookup-insert_ne, lookup-delete_inv,
  insert-HasDistinctKeys, delete-HasDistinctKeys, nat_eq,
}
use model_runner.Loader.Keys.{RunnerKey, runner_key_eq}
use model_runner.Loader.State.{Loader, Runner, RunnerInfo, broadcast}
use model_runner.Loader.Load.{
  Request, request_key, Round, failed, reused, again, waiting, started, load_round, load_loop,
  cleanup, load_failed, load_finish, loading_info,
}
use model_runner.Loader.Invariant.{IsValid, load_key}
use model_runner.Loader.Reserve.{load_key-loading_info}
use model_runner.Loader.Rounds.{RoundIsValid, load_round-IsValid}

-- A result of the loop: not a `continue`, and well formed.
abbrev pub IsResult : Round → Type 0
IsResult (failed e l) = IsValid l
IsResult (reused r l) = IsValid l
IsResult (again l) = ⊥
IsResult (waiting l) = IsValid l
IsResult (started s l) = IsValid l × (get_elem? l.slots s ≡ some none)

-- The step of the loop lemma: the round is given with what is known of it.
load_loop_next :
    (fuel : ℕ) (l : Loader) (q : Request) (now : ℕ) (round : Round)
    → load_round l q now ≡ round
    → RoundIsValid l q round
    → ((l' : Loader)
        → length l'.runners < fuel
        → IsValid l'
        → (r : Round) × (load_loop fuel l' q now ≡ some r) × IsResult r)
    → length l.runners < suc fuel
    → (r : Round) × (load_loop (suc fuel) l q now ≡ some r) × IsResult r
unfolding load_loop
load_loop_next fuel l q now (failed e l') h v ih less = (failed e l', rw (h, load_loop) refl, v)
load_loop_next fuel l q now (reused r l') h v ih less = (reused r l', rw (h, load_loop) refl, v)
load_loop_next fuel l q now (waiting l') h v ih less = (waiting l', rw (h, load_loop) refl, v)
load_loop_next fuel l q now (started s l') h v ih less =
    (started s l', rw (h, load_loop) refl, (v.0, v.1))
load_loop_next fuel l q now (again l') h v ih less =
    let (r, done, valid) = ih l' (omega arith) v.0 in (r, rw (h, load_loop) done, valid)

-- From a well-formed loader the loop of load ends within as many rounds as there are runners plus
-- one, with a round that is no continue and a well-formed loader.
pub load_loop_total :
    (fuel : ℕ) (l : Loader) (q : Request) (now : ℕ)
    → length l.runners < fuel
    → IsValid l
    → (r : Round) × (load_loop fuel l q now ≡ some r) × IsResult r
load_loop_total zero l q now less v = absurd (omega arith)
load_loop_total (suc fuel) l q now less v =
    load_loop_next fuel l q now (load_round l q now) refl (load_round-IsValid l q now v)
      (λ l' less' v'. load_loop_total fuel l' q now less' v') less

pub load_failed-IsValid :
    (l : Loader) (q : Request) (slot : ℕ) → IsValid l → IsValid (load_failed l q slot)
unfolding load_failed cleanup broadcast
load_failed-IsValid l q slot v = record {
  same_references = v.same_references;
  same_timestamps = v.same_timestamps;
  keys = v.keys;
  load_keys = delete-HasDistinctKeys slot l.loading v.load_keys;
  occupied = v.occupied;
  separate = v.separate;
  owned = v.owned;
  reserved = λ s i h. v.reserved s i (lookup-delete_inv slot s i l.loading h).0;
  unique_load = λ s t i j hs ht.
      v.unique_load s t i j (lookup-delete_inv slot s i l.loading hs).0
        (lookup-delete_inv slot t j l.loading ht).0;
  fresh_load = λ s i h. v.fresh_load s i (lookup-delete_inv slot s i l.loading h).0;
}

-- A registered runner is in no free slot.
reserved_apart :
    (l : Loader) (slot : ℕ) (k : RunnerKey) (i : RunnerInfo)
    → get_elem? l.slots slot ≡ some none
    → IsValid l
    → lookup k l.runners ≡ some i
    → i.slot ≢ slot
reserved_apart l slot k i free v found = λ e. let (r, at) = v.occupied k i found in cc

-- Registration of the runner for which a slot was reserved.
pub load_finish-IsValid :
    (l : Loader) (q : Request) (slot : ℕ) (r : Runner)
    → lookup slot l.loading ≡ some (loading_info q)
    → IsValid l
    → IsValid (load_finish l q slot r)
unfolding load_finish cleanup broadcast
load_finish-IsValid l q slot r pending v =
    let key = request_key q in
    let info : RunnerInfo = record { slot = slot; model_ref = q.model_ref } in
    let free = v.reserved slot (loading_info q) pending in
    let fresh : lookup key l.runners ≡ none =
      ap (λ k. lookup k l.runners) (sym (load_key-loading_info q))
      ∙ v.fresh_load slot (loading_info q) pending in
    record {
      same_references =
          length-set l.references slot 1
          ∙ v.same_references
          ∙ sym (length-set l.slots slot (some r));
      same_timestamps = v.same_timestamps ∙ sym (length-set l.slots slot (some r));
      keys = insert-HasDistinctKeys key info l.runners v.keys;
      load_keys = delete-HasDistinctKeys slot l.loading v.load_keys;
      occupied = λ k i h. elim (lookup-insert_inv key k info i l.runners h) [
        | inl e ↦ (
          r,
          ap (λ (x : RunnerInfo). get_elem? (set l.slots slot (some r)) x.slot) (sym e.1)
              ∙ get_elem?-set_self l.slots slot (some r) none free,
        )
        | inr e ↦
            let (old, at) = v.occupied k i e.1 in
            (old, get_elem?-set_ne l.slots slot i.slot (some r) (λ p. cc) ∙ at)
      ];
      separate = λ k j a b ha hb same. elim (lookup-insert_inv key k info a l.runners ha) [
        | inl e ↦ elim (lookup-insert_inv key j info b l.runners hb) [
          | inl f ↦ sym e.0 ∙ f.0
          | inr f ↦ absurd (
              reserved_apart l slot j b free v f.1
                (sym same ∙ ap (λ (x : RunnerInfo). x.slot) (sym e.1)))
        ]
        | inr e ↦ elim (lookup-insert_inv key j info b l.runners hb) [
          | inl f ↦ absurd (
              reserved_apart l slot k a free v e.1
                (same ∙ ap (λ (x : RunnerInfo). x.slot) (sym f.1)))
          | inr f ↦ v.separate k j a b e.1 f.1 same
        ]
      ];
      owned = λ s old h. elim (get_elem?-set_inv l.slots slot s (some r) (some old) h) [
        | inl e ↦ (key, info, lookup-insert_self key info l.runners, e.0)
        | inr e ↦
            let (k, i, at, here) = v.owned s old e.1 in
            (k, i, lookup-insert_ne key k info l.runners (λ p. cc) ∙ at, here)
      ];
      reserved = λ s i h.
          let (kept, other) = lookup-delete_inv slot s i l.loading h in
          get_elem?-set_ne l.slots slot s (some r) other ∙ v.reserved s i kept;
      unique_load = λ s t i j hs ht.
          v.unique_load s t i j (lookup-delete_inv slot s i l.loading hs).0
            (lookup-delete_inv slot t j l.loading ht).0;
      fresh_load = λ s i h.
          let (kept, other) = lookup-delete_inv slot s i l.loading h in
          let apart : key ≢ load_key i = λ p.
            other (
              v.unique_load slot s (loading_info q) i pending kept (load_key-loading_info q ∙ p)) in
          lookup-insert_ne key (load_key i) info l.runners apart ∙ v.fresh_load s i kept;
    }

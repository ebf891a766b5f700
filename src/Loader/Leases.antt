-- ===== src/Loader/Leases.antt =====
-- What `release` of loader.go does to the reference counts.
use model_runner.Common.{
  ℕ, suc, ◌+◌, ◌-◌, ◌%◌, ◌^◌, ◌<◌, ◌≡◌, ◌≢◌, refl, sym, ◌∙◌, ap, Bool, true, false, ◌&&◌, List, [],
  ◌∷◌, none, some, arith, inl, inr, Bool-cases, ◌==◌, if◌then◌else◌, length, get_or, set,
  get_or-set_self, get_or-set_ne, get_elem?-lt, subst, ==_iff,
}
use model_runner.Common.Assoc.{lookup, lookup_step, lookup_head, lookup_tail, HasDistinctKeys}
use model_runner.Loader.Keys.{RunnerKey, runner_key_eq, key_eq_iff}
use model_runner.Loader.State.{Loader, Runner, RunnerInfo, references_at, broadcast}
use model_runner.Loader.Evict.{evict_runner, is_target}
use model_runner.Loader.Release.{release, drop_reference, find_runner_slot, is_key_of}
use model_runner.Loader.Invariant.{IsValid}
use model_runner.Loader.Eviction.{evict_runner-lookup}
use model_runner.Loader.Shrink.{evict_runner-Keeps}
use model_runner.Loader.Operations.{drop_reference-IsValid}

-- The only registered runner that has the backend, model and mode of `r`.
pub record IsOnlyMatch (r : Runner) (m : List (RunnerKey × RunnerInfo)) (k : RunnerKey)
    (i : RunnerInfo) : Type 0 where
  pub registered : lookup k m ≡ some i
  pub matches : is_key_of r k ≡ true
  pub only : (j : RunnerKey) (a : RunnerInfo) → lookup j m ≡ some a → is_key_of r j ≡ true → j ≡ k

find_runner_slot_only :
    (r : Runner) (m : List (RunnerKey × RunnerInfo)) (k : RunnerKey) (i : RunnerInfo)
    → HasDistinctKeys m
    → IsOnlyMatch r m k i
    → find_runner_slot r m ≡ i.slot
unfolding find_runner_slot
find_runner_slot_only r [] k i d o = absurd (let e = o.registered in unfold lookup in ground arith)
find_runner_slot_only r ((j, a) ∷ m) k i d o = elim (Bool-cases (is_key_of r j)) [
  | inl hit ↦
      let same : j ≡ k = o.only j a (lookup_head j a m) hit in
      let found : a ≡ i = let e = lookup_head j a m in let f = o.registered in ground arith in
      simp hit (ap (λ (x : RunnerInfo). x.slot) found)
  | inr miss ↦
      let other : j ≢ k = λ e. let f = o.matches in ground (arith, ap (is_key_of r) e) in
      let below : lookup k m ≡ some i =
        let f = o.registered in ground (arith, lookup_step j k a m, key_eq_iff j k) in
      simp miss (
        find_runner_slot_only r m k i d.1 (record {
          registered = below;
          matches = o.matches;
          only = λ n b found. o.only n b (lookup_tail j n a b m d found).0;
        }))
]

if-references :
    (b : Bool) (x y l : Loader)
    → x.references ≡ l.references
    → y.references ≡ l.references
    → (if b then x else y).references ≡ l.references
if-references true x y l hx hy = hx
if-references false x y l hx hy = hy

-- The reference counts after a release are those after its decrement.
references-release :
    (l : Loader) (r : Runner) (now : ℕ)
    → (release l r now).references ≡ (drop_reference l (find_runner_slot r l.runners)).references
unfolding release broadcast
references-release l r now =
    let slot = find_runner_slot r l.runners in
    let dropped = drop_reference l slot in
    if-references (references_at dropped slot == 0) _ _ dropped
      (if-references r.done _ _ dropped
        (evict_runner-Keeps dropped r.backend r.model r.mode).references refl)
      refl

references_at-release :
    (l : Loader) (r : Runner) (now s : ℕ)
    → references_at (release l r now) s
      ≡ references_at (drop_reference l (find_runner_slot r l.runners)) s
unfolding references_at
references_at-release l r now s = ap (λ xs. get_or xs s 0) (references-release l r now)

set_counts :
    (xs : List ℕ) (slot v s : ℕ)
    → slot < length xs
    → get_or (set xs slot v) s 0 ≡ (if slot == s then v else get_or xs s 0)
set_counts xs slot v s lt = elim (Bool-cases (slot == s)) [
  | inl e ↦ simp e (
      ap (λ j. get_or (set xs slot v) j 0) (sym ((==_iff slot s).0 e))
      ∙ get_or-set_self xs slot v 0 lt)
  | inr e ↦ simp e (get_or-set_ne xs slot s v 0 (λ q. let f = (==_iff slot s).1 q in ground arith))
]

drop_reference_counts :
    (l : Loader) (slot n s : ℕ)
    → slot < length l.references
    → references_at l slot ≡ suc n
    → suc n < 2 ^ 64
    → references_at (drop_reference l slot) s ≡ (if slot == s then n else references_at l s)
unfolding drop_reference references_at
drop_reference_counts l slot n s lt held small =
    let value : (get_or l.references slot 0 + 2 ^ 64 - 1) % 2 ^ 64 ≡ n = omega arith in
    set_counts l.references slot _ s lt
    ∙ ap (λ v. if slot == s then v else get_or l.references s 0) value

drop_reference-ne :
    (l : Loader) (slot s : ℕ)
    → slot ≢ s
    → references_at (drop_reference l slot) s ≡ references_at l s
unfolding drop_reference references_at
drop_reference-ne l slot s h = get_or-set_ne l.references slot s _ 0 h

-- Whether the runner goes: it was released by its last holder and had stopped.
abbrev pub is_last_of_stopped : ℕ → Runner → Bool
is_last_of_stopped n r = n == 0 && r.done

if_runners :
    (b c : Bool) (x y z : Loader)
    → (if b then (if c then x else y) else z).runners
      ≡ (if b && c then x.runners else if b then y.runners else z.runners)
if_runners true true x y z = refl
if_runners true false x y z = refl
if_runners false c x y z = refl

same_runners :
    (b c : Bool) (xs ys : List (RunnerKey × RunnerInfo))
    → (if b && c then xs else if b then ys else ys) ≡ (if b && c then xs else ys)
same_runners true true xs ys = refl
same_runners true false xs ys = refl
same_runners false c xs ys = refl

runners-release :
    (l : Loader) (r : Runner) (now : ℕ)
    → let slot = find_runner_slot r l.runners in
      let dropped = drop_reference l slot in
      (release l r now).runners ≡ (
        if is_last_of_stopped (references_at dropped slot) r
        then (evict_runner dropped r.backend r.model r.mode).0.runners
        else l.runners)
unfolding release broadcast drop_reference
runners-release l r now =
    let slot = find_runner_slot r l.runners in
    let dropped = drop_reference l slot in
    if_runners (references_at dropped slot == 0) r.done _ _ dropped
    ∙ same_runners (references_at dropped slot == 0) r.done _ l.runners

-- The last holder's release of a stopped runner makes it evictRunner's target.
is_target_of_match :
    (l : Loader) (r : Runner) (k : RunnerKey) (i : RunnerInfo)
    → is_key_of r k ≡ true
    → references_at l i.slot ≡ 0
    → is_target r.backend r.model r.mode l k i ≡ true
unfolding is_key_of is_target
is_target_of_match l r k i h z = ground arith

lookup_if :
    (b : Bool) (k : RunnerKey) (xs ys : List (RunnerKey × RunnerInfo))
    → lookup k (if b then xs else ys) ≡ (if b then lookup k xs else lookup k ys)
lookup_if true k xs ys = refl
lookup_if false k xs ys = refl

lookup-release :
    (l : Loader) (r : Runner) (k : RunnerKey) (i : RunnerInfo) (now n : ℕ)
    → IsValid l
    → IsOnlyMatch r l.runners k i
    → references_at (drop_reference l (find_runner_slot r l.runners)) i.slot ≡ n
    → references_at (drop_reference l (find_runner_slot r l.runners)) (find_runner_slot r l.runners)
      ≡ n
    → lookup k (release l r now).runners ≡ (if is_last_of_stopped n r then none else some i)
lookup-release l r k i now n v o here count =
    let dropped = drop_reference l (find_runner_slot r l.runners) in
    let kept = drop_reference-IsValid l (find_runner_slot r l.runners) v in
    let left = evict_runner-lookup dropped r.backend r.model r.mode k kept in
    let there : lookup k dropped.runners ≡ some i = unfold drop_reference in o.registered in
    let same : is_last_of_stopped (references_at dropped (find_runner_slot r l.runners)) r
        ≡ is_last_of_stopped n r =
      ap (λ c. is_last_of_stopped c r) count in
    ap (λ m. lookup k m) (runners-release l r now)
    ∙ lookup_if (is_last_of_stopped (references_at dropped (find_runner_slot r l.runners)) r) k _
        l.runners
    ∙ elim (Bool-cases (is_last_of_stopped n r)) [
      | inl last ↦
          let target =
            is_target_of_match dropped r k i o.matches
              (here ∙ (let e : n ≡ 0 = ground arith in e)) in
          let gone : lookup k (evict_runner dropped r.backend r.model r.mode).0.runners ≡ none =
            ground (arith, left, there, target) in
          simp (last, same) gone
      | inr other ↦ simp (other, same) o.registered
    ]

-- On a well-formed loader a release, by one of its holders, of the only runner of its backend,
-- model and mode lowers its count by one, no other count, and removes the runner exactly if it was
-- its last holder and it had stopped.
pub release_lem :
    (l : Loader) (r : Runner) (k : RunnerKey) (i : RunnerInfo) (now n : ℕ)
    → IsValid l
    → IsOnlyMatch r l.runners k i
    → references_at l i.slot ≡ suc n
    → suc n < 2 ^ 64
    → ((s : ℕ) → references_at (release l r now) s ≡ (if i.slot == s then n else references_at l s))
      × (lookup k (release l r now).runners ≡ (if is_last_of_stopped n r then none else some i))
release_lem l r k i now n v o held small =
    let slot = find_runner_slot_only r l.runners k i v.keys o in
    let (runner, at) = v.occupied k i o.registered in
    let inside : i.slot < length l.references =
      omega (arith, get_elem?-lt l.slots i.slot (some runner) at, v.same_references) in
    let counts : (s : ℕ)
        → references_at (drop_reference l (find_runner_slot r l.runners)) s
          ≡ (if i.slot == s then n else references_at l s) =
      λ s.
        ap (λ t. references_at (drop_reference l t) s) slot
        ∙ drop_reference_counts l i.slot n s inside held small in
    let here : references_at (drop_reference l (find_runner_slot r l.runners)) i.slot ≡ n =
      counts i.slot ∙ ground arith in
    (
      λ s. references_at-release l r now s ∙ counts s,
      lookup-release l r k i now n v o here
          (ap (references_at (drop_reference l (find_runner_slot r l.runners))) slot ∙ here),
    )

-- On a well-formed loader with two runners of one backend, model and mode, of which the loop of
-- release meets one first, a release of the other leaves that one's count as it was.
pub release_ambiguous :
    (l : Loader) (r : Runner) (k j : RunnerKey) (i a : RunnerInfo)
    (rest : List (RunnerKey × RunnerInfo)) (now : ℕ)
    → IsValid l
    → l.runners ≡ (k, i) ∷ rest
    → is_key_of r k ≡ true
    → is_key_of r j ≡ true
    → lookup j rest ≡ some a
    → references_at (release l r now) a.slot ≡ references_at l a.slot
release_ambiguous l r k j i a rest now v at first second found =
    let keys : HasDistinctKeys ((k, i) ∷ rest) = subst HasDistinctKeys at v.keys in
    let slot : find_runner_slot r l.runners ≡ i.slot =
      ap (find_runner_slot r) at ∙ unfold find_runner_slot in simp first refl in
    let below = lookup_tail k j i a rest keys found in
    let apart : i.slot ≢ a.slot = λ q. below.1 (
      v.separate k j i a (ap (lookup k) at ∙ lookup_head k i rest) (ap (lookup j) at ∙ below.0)
        q) in
    references_at-release l r now a.slot
    ∙ ap (λ s. references_at (drop_reference l s) a.slot) slot
    ∙ drop_reference-ne l i.slot a.slot apart

-- ===== src/Common/Assoc.antt =====
-- Go maps as association lists. The order of a list is the order in which a `range` visits the
-- map; Go leaves it open, so theorems hold for every order.
use Prim.Native.Nat.{ℕ, suc, ◌≤◌, ◌<◌}
use mathlib.Core.Path.{◌≡◌, refl}
use mathlib.Core.Logic.{◌↔◌, ◌≢◌, ◌⊎◌}
use mathlib.Core.Bool.{Bool, true}
use mathlib.Core.List.{List, [], ◌∷◌}
use mathlib.Core.Option.{Option, none, some}
use native.Mathlib.Omega.{arith}
use model_runner.Common.Tests.{◌==◌, ==_iff, if◌then◌else◌}
use model_runner.Common.Texts.{Text, text_eq, text_eq_iff}
use model_runner.Common.Lists.{length}

-- The key type of a map: an equality test that decides equality.
pub record Eq (K : Type 0) : Type 0 where
  pub beq : K → K → Bool
  pub beq_iff : (a b : K) → (beq a b ≡ true) ↔ (a ≡ b)

instance abbrev pub nat_eq : Eq ℕ
nat_eq = record { beq = ◌==◌; beq_iff = ==_iff }

instance abbrev pub text_eq_inst : Eq Text
text_eq_inst = record { beq = text_eq; beq_iff = text_eq_iff }

module _ {K V : Type 0} ⦃e : Eq K⦄ where
  unfoldable pub lookup : K → List (K × V) → Option V
  lookup k [] = none
  lookup k ((j, v) ∷ m) = if e.beq j k then some v else lookup k m

  -- `m[k] = v`
  unfoldable pub insert : K → V → List (K × V) → List (K × V)
  insert k v [] = (k, v) ∷ []
  insert k v ((j, w) ∷ m) = if e.beq j k then (k, v) ∷ m else (j, w) ∷ insert k v m

  -- `delete(m, k)`
  unfoldable pub delete : K → List (K × V) → List (K × V)
  delete k [] = []
  delete k ((j, v) ∷ m) = if e.beq j k then delete k m else (j, v) ∷ delete k m

  pub lookup-insert :
      (k j : K) (v : V) (m : List (K × V))
      → lookup j (insert k v m) ≡ (if e.beq k j then some v else lookup j m)
  unfolding lookup insert
  lookup-insert k j v [] = refl
  lookup-insert k j v ((i, w) ∷ m) =
      ground (arith, e.beq_iff k j, e.beq_iff i k, e.beq_iff i j, lookup-insert k j v m)

  pub lookup-delete :
      (k j : K) (m : List (K × V))
      → lookup j (delete k m) ≡ (if e.beq k j then none else lookup j m)
  unfolding lookup delete
  lookup-delete k j [] = ground arith
  lookup-delete k j ((i, w) ∷ m) =
      ground (arith, e.beq_iff k j, e.beq_iff i k, e.beq_iff i j, lookup-delete k j m)

  pub length-delete-le : (k : K) (m : List (K × V)) → length (delete k m) ≤ length m
  unfolding delete
  length-delete-le k [] = omega arith
  length-delete-le k ((i, w) ∷ m) = ground (arith, length-delete-le k m)

  pub length-delete-lt :
      (k : K) (v : V) (m : List (K × V)) → lookup k m ≡ some v → length (delete k m) < length m
  unfolding delete lookup
  length-delete-lt k v [] h = cc
  length-delete-lt k v ((i, w) ∷ m) h = ground (arith, length-delete-le k m, length-delete-lt k v m)

  -- No key stands twice, as in a Go map.
  abbrev pub HasDistinctKeys : List (K × V) → Type 0
  HasDistinctKeys [] = Unit {0}
  HasDistinctKeys ((k, v) ∷ m) = (lookup k m ≡ none) × HasDistinctKeys m

  pub delete-HasDistinctKeys :
      (k : K) (m : List (K × V)) → HasDistinctKeys m → HasDistinctKeys (delete k m)
  unfolding delete
  delete-HasDistinctKeys k [] h = tt
  delete-HasDistinctKeys k ((i, w) ∷ m) h =
      ground (arith, lookup-delete k i m, delete-HasDistinctKeys k m h.1)

  pub insert-HasDistinctKeys :
      (k : K) (v : V) (m : List (K × V)) → HasDistinctKeys m → HasDistinctKeys (insert k v m)
  unfolding insert lookup
  insert-HasDistinctKeys k v [] h = (refl, tt)
  insert-HasDistinctKeys k v ((i, w) ∷ m) h =
      ground (
        arith,
        e.beq_iff i k,
        e.beq_iff k i,
        lookup-insert k i v m,
        insert-HasDistinctKeys k v m h.1,
      )

  pub lookup_head : (k : K) (v : V) (m : List (K × V)) → lookup k ((k, v) ∷ m) ≡ some v
  unfolding lookup
  lookup_head k v m = ground (arith, e.beq_iff k k)

  -- The entries of a tail are entries of the list, if no key stands twice.
  pub lookup_tail :
      (k j : K) (v w : V) (m : List (K × V))
      → HasDistinctKeys ((k, v) ∷ m)
      → lookup j m ≡ some w
      → (lookup j ((k, v) ∷ m) ≡ some w) × (k ≢ j)
  unfolding lookup
  lookup_tail k j v w m h found = ground (arith, e.beq_iff k j)

  pub lookup-delete_inv :
      (k j : K) (v : V) (m : List (K × V))
      → lookup j (delete k m) ≡ some v
      → (lookup j m ≡ some v) × (k ≢ j)
  lookup-delete_inv k j v m h = ground (arith, lookup-delete k j m, e.beq_iff k j)

  pub lookup-delete_ne : (k j : K) (m : List (K × V)) → k ≢ j → lookup j (delete k m) ≡ lookup j m
  lookup-delete_ne k j m h = ground (arith, lookup-delete k j m, e.beq_iff k j)

  pub lookup-delete_self : (k : K) (m : List (K × V)) → lookup k (delete k m) ≡ none
  lookup-delete_self k m = ground (arith, lookup-delete k k m, e.beq_iff k k)

  pub lookup-delete-none :
      (k j : K) (m : List (K × V)) → lookup j m ≡ none → lookup j (delete k m) ≡ none
  lookup-delete-none k j m h = ground (arith, lookup-delete k j m)

  pub lookup-insert_inv :
      (k j : K) (v w : V) (m : List (K × V))
      → lookup j (insert k v m) ≡ some w
      → ((k ≡ j) × (v ≡ w)) ⊎ ((k ≢ j) × (lookup j m ≡ some w))
  lookup-insert_inv k j v w m h = ground (arith, lookup-insert k j v m, e.beq_iff k j)

  pub lookup-insert_self : (k : K) (v : V) (m : List (K × V)) → lookup k (insert k v m) ≡ some v
  lookup-insert_self k v m = ground (arith, lookup-insert k k v m, e.beq_iff k k)

  pub lookup-insert_ne :
      (k j : K) (v : V) (m : List (K × V)) → k ≢ j → lookup j (insert k v m) ≡ lookup j m
  lookup-insert_ne k j v m h = ground (arith, lookup-insert k j v m, e.beq_iff k j)

  pub lookup_step :
      (k j : K) (v : V) (m : List (K × V))
      → lookup j ((k, v) ∷ m) ≡ (if e.beq k j then some v else lookup j m)
  unfolding lookup
  lookup_step k j v m = refl

  pub delete_absent : (k : K) (m : List (K × V)) → lookup k m ≡ none → delete k m ≡ m
  unfolding delete lookup
  delete_absent k [] h = refl
  delete_absent k ((i, w) ∷ m) h = ground (arith, delete_absent k m)

  pub length-delete :
      (k : K) (v : V) (m : List (K × V))
      → HasDistinctKeys m
      → lookup k m ≡ some v
      → length m ≡ suc (length (delete k m))
  unfolding delete lookup
  length-delete k v [] d h = cc
  length-delete k v ((i, w) ∷ m) d h =
      ground (arith, e.beq_iff i k, delete_absent k m, length-delete k v m d.1)

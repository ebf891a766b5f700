-- ===== src/Common/Bytes.antt =====
-- The first occurrence of a byte in a text.
use Prim.Native.Nat.{ℕ}
use mathlib.Core.Path.{◌≡◌, refl, sym, ap, ◌∙◌}
use mathlib.Core.Logic.{inl, inr}
use mathlib.Core.Bool.{true, false}
use mathlib.Core.List.{[], ◌∷◌, ◌++◌}
use mathlib.Core.Option.{none, some}
use native.Mathlib.Omega.{arith}
use model_runner.Common.Tests.{◌==◌, Bool-cases}
use model_runner.Common.Lists.{length}
use model_runner.Common.Texts.{Text, has_prefix, index_of, contains}
use model_runner.Common.Pigeonhole.{mem}

-- A text without the byte `c`, or the parts before and after the first one.
pub data Split (c : ℕ) (s : Text) : Type 0 where
  whole : mem c s ≡ false → index_of (c ∷ []) s ≡ none → Split c s
  parts :
      (k v : Text)
      → mem c k ≡ false
      → s ≡ k ++ c ∷ v
      → index_of (c ∷ []) s ≡ some (length k)
      → Split c s

pub split : (c : ℕ) (s : Text) → Split c s
unfolding index_of has_prefix mem
split c [] = whole refl refl
split c (a ∷ s) = elim (Bool-cases (c == a)) [
  | inl e ↦
      let same : a ∷ s ≡ c ∷ s = ap (λ x. x ∷ s) (let f : a ≡ c = ground arith in f) in
      parts [] s refl same (ground arith)
  | inr e ↦
      let other : (a == c) ≡ false = ground arith in
      elim (split c s) [
        | whole m i ↦ whole (ground arith) (ground arith)
        | parts k v m q i ↦ parts (a ∷ k) v (ground arith) (ap (λ x. a ∷ x) q) (ground arith)
      ]
]

pub index_of-parts :
    (c : ℕ) (k v : Text) → mem c k ≡ false → index_of (c ∷ []) (k ++ c ∷ v) ≡ some (length k)
unfolding index_of has_prefix mem
index_of-parts c [] v h = ground arith
index_of-parts c (a ∷ k) v h =
    let other : (a == c) ≡ false = ground arith in ground (arith, index_of-parts c k v)

pub index_of-whole : (c : ℕ) (s : Text) → mem c s ≡ false → index_of (c ∷ []) s ≡ none
unfolding index_of has_prefix mem
index_of-whole c [] h = refl
index_of-whole c (a ∷ s) h =
    let other : (a == c) ≡ false = ground arith in ground (arith, index_of-whole c s)

mem-parts : (c : ℕ) (k v : Text) → mem c (k ++ c ∷ v) ≡ true
unfolding mem
mem-parts c [] v = ground arith
mem-parts c (a ∷ k) v = ground (arith, mem-parts c k v)

-- A text contains a byte exactly if the byte is in it.
pub contains-mem : (c : ℕ) (s : Text) → contains (c ∷ []) s ≡ mem c s
unfolding contains
contains-mem c s = elim (split c s) [
  | whole m i ↦ rw (i, contains) (sym m)
  | parts k v m q i ↦ rw (i, contains) (sym (ap (mem c) q ∙ mem-parts c k v))
]

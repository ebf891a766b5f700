-- ===== src/Common/Pigeonhole.antt =====
-- A list in which every number below `n` occurs has at least `n` places.
use Prim.Native.Nat.{ℕ, zero, suc, ◌≤◌, ◌<◌}
use mathlib.Core.Path.{◌≡◌}
use mathlib.Core.Logic.{◌≢◌}
use mathlib.Core.Bool.{Bool, true, false, ◌||◌}
use mathlib.Core.List.{List, [], ◌∷◌, ◌++◌}
use native.Mathlib.Omega.{arith}
use model_runner.Common.Tests.{◌==◌, if◌then◌else◌}
use model_runner.Common.Lists.{length}

unfoldable pub mem : ℕ → List ℕ → Bool
mem a [] = false
mem a (x ∷ xs) = x == a || mem a xs

erase : ℕ → List ℕ → List ℕ
erase a [] = []
erase a (x ∷ xs) = if x == a then erase a xs else x ∷ erase a xs

length-erase-le : (a : ℕ) (xs : List ℕ) → length (erase a xs) ≤ length xs
unfolding erase
length-erase-le a [] = omega arith
length-erase-le a (x ∷ xs) = ground (arith, length-erase-le a xs)

length-erase-lt : (a : ℕ) (xs : List ℕ) → mem a xs ≡ true → length (erase a xs) < length xs
unfolding erase mem
length-erase-lt a [] h = cc
length-erase-lt a (x ∷ xs) h = ground (arith, length-erase-le a xs, length-erase-lt a xs)

mem-erase : (a b : ℕ) (xs : List ℕ) → a ≢ b → mem b xs ≡ true → mem b (erase a xs) ≡ true
unfolding erase mem
mem-erase a b [] h m = m
mem-erase a b (x ∷ xs) h m = ground (arith, mem-erase a b xs h)

pub length_of_covers : (n : ℕ) (xs : List ℕ) → ((s : ℕ) → s < n → mem s xs ≡ true) → n ≤ length xs
length_of_covers zero xs h = omega arith
length_of_covers (suc n) xs h =
    let fewer = length-erase-lt n xs (h n (omega arith)) in
    let rest =
      length_of_covers n (erase n xs)
        (λ s lt. mem-erase n s xs (λ e. absurd (omega arith)) (h s (omega arith))) in
    omega arith

pub mem-append_left : (a : ℕ) (xs ys : List ℕ) → mem a xs ≡ true → mem a (xs ++ ys) ≡ true
unfolding mem
mem-append_left a [] ys h = cc
mem-append_left a (x ∷ xs) ys h = ground (arith, mem-append_left a xs ys)

pub mem-append_right : (a : ℕ) (xs ys : List ℕ) → mem a ys ≡ true → mem a (xs ++ ys) ≡ true
unfolding mem
mem-append_right a [] ys h = h
mem-append_right a (x ∷ xs) ys h = ground (arith, mem-append_right a xs ys h)

pub mem_here : (a : ℕ) (xs : List ℕ) → mem a (a ∷ xs) ≡ true
unfolding mem
mem_here a xs = ground arith

pub mem_there : (a x : ℕ) (xs : List ℕ) → mem a xs ≡ true → mem a (x ∷ xs) ≡ true
unfolding mem
mem_there a x xs h = ground arith

-- ===== src/TailBuffer/Walk.antt =====
-- The unread bytes of the ring of tailbuffer.go, and one round of the loop of `Write`.

use mathlib.Core.Path.{ap₂}
use model_runner.Common.{
  ℕ, zero, suc, ◌+◌, ◌-◌, ◌%◌, ◌≤◌, ◌<◌, ◌≡◌, ◌≢◌, refl, sym, ap, ◌∙◌, ◌⊎◌, inl, inr, List, [], ◌∷◌,
  ◌++◌, arith, ◌==◌, length, set, drop, get_or, get_or-set_self, get_or-set_ne, length-append,
  drop-append, drop-drop, drop_all, length-drop, append-nil, append_assoc, Bool-cases, ==_iff,
}
use model_runner.TailBuffer.Ring.{TailBuffer, advance, put, put_all}
use model_runner.TailBuffer.Invariant.{IsRing, put-IsRing, capacity-put, advance_cases, advance-lt}

-- The list f 0, …, f (n - 1).
unfoldable pub tabulate : ℕ → (ℕ → ℕ) → List ℕ
tabulate zero f = []
tabulate (suc n) f = f 0 ∷ tabulate n (λ i. f (suc i))

-- The unread bytes, oldest first: `size` places from `read`, round the ring.
unfoldable pub unread : TailBuffer → List ℕ
unfolding tabulate
unread w = tabulate w.size (λ i. get_or w.buf ((w.read + i) % w.capacity) 0)

-- The last `n` elements.
unfoldable pub keep_last : ℕ → List ℕ → List ℕ
keep_last n xs = drop (length xs - n) xs

-- The same bytes, by steps of `advance`.
unfoldable pub walk : List ℕ → ℕ → ℕ → ℕ → List ℕ
walk buf c pos zero = []
walk buf c pos (suc n) = get_or buf pos 0 ∷ walk buf c (advance c pos) n

pub tabulate-ext : (n : ℕ) (f g : ℕ → ℕ) → ((i : ℕ) → f i ≡ g i) → tabulate n f ≡ tabulate n g
unfolding tabulate
tabulate-ext zero f g h = refl
tabulate-ext (suc n) f g h =
    ground (arith, h 0, tabulate-ext n (λ i. f (suc i)) (λ i. g (suc i)) (λ i. h (suc i)))

pub advance_mod : (c pos i : ℕ) → pos < c → (advance c pos + i) % c ≡ (pos + suc i) % c
unfolding advance
advance_mod c pos i h = elim (advance_cases c pos) [
  | inl e ↦ rw e (ap (λ k. k % c) (let q : pos + 1 + i ≡ pos + suc i = omega arith in q))
  | inr e ↦ rw e.0 (grind arith)
]

pub walk-tabulate :
    (buf : List ℕ) (c pos n : ℕ)
    → pos < c
    → walk buf c pos n ≡ tabulate n (λ i. get_or buf ((pos + i) % c) 0)
unfolding walk tabulate
walk-tabulate buf c pos zero h = refl
walk-tabulate buf c pos (suc n) h =
    let first : (pos + 0) % c ≡ pos = grind arith in
    let rest = walk-tabulate buf c (advance c pos) n (advance-lt c pos h) in
    ap₂ ◌∷◌ (ap (λ k. get_or buf k 0) (sym first))
      (rest ∙ tabulate-ext n _ _ (λ i. ap (λ k. get_or buf k 0) (advance_mod c pos i h)))

pub unread-walk :
    (w : TailBuffer) → w.read < w.capacity → unread w ≡ walk w.buf w.capacity w.read w.size
unfolding unread
unread-walk w h = sym (walk-tabulate w.buf w.capacity w.read w.size h)

pub length-walk : (buf : List ℕ) (c pos n : ℕ) → length (walk buf c pos n) ≡ n
unfolding walk
length-walk buf c pos zero = refl
length-walk buf c pos (suc n) = ap suc (length-walk buf c (advance c pos) n)

-- A byte written just past a walk that does not fill the ring is seen at its end.
pub walk-set :
    (buf : List ℕ) (c pos n w x : ℕ)
    → length buf ≡ c
    → n < c
    → pos < c
    → w < c
    → (pos + n ≡ w) ⊎ (pos + n ≡ w + c)
    → walk (set buf w x) c pos (suc n) ≡ walk buf c pos n ++ x ∷ []
unfolding walk
walk-set buf c pos zero w x hb hn hp hw e =
    let same : pos ≡ w = omega arith in
    rw same (ap (λ y. y ∷ []) (get_or-set_self buf w x 0 (omega arith)))
walk-set buf c pos (suc n) w x hb hn hp hw e =
    let other : w ≢ pos = λ q. omega arith in
    ap₂ ◌∷◌ (get_or-set_ne buf w pos x 0 other) (
      walk-set buf c (advance c pos) n w x hb (omega arith) (advance-lt c pos hp) hw
        (ground (arith, advance_cases c pos)))

pub keep_last_all : (n : ℕ) (xs : List ℕ) → length xs ≤ n → keep_last n xs ≡ xs
unfolding keep_last
keep_last_all n xs h = ap (λ k. drop k xs) (let e : length xs - n ≡ 0 = omega arith in e)

pub keep_last-cons : (n x : ℕ) (xs : List ℕ) → length xs ≡ n → keep_last n (x ∷ xs) ≡ xs
unfolding keep_last
keep_last-cons n x xs h =
    ap (λ k. drop k (x ∷ xs)) (let e : suc (length xs) - n ≡ 1 = omega arith in e)

-- Dropping early what will be dropped anyway changes nothing.
pub keep_last-keep_last :
    (n : ℕ) (xs ys : List ℕ) → keep_last n (keep_last n xs ++ ys) ≡ keep_last n (xs ++ ys)
unfolding keep_last
keep_last-keep_last n xs ys =
    let k = length xs - n in
    let short : drop k (xs ++ ys) ≡ drop k xs ++ ys =
      drop-append k xs ys
      ∙ ap (λ j. drop k xs ++ drop j ys) (let e : k - length xs ≡ 0 = omega arith in e) in
    let len = length-append (drop k xs) ys in
    let len' = length-append xs ys in
    let total : k + (length (drop k xs ++ ys) - n) ≡ length (xs ++ ys) - n =
      omega (arith, len, len', length-drop k xs) in
    ap (drop (length (drop k xs ++ ys) - n)) (sym short)
    ∙ drop-drop (length (drop k xs ++ ys) - n) k (xs ++ ys)
    ∙ ap (λ j. drop j (xs ++ ys)) total

pub unread-put_room :
    (w : TailBuffer) (b : ℕ)
    → w.read < w.capacity
    → IsRing w
    → w.size < w.capacity
    → unread (put w b) ≡ unread w ++ b ∷ []
unfolding put
unread-put_room w b h v room =
    let writes : w.write < w.capacity = omega arith in
    ground (
      arith,
      unread-walk (put w b),
      unread-walk w h,
      walk-set w.buf w.capacity w.read w.size w.write b v.whole room h writes v.apart,
    )

pub unread-put_full :
    (w : TailBuffer) (b m : ℕ)
    → w.read < w.capacity
    → IsRing w
    → w.size ≡ w.capacity
    → w.capacity ≡ suc m
    → unread (put w b) ≡ walk w.buf w.capacity (advance w.capacity w.read) m ++ b ∷ []
unfolding put
unread-put_full w b m h v full e =
    let writes : w.write < w.capacity = omega arith in
    let next = advance-lt w.capacity w.read h in
    let place : (advance w.capacity w.read + m ≡ w.write)
        ⊎ (advance w.capacity w.read + m ≡ w.write + w.capacity) =
      ground (arith, advance_cases w.capacity w.read) in
    ground (
      arith,
      unread-walk (put w b),
      walk-set w.buf w.capacity (advance w.capacity w.read) m w.write b v.whole (omega arith) next
          writes place,
    )

-- One byte: what was unread, less the oldest byte of a full ring, and the new byte.
pub unread-put :
    (w : TailBuffer) (b : ℕ)
    → w.read < w.capacity
    → IsRing w
    → unread (put w b) ≡ keep_last w.capacity (unread w ++ b ∷ [])
unfolding walk
unread-put w b h v = elim (Bool-cases (w.size == w.capacity)) [
  | inl e ↦
      let m = w.capacity - 1 in
      let cap : w.capacity ≡ suc m = omega arith in
      let full : w.size ≡ w.capacity = (==_iff w.size w.capacity).0 e in
      let kept = walk w.buf w.capacity (advance w.capacity w.read) m in
      let seen : unread w ≡ get_or w.buf w.read 0 ∷ kept =
        unread-walk w h ∙ ap (walk w.buf w.capacity w.read) (full ∙ cap) in
      let len : length (kept ++ b ∷ []) ≡ w.capacity = omega (
        arith,
        length-append kept (b ∷ []),
        length-walk w.buf w.capacity (advance w.capacity w.read) m,
      ) in
      unread-put_full w b m h v full cap
      ∙ sym (ap (λ q. keep_last w.capacity (q ++ b ∷ [])) seen ∙ keep_last-cons w.capacity _ _ len)
  | inr e ↦
      let room : w.size < w.capacity = ground arith in
      unread-put_room w b h v room
      ∙ sym (
          keep_last_all w.capacity (unread w ++ b ∷ []) (
            omega (
              arith,
              length-append (unread w) (b ∷ []),
              ap length (unread-walk w h),
              length-walk w.buf w.capacity w.read w.size,
            )))
]

pub put-reads : (w : TailBuffer) (b : ℕ) → w.read < w.capacity → (put w b).read < (put w b).capacity
unfolding put
put-reads w b h = ground arith

pub unread-put_all :
    (bs : List ℕ) (w : TailBuffer) (n : ℕ)
    → w.read < w.capacity
    → IsRing w
    → unread (put_all w bs n).0 ≡ keep_last w.capacity (unread w ++ bs)
unfolding put_all
unread-put_all [] w n h v =
    let len : length (unread w ++ []) ≤ w.capacity = omega (
      arith,
      length-append (unread w) [],
      ap length (unread-walk w h),
      length-walk w.buf w.capacity w.read w.size,
    ) in
    sym (append-nil (unread w)) ∙ sym (keep_last_all w.capacity (unread w ++ []) len)
unread-put_all (b ∷ bs) w n h v =
    let same = capacity-put w b in
    unread-put_all bs (put w b) (n + 1) (put-reads w b h) (put-IsRing w b (omega arith) v)
    ∙ ap₂ (λ c q. keep_last c (q ++ bs)) same (unread-put w b h v)
    ∙ keep_last-keep_last w.capacity (unread w ++ b ∷ []) bs
    ∙ ap (keep_last w.capacity) (append_assoc (unread w) (b ∷ []) bs)

-- A long enough last part is all that counts.
pub keep_last-append :
    (n : ℕ) (xs ys : List ℕ) → n ≤ length ys → keep_last n (xs ++ ys) ≡ drop (length ys - n) ys
unfolding keep_last
keep_last-append n xs ys h =
    let k = length (xs ++ ys) - n in
    let both = length-append xs ys in
    drop-append k xs ys
    ∙ ap₂ ◌++◌ (drop_all k xs (omega arith))
        (ap (λ j. drop j ys) (let e : k - length xs ≡ length ys - n = omega arith in e))

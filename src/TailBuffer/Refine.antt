-- ===== src/TailBuffer/Refine.antt =====
-- What a reader sees of the ring of tailbuffer.go: the last `capacity` bytes that were written.

use mathlib.Core.Path.{ap₂}
use model_runner.Common.{
  ℕ, zero, suc, ◌+◌, ◌-◌, ◌%◌, ◌≤◌, ◌<◌, ◌≡◌, refl, sym, ap, ◌∙◌, inl, inr, List, [], ◌∷◌, ◌++◌,
  arith, ltb, ◌==◌, length, drop, get_or, drop_all, length-drop, min, Bool-cases, true, ◌↔◌,
}
use model_runner.TailBuffer.Ring.{TailBuffer, advance, skipped, write_bytes, take_bytes, read_bytes}
use model_runner.TailBuffer.Invariant.{
  IsRing, put_all-IsRing, write_bytes_none, take_bytes_none, take_bytes_state,
}
use model_runner.TailBuffer.Walk.{
  tabulate, unread, keep_last, walk, unread-walk, length-walk, unread-put_all, keep_last-append,
}

-- The bytes that `Write` skips would have been pushed out again.
keep_last-skipped :
    (w : TailBuffer) (xs buffer : List ℕ)
    → keep_last w.capacity (xs ++ drop (skipped w buffer) buffer)
      ≡ keep_last w.capacity (xs ++ buffer)
unfolding skipped
keep_last-skipped w xs buffer = elim (Bool-cases (ltb w.capacity (length buffer))) [
  | inl e ↦
      let long : w.capacity < length buffer = ground arith in
      let k = length buffer - w.capacity in
      let len = length-drop k buffer in
      rw e (
        keep_last-append w.capacity xs (drop k buffer) (omega arith)
        ∙ ap (λ j. drop j (drop k buffer))
            (let z : length (drop k buffer) - w.capacity ≡ 0 = omega arith in z)
        ∙ sym (keep_last-append w.capacity xs buffer (omega arith)))
  | inr e ↦ rw e
]

unread_empty : (w : TailBuffer) → w.size ≡ 0 → unread w ≡ []
unfolding unread tabulate
unread_empty w h = ap (λ k. tabulate k (λ i. get_or w.buf ((w.read + i) % w.capacity) 0)) h

length-skipped : (w : TailBuffer) (buffer : List ℕ) → skipped w buffer ≤ length buffer
unfolding skipped
length-skipped w buffer = ground arith

-- On a well-formed ring Write makes the unread bytes the last capacity bytes of the old unread
-- bytes and the written ones, and reports the whole buffer as taken.
pub write_bytes-unread :
    (w : TailBuffer) (buffer : List ℕ)
    → IsRing w
    → (unread (write_bytes w buffer).0 ≡ keep_last w.capacity (unread w ++ buffer))
      × ((write_bytes w buffer).1 ≡ length buffer)
unfolding write_bytes keep_last
write_bytes-unread w buffer v = elim v.reading [
  | inl h ↦
      let rest = drop (skipped w buffer) buffer in
      (
        unread-put_all rest w 0 h v ∙ keep_last-skipped w (unread w) buffer,
        omega (
          arith,
          (put_all-IsRing rest w 0 (omega arith) v).1,
          length-drop (skipped w buffer) buffer,
          length-skipped w buffer,
        ),
      )
  | inr h ↦
      let none_kept : keep_last w.capacity (unread w ++ buffer) ≡ [] =
        drop_all (length (unread w ++ buffer) - w.capacity) (unread w ++ buffer) (omega arith) in
      let still = write_bytes_none w buffer h.0 in
      (
        ap (λ r. unread r.0) still ∙ unread_empty w (omega arith) ∙ sym none_kept,
        ap (λ r. r.1) still,
      )
]

take_bytes-walk :
    (buf : List ℕ) (c pos left room : ℕ)
    → let r = take_bytes buf c pos left room in
      (r.0 ++ walk buf c r.1 (left - length r.0) ≡ walk buf c pos left)
      × (length r.0 ≡ min room left)
unfolding take_bytes walk
take_bytes-walk buf c pos zero room = (refl, omega arith)
take_bytes-walk buf c pos (suc left) zero =
    (ap (walk buf c pos) (let e : suc left - 0 ≡ suc left = omega arith in e), omega arith)
take_bytes-walk buf c pos (suc left) (suc room) =
    let ih = take_bytes-walk buf c (advance c pos) left room in
    let n = length (take_bytes buf c (advance c pos) left room).0 in
    let e : suc left - suc n ≡ left - n = omega arith in
    (
      ap
            (λ k.
              get_or buf pos 0 ∷ (take_bytes buf c (advance c pos) left room).0
              ++ walk buf c (take_bytes buf c (advance c pos) left room).1 k)
            e
          ∙ ap (λ q. get_or buf pos 0 ∷ q) ih.0,
      omega arith,
    )

eof_iff : (out : List ℕ) → ((length out == 0) ≡ true) ↔ (out ≡ [])
eof_iff [] = (λ _. refl, λ _. refl)
eof_iff (b ∷ out) = (λ h. ground arith, λ h. cc)

-- On a well-formed ring Read returns the oldest unread bytes, as many as fit, keeps the rest, and
-- reports io.EOF exactly when it returns none.
pub read_bytes-unread :
    (w : TailBuffer) (room : ℕ)
    → IsRing w
    → let r = read_bytes w room in
      (r.1 ++ unread r.0 ≡ unread w)
      × (length r.1 ≡ min room (length (unread w)))
      × ((r.2 ≡ true) ↔ (r.1 ≡ []))
unfolding read_bytes
read_bytes-unread w room v = elim v.reading [
  | inl h ↦
      let all = take_bytes-walk w.buf w.capacity w.read w.size room in
      let st = take_bytes_state w.buf w.capacity w.read w.size room h v.fits in
      (
        ap (λ q. (take_bytes w.buf w.capacity w.read w.size room).0 ++ q)
              (unread-walk (read_bytes w room).0 st.0)
            ∙ all.0
            ∙ sym (unread-walk w h),
        omega
            (arith, all.1, ap length (unread-walk w h), length-walk w.buf w.capacity w.read w.size),
        eof_iff (take_bytes w.buf w.capacity w.read w.size room).0,
      )
  | inr h ↦
      let empty : w.size ≡ 0 = omega arith in
      let stop = take_bytes_none w.buf w.capacity w.read w.size room empty in
      (
        ap₂ ◌++◌ (ap (λ r. r.0) stop) (unread_empty (read_bytes w room).0 (omega arith))
            ∙ sym (unread_empty w empty),
        omega (arith, ap (λ r. length r.0) stop, ap length (unread_empty w empty)),
        eof_iff (take_bytes w.buf w.capacity w.read w.size room).0,
      )
]

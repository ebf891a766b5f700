-- ===== src/TailBuffer/Invariant.antt =====
-- The invariant of the ring of tailbuffer.go and its operations.
use model_runner.Common.{
  ℕ, zero, suc, ◌+◌, ◌≤◌, ◌<◌, ◌≡◌, refl, sym, ap, subst, ◌⊎◌, inl, inr, List, [], ◌∷◌, arith,
  length, drop_all, length-set, length-replicate,
}
use model_runner.TailBuffer.Ring.{
  TailBuffer, new_tail_buffer, advance, put, put_all, skipped, write_bytes, take_bytes, read_bytes,
}

-- The write position is `size` places behind the read position, round the ring. A ring of
-- capacity 0 keeps both positions at 0.
pub record IsRing (w : TailBuffer) : Type 0 where
  pub whole : length w.buf ≡ w.capacity
  pub fits : w.size ≤ w.capacity
  pub reading : (w.read < w.capacity) ⊎ ((w.capacity ≡ 0) × (w.read ≡ 0))
  pub writing : (w.write < w.capacity) ⊎ ((w.capacity ≡ 0) × (w.write ≡ 0))
  pub apart : (w.read + w.size ≡ w.write) ⊎ (w.read + w.size ≡ w.write + w.capacity)

pub new_tail_buffer-IsRing : (n : ℕ) → IsRing (new_tail_buffer n)
unfolding new_tail_buffer
new_tail_buffer-IsRing n = grind (arith, length-replicate {A = ℕ} n 0)

pub put-IsRing : (w : TailBuffer) (b : ℕ) → 0 < w.capacity → IsRing w → IsRing (put w b)
unfolding put
put-IsRing w b h v = record {
  whole = omega (arith, length-set w.buf w.write b);
  fits = ground arith;
  reading = ground arith;
  writing = ground arith;
  apart = ground arith;
}

pub capacity-put : (w : TailBuffer) (b : ℕ) → (put w b).capacity ≡ w.capacity
unfolding put
capacity-put w b = ground arith

pub advance-lt : (c pos : ℕ) → pos < c → advance c pos < c
unfolding advance
advance-lt c pos h = ground arith

pub advance_cases : (c pos : ℕ) → (advance c pos ≡ pos + 1) ⊎ ((advance c pos ≡ 0) × (c ≤ pos + 1))
unfolding advance
advance_cases c pos = ground arith

-- The positions and counts after the loop of `Read`.
pub take_bytes_state :
    (buf : List ℕ) (c pos left room : ℕ)
    → pos < c
    → left ≤ c
    → let r = take_bytes buf c pos left room in
      (r.1 < c)
      × (length r.0 ≤ left)
      × (length r.0 ≤ room)
      × ((pos + length r.0 ≡ r.1) ⊎ (pos + length r.0 ≡ r.1 + c))
unfolding take_bytes
take_bytes_state buf c pos zero room h k =
    (omega arith, omega arith, omega arith, inl (omega arith))
take_bytes_state buf c pos (suc left) zero h k =
    (omega arith, omega arith, omega arith, inl (omega arith))
take_bytes_state buf c pos (suc left) (suc room) h k =
    let ih = take_bytes_state buf c (advance c pos) left room (advance-lt c pos h) (omega arith) in
    (ih.0, omega arith, omega arith, ground (arith, advance_cases c pos))

pub take_bytes_none :
    (buf : List ℕ) (c pos left room : ℕ) → left ≡ 0 → take_bytes buf c pos left room ≡ ([], pos)
unfolding take_bytes
take_bytes_none buf c pos zero room h = refl
take_bytes_none buf c pos (suc left) room h = absurd (omega arith)

pub read_bytes-IsRing : (w : TailBuffer) (room : ℕ) → IsRing w → IsRing (read_bytes w room).0
unfolding read_bytes
read_bytes-IsRing w room v = elim v.reading [
  | inl h ↦
      let st = take_bytes_state w.buf w.capacity w.read w.size room h v.fits in
      record {
        whole = v.whole;
        fits = omega arith;
        reading = inl st.0;
        writing = v.writing;
        apart = ground arith;
      }
  | inr h ↦ rw (take_bytes_none w.buf w.capacity w.read w.size room (omega arith)) (record {
    whole = v.whole;
    fits = omega arith;
    reading = inr h;
    writing = v.writing;
    apart = ground arith;
  })
]

-- The loop of `Write` on a ring that has room for a byte.
pub put_all-IsRing :
    (bs : List ℕ) (w : TailBuffer) (n : ℕ)
    → 0 < w.capacity
    → IsRing w
    → IsRing (put_all w bs n).0 × ((put_all w bs n).1 ≡ n + length bs)
unfolding put_all
put_all-IsRing [] w n h v = (v, omega arith)
put_all-IsRing (b ∷ bs) w n h v =
    let ih = put_all-IsRing bs (put w b) (n + 1) (rw (capacity-put w b) h) (put-IsRing w b h v) in
    (ih.0, omega arith)

skipped_none :
    (w : TailBuffer) (buffer : List ℕ) → w.capacity ≡ 0 → skipped w buffer ≡ length buffer
unfolding skipped
skipped_none w buffer h = ground arith

-- With capacity 0 every byte is skipped.
pub write_bytes_none :
    (w : TailBuffer) (buffer : List ℕ) → w.capacity ≡ 0 → write_bytes w buffer ≡ (w, length buffer)
unfolding write_bytes put_all
write_bytes_none w buffer h =
    rw (skipped_none w buffer h, drop_all (length buffer) buffer (omega arith))
      (ap (λ k. (w, k)) (omega arith))

-- A well-formed ring stays well formed under Write, whatever is written.
pub write_bytes-IsRing :
    (w : TailBuffer) (buffer : List ℕ) → IsRing w → IsRing (write_bytes w buffer).0
unfolding write_bytes
write_bytes-IsRing w buffer v = elim v.reading [
  | inl h ↦ (put_all-IsRing _ w 0 (omega arith) v).0
  | inr h ↦ subst IsRing (sym (ap (λ r. r.0) (write_bytes_none w buffer h.0))) v
]

-- ===== src/TailBuffer/Ring.antt =====
-- The state and the two operations of tailbuffer.go. The lock makes each call one step.
use model_runner.Common.{
  ℕ, zero, suc, ◌+◌, ◌-◌, Bool, List, [], ◌∷◌, ltb, ◌==◌, if◌then◌else◌, length, get_or, set, drop,
  replicate,
}

pub record TailBuffer : Type 0 where
  pub buf : List ℕ
  pub capacity : ℕ
  pub size : ℕ
  pub read : ℕ
  pub write : ℕ

unfoldable pub new_tail_buffer : ℕ → TailBuffer
new_tail_buffer size = record {
  buf = replicate size 0;
  capacity = size;
  size = 0;
  read = 0;
  write = 0;
}

-- `if pos+1 < capacity { pos++ } else { pos = 0 }`
unfoldable pub advance : ℕ → ℕ → ℕ
advance capacity pos = if ltb (pos + 1) capacity then pos + 1 else 0

-- One round of the loop of `Write`.
unfoldable pub put : TailBuffer → ℕ → TailBuffer
unfolding advance
put w b =
    let full = w.size == w.capacity in
    record w {
      read = if full then advance w.capacity w.read else w.read;
      size = if full then w.size else w.size + 1;
      buf = set w.buf w.write b;
      write = advance w.capacity w.write;
    }

-- The loop of `Write`, with the count of its rounds.
unfoldable pub put_all : TailBuffer → List ℕ → ℕ → TailBuffer × ℕ
unfolding put
put_all w [] written = (w, written)
put_all w (b ∷ bs) written = put_all (put w b) bs (written + 1)

-- The index from which `Write` starts.
unfoldable pub skipped : TailBuffer → List ℕ → ℕ
skipped w buffer = if ltb w.capacity (length buffer) then length buffer - w.capacity else 0

unfoldable pub write_bytes : TailBuffer → List ℕ → TailBuffer × ℕ
write_bytes w buffer =
    let si = skipped w buffer in
    let (w', written) = put_all w (drop si buffer) 0 in (w', si + written)

-- The loop of `Read`: `room` is what is left of the caller's buffer and `left` what is left of
-- `size`; the result is the bytes read and the read position.
unfoldable pub take_bytes : List ℕ → ℕ → ℕ → ℕ → ℕ → List ℕ × ℕ
unfolding advance
take_bytes buf capacity pos zero room = ([], pos)
take_bytes buf capacity pos (suc left) zero = ([], pos)
take_bytes buf capacity pos (suc left) (suc room) =
    let rest = take_bytes buf capacity (advance capacity pos) left room in
    (get_or buf pos 0 ∷ rest.0, rest.1)

-- `Read` into a buffer of `room` bytes: the buffer's new prefix, and whether the error is io.EOF.
unfoldable pub read_bytes : TailBuffer → ℕ → TailBuffer × List ℕ × Bool
unfolding take_bytes
read_bytes w room =
    let (out, pos) = take_bytes w.buf w.capacity w.read w.size room in
    (record w { read = pos; size = w.size - length out }, out, length out == 0)

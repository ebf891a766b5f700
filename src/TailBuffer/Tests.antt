-- ===== src/TailBuffer/Tests.antt =====
-- Runs of the ring of tailbuffer.go, and its theorems at concrete inputs.
use model_runner.Common.{◌≡◌, refl, true, [], ◌∷◌, ◌++◌, arith, length, min, ◌↔◌}
use model_runner.TailBuffer.Ring.{
  TailBuffer, new_tail_buffer, put_all, skipped, write_bytes, read_bytes,
}
use model_runner.TailBuffer.Invariant.{IsRing, write_bytes-IsRing}
use model_runner.TailBuffer.Walk.{unread, keep_last}
use model_runner.TailBuffer.Refine.{write_bytes-unread, read_bytes-unread}

-- A ring of three places that holds the bytes 7 and 8, with the read position at its end.
abbrev wrapped : TailBuffer
wrapped = record { buf = 8 ∷ 0 ∷ 7 ∷ []; capacity = 3; size = 2; read = 2; write = 1 }

wrapped-IsRing : IsRing wrapped
wrapped-IsRing = omega arith

unread-wrapped : unread wrapped ≡ 7 ∷ 8 ∷ []
unfolding unread
unread-wrapped = refl

written_over : unread (write_bytes wrapped (1 ∷ 2 ∷ [])).0 ≡ 8 ∷ 1 ∷ 2 ∷ []
unfolding unread write_bytes put_all skipped
written_over = refl

read_all :
    (read_bytes (write_bytes (new_tail_buffer 3) (1 ∷ 2 ∷ 3 ∷ 4 ∷ 5 ∷ [])).0 9).1 ≡ 3 ∷ 4 ∷ 5 ∷ []
unfolding read_bytes new_tail_buffer write_bytes put_all skipped
read_all = refl

write_bytes-IsRing_example : IsRing (write_bytes wrapped (1 ∷ 2 ∷ [])).0
write_bytes-IsRing_example = write_bytes-IsRing wrapped (1 ∷ 2 ∷ []) wrapped-IsRing

write_bytes-unread_example :
    (unread (write_bytes wrapped (1 ∷ 2 ∷ [])).0 ≡ keep_last 3 (unread wrapped ++ 1 ∷ 2 ∷ []))
    × ((write_bytes wrapped (1 ∷ 2 ∷ [])).1 ≡ 2)
write_bytes-unread_example = write_bytes-unread wrapped (1 ∷ 2 ∷ []) wrapped-IsRing

read_bytes-unread_example :
    let r = read_bytes wrapped 1 in
    (r.1 ++ unread r.0 ≡ unread wrapped)
    × (length r.1 ≡ min 1 (length (unread wrapped)))
    × ((r.2 ≡ true) ↔ (r.1 ≡ []))
read_bytes-unread_example = read_bytes-unread wrapped 1 wrapped-IsRing

-- ===== src/Logs/Lossless.antt =====
-- The merge of logs in pkg/logs/merge.go loses no line, and its offsets are the sizes of the files.
use model_runner.Common.{
  ℕ, ◌+◌, ◌≤◌, ◌≡◌, inl, inr, refl, sym, ap, ◌∙◌, zero, suc, List, [], ◌∷◌, ◌++◌, Option, none,
  some, Text, length, length-append, arith, Option-cases,
}
use model_runner.Distribution.Hash.{split_at}
use model_runner.Distribution.HashLaws.{join_at, join_at-split_at}
use model_runner.Logs.Merge.{
  LogReader, advance_log, drain, merge_both, fuel_of, parts_of, merge_logs, line_length,
}
use model_runner.Logs.Advance.{
  count_line, count_line-append, count_line_step, lines_of, bytes_of, left, weight,
  advance_log-count, advance_log-IsAdvanced, left-none, left-some, weight-some, pending_lines,
}
use model_runner.Logs.Both.{merge_both-IsMerged}

-- The size of a log that may be missing.
unfoldable pub size_of : Option Text → ℕ
size_of none = 0
size_of (some content) = length content

length-join_at : (ps : List Text) → length (join_at 10 ps) ≡ bytes_of ps
unfolding join_at bytes_of line_length
length-join_at [] = refl
length-join_at (p ∷ []) = omega arith
length-join_at (p ∷ q ∷ ps) =
    let ih = length-join_at (q ∷ ps) in
    let joined = length-append p (10 ∷ join_at 10 (q ∷ ps)) in omega arith

bytes_of-parts_of : (engine : Option Text) → bytes_of (parts_of engine) ≡ size_of engine
unfolding parts_of size_of bytes_of
bytes_of-parts_of none = refl
bytes_of-parts_of (some content) =
    sym (length-join_at (split_at 10 content)) ∙ ap length (join_at-split_at 10 content)

count_line_five :
    (x : Text) (a b c d e : List Text)
    → count_line x (a ++ (b ++ (c ++ (d ++ e))))
      ≡ count_line x a + (count_line x b + (count_line x c + (count_line x d + count_line x e)))
count_line_five x a b c d e = simp count_line-append refl

module _ (time_of : Text → Option ℕ) where
  -- Both the loop over one reader and the loop over two end a reader that was ended.
  record IsDrained (x : Text) (r : LogReader) (end : List Text × LogReader) : Type 0 where
    pub printed : count_line x end.0 ≡ left x r
    pub bytes : end.1.offset ≡ r.offset + bytes_of r.parts_left

  pub drain-none :
      (fuel : ℕ) (r : LogReader) → r.pending ≡ none → drain time_of (suc fuel) r ≡ ([], r)
  unfolding drain
  drain-none fuel r e = simp (e, drain) refl

  pub drain-some :
      (fuel : ℕ) (r : LogReader) (p : Text × ℕ)
      → r.pending ≡ some p
      → drain time_of (suc fuel) r ≡ (
        p.0
            ∷ ((advance_log time_of r.parts_left r.offset).1
                ++ (drain time_of fuel (advance_log time_of r.parts_left r.offset).0).0),
        (drain time_of fuel (advance_log time_of r.parts_left r.offset).0).1,
      )
  unfolding drain
  drain-some fuel r p e = rw (e, drain) refl

  at_once-IsDrained :
      (x : Text) (r : LogReader)
      → r.pending ≡ none
      → (r.pending ≡ none → r.parts_left ≡ [])
      → IsDrained x r ([], r)
  unfolding count_line lines_of bytes_of
  at_once-IsDrained x r e ended =
      let none_left = left-none x r e in
      let empty = ended e in
      let no_bytes : bytes_of r.parts_left ≡ 0 = ap bytes_of empty in
      let no_lines : count_line x (lines_of r.parts_left) ≡ 0 =
        ap (λ l. count_line x (lines_of l)) empty in
      record { printed = omega arith; bytes = omega arith }

  drain-IsDrained :
      (x : Text) (fuel : ℕ) (r : LogReader)
      → weight r ≤ fuel
      → (r.pending ≡ none → r.parts_left ≡ [])
      → IsDrained x r (drain time_of fuel r)
  drain-IsDrained x zero r h ended = elim (Option-cases r.pending) [
    | inl e ↦ unfold drain in at_once-IsDrained x r e ended
    | inr (p, e) ↦ let heavy = weight-some r p e in absurd (omega arith)
  ]
  drain-IsDrained x (suc fuel) r h ended = elim (Option-cases r.pending) [
    | inl e ↦ rw (drain-none fuel r e) (at_once-IsDrained x r e ended)
    | inr (p, e) ↦
        let next_r = (advance_log time_of r.parts_left r.offset).0 in
        let printed_now = (advance_log time_of r.parts_left r.offset).1 in
        let next = advance_log-IsAdvanced time_of r.parts_left r.offset in
        let counted = advance_log-count time_of x r.parts_left r.offset in
        let here = left-some x r p e in
        let lighter = next.lighter in
        let bytes = next.bytes in
        let heavy = weight-some r p e in
        let rest =
          drain-IsDrained x fuel (advance_log time_of r.parts_left r.offset).0 (omega arith)
            next.ended in
        let printed = rest.printed in
        let read = rest.bytes in
        rw (drain-some fuel r p e) (record {
          printed = count_line_step x p.0 printed_now (drain time_of fuel next_r).0 ∙ omega arith;
          bytes = read ∙ bytes;
        })
  ]

  pub weight-fuel_of : (r : LogReader) → weight r ≤ fuel_of r
  unfolding weight fuel_of pending_lines
  weight-fuel_of r = ground arith

  -- MergeLogs of a service log and an engine log, if there is one, prints every line that is not
  -- empty as often as both logs have it together, and the offsets that it returns are the sizes of
  -- the logs.
  pub merge_logs-IsLossless :
      (x service : Text) (engine : Option Text)
      → (count_line x (merge_logs time_of service engine).0
          ≡ count_line x (lines_of (split_at 10 service))
            + count_line x (lines_of (parts_of engine)))
        × ((merge_logs time_of service engine).1 ≡ (length service, size_of engine))
  unfolding merge_logs parts_of size_of
  merge_logs-IsLossless x service engine =
      let first_s = advance_log time_of (split_at 10 service) 0 in
      let first_e = advance_log time_of (parts_of engine) 0 in
      let is_s = advance_log-IsAdvanced time_of (split_at 10 service) 0 in
      let is_e = advance_log-IsAdvanced time_of (parts_of engine) 0 in
      let count_s = advance_log-count time_of x (split_at 10 service) 0 in
      let count_e = advance_log-count time_of x (parts_of engine) 0 in
      let bytes_s = is_s.bytes in
      let bytes_e = is_e.bytes in
      let fuel = fuel_of first_s.0 + fuel_of first_e.0 in
      let both = merge_both time_of fuel first_s.0 first_e.0 in
      let merged = merge_both-IsMerged time_of x fuel first_s.0 first_e.0 is_s.ended is_e.ended in
      let counted = merged.printed in
      let merged_s = merged.bytes_s in
      let merged_e = merged.bytes_e in
      let end_s =
        drain-IsDrained x (fuel_of both.1.0) both.1.0 (weight-fuel_of both.1.0) merged.ended_s in
      let end_e =
        drain-IsDrained x (fuel_of both.1.1) both.1.1 (weight-fuel_of both.1.1) merged.ended_e in
      let printed_s = end_s.printed in
      let printed_e = end_e.printed in
      let read_s = end_s.bytes in
      let read_e = end_e.bytes in
      let size_s : bytes_of (split_at 10 service) ≡ length service =
        bytes_of-parts_of (some service) in
      let size_e = bytes_of-parts_of engine in
      let offset_s : (drain time_of (fuel_of both.1.0) both.1.0).1.offset ≡ length service =
        omega arith in
      let offset_e : (drain time_of (fuel_of both.1.1) both.1.1).1.offset ≡ size_of engine =
        omega arith in
      let split =
        count_line_five x first_s.1 first_e.1 both.0 (drain time_of (fuel_of both.1.0) both.1.0).0
          (drain time_of (fuel_of both.1.1) both.1.1).0 in
      (split ∙ omega arith, λ i. (offset_s i, offset_e i))

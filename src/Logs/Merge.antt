-- ===== src/Logs/Merge.antt =====
-- MergeLogs of pkg/logs/merge.go. A file is the list of what ReadString gives, without line ends:
-- only the last part comes with an error, io.EOF or another, after which the code reads no more, so
-- that a file is what can be read of it. The time of a line, by the regular expression and
-- time.Parse, is a parameter. A missing engine log is a file that was never read.
use model_runner.Common.{
  ℕ, ◌+◌, zero, suc, not, ◌||◌, List, [], ◌∷◌, ◌++◌, Option, none, some, Text, text_eq, ltb, ◌==◌,
  if◌then◌else◌, length,
}
use model_runner.Distribution.Hash.{split_at}

-- `pending` is the line and its time, `none` for an empty line. No parts left is `eof`.
pub record LogReader : Type 0 where
  pub parts_left : List Text
  pub offset : ℕ
  pub pending : Option (Text × ℕ)

-- `strings.TrimRight(line, "\r\n")`
unfoldable pub trim_line_end : Text → Text
trim_line_end [] = []
trim_line_end (c ∷ s) =
    let rest = trim_line_end s in
    if text_eq rest [] then if c == 10 || c == 13 then [] else c ∷ [] else c ∷ rest

-- The bytes of the line that is read, with its line end.
unfoldable pub line_length : Text → List Text → ℕ
line_length line [] = length line
line_length line (_ ∷ _) = length line + 1

-- The lines that a reader may still give, and one: fuel for its loop.
unfoldable pub fuel_of : LogReader → ℕ
fuel_of r = suc (length r.parts_left)

unfoldable pub parts_of : Option Text → List Text
parts_of none = []
parts_of (some content) = split_at 10 content

module _ (time_of : Text → Option ℕ) where
  -- The loop of `advance`: the reader after it, and the lines that were printed.
  unfoldable pub advance_log : List Text → ℕ → LogReader × List Text
  advance_log [] offset = (record { parts_left = []; offset = offset; pending = none }, [])
  advance_log (part ∷ rest) offset =
      let line = trim_line_end part in
      let read = offset + line_length part rest in
      let next = advance_log rest read in
      if text_eq line [] then next else elim (time_of line) [
        | some ts ↦ (record { parts_left = rest; offset = read; pending = some (line, ts) }, [])
        | none ↦ (next.0, line ∷ next.1)
      ]

  -- Prints the pending line and advances, for as long as there is one.
  unfoldable pub drain : ℕ → LogReader → List Text × LogReader
  drain zero r = ([], r)
  drain (suc fuel) r = elim r.pending [
    | none ↦ ([], r)
    | some p ↦
        let next = advance_log r.parts_left r.offset in
        let rest = drain fuel next.0 in (p.0 ∷ (next.1 ++ rest.0), rest.1)
  ]

  -- The loop while both readers have a line: the service log first at equal times.
  unfoldable pub merge_both : ℕ → LogReader → LogReader → List Text × (LogReader × LogReader)
  merge_both zero s e = ([], (s, e))
  merge_both (suc fuel) s e = elim s.pending [
    | none ↦ ([], (s, e))
    | some p ↦ elim e.pending [
      | none ↦ ([], (s, e))
      | some q ↦
          let next_s = advance_log s.parts_left s.offset in
          let rest_s = merge_both fuel next_s.0 e in
          let next_e = advance_log e.parts_left e.offset in
          let rest_e = merge_both fuel s next_e.0 in
          if not (ltb q.1 p.1)
          then (p.0 ∷ (next_s.1 ++ rest_s.0), rest_s.1)
          else (q.0 ∷ (next_e.1 ++ rest_e.0), rest_e.1)
    ]
  ]

  -- MergeLogs after the files are opened: the printed lines and the two offsets.
  unfoldable pub merge_logs : Text → Option Text → List Text × (ℕ × ℕ)
  merge_logs service engine =
      let first_s = advance_log (split_at 10 service) 0 in
      let first_e = advance_log (parts_of engine) 0 in
      let both = merge_both (fuel_of first_s.0 + fuel_of first_e.0) first_s.0 first_e.0 in
      let rest_s = drain (fuel_of both.1.0) both.1.0 in
      let rest_e = drain (fuel_of both.1.1) both.1.1 in
      (
        first_s.1 ++ (first_e.1 ++ (both.0 ++ (rest_s.0 ++ rest_e.0))),
        (rest_s.1.offset, rest_e.1.offset),
      )

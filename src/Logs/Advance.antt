-- ===== src/Logs/Advance.antt =====
-- What a reader of pkg/logs/merge.go has still to give, and what its advance takes of that.
use model_runner.Common.{
  ℕ, ◌+◌, ◌≤◌, ◌≡◌, refl, ap, ◌∙◌, suc, List, [], ◌∷◌, ◌++◌, Option, none, some, Text, text_eq,
  if◌then◌else◌, length, arith,
}
use model_runner.Logs.Merge.{LogReader, trim_line_end, line_length, advance_log}

-- How often a line stands in a list.
unfoldable pub count_line : Text → List Text → ℕ
count_line x [] = 0
count_line x (y ∷ ys) = if text_eq y x then suc (count_line x ys) else count_line x ys

pub count_line-append :
    (x : Text) (ys zs : List Text) → count_line x (ys ++ zs) ≡ count_line x ys + count_line x zs
unfolding count_line
count_line-append x [] zs = omega arith
count_line-append x (y ∷ ys) zs = ground (arith, count_line-append x ys zs)

-- A line, and what is printed on the way to the next.
pub count_line_step :
    (x y : Text) (ys zs : List Text)
    → count_line x (y ∷ (ys ++ zs)) ≡ count_line x (y ∷ []) + (count_line x ys + count_line x zs)
count_line_step x y ys zs =
    count_line-append x (y ∷ []) (ys ++ zs)
    ∙ ap (λ n. count_line x (y ∷ []) + n) (count_line-append x ys zs)

-- The lines of a file that are not empty.
unfoldable pub lines_of : List Text → List Text
lines_of [] = []
lines_of (part ∷ rest) =
    let line = trim_line_end part in
    let below = lines_of rest in if text_eq line [] then below else line ∷ below

unfoldable pub bytes_of : List Text → ℕ
bytes_of [] = 0
bytes_of (part ∷ rest) = line_length part rest + bytes_of rest

-- A line that is pending.
unfoldable pub pending_lines : Option (Text × ℕ) → List Text
pending_lines none = []
pending_lines (some p) = p.0 ∷ []

-- The lines that a reader has still to give.
unfoldable pub left : Text → LogReader → ℕ
left x r = count_line x (pending_lines r.pending) + count_line x (lines_of r.parts_left)

-- How many rounds a reader can still take.
unfoldable pub weight : LogReader → ℕ
weight r = length (pending_lines r.pending) + length r.parts_left

pub left-none :
    (x : Text) (r : LogReader) → r.pending ≡ none → left x r ≡ count_line x (lines_of r.parts_left)
unfolding left pending_lines count_line
left-none x r e = simp e (omega arith)

pub left-some :
    (x : Text) (r : LogReader) (p : Text × ℕ)
    → r.pending ≡ some p
    → left x r ≡ count_line x (p.0 ∷ []) + count_line x (lines_of r.parts_left)
unfolding left pending_lines count_line
left-some x r p e = simp e (omega arith)

pub weight-some :
    (r : LogReader) (p : Text × ℕ) → r.pending ≡ some p → weight r ≡ suc (length r.parts_left)
unfolding weight pending_lines
weight-some r p e = simp e (omega arith)

-- What an advance over these parts does.
pub record IsAdvanced (parts : List Text) (offset : ℕ) (next : LogReader × List Text) : Type 0 where
  pub lighter : weight next.0 ≤ length parts
  pub bytes : next.0.offset + bytes_of next.0.parts_left ≡ offset + bytes_of parts
  pub ended : next.0.pending ≡ none → next.0.parts_left ≡ []

module _ (time_of : Text → Option ℕ) where
  pub advance_log-count :
      (x : Text) (parts : List Text) (offset : ℕ)
      → count_line x (advance_log time_of parts offset).1
          + left x (advance_log time_of parts offset).0
        ≡ count_line x (lines_of parts)
  unfolding advance_log left pending_lines lines_of count_line
  advance_log-count x [] offset = refl
  advance_log-count x (part ∷ rest) offset =
      ground (arith, advance_log-count x rest (offset + line_length part rest))

  pub advance_log-IsAdvanced :
      (parts : List Text) (offset : ℕ) → IsAdvanced parts offset (advance_log time_of parts offset)
  unfolding advance_log weight pending_lines bytes_of
  advance_log-IsAdvanced [] offset = record {
    lighter = omega arith;
    bytes = refl;
    ended = λ _. refl;
  }
  advance_log-IsAdvanced (part ∷ rest) offset =
      let ih = advance_log-IsAdvanced rest (offset + line_length part rest) in
      let lighter = ih.lighter in let bytes = ih.bytes in let ended = ih.ended in ground arith

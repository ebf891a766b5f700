-- ===== src/Logs/Times.antt =====
-- The times of the lines that a reader of pkg/logs/merge.go has still to give.
use model_runner.Common.{
  ℕ, ◌+◌, ◌≤◌, ◌≡◌, inl, inr, refl, sym, ap, ◌∙◌, zero, suc, true, false, List, [], ◌∷◌, ◌++◌,
  Option, none, some, Text, text_eq, arith, Bool-cases, Option-cases,
}
use model_runner.Logs.Merge.{LogReader, advance_log, drain, trim_line_end, line_length}
use model_runner.Logs.Advance.{lines_of, weight, advance_log-IsAdvanced, weight-some, pending_lines}
use model_runner.Logs.Lossless.{drain-none, drain-some}

-- The time of a line, if it has one, before the times of the lines below it.
unfoldable pub stamp : Option ℕ → List ℕ → List ℕ
stamp none below = below
stamp (some t) below = t ∷ below

stamp-append : (o : Option ℕ) (ts us : List ℕ) → stamp o ts ++ us ≡ stamp o (ts ++ us)
unfolding stamp
stamp-append none ts us = refl
stamp-append (some t) ts us = refl

lines_of_blank :
    (part : Text) (rest : List Text)
    → text_eq (trim_line_end part) [] ≡ true
    → lines_of (part ∷ rest) ≡ lines_of rest
unfolding lines_of
lines_of_blank part rest h = rw h refl

lines_of_filled :
    (part : Text) (rest : List Text)
    → text_eq (trim_line_end part) [] ≡ false
    → lines_of (part ∷ rest) ≡ trim_line_end part ∷ lines_of rest
unfolding lines_of
lines_of_filled part rest h = rw h refl

-- The lines that a reader has still to give.
unfoldable pub gives : LogReader → List Text
gives r = pending_lines r.pending ++ lines_of r.parts_left

module _ (time_of : Text → Option ℕ) where
  -- The times of the lines that have one.
  unfoldable pub times_of : List Text → List ℕ
  times_of [] = []
  times_of (line ∷ rest) = stamp (time_of line) (times_of rest)

  pub times_of-append : (xs ys : List Text) → times_of (xs ++ ys) ≡ times_of xs ++ times_of ys
  unfolding times_of
  times_of-append [] ys = refl
  times_of-append (x ∷ xs) ys =
      ap (stamp (time_of x)) (times_of-append xs ys)
      ∙ sym (stamp-append (time_of x) (times_of xs) (times_of ys))

  pub times_of-some :
      (x : Text) (t : ℕ) (xs : List Text) → time_of x ≡ some t → times_of (x ∷ xs) ≡ t ∷ times_of xs
  unfolding times_of stamp
  times_of-some x t xs e = ap (λ o. stamp o (times_of xs)) e

  times_of-none : (x : Text) (xs : List Text) → time_of x ≡ none → times_of (x ∷ xs) ≡ times_of xs
  unfolding times_of stamp
  times_of-none x xs e = ap (λ o. stamp o (times_of xs)) e

  -- The pending line has the time that is kept with it.
  unfoldable pub IsStamped : Option (Text × ℕ) → Type 0
  IsStamped none = Unit {0}
  IsStamped (some p) = time_of p.0 ≡ some p.1

  pub record IsTimed (parts : List Text) (next : LogReader × List Text) : Type 0 where
    pub untimed : times_of next.1 ≡ []
    pub given : times_of (gives next.0) ≡ times_of (lines_of parts)
    pub stamped : IsStamped next.0.pending

  advance_blank :
      (part : Text) (rest : List Text) (offset : ℕ)
      → text_eq (trim_line_end part) [] ≡ true
      → advance_log time_of (part ∷ rest) offset
        ≡ advance_log time_of rest (offset + line_length part rest)
  unfolding advance_log
  advance_blank part rest offset h = rw h refl

  advance_untimed :
      (part : Text) (rest : List Text) (offset : ℕ)
      → text_eq (trim_line_end part) [] ≡ false
      → time_of (trim_line_end part) ≡ none
      → advance_log time_of (part ∷ rest) offset ≡ (
        (advance_log time_of rest (offset + line_length part rest)).0,
        trim_line_end part ∷ (advance_log time_of rest (offset + line_length part rest)).1,
      )
  unfolding advance_log
  advance_untimed part rest offset h e = rw (h, e) refl

  advance_timed :
      (part : Text) (rest : List Text) (offset t : ℕ)
      → text_eq (trim_line_end part) [] ≡ false
      → time_of (trim_line_end part) ≡ some t
      → advance_log time_of (part ∷ rest) offset ≡ (
        record {
          parts_left = rest;
          offset = offset + line_length part rest;
          pending = some (trim_line_end part, t);
        },
        [],
      )
  unfolding advance_log
  advance_timed part rest offset t h e = rw (h, e) refl

  pub advance_log-IsTimed :
      (parts : List Text) (offset : ℕ) → IsTimed parts (advance_log time_of parts offset)
  unfolding gives pending_lines IsStamped
  advance_log-IsTimed [] offset =
      unfold advance_log lines_of times_of in record { untimed = refl; given = refl; stamped = tt }
  advance_log-IsTimed (part ∷ rest) offset =
      let ih = advance_log-IsTimed rest (offset + line_length part rest) in
      let line = trim_line_end part in
      elim (Bool-cases (text_eq line [])) [
        | inl blank ↦ rw (advance_blank part rest offset blank) (record {
          untimed = ih.untimed;
          given = ih.given ∙ ap times_of (sym (lines_of_blank part rest blank));
          stamped = ih.stamped;
        })
        | inr filled ↦
            let here = sym (ap times_of (lines_of_filled part rest filled)) in
            elim (Option-cases (time_of line)) [
              | inl e ↦ rw (advance_untimed part rest offset filled e) (record {
                untimed =
                    times_of-none line (advance_log time_of rest (offset + line_length part rest)).1
                      e
                    ∙ ih.untimed;
                given = ih.given ∙ sym (times_of-none line (lines_of rest) e) ∙ here;
                stamped = ih.stamped;
              })
              | inr (t, e) ↦
                  rw (advance_timed part rest offset t filled e)
                    (record { untimed = unfold times_of in refl; given = here; stamped = e })
            ]
      ]

  pub gives-some :
      (r : LogReader) (p : Text × ℕ) → r.pending ≡ some p → gives r ≡ p.0 ∷ lines_of r.parts_left
  unfolding gives pending_lines
  gives-some r p e = ap (λ o. pending_lines o ++ lines_of r.parts_left) e

  -- A reader without a pending line has nothing to give.
  pub gives-none :
      (r : LogReader)
      → r.pending ≡ none
      → (r.pending ≡ none → r.parts_left ≡ [])
      → times_of (gives r) ≡ []
  unfolding gives pending_lines lines_of times_of
  gives-none r e ended =
      ap (λ o. times_of (pending_lines o ++ lines_of r.parts_left)) e
      ∙ ap (λ l. times_of (lines_of l)) (ended e)

  -- The times of a line that is printed and of what an advance prints after it.
  pub times_of_step :
      (x : Text) (parts : List Text) (offset : ℕ) (ys : List Text)
      → times_of (x ∷ ((advance_log time_of parts offset).1 ++ ys)) ≡ times_of (x ∷ ys)
  unfolding times_of
  times_of_step x parts offset ys = ap (stamp (time_of x)) (
      times_of-append (advance_log time_of parts offset).1 ys
      ∙ ap (λ l. l ++ times_of ys) (advance_log-IsTimed parts offset).untimed)

  times_of_same :
      (x : Text) (xs ys : List Text)
      → times_of xs ≡ times_of ys
      → times_of (x ∷ xs) ≡ times_of (x ∷ ys)
  unfolding times_of
  times_of_same x xs ys e = ap (stamp (time_of x)) e

  pub times_of-drain :
      (fuel : ℕ) (r : LogReader)
      → weight r ≤ fuel
      → (r.pending ≡ none → r.parts_left ≡ [])
      → times_of (drain time_of fuel r).0 ≡ times_of (gives r)
  times_of-drain zero r h ended = elim (Option-cases r.pending) [
    | inl e ↦
        let nothing : times_of (drain time_of 0 r).0 ≡ [] = unfold drain times_of in refl in
        nothing ∙ sym (gives-none r e ended)
    | inr (p, e) ↦ let heavy = weight-some r p e in absurd (omega arith)
  ]
  times_of-drain (suc fuel) r h ended = elim (Option-cases r.pending) [
    | inl e ↦
        let nothing : times_of [] ≡ [] = unfold times_of in refl in
        rw (drain-none time_of fuel r e) (nothing ∙ sym (gives-none r e ended))
    | inr (p, e) ↦
        let next_r = (advance_log time_of r.parts_left r.offset).0 in
        let next = advance_log-IsAdvanced time_of r.parts_left r.offset in
        let lighter = next.lighter in
        let heavy = weight-some r p e in
        let rest = times_of-drain fuel next_r (omega arith) next.ended in
        rw (drain-some time_of fuel r p e) (
          times_of_step p.0 r.parts_left r.offset (drain time_of fuel next_r).0
          ∙ times_of_same p.0 _ _ (rest ∙ (advance_log-IsTimed r.parts_left r.offset).given)
          ∙ ap times_of (sym (gives-some r p e)))
  ]

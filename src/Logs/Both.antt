-- ===== src/Logs/Both.antt =====
-- What the loop over both readers in pkg/logs/merge.go prints, and what it leaves.
use model_runner.Common.{
  ℕ, ◌+◌, ◌≡◌, ◌⊎◌, inl, inr, refl, ◌∙◌, zero, suc, true, false, List, [], ◌∷◌, ◌++◌, Option, none,
  some, Text, ltb, arith, Bool-cases, Option-cases,
}
use model_runner.Logs.Merge.{LogReader, advance_log, merge_both}
use model_runner.Logs.Advance.{
  count_line, count_line_step, bytes_of, left, advance_log-count, advance_log-IsAdvanced, left-some,
}

module _ (time_of : Text → Option ℕ) where
  -- What the loop over both readers leaves to the loops over one.
  pub record IsMerged (x : Text) (s e : LogReader) (end : List Text × (LogReader × LogReader))
      : Type 0 where
    pub printed : count_line x end.0 + (left x end.1.0 + left x end.1.1) ≡ left x s + left x e
    pub bytes_s : end.1.0.offset + bytes_of end.1.0.parts_left ≡ s.offset + bytes_of s.parts_left
    pub bytes_e : end.1.1.offset + bytes_of end.1.1.parts_left ≡ e.offset + bytes_of e.parts_left
    pub ended_s : end.1.0.pending ≡ none → end.1.0.parts_left ≡ []
    pub ended_e : end.1.1.pending ≡ none → end.1.1.parts_left ≡ []

  at_once-IsMerged :
      (x : Text) (s e : LogReader)
      → (s.pending ≡ none → s.parts_left ≡ [])
      → (e.pending ≡ none → e.parts_left ≡ [])
      → IsMerged x s e ([], (s, e))
  unfolding count_line
  at_once-IsMerged x s e hs he = record {
    printed = omega arith;
    bytes_s = refl;
    bytes_e = refl;
    ended_s = hs;
    ended_e = he;
  }

  pub merge_both-none :
      (fuel : ℕ) (s e : LogReader)
      → s.pending ≡ none ⊎ e.pending ≡ none
      → merge_both time_of (suc fuel) s e ≡ ([], (s, e))
  unfolding merge_both
  merge_both-none fuel s e (inl h) = simp (h, merge_both) refl
  merge_both-none fuel s e (inr h) = elim (Option-cases s.pending) [
    | inl g ↦ simp (g, merge_both) refl
    | inr (p, g) ↦ simp (g, h, merge_both) refl
  ]

  pub merge_both_service :
      (fuel : ℕ) (s e : LogReader) (p q : Text × ℕ)
      → s.pending ≡ some p
      → e.pending ≡ some q
      → ltb q.1 p.1 ≡ false
      → merge_both time_of (suc fuel) s e ≡ (
        p.0
            ∷ ((advance_log time_of s.parts_left s.offset).1
                ++ (merge_both time_of fuel (advance_log time_of s.parts_left s.offset).0 e).0),
        (merge_both time_of fuel (advance_log time_of s.parts_left s.offset).0 e).1,
      )
  unfolding merge_both
  merge_both_service fuel s e p q hs he t = simp (hs, he, t, merge_both) refl

  pub merge_both_engine :
      (fuel : ℕ) (s e : LogReader) (p q : Text × ℕ)
      → s.pending ≡ some p
      → e.pending ≡ some q
      → ltb q.1 p.1 ≡ true
      → merge_both time_of (suc fuel) s e ≡ (
        q.0
            ∷ ((advance_log time_of e.parts_left e.offset).1
                ++ (merge_both time_of fuel s (advance_log time_of e.parts_left e.offset).0).0),
        (merge_both time_of fuel s (advance_log time_of e.parts_left e.offset).0).1,
      )
  unfolding merge_both
  merge_both_engine fuel s e p q hs he t = simp (hs, he, t, merge_both) refl

  pub merge_both-IsMerged :
      (x : Text) (fuel : ℕ) (s e : LogReader)
      → (s.pending ≡ none → s.parts_left ≡ [])
      → (e.pending ≡ none → e.parts_left ≡ [])
      → IsMerged x s e (merge_both time_of fuel s e)
  merge_both-IsMerged x zero s e hs he = unfold merge_both in at_once-IsMerged x s e hs he
  merge_both-IsMerged x (suc fuel) s e hs he = elim (Option-cases s.pending) [
    | inl g ↦ rw (merge_both-none fuel s e (inl g)) (at_once-IsMerged x s e hs he)
    | inr (p, g) ↦ elim (Option-cases e.pending) [
      | inl h ↦ rw (merge_both-none fuel s e (inr h)) (at_once-IsMerged x s e hs he)
      | inr (q, h) ↦ elim (Bool-cases (ltb q.1 p.1)) [
        | inl t ↦
            let next_r = (advance_log time_of e.parts_left e.offset).0 in
            let next = advance_log-IsAdvanced time_of e.parts_left e.offset in
            let bytes = next.bytes in
            let counted = advance_log-count time_of x e.parts_left e.offset in
            let here = left-some x e q h in
            let rest = merge_both-IsMerged x fuel s next_r hs next.ended in
            let printed = rest.printed in
            let step =
              count_line_step x q.0 (advance_log time_of e.parts_left e.offset).1
                (merge_both time_of fuel s next_r).0 in
            rw (merge_both_engine fuel s e p q g h t) (record {
              printed = omega arith;
              bytes_s = rest.bytes_s;
              bytes_e = rest.bytes_e ∙ bytes;
              ended_s = rest.ended_s;
              ended_e = rest.ended_e;
            })
        | inr t ↦
            let next_r = (advance_log time_of s.parts_left s.offset).0 in
            let next = advance_log-IsAdvanced time_of s.parts_left s.offset in
            let bytes = next.bytes in
            let counted = advance_log-count time_of x s.parts_left s.offset in
            let here = left-some x s p g in
            let rest = merge_both-IsMerged x fuel next_r e next.ended he in
            let printed = rest.printed in
            let step =
              count_line_step x p.0 (advance_log time_of s.parts_left s.offset).1
                (merge_both time_of fuel next_r e).0 in
            rw (merge_both_service fuel s e p q g h t) (record {
              printed = omega arith;
              bytes_s = rest.bytes_s ∙ bytes;
              bytes_e = rest.bytes_e;
              ended_s = rest.ended_s;
              ended_e = rest.ended_e;
            })
      ]
    ]
  ]

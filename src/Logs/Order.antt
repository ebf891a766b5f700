-- ===== src/Logs/Order.antt =====
-- The order of what MergeLogs of pkg/logs/merge.go prints.
use model_runner.Common.{
  ℕ, ◌+◌, ◌≤◌, ◌≡◌, ◌⊎◌, inl, inr, refl, sym, ap, ◌∙◌, subst, zero, suc, List, [], ◌∷◌, ◌++◌,
  Option, none, some, Text, ltb, arith, Bool-cases, Option-cases, append-nil,
}
use model_runner.Distribution.Hash.{split_at}
use model_runner.Logs.Merge.{
  LogReader, advance_log, drain, merge_both, fuel_of, parts_of, merge_logs,
}
use model_runner.Logs.Advance.{lines_of, weight, advance_log-IsAdvanced, weight-some}
use model_runner.Logs.Both.{
  merge_both-none, merge_both_service, merge_both_engine, merge_both-IsMerged,
}
use model_runner.Logs.Lossless.{weight-fuel_of}
use model_runner.Logs.Times.{
  times_of, times_of-append, times_of-some, gives, IsStamped, advance_log-IsTimed, gives-some,
  gives-none, times_of_step, times_of-drain,
}

-- The times are in order, and none is before `lo`.
unfoldable pub IsAscending : ℕ → List ℕ → Type 0
IsAscending lo [] = Unit {0}
IsAscending lo (t ∷ ts) = (lo ≤ t) × IsAscending t ts

module _ (time_of : Text → Option ℕ) where
  -- What is printed, before what both readers still give.
  ahead : List Text × (LogReader × LogReader) → List ℕ
  ahead end =
      times_of time_of end.0
      ++ (times_of time_of (gives end.1.0) ++ times_of time_of (gives end.1.1))

  ahead_at_once :
      (lo : ℕ) (s e : LogReader)
      → s.pending ≡ none ⊎ e.pending ≡ none
      → (s.pending ≡ none → s.parts_left ≡ [])
      → (e.pending ≡ none → e.parts_left ≡ [])
      → IsAscending lo (times_of time_of (gives s))
      → IsAscending lo (times_of time_of (gives e))
      → IsAscending lo (ahead ([], (s, e)))
  unfolding ahead times_of
  ahead_at_once lo s e (inl h) ended_s ended_e in_s in_e = rw (gives-none time_of s h ended_s) in_e
  ahead_at_once lo s e (inr h) ended_s ended_e in_s in_e =
      rw (gives-none time_of e h ended_e, append-nil (times_of time_of (gives s))) in_s

  -- The first time, and the order of what a reader gives after its pending line.
  rest_ascends :
      (lo : ℕ) (r : LogReader) (p : Text × ℕ)
      → r.pending ≡ some p
      → IsStamped time_of r.pending
      → IsAscending lo (times_of time_of (gives r))
      → (lo ≤ p.1) × IsAscending p.1 (times_of time_of (lines_of r.parts_left))
  unfolding IsStamped IsAscending
  rest_ascends lo r p e stamped ascends =
      let known : time_of p.0 ≡ some p.1 = subst (IsStamped time_of) e stamped in
      let times =
        ap (times_of time_of) (gives-some time_of r p e)
        ∙ times_of-some time_of p.0 p.1 (lines_of r.parts_left) known in
      subst (IsAscending lo) times ascends

  -- A reader whose pending line is not before `mid`.
  ascends_after :
      (lo mid : ℕ) (r : LogReader) (p : Text × ℕ)
      → r.pending ≡ some p
      → IsStamped time_of r.pending
      → mid ≤ p.1
      → IsAscending lo (times_of time_of (gives r))
      → IsAscending mid (times_of time_of (gives r))
  unfolding IsStamped IsAscending
  ascends_after lo mid r p e stamped h ascends =
      let known : time_of p.0 ≡ some p.1 = subst (IsStamped time_of) e stamped in
      let times =
        ap (times_of time_of) (gives-some time_of r p e)
        ∙ times_of-some time_of p.0 p.1 (lines_of r.parts_left) known in
      let (first, below) = subst (IsAscending lo) times ascends in
      subst (IsAscending mid) (sym times) (h, below)

  -- A line with its time is printed, and what follows starts from that time.
  ahead_step :
      (lo : ℕ) (p : Text × ℕ) (parts : List Text) (offset : ℕ)
      (end : List Text × (LogReader × LogReader))
      → time_of p.0 ≡ some p.1
      → lo ≤ p.1
      → IsAscending p.1 (ahead end)
      → IsAscending lo (ahead (p.0 ∷ ((advance_log time_of parts offset).1 ++ end.0), end.1))
  unfolding ahead IsAscending
  ahead_step lo p parts offset end known h ascends =
      let times =
        times_of_step time_of p.0 parts offset end.0 ∙ times_of-some time_of p.0 p.1 end.0 known in
      rw times (h, ascends)

  merge_both-ascends :
      (fuel lo : ℕ) (s e : LogReader)
      → weight s + weight e ≤ fuel
      → (s.pending ≡ none → s.parts_left ≡ [])
      → (e.pending ≡ none → e.parts_left ≡ [])
      → IsStamped time_of s.pending
      → IsStamped time_of e.pending
      → IsAscending lo (times_of time_of (gives s))
      → IsAscending lo (times_of time_of (gives e))
      → IsAscending lo (ahead (merge_both time_of fuel s e))
  unfolding IsStamped
  merge_both-ascends zero lo s e h ended_s ended_e stamped_s stamped_e in_s in_e =
      elim (Option-cases s.pending) [
        | inl g ↦ unfold merge_both in ahead_at_once lo s e (inl g) ended_s ended_e in_s in_e
        | inr (p, g) ↦ let heavy = weight-some s p g in absurd (omega arith)
      ]
  merge_both-ascends (suc fuel) lo s e h ended_s ended_e stamped_s stamped_e in_s in_e =
      elim (Option-cases s.pending) [
        | inl g ↦
            rw (merge_both-none time_of fuel s e (inl g))
              (ahead_at_once lo s e (inl g) ended_s ended_e in_s in_e)
        | inr (p, g) ↦ elim (Option-cases e.pending) [
          | inl k ↦
              rw (merge_both-none time_of fuel s e (inr k))
                (ahead_at_once lo s e (inr k) ended_s ended_e in_s in_e)
          | inr (q, k) ↦ elim (Bool-cases (ltb q.1 p.1)) [
            | inl t ↦
                let next = advance_log-IsAdvanced time_of e.parts_left e.offset in
                let timed = advance_log-IsTimed time_of e.parts_left e.offset in
                let lighter = next.lighter in
                let heavy = weight-some e q k in
                let (first, below) = rest_ascends lo e q k stamped_e in_e in
                rw (merge_both_engine time_of fuel s e p q g k t) (
                  ahead_step lo q e.parts_left e.offset
                    (merge_both time_of fuel s (advance_log time_of e.parts_left e.offset).0)
                    (subst (IsStamped time_of) k stamped_e) first
                    (merge_both-ascends fuel q.1 s (advance_log time_of e.parts_left e.offset).0
                      (omega arith) ended_s next.ended stamped_s timed.stamped
                      (ascends_after lo q.1 s p g stamped_s (ground arith) in_s)
                      (subst (IsAscending q.1) (sym timed.given) below)))
            | inr t ↦
                let next = advance_log-IsAdvanced time_of s.parts_left s.offset in
                let timed = advance_log-IsTimed time_of s.parts_left s.offset in
                let lighter = next.lighter in
                let heavy = weight-some s p g in
                let (first, below) = rest_ascends lo s p g stamped_s in_s in
                rw (merge_both_service time_of fuel s e p q g k t) (
                  ahead_step lo p s.parts_left s.offset
                    (merge_both time_of fuel (advance_log time_of s.parts_left s.offset).0 e)
                    (subst (IsStamped time_of) g stamped_s) first
                    (merge_both-ascends fuel p.1 (advance_log time_of s.parts_left s.offset).0 e
                      (omega arith) next.ended ended_e timed.stamped stamped_e
                      (subst (IsAscending p.1) (sym timed.given) below)
                      (ascends_after lo p.1 e q k stamped_e (ground arith) in_e)))
          ]
        ]
      ]

  untimed_first :
      (a b c d e : List Text)
      → times_of time_of a ≡ []
      → times_of time_of b ≡ []
      → times_of time_of (a ++ (b ++ (c ++ (d ++ e))))
        ≡ times_of time_of c ++ (times_of time_of d ++ times_of time_of e)
  untimed_first a b c d e ha hb = simp (times_of-append time_of, ha, hb) refl

  -- If the lines with a time are in order in each log, so are those that MergeLogs prints.
  pub merge_logs-IsAscending :
      (service : Text) (engine : Option Text)
      → IsAscending 0 (times_of time_of (lines_of (split_at 10 service)))
      → IsAscending 0 (times_of time_of (lines_of (parts_of engine)))
      → IsAscending 0 (times_of time_of (merge_logs time_of service engine).0)
  unfolding merge_logs ahead
  merge_logs-IsAscending service engine in_s in_e =
      let first_s = advance_log time_of (split_at 10 service) 0 in
      let first_e = advance_log time_of (parts_of engine) 0 in
      let is_s = advance_log-IsAdvanced time_of (split_at 10 service) 0 in
      let is_e = advance_log-IsAdvanced time_of (parts_of engine) 0 in
      let timed_s = advance_log-IsTimed time_of (split_at 10 service) 0 in
      let timed_e = advance_log-IsTimed time_of (parts_of engine) 0 in
      let fuel = fuel_of first_s.0 + fuel_of first_e.0 in
      let both = merge_both time_of fuel first_s.0 first_e.0 in
      let fits_s = weight-fuel_of time_of first_s.0 in
      let fits_e = weight-fuel_of time_of first_e.0 in
      let merged = merge_both-IsMerged time_of [] fuel first_s.0 first_e.0 is_s.ended is_e.ended in
      let ascends =
        merge_both-ascends fuel 0 first_s.0 first_e.0 (omega arith) is_s.ended is_e.ended
          timed_s.stamped timed_e.stamped (subst (IsAscending 0) (sym timed_s.given) in_s)
          (subst (IsAscending 0) (sym timed_e.given) in_e) in
      let rest_s =
        times_of-drain time_of (fuel_of both.1.0) both.1.0 (weight-fuel_of time_of both.1.0)
          merged.ended_s in
      let rest_e =
        times_of-drain time_of (fuel_of both.1.1) both.1.1 (weight-fuel_of time_of both.1.1)
          merged.ended_e in
      let times =
        untimed_first first_s.1 first_e.1 both.0 (drain time_of (fuel_of both.1.0) both.1.0).0
          (drain time_of (fuel_of both.1.1) both.1.1).0 timed_s.untimed timed_e.untimed in
      subst (IsAscending 0) (sym times) (rw (rest_s, rest_e) ascends)

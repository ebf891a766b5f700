-- ===== src/Loader/IdleCheck.antt =====
-- idleCheckDuration of loader.go: the timer is set for the first eviction that is due.
use model_runner.Common.{
  ℕ, suc, ◌+◌, ◌-◌, ◌*◌, ◌^◌, ◌≤◌, ◌≡◌, refl, ◌∙◌, Bool, true, false, not, ◌||◌, List, [], ◌∷◌,
  some, arith, ◌⊎◌, inl, inr, Bool-cases, ◌==◌, if◌then◌else◌,
}
use model_runner.Common.Int.{ℤ, pos, negsuc, ltb_ℤ, to_int64, ◌+ℤ◌, ◌-ℤ◌}
use model_runner.Common.Assoc.{lookup, lookup_head, lookup_tail, HasDistinctKeys}
use model_runner.Loader.Keys.{RunnerKey, runner_key_eq}
use model_runner.Loader.State.{
  Loader, RunnerInfo, is_done, references_at, timestamp_at, runner_idle_timeout_for, since, second,
}
use model_runner.Loader.Evict.{
  is_evictable, remaining, padded, idle_check_loop, idle_check_duration,
}
use model_runner.Loader.Invariant.{IsValid, AreRegistered}

-- A runner that an idle eviction may remove later: unused, and with a timeout.
pub record IsCandidate (l : Loader) (now : ℕ) (k : RunnerKey) (i : RunnerInfo) : Type 0 where
  pub registered : lookup k l.runners ≡ some i
  pub unused : references_at l i.slot ≡ 0
  pub timed : ltb_ℤ (runner_idle_timeout_for l k) (pos 0) ≡ false

-- What is known of the result: it comes from a candidate whose time is not over.
pub data Due (l : Loader) (now : ℕ) (d : ℤ) : Type 0 where
  due :
      (k : RunnerKey) (i : RunnerInfo)
      → IsCandidate l now k i
      → ltb_ℤ (remaining l now k i) (pos 0) ≡ false
      → padded l now k i ≡ d
      → Due l now d

abbrev pub Outcome : Loader → ℕ → ℤ → Type 0
Outcome l now d = (d ≡ pos 0) ⊎ (d ≡ negsuc (second - 1)) ⊎ Due l now d

abbrev Known : Loader → ℕ → ℤ → Bool → Type 0
Known l now d false = d ≡ negsuc (second - 1)
Known l now d true = Due l now d

Known-Outcome : (l : Loader) (now : ℕ) (d : ℤ) (has : Bool) → Known l now d has → Outcome l now d
Known-Outcome l now d true h = inr (inr h)
Known-Outcome l now d false h = inr (inl h)

better-Known :
    (l : Loader) (now : ℕ) (soonest new : ℤ) (has better : Bool)
    → Known l now soonest has
    → Due l now new
    → Known l now (if better then new else soonest) (if better then true else has)
better-Known l now soonest new has true h d = d
better-Known l now soonest new has false h d = h

idle_check_loop_sound :
    (l : Loader) (now : ℕ) (entries : List (RunnerKey × RunnerInfo)) (soonest : ℤ) (has : Bool)
    → HasDistinctKeys entries
    → AreRegistered entries l
    → Known l now soonest has
    → Outcome l now (idle_check_loop l now entries soonest has)
unfolding idle_check_loop
idle_check_loop_sound l now [] soonest has d reg h = Known-Outcome l now soonest has h
idle_check_loop_sound l now ((r, info) ∷ rest) soonest has d reg h =
    let here = reg r info (lookup_head r info rest) in
    let later : AreRegistered rest l =
      λ k i found. reg k i (lookup_tail r k info i rest d found).0 in
    let skip = idle_check_loop_sound l now rest soonest has d.1 later h in
    elim (Bool-cases (is_done l info.slot)) [
      | inl dead ↦ inl (simp dead)
      | inr alive ↦ elim (Bool-cases (references_at l info.slot == 0)) [
        | inr used ↦ simp (alive, used) skip
        | inl unused ↦ elim (Bool-cases (ltb_ℤ (runner_idle_timeout_for l r) (pos 0))) [
          | inl never ↦ simp (alive, unused, never) skip
          | inr timed ↦ elim (Bool-cases (ltb_ℤ (remaining l now r info) (pos 0))) [
            | inl over ↦ inl (simp (alive, unused, timed, over))
            | inr left ↦
                let better = not has || ltb_ℤ (padded l now r info) soonest in
                simp (alive, unused, timed, left)
                  (idle_check_loop_sound l now rest
                    (if better then padded l now r info else soonest) (if better then true else has)
                    d.1 later
                    (better-Known l now soonest (padded l now r info) has better h (
                      due r info
                        (record { registered = here; unused = ground arith; timed = timed }) left
                        refl)))
          ]
        ]
      ]
    ]

idle_check_sound : (l : Loader) (now : ℕ) → IsValid l → Outcome l now (idle_check_duration l now)
unfolding idle_check_duration
idle_check_sound l now v =
    idle_check_loop_sound l now l.runners (negsuc (second - 1)) false v.keys (λ k i h. h) refl

-- The longest duration of an int64.
abbrev pub max_duration : ℕ
max_duration = 2 ^ 63 - 1

-- When the padded time has passed, the timeout is exceeded.
padded_exceeds :
    (timeout : ℤ) (now t d : ℕ)
    → ltb_ℤ timeout (pos 0) ≡ false
    → ltb_ℤ timeout (pos max_duration) ≡ true
    → t ≤ now
    → ltb_ℤ (to_int64 (timeout -ℤ since now t)) (pos 0) ≡ false
    → to_int64 (to_int64 (timeout -ℤ since now t) +ℤ pos (100 * 1_000_000)) ≡ pos d
    → ltb_ℤ timeout (since (now + d) t) ≡ true
unfolding ◌+ℤ◌ ◌-ℤ◌ to_int64
padded_exceeds (pos n) now t d h short past left e = ground arith
padded_exceeds (negsuc n) now t d h short past left e = absurd (ground arith)

-- On a well-formed loader, with no recorded use in the future and every timeout below the longest
-- duration: if idleCheckDuration gives a positive time, then after that time an idle eviction has
-- a runner to remove.
pub idle_check_wakes :
    (l : Loader) (now d : ℕ)
    → IsValid l
    → ((s : ℕ) → timestamp_at l s ≤ now)
    → ((k : RunnerKey) → ltb_ℤ (runner_idle_timeout_for l k) (pos max_duration) ≡ true)
    → idle_check_duration l now ≡ pos (suc d)
    → (k : RunnerKey) × (i : RunnerInfo) × (lookup k l.runners ≡ some i)
      × (is_evictable l (now + suc d) true k i ≡ true)
unfolding is_evictable padded remaining
idle_check_wakes l now d v past short e = elim (idle_check_sound l now v) [
  | inl zero_time ↦ absurd (ground arith)
  | inr (inl no_time) ↦ absurd (ground arith)
  | inr (inr (due k i c left at)) ↦
      let exceeded =
        padded_exceeds (runner_idle_timeout_for l k) now (timestamp_at l i.slot) (suc d) c.timed
          (short k) (past i.slot) left (at ∙ e) in
      (k, i, c.registered, simp (c.unused, c.timed, exceeded))
]

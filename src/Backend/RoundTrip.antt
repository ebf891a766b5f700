-- ===== src/Backend/RoundTrip.antt =====
-- The texts of backend.go parse to what they print.
use model_runner.Common.{
  ℕ, ◌<◌, ◌^◌, ◌≡◌, ◌⊎◌, ◌↔◌, inl, inr, refl, sym, ◌∙◌, ap, subst, true, false, [], ◌∷◌, Option,
  none, some, arith, Text, codes, text_eq, text_eq_iff, has_prefix, trim_prefix, Occurs, Bool-cases,
  Option-cases,
}
use model_runner.Common.Int.{ℤ, pos, negsuc, ltb_ℤ}
use model_runner.Loader.Keys.{BackendMode, completion, embedding, reranking, image_generation}
use model_runner.Loader.Release.{duration_eq}
use model_runner.Backend.Forms.{
  status_running, status_error, status_not_installed, status_installing, format_status,
  parse_prefixes, status_types, parse_status, mode_string, parse_backend_mode, keep_alive_forever,
  keep_alive_string, parse_keep_alive,
}

parse_running : (d : Text) → parse_status (format_status status_running d) ≡ (status_running, d)
unfolding parse_status parse_prefixes format_status text_eq has_prefix trim_prefix
parse_running [] = refl
parse_running (c ∷ d) = refl

parse_error : (d : Text) → parse_status (format_status status_error d) ≡ (status_error, d)
unfolding parse_status parse_prefixes format_status text_eq has_prefix trim_prefix
parse_error [] = refl
parse_error (c ∷ d) = refl

parse_not_installed :
    (d : Text) → parse_status (format_status status_not_installed d) ≡ (status_not_installed, d)
unfolding parse_status parse_prefixes format_status text_eq has_prefix trim_prefix
parse_not_installed [] = refl
parse_not_installed (c ∷ d) = refl

parse_installing :
    (d : Text) → parse_status (format_status status_installing d) ≡ (status_installing, d)
unfolding parse_status parse_prefixes format_status text_eq has_prefix trim_prefix
parse_installing [] = refl
parse_installing (c ∷ d) = refl

-- ParseStatus gives back the type and the details that FormatStatus was given, for the four types
-- and any details.
pub parse_status-format_status :
    (t d : Text) → Occurs t status_types → parse_status (format_status t d) ≡ (t, d)
parse_status-format_status t d o = elim o [
  | inl e ↦ subst (λ x. parse_status (format_status x d) ≡ (x, d)) e (parse_running d)
  | inr (inl e) ↦ subst (λ x. parse_status (format_status x d) ≡ (x, d)) e (parse_error d)
  | inr (inr (inl e)) ↦
      subst (λ x. parse_status (format_status x d) ≡ (x, d)) e (parse_not_installed d)
  | inr (inr (inr (inl e))) ↦
      subst (λ x. parse_status (format_status x d) ≡ (x, d)) e (parse_installing d)
  | inr (inr (inr (inr none_left))) ↦ elim none_left [ ]
]

parse_mode_string : (m : BackendMode) → parse_backend_mode (mode_string m) ≡ (m, true)
unfolding parse_backend_mode mode_string text_eq
parse_mode_string completion = refl
parse_mode_string embedding = refl
parse_mode_string reranking = refl
parse_mode_string image_generation = refl

named : (s : Text) (m m' : BackendMode) → s ≡ mode_string m → m ≡ m' → s ≡ mode_string m'
named s m m' e q = e ∙ ap mode_string q

parse_known : (s : Text) (m : BackendMode) → parse_backend_mode s ≡ (m, true) → s ≡ mode_string m
unfolding parse_backend_mode
parse_known s m h = elim (Bool-cases (text_eq s (codes "completion"))) [
  | inl e ↦
      named s completion m ((text_eq_iff s (codes "completion")).0 e ∙ unfold mode_string in refl)
        (ground arith)
  | inr a ↦ elim (Bool-cases (text_eq s (codes "embedding"))) [
    | inl e ↦
        named s embedding m ((text_eq_iff s (codes "embedding")).0 e ∙ unfold mode_string in refl)
          (ground arith)
    | inr b ↦ elim (Bool-cases (text_eq s (codes "reranking"))) [
      | inl e ↦
          named s reranking m ((text_eq_iff s (codes "reranking")).0 e ∙ unfold mode_string in refl)
            (ground arith)
      | inr c ↦ elim (Bool-cases (text_eq s (codes "image-generation"))) [
        | inl e ↦
            named s image_generation m
              ((text_eq_iff s (codes "image-generation")).0 e ∙ unfold mode_string in refl)
              (ground arith)
        | inr d ↦ absurd (ground arith)
      ]
    ]
  ]
]

-- ParseBackendMode knows exactly the names that String gives the modes.
pub parse_backend_mode_iff :
    (s : Text) (m : BackendMode) → (parse_backend_mode s ≡ (m, true)) ↔ (s ≡ mode_string m)
parse_backend_mode_iff s m =
    (λ h. parse_known s m h, λ e. ap parse_backend_mode e ∙ parse_mode_string m)

-- What the code relies on of Go's durations, which have 64 bits: a duration that is not negative
-- parses to what was printed, and what parses has 64 bits; "0", and a number without unit.
pub record DurationLaws (duration_string : ℤ → Text) (parse_duration : Text → Option ℤ)
    : Type 0 where
  pub parses : (n : ℕ) → n < 2 ^ 63 → parse_duration (duration_string (pos n)) ≡ some (pos n)
  pub bounded : (s : Text) (n : ℕ) → parse_duration s ≡ some (pos n) → n < 2 ^ 63
  pub zero_text : parse_duration (codes "0") ≡ some (pos 0)
  pub no_unit : parse_duration (codes "-1") ≡ none

IsNormal : ℤ → Type 0
IsNormal d = (ltb_ℤ d (pos 0) ≡ false) ⊎ (d ≡ keep_alive_forever)

parse_forever :
    (parse_duration : Text → Option ℤ)
    → parse_keep_alive parse_duration (codes "-1") ≡ some keep_alive_forever
unfolding parse_keep_alive text_eq
parse_forever parse_duration = refl

duration_eq-forever : (d : ℤ) → ltb_ℤ d (pos 0) ≡ false → duration_eq d keep_alive_forever ≡ false
unfolding duration_eq
duration_eq-forever (pos n) h = refl
duration_eq-forever (negsuc n) h = absurd (ground arith)

parse_printed :
    (duration_string : ℤ → Text) (parse_duration : Text → Option ℤ) (n : ℕ)
    → DurationLaws duration_string parse_duration
    → n < 2 ^ 63
    → parse_keep_alive parse_duration (duration_string (pos n)) ≡ some (pos n)
unfolding parse_keep_alive
parse_printed duration_string parse_duration n laws fits =
    let t = duration_string (pos n) in
    let parsed = laws.parses n fits in
    elim (Bool-cases (text_eq t (codes "0"))) [
      | inl none_left ↦
          let same = (text_eq_iff t (codes "0")).0 none_left in
          let value : some (pos 0) ≡ some (pos n) =
            sym laws.zero_text ∙ ap parse_duration (sym same) ∙ parsed in
          simp none_left value
      | inr a ↦ elim (Bool-cases (text_eq t (codes "-1"))) [
        | inl minus ↦
            let same = (text_eq_iff t (codes "-1")).0 minus in
            let value : none ≡ some (pos n) =
              sym laws.no_unit ∙ ap parse_duration (sym same) ∙ parsed in
            absurd (ground arith)
        | inr b ↦
            let sign : ltb_ℤ (pos n) (pos 0) ≡ false = ground arith in
            simp (a, b) (rw (parsed, parse_keep_alive) (simp sign refl))
      ]
    ]

normal_again :
    (duration_string : ℤ → Text) (parse_duration : Text → Option ℤ) (d : ℤ)
    → DurationLaws duration_string parse_duration
    → ((n : ℕ) → d ≡ pos n → n < 2 ^ 63)
    → IsNormal d
    → parse_keep_alive parse_duration (keep_alive_string duration_string d) ≡ some d
unfolding IsNormal keep_alive_string
normal_again duration_string parse_duration (pos n) laws fits (inl h) =
    simp (duration_eq-forever (pos n) h)
      (parse_printed duration_string parse_duration n laws (fits n refl))
normal_again duration_string parse_duration (negsuc n) laws fits (inl h) = absurd (ground arith)
normal_again duration_string parse_duration d laws fits (inr e) =
    subst (λ x. parse_keep_alive parse_duration (keep_alive_string duration_string x) ≡ some x)
      (sym e) (unfold duration_eq in parse_forever parse_duration)

-- A keep-alive has 64 bits, as what it was parsed from.
parse_keep_alive-bounded :
    (duration_string : ℤ → Text) (parse_duration : Text → Option ℤ) (s : Text) (d : ℤ)
    → DurationLaws duration_string parse_duration
    → parse_keep_alive parse_duration s ≡ some d
    → (n : ℕ) → d ≡ pos n
    → n < 2 ^ 63
unfolding parse_keep_alive
parse_keep_alive-bounded duration_string parse_duration s d laws h n same =
    elim (Bool-cases (text_eq s (codes "0"))) [
      | inl zero_text ↦
          let e : pos 0 ≡ pos n = (let f : pos 0 ≡ d = ground arith in f ∙ same) in ground arith
      | inr a ↦ elim (Bool-cases (text_eq s (codes "-1"))) [
        | inl minus ↦ absurd (ground arith)
        | inr b ↦ elim (Option-cases (parse_duration s)) [
          | inl bad ↦ absurd (ground arith)
          | inr (x, good) ↦ elim (Bool-cases (ltb_ℤ x (pos 0))) [
            | inl negative ↦ absurd (ground arith)
            | inr fine ↦
                let e : x ≡ d = ground arith in laws.bounded s n (good ∙ ap some (e ∙ same))
          ]
        ]
      ]
    ]

parse-IsNormal :
    (parse_duration : Text → Option ℤ) (s : Text) (d : ℤ)
    → parse_keep_alive parse_duration s ≡ some d
    → IsNormal d
unfolding parse_keep_alive IsNormal
parse-IsNormal parse_duration s d h = elim (Bool-cases (text_eq s (codes "0"))) [
  | inl zero_text ↦ inl (let e : pos 0 ≡ d = ground arith in ap (λ x. ltb_ℤ x (pos 0)) (sym e))
  | inr a ↦ elim (Bool-cases (text_eq s (codes "-1"))) [
    | inl minus ↦ inr (let e : keep_alive_forever ≡ d = ground arith in sym e)
    | inr b ↦ elim (Option-cases (parse_duration s)) [
      | inl bad ↦ absurd (ground arith)
      | inr (x, good) ↦ elim (Bool-cases (ltb_ℤ x (pos 0))) [
        | inl negative ↦ inr (let e : keep_alive_forever ≡ d = ground arith in sym e)
        | inr fine ↦ inl (let e : x ≡ d = ground arith in ap (λ y. ltb_ℤ y (pos 0)) (sym e) ∙ fine)
      ]
    ]
  ]
]

-- Under the laws of Go's durations, which have 64 bits, a keep-alive that ParseKeepAlive gives is
-- at least 0 or stands for forever, and what is written for it in JSON parses to it again.
pub parse_keep_alive_again :
    (duration_string : ℤ → Text) (parse_duration : Text → Option ℤ) (s : Text) (d : ℤ)
    → DurationLaws duration_string parse_duration
    → parse_keep_alive parse_duration s ≡ some d
    → ((ltb_ℤ d (pos 0) ≡ false) ⊎ (d ≡ keep_alive_forever))
      × (parse_keep_alive parse_duration (keep_alive_string duration_string d) ≡ some d)
parse_keep_alive_again duration_string parse_duration s d laws h =
    let normal = parse-IsNormal parse_duration s d h in
    (
      unfold IsNormal in normal,
      normal_again duration_string parse_duration d laws
          (parse_keep_alive-bounded duration_string parse_duration s d laws h) normal,
    )

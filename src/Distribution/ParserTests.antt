-- ===== src/Distribution/ParserTests.antt =====
-- A parser that keeps the laws of the library's parser, and the theorem on references at it.
use model_runner.Common.{
  ◌≡◌, ◌⊎◌, ◌||◌, inl, inr, refl, sym, ap, subst, ◌∷◌, ◌++◌, Option, none, some, arith, Text, codes,
  text_eq, has_prefix, index_of, contains, trim_prefix, Bool-cases, if◌then◌else◌,
}
use model_runner.Common.Pigeonhole.{mem}
use model_runner.Distribution.Reference.{
  Named, tagged, tag_string, parse_reference, new_tag, of_named, default_tag, has_explicit_registry,
  has_explicit_org, choose_domain, choose_path, default_options,
}
use model_runner.Distribution.Normal.{NamedLaws, IsDomain, parse_reference-tag_string}
use model_runner.Distribution.Tests.{options, tag_m}

abbrev docker_name : Text → Option Text → Named
docker_name path tag = record { domain = codes "docker.io"; path = path; tag = tag; digest = none }

-- A parser that knows a short name and two full ones.
abbrev three_names : Text → Option Named
three_names s =
    if text_eq s (codes "m")
    then some (docker_name (codes "library/m") none)
    else if text_eq s (codes "docker.io/library/m:latest")
    then some (docker_name (codes "library/m") (some (codes "latest")))
    else if text_eq s (codes "docker.io/ai/m:latest")
    then some (docker_name (codes "ai/m") (some (codes "latest")))
    else none

-- What a name that the parser gives is like.
record IsKnown (n : Named) : Type 0 where
  pub domain : n.domain ≡ codes "docker.io"
  pub path : (n.path ≡ codes "library/m") ⊎ (n.path ≡ codes "ai/m")
  pub tag : (n.tag ≡ none) ⊎ (n.tag ≡ some (codes "latest"))

same-IsKnown : (n n' : Named) → IsKnown n → some n ≡ some n' → IsKnown n'
same-IsKnown n n' k e = let same : n ≡ n' = ground arith in subst IsKnown same k

three_names-IsKnown : (s : Text) (n : Named) → three_names s ≡ some n → IsKnown n
three_names-IsKnown s n h = elim (Bool-cases (text_eq s (codes "m"))) [
  | inl e ↦
      same-IsKnown _ n (record { domain = refl; path = inl refl; tag = inl refl }) (simp e at h)
  | inr e ↦ elim (Bool-cases (text_eq s (codes "docker.io/library/m:latest"))) [
    | inl f ↦
        same-IsKnown _ n (record { domain = refl; path = inl refl; tag = inr refl })
          (simp (e, f) at h)
    | inr f ↦ elim (Bool-cases (text_eq s (codes "docker.io/ai/m:latest"))) [
      | inl g ↦
          same-IsKnown _ n (record { domain = refl; path = inr refl; tag = inr refl })
            (simp (e, f, g) at h)
      | inr g ↦ absurd (ground arith)
    ]
  ]
]

latest_only :
    (n : Named) (tag : Text)
    → IsKnown n
    → (n.tag ≡ some tag) ⊎ (tag ≡ default_tag)
    → tag ≡ codes "latest"
latest_only n tag k (inr e) = e
latest_only n tag k (inl e) = elim k.tag [ inl f ↦ absurd (ground arith) | inr f ↦ ground arith ]

FullName : Text → Text → Text → Type 0
FullName domain path tag =
    three_names (domain ++ 47 ∷ (path ++ 58 ∷ tag))
    ≡ some (record { domain = domain; path = path; tag = some tag; digest = none })

known_full :
    (path : Text)
    → (path ≡ codes "library/m") ⊎ (path ≡ codes "ai/m")
    → FullName (codes "docker.io") path (codes "latest")
unfolding FullName text_eq
known_full path (inl e) = subst (λ p. FullName (codes "docker.io") p (codes "latest")) (sym e) refl
known_full path (inr e) = subst (λ p. FullName (codes "docker.io") p (codes "latest")) (sym e) refl

three_names-full :
    (s s' : Text) (n n' : Named) (tag : Text)
    → three_names s ≡ some n
    → three_names s' ≡ some n'
    → (n.tag ≡ some tag) ⊎ (tag ≡ default_tag)
    → FullName n'.domain n'.path tag
three_names-full s s' n n' tag e e' which =
    let k' = three_names-IsKnown s' n' e' in
    subst (λ t. FullName n'.domain n'.path t)
      (sym (latest_only n tag (three_names-IsKnown s n e) which))
      (subst (λ d. FullName d n'.path (codes "latest")) (sym k'.domain)
        (known_full n'.path k'.path))

docker-IsDomain : IsDomain (codes "docker.io")
unfolding mem
docker-IsDomain = (refl, omega arith)

three_names-NamedLaws : NamedLaws three_names
unfolding FullName contains index_of has_prefix
three_names-NamedLaws = record {
  domain = λ s n e. subst IsDomain (sym (three_names-IsKnown s n e).domain) docker-IsDomain;
  written_out = λ s n e h.
      ap (λ d. contains (codes ".") d || contains (codes ":") d) (three_names-IsKnown s n e).domain;
  full_name = three_names-full;
}

parse_m : new_tag three_names options (codes "m") ≡ some tag_m
unfolding new_tag parse_reference of_named choose_domain choose_path has_explicit_registry
    has_explicit_org default_options has_prefix index_of contains trim_prefix text_eq
parse_m = refl

parse_reference-tag_string_example :
    parse_reference three_names options (tag_string tag_m) ≡ some (tagged tag_m)
unfolding text_eq
parse_reference-tag_string_example =
    parse_reference-tag_string three_names options three_names-NamedLaws (codes "m")
      (codes "docker.io/ai/m:latest") tag_m (docker_name (codes "ai/m") (some (codes "latest")))
      parse_m refl refl refl

-- ===== src/Distribution/Normal.antt =====
-- The normal form of references: what ParseReference of reference.go gives prints to a text that
-- it parses to the same.
use model_runner.Common.{
  ℕ, ◌+◌, ◌<◌, ◌≡◌, ◌⊎◌, inl, inr, refl, sym, ◌∙◌, ap, subst, Bool, true, false, ◌||◌, [], ◌∷◌,
  ◌++◌, Option, none, some, arith, Text, codes, text_eq, has_prefix, index_of, contains, ltb,
  if◌then◌else◌, length, take, drop, take-append, drop-append_past, append_assoc, Bool-cases,
  Option-cases,
}
use model_runner.Common.Pigeonhole.{mem, mem-append_left}
use model_runner.Common.Bytes.{index_of-parts, contains-mem}
use model_runner.Distribution.Reference.{
  Named, Options, tagged, Tag, tag_string, default_registry, default_tag, has_explicit_registry,
  has_explicit_org, choose_domain, choose_path, of_named, parse_reference, new_tag,
}

-- A text is a domain before its first slash.
abbrev pub IsDomain : Text → Type 0
IsDomain d = (mem 47 d ≡ false) × (0 < length d)

abbrev pub is_dotted : Text → Bool
is_dotted d = contains (codes ".") d || contains (codes ":") d

-- What the distribution/reference library documents of its parser: a domain has no slash and is
-- not empty; a registry that is written out is the domain; and the domain and the path of a parsed
-- name, printed with the tag of a parsed name or the default tag, parse to the same parts.
pub record NamedLaws (parse_named : Text → Option Named) : Type 0 where
  pub domain : (s : Text) (n : Named) → parse_named s ≡ some n → IsDomain n.domain
  pub written_out :
      (s : Text) (n : Named)
      → parse_named s ≡ some n
      → has_explicit_registry s ≡ true
      → is_dotted n.domain ≡ true
  pub full_name :
      (s s' : Text) (n n' : Named) (tag : Text)
      → parse_named s ≡ some n
      → parse_named s' ≡ some n'
      → (n.tag ≡ some tag) ⊎ (tag ≡ default_tag)
      → parse_named (n'.domain ++ 47 ∷ (n'.path ++ 58 ∷ tag))
        ≡ some (record { domain = n'.domain; path = n'.path; tag = some tag; digest = none })

-- The slash after a domain is the first.
slash_after : (d rest : Text) → IsDomain d → index_of (codes "/") (d ++ 47 ∷ rest) ≡ some (length d)
slash_after d rest h = index_of-parts 47 d rest h.0

explicit_of : (d rest : Text) → IsDomain d → has_explicit_registry (d ++ 47 ∷ rest) ≡ is_dotted d
unfolding has_explicit_registry
explicit_of d rest h =
    let first : take (length d) (d ++ 47 ∷ rest) ≡ d = take-append d (47 ∷ rest) in
    let filled : ltb 0 (length d) ≡ true = let lt = h.1 in ground arith in
    rw (slash_after d rest h, has_explicit_registry) (simp filled (ap is_dotted first))

if_or_true : (b c : Bool) → c ≡ true → (if b then c else true) ≡ true
if_or_true true c h = h
if_or_true false c h = refl

-- A second slash shows an organisation.
org_of :
    (d rest : Text) → IsDomain d → mem 47 rest ≡ true → has_explicit_org (d ++ 47 ∷ rest) ≡ true
unfolding has_explicit_org
org_of d rest h slash =
    let after : drop (length d + 1) (d ++ 47 ∷ rest) ≡ rest = drop-append_past d 47 rest in
    let filled : ltb 0 (length d) ≡ true = let lt = h.1 in ground arith in
    let there : contains (codes "/") (drop (length d + 1) (d ++ 47 ∷ rest)) ≡ true =
      contains-mem 47 (drop (length d + 1) (d ++ 47 ∷ rest)) ∙ ap (mem 47) after ∙ slash in
    rw (slash_after d rest h, has_explicit_org) (simp filled (if_or_true _ _ there))

mem-has_prefix : (c : ℕ) (p s : Text) → has_prefix p s ≡ true → mem c p ≡ true → mem c s ≡ true
unfolding has_prefix mem
mem-has_prefix c [] s h m = absurd (ground arith)
mem-has_prefix c (x ∷ p) [] h m = absurd (ground arith)
mem-has_prefix c (x ∷ p) (y ∷ s) h m = let ih = mem-has_prefix c p s in ground arith

library_slash : mem 47 (codes "library/") ≡ true
unfolding mem
library_slash = refl

choose_domain-cases :
    (o : Options) (s : Text) (n : Named)
    → ((choose_domain o s n ≡ o.default_registry_option)
        × (has_explicit_registry s ≡ false)
        × (text_eq o.default_registry_option default_registry ≡ false))
      ⊎ ((choose_domain o s n ≡ n.domain)
          × ((has_explicit_registry s ≡ true)
              ⊎ (text_eq o.default_registry_option default_registry ≡ true)))
unfolding choose_domain
choose_domain-cases o s n = elim (Bool-cases (has_explicit_registry s)) [
  | inl e ↦ inr (simp e refl, inl e)
  | inr e ↦ elim (Bool-cases (text_eq o.default_registry_option default_registry)) [
    | inl usual ↦ inr (simp (e, usual) refl, inr usual)
    | inr custom ↦ inl (simp (e, custom) refl, e, custom)
  ]
]

module _ (parse_named : Text → Option Named) (o : Options) (laws : NamedLaws parse_named) where
  -- The domain that was chosen is chosen again.
  domain_again :
      (s rest : Text) (n n' : Named)
      → parse_named s ≡ some n
      → IsDomain (choose_domain o s n)
      → n'.domain ≡ choose_domain o s n
      → choose_domain o (choose_domain o s n ++ 47 ∷ rest) n' ≡ choose_domain o s n
  domain_again s rest n n' e is_domain same =
      let d = choose_domain o s n in
      let explicit = explicit_of d rest is_domain in
      elim (choose_domain-cases o (d ++ 47 ∷ rest) n') [
        | inr c ↦ c.0 ∙ same
        | inl c ↦ elim (choose_domain-cases o s n) [
          | inl first ↦ c.0 ∙ sym first.0
          | inr first ↦ elim first.1 [
            | inr usual ↦ absurd (let custom = c.2 in ground arith)
            | inl written ↦
                let dotted : is_dotted d ≡ true =
                  ap is_dotted first.0 ∙ laws.written_out s n e written in
                absurd (let plain = sym explicit ∙ c.1 in ground arith)
          ]
        ]
      ]

  -- The path that was chosen is chosen again.
  path_again :
      (d p tag : Text) (n' : Named)
      → IsDomain d
      → n'.path ≡ p
      → choose_path o (d ++ 47 ∷ (p ++ 58 ∷ tag)) n' ≡ p
  unfolding choose_path
  path_again d p tag n' domain same = elim (Bool-cases (has_prefix (codes "library/") n'.path)) [
    | inr other ↦ ground arith
    | inl library ↦
        let there : has_prefix (codes "library/") p ≡ true =
          ap (has_prefix (codes "library/")) (sym same) ∙ library in
        let slash =
          mem-append_left 47 p (58 ∷ tag)
            (mem-has_prefix 47 (codes "library/") p there library_slash) in
        let org = org_of d (p ++ 58 ∷ tag) domain slash in ground arith
  ]

  parse_reference_of :
      (x : Text) (n : Named)
      → parse_named x ≡ some n
      → parse_reference parse_named o x ≡ some (of_named o x n)
  unfolding parse_reference
  parse_reference_of x n e = ground arith

  of_named_tagged :
      (x tag : Text) (n : Named)
      → n.tag ≡ some tag
      → of_named o x n
        ≡ tagged (record {
          registry = record { registry = choose_domain o x n; insecure = o.insecure };
          repository = choose_path o x n;
          tag = tag;
        })
  unfolding of_named choose_domain choose_path
  of_named_tagged x tag n e = rw (e, of_named) refl

  abbrev made_tag : Text → Text → Text → Tag
  made_tag d p tag = record {
    registry = record { registry = d; insecure = o.insecure };
    repository = p;
    tag = tag;
  }

  joined : (d p t : Text) → d ++ codes "/" ++ p ++ codes ":" ++ t ≡ d ++ 47 ∷ (p ++ 58 ∷ t)
  joined d p t =
      append_assoc (d ++ codes "/" ++ p) (codes ":") t
      ∙ append_assoc (d ++ codes "/") p (58 ∷ t)
      ∙ append_assoc d (codes "/") (p ++ 58 ∷ t)

  -- The chosen domain and path are those of a name.
  tag_again :
      (s s' tag : Text) (n m : Named)
      → parse_named s ≡ some n
      → parse_named s' ≡ some m
      → m.domain ≡ choose_domain o s n
      → m.path ≡ choose_path o s n
      → (n.tag ≡ some tag) ⊎ (tag ≡ default_tag)
      → let t = made_tag (choose_domain o s n) (choose_path o s n) tag in
        parse_reference parse_named o (tag_string t) ≡ some (tagged t)
  unfolding tag_string
  tag_again s s' tag n m e e' same_domain same_path which =
      let d = choose_domain o s n in
      let p = choose_path o s n in
      let x = d ++ 47 ∷ (p ++ 58 ∷ tag) in
      let n' : Named = record { domain = d; path = p; tag = some tag; digest = none } in
      let printed : tag_string (made_tag d p tag) ≡ x = joined d p tag in
      let is_domain : IsDomain d = subst IsDomain same_domain (laws.domain s' m e') in
      let parsed : parse_named x ≡ some n' =
        subst
          (λ y.
            parse_named (d ++ 47 ∷ (y ++ 58 ∷ tag))
            ≡ some (record { domain = d; path = y; tag = some tag; digest = none }))
          same_path
          (subst
            (λ z.
              parse_named (z ++ 47 ∷ (m.path ++ 58 ∷ tag))
              ≡ some (record { domain = z; path = m.path; tag = some tag; digest = none }))
            same_domain (laws.full_name s s' n m tag e e' which)) in
      ap (parse_reference parse_named o) printed
      ∙ parse_reference_of x n' parsed
      ∙ ap some (of_named_tagged x tag n' refl)
      ∙ ap (λ y. some (tagged (made_tag y (choose_path o x n') tag)))
          (domain_again s (p ++ 58 ∷ tag) n n' e is_domain refl)
      ∙ ap (λ y. some (tagged (made_tag d y tag))) (path_again d p tag n' is_domain refl)

  -- A tag that was parsed comes from the parts of the name.
  new_tag_parts :
      (s : Text) (t : Tag)
      → new_tag parse_named o s ≡ some t
      → (n : Named) × (tag : Text) × (parse_named s ≡ some n)
        × ((n.tag ≡ some tag) ⊎ (tag ≡ default_tag))
        × (made_tag (choose_domain o s n) (choose_path o s n) tag ≡ t)
  unfolding new_tag parse_reference of_named
  new_tag_parts s t h = elim (Option-cases (parse_named s)) [
    | inl e ↦ absurd (ground arith)
    | inr (n, e) ↦ elim (Option-cases n.tag) [
      | inr (tag, f) ↦ (n, tag, e, inl f, ground arith)
      | inl f ↦ elim (Option-cases n.digest) [
        | inr (d, g) ↦ absurd (ground arith)
        | inl g ↦ (n, default_tag, e, inr refl, ground arith)
      ]
    ]
  ]

  -- Under the documented laws of the reference parser, the string of a tag that NewTag gave parses
  -- to the same tag again, if the registry and the repository of the tag are the domain and the
  -- path of a name that the parser gives.
  pub parse_reference-tag_string :
      (s s' : Text) (t : Tag) (m : Named)
      → new_tag parse_named o s ≡ some t
      → parse_named s' ≡ some m
      → m.domain ≡ t.registry.registry
      → m.path ≡ t.repository
      → parse_reference parse_named o (tag_string t) ≡ some (tagged t)
  parse_reference-tag_string s s' t m h e' domain path =
      let (n, tag, e, which, same) = new_tag_parts s t h in
      subst (λ x. parse_reference parse_named o (tag_string x) ≡ some (tagged x)) same
        (tag_again s s' tag n m e e' (domain ∙ ap (λ (x : Tag). x.registry.registry) (sym same))
          (path ∙ ap (λ (x : Tag). x.repository) (sym same)) which)

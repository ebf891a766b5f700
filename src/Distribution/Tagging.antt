-- ===== src/Distribution/Tagging.antt =====
-- What Index.Tag and Index.UnTag of index.go do to the holders of a tag.
use model_runner.Common.{
  ◌≡◌, ◌≢◌, inl, inr, refl, sym, ◌∙◌, ap, Bool, true, false, List, [], ◌∷◌, ◌++◌, Option, none,
  some, arith, Text, text_eq, text_eq_iff, text_eq_refl, if◌then◌else◌, Bool-cases, Option-cases,
}
use model_runner.Distribution.Reference.{
  Named, Options, Reference, Tag, tag_string, reference_string, parse_reference, new_tag,
}
use model_runner.Distribution.Index.{
  IndexEntry, ok, names, any_names, has_tag_ref, matches_reference, tag_entry, other_tags,
  untag_entry, retag, bare_tag, tag_index,
}

module _ (parse_named : Text → Option Named) (o : Options) where
  -- The string of a tag, as it is stored, parses back to the tag.
  abbrev pub IsCanonical : Tag → Type 0
  IsCanonical t = names parse_named o (tag_string t) (tag_string t) ≡ true

  any_names-append :
      (r : Text) (ts : List Text) (t : Text)
      → any_names parse_named o r (ts ++ t ∷ [])
        ≡ (if any_names parse_named o r ts then true else names parse_named o r t)
  unfolding any_names
  any_names-append r [] t = ground arith
  any_names-append r (x ∷ ts) t = ground (arith, any_names-append r ts t)

  pub tag_entry-has_tag :
      (e : IndexEntry) (t : Tag)
      → IsCanonical t
      → has_tag_ref parse_named o (tag_entry parse_named o e t) t ≡ true
  unfolding tag_entry has_tag_ref
  tag_entry-has_tag e t c = elim (Bool-cases (any_names parse_named o (tag_string t) e.tags)) [
    | inl has ↦ simp has refl
    | inr not_yet ↦
        simp not_yet (any_names-append (tag_string t) e.tags (tag_string t) ∙ ground arith)
  ]

  other_tags_step :
      (r x : Text) (ts : List Text)
      → other_tags parse_named o r (x ∷ ts) ≡ elim (parse_reference parse_named o x) [
        | none ↦ other_tags parse_named o r ts
        | some tr ↦
            if text_eq (reference_string tr) r
            then other_tags parse_named o r ts
            else x ∷ other_tags parse_named o r ts
      ]
  unfolding other_tags
  other_tags_step r x ts = refl

  names_found :
      (q x : Text) (tr : Reference)
      → parse_reference parse_named o x ≡ some tr
      → names parse_named o q x ≡ text_eq (reference_string tr) q
  unfolding names
  names_found q x tr good = ground arith

  any_names_if :
      (q x : Text) (b : Bool) (ts : List Text)
      → any_names parse_named o q (if b then ts else x ∷ ts) ≡ (
          if b
          then any_names parse_named o q ts
          else if names parse_named o q x
          then true
          else any_names parse_named o q ts)
  unfolding any_names
  any_names_if q x true ts = refl
  any_names_if q x false ts = refl

  -- Taking a reference away takes it from its holder, and no other.
  pub any_names-other_tags :
      (r q : Text) (ts : List Text)
      → any_names parse_named o q (other_tags parse_named o r ts)
        ≡ (if text_eq r q then false else any_names parse_named o q ts)
  unfolding any_names
  any_names-other_tags r q [] = unfold other_tags in ground arith
  any_names-other_tags r q (x ∷ ts) =
      let ih = any_names-other_tags r q ts in
      let iff = text_eq_iff r q in
      elim (Option-cases (parse_reference parse_named o x)) [
        | inl bad ↦
            let gone : other_tags parse_named o r (x ∷ ts) ≡ other_tags parse_named o r ts =
              ground (arith, other_tags_step r x ts) in
            let unnamed : names parse_named o q x ≡ false = unfold names in ground arith in
            ap (any_names parse_named o q) gone ∙ ground arith
        | inr (tr, good) ↦
            let at = text_eq_iff (reference_string tr) r in
            let here = text_eq_iff (reference_string tr) q in
            let left = other_tags parse_named o r ts in
            let step : other_tags parse_named o r (x ∷ ts)
                ≡ (if text_eq (reference_string tr) r then left else x ∷ left) =
              ground (arith, other_tags_step r x ts) in
            ap (any_names parse_named o q) step
            ∙ any_names_if q x (text_eq (reference_string tr) r) left
            ∙ ground (arith, names_found q x tr good)
      ]

  -- No entry holds a tag that was taken away, and every entry holds what it held of other tags.
  pub untag_entry-has_tag :
      (e : IndexEntry) (t s : Tag)
      → has_tag_ref parse_named o (untag_entry parse_named o e t) s
        ≡ (if text_eq (tag_string t) (tag_string s) then false else has_tag_ref parse_named o e s)
  unfolding has_tag_ref untag_entry
  untag_entry-has_tag e t s = any_names-other_tags (tag_string t) (tag_string s) e.tags

  -- What Index.Tag makes of one entry.
  abbrev pub retagged : Text → Tag → IndexEntry → IndexEntry
  retagged ref t e =
      if matches_reference parse_named o e ref
      then tag_entry parse_named o e t
      else untag_entry parse_named o e t

  pub any_matches : Text → List IndexEntry → Bool
  any_matches ref [] = false
  any_matches ref (e ∷ es) =
      if matches_reference parse_named o e ref then true else any_matches ref es

  abbrev pub map_entries : (IndexEntry → IndexEntry) → List IndexEntry → List IndexEntry
  map_entries f [] = []
  map_entries f (e ∷ es) = f e ∷ map_entries f es

  retag_map :
      (ref : Text) (t : Tag) (es : List IndexEntry)
      → (retag parse_named o ref t es).0 ≡ map_entries (retagged ref t) es
  unfolding retag
  retag_map ref t [] = refl
  retag_map ref t (e ∷ es) =
      let ih = retag_map ref t es in
      elim (Bool-cases (matches_reference parse_named o e ref)) [
        | inl hit ↦ simp hit (ap (λ xs. tag_entry parse_named o e t ∷ xs) ih)
        | inr miss ↦ simp miss (ap (λ xs. untag_entry parse_named o e t ∷ xs) ih)
      ]

  retag_any :
      (ref : Text) (t : Tag) (es : List IndexEntry)
      → (retag parse_named o ref t es).1 ≡ any_matches ref es
  unfolding retag any_matches
  retag_any ref t [] = refl
  retag_any ref t (e ∷ es) = ground (arith, retag_any ref t es)

  retagged_self :
      (ref : Text) (t : Tag) (m : IndexEntry)
      → IsCanonical t
      → has_tag_ref parse_named o (retagged ref t m) t ≡ matches_reference parse_named o m ref
  retagged_self ref t m c = elim (Bool-cases (matches_reference parse_named o m ref)) [
    | inl hit ↦ simp hit (tag_entry-has_tag m t c)
    | inr miss ↦ simp miss (untag_entry-has_tag m t t ∙ ground (arith, text_eq_refl (tag_string t)))
  ]

  canonical_names :
      (t : Tag) (q : Text)
      → IsCanonical t
      → names parse_named o q (tag_string t) ≡ text_eq (tag_string t) q
  unfolding names
  canonical_names t q c = elim (Option-cases (parse_reference parse_named o (tag_string t))) [
    | inl bad ↦ absurd (ground arith)
    | inr (tr, good) ↦
        let same = text_eq_iff (reference_string tr) (tag_string t) in
        let e : reference_string tr ≡ tag_string t = same.0 (ground arith) in
        rw (good, names) (ap (λ x. text_eq x q) e)
  ]

  tag_entry-has_other :
      (e : IndexEntry) (t s : Tag)
      → IsCanonical t
      → tag_string t ≢ tag_string s
      → has_tag_ref parse_named o (tag_entry parse_named o e t) s ≡ has_tag_ref parse_named o e s
  unfolding tag_entry has_tag_ref
  tag_entry-has_other e t s c other =
      let away : text_eq (tag_string t) (tag_string s) ≡ false =
        ground (arith, text_eq_iff (tag_string t) (tag_string s)) in
      elim (Bool-cases (any_names parse_named o (tag_string t) e.tags)) [
        | inl has ↦ simp has refl
        | inr not_yet ↦ simp not_yet (
            any_names-append (tag_string s) e.tags (tag_string t)
            ∙ ground (arith, canonical_names t (tag_string s) c))
      ]

  retagged-other :
      (ref : Text) (t s : Tag) (m : IndexEntry)
      → IsCanonical t
      → tag_string t ≢ tag_string s
      → has_tag_ref parse_named o (retagged ref t m) s ≡ has_tag_ref parse_named o m s
  retagged-other ref t s m c other = elim (Bool-cases (matches_reference parse_named o m ref)) [
    | inl hit ↦ simp hit (tag_entry-has_other m t s c other)
    | inr miss ↦
        simp miss
          (untag_entry-has_tag m t s ∙ ground (arith, text_eq_iff (tag_string t) (tag_string s)))
  ]

  -- What a tagging does to the models, each in its place.
  pub record IsTagging (ref : Text) (t : Tag) (models models' : List IndexEntry) : Type 0 where
    pub places : models' ≡ map_entries (retagged ref t) models
    pub matched : any_matches ref models ≡ true
    pub held :
        (m : IndexEntry)
        → has_tag_ref parse_named o (retagged ref t m) t ≡ matches_reference parse_named o m ref
    pub others :
        (m : IndexEntry) (s : Tag)
        → tag_string t ≢ tag_string s
        → has_tag_ref parse_named o (retagged ref t m) s ≡ has_tag_ref parse_named o m s

  -- When Index.Tag succeeds with a tag whose string parses back to it, exactly the models that
  -- matched the reference hold the tag, of which there is one at least, and other tags stay with
  -- their models.
  pub tag_index-IsTagging :
      (models models' : List IndexEntry) (ref tag : Text) (t : Tag)
      → text_eq (bare_tag ref tag) [] ≡ false
      → new_tag parse_named o (bare_tag ref tag) ≡ some t
      → IsCanonical t
      → tag_index parse_named o models ref tag ≡ ok models'
      → IsTagging ref t models models'
  unfolding tag_index
  tag_index-IsTagging models models' ref tag t filled parsed c h =
      elim (Bool-cases (retag parse_named o ref t models).1) [
        | inr nothing ↦ absurd (ground arith)
        | inl some_hit ↦
            let same : (retag parse_named o ref t models).0 ≡ models' = ground arith in
            record {
              places = sym same ∙ retag_map ref t models;
              matched = sym (retag_any ref t models) ∙ some_hit;
              held = λ m. retagged_self ref t m c;
              others = λ m s other. retagged-other ref t s m c other;
            }
      ]

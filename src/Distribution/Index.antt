-- ===== src/Distribution/Index.antt =====
-- pkg/distribution/internal/store/index.go: the index of the store as a value. `parse_named` is
-- the parser of the distribution/reference library and `o` the default options.
use model_runner.Common.{
  Bool, true, false, List, [], ◌∷◌, ◌++◌, Option, none, some, Text, codes, text_eq, index_of,
  trim_prefix, if◌then◌else◌, take,
}
use model_runner.Common.Strings.{trim_space}
use model_runner.Distribution.Reference.{
  Named, Options, tagged, digested, Tag, tag_string, reference_string, parse_reference, new_tag,
}

pub record IndexEntry : Type 0 where
  pub id : Text
  pub tags : List Text
  pub files : List Text

-- The models of an index are a list of these.
pub data IndexError : Type 0 where
  invalid_tag model_not_found : IndexError

pub data Result (A : Type 0) : Type 0 where
  ok : A → Result A
  error : IndexError → Result A

-- What Index.Tag takes for the tag.
unfoldable pub bare_tag : Text → Text → Text
bare_tag ref tag =
    let t = trim_space tag in
    let u : Text = elim (index_of (codes "@sha256") t) [ none ↦ t | some i ↦ take i t ] in
    trim_prefix ref u

module _ (parse_named : Text → Option Named) (o : Options) where
  -- Whether a stored tag parses to the reference of the string `r`.
  unfoldable pub names : Text → Text → Bool
  names r t = elim (parse_reference parse_named o t) [
    | none ↦ false
    | some tr ↦ text_eq (reference_string tr) r
  ]

  unfoldable pub any_names : Text → List Text → Bool
  any_names r [] = false
  any_names r (t ∷ ts) = if names r t then true else any_names r ts

  -- The method `hasTag`, and HasTag.
  unfoldable pub has_tag_ref : IndexEntry → Tag → Bool
  has_tag_ref e tag = any_names (tag_string tag) e.tags

  unfoldable pub has_tag : IndexEntry → Text → Bool
  has_tag e tag = elim (new_tag parse_named o tag) [
    | none ↦ false
    | some ref ↦ any_names (tag_string ref) e.tags
  ]

  unfoldable pub matches_reference : IndexEntry → Text → Bool
  matches_reference e ref =
      if text_eq e.id ref then true else elim (parse_reference parse_named o ref) [
        | none ↦ false
        | some r ↦ elim r [
          | digested d ↦ if text_eq d.digest e.id then true else has_tag e ref
          | tagged t ↦ has_tag e ref
        ]
      ]

  unfoldable pub tag_entry : IndexEntry → Tag → IndexEntry
  tag_entry e tag =
      if has_tag_ref e tag then e else record e { tags = e.tags ++ tag_string tag ∷ [] }

  -- The tags that are kept: those that parse, and to another reference.
  unfoldable pub other_tags : Text → List Text → List Text
  other_tags r [] = []
  other_tags r (t ∷ ts) =
      let rest = other_tags r ts in
      elim (parse_reference parse_named o t) [
        | none ↦ rest
        | some tr ↦ if text_eq (reference_string tr) r then rest else t ∷ rest
      ]

  unfoldable pub untag_entry : IndexEntry → Tag → IndexEntry
  untag_entry e tag = record e { tags = other_tags (tag_string tag) e.tags }

  -- The loop of Index.Tag, with `tagged`.
  unfoldable pub retag : Text → Tag → List IndexEntry → List IndexEntry × Bool
  retag ref tag [] = ([], false)
  retag ref tag (e ∷ es) =
      let rest = retag ref tag es in
      if matches_reference e ref
      then (tag_entry e tag ∷ rest.0, true)
      else (untag_entry e tag ∷ rest.0, rest.1)

  unfoldable pub tag_index : List IndexEntry → Text → Text → Result (List IndexEntry)
  tag_index models ref tag =
      let bare = bare_tag ref tag in
      if text_eq bare [] then ok models else elim (new_tag parse_named o bare) [
        | none ↦ error invalid_tag
        | some tag_ref ↦
            let result = retag ref tag_ref models in
            if result.1 then ok result.0 else error model_not_found
      ]

  unfoldable pub untag_all : Tag → List IndexEntry → List IndexEntry
  untag_all tag [] = []
  untag_all tag (e ∷ es) = untag_entry e tag ∷ untag_all tag es

  unfoldable pub untag_index : List IndexEntry → Text → Result (Tag × List IndexEntry)
  untag_index models tag = elim (new_tag parse_named o tag) [
    | none ↦ error invalid_tag
    | some tag_ref ↦ ok (tag_ref, untag_all tag_ref models)
  ]

  -- The position is not used by any caller in the store, and is left out.
  unfoldable pub find : List IndexEntry → Text → Option IndexEntry
  find [] ref = none
  find (e ∷ es) ref = let rest = find es ref in if matches_reference e ref then some e else rest

  unfoldable pub remove : List IndexEntry → Text → List IndexEntry
  remove [] ref = []
  remove (e ∷ es) ref =
      let rest = remove es ref in if matches_reference e ref then rest else e ∷ rest

  unfoldable pub add : List IndexEntry → IndexEntry → List IndexEntry
  add models entry = elim (find models entry.id) [ some e ↦ models | none ↦ models ++ entry ∷ [] ]

-- ===== src/Distribution/Failure.antt =====
-- What RemoveTags of store.go does to the index when a tag does not parse.
use model_runner.Common.{
  ◌≡◌, inl, inr, ◌∙◌, ap, false, List, [], ◌∷◌, ◌++◌, Option, none, arith, Text, Option-cases,
  Occurs,
}
use model_runner.Distribution.Reference.{Named, Options, tag_string, new_tag}
use model_runner.Distribution.Index.{IndexEntry, untag_index, untag_all}
use model_runner.Distribution.LocalStore.{
  Disk, Faults, write_index, index_written, written_index, untag_each, remove_tags,
}

module _ (parse_named : Text → Option Named) (o : Options) where
  untag_each-wiped :
      (faults : Faults) (d : Disk) (tags tag_refs : List Text) (models : List IndexEntry)
      (bad : Text)
      → faults.write_index ≡ index_written
      → Occurs bad tags
      → new_tag parse_named o bad ≡ none
      → (untag_each parse_named o faults d models tags tag_refs).0.index ≡ []
  unfolding untag_each untag_index write_index written_index
  untag_each-wiped faults d [] tag_refs models bad written listed invalid = elim listed [ ]
  untag_each-wiped faults d (t ∷ ts) tag_refs models bad written listed invalid = elim listed [
    | inl same ↦
        let e : new_tag parse_named o t ≡ none = ap (new_tag parse_named o) same ∙ invalid in
        ground arith
    | inr later ↦ elim (Option-cases (new_tag parse_named o t)) [
      | inl e ↦ ground arith
      | inr (r, e) ↦
          let ih =
            untag_each-wiped faults d ts (tag_refs ++ tag_string r ∷ [])
              (untag_all parse_named o r models) bad written later invalid in
          ground arith
    ]
  ]

  -- RemoveTags with a tag that does not parse leaves an empty index on disk, whatever it held,
  -- when the index can be read and written.
  pub remove_tags-wiped :
      (faults : Faults) (d : Disk) (tags : List Text) (bad : Text)
      → faults.read_index ≡ false
      → faults.write_index ≡ index_written
      → Occurs bad tags
      → new_tag parse_named o bad ≡ none
      → (remove_tags parse_named o faults d tags).0.index ≡ []
  unfolding remove_tags
  remove_tags-wiped faults d tags bad read written listed invalid =
      simp read (untag_each-wiped faults d tags [] d.index bad written listed invalid)

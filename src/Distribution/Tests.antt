-- ===== src/Distribution/Tests.antt =====
-- A small store with a parser for plain names, and the theorems at it.
use model_runner.Common.{
  ◌≡◌, ◌↔◌, refl, ap, subst, ◌∙◌, sym, true, false, [], ◌∷◌, Option, none, some, Text, codes,
  text_eq, replicate, if◌then◌else◌, has_prefix, index_of, contains, trim_prefix, inl, inr, arith,
}
use model_runner.Common.Strings.{trim_space}
use model_runner.Distribution.Hash.{
  Hash, hash_string, hash_ok, new_hash, split_at, trim_hex, parse_parts, hasher_size, is_lower_hex,
}
use model_runner.Distribution.HashLaws.{IsSha256, new_hash_iff}
use model_runner.Distribution.Reference.{
  Named, Options, Tag, tag_string, reference_string, parse_reference, new_tag, of_named,
  choose_domain, choose_path, has_explicit_registry, has_explicit_org, default_options,
}
use model_runner.Distribution.Index.{
  IndexEntry, ok, names, any_names, has_tag_ref, matches_reference, tag_entry, retag, bare_tag,
  tag_index,
}
use model_runner.Distribution.LocalStore.{
  Disk, Faults, index_written, write_fails, delete_model, migrate_tags, migrate_entries,
  migrate_entry_tags, remove_tags, hash_eq,
}
use model_runner.Distribution.Blobs.{IsComplete, HasFiles, has_hash, delete_model-IsComplete}
use model_runner.Distribution.Tagging.{IsCanonical, IsTagging, tag_index-IsTagging}
use model_runner.Distribution.Failure.{remove_tags-wiped}

-- A parser that knows two names, one of them the string of the other's reference.
abbrev pub parser : Text → Option Named
parser s =
    if text_eq s (codes "m")
    then some (record {
      domain = codes "docker.io";
      path = codes "library/m";
      tag = some (codes "latest");
      digest = none;
    })
    else if text_eq s (codes "docker.io/ai/m:latest")
    then some (record {
      domain = codes "docker.io";
      path = codes "ai/m";
      tag = some (codes "latest");
      digest = none;
    })
    else none

abbrev pub options : Options
options = default_options [] []

abbrev pub tag_m : Tag
tag_m = record {
  registry = record { registry = codes "docker.io"; insecure = false };
  repository = codes "ai/m";
  tag = codes "latest";
}

abbrev small_hash : Hash
small_hash = record { algorithm = codes "sha256"; hex = replicate 64 97 }

abbrev other_hash : Hash
other_hash = record { algorithm = codes "sha256"; hex = replicate 64 98 }

abbrev small_entry : IndexEntry
small_entry = record { id = hash_string small_hash; tags = []; files = hash_string other_hash ∷ [] }

abbrev small_disk : Disk
small_disk = record {
  index = small_entry ∷ [];
  manifests = small_hash ∷ [];
  bundles = [];
  blobs = other_hash ∷ [];
}

abbrev no_faults : Faults
no_faults = record {
  read_index = false;
  write_index = index_written;
  remove_manifest = λ h. false;
  remove_bundle = λ h. false;
  remove_blob = λ h. false;
}

small_hash_parses : new_hash (hash_string small_hash) ≡ hash_ok small_hash
unfolding new_hash hash_string split_at parse_parts trim_hex hasher_size is_lower_hex text_eq
small_hash_parses = refl

new_hash_iff_example :
    (new_hash (hash_string small_hash) ≡ hash_ok small_hash)
    ↔ (IsSha256 small_hash × (hash_string small_hash ≡ hash_string small_hash))
new_hash_iff_example = new_hash_iff (hash_string small_hash) small_hash

other_hash_parses : new_hash (hash_string other_hash) ≡ hash_ok other_hash
unfolding new_hash hash_string split_at parse_parts trim_hex hasher_size is_lower_hex text_eq
other_hash_parses = refl

other_hash_there : has_hash other_hash small_disk.blobs ≡ true
unfolding has_hash hash_eq text_eq
other_hash_there = refl

small_files : HasFiles small_disk.blobs small_entry
small_files = λ f h listed e. elim listed [
  | inl q ↦
      let made : hash_ok other_hash ≡ hash_ok h = sym other_hash_parses ∙ ap new_hash q ∙ e in
      let same : other_hash ≡ h = ground arith in
      subst (λ x. has_hash x small_disk.blobs ≡ true) same other_hash_there
  | inr none_left ↦ elim none_left [ ]
]

small_disk-IsComplete : IsComplete small_disk
small_disk-IsComplete = λ m o. elim o [
  | inl same ↦ subst (HasFiles small_disk.blobs) same small_files
  | inr none_left ↦ elim none_left [ ]
]

delete_model-IsComplete_example :
    IsComplete (delete_model parser options no_faults small_disk (hash_string small_hash)).0
delete_model-IsComplete_example =
    delete_model-IsComplete parser options no_faults small_disk (hash_string small_hash) refl
      small_disk-IsComplete

bare_m : bare_tag (hash_string small_hash) (codes " m") ≡ codes "m"
unfolding bare_tag trim_space trim_prefix has_prefix index_of hash_string
bare_m = refl

pub parse_m : new_tag parser options (codes "m") ≡ some tag_m
unfolding new_tag parse_reference of_named choose_domain choose_path has_explicit_registry
    has_explicit_org default_options has_prefix index_of contains trim_prefix text_eq
parse_m = refl

IsCanonical-m : IsCanonical parser options tag_m
unfolding names tag_string reference_string parse_reference of_named choose_domain choose_path
    has_explicit_registry has_explicit_org default_options has_prefix index_of contains trim_prefix
    text_eq
IsCanonical-m = refl

abbrev tagged_entry : IndexEntry
tagged_entry = record small_entry { tags = tag_string tag_m ∷ [] }

tagging_goes_through :
    tag_index parser options (small_entry ∷ []) (hash_string small_hash) (codes " m")
    ≡ ok (tagged_entry ∷ [])
unfolding tag_index retag matches_reference tag_entry has_tag_ref any_names bare_tag trim_space
    hash_string new_tag parse_reference of_named choose_domain choose_path has_explicit_registry
    has_explicit_org default_options has_prefix index_of contains trim_prefix text_eq
tagging_goes_through = refl

tag_index-IsTagging_example :
    IsTagging parser options (hash_string small_hash) tag_m (small_entry ∷ []) (tagged_entry ∷ [])
tag_index-IsTagging_example =
    tag_index-IsTagging parser options (small_entry ∷ []) (tagged_entry ∷ [])
      (hash_string small_hash) (codes " m") tag_m
      (ap (λ x. text_eq x []) bare_m ∙ unfold text_eq in refl)
      (ap (new_tag parser options) bare_m ∙ parse_m) IsCanonical-m tagging_goes_through

bad_tag : new_tag parser options (codes "?") ≡ none
unfolding new_tag parse_reference text_eq
bad_tag = refl

remove_tags-wiped_example :
    (remove_tags parser options no_faults small_disk (codes "m" ∷ codes "?" ∷ [])).0.index ≡ []
remove_tags-wiped_example =
    remove_tags-wiped parser options no_faults small_disk (codes "m" ∷ codes "?" ∷ []) (codes "?")
      refl refl (inr (inl refl)) bad_tag

abbrev tagged_disk : Disk
tagged_disk = record small_disk { index = tagged_entry ∷ [] }

one_migrated : (migrate_tags no_faults tagged_disk (λ t. codes "n")).1 ≡ some 1
unfolding migrate_tags migrate_entries migrate_entry_tags text_eq tag_string write_fails
one_migrated = refl

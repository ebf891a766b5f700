-- ===== src/Distribution/Rollback.antt =====
-- What a failed WriteLightweight or Write of store.go leaves behind.
use model_runner.Common.{
  ◌≡◌, ◌⊎◌, ◌≢◌, inl, inr, refl, ap, ◌∙◌, true, false, List, [], ◌∷◌, Option, none, some, arith,
  Text, text_eq_refl, Bool-cases, Option-cases,
}
use model_runner.Distribution.Hash.{Hash, hash_string, validate_hash}
use model_runner.Distribution.Reference.{Named, Options}
use model_runner.Distribution.Index.{IndexEntry, IndexError, Result, ok, error, add}
use model_runner.Distribution.LocalStore.{
  StoreError, Disk, Faults, Tagged, all_done, failed, hash_eq, without, add_tags, tag_each,
  write_index, IndexWrite, index_written, index_kept, write_fails, written_index,
}
use model_runner.Distribution.Blobs.{has_hash}
use model_runner.Distribution.Write.{
  Manifest, Image, WriteFaults, Cleanup, remove_new_manifest, restore_index, saved, has_stored_blob,
  add_hash, write_config_file, find_missing_layer, new_entry_for_manifest, drop_manifest,
  run_cleanup, run_cleanups, Attempt, finish, index_manifest, write_manifest, tag_written,
  publish_manifest, config_cleanups, write_config_and_manifest, attempt_lightweight,
  write_lightweight,
}

without_absent : (h : Hash) (hs : List Hash) → has_hash h hs ≡ false → without h hs ≡ hs
unfolding without has_hash
without_absent h [] e = refl
without_absent h (g ∷ gs) e = ground (arith, without_absent h gs)

pub hash_eq_refl : (h : Hash) → hash_eq h h ≡ true
unfolding hash_eq
hash_eq_refl h = ground (arith, text_eq_refl h.algorithm, text_eq_refl h.hex)

without-add_hash :
    (h : Hash) (hs : List Hash) → has_hash h hs ≡ false → without h (add_hash h hs) ≡ hs
unfolding add_hash without
without-add_hash h hs e = ground (arith, without_absent h hs e, hash_eq_refl h)

pub Result-cases :
    {A : Type 0} (r : Result A) → ((a : A) × (r ≡ ok a)) ⊎ ((e : IndexError) × (r ≡ error e))
Result-cases (ok a) = inl (a, refl)
Result-cases (error e) = inr (e, refl)

pub Tagged-cases : (t : Tagged) → (t ≡ all_done) ⊎ ((e : StoreError) × (t ≡ failed e))
Tagged-cases all_done = inl refl
Tagged-cases (failed e) = inr (e, refl)

-- A write of the index that succeeds or leaves the old file.
abbrev pub IsWhole : IndexWrite → Type 0
IsWhole w = (w ≡ index_written) ⊎ (w ≡ index_kept)

-- The calls of the rollback succeed, and so do the Stat of the config file and the read after which a
-- manifest has no cleanup; the write after that read succeeds or leaves the old index.
pub record CanRollBack (faults : WriteFaults) : Type 0 where
  pub restores : faults.restore ≡ index_written
  pub removes_manifest : faults.remove_new ≡ false
  pub removes_config : faults.remove_config ≡ false
  pub removes_written : faults.remove_written ≡ false
  pub reads_models : faults.read_models ≡ false
  pub writes_whole : IsWhole faults.write_models
  pub stats_config : faults.stat_config ≡ false

-- The same disk but for the index.
abbrev pub IsReindexed : Disk → Disk → Type 0
IsReindexed d d' = (i : List IndexEntry) × (d' ≡ record d { index = i })

module _ (parse_named : Text → Option Named) (o : Options) where
  add_tags-IsReindexed :
      (calls : Faults) (d : Disk) (ref : Text) (tags : List Text)
      → IsReindexed d (add_tags parse_named o calls d ref tags).0
  unfolding add_tags write_index
  add_tags-IsReindexed calls d ref tags = elim (Bool-cases calls.read_index) [
    | inl e ↦ (d.index, rw (e, add_tags) refl)
    | inr e ↦ elim (Result-cases (tag_each parse_named o d.index ref tags)) [
      | inl (models, t) ↦
          (written_index calls.write_index d.index models, rw (e, add_tags) (rw (t, add_tags) refl))
      | inr (x, t) ↦ (d.index, rw (e, add_tags) (rw (t, add_tags) refl))
    ]
  ]

  pub tag_written-IsReindexed :
      (faults : WriteFaults) (a : Attempt) (digest : Hash) (tags : List Text)
      → IsReindexed a.disk (tag_written parse_named o faults a digest tags).disk
        × ((tag_written parse_named o faults a digest tags).cleanups ≡ a.cleanups)
  unfolding tag_written
  tag_written-IsReindexed faults a digest tags =
      let calls : Faults = record {
        read_index = faults.read_tags;
        write_index = faults.write_tags;
        remove_manifest = λ _. false;
        remove_bundle = λ _. false;
        remove_blob = λ _. false;
      } in
      let same = add_tags-IsReindexed calls a.disk (hash_string digest) tags in
      elim (Tagged-cases (add_tags parse_named o calls a.disk (hash_string digest) tags).1) [
        | inl e ↦ rw (e, tag_written) (same, refl)
        | inr (x, e) ↦ rw (e, tag_written) (same, refl)
      ]

  write_manifest_failed :
      (faults : WriteFaults) (d : Disk) (digest : Hash) (raw : Option Manifest)
      → CanRollBack faults
      → has_hash digest d.manifests ≡ false
      → (write_manifest parse_named o faults d digest raw).1 ≡ false
      → (write_manifest parse_named o faults d digest raw).0 ≡ d
  unfolding write_manifest index_manifest drop_manifest write_fails written_index
  write_manifest_failed faults d digest none able absent h = refl
  write_manifest_failed faults d digest (some manifest) able absent h =
      let kept : record d { manifests = without digest d.manifests } ≡ d =
        ap (λ m. record d { manifests = m }) (without_absent digest d.manifests absent) in
      let undone : record d { manifests = without digest (add_hash digest d.manifests) } ≡ d =
        ap (λ m. record d { manifests = m }) (without-add_hash digest d.manifests absent) in
      let reads = able.reads_models in
      let removes = able.removes_written in
      elim able.writes_whole [ inl writes ↦ ground arith | inr keeps ↦ ground arith ]

  write_manifest_done :
      (faults : WriteFaults) (d : Disk) (digest : Hash) (raw : Option Manifest)
      → (write_manifest parse_named o faults d digest raw).1 ≡ true
      → (i : List IndexEntry) × ((write_manifest parse_named o faults d digest raw).0
          ≡ record d { manifests = add_hash digest d.manifests; index = i })
  unfolding write_manifest index_manifest
  write_manifest_done faults d digest none h = absurd (ground arith)
  write_manifest_done faults d digest (some manifest) h = (
    written_index faults.write_models d.index
        (add parse_named o d.index (new_entry_for_manifest digest manifest)),
    ground arith,
  )

  -- The cleanups after a manifest was written take back all that it changed.
  undo_tagging :
      (faults : WriteFaults) (d : Disk) (cleanups : List Cleanup) (digest : Hash)
      (i : List IndexEntry)
      → CanRollBack faults
      → has_hash digest d.manifests ≡ false
      → run_cleanups faults
          (record d { manifests = add_hash digest d.manifests; index = i })
          (restore_index d.index ∷ remove_new_manifest digest ∷ cleanups)
        ≡ run_cleanups faults d cleanups
  unfolding run_cleanups run_cleanup drop_manifest write_fails written_index
  undo_tagging faults d cleanups digest i able absent =
      simp (able.restores, able.removes_manifest)
        (ap (λ m. run_cleanups faults (record d { manifests = m }) cleanups)
          (without-add_hash digest d.manifests absent))

  module _ (faults : WriteFaults) (able : CanRollBack faults) (d : Disk) (cleanups : List Cleanup)
      (image : Image) (tags : List Text) (digest : Hash) (named : image.digest ≡ some digest)
      (absent : has_hash digest d.manifests ≡ false) where
    abbrev published : Attempt
    published = publish_manifest parse_named o faults d.index d cleanups image tags

    abbrev IsUndone : Attempt → Type 0
    IsUndone a = run_cleanups faults a.disk a.cleanups ≡ run_cleanups faults d cleanups

    tagging-IsUndone :
        (raw : Option Manifest)
        → (write_manifest parse_named o faults d digest raw).1 ≡ true
        → IsUndone (
            tag_written parse_named o faults
              (record {
                disk = (write_manifest parse_named o faults d digest raw).0;
                cleanups = restore_index d.index ∷ remove_new_manifest digest ∷ cleanups;
                result = none;
              })
              digest
              tags)
    tagging-IsUndone raw w =
        let (i, e) = write_manifest_done faults d digest raw w in
        let start : Attempt = record {
          disk = (write_manifest parse_named o faults d digest raw).0;
          cleanups = restore_index d.index ∷ remove_new_manifest digest ∷ cleanups;
          result = none;
        } in
        let ((j, at), same) = tag_written-IsReindexed faults start digest tags in
        ap (λ cs. run_cleanups faults (tag_written parse_named o faults start digest tags).disk cs)
          same
        ∙ ap (λ d'. run_cleanups faults d' start.cleanups)
            (at ∙ ap (λ (d' : Disk). record d' { index = j }) e)
        ∙ undo_tagging faults d cleanups digest j able absent

    raw-IsUndone : (raw : Option Manifest) → image.raw_manifest ≡ some raw → IsUndone published
    unfolding publish_manifest
    raw-IsUndone raw e = elim (Bool-cases faults.stat_manifest) [
      | inl s ↦ rw (named, publish_manifest) (rw (e, publish_manifest) (simp s refl))
      | inr s ↦ elim (Bool-cases (write_manifest parse_named o faults d digest raw).1) [
        | inl w ↦
            rw (named, publish_manifest)
              (rw (e, publish_manifest) (simp (s, w, absent) (tagging-IsUndone raw w)))
        | inr w ↦
            rw (named, publish_manifest)
              (rw (e, publish_manifest)
                (simp (s, w)
                  (ap (λ d'. run_cleanups faults d' cleanups)
                    (write_manifest_failed faults d digest raw able absent w))))
      ]
    ]

    publish_manifest-IsUndone : IsUndone published
    unfolding publish_manifest
    publish_manifest-IsUndone = elim (Option-cases image.raw_manifest) [
      | inl e ↦ rw (named, publish_manifest) (rw (e, publish_manifest) refl)
      | inr (raw, e) ↦ raw-IsUndone raw e
    ]

-- What a config file that was written is on disk, and without it.
record IsConfigured (faults : WriteFaults) (d d' : Disk) (created : Option Hash) : Type 0 where
  pub blobs : List Hash
  pub written : d' ≡ record d { blobs = blobs }
  pub undone : (run_cleanups faults (record d { blobs = blobs }) (config_cleanups created)).0 ≡ d

write_config_file-IsConfigured :
    (faults : WriteFaults) (d : Disk) (image : Image) (created : Option Hash)
    → CanRollBack faults
    → (write_config_file faults d image).1 ≡ some created
    → IsConfigured faults d (write_config_file faults d image).0 created
unfolding write_config_file has_stored_blob config_cleanups run_cleanups run_cleanup without
write_config_file-IsConfigured faults d image none able h = record {
  blobs = d.blobs;
  written = ground arith;
  undone = refl;
}
write_config_file-IsConfigured faults d image (some g) able h =
    let stats = able.stats_config in
    let name : image.config_name ≡ some g = ground arith in
    let safe : validate_hash g ≡ true = ground arith in
    let absent : has_hash g d.blobs ≡ false = ground arith in
    record {
      blobs = g ∷ d.blobs;
      written = ground arith;
      undone =
          simp (safe, able.removes_config, hash_eq_refl g)
            (ap (λ bs. record d { blobs = bs }) (without_absent g d.blobs absent));
    }

pub write_config_file_failed :
    (faults : WriteFaults) (d : Disk) (image : Image)
    → faults.stat_config ≡ false
    → (write_config_file faults d image).1 ≡ none
    → (write_config_file faults d image).0 ≡ d
unfolding write_config_file has_stored_blob
write_config_file_failed faults d image stats e =
    let gone = λ (h : Hash) (absent : has_hash h d.blobs ≡ false).
      ap (λ bs. (let x : Disk = record d { blobs = bs } in x)) (without_absent h d.blobs absent) in
    elim (Option-cases image.config_name) [
      | inl n ↦ ground arith
      | inr (h, n) ↦ elim (Bool-cases (has_hash h d.blobs)) [
        | inl there ↦ ground arith
        | inr absent ↦ let lost = gone h absent in ground arith
      ]
    ]

module _ (parse_named : Text → Option Named) (o : Options) (faults : WriteFaults)
    (able : CanRollBack faults) (d : Disk) (image : Image) (tags : List Text) (digest : Hash)
    (named : image.digest ≡ some digest) (absent : has_hash digest d.manifests ≡ false) where
  abbrev TakesBack : Attempt → Type 0
  TakesBack a = (run_cleanups faults a.disk a.cleanups).0 ≡ d

  configured_undone :
      (created : Option Hash) (d' : Disk)
      → IsConfigured faults d d' created
      → TakesBack
          (publish_manifest parse_named o faults d.index d' (config_cleanups created) image tags)
  configured_undone created d' c =
      let start = record d { blobs = c.blobs } in
      let attempt = λ (x : Disk).
        publish_manifest parse_named o faults d.index x (config_cleanups created) image tags in
      ap (λ x. (run_cleanups faults (attempt x).disk (attempt x).cleanups).0) c.written
      ∙ ap (λ p. p.0)
          (publish_manifest-IsUndone parse_named o faults able start (config_cleanups created) image
            tags digest named absent)
      ∙ c.undone

  config_undone : TakesBack (write_config_and_manifest parse_named o faults d image tags)
  unfolding write_config_and_manifest run_cleanups
  config_undone = elim (Option-cases (write_config_file faults d image).1) [
    | inl e ↦
        rw (e, write_config_and_manifest)
          (write_config_file_failed faults d image able.stats_config e)
    | inr (created, e) ↦
        rw (e, write_config_and_manifest)
          (configured_undone created _
            (write_config_file-IsConfigured faults d image created able e))
  ]

  attempt_undone : TakesBack (attempt_lightweight parse_named o faults d image tags)
  unfolding attempt_lightweight run_cleanups
  attempt_undone = elim (Option-cases image.layers) [
    | inl e ↦ rw (e, attempt_lightweight) refl
    | inr (layers, e) ↦ elim (Option-cases (find_missing_layer faults.stat_layer d layers)) [
      | inl f ↦ rw (e, attempt_lightweight) (rw (f, attempt_lightweight) config_undone)
      | inr (x, f) ↦ rw (e, attempt_lightweight) (rw (f, attempt_lightweight) refl)
    ]
  ]

  -- A WriteLightweight that fails leaves the disk as it was, if the image's manifest was not on
  -- it, neither the Stat of its config file, nor the removals, nor the restoring of the index, nor
  -- the read of the index after the manifest is written fail, and the write of the index after
  -- that read succeeds or leaves the old index.
  pub write_lightweight-restored :
      (write_lightweight parse_named o faults d image tags).1 ≢ saved
      → (write_lightweight parse_named o faults d image tags).0 ≡ d
  unfolding write_lightweight finish
  write_lightweight-restored failing = let undone = attempt_undone in ground arith

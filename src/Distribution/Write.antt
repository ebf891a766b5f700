-- ===== src/Distribution/Write.antt =====
-- Write, WriteLightweight and WriteManifest of pkg/distribution/internal/store, with their cleanups.
-- An image gives what it is asked for or an error, `none` here; the layers of Write, which are
-- written in parallel, each add at most their own blob, and are written one after the other.
use model_runner.Common.{
  ℕ, Bool, true, false, not, ◌&&◌, ◌||◌, List, [], ◌∷◌, ◌++◌, Option, none, some, Text,
  if◌then◌else◌, map,
}
use model_runner.Distribution.Hash.{Hash, hash_string, validate_hash}
use model_runner.Distribution.Reference.{Named, Options}
use model_runner.Distribution.Index.{IndexEntry, add}
use model_runner.Distribution.LocalStore.{
  Disk, Faults, IndexWrite, write_fails, written_index, all_done, failed, without, add_tags,
}
use model_runner.Distribution.Blobs.{has_hash}

pub record Manifest : Type 0 where
  pub layers : List Hash
  pub config : Hash

pub record ImageLayer : Type 0 where
  pub diff_id : Option Hash
  pub digest : Option Hash
  pub size : Option ℕ
  -- whether the blob can be written, if it is not there
  pub writable : Bool

-- `raw_manifest` is `some none` for one that does not parse.
pub record Image : Type 0 where
  pub config_name : Option Hash
  pub raw_config_file : Bool
  pub layers : Option (List ImageLayer)
  pub digest : Option Hash
  pub raw_manifest : Option (Option Manifest)

-- How writeFile ends: `file_lost` is a failure that has removed the old file.
pub data FileWrite : Type 0 where
  file_written file_kept file_lost : FileWrite

-- Which calls fail, in the order of the code. A Stat that fails is taken for a file that is not
-- there; `stat_layer` is about the Stat of the layers by Write and WriteLightweight, and
-- `stat_listed` about that of WriteManifest.
pub record WriteFaults : Type 0 where
  pub read_initial : Bool
  pub stat_config : Bool
  pub write_config : FileWrite
  pub stat_layer : Hash → Bool
  pub stat_manifest : Bool
  pub write_manifest_file : FileWrite
  pub stat_listed : Hash → Bool
  pub read_models : Bool
  pub write_models : IndexWrite
  pub remove_written : Bool
  pub read_tags : Bool
  pub write_tags : IndexWrite
  pub restore : IndexWrite
  pub remove_new : Bool
  pub remove_config : Bool

pub data WriteError : Type 0 where
  reading_index writing_config getting_layers layer_size layer_digest checking_layer : WriteError
  layer_not_found writing_blob getting_digest getting_manifest stat_failed : WriteError
  manifest_not_written adding_tags : WriteError

-- The functions in `cleanups`, the last one first.
pub data Cleanup : Type 0 where
  remove_config_blob : Hash → Cleanup
  remove_new_manifest : Hash → Cleanup
  restore_index : List IndexEntry → Cleanup

-- The error, and whether errors of the rollback are joined to it.
pub data Saved : Type 0 where
  saved : Saved
  not_saved : WriteError → Bool → Saved

-- hasBlob, with whether its Stat fails; `none` is an error.
unfoldable pub has_stored_blob : Bool → Disk → Hash → Option Bool
has_stored_blob stat_fails d h =
    if validate_hash h then some (not stat_fails && has_hash h d.blobs) else none

unfoldable pub add_hash : Hash → List Hash → List Hash
add_hash h hs = if has_hash h hs then hs else h ∷ hs

-- writeConfigFile, with what the caller needs: the hash of a file that was created.
unfoldable pub write_config_file : WriteFaults → Disk → Image → Disk × Option (Option Hash)
write_config_file faults d image = elim image.config_name [
  | none ↦ (d, none)
  | some h ↦ elim (has_stored_blob faults.stat_config d h) [
    | none ↦ (d, none)
    | some true ↦ (d, some none)
    | some false ↦ if not image.raw_config_file then (d, none) else elim faults.write_config [
      | file_kept ↦ (d, none)
      | file_lost ↦ (record d { blobs = without h d.blobs }, none)
      | file_written ↦ (record d { blobs = h ∷ d.blobs }, some (some h))
    ]
  ]
]

-- The loop of WriteManifest over the layers: whether all blobs are there.
unfoldable pub all_blobs_exist : (Hash → Bool) → Disk → List Hash → Bool
all_blobs_exist stats d [] = true
all_blobs_exist stats d (h ∷ hs) =
    let rest = all_blobs_exist stats d hs in
    elim (has_stored_blob (stats h) d h) [
      | none ↦ false
      | some found ↦ if found then rest else false
    ]

unfoldable pub new_entry_for_manifest : Hash → Manifest → IndexEntry
new_entry_for_manifest digest manifest = record {
  id = hash_string digest;
  tags = [];
  files = map hash_string manifest.layers ++ hash_string manifest.config ∷ [];
}

-- The loop of WriteLightweight over the layers.
unfoldable pub find_missing_layer : (Hash → Bool) → Disk → List ImageLayer → Option WriteError
find_missing_layer stats d [] = none
find_missing_layer stats d (l ∷ ls) =
    let rest = find_missing_layer stats d ls in
    elim l.digest [
      | none ↦ some layer_digest
      | some h ↦ elim (has_stored_blob (stats h) d h) [
        | none ↦ some checking_layer
        | some found ↦ if found then rest else some layer_not_found
      ]
    ]

-- writeLayer on the names of the blobs, and whether it succeeds.
unfoldable pub save_layer : (Hash → Bool) → Disk → ImageLayer → Disk × Bool
save_layer stats d l = elim l.diff_id [
  | none ↦ (d, false)
  | some h ↦ elim (has_stored_blob (stats h) d h) [
    | none ↦ (d, false)
    | some true ↦ (d, true)
    | some false ↦ if l.writable then (record d { blobs = h ∷ d.blobs }, true) else (d, false)
  ]
]

unfoldable pub save_layers : (Hash → Bool) → Disk → List ImageLayer → Disk × Bool
save_layers stats d [] = (d, true)
save_layers stats d (l ∷ ls) =
    let first = save_layer stats d l in
    let rest = save_layers stats first.0 ls in (rest.0, if first.1 then rest.1 else false)

-- Whether the sizes of all layers are known.
unfoldable pub sizes_known : List ImageLayer → Bool
sizes_known [] = true
sizes_known (l ∷ ls) = let rest = sizes_known ls in elim l.size [ none ↦ false | some _ ↦ rest ]

unfoldable pub drop_manifest : Bool → Disk → Hash → Disk
drop_manifest fails d h = if fails then d else record d { manifests = without h d.manifests }

-- Runs one cleanup; whether it adds an error.
unfoldable pub run_cleanup : WriteFaults → Disk → Cleanup → Disk × Bool
run_cleanup faults d (remove_config_blob h) =
    if not (validate_hash h) || faults.remove_config
    then (d, true)
    else (record d { blobs = without h d.blobs }, false)
run_cleanup faults d (remove_new_manifest h) =
    (drop_manifest faults.remove_new d h, faults.remove_new)
run_cleanup faults d (restore_index models) =
    (record d { index = written_index faults.restore d.index models }, write_fails faults.restore)

unfoldable pub run_cleanups : WriteFaults → Disk → List Cleanup → Disk × Bool
run_cleanups faults d [] = (d, false)
run_cleanups faults d (c ∷ cs) =
    let first = run_cleanup faults d c in
    let rest = run_cleanups faults first.0 cs in (rest.0, first.1 || rest.1)

-- A write that may still fail: the disk, the cleanups so far, and the error.
pub record Attempt : Type 0 where
  pub disk : Disk
  pub cleanups : List Cleanup
  pub result : Option WriteError

-- The deferred function.
unfoldable pub finish : WriteFaults → Attempt → Disk × Saved
finish faults a = elim a.result [
  | none ↦ (a.disk, saved)
  | some e ↦ let d = run_cleanups faults a.disk a.cleanups in (d.0, not_saved e d.1)
]

-- The cleanup of a config file that was created.
unfoldable pub config_cleanups : Option Hash → List Cleanup
config_cleanups none = []
config_cleanups (some h) = remove_config_blob h ∷ []

module _ (parse_named : Text → Option Named) (o : Options) where
  -- The index write of WriteManifest, after the file.
  unfoldable pub index_manifest : WriteFaults → Disk → Hash → Manifest → Disk × Bool
  index_manifest faults d digest manifest =
      if faults.read_models
      then (d, false)
      else let after = record d {
        index =
            written_index faults.write_models d.index
              (add parse_named o d.index (new_entry_for_manifest digest manifest));
      } in
        if write_fails faults.write_models
        then (drop_manifest faults.remove_written after digest, false)
        else (after, true)

  -- WriteManifest, and whether it succeeds.
  unfoldable pub write_manifest : WriteFaults → Disk → Hash → Option Manifest → Disk × Bool
  write_manifest faults d digest none = (d, false)
  write_manifest faults d digest (some manifest) =
      if all_blobs_exist faults.stat_listed d manifest.layers
      then elim faults.write_manifest_file [
        | file_kept ↦ (d, false)
        | file_lost ↦ (record d { manifests = without digest d.manifests }, false)
        | file_written ↦
            index_manifest faults (record d { manifests = add_hash digest d.manifests }) digest
              manifest
      ]
      else (d, false)

  -- AddTags at the end of a write.
  unfoldable pub tag_written : WriteFaults → Attempt → Hash → List Text → Attempt
  tag_written faults a digest tags =
      let calls : Faults = record {
        read_index = faults.read_tags;
        write_index = faults.write_tags;
        remove_manifest = λ _. false;
        remove_bundle = λ _. false;
        remove_blob = λ _. false;
      } in
      let tagged = add_tags parse_named o calls a.disk (hash_string digest) tags in
      elim tagged.1 [
        | all_done ↦ record a { disk = tagged.0; result = none }
        | failed _ ↦ record a { disk = tagged.0; result = some adding_tags }
      ]

  -- From the digest of the image on: `initial` is the index at the start.
  unfoldable pub publish_manifest :
      WriteFaults → List IndexEntry → Disk → List Cleanup → Image → List Text → Attempt
  publish_manifest faults initial d cleanups image tags =
      let fail = λ (d' : Disk) (e : WriteError).
        (let a : Attempt = record { disk = d'; cleanups = cleanups; result = some e } in a) in
      elim image.digest [
        | none ↦ fail d getting_digest
        | some digest ↦ elim image.raw_manifest [
          | none ↦ fail d getting_manifest
          | some raw ↦
              let written = write_manifest faults d digest raw in
              let undo =
                if has_hash digest d.manifests
                then restore_index initial ∷ cleanups
                else restore_index initial ∷ remove_new_manifest digest ∷ cleanups in
              if faults.stat_manifest
              then fail d stat_failed
              else if written.1
              then tag_written faults (record { disk = written.0; cleanups = undo; result = none })
                  digest tags
              else fail written.0 manifest_not_written
        ]
      ]

  -- WriteLightweight after the check of the layers, up to the deferred function.
  unfoldable pub write_config_and_manifest : WriteFaults → Disk → Image → List Text → Attempt
  write_config_and_manifest faults d image tags =
      let config = write_config_file faults d image in
      elim config.1 [
        | none ↦ record { disk = config.0; cleanups = []; result = some writing_config }
        | some created ↦
            publish_manifest faults d.index config.0 (config_cleanups created) image tags
      ]

  unfoldable pub attempt_lightweight : WriteFaults → Disk → Image → List Text → Attempt
  attempt_lightweight faults d image tags = elim image.layers [
    | none ↦ record { disk = d; cleanups = []; result = some getting_layers }
    | some layers ↦ elim (find_missing_layer faults.stat_layer d layers) [
      | some e ↦ record { disk = d; cleanups = []; result = some e }
      | none ↦ write_config_and_manifest faults d image tags
    ]
  ]

  unfoldable pub write_lightweight : WriteFaults → Disk → Image → List Text → Disk × Saved
  write_lightweight faults d image tags =
      if faults.read_initial
      then (d, not_saved reading_index false)
      else finish faults (attempt_lightweight faults d image tags)

  -- Write after the config file, up to the deferred function.
  unfoldable pub save_layers_and_manifest :
      WriteFaults → List IndexEntry → Disk → List Cleanup → Image → List Text → Attempt
  save_layers_and_manifest faults initial d cleanups image tags = elim image.layers [
    | none ↦ record { disk = d; cleanups = cleanups; result = some getting_layers }
    | some layers ↦
        let stored = save_layers faults.stat_layer d layers in
        if not (sizes_known layers)
        then record { disk = d; cleanups = cleanups; result = some layer_size }
        else if stored.1
        then publish_manifest faults initial stored.0 cleanups image tags
        else record { disk = stored.0; cleanups = cleanups; result = some writing_blob }
  ]

  unfoldable pub attempt_write : WriteFaults → Disk → Image → List Text → Attempt
  attempt_write faults d image tags =
      let config = write_config_file faults d image in
      elim config.1 [
        | none ↦ record { disk = config.0; cleanups = []; result = some writing_config }
        | some created ↦
            save_layers_and_manifest faults d.index config.0 (config_cleanups created) image tags
      ]

  -- The method Write.
  unfoldable pub write_model : WriteFaults → Disk → Image → List Text → Disk × Saved
  write_model faults d image tags =
      if faults.read_initial
      then (d, not_saved reading_index false)
      else finish faults (attempt_write faults d image tags)

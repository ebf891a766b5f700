-- ===== src/Distribution/WriteTests.antt =====
-- Writes of a small model to an empty store, and the theorems at them.
use model_runner.Common.{
  Occurs, Text, ◌≡◌, ◌≢◌, refl, true, false, [], ◌∷◌, none, some, codes, replicate, arith, text_eq,
  inl, inr, subst,
}
use model_runner.Distribution.Hash.{
  Hash, trim_hex, is_lower_hex, validate_hash, is_safe_algorithm, is_safe_hex, are_hex_digits,
}
use model_runner.Distribution.HashLaws.{IsSha256}
use model_runner.Distribution.LocalStore.{Disk, index_written}
use model_runner.Distribution.Blobs.{has_hash, IsComplete}
use model_runner.Distribution.Write.{
  Manifest, Image, file_written, WriteFaults, saved, write_lightweight, write_model,
  has_stored_blob, find_missing_layer, attempt_lightweight, finish, attempt_write,
  write_config_file, save_layers_and_manifest, save_layers, save_layer, sizes_known,
  publish_manifest,
}
use model_runner.Distribution.Rollback.{write_lightweight-restored}
use model_runner.Distribution.Kept.{IsCoherent}
use model_runner.Distribution.Completeness.{write_model-IsComplete}
use model_runner.Distribution.Mistaken.{write_model-LosesConfig}
use model_runner.Distribution.Tests.{parser, options}

abbrev hash_of : Text → Hash
hash_of hex = record { algorithm = codes "sha256"; hex = hex }

abbrev layer_hash : Hash
layer_hash = hash_of (replicate 64 97)

abbrev config_hash : Hash
config_hash = hash_of (replicate 64 98)

abbrev image_hash : Hash
image_hash = hash_of (replicate 64 99)

abbrev manifest : Manifest
manifest = record { layers = layer_hash ∷ []; config = config_hash }

abbrev image : Image
image = record {
  config_name = some config_hash;
  raw_config_file = true;
  layers = some (
      record { diff_id = some layer_hash; digest = some layer_hash; size = some 3; writable = true }
      ∷ []);
  digest = some image_hash;
  raw_manifest = some (some manifest);
}

abbrev empty_disk : Disk
empty_disk = record { index = []; manifests = []; bundles = []; blobs = [] }

abbrev smooth : WriteFaults
smooth = record {
  read_initial = false;
  stat_config = false;
  write_config = file_written;
  stat_layer = λ _. false;
  stat_manifest = false;
  write_manifest_file = file_written;
  stat_listed = λ _. false;
  read_models = false;
  write_models = index_written;
  remove_written = false;
  read_tags = false;
  write_tags = index_written;
  restore = index_written;
  remove_new = false;
  remove_config = false;
}

layer_hash-IsSha256 : IsSha256 layer_hash
unfolding trim_hex is_lower_hex
layer_hash-IsSha256 = record { algorithm = refl; digits = refl; lower = refl }

config_hash-IsSha256 : IsSha256 config_hash
unfolding trim_hex is_lower_hex
config_hash-IsSha256 = record { algorithm = refl; digits = refl; lower = refl }

image-IsCoherent : IsCoherent image
image-IsCoherent = record {
  config_named = λ m e.
      (let same : manifest ≡ m = ground arith in
        subst (λ x. some config_hash ≡ some x.config) same refl);
  config_sha256 = λ m e.
      (let same : manifest ≡ m = ground arith in
        subst (λ (x : Manifest). IsSha256 x.config) same config_hash-IsSha256);
  layers_sha256 = λ m e h q.
      (let same : m ≡ manifest = ground arith in
        elim (subst (λ (x : Manifest). Occurs h x.layers) same q) [
          | inl here ↦ subst IsSha256 here layer_hash-IsSha256
          | inr past ↦ elim past [ ]
        ]);
}

write_model-IsComplete_example :
    IsComplete (write_model parser options smooth empty_disk image (codes "m" ∷ [])).0
write_model-IsComplete_example =
    write_model-IsComplete parser options smooth refl (inl refl) refl image image-IsCoherent
      empty_disk (λ m q. elim q [ ]) (codes "m" ∷ [])

-- The layer is not in the store.
lightweight_refused : (write_lightweight parser options smooth empty_disk image []).1 ≢ saved
unfolding write_lightweight attempt_lightweight find_missing_layer has_stored_blob has_hash finish
    validate_hash is_safe_algorithm is_safe_hex are_hex_digits text_eq
lightweight_refused e = absurd (ground arith)

write_lightweight-restored_example :
    (write_lightweight parser options smooth empty_disk image []).0 ≡ empty_disk
unfolding has_hash
write_lightweight-restored_example =
    write_lightweight-restored parser options smooth
      (record {
        restores = refl;
        removes_manifest = refl;
        removes_config = refl;
        removes_written = refl;
        reads_models = refl;
        writes_whole = inl refl;
        stats_config = refl;
      })
      empty_disk image [] image_hash refl refl lightweight_refused

-- The config file is there, and its Stat fails; so does the digest of the image.
abbrev unseen : WriteFaults
unseen = record smooth { stat_config = true }

abbrev config_disk : Disk
config_disk = record empty_disk { blobs = config_hash ∷ [] }

abbrev no_digest : Image
no_digest = record image { digest = none }

no_digest-IsCoherent : IsCoherent no_digest
no_digest-IsCoherent = record {
  config_named = image-IsCoherent.config_named;
  config_sha256 = image-IsCoherent.config_sha256;
  layers_sha256 = image-IsCoherent.layers_sha256;
}

no_digest_fails : (write_model parser options unseen config_disk no_digest []).1 ≢ saved
unfolding write_model attempt_write write_config_file save_layers_and_manifest save_layers
    save_layer sizes_known publish_manifest has_stored_blob has_hash finish validate_hash
    is_safe_algorithm is_safe_hex are_hex_digits text_eq
no_digest_fails e = absurd (ground arith)

write_model-LosesConfig_example :
    has_hash config_hash (write_model parser options unseen config_disk no_digest []).0.blobs
    ≡ false
unfolding validate_hash is_safe_algorithm is_safe_hex are_hex_digits text_eq
write_model-LosesConfig_example =
    write_model-LosesConfig parser options unseen refl (inl refl) no_digest no_digest-IsCoherent
      config_disk (λ m q. elim q [ ]) [] config_hash
      (record {
        named = refl;
        safe = refl;
        unseen = refl;
        raw = refl;
        written = refl;
        removes = refl;
      })
      refl no_digest_fails

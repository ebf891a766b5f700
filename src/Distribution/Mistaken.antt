-- ===== src/Distribution/Mistaken.antt =====
-- What a Write of store.go that fails does to a config file that hasBlob of blobs.go did not see.
use model_runner.Common.{
  ◌≡◌, ◌≢◌, inl, inr, refl, sym, ap, ◌∙◌, subst, true, false, List, [], ◌∷◌, Option, none, some,
  arith, Text, Bool-cases, Option-cases, if◌then◌else◌,
}
use model_runner.Distribution.Hash.{Hash, validate_hash}
use model_runner.Distribution.Reference.{Named, Options}
use model_runner.Distribution.LocalStore.{Disk, index_written, without}
use model_runner.Distribution.Rollback.{IsWhole}
use model_runner.Distribution.Blobs.{has_hash, IsComplete}
use model_runner.Distribution.Write.{
  Image, file_written, WriteFaults, WriteError, getting_layers, layer_size, writing_blob,
  reading_index, saved, not_saved, has_stored_blob, write_config_file, save_layers, sizes_known,
  run_cleanups, Attempt, finish, publish_manifest, config_cleanups, save_layers_and_manifest,
  attempt_write, write_model,
}
use model_runner.Distribution.Kept.{
  IsCoherent, KeepsBlobs, IsComplete-KeepsBlobs, save_layers-keeps, write_config_file-stored,
  uncreated, config_cleanups-uncreated,
}
use model_runner.Distribution.Published.{publish_manifest-IsSound}

has_hash-without_self : (h : Hash) (hs : List Hash) → has_hash h (without h hs) ≡ false
unfolding without has_hash
has_hash-without_self h [] = refl
has_hash-without_self h (g ∷ gs) = ground (arith, has_hash-without_self h gs)

-- The config file is written although it may be there, since its Stat fails, and can be removed.
pub record IsMistaken (faults : WriteFaults) (image : Image) (c : Hash) : Type 0 where
  pub named : image.config_name ≡ some c
  pub safe : validate_hash c ≡ true
  pub unseen : faults.stat_config ≡ true
  pub raw : image.raw_config_file ≡ true
  pub written : faults.write_config ≡ file_written
  pub removes : faults.remove_config ≡ false

module _ (parse_named : Text → Option Named) (o : Options) (faults : WriteFaults)
    (restores : faults.restore ≡ index_written) (whole : IsWhole faults.write_models)
    (image : Image) (coherent : IsCoherent image) (d : Disk) (complete : IsComplete d)
    (tags : List Text) (c : Hash) (mistaken : IsMistaken faults image c) where
  abbrev LosesConfig : Attempt → Type 0
  LosesConfig a =
      a.result ≢ none → has_hash c (run_cleanups faults a.disk a.cleanups).0.blobs ≡ false

  uncreated-gone : (blobs : List Hash) → has_hash c (uncreated faults (some c) blobs) ≡ false
  unfolding uncreated
  uncreated-gone blobs =
      let safe = mistaken.safe in
      let removes = mistaken.removes in let gone = has_hash-without_self c blobs in ground arith

  stopped-LosesConfig :
      (d' : Disk) (e : WriteError)
      → LosesConfig (record { disk = d'; cleanups = config_cleanups (some c); result = some e })
  stopped-LosesConfig d' e f =
      subst (λ bs. has_hash c bs ≡ false) (sym (config_cleanups-uncreated faults d' (some c)).1)
        (uncreated-gone d'.blobs)

  layers-LosesConfig :
      (d' : Disk)
      → d'.index ≡ d.index
      → KeepsBlobs d d'
      → has_hash c d'.blobs ≡ true
      → LosesConfig (
          save_layers_and_manifest parse_named o faults d.index d'
            (config_cleanups (some c))
            image
            tags)
  unfolding save_layers_and_manifest
  layers-LosesConfig d' same keeps stored_config = elim (Option-cases image.layers) [
    | inl n ↦ rw (n, save_layers_and_manifest) (stopped-LosesConfig d' getting_layers)
    | inr (ls, n) ↦
        let stored = save_layers faults.stat_layer d' ls in
        let (same', keeps') = save_layers-keeps faults.stat_layer ls d' in
        let same₂ : stored.0.index ≡ d.index = same' ∙ same in
        let keeps₂ : KeepsBlobs d stored.0 = record {
          kept = λ h e. keeps'.kept h (keeps.kept h e);
        } in
        let configured : (g : Hash)
            → image.config_name ≡ some g
            → has_hash g stored.0.blobs ≡ true =
          λ g named.
            (let one : c ≡ g = (let e = sym mistaken.named ∙ named in ground arith) in
              subst (λ x. has_hash x stored.0.blobs ≡ true) one (keeps'.kept c stored_config)) in
        let sound =
          publish_manifest-IsSound parse_named o faults restores whole image coherent (some c)
            stored.0 (IsComplete-KeepsBlobs d stored.0 same₂ keeps₂ complete) configured tags in
        let published : LosesConfig (
            publish_manifest parse_named o faults stored.0.index stored.0 (config_cleanups (some c))
              image tags) =
          λ f.
            subst (λ bs. has_hash c bs ≡ false) (sym (sound.failure f).blobs)
              (uncreated-gone stored.0.blobs) in
        rw (n, save_layers_and_manifest)
          (elim (Bool-cases (sizes_known ls)) [
            | inr s ↦ simp s (stopped-LosesConfig d' layer_size)
            | inl s ↦ elim (Bool-cases stored.1) [
              | inr w ↦ simp (s, w) (stopped-LosesConfig stored.0 writing_blob)
              | inl w ↦
                  simp (s, w)
                    (subst
                      (λ i. LosesConfig (
                        publish_manifest parse_named o faults i stored.0 (config_cleanups (some c))
                          image tags))
                      same₂ published)
            ]
          ])
  ]

  mistaken_config :
      write_config_file faults d image ≡ (record d { blobs = c ∷ d.blobs }, some (some c))
  unfolding write_config_file has_stored_blob
  mistaken_config =
      let named = mistaken.named in
      let safe = mistaken.safe in
      let unseen = mistaken.unseen in
      let raw = mistaken.raw in let written = mistaken.written in ground arith

  attempt-LosesConfig : LosesConfig (attempt_write parse_named o faults d image tags)
  unfolding attempt_write has_hash
  attempt-LosesConfig =
      let created = ap (λ (x : Disk × Option (Option Hash)). x.1) mistaken_config in
      let start = ap (λ (x : Disk × Option (Option Hash)). x.0) mistaken_config in
      let stored : has_hash c (write_config_file faults d image).0.blobs ≡ true =
        write_config_file-stored faults d image (some c) c mistaken.named created in
      let kept : KeepsBlobs d (record d { blobs = c ∷ d.blobs }) = record {
        kept = λ h e. ground arith;
      } in
      rw (created, attempt_write)
        (layers-LosesConfig (write_config_file faults d image).0 (ap (λ (x : Disk). x.index) start)
          (subst (KeepsBlobs d) (sym start) kept) stored)

  finish-LosesConfig :
      (a : Attempt)
      → LosesConfig a
      → (finish faults a).1 ≢ saved
      → has_hash c (finish faults a).0.blobs ≡ false
  unfolding finish
  finish-LosesConfig a loses failing = elim (Option-cases a.result) [
    | inl e ↦ absurd (failing (rw (e, finish) refl))
    | inr (x, e) ↦ rw (e, finish) (loses (λ q. absurd (ground arith)))
  ]

  -- If the index can be read, the Stat of the config file fails, and the file can be written and
  -- removed, a Write that fails leaves no config file, also if there was one, on a disk with every
  -- file of every model of the index, for an image whose manifest names its config file with
  -- hashes as NewHash gives them, if the restoring of the index does not fail and the write of the
  -- index by WriteManifest succeeds or leaves the old index.
  pub write_model-LosesConfig :
      faults.read_initial ≡ false
      → (write_model parse_named o faults d image tags).1 ≢ saved
      → has_hash c (write_model parse_named o faults d image tags).0.blobs ≡ false
  unfolding write_model
  write_model-LosesConfig reads failing =
      let attempt = attempt_write parse_named o faults d image tags in
      simp reads (
        finish-LosesConfig attempt attempt-LosesConfig (
          subst
            (λ b.
              (if b then (d, not_saved reading_index false) else finish faults attempt).1 ≢ saved)
            reads failing))

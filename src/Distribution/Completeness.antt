-- ===== src/Distribution/Completeness.antt =====
-- Write of store.go as a whole keeps every file of every model of the index on disk.
use model_runner.Common.{
  ◌≡◌, ◌≢◌, inl, inr, refl, sym, ap, ◌∙◌, subst, true, false, List, Option, none, some, arith, Text,
  Bool-cases, Option-cases,
}
use model_runner.Distribution.Hash.{Hash}
use model_runner.Distribution.Reference.{Named, Options}
use model_runner.Distribution.LocalStore.{Disk, index_written}
use model_runner.Distribution.Rollback.{IsWhole}
use model_runner.Distribution.Blobs.{has_hash, IsComplete}
use model_runner.Distribution.Write.{
  Image, WriteFaults, WriteError, getting_layers, layer_size, writing_blob, writing_config,
  write_config_file, save_layers, sizes_known, run_cleanups, Attempt, finish, publish_manifest,
  config_cleanups, save_layers_and_manifest, attempt_write, write_model,
}
use model_runner.Distribution.Kept.{
  IsCoherent, KeepsBlobs, IsComplete-KeepsBlobs, save_layers-keeps, write_config_file-keeps,
  write_config_file-stored, write_config_file-absent, uncreated-kept,
}
use model_runner.Distribution.Published.{IsSound, failed-IsSound, publish_manifest-IsSound}

module _ (parse_named : Text → Option Named) (o : Options) (faults : WriteFaults)
    (restores : faults.restore ≡ index_written) (whole : IsWhole faults.write_models)
    (stats : faults.stat_config ≡ false) where
  module _ (image : Image) (coherent : IsCoherent image) (d : Disk) (complete : IsComplete d)
      (tags : List Text) where
    -- A success is complete, and a failure leaves the index and the blobs.
    record IsSettled (a : Attempt) : Type 0 where
      pub success : a.result ≡ none → IsComplete a.disk
      pub index : a.result ≢ none → (run_cleanups faults a.disk a.cleanups).0.index ≡ d.index
      pub blobs : a.result ≢ none → KeepsBlobs d (run_cleanups faults a.disk a.cleanups).0

    IsSound-IsSettled :
        (created : Option Hash) (d' : Disk) (a : Attempt)
        → ((g : Hash) → created ≡ some g → has_hash g d.blobs ≡ false)
        → KeepsBlobs d d'
        → IsSound parse_named o faults restores whole d.index created d' a
        → IsSettled a
    IsSound-IsSettled created d' a absent keeps sound = record {
      success = sound.success;
      index = λ f. (sound.failure f).index;
      blobs = λ f. record {
        kept = λ h e.
            subst (λ bs. has_hash h bs ≡ true) (sym (sound.failure f).blobs)
              (uncreated-kept faults created d d'.blobs absent keeps.kept h e);
      };
    }

    failed-IsSettled :
        (created : Option Hash) (d' : Disk)
        → ((g : Hash) → created ≡ some g → has_hash g d.blobs ≡ false)
        → d'.index ≡ d.index
        → KeepsBlobs d d'
        → (e : WriteError)
        → IsSettled (record { disk = d'; cleanups = config_cleanups created; result = some e })
    failed-IsSettled created d' absent same keeps e =
        IsSound-IsSettled created d'
          (record { disk = d'; cleanups = config_cleanups created; result = some e }) absent keeps
          (subst
            (λ i.
              IsSound parse_named o faults restores whole i created d'
                (record { disk = d'; cleanups = config_cleanups created; result = some e }))
            same (failed-IsSound parse_named o faults restores whole created d' d' e refl refl))

    layers-IsSettled :
        (created : Option Hash) (d' : Disk)
        → ((g : Hash) → created ≡ some g → has_hash g d.blobs ≡ false)
        → d'.index ≡ d.index
        → KeepsBlobs d d'
        → ((c : Hash) → image.config_name ≡ some c → has_hash c d'.blobs ≡ true)
        → IsSettled (
            save_layers_and_manifest parse_named o faults d.index d'
              (config_cleanups created)
              image
              tags)
    unfolding save_layers_and_manifest
    layers-IsSettled created d' absent same keeps configured =
        let sound = λ (e : WriteError). failed-IsSettled created d' absent same keeps e in
        elim (Option-cases image.layers) [
          | inl n ↦ rw (n, save_layers_and_manifest) (sound getting_layers)
          | inr (ls, n) ↦
              let stored = save_layers faults.stat_layer d' ls in
              let (same', keeps') = save_layers-keeps faults.stat_layer ls d' in
              let same₂ : stored.0.index ≡ d.index = same' ∙ same in
              let keeps₂ : KeepsBlobs d stored.0 = record {
                kept = λ h e. keeps'.kept h (keeps.kept h e);
              } in
              let whole_before = IsComplete-KeepsBlobs d stored.0 same₂ keeps₂ complete in
              let published =
                publish_manifest-IsSound parse_named o faults restores whole image coherent created
                  stored.0 whole_before (λ c named. keeps'.kept c (configured c named)) tags in
              rw (n, save_layers_and_manifest)
                (elim (Bool-cases (sizes_known ls)) [
                  | inr s ↦ simp s (sound layer_size)
                  | inl s ↦ elim (Bool-cases stored.1) [
                    | inr w ↦
                        simp (s, w)
                          (failed-IsSettled created stored.0 absent same₂ keeps₂ writing_blob)
                    | inl w ↦
                        simp (s, w)
                          (IsSound-IsSettled created stored.0 _ absent keeps₂ (
                            subst
                              (λ i. IsSound parse_named o faults restores whole i created stored.0 (
                                publish_manifest parse_named o faults i stored.0
                                  (config_cleanups created) image tags))
                              same₂ published))
                  ]
                ])
        ]

    attempt-IsSettled : IsSettled (attempt_write parse_named o faults d image tags)
    unfolding attempt_write config_cleanups
    attempt-IsSettled =
        let (same, keeps) = write_config_file-keeps faults d image stats in
        elim (Option-cases (write_config_file faults d image).1) [
          | inl e ↦
              rw (e, attempt_write)
                (failed-IsSettled none (write_config_file faults d image).0
                  (λ g q. absurd (ground arith)) same keeps writing_config)
          | inr (created, e) ↦
              rw (e, attempt_write)
                (layers-IsSettled created (write_config_file faults d image).0
                  (λ g q. write_config_file-absent faults d image g stats (e ∙ ap some q)) same
                  keeps (λ c named. write_config_file-stored faults d image created c named e))
        ]

    finish-IsComplete : (a : Attempt) → IsSettled a → IsComplete (finish faults a).0
    unfolding finish
    finish-IsComplete a settled = elim (Option-cases a.result) [
      | inl e ↦ rw (e, finish) (settled.success e)
      | inr (x, e) ↦
          let failing : a.result ≢ none = λ q. absurd (ground arith) in
          rw (e, finish)
            (IsComplete-KeepsBlobs d (run_cleanups faults a.disk a.cleanups).0
              (settled.index failing) (settled.blobs failing) complete)
    ]

    -- If every file of every model of the index is on disk, this is so after Write too, if the
    -- Stat of the config file and the restoring of the index do not fail and the write of the
    -- index by WriteManifest succeeds or leaves the old index, whatever other calls fail, for an
    -- image whose manifest names its config file, with hashes as NewHash gives them.
    pub write_model-IsComplete : IsComplete (write_model parse_named o faults d image tags).0
    unfolding write_model
    write_model-IsComplete = elim (Bool-cases faults.read_initial) [
      | inl e ↦ simp e complete
      | inr e ↦
          simp e
            (finish-IsComplete (attempt_write parse_named o faults d image tags) attempt-IsSettled)
    ]

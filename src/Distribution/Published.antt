-- ===== src/Distribution/Published.antt =====
-- The end of Write and WriteLightweight of store.go, from the manifest on: what is on disk when it
-- succeeds, and after the cleanups when it fails.
use model_runner.Common.{
  ◌≡◌, ◌≢◌, inl, inr, refl, sym, ap, ◌∙◌, subst, Bool, true, false, List, ◌∷◌, Option, none, some,
  arith, Text, if◌then◌else◌, Bool-cases, Option-cases, Occurs,
}
use model_runner.Distribution.Hash.{Hash}
use model_runner.Distribution.HashLaws.{IsSha256}
use model_runner.Distribution.Reference.{Named, Options}
use model_runner.Distribution.Index.{IndexEntry, add}
use model_runner.Distribution.LocalStore.{Disk, index_written, write_fails, written_index}
use model_runner.Distribution.Blobs.{has_hash, HasFiles, IsComplete}
use model_runner.Distribution.Rollback.{tag_written-IsReindexed, IsWhole}
use model_runner.Distribution.Complete.{
  tag_written-HasOldFiles, all_blobs_exist-has_hash, files_there,
}
use model_runner.Distribution.Write.{
  Manifest, Image, WriteFaults, WriteError, stat_failed, manifest_not_written, getting_digest,
  getting_manifest, Cleanup, remove_new_manifest, restore_index, all_blobs_exist,
  new_entry_for_manifest, drop_manifest, run_cleanup, run_cleanups, Attempt, index_manifest,
  write_manifest, tag_written, publish_manifest, config_cleanups,
}
use model_runner.Distribution.Kept.{
  IsCoherent, IsComplete-of, Occurs-add, uncreated, config_cleanups-uncreated,
}

module _ (parse_named : Text → Option Named) (o : Options) (faults : WriteFaults)
    (restores : faults.restore ≡ index_written) (whole : IsWhole faults.write_models) where
  write_manifest-blobs :
      (d : Disk) (digest : Hash) (raw : Option Manifest)
      → (write_manifest parse_named o faults d digest raw).0.blobs ≡ d.blobs
  unfolding write_manifest index_manifest drop_manifest
  write_manifest-blobs d digest none = refl
  write_manifest-blobs d digest (some manifest) = ground arith

  write_manifest-added :
      (d : Disk) (digest : Hash) (m : Manifest)
      → (write_manifest parse_named o faults d digest (some m)).1 ≡ true
      → (write_manifest parse_named o faults d digest (some m)).0.index
        ≡ add parse_named o d.index (new_entry_for_manifest digest m)
  unfolding write_manifest index_manifest write_fails written_index
  write_manifest-added d digest m e = elim whole [
    | inl writes ↦ ground arith
    | inr keeps ↦ ground arith
  ]

  write_manifest-index :
      (d : Disk) (digest : Hash) (raw : Option Manifest)
      → (write_manifest parse_named o faults d digest raw).1 ≡ false
      → (write_manifest parse_named o faults d digest raw).0.index ≡ d.index
  unfolding write_manifest index_manifest drop_manifest write_fails written_index
  write_manifest-index d digest none e = refl
  write_manifest-index d digest (some manifest) e = elim whole [
    | inl writes ↦ ground arith
    | inr keeps ↦ ground arith
  ]

  -- The disk after a failure has the index at the start, and its blobs but for the config file.
  pub record IsTakenBack (initial : List IndexEntry) (created : Option Hash) (d : Disk)
      (a : Attempt) : Type 0 where
    pub index : (run_cleanups faults a.disk a.cleanups).0.index ≡ initial
    pub blobs : (run_cleanups faults a.disk a.cleanups).0.blobs ≡ uncreated faults created d.blobs

  unchanged-IsTakenBack :
      (created : Option Hash) (d : Disk) (d' : Disk) (e : WriteError)
      → d'.index ≡ d.index
      → d'.blobs ≡ d.blobs
      → IsTakenBack d.index created d
          (record { disk = d'; cleanups = config_cleanups created; result = some e })
  unchanged-IsTakenBack created d d' e same same' =
      let (i, b) = config_cleanups-uncreated faults d' created in
      record { index = i ∙ same; blobs = b ∙ ap (uncreated faults created) same' }

  undo_cleanups : Bool → List IndexEntry → Hash → Option Hash → List Cleanup
  undo_cleanups existed initial digest created =
      if existed
      then restore_index initial ∷ config_cleanups created
      else restore_index initial ∷ remove_new_manifest digest ∷ config_cleanups created

  restored :
      (d : Disk) (models : List IndexEntry)
      → (run_cleanup faults d (restore_index models)).0 ≡ record d { index = models }
  unfolding run_cleanup written_index
  restored d models = simp restores refl

  restored-IsTakenBack :
      (existed : Bool) (initial : List IndexEntry) (digest : Hash) (created : Option Hash)
      (d : Disk) (a : Attempt)
      → a.cleanups ≡ undo_cleanups existed initial digest created
      → a.disk.blobs ≡ d.blobs
      → IsTakenBack initial created d a
  unfolding undo_cleanups run_cleanups run_cleanup drop_manifest
  restored-IsTakenBack true initial digest created d a e same =
      let at = record a.disk { index = initial } in
      let (i, b) = config_cleanups-uncreated faults at created in
      let run : (run_cleanups faults a.disk a.cleanups).0
          ≡ (run_cleanups faults at (config_cleanups created)).0 =
        ap (λ cs. (run_cleanups faults a.disk cs).0) e
        ∙ ap (λ x. (run_cleanups faults x (config_cleanups created)).0) (restored a.disk initial) in
      record {
        index = ap (λ (x : Disk). x.index) run ∙ i;
        blobs = ap (λ (x : Disk). x.blobs) run ∙ b ∙ ap (uncreated faults created) same;
      }
  restored-IsTakenBack false initial digest created d a e same =
      let next = λ (x : Disk). (run_cleanup faults x (remove_new_manifest digest)).0 in
      let at = next (record a.disk { index = initial }) in
      let (i, b) = config_cleanups-uncreated faults at created in
      let run : (run_cleanups faults a.disk a.cleanups).0
          ≡ (run_cleanups faults at (config_cleanups created)).0 =
        ap (λ cs. (run_cleanups faults a.disk cs).0) e
        ∙ ap (λ x. (run_cleanups faults (next x) (config_cleanups created)).0)
            (restored a.disk initial) in
      let same_at : (at.index ≡ initial) × (at.blobs ≡ a.disk.blobs) = ground arith in
      record {
        index = ap (λ (x : Disk). x.index) run ∙ i ∙ same_at.0;
        blobs =
            ap (λ (x : Disk). x.blobs) run ∙ b ∙ ap (uncreated faults created) (same_at.1 ∙ same);
      }

  -- An attempt that succeeds is complete, one that fails is taken back.
  pub record IsSound (initial : List IndexEntry) (created : Option Hash) (d : Disk) (a : Attempt)
      : Type 0 where
    pub success : a.result ≡ none → IsComplete a.disk
    pub failure : a.result ≢ none → IsTakenBack initial created d a

  pub failed-IsSound :
      (created : Option Hash) (d d' : Disk) (e : WriteError)
      → d'.index ≡ d.index
      → d'.blobs ≡ d.blobs
      → IsSound d.index created d
          (record { disk = d'; cleanups = config_cleanups created; result = some e })
  failed-IsSound created d d' e same same' = record {
    success = λ x. absurd (ground arith);
    failure = λ _. unchanged-IsTakenBack created d d' e same same';
  }

  tag_written-IsComplete :
      (a : Attempt) (digest : Hash) (tags : List Text)
      → IsComplete a.disk
      → IsComplete (tag_written parse_named o faults a digest tags).disk
  tag_written-IsComplete a digest tags whole =
      let old = tag_written-HasOldFiles parse_named o faults a digest tags in
      let ((i, at), _) = tag_written-IsReindexed parse_named o faults a digest tags in
      IsComplete-of a.disk (tag_written parse_named o faults a digest tags).disk
        (ap (λ (x : Disk). x.blobs) at)
        (λ m q.
          let (m', there, same) = old m q in
          λ f h listed parsed.
            whole m' there f h (subst (λ fs. Occurs f fs) (sym same) listed) parsed)

  tag_written-IsSound :
      (existed : Bool) (initial : List IndexEntry) (digest : Hash) (created : Option Hash)
      (d : Disk) (a : Attempt) (tags : List Text)
      → a.cleanups ≡ undo_cleanups existed initial digest created
      → a.disk.blobs ≡ d.blobs
      → IsComplete a.disk
      → IsSound initial created d (tag_written parse_named o faults a digest tags)
  tag_written-IsSound existed initial digest created d a tags e same whole =
      let ((i, at), kept) = tag_written-IsReindexed parse_named o faults a digest tags in
      record {
        success = λ _. tag_written-IsComplete a digest tags whole;
        failure = λ _.
            restored-IsTakenBack existed initial digest created d _ (kept ∙ e)
              (ap (λ (x : Disk). x.blobs) at ∙ same);
      }

  module _ (image : Image) (coherent : IsCoherent image) (created : Option Hash) (d : Disk)
      (complete : IsComplete d)
      (configured : (c : Hash) → image.config_name ≡ some c → has_hash c d.blobs ≡ true) where
    write_manifest-IsComplete :
        (digest : Hash) (raw : Option Manifest)
        → image.raw_manifest ≡ some raw
        → (write_manifest parse_named o faults d digest raw).1 ≡ true
        → IsComplete (write_manifest parse_named o faults d digest raw).0
    unfolding new_entry_for_manifest write_manifest
    write_manifest-IsComplete digest none e w = absurd (ground arith)
    write_manifest-IsComplete digest (some m) e w =
        let config = configured m.config (coherent.config_named m e) in
        let all : all_blobs_exist faults.stat_listed d m.layers ≡ true = ground arith in
        let there : (h : Hash) → Occurs h m.layers → IsSha256 h × (has_hash h d.blobs ≡ true) =
          λ h q. (
            coherent.layers_sha256 m e h q,
            all_blobs_exist-has_hash faults.stat_listed d m.layers all h q,
          ) in
        let entry : HasFiles d.blobs (new_entry_for_manifest digest m) =
          files_there d.blobs m.layers m.config there (coherent.config_sha256 m e) config in
        IsComplete-of d (write_manifest parse_named o faults d digest (some m)).0
          (write_manifest-blobs d digest (some m))
          (λ x q.
            elim (Occurs-add parse_named o d.index (new_entry_for_manifest digest m) x
              (subst (λ i. Occurs x i) (write_manifest-added d digest m w) q)) [
                | inl old ↦ complete x old
                | inr same ↦ subst (HasFiles d.blobs) same entry
              ])

    abbrev written_attempt : Hash → Option Manifest → Attempt
    unfolding undo_cleanups
    written_attempt digest raw = record {
      disk = (write_manifest parse_named o faults d digest raw).0;
      cleanups = undo_cleanups (has_hash digest d.manifests) d.index digest created;
      result = none;
    }

    pub publish_manifest-IsSound :
        (tags : List Text)
        → IsSound d.index created d
            (publish_manifest parse_named o faults d.index d (config_cleanups created) image tags)
    unfolding publish_manifest undo_cleanups
    publish_manifest-IsSound tags = elim (Option-cases image.digest) [
      | inl n ↦ rw (n, publish_manifest) (failed-IsSound created d d getting_digest refl refl)
      | inr (digest, n) ↦ elim (Option-cases image.raw_manifest) [
        | inl r ↦
            rw (n, publish_manifest)
              (rw (r, publish_manifest) (failed-IsSound created d d getting_manifest refl refl))
        | inr (raw, r) ↦
            rw (n, publish_manifest)
              (rw (r, publish_manifest)
                (elim (Bool-cases faults.stat_manifest) [
                  | inl s ↦ simp s (failed-IsSound created d d stat_failed refl refl)
                  | inr s ↦ elim (Bool-cases (write_manifest parse_named o faults d digest raw).1) [
                    | inr w ↦
                        simp (s, w)
                          (failed-IsSound created d
                            (write_manifest parse_named o faults d digest raw).0
                            manifest_not_written (write_manifest-index d digest raw w)
                            (write_manifest-blobs d digest raw))
                    | inl w ↦
                        simp (s, w)
                          (tag_written-IsSound (has_hash digest d.manifests) d.index digest created
                            d (written_attempt digest raw) tags refl
                            (write_manifest-blobs d digest raw)
                            (write_manifest-IsComplete digest raw r w))
                  ]
                ]))
      ]
    ]

-- ===== src/Distribution/Kept.antt =====
-- Which blobs the steps of Write of store.go keep, and when every file of every model is on disk.
use model_runner.Common.{
  ◌≡◌, ◌≢◌, ◌⊎◌, inl, inr, refl, sym, ap, ◌∙◌, subst, Bool, true, false, not, ◌||◌, List, [], ◌∷◌,
  ◌++◌, Option, none, some, arith, Text, if◌then◌else◌, Option-cases, Occurs,
}
use model_runner.Distribution.Hash.{Hash, validate_hash}
use model_runner.Distribution.HashLaws.{IsSha256}
use model_runner.Distribution.Reference.{Named, Options}
use model_runner.Distribution.Index.{IndexEntry, find, add}
use model_runner.Distribution.LocalStore.{Disk, without}
use model_runner.Distribution.Blobs.{has_hash, HasFiles, IsComplete, has_hash-without}
use model_runner.Distribution.Rollback.{hash_eq_refl, write_config_file_failed}
use model_runner.Distribution.Write.{
  Manifest, Image, ImageLayer, WriteFaults, has_stored_blob, write_config_file, save_layer,
  save_layers, run_cleanup, run_cleanups, config_cleanups,
}

-- The hashes of an image: its manifest names its config file, by digests that NewHash gave.
pub record IsCoherent (image : Image) : Type 0 where
  pub config_named :
      (m : Manifest) → image.raw_manifest ≡ some (some m) → image.config_name ≡ some m.config
  pub config_sha256 : (m : Manifest) → image.raw_manifest ≡ some (some m) → IsSha256 m.config
  pub layers_sha256 :
      (m : Manifest)
      → image.raw_manifest ≡ some (some m)
      → (h : Hash) → Occurs h m.layers
      → IsSha256 h

-- Every blob of the first disk is on the second.
pub record KeepsBlobs (d d' : Disk) : Type 0 where
  pub kept : (h : Hash) → has_hash h d.blobs ≡ true → has_hash h d'.blobs ≡ true

pub IsComplete-KeepsBlobs :
    (d d' : Disk) → d'.index ≡ d.index → KeepsBlobs d d' → IsComplete d → IsComplete d'
IsComplete-KeepsBlobs d d' same keeps complete m q f h listed parsed =
    keeps.kept h (complete m (subst (λ i. Occurs m i) same q) f h listed parsed)

pub save_layer-keeps :
    (stats : Hash → Bool) (d : Disk) (l : ImageLayer)
    → ((save_layer stats d l).0.index ≡ d.index) × KeepsBlobs d (save_layer stats d l).0
unfolding save_layer has_stored_blob has_hash
save_layer-keeps stats d l = (ground arith, record { kept = λ h e. ground arith })

pub save_layers-keeps :
    (stats : Hash → Bool) (ls : List ImageLayer) (d : Disk)
    → ((save_layers stats d ls).0.index ≡ d.index) × KeepsBlobs d (save_layers stats d ls).0
unfolding save_layers
save_layers-keeps stats [] d = (refl, record { kept = λ h e. e })
save_layers-keeps stats (l ∷ ls) d =
    let (same, keeps) = save_layer-keeps stats d l in
    let (same', keeps') = save_layers-keeps stats ls (save_layer stats d l).0 in
    (same' ∙ same, record { kept = λ h e. keeps'.kept h (keeps.kept h e) })

pub write_config_file-keeps :
    (faults : WriteFaults) (d : Disk) (image : Image)
    → faults.stat_config ≡ false
    → let d' = (write_config_file faults d image).0 in (d'.index ≡ d.index) × KeepsBlobs d d'
unfolding write_config_file has_stored_blob has_hash
write_config_file-keeps faults d image stats =
    elim (Option-cases (write_config_file faults d image).1) [
      | inl e ↦
          let same = write_config_file_failed faults d image stats e in
          (
            ap (λ (x : Disk). x.index) same,
            record { kept = λ h q. subst (λ (x : Disk). has_hash h x.blobs ≡ true) (sym same) q },
          )
      | inr (created, e) ↦ (ground arith, record { kept = λ h q. ground arith })
    ]

pub write_config_file-stored :
    (faults : WriteFaults) (d : Disk) (image : Image) (created : Option Hash) (c : Hash)
    → image.config_name ≡ some c
    → (write_config_file faults d image).1 ≡ some created
    → has_hash c (write_config_file faults d image).0.blobs ≡ true
unfolding write_config_file has_stored_blob has_hash
write_config_file-stored faults d image created c named e = ground (arith, hash_eq_refl c)

pub IsComplete-of :
    (d d' : Disk)
    → d'.blobs ≡ d.blobs
    → ((m : IndexEntry) → Occurs m d'.index → HasFiles d.blobs m)
    → IsComplete d'
IsComplete-of d d' same files m q f h listed parsed =
    subst (λ bs. has_hash h bs ≡ true) (sym same) (files m q f h listed parsed)

pub Occurs-append :
    (models : List IndexEntry) (e m : IndexEntry)
    → Occurs m (models ++ e ∷ [])
    → Occurs m models ⊎ (e ≡ m)
Occurs-append [] e m q = elim q [ inl same ↦ inr same | inr past ↦ elim past [ ] ]
Occurs-append (x ∷ xs) e m q = elim q [
  | inl same ↦ inl (inl same)
  | inr below ↦ elim (Occurs-append xs e m below) [ inl old ↦ inl (inr old) | inr new ↦ inr new ]
]

pub Occurs-add :
    (parse_named : Text → Option Named) (o : Options) (models : List IndexEntry) (e m : IndexEntry)
    → Occurs m (add parse_named o models e)
    → Occurs m models ⊎ (e ≡ m)
unfolding add
Occurs-add parse_named o models e m q = elim (Option-cases (find parse_named o models e.id)) [
  | inl new ↦ Occurs-append models e m (rw (new, add) at q)
  | inr (x, known) ↦ inl (rw (known, add) at q)
]

-- What the cleanup of a config file leaves of the blobs.
unfoldable pub uncreated : WriteFaults → Option Hash → List Hash → List Hash
uncreated faults none blobs = blobs
uncreated faults (some g) blobs =
    if not (validate_hash g) || faults.remove_config then blobs else without g blobs

pub config_cleanups-uncreated :
    (faults : WriteFaults) (d : Disk) (created : Option Hash)
    → let d' = (run_cleanups faults d (config_cleanups created)).0 in
      (d'.index ≡ d.index) × (d'.blobs ≡ uncreated faults created d.blobs)
unfolding uncreated run_cleanups run_cleanup config_cleanups
config_cleanups-uncreated faults d none = (refl, refl)
config_cleanups-uncreated faults d (some g) = ground arith

-- A config file that was created was not there.
pub write_config_file-absent :
    (faults : WriteFaults) (d : Disk) (image : Image) (g : Hash)
    → faults.stat_config ≡ false
    → (write_config_file faults d image).1 ≡ some (some g)
    → has_hash g d.blobs ≡ false
unfolding write_config_file has_stored_blob
write_config_file-absent faults d image g stats e = ground arith

pub uncreated-kept :
    (faults : WriteFaults) (created : Option Hash) (d : Disk) (blobs : List Hash)
    → ((g : Hash) → created ≡ some g → has_hash g d.blobs ≡ false)
    → ((h : Hash) → has_hash h d.blobs ≡ true → has_hash h blobs ≡ true)
    → (h : Hash) → has_hash h d.blobs ≡ true
    → has_hash h (uncreated faults created blobs) ≡ true
unfolding uncreated
uncreated-kept faults none d blobs absent keeps h e = keeps h e
uncreated-kept faults (some g) d blobs absent keeps h e =
    let gone = absent g refl in
    let other : g ≢ h = λ same.
      absurd (let e' = subst (λ x. has_hash x d.blobs ≡ true) (sym same) e in ground arith) in
    let stays = has_hash-without h g blobs other (keeps h e) in
    let there = keeps h e in ground arith

-- ===== src/IndexStore/BackupLaws.antt =====
-- The backup of a killed job, what a restore brings back, and what `reconcile` reports.
use coinjoin_pipeline.Base.{
  ℕ, zero, suc, ◌≡◌, refl, sym, ◌∙◌, ◌↔◌, inl, inr, String, Bool, true, false, arith, if◌then◌else◌,
  leb, Bool-cases, Option, none, some, subst, ◌==◌, string_equality, not, ◌||◌, Option-cases,
  is_some, nat_equality, list_eq, list_beq_iff, List, ==-refl, get_elem?,
}
use coinjoin_pipeline.IndexStore.Copy.{
  IndexFile, Rows, WorkingCopy, rows, inventory, lists_files, row_eq, complete,
}
use coinjoin_pipeline.IndexStore.Backup.{
  Members, BackupObjects, BackupManifest, StoreError, members_of, backup, backup_from, restore,
  restore_from, has_listed_size, extract, restored, checked, reconcile,
}
use coinjoin_pipeline.IndexStore.PublishLaws.{writing-incomplete, inventory-lists}
use coinjoin_pipeline.OptionRules.Names.{is_block_hash}

complete_parts :
    (copy : WorkingCopy)
    → complete copy ≡ true
    → ((manifest : String) × (copy.manifest ≡ some manifest))
      × ((listed : Rows × Rows) × (copy.files_txt ≡ some listed)
          × (rows copy.files ≡ listed.0)
          × (rows copy.others ≡ listed.1))
unfolding complete lists_files inventory
complete_parts copy h = elim (Option-cases copy.manifest) [
  | inl missing ↦ absurd (ground arith)
  | inr named ↦ elim (Option-cases copy.files_txt) [
    | inl missing ↦ absurd (ground (arith, rw missing at h))
    | inr (listed, e) ↦
        let both = rw e at h in
        (
          named,
          (
            listed,
            e,
            (list_beq_iff (rows copy.files) listed.0).0 (ground (arith, both)),
            (list_beq_iff (rows copy.others) listed.1).0 (ground (arith, both)),
          ),
        )
  ]
]

-- A restored copy is complete when the files beside its members are those that are listed.
restored-complete :
    (copy : WorkingCopy) (others : List IndexFile)
    → complete copy ≡ true
    → complete (restored (members_of copy) others) ≡ (rows others == rows copy.others)
unfolding complete lists_files inventory
restored-complete copy others h =
    let ((manifest, named), (listed, e, files, beside)) = complete_parts copy h in
    rw (named, e, sym files, sym beside) (ground (arith, inventory-lists (rows copy.files)))

module _ {A : Type 0} (pack : Members → A) (unpack : A → Option Members) (sha256 : A → String)
    (size : A → ℕ) (archive_uri : String) where
  -- What the backup stands for: the members that its manifest promises.
  abbrev promised : Option BackupManifest → Option A → Option Members
  promised none archive = none
  promised (some manifest) archive =
      checked pack unpack sha256 size archive_uri archive manifest.archive_sha256

  abbrev pub stored : BackupObjects A → Option Members
  stored bucket = promised bucket.manifest bucket.archive

  checked_self :
      (members : Members)
      → unpack (pack members) ≡ some members
      → checked pack unpack sha256 size archive_uri (some (pack members)) (sha256 (pack members))
        ≡ some members
  unfolding checked
  checked_self members h = rw (==-refl (sha256 (pack members))) h

  abbrev killed_at :
      Option ℕ → Option String → Members → BackupObjects A → ℕ → Option (BackupObjects A)
  killed_at listed manifest members bucket n =
      get_elem?
        (backup_from pack unpack sha256 size archive_uri manifest true true listed members bucket) n

  -- The bucket after the last effect.
  abbrev finished : String → Members → BackupObjects A
  finished manifest members = record {
    archive = some (pack members);
    checksum = some (sha256 (pack members));
    manifest = some (record {
      local = manifest;
      archive_uri = archive_uri;
      archive_sha256 = sha256 (pack members);
      archive_size = size (pack members);
    });
  }

  -- The last effect is the manifest, when the listed size agrees.
  listed-finished :
      (listed : Option ℕ) (members : Members) (bucket killed : BackupObjects A) (manifest : String)
      (unnamed emptied : Bool)
      → get_elem?
          (backup_from pack unpack sha256 size archive_uri
            (some manifest)
            unnamed
            emptied
            listed
            members
            bucket)
          5
        ≡ some killed
      → finished manifest members ≡ killed
  unfolding backup_from
  listed-finished listed members bucket killed manifest unnamed emptied h =
      elim (Bool-cases (has_listed_size listed (size (pack members)))) [
        | inl y ↦ cc (rw y at h)
        | inr n ↦ cc (rw n at h)
      ]

  unnamed_lem : (killed : BackupObjects A) → killed.manifest ≡ none → stored killed ≡ none
  unnamed_lem killed h = rw h refl

  backup_from-stored :
      (listed : Option ℕ) (members : Members) (bucket killed : BackupObjects A) (manifest : String)
      (n : ℕ)
      → unpack (pack members) ≡ some members
      → killed_at listed (some manifest) members bucket n ≡ some killed
      → stored killed ≡ (if n == 0 then stored bucket else if leb 5 n then some members else none)
  unfolding backup_from
  backup_from-stored listed members bucket killed manifest zero r h =
      let same : bucket ≡ killed = cc h in rw (sym same) refl
  backup_from-stored listed members bucket killed manifest (suc zero) r h =
      unnamed_lem killed (cc h)
  backup_from-stored listed members bucket killed manifest (suc (suc zero)) r h =
      unnamed_lem killed (cc h)
  backup_from-stored listed members bucket killed manifest (suc (suc (suc zero))) r h =
      unnamed_lem killed (cc h)
  backup_from-stored listed members bucket killed manifest (suc (suc (suc (suc zero)))) r h =
      unnamed_lem killed (cc h)
  backup_from-stored listed members bucket killed manifest (suc (suc (suc (suc (suc zero))))) r h =
      subst (λ b. stored b ≡ some members)
        (listed-finished listed members bucket killed manifest true true h) (checked_self members r)
  backup_from-stored listed members bucket killed manifest (suc (suc (suc (suc (suc (suc n)))))) r
        h =
      elim (Bool-cases (has_listed_size listed (size (pack members)))) [
        | inl y ↦ cc (rw y at h)
        | inr d ↦ cc (rw d at h)
      ]

  -- A job killed during the backup of a copy with a manifest, after any number of its effects and
  -- with its deletions done, leaves a backup that stands for what it stood for before the first
  -- effect, for nothing, or, after the last effect, for the copy.
  pub backup-stored :
      (listed : Option ℕ) (copy : WorkingCopy) (bucket killed : BackupObjects A) (manifest : String)
      (n : ℕ)
      → unpack (pack (members_of copy)) ≡ some (members_of copy)
      → copy.manifest ≡ some manifest
      → get_elem? (backup pack unpack sha256 size archive_uri true true listed copy bucket) n
        ≡ some killed
      → stored killed
        ≡ (if n == 0 then stored bucket else if leb 5 n then some (members_of copy) else none)
  unfolding backup
  backup-stored listed copy bucket killed manifest n r e h =
      backup_from-stored listed (members_of copy) bucket killed manifest n r
        (subst (λ m. killed_at listed m (members_of copy) bucket n ≡ some killed) e h)

  restore-finished :
      (manifest : String) (members left : Members) (other : WorkingCopy)
      → unpack (pack members) ≡ some members
      → is_block_hash (sha256 (pack members)) ≡ true
      → restore pack unpack sha256 size archive_uri (finished manifest members) left other ≡ (
        restored members other.others,
        if complete (restored members other.others) then none else some StoreError.incomplete,
      )
  unfolding restore restore_from extract
  restore-finished manifest members left other r hash =
      rw (==-refl archive_uri, hash, checked_self members r) refl

  -- After the last effect of the backup of a complete copy, with its deletions done or not, a restore
  -- leaves the members of the copy beside the other files that are there already. It reports an error
  -- exactly when those are not, by name and size, the other files that the copy had.
  pub restore-backup :
      (listed : Option ℕ) (copy other : WorkingCopy) (left : Members)
      (bucket saved : BackupObjects A) (unnamed emptied : Bool)
      → unpack (pack (members_of copy)) ≡ some (members_of copy)
      → is_block_hash (sha256 (pack (members_of copy))) ≡ true
      → complete copy ≡ true
      → get_elem? (backup pack unpack sha256 size archive_uri unnamed emptied listed copy bucket) 5
        ≡ some saved
      → restore pack unpack sha256 size archive_uri saved left other ≡ (
        restored (members_of copy) other.others,
        if rows other.others == rows copy.others then none else some StoreError.incomplete,
      )
  unfolding backup
  restore-backup listed copy other left bucket saved unnamed emptied r hash done h =
      let ((manifest, named), _) = complete_parts copy done in
      let last =
        subst
          (λ m.
            get_elem?
              (backup_from pack unpack sha256 size archive_uri m unnamed emptied listed
                (members_of copy) bucket)
              5
            ≡ some saved)
          named h in
      let same =
        listed-finished listed (members_of copy) bucket saved manifest unnamed emptied last in
      rw (sym same) (
        restore-finished manifest (members_of copy) left other r hash
        ∙ rw (restored-complete copy other.others done) refl)

  abbrev IsReported : WorkingCopy × Option StoreError → Type 0
  IsReported r = (r.1 ≡ none) ↔ (complete r.0 ≡ true)

  extract-IsReported :
      (members : Option Members) (left : Members) (others : List IndexFile)
      → IsReported (extract members left others)
  unfolding extract
  extract-IsReported none left others = (
    λ e. cc e,
    λ done. absurd (ground (arith, writing-incomplete (extract none left others).0 refl)),
  )
  extract-IsReported (some members) left others = ground arith

  restore_from-IsReported :
      (manifest : Option BackupManifest) (archive : Option A) (left : Members) (copy : WorkingCopy)
      → complete copy ≡ false
      → IsReported (restore_from pack unpack sha256 size archive_uri manifest archive left copy)
  unfolding restore_from
  restore_from-IsReported none archive left copy h = ground arith
  restore_from-IsReported (some manifest) archive left copy h =
      elim (Bool-cases (
        not (manifest.archive_uri == archive_uri) || not (is_block_hash manifest.archive_sha256))) [
          | inl y ↦ rw y (ground arith)
          | inr n ↦ rw n (
              extract-IsReported
                (checked pack unpack sha256 size archive_uri archive manifest.archive_sha256) left
                copy.others)
        ]

  -- A reconcile reports no error exactly when the copy it leaves is complete.
  pub reconcile-complete :
      (bucket : BackupObjects A) (left : Members) (copy : WorkingCopy)
      → ((reconcile pack unpack sha256 size archive_uri bucket left copy).1 ≡ none)
        ↔ (complete (reconcile pack unpack sha256 size archive_uri bucket left copy).0 ≡ true)
  unfolding reconcile restore
  reconcile-complete bucket left copy = elim (Bool-cases (complete copy)) [
    | inl y ↦ rw y (ground arith)
    | inr n ↦ rw n (elim (Bool-cases (is_some bucket.manifest)) [
      | inl y ↦ rw y (restore_from-IsReported bucket.manifest bucket.archive left copy n)
      | inr m ↦ rw m (ground arith)
    ])
  ]

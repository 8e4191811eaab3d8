-- ===== src/IndexStore/Backup.antt =====
-- execution/pbs/index_store.py: the one backup of the index in S3. The calls that change it are
-- effects, one after the other, and a killed job has done the first ones. How files are packed, hashed
-- and unpacked (tar, zstd, SHA-256) are parameters.
use coinjoin_pipeline.Base.{
  ℕ, String, Bool, true, false, List, [], ◌∷◌, if◌then◌else◌, Option, none, some, ◌==◌,
  string_equality, not, ◌||◌, is_some, nat_equality, list_eq,
}
use coinjoin_pipeline.OptionRules.Names.{is_block_hash}
use coinjoin_pipeline.IndexStore.Copy.{IndexFile, Rows, WorkingCopy, complete}

-- What the archive holds: `MEMBERS`, so no other file of the working copy.
pub record Members : Type 0 where
  pub files : List IndexFile
  pub files_txt : Option (Rows × Rows)
  pub manifest : Option String

abbrev pub members_of : WorkingCopy → Members
members_of copy = record {
  files = copy.files;
  files_txt = copy.files_txt;
  manifest = copy.manifest;
}

pub record BackupManifest : Type 0 where
  pub local : String
  pub archive_uri : String
  pub archive_sha256 : String
  pub archive_size : ℕ

-- The reason for an `IndexStoreError`, or an error of the storage.
pub data StoreError : Type 0 where
  no_manifest size_mismatch invalid_manifest archive_unusable incomplete no_backup : StoreError

-- The members are removed and extracted, and the other files of the working copy stay.
abbrev pub restored : Members → List IndexFile → WorkingCopy
restored members others = record {
  files = members.files;
  others = others;
  files_txt = members.files_txt;
  manifest = members.manifest;
  writing = false;
}

-- What `restore` leaves of the extraction, and why it fails. `left` is what an extraction that
-- fails has written so far.
unfoldable pub extract : Option Members → Members → List IndexFile → WorkingCopy × Option StoreError
unfolding complete
extract none left others = (
  record {
    files = left.files;
    others = others;
    files_txt = left.files_txt;
    manifest = left.manifest;
    writing = true;
  },
  some StoreError.archive_unusable,
)
extract (some members) left others = (
  restored members others,
  if complete (restored members others) then none else some StoreError.incomplete,
)

-- `not isinstance(listed, bool) and listed == size`
abbrev pub has_listed_size : Option ℕ → ℕ → Bool
has_listed_size none size = false
has_listed_size (some listed) size = listed == size

-- The objects under the backup prefix.
pub record BackupObjects (A : Type 0) : Type 0 where
  pub archive : Option A
  pub checksum : Option String
  pub manifest : Option BackupManifest

module _ {A : Type 0} where
  abbrev pub without_manifest : Bool → BackupObjects A → BackupObjects A
  without_manifest deleted bucket =
      if deleted
      then record { archive = bucket.archive; checksum = bucket.checksum; manifest = none }
      else bucket

  abbrev pub without_archive : Bool → BackupObjects A → BackupObjects A
  without_archive deleted bucket =
      if deleted
      then record { archive = none; checksum = none; manifest = bucket.manifest }
      else bucket

  abbrev pub with_archive : A → BackupObjects A → BackupObjects A
  with_archive archive bucket = record {
    archive = some archive;
    checksum = bucket.checksum;
    manifest = bucket.manifest;
  }

  abbrev pub with_checksum : String → BackupObjects A → BackupObjects A
  with_checksum checksum bucket = record {
    archive = bucket.archive;
    checksum = some checksum;
    manifest = bucket.manifest;
  }

  abbrev pub with_manifest : BackupManifest → BackupObjects A → BackupObjects A
  with_manifest manifest bucket = record {
    archive = bucket.archive;
    checksum = bucket.checksum;
    manifest = some manifest;
  }

  module _ (pack : Members → A) (unpack : A → Option Members) (sha256 : A → String) (size : A → ℕ)
      (archive_uri : String) where
    -- The states after each effect of `backup`, given the local manifest; a deletion is best-effort.
    -- `listed` is the size that the storage lists, and one that differs is an error.
    unfoldable pub backup_from :
        Option String → Bool → Bool → Option ℕ → Members → BackupObjects A → List (BackupObjects A)
    backup_from none manifest_deleted archive_deleted listed members bucket = bucket ∷ []
    backup_from (some manifest) manifest_deleted archive_deleted listed members bucket =
        let archive = pack members in
        let unnamed = without_manifest manifest_deleted bucket in
        let empty = without_archive archive_deleted unnamed in
        let uploaded = with_archive archive empty in
        let summed = with_checksum (sha256 archive) uploaded in
        let described : BackupManifest = record {
          local = manifest;
          archive_uri = archive_uri;
          archive_sha256 = sha256 archive;
          archive_size = size archive;
        } in
        let completed : List (BackupObjects A) =
          if has_listed_size listed (size archive)
          then with_manifest described summed ∷ []
          else [] in
        bucket ∷ unnamed ∷ empty ∷ uploaded ∷ summed ∷ completed

    unfoldable pub backup :
        Bool → Bool → Option ℕ → WorkingCopy → BackupObjects A → List (BackupObjects A)
    unfolding backup_from
    backup manifest_deleted archive_deleted listed copy bucket =
        backup_from copy.manifest manifest_deleted archive_deleted listed (members_of copy) bucket

    -- `restore_archive`: the checksum is compared after the extraction.
    unfoldable pub checked : Option A → String → Option Members
    checked none checksum = none
    checked (some archive) checksum = if sha256 archive == checksum then unpack archive else none

    unfoldable pub restore_from :
        Option BackupManifest → Option A → Members → WorkingCopy → WorkingCopy × Option StoreError
    unfolding extract is_block_hash checked
    restore_from none archive left copy = (copy, some StoreError.no_manifest)
    restore_from (some manifest) archive left copy =
        if not (manifest.archive_uri == archive_uri) || not (is_block_hash manifest.archive_sha256)
        then (copy, some StoreError.invalid_manifest)
        else extract (checked archive manifest.archive_sha256) left copy.others

    unfoldable pub restore :
        BackupObjects A → Members → WorkingCopy → WorkingCopy × Option StoreError
    unfolding restore_from
    restore bucket left copy = restore_from bucket.manifest bucket.archive left copy

    unfoldable pub reconcile :
        BackupObjects A → Members → WorkingCopy → WorkingCopy × Option StoreError
    unfolding complete restore
    reconcile bucket left copy =
        if complete copy
        then (copy, none)
        else if is_some bucket.manifest
        then restore bucket left copy
        else (copy, some StoreError.no_backup)

-- ===== src/IndexStore/Samples.antt =====
-- Schedules of jobs at which the laws of the index lock are tried.
use coinjoin_pipeline.Base.{
  remove, ℕ, ◌≡◌, ◌≢◌, ◌<◌, refl, ◌↔◌, String, true, false, List, [], ◌∷◌, length, arith,
  if◌then◌else◌, leb, none, some, ◌==◌, string_equality, get_elem?, contains, nat_equality,
}
use coinjoin_pipeline.IndexStore.BackupLaws.{
  stored, backup-stored, restore-backup, reconcile-complete,
}
use coinjoin_pipeline.IndexStore.Copy.{IndexFile, WorkingCopy, publish, begin_write, complete}
use coinjoin_pipeline.IndexStore.Backup.{
  Members, BackupObjects, StoreError, members_of, backup, restore, restored, reconcile,
}
use coinjoin_pipeline.IndexStore.PublishLaws.{publish-complete}
use coinjoin_pipeline.OptionRules.Names.{is_block_hash}
use coinjoin_pipeline.IndexStore.Lock.{
  writer_entry, Phase, Action, Event, tick, acts, run, step, act, start, move, owner, is_expired,
  lock_shared_step, lock_exclusive_step, find_entry_step, read_expires_step, clear_expired_step,
  finish_removal_step, unlock_step, is_dir, has_writer, remove_files, remove_directory,
}
use coinjoin_pipeline.IndexStore.Exclusion.{ReadsAll, lock_exclusive_exclusion}

abbrev in_an_hour : String → ℕ
in_an_hour job = 3600

-- Two readers look before the writer arrives; their second look turns them away, and one of them
-- reads the writer's expiry.
abbrev handover : List Event
handover =
    acts "reader" Action.lock_shared
    ∷ acts "reader" Action.lock_shared
    ∷ acts "late" Action.lock_shared
    ∷ acts "writer" Action.lock_exclusive
    ∷ acts "late" Action.lock_shared
    ∷ acts "writer" Action.lock_exclusive
    ∷ acts "reader" Action.lock_shared
    ∷ acts "late" Action.lock_shared
    ∷ acts "reader" Action.finish_removal
    ∷ acts "late" Action.finish_removal
    ∷ acts "late" (Action.find_entry writer_entry)
    ∷ acts "late" Action.read_expires
    ∷ tick
    ∷ acts "writer" Action.lock_exclusive
    ∷ []

handover_writes : (run in_an_hour handover (start 0)).phase "writer" ≡ Phase.writing
unfolding run step act lock_shared_step lock_exclusive_step find_entry_step is_dir has_writer
    read_expires_step is_expired finish_removal_step remove_directory move remove_files owner
    contains remove
handover_writes = refl

handover_in_time : (k : String) → (run in_an_hour handover (start 0)).now < in_an_hour k
unfolding run step act lock_shared_step lock_exclusive_step find_entry_step is_dir has_writer
    read_expires_step is_expired finish_removal_step remove_directory move remove_files owner
    contains remove
handover_in_time k = omega arith

handover_reads : ReadsAll in_an_hour handover (start 0)
unfolding run step act lock_shared_step lock_exclusive_step find_entry_step is_dir has_writer
    read_expires_step is_expired finish_removal_step remove_directory move remove_files owner
    contains remove
handover_reads =
    (tt, (tt, (tt, (tt, (tt, (tt, (tt, (tt, (tt, (tt, (tt, (λ e. cc e, (tt, (tt, tt))))))))))))))

lock_exclusive_exclusion_example :
    ((run in_an_hour handover (start 0)).phase "late" ≢ Phase.reading)
    × ((run in_an_hour handover (start 0)).phase "late" ≡ Phase.writing
        → ◌≡◌ {A = String} "late" "writer")
lock_exclusive_exclusion_example =
    lock_exclusive_exclusion in_an_hour 0 handover handover_in_time handover_reads "writer" "late"
      handover_writes

-- The lock of a killed job expires. Two jobs find the entry expired; the first removes it and takes
-- the lock, the second then removes the first one's entry and takes the lock too.
abbrev killed_early : String → ℕ
killed_early job = if job == "killed" then 1 else 3600

abbrev late_removal : List Event
late_removal =
    acts "killed" Action.lock_exclusive
    ∷ acts "killed" Action.killed
    ∷ tick
    ∷ acts "first" (Action.find_entry writer_entry)
    ∷ acts "second" (Action.find_entry writer_entry)
    ∷ acts "first" Action.read_expires
    ∷ acts "second" Action.read_expires
    ∷ acts "first" Action.clear_expired
    ∷ acts "first" Action.finish_removal
    ∷ acts "first" Action.lock_exclusive
    ∷ acts "first" Action.lock_exclusive
    ∷ acts "second" Action.clear_expired
    ∷ acts "second" Action.finish_removal
    ∷ acts "second" Action.lock_exclusive
    ∷ acts "second" Action.lock_exclusive
    ∷ []

late_removal_two_writers :
    ((run killed_early late_removal (start 0)).phase "first" ≡ Phase.writing)
    × ((run killed_early late_removal (start 0)).phase "second" ≡ Phase.writing)
unfolding run step act lock_shared_step lock_exclusive_step find_entry_step is_dir has_writer
    read_expires_step is_expired clear_expired_step unlock_step finish_removal_step remove_directory
    move remove_files owner contains remove
late_removal_two_writers = (refl, refl)

-- Nothing expires. A job sees the entry of a writer that unlocks before the job reads its expiry, which
-- counts as 0 then; the job removes the entry of the next writer and takes the lock too.
abbrev lost_expiry : List Event
lost_expiry =
    acts "old" Action.lock_exclusive
    ∷ acts "old" Action.lock_exclusive
    ∷ acts "second" (Action.find_entry writer_entry)
    ∷ acts "old" Action.unlock
    ∷ acts "second" Action.read_expires
    ∷ acts "old" Action.finish_removal
    ∷ acts "first" Action.lock_exclusive
    ∷ acts "first" Action.lock_exclusive
    ∷ acts "second" Action.clear_expired
    ∷ acts "second" Action.finish_removal
    ∷ acts "second" Action.lock_exclusive
    ∷ acts "second" Action.lock_exclusive
    ∷ []

lost_expiry_two_writers :
    ((run in_an_hour lost_expiry (start 0)).phase "first" ≡ Phase.writing)
    × ((run in_an_hour lost_expiry (start 0)).phase "second" ≡ Phase.writing)
unfolding run step act lock_shared_step lock_exclusive_step find_entry_step is_dir has_writer
    read_expires_step is_expired clear_expired_step unlock_step finish_removal_step remove_directory
    move remove_files owner contains remove
lost_expiry_two_writers = (refl, refl)

-- An index of two files, published, backed up and restored.
abbrev config_file : IndexFile
config_file = record { path = "config.json"; size = 2; content = "{}" }

abbrev parsed_file : IndexFile
parsed_file = record { path = "parsed/chain"; size = 9; content = "blocks" }

abbrev parsed_copy : WorkingCopy
parsed_copy = record {
  files = parsed_file ∷ [];
  others = [];
  files_txt = none;
  manifest = none;
  writing = false;
}

abbrev published : WorkingCopy
published = record {
  files = parsed_file ∷ config_file ∷ [];
  others = [];
  files_txt = some (("parsed/chain", 9) ∷ ("config.json", 2) ∷ [], []);
  manifest = some "{}";
  writing = false;
}

abbrev hash : Members → String
hash members = "0123456789abcdef0123456789abcdef0123456789abcdef0123456789abcdef"

abbrev weight : Members → ℕ
weight members = length members.files

abbrev same_members : Members → Members
same_members members = members

abbrev empty_members : Members
empty_members = record { files = []; files_txt = none; manifest = none }

abbrev no_backup_yet : BackupObjects Members
no_backup_yet = record { archive = none; checksum = none; manifest = none }

abbrev saved : BackupObjects Members
saved = record {
  archive = some (members_of published);
  checksum = some (hash empty_members);
  manifest = some (record {
    local = "{}";
    archive_uri = "s3://b/index/blocksci_index.tar.zst";
    archive_sha256 = hash empty_members;
    archive_size = 2;
  });
}

abbrev backup_uri : String
backup_uri = "s3://b/index/blocksci_index.tar.zst"

published_last : get_elem? (publish config_file "{}" (begin_write parsed_copy)) 4 ≡ some published
unfolding publish begin_write
published_last = refl

saved_last :
    get_elem?
      (backup same_members some hash weight backup_uri true true (some 2) published no_backup_yet)
      5
    ≡ some saved
unfolding backup
saved_last = refl

hash_accepted : is_block_hash (hash (members_of published)) ≡ true
unfolding is_block_hash
hash_accepted = refl

published-complete : complete published ≡ true
unfolding complete
published-complete = refl

publish-complete_example : complete published ≡ leb 4 4
publish-complete_example = publish-complete config_file "{}" parsed_copy published 4 published_last

backup-stored_example :
    stored same_members some hash weight backup_uri saved ≡ some (members_of published)
backup-stored_example =
    backup-stored same_members some hash weight backup_uri (some 2) published no_backup_yet saved
      "{}" 5 refl refl saved_last

-- A working copy with a file that the backup does not know.
abbrev littered : WorkingCopy
littered = record {
  files = parsed_file ∷ [];
  others = record { path = "parse.log"; size = 5; content = "parse" } ∷ [];
  files_txt = none;
  manifest = none;
  writing = true;
}

restore-backup_example :
    restore same_members some hash weight backup_uri saved empty_members littered
    ≡ (restored (members_of published) littered.others, some StoreError.incomplete)
unfolding coinjoin_pipeline.Base.list_beq coinjoin_pipeline.IndexStore.Copy.rows
restore-backup_example =
    restore-backup same_members some hash weight backup_uri (some 2) published littered
      empty_members no_backup_yet saved true true refl hash_accepted published-complete saved_last

reconcile-complete_example :
    ((reconcile same_members some hash weight backup_uri saved empty_members parsed_copy).1 ≡ none)
    ↔ (complete
          (reconcile same_members some hash weight backup_uri saved empty_members parsed_copy).0
        ≡ true)
reconcile-complete_example =
    reconcile-complete same_members some hash weight backup_uri saved empty_members parsed_copy

-- ===== src/IndexStore/Lock.antt =====
-- index_store.py: `IndexStore.lock_shared`, `lock_exclusive`, `unlock` and `clear_expired`, as the
-- steps that jobs take on the directories under `.lock`, in any interleaving. One step is one call
-- of the file system: a test for a directory, a rename into place, the reading of an entry's expiry, or
-- one of the two parts of `shutil.rmtree`: the files of the entry are removed, then its directory.
use coinjoin_pipeline.Base.{
  ℕ, suc, String, Bool, true, false, List, [], ◌∷◌, Option, none, some, if◌then◌else◌, leb, ◌==◌,
  not, ◌||◌, ◌&&◌, string_equality, contains, remove,
}

-- The entries: `.lock/writer` and `.lock/readers/<job>`.
pub data Entry : Type 0 where
  writer_entry : Entry
  reader_entry : String → Entry

-- Where a job stands in its calls.
pub data Phase : Type 0 where
  -- not holding the lock, and at the top of a loop that waits for it
  idle : Phase
  -- `lock_shared` saw no writer
  looked : Phase
  -- `lock_shared` created its entry
  entered : Phase
  -- `lock_shared` returned
  reading : Phase
  -- `lock_exclusive` created the writer entry and waits for the readers
  draining : Phase
  -- `lock_exclusive` returned
  writing : Phase
  -- `clear_expired` saw this entry's directory; then the loop goes on from `idle` or `draining`
  checking : Entry → Bool → Phase
  -- `clear_expired` found this entry expired
  clearing : Entry → Bool → Phase
  -- `shutil.rmtree` has removed this entry's files
  removing : Entry → Bool → Phase
  -- the job was killed; its entry stays
  gone : Phase

-- The clock, the job named by the writer entry, the jobs with a reader entry, the directories of
-- entries whose files are gone, and every job's place.
pub record World : Type 0 where
  pub now : ℕ
  pub writer : Option String
  pub readers : List String
  pub empty_writer : Bool
  pub empty_readers : List String
  pub phase : String → Phase

abbrev pub is_none : Option String → Bool
is_none none = true
is_none (some j) = false

abbrev pub is_nil : List String → Bool
is_nil [] = true
is_nil (j ∷ js) = false

unfoldable pub move : String → Phase → World → World
move job p w = record {
  now = w.now;
  writer = w.writer;
  readers = w.readers;
  empty_writer = w.empty_writer;
  empty_readers = w.empty_readers;
  phase = λ k. if k == job then p else w.phase k;
}

-- The writer entry with its directory, and the reader entries with theirs.
abbrev pub set_writer : Option String → Bool → World → World
set_writer writer empty w = record {
  now = w.now;
  writer = writer;
  readers = w.readers;
  empty_writer = empty;
  empty_readers = w.empty_readers;
  phase = w.phase;
}

abbrev pub set_readers : List String → List String → World → World
set_readers readers empty w = record {
  now = w.now;
  writer = w.writer;
  readers = readers;
  empty_writer = w.empty_writer;
  empty_readers = empty;
  phase = w.phase;
}

-- `(self.lock / "writer").is_dir()`
unfoldable pub has_writer : World → Bool
has_writer w = not (is_none w.writer) || w.empty_writer

-- `entry.is_dir()`
unfoldable pub is_dir : Entry → World → Bool
unfolding has_writer
is_dir writer_entry w = has_writer w
is_dir (reader_entry job) w = contains job w.readers || contains job w.empty_readers

-- `shutil.rmtree(entry)`: its files go, and its directory if it is still empty.
unfoldable pub remove_files : Entry → World → World
remove_files writer_entry w = if is_none w.writer then w else set_writer none true w
remove_files (reader_entry job) w =
    if contains job w.readers
    then set_readers (remove job w.readers) (job ∷ w.empty_readers) w
    else w

unfoldable pub remove_directory : Entry → World → World
remove_directory writer_entry w = set_writer w.writer false w
remove_directory (reader_entry job) w = set_readers w.readers (remove job w.empty_readers) w

-- The job that an entry names, when the entry is there with its files.
unfoldable pub owner : Entry → World → Option String
owner writer_entry w = w.writer
owner (reader_entry job) w = if contains job w.readers then some job else none

-- What a job does next, or what happens to it.
pub data Action : Type 0 where
  lock_shared lock_exclusive unlock give_up read_expires clear_expired finish_removal killed :
      Action
  find_entry : Entry → Action

abbrev pub start_removal : String → Entry → Bool → World → World
start_removal job entry waits w = move job (Phase.removing entry waits) (remove_files entry w)

-- `lock_shared`: look for a writer, create the entry, look again, and step back if there is one. A
-- rename replaces an empty directory.
unfoldable pub lock_shared_step : String → Phase → World → World
unfolding has_writer remove_files
lock_shared_step job idle w = if has_writer w then w else move job looked w
lock_shared_step job looked w =
    if contains job w.readers
    then move job idle w
    else move job entered (set_readers (job ∷ w.readers) (remove job w.empty_readers) w)
lock_shared_step job entered w =
    if has_writer w then start_removal job (reader_entry job) false w else move job reading w
lock_shared_step job _ w = w

-- `lock_exclusive`: create the writer entry, then wait until there are no readers.
unfoldable pub lock_exclusive_step : String → Phase → World → World
lock_exclusive_step job idle w =
    if is_none w.writer then move job draining (set_writer (some job) false w) else w
lock_exclusive_step job draining w =
    if is_nil w.readers && is_nil w.empty_readers then move job writing w else w
lock_exclusive_step job _ w = w

-- `unlock`, by a job that has the lock.
unfoldable pub unlock_step : String → Phase → World → World
unfolding remove_files
unlock_step job reading w = start_removal job (reader_entry job) false w
unlock_step job writing w = start_removal job writer_entry false w
unlock_step job _ w = w

-- `lock_exclusive` past its deadline, with readers left: it unlocks and raises.
unfoldable pub give_up_step : String → Phase → World → World
unfolding remove_files
give_up_step job draining w = start_removal job writer_entry false w
give_up_step job _ w = w

-- `clear_expired`: `entry.is_dir()`.
unfoldable pub find_entry_step : Entry → String → Phase → World → World
unfolding is_dir
find_entry_step entry job idle w = if is_dir entry w then move job (checking entry false) w else w
find_entry_step entry job draining w =
    if is_dir entry w then move job (checking entry true) w else w
find_entry_step entry job _ w = w

-- `clear_expired`: the removal of the entry that was found expired.
unfoldable pub clear_expired_step : String → Phase → World → World
unfolding remove_files
clear_expired_step job (clearing entry waits) w = start_removal job entry waits w
clear_expired_step job _ w = w

-- The end of `shutil.rmtree`.
unfoldable pub finish_removal_step : String → Phase → World → World
unfolding remove_directory
finish_removal_step job (removing entry waits) w =
    move job (if waits then draining else idle) (remove_directory entry w)
finish_removal_step job _ w = w

-- A second passes, or a job acts.
pub data Event : Type 0 where
  tick : Event
  acts : String → Action → Event

-- The job's `self.expires`, which its entries record.
module _ (expires : String → ℕ) where
  -- `now >= expires`, where an expiry that cannot be read is 0
  unfoldable pub is_expired : Entry → World → Bool
  unfolding owner
  is_expired entry w = elim (owner entry w) [ none ↦ true | some job ↦ leb (expires job) w.now ]

  -- `clear_expired`: the reading of `expires`; the removal is a later step.
  unfoldable pub read_expires_step : String → Phase → World → World
  unfolding is_expired
  read_expires_step job (checking entry waits) w =
      if is_expired entry w
      then move job (clearing entry waits) w
      else move job (if waits then draining else idle) w
  read_expires_step job _ w = w

  -- An action that the job is not ready for changes nothing.
  unfoldable pub act : Action → String → World → World
  unfolding read_expires_step
  act lock_shared job w = lock_shared_step job (w.phase job) w
  act lock_exclusive job w = lock_exclusive_step job (w.phase job) w
  act unlock job w = unlock_step job (w.phase job) w
  act give_up job w = give_up_step job (w.phase job) w
  act (find_entry entry) job w = find_entry_step entry job (w.phase job) w
  act read_expires job w = read_expires_step job (w.phase job) w
  act clear_expired job w = clear_expired_step job (w.phase job) w
  act finish_removal job w = finish_removal_step job (w.phase job) w
  act killed job w = move job gone w

  unfoldable pub step : Event → World → World
  step tick w = record {
    now = suc w.now;
    writer = w.writer;
    readers = w.readers;
    empty_writer = w.empty_writer;
    empty_readers = w.empty_readers;
    phase = w.phase;
  }
  step (acts job action) w = act action job w

  unfoldable pub run : List Event → World → World
  run [] w = w
  run (e ∷ events) w = run events (step e w)

-- No job has started, and no entry is there.
abbrev pub start : ℕ → World
start now = record {
  now = now;
  writer = none;
  readers = [];
  empty_writer = false;
  empty_readers = [];
  phase = λ k. idle;
}

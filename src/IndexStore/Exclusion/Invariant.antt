-- ===== src/IndexStore/Exclusion/Invariant.antt =====
-- The invariant of the index lock, and the moves of a job that preserve it.
use coinjoin_pipeline.Base.{
  ℕ, ◌≡◌, ◌≢◌, refl, String, Bool, true, false, [], ◌∷◌, none, some, arith, contains, remove,
  string_equality, mem-remove, ◌∈◌,
}
use coinjoin_pipeline.IndexStore.Lock.{
  Entry, writer_entry, reader_entry, Phase, World, start, move, remove_files, remove_directory,
  start_removal, set_writer, set_readers,
}

abbrev pub holds_writer : Phase → Bool
holds_writer Phase.draining = true
holds_writer Phase.writing = true
holds_writer (Phase.checking entry waits) = waits
holds_writer _ = false

abbrev pub holds_reader : Phase → Bool
holds_reader Phase.entered = true
holds_reader Phase.reading = true
holds_reader _ = false

abbrev pub is_clearing : Phase → Bool
is_clearing (Phase.clearing entry waits) = true
is_clearing (Phase.removing entry waits) = waits
is_clearing _ = false

abbrev pub is_locked : Phase → Bool
is_locked Phase.reading = true
is_locked Phase.writing = true
is_locked _ = false

-- Entries belong to the jobs that rely on them, and nobody reads while somebody writes.
pub record Fits (w : World) : Type 0 where
  pub owns : (k : String) → holds_writer (w.phase k) ≡ true → w.writer ≡ some k
  pub enters : (k : String) → holds_reader (w.phase k) ≡ true → k ∈ w.readers
  pub clears : (k : String) → is_clearing (w.phase k) ≡ false
  pub apart : (j k : String) → w.phase j ≡ Phase.writing → w.phase k ≢ Phase.reading

pub start-Fits : (now : ℕ) → Fits (start now)
start-Fits now = record {
  owns = λ k h. ground arith;
  enters = λ k h. ground arith;
  clears = λ k. refl;
  apart = λ j k h. ground arith;
}

-- A job that takes up a place where it does not have the lock, and relies on no other entry than before.
pub leave-Fits :
    (job : String) (p : Phase) (w : World)
    → (holds_writer p ≡ true → holds_writer (w.phase job) ≡ true)
    → (holds_reader p ≡ true → holds_reader (w.phase job) ≡ true)
    → is_clearing p ≡ false
    → is_locked p ≡ false
    → Fits w
    → Fits (move job p w)
unfolding move
leave-Fits job p w a b c l f = record {
  owns = λ k h. ground (arith, string_equality.equals_iff k job, f.owns k);
  enters = λ k h. ground (arith, string_equality.equals_iff k job, f.enters k);
  clears = λ k. ground (arith, string_equality.equals_iff k job, f.clears k);
  apart = λ j k h.
      ground
        (arith, string_equality.equals_iff k job, string_equality.equals_iff j job, f.apart j k);
}

-- The same when it removes its entry: the writer's, or a reader's.
pub leave_writer-Fits :
    (job : String) (w : World)
    → holds_writer (w.phase job) ≡ true
    → Fits w
    → Fits (start_removal job writer_entry false w)
unfolding move remove_files
leave_writer-Fits job w h f = record {
  owns = λ k g. ground (arith, string_equality.equals_iff k job, f.owns k, f.owns job);
  enters = λ k g. ground (arith, string_equality.equals_iff k job, f.enters k);
  clears = λ k. ground (arith, string_equality.equals_iff k job, f.clears k);
  apart = λ j k g.
      ground
        (arith, string_equality.equals_iff k job, string_equality.equals_iff j job, f.apart j k);
}

pub leave_reader-Fits :
    (job : String) (w : World) → Fits w → Fits (start_removal job (reader_entry job) false w)
unfolding move remove_files
leave_reader-Fits job w f = record {
  owns = λ k g. ground (arith, string_equality.equals_iff k job, f.owns k);
  enters = λ k g.
      ground (arith, string_equality.equals_iff k job, f.enters k, mem-remove k job w.readers);
  clears = λ k. ground (arith, string_equality.equals_iff k job, f.clears k);
  apart = λ j k g.
      ground
        (arith, string_equality.equals_iff k job, string_equality.equals_iff j job, f.apart j k);
}

pub enter_reader-Fits :
    (job : String) (w : World)
    → Fits w
    → Fits (move job Phase.entered (set_readers (job ∷ w.readers) (remove job w.empty_readers) w))
unfolding move contains
enter_reader-Fits job w f = record {
  owns = λ k g. ground (arith, string_equality.equals_iff k job, f.owns k);
  enters = λ k g. ground (arith, string_equality.equals_iff k job, f.enters k);
  clears = λ k. ground (arith, string_equality.equals_iff k job, f.clears k);
  apart = λ j k g.
      ground
        (arith, string_equality.equals_iff k job, string_equality.equals_iff j job, f.apart j k);
}

pub enter_writer-Fits :
    (job : String) (w : World)
    → w.writer ≡ none
    → Fits w
    → Fits (move job Phase.draining (set_writer (some job) false w))
unfolding move
enter_writer-Fits job w n f = record {
  owns = λ k g. ground (arith, string_equality.equals_iff k job, f.owns k);
  enters = λ k g. ground (arith, string_equality.equals_iff k job, f.enters k);
  clears = λ k. ground (arith, string_equality.equals_iff k job, f.clears k);
  apart = λ j k g.
      ground
        (arith, string_equality.equals_iff k job, string_equality.equals_iff j job, f.apart j k);
}

-- The second look finds no writer; the readers are gone.
pub read-Fits :
    (job : String) (w : World)
    → w.phase job ≡ Phase.entered
    → w.writer ≡ none
    → Fits w
    → Fits (move job Phase.reading w)
unfolding move
read-Fits job w e n f = record {
  owns = λ k g. ground (arith, string_equality.equals_iff k job, f.owns k);
  enters = λ k g. ground (arith, string_equality.equals_iff k job, f.enters k);
  clears = λ k. ground (arith, string_equality.equals_iff k job, f.clears k);
  apart = λ j k g. ground (
    arith,
    string_equality.equals_iff k job,
    string_equality.equals_iff j job,
    f.apart j k,
    f.owns j,
  );
}

pub write-Fits :
    (job : String) (w : World)
    → w.phase job ≡ Phase.draining
    → w.readers ≡ []
    → Fits w
    → Fits (move job Phase.writing w)
unfolding move contains
write-Fits job w e n f = record {
  owns = λ k g. ground (arith, string_equality.equals_iff k job, f.owns k);
  enters = λ k g. ground (arith, string_equality.equals_iff k job, f.enters k);
  clears = λ k. ground (arith, string_equality.equals_iff k job, f.clears k);
  apart = λ j k g. ground (
    arith,
    string_equality.equals_iff k job,
    string_equality.equals_iff j job,
    f.apart j k,
    f.enters k,
  );
}

-- The directory of an entry whose files are gone is nobody's.
pub remove_directory-Fits : (entry : Entry) (w : World) → Fits w → Fits (remove_directory entry w)
unfolding remove_directory
remove_directory-Fits writer_entry w f = record {
  owns = f.owns;
  enters = f.enters;
  clears = f.clears;
  apart = f.apart;
}
remove_directory-Fits (reader_entry job) w f = record {
  owns = f.owns;
  enters = f.enters;
  clears = f.clears;
  apart = f.apart;
}

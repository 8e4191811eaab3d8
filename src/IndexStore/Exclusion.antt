-- ===== src/IndexStore/Exclusion.antt =====
-- Mutual exclusion of the index lock, whatever the order in which jobs act.
mod Invariant
use Invariant.{
  start-Fits, leave-Fits, leave_writer-Fits, leave_reader-Fits, enter_reader-Fits,
  enter_writer-Fits, read-Fits, write-Fits, remove_directory-Fits, Fits,
}
use coinjoin_pipeline.Base.{
  ℕ, ◌≡◌, ◌≢◌, ◌<◌, ◌≤◌, refl, String, Bool, true, false, List, [], ◌∷◌, Option, none, arith,
  contains, if◌then◌else◌, string_equality, inl, inr, not, ◌&&◌, Option-cases,
}
use coinjoin_pipeline.IndexStore.Lock.{
  Entry, Phase, World, Action, Event, act, step, run, start, move, owner, is_expired,
  lock_shared_step, lock_exclusive_step, unlock_step, give_up_step, is_dir, has_writer,
  find_entry_step, read_expires_step, clear_expired_step, finish_removal_step, remove_directory,
  remove_files, is_none, is_nil, tick, acts,
}

no_writer : (w : World) → has_writer w ≡ false → w.writer ≡ none
unfolding has_writer
no_writer w h = ground arith

none_of : (o : Option String) → is_none o ≡ true → o ≡ none
none_of o h = ground arith

no_readers : (xs ys : List String) → (is_nil xs && is_nil ys) ≡ true → xs ≡ []
no_readers xs ys h = ground arith

-- One of two places, by a test.
pick :
    (P : World → Type 0) (b : Bool) (v w : World)
    → (b ≡ true → P v)
    → (b ≡ false → P w)
    → P (if b then v else w)
pick P true v w h g = h refl
pick P false v w h g = g refl

-- A job goes on to a place where it holds nothing.
give-Fits : (job : String) (w : World) → Fits w → Fits (move job Phase.idle w)
give-Fits job w f =
    leave-Fits job Phase.idle w (λ h. absurd (ground arith)) (λ h. absurd (ground arith)) refl refl
      f

lock_shared_step-Fits :
    (job : String) (p : Phase) (w : World)
    → w.phase job ≡ p
    → Fits w
    → Fits (lock_shared_step job p w)
unfolding lock_shared_step
lock_shared_step-Fits job Phase.idle w e f =
    pick Fits (has_writer w) _ _ (λ h. f)
      (λ h.
        leave-Fits job Phase.looked w (λ q. absurd (ground arith)) (λ q. absurd (ground arith)) refl
          refl f)
lock_shared_step-Fits job Phase.looked w e f =
    pick Fits (contains job w.readers) _ _ (λ h. give-Fits job w f) (λ h. enter_reader-Fits job w f)
lock_shared_step-Fits job Phase.entered w e f =
    pick Fits (has_writer w) _ _ (λ h. leave_reader-Fits job w f)
      (λ h. read-Fits job w e (no_writer w h) f)
lock_shared_step-Fits job _ w e f = f

lock_exclusive_step-Fits :
    (job : String) (p : Phase) (w : World)
    → w.phase job ≡ p
    → Fits w
    → Fits (lock_exclusive_step job p w)
unfolding lock_exclusive_step
lock_exclusive_step-Fits job Phase.idle w e f =
    pick Fits (is_none w.writer) _ _ (λ h. enter_writer-Fits job w (none_of w.writer h) f) (λ h. f)
lock_exclusive_step-Fits job Phase.draining w e f =
    pick Fits (is_nil w.readers && is_nil w.empty_readers) _ _
      (λ h. write-Fits job w e (no_readers w.readers w.empty_readers h) f) (λ h. f)
lock_exclusive_step-Fits job _ w e f = f

unlock_step-Fits :
    (job : String) (p : Phase) (w : World) → w.phase job ≡ p → Fits w → Fits (unlock_step job p w)
unfolding unlock_step
unlock_step-Fits job Phase.reading w e f = leave_reader-Fits job w f
unlock_step-Fits job Phase.writing w e f = leave_writer-Fits job w (rw e refl) f
unlock_step-Fits job _ w e f = f

give_up_step-Fits :
    (job : String) (p : Phase) (w : World) → w.phase job ≡ p → Fits w → Fits (give_up_step job p w)
unfolding give_up_step
give_up_step-Fits job Phase.draining w e f = leave_writer-Fits job w (rw e refl) f
give_up_step-Fits job _ w e f = f

find_entry_step-Fits :
    (entry : Entry) (job : String) (p : Phase) (w : World)
    → w.phase job ≡ p
    → Fits w
    → Fits (find_entry_step entry job p w)
unfolding find_entry_step
find_entry_step-Fits entry job Phase.idle w e f =
    pick Fits (is_dir entry w) _ _
      (λ h.
        leave-Fits job (Phase.checking entry false) w (λ q. absurd (ground arith))
          (λ q. absurd (ground arith)) refl refl f)
      (λ h. f)
find_entry_step-Fits entry job Phase.draining w e f =
    pick Fits (is_dir entry w) _ _
      (λ h.
        leave-Fits job (Phase.checking entry true) w (λ q. rw e refl) (λ q. absurd (ground arith))
          refl refl f)
      (λ h. f)
find_entry_step-Fits entry job _ w e f = f

clear_expired_step-Fits :
    (job : String) (p : Phase) (w : World)
    → w.phase job ≡ p
    → Fits w
    → Fits (clear_expired_step job p w)
unfolding clear_expired_step
clear_expired_step-Fits job (Phase.clearing entry waits) w e f =
    absurd (ground (arith, f.clears job, e))
clear_expired_step-Fits job _ w e f = f

finish_removal_step-Fits :
    (job : String) (p : Phase) (w : World)
    → w.phase job ≡ p
    → Fits w
    → Fits (finish_removal_step job p w)
unfolding finish_removal_step
finish_removal_step-Fits job (Phase.removing entry true) w e f =
    absurd (ground (arith, f.clears job, e))
finish_removal_step-Fits job (Phase.removing entry false) w e f =
    give-Fits job (remove_directory entry w) (remove_directory-Fits entry w f)
finish_removal_step-Fits job _ w e f = f

module _ (expires : String → ℕ) where
  -- An expiry that is read before anything expires is not over.
  not_expired :
      (entry : Entry) (w : World)
      → ((k : String) → w.now < expires k)
      → owner entry w ≢ none
      → is_expired expires entry w ≡ false
  unfolding is_expired
  not_expired entry w h named = elim (Option-cases (owner entry w)) [
    | inl e ↦ absurd (named e)
    | inr (job, e) ↦ rw (e, is_expired) (ground (arith, h job))
  ]

  -- `clear_expired` can read the expiry of the entry whose directory it saw.
  abbrev pub CanRead : Phase → World → Type 0
  CanRead (Phase.checking entry waits) w = owner entry w ≢ none
  CanRead _ w = Unit

  abbrev pub CanReadAt : Event → World → Type 0
  CanReadAt (acts job Action.read_expires) w = CanRead (w.phase job) w
  CanReadAt _ w = Unit

  -- It can whenever it reads one.
  abbrev pub ReadsAll : List Event → World → Type 0
  ReadsAll [] w = Unit
  ReadsAll (e ∷ events) w = CanReadAt e w × ReadsAll events (step expires e w)

  read_expires_step-Fits :
      (job : String) (p : Phase) (w : World)
      → w.phase job ≡ p
      → ((k : String) → w.now < expires k)
      → CanRead p w
      → Fits w
      → Fits (read_expires_step expires job p w)
  unfolding read_expires_step
  read_expires_step-Fits job (Phase.checking entry false) w e h named f =
      rw (not_expired entry w h named, read_expires_step) (give-Fits job w f)
  read_expires_step-Fits job (Phase.checking entry true) w e h named f =
      rw (not_expired entry w h named, read_expires_step)
        (leave-Fits job Phase.draining w (λ q. rw e refl) (λ q. absurd (ground arith)) refl refl f)
  read_expires_step-Fits job _ w e h named f = f

  step-Fits :
      (e : Event) (w : World)
      → ((k : String) → w.now < expires k)
      → CanReadAt e w
      → Fits w
      → Fits (step expires e w)
  unfolding step act
  step-Fits tick w h r f = record {
    owns = f.owns;
    enters = f.enters;
    clears = f.clears;
    apart = f.apart;
  }
  step-Fits (acts job Action.lock_shared) w h r f = lock_shared_step-Fits job (w.phase job) w refl f
  step-Fits (acts job Action.lock_exclusive) w h r f =
      lock_exclusive_step-Fits job (w.phase job) w refl f
  step-Fits (acts job Action.unlock) w h r f = unlock_step-Fits job (w.phase job) w refl f
  step-Fits (acts job Action.give_up) w h r f = give_up_step-Fits job (w.phase job) w refl f
  step-Fits (acts job (Action.find_entry entry)) w h r f =
      find_entry_step-Fits entry job (w.phase job) w refl f
  step-Fits (acts job Action.read_expires) w h r f =
      read_expires_step-Fits job (w.phase job) w refl h r f
  step-Fits (acts job Action.clear_expired) w h r f =
      clear_expired_step-Fits job (w.phase job) w refl f
  step-Fits (acts job Action.finish_removal) w h r f =
      finish_removal_step-Fits job (w.phase job) w refl f
  step-Fits (acts job Action.killed) w h r f =
      leave-Fits job Phase.gone w (λ q. absurd (ground arith)) (λ q. absurd (ground arith)) refl
        refl f

  step-now : (e : Event) (w : World) → w.now ≤ (step expires e w).now
  unfolding step act lock_shared_step lock_exclusive_step unlock_step give_up_step find_entry_step
      read_expires_step clear_expired_step finish_removal_step move remove_files remove_directory
  step-now tick w = omega arith
  step-now (acts job Action.lock_shared) w = ground arith
  step-now (acts job Action.lock_exclusive) w = ground arith
  step-now (acts job Action.unlock) w = ground arith
  step-now (acts job Action.give_up) w = ground arith
  step-now (acts job (Action.find_entry entry)) w = ground arith
  step-now (acts job Action.read_expires) w = ground arith
  step-now (acts job Action.clear_expired) w = ground arith
  step-now (acts job Action.finish_removal) w = ground arith
  step-now (acts job Action.killed) w = omega arith

  run-now : (events : List Event) (w : World) → w.now ≤ (run expires events w).now
  unfolding run
  run-now [] w = omega arith
  run-now (e ∷ events) w = omega (arith, step-now e w, run-now events (step expires e w))

  run-Fits :
      (events : List Event) (w : World)
      → ((k : String) → (run expires events w).now < expires k)
      → ReadsAll events w
      → Fits w
      → Fits (run expires events w)
  unfolding run
  run-Fits [] w h r f = f
  run-Fits (e ∷ events) w h (r, later) f =
      run-Fits events (step expires e w) h later (
        step-Fits e w (λ k. omega (arith, h k, step-now e w, run-now events (step expires e w))) r
          f)

-- However jobs interleave, as long as the clock is before the expiry of every job's entries, and
-- `clear_expired` can read the expiry of every entry whose directory it saw: while a job writes, no
-- job reads and no other job writes.
pub lock_exclusive_exclusion :
    (expires : String → ℕ) (now : ℕ) (events : List Event)
    → ((k : String) → (run expires events (start now)).now < expires k)
    → ReadsAll expires events (start now)
    → (j k : String) → (run expires events (start now)).phase j ≡ Phase.writing
    → ((run expires events (start now)).phase k ≢ Phase.reading)
      × ((run expires events (start now)).phase k ≡ Phase.writing → k ≡ j)
lock_exclusive_exclusion expires now events h r j k e =
    let f : Fits (run expires events (start now)) =
      run-Fits expires events (start now) h r (start-Fits now) in
    (f.apart j k e, λ g. ground (arith, f.owns j (rw e refl), f.owns k (rw g refl)))

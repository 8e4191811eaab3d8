-- ===== src/OptionRules/IndexLaws.antt =====
-- The index directory of a configuration without errors.
use coinjoin_pipeline.Base.{
  complain-empty, ◌≡◌, ◌≢◌, refl, String, Bool, true, false, List, [], arith, Option, none, some,
  subst, contains, string_equality, ◌&&◌, flatten-empty, is_given,
}
use coinjoin_pipeline.OptionRules.Config.{PipelineConfiguration}
use coinjoin_pipeline.OptionRules.Groups.{cross_option_errors-empty}
use coinjoin_pipeline.OptionRules.Index.{
  index_dir_rules, persistent_index_rules, text_or_empty, persistent_index_errors, on_multijob,
  has_parent_part, place_errors, index_dir_errors, index_copy_errors, persistent_index_tasks,
  on_shared_root,
}
use coinjoin_pipeline.OptionRules.Rules.{cross_option_errors}
use coinjoin_pipeline.OptionRules.Tasks.{task_eq, task_beq_iff, workflow_eq}
use coinjoin_pipeline.Stages.Plans.{BlockSciTask}

-- A directory on a scratch of one location is asked for with that location, any other one lies on
-- shared storage and asks for no location.
abbrev pub IsPlaced : String → Option String → Type 0
IsPlaced index_dir multijob =
    ((place : String) → on_multijob index_dir ≡ some place → multijob ≡ some place)
    × (on_multijob index_dir ≡ none
        → (on_shared_root index_dir ≡ true) × (is_given multijob ≡ false))

place_errors-empty :
    (index_dir : String) (multijob place : Option String)
    → place_errors index_dir multijob place ≡ []
    → ((p : String) → place ≡ some p → multijob ≡ some p)
      × (place ≡ none → (on_shared_root index_dir ≡ true) × (is_given multijob ≡ false))
unfolding place_errors
place_errors-empty index_dir none none h = ground arith
place_errors-empty index_dir (some m) none h = ground arith
place_errors-empty index_dir none (some p) h = ground arith
place_errors-empty index_dir (some m) (some p) h = ground (arith, string_equality.equals_iff m p)

-- What the working copy and the mounts of a notebook rest on.
abbrev pub IsCopied : PipelineConfiguration → Type 0
IsCopied config =
    let blocksci = config.blocksci in
    (blocksci.index_in_scratch ≡ true → is_given blocksci.index_backup_uri ≡ true)
    × (blocksci.restore_index ≡ true
        → (is_given blocksci.index_backup_uri ≡ true) × (blocksci.task ≡ BlockSciTask.notebook))
    × ((blocksci.index_in_scratch && blocksci.restore_index) ≡ false)
    × (blocksci.task ≡ BlockSciTask.backup → is_given blocksci.index_backup_uri ≡ true)
    × (is_given blocksci.dumplings_dir ≡ true → is_given blocksci.dumplings_uri ≡ false)

index_copy_errors-empty :
    (config : PipelineConfiguration) → index_copy_errors config.blocksci ≡ [] → IsCopied config
unfolding index_copy_errors contains
index_copy_errors-empty config h = ground (
  arith,
  task_beq_iff config.blocksci.task BlockSciTask.notebook,
  task_beq_iff config.blocksci.task BlockSciTask.backup,
)

pub index_dir_errors-empty :
    (config : PipelineConfiguration) (index_dir : String)
    → index_dir_errors config index_dir ≡ []
    → IsPlaced index_dir config.pbs.blocksci.multijob
      × IsCopied config
      × (is_given config.blocksci.cache_source_run_id ≡ false)
      × (has_parent_part index_dir ≡ false)
      × (contains config.blocksci.task persistent_index_tasks ≡ true)
unfolding index_dir_errors
index_dir_errors-empty config index_dir h =
    let rules : List (List String) = index_dir_rules config index_dir in
    let known = complain-empty _ _ (flatten-empty rules 0 _ h refl) in
    (
      place_errors-empty index_dir _ _ (flatten-empty rules 3 _ h refl),
      index_copy_errors-empty config (flatten-empty rules 5 _ h refl),
      complain-empty _ _ (flatten-empty rules 1 _ h refl),
      complain-empty _ _ (flatten-empty rules 4 _ h refl),
      ground arith,
    )

pub persistent_index_errors-empty :
    (config : PipelineConfiguration)
    → persistent_index_errors config ≡ []
    → is_given config.blocksci.index_dir ≡ true
    → index_dir_errors config (text_or_empty config.blocksci.index_dir) ≡ []
unfolding persistent_index_errors
persistent_index_errors-empty config h given =
    let rules : List (List String) = persistent_index_rules config in
    let dir = flatten-empty rules 2 _ h refl in ground arith

module _ (resolved : String → String) (is_file : String → Bool)
    (tool_errors mainnet_errors : PipelineConfiguration → List String)
    (config : PipelineConfiguration)
    (accepted : cross_option_errors resolved is_file tool_errors mainnet_errors config ≡ [])
    (other : config.action ≢ "mainnet-sync") where
  -- An accepted configuration of another action than mainnet-sync that names an index directory
  -- reads no second index, and its directory has no part `..`. On the scratch of a location the job
  -- asks for that location; elsewhere the directory is on shared storage and no location is asked
  -- for. A working copy, a restored index and a backup each have a backup to read or write, only a
  -- notebook restores, and a job never mounts Dumplings twice.
  pub accepted_index :
      (index_dir : String)
      → config.blocksci.index_dir ≡ some index_dir
      → index_dir ≢ ""
      → IsPlaced index_dir config.pbs.blocksci.multijob
        × IsCopied config
        × (is_given config.blocksci.cache_source_run_id ≡ false)
        × (has_parent_part index_dir ≡ false)
        × (contains config.blocksci.task persistent_index_tasks ≡ true)
  accepted_index index_dir e n =
      let (_, clean, _) =
        cross_option_errors-empty resolved is_file tool_errors mainnet_errors config accepted
          other in
      let given : is_given config.blocksci.index_dir ≡ true =
        ground (arith, string_equality.equals_iff index_dir "") in
      let named : text_or_empty config.blocksci.index_dir ≡ index_dir = rw e refl in
      index_dir_errors-empty config index_dir (
        subst (λ d. index_dir_errors config d ≡ []) named
          (persistent_index_errors-empty config clean.persistent_index given))

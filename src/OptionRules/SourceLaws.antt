-- ===== src/OptionRules/SourceLaws.antt =====
-- The index and the blocks that an accepted update starts from.
use coinjoin_pipeline.Base.{
  ◌+◌, ◌≡◌, ◌≢◌, refl, ◌↔◌, inl, inr, String, Bool, true, false, List, [], ◌∷◌, arith,
  if◌then◌else◌, Bool-cases, Option, none, some, ◌==◌, string_equality, ◌||◌, complain-empty,
  flatten-empty, is_given, is_some, contains,
}
use coinjoin_pipeline.OptionRules.BlockSci.{
  blocksci_task_errors, blocksci_task_rules, cache_source_errors, index_task_errors,
  reusable_task_errors, same_text,
}
use coinjoin_pipeline.OptionRules.Config.{PipelineConfiguration, is_active, supplied}
use coinjoin_pipeline.OptionRules.General.{PbsStages, requested, blocksci_alone}
use coinjoin_pipeline.OptionRules.Groups.{cross_option_errors-empty}
use coinjoin_pipeline.OptionRules.Index.{persistent_index_errors}
use coinjoin_pipeline.OptionRules.IndexLaws.{index_dir_errors-empty, persistent_index_errors-empty}
use coinjoin_pipeline.OptionRules.Rules.{cross_option_errors}
use coinjoin_pipeline.OptionRules.Sources.{
  blocksci_source_errors, blocksci_source_rules, as_number, external_baseline_errors,
}
use coinjoin_pipeline.OptionRules.Tasks.{task_eq, task_beq_iff, workflow_eq, workflow_beq_iff}
use coinjoin_pipeline.Stages.Plans.{BlockSciTask, BlockSciWorkflow}

-- The workflow that a task of the index runs on.
abbrev pub workflow_of : BlockSciTask → BlockSciWorkflow
workflow_of task =
    if task == BlockSciTask.parse then BlockSciWorkflow.reusable else BlockSciWorkflow.cached

-- A BlockSci job of an S3 run without coinjoin-analysis.
abbrev pub RunsAlone : PipelineConfiguration → Type 0
RunsAlone config =
    (config.action ≡ "pbs-from-s3")
    × ((requested config).blocksci ≡ true)
    × ((requested config).analysis ≡ false)

index_task_errors-empty :
    (action : String) (workflow : BlockSciWorkflow) (task : BlockSciTask) (stages : PbsStages)
    → index_task_errors action workflow task stages ≡ []
    → (action ≡ "pbs-from-s3")
      × (workflow ≡ workflow_of task)
      × (stages.blocksci ≡ true)
      × (stages.analysis ≡ false)
unfolding index_task_errors blocksci_alone
index_task_errors-empty action workflow task stages h =
    ground (arith, string_equality.equals_iff action "pbs-from-s3", workflow_beq_iff workflow)

pub index_task_alone :
    (config : PipelineConfiguration)
    → blocksci_task_errors config (requested config) ≡ []
    → contains config.blocksci.task (BlockSciTask.parse ∷ BlockSciTask.update ∷ []) ≡ true
    → RunsAlone config × (config.blocksci.workflow ≡ workflow_of config.blocksci.task)
unfolding blocksci_task_errors
index_task_alone config h e =
    let rules : List (List String) = blocksci_task_rules config (requested config) in
    let chosen = flatten-empty rules 1 _ h refl in
    let index_task : index_task_errors config.action config.blocksci.workflow config.blocksci.task
          (requested config)
        ≡ [] =
      ground arith in
    let (on_s3, workflow, on, off) = index_task_errors-empty _ _ _ (requested config) index_task in
    ((on_s3, on, off), workflow)

reusable_task_errors-empty :
    (action : String) (workflow : BlockSciWorkflow) (stages : PbsStages)
    → reusable_task_errors action workflow stages ≡ []
    → (action ≡ "pbs-from-s3")
      × (workflow ≢ BlockSciWorkflow.combined)
      × (stages.blocksci ≡ true)
      × (stages.analysis ≡ false)
unfolding reusable_task_errors blocksci_alone
reusable_task_errors-empty action workflow stages h = ground (
  arith,
  string_equality.equals_iff action "pbs-from-s3",
  workflow_beq_iff workflow BlockSciWorkflow.combined,
)

pub reusable_task_alone :
    (config : PipelineConfiguration)
    → blocksci_task_errors config (requested config) ≡ []
    → contains config.blocksci.task
        (BlockSciTask.script ∷ BlockSciTask.notebook ∷ BlockSciTask.backup ∷ [])
      ≡ true
    → RunsAlone config × (config.blocksci.workflow ≢ BlockSciWorkflow.combined)
unfolding blocksci_task_errors contains
reusable_task_alone config h e =
    let rules : List (List String) = blocksci_task_rules config (requested config) in
    let chosen = flatten-empty rules 1 _ h refl in
    let task : reusable_task_errors config.action config.blocksci.workflow (requested config) ≡ [] =
      ground arith in
    let (on_s3, workflow, on, off) = reusable_task_errors-empty _ _ (requested config) task in
    ((on_s3, on, off), workflow)

pub external_task_alone :
    (config : PipelineConfiguration)
    → external_baseline_errors config (requested config) ≡ []
    → config.blocksci.task ≡ BlockSciTask.external
    → RunsAlone config × (config.blocksci.workflow ≢ BlockSciWorkflow.combined)
unfolding external_baseline_errors blocksci_alone
external_task_alone config h e = ground (
  arith,
  string_equality.equals_iff config.action "pbs-from-s3",
  workflow_beq_iff config.blocksci.workflow BlockSciWorkflow.combined,
  task_beq_iff config.blocksci.task BlockSciTask.external,
)

update_sources :
    (config : PipelineConfiguration)
    → blocksci_source_errors config ≡ []
    → is_given config.blocksci.external_bitcoin_datadir
        || is_given config.blocksci.bitcoin_blocks_uri
      ≡ true
    → (as_number (is_given config.blocksci.external_bitcoin_datadir)
          + as_number (is_given config.blocksci.bitcoin_blocks_uri)
        ≡ 1)
      × (is_some config.blocksci.network ≡ true)
      × (is_some config.blocksci.max_block ≡ true)
unfolding blocksci_source_errors supplied is_active
update_sources config h e =
    let rules : List (List String) = blocksci_source_rules config in
    let one = complain-empty _ _ (flatten-empty rules 0 _ h refl) in
    let limits = flatten-empty rules 2 _ h refl in ground arith

same_text_iff : (a b : Option String) → (same_text a b ≡ true) ↔ (a ≡ b)
same_text_iff none none = ground arith
same_text_iff none (some b) = ground arith
same_text_iff (some a) none = ground arith
same_text_iff (some a) (some b) = ground (arith, string_equality.equals_iff b a)

one_of_index :
    (config : PipelineConfiguration)
    → persistent_index_errors config ≡ []
    → is_given config.blocksci.cache_source_run_id || is_given config.blocksci.index_dir ≡ true
    → as_number (is_given config.blocksci.cache_source_run_id)
        + as_number (is_given config.blocksci.index_dir)
      ≡ 1
one_of_index config h some_index = elim (Bool-cases (is_given config.blocksci.index_dir)) [
  | inl given ↦
      let dir = persistent_index_errors-empty config h given in
      let (_, _, source, _, _) = index_dir_errors-empty config _ dir in ground arith
  | inr missing ↦ ground arith
]

update_cache :
    (config : PipelineConfiguration)
    → cache_source_errors config ≡ []
    → config.blocksci.task ≡ BlockSciTask.update
    → (is_given config.blocksci.cache_source_run_id || is_given config.blocksci.index_dir ≡ true)
      × (is_given config.blocksci.external_bitcoin_datadir
            || is_given config.blocksci.bitcoin_blocks_uri
          ≡ true)
      × (is_given config.blocksci.external_blocksci_dir ≡ false)
      × (is_given config.blocksci.cache_source_run_id ≡ true
          → config.run_id ≢ config.blocksci.cache_source_run_id)
unfolding cache_source_errors
update_cache config h e = ground (
  arith,
  task_beq_iff config.blocksci.task BlockSciTask.update,
  same_text_iff config.run_id config.blocksci.cache_source_run_id,
)

module _ (resolved : String → String) (is_file : String → Bool)
    (tool_errors mainnet_errors : PipelineConfiguration → List String)
    (config : PipelineConfiguration)
    (accepted : cross_option_errors resolved is_file tool_errors mainnet_errors config ≡ []) where
  -- An accepted update, of any action but `mainnet-sync`, runs BlockSci without coinjoin-analysis on
  -- the cached workflow of an S3 run. Exactly one index is named for it: the one of a source run,
  -- whose id is not that of the run, or a directory. Exactly one source of blocks is named, with
  -- the network and the last block, and no finished index is.
  pub accepted_update :
      config.action ≢ "mainnet-sync"
      → config.blocksci.task ≡ BlockSciTask.update
      → RunsAlone config
        × (config.blocksci.workflow ≡ BlockSciWorkflow.cached)
        × (as_number (is_given config.blocksci.cache_source_run_id)
              + as_number (is_given config.blocksci.index_dir)
            ≡ 1)
        × (is_given config.blocksci.cache_source_run_id ≡ true
            → config.run_id ≢ config.blocksci.cache_source_run_id)
        × (as_number (is_given config.blocksci.external_bitcoin_datadir)
              + as_number (is_given config.blocksci.bitcoin_blocks_uri)
            ≡ 1)
        × (is_given config.blocksci.external_blocksci_dir ≡ false)
        × (is_some config.blocksci.network ≡ true)
        × (is_some config.blocksci.max_block ≡ true)
  unfolding contains
  accepted_update other e =
      let (_, clean, _) =
        cross_option_errors-empty resolved is_file tool_errors mainnet_errors config accepted
          other in
      let (alone, workflow) = index_task_alone config clean.blocksci_task (rw e refl) in
      let (some_index, some_blocks, no_index, differs) = update_cache config clean.cache_source e in
      let (one_source, network, max_block) =
        update_sources config clean.blocksci_source some_blocks in
      let one_index = one_of_index config clean.persistent_index some_index in
      (alone, rw (workflow, e) refl, one_index, differs, one_source, no_index, network, max_block)

-- ===== src/OptionRules/Samples.antt =====
-- The theorems applied to one accepted update of a persistent index.
mod Update
use Update.{update, same, no_file, no_errors}
use coinjoin_pipeline.Base.{
  ◌+◌, ◌-◌, ◌≡◌, ◌≢◌, refl, ◌↔◌, String, true, false, [], arith, string_equality, not, ◌||◌,
  contains, is_given, is_some,
}
use coinjoin_pipeline.OptionRules.Accepted.{
  height_errors-empty, heights_given, reads_range, IsScanRange,
}
use coinjoin_pipeline.OptionRules.BlockSci.{height_errors}
use coinjoin_pipeline.OptionRules.General.{requested}
use coinjoin_pipeline.OptionRules.IndexLaws.{accepted_index, IsPlaced, IsCopied}
use coinjoin_pipeline.OptionRules.Index.{has_parent_part, persistent_index_tasks}
use coinjoin_pipeline.OptionRules.NameLaws.{is_valid_run_id_lem, IsRunId}
use coinjoin_pipeline.OptionRules.Names.{is_valid_run_id}
use coinjoin_pipeline.OptionRules.PlanLaws.{accepted_plan, RunsTask, IsExplicit}
use coinjoin_pipeline.OptionRules.Rules.{cross_option_errors}
use coinjoin_pipeline.OptionRules.SourceLaws.{accepted_update, RunsAlone}
use coinjoin_pipeline.OptionRules.Sources.{as_number}
use coinjoin_pipeline.OptionRules.Tasks.{task_eq}
use coinjoin_pipeline.Stages.Plans.{BlockSciWorkflow, BlockSciTask}

-- What a run of the rules computes through.
rules_code : Unit {0}
unfolding coinjoin_pipeline.OptionRules.Names.ends_name
    coinjoin_pipeline.OptionRules.Names.matches_run_id
    coinjoin_pipeline.OptionRules.Names.is_valid_run_id
    coinjoin_pipeline.OptionRules.Names.all_lower_hex
    coinjoin_pipeline.OptionRules.Names.is_block_hash coinjoin_pipeline.OptionRules.Config.is_active
    coinjoin_pipeline.OptionRules.Config.supplied coinjoin_pipeline.OptionRules.Index.multijob_root
    coinjoin_pipeline.OptionRules.Index.first_place coinjoin_pipeline.OptionRules.Index.on_multijob
    coinjoin_pipeline.OptionRules.Index.has_parent_part
    coinjoin_pipeline.OptionRules.Index.place_errors
    coinjoin_pipeline.OptionRules.Index.multijob_errors
    coinjoin_pipeline.OptionRules.Index.no_index_errors
    coinjoin_pipeline.OptionRules.Index.index_copy_errors
    coinjoin_pipeline.OptionRules.Index.index_dir_rules
    coinjoin_pipeline.OptionRules.Index.index_dir_errors
    coinjoin_pipeline.OptionRules.Index.persistent_index_rules
    coinjoin_pipeline.OptionRules.Index.persistent_index_errors
    coinjoin_pipeline.OptionRules.General.external_configured
    coinjoin_pipeline.OptionRules.General.resources_supplied
    coinjoin_pipeline.OptionRules.General.permitted_errors
    coinjoin_pipeline.OptionRules.General.action_option_errors
    coinjoin_pipeline.OptionRules.General.shared_storage_errors
    coinjoin_pipeline.OptionRules.General.external_errors
    coinjoin_pipeline.OptionRules.General.general_errors
    coinjoin_pipeline.OptionRules.General.requested
    coinjoin_pipeline.OptionRules.General.blocksci_alone
    coinjoin_pipeline.OptionRules.General.run_id_errors
    coinjoin_pipeline.OptionRules.General.run_selection_errors
    coinjoin_pipeline.OptionRules.General.driver_errors
    coinjoin_pipeline.OptionRules.General.pbs_stage_errors
    coinjoin_pipeline.OptionRules.BlockSci.index_task_errors
    coinjoin_pipeline.OptionRules.BlockSci.reusable_task_errors
    coinjoin_pipeline.OptionRules.BlockSci.notebook_option_errors
    coinjoin_pipeline.OptionRules.BlockSci.blocksci_task_rules
    coinjoin_pipeline.OptionRules.BlockSci.blocksci_task_errors
    coinjoin_pipeline.OptionRules.BlockSci.cache_source_errors
    coinjoin_pipeline.OptionRules.BlockSci.dumplings_errors
    coinjoin_pipeline.OptionRules.BlockSci.empty_scan
    coinjoin_pipeline.OptionRules.BlockSci.beyond_pin
    coinjoin_pipeline.OptionRules.BlockSci.height_errors
    coinjoin_pipeline.OptionRules.Sources.expected_hash_errors
    coinjoin_pipeline.OptionRules.Sources.source_permitted
    coinjoin_pipeline.OptionRules.Sources.blocksci_source_rules
    coinjoin_pipeline.OptionRules.Sources.blocksci_source_errors
    coinjoin_pipeline.OptionRules.Sources.external_baseline_errors
    coinjoin_pipeline.OptionRules.Storage.missing
    coinjoin_pipeline.OptionRules.Storage.missing_s3_options
    coinjoin_pipeline.OptionRules.Storage.requires
    coinjoin_pipeline.OptionRules.Storage.pbs_from_s3_errors
    coinjoin_pipeline.OptionRules.Storage.kubernetes_s3_errors
    coinjoin_pipeline.OptionRules.Storage.full_run_s3_errors
    coinjoin_pipeline.OptionRules.Storage.s3_rules coinjoin_pipeline.OptionRules.Storage.s3_errors
    coinjoin_pipeline.OptionRules.Storage.script_errors
    coinjoin_pipeline.OptionRules.Storage.remaining_errors
    coinjoin_pipeline.OptionRules.Rules.starts_with_group
    coinjoin_pipeline.OptionRules.Rules.any_mainnet
    coinjoin_pipeline.OptionRules.Rules.action_groups
    coinjoin_pipeline.OptionRules.Rules.action_errors
    coinjoin_pipeline.OptionRules.Rules.cross_option_errors coinjoin_pipeline.Base.contains
    coinjoin_pipeline.Base.has_prefix coinjoin_pipeline.Base.starts_with
    coinjoin_pipeline.Base.occurs coinjoin_pipeline.Base.has_substring coinjoin_pipeline.Base.split
    coinjoin_pipeline.Base.format coinjoin_pipeline.Base.list_beq
    coinjoin_pipeline.Stages.Plans.runs_unified_report coinjoin_pipeline.Stages.Plans.task_text
rules_code = tt

update_accepted : cross_option_errors same no_file no_errors no_errors update ≡ []
unfolding rules_code
update_accepted = refl

update_action : update.action ≢ "mainnet-sync"
update_action = ground (arith, string_equality.equals_iff update.action "mainnet-sync")

update_not_detect : update.blocksci.task ≢ BlockSciTask.detect
update_not_detect = ground arith

update-IsExplicit : IsExplicit update
unfolding requested rules_code
update-IsExplicit = (refl, refl, refl)

dir_not_empty : ◌≢◌ {A = String} "/scratch/multijob-brno/index" ""
dir_not_empty = ground (arith, string_equality.equals_iff "/scratch/multijob-brno/index" "")

height_errors-empty_example : (height_errors update ≡ []) ↔ (
    ((reads_range update.blocksci.task || not (heights_given update)) ≡ true)
    × IsScanRange update.blocksci.pin_height update.blocksci.scan_start_height
        update.blocksci.scan_end_height)
height_errors-empty_example = height_errors-empty update

accepted_index_example :
    IsPlaced "/scratch/multijob-brno/index" update.pbs.blocksci.multijob
    × IsCopied update
    × (is_given update.blocksci.cache_source_run_id ≡ false)
    × (has_parent_part "/scratch/multijob-brno/index" ≡ false)
    × (contains update.blocksci.task persistent_index_tasks ≡ true)
accepted_index_example =
    accepted_index same no_file no_errors no_errors update update_accepted update_action
      "/scratch/multijob-brno/index" refl dir_not_empty

accepted_update_example :
    RunsAlone update
    × (update.blocksci.workflow ≡ BlockSciWorkflow.cached)
    × (as_number (is_given update.blocksci.cache_source_run_id)
          + as_number (is_given update.blocksci.index_dir)
        ≡ 1)
    × (is_given update.blocksci.cache_source_run_id ≡ true
        → update.run_id ≢ update.blocksci.cache_source_run_id)
    × (as_number (is_given update.blocksci.external_bitcoin_datadir)
          + as_number (is_given update.blocksci.bitcoin_blocks_uri)
        ≡ 1)
    × (is_given update.blocksci.external_blocksci_dir ≡ false)
    × (is_some update.blocksci.network ≡ true)
    × (is_some update.blocksci.max_block ≡ true)
accepted_update_example =
    accepted_update same no_file no_errors no_errors update update_accepted update_action refl

accepted_plan_example : RunsTask update
accepted_plan_example =
    accepted_plan same no_file no_errors no_errors update update_accepted update_action
      update-IsExplicit update_not_detect

is_valid_run_id_lem_example : (is_valid_run_id "run.1" ≡ true) ↔ IsRunId "run.1"
is_valid_run_id_lem_example = is_valid_run_id_lem "run.1"

-- ===== src/OptionRules/BlockSci.antt =====
-- option_rules.py: the rules for the BlockSci task, its index source, its heights and its baseline.
use coinjoin_pipeline.Base.{
  flatten, ℕ, ◌+◌, String, Bool, true, false, List, [], ◌∷◌, ◌++◌, if◌then◌else◌, ltb, leb, Option,
  none, some, ◌==◌, string_equality, not, ◌&&◌, ◌||◌, contains, is_given, is_text, format, complain,
  nat_equality, list_eq,
}
use coinjoin_pipeline.OptionRules.Config.{
  PipelineConfiguration, supplied, text_value, number_value, number,
}
use coinjoin_pipeline.OptionRules.General.{PbsStages, blocksci_alone}
use coinjoin_pipeline.OptionRules.Index.{read_only_cache_tasks}
use coinjoin_pipeline.OptionRules.Tasks.{task_eq, workflow_eq}
use coinjoin_pipeline.Stages.Plans.{BlockSciTask, BlockSciWorkflow, task_text}

abbrev workflow_text : BlockSciWorkflow → String
workflow_text BlockSciWorkflow.combined = "combined"
workflow_text BlockSciWorkflow.reusable = "reusable"
workflow_text BlockSciWorkflow.cached = "cached"

-- `parse` and `update` run alone, in the workflow that suits them.
unfoldable pub index_task_errors :
    String → BlockSciWorkflow → BlockSciTask → PbsStages → List String
unfolding blocksci_alone task_text
index_task_errors action workflow task stages =
    let required_workflow =
      if task == BlockSciTask.parse then BlockSciWorkflow.reusable else BlockSciWorkflow.cached in
    complain (not (action == "pbs-from-s3") || not (workflow == required_workflow)) (
      format (
        "--blocksci-task "
        ∷ task_text task
        ∷ " requires pbs-from-s3 --blocksci-workflow "
        ∷ workflow_text required_workflow
        ∷ []))
    ++ complain (not (blocksci_alone stages)) (
        format (
          "--blocksci-task "
          ∷ task_text task
          ∷ " requires --blocksciPbs without --analysisPbs"
          ∷ []))

unfoldable pub reusable_task_errors : String → BlockSciWorkflow → PbsStages → List String
unfolding blocksci_alone
reusable_task_errors action workflow stages =
    complain (not (action == "pbs-from-s3"))
      "BlockSci reusable tasks are submitted with pbs-from-s3"
    ++ complain (workflow == BlockSciWorkflow.combined)
        "BlockSci reusable tasks require --blocksci-workflow reusable or cached"
    ++ complain (not (blocksci_alone stages))
        "BlockSci reusable tasks require --blocksciPbs without --analysisPbs"

unfoldable pub notebook_option_errors : PipelineConfiguration → List String
notebook_option_errors config =
    if config.blocksci.task == BlockSciTask.notebook
    then []
    else complain
        (supplied config "blocksci.notebooks_dir" (text_value config.blocksci.notebooks_dir))
        "--blocksci-notebooks-dir requires --blocksci-task notebook"
      ++ complain (supplied config "blocksci.notebook_port" (number config.blocksci.notebook_port))
          "--blocksci-notebook-port requires --blocksci-task notebook"

unfoldable pub blocksci_task_rules : PipelineConfiguration → PbsStages → List (List String)
unfolding contains index_task_errors reusable_task_errors notebook_option_errors
blocksci_task_rules config stages =
    let action = config.action in
    let blocksci = config.blocksci in
    let workflow = blocksci.workflow in
    let task = blocksci.task in
    let on_s3 = action == "pbs-from-s3" in
    complain (not (workflow == BlockSciWorkflow.combined) && not stages.blocksci)
      "reusable BlockSci workflows require --blocksciPbs"
    ∷ (if contains task (BlockSciTask.parse ∷ BlockSciTask.update ∷ [])
        then index_task_errors action workflow task stages
        else if contains task (BlockSciTask.detect ∷ BlockSciTask.external ∷ [])
        then []
        else reusable_task_errors action workflow stages)
    ∷ complain (on_s3 && task == BlockSciTask.script && not (is_given blocksci.script))
        "--blocksci-task script requires --blocksci-script"
    ∷ complain
        (on_s3
          && not (task == BlockSciTask.script)
          && supplied config "blocksci.script" (text_value blocksci.script))
        "--blocksci-script requires --blocksci-task script"
    ∷ notebook_option_errors config
    ∷ []

unfoldable pub blocksci_task_errors : PipelineConfiguration → PbsStages → List String
unfolding blocksci_task_rules
blocksci_task_errors config stages = flatten (blocksci_task_rules config stages)

-- `a == b` for two texts that may be `None`.
abbrev pub same_text : Option String → Option String → Bool
same_text none none = true
same_text none (some b) = false
same_text (some a) b = is_text b a

unfoldable pub cache_source_errors : PipelineConfiguration → List String
unfolding contains
cache_source_errors config =
    let blocksci = config.blocksci in
    let task = blocksci.task in
    let source_given = is_given blocksci.cache_source_run_id in
    let same_run = same_text config.run_id blocksci.cache_source_run_id in
    if task == BlockSciTask.update
    then complain (not source_given && not (is_given blocksci.index_dir))
        "--blocksci-task update requires --blocksci-cache-source-run-id or --blocksci-index-dir"
      ++ complain
          (not (is_given blocksci.external_bitcoin_datadir || is_given blocksci.bitcoin_blocks_uri))
          "--blocksci-task update requires --blocksci-external-bitcoin-datadir or --blocksci-bitcoin-blocks-uri"
      ++ complain (is_given blocksci.external_blocksci_dir)
          "--blocksci-task update does not support --blocksci-external-blocksci-dir"
      ++ complain (source_given && same_run)
          "--blocksci-cache-source-run-id must differ from target --run-id"
    else if contains task read_only_cache_tasks && source_given
    then complain (not (blocksci.workflow == BlockSciWorkflow.cached))
        "--blocksci-cache-source-run-id with an analysis task requires --blocksci-workflow cached"
      ++ complain same_run "--blocksci-cache-source-run-id must differ from target --run-id"
    else complain source_given
        "--blocksci-cache-source-run-id requires --blocksci-task update, script, external, or notebook"

unfoldable pub dumplings_errors : PipelineConfiguration → PbsStages → List String
dumplings_errors config stages =
    if is_given config.dumplings_uri
    then complain (not (config.action == "pbs-from-s3") || not stages.analysis)
        "--dumplings-uri requires pbs-from-s3 --analysisPbs"
      ++ complain stages.mappings "--dumplings-uri does not support --mappingsPbs"
    else []

-- `scan_start is not None and scan_end is not None and scan_start >= scan_end`
unfoldable pub empty_scan : Option ℕ → Option ℕ → Bool
empty_scan none end = false
empty_scan (some start) none = false
empty_scan (some start) (some end) = leb end start

-- `pin_height is not None and scan_end is not None and scan_end > pin_height + 1`
unfoldable pub beyond_pin : Option ℕ → Option ℕ → Bool
beyond_pin none end = false
beyond_pin (some pin) none = false
beyond_pin (some pin) (some end) = ltb (pin + 1) end

unfoldable pub height_errors : PipelineConfiguration → List String
unfolding contains empty_scan beyond_pin
height_errors config =
    let blocksci = config.blocksci in
    (if contains blocksci.task (BlockSciTask.script ∷ BlockSciTask.external ∷ [])
      then []
      else complain (supplied config "blocksci.pin_height" (number_value blocksci.pin_height))
          "--blocksci-pin-height requires --blocksci-task script or external"
        ++ complain
            (supplied config "blocksci.scan_start_height" (number_value blocksci.scan_start_height))
            "--blocksci-scan-start-height requires --blocksci-task script or external"
        ++ complain
            (supplied config "blocksci.scan_end_height" (number_value blocksci.scan_end_height))
            "--blocksci-scan-end-height requires --blocksci-task script or external")
    ++ complain (empty_scan blocksci.scan_start_height blocksci.scan_end_height)
        "--blocksci-scan-start-height must be below --blocksci-scan-end-height"
    ++ complain (beyond_pin blocksci.pin_height blocksci.scan_end_height)
        "--blocksci-scan-end-height must not exceed --blocksci-pin-height + 1"

-- ===== src/OptionRules/Index.antt =====
-- option_rules.py: the rules for a BlockSci index kept in a directory shared by jobs.
use coinjoin_pipeline.Base.{
  flatten, String, Bool, List, [], ◌∷◌, ◌++◌, if◌then◌else◌, Option, none, some, ◌==◌,
  string_equality, not, ◌&&◌, ◌||◌, contains, codes, starts_with, split, is_given, is_text, format,
  complain, nat_equality, list_eq,
}
use coinjoin_pipeline.OptionRules.Config.{
  PipelineConfiguration, BlockSciConfiguration, supplied, text_value,
}
use coinjoin_pipeline.OptionRules.Tasks.{task_eq}
use coinjoin_pipeline.Stages.Plans.{BlockSciTask}

abbrev pub read_only_cache_tasks : List BlockSciTask
read_only_cache_tasks = BlockSciTask.script ∷ BlockSciTask.external ∷ BlockSciTask.notebook ∷ []

abbrev pub persistent_index_tasks : List BlockSciTask
persistent_index_tasks =
    BlockSciTask.parse ∷ BlockSciTask.update ∷ BlockSciTask.backup ∷ read_only_cache_tasks

-- The jobs that only maintain the index.
abbrev index_state_tasks : List BlockSciTask
index_state_tasks = BlockSciTask.parse ∷ BlockSciTask.update ∷ BlockSciTask.backup ∷ []

-- `MULTIJOB_ROOT.format(place)`
unfoldable pub multijob_root : String → String
multijob_root place = format ("/scratch/multijob-" ∷ place ∷ "/" ∷ [])

abbrev pub on_shared_root : String → Bool
on_shared_root index_dir = starts_with index_dir "/storage/" || starts_with index_dir "/auto/"

unfoldable pub first_place : String → List String → Option String
unfolding multijob_root starts_with
first_place index_dir [] = none
first_place index_dir (place ∷ places) =
    let later = first_place index_dir places in
    if starts_with index_dir (multijob_root place) then some place else later

unfoldable pub on_multijob : String → Option String
unfolding first_place
on_multijob index_dir = first_place index_dir ("brno" ∷ "plzen" ∷ "global" ∷ [])

-- `".." in Path(index_dir).parts`
unfoldable pub has_parent_part : String → Bool
unfolding split contains
has_parent_part index_dir = contains (codes "..") (split b'/' (codes index_dir))

-- The multijob location of the index against the one the job asks for.
unfoldable pub place_errors : String → Option String → Option String → List String
place_errors index_dir multijob none =
    if not (on_shared_root index_dir)
    then "--blocksci-index-dir must be under /scratch/multijob-<location>/ or /storage/" ∷ []
    else elim multijob [
      | none ↦ []
      | some place ↦ complain (not (place == "")) (
          format (
            "--pbs-blocksci-multijob " ∷ place
            ∷ " requires --blocksci-index-dir under /scratch/multijob-" ∷ place ∷ "/" ∷ []))
    ]
place_errors index_dir multijob (some place) = complain (not (is_text multijob place)) (
    format (
      "--blocksci-index-dir on multijob-" ∷ place ∷ " requires --pbs-blocksci-multijob " ∷ place
      ∷ []))

unfoldable pub multijob_errors : PipelineConfiguration → List String
multijob_errors config =
    complain (supplied config "pbs.analysis.multijob" (text_value config.pbs.analysis.multijob))
      "--pbs-analysis-multijob is supported only for the BlockSci stage"
    ++ complain (supplied config "pbs.mappings.multijob" (text_value config.pbs.mappings.multijob))
        "--pbs-mappings-multijob is supported only for the BlockSci stage"
    ++ complain
        (supplied config "pbs.unified_report.multijob"
          (text_value config.pbs.unified_report.multijob))
        "--pbs-unified-report-multijob is supported only for the BlockSci stage"

-- The rules when no index directory is set.
unfoldable pub no_index_errors : PipelineConfiguration → List String
no_index_errors config =
    complain (is_given config.blocksci.index_backup_uri)
      "--blocksci-index-backup-uri requires --blocksci-index-dir"
    ++ complain (is_given config.pbs.blocksci.multijob)
        "--pbs-blocksci-multijob requires --blocksci-index-dir on that multijob scratch"
    ++ complain (config.blocksci.task == BlockSciTask.backup)
        "--blocksci-task backup requires --blocksci-index-dir"

-- The rules on the backup, the working copy and the directories mounted beside the index.
unfoldable pub index_copy_errors : BlockSciConfiguration → List String
unfolding contains
index_copy_errors blocksci =
    let no_backup = not (is_given blocksci.index_backup_uri) in
    let notebook = blocksci.task == BlockSciTask.notebook in
    complain (blocksci.task == BlockSciTask.backup && no_backup)
      "--blocksci-task backup requires --blocksci-index-backup-uri"
    ++ complain
        (blocksci.index_in_scratch
          && (no_backup || not (contains blocksci.task read_only_cache_tasks)))
        "--blocksci-index-in-scratch requires --blocksci-index-backup-uri and --blocksci-task script, external or notebook"
    ++ complain (blocksci.restore_index && (no_backup || not notebook || blocksci.index_in_scratch))
        "--blocksci-restore-index requires --blocksci-index-backup-uri and --blocksci-task notebook, without --blocksci-index-in-scratch"
    ++ complain (is_given blocksci.storage_report_uri && not blocksci.restore_index)
        "--blocksci-storage-report-uri requires --blocksci-restore-index"
    ++ complain
        (is_given blocksci.dumplings_uri
          && not (blocksci.index_in_scratch || blocksci.restore_index))
        "--blocksci-dumplings-uri requires --blocksci-index-in-scratch or --blocksci-restore-index"
    ++ complain
        (is_given blocksci.dumplings_dir
          && (not notebook
              || not (is_given blocksci.index_dir)
              || blocksci.index_in_scratch
              || blocksci.restore_index))
        "--blocksci-dumplings-dir requires --blocksci-task notebook and --blocksci-index-dir, without --blocksci-index-in-scratch or --blocksci-restore-index"

-- The rules when the index directory is set.
unfoldable pub index_dir_rules : PipelineConfiguration → String → List (List String)
unfolding contains place_errors index_copy_errors
index_dir_rules config index_dir =
    let blocksci = config.blocksci in
    complain (not (contains blocksci.task persistent_index_tasks))
      "--blocksci-index-dir requires --blocksci-task parse, update, backup, script, external, or notebook"
    ∷ complain (is_given blocksci.cache_source_run_id)
        "choose one index source: --blocksci-index-dir or --blocksci-cache-source-run-id"
    ∷ complain
        (blocksci.task == BlockSciTask.parse
          && not
              (is_given blocksci.bitcoin_blocks_uri || is_given blocksci.external_bitcoin_datadir))
        "a persistent index is parsed from --blocksci-bitcoin-blocks-uri or --blocksci-external-bitcoin-datadir"
    ∷ place_errors index_dir config.pbs.blocksci.multijob (on_multijob index_dir)
    ∷ complain (has_parent_part index_dir) "--blocksci-index-dir must not contain '..'"
    ∷ index_copy_errors blocksci
    ∷ []

unfoldable pub index_dir_errors : PipelineConfiguration → String → List String
unfolding index_dir_rules
index_dir_errors config index_dir = flatten (index_dir_rules config index_dir)

-- `blocksci.index_dir or ""`
abbrev pub text_or_empty : Option String → String
text_or_empty none = ""
text_or_empty (some value) = value

unfoldable pub persistent_index_rules : PipelineConfiguration → List (List String)
unfolding multijob_errors contains no_index_errors index_dir_errors
persistent_index_rules config =
    let blocksci = config.blocksci in
    let has_dir = is_given blocksci.index_dir in
    multijob_errors config
    ∷ complain
        (is_given blocksci.index_state_uri
          && (not has_dir || not (contains blocksci.task index_state_tasks)))
        "--blocksci-index-state-uri requires --blocksci-index-dir and --blocksci-task parse, update or backup"
    ∷ (if has_dir
        then index_dir_errors config (text_or_empty blocksci.index_dir)
        else no_index_errors config)
    ∷ []

unfoldable pub persistent_index_errors : PipelineConfiguration → List String
unfolding persistent_index_rules
persistent_index_errors config = flatten (persistent_index_rules config)

-- ===== src/OptionRules/General.antt =====
-- option_rules.py: the rules for every action, the selected runs, the driver and the PBS stages.
-- The files on disk are a parameter: `resolved` is `Path(_).expanduser().resolve()`.
use coinjoin_pipeline.Base.{
  String, Bool, true, false, List, [], ◌∷◌, ◌++◌, if◌then◌else◌, leb, Option, none, some, ◌==◌,
  string_equality, not, ◌&&◌, ◌||◌, contains, is_given, is_some, format, complain, nat_equality,
  list_eq,
}
use coinjoin_pipeline.OptionRules.Config.{
  Value, flag, text, texts, number_value, PipelineConfiguration, PbsResourceConfiguration,
  ExternalAnalysisConfiguration, supplied, text_value, is_active,
}
use coinjoin_pipeline.OptionRules.Names.{is_valid_run_id, run_id_rule}

-- `any_option_set(external)`
unfoldable pub external_configured : ExternalAnalysisConfiguration → Bool
unfolding is_active
external_configured external =
    is_active (text_value external.bitcoin_datadir)
    || is_active (text_value external.baseline)
    || is_active (texts external.false_cjtxs)
    || is_active (text_value external.network)
    || is_active (number_value external.min_free_gb)
    || is_active (flag external.resume)

-- `_resources_supplied`
unfoldable pub resources_supplied : PipelineConfiguration → String → PbsResourceConfiguration → Bool
resources_supplied config stage resources =
    let path : String → String = λ field. format ("pbs." ∷ stage ∷ "." ∷ field ∷ []) in
    supplied config (path "ncpus") (number_value resources.ncpus)
    || supplied config (path "mem") (text_value resources.mem)
    || supplied config (path "scratch") (text_value resources.scratch)
    || supplied config (path "scratch_type") (text_value resources.scratch_type)
    || supplied config (path "walltime") (text_value resources.walltime)
    || supplied config (path "multijob") (text_value resources.multijob)

-- `value is not None and value is not False`
abbrev is_set : Value → Bool
is_set (texts xs) = true
is_set value = is_active value

-- One option that only some actions permit.
unfoldable pub permitted_errors :
    PipelineConfiguration → String → Value → String → List String → List String
unfolding contains is_active
permitted_errors config path value cli_flag permitted =
    complain
      (contains path config.provided && not (contains config.action permitted) && is_set value)
      (format (cli_flag ∷ " is not supported for " ∷ config.action ∷ []))

-- The options that name their actions, in the order of the declarations.
unfoldable pub action_option_errors : PipelineConfiguration → List String
unfolding permitted_errors
action_option_errors config =
    permitted_errors config "run_dir" (text_value config.run_dir) "--run-dir"
      ("analyze" ∷ "mappings" ∷ "export" ∷ "coinjoin-analysis" ∷ [])
    ++ permitted_errors config "run_id" (text_value config.run_id) "--run-id"
        ("emulate" ∷ "full-run" ∷ "pbs-from-s3" ∷ "mainnet-sync" ∷ "external analyze" ∷ [])
    ++ permitted_errors config "parallel" (flag config.parallel) "--parallel" ("full-run" ∷ [])
    ++ permitted_errors config "all_runs" (flag config.all_runs) "--all-runs"
        ("coinjoin-analysis" ∷ [])
    ++ permitted_errors config "yes" (flag config.yes) "--yes" ("clean" ∷ [])
    ++ permitted_errors config "analysis_action" (text config.analysis_action) "--analysis-action"
        ("coinjoin-analysis" ∷ [])

unfoldable pub shared_storage_errors : PipelineConfiguration → List String
shared_storage_errors config =
    if config.artifacts.backend == "s3" && not (config.action == "pbs-from-s3")
    then complain (is_given config.kubernetes.btc_datadir)
        "Kubernetes S3-compatible mode does not support shared Bitcoin storage (--kubernetes-btc-datadir)"
      ++ complain (is_given config.pbs.bitcoin_datadir)
          "Kubernetes S3-compatible mode does not support shared Bitcoin storage (--pbs-bitcoin-datadir)"
      ++ complain config.kubernetes.copy_to_host
          "Kubernetes S3-compatible mode does not support shared Bitcoin storage (--copy-to-host)"
    else []

unfoldable pub external_errors : PipelineConfiguration → List String
unfolding external_configured
external_errors config =
    let external = config.external in
    if config.action == "external analyze"
    then complain
        (external.resume && (is_some external.bitcoin_datadir || is_some external.baseline))
        "external.resume cannot be combined with external.bitcoin_datadir or external.baseline"
      ++ complain
          (not external.resume
            && (not (is_given external.bitcoin_datadir) || not (is_given external.baseline)))
          "a new external analysis requires external.bitcoin_datadir and external.baseline"
    else complain (external_configured external)
        "external settings require action: external analyze"

module _ (resolved : String → String) where
  -- Two directories are given, and they are not the same one.
  abbrev differ : Option String → Option String → Bool
  differ none second = false
  differ (some a) none = false
  differ (some a) (some b) = not (a == "") && not (b == "") && not (resolved a == resolved b)

  unfoldable pub general_errors : PipelineConfiguration → List String
  unfolding action_option_errors shared_storage_errors external_errors
  general_errors config =
      action_option_errors config
      ++ complain (config.action == "external analyze" && not (is_given config.run_id))
          "external analyze requires --run-id"
      ++ complain (config.all_runs && config.stages.analysis)
          "--all-runs is not supported with --analysisPbs; select one run"
      ++ complain
          (not (leb 1024 config.blocksci.notebook_port && leb config.blocksci.notebook_port 65535))
          "--blocksci-notebook-port must be between 1024 and 65535"
      ++ shared_storage_errors config
      ++ complain
          (config.driver == "kubernetes"
            && config.stages.blocksci
            && not config.kubernetes.copy_to_host
            && differ config.kubernetes.btc_datadir config.pbs.bitcoin_datadir)
          "Kubernetes and PBS Bitcoin datadirs must identify the same directory"
      ++ external_errors config

-- `_PbsStages`: the PBS stages a configuration requests explicitly.
pub record PbsStages : Type 0 where
  pub analysis : Bool
  pub blocksci : Bool
  pub mappings : Bool

unfoldable pub requested : PipelineConfiguration → PbsStages
requested config = record {
  analysis = supplied config "stages.analysis" (flag config.stages.analysis);
  blocksci = supplied config "stages.blocksci" (flag config.stages.blocksci);
  mappings = supplied config "stages.mappings" (flag config.stages.mappings);
}

unfoldable pub blocksci_alone : PbsStages → Bool
blocksci_alone stages = stages.blocksci && not stages.analysis

unfoldable pub run_id_errors : String → Option String → List String
run_id_errors option none = []
run_id_errors option (some run_id) =
    complain (not (is_valid_run_id run_id)) (format (option ∷ " " ∷ run_id_rule ∷ []))

unfoldable pub run_selection_errors : PipelineConfiguration → List String
unfolding contains run_id_errors
run_selection_errors config =
    complain (is_some config.run_dir && config.all_runs)
      "--run-dir and --all-runs are mutually exclusive"
    ++ complain
        (contains config.action ("analyze" ∷ "export" ∷ "coinjoin-analysis" ∷ "mappings" ∷ [])
          && not (supplied config "run_dir" (text_value config.run_dir))
          && not (supplied config "all_runs" (flag config.all_runs)))
        (format (config.action ∷ " requires --run-dir (or --all-runs where supported)" ∷ []))
    ++ complain
        (config.action == "clean"
          && not (supplied config "dry_run" (flag config.dry_run))
          && not (supplied config "yes" (flag config.yes)))
        "clean is destructive; pass --yes or --dry-run"
    ++ run_id_errors "--run-id" config.run_id
    ++ run_id_errors "--blocksci-cache-source-run-id" config.blocksci.cache_source_run_id

unfoldable pub driver_errors : PipelineConfiguration → List String
driver_errors config =
    let kubernetes = config.kubernetes in
    if config.driver == "kubernetes"
    then []
    else complain (supplied config "kubernetes.kubeconfig" (text_value kubernetes.kubeconfig))
        "--kubeconfig requires --driver kubernetes"
      ++ complain (supplied config "kubernetes.namespace" (text kubernetes.namespace))
          "--namespace requires --driver kubernetes"
      ++ complain (supplied config "kubernetes.reuse_namespace" (flag kubernetes.reuse_namespace))
          "--reuse-namespace requires --driver kubernetes"
      ++ complain (supplied config "kubernetes.copy_to_host" (flag kubernetes.copy_to_host))
          "--copy-to-host requires --driver kubernetes"

unfoldable pub pbs_stage_errors : PipelineConfiguration → PbsStages → List String
unfolding contains resources_supplied
pbs_stage_errors config stages =
    complain
      (stages.analysis
        && not (contains config.action ("full-run" ∷ "coinjoin-analysis" ∷ "pbs-from-s3" ∷ [])))
      "--analysisPbs is supported only by full-run, coinjoin-analysis, pbs-from-s3"
    ++ complain
        (stages.blocksci
          && not (contains config.action ("full-run" ∷ "analyze" ∷ "pbs-from-s3" ∷ [])))
        "--blocksciPbs is supported only by full-run, analyze, pbs-from-s3"
    ++ complain
        (stages.mappings
          && not (contains config.action ("full-run" ∷ "mappings" ∷ "pbs-from-s3" ∷ [])))
        "--mappingsPbs is supported only by full-run, mappings, pbs-from-s3"
    ++ complain (resources_supplied config "analysis" config.pbs.analysis && not stages.analysis)
        "analysis-specific PBS resources require --analysisPbs"
    ++ complain (resources_supplied config "blocksci" config.pbs.blocksci && not stages.blocksci)
        "blocksci-specific PBS resources require --blocksciPbs"
    ++ complain (resources_supplied config "mappings" config.pbs.mappings && not stages.mappings)
        "mappings-specific PBS resources require --mappingsPbs"

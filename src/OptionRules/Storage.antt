-- ===== src/OptionRules/Storage.antt =====
-- option_rules.py: the rules for runs on S3 and the remaining ones, and all of them together.
-- `is_file` is `Path(_).expanduser().is_file()`.
use coinjoin_pipeline.Base.{
  flatten, String, Bool, true, false, List, [], ◌∷◌, ◌++◌, if◌then◌else◌, Option, none, some, ◌==◌,
  string_equality, not, ◌&&◌, ◌||◌, contains, is_given, format, complain, nat_equality, list_eq,
}
use coinjoin_pipeline.OptionRules.Config.{PipelineConfiguration, supplied, text_value, flag}
use coinjoin_pipeline.OptionRules.General.{PbsStages, resources_supplied}
use coinjoin_pipeline.OptionRules.Tasks.{task_eq, workflow_eq}
use coinjoin_pipeline.Stages.Plans.{BlockSciTask, BlockSciWorkflow, runs_unified_report}

-- `[flag for flag, value in required if not value]`
unfoldable pub missing : List (String × Option String) → List String
missing [] = []
missing ((option, value) ∷ rest) = complain (not (is_given value)) option ++ missing rest

unfoldable pub missing_s3_options : PipelineConfiguration → Bool → List String
unfolding missing
missing_s3_options config with_secret =
    let artifacts = config.artifacts in
    missing (
      ("--run-id", config.run_id)
        ∷ ("--artifact-uri", artifacts.uri)
        ∷ ("--s3-endpoint-url", artifacts.endpoint_url)
        ∷ (if with_secret then ("--s3-secret-name", artifacts.secret_name) ∷ [] else [])
      ++ ("--s3-credentials-file", artifacts.credentials_file)
        ∷ ("--s3-profile", artifacts.profile)
        ∷ [])

-- `f"{subject} requires {flag}" for flag in flags`
unfoldable pub requires : String → List String → List String
requires subject [] = []
requires subject (option ∷ options) =
    format (subject ∷ " requires " ∷ option ∷ []) ∷ requires subject options

unfoldable pub pbs_from_s3_errors : PipelineConfiguration → PbsStages → List String
unfolding requires missing_s3_options
pbs_from_s3_errors config stages =
    requires "pbs-from-s3" (missing_s3_options config false)
    ++ complain (not (stages.analysis || stages.blocksci || stages.mappings))
        "pbs-from-s3 requires --analysisPbs, --blocksciPbs, or --mappingsPbs"

unfoldable pub kubernetes_s3_errors : PipelineConfiguration → List String
unfolding requires missing_s3_options
kubernetes_s3_errors config =
    let full_run = config.action == "full-run" in
    let mode =
      if full_run then "full-run --artifact-backend s3" else "Kubernetes S3-compatible mode" in
    requires mode (missing_s3_options config true)
    ++ complain (not (config.driver == "kubernetes")) (
        format (
          (if full_run then "full-run " else "")
          ∷ "--artifact-backend s3 requires --driver kubernetes"
          ∷ []))
    ++ complain
        (not
          (supplied config "kubernetes.reuse_namespace" (flag config.kubernetes.reuse_namespace)))
        "Kubernetes S3-compatible mode requires --reuse-namespace because the credentials Secret must exist before the Job is created"

unfoldable pub full_run_s3_errors : PipelineConfiguration → PbsStages → List String
full_run_s3_errors config stages =
    complain (config.blocksci.workflow == BlockSciWorkflow.cached)
      "full-run cannot reuse a cache before emulation; use --blocksci-workflow reusable"
    ++ complain (stages.mappings && not stages.analysis)
        "full-run --artifact-backend s3 --mappingsPbs requires --analysisPbs"
    ++ complain (supplied config "parallel" (flag config.parallel))
        "full-run --artifact-backend s3 does not support --parallel"
    ++ complain (supplied config "blocksci.script" (text_value config.blocksci.script))
        "full-run --artifact-backend s3 does not support --blocksci-script"

unfoldable pub s3_rules : PipelineConfiguration → PbsStages → List (List String)
unfolding contains pbs_from_s3_errors kubernetes_s3_errors full_run_s3_errors runs_unified_report
s3_rules config stages =
    let action = config.action in
    let s3_backend = config.artifacts.backend == "s3" in
    (if action == "pbs-from-s3" then pbs_from_s3_errors config stages else [])
    ∷ complain
        (s3_backend
          && contains action ("full-run" ∷ "pbs-from-s3" ∷ [])
          && resources_supplied config "unified_report" config.pbs.unified_report
          && not (runs_unified_report action stages.analysis stages.blocksci config.blocksci.task))
        "unified-report PBS resource overrides require a unified-report job: BlockSci detection with a coinjoin-analysis baseline"
    ∷ (if s3_backend && contains action ("full-run" ∷ "emulate" ∷ [])
        then kubernetes_s3_errors config
        else [])
    ∷ (if s3_backend && action == "full-run" then full_run_s3_errors config stages else [])
    ∷ []

unfoldable pub s3_errors : PipelineConfiguration → PbsStages → List String
unfolding s3_rules
s3_errors config stages = flatten (s3_rules config stages)

module _ (is_file : String → Bool) where
  unfoldable pub script_errors : Option String → List String
  script_errors none = []
  script_errors (some script) =
      complain (not (script == "") && not (is_file script))
        (format ("BlockSci script not found: " ∷ script ∷ []))

  unfoldable pub remaining_errors : PipelineConfiguration → PbsStages → List String
  unfolding script_errors
  remaining_errors config stages =
      let blocksci = config.blocksci in
      complain
        (config.action == "full-run"
          && not (config.artifacts.backend == "s3")
          && (not (blocksci.workflow == BlockSciWorkflow.combined)
              || not (blocksci.task == BlockSciTask.detect)))
        "reusable BlockSci workflows are currently supported only with the S3 artifact backend"
      ++ script_errors blocksci.script
      ++ complain (stages.mappings && not (config.engine == "wasabi"))
          "--mappingsPbs is supported only with --engine wasabi"
      ++ complain (stages.mappings && not (config.coinjoin_type == "wasabi2"))
          "--mappingsPbs requires --coinjoin-type wasabi2"
      ++ complain (config.action == "mappings" && not stages.mappings)
          "mappings requires --mappingsPbs"

-- ===== src/OptionRules/Samples/Update.antt =====
-- One accepted update of a persistent index, as a configuration.
use coinjoin_pipeline.Base.{String, Bool, true, false, List, [], ◌∷◌, none, some, string_equality}
use coinjoin_pipeline.OptionRules.Config.{
  KubernetesConfiguration, ArtifactConfiguration, BlockSciConfiguration,
  ExternalAnalysisConfiguration, PbsResourceConfiguration, PipelineConfiguration,
}
use coinjoin_pipeline.OptionRules.Tasks.{task_eq}
use coinjoin_pipeline.Stages.Plans.{BlockSciWorkflow, BlockSciTask}

abbrev no_resources : PbsResourceConfiguration
no_resources = record {
  ncpus = none;
  mem = none;
  scratch = none;
  scratch_type = none;
  walltime = none;
  multijob = none;
}

abbrev kubernetes : KubernetesConfiguration
kubernetes = record {
  namespace = "coinjoin";
  reuse_namespace = false;
  kubeconfig = none;
  image_prefix = "ghcr.io/ondrejman/";
  btc_datadir = none;
  copy_to_host = false;
  infrastructure_local_build = false;
}

abbrev artifacts : ArtifactConfiguration
artifacts = record {
  backend = "s3";
  uri = some "s3://bucket";
  endpoint_url = some "https://s3.example";
  secret_name = none;
  credentials_file = some "credentials";
  profile = some "default";
}

abbrev external : ExternalAnalysisConfiguration
external = record {
  bitcoin_datadir = none;
  baseline = none;
  false_cjtxs = [];
  network = none;
  min_free_gb = none;
  resume = false;
}

abbrev blocksci : BlockSciConfiguration
blocksci = record {
  workflow = BlockSciWorkflow.cached;
  task = BlockSciTask.update;
  script = none;
  cache_source_run_id = none;
  notebook_port = 8888;
  notebooks_dir = none;
  external_bitcoin_datadir = none;
  bitcoin_blocks_uri = some "s3://bucket/blocks";
  external_blocksci_dir = none;
  external_baseline_uri = none;
  external_false_cjtxs_uri = none;
  network = some "bitcoin_regtest";
  max_block = some 200;
  expected_block_hash = none;
  pin_height = none;
  scan_start_height = none;
  scan_end_height = none;
  index_dir = some "/scratch/multijob-brno/index";
  index_backup_uri = none;
  index_state_uri = none;
  index_in_scratch = false;
  restore_index = false;
  dumplings_uri = none;
  dumplings_dir = none;
  storage_report_uri = none;
}

abbrev pub update : PipelineConfiguration
update = record {
  action = "pbs-from-s3";
  runtime = "docker";
  runs_root = none;
  engine = "wasabi";
  coinjoin_type = "wasabi2";
  driver = "docker";
  scenario = none;
  run_dir = none;
  run_id = some "run.1";
  run_timezone = "Europe/Prague";
  min_input_count = none;
  dry_run = false;
  parallel = false;
  all_runs = false;
  yes = false;
  analysis_action = "collect_docker";
  dumplings_uri = none;
  kubernetes = kubernetes;
  artifacts = artifacts;
  blocksci = blocksci;
  external = external;
  stages = record { analysis = false; blocksci = true; mappings = false };
  pbs = record {
    bitcoin_datadir = none;
    analysis = no_resources;
    blocksci = record {
      ncpus = none;
      mem = none;
      scratch = none;
      scratch_type = none;
      walltime = none;
      multijob = some "brno";
    };
    mappings = no_resources;
    unified_report = no_resources;
  };
  provided =
      "stages.blocksci" ∷ "run_id" ∷ "blocksci.network" ∷ "blocksci.max_block"
      ∷ "pbs.blocksci.multijob" ∷ [];
}

abbrev pub same : String → String
same path = path

abbrev pub no_file : String → Bool
no_file path = false

abbrev pub no_errors : PipelineConfiguration → List String
no_errors config = []

-- ===== src/OptionRules/Config.antt =====
-- configuration.py: the settings that the option rules read. A choice among literals is its text,
-- apart from the BlockSci workflow and task, which the plans share.
use coinjoin_pipeline.Base.{
  ℕ, String, Bool, true, false, List, [], ◌∷◌, Option, none, some, string_equality, ◌&&◌, contains,
  nat_equality, list_eq,
}
use coinjoin_pipeline.Stages.Plans.{BlockSciWorkflow, BlockSciTask}

pub record KubernetesConfiguration : Type 0 where
  pub namespace : String
  pub reuse_namespace : Bool
  pub kubeconfig : Option String
  pub image_prefix : String
  pub btc_datadir : Option String
  pub copy_to_host : Bool
  pub infrastructure_local_build : Bool

pub record ArtifactConfiguration : Type 0 where
  pub backend : String
  pub uri : Option String
  pub endpoint_url : Option String
  pub secret_name : Option String
  pub credentials_file : Option String
  pub profile : Option String

pub record BlockSciConfiguration : Type 0 where
  pub workflow : BlockSciWorkflow
  pub task : BlockSciTask
  pub script : Option String
  pub cache_source_run_id : Option String
  pub notebook_port : ℕ
  pub notebooks_dir : Option String
  pub external_bitcoin_datadir : Option String
  pub bitcoin_blocks_uri : Option String
  pub external_blocksci_dir : Option String
  pub external_baseline_uri : Option String
  pub external_false_cjtxs_uri : Option String
  pub network : Option String
  pub max_block : Option ℕ
  pub expected_block_hash : Option String
  pub pin_height : Option ℕ
  pub scan_start_height : Option ℕ
  pub scan_end_height : Option ℕ
  pub index_dir : Option String
  pub index_backup_uri : Option String
  pub index_state_uri : Option String
  pub index_in_scratch : Bool
  pub restore_index : Bool
  pub dumplings_uri : Option String
  pub dumplings_dir : Option String
  pub storage_report_uri : Option String

pub record ExternalAnalysisConfiguration : Type 0 where
  pub bitcoin_datadir : Option String
  pub baseline : Option String
  pub false_cjtxs : List String
  pub network : Option String
  pub min_free_gb : Option ℕ
  pub resume : Bool

pub record StageConfiguration : Type 0 where
  pub analysis : Bool
  pub blocksci : Bool
  pub mappings : Bool

pub record PbsResourceConfiguration : Type 0 where
  pub ncpus : Option ℕ
  pub mem : Option String
  pub scratch : Option String
  pub scratch_type : Option String
  pub walltime : Option String
  pub multijob : Option String

-- The resource groups that the rules read.
pub record PbsConfiguration : Type 0 where
  pub bitcoin_datadir : Option String
  pub analysis : PbsResourceConfiguration
  pub blocksci : PbsResourceConfiguration
  pub mappings : PbsResourceConfiguration
  pub unified_report : PbsResourceConfiguration

pub record PipelineConfiguration : Type 0 where
  pub action : String
  pub runtime : String
  pub runs_root : Option String
  pub engine : String
  pub coinjoin_type : String
  pub driver : String
  pub scenario : Option String
  pub run_dir : Option String
  pub run_id : Option String
  pub run_timezone : String
  pub min_input_count : Option ℕ
  pub dry_run : Bool
  pub parallel : Bool
  pub all_runs : Bool
  pub yes : Bool
  pub analysis_action : String
  pub dumplings_uri : Option String
  pub kubernetes : KubernetesConfiguration
  pub artifacts : ArtifactConfiguration
  pub blocksci : BlockSciConfiguration
  pub external : ExternalAnalysisConfiguration
  pub stages : StageConfiguration
  pub pbs : PbsConfiguration
  pub provided : List String

-- A value of any option: what `supplied` is given.
pub data Value : Type 0 where
  absent : Value
  flag : Bool → Value
  text : String → Value
  number : ℕ → Value
  texts : List String → Value

abbrev pub text_value : Option String → Value
text_value none = absent
text_value (some s) = text s

abbrev pub number_value : Option ℕ → Value
number_value none = absent
number_value (some n) = number n

-- `value is not None and value is not False and value != ()`
unfoldable pub is_active : Value → Bool
is_active absent = false
is_active (flag on) = on
is_active (text s) = true
is_active (number n) = true
is_active (texts []) = false
is_active (texts (x ∷ xs)) = true

unfoldable pub supplied : PipelineConfiguration → String → Value → Bool
unfolding contains is_active
supplied config path value = contains path config.provided && is_active value

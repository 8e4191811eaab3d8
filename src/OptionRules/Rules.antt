-- ===== src/OptionRules/Rules.antt =====
-- option_rules.py: `_action_errors` and `cross_option_errors`. The rules of the analyzer programs
-- (coinjoin_tools.py) and of mainnet-sync (mainnet_sync.py) are parameters, as are the files on disk.
use coinjoin_pipeline.Base.{
  String, Bool, false, List, [], ◌∷◌, ◌++◌, if◌then◌else◌, ◌==◌, string_equality, ◌||◌, flatten,
  starts_with, format, nat_equality, list_eq,
}
use coinjoin_pipeline.OptionRules.BlockSci.{
  blocksci_task_errors, cache_source_errors, dumplings_errors, height_errors,
}
use coinjoin_pipeline.OptionRules.Config.{PipelineConfiguration}
use coinjoin_pipeline.OptionRules.General.{
  requested, general_errors, run_selection_errors, driver_errors, pbs_stage_errors,
}
use coinjoin_pipeline.OptionRules.Index.{persistent_index_errors}
use coinjoin_pipeline.OptionRules.Sources.{blocksci_source_errors, external_baseline_errors}
use coinjoin_pipeline.OptionRules.Storage.{s3_errors, remaining_errors}

-- Resource groups only the mainnet synchronization submits, without `pbs.blocksci`.
abbrev mainnet_groups : List String
mainnet_groups = "pbs.restore" ∷ "pbs.producer" ∷ "pbs.checkpoint" ∷ "pbs.pack" ∷ "pbs.clear" ∷ []

-- `path.startswith(("mainnet.", *MAINNET_ONLY_PBS_GROUPS))`
unfoldable pub starts_with_group : String → List String → Bool
starts_with_group path [] = false
starts_with_group path (group ∷ groups) =
    starts_with path (format (group ∷ "." ∷ [])) || starts_with_group path groups

unfoldable pub any_mainnet : List String → Bool
unfolding starts_with_group
any_mainnet [] = false
any_mainnet (path ∷ paths) =
    starts_with_group path ("mainnet" ∷ mainnet_groups) || any_mainnet paths

module _ (resolved : String → String) (is_file : String → Bool)
    (tool_errors mainnet_errors : PipelineConfiguration → List String)
    (config : PipelineConfiguration) where
  -- The lists that `_action_errors` joins.
  unfoldable pub action_groups : List (List String)
  action_groups =
      let stages = requested config in
      tool_errors config
      ∷ run_selection_errors config
      ∷ driver_errors config
      ∷ pbs_stage_errors config stages
      ∷ blocksci_task_errors config stages
      ∷ cache_source_errors config
      ∷ persistent_index_errors config
      ∷ dumplings_errors config stages
      ∷ height_errors config
      ∷ blocksci_source_errors config
      ∷ external_baseline_errors config stages
      ∷ s3_errors config stages
      ∷ remaining_errors is_file config stages
      ∷ []

  unfoldable pub action_errors : List String
  unfolding action_groups
  action_errors = flatten action_groups

  unfoldable pub cross_option_errors : List String
  unfolding action_errors
  cross_option_errors =
      (if config.action == "mainnet-sync"
        then mainnet_errors config
        else if any_mainnet config.provided
        then "mainnet, pbs.restore, pbs.producer, pbs.checkpoint, pbs.pack, pbs.clear settings require action: mainnet-sync"
          ∷ []
        else action_errors)
      ++ general_errors resolved config

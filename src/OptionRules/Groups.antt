-- ===== src/OptionRules/Groups.antt =====
-- A configuration without errors breaks no rule of any group.
use coinjoin_pipeline.Base.{
  ◌≡◌, ◌≢◌, refl, String, Bool, false, List, [], ◌∷◌, arith, if◌then◌else◌, string_equality,
  append-empty, ≢→==, flatten-empty,
}
use coinjoin_pipeline.OptionRules.BlockSci.{
  blocksci_task_errors, cache_source_errors, dumplings_errors, height_errors,
}
use coinjoin_pipeline.OptionRules.Config.{PipelineConfiguration}
use coinjoin_pipeline.OptionRules.General.{
  requested, general_errors, run_selection_errors, driver_errors, pbs_stage_errors,
}
use coinjoin_pipeline.OptionRules.Index.{persistent_index_errors}
use coinjoin_pipeline.OptionRules.Rules.{
  action_groups, action_errors, cross_option_errors, any_mainnet,
}
use coinjoin_pipeline.OptionRules.Sources.{blocksci_source_errors, external_baseline_errors}
use coinjoin_pipeline.OptionRules.Storage.{s3_errors, remaining_errors}

-- Every group of the rules of the actions is kept.
pub record IsClean (is_file : String → Bool) (config : PipelineConfiguration) : Type 0 where
  pub run_selection : run_selection_errors config ≡ []
  pub driver : driver_errors config ≡ []
  pub pbs_stages : pbs_stage_errors config (requested config) ≡ []
  pub blocksci_task : blocksci_task_errors config (requested config) ≡ []
  pub cache_source : cache_source_errors config ≡ []
  pub persistent_index : persistent_index_errors config ≡ []
  pub dumplings : dumplings_errors config (requested config) ≡ []
  pub heights : height_errors config ≡ []
  pub blocksci_source : blocksci_source_errors config ≡ []
  pub external_baseline : external_baseline_errors config (requested config) ≡ []
  pub s3 : s3_errors config (requested config) ≡ []
  pub remaining : remaining_errors is_file config (requested config) ≡ []

module _ (resolved : String → String) (is_file : String → Bool)
    (tool_errors mainnet_errors : PipelineConfiguration → List String)
    (config : PipelineConfiguration) where
  action_errors-empty :
      action_errors resolved is_file tool_errors mainnet_errors config ≡ [] → IsClean is_file config
  unfolding action_errors
  action_errors-empty h =
      let groups : List (List String) =
        action_groups resolved is_file tool_errors mainnet_errors config in
      record {
        run_selection = flatten-empty groups 1 _ h refl;
        driver = flatten-empty groups 2 _ h refl;
        pbs_stages = flatten-empty groups 3 _ h refl;
        blocksci_task = flatten-empty groups 4 _ h refl;
        cache_source = flatten-empty groups 5 _ h refl;
        persistent_index = flatten-empty groups 6 _ h refl;
        dumplings = flatten-empty groups 7 _ h refl;
        heights = flatten-empty groups 8 _ h refl;
        blocksci_source = flatten-empty groups 9 _ h refl;
        external_baseline = flatten-empty groups 10 _ h refl;
        s3 = flatten-empty groups 11 _ h refl;
        remaining = flatten-empty groups 12 _ h refl;
      }

  -- The rules of the actions are the ones checked, unless one of two tests holds.
  chosen :
      (a b : Bool) (xs zs : List String) (message : String)
      → (if a then xs else if b then message ∷ [] else zs) ≡ []
      → a ≡ false
      → (b ≡ false) × (zs ≡ [])
  chosen a b xs zs message h e = ground arith

  pub cross_option_errors-empty :
      cross_option_errors resolved is_file tool_errors mainnet_errors config ≡ []
      → config.action ≢ "mainnet-sync"
      → (any_mainnet config.provided ≡ false)
        × IsClean is_file config
        × (general_errors resolved config ≡ [])
  unfolding cross_option_errors
  cross_option_errors-empty h n =
      let (first, general) = append-empty _ _ h in
      let (none_mainnet, actions) =
        chosen _ (any_mainnet config.provided) _ _ _ first (≢→== config.action "mainnet-sync" n) in
      (none_mainnet, action_errors-empty actions, general)

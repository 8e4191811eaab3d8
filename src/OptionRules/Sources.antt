-- ===== src/OptionRules/Sources.antt =====
-- option_rules.py: the rules for the block source and the external baseline.
use coinjoin_pipeline.Base.{
  ◌∷◌, [], flatten, ℕ, ◌+◌, String, Bool, true, false, List, [], ◌++◌, if◌then◌else◌, ltb, Option,
  none, some, ◌==◌, string_equality, not, ◌&&◌, ◌||◌, is_given, is_some, is_text, complain,
  nat_equality, list_eq,
}
use coinjoin_pipeline.OptionRules.Config.{PipelineConfiguration, supplied, text_value, number_value}
use coinjoin_pipeline.OptionRules.General.{PbsStages, blocksci_alone}
use coinjoin_pipeline.OptionRules.Names.{is_block_hash}
use coinjoin_pipeline.OptionRules.Tasks.{task_eq, workflow_eq}
use coinjoin_pipeline.Stages.Plans.{BlockSciTask, BlockSciWorkflow}

-- A `bool` in a `sum`.
abbrev pub as_number : Bool → ℕ
as_number true = 1
as_number false = 0

unfoldable pub expected_hash_errors : Bool → Option String → List String
expected_hash_errors blocks_uri none = []
expected_hash_errors blocks_uri (some hash) =
    complain (not blocks_uri)
      "--blocksci-expected-block-hash requires --blocksci-bitcoin-blocks-uri"
    ++ complain (not (is_block_hash hash))
        "--blocksci-expected-block-hash must be 64 lowercase hexadecimal characters"

-- An external source is given to a parse or an update that can read it.
unfoldable pub source_permitted : PipelineConfiguration → Bool
source_permitted config =
    let blocksci = config.blocksci in
    let on_s3 = config.action == "pbs-from-s3" in
    let bitcoin_source =
      is_given blocksci.external_bitcoin_datadir || is_given blocksci.bitcoin_blocks_uri in
    let parse_source =
      on_s3
      && blocksci.workflow == BlockSciWorkflow.reusable
      && blocksci.task == BlockSciTask.parse in
    let update_source =
      on_s3
      && blocksci.workflow == BlockSciWorkflow.cached
      && blocksci.task == BlockSciTask.update
      && bitcoin_source
      && not (is_given blocksci.external_blocksci_dir) in
    parse_source || update_source

unfoldable pub blocksci_source_rules : PipelineConfiguration → List (List String)
unfolding expected_hash_errors source_permitted
blocksci_source_rules config =
    let blocksci = config.blocksci in
    let external_bitcoin = is_given blocksci.external_bitcoin_datadir in
    let blocks_uri = is_given blocksci.bitcoin_blocks_uri in
    let external_index = is_given blocksci.external_blocksci_dir in
    let bitcoin_source = external_bitcoin || blocks_uri in
    let network_supplied = supplied config "blocksci.network" (text_value blocksci.network) in
    let max_block_supplied =
      supplied config "blocksci.max_block" (number_value blocksci.max_block) in
    complain (ltb 1 (as_number external_bitcoin + as_number blocks_uri + as_number external_index))
      "choose only one BlockSci source: --blocksci-external-bitcoin-datadir, --blocksci-bitcoin-blocks-uri, or --blocksci-external-blocksci-dir"
    ∷ complain ((bitcoin_source || external_index) && not (source_permitted config))
        "external BlockSci sources require either reusable parse or cached update"
    ∷ (if bitcoin_source
        then complain (not network_supplied || not max_block_supplied)
            "an external Bitcoin source requires --blocksci-network and --blocksci-max-block"
        else complain (network_supplied || max_block_supplied)
            "--blocksci-network and --blocksci-max-block require an external Bitcoin source")
    ∷ expected_hash_errors blocks_uri blocksci.expected_block_hash
    ∷ complain
        (blocks_uri
          && is_text blocksci.network "bitcoin"
          && not (is_some blocksci.expected_block_hash))
        "Mainnet block archives require --blocksci-expected-block-hash at --blocksci-max-block"
    ∷ []

unfoldable pub blocksci_source_errors : PipelineConfiguration → List String
unfolding blocksci_source_rules
blocksci_source_errors config = flatten (blocksci_source_rules config)

unfoldable pub external_baseline_errors : PipelineConfiguration → PbsStages → List String
unfolding blocksci_alone
external_baseline_errors config stages =
    let blocksci = config.blocksci in
    let external_task = blocksci.task == BlockSciTask.external in
    (if external_task
      then complain
          (not (config.action == "pbs-from-s3") || blocksci.workflow == BlockSciWorkflow.combined)
          "--blocksci-task external requires pbs-from-s3 with reusable or cached workflow"
        ++ complain (not (blocksci_alone stages))
            "--blocksci-task external requires --blocksciPbs without --analysisPbs"
        ++ complain (not (is_given blocksci.external_baseline_uri))
            "--blocksci-task external requires --external-baseline-uri"
      else complain (is_given blocksci.external_baseline_uri)
          "--external-baseline-uri requires --blocksci-task external")
    ++ complain (is_given blocksci.external_false_cjtxs_uri && not external_task)
        "--external-false-cjtxs-uri requires --blocksci-task external"

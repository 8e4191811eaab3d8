-- ===== src/Lib.antt =====
-- A verification library for the analysis pipeline of coinjoin-pipeline: the parts that decide which
-- jobs run and in which order, which files a job reads, who may write the shared index, and what a
-- detector's answer is worth.
--
-- Stages (src/coinjoin_pipeline/execution/stages.py) is the graph of one run: `StageKind`,
--   `StagePlan`, the queries of `StageGraph` and the plans `s3_full_run_plan` and `analysis_plan`.
--   A graph is its list of stages; `ordered` is the check that the constructor runs. The loop of
--   `ordered` has the number of stages as fuel, which is enough: each round places one stage.
--   The S3 plan has finitely many configurations, so tests of all of them are run once.
-- Executor (src/coinjoin_pipeline/execution/stage_executor.py) runs such a graph: `State` holds the
--   local variables of `execute_analysis`, `submit_ready` is its inner loop (fuel: the pending
--   stages, each round submits one), `finish` the end of a stage, `execute` the outer loop over a
--   sequence of ends. It takes `first_ready` from Stages.
-- IndexStore (src/coinjoin_pipeline/execution/pbs/index_store.py) is the lock of the persistent
--   BlockSci index. `World` holds the clock, the entries under `.lock` and the place of every job in
--   its calls; `step` is one call of the file system by one job, and `run` any interleaving. The
--   files of an entry are removed in one step and its directory in the next; the readers are listed
--   in one step.
--   Copy is the working copy and Backup its one backup in S3: the functions give the states after each
--   effect, at any of which a job may be killed. The files of the members stand apart from the other
--   files of the copy, which the archive does not hold. Packing, hashing and unpacking are
--   parameters, and an extraction that fails leaves any files.
-- BlockArchive (src/coinjoin_pipeline/execution/block_archive.py) chooses the block files of a parse
--   or update (`plan_files`) and checks the download (`verify`). SHA-256 and the files on disk are
--   parameters; what `read_sidecar` and `read_source_manifest` return are records.
-- Heuristics (pipeline/exporters/heuristics.py) is the subset search of the JoinMarket detectors, and
--   the rules of the definite and the possible one, with the percentage fee as a parameter.
--   Denominations are the Wasabi 2 amounts, whose loop has fuel for 64 doublings, more than the greatest
--   amount allows, and Wasabi2 the rules, with the comparison with the ratio as a parameter.
--   Picks, Tallies and AddressTallies describe the selections and dictionaries that the rules use.
--   The nonlocal `depth` is passed along, and the recursion is on the values that are left.
-- Comparison (pipeline/exporters/comparison.py, common.py) is the confusion matrix of a detector,
--   with the operations in floating point as parameters and the lists of txids unsorted.
-- OptionRules (src/coinjoin_pipeline/option_rules.py) are the rules that a configuration keeps across
--   its fields: Config has the settings they read, Index, General, BlockSci, Sources and Storage the
--   groups of rules with the texts of their errors, Rules all of them, Submission the plan that
--   s3_submission.py builds from the configuration. The rules of coinjoin_tools.py and
--   mainnet_sync.py, and the paths on disk, are parameters. Texts are read as code points.
-- Liquidity (pipeline/exporters/liquidity.py) is the liquidity of the mix: Classify is
--   `classify_coinjoins` over the exported transactions (Records), Series is `liquidity_series` with
--   the dictionary of unmoved outputs as the list of its entries, Summary and Totals what is read
--   off a series, Fin the sums of `fin_evaluation`, Unspent the outputs that count as unmoved.
--   Amounts are numbers of satoshi, balances integers; `bisect_right` is a parameter.
-- Base has Python's tests, lists and sets, and the equality that membership uses.
--
-- Not modelled: the texts of the detectors' rules, the mounts of the index, the
-- reading of YAML, JSON and the command line, the summaries of single wallets in the pool, the
-- rules of coinjoin_tools.py and mainnet_sync.py, the calls of PBS, Kubernetes, containers and S3,
-- and the reports, which are input and output.
pub mod Base
pub mod OptionRules
pub mod Stages
pub mod Heuristics
pub mod BlockArchive
pub mod Liquidity
pub mod Comparison
pub mod Executor
pub mod IndexStore

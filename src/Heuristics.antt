-- ===== src/Heuristics.antt =====
-- pipeline/exporters/heuristics.py: the Python mirror of BlockSci's CoinJoin detectors.
pub mod Subset
pub mod Partition
pub mod Needs
pub mod SubsetSound
pub mod SubsetComplete
pub mod SubsetDepth
pub mod Definite
pub mod DefiniteLaws
pub mod Possible
pub mod PossibleLaws
pub mod Denominations
pub mod Picks
pub mod Tallies
pub mod AddressTallies
pub mod DenominationLaws
pub mod Wasabi2
pub mod Wasabi2Laws
pub mod Samples

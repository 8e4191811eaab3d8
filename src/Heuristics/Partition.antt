-- ===== src/Heuristics/Partition.antt =====
-- When values can fill buckets: the values fall into one group for each goal and a rest, each value
-- as often as it was given, and each group reaches its goal.
mod Groups
mod Zeros
mod Place
mod Laws
pub use Groups.{Reaches, Partition}
unfoldable pub use Zeros.{positive}
pub use Laws.*

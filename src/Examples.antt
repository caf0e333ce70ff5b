-- ===== src/Examples.antt =====
-- Concrete runs: the data they share, and one run for each statement with conditions.
pub mod Samples
pub mod Paths
pub mod Lines
pub mod Files
pub mod Sessions
pub mod Jobs
pub mod Patterns
pub mod Settings
pub mod Servers
pub mod Automata
pub mod Transfers
pub mod Searches
pub mod Streams

-- ===== src/Indexer.antt =====
-- The folder indexer of the repository: the program that follows the chain for one contract.
pub mod Context
pub mod DataFetcher
pub mod Servers

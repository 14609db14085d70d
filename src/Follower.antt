-- ===== src/Follower.antt =====
-- toolkit/mainchain-follower/db-sync-follower: the data sources that read the main chain from the
-- database of db-sync. `Database` has the tables and the queries, the other modules the sources.
pub mod Database
pub mod Blocks
pub mod NativeTokens
pub mod Candidates

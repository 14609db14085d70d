-- ===== src/Lib.antt =====
-- The logic of a Cardano partner chain node: which committee produces blocks in an epoch, how the
-- runtime takes it over, and what it observes of the main chain. The sources are Rust, under toolkit/
-- and node/.
--
-- How the parts interact. A block producer reads the state of the main chain as of a stable main
-- chain block (McHash); the committee of the next partner chain epoch is selected from it
-- (Candidates, Authorities, Selection) and set by an inherent (ValidatorManagement). The first
-- block of an epoch ends the session and seats the committee (Session, SessionManager, Runtime).
-- The native token (NativeToken) and the rewards (BlockRewards) are accounted block by block.
-- What a node knows of the main chain it reads from the database of a follower (Follower), whose
-- answers are cached: stable blocks for McHash, amounts for NativeToken, and for Ariadne, which
-- makes the inputs of the selection, the parameters and registrations, decoded from the data of the
-- main chain scripts (Plutus). Follower.Blocks.Coherence and Follower.Blocks.Proposals put the block
-- source under McHash. The data of the main chain scripts gets there by transactions (Offchain).
--
-- - MainchainEpoch: toolkit/primitives/domain/src/mainchain_epoch.rs, the methods of
--   MainchainEpochConfig under their names.
-- - Slots: toolkit/primitives/sidechain-slots/src/lib.rs.
-- - Domain: toolkit/primitives/domain/src/lib.rs, and the datum of a signed message after
--   toolkit/utils/plutus.
-- - Selection: toolkit/primitives/selection/src. The while loop of select_authorities is
--   fill_committee, by recursion on the seats that are left.
-- - Candidates: toolkit/primitives/authority-selection-inherents/src/filter_invalid_candidates.rs.
-- - Authorities: select_authorities.rs of the same crate.
-- - ValidatorManagement: toolkit/pallets/session-validator-management/src/lib.rs; storage is a
--   record, and an extrinsic, a hook or an inherent is a function on it.
-- - Session: toolkit/pallets/partner-chains-session/src/lib.rs, over the traits of its Config.
-- - SessionManager: toolkit/primitives/session-manager/src, and the Config of the session pallet in
--   node/runtime/src/lib.rs.
-- - Runtime: the order of the pallets in node/runtime/src/lib.rs, as steps of a chain.
-- - McHash: toolkit/primitives/sidechain-mc-hash/src/lib.rs.
-- - NativeToken: toolkit/pallets/native-token-management/src/lib.rs, and the inherent data provider
--   of toolkit/primitives/native-token-management/src/lib.rs in NativeToken.Provider.
-- - BlockSearch: toolkit/primitives/sidechain-block-search/src.
-- - BlockRewards: toolkit/pallets/block-rewards/src/lib.rs, toolkit/pallets/sidechain/src/lib.rs.
-- - Ariadne: authority_selection_inputs.rs and ariadne_inherent_data_provider.rs of
--   toolkit/primitives/authority-selection-inherents/src.
-- - Plutus: toolkit/primitives/plutus-data/src, one module for each kind of datum. A decoder of a
--   list of fields is a function by clauses on the list.
-- - Follower: toolkit/mainchain-follower/db-sync-follower/src. Follower.Database has the tables, as
--   lists of rows, and the queries of db_model.rs, each with its WHERE, ORDER BY and LIMIT;
--   Follower.Blocks is block/mod.rs and mc_hash/mod.rs; Follower.NativeTokens is
--   native_token/mod.rs; Follower.Candidates is candidates/mod.rs, and Follower.Candidates.Cached
--   is candidates/cached.rs. A request is a function of the tables, the cache and its arguments, to
--   the answer and the cache after it.
-- - Offchain: toolkit/offchain/src/csl.rs, the conversion of unspent outputs and the balancing of a
--   transaction; the loop over the collaterals is try_collaterals.
-- - Prelude: shared names, results with errors and panics, machine words. Examples: runs.
--
-- Conventions. Numbers are natural numbers; the wrap-around of u16, u32, u64 and u128 is written
-- out where the source adds or multiplies, since overflow checks are off in release builds. A panic
-- is a third outcome of a result, next to values and errors. Signatures, hashing, CBOR, random
-- numbers, storage of accounts and the data sources are parameters, with the laws that the code
-- relies on as fields of a record.
--
-- Bounds and fuel. Only the binary search runs on fuel: one more round than there are numbers in the
-- range is enough. It is stated for block numbers below 2 ^ 31, where the sum of the bounds fits in
-- u32. Epochs of the runtime are below 2 ^ 64 - 1.
--
-- Not modelled: the connection to the database and its errors, changes of the database within one
-- request, the range of dates of chrono, and the division of floating point numbers in the
-- configuration of the block source, whose result is an argument; metrics, and configuration from
-- the environment; the transactions that toolkit/offchain makes for the D-parameter, the candidates
-- and the governance, and its requests to Ogmios; the command line tools and the node's services,
-- which are input and output; weights and logging. The sets of accounts in the session pallet are
-- walked in the order of the lists, and so are the maps of the follower and of native tokens.
pub mod Prelude
pub mod MainchainEpoch
pub mod Slots
pub mod Selection
pub mod Domain
pub mod Candidates
pub mod Authorities
pub mod ValidatorManagement
pub mod Session
pub mod SessionManager
pub mod Runtime
pub mod McHash
pub mod NativeToken
pub mod BlockSearch
pub mod BlockRewards
pub mod Ariadne
pub mod Offchain
pub mod Plutus
pub mod Follower
pub mod Examples

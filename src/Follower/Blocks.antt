-- ===== src/Follower/Blocks.antt =====
-- toolkit/mainchain-follower/db-sync-follower/src/block/mod.rs: stable blocks of the main chain, by
-- time and by hash, with the cache of the requests by hash.
pub mod Stability
pub mod Cached
pub mod Growth
pub mod Highest
pub mod Windows
pub mod Coherence
pub mod Proposals
use Prim.Native.Nat.{min}
use mathlib.Core.Option
use iagon_network_explorer_n.Prelude.{
  ℕ, ◌+◌, ◌*◌, ◌^◌, Bytes, bytes_eq, Result, ok, err, panic, ◌>>=◌, ok_or, u32, saturating_add_u32,
  saturating_sub, Bool, ◌&&◌, ltb, leb, ℤ, pos, negsuc, sub_ℕ, leb_ℤℕ, leb_ℕℤ, if◌then◌else◌,
  Option, none, some, List, [], ◌∷◌, find,
}
use iagon_network_explorer_n.Domain.{MainchainBlock}
use iagon_network_explorer_n.MainchainEpoch.{
  MainchainEpochConfig, timestamp_to_mainchain_slot_number,
}
use iagon_network_explorer_n.Follower.Database.{
  DataSourceError, bad_request, internal_data_source_error, expected_data_not_found, BlockRow,
  Block, mainchain_block, get_latest_block_info, get_blocks_by_numbers, get_highest_block,
  get_block_by_hash,
}

-- The fields of `BlockDataSourceImpl` that do not change; a `TimeDelta` in milliseconds.
pub record Settings : Type 0 where
  pub security_parameter : ℕ
  pub min_slot_boundary : ℕ
  pub max_slot_boundary : ℕ
  pub mainchain_epoch_config : MainchainEpochConfig
  pub block_stability_margin : ℕ
  pub cache_size : ℕ

-- `from_config`; `slot_boundary` is `(k / cardano_active_slots_coeff).round()`, in seconds.
unfoldable pub from_config : ℕ → ℕ → ℕ → MainchainEpochConfig → Settings
from_config cardano_security_parameter slot_boundary block_stability_margin mc_epoch_config =
    record {
      security_parameter = cardano_security_parameter;
      min_slot_boundary = 1000 * slot_boundary;
      max_slot_boundary = 1000 * (3 * slot_boundary);
      mainchain_epoch_config = mc_epoch_config;
      block_stability_margin = block_stability_margin;
      cache_size = 100;
    }

-- The mutex over `BlocksCache`; `none` where it is poisoned.
abbrev pub BlocksCache : Type 0
BlocksCache = Option (List Block)

unfoldable pub find_by_hash : List Block → Bytes → Option Block
find_by_hash from_last_by_hash hash = find (λ b. bytes_eq b.hash hash) from_last_by_hash

unfoldable pub update : BlocksCache → List Block → BlocksCache
update none blocks = none
update (some _) blocks = some blocks

-- `is_datetime` tells of which milliseconds `DateTime::from_timestamp_millis` makes a date.
unfoldable pub timestamp_to_db_type : (ℕ → Bool) → ℕ → Result DataSourceError ℕ
timestamp_to_db_type is_datetime timestamp =
    if ltb timestamp (2 ^ 63) && is_datetime timestamp then ok timestamp else err bad_request

module _ (s : Settings) where
  unfoldable pub min_block_allowed_time : ℕ → ℤ
  min_block_allowed_time reference_timestamp = sub_ℕ reference_timestamp s.max_slot_boundary

  unfoldable pub max_allowed_block_time : ℕ → ℤ
  max_allowed_block_time reference_timestamp = sub_ℕ reference_timestamp s.min_slot_boundary

  unfoldable pub is_block_time_valid : Block → ℕ → Bool
  unfolding min_block_allowed_time max_allowed_block_time
  is_block_time_valid block timestamp =
      leb_ℤℕ (min_block_allowed_time timestamp) block.time
      && leb_ℕℤ block.time (max_allowed_block_time timestamp)

  -- A time before the first epoch falls back to the first slot.
  unfoldable pub date_time_to_slot : ℤ → Result DataSourceError ℕ
  date_time_to_slot (negsuc _) = err bad_request
  date_time_to_slot (pos millis) =
      elim (timestamp_to_mainchain_slot_number s.mainchain_epoch_config millis) [
        | ok slot ↦ ok slot
        | err _ ↦ ok s.mainchain_epoch_config.first_slot_number
        | panic ↦ panic
      ]

module _ (s : Settings) (rows : List BlockRow) where
  -- `BlockDataSourceImpl::get_latest_block_info`, before the conversion of the block
  unfoldable pub latest_block : Result DataSourceError Block
  latest_block = do latest ← get_latest_block_info rows; ok_or latest expected_data_not_found

  unfoldable pub get_latest_block : ℕ → ℕ → Result DataSourceError (Option Block)
  unfolding min_block_allowed_time max_allowed_block_time date_time_to_slot
  get_latest_block max_block reference_timestamp = do
    let min_time = min_block_allowed_time s reference_timestamp
    min_slot ← date_time_to_slot s min_time
    let max_time = max_allowed_block_time s reference_timestamp
    max_slot ← date_time_to_slot s max_time
    get_highest_block rows max_block min_time min_slot max_time max_slot

  -- `get_latest_stable_block_for`, over the time that `timestamp_to_db_type` returns
  unfoldable pub latest_stable_block : ℕ → Result DataSourceError (Option Block)
  unfolding latest_block get_latest_block
  latest_stable_block reference_timestamp = do
    latest ← latest_block
    let offset = u32 (s.security_parameter + s.block_stability_margin)
    let stable = saturating_sub latest.block_no offset
    get_latest_block stable reference_timestamp

  unfoldable pub get_stable_block_by_hash_from_cache : BlocksCache → Bytes → ℕ → Option Block
  unfolding find_by_hash is_block_time_valid
  get_stable_block_by_hash_from_cache none hash reference_timestamp = none
  get_stable_block_by_hash_from_cache (some cache) hash reference_timestamp =
      elim (find_by_hash cache hash) [
        | none ↦ none
        | some block ↦ if is_block_time_valid s block reference_timestamp then some block else none
      ]

  -- `block.zip(latest_block).filter(..)`
  unfoldable pub stable_and_valid : ℕ → Option Block → Option Block → Option Block
  unfolding is_block_time_valid
  stable_and_valid reference_timestamp none latest = none
  stable_and_valid reference_timestamp (some block) none = none
  stable_and_valid reference_timestamp (some block) (some latest) =
      if leb (u32 (block.block_no + s.security_parameter)) latest.block_no
        && is_block_time_valid s block reference_timestamp
      then some block
      else none

  unfoldable pub get_stable_block_by_hash_from_db :
      Bytes → ℕ → Result DataSourceError (Option Block)
  unfolding stable_and_valid
  get_stable_block_by_hash_from_db hash reference_timestamp = do
    block ← get_block_by_hash rows hash
    latest ← get_latest_block_info rows
    ok (stable_and_valid reference_timestamp block latest)

  unfoldable pub blocks_to_cache : Block → ℕ → Result DataSourceError (List Block)
  blocks_to_cache from_block to_block_no =
      if ltb from_block.block_no to_block_no
      then get_blocks_by_numbers rows from_block.block_no to_block_no
      else ok (from_block ∷ [])

  unfoldable pub fill_cache : BlocksCache → Block → Result DataSourceError BlocksCache
  unfolding blocks_to_cache update
  fill_cache cache from_block = do
    found ← get_latest_block_info rows
    latest ← ok_or found internal_data_source_error
    let stable_block_num = saturating_sub latest.block_no s.security_parameter
    let to_block_no = min (saturating_add_u32 from_block.block_no s.cache_size) stable_block_num
    blocks ← blocks_to_cache from_block to_block_no
    ok (update cache blocks)

  -- What `get_stable_block_by_hash` does when the cache does not serve the block.
  unfoldable pub store_block :
      BlocksCache → Option Block → Result DataSourceError (Option Block × BlocksCache)
  unfolding fill_cache
  store_block cache none = ok (none, cache)
  store_block cache (some block) = do cache' ← fill_cache cache block; ok (some block, cache')

  unfoldable pub get_stable_block_by_hash :
      BlocksCache → Bytes → ℕ → Result DataSourceError (Option Block × BlocksCache)
  unfolding get_stable_block_by_hash_from_cache get_stable_block_by_hash_from_db store_block
  get_stable_block_by_hash cache hash reference_timestamp =
      elim (get_stable_block_by_hash_from_cache cache hash reference_timestamp) [
        | some block ↦ ok (some block, cache)
        | none ↦ do
          found ← get_stable_block_by_hash_from_db hash reference_timestamp
          store_block cache found
      ]

module _ (s : Settings) (is_datetime : ℕ → Bool) (rows : List BlockRow) where
  unfoldable pub get_latest_stable_block_for : ℕ → Result DataSourceError (Option MainchainBlock)
  unfolding timestamp_to_db_type latest_stable_block mainchain_block
  get_latest_stable_block_for timestamp = do
    reference_timestamp ← timestamp_to_db_type is_datetime timestamp
    found ← latest_stable_block s rows reference_timestamp
    ok (Option.map mainchain_block found)

  unfoldable pub get_stable_block_for :
      BlocksCache → Bytes → ℕ → Result DataSourceError (Option MainchainBlock × BlocksCache)
  unfolding timestamp_to_db_type get_stable_block_by_hash mainchain_block
  get_stable_block_for cache hash timestamp = do
    reference_timestamp ← timestamp_to_db_type is_datetime timestamp
    (found, cache') ← get_stable_block_by_hash s rows cache hash reference_timestamp
    ok (Option.map mainchain_block found, cache')

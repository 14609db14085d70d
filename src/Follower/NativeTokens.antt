-- ===== src/Follower/NativeTokens.antt =====
-- toolkit/mainchain-follower/db-sync-follower/src/native_token/mod.rs: the native tokens sent to the
-- illiquid supply, between two blocks of the main chain, with the cache of the amounts by block.
pub mod Sums
pub mod Ranges
pub mod Transfers
pub mod Entries
pub mod Requests
pub mod Genesis
use Prim.Native.Nat.{min, max}
use iagon_network_explorer_n.Prelude.{
  ℕ, ◌+◌, ◌-◌, suc, Bytes, bytes_eq, Result, ok, ◌>>=◌, ok_or, Bool, not, ◌&&◌, leb, ltb,
  if◌then◌else◌, saturating_add_u32, saturating_sub, Option, none, some, List, [], ◌∷◌, map, length,
  take, drop,
}
use iagon_network_explorer_n.Selection.{sum_u128}
use iagon_network_explorer_n.Follower.Database.{
  DataSourceError, expected_data_not_found, BlockRow, Block, get_latest_block_info,
  get_block_by_hash, get_total_native_tokens_transfered, get_native_token_transfers,
}

-- The fields of `NativeTokenManagementDataSourceImpl` that do not change.
pub record Settings : Type 0 where
  pub security_parameter : ℕ
  pub cache_size : ℕ

-- The mutex over `Cache`; `none` where it is poisoned.
abbrev pub Cache : Type 0
Cache = Option (List (Bytes × ℕ))

unfoldable pub position : Bytes → List (Bytes × ℕ) → Option ℕ
position hash [] = none
position hash ((block, _) ∷ rest) =
    let later = position hash rest in
    if bytes_eq block hash then some 0 else elim later [ none ↦ none | some i ↦ some (suc i) ]

-- `get(from..=to)` on a slice
unfoldable pub get_range {ℓ} : {A : Type ℓ} → ℕ → ℕ → List A → Option (List A)
get_range from to xs =
    if leb from (suc to) && ltb to (length xs)
    then some (take (suc to - from) (drop from xs))
    else none

unfoldable pub get_sum_in_range : List (Bytes × ℕ) → Bytes → Bytes → Option ℕ
unfolding position get_range sum_u128
get_sum_in_range block_hash_to_amount after to = elim (position after block_hash_to_amount) [
  | none ↦ none
  | some after_idx ↦ elim (position to block_hash_to_amount) [
    | none ↦ none
    | some to_idx ↦ elim (get_range (suc after_idx) to_idx block_hash_to_amount) [
      | none ↦ none
      | some after_to ↦ some (sum_u128 0 (map (λ e. e.1) after_to))
    ]
  ]
]

unfoldable pub get_from_cache : Cache → Bytes → Bytes → Option ℕ
unfolding get_sum_in_range
get_from_cache none after_block to_block = none
get_from_cache (some cache) after_block to_block = get_sum_in_range cache after_block to_block

unfoldable pub update : Cache → List (Bytes × ℕ) → Cache
update none block_hash_to_amount = none
update (some _) block_hash_to_amount = some block_hash_to_amount

-- `take_while_inclusive` of itertools, up to the block
unfoldable pub take_to : Bytes → List (Bytes × ℕ) → List (Bytes × ℕ)
take_to to_block [] = []
take_to to_block ((block, amount) ∷ rest) =
    (block, amount) ∷ (if bytes_eq block to_block then [] else take_to to_block rest)

module _ (s : Settings) (rows : List BlockRow) where
  -- `get_from_block_no`, `get_to_block_no`
  unfoldable pub get_block_no : Bytes → Result DataSourceError ℕ
  get_block_no block = do
    found ← get_block_by_hash rows block
    b ← ok_or found expected_data_not_found
    ok b.block_no

  unfoldable pub get_latest_block : Result DataSourceError Block
  get_latest_block = do found ← get_latest_block_info rows; ok_or found expected_data_not_found

  unfoldable pub get_data_to_cache :
      (from_block to_block policy_id asset_name address : Bytes)
      → Result DataSourceError (List (Bytes × ℕ))
  unfolding get_block_no get_latest_block
  get_data_to_cache from_block to_block policy_id asset_name address = do
    from_block_no ← get_block_no from_block
    to_block_no ← get_block_no to_block
    latest_block ← get_latest_block
    let latest_stable_block = saturating_sub latest_block.block_no s.security_parameter
    let cache_to_block_no =
        min latest_stable_block (max to_block_no (saturating_add_u32 from_block_no s.cache_size))
    get_native_token_transfers rows from_block_no cache_to_block_no policy_id asset_name address

  unfoldable pub query_transfers_from_genesis :
      (to_block policy_id asset_name address : Bytes) → Result DataSourceError ℕ
  unfolding get_block_no
  query_transfers_from_genesis to_block policy_id asset_name address = do
    to_block_no ← get_block_no to_block
    get_total_native_tokens_transfered rows to_block_no policy_id asset_name address

  -- The branch of `get_total_native_token_transfer` that the cache does not serve.
  unfoldable pub query_and_cache :
      Cache
      → (after_block to_block policy_id asset_name address : Bytes)
      → Result DataSourceError (ℕ × Cache)
  unfolding get_data_to_cache take_to sum_u128 update
  query_and_cache cache after_block to_block policy_id asset_name address = do
    block_to_amount ← get_data_to_cache after_block to_block policy_id asset_name address
    let amount = sum_u128 0 (map (λ e. e.1) (take_to to_block (drop 1 block_to_amount)))
    ok (amount, update cache block_to_amount)

  unfoldable pub get_total_native_token_transfer :
      Cache
      → (after_block : Option Bytes) (to_block policy_id asset_name address : Bytes)
      → Result DataSourceError (ℕ × Cache)
  unfolding get_from_cache query_and_cache query_transfers_from_genesis
  get_total_native_token_transfer cache none to_block policy_id asset_name address = do
    amount ← query_transfers_from_genesis to_block policy_id asset_name address
    ok (amount, cache)
  get_total_native_token_transfer cache (some after_block) to_block policy_id asset_name address =
      if bytes_eq after_block to_block
      then ok (0, cache)
      else (elim (get_from_cache cache after_block to_block) [
        | some amount ↦ ok (amount, cache)
        | none ↦ query_and_cache cache after_block to_block policy_id asset_name address
      ])

-- ===== src/Follower/Database.antt =====
-- toolkit/mainchain-follower/db-sync-follower/src/db_model.rs: the rows that the queries on blocks
-- and native tokens read, and those queries. The database is the list of rows of the table `block`,
-- each with the token outputs of its transactions, which the foreign keys of tx, tx_out, ma_tx_out
-- and multi_asset join to it. A call of a source reads one state of the database; what sqlx reports
-- of the connection is left out. A time is its number of milliseconds since 1970.
use iagon_network_explorer_n.Prelude.{
  ℕ, ◌/◌, ◌^◌, sum, Bytes, bytes_eq, Result, ok, err, map, ◌>>=◌, Bool, false, ◌&&◌, ltb, leb, ℤ,
  leb_ℤℕ, leb_ℕℤ, if◌then◌else◌, Option, none, some, unwrap_or, List, [], ◌∷◌, filter, find,
  greatest, ok_or,
}
use iagon_network_explorer_n.Domain.{MainchainBlock}

pub data DataSourceError : Type 0 where
  bad_request : DataSourceError
  internal_data_source_error : DataSourceError
  expected_data_not_found : DataSourceError

-- A row of ma_tx_out, with the address of its output and the policy and name of its asset.
pub record TokenOutput : Type 0 where
  pub address : Bytes
  pub policy : Bytes
  pub name : Bytes
  pub quantity : ℕ

-- The columns `block_no`, `epoch_no` and `slot_no` may be null: they are for blocks of the Byron era.
pub record BlockRow : Type 0 where
  pub block_no : Option ℕ
  pub hash : Bytes
  pub epoch_no : Option ℕ
  pub slot_no : Option ℕ
  pub time : ℕ
  pub token_outputs : List TokenOutput

pub record Block : Type 0 where
  pub block_no : ℕ
  pub hash : Bytes
  pub epoch_no : ℕ
  pub slot_no : ℕ
  pub time : ℕ

-- `From<Block> for MainchainBlock`
unfoldable pub mainchain_block : Block → MainchainBlock
mainchain_block b = record {
  number = b.block_no;
  hash = b.hash;
  epoch = b.epoch_no;
  slot = b.slot_no;
  timestamp = b.time / 1000;
}

-- `FromRow`: a null where a number is expected is an error.
unfoldable pub from_row : BlockRow → Result DataSourceError Block
from_row r = do
  block_no ← ok_or r.block_no internal_data_source_error
  epoch_no ← ok_or r.epoch_no internal_data_source_error
  slot_no ← ok_or r.slot_no internal_data_source_error
  ok (record {
    block_no = block_no;
    hash = r.hash;
    epoch_no = epoch_no;
    slot_no = slot_no;
    time = r.time;
  })

-- `fetch_optional` and `fetch_all`
unfoldable pub fetch_optional : Option BlockRow → Result DataSourceError (Option Block)
unfolding from_row
fetch_optional none = ok none
fetch_optional (some r) = do b ← from_row r; ok (some b)

unfoldable pub fetch_all : List BlockRow → Result DataSourceError (List Block)
unfolding from_row
fetch_all [] = ok []
fetch_all (r ∷ rs) = do b ← from_row r; bs ← fetch_all rs; ok (b ∷ bs)

-- A comparison with null does not hold.
unfoldable pub holds : (ℕ → Bool) → Option ℕ → Bool
holds p none = false
holds p (some n) = p n

unfoldable pub is_not_null : Option ℕ → Bool
unfolding holds
is_not_null n = holds (λ m. leb 0 m) n

-- `block_no`, in the order of the rows that the queries have filtered: none of them has a null.
unfoldable pub block_key : BlockRow → ℕ
block_key r = unwrap_or r.block_no 0

-- `ORDER BY block_no ASC`
unfoldable pub insert_asc : BlockRow → List BlockRow → List BlockRow
unfolding block_key
insert_asc r [] = r ∷ []
insert_asc r (q ∷ qs) = if ltb (block_key q) (block_key r) then q ∷ insert_asc r qs else r ∷ q ∷ qs

unfoldable pub order_asc : List BlockRow → List BlockRow
unfolding insert_asc
order_asc [] = []
order_asc (r ∷ rs) = insert_asc r (order_asc rs)

-- `ORDER BY block_no DESC LIMIT 1`
unfoldable pub highest : List BlockRow → Option BlockRow
unfolding block_key
highest rows = greatest block_key rows

unfoldable pub get_latest_block_info : List BlockRow → Result DataSourceError (Option Block)
unfolding is_not_null highest fetch_optional
get_latest_block_info rows = fetch_optional (highest (filter (λ r. is_not_null r.block_no) rows))

unfoldable pub in_range : ℕ → ℕ → BlockRow → Bool
unfolding holds
in_range from to r = holds (λ n. leb from n) r.block_no && holds (λ n. leb n to) r.block_no

unfoldable pub get_blocks_by_numbers : List BlockRow → ℕ → ℕ → Result DataSourceError (List Block)
unfolding in_range order_asc fetch_all
get_blocks_by_numbers rows from to = fetch_all (order_asc (filter (in_range from to) rows))

-- The `WHERE` clause of `get_highest_block`
unfoldable pub in_window :
    (max_block_number : ℕ) (min_time : ℤ) (min_slot : ℕ) (max_time : ℤ) (max_slot : ℕ)
    → BlockRow
    → Bool
unfolding holds
in_window max_block_number min_time min_slot max_time max_slot r =
    holds (λ n. leb n max_block_number) r.block_no
    && holds (λ n. leb min_slot n) r.slot_no
    && holds (λ n. leb n max_slot) r.slot_no
    && leb_ℤℕ min_time r.time
    && leb_ℕℤ r.time max_time

unfoldable pub get_highest_block :
    List BlockRow
    → (max_block_number : ℕ) (min_time : ℤ) (min_slot : ℕ) (max_time : ℤ) (max_slot : ℕ)
    → Result DataSourceError (Option Block)
unfolding in_window highest fetch_optional
get_highest_block rows max_block_number min_time min_slot max_time max_slot =
    fetch_optional
      (highest (filter (in_window max_block_number min_time min_slot max_time max_slot) rows))

unfoldable pub get_block_by_hash : List BlockRow → Bytes → Result DataSourceError (Option Block)
unfolding fetch_optional
get_block_by_hash rows hash = fetch_optional (find (λ r. bytes_eq r.hash hash) rows)

-- A `NativeTokenAmount` of the database: `to_u128`.
unfoldable pub to_u128 : ℕ → Result DataSourceError ℕ
to_u128 amount = if ltb amount (2 ^ 128) then ok amount else err internal_data_source_error

unfoldable pub sent_to : Bytes → TokenOutput → Bool
sent_to address o = bytes_eq o.address address

-- `SUM(ma_tx_out.quantity)` for the asset: the conditions on `multi_asset` stand in `WHERE`.
unfoldable pub asset_amount : Bytes → Bytes → Bytes → BlockRow → ℕ
unfolding sent_to
asset_amount policy name address r = sum (
    map (λ o. o.quantity)
      (filter (λ o. sent_to address o && bytes_eq o.policy policy && bytes_eq o.name name)
        r.token_outputs))

-- `SUM(ma_tx_out.quantity)` over the outputs to the address. The conditions on `multi_asset` stand
-- in a `LEFT JOIN`, which keeps the rows of the other assets with nulls for `multi_asset`, so the
-- sum is over the tokens of every asset.
unfoldable pub address_amount : Bytes → BlockRow → ℕ
unfolding sent_to
address_amount address r = sum (map (λ o. o.quantity) (filter (sent_to address) r.token_outputs))

unfoldable pub get_total_native_tokens_transfered :
    List BlockRow → (to_block : ℕ) (policy name address : Bytes) → Result DataSourceError ℕ
unfolding holds asset_amount to_u128
get_total_native_tokens_transfered rows to_block policy name address = to_u128 (
    sum (
      map (asset_amount policy name address)
        (filter (λ r. holds (λ n. leb n to_block) r.block_no) rows)))

-- The rows `BlockTokenAmount`: the hash of a block and its amount
unfoldable pub fetch_amounts : Bytes → List BlockRow → Result DataSourceError (List (Bytes × ℕ))
unfolding address_amount to_u128
fetch_amounts address [] = ok []
fetch_amounts address (r ∷ rs) = do
  amount ← to_u128 (address_amount address r)
  rest ← fetch_amounts address rs
  ok ((r.hash, amount) ∷ rest)

unfoldable pub get_native_token_transfers :
    List BlockRow
    → (from_block to_block : ℕ) (policy name address : Bytes)
    → Result DataSourceError (List (Bytes × ℕ))
unfolding in_range order_asc fetch_amounts
get_native_token_transfers rows from_block to_block policy name address =
    fetch_amounts address (order_asc (filter (in_range from_block to_block) rows))

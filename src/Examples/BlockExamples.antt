-- ===== src/Examples/BlockExamples.antt =====
-- Runs of the block source of toolkit/mainchain-follower/db-sync-follower.
use iagon_network_explorer_n.Prelude.{
  ℕ, ◌*◌, ◌^◌, ◌<◌, ◌≤◌, ◌≡◌, refl, arith, sym, subst, ◌∙◌, ap, bytes_eq, ok, ok_inj, true, pos,
  Bytes, Option, none, some, some_inj, List, [], ◌∷◌, All, find, filter, greatest, find-All,
}
use iagon_network_explorer_n.MainchainEpoch.{
  MainchainEpochConfig, timestamp_to_mainchain_slot_number,
}
use iagon_network_explorer_n.Domain.{MainchainBlock}
use iagon_network_explorer_n.Examples.Fixtures.{bytes}
use iagon_network_explorer_n.McHash.{
  McHashDataSource, new_proposal, new_verification, from_mc_block_hash, value_from_digest,
}
use iagon_network_explorer_n.Follower.Blocks.Proposals.{new_proposal-verified_later}
use iagon_network_explorer_n.Follower.Database.{DataSourceError, mainchain_block, get_highest_block}
use iagon_network_explorer_n.McHash.Verification.{IsCoherent}
use iagon_network_explorer_n.Follower.Database.{
  BlockRow, Block, from_row, fetch_optional, holds, is_not_null, block_key, highest,
  get_latest_block_info, get_block_by_hash,
}
use iagon_network_explorer_n.Follower.Blocks.{
  Settings, date_time_to_slot, timestamp_to_db_type, get_stable_block_by_hash_from_db,
  get_latest_stable_block_for, BlocksCache, get_stable_block_for, get_stable_block_by_hash,
  fill_cache,
}
use iagon_network_explorer_n.Follower.Blocks.Stability.{
  IsRow, IsTable, from_row_inversion, found-get_block_by_hash,
}
use iagon_network_explorer_n.Follower.Blocks.Cached.{get_block_by_hash_row}
use iagon_network_explorer_n.Follower.Blocks.Growth.{
  Extends, Event, request, advance, run, run_uncached, run-eq-run_uncached,
}
use iagon_network_explorer_n.Follower.Blocks.Coherence.{
  IsChain, AreCached, mc_hash_data_source, mc_hash_data_source-IsCoherent,
}

abbrev pub row : ℕ → BlockRow
row n = record {
  block_no = some n;
  hash = bytes 32 n;
  epoch_no = some 0;
  slot_no = some n;
  time = 1000 * n;
  token_outputs = [];
}

abbrev pub block_of : ℕ → Block
block_of n = record { block_no = n; hash = bytes 32 n; epoch_no = 0; slot_no = n; time = 1000 * n }

abbrev two_rows : List BlockRow
two_rows = row 0 ∷ row 1 ∷ []

abbrev three_rows : List BlockRow
three_rows = row 0 ∷ row 1 ∷ row 2 ∷ []

abbrev epochs : MainchainEpochConfig
epochs = record {
  first_epoch_timestamp_millis = 0;
  epoch_duration_millis = 10000;
  first_epoch_number = 0;
  first_slot_number = 0;
}

abbrev settings : Settings
settings = record {
  security_parameter = 1;
  min_slot_boundary = 0;
  max_slot_boundary = 9000;
  mainchain_epoch_config = epochs;
  block_stability_margin = 0;
  cache_size = 100;
}

is_row :
    (rows : List BlockRow) (k : ℕ)
    → k < 2 ^ 31
    → find (λ q. bytes_eq q.hash (bytes 32 k)) rows ≡ some (row k)
    → IsRow rows (row k)
unfolding from_row
is_row rows k small found = record {
  by_hash = found;
  complete = λ n h. (block_of k, refl, let same = some_inj h in omega arith);
}

two_rows-IsTable : IsTable two_rows
unfolding find bytes_eq
two_rows-IsTable =
    (is_row two_rows 0 (omega arith) refl, (is_row two_rows 1 (omega arith) refl, tt))

-- The two rows stand in the longer table.
kept_rows : All (IsRow three_rows) two_rows
unfolding find bytes_eq
kept_rows = (is_row three_rows 0 (omega arith) refl, (is_row three_rows 1 (omega arith) refl, tt))

three_rows-IsTable : IsTable three_rows
unfolding find bytes_eq
three_rows-IsTable = (kept_rows.0, (kept_rows.1.0, (is_row three_rows 2 (omega arith) refl, tt)))

latest_of_two : get_latest_block_info two_rows ≡ ok (some (block_of 1))
unfolding get_latest_block_info highest greatest filter fetch_optional from_row is_not_null holds
    block_key
latest_of_two = refl

latest_of_three : get_latest_block_info three_rows ≡ ok (some (block_of 2))
unfolding get_latest_block_info highest greatest filter fetch_optional from_row is_not_null holds
    block_key
latest_of_three = refl

two_rows-Extends : Extends 1 two_rows three_rows
two_rows-Extends = record {
  longer = λ b h.
      let same : block_of 1 ≡ b = some_inj (ok_inj (sym latest_of_two ∙ h)) in
      (block_of 2, latest_of_three, omega (arith, ap (λ z. z.block_no) same));
  kept = λ b latest h at_end deep.
      let (r, f, of_row) = get_block_by_hash_row two_rows b.hash b h in
      let (_, hash, _) = from_row_inversion r b of_row in
      let found = (find-All (IsRow three_rows) _ two_rows kept_rows f).by_hash in
      subst (λ z. get_block_by_hash three_rows z ≡ ok (some b)) hash
        (found-get_block_by_hash three_rows r.hash r b found of_row);
}

abbrev events : List Event
events =
    request (bytes 32 0) 1000
    ∷ advance three_rows
    ∷ request (bytes 32 0) 2000
    ∷ request (bytes 32 1) 2000
    ∷ []

run-eq-run_uncached_example :
    run settings (λ _. true) two_rows events (some [])
    ≡ run_uncached settings (λ _. true) two_rows events
run-eq-run_uncached_example =
    run-eq-run_uncached settings (λ _. true) two_rows events (some []) two_rows-IsTable
      (omega arith) (three_rows-IsTable, two_rows-Extends, tt) tt

slots_of :
    (k : ℕ)
    → k < 2 ^ 40
    → (b : Block) → from_row (row k) ≡ ok b
    → date_time_to_slot settings (pos b.time) ≡ ok b.slot_no
unfolding date_time_to_slot timestamp_to_mainchain_slot_number from_row
slots_of k small b h =
    let same : block_of k ≡ b = ok_inj h in
    subst (λ z. date_time_to_slot settings (pos z.time) ≡ ok z.slot_no) same (ground arith)

in_order : (k j n m : ℕ) → some k ≡ some n → some j ≡ some m → n ≤ m → 1000 * k ≤ 1000 * j
in_order k j n m h h' le = let e = some_inj h in let e' = some_inj h' in omega arith

two_rows-IsChain : IsChain settings two_rows
two_rows-IsChain = record {
  table = two_rows-IsTable;
  ordered = ((in_order 0 0, (in_order 0 1, tt)), ((in_order 1 0, (in_order 1 1, tt)), tt));
  slotted = (slots_of 0 (omega arith), (slots_of 1 (omega arith), tt));
}

three_rows-IsChain : IsChain settings three_rows
three_rows-IsChain = record {
  table = three_rows-IsTable;
  ordered = (
    (in_order 0 0, (in_order 0 1, (in_order 0 2, tt))),
    (
      (in_order 1 0, (in_order 1 1, (in_order 1 2, tt))),
      ((in_order 2 0, (in_order 2 1, (in_order 2 2, tt))), tt),
    ),
  );
  slotted = (slots_of 0 (omega arith), (slots_of 1 (omega arith), (slots_of 2 (omega arith), tt)));
}

first_of_three : get_block_by_hash three_rows (bytes 32 0) ≡ ok (some (block_of 0))
unfolding get_block_by_hash fetch_optional from_row find bytes_eq
first_of_three = refl

abbrev caches_of_three : Bytes → ℕ → BlocksCache
caches_of_three hash timestamp = some (block_of 0 ∷ [])

cached_of_three : AreCached settings (λ _. true) three_rows caches_of_three
cached_of_three hash timestamp = (
  record {
    found = first_of_three;
    latest = block_of 2;
    at_end = latest_of_three;
    deep = omega arith;
  },
  tt,
)

mc_hash_data_source-IsCoherent_example :
    IsCoherent
      (mc_hash_data_source settings (λ _. true) three_rows caches_of_three)
      (λ slot. some (1000 * slot))
mc_hash_data_source-IsCoherent_example =
    mc_hash_data_source-IsCoherent settings (λ _. true) three_rows caches_of_three
      (λ slot. some (1000 * slot)) (block_of 2) cached_of_three three_rows-IsChain
      (record { parameter = omega arith; margin = omega arith; slot = omega arith }) refl
      latest_of_three (omega arith)

abbrev slot_timestamp : ℕ → Option ℕ
slot_timestamp slot = some (1000 * slot)

abbrev proposed : MainchainBlock
proposed = record { number = 0; hash = bytes 32 0; epoch = 0; slot = 0; timestamp = 0 }

abbrev two_rows_source : McHashDataSource DataSourceError
two_rows_source = mc_hash_data_source settings (λ _. true) two_rows (λ hash timestamp. none)

block_is_proposed : new_proposal two_rows_source slot_timestamp 9 ≡ ok proposed
unfolding new_proposal get_latest_stable_block_for timestamp_to_db_type get_latest_block_info
    greatest filter timestamp_to_mainchain_slot_number get_highest_block
block_is_proposed = refl

parent_is_stable : two_rows_source.get_stable_block_for (bytes 32 0) 8000 ≡ ok (some proposed)
unfolding get_stable_block_for get_stable_block_by_hash fill_cache timestamp_to_db_type
    get_stable_block_by_hash_from_db get_block_by_hash find bytes_eq get_latest_block_info greatest
    filter mainchain_block
parent_is_stable = refl

new_proposal-verified_later_example :
    new_verification
      (mc_hash_data_source settings (λ _. true) three_rows caches_of_three)
      slot_timestamp
      (from_mc_block_hash (bytes 32 0))
      (some 8)
      9
      (bytes 32 0)
    ≡ ok proposed
unfolding value_from_digest from_mc_block_hash bytes_eq
new_proposal-verified_later_example =
    new_proposal-verified_later settings (λ _. true) two_rows three_rows two_rows-Extends
      (λ hash timestamp. none) caches_of_three slot_timestamp (block_of 1) (λ hash timestamp. tt)
      cached_of_three two_rows-IsChain
      (record { parameter = omega arith; margin = omega arith; slot = omega arith }) refl
      latest_of_two (omega arith) three_rows-IsTable 9 8 9000 8000 proposed proposed
      (from_mc_block_hash (bytes 32 0)) (bytes 32 0) block_is_proposed refl refl (omega arith) refl
      parent_is_stable

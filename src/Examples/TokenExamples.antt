-- ===== src/Examples/TokenExamples.antt =====
-- Runs of the native token source of toolkit/mainchain-follower/db-sync-follower.
use iagon_network_explorer_n.Prelude.{
  ℕ, ◌+◌, ◌*◌, ◌^◌, ◌<◌, ◌≡◌, refl, arith, Bytes, bytes_eq, ok, none, some, some_inj, sum, List, [],
  ◌∷◌, find, filter, greatest,
}
use iagon_network_explorer_n.Follower.Database.{
  BlockRow, Block, from_row, fetch_optional, holds, is_not_null, block_key, highest,
  get_latest_block_info, get_block_by_hash, address_amount, asset_amount, sent_to, to_u128,
  in_range, get_total_native_tokens_transfered,
}
use iagon_network_explorer_n.Follower.Blocks.Stability.{IsRow}
use iagon_network_explorer_n.Follower.NativeTokens.{
  Settings, Cache, get_total_native_token_transfer, query_transfers_from_genesis, get_block_no,
  get_sum_in_range, position,
}
use iagon_network_explorer_n.Follower.NativeTokens.Transfers.{sent_between, IsLedger}
use iagon_network_explorer_n.Follower.NativeTokens.Requests.{
  IsSound, get_total_native_token_transfer-sent_between,
}
use iagon_network_explorer_n.Follower.NativeTokens.Genesis.{
  OnlyAsset, get_total_native_token_transfer-from_genesis,
}

abbrev address : Bytes
address = 9 ∷ []

abbrev policy : Bytes
policy = 8 ∷ []

abbrev name : Bytes
name = 7 ∷ []

-- A block with one output of the asset.
abbrev row : ℕ → ℕ → BlockRow
row n quantity = record {
  block_no = some n;
  hash = n ∷ [];
  epoch_no = some 0;
  slot_no = some n;
  time = 1000 * n;
  token_outputs =
      record { address = address; policy = policy; name = name; quantity = quantity } ∷ [];
}

abbrev block_of : ℕ → Block
block_of n = record { block_no = n; hash = n ∷ []; epoch_no = 0; slot_no = n; time = 1000 * n }

abbrev rows : List BlockRow
rows = row 0 5 ∷ row 1 6 ∷ row 2 7 ∷ []

abbrev settings : Settings
settings = record { security_parameter = 1; cache_size = 100 }

is_row :
    (k q : ℕ)
    → k < 2 ^ 31
    → find (λ r. bytes_eq r.hash (k ∷ [])) rows ≡ some (row k q)
    → IsRow rows (row k q)
unfolding from_row
is_row k q small found = record {
  by_hash = found;
  complete = λ n h. (block_of k, refl, let same = some_inj h in omega arith);
}

rows-IsLedger : IsLedger address rows
unfolding find bytes_eq sum address_amount sent_to filter
rows-IsLedger = record {
  table = (
    is_row 0 5 (omega arith) refl,
    (is_row 1 6 (omega arith) refl, (is_row 2 7 (omega arith) refl, tt)),
  );
  numbered = (
    (
      λ n m h k e. let a = some_inj h in let b = some_inj k in omega arith,
      (λ n m h k e. let a = some_inj h in let b = some_inj k in omega arith, tt),
    ),
    ((λ n m h k e. let a = some_inj h in let b = some_inj k in omega arith, tt), (tt, tt)),
  );
  fits = omega arith;
}

latest : get_latest_block_info rows ≡ ok (some (block_of 2))
unfolding get_latest_block_info highest greatest filter fetch_optional from_row is_not_null holds
    block_key
latest = refl

by_hash_0 : get_block_by_hash rows (0 ∷ []) ≡ ok (some (block_of 0))
unfolding get_block_by_hash find bytes_eq fetch_optional from_row
by_hash_0 = refl

by_hash_1 : get_block_by_hash rows (1 ∷ []) ≡ ok (some (block_of 1))
unfolding get_block_by_hash find bytes_eq fetch_optional from_row
by_hash_1 = refl

empty-IsSound : IsSound address rows (some [])
unfolding get_sum_in_range position
empty-IsSound after to a b v ha hb le h = cc

get_total_native_token_transfer-sent_between_example :
    (cache' : Cache) × IsSound address rows cache'
    × (get_total_native_token_transfer settings rows
          (some [])
          (some (0 ∷ []))
          (1 ∷ [])
          policy
          name
          address
        ≡ ok (sent_between address rows 0 1, cache'))
get_total_native_token_transfer-sent_between_example =
    get_total_native_token_transfer-sent_between address rows rows-IsLedger settings policy name
      (block_of 2) (some []) (0 ∷ []) (1 ∷ []) (block_of 0) (block_of 1) empty-IsSound latest
      by_hash_0 by_hash_1 (omega arith) (omega arith)

only_asset : OnlyAsset policy name address rows
unfolding asset_amount address_amount sent_to filter bytes_eq sum
only_asset = (refl, (refl, (refl, tt)))

from_genesis_0 :
    get_total_native_token_transfer settings rows none none (0 ∷ []) policy name address
    ≡ ok (5, none)
unfolding get_total_native_token_transfer query_transfers_from_genesis get_block_no
    get_total_native_tokens_transfered get_block_by_hash find bytes_eq fetch_optional from_row
    asset_amount sent_to filter holds sum to_u128
from_genesis_0 = refl

from_genesis_1 :
    get_total_native_token_transfer settings rows none none (1 ∷ []) policy name address
    ≡ ok (11, none)
unfolding get_total_native_token_transfer query_transfers_from_genesis get_block_no
    get_total_native_tokens_transfered get_block_by_hash find bytes_eq fetch_optional from_row
    asset_amount sent_to filter holds sum to_u128
from_genesis_1 = refl

get_total_native_token_transfer-from_genesis_example : 6 + 5 ≡ 11
unfolding sent_between sum in_range holds address_amount filter bytes_eq sent_to
get_total_native_token_transfer-from_genesis_example =
    let answered =
      get_total_native_token_transfer-sent_between address rows rows-IsLedger settings policy name
        (block_of 2) none (0 ∷ []) (1 ∷ []) (block_of 0) (block_of 1) tt latest by_hash_0 by_hash_1
        (omega arith) (omega arith) in
    get_total_native_token_transfer-from_genesis policy name address settings rows rows-IsLedger
      (block_of 2) none (0 ∷ []) (1 ∷ []) (block_of 0) (block_of 1) (5, none) (11, none)
      (sent_between address rows 0 1, answered.0) only_asset tt latest by_hash_0 by_hash_1
      (omega arith) (omega arith) from_genesis_0 from_genesis_1 answered.2

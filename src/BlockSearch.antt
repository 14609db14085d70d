-- ===== src/BlockSearch.antt =====
-- toolkit/primitives/sidechain-block-search/src: the partner chain block of an epoch or of a range
-- of slots, by binary search. An error of a comparison is `none`, since the search drops it.
pub mod Correctness
pub mod LastBlock
use Prim.Native.Nat.{compare, Ordering}
use Prim.Native.Nat.Ordering.{lt, eq, gt}
use iagon_network_explorer_n.Prelude.{
  ℕ, zero, suc, ◌+◌, ◌-◌, ◌/◌, ◌^◌, u32, Bool, true, false, leb, ltb, if◌then◌else◌, Option, none,
  some, Bytes, Result, ok, err, panic,
}

-- The loop of `binary_search_by` at `u32`, on fuel: the outer `none` is a loop that goes on.
unfoldable pub binary_search_by : ℕ → (ℕ → Option Ordering) → ℕ → ℕ → Option (Option ℕ)
binary_search_by zero f left right = none
binary_search_by (suc fuel) f left right =
    let middle = u32 (left + right) / 2 in
    elim (leb left right) [
      | true ↦ elim (f middle) [
        | none ↦ some none
        | some eq ↦ some (some middle)
        | some lt ↦ binary_search_by fuel f (u32 (middle + 1)) right
        | some gt ↦ binary_search_by fuel f left (u32 (middle + 2 ^ 32 - 1))
      ]
      | false ↦ some none
    ]

-- `SidechainInfo`, as the runtime API answers it for the hash of a block.
pub record SidechainInfo : Type 0 where
  pub best_number : ℕ
  pub get_slot_of_block : ℕ → Option ℕ
  pub get_epoch_of_block : ℕ → Option ℕ

-- `AnyBlockInEpoch::compare_block`
unfoldable pub any_block_in_epoch : ℕ → SidechainInfo → ℕ → Option Ordering
any_block_in_epoch epoch info block = elim (info.get_epoch_of_block block) [
  | none ↦ none
  | some epoch_block ↦ some (compare epoch_block epoch)
]

-- The block is in the epoch; is the next one in a later one?
unfoldable pub last_if_followed : ℕ → Option ℕ → Option Ordering
last_if_followed epoch none = none
last_if_followed epoch (some epoch_next) = elim (compare epoch_next epoch) [
  | gt ↦ some eq
  | _ ↦ some lt
]

-- `LastBlockInEpoch::compare_block`
unfoldable pub last_block_in_epoch : ℕ → SidechainInfo → ℕ → Option Ordering
unfolding last_if_followed
last_block_in_epoch epoch info block = elim (info.get_epoch_of_block block) [
  | none ↦ none
  | some epoch_block ↦ elim (compare epoch_block epoch) [
    | eq ↦ last_if_followed epoch (info.get_epoch_of_block (u32 (block + 1)))
    | lt ↦ some lt
    | gt ↦ some gt
  ]
]

-- `AnyBlockInSlotRange::compare_block`, for the slots from `start` to before `end`
unfoldable pub any_block_in_slot_range : ℕ → ℕ → SidechainInfo → ℕ → Option Ordering
any_block_in_slot_range start end info block = elim (info.get_slot_of_block block) [
  | none ↦ none
  | some slot_of_block ↦
      if ltb slot_of_block start
      then some lt
      else (if leb end slot_of_block then some gt else some eq)
]

-- The block is in the range; is the next one behind it?
unfoldable pub latest_if_followed : Option Ordering → Option Ordering
latest_if_followed none = none
latest_if_followed (some gt) = some eq
latest_if_followed (some eq) = some lt
latest_if_followed (some lt) = some lt

-- `LatestBlockInSlotRange::compare_block`
unfoldable pub latest_block_in_slot_range : ℕ → ℕ → ℕ → SidechainInfo → ℕ → Option Ordering
unfolding any_block_in_slot_range latest_if_followed
latest_block_in_slot_range start end latest_block info block =
    elim (any_block_in_slot_range start end info block) [
      | none ↦ none
      | some eq ↦
          if ltb block latest_block
          then latest_if_followed (any_block_in_slot_range start end info (u32 (block + 1)))
          else some eq
      | some lt ↦ some lt
      | some gt ↦ some gt
    ]

-- `find_block_number`; the outer `none` is a search that goes on, the inner an error
unfoldable pub find_block_number :
    ℕ → SidechainInfo → (SidechainInfo → ℕ → Option Ordering) → Option (Option ℕ)
unfolding binary_search_by
find_block_number fuel info compare_block =
    binary_search_by fuel (compare_block info) 1 (u32 (info.best_number + 1))

pub data FindError (E : Type 0) : Type 0 where
  application : FindError E
  api_error : E → FindError E

-- The block has been found, so the client without its hash is a panic.
unfoldable pub block_hash : {E : Type 0} → Result E (Option Bytes) → Result (FindError E) Bytes
block_hash (ok (some hash)) = ok hash
block_hash (ok none) = panic
block_hash (err e) = err (api_error e)
block_hash panic = panic

-- `find_block`, over the `hash` of the client
unfoldable pub find_block :
    {E : Type 0}
    → ℕ
    → SidechainInfo
    → (ℕ → Result E (Option Bytes))
    → (SidechainInfo → ℕ → Option Ordering)
    → Option (Result (FindError E) Bytes)
unfolding find_block_number block_hash
find_block fuel info hash compare_block = elim (find_block_number fuel info compare_block) [
  | none ↦ none
  | some none ↦ some (err application)
  | some (some block_number) ↦ some (block_hash (hash block_number))
]

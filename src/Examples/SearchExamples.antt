-- ===== src/Examples/SearchExamples.antt =====
-- Runs of toolkit/primitives/sidechain-block-search/src.
use Prim.Native.Nat.{compare, Ordering}
use Prim.Native.Nat.Ordering.{eq}
use iagon_network_explorer_n.Prelude.{
  ℕ, ◌/◌, ◌≤◌, ◌≡◌, Bytes, Result, ok, refl, arith, Option, some, none, ltb, if◌then◌else◌,
}
use iagon_network_explorer_n.BlockSearch.{
  SidechainInfo, any_block_in_epoch, binary_search_by, last_block_in_epoch, find_block,
}
use iagon_network_explorer_n.BlockSearch.LastBlock.{HasEpochs, find_block-last_block_in_epoch}
use iagon_network_explorer_n.Examples.Fixtures.{bytes}
use iagon_network_explorer_n.BlockSearch.Correctness.{
  IsOrdered, Ends, binary_search_by_sound, binary_search_by_complete,
}

-- Ten blocks, five to an epoch.
abbrev ten_blocks : SidechainInfo
ten_blocks = record {
  best_number = 10;
  get_slot_of_block = λ n. if ltb n 11 then some n else none;
  get_epoch_of_block = λ n. if ltb n 11 then some (n / 5) else none;
}

abbrev in_epoch_1 : ℕ → Option Ordering
in_epoch_1 = any_block_in_epoch 1 ten_blocks

binary_search_by_sound_example : (o : Option ℕ) × Ends in_epoch_1 12 1 11 o
binary_search_by_sound_example =
    binary_search_by_sound in_epoch_1 12 1 11 (omega arith) (omega arith) (omega arith)
      (omega arith)

in_epoch_1-IsOrdered : IsOrdered in_epoch_1 10
unfolding any_block_in_epoch
in_epoch_1-IsOrdered = record {
  total = λ i pos le. (compare (i / 5) 1, ground arith);
  not_less = λ i j pos lt' le e h. ground arith;
  not_greater = λ i j pos lt' le e h. ground arith;
}

binary_search_by_complete_example :
    (m' : ℕ) × (binary_search_by 12 in_epoch_1 1 11 ≡ some (some m'))
    × (1 ≤ m')
    × (m' ≤ 11)
    × (in_epoch_1 m' ≡ some eq)
unfolding any_block_in_epoch
binary_search_by_complete_example =
    binary_search_by_complete in_epoch_1 12 1 11 10 7 in_epoch_1-IsOrdered (omega arith)
      (omega arith) (omega arith) (omega arith) (omega arith) (omega arith) (omega arith) refl

ten_blocks-HasEpochs : HasEpochs ten_blocks (λ n. n / 5)
ten_blocks-HasEpochs = record {
  known = λ n pos le. ground arith;
  unknown = refl;
  ordered = λ n m pos le bound. omega arith;
}

abbrev hash_of : ℕ → Result ℕ (Option Bytes)
hash_of n = ok (some (bytes 32 n))

find_block-last_block_in_epoch_example :
    find_block 12 ten_blocks hash_of (last_block_in_epoch 1) ≡ some (ok (bytes 32 9))
find_block-last_block_in_epoch_example =
    find_block-last_block_in_epoch ten_blocks (λ n. n / 5) 1 9 ten_blocks-HasEpochs (omega arith)
      (omega arith) (omega arith) refl (omega arith) hash_of (bytes 32 9) refl

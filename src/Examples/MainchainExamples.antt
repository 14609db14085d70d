-- ===== src/Examples/MainchainExamples.antt =====
-- Runs of the epochs and slots of the main chain and of the partner chain, with the parameters of
-- the main network of Cardano from its Shelley era on.
use iagon_network_explorer_n.Prelude.{ℕ, ◌+◌, ◌<◌, ◌≤◌, ◌≡◌, ◌↔◌, refl, arith, ok}
use iagon_network_explorer_n.MainchainEpoch.{
  MainchainEpochConfig, epochs_passed, timestamp_to_mainchain_epoch,
  timestamp_to_mainchain_slot_number, mainchain_epoch_to_timestamp, epoch_for_slot,
}
use iagon_network_explorer_n.MainchainEpoch.Derivation.{
  timestamp_to_mainchain_epoch_iff, epoch_for_slot-timestamp_to_mainchain_slot_number,
  mainchain_epoch_to_timestamp_iff,
}
use iagon_network_explorer_n.Slots.{epoch_number, first_slot_number, slot_number_in_epoch}
use iagon_network_explorer_n.Slots.Laws.{slot_decomposition}

abbrev mainnet : MainchainEpochConfig
mainnet = record {
  first_epoch_timestamp_millis = 1596059091000;
  epoch_duration_millis = 432000000;
  first_epoch_number = 208;
  first_slot_number = 4492800;
}

timestamp_to_mainchain_epoch_iff_example :
    (timestamp_to_mainchain_epoch mainnet 1596491091000 ≡ ok 209)
    ↔ ((1596491091000 ≤ 1596491091000) × (1596491091000 < 1596923091000))
timestamp_to_mainchain_epoch_iff_example =
    timestamp_to_mainchain_epoch_iff mainnet 1596491091000 209 (omega arith) (omega arith)
      (omega arith)

epoch_for_slot-timestamp_to_mainchain_slot_number_example : epoch_for_slot mainnet 4924800 ≡ ok 209
unfolding timestamp_to_mainchain_epoch timestamp_to_mainchain_slot_number epochs_passed
epoch_for_slot-timestamp_to_mainchain_slot_number_example =
    epoch_for_slot-timestamp_to_mainchain_slot_number mainnet 1596491091000 209 4924800 refl refl
      refl (omega arith) (omega arith)

mainchain_epoch_to_timestamp_iff_example :
    (timestamp_to_mainchain_epoch mainnet 1686443091000 ≡ ok 417) ↔ (
      (mainchain_epoch_to_timestamp mainnet 209 ≤ 1686443091000)
      × (1686443091000 < mainchain_epoch_to_timestamp mainnet 210))
mainchain_epoch_to_timestamp_iff_example =
    mainchain_epoch_to_timestamp_iff mainnet 209 1686443091000 (omega arith) (omega arith)
      (omega arith)

slot_decomposition_example :
    (e n : ℕ) × (epoch_number 125 60 ≡ ok e)
    × (slot_number_in_epoch 125 60 ≡ ok n)
    × (n < 60)
    × (first_slot_number e 60 + n ≡ 125)
slot_decomposition_example = slot_decomposition 125 60 (omega arith) (omega arith) (omega arith)

-- ===== src/MainchainEpoch.antt =====
-- toolkit/primitives/domain/src/mainchain_epoch.rs: epochs and slots of the main chain derived
-- from timestamps. `Timestamp` and `Duration` are their numbers of milliseconds.
pub mod Derivation
use iagon_network_explorer_n.Prelude.{
  ℕ, ◌+◌, ◌*◌, ◌/◌, ◌-◌, ◌^◌, Result, ok, err, ◌>>=◌, checked_sub, checked_div, try_u32,
  saturating_add_u32, u64, u32, ltb, if◌then◌else◌,
}

pub record MainchainEpochConfig : Type 0 where
  pub first_epoch_timestamp_millis : ℕ
  pub epoch_duration_millis : ℕ
  pub first_epoch_number : ℕ
  pub first_slot_number : ℕ

pub data EpochDerivationError : Type 0 where
  timestamp_too_small epoch_too_big epoch_too_small slot_too_small : EpochDerivationError

module _ (c : MainchainEpochConfig) where
  unfoldable pub slots_per_epoch : ℕ
  slots_per_epoch = c.epoch_duration_millis / 1000

  unfoldable pub epochs_passed : ℕ → Result EpochDerivationError ℕ
  epochs_passed timestamp = do
    time_elapsed ← checked_sub timestamp c.first_epoch_timestamp_millis timestamp_too_small
    quotient ← checked_div time_elapsed c.epoch_duration_millis
    res ← try_u32 quotient epoch_too_big
    if ltb (2 ^ 31 - 1) res then err epoch_too_big else ok res

  unfoldable pub timestamp_to_mainchain_epoch : ℕ → Result EpochDerivationError ℕ
  unfolding epochs_passed
  timestamp_to_mainchain_epoch timestamp = do
    passed ← epochs_passed timestamp
    ok (saturating_add_u32 c.first_epoch_number passed)

  unfoldable pub timestamp_to_mainchain_slot_number : ℕ → Result EpochDerivationError ℕ
  timestamp_to_mainchain_slot_number timestamp = do
    time_elapsed ← checked_sub timestamp c.first_epoch_timestamp_millis timestamp_too_small
    ok (u64 (c.first_slot_number + time_elapsed / 1000))

  unfoldable pub mainchain_epoch_to_timestamp : ℕ → ℕ
  mainchain_epoch_to_timestamp epoch =
      let time_elapsed = u64 (c.epoch_duration_millis * epoch) in
      u64 (c.first_epoch_timestamp_millis + time_elapsed)

  unfoldable pub first_slot_of_epoch : ℕ → Result EpochDerivationError ℕ
  unfolding slots_per_epoch
  first_slot_of_epoch epoch = do
    epochs_since_first_epoch ← checked_sub epoch c.first_epoch_number epoch_too_small
    let slots_since_first_epoch = u64 (epochs_since_first_epoch * slots_per_epoch)
    ok (u64 (slots_since_first_epoch + c.first_slot_number))

  unfoldable pub epoch_for_slot : ℕ → Result EpochDerivationError ℕ
  unfolding slots_per_epoch
  epoch_for_slot slot = do
    slots_since_first_slot ← checked_sub slot c.first_slot_number slot_too_small
    quotient ← checked_div slots_since_first_slot slots_per_epoch
    epochs_since_first_epoch ← try_u32 quotient epoch_too_big
    ok (u32 (c.first_epoch_number + epochs_since_first_epoch))

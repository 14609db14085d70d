-- ===== src/Slots.antt =====
-- toolkit/primitives/sidechain-slots/src/lib.rs: partner chain slots and epochs. `Slot` and
-- `ScEpochNumber` are their u64; `SlotDuration` is its number of milliseconds. `Slot::timestamp`
-- belongs to sp_consensus_slots and is an argument.
pub mod Laws
use iagon_network_explorer_n.Prelude.{
  ℕ, ◌*◌, ◌-◌, ◌%◌, ◌^◌, Result, ok, panic, Exec, ◌>>=◌, checked_div, u64, u32, Bool, ◌==◌, ltb,
  if◌then◌else◌, Option, none, some,
}

-- `Slot / u64` and `Slot % u64` panic at 0.
unfoldable pub epoch_number : ℕ → ℕ → Exec ℕ
epoch_number slot slots_per_epoch = checked_div slot slots_per_epoch

unfoldable pub first_slot_number : ℕ → ℕ → ℕ
first_slot_number epoch slots_per_epoch = u64 (epoch * slots_per_epoch)

-- The `expect` on `u32::try_from` is a panic.
unfoldable pub slot_number_in_epoch : ℕ → ℕ → Exec ℕ
slot_number_in_epoch slot slots_per_epoch =
    if slots_per_epoch == 0
    then panic
    else (if ltb (slot % slots_per_epoch) (2 ^ 32) then ok (slot % slots_per_epoch) else panic)

-- `slots_per_epoch - 1` is on u32.
unfoldable pub is_last_slot_of_an_epoch : ℕ → ℕ → Exec Bool
unfolding slot_number_in_epoch
is_last_slot_of_an_epoch slot slots_per_epoch = do
  n ← slot_number_in_epoch slot slots_per_epoch
  ok (n == slots_per_epoch - 1)

pub record ScSlotConfig : Type 0 where
  pub slots_per_epoch : ℕ
  pub slot_duration : ℕ

-- `slot_timestamp slot duration` is `Slot::timestamp`: `none` where it exceeds u64.
module _ (slot_timestamp : ℕ → ℕ → Option ℕ) where
  unfoldable pub epoch_start_time : ScSlotConfig → ℕ → Option ℕ
  unfolding first_slot_number
  epoch_start_time c epoch =
      slot_timestamp (first_slot_number epoch c.slots_per_epoch) c.slot_duration

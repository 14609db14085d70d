-- ===== src/Slots/Laws.antt =====
-- How epochs divide the slots of toolkit/primitives/sidechain-slots/src/lib.rs.
use iagon_network_explorer_n.Prelude.{ℕ, ◌+◌, ◌/◌, ◌%◌, ◌^◌, ◌<◌, ◌≡◌, ◌↔◌, ok, true, arith, ◌-◌}
use iagon_network_explorer_n.Prelude.Division.{div_bounds, div_unique}
use iagon_network_explorer_n.Slots.{
  epoch_number, first_slot_number, slot_number_in_epoch, is_last_slot_of_an_epoch,
}

-- With at least one slot to an epoch, neither the epoch of a slot nor its number in the epoch
-- panics, the number is below `slots_per_epoch`, and the slot is that many slots after the first
-- slot of its epoch.
pub slot_decomposition :
    (slot spe : ℕ)
    → 0 < spe
    → spe < 2 ^ 32
    → slot < 2 ^ 64
    → (e n : ℕ) × (epoch_number slot spe ≡ ok e)
      × (slot_number_in_epoch slot spe ≡ ok n)
      × (n < spe)
      × (first_slot_number e spe + n ≡ slot)
unfolding epoch_number slot_number_in_epoch first_slot_number
slot_decomposition slot spe pos small fits =
    (slot / spe, slot % spe, ground arith, ground arith, omega arith, omega arith)

epoch_of_next :
    (slot spe : ℕ) → 0 < spe → (slot % spe ≡ spe - 1) ↔ ((slot + 1) / spe ≡ slot / spe + 1)
epoch_of_next slot spe pos = (
  λ h. div_unique (slot + 1) spe (slot / spe + 1) (omega arith) (omega arith),
  λ h. let b = (div_bounds (slot + 1) spe pos).0 in let b' = rw h at b in omega arith,
)

-- A slot is the last one of its epoch exactly when the next slot is in the next epoch.
pub is_last_slot_of_an_epoch_iff :
    (slot spe e : ℕ)
    → 0 < spe
    → spe < 2 ^ 32
    → epoch_number slot spe ≡ ok e
    → (is_last_slot_of_an_epoch slot spe ≡ ok true) ↔ (epoch_number (slot + 1) spe ≡ ok (e + 1))
unfolding epoch_number is_last_slot_of_an_epoch
is_last_slot_of_an_epoch_iff slot spe e pos small h =
    let next = epoch_of_next slot spe pos in
    (λ last. ground (arith, next.0), λ e'. ground (arith, next.1))

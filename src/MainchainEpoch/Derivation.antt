-- ===== src/MainchainEpoch/Derivation.antt =====
-- What the derivations of toolkit/primitives/domain/src/mainchain_epoch.rs compute.
use Prim.Native.Nat.{min}
use iagon_network_explorer_n.Prelude.{
  ℕ, ◌%◌, ◌↔◌, >>=-eq-ok, ◌+◌, ◌*◌, ◌/◌, ◌-◌, ◌^◌, ◌≤◌, ◌<◌, ◌≡◌, ok, ap, arith,
}
use iagon_network_explorer_n.Prelude.Division.{div_bounds, div_unique}
use iagon_network_explorer_n.MainchainEpoch.{
  MainchainEpochConfig, slots_per_epoch, epochs_passed, timestamp_to_mainchain_epoch,
  timestamp_to_mainchain_slot_number, mainchain_epoch_to_timestamp, first_slot_of_epoch,
  epoch_for_slot,
}

module _ (c : MainchainEpochConfig) where
  epochs_passed_inv :
      (t n : ℕ)
      → epochs_passed c t ≡ ok n
      → (c.first_epoch_timestamp_millis ≤ t)
        × (0 < c.epoch_duration_millis)
        × (n ≡ (t - c.first_epoch_timestamp_millis) / c.epoch_duration_millis)
        × (n < 2 ^ 31)
  unfolding epochs_passed
  epochs_passed_inv t n h = ground arith

  epochs_passed_lem :
      (t n : ℕ)
      → c.first_epoch_timestamp_millis + n * c.epoch_duration_millis ≤ t
      → t < c.first_epoch_timestamp_millis + (n + 1) * c.epoch_duration_millis
      → n < 2 ^ 31
      → epochs_passed c t ≡ ok n
  unfolding epochs_passed
  epochs_passed_lem t n lo hi k =
      ground (arith, div_unique (t - c.first_epoch_timestamp_millis) c.epoch_duration_millis n)

  to_epoch_inv :
      (t e : ℕ)
      → timestamp_to_mainchain_epoch c t ≡ ok e
      → (n : ℕ) × (epochs_passed c t ≡ ok n) × (min (c.first_epoch_number + n) (2 ^ 32 - 1) ≡ e)
  unfolding timestamp_to_mainchain_epoch
  to_epoch_inv t e h =
      let (n, passed, total) = >>=-eq-ok (epochs_passed c t) _ h in (n, passed, ground arith)

  to_epoch_of :
      (t n e : ℕ)
      → epochs_passed c t ≡ ok n
      → min (c.first_epoch_number + n) (2 ^ 32 - 1) ≡ e
      → timestamp_to_mainchain_epoch c t ≡ ok e
  unfolding timestamp_to_mainchain_epoch
  to_epoch_of t n e h k = rw (h, k)

  -- Below the largest epoch number, a timestamp is in epoch `e` exactly when it lies in the
  -- interval of the configured duration that starts `e - first_epoch_number` durations after the
  -- first epoch.
  pub timestamp_to_mainchain_epoch_iff :
      (t e : ℕ)
      → c.first_epoch_number ≤ e
      → e < c.first_epoch_number + 2 ^ 31
      → e < 2 ^ 32 - 1
      → (timestamp_to_mainchain_epoch c t ≡ ok e) ↔ (
          (c.first_epoch_timestamp_millis + (e - c.first_epoch_number) * c.epoch_duration_millis
            ≤ t)
          × (t
              < c.first_epoch_timestamp_millis
                + (e - c.first_epoch_number + 1) * c.epoch_duration_millis))
  timestamp_to_mainchain_epoch_iff t e lo hi fits = (there, back)
    where
      there :
          timestamp_to_mainchain_epoch c t ≡ ok e
          → (c.first_epoch_timestamp_millis + (e - c.first_epoch_number) * c.epoch_duration_millis
              ≤ t)
            × (t
                < c.first_epoch_timestamp_millis
                  + (e - c.first_epoch_number + 1) * c.epoch_duration_millis)
      there h =
          let (n, passed, total) = to_epoch_inv t e h in
          let (late, pos, q, small) = epochs_passed_inv t n passed in
          let q' : (t - c.first_epoch_timestamp_millis) / c.epoch_duration_millis
              ≡ e - c.first_epoch_number =
            omega arith in
          let b = div_bounds (t - c.first_epoch_timestamp_millis) c.epoch_duration_millis pos in
          let b' = rw q' at b in (omega arith, omega arith)

      back :
          (c.first_epoch_timestamp_millis + (e - c.first_epoch_number) * c.epoch_duration_millis
              ≤ t)
            × (t
                < c.first_epoch_timestamp_millis
                  + (e - c.first_epoch_number + 1) * c.epoch_duration_millis)
          → timestamp_to_mainchain_epoch c t ≡ ok e
      back h =
          to_epoch_of t (e - c.first_epoch_number) e
            (epochs_passed_lem t (e - c.first_epoch_number) h.0 h.1 (omega arith)) (omega arith)

  -- A slot is in epoch `e` when it is one of the `slots_per_epoch` slots from the first slot of
  -- `e` on, where that slot number fits in 64 bits.
  pub epoch_for_slot-first_slot_of_epoch :
      (e f s : ℕ)
      → first_slot_of_epoch c e ≡ ok f
      → e < 2 ^ 32
      → (e - c.first_epoch_number) * slots_per_epoch c + c.first_slot_number < 2 ^ 64
      → f ≤ s
      → s < f + slots_per_epoch c
      → epoch_for_slot c s ≡ ok e
  unfolding first_slot_of_epoch epoch_for_slot
  epoch_for_slot-first_slot_of_epoch e f s h small fits lo hi = ground (
    arith,
    div_unique (s - c.first_slot_number) (c.epoch_duration_millis / 1000)
        (e - c.first_epoch_number),
  )

  slot_inv :
      (t s : ℕ)
      → timestamp_to_mainchain_slot_number c t ≡ ok s
      → (c.first_epoch_timestamp_millis ≤ t)
        × (s ≡ (c.first_slot_number + (t - c.first_epoch_timestamp_millis) / 1000) % 2 ^ 64)
  unfolding timestamp_to_mainchain_slot_number
  slot_inv t s h = ground arith

  to_epoch_for_slot :
      (s n e : ℕ)
      → (n * slots_per_epoch c ≤ s - c.first_slot_number)
        × (s - c.first_slot_number < (n + 1) * slots_per_epoch c)
      → c.first_slot_number ≤ s
      → n < 2 ^ 32
      → c.first_epoch_number + n ≡ e
      → e < 2 ^ 32
      → epoch_for_slot c s ≡ ok e
  unfolding epoch_for_slot
  to_epoch_for_slot s n e b late small sum fits =
      ground (arith, div_unique (s - c.first_slot_number) (c.epoch_duration_millis / 1000) n)

  -- Milliseconds counted in whole epochs are seconds counted in whole epochs.
  scale_bounds :
      (n x : ℕ)
      → c.epoch_duration_millis % 1000 ≡ 0
      → (n * c.epoch_duration_millis ≤ x) × (x < (n + 1) * c.epoch_duration_millis)
      → (n * slots_per_epoch c ≤ x / 1000) × (x / 1000 < (n + 1) * slots_per_epoch c)
  unfolding slots_per_epoch
  scale_bounds n x whole b =
      let d : c.epoch_duration_millis ≡ 1000 * (c.epoch_duration_millis / 1000) = omega arith in
      let nd = ap (λ (k : ℕ). n * k) d in (omega arith, omega arith)

  -- Where an epoch lasts a whole number of seconds, the number of the first epoch is at most 2 ^ 31,
  -- and the number of the first slot and the timestamp add up to less than 2 ^ 64, the epoch of a
  -- timestamp that has one is the epoch of the slot of the timestamp.
  pub epoch_for_slot-timestamp_to_mainchain_slot_number :
      (t e s : ℕ)
      → c.epoch_duration_millis % 1000 ≡ 0
      → timestamp_to_mainchain_epoch c t ≡ ok e
      → timestamp_to_mainchain_slot_number c t ≡ ok s
      → c.first_epoch_number + 2 ^ 31 ≤ 2 ^ 32
      → c.first_slot_number + t < 2 ^ 64
      → epoch_for_slot c s ≡ ok e
  epoch_for_slot-timestamp_to_mainchain_slot_number t e s whole he hs fits small =
      let (n, passed, total) = to_epoch_inv t e he in
      let (late, pos, q, short) = epochs_passed_inv t n passed in
      let q' : (t - c.first_epoch_timestamp_millis) / c.epoch_duration_millis ≡ n = omega arith in
      let b = div_bounds (t - c.first_epoch_timestamp_millis) c.epoch_duration_millis pos in
      let b' = rw q' at b in
      let slot = slot_inv t s hs in
      let e' : s - c.first_slot_number ≡ (t - c.first_epoch_timestamp_millis) / 1000 =
        omega arith in
      to_epoch_for_slot s n e (rw e' (scale_bounds n (t - c.first_epoch_timestamp_millis) whole b'))
        (omega arith) (omega arith) (omega arith) (omega arith)

  timestamp_lem :
      (e : ℕ)
      → c.first_epoch_timestamp_millis + c.epoch_duration_millis * e < 2 ^ 64
      → mainchain_epoch_to_timestamp c e
        ≡ c.first_epoch_timestamp_millis + e * c.epoch_duration_millis
  unfolding mainchain_epoch_to_timestamp
  timestamp_lem e fits = omega arith

  -- A timestamp is in epoch `first_epoch_number + e` exactly when it is not before the timestamp of
  -- `e` and before that of `e + 1`: the timestamp of `e` is the start of epoch
  -- `first_epoch_number + e`, and of epoch `e` only if the first epoch has number 0. This is for `e`
  -- below 2 ^ 31, epochs before the largest number 2 ^ 32 - 1, and a timestamp of `e + 1` that fits
  -- in 64 bits.
  pub mainchain_epoch_to_timestamp_iff :
      (e t : ℕ)
      → e < 2 ^ 31
      → c.first_epoch_number + e < 2 ^ 32 - 1
      → c.first_epoch_timestamp_millis + c.epoch_duration_millis * (e + 1) < 2 ^ 64
      → (timestamp_to_mainchain_epoch c t ≡ ok (c.first_epoch_number + e))
        ↔ ((mainchain_epoch_to_timestamp c e ≤ t) × (t < mainchain_epoch_to_timestamp c (e + 1)))
  mainchain_epoch_to_timestamp_iff e t small below fits =
      let (to, from) =
        timestamp_to_mainchain_epoch_iff t (c.first_epoch_number + e) (omega arith) (omega arith)
          below in
      let start = timestamp_lem e (omega arith) in
      let end = timestamp_lem (e + 1) fits in
      let same : c.first_epoch_number + e - c.first_epoch_number ≡ e = omega arith in
      (
        λ h. let b = rw same at (to h) in (omega arith, omega arith),
        λ b. from (rw same (omega arith, omega arith)),
      )

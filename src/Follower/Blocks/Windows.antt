-- ===== src/Follower/Blocks/Windows.antt =====
-- The windows of time and slots in which
-- toolkit/mainchain-follower/db-sync-follower/src/block/mod.rs looks for a stable block.
use mathlib.Core.Option
use iagon_network_explorer_n.Prelude.{
  ℕ, ◌-◌, ◌^◌, ◌≤◌, ◌<◌, ◌≡◌, refl, arith, Bool, Bool-cases, inl, inr, true, leb, leb→le, false, ok,
  some_inj, ℤ, pos, negsuc, leb_ℤℕ, leb_ℕℤ, Option, none, some,
}
use iagon_network_explorer_n.Domain.{MainchainBlock}
use iagon_network_explorer_n.MainchainEpoch.{timestamp_to_mainchain_slot_number}
use iagon_network_explorer_n.Follower.Database.{
  BlockRow, Block, mainchain_block, from_row, holds, in_window,
}
use iagon_network_explorer_n.Follower.Blocks.{
  Settings, timestamp_to_db_type, max_allowed_block_time, date_time_to_slot,
}
use iagon_network_explorer_n.Follower.Blocks.Stability.{from_row_inversion, from_row_slot}

-- Settings in the range of the machine words.
pub record IsSmall (s : Settings) : Type 0 where
  pub parameter : s.security_parameter < 2 ^ 31
  pub margin : s.block_stability_margin < 2 ^ 31
  pub slot : s.mainchain_epoch_config.first_slot_number < 2 ^ 63

-- A later time has no smaller slot.
pub date_time_to_slot_mono :
    (s : Settings) (a b : ℕ) {p q : ℕ}
    → IsSmall s
    → b < 2 ^ 63
    → a ≤ b
    → date_time_to_slot s (pos a) ≡ ok p
    → date_time_to_slot s (pos b) ≡ ok q
    → p ≤ q
unfolding date_time_to_slot timestamp_to_mainchain_slot_number
date_time_to_slot_mono s a b small bound le h k = ground arith

pub slot_after :
    (s : Settings) (z : ℤ) (b : ℕ) {p q : ℕ}
    → IsSmall s
    → b < 2 ^ 63
    → leb_ℤℕ z b ≡ true
    → date_time_to_slot s z ≡ ok p
    → date_time_to_slot s (pos b) ≡ ok q
    → p ≤ q
unfolding date_time_to_slot
slot_after s (negsuc a) b small bound le h k = cc
slot_after s (pos a) b small bound le h k =
    date_time_to_slot_mono s a b small bound (leb→le _ _ le) h k

pub slot_before :
    (s : Settings) (t b : ℕ) {p q : ℕ}
    → IsSmall s
    → t < 2 ^ 63
    → leb_ℕℤ b (max_allowed_block_time s t) ≡ true
    → date_time_to_slot s (pos b) ≡ ok p
    → date_time_to_slot s (max_allowed_block_time s t) ≡ ok q
    → p ≤ q
unfolding max_allowed_block_time
slot_before s t b {p} {q} small bound le h k = elim (Bool-cases (leb s.min_slot_boundary t)) [
  | inl e ↦
      date_time_to_slot_mono s b (t - s.min_slot_boundary) small (omega arith)
        (ground (arith, e, le)) h (rw (e, max_allowed_block_time) at k)
  | inr e ↦ ground (arith, e, le)
]

-- The window's end moves with the time.
pub max_allowed_mono :
    (s : Settings) (b t' t : ℕ)
    → t' ≤ t
    → leb_ℕℤ b (max_allowed_block_time s t') ≡ true
    → (b ≤ t') × (leb_ℕℤ b (max_allowed_block_time s t) ≡ true)
unfolding max_allowed_block_time
max_allowed_mono s b t' t le h = ground arith

pub time_order : (z : ℤ) (a b : ℕ) → leb_ℤℕ z a ≡ true → leb_ℤℕ z b ≡ false → b < a
time_order (pos n) a b h k = ground arith
time_order (negsuc n) a b h k = ground arith

pub timestamp_to_db_type-eq-ok :
    (is_datetime : ℕ → Bool) (t : ℕ) {u : ℕ}
    → timestamp_to_db_type is_datetime t ≡ ok u
    → (t ≡ u) × (t < 2 ^ 63)
unfolding timestamp_to_db_type
timestamp_to_db_type-eq-ok is_datetime t h = ground arith

pub mapped :
    (o : Option Block) (m : MainchainBlock)
    → Option.map mainchain_block o ≡ some m
    → (b : Block) × (o ≡ some b) × (mainchain_block b ≡ m)
mapped none m h = cc
mapped (some b) m h = (b, refl, some_inj h)

-- What `in_window` tests of the block of the row.
pub in_window-holds :
    (n : ℕ) (min_time : ℤ) (min_slot : ℕ) (max_time : ℤ) (max_slot : ℕ) (r : BlockRow) (b : Block)
    → from_row r ≡ ok b
    → in_window n min_time min_slot max_time max_slot r ≡ true
    → (b.block_no ≤ n) × (leb_ℤℕ min_time b.time ≡ true) × (leb_ℕℤ b.time max_time ≡ true)
unfolding in_window holds
in_window-holds n min_time min_slot max_time max_slot r b e h =
    let (number, _, time) = from_row_inversion r b e in
    let slot = from_row_slot r b e in ground (arith, rw (number, slot, time, in_window) at h)

pub holds-in_window :
    (n : ℕ) (min_time : ℤ) (min_slot : ℕ) (max_time : ℤ) (max_slot : ℕ) (r : BlockRow) (b : Block)
    → from_row r ≡ ok b
    → b.block_no ≤ n
    → min_slot ≤ b.slot_no
    → b.slot_no ≤ max_slot
    → leb_ℤℕ min_time b.time ≡ true
    → leb_ℕℤ b.time max_time ≡ true
    → in_window n min_time min_slot max_time max_slot r ≡ true
unfolding in_window holds
holds-in_window n min_time min_slot max_time max_slot r b e h₁ h₂ h₃ h₄ h₅ =
    let (number, _, time) = from_row_inversion r b e in
    rw (number, from_row_slot r b e, time, in_window) (ground arith)

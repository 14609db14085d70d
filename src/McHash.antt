-- ===== src/McHash.antt =====
-- toolkit/primitives/sidechain-mc-hash/src/lib.rs: the main chain block that a partner chain block
-- refers to in its digest, chosen by the author and verified by the other nodes.
pub mod Digest
pub mod Verification
use iagon_network_explorer_n.Prelude.{
  ℕ, Bytes, bytes_eq, Result, ok, err, panic, ◌>>=◌, ok_or, map_err, Bool, true, false, ltb, ◌==◌,
  if◌then◌else◌, Option, none, some, List, [], ◌∷◌, length,
}
use iagon_network_explorer_n.Domain.{MainchainBlock}

-- b"mcsh"
abbrev pub mc_hash_digest_id : Bytes
mc_hash_digest_id = 109 ∷ 99 ∷ 115 ∷ 104 ∷ []

-- `DigestItem` of sp_runtime, with the items that the code does not look at as one case.
pub data DigestItem : Type 0 where
  pre_runtime : (id payload : Bytes) → DigestItem
  other_item : Bytes → DigestItem

pub data DigestValueError : Type 0 where
  invalid_mc_hash : Bytes → DigestValueError
  missing_from_digest : DigestValueError

pub data McHashInherentError (E : Type 0) : Type 0 where
  data_source_error : E → McHashInherentError E
  stable_block_not_found : (timestamp : ℕ) → McHashInherentError E
  slot_too_big : McHashInherentError E
  mc_state_reference_invalid : (hash : Bytes) (slot timestamp : ℕ) → McHashInherentError E
  mc_state_reference_regressed :
      (hash : Bytes) (slot number parent_number : ℕ) → McHashInherentError E
  digest_error : DigestValueError → McHashInherentError E

-- `McHashDataSource`, whose state does not change while a block is made or verified.
pub record McHashDataSource (E : Type 0) : Type 0 where
  pub get_latest_stable_block_for : (timestamp : ℕ) → Result E (Option MainchainBlock)
  pub get_stable_block_for : (hash : Bytes) (timestamp : ℕ) → Result E (Option MainchainBlock)

-- `McHashInherentDigest::from_mc_block_hash`
unfoldable pub from_mc_block_hash : Bytes → List DigestItem
from_mc_block_hash mc_block_hash = pre_runtime mc_hash_digest_id mc_block_hash ∷ []

-- `McHashInherentDigest::from_inherent_data`, over what `get_data` finds
unfoldable pub from_inherent_data {ℓ} :
    {E : Type ℓ} → Result E (Option Bytes) → Option (List DigestItem)
unfolding from_mc_block_hash
from_inherent_data (ok (some mc_hash)) = some (from_mc_block_hash mc_hash)
from_inherent_data (ok none) = none
from_inherent_data (err e) = none
from_inherent_data panic = none

-- `McHashInherentDigest::value_from_digest`: the first item with the id decides.
unfoldable pub value_from_digest : List DigestItem → Result DigestValueError Bytes
value_from_digest [] = err missing_from_digest
value_from_digest (other_item b ∷ items) = value_from_digest items
value_from_digest (pre_runtime id payload ∷ items) =
    let rest = value_from_digest items in
    if bytes_eq id mc_hash_digest_id
    then (if length payload == 32 then ok payload else err (invalid_mc_hash payload))
    else rest

-- The header of a block, as far as the code reads it.
pub record Header : Type 0 where
  pub number : ℕ
  pub logs : List DigestItem

pub data DigestLookupError (E : Type 0) : Type 0 where
  client_error : E → DigestLookupError E
  no_header : DigestLookupError E
  value_error : DigestValueError → DigestLookupError E

-- `get_mc_hash_for_block`, over `HeaderBackend::header`. The genesis block has no hash.
unfoldable pub get_mc_hash_for_block {ℓ} :
    {E : Type 0} {Hash : Type ℓ}
    → (Hash → Result E (Option Header))
    → Hash
    → Result (DigestLookupError E) (Option Bytes)
unfolding value_from_digest
get_mc_hash_for_block header block_hash = do
  found ← map_err client_error (header block_hash)
  h ← ok_or found no_header
  (if h.number == 0
      then ok none
      else (do value ← map_err value_error (value_from_digest h.logs); ok (some value)))

-- `slot_timestamp` is `Slot::timestamp` for the slot duration of the chain.
module _ {E : Type 0} (data_source : McHashDataSource E) (slot_timestamp : ℕ → Option ℕ) where
  unfoldable pub get_mc_state_reference : ℕ → Bytes → Result (McHashInherentError E) MainchainBlock
  get_mc_state_reference verified_block_slot verified_block_mc_hash = do
    timestamp ← ok_or (slot_timestamp verified_block_slot) slot_too_big
    found ←
        map_err data_source_error
          (data_source.get_stable_block_for verified_block_mc_hash timestamp)
    ok_or found (mc_state_reference_invalid verified_block_mc_hash verified_block_slot timestamp)

  unfoldable pub new_proposal : ℕ → Result (McHashInherentError E) MainchainBlock
  new_proposal slot = do
    slot_start_timestamp ← ok_or (slot_timestamp slot) slot_too_big
    found ← map_err data_source_error (data_source.get_latest_stable_block_for slot_start_timestamp)
    ok_or found (stable_block_not_found slot_start_timestamp)

  unfoldable pub new_verification :
      List DigestItem → Option ℕ → ℕ → Bytes → Result (McHashInherentError E) MainchainBlock
  unfolding get_mc_state_reference value_from_digest
  new_verification parent_logs none verified_block_slot mc_state_reference_hash =
      get_mc_state_reference verified_block_slot mc_state_reference_hash
  new_verification parent_logs (some parent_slot) verified_block_slot mc_state_reference_hash = do
    block ← get_mc_state_reference verified_block_slot mc_state_reference_hash
    parent_mc_hash ← map_err digest_error (value_from_digest parent_logs)
    parent_block ← get_mc_state_reference parent_slot parent_mc_hash
    (if ltb block.number parent_block.number
        then err (
            mc_state_reference_regressed mc_state_reference_hash verified_block_slot block.number
              parent_block.number)
        else ok block)

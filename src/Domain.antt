-- ===== src/Domain.antt =====
-- toolkit/primitives/domain/src/lib.rs: the data that the components share. A newtype over a number
-- is its number, a newtype over bytes is its list of bytes.
pub mod Datum
pub mod Messages
use iagon_network_explorer_n.Prelude.{
  Bytes, bytes_eq, ℕ, ◌<◌, ◌≡◌, Bool, true, false, ◌&&◌, ltb, ◌==◌, if◌then◌else◌, Option, some,
  none, List, length,
}

pub record UtxoId : Type 0 where
  pub tx_hash : Bytes
  pub index : ℕ

abbrev pub utxo_eq : UtxoId → UtxoId → Bool
utxo_eq u v = bytes_eq u.tx_hash v.tx_hash && (u.index == v.index)

pub record UtxoInfo : Type 0 where
  pub utxo_id : UtxoId
  pub epoch_number : ℕ
  pub block_number : ℕ
  pub slot_number : ℕ
  pub tx_index_within_block : ℕ

pub record UtxoInfoOrderingKey : Type 0 where
  pub block_number : ℕ
  pub tx_index_within_block : ℕ
  pub utxo_id_index : ℕ

abbrev pub ordering_key : UtxoInfo → UtxoInfoOrderingKey
ordering_key i = record {
  block_number = i.block_number;
  tx_index_within_block = i.tx_index_within_block;
  utxo_id_index = i.utxo_id.index;
}

-- The derived `Ord`: the fields in order. `key_lt a b` is `a < b`.
unfoldable pub key_lt : UtxoInfoOrderingKey → UtxoInfoOrderingKey → Bool
key_lt a b =
    if ltb a.block_number b.block_number
    then true
    else (if ltb b.block_number a.block_number
        then false
        else (if ltb a.tx_index_within_block b.tx_index_within_block
            then true
            else (if ltb b.tx_index_within_block a.tx_index_within_block
                then false
                else ltb a.utxo_id_index b.utxo_id_index)))

pub record RegistrationData : Type 0 where
  pub consumed_input : UtxoId
  pub sidechain_signature : Bytes
  pub mainchain_signature : Bytes
  pub cross_chain_signature : Bytes
  pub sidechain_pub_key : Bytes
  pub cross_chain_pub_key : Bytes
  pub utxo_info : UtxoInfo
  pub tx_inputs : List UtxoId
  pub aura_pub_key : Bytes
  pub grandpa_pub_key : Bytes

pub record CandidateRegistrations : Type 0 where
  pub mainchain_pub_key : Bytes
  pub registrations : List RegistrationData
  pub stake_delegation : Option ℕ

pub record DParameter : Type 0 where
  pub num_permissioned_candidates : ℕ
  pub num_registered_candidates : ℕ

pub record PermissionedCandidateData : Type 0 where
  pub sidechain_public_key : Bytes
  pub aura_public_key : Bytes
  pub grandpa_public_key : Bytes

pub record MainchainBlock : Type 0 where
  pub number : ℕ
  pub hash : Bytes
  pub epoch : ℕ
  pub slot : ℕ
  pub timestamp : ℕ

-- `<[u8; n]>::try_from(bytes)`, which `try_into_sr25519` and `try_into_ed25519` use at 32.
unfoldable pub try_array : ℕ → Bytes → Option Bytes
try_array n bytes = if length bytes == n then some bytes else none

abbrev pub try_into_sr25519 : Bytes → Option Bytes
try_into_sr25519 key = try_array 32 key

abbrev pub try_into_ed25519 : Bytes → Option Bytes
try_into_ed25519 key = try_array 32 key

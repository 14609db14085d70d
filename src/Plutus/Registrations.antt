-- ===== src/Plutus/Registrations.antt =====
-- toolkit/primitives/plutus-data/src/registered_candidates.rs
use iagon_network_explorer_n.Prelude.{
  Bytes, err, ok_or, ◌==◌, if◌then◌else◌, Option, none, some, List, [], ◌∷◌,
}
use iagon_network_explorer_n.Domain.{UtxoId, try_array}
use iagon_network_explorer_n.Plutus.{
  PlutusLib, VersionedDatum, invalid_data, invalid_mutable_part, unknown_version, ◌>>=◌, as_u16,
  constr_fields, versioned_generic_datum,
}

pub record AdaBasedStaking : Type 0 where
  pub pub_key : Bytes
  pub signature : Bytes

-- The variant `V0`
pub record RegisterValidatorDatum : Type 0 where
  pub stake_ownership : AdaBasedStaking
  pub sidechain_pub_key : Bytes
  pub sidechain_signature : Bytes
  pub consumed_input : UtxoId
  pub own_pkh : Bytes
  pub aura_pub_key : Bytes
  pub grandpa_pub_key : Bytes

module _ (p : PlutusLib) where
  open p use {PlutusData, as_bytes, new_integer, new_bytes, new_constr}

  -- The `get`s on the fields stand behind a check that there are enough of them.
  unfoldable pub tx_hash_fields : List PlutusData → Option Bytes
  unfolding try_array
  tx_hash_fields [] = none
  tx_hash_fields (hash ∷ _) = do bytes ← as_bytes hash; try_array 32 bytes

  unfoldable pub decode_tx_hash_datum : PlutusData → Option Bytes
  unfolding constr_fields tx_hash_fields
  decode_tx_hash_datum datum = constr_fields p 1 datum >>= tx_hash_fields

  unfoldable pub utxo_id_fields : List PlutusData → Option UtxoId
  unfolding decode_tx_hash_datum as_u16
  utxo_id_fields (hash ∷ number ∷ _) = do
    tx_hash ← decode_tx_hash_datum hash
    index ← as_u16 p number
    some (record { tx_hash = tx_hash; index = index })
  utxo_id_fields _ = none

  unfoldable pub decode_utxo_id_datum : PlutusData → Option UtxoId
  unfolding constr_fields utxo_id_fields
  decode_utxo_id_datum datum = constr_fields p 2 datum >>= utxo_id_fields

  unfoldable pub staking_fields : List PlutusData → Option AdaBasedStaking
  unfolding try_array
  staking_fields (key ∷ sig ∷ _) = do
    bytes ← as_bytes key
    pub_key ← try_array 32 bytes
    signature ← as_bytes sig
    some (record { pub_key = pub_key; signature = signature })
  staking_fields _ = none

  unfoldable pub decode_ada_based_staking_datum : PlutusData → Option AdaBasedStaking
  unfolding constr_fields staking_fields
  decode_ada_based_staking_datum datum = constr_fields p 2 datum >>= staking_fields

  unfoldable pub v0_fields : PlutusData → List PlutusData → Option RegisterValidatorDatum
  unfolding decode_ada_based_staking_datum decode_utxo_id_datum try_array
  v0_fields const_data (staking ∷ sc ∷ sig ∷ input ∷ aura ∷ grandpa ∷ _) = do
    stake_ownership ← decode_ada_based_staking_datum staking
    sidechain_pub_key ← as_bytes sc
    sidechain_signature ← as_bytes sig
    consumed_input ← decode_utxo_id_datum input
    aura_pub_key ← as_bytes aura
    grandpa_pub_key ← as_bytes grandpa
    bytes ← as_bytes const_data
    own_pkh ← try_array 28 bytes
    some (record {
      stake_ownership = stake_ownership;
      sidechain_pub_key = sidechain_pub_key;
      sidechain_signature = sidechain_signature;
      consumed_input = consumed_input;
      own_pkh = own_pkh;
      aura_pub_key = aura_pub_key;
      grandpa_pub_key = grandpa_pub_key;
    })
  v0_fields _ _ = none

  unfoldable pub decode_v0_register_validator_datum :
      (const_data mut_data : PlutusData) → Option RegisterValidatorDatum
  unfolding constr_fields v0_fields
  decode_v0_register_validator_datum const_data mut_data =
      constr_fields p 6 mut_data >>= v0_fields const_data

  unfoldable pub legacy_fields : List PlutusData → Option RegisterValidatorDatum
  unfolding decode_ada_based_staking_datum decode_utxo_id_datum try_array
  legacy_fields (staking ∷ sc ∷ sig ∷ input ∷ pkh ∷ aura ∷ grandpa ∷ _) = do
    stake_ownership ← decode_ada_based_staking_datum staking
    sidechain_pub_key ← as_bytes sc
    sidechain_signature ← as_bytes sig
    consumed_input ← decode_utxo_id_datum input
    bytes ← as_bytes pkh
    own_pkh ← try_array 28 bytes
    aura_pub_key ← as_bytes aura
    grandpa_pub_key ← as_bytes grandpa
    some (record {
      stake_ownership = stake_ownership;
      sidechain_pub_key = sidechain_pub_key;
      sidechain_signature = sidechain_signature;
      consumed_input = consumed_input;
      own_pkh = own_pkh;
      aura_pub_key = aura_pub_key;
      grandpa_pub_key = grandpa_pub_key;
    })
  legacy_fields _ = none

  unfoldable pub decode_legacy_register_validator_datum : PlutusData → Option RegisterValidatorDatum
  unfolding constr_fields legacy_fields
  decode_legacy_register_validator_datum datum = constr_fields p 7 datum >>= legacy_fields

  abbrev pub RegisterValidatorDatums : VersionedDatum p RegisterValidatorDatum
  RegisterValidatorDatums = record {
    decode_legacy = λ datum. ok_or (decode_legacy_register_validator_datum datum) invalid_data;
    decode_versioned = λ version const_data mut_data.
        if version == 0
        then ok_or (decode_v0_register_validator_datum const_data mut_data) invalid_mutable_part
        else err (unknown_version version);
  }

  unfoldable pub stake_ownership_to_plutus_data : AdaBasedStaking → PlutusData
  stake_ownership_to_plutus_data v = new_constr 0 (new_bytes v.pub_key ∷ new_bytes v.signature ∷ [])

  unfoldable pub tx_hash_to_plutus_data : Bytes → PlutusData
  tx_hash_to_plutus_data tx_hash = new_constr 0 (new_bytes tx_hash ∷ [])

  unfoldable pub utxo_id_to_plutus_data : UtxoId → PlutusData
  unfolding tx_hash_to_plutus_data
  utxo_id_to_plutus_data v =
      new_constr 0 (tx_hash_to_plutus_data v.tx_hash ∷ new_integer v.index ∷ [])

  -- `From<RegisterValidatorDatum> for PlutusData`
  unfoldable pub registration_to_plutus_data : RegisterValidatorDatum → PlutusData
  unfolding stake_ownership_to_plutus_data utxo_id_to_plutus_data versioned_generic_datum
  registration_to_plutus_data v =
      let generic_data_fields =
        stake_ownership_to_plutus_data v.stake_ownership
        ∷ new_bytes v.sidechain_pub_key
        ∷ new_bytes v.sidechain_signature
        ∷ utxo_id_to_plutus_data v.consumed_input
        ∷ new_bytes v.aura_pub_key
        ∷ new_bytes v.grandpa_pub_key
        ∷ [] in
      versioned_generic_datum p (new_bytes v.own_pkh) (new_constr 0 generic_data_fields) 0

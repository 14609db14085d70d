-- ===== src/Plutus/RoundTrips.antt =====
-- What toolkit/primitives/plutus-data encodes is decoded to the same data.
use iagon_network_explorer_n.Prelude.{
  ℕ, ◌^◌, ◌<◌, ◌≡◌, refl, arith, Bytes, ok, leb, none, some, true, ◌∙◌, List, [], ◌∷◌, map, length,
  lt→ltb,
}
use iagon_network_explorer_n.Domain.{UtxoId, DParameter, PermissionedCandidateData, try_array}
use iagon_network_explorer_n.Plutus.{
  PlutusLib, VersionedDatum, as_u16, as_u32, constr_fields, plutus_data_version_and_payload,
  version_and_payload, decode, versioned_generic_datum,
}
use iagon_network_explorer_n.Plutus.DParam.{
  two_numbers, decode_legacy_d_param, DParamDatum, d_parameter_to_plutus_data,
}
use iagon_network_explorer_n.Plutus.PermissionedCandidates.{
  three_keys, decode_legacy_candidate_datum, decode_all, decode_legacy_candidates,
  PermissionedCandidateDatums, candidate_to_plutus_data, permissioned_candidates_to_plutus_data,
}
use iagon_network_explorer_n.Plutus.Registrations.{
  AdaBasedStaking, RegisterValidatorDatum, tx_hash_fields, decode_tx_hash_datum, utxo_id_fields,
  decode_utxo_id_datum, staking_fields, decode_ada_based_staking_datum, v0_fields,
  decode_v0_register_validator_datum, RegisterValidatorDatums, stake_ownership_to_plutus_data,
  tx_hash_to_plutus_data, utxo_id_to_plutus_data, registration_to_plutus_data,
}

module _ (p : PlutusLib) where
  open p use {
    PlutusData, as_u64, as_bytes, as_list, new_integer, new_bytes, new_list, new_constr,
    u64_of_integer, bytes_of_bytes, list_of_list, constr_of_constr, u64_of_list, list_of_constr,
  }

  payload-versioned :
      (const_data mut_data : PlutusData)
      → plutus_data_version_and_payload p (versioned_generic_datum p const_data mut_data 0)
        ≡ some (0, const_data, mut_data)
  unfolding plutus_data_version_and_payload version_and_payload as_u32 versioned_generic_datum
  payload-versioned const_data mut_data =
      rw (list_of_list (const_data ∷ mut_data ∷ new_integer 0 ∷ []))
        (rw (u64_of_integer 0 (omega arith)))

  -- A versioned datum is decoded by its version.
  decode-versioned :
      {D : Type 0} (v : VersionedDatum p D) (const_data mut_data : PlutusData)
      → decode p v (versioned_generic_datum p const_data mut_data 0)
        ≡ v.decode_versioned 0 const_data mut_data
  unfolding decode
  decode-versioned v const_data mut_data = rw (payload-versioned const_data mut_data, decode)

  as_u16-new_integer : (n : ℕ) → n < 2 ^ 16 → as_u16 p (new_integer n) ≡ some n
  unfolding as_u16
  as_u16-new_integer n h =
      rw (u64_of_integer n (omega arith))
        (rw (lt→ltb n (2 ^ 32) (omega arith)) (rw (lt→ltb n (2 ^ 16) h)))

  -- The D-parameter is read back from its datum.
  pub decode-d_parameter_to_plutus_data :
      (d : DParameter)
      → d.num_permissioned_candidates < 2 ^ 16
      → d.num_registered_candidates < 2 ^ 16
      → decode p (DParamDatum p) (d_parameter_to_plutus_data p d) ≡ ok d
  unfolding d_parameter_to_plutus_data decode_legacy_d_param two_numbers
  decode-d_parameter_to_plutus_data d h k =
      decode-versioned (DParamDatum p) _ _
      ∙ rw (list_of_list, decode_legacy_d_param)
          (rw (as_u16-new_integer _ h, two_numbers) (rw (as_u16-new_integer _ k)))

  decode-candidate :
      (c : PermissionedCandidateData)
      → decode_legacy_candidate_datum p (candidate_to_plutus_data p c) ≡ some c
  unfolding decode_legacy_candidate_datum three_keys candidate_to_plutus_data
  decode-candidate c =
      rw (list_of_list, decode_legacy_candidate_datum)
        (rw (bytes_of_bytes c.sidechain_public_key, three_keys)
          (rw (bytes_of_bytes c.aura_public_key) (rw (bytes_of_bytes c.grandpa_public_key))))

  decode_all-map :
      (cs : List PermissionedCandidateData)
      → decode_all p (map (candidate_to_plutus_data p) cs) ≡ some cs
  unfolding decode_all
  decode_all-map [] = refl
  decode_all-map (c ∷ cs) = rw (decode-candidate c) (rw (decode_all-map cs))

  legacy-candidates :
      (cs : List PermissionedCandidateData)
      → decode_legacy_candidates p (new_list (map (candidate_to_plutus_data p) cs)) ≡ ok cs
  unfolding decode_legacy_candidates
  legacy-candidates cs = rw (list_of_list, decode_legacy_candidates) (rw (decode_all-map cs))

  decode-permissioned_candidates_to_plutus_data :
      (cs : List PermissionedCandidateData)
      → decode p (PermissionedCandidateDatums p) (permissioned_candidates_to_plutus_data p cs)
        ≡ ok cs
  unfolding permissioned_candidates_to_plutus_data
  decode-permissioned_candidates_to_plutus_data cs =
      decode-versioned (PermissionedCandidateDatums p) _ _ ∙ rw (legacy-candidates cs)

  candidate-not_u32 :
      (c : PermissionedCandidateData) → as_u32 p (candidate_to_plutus_data p c) ≡ none
  unfolding as_u32 candidate_to_plutus_data
  candidate-not_u32 c = rw (u64_of_list, as_u32)

  candidates-not_payload :
      (cs : List PermissionedCandidateData)
      → version_and_payload p (map (candidate_to_plutus_data p) cs) ≡ none
  unfolding version_and_payload
  candidates-not_payload [] = refl
  candidates-not_payload (a ∷ []) = refl
  candidates-not_payload (a ∷ b ∷ []) = refl
  candidates-not_payload (a ∷ b ∷ c ∷ []) = rw (candidate-not_u32 c)
  candidates-not_payload (a ∷ b ∷ c ∷ d ∷ cs) = refl

  candidates-not_versioned :
      (cs : List PermissionedCandidateData)
      → plutus_data_version_and_payload p (new_list (map (candidate_to_plutus_data p) cs)) ≡ none
  unfolding plutus_data_version_and_payload
  candidates-not_versioned cs =
      rw (list_of_list, plutus_data_version_and_payload) (candidates-not_payload cs)

  -- Permissioned candidates are read back from their datum, with a version and in the schema from
  -- before versions, where three candidates make a list of the length of a versioned datum.
  pub decode-permissioned_candidates :
      (cs : List PermissionedCandidateData)
      → (decode p (PermissionedCandidateDatums p) (permissioned_candidates_to_plutus_data p cs)
          ≡ ok cs)
        × (decode p (PermissionedCandidateDatums p) (new_list (map (candidate_to_plutus_data p) cs))
            ≡ ok cs)
  unfolding decode
  decode-permissioned_candidates cs = (
    decode-permissioned_candidates_to_plutus_data cs,
    rw (candidates-not_versioned cs, decode) (legacy-candidates cs),
  )

  -- The byte strings and numbers have the sizes of their types.
  pub record IsSized (v : RegisterValidatorDatum) : Type 0 where
    pub pub_key : length v.stake_ownership.pub_key ≡ 32
    pub tx_hash : length v.consumed_input.tx_hash ≡ 32
    pub index : v.consumed_input.index < 2 ^ 16
    pub own_pkh : length v.own_pkh ≡ 28

  try_array_sized : (n : ℕ) (b : Bytes) → length b ≡ n → try_array n b ≡ some b
  unfolding try_array
  try_array_sized n b h = ground arith

  fields-new_constr :
      (k : ℕ) (l : List PlutusData)
      → leb k (length l) ≡ true
      → constr_fields p k (new_constr 0 l) ≡ some l
  unfolding constr_fields
  fields-new_constr k l h = rw (constr_of_constr, constr_fields) (rw h)

  decode-staking :
      (v : AdaBasedStaking)
      → length v.pub_key ≡ 32
      → decode_ada_based_staking_datum p (stake_ownership_to_plutus_data p v) ≡ some v
  unfolding decode_ada_based_staking_datum staking_fields stake_ownership_to_plutus_data
  decode-staking v h =
      rw (fields-new_constr 2 (new_bytes v.pub_key ∷ new_bytes v.signature ∷ []) refl) (
        rw (bytes_of_bytes v.pub_key, staking_fields)
          (rw (try_array_sized 32 v.pub_key h) (rw (bytes_of_bytes v.signature))))

  decode-utxo_id :
      (v : UtxoId)
      → length v.tx_hash ≡ 32
      → v.index < 2 ^ 16
      → decode_utxo_id_datum p (utxo_id_to_plutus_data p v) ≡ some v
  unfolding decode_utxo_id_datum utxo_id_fields decode_tx_hash_datum tx_hash_fields
      utxo_id_to_plutus_data tx_hash_to_plutus_data
  decode-utxo_id v h k =
      rw (fields-new_constr 2 (tx_hash_to_plutus_data p v.tx_hash ∷ new_integer v.index ∷ []) refl)
        (rw (fields-new_constr 1 (new_bytes v.tx_hash ∷ []) refl) (
          rw (bytes_of_bytes v.tx_hash, tx_hash_fields)
            (rw (try_array_sized 32 v.tx_hash h) (rw (as_u16-new_integer v.index k)))))

  -- A registration whose byte strings and numbers have the sizes of their types is read back from
  -- its datum.
  pub decode-registration_to_plutus_data :
      (v : RegisterValidatorDatum)
      → IsSized v
      → decode p (RegisterValidatorDatums p) (registration_to_plutus_data p v) ≡ ok v
  unfolding registration_to_plutus_data decode_v0_register_validator_datum v0_fields
  decode-registration_to_plutus_data v h =
      decode-versioned (RegisterValidatorDatums p) _ _
      ∙ rw (fields-new_constr 6 _ refl, decode_v0_register_validator_datum)
          (rw (
            decode-staking v.stake_ownership h.pub_key,
            bytes_of_bytes v.sidechain_pub_key,
            bytes_of_bytes v.sidechain_signature,
            decode-utxo_id v.consumed_input h.tx_hash h.index,
            bytes_of_bytes v.aura_pub_key,
            bytes_of_bytes v.grandpa_pub_key,
            bytes_of_bytes v.own_pkh,
            try_array_sized 28 v.own_pkh h.own_pkh,
          ))

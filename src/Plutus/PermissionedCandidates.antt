-- ===== src/Plutus/PermissionedCandidates.antt =====
-- toolkit/primitives/plutus-data/src/permissioned_candidates.rs
use iagon_network_explorer_n.Prelude.{
  Result, err, map_err, ok_or, ◌==◌, if◌then◌else◌, Option, none, some, List, [], ◌∷◌, map,
}
use iagon_network_explorer_n.Domain.{PermissionedCandidateData}
use iagon_network_explorer_n.Plutus.{
  PlutusLib, VersionedDatum, DecodingError, invalid_data, invalid_mutable_part, unknown_version,
  ◌>>=◌, versioned_generic_datum,
}

-- `PermissionedCandidateDatumV0` has the fields of `PermissionedCandidateData`.
module _ (p : PlutusLib) where
  open p use {PlutusData, as_bytes, as_list, new_bytes, new_list, new_constr}

  unfoldable pub three_keys : List PlutusData → Option PermissionedCandidateData
  three_keys (sc_datum ∷ aura_datum ∷ grandpa_datum ∷ []) = do
    sc ← as_bytes sc_datum
    aura ← as_bytes aura_datum
    grandpa ← as_bytes grandpa_datum
    some
        (record { sidechain_public_key = sc; aura_public_key = aura; grandpa_public_key = grandpa })
  three_keys _ = none

  unfoldable pub decode_legacy_candidate_datum : PlutusData → Option PermissionedCandidateData
  unfolding three_keys
  decode_legacy_candidate_datum datum = as_list datum >>= three_keys

  -- `collect` into an option: one failure fails all.
  unfoldable pub decode_all : List PlutusData → Option (List PermissionedCandidateData)
  unfolding decode_legacy_candidate_datum
  decode_all [] = some []
  decode_all (datum ∷ datums) = do
    candidate ← decode_legacy_candidate_datum datum
    candidates ← decode_all datums
    some (candidate ∷ candidates)

  unfoldable pub decode_legacy_candidates :
      PlutusData → Result DecodingError (List PermissionedCandidateData)
  unfolding decode_all
  decode_legacy_candidates datum = ok_or (as_list datum >>= decode_all) invalid_data

  abbrev pub PermissionedCandidateDatums : VersionedDatum p (List PermissionedCandidateData)
  PermissionedCandidateDatums = record {
    decode_legacy = decode_legacy_candidates;
    decode_versioned = λ version const_data mut_data.
        if version == 0
        then map_err (λ _. invalid_mutable_part) (decode_legacy_candidates mut_data)
        else err (unknown_version version);
  }

  unfoldable pub candidate_to_plutus_data : PermissionedCandidateData → PlutusData
  candidate_to_plutus_data candidate = new_list (
      new_bytes candidate.sidechain_public_key
      ∷ new_bytes candidate.aura_public_key
      ∷ new_bytes candidate.grandpa_public_key
      ∷ [])

  unfoldable pub permissioned_candidates_to_plutus_data :
      List PermissionedCandidateData → PlutusData
  unfolding candidate_to_plutus_data versioned_generic_datum
  permissioned_candidates_to_plutus_data candidates =
      versioned_generic_datum p (new_constr 0 [])
        (new_list (map candidate_to_plutus_data candidates)) 0

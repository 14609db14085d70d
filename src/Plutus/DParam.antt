-- ===== src/Plutus/DParam.antt =====
-- toolkit/primitives/plutus-data/src/d_param.rs
use iagon_network_explorer_n.Prelude.{
  Result, err, map_err, ok_or, ◌==◌, if◌then◌else◌, Option, none, some, List, [], ◌∷◌,
}
use iagon_network_explorer_n.Domain.{DParameter}
use iagon_network_explorer_n.Plutus.{
  PlutusLib, VersionedDatum, DecodingError, invalid_data, invalid_mutable_part, unknown_version,
  ◌>>=◌, as_u16, versioned_generic_datum,
}

-- `DParamDatum::V0` has the fields of `DParameter`.
module _ (p : PlutusLib) where
  open p use {PlutusData, as_list, new_integer, new_list, new_constr}

  unfoldable pub two_numbers : List PlutusData → Option DParameter
  unfolding as_u16
  two_numbers (permissioned ∷ registered ∷ []) = do
    num_permissioned_candidates ← as_u16 p permissioned
    num_registered_candidates ← as_u16 p registered
    some (record {
      num_permissioned_candidates = num_permissioned_candidates;
      num_registered_candidates = num_registered_candidates;
    })
  two_numbers _ = none

  unfoldable pub decode_legacy_d_param : PlutusData → Result DecodingError DParameter
  unfolding two_numbers
  decode_legacy_d_param datum = ok_or (as_list datum >>= two_numbers) invalid_data

  abbrev pub DParamDatum : VersionedDatum p DParameter
  DParamDatum = record {
    decode_legacy = decode_legacy_d_param;
    decode_versioned = λ version const_data mut_data.
        if version == 0
        then map_err (λ _. invalid_mutable_part) (decode_legacy_d_param mut_data)
        else err (unknown_version version);
  }

  unfoldable pub d_parameter_to_plutus_data : DParameter → PlutusData
  unfolding versioned_generic_datum
  d_parameter_to_plutus_data d_param =
      let list =
        new_integer d_param.num_permissioned_candidates
        ∷ new_integer d_param.num_registered_candidates
        ∷ [] in
      versioned_generic_datum p (new_constr 0 []) (new_list list) 0

-- ===== src/Plutus/VersionOracle.antt =====
-- toolkit/primitives/plutus-data/src/version_oracle.rs
use iagon_network_explorer_n.Prelude.{
  ℕ, ◌<◌, ◌^◌, ◌≡◌, arith, Bytes, Result, ok, ok_or, Option, none, some, List, [], ◌∷◌, length,
  lt→ltb,
}
use iagon_network_explorer_n.Domain.{try_array}
use iagon_network_explorer_n.Plutus.{PlutusLib, DecodingError, invalid_data, ◌>>=◌, as_u32}

pub record VersionOracleDatum : Type 0 where
  pub version_oracle : ℕ
  pub currency_symbol : Bytes

module _ (p : PlutusLib) where
  open p use {
    PlutusData, as_bytes, as_list, new_integer, new_bytes, new_list, u64_of_integer, bytes_of_bytes,
    list_of_list,
  }

  unfoldable pub version_oracle_fields : List PlutusData → Option VersionOracleDatum
  unfolding as_u32 try_array
  version_oracle_fields (version ∷ symbol ∷ []) = do
    version_oracle ← as_u32 p version
    bytes ← as_bytes symbol
    currency_symbol ← try_array 28 bytes
    some (record { version_oracle = version_oracle; currency_symbol = currency_symbol })
  version_oracle_fields _ = none

  -- `TryFrom<PlutusData>`
  unfoldable pub decode_version_oracle : PlutusData → Result DecodingError VersionOracleDatum
  unfolding version_oracle_fields
  decode_version_oracle datum = ok_or (as_list datum >>= version_oracle_fields) invalid_data

  -- `From<VersionOracleDatum> for PlutusData`
  unfoldable pub version_oracle_to_plutus_data : VersionOracleDatum → PlutusData
  version_oracle_to_plutus_data datum =
      new_list (new_integer datum.version_oracle ∷ new_bytes datum.currency_symbol ∷ [])

  -- A version oracle is read back from its datum.
  pub decode_version_oracle-version_oracle_to_plutus_data :
      (v : VersionOracleDatum)
      → v.version_oracle < 2 ^ 32
      → length v.currency_symbol ≡ 28
      → decode_version_oracle (version_oracle_to_plutus_data v) ≡ ok v
  unfolding decode_version_oracle version_oracle_fields version_oracle_to_plutus_data as_u32
      try_array
  decode_version_oracle-version_oracle_to_plutus_data v small sized =
      rw (list_of_list, decode_version_oracle)
        (rw (u64_of_integer v.version_oracle (omega arith), version_oracle_fields)
          (rw (lt→ltb v.version_oracle (2 ^ 32) small)
            (rw (bytes_of_bytes v.currency_symbol) (ground arith))))

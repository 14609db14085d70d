-- ===== src/Plutus.antt =====
-- toolkit/primitives/plutus-data/src/lib.rs: the data of the main chain scripts, decoded from and
-- encoded to Plutus data, with a version or in the schema from before versions.
pub mod DParam
pub mod PermissionedCandidates
pub mod Registrations
pub mod VersionOracle
pub mod RoundTrips
use iagon_network_explorer_n.Prelude.{
  ℕ, ◌^◌, ◌<◌, ◌≡◌, Bytes, Result, ok, err, panic, map_err, Bool, ltb, leb, ◌==◌, if◌then◌else◌,
  Option, none, some, List, [], ◌∷◌, length,
}

-- What the code uses of `PlutusData` of cardano_serialization_lib. `as_u64` is
-- `as_integer()?.as_u64()`, and a `ConstrPlutusData` is its alternative and its fields.
pub record PlutusLib : Type 1 where
  pub PlutusData : Type 0
  pub as_u64 : PlutusData → Option ℕ
  pub as_bytes : PlutusData → Option Bytes
  pub as_list : PlutusData → Option (List PlutusData)
  pub as_constr : PlutusData → Option (ℕ × List PlutusData)
  pub new_integer : ℕ → PlutusData
  pub new_bytes : Bytes → PlutusData
  pub new_list : List PlutusData → PlutusData
  pub new_constr : ℕ → List PlutusData → PlutusData
  -- Each accessor reads what its constructor has built, and no integer is read of a list.
  pub u64_of_integer : (n : ℕ) → n < 2 ^ 64 → as_u64 (new_integer n) ≡ some n
  pub bytes_of_bytes : (b : Bytes) → as_bytes (new_bytes b) ≡ some b
  pub list_of_list : (l : List PlutusData) → as_list (new_list l) ≡ some l
  pub constr_of_constr : (n : ℕ) (l : List PlutusData) → as_constr (new_constr n l) ≡ some (n, l)
  pub u64_of_list : (l : List PlutusData) → as_u64 (new_list l) ≡ none
  pub list_of_constr : (n : ℕ) (l : List PlutusData) → as_list (new_constr n l) ≡ none

infixl 5 ◌>>=◌
abbrev pub ◌>>=◌ {ℓ κ} : {A : Type ℓ} {B : Type κ} → Option A → (A → Option B) → Option B
none >>= next = none
some a >>= next = next a

-- `filter`, as a step of a chain of options
abbrev pub check : Bool → Option (Unit {0})
check b = if b then some tt else none

infixl 5 ◌>>◌
abbrev pub ◌>>◌ {ℓ} : {B : Type ℓ} → Option (Unit {0}) → Option B → Option B
m >> next = m >>= λ _. next

pub data DecodingError : Type 0 where
  invalid_data : DecodingError
  invalid_mutable_part : DecodingError
  unknown_version : ℕ → DecodingError

module _ (p : PlutusLib) where
  open p use {PlutusData, as_u64, as_list, as_constr, new_integer, new_list}

  unfoldable pub as_u32 : PlutusData → Option ℕ
  as_u32 datum = do n ← as_u64 datum; check (ltb n (2 ^ 32)); some n

  unfoldable pub as_u16 : PlutusData → Option ℕ
  unfolding as_u32
  as_u16 datum = do n ← as_u32 datum; check (ltb n (2 ^ 16)); some n

  -- The fields of constructor 0, if there are `n` of them or more.
  unfoldable pub constr_fields : ℕ → PlutusData → Option (List PlutusData)
  constr_fields n datum = do
    (alternative, fields) ← as_constr datum
    check (alternative == 0)
    check (leb n (length fields))
    some fields

  -- The trait `VersionedDatum`
  pub record VersionedDatum (D : Type 0) : Type 0 where
    pub decode_legacy : PlutusData → Result DecodingError D
    pub decode_versioned : (version : ℕ) (const_data mut_data : PlutusData) → Result DecodingError D

  unfoldable pub version_and_payload : List PlutusData → Option (ℕ × PlutusData × PlutusData)
  unfolding as_u32
  version_and_payload (const_data ∷ mut_data ∷ version ∷ []) = do
    n ← as_u32 version
    some (n, const_data, mut_data)
  version_and_payload _ = none

  unfoldable pub plutus_data_version_and_payload : PlutusData → Option (ℕ × PlutusData × PlutusData)
  unfolding version_and_payload
  plutus_data_version_and_payload datum = do fields ← as_list datum; version_and_payload fields

  unfoldable pub decode : {D : Type 0} → VersionedDatum D → PlutusData → Result DecodingError D
  unfolding plutus_data_version_and_payload
  decode v datum = elim (plutus_data_version_and_payload datum) [
    | none ↦ v.decode_legacy datum
    | some (version, const_payload, mut_payload) ↦
        v.decode_versioned version const_payload mut_payload
  ]

  -- `From<VersionedGenericDatumShape> for PlutusData`
  unfoldable pub versioned_generic_datum :
      (datum generic_data : PlutusData) (version : ℕ) → PlutusData
  versioned_generic_datum datum generic_data version =
      new_list (datum ∷ generic_data ∷ new_integer version ∷ [])

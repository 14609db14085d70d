-- ===== src/Examples/PlutusExamples.antt =====
-- Runs of toolkit/primitives/plutus-data, over Plutus data whose lists are chains of pairs.
use iagon_network_explorer_n.Prelude.{
  ℕ, ◌≡◌, refl, arith, Bytes, ok, Option, none, some, List, [], ◌∷◌, map,
}
use iagon_network_explorer_n.Domain.{PermissionedCandidateData}
use iagon_network_explorer_n.Plutus.{PlutusLib, decode}
use iagon_network_explorer_n.Plutus.PermissionedCandidates.{
  PermissionedCandidateDatums, candidate_to_plutus_data, permissioned_candidates_to_plutus_data,
}
use iagon_network_explorer_n.Plutus.Registrations.{
  RegisterValidatorDatum, RegisterValidatorDatums, registration_to_plutus_data,
}
use iagon_network_explorer_n.Plutus.RoundTrips.{
  decode-permissioned_candidates, decode-registration_to_plutus_data,
}
use iagon_network_explorer_n.Examples.Fixtures.{bytes}

pub data Datum : Type 0 where
  integer : ℕ → Datum
  byte_string : Bytes → Datum
  empty : Datum
  pair : Datum → Datum → Datum
  alternative : ℕ → Datum → Datum

abbrev pub list_datum : List Datum → Datum
list_datum [] = empty
list_datum (d ∷ ds) = pair d (list_datum ds)

abbrev pub fields : Datum → List Datum
fields (integer n) = []
fields (byte_string b) = []
fields empty = []
fields (pair d ds) = d ∷ fields ds
fields (alternative n ds) = []

abbrev pub as_u64 : Datum → Option ℕ
as_u64 (integer n) = some n
as_u64 (byte_string b) = none
as_u64 empty = none
as_u64 (pair d ds) = none
as_u64 (alternative n ds) = none

abbrev pub as_bytes : Datum → Option Bytes
as_bytes (integer n) = none
as_bytes (byte_string b) = some b
as_bytes empty = none
as_bytes (pair d ds) = none
as_bytes (alternative n ds) = none

abbrev pub as_list : Datum → Option (List Datum)
as_list (integer n) = none
as_list (byte_string b) = none
as_list empty = some []
as_list (pair d ds) = some (d ∷ fields ds)
as_list (alternative n ds) = none

abbrev pub as_constr : Datum → Option (ℕ × List Datum)
as_constr (integer n) = none
as_constr (byte_string b) = none
as_constr empty = none
as_constr (pair d ds) = none
as_constr (alternative n ds) = some (n, fields ds)

pub fields-list_datum : (ds : List Datum) → fields (list_datum ds) ≡ ds
fields-list_datum [] = refl
fields-list_datum (d ∷ ds) = rw (fields-list_datum ds)

pub as_list-list_datum : (ds : List Datum) → as_list (list_datum ds) ≡ some ds
as_list-list_datum [] = refl
as_list-list_datum (d ∷ ds) = rw (fields-list_datum ds)

pub as_u64-list_datum : (ds : List Datum) → as_u64 (list_datum ds) ≡ none
as_u64-list_datum [] = refl
as_u64-list_datum (d ∷ ds) = refl

abbrev pub pairs : PlutusLib
pairs = record {
  PlutusData = Datum;
  as_u64 = as_u64;
  as_bytes = as_bytes;
  as_list = as_list;
  as_constr = as_constr;
  new_integer = integer;
  new_bytes = byte_string;
  new_list = list_datum;
  new_constr = λ n ds. alternative n (list_datum ds);
  u64_of_integer = λ n h. refl;
  bytes_of_bytes = λ b. refl;
  list_of_list = as_list-list_datum;
  constr_of_constr = λ n ds. rw (fields-list_datum ds);
  u64_of_list = as_u64-list_datum;
  list_of_constr = λ n ds. refl;
}

abbrev candidate : ℕ → PermissionedCandidateData
candidate n = record {
  sidechain_public_key = bytes 33 n;
  aura_public_key = bytes 32 n;
  grandpa_public_key = bytes 32 n;
}

-- As many as a versioned datum has items.
abbrev candidates : List PermissionedCandidateData
candidates = candidate 1 ∷ candidate 2 ∷ candidate 3 ∷ []

decode-permissioned_candidates_example :
    (decode pairs
        (PermissionedCandidateDatums pairs)
        (permissioned_candidates_to_plutus_data pairs candidates)
      ≡ ok candidates)
    × (decode pairs
          (PermissionedCandidateDatums pairs)
          (list_datum (map (candidate_to_plutus_data pairs) candidates))
        ≡ ok candidates)
decode-permissioned_candidates_example = decode-permissioned_candidates pairs candidates

abbrev pub registration : RegisterValidatorDatum
registration = record {
  stake_ownership = record { pub_key = bytes 32 1; signature = bytes 64 2 };
  sidechain_pub_key = bytes 33 3;
  sidechain_signature = bytes 64 4;
  consumed_input = record { tx_hash = bytes 32 5; index = 1 };
  own_pkh = bytes 28 6;
  aura_pub_key = bytes 32 7;
  grandpa_pub_key = bytes 32 8;
}

decode-registration_to_plutus_data_example :
    decode pairs (RegisterValidatorDatums pairs) (registration_to_plutus_data pairs registration)
    ≡ ok registration
decode-registration_to_plutus_data_example =
    decode-registration_to_plutus_data pairs registration
      (record { pub_key = refl; tx_hash = refl; index = omega arith; own_pkh = refl })

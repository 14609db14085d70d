-- ===== src/Candidates.antt =====
-- toolkit/primitives/authority-selection-inherents/src/filter_invalid_candidates.rs: which
-- candidates for the committee are valid. The signature schemes, the CBOR bytes of a datum and the
-- runtime's account types are interfaces.
pub mod Interfaces
pub mod Validity
pub mod Max
pub mod Latest
pub mod Filters
use Interfaces.{Crypto, Accounts}
use iagon_network_explorer_n.Prelude.{
  ℕ, Bytes, Result, ok, err, panic, ◌>>=◌, ◌>>◌, ok_or, ensure, Bool, true, false, not, ◌||◌, ◌==◌,
  if◌then◌else◌, Option, none, some, List, [], ◌∷◌, ◌++◌,
}
use iagon_network_explorer_n.Domain.{
  UtxoId, utxo_eq, UtxoInfo, UtxoInfoOrderingKey, ordering_key, key_lt, RegistrationData,
  CandidateRegistrations, PermissionedCandidateData, try_array, try_into_sr25519, try_into_ed25519,
}
use iagon_network_explorer_n.Domain.Messages.{RegisterValidatorSignedMessage, message_to_datum}

pub data StakeError : Type 0 where
  invalid_stake unknown_stake : StakeError

pub data RegistrationDataError : Type 0 where
  invalid_mainchain_signature invalid_sidechain_signature invalid_tx_input : RegistrationDataError
  invalid_mainchain_pub_key invalid_sidechain_pub_key : RegistrationDataError
  invalid_aura_key invalid_grandpa_key : RegistrationDataError

pub data PermissionedCandidateDataError : Type 0 where
  invalid_sidechain_pub_key invalid_aura_key invalid_grandpa_key : PermissionedCandidateDataError

pub record Candidate {ℓ κ} (AccountId : Type ℓ) (AccountKeys : Type κ) : Type (ℓ ⊔ κ) where
  pub account_id : AccountId
  pub account_keys : AccountKeys

pub record CandidateWithStake {ℓ κ} (AccountId : Type ℓ) (AccountKeys : Type κ) : Type (ℓ ⊔ κ) where
  pub candidate : Candidate AccountId AccountKeys
  pub stake_delegation : ℕ

unfoldable pub validate_stake : Option ℕ → Result StakeError ℕ
validate_stake none = err unknown_stake
validate_stake (some stake) = if stake == 0 then err invalid_stake else ok stake

-- `tx_inputs.contains(consumed_input)`
unfoldable pub contains_utxo : List UtxoId → UtxoId → Bool
contains_utxo [] u = false
contains_utxo (v ∷ vs) u = utxo_eq v u || contains_utxo vs u

unfoldable pub verify_tx_inputs : RegistrationData → Result RegistrationDataError (Unit {0})
unfolding contains_utxo
verify_tx_inputs d = ensure (contains_utxo d.tx_inputs d.consumed_input) invalid_tx_input

abbrev pub signed_message : RegistrationData → UtxoId → RegisterValidatorSignedMessage
signed_message d genesis_utxo = record {
  genesis_utxo = genesis_utxo;
  sidechain_pub_key = d.sidechain_pub_key;
  input_utxo = d.consumed_input;
}

module _ (k : Crypto) where
  open k use {ed25519_verify, ecdsa_verify, to_cbor}

  unfoldable pub verify_mainchain_signature :
      Bytes → RegistrationData → Bytes → Result RegistrationDataError (Unit {0})
  unfolding try_array
  verify_mainchain_signature mainchain_pub_key d signed_message_encoded = do
    signature ← ok_or (try_array 64 d.mainchain_signature) invalid_mainchain_signature
    ensure (ed25519_verify signature signed_message_encoded mainchain_pub_key)
        invalid_mainchain_signature

  -- The signature carries no recovery byte: `NEGATIVE_POINT_SIGN` (27) and then
  -- `POSITIVE_POINT_SIGN` (28) are tried.
  unfoldable pub verify_sidechain_signature :
      Bytes → Bytes → Bytes → Result RegistrationDataError (Unit {0})
  unfolding try_array
  verify_sidechain_signature pub_key signature signed_message_encoded = do
    sidechain_signature ← ok_or (try_array 64 signature) invalid_sidechain_signature
    ensure
        (ecdsa_verify (sidechain_signature ++ 27 ∷ []) signed_message_encoded pub_key
          || ecdsa_verify (sidechain_signature ++ 28 ∷ []) signed_message_encoded pub_key)
        invalid_sidechain_signature

  -- The candidate under the key types of sp_core: its ECDSA key, with the Aura and Grandpa keys.
  unfoldable pub validate_registration_data :
      Bytes
      → RegistrationData
      → UtxoId
      → Result RegistrationDataError (Candidate Bytes (Bytes × Bytes))
  unfolding try_array verify_mainchain_signature verify_sidechain_signature verify_tx_inputs
  validate_registration_data mainchain_pub_key d genesis_utxo = do
    aura_pub_key ← ok_or (try_into_sr25519 d.aura_pub_key) invalid_aura_key
    grandpa_pub_key ← ok_or (try_into_ed25519 d.grandpa_pub_key) invalid_grandpa_key
    sidechain_pub_key ← ok_or (try_array 33 d.sidechain_pub_key) invalid_sidechain_pub_key
    let signed_message_encoded = to_cbor (message_to_datum (signed_message d genesis_utxo))
    verify_mainchain_signature mainchain_pub_key d signed_message_encoded
    verify_sidechain_signature sidechain_pub_key d.sidechain_signature signed_message_encoded
    verify_tx_inputs d
    ok (record { account_id = sidechain_pub_key; account_keys = (aura_pub_key, grandpa_pub_key) })

  -- The valid registrations, each with its `utxo_info`.
  unfoldable pub valid_registrations :
      Bytes → UtxoId → List RegistrationData → List (Candidate Bytes (Bytes × Bytes) × UtxoInfo)
  valid_registrations mainchain_pub_key genesis_utxo [] = []
  valid_registrations mainchain_pub_key genesis_utxo (d ∷ ds) =
      let rest = valid_registrations mainchain_pub_key genesis_utxo ds in
      elim (validate_registration_data mainchain_pub_key d genesis_utxo) [
        | ok candidate ↦ (candidate, d.utxo_info) ∷ rest
        | _ ↦ rest
      ]

-- `max_by_key`: of equal keys the last one is kept.
module _ {ℓ} {A : Type ℓ} where
  unfoldable pub max_from : A × UtxoInfo → List (A × UtxoInfo) → A × UtxoInfo
  max_from best [] = best
  max_from best (c ∷ cs) =
      max_from (if key_lt (ordering_key c.1) (ordering_key best.1) then best else c) cs

  unfoldable pub max_by_key : List (A × UtxoInfo) → Option (A × UtxoInfo)
  unfolding max_from
  max_by_key [] = none
  max_by_key (c ∷ cs) = some (max_from c cs)

module _ (k : Crypto) (t : Accounts) where
  open t use {AccountId, AccountKeys, id_of_ecdsa, id_of_sidechain_key, keys_of}

  unfoldable pub select_latest_valid_candidate :
      CandidateRegistrations → UtxoId → Option (CandidateWithStake AccountId AccountKeys)
  unfolding validate_stake valid_registrations max_by_key
  select_latest_valid_candidate c genesis_utxo = elim (validate_stake c.stake_delegation) [
    | ok stake ↦
        elim (max_by_key (valid_registrations k c.mainchain_pub_key genesis_utxo c.registrations)) [
          | none ↦ none
          | some (data', _) ↦ some (record {
            candidate = record {
              account_id = id_of_ecdsa data'.account_id;
              account_keys = keys_of data'.account_keys;
            };
            stake_delegation = stake;
          })
        ]
    | _ ↦ none
  ]

  unfoldable pub filter_trustless_candidates_registrations :
      List CandidateRegistrations → UtxoId → List (CandidateWithStake AccountId AccountKeys)
  filter_trustless_candidates_registrations [] genesis_utxo = []
  filter_trustless_candidates_registrations (c ∷ cs) genesis_utxo =
      let rest = filter_trustless_candidates_registrations cs genesis_utxo in
      elim (select_latest_valid_candidate c genesis_utxo) [ none ↦ rest | some v ↦ v ∷ rest ]

  unfoldable pub validate_permissioned_candidate_data :
      PermissionedCandidateData → Result PermissionedCandidateDataError (AccountId × Bytes × Bytes)
  unfolding try_array
  validate_permissioned_candidate_data c = do
    account_id ←
        ok_or (id_of_sidechain_key c.sidechain_public_key)
          PermissionedCandidateDataError.invalid_sidechain_pub_key
    aura_key ←
        ok_or (try_into_sr25519 c.aura_public_key) PermissionedCandidateDataError.invalid_aura_key
    grandpa_key ←
        ok_or (try_into_ed25519 c.grandpa_public_key)
          PermissionedCandidateDataError.invalid_grandpa_key
    ok (account_id, aura_key, grandpa_key)

  unfoldable pub filter_invalid_permissioned_candidates :
      List PermissionedCandidateData → List (Candidate AccountId AccountKeys)
  unfolding validate_permissioned_candidate_data
  filter_invalid_permissioned_candidates [] = []
  filter_invalid_permissioned_candidates (c ∷ cs) =
      let rest = filter_invalid_permissioned_candidates cs in
      elim (validate_permissioned_candidate_data c) [
        | ok (account_id, aura_key, grandpa_key) ↦
            record { account_id = account_id; account_keys = keys_of (aura_key, grandpa_key) }
            ∷ rest
        | _ ↦ rest
      ]

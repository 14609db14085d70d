-- ===== src/Examples/CandidateExamples.antt =====
-- Runs of the filters of
-- toolkit/primitives/authority-selection-inherents/src/filter_invalid_candidates.rs.
use iagon_network_explorer_n.Prelude.{
  ℕ, Bytes, bytes_eq, ◌≡◌, ◌↔◌, ◌⊎◌, ◌<◌, refl, ok, some, none, [], ◌∷◌, All,
}
use iagon_network_explorer_n.Domain.{RegistrationData}
use iagon_network_explorer_n.Candidates.{
  CandidateWithStake, validate_registration_data, select_latest_valid_candidate,
}
use iagon_network_explorer_n.Candidates.Validity.{
  IsValidRegistration, candidate_of, validate_registration_data_iff,
}
use iagon_network_explorer_n.Candidates.Latest.{
  Accepted, IsLatest, select_latest_valid_candidate-IsLatest, select_latest_valid_candidate-none,
}
use iagon_network_explorer_n.Examples.Fixtures.{
  bytes, echo_crypto, numbered_accounts, genesis_utxo, registration, registered, unstaked,
}

validate_registration_data_iff_example :
    (validate_registration_data echo_crypto (bytes 32 3) registration genesis_utxo
      ≡ ok (candidate_of echo_crypto registration))
    ↔ (IsValidRegistration echo_crypto (bytes 32 3) registration genesis_utxo
        × (candidate_of echo_crypto registration ≡ candidate_of echo_crypto registration))
validate_registration_data_iff_example =
    validate_registration_data_iff echo_crypto (bytes 32 3) registration genesis_utxo
      (candidate_of echo_crypto registration)

abbrev selected : CandidateWithStake ℕ (Bytes × Bytes)
selected = record {
  candidate = record { account_id = 2; account_keys = (bytes 32 4, bytes 32 5) };
  stake_delegation = 1000;
}

select_latest_valid_candidate-IsLatest_example :
    (d : RegistrationData) × IsLatest
      (Accepted echo_crypto (bytes 32 3) genesis_utxo)
      (registration ∷ [])
      d
    × (selected.candidate.account_id ≡ numbered_accounts.id_of_ecdsa d.sidechain_pub_key)
    × (selected.candidate.account_keys ≡ (d.aura_pub_key, d.grandpa_pub_key))
    × (registered.stake_delegation ≡ some selected.stake_delegation)
    × (0 < selected.stake_delegation)
unfolding select_latest_valid_candidate validate_registration_data bytes_eq
select_latest_valid_candidate-IsLatest_example =
    select_latest_valid_candidate-IsLatest echo_crypto numbered_accounts registered genesis_utxo
      selected refl

select_latest_valid_candidate-none_example :
    (unstaked.stake_delegation ≡ none)
    ⊎ (unstaked.stake_delegation ≡ some 0)
    ⊎ All (λ d. ¬ Accepted echo_crypto (bytes 32 3) genesis_utxo d) (registration ∷ [])
unfolding select_latest_valid_candidate
select_latest_valid_candidate-none_example =
    select_latest_valid_candidate-none echo_crypto numbered_accounts unstaked genesis_utxo refl

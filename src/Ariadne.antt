-- ===== src/Ariadne.antt =====
-- toolkit/primitives/authority-selection-inherents/src/authority_selection_inputs.rs and
-- ariadne_inherent_data_provider.rs: what the selection of a committee takes from the main chain,
-- and the inherent data that brings it to the runtime.
pub mod Provided
use iagon_network_explorer_n.Prelude.{
  ℕ, Bytes, bytes_eq, Exec, Result, ok, err, panic, ◌>>=◌, ok_or, map_err, Bool, true, false, ltb,
  ◌==◌, if◌then◌else◌, Option, none, some, List, [], map, unwrap_or,
}
use iagon_network_explorer_n.Domain.{DParameter, PermissionedCandidateData, CandidateRegistrations}
use iagon_network_explorer_n.MainchainEpoch.{
  MainchainEpochConfig, EpochDerivationError, timestamp_to_mainchain_epoch,
}
use iagon_network_explorer_n.Slots.{ScSlotConfig, epoch_number, epoch_start_time}
use iagon_network_explorer_n.Authorities.{AuthoritySelectionInputs}
use iagon_network_explorer_n.ValidatorManagement.Types.{MainChainScripts, InherentData}

-- `RawPermissionedCandidateData` has the fields of `PermissionedCandidateData`.
pub record AriadneParameters : Type 0 where
  pub d_parameter : DParameter
  pub permissioned_candidates : List PermissionedCandidateData

-- The trait `AuthoritySelectionDataSource`, at a state of the main chain
pub record AuthoritySelectionDataSource (E : Type 0) : Type 0 where
  pub get_ariadne_parameters :
      (epoch_number : ℕ) (d_parameter permissioned_candidates : Bytes) → Result E AriadneParameters
  pub get_candidates :
      (epoch : ℕ) (committee_candidate_address : Bytes) → Result E (List CandidateRegistrations)
  pub get_epoch_nonce : (epoch : ℕ) → Result E (Option Bytes)
  pub data_epoch : (for_epoch : ℕ) → Result E ℕ

pub data AuthoritySelectionInputsCreationError (E : Type 0) : Type 0 where
  ariadne_parameters_query :
      (epoch : ℕ) (d_parameter permissioned_candidates : Bytes)
      → E
      → AuthoritySelectionInputsCreationError E
  get_candidates_query : (epoch : ℕ) (address : Bytes) → E → AuthoritySelectionInputsCreationError E
  get_epoch_nonce_query : (epoch : ℕ) → E → AuthoritySelectionInputsCreationError E

pub data InherentProviderCreationError (E : Type 0) : Type 0 where
  slot_too_big : InherentProviderCreationError E
  mc_epoch_derivation_error : EpochDerivationError → InherentProviderCreationError E
  api_error : E → InherentProviderCreationError E
  inputs_creation_error : AuthoritySelectionInputsCreationError E → InherentProviderCreationError E
  data_source_error : E → InherentProviderCreationError E

-- The runtime API at the parent block
pub record RuntimeApi (E : Type 0) : Type 0 where
  pub get_next_unset_epoch_number : Result E ℕ
  pub get_main_chain_scripts : Result E MainChainScripts

module _ {E : Type 0} (source : AuthoritySelectionDataSource E) where
  -- `AuthoritySelectionInputs::from_mc_data`
  unfoldable pub inputs_from_mc_data :
      ℕ
      → MainChainScripts
      → Result (AuthoritySelectionInputsCreationError E) AuthoritySelectionInputs
  inputs_from_mc_data for_epoch scripts = do
    ariadne_parameters_response ←
        map_err
          (ariadne_parameters_query for_epoch scripts.d_parameter_policy_id
            scripts.permissioned_candidates_policy_id)
          (source.get_ariadne_parameters for_epoch scripts.d_parameter_policy_id
            scripts.permissioned_candidates_policy_id)
    registered_candidates ←
        map_err (get_candidates_query for_epoch scripts.committee_candidate_address)
          (source.get_candidates for_epoch scripts.committee_candidate_address)
    epoch_nonce_response ←
        map_err (get_epoch_nonce_query for_epoch) (source.get_epoch_nonce for_epoch)
    ok (record {
      d_parameter = ariadne_parameters_response.d_parameter;
      permissioned_candidates = ariadne_parameters_response.permissioned_candidates;
      registered_candidates = registered_candidates;
      epoch_nonce = unwrap_or epoch_nonce_response [];
    })

  -- `AriadneInherentDataProvider::from_mc_data`, if the data is there at the reference
  unfoldable pub provided_inputs :
      ℕ
      → MainChainScripts
      → Bool
      → Result (InherentProviderCreationError E) (Option AuthoritySelectionInputs)
  unfolding inputs_from_mc_data
  provided_inputs for_epoch scripts false = ok none
  provided_inputs for_epoch scripts true = do
    inputs ← map_err inputs_creation_error (inputs_from_mc_data for_epoch scripts)
    ok (some inputs)

-- A call that may panic, among calls that may fail.
unfoldable pub lift_exec {ℓ} : {E : Type 0} {A : Type ℓ} → Exec A → Result E A
lift_exec (ok a) = ok a
lift_exec (err e) = absurd e
lift_exec panic = panic

module _ {E : Type 0} (slot_timestamp : ℕ → ℕ → Option ℕ) (sc_slot_config : ScSlotConfig)
    (epoch_config : MainchainEpochConfig) where
  unfoldable pub sc_epoch_to_mc_epoch : ℕ → Result (InherentProviderCreationError E) ℕ
  sc_epoch_to_mc_epoch sc_epoch = do
    timestamp ← ok_or (epoch_start_time slot_timestamp sc_slot_config sc_epoch) slot_too_big
    map_err mc_epoch_derivation_error (timestamp_to_mainchain_epoch epoch_config timestamp)

  -- The first block after genesis asks for the epoch of its own slot.
  unfoldable pub for_sc_epoch_number : ℕ → ℕ → Result (InherentProviderCreationError E) ℕ
  unfolding lift_exec
  for_sc_epoch_number slot next_unset_epoch =
      if next_unset_epoch == 1
      then lift_exec (epoch_number slot sc_slot_config.slots_per_epoch)
      else ok next_unset_epoch

  unfoldable pub mc_epoch_for_next_ariadne_cidp :
      RuntimeApi E → ℕ → Result (InherentProviderCreationError E) ℕ
  unfolding for_sc_epoch_number sc_epoch_to_mc_epoch
  mc_epoch_for_next_ariadne_cidp api slot = do
    next_unset_epoch ← map_err api_error api.get_next_unset_epoch_number
    sc_epoch ← for_sc_epoch_number slot next_unset_epoch
    sc_epoch_to_mc_epoch sc_epoch

  -- `AriadneInherentDataProvider::new`: its `data`
  unfoldable pub new :
      RuntimeApi E
      → ℕ
      → AuthoritySelectionDataSource E
      → ℕ
      → Result (InherentProviderCreationError E) (Option AuthoritySelectionInputs)
  unfolding mc_epoch_for_next_ariadne_cidp provided_inputs
  new api slot candidate_data_source mc_reference_epoch = do
    for_mc_epoch ← mc_epoch_for_next_ariadne_cidp api slot
    data_epoch ← map_err data_source_error (candidate_data_source.data_epoch for_mc_epoch)
    scripts ← map_err api_error api.get_main_chain_scripts
    provided_inputs candidate_data_source for_mc_epoch scripts (ltb data_epoch mc_reference_epoch)

-- `provide_inherent_data`, as the inherent data that the pallet then finds.
unfoldable pub provide_inherent_data :
    Option AuthoritySelectionInputs → InherentData AuthoritySelectionInputs
provide_inherent_data inputs = ok inputs

-- ===== src/ValidatorManagement.antt =====
-- toolkit/pallets/session-validator-management/src/lib.rs: the pallet that stores the committee of
-- the current epoch and, from an inherent, the one of the next.
pub mod Types
pub mod Interfaces
pub mod Inherents
use iagon_network_explorer_n.Prelude.{
  ℕ, ◌+◌, Bytes, Exec, Result, ok, err, panic, ◌>>=◌, ◌>>◌, ensure, unwrap_or, u64, Bool, true,
  false, ◌&&◌, not, ◌==◌, if◌then◌else◌, Option, none, some, List, [], ◌∷◌, map, take, get_elem?,
}
use iagon_network_explorer_n.ValidatorManagement.Interfaces.{Config}
unfoldable pub use Types.{ensure_none, ensure_root, is_some}
pub use Types.{
  Origin, root_origin, signed_origin, none_origin, DispatchError, bad_origin, invalid_epoch,
  unnecessary_set_call, InherentError, invalid_validators,
  committee_needs_to_be_stored_one_epoch_in_advance, MainChainScripts, CommitteeInfo, Storage, Call,
  set_call, set_main_chain_scripts_call, InherentData,
}

module _ (c : Config) where
  open c use {AuthorityId, AuthorityKeys, AccountId, AuthoritySelectionInputs, into, same}

  -- `GenesisConfig::build`
  unfoldable pub build :
      List (AuthorityId × AuthorityKeys) → MainChainScripts → Storage AuthorityId AuthorityKeys
  build initial_authorities main_chain_scripts = record {
    current_committee = record { epoch = 0; committee = take c.max_validators initial_authorities };
    next_committee_value = none;
    main_chain_scripts_configuration = main_chain_scripts;
  }

  unfoldable pub on_initialize :
      ℕ → ℕ → Storage AuthorityId AuthorityKeys → Storage AuthorityId AuthorityKeys
  on_initialize block_nr current_epoch_number s =
      if block_nr == 1
      then record s {
        current_committee = record {
          epoch = current_epoch_number;
          committee = s.current_committee.committee;
        };
      }
      else s

  unfoldable pub inherent_data_to_authority_selection_inputs :
      InherentData AuthoritySelectionInputs → Exec AuthoritySelectionInputs
  inherent_data_to_authority_selection_inputs (ok (some input)) = ok input
  inherent_data_to_authority_selection_inputs (ok none) = panic
  inherent_data_to_authority_selection_inputs (err e) = panic
  inherent_data_to_authority_selection_inputs panic = panic

  unfoldable pub calculate_committee_from_inherent_data :
      InherentData AuthoritySelectionInputs → ℕ → Exec (Option (List (AuthorityId × AuthorityKeys)))
  unfolding inherent_data_to_authority_selection_inputs
  calculate_committee_from_inherent_data inherent_data epoch_number = do
    authority_selection_inputs ← inherent_data_to_authority_selection_inputs inherent_data
    c.select_authorities authority_selection_inputs epoch_number

  unfoldable pub create_inherent :
      Storage AuthorityId AuthorityKeys
      → InherentData AuthoritySelectionInputs
      → Exec (Option (Call AuthorityId AuthorityKeys))
  unfolding is_some calculate_committee_from_inherent_data
  create_inherent s inherent_data = if is_some s.next_committee_value then ok none else (do
    let for_epoch_number = u64 (s.current_committee.epoch + 1)
    calculated ← calculate_committee_from_inherent_data inherent_data for_epoch_number
    ok (elim calculated [
      | some validators ↦ some (set_call validators for_epoch_number)
      | none ↦ some (set_call s.current_committee.committee for_epoch_number)
    ]))

  -- `==` on the validators
  unfoldable pub validators_eq :
      List (AuthorityId × AuthorityKeys) → List (AuthorityId × AuthorityKeys) → Bool
  validators_eq [] [] = true
  validators_eq [] (y ∷ ys) = false
  validators_eq (x ∷ xs) [] = false
  validators_eq (x ∷ xs) (y ∷ ys) = same x y && validators_eq xs ys

  -- The committee of the next epoch, or of the current one before the first `set`.
  unfoldable pub committee_to_keep :
      Storage AuthorityId AuthorityKeys → List (AuthorityId × AuthorityKeys)
  committee_to_keep s = elim s.next_committee_value [
    | some committee_info ↦ committee_info.committee
    | none ↦ s.current_committee.committee
  ]

  unfoldable pub check_inherent :
      Storage AuthorityId AuthorityKeys
      → Call AuthorityId AuthorityKeys
      → InherentData AuthoritySelectionInputs
      → Result InherentError (Unit {0})
  unfolding validators_eq committee_to_keep calculate_committee_from_inherent_data
  check_inherent s (set_main_chain_scripts_call scripts) inherent_data = ok tt
  check_inherent s (set_call validators for_epoch_number) inherent_data =
      elim (calculate_committee_from_inherent_data inherent_data for_epoch_number) [
        | ok calculated ↦
            let expected = unwrap_or calculated (committee_to_keep s) in
            if not (validators_eq validators expected) then err invalid_validators else ok tt
        | err e ↦ absurd e
        | panic ↦ panic
      ]

  unfoldable pub is_inherent : Call AuthorityId AuthorityKeys → Bool
  is_inherent (set_call validators for_epoch_number) = true
  is_inherent (set_main_chain_scripts_call scripts) = false

  unfoldable pub is_inherent_required : Storage AuthorityId AuthorityKeys → Option InherentError
  unfolding is_some
  is_inherent_required s =
      if not (is_some s.next_committee_value)
      then some committee_needs_to_be_stored_one_epoch_in_advance
      else none

  unfoldable pub set :
      Origin
      → List (AuthorityId × AuthorityKeys)
      → ℕ
      → Storage AuthorityId AuthorityKeys
      → Result DispatchError (Storage AuthorityId AuthorityKeys)
  unfolding ensure_none
  set origin validators for_epoch_number s = do
    ensure_none origin
    let expected_epoch_number = u64 (s.current_committee.epoch + 1)
    ensure (for_epoch_number == expected_epoch_number) invalid_epoch
    ok (record s {
      next_committee_value = some (record { epoch = for_epoch_number; committee = validators });
    })

  unfoldable pub set_main_chain_scripts :
      Origin
      → MainChainScripts
      → Storage AuthorityId AuthorityKeys
      → Result DispatchError (Storage AuthorityId AuthorityKeys)
  unfolding ensure_root
  set_main_chain_scripts origin new_scripts s = do
    ensure_root origin
    ok (record s { main_chain_scripts_configuration = new_scripts })

  unfoldable pub dispatch :
      Origin
      → Call AuthorityId AuthorityKeys
      → Storage AuthorityId AuthorityKeys
      → Result DispatchError (Storage AuthorityId AuthorityKeys)
  unfolding set set_main_chain_scripts
  dispatch origin (set_call validators for_epoch_number) s =
      set origin validators for_epoch_number s
  dispatch origin (set_main_chain_scripts_call scripts) s = set_main_chain_scripts origin scripts s

  unfoldable pub get_next_unset_epoch_number : Storage AuthorityId AuthorityKeys → ℕ
  get_next_unset_epoch_number s = elim s.next_committee_value [
    | some next_committee ↦ u64 (next_committee.epoch + 1)
    | none ↦ u64 (s.current_committee.epoch + 1)
  ]

  unfoldable pub get_current_authority : Storage AuthorityId AuthorityKeys → ℕ → Option AuthorityId
  get_current_authority s index = elim (get_elem? s.current_committee.committee index) [
    | some authority ↦ some authority.0
    | none ↦ none
  ]

  unfoldable pub next_committee : Storage AuthorityId AuthorityKeys → Option (List AuthorityId)
  next_committee s = elim s.next_committee_value [
    | some info ↦ some (take c.max_validators (map (λ v. v.0) info.committee))
    | none ↦ none
  ]

  -- `calculate_committee`
  unfoldable pub calculate_committee :
      AuthoritySelectionInputs → ℕ → Exec (Option (List (AuthorityId × AuthorityKeys)))
  calculate_committee authority_selection_inputs sidechain_epoch =
      c.select_authorities authority_selection_inputs sidechain_epoch

  unfoldable pub rotate_committee_to_next_epoch :
      Storage AuthorityId AuthorityKeys
      → Option (List (AccountId × AuthorityKeys)) × Storage AuthorityId AuthorityKeys
  rotate_committee_to_next_epoch s = elim s.next_committee_value [
    | none ↦ (none, s)
    | some next ↦ (
      some (map (λ v. (into v.0, v.1)) next.committee),
      record s { current_committee = next; next_committee_value = none },
    )
  ]

  unfoldable pub get_current_committee : Storage AuthorityId AuthorityKeys → ℕ × List AuthorityId
  get_current_committee s =
      (s.current_committee.epoch, map (λ v. v.0) s.current_committee.committee)

  unfoldable pub get_next_committee :
      Storage AuthorityId AuthorityKeys → Option (ℕ × List AuthorityId)
  get_next_committee s = elim s.next_committee_value [
    | some info ↦ some (info.epoch, map (λ v. v.0) info.committee)
    | none ↦ none
  ]

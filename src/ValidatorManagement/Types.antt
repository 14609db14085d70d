-- ===== src/ValidatorManagement/Types.antt =====
-- The data of toolkit/pallets/session-validator-management/src/lib.rs and of
-- toolkit/primitives/session-validator-management/src/lib.rs: storage, calls, origins and errors.
use iagon_network_explorer_n.Prelude.{
  ℕ, Bytes, Result, ok, err, Bool, true, false, Option, none, some, List,
}

pub data Origin : Type 0 where
  root_origin : Origin
  signed_origin : Origin
  none_origin : Origin

pub data DispatchError : Type 0 where
  bad_origin : DispatchError
  invalid_epoch : DispatchError
  unnecessary_set_call : DispatchError

pub data InherentError : Type 0 where
  invalid_validators : InherentError
  committee_needs_to_be_stored_one_epoch_in_advance : InherentError

pub record MainChainScripts : Type 0 where
  pub committee_candidate_address : Bytes
  pub d_parameter_policy_id : Bytes
  pub permissioned_candidates_policy_id : Bytes

pub record CommitteeInfo (AuthorityId AuthorityKeys : Type 0) : Type 0 where
  pub epoch : ℕ
  pub committee : List (AuthorityId × AuthorityKeys)

unfoldable pub ensure_none : Origin → Result DispatchError (Unit {0})
ensure_none none_origin = ok tt
ensure_none root_origin = err bad_origin
ensure_none signed_origin = err bad_origin

unfoldable pub ensure_root : Origin → Result DispatchError (Unit {0})
ensure_root root_origin = ok tt
ensure_root none_origin = err bad_origin
ensure_root signed_origin = err bad_origin

pub record Storage (AuthorityId AuthorityKeys : Type 0) : Type 0 where
  pub current_committee : CommitteeInfo AuthorityId AuthorityKeys
  pub next_committee_value : Option (CommitteeInfo AuthorityId AuthorityKeys)
  pub main_chain_scripts_configuration : MainChainScripts

pub data Call (AuthorityId AuthorityKeys : Type 0) : Type 0 where
  set_call :
      (validators : List (AuthorityId × AuthorityKeys)) (for_epoch_number : ℕ)
      → Call AuthorityId AuthorityKeys
  set_main_chain_scripts_call : MainChainScripts → Call AuthorityId AuthorityKeys

-- What `InherentData::get_data` finds under the pallet's identifier.
abbrev pub InherentData : Type 0 → Type 0
InherentData I = Result (Unit {0}) (Option I)

unfoldable pub is_some {ℓ} : {A : Type ℓ} → Option A → Bool
is_some none = false
is_some (some a) = true

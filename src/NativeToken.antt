-- ===== src/NativeToken.antt =====
-- toolkit/pallets/native-token-management/src/lib.rs and
-- toolkit/primitives/native-token-management/src/lib.rs: the transfers of the native token that are
-- observed on the main chain and handled on the partner chain.
pub mod Provider
pub mod Inherents
pub mod Accounting
use iagon_network_explorer_n.Prelude.{
  ℕ, Bytes, Exec, Result, ok, err, panic, ◌>>=◌, ◌>>◌, expect, Bool, true, false, not, ltb, ◌==◌,
  if◌then◌else◌, Option, none, some,
}
use iagon_network_explorer_n.ValidatorManagement.{
  Origin, ensure_none, ensure_root, DispatchError, InherentData, is_some,
}

pub record MainChainScripts : Type 0 where
  pub native_token_policy_id : Bytes
  pub native_token_asset_name : Bytes
  pub illiquid_supply_validator_address : Bytes

pub record TokenTransferData : Type 0 where
  pub token_amount : ℕ

pub data InherentError : Type 0 where
  token_transfer_not_handled : ℕ → InherentError
  incorrect_token_number_transfered : (expected actual : ℕ) → InherentError
  unexpected_token_transfer_inherent : ℕ → InherentError

pub record Storage : Type 0 where
  pub main_chain_scripts_configuration : Option MainChainScripts
  pub initialized_value : Bool

pub data Call : Type 0 where
  transfer_tokens_call : (token_amount : ℕ) → Call
  set_main_chain_scripts_call : MainChainScripts → Call

-- `GenesisConfig::build`
unfoldable pub build : MainChainScripts → Storage
build main_chain_scripts = record {
  main_chain_scripts_configuration = some main_chain_scripts;
  initialized_value = false;
}

unfoldable pub get_transfered_tokens_from_inherent_data :
    InherentData TokenTransferData → Exec (Option TokenTransferData)
get_transfered_tokens_from_inherent_data (ok found) = ok found
get_transfered_tokens_from_inherent_data (err e) = panic
get_transfered_tokens_from_inherent_data panic = panic

-- `filter(|data| data.token_amount.0 > 0)`
unfoldable pub filter_positive : Option TokenTransferData → Option TokenTransferData
filter_positive none = none
filter_positive (some transfer) = if ltb 0 transfer.token_amount then some transfer else none

unfoldable pub create_inherent : InherentData TokenTransferData → Exec (Option Call)
unfolding get_transfered_tokens_from_inherent_data filter_positive
create_inherent inherent_data = do
  found ← get_transfered_tokens_from_inherent_data inherent_data
  ok (elim (filter_positive found) [
    | some transfer ↦ some (transfer_tokens_call transfer.token_amount)
    | none ↦ none
  ])

unfoldable pub compare_transfer : ℕ → Option TokenTransferData → Result InherentError (Unit {0})
compare_transfer actual_transfer none = err (unexpected_token_transfer_inherent actual_transfer)
compare_transfer actual_transfer (some transfer) =
    if not (transfer.token_amount == actual_transfer)
    then err (incorrect_token_number_transfered transfer.token_amount actual_transfer)
    else ok tt

unfoldable pub check_inherent :
    Call → InherentData TokenTransferData → Result InherentError (Unit {0})
unfolding compare_transfer get_transfered_tokens_from_inherent_data
check_inherent (set_main_chain_scripts_call scripts) inherent_data = ok tt
check_inherent (transfer_tokens_call actual_transfer) inherent_data =
    elim (get_transfered_tokens_from_inherent_data inherent_data) [
      | ok found ↦ compare_transfer actual_transfer found
      | err e ↦ absurd e
      | panic ↦ panic
    ]

unfoldable pub is_inherent : Call → Bool
is_inherent (transfer_tokens_call token_amount) = true
is_inherent (set_main_chain_scripts_call scripts) = false

unfoldable pub is_inherent_required : InherentData TokenTransferData → Exec (Option InherentError)
unfolding get_transfered_tokens_from_inherent_data filter_positive
is_inherent_required inherent_data = do
  found ← get_transfered_tokens_from_inherent_data inherent_data
  ok (elim (filter_positive found) [
    | some transfer ↦ some (token_transfer_not_handled transfer.token_amount)
    | none ↦ none
  ])

-- `handle_token_transfer` is the runtime's `TokenTransferHandler`, on a state of its own.
unfoldable pub transfer_tokens {ℓ} :
    {W : Type ℓ}
    → (ℕ → W → Result DispatchError W)
    → Origin
    → ℕ
    → Storage × W
    → Result DispatchError (Storage × W)
unfolding ensure_none is_some
transfer_tokens handle_token_transfer origin token_amount (s, w) = do
  ensure_none origin
  (if not (is_some s.main_chain_scripts_configuration) then panic else (do
    let s' = record s { initialized_value = true }
    w' ← handle_token_transfer token_amount w
    ok (s', w')))

unfoldable pub set_main_chain_scripts :
    Origin → MainChainScripts → Storage → Result DispatchError Storage
unfolding ensure_root
set_main_chain_scripts origin new_scripts s = do
  ensure_root origin
  ok (record s { main_chain_scripts_configuration = some new_scripts })

unfoldable pub get_main_chain_scripts : Storage → Option MainChainScripts
get_main_chain_scripts s = s.main_chain_scripts_configuration

unfoldable pub initialized : Storage → Bool
initialized s = s.initialized_value

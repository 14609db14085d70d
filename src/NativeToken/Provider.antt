-- ===== src/NativeToken/Provider.antt =====
-- The inherent data provider of toolkit/primitives/native-token-management/src/lib.rs.
use iagon_network_explorer_n.Prelude.{
  ℕ, Bytes, Result, ok, ◌>>=◌, map_err, Bool, ltb, if◌then◌else◌, Option, none, some,
}
use iagon_network_explorer_n.ValidatorManagement.{InherentData}
use iagon_network_explorer_n.NativeToken.{MainChainScripts, TokenTransferData}

pub data IdpCreationError (E : Type 0) : Type 0 where
  data_source_error : E → IdpCreationError E
  api_error : E → IdpCreationError E
  mc_hash_error : E → IdpCreationError E

-- What the provider asks of the client at the parent block: whether the runtime has the API of the
-- pallet, its two functions, and `get_mc_hash_for_block`; and the data source.
pub record Environment (E : Type 0) : Type 0 where
  pub has_api : Result E Bool
  pub get_main_chain_scripts : Result E (Option MainChainScripts)
  pub initialized : Result E Bool
  pub get_mc_hash_for_block : Result E (Option Bytes)
  pub get_total_native_token_transfer :
      (after_block : Option Bytes) (to_block policy_id asset_name address : Bytes) → Result E ℕ

module _ {E : Type 0} (e : Environment E) where
  -- The hash to count from: that of the parent, once the pallet is initialized.
  unfoldable pub parent_mc_hash : Bool → Result (IdpCreationError E) (Option Bytes)
  parent_mc_hash is_initialized =
      if is_initialized then map_err mc_hash_error e.get_mc_hash_for_block else ok none

  unfoldable pub new_from_scripts :
      Bytes → Option MainChainScripts → Result (IdpCreationError E) (Option ℕ)
  unfolding parent_mc_hash
  new_from_scripts mc_hash none = ok none
  new_from_scripts mc_hash (some scripts) = do
    is_initialized ← map_err api_error e.initialized
    after_block ← parent_mc_hash is_initialized
    token_amount ← map_err data_source_error (
        e.get_total_native_token_transfer after_block mc_hash scripts.native_token_policy_id
          scripts.native_token_asset_name scripts.illiquid_supply_validator_address)
    ok (if ltb 0 token_amount then some token_amount else none)

  -- `NativeTokenManagementInherentDataProvider::new`: its `token_amount`
  unfoldable pub new : Bytes → Result (IdpCreationError E) (Option ℕ)
  unfolding new_from_scripts
  new mc_hash = do
    scripts ← map_err api_error e.get_main_chain_scripts
    new_from_scripts mc_hash scripts

  unfoldable pub new_if_pallet_present : Bytes → Result (IdpCreationError E) (Option ℕ)
  unfolding new
  new_if_pallet_present mc_hash = do
    present ← map_err api_error e.has_api
    (if present then new mc_hash else ok none)

-- `provide_inherent_data`, as the inherent data that the pallet then finds.
unfoldable pub provide_inherent_data : Option ℕ → InherentData TokenTransferData
provide_inherent_data none = ok none
provide_inherent_data (some token_amount) = ok (some (record { token_amount = token_amount }))

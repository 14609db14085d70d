-- ===== src/Offchain.antt =====
-- toolkit/offchain/src/csl.rs: conversion of unspent outputs of Ogmios, and the balancing of a
-- transaction with as much collateral as it needs. The types and methods of
-- cardano_serialization_lib are an interface; the text of an error is left out.
pub mod Collateral
use iagon_network_explorer_n.Prelude.{
  ℕ, zero, suc, ◌^◌, ltb, Bytes, ℤ, pos, negsuc, Result, ok, err, panic, ◌>>=◌, map_err, Bool,
  if◌then◌else◌, List, [], ◌∷◌, ◌++◌, take,
}

pub data NetworkIdKind : Type 0 where
  mainnet : NetworkIdKind
  testnet : NetworkIdKind

-- An asset of a policy; the amount is an `i128`.
pub record Asset : Type 0 where
  pub name : Bytes
  pub amount : ℤ

-- The map of the native tokens, in the order of its iterator.
pub record OgmiosValue : Type 0 where
  pub lovelace : ℕ
  pub native_tokens : List (Bytes × List Asset)

pub record OgmiosUtxo : Type 0 where
  pub transaction_id : Bytes
  pub index : ℕ
  pub address : Bytes
  pub value : OgmiosValue

-- What the code uses of cardano_serialization_lib.
pub record TransactionLib : Type 1 where
  pub JsError : Type 0
  pub Address : Type 0
  pub AssetName : Type 0
  pub Assets : Type 0
  pub MultiAsset : Type 0
  pub Value : Type 0
  pub TransactionInput : Type 0
  pub TransactionOutput : Type 0
  pub TransactionUnspentOutput : Type 0
  pub TxInputsBuilder : Type 0
  pub TransactionBuilder : Type 0
  pub Transaction : Type 0
  pub KeyHash : Type 0
  pub Costmdls : Type 0
  pub amount_too_large : JsError
  pub invalid_asset_name : JsError → JsError
  pub invalid_address : JsError → JsError
  pub could_not_balance : JsError → JsError
  pub enterprise_address : ℕ → KeyHash → Address
  pub from_bech32 : Bytes → Result JsError Address
  pub new_asset_name : Bytes → Result JsError AssetName
  pub new_assets : Assets
  pub insert_asset : AssetName → ℕ → Assets → Assets
  pub new_multiasset : MultiAsset
  pub insert_assets : Bytes → Assets → MultiAsset → MultiAsset
  pub new_value : ℕ → Value
  pub new_with_assets : ℕ → MultiAsset → Value
  pub new_input : Bytes → ℕ → TransactionInput
  pub new_output : Address → Value → TransactionOutput
  pub new_unspent_output : TransactionInput → TransactionOutput → TransactionUnspentOutput
  pub new_inputs_builder : TxInputsBuilder
  pub add_regular_input :
      Address → TransactionInput → Value → TxInputsBuilder → Result JsError TxInputsBuilder
  pub add_required_signer : KeyHash → TransactionBuilder → TransactionBuilder
  pub set_collateral : TxInputsBuilder → TransactionBuilder → TransactionBuilder
  pub set_script_data_hash : Bytes → TransactionBuilder → TransactionBuilder
  pub add_inputs_from_and_change :
      List TransactionUnspentOutput
      → Address
      → TransactionBuilder
      → Result JsError TransactionBuilder
  pub add_inputs_from_and_change_with_collateral_return :
      List TransactionUnspentOutput
      → Address
      → ℕ
      → TransactionBuilder
      → Result JsError TransactionBuilder
  pub calc_script_data_hash : Costmdls → TransactionBuilder → Result JsError TransactionBuilder
  pub build_tx : TransactionBuilder → Result JsError Transaction

unfoldable pub network_id_kind_to_u8 : NetworkIdKind → ℕ
network_id_kind_to_u8 mainnet = 1
network_id_kind_to_u8 testnet = 0

-- `sort_by` on the lovelace, the largest first; it is stable.
unfoldable pub insert_largest : OgmiosUtxo → List OgmiosUtxo → List OgmiosUtxo
insert_largest u [] = u ∷ []
insert_largest u (v ∷ vs) =
    let rest = insert_largest u vs in
    if ltb u.value.lovelace v.value.lovelace then v ∷ rest else u ∷ v ∷ vs

unfoldable pub sort_largest : List OgmiosUtxo → List OgmiosUtxo
unfolding insert_largest
sort_largest [] = []
sort_largest (u ∷ us) = insert_largest u (sort_largest us)

-- The loop over the collaterals: what an attempt returns, or one more input is selected.
unfoldable pub try_collaterals :
    {E T : Type 0}
    → (List OgmiosUtxo → Result E T)
    → (E → E)
    → (inputs selected : List OgmiosUtxo) → Result E T
try_collaterals attempt could_not [] selected = map_err could_not (attempt selected)
try_collaterals attempt could_not (input ∷ inputs) selected = elim (attempt selected) [
  | ok tx ↦ ok tx
  | err _ ↦ try_collaterals attempt could_not inputs (selected ++ input ∷ [])
  | panic ↦ panic
]

-- The amount of an asset as `u64`
unfoldable pub asset_amount : {E : Type 0} → E → ℤ → Result E ℕ
asset_amount too_large (negsuc n) = err too_large
asset_amount too_large (pos n) = if ltb n (2 ^ 64) then ok n else err too_large

unfoldable pub zeros : ℕ → Bytes
zeros zero = []
zeros (suc n) = 0 ∷ zeros n

module _ (l : TransactionLib) where
  open l use {
    JsError, Address, Assets, MultiAsset, Value, TransactionInput, TransactionOutput,
    TransactionUnspentOutput, TxInputsBuilder, TransactionBuilder, Transaction, KeyHash, Costmdls,
  }

  -- `TransactionContext`: the hash of its key, and the cost models after their conversion.
  pub record TransactionContext : Type 0 where
    pub payment_key_hash : KeyHash
    pub payment_key_utxos : List OgmiosUtxo
    pub network : NetworkIdKind
    pub max_collateral_inputs : ℕ
    pub collateral_percentage : ℕ
    pub plutus_cost_models : Costmdls

  unfoldable pub key_hash_address : KeyHash → NetworkIdKind → Address
  unfolding network_id_kind_to_u8
  key_hash_address key network = l.enterprise_address (network_id_kind_to_u8 network) key

  unfoldable pub convert_assets : List Asset → Assets → Result JsError Assets
  unfolding asset_amount
  convert_assets [] assets = ok assets
  convert_assets (a ∷ more) assets = do
    amount ← asset_amount l.amount_too_large a.amount
    name ← map_err l.invalid_asset_name (l.new_asset_name a.name)
    convert_assets more (l.insert_asset name amount assets)

  unfoldable pub convert_tokens : List (Bytes × List Asset) → MultiAsset → Result JsError MultiAsset
  unfolding convert_assets
  convert_tokens [] multiasset = ok multiasset
  convert_tokens ((policy_id, assets) ∷ tokens) multiasset = do
    csl_assets ← convert_assets assets l.new_assets
    convert_tokens tokens (l.insert_assets policy_id csl_assets multiasset)

  unfoldable pub convert_tokens_value :
      (lovelace : ℕ) (native_tokens : List (Bytes × List Asset)) → Result JsError Value
  unfolding convert_tokens
  convert_tokens_value lovelace [] = ok (l.new_value lovelace)
  convert_tokens_value lovelace (t ∷ ts) = do
    multiasset ← convert_tokens (t ∷ ts) l.new_multiasset
    ok (l.new_with_assets lovelace multiasset)

  unfoldable pub convert_value : OgmiosValue → Result JsError Value
  unfolding convert_tokens_value
  convert_value value = convert_tokens_value value.lovelace value.native_tokens

  unfoldable pub to_csl_tx_input : OgmiosUtxo → TransactionInput
  to_csl_tx_input utxo = l.new_input utxo.transaction_id utxo.index

  unfoldable pub to_csl_tx_output : OgmiosUtxo → Result JsError TransactionOutput
  unfolding convert_value
  to_csl_tx_output utxo = do
    address ← map_err l.invalid_address (l.from_bech32 utxo.address)
    value ← convert_value utxo.value
    ok (l.new_output address value)

  unfoldable pub to_csl : OgmiosUtxo → Result JsError TransactionUnspentOutput
  unfolding to_csl_tx_input to_csl_tx_output
  to_csl utxo = do
    output ← to_csl_tx_output utxo
    ok (l.new_unspent_output (to_csl_tx_input utxo) output)

  unfoldable pub utxos_to_csl : List OgmiosUtxo → Result JsError (List TransactionUnspentOutput)
  unfolding to_csl
  utxos_to_csl [] = ok []
  utxos_to_csl (utxo ∷ utxos) = do
    output ← to_csl utxo
    outputs ← utxos_to_csl utxos
    ok (output ∷ outputs)

  module _ (ctx : TransactionContext) where
    unfoldable pub collateral_inputs :
        List OgmiosUtxo → TxInputsBuilder → Result JsError TxInputsBuilder
    unfolding key_hash_address to_csl_tx_input convert_value
    collateral_inputs [] builder = ok builder
    collateral_inputs (utxo ∷ utxos) builder = do
      value ← convert_value utxo.value
      builder' ←
          l.add_regular_input (key_hash_address ctx.payment_key_hash ctx.network)
            (to_csl_tx_input utxo) value builder
      collateral_inputs utxos builder'

    unfoldable pub add_collateral_inputs :
        List OgmiosUtxo → TransactionBuilder → Result JsError TransactionBuilder
    unfolding collateral_inputs
    add_collateral_inputs inputs builder = do
      collateral_builder ← collateral_inputs inputs l.new_inputs_builder
      ok (l.set_collateral collateral_builder builder)

    -- The two branches of `try_balance`, by whether there are collateral inputs.
    unfoldable pub select_inputs :
        List OgmiosUtxo → TransactionBuilder → Result JsError TransactionBuilder
    unfolding utxos_to_csl key_hash_address add_collateral_inputs zeros
    select_inputs [] builder = do
      utxos ← utxos_to_csl ctx.payment_key_utxos
      l.add_inputs_from_and_change utxos (key_hash_address ctx.payment_key_hash ctx.network) builder
    select_inputs (input ∷ inputs) builder = do
      with_collateral ← add_collateral_inputs (input ∷ inputs) builder
      utxos ← utxos_to_csl ctx.payment_key_utxos
      balanced ←
          l.add_inputs_from_and_change_with_collateral_return utxos
            (key_hash_address ctx.payment_key_hash ctx.network) ctx.collateral_percentage
            (l.set_script_data_hash (zeros 32) with_collateral)
      l.calc_script_data_hash ctx.plutus_cost_models balanced

    unfoldable pub try_balance : TransactionBuilder → List OgmiosUtxo → Result JsError Transaction
    unfolding select_inputs
    try_balance builder collateral_inputs = do
      balanced ←
          select_inputs collateral_inputs (l.add_required_signer ctx.payment_key_hash builder)
      l.build_tx balanced

    unfoldable pub max_possible_collaterals : List OgmiosUtxo
    unfolding sort_largest
    max_possible_collaterals = take ctx.max_collateral_inputs (sort_largest ctx.payment_key_utxos)

    unfoldable pub balance_update_and_build : TransactionBuilder → Result JsError Transaction
    unfolding try_collaterals try_balance max_possible_collaterals
    balance_update_and_build builder =
        try_collaterals (try_balance builder) l.could_not_balance max_possible_collaterals []

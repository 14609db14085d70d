-- ===== src/Examples/OffchainExamples.antt =====
-- Runs of toolkit/offchain/src/csl.rs, over a library whose transactions are the amounts of collateral.
use mathlib.Core.List.{Permᴰ}
use iagon_network_explorer_n.Prelude.{
  ◌≤◌, List, ℕ, ◌+◌, ◌≡◌, ◌↔◌, refl, Bytes, ltb, ok, err, if◌then◌else◌, [], ◌∷◌,
}
use iagon_network_explorer_n.Offchain.{
  OgmiosUtxo, testnet, TransactionLib, TransactionContext, try_balance, balance_update_and_build,
}
use iagon_network_explorer_n.Offchain.Collateral.Sorted.{Descending}
use iagon_network_explorer_n.Offchain.Collateral.{IsLeast, balance_update_and_build_iff}

-- A builder holds the collateral of its transaction, which has to be 70 or more.
abbrev lovelace_lib : TransactionLib
lovelace_lib = record {
  JsError = ℕ;
  Address = Bytes;
  AssetName = Bytes;
  Assets = ℕ;
  MultiAsset = ℕ;
  Value = ℕ;
  TransactionInput = ℕ;
  TransactionOutput = ℕ;
  TransactionUnspentOutput = ℕ;
  TxInputsBuilder = ℕ;
  TransactionBuilder = ℕ;
  Transaction = ℕ;
  KeyHash = Bytes;
  Costmdls = Unit;
  amount_too_large = 0;
  invalid_asset_name = λ e. e;
  invalid_address = λ e. e;
  could_not_balance = λ e. e;
  enterprise_address = λ network key. network ∷ key;
  from_bech32 = λ address. ok address;
  new_asset_name = λ name. ok name;
  new_assets = 0;
  insert_asset = λ name amount assets. assets + amount;
  new_multiasset = 0;
  insert_assets = λ policy assets multiasset. multiasset + assets;
  new_value = λ lovelace. lovelace;
  new_with_assets = λ lovelace multiasset. lovelace;
  new_input = λ hash index. index;
  new_output = λ address value. value;
  new_unspent_output = λ input output. output;
  new_inputs_builder = 0;
  add_regular_input = λ address input value builder. ok (builder + value);
  add_required_signer = λ key builder. builder;
  set_collateral = λ collateral builder. collateral;
  set_script_data_hash = λ hash builder. builder;
  add_inputs_from_and_change = λ utxos address builder. ok builder;
  add_inputs_from_and_change_with_collateral_return =
      λ utxos address percentage builder. ok builder;
  calc_script_data_hash = λ models builder. ok builder;
  build_tx = λ builder. if ltb builder 70 then err builder else ok builder;
}

abbrev utxo : ℕ → OgmiosUtxo
utxo lovelace = record {
  transaction_id = [];
  index = 0;
  address = [];
  value = record { lovelace = lovelace; native_tokens = [] };
}

abbrev context : TransactionContext lovelace_lib
context = record {
  payment_key_hash = [];
  payment_key_utxos = utxo 20 ∷ utxo 50 ∷ utxo 30 ∷ [];
  network = testnet;
  max_collateral_inputs = 3;
  collateral_percentage = 150;
  plutus_cost_models = tt;
}

balance_update_and_build_iff_example :
    (largest_first : List OgmiosUtxo) × Permᴰ context.payment_key_utxos largest_first
    × Descending largest_first
    × ((balance_update_and_build lovelace_lib context 0 ≡ ok 80)
        ↔ ((n : ℕ) × (n ≤ 3) × IsLeast (try_balance lovelace_lib context 0) [] largest_first 80 n))
balance_update_and_build_iff_example = balance_update_and_build_iff lovelace_lib context 0 80

-- Two of the three outputs are enough.
two_collaterals : balance_update_and_build lovelace_lib context 0 ≡ ok 80
unfolding balance_update_and_build
two_collaterals = refl

-- ===== src/Examples/NativeTokenExamples.antt =====
-- Runs of the native token.
use iagon_network_explorer_n.Prelude.{
  ℕ, ◌-◌, Bytes, ◌≡◌, ◌↔◌, ◌<◌, refl, ok, Option, none, some, List, [], ◌∷◌,
}
use iagon_network_explorer_n.NativeToken.{
  MainChainScripts, TokenTransferData, build, create_inherent, check_inherent, is_inherent_required,
  transfer_tokens_call, token_transfer_not_handled,
}
use iagon_network_explorer_n.NativeToken.Inherents.{inherent_of_data}
use iagon_network_explorer_n.NativeToken.Accounting.{Chain, run_blocks, transfers_accounted}

abbrev first_byte : Bytes → ℕ
first_byte [] = 0
first_byte (b ∷ bs) = b

-- Up to a block whose hash starts with `n`, `n` tokens are transferred.
abbrev total : Option Bytes → Bytes → Bytes → Bytes → Bytes → ℕ
total none to_block policy_id asset_name address = first_byte to_block
total (some after_block) to_block policy_id asset_name address =
    first_byte to_block - first_byte after_block

abbrev scripts : MainChainScripts
scripts = record {
  native_token_policy_id = [];
  native_token_asset_name = [];
  illiquid_supply_validator_address = [];
}

abbrev hashes : List Bytes
hashes = (0 ∷ []) ∷ (5 ∷ []) ∷ (5 ∷ []) ∷ (9 ∷ []) ∷ []

transfers_accounted_example :
    (chain : Chain) × (run_blocks total hashes
        (record { storage = build scripts; handled = 0; mc_hash = none })
      ≡ ok chain)
    × (chain.handled ≡ 9)
    × (chain.mc_hash ≡ some (9 ∷ []))
transfers_accounted_example = transfers_accounted total scripts hashes (refl, (refl, (refl, tt)))

abbrev transfer : TokenTransferData
transfer = record { token_amount = 5 }

inherent_of_data_example :
    ((create_inherent (ok (some transfer)) ≡ ok (some (transfer_tokens_call 5)))
      ↔ ((some transfer ≡ some transfer) × (0 < 5)))
    × ((is_inherent_required (ok (some transfer)) ≡ ok (some (token_transfer_not_handled 5)))
        ↔ ((some transfer ≡ some transfer) × (0 < 5)))
    × ((check_inherent (transfer_tokens_call 5) (ok (some transfer)) ≡ ok tt)
        ↔ (some transfer ≡ some transfer))
inherent_of_data_example = inherent_of_data (some transfer) 5

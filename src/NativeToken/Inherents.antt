-- ===== src/NativeToken/Inherents.antt =====
-- The inherent of toolkit/pallets/native-token-management/src/lib.rs: made, checked and required.
use iagon_network_explorer_n.Prelude.{ℕ, ◌≡◌, ◌↔◌, ◌<◌, ap, some_inj, arith, ok, Option, none, some}
use iagon_network_explorer_n.NativeToken.{
  TokenTransferData, token_transfer_not_handled, transfer_tokens_call, create_inherent,
  check_inherent, is_inherent_required,
}

is_transfer_of :
    (transfer : TokenTransferData) (amount : ℕ)
    → (some transfer ≡ some (record { token_amount = amount })) ↔ (transfer.token_amount ≡ amount)
is_transfer_of transfer amount = (
  λ h.
      let p : transfer ≡ record { token_amount = amount } = some_inj h in
      ap (λ z. z.token_amount) p,
  λ h. ap (λ z. some (record { token_amount = z })) h,
)

-- Decodable inherent data decide the inherent: with a positive amount every author creates the
-- transfer of that amount, its absence is an error, and a transfer passes the check exactly if it
-- is of that amount; with the amount 0 or without data no transfer is created or required, and a
-- transfer passes the check only if the data is there with the same amount, 0.
pub inherent_of_data :
    (found : Option TokenTransferData) (amount : ℕ)
    → ((create_inherent (ok found) ≡ ok (some (transfer_tokens_call amount)))
        ↔ ((found ≡ some (record { token_amount = amount })) × (0 < amount)))
      × ((is_inherent_required (ok found) ≡ ok (some (token_transfer_not_handled amount)))
          ↔ ((found ≡ some (record { token_amount = amount })) × (0 < amount)))
      × ((check_inherent (transfer_tokens_call amount) (ok found) ≡ ok tt)
          ↔ (found ≡ some (record { token_amount = amount })))
unfolding create_inherent is_inherent_required check_inherent
inherent_of_data none amount = ground arith
inherent_of_data (some transfer) amount = ground (arith, is_transfer_of transfer amount)

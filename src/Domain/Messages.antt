-- ===== src/Domain/Messages.antt =====
-- The message that a registration signs: `RegisterValidatorSignedMessage` of
-- toolkit/primitives/authority-selection-inherents/src/filter_invalid_candidates.rs, and what
-- `#[derive(ToDatum)]` of toolkit/utils/plutus/plutus-datum-derive/src/lib.rs makes of it.
use iagon_network_explorer_n.Prelude.{Bytes, ◌≡◌, arith}
use iagon_network_explorer_n.Domain.{UtxoId}
use iagon_network_explorer_n.Domain.Datum.{
  pos, Datum, integer_datum, byte_string_datum, constructor_datum, nil, cons,
}

pub record RegisterValidatorSignedMessage : Type 0 where
  pub genesis_utxo : UtxoId
  pub sidechain_pub_key : Bytes
  pub input_utxo : UtxoId

-- `McTxHash` is marked `#[constructor_datum]`, so it is wrapped in a constructor.
unfoldable pub tx_hash_to_datum : Bytes → Datum
tx_hash_to_datum hash = constructor_datum 0 (cons (byte_string_datum hash) nil)

unfoldable pub utxo_id_to_datum : UtxoId → Datum
unfolding tx_hash_to_datum
utxo_id_to_datum u =
    constructor_datum 0 (cons (tx_hash_to_datum u.tx_hash) (cons (integer_datum (pos u.index)) nil))

unfoldable pub message_to_datum : RegisterValidatorSignedMessage → Datum
unfolding utxo_id_to_datum
message_to_datum m = constructor_datum 0 (
    cons (utxo_id_to_datum m.genesis_utxo)
      (cons (byte_string_datum m.sidechain_pub_key) (cons (utxo_id_to_datum m.input_utxo) nil)))

-- Two registrations sign the same datum only if they name the same chain, the same key and the
-- same consumed input.
pub message_to_datum-injective :
    (m n : RegisterValidatorSignedMessage) → message_to_datum m ≡ message_to_datum n → m ≡ n
unfolding message_to_datum
message_to_datum-injective m n h = ground arith

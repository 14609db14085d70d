-- ===== src/Domain/Datum.antt =====
-- toolkit/utils/plutus/src/lib.rs: the Plutus data that a message is encoded by.
use iagon_network_explorer_n.Prelude.{Bytes, ℕ}

-- `BigInt`; `negsuc n` is -(n + 1).
pub data ℤ : Type 0 where
  pos : ℕ → ℤ
  negsuc : ℕ → ℤ

mutual
  pub data Datum : Type 0 where
    integer_datum : ℤ → Datum
    byte_string_datum : Bytes → Datum
    constructor_datum : ℕ → Datums → Datum
    list_datum : Datums → Datum
    map_datum : MapDatumEntries → Datum

  -- `Vec<Datum>`
  pub data Datums : Type 0 where
    nil : Datums
    cons : Datum → Datums → Datums

  -- `Vec<MapDatumEntry>`
  pub data MapDatumEntries : Type 0 where
    end : MapDatumEntries
    entry : (key value : Datum) → MapDatumEntries → MapDatumEntries

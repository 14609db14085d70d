-- ===== src/Candidates/Interfaces.antt =====
-- What filter_invalid_candidates.rs and select_authorities.rs of
-- toolkit/primitives/authority-selection-inherents/src take from elsewhere: the signature schemes
-- of sp_core, the encoder of minicbor, and the account types that the runtime chooses.
use Prim.Native.Nat.{Ordering}
use Prim.Native.Nat.Ordering.{lt, eq, gt}
use iagon_network_explorer_n.Prelude.{Bytes, Bool, ◌≡◌, Option}
use iagon_network_explorer_n.Domain.Datum.{Datum}

pub record Crypto : Type 0 where
  -- signature, message and public key
  pub ed25519_verify : Bytes → Bytes → Bytes → Bool
  -- signature with its recovery byte, message and public key
  pub ecdsa_verify : Bytes → Bytes → Bytes → Bool
  pub to_cbor : Datum → Bytes

-- `TAccountId` and `TAccountKeys`, with the conversions and the order that the code asks for.
pub record Accounts : Type 1 where
  pub AccountId : Type 0
  pub AccountKeys : Type 0
  pub id_of_ecdsa : Bytes → AccountId
  pub id_of_sidechain_key : Bytes → Option AccountId
  pub keys_of : Bytes × Bytes → AccountKeys
  pub cmp : AccountId → AccountId → Ordering
  pub cmp_refl : (a : AccountId) → cmp a a ≡ eq
  pub eq_of_cmp : (a b : AccountId) → cmp a b ≡ eq → a ≡ b
  pub gt_of_lt : (a b : AccountId) → cmp a b ≡ lt → cmp b a ≡ gt
  pub lt_of_gt : (a b : AccountId) → cmp a b ≡ gt → cmp b a ≡ lt
  pub lt_trans : (a b c : AccountId) → cmp a b ≡ lt → cmp b c ≡ lt → cmp a c ≡ lt

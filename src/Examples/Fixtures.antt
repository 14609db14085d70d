-- ===== src/Examples/Fixtures.antt =====
-- Concrete generators, words, signature schemes, accounts and data for the runs.
use Prim.Native.Nat.{compare}
use Prim.Native.Nat.Ordering.{lt, eq, gt}
use iagon_network_explorer_n.Prelude.{
  ℕ, zero, suc, ◌+◌, ◌%◌, ◌^◌, ◌≡◌, refl, arith, Bytes, false, ◌==◌, if◌then◌else◌, none, some, [],
  ◌∷◌, length,
}
use iagon_network_explorer_n.Selection.Interfaces.{ChaCha20Rng, U256, big_endian}
use iagon_network_explorer_n.Candidates.Interfaces.{Crypto, Accounts}
use iagon_network_explorer_n.Domain.{
  UtxoId, RegistrationData, CandidateRegistrations, PermissionedCandidateData,
}

-- A generator that counts.
abbrev pub counting_rng : ChaCha20Rng
counting_rng = record {
  Rng = ℕ;
  from_seed = length;
  gen_range = λ n rng. (rng % n, rng + 1);
  gen_range_lt = λ n rng pos. omega arith;
}

abbrev pub bytes_of : ℕ → ℕ → Bytes → Bytes
bytes_of zero n tail = tail
bytes_of (suc k) n tail = bytes_of k 0 (n ∷ tail)

-- Words whose last byte holds the number.
abbrev pub plain_words : U256
plain_words = record {
  Word = ℕ;
  value = λ w. w;
  from_bytes = big_endian;
  from_u64 = λ n. n;
  overflowing_add = λ a b. ((a + b) % 2 ^ 256, false);
  to_bytes = λ w. bytes_of 32 w [];
  value-from_bytes = λ bytes len small. refl;
  value-from_u64 = λ n small. refl;
  value-overflowing_add = λ a b. refl;
  big_endian-to_bytes = λ w. omega arith;
  length-to_bytes = λ w. refl;
}

abbrev pub bytes : ℕ → ℕ → Bytes
bytes zero b = []
bytes (suc n) b = b ∷ bytes n b

abbrev pub first_byte : Bytes → ℕ
first_byte [] = 0
first_byte (b ∷ bs) = b

-- A scheme in which a signature repeats the first byte of the key.
abbrev pub echo_crypto : Crypto
echo_crypto = record {
  ed25519_verify = λ signature message key. first_byte signature == first_byte key;
  ecdsa_verify = λ signature message key. first_byte signature == first_byte key;
  to_cbor = λ datum. [];
}

pub gt_of_compare-lt : (a b : ℕ) → compare a b ≡ lt → compare b a ≡ gt
gt_of_compare-lt a b h = ground arith

pub lt_of_compare-gt : (a b : ℕ) → compare a b ≡ gt → compare b a ≡ lt
lt_of_compare-gt a b h = ground arith

pub compare-lt_trans : (a b c : ℕ) → compare a b ≡ lt → compare b c ≡ lt → compare a c ≡ lt
compare-lt_trans a b c h k = ground arith

pub compare_refl : (a : ℕ) → compare a a ≡ eq
compare_refl a = ground arith

pub eq_of_compare : (a b : ℕ) → compare a b ≡ eq → a ≡ b
eq_of_compare a b h = ground arith

-- Accounts numbered by the first byte of a key.
abbrev pub numbered_accounts : Accounts
numbered_accounts = record {
  AccountId = ℕ;
  AccountKeys = Bytes × Bytes;
  id_of_ecdsa = first_byte;
  id_of_sidechain_key = λ key. if length key == 33 then some (first_byte key) else none;
  keys_of = λ keys. keys;
  cmp = compare;
  cmp_refl = compare_refl;
  eq_of_cmp = eq_of_compare;
  gt_of_lt = gt_of_compare-lt;
  lt_of_gt = lt_of_compare-gt;
  lt_trans = compare-lt_trans;
}

abbrev pub genesis_utxo : UtxoId
genesis_utxo = record { tx_hash = bytes 32 0; index = 0 }

abbrev pub registration_utxo : UtxoId
registration_utxo = record { tx_hash = bytes 32 7; index = 1 }

abbrev pub registration : RegistrationData
registration = record {
  consumed_input = registration_utxo;
  sidechain_signature = bytes 64 2;
  mainchain_signature = bytes 64 3;
  cross_chain_signature = [];
  sidechain_pub_key = bytes 33 2;
  cross_chain_pub_key = [];
  utxo_info = record {
    utxo_id = registration_utxo;
    epoch_number = 5;
    block_number = 100;
    slot_number = 2000;
    tx_index_within_block = 0;
  };
  tx_inputs = genesis_utxo ∷ registration_utxo ∷ [];
  aura_pub_key = bytes 32 4;
  grandpa_pub_key = bytes 32 5;
}

abbrev pub registered : CandidateRegistrations
registered = record {
  mainchain_pub_key = bytes 32 3;
  registrations = registration ∷ [];
  stake_delegation = some 1000;
}

abbrev pub unstaked : CandidateRegistrations
unstaked = record registered { stake_delegation = some 0 }

abbrev pub permissioned_candidate : PermissionedCandidateData
permissioned_candidate = record {
  sidechain_public_key = bytes 33 9;
  aura_public_key = bytes 32 8;
  grandpa_public_key = bytes 32 8;
}

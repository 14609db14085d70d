-- ===== src/Candidates/Validity.antt =====
-- `validate_registration_data` of filter_invalid_candidates.rs against what a registration has to
-- satisfy.
use iagon_network_explorer_n.Prelude.{
  or_cases, ℕ, zero, suc, Bytes, eq_of_bytes_eq, bytes_eq_refl, ok, ◌≡◌, ◌↔◌, ◌⊎◌, inl, inr, arith,
  true, some, List, [], ◌∷◌, ◌++◌, length, get_elem?,
}
use iagon_network_explorer_n.Domain.{UtxoId, utxo_eq, RegistrationData}
use iagon_network_explorer_n.Domain.Messages.{message_to_datum}
use iagon_network_explorer_n.Candidates.{
  Candidate, contains_utxo, signed_message, validate_registration_data,
}
use iagon_network_explorer_n.Candidates.Interfaces.{Crypto}

eq_of_utxo_eq : (u v : UtxoId) → utxo_eq u v ≡ true → u ≡ v
eq_of_utxo_eq u v h = ground (arith, eq_of_bytes_eq u.tx_hash v.tx_hash)

utxo_eq_refl : (u : UtxoId) → utxo_eq u u ≡ true
utxo_eq_refl u = ground (arith, bytes_eq_refl u.tx_hash)

-- `u` stands in the list.
abbrev pub Occurs : UtxoId → List UtxoId → Type 0
Occurs u vs = (i : ℕ) × (get_elem? vs i ≡ some u)

Occurs-of_contains : (vs : List UtxoId) (u : UtxoId) → contains_utxo vs u ≡ true → Occurs u vs
unfolding contains_utxo
Occurs-of_contains [] u h = cc
Occurs-of_contains (v ∷ vs) u h = elim (or_cases (utxo_eq v u) (contains_utxo vs u) h) [
  | inl e ↦ (0, rw (eq_of_utxo_eq v u e))
  | inr later ↦ let (i, at) = Occurs-of_contains vs u later in (suc i, at)
]

contains_of_Occurs :
    (vs : List UtxoId) (u : UtxoId) (i : ℕ) → get_elem? vs i ≡ some u → contains_utxo vs u ≡ true
unfolding contains_utxo
contains_of_Occurs [] u i h = cc
contains_of_Occurs (v ∷ vs) u zero h = ground (arith, utxo_eq_refl u)
contains_of_Occurs (v ∷ vs) u (suc i) h = ground (arith, contains_of_Occurs vs u i h)

module _ (k : Crypto) where
  open k use {ed25519_verify, ecdsa_verify, to_cbor}

  -- What makes a registration under a main chain key valid for the chain of a genesis UTXO.
  pub record IsValidRegistration (mainchain_pub_key : Bytes) (d : RegistrationData)
      (genesis_utxo : UtxoId) : Type 0 where
    pub aura : length d.aura_pub_key ≡ 32
    pub grandpa : length d.grandpa_pub_key ≡ 32
    pub sidechain : length d.sidechain_pub_key ≡ 33
    pub mainchain_signature : length d.mainchain_signature ≡ 64
    pub mainchain_signed :
        ed25519_verify d.mainchain_signature
          (to_cbor (message_to_datum (signed_message d genesis_utxo)))
          mainchain_pub_key
        ≡ true
    pub sidechain_signature : length d.sidechain_signature ≡ 64
    pub sidechain_signed :
        (ecdsa_verify
            (d.sidechain_signature ++ 27 ∷ [])
            (to_cbor (message_to_datum (signed_message d genesis_utxo)))
            d.sidechain_pub_key
          ≡ true)
        ⊎ (ecdsa_verify
              (d.sidechain_signature ++ 28 ∷ [])
              (to_cbor (message_to_datum (signed_message d genesis_utxo)))
              d.sidechain_pub_key
            ≡ true)
    pub consumed : Occurs d.consumed_input d.tx_inputs

  abbrev pub candidate_of : RegistrationData → Candidate Bytes (Bytes × Bytes)
  candidate_of d = record {
    account_id = d.sidechain_pub_key;
    account_keys = (d.aura_pub_key, d.grandpa_pub_key);
  }

  inspect :
      (pk : Bytes) (d : RegistrationData) (g : UtxoId) (c : Candidate Bytes (Bytes × Bytes))
      → validate_registration_data k pk d g ≡ ok c
      → (contains_utxo d.tx_inputs d.consumed_input ≡ true)
        × (Occurs d.consumed_input d.tx_inputs → IsValidRegistration pk d g)
        × (c ≡ candidate_of d)
  unfolding validate_registration_data
  inspect pk d g c h = (ground arith, λ o. ground arith, ground arith)

  accept :
      (pk : Bytes) (d : RegistrationData) (g : UtxoId)
      → IsValidRegistration pk d g
      → contains_utxo d.tx_inputs d.consumed_input ≡ true
      → validate_registration_data k pk d g ≡ ok (candidate_of d)
  unfolding validate_registration_data
  accept pk d g v o = ground arith

  -- A registration is accepted exactly when it is valid, and the candidate has its keys.
  pub validate_registration_data_iff :
      (pk : Bytes) (d : RegistrationData) (g : UtxoId) (c : Candidate Bytes (Bytes × Bytes))
      → (validate_registration_data k pk d g ≡ ok c)
        ↔ (IsValidRegistration pk d g × (c ≡ candidate_of d))
  validate_registration_data_iff pk d g c = (
    λ h.
        let (o, valid, same) = inspect pk d g c h in
        (valid (Occurs-of_contains d.tx_inputs d.consumed_input o), same),
    λ (v, same).
        let (i, at) = v.consumed in
        rw same (accept pk d g v (contains_of_Occurs d.tx_inputs d.consumed_input i at)),
  )

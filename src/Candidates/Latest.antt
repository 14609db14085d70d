-- ===== src/Candidates/Latest.antt =====
-- Which registration `select_latest_valid_candidate` of filter_invalid_candidates.rs picks.
use mathlib.Core.List.{cons≢nil}
use iagon_network_explorer_n.Prelude.{
  ◌⊎◌, ◌≢◌, inl, inr, Bytes, Result, ok, err, panic, ◌≡◌, refl, ap, sym, ◌∙◌, arith, true, false,
  some, none, List, [], ◌∷◌, All, ◌<◌,
}
use iagon_network_explorer_n.Domain.{
  UtxoId, UtxoInfo, UtxoInfoOrderingKey, ordering_key, key_lt, RegistrationData,
  CandidateRegistrations,
}
use iagon_network_explorer_n.Candidates.{
  Candidate, CandidateWithStake, validate_registration_data, valid_registrations, max_by_key,
  RegistrationDataError, select_latest_valid_candidate,
}
use iagon_network_explorer_n.Candidates.Interfaces.{Crypto, Accounts}
use iagon_network_explorer_n.Candidates.Validity.{
  IsValidRegistration, candidate_of, validate_registration_data_iff,
}
use iagon_network_explorer_n.Candidates.Max.{IsMax, IsMax-inv, not-IsMax-nil, max_by_key_cases}

-- `d` is the registration that counts: it is accepted, no accepted one before it is later on the
-- main chain, and every accepted one behind it is earlier.
pub data IsLatest {ℓ} (Accepted : RegistrationData → Type ℓ)
    : List RegistrationData → RegistrationData → Type ℓ where
  here :
      {d : RegistrationData} {ds : List RegistrationData}
      → Accepted d
      → All
          (λ x. Accepted x → key_lt (ordering_key x.utxo_info) (ordering_key d.utxo_info) ≡ true)
          ds
      → IsLatest Accepted (d ∷ ds) d
  there :
      {x d : RegistrationData} {ds : List RegistrationData}
      → (Accepted x → key_lt (ordering_key d.utxo_info) (ordering_key x.utxo_info) ≡ false)
      → IsLatest Accepted ds d
      → IsLatest Accepted (x ∷ ds) d

module _ (k : Crypto) (pk : Bytes) (g : UtxoId) where
  abbrev pub Accepted : RegistrationData → Type 0
  Accepted d = IsValidRegistration k pk d g

  abbrev entry_of : RegistrationData → Candidate Bytes (Bytes × Bytes) × UtxoInfo
  entry_of d = (candidate_of k d, d.utxo_info)

  valid_registrations-cons :
      (d : RegistrationData) (ds : List RegistrationData)
      → (Accepted d
          × (valid_registrations k pk g (d ∷ ds) ≡ entry_of d ∷ valid_registrations k pk g ds))
        ⊎ ((¬ Accepted d) × (valid_registrations k pk g (d ∷ ds) ≡ valid_registrations k pk g ds))
  unfolding valid_registrations
  valid_registrations-cons d ds = go (validate_registration_data k pk d g) refl
    where
      refused :
          (r : Result RegistrationDataError (Candidate Bytes (Bytes × Bytes)))
          → validate_registration_data k pk d g ≡ r
          → r ≢ ok (candidate_of k d)
          → ¬ Accepted d
      refused r e no_candidate v =
          no_candidate
            (sym e ∙ (validate_registration_data_iff k pk d g (candidate_of k d)).1 (v, refl))

      go :
          (r : Result RegistrationDataError (Candidate Bytes (Bytes × Bytes)))
          → validate_registration_data k pk d g ≡ r
          → (Accepted d
              × (valid_registrations k pk g (d ∷ ds) ≡ entry_of d ∷ valid_registrations k pk g ds))
            ⊎ ((¬ Accepted d)
                × (valid_registrations k pk g (d ∷ ds) ≡ valid_registrations k pk g ds))
      go (ok c) e =
          let (v, same) = (validate_registration_data_iff k pk d g c).0 e in
          inl (v, rw (e, valid_registrations) (rw same))
      go (err x) e = inr (refused (err x) e (λ h. cc), rw (e, valid_registrations))
      go panic e = inr (refused panic e (λ h. cc), rw (e, valid_registrations))

  earlier_of :
      (key : UtxoInfoOrderingKey) (ds : List RegistrationData)
      → All (λ x. key_lt (ordering_key x.1) key ≡ true) (valid_registrations k pk g ds)
      → All (λ x. Accepted x → key_lt (ordering_key x.utxo_info) key ≡ true) ds
  earlier_of key [] h = tt
  earlier_of key (d ∷ ds) h = elim (valid_registrations-cons d ds) [
    | inl (v, e) ↦ let h' = rw e at h in (λ _. h'.0, earlier_of key ds h'.1)
    | inr (no_v, e) ↦ (λ v. absurd (no_v v), earlier_of key ds (rw e at h))
  ]

  IsLatest-of :
      (ds : List RegistrationData) (m : Candidate Bytes (Bytes × Bytes) × UtxoInfo)
      → IsMax (valid_registrations k pk g ds) m
      → (d : RegistrationData) × (m ≡ entry_of d) × IsLatest Accepted ds d
  unfolding valid_registrations
  IsLatest-of [] m h = absurd (not-IsMax-nil h)
  IsLatest-of (d ∷ ds) m h = elim (valid_registrations-cons d ds) [
    | inl (v, e) ↦ elim (IsMax-inv (rw e at h)) [
      | inl (same, all) ↦
          (d, same, IsLatest.here v (earlier_of (ordering_key d.utxo_info) ds (rw same at all)))
      | inr (ge, rest) ↦
          let (d', same, l) = IsLatest-of ds m rest in
          (d', same, IsLatest.there (λ _. rw same at ge) l)
    ]
    | inr (no_v, e) ↦
        let (d', same, l) = IsLatest-of ds m (rw e at h) in
        (d', same, IsLatest.there (λ v. absurd (no_v v)) l)
  ]

  none_of :
      (ds : List RegistrationData) → valid_registrations k pk g ds ≡ [] → All (λ d. ¬ Accepted d) ds
  none_of [] h = tt
  none_of (d ∷ ds) h = elim (valid_registrations-cons d ds) [
    | inl (v, e) ↦ absurd (cons≢nil (sym e ∙ h))
    | inr (no_v, e) ↦ (no_v, none_of ds (sym e ∙ h))
  ]

module _ (k : Crypto) (t : Accounts) where
  open t use {AccountId, AccountKeys, id_of_ecdsa, keys_of}

  missed :
      (c : CandidateRegistrations) (g : UtxoId) (v : CandidateWithStake AccountId AccountKeys)
      → max_by_key (valid_registrations k c.mainchain_pub_key g c.registrations) ≡ none
      → select_latest_valid_candidate k t c g ≡ some v
      → ⊥
  unfolding select_latest_valid_candidate
  missed c g v e h = ground arith

  built :
      (c : CandidateRegistrations) (g : UtxoId) (v : CandidateWithStake AccountId AccountKeys)
      → (m : Candidate Bytes (Bytes × Bytes) × UtxoInfo)
      → max_by_key (valid_registrations k c.mainchain_pub_key g c.registrations) ≡ some m
      → select_latest_valid_candidate k t c g ≡ some v
      → (v.candidate.account_id ≡ id_of_ecdsa m.0.account_id)
        × (v.candidate.account_keys ≡ keys_of m.0.account_keys)
        × (c.stake_delegation ≡ some v.stake_delegation)
        × (0 < v.stake_delegation)
  unfolding select_latest_valid_candidate
  built c g v m e h = ground arith

  no_stake :
      (c : CandidateRegistrations) (g : UtxoId) (m : Candidate Bytes (Bytes × Bytes) × UtxoInfo)
      → max_by_key (valid_registrations k c.mainchain_pub_key g c.registrations) ≡ some m
      → select_latest_valid_candidate k t c g ≡ none
      → (c.stake_delegation ≡ none)
        ⊎ (c.stake_delegation ≡ some 0)
        ⊎ All (λ d. ¬ Accepted k c.mainchain_pub_key g d) c.registrations
  unfolding select_latest_valid_candidate
  no_stake c g m e h = ground arith

  -- A candidate is selected with the positive stake of its registrations, and with the keys of
  -- the accepted registration that is latest on the main chain, the last in the list among equals.
  pub select_latest_valid_candidate-IsLatest :
      (c : CandidateRegistrations) (g : UtxoId) (v : CandidateWithStake AccountId AccountKeys)
      → select_latest_valid_candidate k t c g ≡ some v
      → (d : RegistrationData) × IsLatest (Accepted k c.mainchain_pub_key g) c.registrations d
        × (v.candidate.account_id ≡ id_of_ecdsa d.sidechain_pub_key)
        × (v.candidate.account_keys ≡ keys_of (d.aura_pub_key, d.grandpa_pub_key))
        × (c.stake_delegation ≡ some v.stake_delegation)
        × (0 < v.stake_delegation)
  select_latest_valid_candidate-IsLatest c g v h =
      elim (max_by_key_cases (valid_registrations k c.mainchain_pub_key g c.registrations)) [
        | inl (_, e) ↦ absurd (missed c g v e h)
        | inr (m, e, max) ↦
            let (d, same, l) = IsLatest-of k c.mainchain_pub_key g c.registrations m max in
            let (id, keys, stake, pos) = built c g v m e h in
            (
              d,
              l,
              id
                  ∙ ap
                      (λ (x : Candidate Bytes (Bytes × Bytes) × UtxoInfo).
                        id_of_ecdsa x.0.account_id)
                      same,
              keys
                  ∙ ap
                      (λ (x : Candidate Bytes (Bytes × Bytes) × UtxoInfo). keys_of x.0.account_keys)
                      same,
              stake,
              pos,
            )
      ]

  -- Where no candidate is selected, the stake is unknown or 0, or no registration is
  -- accepted.
  pub select_latest_valid_candidate-none :
      (c : CandidateRegistrations) (g : UtxoId)
      → select_latest_valid_candidate k t c g ≡ none
      → (c.stake_delegation ≡ none)
        ⊎ (c.stake_delegation ≡ some 0)
        ⊎ All (λ d. ¬ Accepted k c.mainchain_pub_key g d) c.registrations
  select_latest_valid_candidate-none c g h =
      elim (max_by_key_cases (valid_registrations k c.mainchain_pub_key g c.registrations)) [
        | inl (e, _) ↦ inr (inr (none_of k c.mainchain_pub_key g c.registrations e))
        | inr (m, e, _) ↦ no_stake c g m e h
      ]

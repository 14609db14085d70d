-- ===== src/Authorities/Committee.antt =====
-- `select_authorities` of select_authorities.rs as a whole: it returns a committee.
use iagon_network_explorer_n.Prelude.{
  ℕ, zero, suc, ◌+◌, ◌*◌, ◌%◌, ◌^◌, ◌<◌, ◌≡◌, refl, ap, arith, u16, List, [], ◌∷◌, ◌++◌, map,
  length, take, All, ok, some, ◌⊎◌, ◌∙◌, length-map,
}
use Prim.Native.Nat.{Ordering, min}
use iagon_network_explorer_n.Domain.{DParameter, UtxoId}
use iagon_network_explorer_n.Candidates.{
  Candidate, CandidateWithStake, filter_trustless_candidates_registrations,
  filter_invalid_permissioned_candidates,
}
use iagon_network_explorer_n.Candidates.Interfaces.{Crypto, Accounts}
use iagon_network_explorer_n.Candidates.Filters.{filter_trustless-positive}
use iagon_network_explorer_n.Selection.{seed_from_nonce_and_sc_epoch}
use iagon_network_explorer_n.Selection.Interfaces.{ChaCha20Rng, U256}
use iagon_network_explorer_n.Selection.Window.{total_weight}
use iagon_network_explorer_n.Selection.Total.{select_authorities_total}
use iagon_network_explorer_n.Authorities.{
  AuthoritySelectionInputs, weight_factor, trustless_candidates_with_weights, permissioned_weight,
  permissioned_candidates_with_weights, insert_sorted, sort_by, weighted_selection,
  candidates_with_weight, select_authorities,
}
use iagon_network_explorer_n.Authorities.Weights.{
  mul_bound, mul_pos, total_stake, sum_u64-eq-add, weight_factor-eq, total_weight-trustless,
  total_weight-permissioned, total_weight-append,
}

-- Sorting keeps what a list weighs.
insert_sorted-total_weight {ℓ} :
    {T : Type ℓ} (cmp : T × ℕ → T × ℕ → Ordering) (x : T × ℕ) (xs : List (T × ℕ))
    → total_weight (insert_sorted cmp x xs) ≡ x.1 + total_weight xs
unfolding insert_sorted
insert_sorted-total_weight cmp x [] = refl
insert_sorted-total_weight cmp x (y ∷ ys) = ground (arith, insert_sorted-total_weight cmp x ys)

sort_by-total_weight {ℓ} :
    {T : Type ℓ} (cmp : T × ℕ → T × ℕ → Ordering) (xs : List (T × ℕ))
    → total_weight (sort_by cmp xs) ≡ total_weight xs
unfolding sort_by
sort_by-total_weight cmp [] = refl
sort_by-total_weight cmp (x ∷ xs) =
    omega (arith, insert_sorted-total_weight cmp x (sort_by cmp xs), sort_by-total_weight cmp xs)

length-take {ℓ} : {A : Type ℓ} (n : ℕ) (xs : List A) → length (take n xs) ≡ min n (length xs)
length-take zero xs = ground arith
length-take (suc n) [] = ground arith
length-take (suc n) (x ∷ xs) = ground (arith, length-take n xs)

weight_factor_lt :
    (d : DParameter) (n : ℕ)
    → d.num_registered_candidates < 2 ^ 16
    → n < 2 ^ 32
    → weight_factor d n < 2 ^ 48
unfolding weight_factor
weight_factor_lt d n h k =
    ground (arith, mul_bound d.num_registered_candidates n (2 ^ 16) (2 ^ 32) h k)

weight_factor_default : (d : DParameter) (n : ℕ) → n ≡ 0 → weight_factor d n ≡ 1
unfolding weight_factor
weight_factor_default d n h = ground arith

module _ {ℓ κ} {A : Type ℓ} {B : Type κ} where
  permissioned_weight_lt :
      (d : DParameter) (vs : List (CandidateWithStake A B))
      → d.num_permissioned_candidates < 2 ^ 16
      → total_stake vs < 2 ^ 64
      → permissioned_weight d vs < 2 ^ 80
  unfolding permissioned_weight
  permissioned_weight_lt d vs p h = ground (
    arith,
    sum_u64-eq-add 0 vs (omega arith),
    mul_bound d.num_permissioned_candidates (total_stake vs) (2 ^ 16) (2 ^ 64) p h,
  )

  total_stake_pos :
      (vs : List (CandidateWithStake A B))
      → All (λ v. 0 < v.stake_delegation) vs
      → 0 < length vs
      → 0 < total_stake vs
  total_stake_pos [] h l = absurd (omega arith)
  total_stake_pos (v ∷ vs) h l = omega arith

  permissioned_weight_default :
      (d : DParameter) (vs : List (CandidateWithStake A B))
      → (d.num_registered_candidates ≡ 0) ⊎ (total_stake vs ≡ 0)
      → permissioned_weight d vs ≡ 1
  unfolding permissioned_weight
  permissioned_weight_default d vs h = ground (arith, sum_u64-eq-add 0 vs)

  -- What all candidates weigh together.
  abbrev all_weights : DParameter → List (CandidateWithStake A B) → List (Candidate A B) → ℕ
  all_weights d vs cs =
      total_stake vs * weight_factor d (length cs) + length cs * permissioned_weight d vs

  all_weights_lt :
      (d : DParameter) (vs : List (CandidateWithStake A B)) (cs : List (Candidate A B))
      → d.num_registered_candidates < 2 ^ 16
      → d.num_permissioned_candidates < 2 ^ 16
      → length cs < 2 ^ 32
      → total_stake vs < 2 ^ 64
      → all_weights d vs cs < 2 ^ 128
  all_weights_lt d vs cs t p n w = omega (
    arith,
    mul_bound (total_stake vs) (weight_factor d (length cs)) (2 ^ 64) (2 ^ 48) w
        (weight_factor_lt d (length cs) t n),
    mul_bound (length cs) (permissioned_weight d vs) (2 ^ 32) (2 ^ 80) n
        (permissioned_weight_lt d vs p w),
  )

  all_weights_pos :
      (d : DParameter) (vs : List (CandidateWithStake A B)) (cs : List (Candidate A B))
      → d.num_registered_candidates < 2 ^ 16
      → d.num_permissioned_candidates < 2 ^ 16
      → length cs < 2 ^ 32
      → total_stake vs < 2 ^ 64
      → All (λ v. 0 < v.stake_delegation) vs
      → 0 < length vs + length cs
      → 0 < all_weights d vs cs
  all_weights_pos d vs cs t p n w pos some_candidate = grind (
    arith,
    total_stake_pos vs pos,
    weight_factor_default d (length cs),
    permissioned_weight_default d vs,
    weight_factor-eq d (length cs) t n,
    mul_pos d.num_registered_candidates (length cs),
    mul_pos (total_stake vs) (weight_factor d (length cs)),
    mul_pos (length cs) (permissioned_weight d vs),
  )

module _ (k : Crypto) (t : Accounts) (g : ChaCha20Rng) (u : U256) (max_validators : ℕ) where
  open t use {AccountId, AccountKeys}

  -- The candidates that the filters of the source let through.
  abbrev trustless :
      UtxoId → AuthoritySelectionInputs → List (CandidateWithStake AccountId AccountKeys)
  trustless genesis_utxo input =
      filter_trustless_candidates_registrations k t input.registered_candidates genesis_utxo

  abbrev permissioned : AuthoritySelectionInputs → List (Candidate AccountId AccountKeys)
  permissioned input = filter_invalid_permissioned_candidates k t input.permissioned_candidates

  candidates_with_weight-total_weight :
      (genesis_utxo : UtxoId) (input : AuthoritySelectionInputs)
      → input.d_parameter.num_registered_candidates < 2 ^ 16
      → length (permissioned input) < 2 ^ 32
      → total_stake (trustless genesis_utxo input) < 2 ^ 64
      → total_weight (candidates_with_weight k t g u max_validators genesis_utxo input)
        ≡ all_weights input.d_parameter (trustless genesis_utxo input) (permissioned input)
  unfolding candidates_with_weight
  candidates_with_weight-total_weight genesis_utxo input t16 n w =
      let d = input.d_parameter in
      let vs = trustless genesis_utxo input in
      let cs = permissioned input in
      let f64 : weight_factor d (length cs) < 2 ^ 64 =
        omega (arith, weight_factor_lt d (length cs) t16 n) in
      sort_by-total_weight (λ a b. t.cmp a.0.account_id b.0.account_id)
        (trustless_candidates_with_weights vs d (length cs)
          ++ permissioned_candidates_with_weights cs d vs)
      ∙ omega (
        arith,
        total_weight-append (trustless_candidates_with_weights vs d (length cs))
            (permissioned_candidates_with_weights cs d vs),
        total_weight-trustless vs d (length cs) w f64,
        total_weight-permissioned cs d vs,
      )

  -- When at least one candidate passes the filters, and the D-parameter, the number of valid
  -- permissioned candidates and the stake of all valid registered candidates are in the ranges of
  -- their types u16, u32 and u64, the selection does not panic and returns a committee. The size
  -- of the committee is the sum of the two numbers of the D-parameter modulo 2 ^ 16, which is less
  -- than the sum where that is 2 ^ 16 or more, cut off at the bound on the number of validators.
  pub select_authorities_committee :
      (genesis_utxo : UtxoId) (input : AuthoritySelectionInputs) (sidechain_epoch : ℕ)
      → input.d_parameter.num_registered_candidates < 2 ^ 16
      → input.d_parameter.num_permissioned_candidates < 2 ^ 16
      → length (filter_invalid_permissioned_candidates k t input.permissioned_candidates) < 2 ^ 32
      → total_stake
          (filter_trustless_candidates_registrations k t input.registered_candidates genesis_utxo)
        < 2 ^ 64
      → 0
        < length
            (filter_trustless_candidates_registrations k t input.registered_candidates genesis_utxo)
          + length (filter_invalid_permissioned_candidates k t input.permissioned_candidates)
      → (committee : List (AccountId × AccountKeys)) × (select_authorities k t g u max_validators
            genesis_utxo input sidechain_epoch
          ≡ ok (some committee))
        × (length committee
            ≡ min max_validators (
                (input.d_parameter.num_registered_candidates
                  + input.d_parameter.num_permissioned_candidates)
                % 2 ^ 16))
  unfolding select_authorities weighted_selection
  select_authorities_committee genesis_utxo input sidechain_epoch t16 p16 n w some_candidate =
      let d = input.d_parameter in
      let vs = trustless genesis_utxo input in
      let cs = permissioned input in
      let candidates = candidates_with_weight k t g u max_validators genesis_utxo input in
      let total = candidates_with_weight-total_weight genesis_utxo input t16 n w in
      let size = u16 (d.num_registered_candidates + d.num_permissioned_candidates) in
      let seed = seed_from_nonce_and_sc_epoch u input.epoch_nonce sidechain_epoch in
      let (seats, selected, len, all) =
        select_authorities_total g candidates seed size
          (omega (
            arith,
            total,
            all_weights_pos d vs cs t16 p16 n w
                (filter_trustless-positive k t input.registered_candidates genesis_utxo)
                some_candidate,
          ))
          (omega (arith, total, all_weights_lt d vs cs t16 p16 n w)) in
      let accounts : List (AccountId × AccountKeys) =
        map (λ c. (c.account_id, c.account_keys)) seats in
      (
        take max_validators accounts,
        rw selected,
        omega (
          arith,
          length-take max_validators accounts,
          length-map {B = AccountId × AccountKeys} (λ c. (c.account_id, c.account_keys)) seats,
          ap (min max_validators) len,
          len,
        ),
      )

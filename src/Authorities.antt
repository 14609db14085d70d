-- ===== src/Authorities.antt =====
-- toolkit/primitives/authority-selection-inherents/src/select_authorities.rs: the committee of a
-- partner chain epoch, selected from the valid candidates by the D-parameter.
pub mod Sorting
pub mod Weights
pub mod Ratio
pub mod Committee
pub mod Independence
use Prim.Native.Nat.{Ordering}
use Prim.Native.Nat.Ordering.{gt}
use iagon_network_explorer_n.Prelude.{
  ℕ, ◌+◌, ◌*◌, Bytes, Exec, ok, ◌>>=◌, u16, u64, u128, Bool, ◌&&◌, ltb, if◌then◌else◌, Option, none,
  some, List, [], ◌∷◌, ◌++◌, map, length, take,
}
use iagon_network_explorer_n.Domain.{
  UtxoId, DParameter, CandidateRegistrations, PermissionedCandidateData,
}
use iagon_network_explorer_n.Selection
use iagon_network_explorer_n.Selection.{seed_from_nonce_and_sc_epoch}
use iagon_network_explorer_n.Selection.Interfaces.{ChaCha20Rng, U256}
use iagon_network_explorer_n.Candidates.{
  Candidate, CandidateWithStake, filter_trustless_candidates_registrations,
  filter_invalid_permissioned_candidates,
}
use iagon_network_explorer_n.Candidates.Interfaces.{Crypto, Accounts}

pub record AuthoritySelectionInputs : Type 0 where
  pub d_parameter : DParameter
  pub permissioned_candidates : List PermissionedCandidateData
  pub registered_candidates : List CandidateRegistrations
  pub epoch_nonce : Bytes

-- `iter().sum()` over u64
unfoldable pub sum_u64 : ℕ → List ℕ → ℕ
sum_u64 acc [] = acc
sum_u64 acc (n ∷ ns) = sum_u64 (u64 (acc + n)) ns

unfoldable pub weight_factor : DParameter → ℕ → ℕ
weight_factor d permissioned_candidates_count =
    if ltb 0 permissioned_candidates_count
    then u128 (d.num_registered_candidates * permissioned_candidates_count)
    else 1

module _ {ℓ κ} {A : Type ℓ} {B : Type κ} where
  unfoldable pub trustless_candidates_with_weights :
      List (CandidateWithStake A B) → DParameter → ℕ → List (Candidate A B × ℕ)
  unfolding weight_factor
  trustless_candidates_with_weights trustless_candidates d count =
      map (λ c. (c.candidate, u128 (c.stake_delegation * weight_factor d count)))
        trustless_candidates

  unfoldable pub permissioned_weight : DParameter → List (CandidateWithStake A B) → ℕ
  unfolding sum_u64
  permissioned_weight d valid_trustless_candidates =
      let total_stake = sum_u64 0 (map (λ c. c.stake_delegation) valid_trustless_candidates) in
      if ltb 0 total_stake && ltb 0 d.num_registered_candidates
      then u128 (d.num_permissioned_candidates * total_stake)
      else 1

  unfoldable pub permissioned_candidates_with_weights :
      List (Candidate A B) → DParameter → List (CandidateWithStake A B) → List (Candidate A B × ℕ)
  unfolding permissioned_weight
  permissioned_candidates_with_weights permissioned_candidates d valid_trustless_candidates =
      map (λ c. (c, permissioned_weight d valid_trustless_candidates)) permissioned_candidates

-- The stable `sort_by`: an entry goes before the entries behind it that are not smaller.
module _ {ℓ} {A : Type ℓ} (cmp : A → A → Ordering) where
  unfoldable pub insert_sorted : A → List A → List A
  insert_sorted x [] = x ∷ []
  insert_sorted x (y ∷ ys) =
      let rest = insert_sorted x ys in elim (cmp x y) [ gt ↦ y ∷ rest | _ ↦ x ∷ y ∷ ys ]

  unfoldable pub sort_by : List A → List A
  unfolding insert_sorted
  sort_by [] = []
  sort_by (x ∷ xs) = insert_sorted x (sort_by xs)

module _ (k : Crypto) (t : Accounts) (g : ChaCha20Rng) (u : U256) (max_validators : ℕ) where
  open t use {AccountId, AccountKeys, cmp}

  unfoldable pub weighted_selection :
      List (Candidate AccountId AccountKeys × ℕ)
      → ℕ
      → List ℕ
      → Exec (Option (List (AccountId × AccountKeys)))
  weighted_selection candidates size random_seed = do
    selected ← Selection.select_authorities g candidates random_seed size
    ok (elim selected [
      | none ↦ none
      | some cs ↦ some (map (λ c. (c.account_id, c.account_keys)) cs)
    ])

  -- The candidates with their weights, in the order of their accounts.
  unfoldable pub candidates_with_weight :
      UtxoId → AuthoritySelectionInputs → List (Candidate AccountId AccountKeys × ℕ)
  unfolding trustless_candidates_with_weights permissioned_candidates_with_weights sort_by
  candidates_with_weight genesis_utxo input =
      let valid_trustless_candidates =
        filter_trustless_candidates_registrations k t input.registered_candidates genesis_utxo in
      let valid_permissioned_candidates =
        filter_invalid_permissioned_candidates k t input.permissioned_candidates in
      sort_by (λ a b. cmp a.0.account_id b.0.account_id)
        (trustless_candidates_with_weights valid_trustless_candidates input.d_parameter
            (length valid_permissioned_candidates)
          ++ permissioned_candidates_with_weights valid_permissioned_candidates input.d_parameter
              valid_trustless_candidates)

  -- `BoundedVec::truncate_from` keeps the first `max_validators`.
  unfoldable pub select_authorities :
      UtxoId → AuthoritySelectionInputs → ℕ → Exec (Option (List (AccountId × AccountKeys)))
  unfolding candidates_with_weight weighted_selection
  select_authorities genesis_utxo input sidechain_epoch = do
    let random_seed = seed_from_nonce_and_sc_epoch u input.epoch_nonce sidechain_epoch
    let committee_size = u16 (
        input.d_parameter.num_registered_candidates + input.d_parameter.num_permissioned_candidates)
    selected ←
        weighted_selection (candidates_with_weight genesis_utxo input) committee_size random_seed
    ok (elim selected [ none ↦ none | some validators ↦ some (take max_validators validators) ])

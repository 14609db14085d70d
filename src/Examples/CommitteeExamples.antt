-- ===== src/Examples/CommitteeExamples.antt =====
-- Runs of
-- toolkit/primitives/authority-selection-inherents/src/select_authorities.rs.
use Prim.Native.Nat.{compare}
use mathlib.Core.List.Permᴰ.{nil, cons, swap}
use iagon_network_explorer_n.Prelude.{
  ℕ, Bytes, bytes_eq, ◌*◌, ◌≡◌, refl, arith, ok, some, List, [], ◌∷◌, length,
}
use iagon_network_explorer_n.Domain.{DParameter}
use iagon_network_explorer_n.Candidates.{
  Candidate, CandidateWithStake, filter_trustless_candidates_registrations,
  filter_invalid_permissioned_candidates, select_latest_valid_candidate, validate_registration_data,
}
use iagon_network_explorer_n.Selection.Window.{total_weight}
use iagon_network_explorer_n.Authorities.{
  AuthoritySelectionInputs, trustless_candidates_with_weights, permissioned_candidates_with_weights,
  select_authorities,
}
use iagon_network_explorer_n.Authorities.Sorting.{IsOrder}
use iagon_network_explorer_n.Authorities.Ratio.{d_parameter_ratio}
use iagon_network_explorer_n.Authorities.Committee.{select_authorities_committee}
use iagon_network_explorer_n.Examples.Fixtures.{
  bytes, counting_rng, plain_words, echo_crypto, numbered_accounts, genesis_utxo, registered,
  permissioned_candidate,
}
use iagon_network_explorer_n.Domain.{PermissionedCandidateData}
use iagon_network_explorer_n.Authorities.Independence.{select_authorities-Permᴰ_invariant}

abbrev d_parameter : DParameter
d_parameter = record { num_permissioned_candidates = 3; num_registered_candidates = 2 }

abbrev staked : ℕ → ℕ → CandidateWithStake ℕ ℕ
staked id stake = record {
  candidate = record { account_id = id; account_keys = id };
  stake_delegation = stake;
}

abbrev trustless : List (CandidateWithStake ℕ ℕ)
trustless = staked 1 700 ∷ staked 2 300 ∷ []

abbrev permissioned : List (Candidate ℕ ℕ)
permissioned =
    record { account_id = 3; account_keys = 3 } ∷ record { account_id = 4; account_keys = 4 } ∷ []

d_parameter_ratio_example :
    total_weight (trustless_candidates_with_weights trustless d_parameter 2) * 3
    ≡ total_weight (permissioned_candidates_with_weights permissioned d_parameter trustless) * 2
d_parameter_ratio_example =
    d_parameter_ratio d_parameter trustless permissioned (omega arith) (omega arith) (omega arith)
      (omega arith) (omega arith) (omega arith) (omega arith)

abbrev input : AuthoritySelectionInputs
input = record {
  d_parameter = d_parameter;
  permissioned_candidates = permissioned_candidate ∷ [];
  registered_candidates = registered ∷ [];
  epoch_nonce = bytes 32 1;
}

select_authorities_committee_example :
    (committee : List (ℕ × (Bytes × Bytes))) × (select_authorities echo_crypto numbered_accounts
        counting_rng plain_words 32 genesis_utxo input 40
      ≡ ok (some committee))
    × (length committee ≡ 5)
unfolding filter_trustless_candidates_registrations filter_invalid_permissioned_candidates
    select_latest_valid_candidate validate_registration_data bytes_eq
select_authorities_committee_example =
    select_authorities_committee echo_crypto numbered_accounts counting_rng plain_words 32
      genesis_utxo input 40 (omega arith) (omega arith) (omega arith) (omega arith) (omega arith)

compare-IsOrder : IsOrder compare
compare-IsOrder = record {
  gt_of_lt = numbered_accounts.gt_of_lt;
  lt_of_gt = numbered_accounts.lt_of_gt;
  lt_trans = numbered_accounts.lt_trans;
  eq_lt_trans = λ a b c h k. ground arith;
}

abbrev other_candidate : PermissionedCandidateData
other_candidate = record permissioned_candidate { sidechain_public_key = bytes 33 6 }

abbrev input_of_two : AuthoritySelectionInputs
input_of_two = record input {
  permissioned_candidates = permissioned_candidate ∷ other_candidate ∷ [];
}

select_authorities-Permᴰ_invariant_example :
    select_authorities echo_crypto numbered_accounts counting_rng plain_words 32 genesis_utxo
      input_of_two 40
    ≡ select_authorities echo_crypto numbered_accounts counting_rng plain_words 32 genesis_utxo
        (record input { permissioned_candidates = other_candidate ∷ permissioned_candidate ∷ [] })
        40
unfolding filter_trustless_candidates_registrations filter_invalid_permissioned_candidates
    select_latest_valid_candidate validate_registration_data bytes_eq
    trustless_candidates_with_weights permissioned_candidates_with_weights
select_authorities-Permᴰ_invariant_example =
    select_authorities-Permᴰ_invariant echo_crypto numbered_accounts counting_rng plain_words 32
      genesis_utxo input_of_two (registered ∷ []) (other_candidate ∷ permissioned_candidate ∷ []) 40
      (cons refl nil) (swap refl refl) (omega arith)
      (
        ((λ h. ground arith, λ h. ground arith), ((λ h. ground arith, λ h. ground arith), tt)),
        (((λ h. ground arith, λ h. ground arith), tt), (tt, tt)),
      )

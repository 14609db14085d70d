-- ===== src/Authorities/Ratio.antt =====
-- The D-parameter as the ratio of the weights that select_authorities.rs gives to the registered
-- and to the permissioned candidates.
use iagon_network_explorer_n.Prelude.{◌*◌, ◌^◌, ◌<◌, ◌≡◌, arith, List, length}
use iagon_network_explorer_n.Domain.{DParameter}
use iagon_network_explorer_n.Candidates.{Candidate, CandidateWithStake}
use iagon_network_explorer_n.Selection.Window.{total_weight}
use iagon_network_explorer_n.Authorities.{
  weight_factor, trustless_candidates_with_weights, permissioned_weight,
  permissioned_candidates_with_weights,
}
use iagon_network_explorer_n.Authorities.Weights.{
  mul_bound, total_stake, sum_u64-eq-add, weight_factor-eq, total_weight-trustless,
  total_weight-permissioned,
}

module _ {ℓ κ} {A : Type ℓ} {B : Type κ} where
  pub permissioned_weight-eq :
      (d : DParameter) (vs : List (CandidateWithStake A B))
      → 0 < d.num_registered_candidates
      → d.num_permissioned_candidates < 2 ^ 16
      → 0 < total_stake vs
      → total_stake vs < 2 ^ 64
      → permissioned_weight d vs ≡ d.num_permissioned_candidates * total_stake vs
  unfolding permissioned_weight
  permissioned_weight-eq d vs t p w h = ground (
    arith,
    sum_u64-eq-add 0 vs (omega arith),
    mul_bound d.num_permissioned_candidates (total_stake vs) (2 ^ 16) (2 ^ 64) p h,
  )

  -- With registered and permissioned candidates, a D-parameter that asks for registered ones, and
  -- total stake and counts in the range of their types, the weight of all registered candidates
  -- is to the weight of all permissioned ones as the D-parameter's number of registered candidates
  -- is to its number of permissioned candidates, whatever the stakes and the number of candidates
  -- are.
  pub d_parameter_ratio :
      (d : DParameter) (vs : List (CandidateWithStake A B)) (cs : List (Candidate A B))
      → 0 < d.num_registered_candidates
      → d.num_registered_candidates < 2 ^ 16
      → d.num_permissioned_candidates < 2 ^ 16
      → 0 < length cs
      → length cs < 2 ^ 32
      → 0 < total_stake vs
      → total_stake vs < 2 ^ 64
      → total_weight (trustless_candidates_with_weights vs d (length cs))
          * d.num_permissioned_candidates
        ≡ total_weight (permissioned_candidates_with_weights cs d vs) * d.num_registered_candidates
  d_parameter_ratio d vs cs t t16 p16 n n32 w w64 =
      let f = weight_factor-eq d (length cs) t16 n32 n in
      let f64 : weight_factor d (length cs) < 2 ^ 64 =
        omega
          (arith, f, mul_bound d.num_registered_candidates (length cs) (2 ^ 16) (2 ^ 32) t16 n32) in
      let a = total_weight-trustless vs d (length cs) w64 f64 in
      let b = total_weight-permissioned cs d vs in
      let q = permissioned_weight-eq d vs t p16 w w64 in rw (a, b, f, q) (grind arith)

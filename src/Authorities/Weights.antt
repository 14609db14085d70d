-- ===== src/Authorities/Weights.antt =====
-- The weights that select_authorities.rs gives to the candidates, added up.
use native.Mathlib.Nat.{mul-le-mul}
use iagon_network_explorer_n.Prelude.{
  ℕ, zero, suc, ◌+◌, ◌*◌, ◌^◌, ◌≤◌, ◌<◌, ◌≡◌, arith, u64, u128, List, [], ◌∷◌, ◌++◌, map, length,
}
use iagon_network_explorer_n.Domain.{DParameter}
use iagon_network_explorer_n.Candidates.{Candidate, CandidateWithStake}
use iagon_network_explorer_n.Selection.Window.{total_weight}
use iagon_network_explorer_n.Authorities.{
  sum_u64, weight_factor, trustless_candidates_with_weights, permissioned_weight,
  permissioned_candidates_with_weights,
}

pub total_weight-append {ℓ} :
    {T : Type ℓ} (xs ys : List (T × ℕ))
    → total_weight (xs ++ ys) ≡ total_weight xs + total_weight ys
total_weight-append [] ys = omega arith
total_weight-append (x ∷ xs) ys = omega (arith, total_weight-append xs ys)

pub mul_bound : (a b c d : ℕ) → a < c → b < d → a * b < c * d
mul_bound a b zero d h k = absurd (omega arith)
mul_bound a b (suc c) zero h k = absurd (omega arith)
mul_bound a b (suc c) (suc d) h k =
    let h' : a ≤ c = omega arith in
    let k' : b ≤ d = omega arith in let p : a * b ≤ c * d = mul-le-mul h' k' in grind arith

pub mul_pos : (a b : ℕ) → 0 < a → 0 < b → 0 < a * b
mul_pos (suc a) (suc b) h k = grind arith
mul_pos zero b h k = absurd (omega arith)
mul_pos (suc a) zero h k = absurd (omega arith)

pub weight_factor-eq :
    (d : DParameter) (n : ℕ)
    → d.num_registered_candidates < 2 ^ 16
    → n < 2 ^ 32
    → 0 < n
    → weight_factor d n ≡ d.num_registered_candidates * n
unfolding weight_factor
weight_factor-eq d n h k pos =
    ground (arith, mul_bound d.num_registered_candidates n (2 ^ 16) (2 ^ 32) h k)

module _ {ℓ κ} {A : Type ℓ} {B : Type κ} where
  -- The stake of the candidates, with no bound on the sum.
  abbrev pub total_stake : List (CandidateWithStake A B) → ℕ
  total_stake [] = 0
  total_stake (v ∷ vs) = v.stake_delegation + total_stake vs

  pub sum_u64-eq-add :
      (acc : ℕ) (vs : List (CandidateWithStake A B))
      → acc + total_stake vs < 2 ^ 64
      → sum_u64 acc (map (λ c. c.stake_delegation) vs) ≡ acc + total_stake vs
  unfolding sum_u64
  sum_u64-eq-add acc [] h = omega arith
  sum_u64-eq-add acc (v ∷ vs) h =
      let fits : u64 (acc + v.stake_delegation) ≡ acc + v.stake_delegation = omega arith in
      rw (fits, sum_u64) (omega (arith, sum_u64-eq-add (acc + v.stake_delegation) vs (omega arith)))

  pub total_weight-trustless :
      (vs : List (CandidateWithStake A B)) (d : DParameter) (n : ℕ)
      → total_stake vs < 2 ^ 64
      → weight_factor d n < 2 ^ 64
      → total_weight (trustless_candidates_with_weights vs d n) ≡ total_stake vs * weight_factor d n
  unfolding trustless_candidates_with_weights
  total_weight-trustless [] d n h k = grind arith
  total_weight-trustless (v ∷ vs) d n h k =
      let fits : v.stake_delegation * weight_factor d n < 2 ^ 128 = grind (
        arith,
        mul_bound v.stake_delegation (weight_factor d n) (2 ^ 64) (2 ^ 64) (omega arith) k,
      ) in
      let ih = total_weight-trustless vs d n (omega arith) k in
      let same : u128 (v.stake_delegation * weight_factor d n)
          ≡ v.stake_delegation * weight_factor d n =
        omega arith in
      grind arith

  pub total_weight-permissioned :
      (cs : List (Candidate A B)) (d : DParameter) (vs : List (CandidateWithStake A B))
      → total_weight (permissioned_candidates_with_weights cs d vs)
        ≡ length cs * permissioned_weight d vs
  unfolding permissioned_candidates_with_weights
  total_weight-permissioned [] d vs = grind arith
  total_weight-permissioned (c ∷ cs) d vs =
      let ih = total_weight-permissioned cs d vs in grind arith

-- ===== src/Candidates/Filters.antt =====
-- The candidates that the filters of filter_invalid_candidates.rs let through.
use iagon_network_explorer_n.Prelude.{
  ◌<◌, inl, inr, Option-cases, List, [], ◌∷◌, All, ◌≤◌, length, arith,
}
use iagon_network_explorer_n.Domain.{UtxoId, CandidateRegistrations, PermissionedCandidateData}
use iagon_network_explorer_n.Candidates.{
  select_latest_valid_candidate, filter_trustless_candidates_registrations,
  filter_invalid_permissioned_candidates,
}
use iagon_network_explorer_n.Candidates.Interfaces.{Crypto, Accounts}
use iagon_network_explorer_n.Candidates.Latest.{select_latest_valid_candidate-IsLatest}

module _ (k : Crypto) (t : Accounts) where
  open t use {AccountId, AccountKeys}

  -- Every candidate that the filter returns has a positive stake.
  pub filter_trustless-positive :
      (cs : List CandidateRegistrations) (g : UtxoId)
      → All (λ v. 0 < v.stake_delegation) (filter_trustless_candidates_registrations k t cs g)
  unfolding filter_trustless_candidates_registrations
  filter_trustless-positive [] g = tt
  filter_trustless-positive (c ∷ cs) g =
      elim (Option-cases (select_latest_valid_candidate k t c g)) [
        | inl e ↦ rw (e, filter_trustless_candidates_registrations) (filter_trustless-positive cs g)
        | inr (v, e) ↦
            let (d, l, id, keys, stake, pos) = select_latest_valid_candidate-IsLatest k t c g v e in
            rw (e, filter_trustless_candidates_registrations) (pos, filter_trustless-positive cs g)
      ]

  pub length-filter_permissioned :
      (cs : List PermissionedCandidateData)
      → length (filter_invalid_permissioned_candidates k t cs) ≤ length cs
  unfolding filter_invalid_permissioned_candidates
  length-filter_permissioned [] = omega arith
  length-filter_permissioned (c ∷ cs) = ground (arith, length-filter_permissioned cs)

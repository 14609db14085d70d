-- ===== src/ValidatorManagement/Inherents.antt =====
-- How the inherent of the committee pallet is made, checked and executed.
use iagon_network_explorer_n.Prelude.{
  ℕ, ◌+◌, ◌≡◌, ◌↔◌, refl, arith, ok, true, some, List, [], ◌∷◌, u64, Bool-cases, ==_iff, inl, inr,
  ◌==◌,
}
use iagon_network_explorer_n.ValidatorManagement.{
  Origin, none_origin, root_origin, signed_origin, Storage, validators_eq, set,
}
use iagon_network_explorer_n.ValidatorManagement.Interfaces.{Config}

module _ (c : Config) where
  open c use {AuthorityId, AuthorityKeys, AuthoritySelectionInputs, same, same_iff}

  pub validators_eq_iff :
      (xs ys : List (AuthorityId × AuthorityKeys)) → (validators_eq c xs ys ≡ true) ↔ (xs ≡ ys)
  unfolding validators_eq
  validators_eq_iff [] [] = ground arith
  validators_eq_iff [] (y ∷ ys) = ground arith
  validators_eq_iff (x ∷ xs) [] = ground arith
  validators_eq_iff (x ∷ xs) (y ∷ ys) = ground (arith, same_iff x y, validators_eq_iff xs ys)

  -- `set` succeeds exactly for the origin of inherents and the epoch after the current one, and then
  -- it stores the validators for that epoch as the next committee and changes nothing else.
  pub set_iff :
      (origin : Origin) (validators : List (AuthorityId × AuthorityKeys)) (for_epoch_number : ℕ)
      (s s' : Storage AuthorityId AuthorityKeys)
      → (set c origin validators for_epoch_number s ≡ ok s') ↔ (
          (origin ≡ none_origin)
          × (for_epoch_number ≡ u64 (s.current_committee.epoch + 1))
          × (s' ≡ record s {
            next_committee_value =
                some (record { epoch = for_epoch_number; committee = validators });
          }))
  unfolding set
  set_iff none_origin validators for_epoch_number s s' =
      elim (Bool-cases (for_epoch_number == u64 (s.current_committee.epoch + 1))) [
        | inl equal ↦ rw equal (λ h. (refl, (==_iff _ _).0 equal, cc), λ h. cc h.2)
        | inr other ↦ rw other (λ h. cc, λ h. ground (arith, other, h.1))
      ]
  set_iff root_origin validators for_epoch_number s s' = ((λ h. cc), λ h. cc h.0)
  set_iff signed_origin validators for_epoch_number s s' = ((λ h. cc), λ h. cc h.0)

-- ===== src/Session/Providers.antt =====
-- The provider references that toolkit/pallets/partner-chains-session/src/lib.rs keeps on the
-- accounts of the validators.
use iagon_network_explorer_n.Prelude.{
  ◌≡◌, refl, arith, ok, true, false, List, [], ◌∷◌, map, if◌then◌else◌, Option-cases, inl, inr,
}
use iagon_network_explorer_n.Session.{
  Storage, acc_ids, contains_account, difference, change_account_providers, rotate_validators,
  inc_all, dec_all, disable, disable_index, position,
}
use iagon_network_explorer_n.Session.Interfaces.{Config}

module _ (c : Config) where
  open c use {ValidatorId, Keys, AccountId, World, Manager, same_account, same_account_iff}

  contains_account_refl :
      (a : AccountId) (xs : List AccountId) → contains_account c a (a ∷ xs) ≡ true
  unfolding contains_account
  contains_account_refl a xs = rw ((same_account_iff a a).1 refl)

  -- `xs` is included in `ys`.
  abbrev Includes : List AccountId → List AccountId → Type 0
  Includes ys xs = (a : AccountId) → contains_account c a xs ≡ true → contains_account c a ys ≡ true

  difference_included : (xs ys : List AccountId) → Includes ys xs → difference c xs ys ≡ []
  unfolding difference contains_account
  difference_included [] ys h = refl
  difference_included (x ∷ xs) ys h =
      let here = h x (contains_account_refl x xs) in
      let rest : Includes ys xs = λ a p. h a (ground (arith, p)) in
      ground (arith, here, difference_included xs ys rest)

  -- The provider references do not change with the validators: `rotate_validators` succeeds, stores
  -- the new validators, enables all of them and leaves the accounts of frame_system as they are,
  -- whichever accounts come and go.
  pub rotate_validators-keeps_providers :
      (vs : List (ValidatorId × Keys)) (s : Storage ValidatorId Keys World Manager)
      → rotate_validators c vs s
        ≡ ok (record s {
          validators_and_keys = vs;
          validators = if c.polkadot_js_compat then map (λ v. v.0) vs else s.validators;
          disabled_validators = [];
        })
  unfolding rotate_validators change_account_providers inc_all dec_all
  rotate_validators-keeps_providers vs s =
      rw (difference_included (acc_ids c vs) (acc_ids c vs) (λ a p. p), change_account_providers)

  -- Without the feature `polkadot-js-compat` the list `Validators` stays empty through a change of
  -- validators, and then no validator can be disabled: `disable` returns false for every one and
  -- changes nothing.
  pub disable_without_polkadot_js_compat :
      (vs : List (ValidatorId × Keys)) (s : Storage ValidatorId Keys World Manager)
      (v : ValidatorId)
      → c.polkadot_js_compat ≡ false
      → s.validators ≡ []
      → (s' : Storage ValidatorId Keys World Manager) × (rotate_validators c vs s ≡ ok s')
        × (s'.validators_and_keys ≡ vs)
        × (s'.validators ≡ [])
        × (disable c v s' ≡ (false, s'))
  unfolding disable
  disable_without_polkadot_js_compat vs s v off empty =
      let s' : Storage ValidatorId Keys World Manager = record s {
        validators_and_keys = vs;
        disabled_validators = [];
      } in
      let stored : rotate_validators c vs s ≡ ok s' =
        rw (rotate_validators-keeps_providers vs s) (rw off) in
      (
        s',
        stored,
        refl,
        empty,
        elim (Option-cases (position c v 0 vs)) [
          | inl e ↦ rw (e, disable)
          | inr (i, e) ↦ rw (e, disable) (rw (empty, disable_index) (ground arith))
        ],
      )

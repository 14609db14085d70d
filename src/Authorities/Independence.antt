-- ===== src/Authorities/Independence.antt =====
-- The committee of select_authorities.rs does not depend on the order in which the candidates come.
use Prim.Native.Nat.{Ordering}
use Prim.Native.Nat.Ordering.{lt}
use mathlib.Core.List.{Permᴰ}
use mathlib.Core.List.Permᴰ
use mathlib.Core.List.Permᴰ.{nil, cons, swap, trans}
use iagon_network_explorer_n.Prelude.{
  ℕ, suc, ◌^◌, ◌<◌, ◌≡◌, refl, ap, sym, subst, ◌∙◌, arith, ok, Option, none, some, Option-cases,
  inl, inr, List, [], ◌∷◌, ◌++◌, map, length,
}
use iagon_network_explorer_n.Domain.{
  UtxoId, DParameter, CandidateRegistrations, PermissionedCandidateData,
}
use iagon_network_explorer_n.Candidates.{
  Candidate, CandidateWithStake, select_latest_valid_candidate,
  validate_permissioned_candidate_data, filter_trustless_candidates_registrations,
  filter_invalid_permissioned_candidates,
}
use iagon_network_explorer_n.Candidates.Interfaces.{Crypto, Accounts}
use iagon_network_explorer_n.Selection.Interfaces.{ChaCha20Rng, U256}
use iagon_network_explorer_n.Authorities.{
  AuthoritySelectionInputs, trustless_candidates_with_weights, permissioned_candidates_with_weights,
  permissioned_weight, candidates_with_weight, select_authorities,
}
use iagon_network_explorer_n.Authorities.Sorting.{IsOrder, Distinct, sort_by-Permᴰ_invariant}
use iagon_network_explorer_n.Authorities.Weights.{total_stake, sum_u64-eq-add}

module _ {ℓ κ} {A : Type ℓ} {B : Type κ} where
  -- Keeping what `f` maps to a value, in the order of the list.
  abbrev pub keep : (A → Option B) → List A → List B
  keep f [] = []
  keep f (x ∷ xs) = let rest = keep f xs in elim (f x) [ none ↦ rest | some y ↦ y ∷ rest ]

  keep_swap :
      (f : A → Option B) (x y : A) (l : List A) → Permᴰ (keep f (x ∷ y ∷ l)) (keep f (y ∷ x ∷ l))
  keep_swap f x y l = go (f x) (f y)
    where
      go :
          (a b : Option B)
          → Permᴰ
              (elim a [
                | none ↦ elim b [ none ↦ keep f l | some v ↦ v ∷ keep f l ]
                | some u ↦ u ∷ (elim b [ none ↦ keep f l | some v ↦ v ∷ keep f l ])
              ])
              (elim b [
                | none ↦ elim a [ none ↦ keep f l | some v ↦ v ∷ keep f l ]
                | some u ↦ u ∷ (elim a [ none ↦ keep f l | some v ↦ v ∷ keep f l ])
              ])
      go none none = Permᴰ.refl (keep f l)
      go none (some v) = Permᴰ.refl (v ∷ keep f l)
      go (some u) none = Permᴰ.refl (u ∷ keep f l)
      go (some u) (some v) = swap refl refl

  keep_cons :
      (f : A → Option B) (x : A) (xs ys : List A)
      → Permᴰ (keep f xs) (keep f ys)
      → Permᴰ (keep f (x ∷ xs)) (keep f (x ∷ ys))
  keep_cons f x xs ys p = elim (Option-cases (f x)) [
    | inl e ↦ rw (e, keep) p
    | inr (y, e) ↦ rw (e, keep) (cons refl p)
  ]

  pub keep-Permᴰ : (f : A → Option B) {xs ys : List A} → Permᴰ xs ys → Permᴰ (keep f xs) (keep f ys)
  keep-Permᴰ f nil = nil
  keep-Permᴰ f (cons {a} {l₁} {l₂} e p) =
      subst (λ z. Permᴰ (keep f (a ∷ l₁)) (keep f (z ∷ l₂))) e
        (keep_cons f a l₁ l₂ (keep-Permᴰ f p))
  keep-Permᴰ f (swap {a} {b} {b'} {l} e e') =
      subst (λ z. Permᴰ (keep f (a ∷ b ∷ l)) (keep f (z ∷ b' ∷ l))) e'
        (subst (λ z. Permᴰ (keep f (a ∷ b ∷ l)) (keep f (b ∷ z ∷ l))) e (keep_swap f a b l))
  keep-Permᴰ f (trans p q) = trans (keep-Permᴰ f p) (keep-Permᴰ f q)

  pub map-Permᴰ : (f : A → B) {xs ys : List A} → Permᴰ xs ys → Permᴰ (map f xs) (map f ys)
  map-Permᴰ f nil = nil
  map-Permᴰ f (cons e p) = cons (ap f e) (map-Permᴰ f p)
  map-Permᴰ f (swap e e') = swap (ap f e) (ap f e')
  map-Permᴰ f (trans p q) = trans (map-Permᴰ f p) (map-Permᴰ f q)

  total_stake-Permᴰ :
      {xs ys : List (CandidateWithStake A B)} → Permᴰ xs ys → total_stake xs ≡ total_stake ys
  total_stake-Permᴰ nil = refl
  total_stake-Permᴰ (cons e p) = omega (arith, ap (λ v. v.stake_delegation) e, total_stake-Permᴰ p)
  total_stake-Permᴰ (swap e e') =
      omega (arith, ap (λ v. v.stake_delegation) e, ap (λ v. v.stake_delegation) e')
  total_stake-Permᴰ (trans p q) = total_stake-Permᴰ p ∙ total_stake-Permᴰ q

length-Permᴰ {ℓ} : {A : Type ℓ} {xs ys : List A} → Permᴰ xs ys → length xs ≡ length ys
length-Permᴰ nil = refl
length-Permᴰ (cons e p) = ap suc (length-Permᴰ p)
length-Permᴰ (swap e e') = refl
length-Permᴰ (trans p q) = length-Permᴰ p ∙ length-Permᴰ q

append-Permᴰ {ℓ} :
    {A : Type ℓ} {xs xs' ys ys' : List A}
    → Permᴰ xs xs'
    → Permᴰ ys ys'
    → Permᴰ (xs ++ ys) (xs' ++ ys')
append-Permᴰ {xs'} {ys} p q = trans (Permᴰ.append_right ys p) (Permᴰ.append_left xs' q)

module _ (k : Crypto) (t : Accounts) where
  open t use {AccountId, AccountKeys, keys_of}

  filter_trustless-eq-keep :
      (cs : List CandidateRegistrations) (g : UtxoId)
      → filter_trustless_candidates_registrations k t cs g
        ≡ keep (λ c. select_latest_valid_candidate k t c g) cs
  unfolding filter_trustless_candidates_registrations
  filter_trustless-eq-keep [] g = refl
  filter_trustless-eq-keep (c ∷ cs) g = ground (arith, filter_trustless-eq-keep cs g)

  pub filter_trustless-Permᴰ :
      (g : UtxoId) {cs cs' : List CandidateRegistrations}
      → Permᴰ cs cs'
      → Permᴰ
          (filter_trustless_candidates_registrations k t cs g)
          (filter_trustless_candidates_registrations k t cs' g)
  filter_trustless-Permᴰ g {cs} {cs'} p =
      rw (filter_trustless-eq-keep cs g, filter_trustless-eq-keep cs' g)
        (keep-Permᴰ (λ c. select_latest_valid_candidate k t c g) p)

  abbrev permissioned_of : PermissionedCandidateData → Option (Candidate AccountId AccountKeys)
  permissioned_of c = elim (validate_permissioned_candidate_data k t c) [
    | ok (account_id, aura_key, grandpa_key) ↦
        some (record { account_id = account_id; account_keys = keys_of (aura_key, grandpa_key) })
    | _ ↦ none
  ]

  filter_permissioned-eq-keep :
      (cs : List PermissionedCandidateData)
      → filter_invalid_permissioned_candidates k t cs ≡ keep permissioned_of cs
  unfolding filter_invalid_permissioned_candidates
  filter_permissioned-eq-keep [] = refl
  filter_permissioned-eq-keep (c ∷ cs) = ground (arith, filter_permissioned-eq-keep cs)

  filter_permissioned-Permᴰ :
      {cs cs' : List PermissionedCandidateData}
      → Permᴰ cs cs'
      → Permᴰ
          (filter_invalid_permissioned_candidates k t cs)
          (filter_invalid_permissioned_candidates k t cs')
  filter_permissioned-Permᴰ {cs} {cs'} p =
      rw (filter_permissioned-eq-keep cs, filter_permissioned-eq-keep cs')
        (keep-Permᴰ permissioned_of p)

module _ {ℓ κ} {A : Type ℓ} {B : Type κ} where
  permissioned_weight-Permᴰ :
      (d : DParameter) {vs vs' : List (CandidateWithStake A B)}
      → Permᴰ vs vs'
      → total_stake vs < 2 ^ 64
      → permissioned_weight d vs ≡ permissioned_weight d vs'
  unfolding permissioned_weight
  permissioned_weight-Permᴰ d {vs} {vs'} p fits =
      let same = total_stake-Permᴰ p in
      rw (sum_u64-eq-add 0 vs (omega arith), sum_u64-eq-add 0 vs' (omega arith), same)

  -- The candidates with their weights before they are sorted.
  abbrev pub weighted :
      DParameter → List (CandidateWithStake A B) → List (Candidate A B) → List (Candidate A B × ℕ)
  weighted d vs cs =
      trustless_candidates_with_weights vs d (length cs)
      ++ permissioned_candidates_with_weights cs d vs

  weighted-Permᴰ :
      (d : DParameter) {vs vs' : List (CandidateWithStake A B)} {cs cs' : List (Candidate A B)}
      → Permᴰ vs vs'
      → Permᴰ cs cs'
      → total_stake vs < 2 ^ 64
      → Permᴰ (weighted d vs cs) (weighted d vs' cs')
  unfolding trustless_candidates_with_weights permissioned_candidates_with_weights
  weighted-Permᴰ d {vs} {vs'} {cs} {cs'} p q fits =
      rw (sym (length-Permᴰ q), sym (permissioned_weight-Permᴰ d p fits))
        (append-Permᴰ (map-Permᴰ _ p) (map-Permᴰ _ q))

module _ (k : Crypto) (t : Accounts) (g : ChaCha20Rng) (u : U256) (max_validators : ℕ) where
  open t use {AccountId, AccountKeys, cmp}

  abbrev by_account :
      Candidate AccountId AccountKeys × ℕ → Candidate AccountId AccountKeys × ℕ → Ordering
  by_account a b = cmp a.0.account_id b.0.account_id

  by_account-IsOrder : IsOrder by_account
  by_account-IsOrder = record {
    gt_of_lt = λ a b. t.gt_of_lt a.0.account_id b.0.account_id;
    lt_of_gt = λ a b. t.lt_of_gt a.0.account_id b.0.account_id;
    lt_trans = λ a b c. t.lt_trans a.0.account_id b.0.account_id c.0.account_id;
    eq_lt_trans = λ a b c h e.
        subst (λ z. cmp a.0.account_id z ≡ lt) (t.eq_of_cmp b.0.account_id c.0.account_id e) h;
  }

  -- The committee does not depend on the order in which the data source lists the registered and the
  -- permissioned candidates: where no two valid candidates have the same account and the stake of
  -- the valid registered ones fits in u64, reordered inputs select the same committee.
  pub select_authorities-Permᴰ_invariant :
      (genesis_utxo : UtxoId) (input : AuthoritySelectionInputs)
      (registered : List CandidateRegistrations) (permissioned : List PermissionedCandidateData)
      (sidechain_epoch : ℕ)
      → Permᴰ input.registered_candidates registered
      → Permᴰ input.permissioned_candidates permissioned
      → total_stake
          (filter_trustless_candidates_registrations k t input.registered_candidates genesis_utxo)
        < 2 ^ 64
      → Distinct
          (λ a b. cmp a.0.account_id b.0.account_id)
          (weighted input.d_parameter
            (filter_trustless_candidates_registrations k t input.registered_candidates genesis_utxo)
            (filter_invalid_permissioned_candidates k t input.permissioned_candidates))
      → select_authorities k t g u max_validators genesis_utxo input sidechain_epoch
        ≡ select_authorities k t g u max_validators genesis_utxo
            (record input {
              registered_candidates = registered;
              permissioned_candidates = permissioned;
            })
            sidechain_epoch
  unfolding select_authorities candidates_with_weight
  select_authorities-Permᴰ_invariant genesis_utxo input registered permissioned sidechain_epoch p q
        fits distinct =
      let sorted =
        sort_by-Permᴰ_invariant by_account by_account-IsOrder
          (weighted-Permᴰ input.d_parameter (filter_trustless-Permᴰ k t genesis_utxo p)
            (filter_permissioned-Permᴰ k t q) fits)
          distinct in
      rw sorted

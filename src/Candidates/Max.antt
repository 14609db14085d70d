-- ===== src/Candidates/Max.antt =====
-- `max_by_key` of filter_invalid_candidates.rs: the last of the largest entries.
use iagon_network_explorer_n.Prelude.{
  ◌⊎◌, Bool-cases, inl, inr, ◌≡◌, refl, arith, true, false, some, none, List, [], ◌∷◌, All,
}
use iagon_network_explorer_n.Domain.{UtxoInfo, UtxoInfoOrderingKey, ordering_key, key_lt}
use iagon_network_explorer_n.Candidates.{max_from, max_by_key}

key_lt_trans_ge :
    (a b c : UtxoInfoOrderingKey) → key_lt b a ≡ false → key_lt c b ≡ false → key_lt c a ≡ false
unfolding key_lt
key_lt_trans_ge a b c h k = ground arith

key_lt_of_lt_ge :
    (a b c : UtxoInfoOrderingKey) → key_lt a b ≡ true → key_lt c b ≡ false → key_lt c a ≡ false
unfolding key_lt
key_lt_of_lt_ge a b c h k = ground arith

module _ {ℓ} {A : Type ℓ} where
  -- `m` is the last of the largest entries of the list.
  pub data IsMax : List (A × UtxoInfo) → A × UtxoInfo → Type ℓ where
    here :
        {m : A × UtxoInfo} {xs : List (A × UtxoInfo)}
        → All (λ x. key_lt (ordering_key x.1) (ordering_key m.1) ≡ true) xs
        → IsMax (m ∷ xs) m
    there :
        {x m : A × UtxoInfo} {xs : List (A × UtxoInfo)}
        → key_lt (ordering_key m.1) (ordering_key x.1) ≡ false
        → IsMax xs m
        → IsMax (x ∷ xs) m

  IsMax-insert :
      {best m : A × UtxoInfo} {cs : List (A × UtxoInfo)} (c : A × UtxoInfo)
      → key_lt (ordering_key c.1) (ordering_key best.1) ≡ true
      → IsMax (best ∷ cs) m
      → IsMax (best ∷ c ∷ cs) m
  IsMax-insert c lt (here all) = here (lt, all)
  IsMax-insert c lt (there ge rest) = there ge (there (key_lt_of_lt_ge _ _ _ lt ge) rest)

  IsMax-push :
      {c m : A × UtxoInfo} {cs : List (A × UtxoInfo)} (best : A × UtxoInfo)
      → key_lt (ordering_key c.1) (ordering_key best.1) ≡ false
      → IsMax (c ∷ cs) m
      → IsMax (best ∷ c ∷ cs) m
  IsMax-push best ge (here all) = there ge (here all)
  IsMax-push best ge (there le rest) = there (key_lt_trans_ge _ _ _ ge le) (there le rest)

  max_from-IsMax :
      (best : A × UtxoInfo) (cs : List (A × UtxoInfo)) → IsMax (best ∷ cs) (max_from best cs)
  unfolding max_from
  max_from-IsMax best [] = here tt
  max_from-IsMax best (c ∷ cs) =
      elim (Bool-cases (key_lt (ordering_key c.1) (ordering_key best.1))) [
        | inl lt ↦ rw lt (IsMax-insert c lt (max_from-IsMax best cs))
        | inr ge ↦ rw ge (IsMax-push best ge (max_from-IsMax c cs))
      ]

pub IsMax-inv {ℓ} :
    {A : Type ℓ} {e m : A × UtxoInfo} {xs : List (A × UtxoInfo)}
    → IsMax (e ∷ xs) m
    → ((m ≡ e) × All (λ x. key_lt (ordering_key x.1) (ordering_key m.1) ≡ true) xs)
      ⊎ ((key_lt (ordering_key m.1) (ordering_key e.1) ≡ false) × IsMax xs m)
IsMax-inv (here all) = inl (refl, all)
IsMax-inv (there ge rest) = inr (ge, rest)

pub not-IsMax-nil {ℓ} : {A : Type ℓ} {m : A × UtxoInfo} → ¬ IsMax [] m
not-IsMax-nil h = elim h [ ]

pub max_by_key_cases {ℓ} :
    {A : Type ℓ} (xs : List (A × UtxoInfo))
    → ((xs ≡ []) × (max_by_key xs ≡ none))
      ⊎ ((m : A × UtxoInfo) × (max_by_key xs ≡ some m) × IsMax xs m)
unfolding max_by_key
max_by_key_cases [] = inl (refl, refl)
max_by_key_cases (x ∷ xs) = inr (max_from x xs, refl, max_from-IsMax x xs)

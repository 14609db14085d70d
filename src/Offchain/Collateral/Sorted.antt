-- ===== src/Offchain/Collateral/Sorted.antt =====
-- The order in which toolkit/offchain/src/csl.rs takes the outputs for collateral.
use mathlib.Core.List.{Permᴰ}
use mathlib.Core.List.Permᴰ
use mathlib.Core.List.Permᴰ.{nil, cons, swap, trans}
use iagon_network_explorer_n.Prelude.{
  ℕ, ◌≤◌, refl, arith, Bool-cases, inl, inr, ltb, List, [], ◌∷◌, All,
}
use iagon_network_explorer_n.Offchain.{OgmiosUtxo, insert_largest, sort_largest}

-- No output has more lovelace than one before it.
abbrev pub Descending : List OgmiosUtxo → Type 0
Descending [] = Unit
Descending (u ∷ us) = All (λ v. v.value.lovelace ≤ u.value.lovelace) us × Descending us

insert_largest-All :
    (n : ℕ) (u : OgmiosUtxo) (us : List OgmiosUtxo)
    → u.value.lovelace ≤ n
    → All (λ v. v.value.lovelace ≤ n) us
    → All (λ v. v.value.lovelace ≤ n) (insert_largest u us)
unfolding insert_largest
insert_largest-All n u [] le all = (le, tt)
insert_largest-All n u (v ∷ vs) le all = elim (Bool-cases (ltb u.value.lovelace v.value.lovelace)) [
  | inl e ↦ rw e (all.0, insert_largest-All n u vs le all.1)
  | inr e ↦ rw e (le, all)
]

All-le :
    (n k : ℕ) (us : List OgmiosUtxo)
    → n ≤ k
    → All (λ v. v.value.lovelace ≤ n) us
    → All (λ v. v.value.lovelace ≤ k) us
All-le n k [] le all = tt
All-le n k (u ∷ us) le all = (let first = all.0 in omega arith, All-le n k us le all.1)

insert_largest-Descending :
    (u : OgmiosUtxo) (us : List OgmiosUtxo) → Descending us → Descending (insert_largest u us)
unfolding insert_largest
insert_largest-Descending u [] d = (tt, tt)
insert_largest-Descending u (v ∷ vs) d = elim (Bool-cases (ltb u.value.lovelace v.value.lovelace)) [
  | inl e ↦ rw e (
    insert_largest-All v.value.lovelace u vs (ground (arith, e)) d.0,
    insert_largest-Descending u vs d.1,
  )
  | inr e ↦
      rw e (
        (ground (arith, e), All-le v.value.lovelace u.value.lovelace vs (ground (arith, e)) d.0),
        d,
      )
]

pub sort_largest-Descending : (us : List OgmiosUtxo) → Descending (sort_largest us)
unfolding sort_largest
sort_largest-Descending [] = tt
sort_largest-Descending (u ∷ us) =
    insert_largest-Descending u (sort_largest us) (sort_largest-Descending us)

insert_largest-Permᴰ :
    (u : OgmiosUtxo) (us : List OgmiosUtxo) → Permᴰ (u ∷ us) (insert_largest u us)
unfolding insert_largest
insert_largest-Permᴰ u [] = Permᴰ.refl (u ∷ [])
insert_largest-Permᴰ u (v ∷ vs) = elim (Bool-cases (ltb u.value.lovelace v.value.lovelace)) [
  | inl e ↦ rw e (trans (swap refl refl) (cons refl (insert_largest-Permᴰ u vs)))
  | inr e ↦ rw e (Permᴰ.refl (u ∷ v ∷ vs))
]

pub sort_largest-Permᴰ : (us : List OgmiosUtxo) → Permᴰ us (sort_largest us)
unfolding sort_largest
sort_largest-Permᴰ [] = nil
sort_largest-Permᴰ (u ∷ us) =
    trans (cons refl (sort_largest-Permᴰ us)) (insert_largest-Permᴰ u (sort_largest us))

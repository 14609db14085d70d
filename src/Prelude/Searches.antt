-- ===== src/Prelude/Searches.antt =====
-- `filter`, `find`, sums and the greatest element of a list, over Boolean tests and native numbers.
use Prim.Native.Nat.{ℕ, ◌+◌, ◌≤◌}
use mathlib.Core.Path.{◌≡◌, refl, subst, ◌∙◌}
use mathlib.Core.Logic.{inl, inr}
use mathlib.Core.Bool.{Bool, true}
use mathlib.Core.List.{List, [], ◌∷◌}
use mathlib.Core.Option.{Option, none, some}
use native.Mathlib.Omega.{arith}
use iagon_network_explorer_n.Prelude.Tests.{ltb, if◌then◌else◌, Bool-cases, Option-cases}
use iagon_network_explorer_n.Prelude.Lists.{All}
use iagon_network_explorer_n.Prelude.Results.{some_inj}

unfoldable pub sum : List ℕ → ℕ
sum [] = 0
sum (n ∷ ns) = n + sum ns

module _ {ℓ} {A : Type ℓ} where
  unfoldable pub filter : (A → Bool) → List A → List A
  filter p [] = []
  filter p (x ∷ xs) = if p x then x ∷ filter p xs else filter p xs

  unfoldable pub find : (A → Bool) → List A → Option A
  find p [] = none
  find p (x ∷ xs) = let rest = find p xs in if p x then some x else rest

  -- The first element with the greatest key.
  unfoldable pub greatest : (A → ℕ) → List A → Option A
  greatest key [] = none
  greatest key (x ∷ xs) = elim (greatest key xs) [
    | none ↦ some x
    | some y ↦ if ltb (key x) (key y) then some y else some x
  ]

module _ {ℓ κ} {A : Type ℓ} (P : A → Type κ) where
  -- What passes a filter has been in the list and passes the test.
  pub All-filter {μ} :
      (Q : A → Type μ) (p : A → Bool) (xs : List A)
      → ((x : A) → P x → p x ≡ true → Q x)
      → All P xs
      → All Q (filter p xs)
  unfolding filter
  All-filter Q p [] h ps = tt
  All-filter Q p (x ∷ xs) h ps = elim (Bool-cases (p x)) [
    | inl e ↦ rw e (h x ps.0 e, All-filter Q p xs h ps.1)
    | inr e ↦ rw e (All-filter Q p xs h ps.1)
  ]

  -- What `find` returns is an element of the list.
  pub find-All : (p : A → Bool) (xs : List A) {x : A} → All P xs → find p xs ≡ some x → P x
  unfolding find
  find-All p [] h e = cc
  find-All p (y ∷ ys) {x} h e = elim (Bool-cases (p y)) [
    | inl t ↦ subst P (some_inj (rw t at e)) h.0
    | inr t ↦ find-All p ys h.1 (rw t at e)
  ]

  pub greatest-All : (key : A → ℕ) (xs : List A) {x : A} → All P xs → greatest key xs ≡ some x → P x
  unfolding greatest
  greatest-All key [] h e = cc
  greatest-All key (y ∷ ys) {x} h e = elim (Option-cases (greatest key ys)) [
    | inl n ↦ subst P (some_inj (rw n at e)) h.0
    | inr (z, q) ↦ elim (Bool-cases (ltb (key y) (key z))) [
      | inl t ↦ greatest-All key ys h.1 (q ∙ (rw (q, t) at e))
      | inr t ↦ subst P (some_inj (rw (q, t) at e)) h.0
    ]
  ]

-- What holds of all that passes a filter holds of whatever in the list passes it.
pub All-of_filter {ℓ κ} :
    {A : Type ℓ} (P : A → Type κ) (p : A → Bool) (xs : List A)
    → All P (filter p xs)
    → All (λ x. p x ≡ true → P x) xs
unfolding filter
All-of_filter P p [] h = tt
All-of_filter P p (x ∷ xs) h = elim (Bool-cases (p x)) [
  | inl e ↦ let hs = rw e at h in (λ _. hs.0, All-of_filter P p xs hs.1)
  | inr e ↦ (λ t. cc, All-of_filter P p xs (rw e at h))
]

-- What `find` returns passes the test.
pub find_passes {ℓ} :
    {A : Type ℓ} (p : A → Bool) (xs : List A) {x : A} → find p xs ≡ some x → p x ≡ true
unfolding find
find_passes p [] e = cc
find_passes p (y ∷ ys) {x} e = elim (Bool-cases (p y)) [
  | inl t ↦ subst (λ z. p z ≡ true) (some_inj (rw t at e)) t
  | inr t ↦ find_passes p ys (rw t at e)
]

module _ {ℓ} {A : Type ℓ} (key : A → ℕ) where
  pub greatest-none : (xs : List A) → greatest key xs ≡ none → xs ≡ []
  unfolding greatest
  greatest-none [] h = refl
  greatest-none (x ∷ xs) h = elim (Option-cases (greatest key xs)) [
    | inl n ↦ cc (rw n at h)
    | inr (z, q) ↦ ground (arith, q, h)
  ]

  All-le : (a b : ℕ) (xs : List A) → a ≤ b → All (λ y. key y ≤ a) xs → All (λ y. key y ≤ b) xs
  All-le a b [] le h = tt
  All-le a b (x ∷ xs) le h = (omega arith, All-le a b xs le h.1)

  -- No element has a greater key than the one that `greatest` returns.
  pub greatest_bounds :
      (xs : List A) {x : A} → greatest key xs ≡ some x → All (λ y. key y ≤ key x) xs
  unfolding greatest
  greatest_bounds [] h = tt
  greatest_bounds (y ∷ ys) {x} h = elim (Option-cases (greatest key ys)) [
    | inl n ↦ rw (greatest-none ys n) (ground (arith, n, h), tt)
    | inr (z, q) ↦ (
      ground (arith, q, h),
      All-le (key z) (key x) ys (ground (arith, q, h)) (greatest_bounds ys q),
    )
  ]

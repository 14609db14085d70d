-- ===== src/Follower/NativeTokens/Sums.antt =====
-- Sums over lists of blocks and amounts: what is weighed does not depend on the order of the list,
-- and a part between two places is the difference of two prefixes.
use iagon_network_explorer_n.Prelude.{
  ℕ, zero, suc, ◌+◌, ◌-◌, ◌^◌, ◌≤◌, ◌<◌, ◌≡◌, refl, arith, Bytes, bytes_eq, Bool-cases, inl, inr,
  Option-cases, Bool, ltb, leb, some, some_inj, ap, sym, ◌∙◌, List, [], ◌∷◌, map, take, drop,
  length, sum, filter, if◌then◌else◌, ◌&&◌,
}
use native.Mathlib.Nat.{suc-add}
use iagon_network_explorer_n.Selection.{sum_u128}
use iagon_network_explorer_n.Follower.Database.{BlockRow, insert_asc, order_asc}
use iagon_network_explorer_n.Follower.NativeTokens.{position, get_range, get_sum_in_range, take_to}

sum_u128-add : (acc : ℕ) (ns : List ℕ) → acc + sum ns < 2 ^ 128 → sum_u128 acc ns ≡ acc + sum ns
unfolding sum_u128 sum
sum_u128-add acc [] h = omega arith
sum_u128-add acc (n ∷ ns) h = ground (arith, sum_u128-add (acc + n) ns)

-- The sum on u128 is the sum where it fits.
pub sum_u128-eq-sum : (ns : List ℕ) → sum ns < 2 ^ 128 → sum_u128 0 ns ≡ sum ns
sum_u128-eq-sum ns h = omega (arith, sum_u128-add 0 ns (omega arith))

module _ (w : BlockRow → ℕ) where
  sum-insert_asc :
      (r : BlockRow) (rs : List BlockRow) → sum (map w (insert_asc r rs)) ≡ w r + sum (map w rs)
  unfolding sum insert_asc
  sum-insert_asc r [] = refl
  sum-insert_asc r (q ∷ qs) = ground (arith, sum-insert_asc r qs)

  sum-order_asc : (rs : List BlockRow) → sum (map w (order_asc rs)) ≡ sum (map w rs)
  unfolding sum order_asc
  sum-order_asc [] = refl
  sum-order_asc (r ∷ rs) = omega (arith, sum-insert_asc r (order_asc rs), sum-order_asc rs)

  pub sum-filter :
      (p : BlockRow → Bool) (rs : List BlockRow)
      → sum (map w (filter p rs)) ≡ sum (map (λ r. if p r then w r else 0) rs)
  unfolding sum filter
  sum-filter p [] = refl
  sum-filter p (r ∷ rs) = ground (arith, sum-filter p rs)

  pub sum-order_filter :
      (p : BlockRow → Bool) (rs : List BlockRow)
      → sum (map w (order_asc (filter p rs))) ≡ sum (map (λ r. if p r then w r else 0) rs)
  sum-order_filter p rs = omega (arith, sum-order_asc (filter p rs), sum-filter p rs)

pub sum-map_add {ℓ} :
    {A : Type ℓ} (f g h : A → ℕ) (xs : List A)
    → ((x : A) → f x ≡ g x + h x)
    → sum (map f xs) ≡ sum (map g xs) + sum (map h xs)
unfolding sum
sum-map_add f g h [] e = omega arith
sum-map_add f g h (x ∷ xs) e = omega (arith, e x, sum-map_add f g h xs e)

pub sum-map_mono {ℓ} :
    {A : Type ℓ} (f g : A → ℕ) (xs : List A)
    → ((x : A) → f x ≤ g x)
    → sum (map f xs) ≤ sum (map g xs)
unfolding sum
sum-map_mono f g [] e = omega arith
sum-map_mono f g (x ∷ xs) e = omega (arith, e x, sum-map_mono f g xs e)

-- The amounts of a list of entries.
abbrev pub amounts : List (Bytes × ℕ) → List ℕ
amounts = map (λ e. e.1)

take-nil {ℓ} : {A : Type ℓ} (n : ℕ) → take {A = A} n [] ≡ []
take-nil zero = refl
take-nil (suc n) = refl

sum-take-drop :
    (l : List (Bytes × ℕ)) (i d : ℕ)
    → sum (amounts (take d (drop i l))) + sum (amounts (take i l)) ≡ sum (amounts (take (i + d) l))
unfolding sum
sum-take-drop l zero d = ground arith
sum-take-drop [] (suc i) d = rw (take-nil d, take-nil (suc i + d))
sum-take-drop (e ∷ l) (suc i) d = rw suc-add (omega (arith, sum-take-drop l i d))

-- The sum up to the block, or of all where it does not occur.
unfoldable pub up_to : Bytes → List (Bytes × ℕ) → ℕ
up_to hash [] = 0
up_to hash ((block, amount) ∷ l) = amount + (if bytes_eq block hash then 0 else up_to hash l)

pub sum-take_to :
    (hash : Bytes) (l : List (Bytes × ℕ)) → sum (amounts (take_to hash l)) ≡ up_to hash l
unfolding take_to up_to sum
sum-take_to hash [] = refl
sum-take_to hash ((block, amount) ∷ l) = ground (arith, sum-take_to hash l)

sum-take-position :
    (hash : Bytes) (l : List (Bytes × ℕ)) {j : ℕ}
    → position hash l ≡ some j
    → sum (amounts (take (suc j) l)) ≡ up_to hash l
unfolding position up_to sum
sum-take-position hash [] h = cc
sum-take-position hash ((block, amount) ∷ l) {j} h = elim (Bool-cases (bytes_eq block hash)) [
  | inl here ↦ let first : 0 ≡ j = some_inj (rw (here, position) at h) in rw (← first) (rw here)
  | inr later ↦ elim (Option-cases (position hash l)) [
    | inl e ↦ cc (rw (later, e, position) at h)
    | inr (i, e) ↦
        let next : suc i ≡ j = some_inj (rw (later, e, position) at h) in
        rw (← next) (rw later (ap (λ z. amount + z) (sum-take-position hash l e)))
  ]
]

-- A range that there is lies between its ends, and is what `take` and `drop` cut out.
get_range-eq-some {ℓ} :
    {A : Type ℓ} (from to : ℕ) (xs : List A) {part : List A}
    → get_range from to xs ≡ some part
    → (from ≤ suc to) × (take (suc to - from) (drop from xs) ≡ part)
unfolding get_range
get_range-eq-some from to xs h = elim (Bool-cases (leb from (suc to) && ltb to (length xs))) [
  | inl e ↦ (ground (arith, e), some_inj (rw (e, get_range) at h))
  | inr e ↦ cc (rw (e, get_range) at h)
]

-- The sum that the cache serves is the difference of the sums up to the two blocks, which it has.
pub get_sum_in_range_lem :
    (l : List (Bytes × ℕ)) (after to : Bytes) {v : ℕ}
    → get_sum_in_range l after to ≡ some v
    → (i : ℕ) × (j : ℕ) × (n : ℕ) × (position after l ≡ some i)
      × (position to l ≡ some j)
      × (n + up_to after l ≡ up_to to l)
      × (n < 2 ^ 128 → v ≡ n)
unfolding get_sum_in_range
get_sum_in_range_lem l after to {v} h = elim (Option-cases (position after l)) [
  | inl e ↦ cc (rw (e, get_sum_in_range) at h)
  | inr (i, e) ↦ elim (Option-cases (position to l)) [
    | inl f ↦ cc (rw (e, f, get_sum_in_range) at h)
    | inr (j, f) ↦ elim (Option-cases (get_range (suc i) j l)) [
      | inl g ↦ cc (rw (e, f, g, get_sum_in_range) at h)
      | inr (part, g) ↦
          let (le, cut) = get_range-eq-some (suc i) j l g in
          let served : sum_u128 0 (amounts part) ≡ v =
            some_inj (rw (e, f, g, get_sum_in_range) at h) in
          let end : suc i + (suc j - suc i) ≡ suc j = omega arith in
          let split = sum-take-drop l (suc i) (suc j - suc i) in
          (
            i,
            j,
            sum (amounts part),
            e,
            f,
            omega (
              arith,
              split,
              ap (λ z. sum (amounts z)) cut,
              sum-take-position after l e,
              sum-take-position to l f,
              ap (λ z. sum (amounts (take z l))) end,
            ),
            λ fits. sym served ∙ sum_u128-eq-sum (amounts part) fits,
          )
    ]
  ]
]

-- ===== src/Authorities/Sorting.antt =====
-- `sort_by` of select_authorities.rs: what is sorted keeps its entries, and where no two entries
-- compare as equal the result does not depend on the order that they came in.
use Prim.Native.Nat.{Ordering}
use Prim.Native.Nat.Ordering.{lt, eq, gt}
use mathlib.Core.List.{Permᴰ}
use mathlib.Core.List.Permᴰ.{nil, cons, swap, trans}
use iagon_network_explorer_n.Prelude.{◌≡◌, ◌≢◌, refl, subst, sym, ◌∙◌, arith, List, [], ◌∷◌, All}
use iagon_network_explorer_n.Authorities.{insert_sorted, sort_by}

-- The laws of `Ord::cmp` that the order of a sort rests on.
pub record IsOrder {ℓ} {A : Type ℓ} (cmp : A → A → Ordering) : Type ℓ where
  pub gt_of_lt : (a b : A) → cmp a b ≡ lt → cmp b a ≡ gt
  pub lt_of_gt : (a b : A) → cmp a b ≡ gt → cmp b a ≡ lt
  pub lt_trans : (a b c : A) → cmp a b ≡ lt → cmp b c ≡ lt → cmp a c ≡ lt
  pub eq_lt_trans : (a b c : A) → cmp a b ≡ lt → cmp b c ≡ eq → cmp a c ≡ lt

module _ {ℓ} {A : Type ℓ} (cmp : A → A → Ordering) where
  -- No two entries compare as equal, in either order.
  abbrev pub Distinct : List A → Type ℓ
  Distinct [] = Unit
  Distinct (x ∷ xs) = All (λ y. (cmp x y ≢ eq) × (cmp y x ≢ eq)) xs × Distinct xs

module _ {ℓ} {A : Type ℓ} (cmp : A → A → Ordering) (o : IsOrder cmp) where
  open o use {gt_of_lt, lt_of_gt, lt_trans, eq_lt_trans}

  -- Two entries that do not compare as equal may be inserted in either order.
  insert_sorted-lt_comm :
      (x y : A) (l : List A)
      → cmp x y ≡ lt
      → insert_sorted cmp x (insert_sorted cmp y l) ≡ insert_sorted cmp y (insert_sorted cmp x l)
  unfolding insert_sorted
  insert_sorted-lt_comm x y [] h = ground (arith, gt_of_lt x y)
  insert_sorted-lt_comm x y (z ∷ l) h = ground (
    arith,
    insert_sorted-lt_comm x y l,
    gt_of_lt x y,
    gt_of_lt y z,
    lt_of_gt y z,
    lt_trans x y z,
    gt_of_lt x z,
    lt_of_gt x z,
    eq_lt_trans x y z,
    lt_trans z x y,
  )

  insert_sorted_comm :
      (x y : A) (l : List A)
      → cmp x y ≢ eq
      → insert_sorted cmp x (insert_sorted cmp y l) ≡ insert_sorted cmp y (insert_sorted cmp x l)
  insert_sorted_comm x y l h = go (cmp x y) refl
    where
      go :
          (r : Ordering)
          → cmp x y ≡ r
          → insert_sorted cmp x (insert_sorted cmp y l)
            ≡ insert_sorted cmp y (insert_sorted cmp x l)
      go lt e = insert_sorted-lt_comm x y l e
      go eq e = absurd (h e)
      go gt e = sym (insert_sorted-lt_comm y x l (lt_of_gt x y e))

All-Permᴰ {ℓ κ} : {A : Type ℓ} (P : A → Type κ) {xs ys : List A} → Permᴰ xs ys → All P xs → All P ys
All-Permᴰ P nil h = tt
All-Permᴰ P (cons e p) h = (subst P e h.0, All-Permᴰ P p h.1)
All-Permᴰ P (swap e f) h = (subst P f h.1.0, (subst P e h.0, h.1.1))
All-Permᴰ P (trans p q) h = All-Permᴰ P q (All-Permᴰ P p h)

Distinct-Permᴰ {ℓ} :
    {A : Type ℓ} (cmp : A → A → Ordering) {xs ys : List A}
    → Permᴰ xs ys
    → Distinct cmp xs
    → Distinct cmp ys
Distinct-Permᴰ cmp nil h = tt
Distinct-Permᴰ cmp (cons {l₂} e p) h = (
  subst (λ z. All (λ y. (cmp z y ≢ eq) × (cmp y z ≢ eq)) l₂) e (All-Permᴰ _ p h.0),
  Distinct-Permᴰ cmp p h.1,
)
Distinct-Permᴰ cmp (swap {b} {b'} {l} e f) h =
    subst (λ z. Distinct cmp (z ∷ b' ∷ l)) f
      (subst (λ z. Distinct cmp (b ∷ z ∷ l)) e (((h.0.0.1, h.0.0.0), h.1.0), (h.0.1, h.1.1)))
Distinct-Permᴰ cmp (trans p q) h = Distinct-Permᴰ cmp q (Distinct-Permᴰ cmp p h)

-- The order of the input does not matter to a sort of pairwise different entries.
pub sort_by-Permᴰ_invariant {ℓ} :
    {A : Type ℓ} (cmp : A → A → Ordering)
    → IsOrder cmp
    → {xs ys : List A} → Permᴰ xs ys
    → Distinct cmp xs
    → sort_by cmp xs ≡ sort_by cmp ys
unfolding sort_by
sort_by-Permᴰ_invariant cmp o nil h = refl
sort_by-Permᴰ_invariant cmp o (cons e p) h = cc (e, sort_by-Permᴰ_invariant cmp o p h.1)
sort_by-Permᴰ_invariant cmp o (swap {a} {b} {l} e f) h =
    cc (e, f, insert_sorted_comm cmp o a b (sort_by cmp l) h.0.0.0)
sort_by-Permᴰ_invariant cmp o (trans p q) h =
    sort_by-Permᴰ_invariant cmp o p h ∙ sort_by-Permᴰ_invariant cmp o q (Distinct-Permᴰ cmp p h)

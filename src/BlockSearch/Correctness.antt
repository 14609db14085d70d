-- ===== src/BlockSearch/Correctness.antt =====
-- The binary search of toolkit/primitives/sidechain-block-search/src/binary_search.rs ends, finds
-- only what compares as equal, and finds it where the comparison is ordered.
use Prim.Native.Nat.{Ordering}
use Prim.Native.Nat.Ordering.{lt, eq, gt}
use iagon_network_explorer_n.Prelude.{
  ℕ, zero, suc, ◌+◌, ◌-◌, ◌/◌, ◌^◌, ◌≤◌, ◌<◌, ◌≡◌, ◌≢◌, refl, arith, u32, Bool-cases, inl, inr, ◌⊎◌,
  leb, le→leb, leb→le, some_inj, ap, subst, ◌∙◌, Option, none, some, false,
}
use iagon_network_explorer_n.BlockSearch.{binary_search_by}

outcomes : (x : Option Ordering) → (x ≡ none) ⊎ ((x ≡ some lt) ⊎ ((x ≡ some eq) ⊎ (x ≡ some gt)))
outcomes none = inl refl
outcomes (some lt) = inr (inl refl)
outcomes (some eq) = inr (inr (inl refl))
outcomes (some gt) = inr (inr (inr refl))

absurd_of : {x y : Option Ordering} → x ≡ y → x ≡ some eq → y ≡ some lt → ⊥
absurd_of p q r = cc

absurd_of' : {x y : Option Ordering} → x ≡ y → x ≡ some eq → y ≡ some gt → ⊥
absurd_of' p q r = cc

module _ (f : ℕ → Option Ordering) where
  -- On the blocks from 1 to `top` the comparison has no error, and what compares as equal is not
  -- below what compares as less nor above what compares as greater.
  pub record IsOrdered (top : ℕ) : Type 0 where
    pub total : (i : ℕ) → 0 < i → i ≤ top → (o : Ordering) × (f i ≡ some o)
    pub not_less : (i j : ℕ) → 0 < i → i < j → j ≤ top → f i ≡ some eq → f j ≢ some lt
    pub not_greater : (i j : ℕ) → 0 < i → i < j → j ≤ top → f j ≡ some eq → f i ≢ some gt

  abbrev middle_of : ℕ → ℕ → ℕ
  middle_of left right = (left + right) / 2

  middle_fits :
      (left right : ℕ)
      → left ≤ right
      → 0 < left
      → right < 2 ^ 31
      → (u32 (left + right) / 2 ≡ middle_of left right)
        × (left ≤ middle_of left right)
        × (middle_of left right ≤ right)
        × (middle_of left right + middle_of left right ≤ left + right)
        × (u32 (middle_of left right + 1) ≡ middle_of left right + 1)
        × (u32 (middle_of left right + 2 ^ 32 - 1) ≡ middle_of left right - 1)
  middle_fits left right le pos bound =
      (omega arith, omega arith, omega arith, omega arith, omega arith, omega arith)

  binary_search_by-none :
      (fuel left right : ℕ)
      → left ≤ right
      → 0 < left
      → right < 2 ^ 31
      → f (middle_of left right) ≡ none
      → binary_search_by (suc fuel) f left right ≡ some none
  unfolding binary_search_by
  binary_search_by-none fuel left right le pos bound e =
      rw (le→leb left right le, binary_search_by)
        (rw (middle_fits left right le pos bound).0 (rw e))

  binary_search_by-eq :
      (fuel left right : ℕ)
      → left ≤ right
      → 0 < left
      → right < 2 ^ 31
      → f (middle_of left right) ≡ some eq
      → binary_search_by (suc fuel) f left right ≡ some (some (middle_of left right))
  unfolding binary_search_by
  binary_search_by-eq fuel left right le pos bound e =
      rw (le→leb left right le, binary_search_by)
        (rw (middle_fits left right le pos bound).0
          (rw e (rw (middle_fits left right le pos bound).0)))

  binary_search_by-lt :
      (fuel left right : ℕ)
      → left ≤ right
      → 0 < left
      → right < 2 ^ 31
      → f (middle_of left right) ≡ some lt
      → binary_search_by (suc fuel) f left right
        ≡ binary_search_by fuel f (middle_of left right + 1) right
  unfolding binary_search_by
  binary_search_by-lt fuel left right le pos bound e =
      let (same, _, _, _, up, _) = middle_fits left right le pos bound in
      rw (le→leb left right le, binary_search_by) (rw same (rw e (rw same (rw up))))

  binary_search_by-gt :
      (fuel left right : ℕ)
      → left ≤ right
      → 0 < left
      → right < 2 ^ 31
      → f (middle_of left right) ≡ some gt
      → binary_search_by (suc fuel) f left right
        ≡ binary_search_by fuel f left (middle_of left right - 1)
  unfolding binary_search_by
  binary_search_by-gt fuel left right le pos bound e =
      let (same, _, _, _, _, down) = middle_fits left right le pos bound in
      rw (le→leb left right le, binary_search_by) (rw same (rw e (rw same (rw down))))

  binary_search_by-empty :
      (fuel left right : ℕ)
      → leb left right ≡ false
      → binary_search_by (suc fuel) f left right ≡ some none
  unfolding binary_search_by
  binary_search_by-empty fuel left right e = rw (e, binary_search_by)

  -- A search that ends with `o` between `left` and `right`.
  abbrev pub Ends : ℕ → ℕ → ℕ → Option ℕ → Type 0
  Ends fuel left right o =
      (binary_search_by fuel f left right ≡ some o)
      × ((m : ℕ) → o ≡ some m → (left ≤ m) × (m ≤ right) × (f m ≡ some eq))

  -- With fuel for one more round than there are numbers in the range, the search over a range that
  -- starts above 0 and ends below 2 ^ 31 ends, and what it finds is in the range and compares as
  -- equal.
  pub binary_search_by_sound :
      (fuel left right : ℕ)
      → 0 < left
      → left ≤ right + 1
      → right < 2 ^ 31
      → right + 2 ≤ fuel + left
      → (o : Option ℕ) × Ends fuel left right o
  unfolding binary_search_by
  binary_search_by_sound zero left right pos le bound enough = absurd (omega arith)
  binary_search_by_sound (suc fuel) left right pos le bound enough =
      elim (Bool-cases (leb left right)) [
        | inr empty ↦ (none, (binary_search_by-empty fuel left right empty, λ m h. cc))
        | inl within ↦
            let le' = leb→le left right within in
            let (_, low, high, half, _, _) = middle_fits left right le' pos bound in
            elim (outcomes (f (middle_of left right))) [
              | inl e ↦ (none, (binary_search_by-none fuel left right le' pos bound e, λ m h. cc))
              | inr (inl e) ↦
                  let (o, (ends, at)) =
                    binary_search_by_sound fuel (middle_of left right + 1) right (omega arith)
                      (omega arith) bound (omega arith) in
                  (
                    o,
                    (
                      binary_search_by-lt fuel left right le' pos bound e ∙ ends,
                      λ m h. let (a, b, c) = at m h in (omega arith, b, c),
                    ),
                  )
              | inr (inr (inl e)) ↦ (
                some (middle_of left right),
                (
                  binary_search_by-eq fuel left right le' pos bound e,
                  λ m h.
                      let same = some_inj h in
                      (omega arith, omega arith, subst (λ z. f z ≡ some eq) same e),
                ),
              )
              | inr (inr (inr e)) ↦
                  let (o, (ends, at)) =
                    binary_search_by_sound fuel left (middle_of left right - 1) pos (omega arith)
                      (omega arith) (omega arith) in
                  (
                    o,
                    (
                      binary_search_by-gt fuel left right le' pos bound e ∙ ends,
                      λ m h. let (a, b, c) = at m h in (a, omega arith, c),
                    ),
                  )
            ]
      ]

  -- With that fuel, and where the comparison is ordered up to `top`, the search finds a block that
  -- compares as equal whenever there is one up to `top` in the range, although the range may go on
  -- to `top + 1`, for which the comparison may have an error.
  pub binary_search_by_complete :
      (fuel left right top m : ℕ)
      → IsOrdered top
      → 0 < left
      → left ≤ m
      → m ≤ right
      → m ≤ top
      → right ≤ top + 1
      → right < 2 ^ 31
      → right + 2 ≤ fuel + left
      → f m ≡ some eq
      → (m' : ℕ) × (binary_search_by fuel f left right ≡ some (some m'))
        × (left ≤ m')
        × (m' ≤ right)
        × (f m' ≡ some eq)
  binary_search_by_complete zero left right top m o pos lo hi up wide bound enough here =
      absurd (omega arith)
  binary_search_by_complete (suc fuel) left right top m o pos lo hi up wide bound enough here =
      let le' : left ≤ right = omega arith in
      let (_, low, high, half, _, _) = middle_fits left right le' pos bound in
      let mid = middle_of left right in
      elim (outcomes (f mid)) [
        | inl e ↦ let (r, known) = o.total mid (omega arith) (omega arith) in cc (e, known)
        | inr (inl e) ↦
            let above : mid < m = grind (
              arith,
              λ (h : m ≡ mid). absurd_of (ap f h) here e,
              λ (h : m < mid). o.not_less m mid (omega arith) h (omega arith) here e,
            ) in
            let (m', found, a, b, c) =
              binary_search_by_complete fuel (mid + 1) right top m o (omega arith) (omega arith) hi
                up wide bound (omega arith) here in
            (m', binary_search_by-lt fuel left right le' pos bound e ∙ found, omega arith, b, c)
        | inr (inr (inl e)) ↦
            (mid, binary_search_by-eq fuel left right le' pos bound e, low, high, e)
        | inr (inr (inr e)) ↦
            let below : m < mid = grind (
              arith,
              λ (h : m ≡ mid). absurd_of' (ap f h) here e,
              λ (h : mid < m). o.not_greater mid m (omega arith) h up here e,
            ) in
            let (m', found, a, b, c) =
              binary_search_by_complete fuel left (mid - 1) top m o pos lo (omega arith) up
                (omega arith) (omega arith) (omega arith) here in
            (m', binary_search_by-gt fuel left right le' pos bound e ∙ found, a, omega arith, c)
      ]

-- ===== src/Selection/Window.antt =====
-- Which candidate a random number selects in `select_with_weight` of
-- toolkit/primitives/selection/src/weighted_random.rs.
use iagon_network_explorer_n.Prelude.{
  ℕ, zero, suc, ◌+◌, ◌^◌, ◌≤◌, ◌<◌, ◌≡◌, ◌↔◌, ok, ap, arith, dec_lt, lt→ltb, le→ltb, List, [], ◌∷◌,
  map, length, take, u128,
}
use iagon_network_explorer_n.Selection.{sum_u128, find_candidate}

module _ {ℓ} {T : Type ℓ} where
  -- The sum of the weights, with no bound on its size.
  abbrev pub total_weight : List (T × ℕ) → ℕ
  total_weight [] = 0
  total_weight (c ∷ cs) = c.1 + total_weight cs

  -- The weight of the first `i` candidates.
  abbrev pub weight_before : ℕ → List (T × ℕ) → ℕ
  weight_before i cs = total_weight (take i cs)

  sum_u128-eq-add :
      (acc : ℕ) (cs : List (T × ℕ))
      → acc + total_weight cs < 2 ^ 128
      → sum_u128 acc (map (λ c. c.1) cs) ≡ acc + total_weight cs
  unfolding sum_u128
  sum_u128-eq-add acc [] h = omega arith
  sum_u128-eq-add acc (c ∷ cs) h =
      let fits : u128 (acc + c.1) ≡ acc + c.1 = omega arith in
      rw (fits, sum_u128) (omega (arith, sum_u128-eq-add (acc + c.1) cs (omega arith)))

  pub sum_u128-eq-total_weight :
      (cs : List (T × ℕ))
      → total_weight cs < 2 ^ 128
      → sum_u128 0 (map (λ c. c.1) cs) ≡ total_weight cs
  sum_u128-eq-total_weight cs h = omega (arith, sum_u128-eq-add 0 cs (omega arith))

  -- Candidate `j` has the window of random numbers from the weight before it on.
  pub record IsSelected (cs : List (T × ℕ)) (r j : ℕ) : Type 0 where
    pub in_range : j < length cs
    pub from : weight_before j cs ≤ r
    pub to : r < weight_before (suc j) cs

  weight_before_mono :
      (i j : ℕ) (cs : List (T × ℕ)) → i ≤ j → weight_before i cs ≤ weight_before j cs
  weight_before_mono zero j cs h = omega arith
  weight_before_mono (suc i) zero cs h = absurd (omega arith)
  weight_before_mono (suc i) (suc j) [] h = omega arith
  weight_before_mono (suc i) (suc j) (c ∷ cs) h =
      omega (arith, weight_before_mono i j cs (omega arith))

  IsSelected-unique :
      (cs : List (T × ℕ)) (r i j : ℕ) → IsSelected cs r i → IsSelected cs r j → i ≡ j
  IsSelected-unique cs r i j p q = grind (
    arith,
    λ (h : suc i ≤ j). weight_before_mono (suc i) j cs h,
    λ (h : suc j ≤ i). weight_before_mono (suc j) i cs h,
  )

  -- What `find_candidate` returns behind candidates whose weights add up to `cumulative`.
  abbrev Finds : ℕ → ℕ → ℕ → List (T × ℕ) → Type 0
  Finds cumulative index r cs =
      (j : ℕ) × (find_candidate cumulative index r cs ≡ ok (index + j))
      × (j < length cs)
      × (cumulative + weight_before j cs ≤ r)
      × (r < cumulative + weight_before (suc j) cs)

  Finds-skip :
      (c : T × ℕ) (cs : List (T × ℕ)) (cumulative index r : ℕ)
      → cumulative + c.1 < 2 ^ 128
      → cumulative + c.1 ≤ r
      → Finds (cumulative + c.1) (index + 1) r cs
      → Finds cumulative index r (c ∷ cs)
  unfolding find_candidate
  Finds-skip c cs cumulative index r fits far (j, e, b, from, to) =
      let wraps : u128 (cumulative + c.1) ≡ cumulative + c.1 = omega arith in
      (
        suc j,
        rw (wraps, le→ltb r (cumulative + c.1) far) (rw e (ap ok (omega arith))),
        omega arith,
        omega arith,
        omega arith,
      )

  Finds-total :
      (cs : List (T × ℕ)) (cumulative index r : ℕ)
      → cumulative ≤ r
      → r < cumulative + total_weight cs
      → cumulative + total_weight cs < 2 ^ 128
      → Finds cumulative index r cs
  unfolding find_candidate
  Finds-total [] cumulative index r lo hi fits = absurd (omega arith)
  Finds-total (c ∷ cs) cumulative index r lo hi fits = elim (dec_lt r (cumulative + c.1)) [
    | yes here ↦
        let wraps : u128 (cumulative + c.1) ≡ cumulative + c.1 = omega arith in
        (
          0,
          rw (wraps, lt→ltb r (cumulative + c.1) here) (ap ok (omega arith)),
          omega arith,
          omega arith,
          omega arith,
        )
    | no there ↦
        Finds-skip c cs cumulative index r (omega arith) (omega arith) (
          Finds-total cs (cumulative + c.1) (index + 1) r (omega arith) (omega arith) (omega arith))
  ]

  -- Below the total weight, every random number selects a candidate.
  pub find_candidate_total :
      (cs : List (T × ℕ)) (r : ℕ)
      → r < total_weight cs
      → total_weight cs < 2 ^ 128
      → (j : ℕ) × (find_candidate 0 0 r cs ≡ ok j) × IsSelected cs r j
  find_candidate_total cs r lt fits =
      of_Finds (Finds-total cs 0 0 r (omega arith) (omega arith) (omega arith))
    where
      of_Finds : Finds 0 0 r cs → (j : ℕ) × (find_candidate 0 0 r cs ≡ ok j) × IsSelected cs r j
      of_Finds (j, e, b, from, to) = (
        j,
        rw e (ap ok (omega arith)),
        record { in_range = b; from = omega arith; to = omega arith },
      )

  -- A random number below the total weight selects the candidate in whose window it lies: the
  -- search does not panic, and a candidate is selected by exactly as many random numbers as its
  -- weight says.
  pub find_candidate_iff :
      (cs : List (T × ℕ)) (r i : ℕ)
      → r < total_weight cs
      → total_weight cs < 2 ^ 128
      → (find_candidate 0 0 r cs ≡ ok i) ↔ IsSelected cs r i
  find_candidate_iff cs r i lt fits =
      let (j, e, found) = find_candidate_total cs r lt fits in
      (
        λ h. let same : j ≡ i = cc in rw same at found,
        λ h. rw e (ap ok (IsSelected-unique cs r j i found h)),
      )

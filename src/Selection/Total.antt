-- ===== src/Selection/Total.antt =====
-- `select_authorities` of toolkit/primitives/selection/src/weighted_random.rs as a whole.
use mathlib.Core.List.{cons≢nil}
use iagon_network_explorer_n.Prelude.{
  ℕ, zero, suc, ◌+◌, ◌^◌, ◌<◌, ◌≡◌, ok, panic, refl, arith, none, some, List, [], ◌∷◌, ◌++◌, ◌-◌,
  ◌⊎◌, inl, inr, ◌≢◌, pos→==, le→leb, length, get_elem?, All, All-append, length-append,
}
use iagon_network_explorer_n.Selection.{select_with_weight, fill_committee, select_authorities}
use iagon_network_explorer_n.Selection.Interfaces.{ChaCha20Rng}
use iagon_network_explorer_n.Selection.Window.{
  total_weight, sum_u128-eq-total_weight, IsSelected, find_candidate_total,
}

-- `t` is one of the candidates, with a positive weight.
pub record IsCandidate {ℓ} {T : Type ℓ} (cs : List (T × ℕ)) (t : T) : Type ℓ where
  pub index : ℕ
  pub weight : ℕ
  pub at : get_elem? cs index ≡ some (t, weight)
  pub positive : 0 < weight

module _ {ℓ} {T : Type ℓ} where
  -- The selected index is in range and its candidate has a positive weight.
  IsSelected-IsCandidate :
      (cs : List (T × ℕ)) (r j : ℕ)
      → IsSelected cs r j
      → (t : T) × (w : ℕ) × (get_elem? cs j ≡ some (t, w)) × (0 < w)
  IsSelected-IsCandidate [] r j s = absurd (omega arith)
  IsSelected-IsCandidate ((t, w) ∷ cs) r zero s = (t, w, refl, omega arith)
  IsSelected-IsCandidate ((t, w) ∷ cs) r (suc j) s =
      IsSelected-IsCandidate cs (r - w) j
        (record { in_range = omega arith; from = omega arith; to = omega arith })

module _ {ℓ} {T : Type ℓ} (g : ChaCha20Rng) where
  open g use {Rng, from_seed, gen_range, gen_range_lt}

  -- With weights to choose from, a draw neither panics nor misses: its index has a candidate of
  -- positive weight.
  select_with_weight_total :
      (cs : List (T × ℕ)) (rng : Rng)
      → 0 < total_weight cs
      → total_weight cs < 2 ^ 128
      → (j : ℕ) × (rng' : Rng) × (t : T) × (w : ℕ) × (select_with_weight g cs (total_weight cs) rng
          ≡ ok (j, rng'))
        × (get_elem? cs j ≡ some (t, w))
        × (0 < w)
  unfolding select_with_weight
  select_with_weight_total cs rng pos fits =
      let r = (gen_range (total_weight cs) rng).0 in
      let (j, e, sel) = find_candidate_total cs r (gen_range_lt (total_weight cs) rng pos) fits in
      let (t, w, at, positive) = IsSelected-IsCandidate cs r j sel in
      (j, (gen_range (total_weight cs) rng).1, t, w, rw (pos→== pos, e), at, positive)

  fill_committee_total :
      (c : T × ℕ) (cs : List (T × ℕ)) (seats : ℕ) (rng : Rng) (committee : List T)
      → 0 < total_weight (c ∷ cs)
      → total_weight (c ∷ cs) < 2 ^ 128
      → All (IsCandidate (c ∷ cs)) committee
      → (result : List T) × (fill_committee g (c ∷ cs) (total_weight (c ∷ cs)) seats rng committee
          ≡ ok result)
        × (length result ≡ length committee + seats)
        × All (IsCandidate (c ∷ cs)) result
  unfolding fill_committee
  fill_committee_total c cs zero rng committee pos fits known =
      (committee, refl, omega arith, known)
  fill_committee_total c cs (suc seats) rng committee pos fits known =
      let (j, rng', t, w, e, at, positive) = select_with_weight_total (c ∷ cs) rng pos fits in
      let seat : IsCandidate (c ∷ cs) t = record {
        index = j;
        weight = w;
        at = at;
        positive = positive;
      } in
      let (result, filled, len, all) =
        fill_committee_total c cs seats rng' (committee ++ t ∷ []) pos fits
          (All-append (IsCandidate (c ∷ cs)) committee (t ∷ []) known (seat, tt)) in
      (result, rw (e, at) filled, omega (arith, length-append committee (t ∷ [])), all)

  -- From candidates whose weights add up to a positive u128, the selection returns a committee of
  -- the configured size, and every seat goes to a candidate of positive weight.
  pub select_authorities_total :
      (cs : List (T × ℕ)) (seed : List ℕ) (size : ℕ)
      → 0 < total_weight cs
      → total_weight cs < 2 ^ 128
      → (committee : List T) × (select_authorities g cs seed size ≡ ok (some committee))
        × (length committee ≡ size)
        × All (IsCandidate cs) committee
  unfolding select_authorities
  select_authorities_total [] seed size pos fits = absurd (omega arith)
  select_authorities_total (c ∷ cs) seed size pos fits =
      let (committee, filled, len, all) =
        fill_committee_total c cs size (from_seed seed) [] pos fits tt in
      let len' : length committee ≡ size = omega arith in
      (
        committee,
        rw (sum_u128-eq-total_weight (c ∷ cs) fits)
            (rw filled (rw (len', le→leb size size (omega arith)))),
        len',
        all,
      )

  -- Without candidates there is no committee, unless its size is 0; with candidates whose weights
  -- add up to 0 the empty range of random numbers panics, unless the size is 0.
  pub select_authorities_degenerate :
      (cs : List (T × ℕ)) (seed : List ℕ) (size : ℕ)
      → total_weight cs ≡ 0
      → 0 < size
      → ((cs ≡ []) × (select_authorities g cs seed size ≡ ok none))
        ⊎ ((cs ≢ []) × (select_authorities g cs seed size ≡ panic))
  unfolding select_authorities
  select_authorities_degenerate [] seed zero zeroes pos = absurd (omega arith)
  select_authorities_degenerate [] seed (suc size) zeroes pos = inl (refl, ground arith)
  select_authorities_degenerate (c ∷ cs) seed zero zeroes pos = absurd (omega arith)
  select_authorities_degenerate (c ∷ cs) seed (suc size) zeroes pos =
      inr (cons≢nil, rw (sum_u128-eq-total_weight (c ∷ cs) (omega arith)) (rw zeroes))

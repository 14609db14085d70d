-- ===== src/Selection.antt =====
-- toolkit/primitives/selection/src: weighted pseudorandom selection with repetition
-- (weighted_random.rs) and its seed (impls.rs). The generator of rand_chacha and the words of
-- sp_core are interfaces.
pub mod Interfaces
pub mod Window
pub mod Total
pub mod Seed
use Interfaces.{ChaCha20Rng, U256}
use iagon_network_explorer_n.Prelude.{
  ℕ, zero, suc, ◌+◌, Result, ok, panic, Exec, ◌>>=◌, expect, u128, Bool, ltb, leb, ◌==◌,
  if◌then◌else◌, Option, none, some, List, [], ◌∷◌, ◌++◌, map, length, get_elem?,
}

-- `iter().sum()` over u128
unfoldable pub sum_u128 : ℕ → List ℕ → ℕ
sum_u128 acc [] = acc
sum_u128 acc (w ∷ ws) = sum_u128 (u128 (acc + w)) ws

module _ {ℓ} {T : Type ℓ} where
  -- The `for` loop of `select_with_weight` and the panic behind it.
  unfoldable pub find_candidate : ℕ → ℕ → ℕ → List (T × ℕ) → Exec ℕ
  find_candidate cumulative_weight index random_number [] = panic
  find_candidate cumulative_weight index random_number ((_, weight) ∷ candidates) =
      let cumulative = u128 (cumulative_weight + weight) in
      let rest = find_candidate cumulative (index + 1) random_number candidates in
      if ltb random_number cumulative then ok index else rest

  module _ (r : ChaCha20Rng) where
    open r use {Rng, from_seed, gen_range}

    -- `gen_range(0..total_weight)` panics on the empty range.
    unfoldable pub select_with_weight : List (T × ℕ) → ℕ → Rng → Exec (ℕ × Rng)
    unfolding find_candidate
    select_with_weight candidates total_weight rng =
        if total_weight == 0
        then panic
        else (let (random_number, rng') = gen_range total_weight rng in
            do index ← find_candidate 0 0 random_number candidates; ok (index, rng'))

    -- The `while` loop of `select_authorities`, on the number of seats left. A round adds one seat,
    -- so `committee.len() < size` fails after `size` rounds.
    unfoldable pub fill_committee : List (T × ℕ) → ℕ → ℕ → Rng → List T → Exec (List T)
    unfolding select_with_weight
    fill_committee candidates total_weight zero rng committee = ok committee
    fill_committee [] total_weight (suc seats) rng committee = ok committee
    fill_committee (c ∷ cs) total_weight (suc seats) rng committee = do
      (selected_index, rng') ← select_with_weight (c ∷ cs) total_weight rng
      selected ← expect (get_elem? (c ∷ cs) selected_index)
      fill_committee (c ∷ cs) total_weight seats rng' (committee ++ selected.0 ∷ [])

    unfoldable pub select_authorities : List (T × ℕ) → List ℕ → ℕ → Exec (Option (List T))
    unfolding fill_committee sum_u128
    select_authorities weighted_candidates seed size = do
      let total_weight = sum_u128 0 (map (λ c. c.1) weighted_candidates)
      committee ← fill_committee weighted_candidates total_weight size (from_seed seed) []
      ok (if leb size (length committee) then some committee else none)

-- `resize_with(32, || 0)`
unfoldable pub resize : ℕ → List ℕ → List ℕ
resize zero bytes = []
resize (suc n) [] = 0 ∷ resize n []
resize (suc n) (b ∷ bytes) = b ∷ resize n bytes

module _ (u : U256) where
  open u use {from_bytes, from_u64, overflowing_add, to_bytes}

  unfoldable pub seed_from_nonce_and_sc_epoch : List ℕ → ℕ → List ℕ
  unfolding resize
  seed_from_nonce_and_sc_epoch epoch_nonce sidechain_epoch_number =
      to_bytes
        (overflowing_add (from_bytes (resize 32 epoch_nonce)) (from_u64 sidechain_epoch_number)).0

-- ===== src/Offchain/Collateral.antt =====
-- How much collateral the balancing of toolkit/offchain/src/csl.rs selects.
pub mod Sorted
use Prim.Native.Nat.{min}
use mathlib.Core.List.{append-nil, append_assoc, Permᴰ}
use mathlib.Core.List.Permᴰ
use mathlib.Core.List.Permᴰ.{nil, cons, swap, trans}
use iagon_network_explorer_n.Prelude.{
  ℕ, zero, suc, ◌≤◌, ◌<◌, ◌≡◌, ◌↔◌, ◌⊎◌, refl, arith, sym, ap, ◌∙◌, Bool-cases, inl, inr, ltb,
  Result, ok, err, panic, map_err-eq-ok, List, [], ◌∷◌, ◌++◌, take, length, All,
}
use iagon_network_explorer_n.Offchain.{
  OgmiosUtxo, insert_largest, sort_largest, try_collaterals, TransactionLib, TransactionContext,
  try_balance, max_possible_collaterals, balance_update_and_build,
}
use iagon_network_explorer_n.Offchain.Collateral.Sorted.{
  Descending, sort_largest-Descending, sort_largest-Permᴰ,
}

-- The first `n` inputs make the attempt succeed, and fewer make it fail.
pub record IsLeast {E T : Type 0} (attempt : List OgmiosUtxo → Result E T)
    (selected inputs : List OgmiosUtxo) (tx : T) (n : ℕ) : Type 0 where
  pub within : n ≤ length inputs
  pub succeeds : attempt (selected ++ take n inputs) ≡ ok tx
  pub fewer_fail : (m : ℕ) → m < n → (e : E) × (attempt (selected ++ take m inputs) ≡ err e)

module _ {E T : Type 0} (attempt : List OgmiosUtxo → Result E T) (could_not : E → E) where
  try_cases :
      (selected : List OgmiosUtxo)
      → ((tx : T) × (attempt selected ≡ ok tx))
        ⊎ ((e : E) × (attempt selected ≡ err e))
        ⊎ (attempt selected ≡ panic)
  try_cases selected = go (attempt selected)
    where
      go : (r : Result E T) → ((tx : T) × (r ≡ ok tx)) ⊎ ((e : E) × (r ≡ err e)) ⊎ (r ≡ panic)
      go (ok tx) = inl (tx, refl)
      go (err e) = inr (inl (e, refl))
      go panic = inr (inr refl)

  push :
      (selected : List OgmiosUtxo) (input : OgmiosUtxo) (inputs : List OgmiosUtxo)
      → attempt ((selected ++ input ∷ []) ++ inputs) ≡ attempt (selected ++ input ∷ inputs)
  push selected input inputs = ap attempt (append_assoc selected (input ∷ []) inputs)

  at_start : (selected : List OgmiosUtxo) → attempt (selected ++ []) ≡ attempt selected
  at_start selected = ap attempt (append-nil selected)

  try_collaterals-IsLeast :
      (inputs selected : List OgmiosUtxo) (tx : T)
      → try_collaterals attempt could_not inputs selected ≡ ok tx
      → (n : ℕ) × IsLeast attempt selected inputs tx n
  unfolding try_collaterals
  try_collaterals-IsLeast [] selected tx h = (
    0,
    record {
      within = omega arith;
      succeeds = at_start selected ∙ (map_err-eq-ok _ _ _).0 h;
      fewer_fail = λ m lt. absurd (omega arith);
    },
  )
  try_collaterals-IsLeast (input ∷ inputs) selected tx h = elim (try_cases selected) [
    | inl (tx', e) ↦ (
      0,
      record {
        within = omega arith;
        succeeds = at_start selected ∙ e ∙ rw (e, try_collaterals) at h;
        fewer_fail = λ m lt. absurd (omega arith);
      },
    )
    | inr (inl (failure, e)) ↦
        let (n, least) =
          try_collaterals-IsLeast inputs (selected ++ input ∷ []) tx
            (rw (e, try_collaterals) at h) in
        (
          suc n,
          record {
            within = let w = least.within in omega arith;
            succeeds = sym (push selected input (take n inputs)) ∙ least.succeeds;
            fewer_fail = λ m lt. fewer n least failure e m lt;
          },
        )
    | inr (inr e) ↦ cc (rw (e, try_collaterals) at h)
  ]
    where
      fewer :
          (n : ℕ)
          → IsLeast attempt (selected ++ input ∷ []) inputs tx n
          → (failure : E) → attempt selected ≡ err failure
          → (m : ℕ) → m < suc n
          → (e : E) × (attempt (selected ++ take m (input ∷ inputs)) ≡ err e)
      fewer n least failure e zero lt = (failure, at_start selected ∙ e)
      fewer n least failure e (suc m) lt =
          let (f, k) = least.fewer_fail m (omega arith) in
          (f, sym (push selected input (take m inputs)) ∙ k)

  IsLeast-try_collaterals :
      (inputs selected : List OgmiosUtxo) (tx : T) (n : ℕ)
      → IsLeast attempt selected inputs tx n
      → try_collaterals attempt could_not inputs selected ≡ ok tx
  unfolding try_collaterals
  IsLeast-try_collaterals [] selected tx zero least =
      (map_err-eq-ok _ _ _).1 (sym (at_start selected) ∙ least.succeeds)
  IsLeast-try_collaterals [] selected tx (suc n) least =
      absurd (let w = least.within in omega arith)
  IsLeast-try_collaterals (input ∷ inputs) selected tx zero least =
      let e = sym (at_start selected) ∙ least.succeeds in rw (e, try_collaterals)
  IsLeast-try_collaterals (input ∷ inputs) selected tx (suc n) least =
      let (f, k) = least.fewer_fail 0 (omega arith) in
      let e : attempt selected ≡ err f = sym (at_start selected) ∙ k in
      rw (e, try_collaterals)
        (IsLeast-try_collaterals inputs (selected ++ input ∷ []) tx n record {
          within = let w = least.within in omega arith;
          succeeds = push selected input (take n inputs) ∙ least.succeeds;
          fewer_fail = λ m lt.
              let (f', k') = least.fewer_fail (suc m) (omega arith) in
              (f', push selected input (take m inputs) ∙ k');
        })

take-take : (n k : ℕ) (us : List OgmiosUtxo) → n ≤ k → take n (take k us) ≡ take n us
take-take zero k us le = refl
take-take (suc n) zero us le = absurd (omega arith)
take-take (suc n) (suc k) [] le = refl
take-take (suc n) (suc k) (u ∷ us) le = ap (◌∷◌ u) (take-take n k us (omega arith))

length-take : (k : ℕ) (us : List OgmiosUtxo) → length (take k us) ≡ min k (length us)
length-take zero us = omega arith
length-take (suc k) [] = omega arith
length-take (suc k) (u ∷ us) = let ih = length-take k us in omega arith

-- Among the first `k` inputs, as in all of them up to a number of `k`.
module _ {E T : Type 0} (attempt : List OgmiosUtxo → Result E T) (k : ℕ) (inputs : List OgmiosUtxo)
    (tx : T) (n : ℕ) where
  same_attempt : (m : ℕ) → m ≤ k → attempt (take m (take k inputs)) ≡ attempt (take m inputs)
  same_attempt m le = ap attempt (take-take m k inputs le)

  IsLeast-take_iff :
      IsLeast attempt [] (take k inputs) tx n ↔ ((n ≤ k) × IsLeast attempt [] inputs tx n)
  IsLeast-take_iff = (
    λ least.
        let len = length-take k inputs in
        let within : (n ≤ k) × (n ≤ length inputs) =
          let w = least.within in (omega arith, omega arith) in
        (
          within.0,
          record {
            within = within.1;
            succeeds = sym (same_attempt n within.0) ∙ least.succeeds;
            fewer_fail = λ m lt.
                let (e, f) = least.fewer_fail m lt in
                (e, sym (same_attempt m (omega (arith, within.0))) ∙ f);
          },
        ),
    λ (le, least). record {
      within = let len = length-take k inputs in let w = least.within in omega arith;
      succeeds = same_attempt n le ∙ least.succeeds;
      fewer_fail =
          λ m lt. let (e, f) = least.fewer_fail m lt in (e, same_attempt m (omega arith) ∙ f);
    },
  )

-- The outputs of the payment key have an order with the largest lovelace first such that balancing
-- succeeds with a transaction exactly when, for some number of collateral inputs that is at most the
-- limit of the protocol and the number of these outputs, the attempt with so many of the first
-- outputs gives the transaction, and the attempts with fewer of them fail, none included.
pub balance_update_and_build_iff :
    (l : TransactionLib) (ctx : TransactionContext l) (builder : l.TransactionBuilder)
    (tx : l.Transaction)
    → (largest_first : List OgmiosUtxo) × Permᴰ ctx.payment_key_utxos largest_first
      × Descending largest_first
      × ((balance_update_and_build l ctx builder ≡ ok tx) ↔ (
          (n : ℕ) × (n ≤ ctx.max_collateral_inputs)
          × IsLeast (try_balance l ctx builder) [] largest_first tx n))
unfolding balance_update_and_build max_possible_collaterals
balance_update_and_build_iff l ctx builder tx =
    let attempt = try_balance l ctx builder in
    let sorted = sort_largest ctx.payment_key_utxos in
    let k = ctx.max_collateral_inputs in
    (
      sorted,
      sort_largest-Permᴰ ctx.payment_key_utxos,
      sort_largest-Descending ctx.payment_key_utxos,
      (
        λ h.
            let (n, least) =
              try_collaterals-IsLeast attempt l.could_not_balance (take k sorted) [] tx h in
            let (le, first) = (IsLeast-take_iff attempt k sorted tx n).0 least in (n, le, first),
        λ (n, le, first).
            IsLeast-try_collaterals attempt l.could_not_balance (take k sorted) [] tx n
              ((IsLeast-take_iff attempt k sorted tx n).1 (le, first)),
      ),
    )

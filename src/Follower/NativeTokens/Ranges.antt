-- ===== src/Follower/NativeTokens/Ranges.antt =====
-- The rows of a range of blocks, in the order of their numbers, and their amounts.
use iagon_network_explorer_n.Prelude.{
  ℕ, suc, ◌≤◌, ◌<◌, ◌≡◌, ◌≢◌, ◌⊎◌, refl, arith, Bytes, bytes_eq, Bool-cases, inl, inr, true, false,
  ◌>>=◌, Bool, ltb, leb, ok, some, some_inj, ok_inj, sym, List, [], ◌∷◌, map, All, All-filter,
  All-imp, subst, sum, filter, find, if◌then◌else◌, >>=-eq-ok,
}
use native.Mathlib.Nat.{lt_trans}
use iagon_network_explorer_n.Follower.Database.{
  BlockRow, block_key, holds, in_range, insert_asc, order_asc, address_amount, to_u128,
  fetch_amounts,
}
use iagon_network_explorer_n.Follower.Blocks.Stability.{order_asc-All, insert_asc-All}
use iagon_network_explorer_n.Follower.NativeTokens.{position}
use iagon_network_explorer_n.Follower.NativeTokens.Sums.{up_to}

-- No two rows have the same number.
abbrev pub Numbered : List BlockRow → Type 0
Numbered [] = Unit
Numbered (r ∷ rs) =
    All (λ q. (n m : ℕ) → r.block_no ≡ some n → q.block_no ≡ some m → n ≢ m) rs × Numbered rs

-- The order of the numbers, strictly.
abbrev pub Ascending : List BlockRow → Type 0
Ascending [] = Unit
Ascending (r ∷ rs) = All (λ q. block_key r < block_key q) rs × Ascending rs

abbrev Keyed : List BlockRow → Type 0
Keyed [] = Unit
Keyed (r ∷ rs) = All (λ q. block_key r ≢ block_key q) rs × Keyed rs

pub in_range-key :
    (from to : ℕ) (r : BlockRow)
    → in_range from to r ≡ true
    → (r.block_no ≡ some (block_key r)) × (from ≤ block_key r) × (block_key r ≤ to)
unfolding in_range holds block_key
in_range-key from to r h = ground arith

filter-Keyed :
    (from to : ℕ) (rs : List BlockRow) → Numbered rs → Keyed (filter (in_range from to) rs)
unfolding filter
filter-Keyed from to [] h = tt
filter-Keyed from to (r ∷ rs) h = elim (Bool-cases (in_range from to r)) [
  | inl e ↦ rw e (
    All-filter _ (λ q. block_key r ≢ block_key q) (in_range from to) rs
        (λ q d p.
          d (block_key r) (block_key q) (in_range-key from to r e).0 (in_range-key from to q p).0)
        h.0,
    filter-Keyed from to rs h.1,
  )
  | inr e ↦ rw e (filter-Keyed from to rs h.1)
]

insert_asc-Ascending :
    (r : BlockRow) (rs : List BlockRow)
    → Ascending rs
    → All (λ q. block_key r ≢ block_key q) rs
    → Ascending (insert_asc r rs)
unfolding insert_asc
insert_asc-Ascending r [] a d = (tt, tt)
insert_asc-Ascending r (q ∷ qs) a d = elim (Bool-cases (ltb (block_key q) (block_key r))) [
  | inl e ↦ rw e (
    insert_asc-All (λ z. block_key q < block_key z) r qs (ground (arith, e)) a.0,
    insert_asc-Ascending r qs a.1 d.1,
  )
  | inr e ↦
      let lt : block_key r < block_key q = ground (arith, e, d.0) in
      rw e ((lt, All-imp _ _ qs (λ z later. lt_trans lt later) a.0), a)
]

order_asc-Ascending : (rs : List BlockRow) → Keyed rs → Ascending (order_asc rs)
unfolding order_asc
order_asc-Ascending [] k = tt
order_asc-Ascending (r ∷ rs) k =
    insert_asc-Ascending r (order_asc rs) (order_asc-Ascending rs k.1) (order_asc-All _ rs k.0)

pub range-Ascending :
    (from to : ℕ) (rows : List BlockRow)
    → Numbered rows
    → Ascending (order_asc (filter (in_range from to) rows))
range-Ascending from to rows h = order_asc-Ascending _ (filter-Keyed from to rows h)

-- The list has an element that passes the test.
abbrev pub Has {ℓ} : {A : Type ℓ} → (A → Bool) → List A → Type 0
Has p [] = ⊥
Has p (x ∷ xs) = (p x ≡ true) ⊎ Has p xs

found-Has :
    (p t : BlockRow → Bool) (rs : List BlockRow) {q : BlockRow}
    → find p rs ≡ some q
    → t q ≡ true
    → Has p (filter t rs)
unfolding find filter
found-Has p t [] f h = cc
found-Has p t (r ∷ rs) {q} f h = elim (Bool-cases (p r)) [
  | inl e ↦
      let same : r ≡ q = some_inj (rw (e, find) at f) in
      let passes : t r ≡ true = subst (λ z. t z ≡ true) (sym same) h in rw passes (inl e)
  | inr e ↦
      let later = found-Has p t rs (rw (e, find) at f) h in
      elim (Bool-cases (t r)) [ inl k ↦ rw k (inr later) | inr k ↦ rw k later ]
]

insert_asc-Has :
    (p : BlockRow → Bool) (r : BlockRow) (rs : List BlockRow)
    → (p r ≡ true) ⊎ Has p rs
    → Has p (insert_asc r rs)
unfolding insert_asc
insert_asc-Has p r [] h = h
insert_asc-Has p r (q ∷ qs) (inl k) = elim (Bool-cases (ltb (block_key q) (block_key r))) [
  | inl e ↦ rw e (inr (insert_asc-Has p r qs (inl k)))
  | inr e ↦ rw e (inl k)
]
insert_asc-Has p r (q ∷ qs) (inr (inl k)) = elim (Bool-cases (ltb (block_key q) (block_key r))) [
  | inl e ↦ rw e (inl k)
  | inr e ↦ rw e (inr (inl k))
]
insert_asc-Has p r (q ∷ qs) (inr (inr k)) = elim (Bool-cases (ltb (block_key q) (block_key r))) [
  | inl e ↦ rw e (inr (insert_asc-Has p r qs (inr k)))
  | inr e ↦ rw e (inr (inr k))
]

order_asc-Has : (p : BlockRow → Bool) (rs : List BlockRow) → Has p rs → Has p (order_asc rs)
unfolding order_asc
order_asc-Has p [] h = h
order_asc-Has p (r ∷ rs) (inl h) = insert_asc-Has p r (order_asc rs) (inl h)
order_asc-Has p (r ∷ rs) (inr h) = insert_asc-Has p r (order_asc rs) (inr (order_asc-Has p rs h))

pub range-Has :
    (from to : ℕ) (rows : List BlockRow) (p : BlockRow → Bool) {q : BlockRow}
    → find p rows ≡ some q
    → in_range from to q ≡ true
    → Has p (order_asc (filter (in_range from to) rows))
range-Has from to rows p f h = order_asc-Has p _ (found-Has p (in_range from to) rows f h)

pub to_u128-eq-ok : (n : ℕ) {m : ℕ} → to_u128 n ≡ ok m → m ≡ n
unfolding to_u128
to_u128-eq-ok n h = ground arith

Has-tail {ℓ} :
    {A : Type ℓ} (p : A → Bool) (x : A) (xs : List A) → p x ≡ false → Has p (x ∷ xs) → Has p xs
Has-tail p x xs e (inl h) = cc
Has-tail p x xs e (inr h) = h

-- An element that passes the test is behind a smaller one.
pub before_Has :
    (p : BlockRow → Bool) (k n : ℕ) (rs : List BlockRow)
    → All (λ q. k < block_key q) rs
    → All (λ q. p q ≡ true → block_key q ≡ n) rs
    → Has p rs
    → k < n
before_Has p k n [] a only h = absurd h
before_Has p k n (r ∷ rs) a only (inl h) = omega (arith, a.0, only.0 h)
before_Has p k n (r ∷ rs) a only (inr h) = before_Has p k n rs a.1 only.1 h

module _ (address : Bytes) where
  abbrev pub entry : BlockRow → Bytes × ℕ
  entry r = (r.hash, address_amount address r)

  -- What the query for the amounts of a range returns.
  pub fetch_amounts-eq-ok :
      (rs : List BlockRow) (l : List (Bytes × ℕ))
      → fetch_amounts address rs ≡ ok l
      → l ≡ map entry rs
  unfolding fetch_amounts
  fetch_amounts-eq-ok [] l h = sym (ok_inj h)
  fetch_amounts-eq-ok (r ∷ rs) l h =
      let (amount, p, h₁) =
        >>=-eq-ok (to_u128 (address_amount address r))
          (λ amount. fetch_amounts address rs >>= λ rest. ok ((r.hash, amount) ∷ rest)) h in
      let (rest, q, h₂) =
        >>=-eq-ok (fetch_amounts address rs) (λ rest. ok ((r.hash, amount) ∷ rest)) h₁ in
      let e : amount ≡ address_amount address r = to_u128-eq-ok (address_amount address r) p in
      cc (h₂, e, fetch_amounts-eq-ok rs rest q)

  pub position-Has :
      (hash : Bytes) (rs : List BlockRow)
      → Has (λ r. bytes_eq r.hash hash) rs
      → (i : ℕ) × (position hash (map entry rs) ≡ some i)
  unfolding position
  position-Has hash [] h = absurd h
  position-Has hash (r ∷ rs) (inl h) = (0, rw h)
  position-Has hash (r ∷ rs) (inr h) =
      let (i, e) = position-Has hash rs h in
      elim (Bool-cases (bytes_eq r.hash hash)) [ inl k ↦ (0, rw k) | inr k ↦ (suc i, rw (k, e)) ]

  -- The amounts of the rows with numbers up to `n`.
  abbrev pub amount_up_to : ℕ → BlockRow → ℕ
  amount_up_to n r = if leb (block_key r) n then address_amount address r else 0

  above :
      (n : ℕ) (rs : List BlockRow)
      → All (λ q. n < block_key q) rs
      → sum (map (amount_up_to n) rs) ≡ 0
  unfolding sum
  above n [] h = refl
  above n (r ∷ rs) h = ground (arith, above n rs h.1, h.0)

  -- Where the numbers ascend and a hash stands only at number `n`, the sum up to the hash is that
  -- of the rows with numbers up to `n`.
  pub up_to-Ascending :
      (hash : Bytes) (n : ℕ) (rs : List BlockRow)
      → Ascending rs
      → All (λ r. bytes_eq r.hash hash ≡ true → block_key r ≡ n) rs
      → Has (λ r. bytes_eq r.hash hash) rs
      → up_to hash (map entry rs) ≡ sum (map (amount_up_to n) rs)
  unfolding up_to sum
  up_to-Ascending hash n [] a only h = absurd h
  up_to-Ascending hash n (r ∷ rs) a only h = elim (Bool-cases (bytes_eq r.hash hash)) [
    | inl e ↦
        let here : block_key r ≡ n = only.0 e in
        rw e (
          ground (
            arith,
            here,
            above n rs (All-imp _ _ rs (λ z k. subst (λ m. m < block_key z) here k) a.0),
          ))
    | inr e ↦
        let later = Has-tail (λ q. bytes_eq q.hash hash) r rs e h in
        let lt : block_key r < n =
          before_Has (λ q. bytes_eq q.hash hash) (block_key r) n rs a.0 only.1 later in
        rw e (ground (arith, lt, up_to-Ascending hash n rs a.1 only.1 later))
  ]

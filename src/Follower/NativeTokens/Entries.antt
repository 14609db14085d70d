-- ===== src/Follower/NativeTokens/Entries.antt =====
-- The amounts that the query of toolkit/mainchain-follower/db-sync-follower/src/native_token/mod.rs
-- returns for a range of blocks.
use iagon_network_explorer_n.Prelude.{
  ℕ, ◌+◌, ◌^◌, ◌≤◌, ◌<◌, ◌≡◌, refl, arith, Bytes, bytes_eq, bytes_eq_iff, Bool-cases, inl, inr,
  Option-cases, true, false, Bool, ltb, ok, some, List, [], ◌∷◌, map, drop, All, sum,
}
use iagon_network_explorer_n.Follower.Database.{
  BlockRow, block_key, address_amount, to_u128, fetch_amounts,
}
use iagon_network_explorer_n.Follower.NativeTokens.{position}
use iagon_network_explorer_n.Follower.NativeTokens.Sums.{up_to}
use iagon_network_explorer_n.Follower.NativeTokens.Ranges.{Ascending, Has, entry, before_Has}

pub Has-position :
    (address hash : Bytes) (rs : List BlockRow) {i : ℕ}
    → position hash (map (entry address) rs) ≡ some i
    → Has (λ r. bytes_eq r.hash hash) rs
unfolding position
Has-position address hash [] h = cc
Has-position address hash (r ∷ rs) h = elim (Bool-cases (bytes_eq r.hash hash)) [
  | inl e ↦ inl e
  | inr e ↦ elim (Option-cases (position hash (map (entry address) rs))) [
    | inl n ↦ cc (rw (e, n, position) at h)
    | inr (j, q) ↦ inr (Has-position address hash rs q)
  ]
]

pub Has-meets {ℓ} :
    {A : Type ℓ} (p : A → Bool) (P : Type 0) (xs : List A)
    → Has p xs
    → All (λ x. p x ≡ true → P) xs
    → P
Has-meets p P [] h all = absurd h
Has-meets p P (x ∷ xs) (inl h) all = all.0 h
Has-meets p P (x ∷ xs) (inr h) all = Has-meets p P xs h all.1

pub All-zip {ℓ} :
    {A : Type ℓ} {P Q R : A → Type 0} (xs : List A)
    → All P xs
    → All Q xs
    → ((x : A) → P x → Q x → R x)
    → All R xs
All-zip [] p q f = tt
All-zip (x ∷ xs) p q f = (f x p.0 q.0, All-zip xs p.1 q.1 f)

-- Without the first block of the range, which is `after`, what is left up to `to` is the difference.
pub up_to-drop :
    (address after to : Bytes) (from : ℕ) (rs : List BlockRow)
    → Ascending rs
    → All (λ r. from ≤ block_key r) rs
    → All (λ r. bytes_eq r.hash after ≡ true → block_key r ≡ from) rs
    → Has (λ r. bytes_eq r.hash after) rs
    → bytes_eq after to ≡ false
    → up_to to (drop 1 (map (entry address) rs)) + up_to after (map (entry address) rs)
      ≡ up_to to (map (entry address) rs)
unfolding up_to
up_to-drop address after to from [] asc lo only h ne = absurd h
up_to-drop address after to from (r ∷ rs) asc lo only (inl h) ne =
    let e : r.hash ≡ after = (bytes_eq_iff r.hash after).0 h in
    let other : bytes_eq r.hash to ≡ false = rw e ne in rw (h, other) (omega arith)
up_to-drop address after to from (r ∷ rs) asc lo only (inr h) ne = absurd (
    omega
      (arith, before_Has (λ q. bytes_eq q.hash after) (block_key r) from rs asc.0 only.1 h, lo.0))

pub fetch_amounts-eq-entries :
    (address : Bytes) (rs : List BlockRow)
    → sum (map (address_amount address) rs) < 2 ^ 128
    → fetch_amounts address rs ≡ ok (map (entry address) rs)
unfolding fetch_amounts sum to_u128
fetch_amounts-eq-entries address [] h = refl
fetch_amounts-eq-entries address (r ∷ rs) h =
    let fits : ltb (address_amount address r) (2 ^ 128) ≡ true = ground arith in
    rw fits (rw (fetch_amounts-eq-entries address rs (omega arith)))

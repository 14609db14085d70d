-- ===== src/Follower/NativeTokens/Transfers.antt =====
-- What toolkit/mainchain-follower/db-sync-follower/src/native_token/mod.rs answers for two blocks,
-- from its cache or from the database.
use iagon_network_explorer_n.Prelude.{
  ℕ, suc, ◌+◌, ◌^◌, ◌≤◌, ◌<◌, ◌≡◌, arith, Bytes, bytes_eq, bytes_eq_iff, true, ok, some, some_inj,
  sym, subst, ◌∙◌, List, map, All, All-filter, All-imp, sum, filter, find, if◌then◌else◌,
}
use iagon_network_explorer_n.Follower.Database.{
  BlockRow, Block, block_key, holds, in_range, order_asc, address_amount, get_block_by_hash,
}
use iagon_network_explorer_n.Follower.Blocks.Stability.{
  IsRow, IsTable, from_row_inversion, order_asc-All,
}
use iagon_network_explorer_n.Follower.Blocks.Cached.{get_block_by_hash_row}
use iagon_network_explorer_n.Follower.NativeTokens.Sums.{
  sum-order_filter, sum-map_add, sum-map_mono, up_to,
}
use iagon_network_explorer_n.Follower.NativeTokens.Ranges.{
  Numbered, range-Ascending, Has, range-Has, entry, amount_up_to, up_to-Ascending,
}

-- The amounts sent to the address in the blocks with numbers above `a` and up to `b`.
unfoldable pub sent_between : Bytes → List BlockRow → ℕ → ℕ → ℕ
sent_between address rows a b =
    sum (map (λ r. if in_range (suc a) b r then address_amount address r else 0) rows)

-- The table of a chain, whose blocks are numbered and whose amounts fit u128 together.
pub record IsLedger (address : Bytes) (rows : List BlockRow) : Type 0 where
  pub table : IsTable rows
  pub numbered : Numbered rows
  pub fits : sum (map (address_amount address) rows) < 2 ^ 128

module _ (address : Bytes) (rows : List BlockRow) (ledger : IsLedger address rows) where
  -- The rows of a range, as the query orders them.
  abbrev pub range : ℕ → ℕ → List BlockRow
  range from to = order_asc (filter (in_range from to) rows)

  -- A hash is that of one row only.
  pub only_row :
      (hash : Bytes) (b : Block)
      → get_block_by_hash rows hash ≡ ok (some b)
      → All (λ r. bytes_eq r.hash hash ≡ true → block_key r ≡ b.block_no) rows
  unfolding block_key
  only_row hash b h =
      let (q, f, of_row) = get_block_by_hash_row rows hash b h in
      let (number, _, _) = from_row_inversion q b of_row in
      All-imp _ _ rows
        (λ r (row : IsRow rows r) same.
          let e : r.hash ≡ hash = (bytes_eq_iff r.hash hash).0 same in
          let found : find (λ z. bytes_eq z.hash hash) rows ≡ some r =
            subst (λ z. find (λ y. bytes_eq y.hash z) rows ≡ some r) e row.by_hash in
          let equal : r ≡ q = some_inj (sym found ∙ f) in
          subst (λ z. block_key z ≡ b.block_no) (sym equal) (rw number))
        ledger.table

  pub in_the_range :
      (hash : Bytes) (b : Block) (from to : ℕ)
      → get_block_by_hash rows hash ≡ ok (some b)
      → from ≤ b.block_no
      → b.block_no ≤ to
      → Has (λ r. bytes_eq r.hash hash) (range from to)
  unfolding in_range holds
  in_the_range hash b from to h lo hi =
      let (q, f, of_row) = get_block_by_hash_row rows hash b h in
      let (number, _, _) = from_row_inversion q b of_row in
      range-Has from to rows _ f (rw (number, in_range) (ground arith))

  up_to-range :
      (hash : Bytes) (b : Block) (from to : ℕ)
      → get_block_by_hash rows hash ≡ ok (some b)
      → Has (λ r. bytes_eq r.hash hash) (range from to)
      → up_to hash (map (entry address) (range from to))
        ≡ sum (map (λ r. if in_range from to r then amount_up_to address b.block_no r else 0) rows)
  up_to-range hash b from to h has =
      up_to-Ascending address hash b.block_no (range from to)
        (range-Ascending from to rows ledger.numbered)
        (order_asc-All _ _ (
          All-filter (λ r. bytes_eq r.hash hash ≡ true → block_key r ≡ b.block_no) _
            (in_range from to) rows (λ r only _. only) (only_row hash b h)))
        has
      ∙ sum-order_filter (amount_up_to address b.block_no) (in_range from to) rows

  part :
      (from to a b : ℕ) (r : BlockRow)
      → from ≤ a
      → a ≤ b
      → b ≤ to
      → (if in_range from to r then amount_up_to address b r else 0)
        ≡ (if in_range (suc a) b r then address_amount address r else 0)
          + (if in_range from to r then amount_up_to address a r else 0)
  unfolding in_range holds block_key
  part from to a b r h₁ h₂ h₃ = ground arith

  pub sent_between-le : (a b : ℕ) → sent_between address rows a b < 2 ^ 128
  unfolding sent_between
  sent_between-le a b = omega (
    arith,
    ledger.fits,
    sum-map_mono (λ r. if in_range (suc a) b r then address_amount address r else 0)
        (address_amount address) rows (λ r. ground arith),
  )

  -- A number that makes up the difference of the sums up to two blocks of a range is what was sent
  -- between these blocks.
  pub difference :
      (after to : Bytes) (a b : Block) (first last n : ℕ)
      → get_block_by_hash rows after ≡ ok (some a)
      → get_block_by_hash rows to ≡ ok (some b)
      → first ≤ a.block_no
      → a.block_no ≤ b.block_no
      → b.block_no ≤ last
      → n + up_to after (map (entry address) (range first last))
        ≡ up_to to (map (entry address) (range first last))
      → n ≡ sent_between address rows a.block_no b.block_no
  unfolding sent_between
  difference after to a b first last n ha hb h₁ h₂ h₃ e = omega (
    arith,
    e,
    up_to-range after a first last ha (in_the_range after a first last ha h₁ (omega arith)),
    up_to-range to b first last hb (in_the_range to b first last hb (omega arith) h₃),
    sum-map_add (λ r. if in_range first last r then amount_up_to address b.block_no r else 0)
        (λ r. if in_range (suc a.block_no) b.block_no r then address_amount address r else 0)
        (λ r. if in_range first last r then amount_up_to address a.block_no r else 0) rows
        (λ r. part first last a.block_no b.block_no r h₁ h₂ h₃),
  )

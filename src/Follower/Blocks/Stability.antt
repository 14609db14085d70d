-- ===== src/Follower/Blocks/Stability.antt =====
-- The chain that the block source of toolkit/mainchain-follower/db-sync-follower/src/block/mod.rs
-- reads, and what the cache may hold.
use iagon_network_explorer_n.Prelude.{
  ℕ, ◌+◌, ◌^◌, ◌≤◌, ◌<◌, ◌≡◌, refl, arith, Bytes, bytes_eq, ok, Option, none, some, List, [], ◌∷◌,
  All, All-filter, find, Bool-cases, Option-cases, inl, inr, ltb, true, some_inj, sym, subst, ◌∙◌,
}
use iagon_network_explorer_n.Follower.Database.{
  BlockRow, Block, from_row, fetch_optional, fetch_all, insert_asc, order_asc,
  get_latest_block_info, get_blocks_by_numbers, get_block_by_hash, in_range, block_key, holds,
}

module _ (P : BlockRow → Type 0) where
  pub insert_asc-All :
      (r : BlockRow) (rs : List BlockRow) → P r → All P rs → All P (insert_asc r rs)
  unfolding insert_asc
  insert_asc-All r [] p ps = (p, tt)
  insert_asc-All r (q ∷ qs) p ps = elim (Bool-cases (ltb (block_key q) (block_key r))) [
    | inl e ↦ rw e (ps.0, insert_asc-All r qs p ps.1)
    | inr e ↦ rw e (p, ps)
  ]

  pub order_asc-All : (rs : List BlockRow) → All P rs → All P (order_asc rs)
  unfolding order_asc
  order_asc-All [] ps = tt
  order_asc-All (r ∷ rs) ps = insert_asc-All r (order_asc rs) ps.0 (order_asc-All rs ps.1)

-- The hash of a row finds the row, and a row with a number is a complete block. The numbers fit the
-- type word31 of the database.
pub record IsRow (rows : List BlockRow) (r : BlockRow) : Type 0 where
  pub by_hash : find (λ q. bytes_eq q.hash r.hash) rows ≡ some r
  pub complete : (n : ℕ) → r.block_no ≡ some n → (b : Block) × (from_row r ≡ ok b) × (n < 2 ^ 31)

abbrev pub IsTable : List BlockRow → Type 0
IsTable rows = All (IsRow rows) rows

-- The block is on the main chain, at least `k` blocks below its end.
pub record IsStableBlock (k : ℕ) (rows : List BlockRow) (b : Block) : Type 0 where
  pub found : get_block_by_hash rows b.hash ≡ ok (some b)
  pub latest : Block
  pub at_end : get_latest_block_info rows ≡ ok (some latest)
  pub deep : b.block_no + k ≤ latest.block_no

-- Every cached block is stable.
abbrev pub IsCached : ℕ → List BlockRow → Option (List Block) → Type 0
IsCached k rows none = Unit
IsCached k rows (some blocks) = All (IsStableBlock k rows) blocks

pub from_row_inversion :
    (r : BlockRow) (b : Block)
    → from_row r ≡ ok b
    → (r.block_no ≡ some b.block_no) × (r.hash ≡ b.hash) × (r.time ≡ b.time)
unfolding from_row
from_row_inversion r b h = ground arith

pub from_row_slot : (r : BlockRow) (b : Block) → from_row r ≡ ok b → r.slot_no ≡ some b.slot_no
unfolding from_row
from_row_slot r b h = ground arith

pub found-get_block_by_hash :
    (rows : List BlockRow) (hash : Bytes) (r : BlockRow) (b : Block)
    → find (λ q. bytes_eq q.hash hash) rows ≡ some r
    → from_row r ≡ ok b
    → get_block_by_hash rows hash ≡ ok (some b)
unfolding get_block_by_hash fetch_optional
found-get_block_by_hash rows hash r b f e = rw f (rw e)

-- If every row is a block with the property, the query returns such blocks.
pub fetch_all_total :
    (P : Block → Type 0) (rs : List BlockRow)
    → All (λ r. (b : Block) × (from_row r ≡ ok b) × P b) rs
    → (bs : List Block) × (fetch_all rs ≡ ok bs) × All P bs
unfolding fetch_all
fetch_all_total P [] h = ([], refl, tt)
fetch_all_total P (r ∷ rs) h =
    let (b, e, p) = h.0 in
    let (bs, es, ps) = fetch_all_total P rs h.1 in (b ∷ bs, rw (e, es), (p, ps))

module _ (k : ℕ) (rows : List BlockRow) (table : IsTable rows) (latest : Block) where
  -- The rows of a range that ends at a stable block are stable blocks.
  row-IsStableBlock :
      (from to : ℕ) (r : BlockRow)
      → get_latest_block_info rows ≡ ok (some latest)
      → to + k ≤ latest.block_no
      → IsRow rows r
      → in_range from to r ≡ true
      → (b : Block) × (from_row r ≡ ok b) × IsStableBlock k rows b
  unfolding in_range holds
  row-IsStableBlock from to r at_end deep row h = elim (Option-cases r.block_no) [
    | inl e ↦ cc (rw e at h)
    | inr (n, e) ↦
        let (b, q, _) = row.complete n e in
        let (number, hash, _) = from_row_inversion r b q in
        (
          b,
          q,
          record {
            found =
                subst (λ h. get_block_by_hash rows h ≡ ok (some b)) hash
                  (found-get_block_by_hash rows r.hash r b row.by_hash q);
            latest = latest;
            at_end = at_end;
            deep = ground (arith, rw e at h, some_inj (sym e ∙ number));
          },
        )
  ]

  pub blocks_by_numbers-IsStableBlock :
      (from to : ℕ)
      → get_latest_block_info rows ≡ ok (some latest)
      → to + k ≤ latest.block_no
      → (bs : List Block) × (get_blocks_by_numbers rows from to ≡ ok bs)
        × All (IsStableBlock k rows) bs
  unfolding get_blocks_by_numbers
  blocks_by_numbers-IsStableBlock from to at_end deep = fetch_all_total (IsStableBlock k rows) _ (
      order_asc-All _ _ (
        All-filter (IsRow rows) _ (in_range from to) rows
          (λ r row h. row-IsStableBlock from to r at_end deep row h) table))

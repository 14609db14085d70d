-- ===== src/Follower/Blocks/Highest.antt =====
-- The query for the highest block of a window, and the latest stable block that
-- toolkit/mainchain-follower/db-sync-follower/src/block/mod.rs reads by it.
use iagon_network_explorer_n.Prelude.{
  ℕ, ◌+◌, ◌-◌, ◌≤◌, ◌≡◌, arith, Bool, Option-cases, inl, inr, true, ok, >>=-eq-ok, ok_or-eq-ok, ℤ,
  some, List, All, All-filter, All-of_filter, filter, greatest, greatest-All, greatest_bounds, u32,
  ap, ◌∙◌,
}
use iagon_network_explorer_n.Follower.Database.{
  BlockRow, Block, from_row, fetch_optional, in_window, block_key, highest, get_latest_block_info,
  get_highest_block,
}
use iagon_network_explorer_n.Follower.Blocks.{
  Settings, min_block_allowed_time, max_allowed_block_time, date_time_to_slot, latest_block,
  get_latest_block, latest_stable_block,
}
use iagon_network_explorer_n.Follower.Blocks.Stability.{IsRow, IsTable}

-- The row of the highest block: a row of the table in the window, with no higher one in the window.
pub record IsHighest (rows : List BlockRow) (test : BlockRow → Bool) (b : Block) : Type 0 where
  pub row : BlockRow
  pub of_row : from_row row ≡ ok b
  pub in_table : IsRow rows row
  pub passes : test row ≡ true
  pub bounds : All (λ q. test q ≡ true → block_key q ≤ block_key row) rows

pub get_highest_block-IsHighest :
    (rows : List BlockRow) (n : ℕ) (min_time : ℤ) (min_slot : ℕ) (max_time : ℤ) (max_slot : ℕ)
    (b : Block)
    → IsTable rows
    → get_highest_block rows n min_time min_slot max_time max_slot ≡ ok (some b)
    → IsHighest rows (in_window n min_time min_slot max_time max_slot) b
unfolding get_highest_block highest fetch_optional
get_highest_block-IsHighest rows n min_time min_slot max_time max_slot b table h =
    let test = in_window n min_time min_slot max_time max_slot in
    elim (Option-cases (greatest block_key (filter test rows))) [
      | inl e ↦ cc (rw (e, get_highest_block) at h)
      | inr (r, e) ↦
          let both =
            greatest-All (λ q. IsRow rows q × (test q ≡ true)) block_key (filter test rows)
              (All-filter (IsRow rows) _ test rows (λ q row t. (row, t)) table) e in
          record {
            row = r;
            of_row = ground (arith, rw (e, get_highest_block) at h);
            in_table = both.0;
            passes = both.1;
            bounds = All-of_filter _ test rows (greatest_bounds block_key (filter test rows) e);
          }
    ]

module _ (s : Settings) (rows : List BlockRow) where
  -- What a latest stable block rests on.
  pub record IsLatest (time : ℕ) (b : Block) : Type 0 where
    pub latest : Block
    pub at_end : get_latest_block_info rows ≡ ok (some latest)
    pub min_slot : ℕ
    pub from_min : date_time_to_slot s (min_block_allowed_time s time) ≡ ok min_slot
    pub max_slot : ℕ
    pub from_max : date_time_to_slot s (max_allowed_block_time s time) ≡ ok max_slot
    pub highest_in :
        IsHighest rows
          (in_window
            (latest.block_no - u32 (s.security_parameter + s.block_stability_margin))
            (min_block_allowed_time s time)
            min_slot
            (max_allowed_block_time s time)
            max_slot)
          b

  pub latest_stable_block-IsLatest :
      (time : ℕ) (b : Block)
      → IsTable rows
      → latest_stable_block s rows time ≡ ok (some b)
      → IsLatest time b
  unfolding latest_stable_block latest_block get_latest_block
  latest_stable_block-IsLatest time b table h =
      let (latest, p, h₁) = >>=-eq-ok _ _ h in
      let (o, q, p₁) = >>=-eq-ok _ _ p in
      let (min_slot, m, h₂) = >>=-eq-ok _ _ h₁ in
      let (max_slot, x, h₃) = >>=-eq-ok _ _ h₂ in
      record {
        latest = latest;
        at_end = q ∙ ap ok ((ok_or-eq-ok _ _ _).0 p₁);
        min_slot = min_slot;
        from_min = m;
        max_slot = max_slot;
        from_max = x;
        highest_in = get_highest_block-IsHighest rows _ _ _ _ _ b table h₃;
      }

-- ===== src/Follower/NativeTokens/Requests.antt =====
-- The answers of toolkit/mainchain-follower/db-sync-follower/src/native_token/mod.rs to requests
-- between two blocks, and the cache that they leave.
use Prim.Native.Nat.{min, max}
use iagon_network_explorer_n.Prelude.{
  ℕ, suc, ◌+◌, ◌^◌, ◌≤◌, ◌<◌, ◌≡◌, refl, arith, Bytes, bytes_eq, bytes_eq_iff, Bool-cases, inl, inr,
  Option-cases, true, false, ok, none, some, some_inj, ok_inj, ap, sym, subst, ◌∙◌, List, [], ◌∷◌,
  map, drop, All, All-filter, All-imp, sum, if◌then◌else◌, saturating_add_u32, saturating_sub,
}
use iagon_network_explorer_n.Selection.{sum_u128}
use iagon_network_explorer_n.Follower.Database.{
  BlockRow, Block, block_key, holds, in_range, address_amount, get_block_by_hash,
  get_latest_block_info, get_native_token_transfers,
}
use iagon_network_explorer_n.Follower.Blocks.Stability.{order_asc-All}
use iagon_network_explorer_n.Follower.NativeTokens.{
  Settings, Cache, get_sum_in_range, get_from_cache, update, take_to, get_block_no,
  get_latest_block, get_data_to_cache, query_and_cache, get_total_native_token_transfer,
}
use iagon_network_explorer_n.Follower.NativeTokens.Sums.{
  sum_u128-eq-sum, sum-order_filter, sum-map_mono, amounts, up_to, sum-take_to,
  get_sum_in_range_lem,
}
use iagon_network_explorer_n.Follower.NativeTokens.Ranges.{in_range-key, range-Ascending, entry}
use iagon_network_explorer_n.Follower.NativeTokens.Transfers.{
  sent_between, IsLedger, range, only_row, in_the_range, sent_between-le, difference,
}
use iagon_network_explorer_n.Follower.NativeTokens.Entries.{
  Has-position, Has-meets, All-zip, up_to-drop, fetch_amounts-eq-entries,
}

-- Whatever the cache serves for two blocks of the chain, in their order, is what was sent to the
-- address between them.
abbrev pub IsSound : Bytes → List BlockRow → Cache → Type 0
IsSound address rows none = Unit
IsSound address rows (some l) =
    (after to : Bytes) (a b : Block) (v : ℕ)
    → get_block_by_hash rows after ≡ ok (some a)
    → get_block_by_hash rows to ≡ ok (some b)
    → a.block_no ≤ b.block_no
    → get_sum_in_range l after to ≡ some v
    → v ≡ sent_between address rows a.block_no b.block_no

module _ (address : Bytes) (rows : List BlockRow) (ledger : IsLedger address rows) where
  range-bounds :
      (first last : ℕ)
      → All
          (λ r. (first ≤ block_key r) × (block_key r ≤ last))
          (range address rows ledger first last)
  range-bounds first last = order_asc-All _ _ (
      All-filter _ _ (in_range first last) rows
        (λ r _ e. ((in_range-key first last r e).1, (in_range-key first last r e).2)) ledger.table)

  only_in_range :
      (hash : Bytes) (b : Block) (first last : ℕ)
      → get_block_by_hash rows hash ≡ ok (some b)
      → All
          (λ r. bytes_eq r.hash hash ≡ true → block_key r ≡ b.block_no)
          (range address rows ledger first last)
  only_in_range hash b first last h = order_asc-All _ _ (
      All-filter (λ r. bytes_eq r.hash hash ≡ true → block_key r ≡ b.block_no) _
        (in_range first last) rows (λ r only _. only) (only_row address rows ledger hash b h))

  -- The amounts of a range of blocks, as the query returns them, are a sound cache.
  entries-IsSound :
      (first last : ℕ)
      → IsSound address rows (some (map (entry address) (range address rows ledger first last)))
  entries-IsSound first last after to a b v ha hb le h =
      let (i, j, n, p, q, e, served) = get_sum_in_range_lem _ after to h in
      let within : first ≤ a.block_no =
        Has-meets _ (first ≤ a.block_no) _ (Has-position address after _ p) (
          All-zip {P = λ r. (first ≤ block_key r) × (block_key r ≤ last)} _
            (range-bounds first last) (only_in_range after a first last ha)
            (λ r lo only same. subst (λ z. first ≤ z) (only same) lo.0)) in
      let below : b.block_no ≤ last =
        Has-meets _ (b.block_no ≤ last) _ (Has-position address to _ q) (
          All-zip {P = λ r. (first ≤ block_key r) × (block_key r ≤ last)} _
            (range-bounds first last) (only_in_range to b first last hb)
            (λ r lo only same. subst (λ z. z ≤ last) (only same) lo.1)) in
      let sent = difference address rows ledger after to a b first last n ha hb within le below e in
      served (omega (arith, sent, sent_between-le address rows ledger a.block_no b.block_no)) ∙ sent

  -- The sum that the code takes of the amounts of a range that starts at `after`.
  first_amounts :
      (after to : Bytes) (a b : Block) (last : ℕ)
      → get_block_by_hash rows after ≡ ok (some a)
      → get_block_by_hash rows to ≡ ok (some b)
      → a.block_no ≤ b.block_no
      → b.block_no ≤ last
      → bytes_eq after to ≡ false
      → sum_u128 0 (
          amounts
            (take_to to (drop 1 (map (entry address) (range address rows ledger a.block_no last)))))
        ≡ sent_between address rows a.block_no b.block_no
  first_amounts after to a b last ha hb le below ne =
      let l = map (entry address) (range address rows ledger a.block_no last) in
      let rest =
        up_to-drop address after to a.block_no (range address rows ledger a.block_no last)
          (range-Ascending a.block_no last rows ledger.numbered)
          (All-imp _ _ _ (λ r bounds. bounds.0) (range-bounds a.block_no last))
          (only_in_range after a a.block_no last ha)
          (in_the_range address rows ledger after a a.block_no last ha (omega arith) (omega arith))
          ne in
      let sent =
        difference address rows ledger after to a b a.block_no last (up_to to (drop 1 l)) ha hb
          (omega arith) le below rest in
      let total = sum-take_to to (drop 1 l) in
      sum_u128-eq-sum _
        (omega (arith, total, sent, sent_between-le address rows ledger a.block_no b.block_no))
      ∙ total
      ∙ sent

  update-IsSound :
      (cache : Cache) (l : List (Bytes × ℕ))
      → IsSound address rows (some l)
      → IsSound address rows (update cache l)
  unfolding update
  update-IsSound none l h = tt
  update-IsSound (some _) l h = h

  served-from_cache :
      (cache : Cache) (after to : Bytes) (a b : Block) {v : ℕ}
      → IsSound address rows cache
      → get_block_by_hash rows after ≡ ok (some a)
      → get_block_by_hash rows to ≡ ok (some b)
      → a.block_no ≤ b.block_no
      → get_from_cache cache after to ≡ some v
      → v ≡ sent_between address rows a.block_no b.block_no
  unfolding get_from_cache
  served-from_cache none after to a b s ha hb le h = cc
  served-from_cache (some l) after to a b {v} s ha hb le h = s after to a b v ha hb le h

  nothing_between : (n : ℕ) → sent_between address rows n n ≡ 0
  unfolding sent_between sum in_range holds
  nothing_between n = go rows
    where
      go :
          (rs : List BlockRow)
          → sum (map (λ r. if in_range (suc n) n r then address_amount address r else 0) rs) ≡ 0
      go [] = refl
      go (r ∷ rs) = ground (arith, go rs)

  module _ (s : Settings) (policy name : Bytes) (latest : Block) where
    data_to_cache :
        (after to : Bytes) (a b : Block)
        → get_latest_block_info rows ≡ ok (some latest)
        → get_block_by_hash rows after ≡ ok (some a)
        → get_block_by_hash rows to ≡ ok (some b)
        → b.block_no + s.security_parameter ≤ latest.block_no
        → (last : ℕ) × (b.block_no ≤ last)
          × (get_data_to_cache s rows after to policy name address
              ≡ ok (map (entry address) (range address rows ledger a.block_no last)))
    unfolding get_data_to_cache get_block_no get_latest_block get_native_token_transfers
    data_to_cache after to a b at_end ha hb stable =
        let last =
          min (saturating_sub latest.block_no s.security_parameter)
            (max b.block_no (saturating_add_u32 a.block_no s.cache_size)) in
        let fits : sum (map (address_amount address) (range address rows ledger a.block_no last))
            < 2 ^ 128 =
          omega (
            arith,
            ledger.fits,
            sum-order_filter (address_amount address) (in_range a.block_no last) rows,
            sum-map_mono (λ r. if in_range a.block_no last r then address_amount address r else 0)
                (address_amount address) rows (λ r. ground arith),
          ) in
        (last, omega arith, rw (ha, hb, at_end) (fetch_amounts-eq-entries address _ fits))

    -- In the table of a chain, whose blocks have different numbers and whose amounts fit u128
    -- together, for two blocks in their order, the second of them stable, and a sound cache, the
    -- request succeeds, with the amount of tokens, whatever their policies and names, sent to the
    -- address in the blocks after the first and up to the second, and leaves a sound cache.
    pub get_total_native_token_transfer-sent_between :
        (cache : Cache) (after to : Bytes) (a b : Block)
        → IsSound address rows cache
        → get_latest_block_info rows ≡ ok (some latest)
        → get_block_by_hash rows after ≡ ok (some a)
        → get_block_by_hash rows to ≡ ok (some b)
        → a.block_no ≤ b.block_no
        → b.block_no + s.security_parameter ≤ latest.block_no
        → (cache' : Cache) × IsSound address rows cache'
          × (get_total_native_token_transfer s rows cache (some after) to policy name address
              ≡ ok (sent_between address rows a.block_no b.block_no, cache'))
    unfolding get_total_native_token_transfer query_and_cache
    get_total_native_token_transfer-sent_between cache after to a b sound at_end ha hb le stable =
        elim (Bool-cases (bytes_eq after to)) [
          | inl e ↦
              let same : after ≡ to = (bytes_eq_iff after to).0 e in
              let equal : a ≡ b =
                some_inj (ok_inj (sym ha ∙ ap (get_block_by_hash rows) same ∙ hb)) in
              let none_sent : sent_between address rows a.block_no b.block_no ≡ 0 =
                subst (λ z. sent_between address rows a.block_no z.block_no ≡ 0) equal
                  (nothing_between a.block_no) in
              (cache, sound, rw (e, none_sent))
          | inr e ↦ elim (Option-cases (get_from_cache cache after to)) [
            | inr (v, hit) ↦
                let sent : v ≡ sent_between address rows a.block_no b.block_no =
                  served-from_cache cache after to a b sound ha hb le hit in
                (cache, sound, rw (e, hit, sent, get_total_native_token_transfer))
            | inl miss ↦
                let (last, below, query) = data_to_cache after to a b at_end ha hb stable in
                (
                  update cache _,
                  update-IsSound cache _ (entries-IsSound a.block_no last),
                  rw (e, miss, get_total_native_token_transfer)
                      (rw (query, query_and_cache)
                        (rw (first_amounts after to a b last ha hb le below e))),
                )
          ]
        ]

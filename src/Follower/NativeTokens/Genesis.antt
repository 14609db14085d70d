-- ===== src/Follower/NativeTokens/Genesis.antt =====
-- The two queries of toolkit/mainchain-follower/db-sync-follower/src/native_token/mod.rs, from
-- genesis and between two blocks, beside one another.
use iagon_network_explorer_n.Prelude.{
  ℕ, suc, ◌+◌, ◌≤◌, ◌≡◌, refl, arith, Bytes, leb, ok, >>=-eq-ok, none, some, ok_inj, ap, sym, ◌∙◌,
  List, [], ◌∷◌, map, All, sum, if◌then◌else◌,
}
use iagon_network_explorer_n.Follower.Database.{
  BlockRow, Block, holds, in_range, address_amount, asset_amount, get_block_by_hash,
  get_latest_block_info, get_total_native_tokens_transfered,
}
use iagon_network_explorer_n.Follower.NativeTokens.{
  Settings, Cache, get_block_no, query_transfers_from_genesis, get_total_native_token_transfer,
}
use iagon_network_explorer_n.Follower.NativeTokens.Sums.{sum-filter, sum-map_add}
use iagon_network_explorer_n.Follower.NativeTokens.Ranges.{to_u128-eq-ok}
use iagon_network_explorer_n.Follower.NativeTokens.Transfers.{sent_between, IsLedger}
use iagon_network_explorer_n.Follower.NativeTokens.Requests.{
  IsSound, get_total_native_token_transfer-sent_between,
}

-- The blocks hold no output of another asset to the address.
abbrev pub OnlyAsset : Bytes → Bytes → Bytes → List BlockRow → Type 0
OnlyAsset policy name address rows =
    All (λ r. asset_amount policy name address r ≡ address_amount address r) rows

module _ (policy name address : Bytes) where
  abbrev sent_up_to : ℕ → BlockRow → ℕ
  sent_up_to n r = if holds (λ m. leb m n) r.block_no then address_amount address r else 0

  asset_amounts :
      (n : ℕ) (rows : List BlockRow)
      → OnlyAsset policy name address rows
      → sum (
          map
            (λ r. if holds (λ m. leb m n) r.block_no then asset_amount policy name address r else 0)
            rows)
        ≡ sum (map (sent_up_to n) rows)
  unfolding sum
  asset_amounts n [] only = refl
  asset_amounts n (r ∷ rows) only =
      rw only.0 (ap (λ z. sent_up_to n r + z) (asset_amounts n rows only.1))

  from_genesis :
      (s : Settings) (rows : List BlockRow) (cache : Cache) (hash : Bytes) (b : Block)
      (x : ℕ × Cache)
      → OnlyAsset policy name address rows
      → get_block_by_hash rows hash ≡ ok (some b)
      → get_total_native_token_transfer s rows cache none hash policy name address ≡ ok x
      → x.0 ≡ sum (map (sent_up_to b.block_no) rows)
  unfolding get_total_native_token_transfer query_transfers_from_genesis get_block_no
      get_total_native_tokens_transfered
  from_genesis s rows cache hash b x only h e =
      let (m, p, q) =
        >>=-eq-ok (query_transfers_from_genesis s rows hash policy name address)
          (λ amount. ok (amount, cache)) e in
      let fetched = to_u128-eq-ok _ (rw (h, query_transfers_from_genesis, get_block_no) at p) in
      omega (
        arith,
        ap (λ p. p.0) (ok_inj q),
        fetched,
        sum-filter (asset_amount policy name address)
            (λ r. holds (λ n. leb n b.block_no) r.block_no) rows,
        asset_amounts b.block_no rows only,
      )

  row_between :
      (a b : ℕ) (r : BlockRow)
      → a ≤ b
      → sent_up_to b r
        ≡ (if in_range (suc a) b r then address_amount address r else 0) + sent_up_to a r
  unfolding holds in_range
  row_between a b r le = ground arith

  -- In the table of a chain whose blocks have different numbers and whose amounts fit u128
  -- together, and where no token of another asset is sent to the address, the amount between two
  -- blocks is the difference of the amounts from genesis to the two blocks: with a sound cache, the
  -- second block stable and not before the first, the three requests agree whenever they succeed.
  pub get_total_native_token_transfer-from_genesis :
      (s : Settings) (rows : List BlockRow) (ledger : IsLedger address rows) (latest : Block)
      (cache : Cache) (after to : Bytes) (a b : Block) (x y z : ℕ × Cache)
      → OnlyAsset policy name address rows
      → IsSound address rows cache
      → get_latest_block_info rows ≡ ok (some latest)
      → get_block_by_hash rows after ≡ ok (some a)
      → get_block_by_hash rows to ≡ ok (some b)
      → a.block_no ≤ b.block_no
      → b.block_no + s.security_parameter ≤ latest.block_no
      → get_total_native_token_transfer s rows cache none after policy name address ≡ ok x
      → get_total_native_token_transfer s rows cache none to policy name address ≡ ok y
      → get_total_native_token_transfer s rows cache (some after) to policy name address ≡ ok z
      → z.0 + x.0 ≡ y.0
  unfolding sent_between
  get_total_native_token_transfer-from_genesis s rows ledger latest cache after to a b x y z only
        sound at_end ha hb le stable hx hy hz =
      let (cache', _, e) =
        get_total_native_token_transfer-sent_between address rows ledger s policy name latest cache
          after to a b sound at_end ha hb le stable in
      omega (
        arith,
        ap (λ p. p.0) (ok_inj (sym hz ∙ e)),
        from_genesis s rows cache after a x only ha hx,
        from_genesis s rows cache to b y only hb hy,
        sum-map_add (sent_up_to b.block_no)
            (λ r. if in_range (suc a.block_no) b.block_no r then address_amount address r else 0)
            (sent_up_to a.block_no) rows (λ r. row_between a.block_no b.block_no r le),
      )

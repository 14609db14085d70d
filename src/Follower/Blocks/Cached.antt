-- ===== src/Follower/Blocks/Cached.antt =====
-- The cache of toolkit/mainchain-follower/db-sync-follower/src/block/mod.rs does not show: requests
-- by hash are answered as from the database.
use Prim.Native.Nat.{min}
use iagon_network_explorer_n.Prelude.{
  saturating_add_u32, saturating_sub, ltb→lt, ℕ, ◌+◌, ◌^◌, ◌≤◌, ◌<◌, ◌≡◌, refl, arith, sym, subst,
  ◌∙◌, Bytes, bytes_eq, bytes_eq_iff, Result, ok, err, panic, ◌>>=◌, Bool-cases, Option-cases, inl,
  inr, true, ◌&&◌, leb, ltb, Option, none, some, some_inj, ok_inj, ap, >>=-eq-ok, List, [], ◌∷◌,
  All, find, find-All, find_passes, u32,
}
use iagon_network_explorer_n.Follower.Database.{
  DataSourceError, BlockRow, Block, from_row, fetch_optional, get_latest_block_info,
  get_block_by_hash,
}
use iagon_network_explorer_n.Follower.Blocks.{
  Settings, BlocksCache, find_by_hash, is_block_time_valid, stable_and_valid,
  get_stable_block_by_hash_from_cache, get_stable_block_by_hash_from_db, blocks_to_cache, update,
  fill_cache, store_block, get_stable_block_by_hash,
}
use iagon_network_explorer_n.Follower.Blocks.Stability.{
  IsRow, IsTable, IsStableBlock, IsCached, from_row_inversion, blocks_by_numbers-IsStableBlock,
}

-- The block that a hash finds is read from a row of the table.
pub get_block_by_hash_row :
    (rows : List BlockRow) (hash : Bytes) (b : Block)
    → get_block_by_hash rows hash ≡ ok (some b)
    → (r : BlockRow) × (find (λ q. bytes_eq q.hash hash) rows ≡ some r) × (from_row r ≡ ok b)
unfolding get_block_by_hash fetch_optional
get_block_by_hash_row rows hash b h = elim (Option-cases (find (λ q. bytes_eq q.hash hash) rows)) [
  | inl e ↦ cc (rw e at h)
  | inr (r, e) ↦ (r, e, ground (arith, rw e at h))
]

-- It has this hash, and its number fits the database.
pub get_block_by_hash_inversion :
    (rows : List BlockRow) (hash : Bytes) (b : Block)
    → IsTable rows
    → get_block_by_hash rows hash ≡ ok (some b)
    → (b.hash ≡ hash) × (b.block_no < 2 ^ 31)
get_block_by_hash_inversion rows hash b table h =
    let (r, e, q) = get_block_by_hash_row rows hash b h in
    let row : IsRow rows r = find-All (IsRow rows) _ rows table e in
    let (number, same, _) = from_row_inversion r b q in
    let (_, _, bound) = row.complete b.block_no number in
    (sym same ∙ (bytes_eq_iff r.hash hash).0 (find_passes _ rows e), bound)

update-IsCached :
    (k : ℕ) (rows : List BlockRow) (cache : BlocksCache) (bs : List Block)
    → All (IsStableBlock k rows) bs
    → IsCached k rows (update cache bs)
unfolding update
update-IsCached k rows none bs h = tt
update-IsCached k rows (some cache) bs h = h

module _ (s : Settings) (rows : List BlockRow) (table : IsTable rows) where
  blocks_to_cache_total :
      (b latest : Block) (to : ℕ)
      → get_latest_block_info rows ≡ ok (some latest)
      → (b.block_no < to → to + s.security_parameter ≤ latest.block_no)
      → IsStableBlock s.security_parameter rows b
      → (bs : List Block) × (blocks_to_cache s rows b to ≡ ok bs)
        × All (IsStableBlock s.security_parameter rows) bs
  unfolding blocks_to_cache
  blocks_to_cache_total b latest to at_end deep stable = elim (Bool-cases (ltb b.block_no to)) [
    | inl lower ↦ rw lower (
        blocks_by_numbers-IsStableBlock s.security_parameter rows table latest b.block_no to at_end
          (deep (ltb→lt _ _ lower)))
    | inr e ↦ rw e (b ∷ [], refl, (stable, tt))
  ]

  pub fill_cache-IsCached :
      (cache : BlocksCache) (b : Block)
      → IsStableBlock s.security_parameter rows b
      → (cache' : BlocksCache) × (fill_cache s rows cache b ≡ ok cache')
        × IsCached s.security_parameter rows cache'
  unfolding fill_cache
  fill_cache-IsCached cache b stable =
      let to =
        min (saturating_add_u32 b.block_no s.cache_size)
          (saturating_sub stable.latest.block_no s.security_parameter) in
      let (bs, e, all) =
        blocks_to_cache_total b stable.latest to stable.at_end (λ lt. omega arith) stable in
      (
        update cache bs,
        rw (stable.at_end) (rw e),
        update-IsCached s.security_parameter rows cache bs all,
      )

  cached_block :
      (cache : BlocksCache) (hash : Bytes) (time : ℕ) (b : Block)
      → IsCached s.security_parameter rows cache
      → get_stable_block_by_hash_from_cache s rows cache hash time ≡ some b
      → IsStableBlock s.security_parameter rows b
        × (b.hash ≡ hash)
        × (is_block_time_valid s b time ≡ true)
  unfolding get_stable_block_by_hash_from_cache find_by_hash
  cached_block none hash time b c h = cc
  cached_block (some bs) hash time b c h =
      elim (Option-cases (find (λ q. bytes_eq q.hash hash) bs)) [
        | inl e ↦ cc (rw (e, get_stable_block_by_hash_from_cache) at h)
        | inr (q, e) ↦ elim (Bool-cases (is_block_time_valid s q time)) [
          | inl v ↦
              let same : q ≡ b = some_inj (rw (e, v, get_stable_block_by_hash_from_cache) at h) in
              (
                subst (IsStableBlock s.security_parameter rows) same
                    (find-All (IsStableBlock s.security_parameter rows) _ bs c e),
                subst (λ z. z.hash ≡ hash) same ((bytes_eq_iff q.hash hash).0 (find_passes _ bs e)),
                subst (λ z. is_block_time_valid s z time ≡ true) same v,
              )
          | inr v ↦ cc (rw (e, v, get_stable_block_by_hash_from_cache) at h)
        ]
      ]

  -- A stable block of valid time is what the database serves for its hash.
  pub stable-from_db :
      (hash : Bytes) (time : ℕ) (b : Block)
      → s.security_parameter < 2 ^ 31
      → IsStableBlock s.security_parameter rows b
      → b.hash ≡ hash
      → is_block_time_valid s b time ≡ true
      → get_stable_block_by_hash_from_db s rows hash time ≡ ok (some b)
  unfolding get_stable_block_by_hash_from_db stable_and_valid
  stable-from_db hash time b k stable same valid =
      let found : get_block_by_hash rows hash ≡ ok (some b) =
        subst (λ h. get_block_by_hash rows h ≡ ok (some b)) same stable.found in
      let (_, bound) = get_block_by_hash_inversion rows hash b table found in
      rw found (rw (stable.at_end) (rw valid (ground arith)))

  stable_and_valid_inversion :
      (time : ℕ) (o l : Option Block) (b : Block)
      → stable_and_valid s rows time o l ≡ some b
      → (latest : Block) × (o ≡ some b)
        × (l ≡ some latest)
        × (u32 (b.block_no + s.security_parameter) ≤ latest.block_no)
        × (is_block_time_valid s b time ≡ true)
  unfolding stable_and_valid
  stable_and_valid_inversion time none l b h = cc
  stable_and_valid_inversion time (some q) none b h = cc
  stable_and_valid_inversion time (some q) (some latest) b h =
      let deep = leb (u32 (q.block_no + s.security_parameter)) latest.block_no in
      elim (Bool-cases (deep && is_block_time_valid s q time)) [
        | inl e ↦
            let same : q ≡ b = some_inj (rw (e, stable_and_valid) at h) in
            subst
              (λ z.
                (latest' : Block) × (some q ≡ some z)
                × (some latest ≡ some latest')
                × (u32 (z.block_no + s.security_parameter) ≤ latest'.block_no)
                × (is_block_time_valid s z time ≡ true))
              same (latest, refl, refl, ground (arith, e), ground (arith, e))
        | inr e ↦ cc (rw (e, stable_and_valid) at h)
      ]

  pub from_db-IsStableBlock :
      (hash : Bytes) (time : ℕ) (b : Block)
      → s.security_parameter < 2 ^ 31
      → get_stable_block_by_hash_from_db s rows hash time ≡ ok (some b)
      → IsStableBlock s.security_parameter rows b
        × (b.hash ≡ hash)
        × (is_block_time_valid s b time ≡ true)
  unfolding get_stable_block_by_hash_from_db
  from_db-IsStableBlock hash time b k h =
      let (o, p, h₁) = >>=-eq-ok _ _ h in
      let (l, q, h₂) = >>=-eq-ok _ _ h₁ in
      let (latest, block, top, deep, valid) = stable_and_valid_inversion time o l b (ok_inj h₂) in
      let found : get_block_by_hash rows hash ≡ ok (some b) = p ∙ ap ok block in
      let (same, bound) = get_block_by_hash_inversion rows hash b table found in
      (
        record {
          found = subst (λ h. get_block_by_hash rows h ≡ ok (some b)) (sym same) found;
          latest = latest;
          at_end = q ∙ ap ok top;
          deep = omega arith;
        },
        same,
        valid,
      )

  stored :
      (cache : BlocksCache) (found : Result DataSourceError (Option Block))
      → IsCached s.security_parameter rows cache
      → ((b : Block) → found ≡ ok (some b) → IsStableBlock s.security_parameter rows b)
      → (cache' : BlocksCache) × IsCached s.security_parameter rows cache'
        × ((found >>= λ o. store_block s rows cache o) ≡ (found >>= λ o. ok (o, cache')))
  unfolding store_block
  stored cache panic c h = (cache, c, refl)
  stored cache (err e) c h = (cache, c, refl)
  stored cache (ok none) c h = (cache, c, refl)
  stored cache (ok (some b)) c h =
      let (cache', e, c') = fill_cache-IsCached cache b (h b refl) in (cache', c', rw e)

  -- A request by hash on a cache that holds stable blocks has the answer of the database, leaves a
  -- cache of stable blocks, and does not fail where the database does not.
  pub get_stable_block_by_hash-from_db :
      (cache : BlocksCache) (hash : Bytes) (time : ℕ)
      → s.security_parameter < 2 ^ 31
      → IsCached s.security_parameter rows cache
      → (cache' : BlocksCache) × IsCached s.security_parameter rows cache'
        × (get_stable_block_by_hash s rows cache hash time
            ≡ (get_stable_block_by_hash_from_db s rows hash time >>= λ found. ok (found, cache')))
  unfolding get_stable_block_by_hash
  get_stable_block_by_hash-from_db cache hash time k c =
      elim (Option-cases (get_stable_block_by_hash_from_cache s rows cache hash time)) [
        | inl missed ↦
            let (cache', c', e) =
              stored cache (get_stable_block_by_hash_from_db s rows hash time) c
                (λ b h. (from_db-IsStableBlock hash time b k h).0) in
            (cache', c', rw (missed, get_stable_block_by_hash) e)
        | inr (b, hit) ↦
            let (stable, same, valid) = cached_block cache hash time b c hit in
            (
              cache,
              c,
              rw (hit, get_stable_block_by_hash)
                  (rw (stable-from_db hash time b k stable same valid)),
            )
      ]

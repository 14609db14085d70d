-- ===== src/Follower/Blocks/Growth.antt =====
-- Runs of the block source of toolkit/mainchain-follower/db-sync-follower/src/block/mod.rs: requests
-- by hash while the main chain grows.
use mathlib.Core.Option
use iagon_network_explorer_n.Prelude.{
  ℕ, ◌+◌, ◌^◌, ◌≤◌, ◌<◌, ◌≡◌, refl, arith, Bytes, Bool, Result, ok, err, panic, ◌>>=◌, Option, none,
  some, List, [], ◌∷◌, All-imp, ap,
}
use iagon_network_explorer_n.Domain.{MainchainBlock}
use iagon_network_explorer_n.Follower.Database.{
  DataSourceError, BlockRow, Block, mainchain_block, get_latest_block_info, get_block_by_hash,
}
use iagon_network_explorer_n.Follower.Blocks.{
  Settings, BlocksCache, timestamp_to_db_type, get_stable_block_by_hash_from_db,
  get_stable_block_by_hash, get_stable_block_for,
}
use iagon_network_explorer_n.Follower.Blocks.Stability.{IsTable, IsStableBlock, IsCached}
use iagon_network_explorer_n.Follower.Blocks.Cached.{get_stable_block_by_hash-from_db}

-- A later state of the database: the chain has not become shorter, and no block that was `k` blocks
-- below its end has been rolled back.
pub record Extends (k : ℕ) (rows rows' : List BlockRow) : Type 0 where
  pub longer :
      (b : Block)
      → get_latest_block_info rows ≡ ok (some b)
      → (b' : Block) × (get_latest_block_info rows' ≡ ok (some b')) × (b.block_no ≤ b'.block_no)
  pub kept :
      (b latest : Block)
      → get_block_by_hash rows b.hash ≡ ok (some b)
      → get_latest_block_info rows ≡ ok (some latest)
      → b.block_no + k ≤ latest.block_no
      → get_block_by_hash rows' b.hash ≡ ok (some b)

pub IsStableBlock-Extends :
    (k : ℕ) (rows rows' : List BlockRow) (b : Block)
    → Extends k rows rows'
    → IsStableBlock k rows b
    → IsStableBlock k rows' b
IsStableBlock-Extends k rows rows' b x s =
    let (latest', at_end, le) = x.longer s.latest s.at_end in
    record {
      found = x.kept b s.latest s.found s.at_end s.deep;
      latest = latest';
      at_end = at_end;
      deep = omega arith;
    }

IsCached-Extends :
    (k : ℕ) (rows rows' : List BlockRow) (cache : BlocksCache)
    → Extends k rows rows'
    → IsCached k rows cache
    → IsCached k rows' cache
IsCached-Extends k rows rows' none x c = tt
IsCached-Extends k rows rows' (some bs) x c =
    All-imp _ _ bs (λ b. IsStableBlock-Extends k rows rows' b x) c

-- A request `get_stable_block_for`, or a new state of the database.
pub data Event : Type 0 where
  request : (hash : Bytes) (timestamp : ℕ) → Event
  advance : List BlockRow → Event

-- The conversion of a served block, beside the cache.
abbrev served :
    Option Block × BlocksCache → Result DataSourceError (Option MainchainBlock × BlocksCache)
served (found, cache) = ok (Option.map mainchain_block found, cache)

bind_served :
    (cache : BlocksCache) (m : Result DataSourceError (Option Block))
    → ((m >>= λ o. ok (o, cache)) >>= served)
      ≡ ((m >>= λ o. ok (Option.map mainchain_block o)) >>= λ o. ok (o, cache))
bind_served cache (ok o) = refl
bind_served cache (err e) = refl
bind_served cache panic = refl

module _ (s : Settings) (is_datetime : ℕ → Bool) where
  -- The source without its cache: each request is served from the database.
  unfoldable pub stable_block_for :
      List BlockRow → Bytes → ℕ → Result DataSourceError (Option MainchainBlock)
  stable_block_for rows hash timestamp = do
    reference_timestamp ← timestamp_to_db_type is_datetime timestamp
    found ← get_stable_block_by_hash_from_db s rows hash reference_timestamp
    ok (Option.map mainchain_block found)

  timed :
      (rows : List BlockRow) (cache : BlocksCache) (hash : Bytes) (time : Result DataSourceError ℕ)
      → IsTable rows
      → s.security_parameter < 2 ^ 31
      → IsCached s.security_parameter rows cache
      → (cache' : BlocksCache) × IsCached s.security_parameter rows cache'
        × ((time >>= λ t. (get_stable_block_by_hash s rows cache hash t >>= served)) ≡ (
            (time >>= λ t.
            (get_stable_block_by_hash_from_db s rows hash t >>= λ o.
            ok (Option.map mainchain_block o)))
            >>= λ o. ok (o, cache')))
  timed rows cache hash (err e) table k c = (cache, c, refl)
  timed rows cache hash panic table k c = (cache, c, refl)
  timed rows cache hash (ok t) table k c =
      let (cache', c', e) = get_stable_block_by_hash-from_db s rows table cache hash t k c in
      (cache', c', rw e (bind_served cache' _))

  pub get_stable_block_for-from_db :
      (rows : List BlockRow) (cache : BlocksCache) (hash : Bytes) (timestamp : ℕ)
      → IsTable rows
      → s.security_parameter < 2 ^ 31
      → IsCached s.security_parameter rows cache
      → (cache' : BlocksCache) × IsCached s.security_parameter rows cache'
        × (get_stable_block_for s is_datetime rows cache hash timestamp
            ≡ (stable_block_for rows hash timestamp >>= λ found. ok (found, cache')))
  unfolding get_stable_block_for stable_block_for
  get_stable_block_for-from_db rows cache hash timestamp table k c =
      timed rows cache hash (timestamp_to_db_type is_datetime timestamp) table k c

  -- An error leaves the cache as it was.
  continue :
      (BlocksCache → List (Result DataSourceError (Option MainchainBlock)))
      → BlocksCache
      → Result DataSourceError (Option MainchainBlock × BlocksCache)
      → List (Result DataSourceError (Option MainchainBlock))
  continue rest cache (ok (found, cache')) = ok found ∷ rest cache'
  continue rest cache (err e) = err e ∷ rest cache
  continue rest cache panic = panic ∷ rest cache

  continue_served :
      (rest : BlocksCache → List (Result DataSourceError (Option MainchainBlock)))
      (cache cache' : BlocksCache) (answers : List (Result DataSourceError (Option MainchainBlock)))
      (m : Result DataSourceError (Option MainchainBlock))
      → rest cache ≡ answers
      → rest cache' ≡ answers
      → continue rest cache (m >>= λ o. ok (o, cache')) ≡ m ∷ answers
  unfolding continue
  continue_served rest cache cache' answers (ok o) h h' = ap (◌∷◌ (ok o)) h'
  continue_served rest cache cache' answers (err e) h h' = ap (◌∷◌ (err e)) h
  continue_served rest cache cache' answers panic h h' = ap (◌∷◌ panic) h

  unfoldable pub run :
      List BlockRow
      → List Event
      → BlocksCache
      → List (Result DataSourceError (Option MainchainBlock))
  unfolding continue
  run rows [] cache = []
  run rows (advance rows' ∷ events) cache = run rows' events cache
  run rows (request hash timestamp ∷ events) cache =
      continue (run rows events) cache
        (get_stable_block_for s is_datetime rows cache hash timestamp)

  unfoldable pub run_uncached :
      List BlockRow → List Event → List (Result DataSourceError (Option MainchainBlock))
  run_uncached rows [] = []
  run_uncached rows (advance rows' ∷ events) = run_uncached rows' events
  run_uncached rows (request hash timestamp ∷ events) =
      stable_block_for rows hash timestamp ∷ run_uncached rows events

  -- Every state of the database extends the one before.
  abbrev pub Grows : List BlockRow → List Event → Type 0
  Grows rows [] = Unit
  Grows rows (advance rows' ∷ events) =
      IsTable rows' × Extends s.security_parameter rows rows' × Grows rows' events
  Grows rows (request hash timestamp ∷ events) = Grows rows events

  -- While the main chain grows and rolls back no block below the security parameter, which is below
  -- 2 ^ 31, the source that starts with a cache of stable blocks answers every request by hash as
  -- the database of that time does without the cache.
  pub run-eq-run_uncached :
      (rows : List BlockRow) (events : List Event) (cache : BlocksCache)
      → IsTable rows
      → s.security_parameter < 2 ^ 31
      → Grows rows events
      → IsCached s.security_parameter rows cache
      → run rows events cache ≡ run_uncached rows events
  unfolding run run_uncached
  run-eq-run_uncached rows [] cache table k g c = refl
  run-eq-run_uncached rows (advance rows' ∷ events) cache table k g c =
      run-eq-run_uncached rows' events cache g.0 k g.2 (IsCached-Extends _ rows rows' cache g.1 c)
  run-eq-run_uncached rows (request hash timestamp ∷ events) cache table k g c =
      let (cache', c', e) = get_stable_block_for-from_db rows cache hash timestamp table k c in
      rw e (
        continue_served (run rows events) cache cache' (run_uncached rows events) _
          (run-eq-run_uncached rows events cache table k g c)
          (run-eq-run_uncached rows events cache' table k g c'))

-- ===== src/Follower/Blocks/Coherence.antt =====
-- The block source of toolkit/mainchain-follower/db-sync-follower/src/mc_hash/mod.rs, over
-- block/mod.rs, as the data source that toolkit/primitives/sidechain-mc-hash/src/lib.rs relies on.
use iagon_network_explorer_n.Prelude.{
  ℕ, ◌+◌, ◌-◌, ◌^◌, ◌≤◌, ◌<◌, ◌≡◌, refl, arith, Bytes, Bool, Bool-cases, inl, inr, true, leb,
  Result, err, panic, ◌>>=◌, leb→le, ok, >>=-eq-ok, ok_inj, some_inj, pos, leb_ℤℕ, Option, some,
  List, All, find-All, u32, ap, ◌∙◌, subst, sym,
}
use iagon_network_explorer_n.Domain.{MainchainBlock}
use iagon_network_explorer_n.McHash.{McHashDataSource}
use iagon_network_explorer_n.McHash.Verification.{IsCoherent}
use iagon_network_explorer_n.Follower.Database.{
  DataSourceError, BlockRow, Block, mainchain_block, from_row, block_key, get_latest_block_info,
  get_block_by_hash,
}
use iagon_network_explorer_n.Follower.Blocks.{
  Settings, BlocksCache, get_stable_block_for, timestamp_to_db_type, min_block_allowed_time,
  max_allowed_block_time, is_block_time_valid, date_time_to_slot, latest_stable_block,
  get_stable_block_by_hash_from_db, get_latest_stable_block_for,
}
use iagon_network_explorer_n.Follower.Blocks.Stability.{
  IsTable, IsStableBlock, IsCached, from_row_inversion, found-get_block_by_hash,
}
use iagon_network_explorer_n.Follower.Blocks.Cached.{
  stable-from_db, get_block_by_hash_row, from_db-IsStableBlock,
}
use iagon_network_explorer_n.Follower.Blocks.Growth.{stable_block_for, get_stable_block_for-from_db}
use iagon_network_explorer_n.Follower.Blocks.Highest.{latest_stable_block-IsLatest}
use iagon_network_explorer_n.Follower.Blocks.Windows.{
  IsSmall, mapped, slot_after, slot_before, max_allowed_mono, time_order,
  timestamp_to_db_type-eq-ok, in_window-holds, holds-in_window,
}

-- A table of a chain in which later blocks have later times, and the slots are those of the times.
pub record IsChain (s : Settings) (rows : List BlockRow) : Type 0 where
  pub table : IsTable rows
  pub ordered :
      All
        (λ r.
          All
            (λ q. (n m : ℕ) → r.block_no ≡ some n → q.block_no ≡ some m → n ≤ m → r.time ≤ q.time)
            rows)
        rows
  pub slotted :
      All
        (λ r. (b : Block) → from_row r ≡ ok b → date_time_to_slot s (pos b.time) ≡ ok b.slot_no)
        rows

module _ (s : Settings) (is_datetime : ℕ → Bool) (rows : List BlockRow) where
  -- The source without its cache.
  abbrev pub uncached_source : McHashDataSource DataSourceError
  uncached_source = record {
    get_latest_stable_block_for = get_latest_stable_block_for s is_datetime rows;
    get_stable_block_for = stable_block_for s is_datetime rows;
  }

  abbrev answer : {A C : Type 0} → A × C → Result DataSourceError A
  answer (a, c) = ok a

  -- `McHashDataSourceImpl`, at a state of the database, with the cache that each request finds
  abbrev pub mc_hash_data_source : (Bytes → ℕ → BlocksCache) → McHashDataSource DataSourceError
  mc_hash_data_source caches = record {
    get_latest_stable_block_for = get_latest_stable_block_for s is_datetime rows;
    get_stable_block_for = λ hash timestamp.
        get_stable_block_for s is_datetime rows (caches hash timestamp) hash timestamp >>= λ answer.
        ok answer.0;
  }

  -- Every request finds a cache of stable blocks.
  abbrev pub AreCached : (Bytes → ℕ → BlocksCache) → Type 0
  AreCached caches =
      (hash : Bytes) (timestamp : ℕ) → IsCached s.security_parameter rows (caches hash timestamp)

  abbrev beside : {A C : Type 0} → C → A → Result DataSourceError (A × C)
  beside c a = ok (a, c)

  answer-beside :
      {A C : Type 0} (m : Result DataSourceError A) (c : C) → ((m >>= beside c) >>= answer) ≡ m
  answer-beside (ok a) c = refl
  answer-beside (err e) c = refl
  answer-beside panic c = refl

  pub mc_hash_data_source_lem :
      (caches : Bytes → ℕ → BlocksCache)
      → IsTable rows
      → s.security_parameter < 2 ^ 31
      → AreCached caches
      → mc_hash_data_source caches ≡ uncached_source
  mc_hash_data_source_lem caches table k c =
      let same : (hash : Bytes) (timestamp : ℕ)
          → (mc_hash_data_source caches).get_stable_block_for hash timestamp
            ≡ stable_block_for s is_datetime rows hash timestamp =
        λ hash timestamp.
          let (cache', _, e) =
            get_stable_block_for-from_db s is_datetime rows (caches hash timestamp) hash timestamp
              table k (c hash timestamp) in
          ap (λ m. m >>= answer) e ∙ answer-beside _ cache' in
      λ i. record {
        get_latest_stable_block_for = get_latest_stable_block_for s is_datetime rows;
        get_stable_block_for = λ hash timestamp. same hash timestamp i;
      }

  latest_answer :
      (t : ℕ) (m : MainchainBlock)
      → get_latest_stable_block_for s is_datetime rows t ≡ ok (some m)
      → (b : Block) × (timestamp_to_db_type is_datetime t ≡ ok t)
        × (t < 2 ^ 63)
        × (latest_stable_block s rows t ≡ ok (some b))
        × (mainchain_block b ≡ m)
  unfolding get_latest_stable_block_for
  latest_answer t m h =
      let (u, p, h₁) = >>=-eq-ok _ _ h in
      let (o, q, h₂) = >>=-eq-ok _ _ h₁ in
      let (b, e, e') = mapped o m (ok_inj h₂) in
      let (same, bound) = timestamp_to_db_type-eq-ok is_datetime t p in
      (
        b,
        subst (λ z. timestamp_to_db_type is_datetime t ≡ ok z) (sym same) p,
        bound,
        subst (λ z. latest_stable_block s rows z ≡ ok (some b)) (sym same) (q ∙ ap ok e),
        e',
      )

  hash_answer :
      (hash : Bytes) (t : ℕ) (m : MainchainBlock)
      → stable_block_for s is_datetime rows hash t ≡ ok (some m)
      → (b : Block) × (t < 2 ^ 63)
        × (get_stable_block_by_hash_from_db s rows hash t ≡ ok (some b))
        × (mainchain_block b ≡ m)
  unfolding stable_block_for
  hash_answer hash t m h =
      let (u, p, h₁) = >>=-eq-ok _ _ h in
      let (o, q, h₂) = >>=-eq-ok _ _ h₁ in
      let (b, e, e') = mapped o m (ok_inj h₂) in
      let (same, bound) = timestamp_to_db_type-eq-ok is_datetime t p in
      (
        b,
        bound,
        subst (λ z. get_stable_block_by_hash_from_db s rows hash z ≡ ok (some b)) (sym same)
            (q ∙ ap ok e),
        e',
      )

  latest_is_stable :
      (latest : Block) (t : ℕ) (m : MainchainBlock)
      → IsTable rows
      → IsSmall s
      → get_latest_block_info rows ≡ ok (some latest)
      → s.security_parameter + s.block_stability_margin ≤ latest.block_no
      → get_latest_stable_block_for s is_datetime rows t ≡ ok (some m)
      → stable_block_for s is_datetime rows m.hash t ≡ ok (some m)
  unfolding stable_block_for mainchain_block is_block_time_valid
  latest_is_stable latest t m table small at_end long h =
      let (b, time, bound, q, e) = latest_answer t m h in
      let l = latest_stable_block-IsLatest s rows t b table q in
      let top : latest ≡ l.latest = some_inj (ok_inj (sym at_end ∙ l.at_end)) in
      let r = l.highest_in in
      let (low, after, before) = in_window-holds _ _ _ _ _ r.row b r.of_row r.passes in
      let (_, hash, _) = from_row_inversion r.row b r.of_row in
      let stable : IsStableBlock s.security_parameter rows b = record {
        found =
            subst (λ z. get_block_by_hash rows z ≡ ok (some b)) hash
              (found-get_block_by_hash rows r.row.hash r.row b r.in_table.by_hash r.of_row);
        latest = latest;
        at_end = at_end;
        deep = omega (arith, ap (λ z. z.block_no) top);
      } in
      let valid : is_block_time_valid s b t ≡ true = rw (after, before, is_block_time_valid) in
      subst (λ z. stable_block_for s is_datetime rows z.hash t ≡ ok (some z)) e
        (rw (time, stable_block_for)
          (rw (stable-from_db s rows table b.hash t b small.parameter stable refl valid)))

  latest_is_highest :
      (t t' : ℕ) (m m' : MainchainBlock) (hash : Bytes)
      → IsChain s rows
      → IsSmall s
      → s.block_stability_margin ≡ 0
      → get_latest_stable_block_for s is_datetime rows t ≡ ok (some m)
      → t' ≤ t
      → stable_block_for s is_datetime rows hash t' ≡ ok (some m')
      → m'.number ≤ m.number
  unfolding mainchain_block is_block_time_valid block_key
  latest_is_highest t t' m m' hash chain small no_margin h le h' =
      let (b, _, bound, q, e) = latest_answer t m h in
      let l = latest_stable_block-IsLatest s rows t b chain.table q in
      let r = l.highest_in in
      let (low, after, before) = in_window-holds _ _ _ _ _ r.row b r.of_row r.passes in
      let (b', bound', q', e') = hash_answer hash t' m' h' in
      let (stable, _, valid) =
        from_db-IsStableBlock s rows chain.table hash t' b' small.parameter q' in
      let top : stable.latest ≡ l.latest = some_inj (ok_inj (sym stable.at_end ∙ l.at_end)) in
      let (r', f, of_row) = get_block_by_hash_row rows b'.hash b' stable.found in
      let (early, before') = max_allowed_mono s b'.time t' t le (ground (arith, valid)) in
      let slot = find-All _ _ rows chain.slotted f b' of_row in
      let (number, _, row_time) = from_row_inversion r.row b r.of_row in
      let (number', _, row_time') = from_row_inversion r' b' of_row in
      let fewer : b'.block_no ≤ b.block_no =
        elim (Bool-cases (leb_ℤℕ (min_block_allowed_time s t) b'.time)) [
          | inl after' ↦
              let inside =
                holds-in_window
                  (l.latest.block_no - u32 (s.security_parameter + s.block_stability_margin))
                  (min_block_allowed_time s t) l.min_slot (max_allowed_block_time s t) l.max_slot r'
                  b' of_row (omega (arith, ap (λ z. z.block_no) top))
                  (slot_after s (min_block_allowed_time s t) b'.time small (omega arith) after'
                    l.from_min slot)
                  (slot_before s t b'.time small bound before' slot l.from_max) after' before' in
              rw (number, number', block_key) at (find-All _ _ rows r.bounds f inside)
          | inr gone ↦
              let later : b'.time < b.time =
                time_order (min_block_allowed_time s t) b.time b'.time after gone in
              let order =
                find-All _ _ rows (find-All _ _ rows chain.ordered r.in_table.by_hash) f in
              elim (Bool-cases (leb b.block_no b'.block_no)) [
                | inl above ↦ absurd (
                    omega (
                      arith,
                      order b.block_no b'.block_no number number' (leb→le _ _ above),
                      row_time,
                      row_time',
                    ))
                | inr below ↦ ground (arith, below)
              ]
        ] in
      subst (λ z. z.number ≤ m.number) e' (subst (λ z. b'.block_no ≤ z.number) e fewer)

  pub uncached_source-IsCoherent :
      (slot_timestamp : ℕ → Option ℕ) (latest : Block)
      → IsChain s rows
      → IsSmall s
      → s.block_stability_margin ≡ 0
      → get_latest_block_info rows ≡ ok (some latest)
      → s.security_parameter ≤ latest.block_no
      → IsCoherent uncached_source slot_timestamp
  uncached_source-IsCoherent slot_timestamp latest chain small no_margin at_end long = record {
    latest_is_stable =
        λ t m h. latest_is_stable latest t m chain.table small at_end (omega arith) h;
    latest_is_highest =
        λ t t' m m' hash h le h'. latest_is_highest t t' m m' hash chain small no_margin h le h';
  }

  -- On a chain that is longer than the security parameter, whose later blocks have later times and
  -- whose slots are those of the times, a source without stability margin, with settings in the
  -- range of the machine words, has what the reference of a block relies on, at every state of the
  -- database and with any caches of stable blocks: the latest stable block for a time is stable under its own hash for that time, and no
  -- block that is stable for a time before has a higher number.
  pub mc_hash_data_source-IsCoherent :
      (caches : Bytes → ℕ → BlocksCache) (slot_timestamp : ℕ → Option ℕ) (latest : Block)
      → AreCached caches
      → IsChain s rows
      → IsSmall s
      → s.block_stability_margin ≡ 0
      → get_latest_block_info rows ≡ ok (some latest)
      → s.security_parameter ≤ latest.block_no
      → IsCoherent (mc_hash_data_source caches) slot_timestamp
  mc_hash_data_source-IsCoherent caches slot_timestamp latest cached chain small no_margin at_end
        long =
      subst (λ d. IsCoherent d slot_timestamp)
        (sym (mc_hash_data_source_lem caches chain.table small.parameter cached))
        (uncached_source-IsCoherent slot_timestamp latest chain small no_margin at_end long)

-- ===== src/Follower/Blocks/Proposals.antt =====
-- Proposals and verifications of toolkit/primitives/sidechain-mc-hash/src/lib.rs over the block source
-- of toolkit/mainchain-follower/db-sync-follower/src/mc_hash/mod.rs, while the main chain grows.
use iagon_network_explorer_n.Prelude.{
  ℕ, ◌≤◌, ◌<◌, ◌^◌, ◌≡◌, Bool, Bytes, ok, >>=-eq-ok, ok_inj, Option, some, none, List, ap, ◌∙◌,
  subst, sym,
}
use iagon_network_explorer_n.Domain.{MainchainBlock}
use iagon_network_explorer_n.McHash.{
  DigestItem, McHashDataSource, value_from_digest, new_proposal, new_verification,
}
use iagon_network_explorer_n.McHash.Verification.{
  IsStable, FollowsParent, new_verification_iff, new_proposal-verified,
}
use iagon_network_explorer_n.Follower.Database.{BlockRow, Block, get_latest_block_info}
use iagon_network_explorer_n.Follower.Blocks.{Settings, BlocksCache, timestamp_to_db_type}
use iagon_network_explorer_n.Follower.Blocks.Stability.{IsTable}
use iagon_network_explorer_n.Follower.Blocks.Cached.{stable-from_db, from_db-IsStableBlock}
use iagon_network_explorer_n.Follower.Blocks.Growth.{
  Extends, IsStableBlock-Extends, stable_block_for,
}
use iagon_network_explorer_n.Follower.Blocks.Windows.{IsSmall, mapped}
use iagon_network_explorer_n.Follower.Blocks.Coherence.{
  IsChain, AreCached, uncached_source, uncached_source-IsCoherent, mc_hash_data_source,
  mc_hash_data_source_lem,
}

-- A source that has the stable blocks of another accepts what that one accepts.
module _ {E : Type 0} (d d' : McHashDataSource E) (slot_timestamp : ℕ → Option ℕ)
    (keeps : (hash : Bytes) (t : ℕ) (b : MainchainBlock)
      → d.get_stable_block_for hash t ≡ ok (some b)
      → d'.get_stable_block_for hash t ≡ ok (some b)) where
  IsStable-mono :
      (slot : ℕ) (hash : Bytes) (block : MainchainBlock)
      → IsStable d slot_timestamp slot hash block
      → IsStable d' slot_timestamp slot hash block
  IsStable-mono slot hash block s = record {
    timestamp = s.timestamp;
    at = s.at;
    found = keeps hash s.timestamp block s.found;
  }

  FollowsParent-mono :
      (logs : List DigestItem) (parent_slot : Option ℕ) (block : MainchainBlock)
      → FollowsParent d slot_timestamp logs parent_slot block
      → FollowsParent d' slot_timestamp logs parent_slot block
  FollowsParent-mono logs none block f = tt
  FollowsParent-mono logs (some slot) block (hash, parent, digest, stable, le) =
      (hash, parent, digest, IsStable-mono slot hash parent stable, le)

  new_verification_mono :
      (logs : List DigestItem) (parent_slot : Option ℕ) (slot : ℕ) (hash : Bytes)
      (block : MainchainBlock)
      → new_verification d slot_timestamp logs parent_slot slot hash ≡ ok block
      → new_verification d' slot_timestamp logs parent_slot slot hash ≡ ok block
  new_verification_mono logs parent_slot slot hash block h =
      let (stable, follows) =
        (new_verification_iff d slot_timestamp logs parent_slot slot hash block).0 h in
      (new_verification_iff d' slot_timestamp logs parent_slot slot hash block).1
        (IsStable-mono slot hash block stable, FollowsParent-mono logs parent_slot block follows)

module _ (s : Settings) (is_datetime : ℕ → Bool) (rows rows' : List BlockRow)
    (extends : Extends s.security_parameter rows rows') where
  stable_block_for-Extends :
      IsTable rows
      → IsTable rows'
      → s.security_parameter < 2 ^ 31
      → (hash : Bytes) (t : ℕ) (m : MainchainBlock)
      → stable_block_for s is_datetime rows hash t ≡ ok (some m)
      → stable_block_for s is_datetime rows' hash t ≡ ok (some m)
  unfolding stable_block_for
  stable_block_for-Extends table table' k hash t m h =
      let (u, p, h₁) = >>=-eq-ok (timestamp_to_db_type is_datetime t) _ h in
      let (o, q, h₂) = >>=-eq-ok _ _ h₁ in
      let (b, e, e') = mapped o m (ok_inj h₂) in
      let (stable, same, valid) = from_db-IsStableBlock s rows table hash u b k (q ∙ ap ok e) in
      let kept = IsStableBlock-Extends _ rows rows' b extends stable in
      rw (p, stable_block_for)
        (rw (stable-from_db s rows' table' hash u b k kept same valid) (ap (λ z. ok (some z)) e'))

  verified_uncached :
      (slot_timestamp : ℕ → Option ℕ) (latest : Block)
      → IsChain s rows
      → IsSmall s
      → s.block_stability_margin ≡ 0
      → get_latest_block_info rows ≡ ok (some latest)
      → s.security_parameter ≤ latest.block_no
      → IsTable rows'
      → (slot parent_slot time parent_time : ℕ) (block parent_block : MainchainBlock)
        (parent_logs : List DigestItem) (parent_hash : Bytes)
      → new_proposal (uncached_source s is_datetime rows) slot_timestamp slot ≡ ok block
      → slot_timestamp slot ≡ some time
      → slot_timestamp parent_slot ≡ some parent_time
      → parent_time ≤ time
      → value_from_digest parent_logs ≡ ok parent_hash
      → stable_block_for s is_datetime rows parent_hash parent_time ≡ ok (some parent_block)
      → new_verification
          (uncached_source s is_datetime rows')
          slot_timestamp
          parent_logs
          (some parent_slot)
          slot
          block.hash
        ≡ ok block
  verified_uncached slot_timestamp latest chain small no_margin at_end long table' slot parent_slot
        time parent_time block parent_block parent_logs parent_hash proposed at parent_at le
        in_digest parent_found =
      new_verification_mono (uncached_source s is_datetime rows)
        (uncached_source s is_datetime rows') slot_timestamp
        (stable_block_for-Extends chain.table table' small.parameter) parent_logs (some parent_slot)
        slot block.hash block
        (new_proposal-verified (uncached_source s is_datetime rows) slot_timestamp
          (uncached_source-IsCoherent s is_datetime rows slot_timestamp latest chain small no_margin
            at_end long)
          slot parent_slot time parent_time block parent_block parent_logs parent_hash proposed at
          parent_at le in_digest parent_found)

  -- On a chain longer than the security parameter, whose later blocks have later times and whose
  -- slots are those of the times, and without stability margin, a node proposes a reference for a
  -- block whose parent has a slot that is not later and a reference that the node has as stable.
  -- Every node with the same settings, in the range of the machine words, whose database is of the
  -- same main chain, grown further without a rollback below the security parameter, accepts
  -- it, whatever stable blocks the two have in their caches.
  pub new_proposal-verified_later :
      (caches caches' : Bytes → ℕ → BlocksCache) (slot_timestamp : ℕ → Option ℕ) (latest : Block)
      → AreCached s is_datetime rows caches
      → AreCached s is_datetime rows' caches'
      → IsChain s rows
      → IsSmall s
      → s.block_stability_margin ≡ 0
      → get_latest_block_info rows ≡ ok (some latest)
      → s.security_parameter ≤ latest.block_no
      → IsTable rows'
      → (slot parent_slot time parent_time : ℕ) (block parent_block : MainchainBlock)
        (parent_logs : List DigestItem) (parent_hash : Bytes)
      → new_proposal (mc_hash_data_source s is_datetime rows caches) slot_timestamp slot ≡ ok block
      → slot_timestamp slot ≡ some time
      → slot_timestamp parent_slot ≡ some parent_time
      → parent_time ≤ time
      → value_from_digest parent_logs ≡ ok parent_hash
      → (mc_hash_data_source s is_datetime rows caches).get_stable_block_for parent_hash parent_time
        ≡ ok (some parent_block)
      → new_verification
          (mc_hash_data_source s is_datetime rows' caches')
          slot_timestamp
          parent_logs
          (some parent_slot)
          slot
          block.hash
        ≡ ok block
  new_proposal-verified_later caches caches' slot_timestamp latest cached cached' chain small
        no_margin at_end long table' slot parent_slot time parent_time block parent_block
        parent_logs parent_hash proposed at parent_at le in_digest parent_found =
      let same =
        mc_hash_data_source_lem s is_datetime rows caches chain.table small.parameter cached in
      let same' =
        mc_hash_data_source_lem s is_datetime rows' caches' table' small.parameter cached' in
      subst
        (λ d.
          new_verification d slot_timestamp parent_logs (some parent_slot) slot block.hash
          ≡ ok block)
        (sym same')
        (verified_uncached slot_timestamp latest chain small no_margin at_end long table' slot
          parent_slot time parent_time block parent_block parent_logs parent_hash
          (subst (λ d. new_proposal d slot_timestamp slot ≡ ok block) same proposed) at parent_at le
          in_digest
          (subst (λ d. d.get_stable_block_for parent_hash parent_time ≡ ok (some parent_block)) same
            parent_found))

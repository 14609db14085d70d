-- ===== src/Examples/McHashExamples.antt =====
-- Runs of toolkit/primitives/sidechain-mc-hash/src/lib.rs.
use iagon_network_explorer_n.Prelude.{
  ℕ, ◌+◌, ap, bytes_eq, ◌≡◌, ◌↔◌, refl, arith, ok, Option, some, List, [], ◌∷◌,
}
use iagon_network_explorer_n.Domain.{MainchainBlock}
use iagon_network_explorer_n.McHash.{
  DigestItem, other_item, from_mc_block_hash, value_from_digest, McHashDataSource, new_proposal,
  new_verification,
}
use iagon_network_explorer_n.McHash.Digest.{IsReference, value_from_digest_iff}
use iagon_network_explorer_n.McHash.Verification.{
  IsStable, FollowsParent, IsCoherent, new_verification_iff, new_proposal-verified,
}
use iagon_network_explorer_n.Examples.Fixtures.{bytes}

abbrev block : MainchainBlock
block = record { number = 10; hash = bytes 32 1; epoch = 2; slot = 200; timestamp = 4000 }

-- A main chain with one stable block.
abbrev one_block : McHashDataSource ℕ
one_block = record {
  get_latest_stable_block_for = λ timestamp. ok (some block);
  get_stable_block_for = λ hash timestamp. ok (some block);
}

abbrev slot_timestamp : ℕ → Option ℕ
slot_timestamp slot = some (slot + slot)

abbrev logs : List DigestItem
logs = other_item [] ∷ from_mc_block_hash (bytes 32 1)

value_from_digest_iff_example :
    (value_from_digest logs ≡ ok (bytes 32 1)) ↔ IsReference logs (bytes 32 1)
value_from_digest_iff_example = value_from_digest_iff logs (bytes 32 1)

new_verification_iff_example :
    (new_verification one_block slot_timestamp logs (some 3) 5 (bytes 32 1) ≡ ok block) ↔ (
      IsStable one_block slot_timestamp 5 (bytes 32 1) block
      × FollowsParent one_block slot_timestamp logs (some 3) block)
new_verification_iff_example =
    new_verification_iff one_block slot_timestamp logs (some 3) 5 (bytes 32 1) block

same_block :
    (b : MainchainBlock) → one_block.get_latest_stable_block_for 0 ≡ ok (some b) → block ≡ b
same_block b h = cc

one_block-IsCoherent : IsCoherent one_block slot_timestamp
one_block-IsCoherent = record {
  latest_is_stable = λ t b h. h;
  latest_is_highest = λ t t' b b' hash h le h'.
      omega (arith, ap (λ z. z.number) (same_block b h), ap (λ z. z.number) (same_block b' h'));
}

new_proposal-verified_example :
    new_verification one_block slot_timestamp logs (some 3) 5 block.hash ≡ ok block
unfolding new_proposal value_from_digest from_mc_block_hash bytes_eq
new_proposal-verified_example =
    new_proposal-verified one_block slot_timestamp one_block-IsCoherent 5 3 10 6 block block logs
      (bytes 32 1) refl refl refl (omega arith) refl refl

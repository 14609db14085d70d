-- ===== src/Examples/RewardExamples.antt =====
-- Runs of the block rewards.
use iagon_network_explorer_n.Prelude.{ℕ, Bytes, ◌≡◌, refl, arith, ok, none, List, [], ◌∷◌}
use iagon_network_explorer_n.BlockRewards.{Chain, build}
use iagon_network_explorer_n.BlockRewards.Conservation.{
  produce_blocks, points_in, count, rewards_conserved,
}
use iagon_network_explorer_n.Examples.Fixtures.{bytes, genesis_utxo}

abbrev chain : Chain
chain = record {
  sidechain = build genesis_utxo 60;
  rewards = record { current_block_beneficiary = none; pending_rewards = [] };
  logged = [];
}

-- Two blocks in an epoch and one in the next.
abbrev blocks : List (ℕ × Bytes)
blocks = (10, bytes 32 1) ∷ (11, bytes 32 2) ∷ (65, bytes 32 1) ∷ []

rewards_conserved_example :
    (c' : Chain) × (produce_blocks blocks chain ≡ ok c')
    × ((b : Bytes) → points_in b c' ≡ count b blocks)
unfolding build
rewards_conserved_example = rewards_conserved blocks chain (omega arith) (omega arith) refl refl

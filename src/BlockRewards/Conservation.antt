-- ===== src/BlockRewards/Conservation.antt =====
-- The rewards of the blocks of a chain: each is logged or pending, for its beneficiary.
use iagon_network_explorer_n.Prelude.{
  ℕ, ◌+◌, ◌/◌, ◌≤◌, ◌<◌, ◌^◌, ◌≡◌, refl, arith, Bytes, bytes_eq, bytes_eq_iff, ok, ◌>>=◌, map_err,
  Result, Bool, true, false, ◌==◌, if◌then◌else◌, Option, none, some, List, [], ◌∷◌, ◌++◌, length,
  Bool-cases, inl, inr, pos→==,
}
use iagon_network_explorer_n.ValidatorManagement.{none_origin}
use iagon_network_explorer_n.Slots.{epoch_number}
use iagon_network_explorer_n.BlockRewards.{
  Rewards, Chain, add_reward, on_finalize, set_current_block_beneficiary, on_initialize,
  enter_epoch, on_new_epoch, get_rewards_and_clear, current_epoch_number,
}

-- A block in its slot, with the beneficiary that its inherent sets.
unfoldable pub produce_block : ℕ × Bytes → Chain → Result (Unit {0}) Chain
unfolding on_initialize set_current_block_beneficiary on_finalize
produce_block (slot, beneficiary) c = do
  c₁ ← map_err (λ _. tt) (on_initialize slot c)
  s₁ ← map_err (λ _. tt) (set_current_block_beneficiary none_origin beneficiary c₁.rewards)
  s₂ ← map_err (λ _. tt) (on_finalize s₁)
  ok (record c₁ { rewards = s₂ })

unfoldable pub produce_blocks : List (ℕ × Bytes) → Chain → Result (Unit {0}) Chain
unfolding produce_block
produce_blocks [] c = ok c
produce_blocks (block ∷ blocks) c = do c' ← produce_block block c; produce_blocks blocks c'

abbrev pub one_if : Bool → ℕ
one_if true = 1
one_if false = 0

-- The points of one beneficiary, and of all.
unfoldable pub points_of : Bytes → Rewards → ℕ
points_of b [] = 0
points_of b ((k, n) ∷ rewards) = (if bytes_eq k b then n else 0) + points_of b rewards

abbrev pub all_points : Rewards → ℕ
all_points [] = 0
all_points ((k, n) ∷ rewards) = n + all_points rewards

unfoldable pub logged_points : Bytes → List (ℕ × Rewards) → ℕ
unfolding points_of
logged_points b [] = 0
logged_points b ((epoch, rewards) ∷ logged) = points_of b rewards + logged_points b logged

-- The blocks of a beneficiary.
unfoldable pub count : Bytes → List (ℕ × Bytes) → ℕ
count b [] = 0
count b ((slot, beneficiary) ∷ blocks) = one_if (bytes_eq beneficiary b) + count b blocks

points_of-add_reward :
    (b beneficiary : Bytes) (rewards : Rewards)
    → all_points rewards + 1 < 2 ^ 32
    → points_of b (add_reward beneficiary 1 rewards)
      ≡ points_of b rewards + one_if (bytes_eq beneficiary b)
unfolding points_of add_reward
points_of-add_reward b beneficiary [] fits = ground arith
points_of-add_reward b beneficiary ((k, n) ∷ rewards) fits =
    ground
      (arith, bytes_eq_iff k beneficiary, points_of-add_reward b beneficiary rewards (omega arith))

all_points-add_reward :
    (beneficiary : Bytes) (rewards : Rewards)
    → all_points rewards + 1 < 2 ^ 32
    → all_points (add_reward beneficiary 1 rewards) ≡ all_points rewards + 1
unfolding add_reward
all_points-add_reward beneficiary [] fits = ground arith
all_points-add_reward beneficiary ((k, n) ∷ rewards) fits =
    ground (arith, all_points-add_reward beneficiary rewards (omega arith))

logged_points-append :
    (b : Bytes) (logged : List (ℕ × Rewards)) (epoch : ℕ) (rewards : Rewards)
    → logged_points b (logged ++ (epoch, rewards) ∷ [])
      ≡ logged_points b logged + points_of b rewards
unfolding logged_points
logged_points-append b [] epoch rewards = omega arith
logged_points-append b (l ∷ logged) epoch rewards =
    omega (arith, logged_points-append b logged epoch rewards)

-- The points of a beneficiary in a chain, logged or pending.
abbrev pub points_in : Bytes → Chain → ℕ
points_in b c = logged_points b c.logged + points_of b c.rewards.pending_rewards

enter_epoch-points :
    (saved : Option ℕ) (epoch : ℕ) (c : Chain)
    → ((b : Bytes) → points_in b (enter_epoch saved epoch c) ≡ points_in b c)
      × (all_points (enter_epoch saved epoch c).rewards.pending_rewards
          ≤ all_points c.rewards.pending_rewards)
      × ((enter_epoch saved epoch c).sidechain.slots_per_epoch ≡ c.sidechain.slots_per_epoch)
unfolding enter_epoch on_new_epoch get_rewards_and_clear points_of
enter_epoch-points none epoch c = (λ b. refl, omega arith, refl)
enter_epoch-points (some saved) epoch c = elim (Bool-cases (saved == epoch)) [
  | inl same ↦ rw same (λ b. refl, omega arith, refl)
  | inr new ↦ rw new (
    λ b. omega (arith, logged_points-append b c.logged saved c.rewards.pending_rewards),
    omega arith,
    refl,
  )
]

produce_block-points :
    (slot : ℕ) (beneficiary : Bytes) (c : Chain)
    → 0 < c.sidechain.slots_per_epoch
    → all_points c.rewards.pending_rewards + 1 < 2 ^ 32
    → (c' : Chain) × (produce_block (slot, beneficiary) c ≡ ok c')
      × ((b : Bytes) → points_in b c' ≡ points_in b c + one_if (bytes_eq beneficiary b))
      × (all_points c'.rewards.pending_rewards ≤ all_points c.rewards.pending_rewards + 1)
      × (0 < c'.sidechain.slots_per_epoch)
unfolding produce_block current_epoch_number epoch_number
produce_block-points slot beneficiary c pos fits =
    let c₁ = enter_epoch c.sidechain.saved_epoch_number (slot / c.sidechain.slots_per_epoch) c in
    let (points, all, slots) =
      enter_epoch-points c.sidechain.saved_epoch_number (slot / c.sidechain.slots_per_epoch) c in
    let pending = c₁.rewards.pending_rewards in
    (
      record c₁ {
        rewards = record {
          current_block_beneficiary = none;
          pending_rewards = add_reward beneficiary 1 pending;
        };
      },
      rw (pos→== pos),
      λ b. omega (arith, points b, points_of-add_reward b beneficiary pending (omega arith)),
      omega (arith, all_points-add_reward beneficiary pending (omega arith)),
      omega (arith, slots),
    )

produce_blocks-points :
    (blocks : List (ℕ × Bytes)) (c : Chain)
    → 0 < c.sidechain.slots_per_epoch
    → all_points c.rewards.pending_rewards + length blocks < 2 ^ 32
    → (c' : Chain) × (produce_blocks blocks c ≡ ok c')
      × ((b : Bytes) → points_in b c' ≡ points_in b c + count b blocks)
unfolding produce_blocks count
produce_blocks-points [] c pos fits = (c, refl, λ b. omega arith)
produce_blocks-points ((slot, beneficiary) ∷ blocks) c pos fits =
    let (c₁, e₁, points₁, all₁, pos₁) = produce_block-points slot beneficiary c pos (omega arith) in
    let (c₂, e₂, points₂) = produce_blocks-points blocks c₁ pos₁ (omega (arith, all₁)) in
    (c₂, rw (e₁, produce_blocks) e₂, λ b. omega (arith, points₁ b, points₂ b))

-- With a positive number of slots per epoch, every sequence of fewer than 2 ^ 32 blocks, each with
-- a beneficiary, is executed without a panic on a chain without rewards, and then the points of every
-- beneficiary, in the rewards logged at the ends of epochs and the pending ones together, are the
-- number of its blocks.
pub rewards_conserved :
    (blocks : List (ℕ × Bytes)) (c : Chain)
    → 0 < c.sidechain.slots_per_epoch
    → length blocks < 2 ^ 32
    → c.rewards.pending_rewards ≡ []
    → c.logged ≡ []
    → (c' : Chain) × (produce_blocks blocks c ≡ ok c')
      × ((b : Bytes) → points_in b c' ≡ count b blocks)
unfolding logged_points points_of
rewards_conserved blocks c pos few no_pending no_logged =
    let (c', e, points) = produce_blocks-points blocks c pos (rw no_pending (omega arith)) in
    (c', e, λ b. omega (arith, points b, start b))
  where
    start : (b : Bytes) → points_in b c ≡ 0
    start b = rw (no_pending, no_logged)

-- ===== src/BlockRewards.antt =====
-- toolkit/pallets/block-rewards/src/lib.rs and toolkit/pallets/sidechain/src/lib.rs, with the
-- beneficiaries, the reward points and the hook on a new epoch of node/runtime/src/lib.rs.
pub mod Conservation
use iagon_network_explorer_n.Prelude.{
  ℕ, ◌+◌, Bytes, bytes_eq, Exec, Result, ok, err, panic, ◌>>=◌, ◌>>◌, expect, u32, u64, Bool, true,
  false, not, ◌==◌, if◌then◌else◌, Option, none, some, List, [], ◌∷◌, ◌++◌,
}
use iagon_network_explorer_n.Domain.{UtxoId}
use iagon_network_explorer_n.Slots.{epoch_number}
use iagon_network_explorer_n.ValidatorManagement.{
  Origin, ensure_none, none_origin, DispatchError, InherentData,
}

-- The runtime's `BeneficiaryId`, 32 bytes, with its `BlockRewardPoints`, a u32
abbrev pub Rewards : Type 0
Rewards = List (Bytes × ℕ)

pub record Storage : Type 0 where
  pub current_block_beneficiary : Option Bytes
  pub pending_rewards : Rewards

pub data InherentError : Type 0 where
  inherent_required : InherentError

pub data Call : Type 0 where
  set_current_block_beneficiary_call : (beneficiary : Bytes) → Call

unfoldable pub get_beneficiary_from_inherent_data : InherentData Bytes → Exec Bytes
get_beneficiary_from_inherent_data (ok (some beneficiary)) = ok beneficiary
get_beneficiary_from_inherent_data (ok none) = panic
get_beneficiary_from_inherent_data (err e) = panic
get_beneficiary_from_inherent_data panic = panic

unfoldable pub create_inherent : InherentData Bytes → Exec (Option Call)
unfolding get_beneficiary_from_inherent_data
create_inherent inherent_data = do
  beneficiary ← get_beneficiary_from_inherent_data inherent_data
  ok (some (set_current_block_beneficiary_call beneficiary))

-- The beneficiary that the author names is always trusted.
unfoldable pub check_inherent : Call → InherentData Bytes → Result InherentError (Unit {0})
check_inherent call inherent_data = ok tt

unfoldable pub is_inherent_required : InherentData Bytes → Option InherentError
is_inherent_required inherent_data = some inherent_required

unfoldable pub set_current_block_beneficiary :
    Origin → Bytes → Storage → Result DispatchError Storage
unfolding ensure_none
set_current_block_beneficiary origin beneficiary s = do
  ensure_none origin
  ok (record s { current_block_beneficiary = some beneficiary })

-- `SimpleBlockCount::get_block_reward`
abbrev pub get_block_reward : ℕ
get_block_reward = 1

-- `PendingRewards::mutate`: the reward is added to the beneficiary's, or is the first.
unfoldable pub add_reward : Bytes → ℕ → Rewards → Rewards
unfolding bytes_eq
add_reward beneficiary reward [] = (beneficiary, reward) ∷ []
add_reward beneficiary reward ((b, n) ∷ rewards) =
    let rest = add_reward beneficiary reward rewards in
    if bytes_eq b beneficiary then (b, u32 (n + reward)) ∷ rewards else (b, n) ∷ rest

unfoldable pub on_finalize : Storage → Exec Storage
unfolding add_reward
on_finalize s = do
  beneficiary ← expect s.current_block_beneficiary
  ok (record {
    current_block_beneficiary = none;
    pending_rewards = add_reward beneficiary get_block_reward s.pending_rewards;
  })

unfoldable pub get_rewards_and_clear : Storage → Rewards × Storage
get_rewards_and_clear s = (s.pending_rewards, record s { pending_rewards = [] })

-- The sidechain pallet. The epoch is absent before the first block.
pub record Sidechain : Type 0 where
  pub saved_epoch_number : Option ℕ
  pub slots_per_epoch : ℕ
  pub genesis_utxo : UtxoId

-- `GenesisConfig::build`
unfoldable pub build : UtxoId → ℕ → Sidechain
build genesis_utxo slots_per_epoch = record {
  saved_epoch_number = none;
  slots_per_epoch = slots_per_epoch;
  genesis_utxo = genesis_utxo;
}

unfoldable pub current_epoch_number : ℕ → Sidechain → Exec ℕ
unfolding epoch_number
current_epoch_number current_slot s = epoch_number current_slot s.slots_per_epoch

-- The two pallets, with the rewards that `LogBeneficiaries` has logged per epoch.
pub record Chain : Type 0 where
  pub sidechain : Sidechain
  pub rewards : Storage
  pub logged : List (ℕ × Rewards)

-- `LogBeneficiaries::on_new_epoch`
unfoldable pub on_new_epoch : ℕ → ℕ → Chain → Chain
unfolding get_rewards_and_clear
on_new_epoch old_epoch new_epoch c =
    let drained = get_rewards_and_clear c.rewards in
    record c { rewards = drained.1; logged = c.logged ++ (old_epoch, drained.0) ∷ [] }

-- The branches of `on_initialize` of the sidechain pallet.
unfoldable pub enter_epoch : Option ℕ → ℕ → Chain → Chain
unfolding on_new_epoch
enter_epoch none real_epoch c = record c {
  sidechain = record c.sidechain { saved_epoch_number = some real_epoch };
}
enter_epoch (some saved_epoch) real_epoch c =
    if not (saved_epoch == real_epoch)
    then on_new_epoch saved_epoch real_epoch
        (record c { sidechain = record c.sidechain { saved_epoch_number = some real_epoch } })
    else c

unfoldable pub on_initialize : ℕ → Chain → Exec Chain
unfolding enter_epoch current_epoch_number
on_initialize current_slot c = do
  real_epoch ← current_epoch_number current_slot c.sidechain
  ok (enter_epoch c.sidechain.saved_epoch_number real_epoch c)

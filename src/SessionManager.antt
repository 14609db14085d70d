-- ===== src/SessionManager.antt =====
-- toolkit/primitives/session-manager/src/lib.rs: the session manager
-- that takes the validators from the committee pallet.
pub mod Rotation
pub mod PalletSessionSupport
use iagon_network_explorer_n.Prelude.{
  ℕ, Exec, ok, panic, ◌>>=◌, expect, Bool, true, false, ltb, ◌&&◌, if◌then◌else◌, Option, none,
  some, List, map,
}
use iagon_network_explorer_n.ValidatorManagement.{
  is_some, next_committee, rotate_committee_to_next_epoch,
}
use iagon_network_explorer_n.ValidatorManagement
use iagon_network_explorer_n.ValidatorManagement.Interfaces.{Config}

-- What the manager reads and writes: the storage of the committee pallet, the epoch of the current
-- slot, and the index that it stores for pallet_session.
pub record Manager (AuthorityId AuthorityKeys : Type 0) : Type 0 where
  pub committees : ValidatorManagement.Storage AuthorityId AuthorityKeys
  pub current_epoch_number : ℕ
  pub pallet_session_current_index : ℕ

module _ (c : Config) where
  open c use {AuthorityId, AuthorityKeys, AccountId, into}

  unfoldable pub should_end_session : ℕ → Manager AuthorityId AuthorityKeys → Bool
  unfolding is_some next_committee
  should_end_session n m =
      ltb m.committees.current_committee.epoch m.current_epoch_number
      && is_some (next_committee c m.committees)

  unfoldable pub new_session_genesis :
      ℕ
      → Manager AuthorityId AuthorityKeys
      → Exec (Option (List (AccountId × AuthorityKeys)) × Manager AuthorityId AuthorityKeys)
  new_session_genesis new_index m =
      ok (some (map (λ v. (into v.0, v.1)) m.committees.current_committee.committee), m)

  unfoldable pub new_session :
      ℕ
      → Manager AuthorityId AuthorityKeys
      → Exec (Option (List (AccountId × AuthorityKeys)) × Manager AuthorityId AuthorityKeys)
  unfolding rotate_committee_to_next_epoch
  new_session new_index m = do
    let m₁ = record m { pallet_session_current_index = new_index }
    let rotated = rotate_committee_to_next_epoch c m₁.committees
    validators ← expect rotated.0
    ok (some validators, record m₁ { committees = rotated.1 })

-- ===== src/SessionManager/PalletSessionSupport.antt =====
-- toolkit/primitives/session-manager/src/pallet_session_support.rs: the session manager for
-- pallet_session of the SDK, which takes account ids without keys.
use iagon_network_explorer_n.Prelude.{
  ℕ, Exec, ok, ◌>>=◌, expect, Bool, true, false, ltb, if◌then◌else◌, Option, some, List, map, ◌≡◌,
  arith,
}
use iagon_network_explorer_n.ValidatorManagement.{
  is_some, next_committee, rotate_committee_to_next_epoch,
}
use iagon_network_explorer_n.ValidatorManagement.Interfaces.{Config}
use iagon_network_explorer_n.SessionManager
use iagon_network_explorer_n.SessionManager.{Manager}

module _ (c : Config) where
  open c use {AuthorityId, AuthorityKeys, AccountId, into}

  unfoldable pub new_session_genesis :
      ℕ
      → Manager AuthorityId AuthorityKeys
      → Exec (Option (List AccountId) × Manager AuthorityId AuthorityKeys)
  new_session_genesis new_index m =
      ok (some (map (λ v. into v.0) m.committees.current_committee.committee), m)

  unfoldable pub new_session :
      ℕ
      → Manager AuthorityId AuthorityKeys
      → Exec (Option (List AccountId) × Manager AuthorityId AuthorityKeys)
  unfolding rotate_committee_to_next_epoch
  new_session new_index m = do
    let m₁ = record m { pallet_session_current_index = new_index }
    let rotated = rotate_committee_to_next_epoch c m₁.committees
    validators ← expect rotated.0
    ok (some (map (λ v. v.0) validators), record m₁ { committees = rotated.1 })

  unfoldable pub should_end_session : ℕ → Manager AuthorityId AuthorityKeys → Bool
  unfolding is_some next_committee
  should_end_session n m =
      let next_committee_is_defined = is_some (next_committee c m.committees) in
      if ltb m.committees.current_committee.epoch m.current_epoch_number
      then (if next_committee_is_defined then true else false)
      else false

  -- Both session managers end a session in the same blocks.
  pub should_end_session-agrees :
      (n : ℕ) (m : Manager AuthorityId AuthorityKeys)
      → should_end_session n m ≡ SessionManager.should_end_session c n m
  unfolding should_end_session SessionManager.should_end_session
  should_end_session-agrees n m = ground arith

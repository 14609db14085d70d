-- ===== src/ValidatorManagement/Interfaces.antt =====
-- The `Config` of toolkit/pallets/session-validator-management/src/lib.rs: the types that the
-- runtime chooses and the functions that it supplies.
use iagon_network_explorer_n.Prelude.{ℕ, Bool, true, ◌≡◌, ◌↔◌, Exec, Option, List}

pub record Config : Type 1 where
  pub AuthorityId : Type 0
  pub AuthorityKeys : Type 0
  pub AccountId : Type 0
  pub AuthoritySelectionInputs : Type 0
  pub max_validators : ℕ
  -- `Into<AccountId>`
  pub into : AuthorityId → AccountId
  -- `PartialEq` on a validator with its keys
  pub same : AuthorityId × AuthorityKeys → AuthorityId × AuthorityKeys → Bool
  pub same_iff : (a b : AuthorityId × AuthorityKeys) → (same a b ≡ true) ↔ (a ≡ b)
  pub select_authorities :
      AuthoritySelectionInputs → ℕ → Exec (Option (List (AuthorityId × AuthorityKeys)))

-- ===== src/Session/Interfaces.antt =====
-- The `Config` of toolkit/pallets/partner-chains-session/src/lib.rs.
use iagon_network_explorer_n.Prelude.{ℕ, Bool, true, ◌≡◌, ◌↔◌, Exec, Option, List}

-- The account and validator types, and what frame_system and the handlers of the consensus keep:
-- `World` stands for their state. `SessionManager` works on a state of its own.
pub record Config : Type 1 where
  pub ValidatorId : Type 0
  pub Keys : Type 0
  pub AccountId : Type 0
  pub World : Type 0
  pub Manager : Type 0
  -- the crate's feature
  pub polkadot_js_compat : Bool
  pub into : ValidatorId → AccountId
  pub same_validator : ValidatorId → ValidatorId → Bool
  pub same_account : AccountId → AccountId → Bool
  pub same_account_iff : (a b : AccountId) → (same_account a b ≡ true) ↔ (a ≡ b)
  -- frame_system: `inc_providers`, and `dec_providers`, which fails where there is none
  pub inc_providers : AccountId → World → World
  pub dec_providers : AccountId → World → Exec World
  -- `SessionHandler`
  pub on_new_session : Bool → List (ValidatorId × Keys) → World → World
  pub on_genesis_session : List (ValidatorId × Keys) → World → World
  pub on_before_session_ending : World → World
  pub on_disabled : ℕ → World → World
  -- `SessionManager` and `ShouldEndSession`
  pub should_end_session : ℕ → Manager → Bool
  pub new_session : ℕ → Manager → Exec (Option (List (ValidatorId × Keys)) × Manager)
  pub new_session_genesis : ℕ → Manager → Exec (Option (List (ValidatorId × Keys)) × Manager)

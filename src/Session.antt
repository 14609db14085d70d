-- ===== src/Session.antt =====
-- toolkit/pallets/partner-chains-session/src/lib.rs: sessions, each with a constant set of
-- validators, of which some may be disabled.
pub mod Interfaces
pub mod Disabled
pub mod Providers
use iagon_network_explorer_n.Prelude.{
  ℕ, ◌+◌, Exec, ok, panic, ◌>>=◌, u32, Bool, true, false, not, ◌||◌, leb, ltb, ◌==◌, if◌then◌else◌,
  unwrap_or, Option, none, some, List, [], ◌∷◌, ◌++◌, map, length,
}
use iagon_network_explorer_n.Session.Interfaces.{Config}

pub record Storage (ValidatorId Keys World Manager : Type 0) : Type 0 where
  pub validators : List ValidatorId
  pub validators_and_keys : List (ValidatorId × Keys)
  pub current_index : ℕ
  pub disabled_validators : List ℕ
  -- the session indices of the `NewSession` events
  pub events : List ℕ
  pub world : World
  pub manager : Manager

-- `binary_search` on a sorted vector: whether `i` is there, and where it would be inserted.
unfoldable pub contains_index : List ℕ → ℕ → Bool
contains_index [] i = false
contains_index (d ∷ ds) i = (d == i) || contains_index ds i

unfoldable pub insert_index : List ℕ → ℕ → List ℕ
insert_index [] i = i ∷ []
insert_index (d ∷ ds) i = let rest = insert_index ds i in if ltb d i then d ∷ rest else i ∷ d ∷ ds

module _ (c : Config) where
  open c use {ValidatorId, Keys, AccountId, World, Manager, into, same_validator, same_account}

  unfoldable pub acc_ids : List (ValidatorId × Keys) → List AccountId
  acc_ids validators = map (λ v. into v.0) validators

  unfoldable pub contains_account : AccountId → List AccountId → Bool
  contains_account a [] = false
  contains_account a (x ∷ xs) = same_account a x || contains_account a xs

  -- `BTreeSet::from_iter(xs).difference(&BTreeSet::from_iter(ys))`, each account once. The sets are
  -- walked in the order of the lists: the calls for different accounts do not interfere.
  unfoldable pub difference : List AccountId → List AccountId → List AccountId
  unfolding contains_account
  difference [] ys = []
  difference (x ∷ xs) ys =
      let rest = difference xs ys in
      if contains_account x ys || contains_account x xs then rest else x ∷ rest

  unfoldable pub inc_all : List AccountId → World → World
  inc_all [] w = w
  inc_all (a ∷ rest) w = inc_all rest (c.inc_providers a w)

  unfoldable pub dec_all : List AccountId → World → Exec World
  dec_all [] w = ok w
  dec_all (a ∷ rest) w = do w' ← c.dec_providers a w; dec_all rest w'

  unfoldable pub change_account_providers : List AccountId → List AccountId → World → Exec World
  unfolding difference inc_all dec_all
  change_account_providers new_ids old_ids w =
      dec_all (difference old_ids new_ids) (inc_all (difference new_ids old_ids) w)

  -- `Validators` is written with the feature `polkadot-js-compat` only.
  unfoldable pub rotate_validators :
      List (ValidatorId × Keys)
      → Storage ValidatorId Keys World Manager
      → Exec (Storage ValidatorId Keys World Manager)
  unfolding acc_ids change_account_providers
  rotate_validators new_validators s = do
    let s₁ = record s { validators_and_keys = new_validators }
    let s₂ = record s₁ {
      validators = if c.polkadot_js_compat then map (λ v. v.0) new_validators else s₁.validators;
    }
    w ← change_account_providers (acc_ids new_validators) (acc_ids s₂.validators_and_keys) s₂.world
    let s₃ = record s₂ { world = w }
    ok (record s₃ { disabled_validators = [] })

  -- The result of `T::SessionManager::new_session`, with the manager's state put back.
  unfoldable pub new_session :
      ℕ
      → Storage ValidatorId Keys World Manager
      → Exec (Option (List (ValidatorId × Keys)) × Storage ValidatorId Keys World Manager)
  new_session index s = do
    (validators, m) ← c.new_session index s.manager
    ok (validators, record s { manager = m })

  unfoldable pub new_session_genesis :
      ℕ
      → Storage ValidatorId Keys World Manager
      → Exec (Option (List (ValidatorId × Keys)) × Storage ValidatorId Keys World Manager)
  new_session_genesis index s = do
    (validators, m) ← c.new_session_genesis index s.manager
    ok (validators, record s { manager = m })

  -- The branches of `rotate_session`: the validators, whether they changed, and the storage.
  unfoldable pub plan :
      Option (List (ValidatorId × Keys))
      → Storage ValidatorId Keys World Manager
      → Exec (List (ValidatorId × Keys) × Bool × Storage ValidatorId Keys World Manager)
  unfolding rotate_validators
  plan (some validators) s = do s' ← rotate_validators validators s; ok (validators, true, s')
  plan none s = ok (s.validators_and_keys, false, s)

  -- `SessionManager::end_session` and `start_session` only log.
  unfoldable pub rotate_session :
      Storage ValidatorId Keys World Manager → Exec (Storage ValidatorId Keys World Manager)
  unfolding plan new_session
  rotate_session s = do
    let s₁ = record s { world = c.on_before_session_ending s.world }
    let session_index = u32 (s₁.current_index + 1)
    let s₂ = record s₁ { current_index = session_index }
    (planned, s₃) ← new_session session_index s₂
    (validators, changed, s₄) ← plan planned s₃
    let s₅ = record s₄ { events = s₄.events ++ session_index ∷ [] }
    ok (record s₅ { world = c.on_new_session changed validators s₅.world })

  unfoldable pub on_initialize :
      ℕ → Storage ValidatorId Keys World Manager → Exec (Storage ValidatorId Keys World Manager)
  unfolding rotate_session
  on_initialize n s = if c.should_end_session n s.manager then rotate_session s else ok s

  unfoldable pub disable_index :
      ℕ → Storage ValidatorId Keys World Manager → Bool × Storage ValidatorId Keys World Manager
  unfolding contains_index insert_index
  disable_index i s =
      if leb (u32 (length s.validators)) i
      then (false, s)
      else (if not (contains_index s.disabled_validators i)
          then (
            true,
            record s {
              disabled_validators = insert_index s.disabled_validators i;
              world = c.on_disabled i s.world;
            },
          )
          else (false, s))

  -- `position`, from `i` on
  unfoldable pub position : ValidatorId → ℕ → List (ValidatorId × Keys) → Option ℕ
  position v i [] = none
  position v i (x ∷ xs) =
      let rest = position v (i + 1) xs in if same_validator x.0 v then some i else rest

  unfoldable pub disable :
      ValidatorId
      → Storage ValidatorId Keys World Manager
      → Bool × Storage ValidatorId Keys World Manager
  unfolding position disable_index
  disable v s = elim (position v 0 s.validators_and_keys) [
    | some i ↦ disable_index (u32 i) s
    | none ↦ (false, s)
  ]

  unfoldable pub is_disabled : ℕ → Storage ValidatorId Keys World Manager → Bool
  unfolding contains_index
  is_disabled index s = contains_index s.disabled_validators index

  unfoldable pub is_registered : ValidatorId → List (ValidatorId × Keys) → Bool
  is_registered id [] = false
  is_registered id (v ∷ vs) = same_validator v.0 id || is_registered id vs

  -- `GenesisConfig::build`, without the check of the key types, which are constants of the runtime
  unfoldable pub build :
      List (ValidatorId × Keys)
      → Storage ValidatorId Keys World Manager
      → Exec (Storage ValidatorId Keys World Manager)
  unfolding rotate_validators new_session_genesis
  build genesis_validators s = do
    (maybe_genesis_validators, s₁) ← new_session_genesis 0 s
    let initial_validators = unwrap_or maybe_genesis_validators genesis_validators
    s₂ ← rotate_validators initial_validators s₁
    ok (record s₂ { world = c.on_genesis_session initial_validators s₂.world })

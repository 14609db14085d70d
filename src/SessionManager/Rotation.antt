-- ===== src/SessionManager/Rotation.antt =====
-- The session pallet on top of the session manager: sessions end without a panic.
use iagon_network_explorer_n.Prelude.{
  ℕ, ◌+◌, ◌≡◌, ◌↔◌, ◌<◌, ◌≤◌, refl, arith, Exec, ok, if◌then◌else◌, Bool, true, false, none, some,
  List, [], ◌∷◌, ◌++◌, ltb, map, u32, Bool-cases, Option-cases, inl, inr, ltb→lt, ◌⊎◌,
}
use iagon_network_explorer_n.ValidatorManagement
use iagon_network_explorer_n.ValidatorManagement.{
  CommitteeInfo, is_some, next_committee, rotate_committee_to_next_epoch,
}
use iagon_network_explorer_n.ValidatorManagement.Interfaces.{Config}
use iagon_network_explorer_n.Session
use iagon_network_explorer_n.Session.{rotate_session, on_initialize, plan}
use iagon_network_explorer_n.Session.Interfaces.{Config as SessionConfig}
use iagon_network_explorer_n.Session.Providers.{rotate_validators-keeps_providers}
use iagon_network_explorer_n.SessionManager.{
  Manager, should_end_session, new_session, new_session_genesis,
}

-- What the runtime's session pallet takes besides the session manager: frame_system and the
-- handlers of Aura and Grandpa.
pub record Handlers (AccountId Keys : Type 0) : Type 1 where
  pub World : Type 0
  pub polkadot_js_compat : Bool
  pub same_account : AccountId → AccountId → Bool
  pub same_account_iff : (a b : AccountId) → (same_account a b ≡ true) ↔ (a ≡ b)
  pub inc_providers : AccountId → World → World
  pub dec_providers : AccountId → World → Exec World
  pub on_new_session : Bool → List (AccountId × Keys) → World → World
  pub on_genesis_session : List (AccountId × Keys) → World → World
  pub on_before_session_ending : World → World
  pub on_disabled : ℕ → World → World

-- The `Config` of the session pallet in node/runtime/src/lib.rs: a validator is an account.
abbrev pub session_config : (c : Config) → Handlers c.AccountId c.AuthorityKeys → SessionConfig
session_config c h = record {
  ValidatorId = c.AccountId;
  Keys = c.AuthorityKeys;
  AccountId = c.AccountId;
  World = h.World;
  Manager = Manager c.AuthorityId c.AuthorityKeys;
  polkadot_js_compat = h.polkadot_js_compat;
  into = λ a. a;
  same_validator = h.same_account;
  same_account = h.same_account;
  same_account_iff = h.same_account_iff;
  inc_providers = h.inc_providers;
  dec_providers = h.dec_providers;
  on_new_session = h.on_new_session;
  on_genesis_session = h.on_genesis_session;
  on_before_session_ending = h.on_before_session_ending;
  on_disabled = h.on_disabled;
  should_end_session = should_end_session c;
  new_session = new_session c;
  new_session_genesis = new_session_genesis c;
}

module _ (c : Config) (h : Handlers c.AccountId c.AuthorityKeys) where
  open c use {AuthorityId, AuthorityKeys, AccountId, into}

  abbrev pub State : Type 0
  State = Session.Storage AccountId AuthorityKeys h.World (Manager AuthorityId AuthorityKeys)

  -- The session of `s` has ended: the stored next committee, whose epoch has begun, is current, and
  -- its members are the validators of a session with the next index, all of them enabled.
  pub record IsRotated (s s' : State) : Type 0 where
    pub info : CommitteeInfo AuthorityId AuthorityKeys
    pub stored : s.manager.committees.next_committee_value ≡ some info
    pub due : s.manager.committees.current_committee.epoch < s.manager.current_epoch_number
    pub committees :
        s'.manager.committees
        ≡ record s.manager.committees { current_committee = info; next_committee_value = none }
    pub same_epoch : s'.manager.current_epoch_number ≡ s.manager.current_epoch_number
    pub validators : s'.validators_and_keys ≡ map (λ v. (into v.0, v.1)) info.committee
    pub enabled : s'.disabled_validators ≡ []
    pub index : s'.current_index ≡ u32 (s.current_index + 1)
    pub pallet_session_index : s'.manager.pallet_session_current_index ≡ s'.current_index
    pub event : s'.events ≡ s.events ++ s'.current_index ∷ []
    pub handler :
        s'.world ≡ h.on_new_session true s'.validators_and_keys (h.on_before_session_ending s.world)

  is_some-next_committee :
      (s : ValidatorManagement.Storage AuthorityId AuthorityKeys)
      → is_some (next_committee c s) ≡ true
      → (info : CommitteeInfo AuthorityId AuthorityKeys) × (s.next_committee_value ≡ some info)
  unfolding is_some next_committee
  is_some-next_committee s e = elim (Option-cases s.next_committee_value) [
    | inl none_stored ↦ absurd (ground (arith, e, none_stored))
    | inr found ↦ found
  ]

  new_session-eq :
      (i : ℕ) (m : Manager AuthorityId AuthorityKeys)
      (info : CommitteeInfo AuthorityId AuthorityKeys)
      → m.committees.next_committee_value ≡ some info
      → new_session c i m
        ≡ ok (
          some (map (λ v. (into v.0, v.1)) info.committee),
          record m {
            pallet_session_current_index = i;
            committees = record m.committees {
              current_committee = info;
              next_committee_value = none;
            };
          },
        )
  unfolding new_session rotate_committee_to_next_epoch
  new_session-eq i m info stored = rw stored

  rotate_session-IsRotated :
      (s : State) (info : CommitteeInfo AuthorityId AuthorityKeys)
      → s.manager.committees.next_committee_value ≡ some info
      → s.manager.committees.current_committee.epoch < s.manager.current_epoch_number
      → (s' : State) × (rotate_session (session_config c h) s ≡ ok s') × IsRotated s s'
  unfolding rotate_session plan Session.new_session
  rotate_session-IsRotated s info stored due =
      let index = u32 (s.current_index + 1) in
      let vs : List (AccountId × AuthorityKeys) = map (λ v. (into v.0, v.1)) info.committee in
      let m : Manager AuthorityId AuthorityKeys = record s.manager {
        pallet_session_current_index = index;
        committees = record s.manager.committees {
          current_committee = info;
          next_committee_value = none;
        };
      } in
      let before : State = record s {
        world = h.on_before_session_ending s.world;
        current_index = index;
        manager = m;
      } in
      (
        record before {
          validators_and_keys = vs;
          validators = if h.polkadot_js_compat then map (λ v. v.0) vs else s.validators;
          disabled_validators = [];
          events = s.events ++ index ∷ [];
          world = h.on_new_session true vs before.world;
        },
        rw (new_session-eq index s.manager info stored)
            (rw (rotate_validators-keeps_providers (session_config c h) vs before)),
        record {
          info = info;
          stored = stored;
          due = due;
          committees = refl;
          same_epoch = refl;
          validators = refl;
          enabled = refl;
          index = refl;
          pallet_session_index = refl;
          event = refl;
          handler = refl;
        },
      )

  stays_because :
      (n : ℕ) (s : State)
      → should_end_session c n s.manager ≡ false
      → (s.manager.current_epoch_number ≤ s.manager.committees.current_committee.epoch)
        ⊎ (s.manager.committees.next_committee_value ≡ none)
  unfolding should_end_session is_some next_committee
  stays_because n s h = elim (Option-cases s.manager.committees.next_committee_value) [
    | inl none_stored ↦ inr none_stored
    | inr (info, found) ↦ inl (ground (arith, h, found))
  ]

  -- In every state the start of a block either leaves the whole state as it is, where the epoch of
  -- the current slot is not after the epoch of the current committee or no next committee is stored,
  -- or it ends the session as `IsRotated` says, where the epoch is after that of the current
  -- committee and a next committee is stored. It never panics, although the session manager expects
  -- a committee.
  pub on_initialize_total :
      (n : ℕ) (s : State)
      → (s' : State) × (on_initialize (session_config c h) n s ≡ ok s')
        × ((((s.manager.current_epoch_number ≤ s.manager.committees.current_committee.epoch)
                ⊎ (s.manager.committees.next_committee_value ≡ none))
              × (s' ≡ s))
            ⊎ IsRotated s s')
  unfolding on_initialize should_end_session
  on_initialize_total n s = elim (Bool-cases (should_end_session c n s.manager)) [
    | inl ends ↦
        let due : ltb s.manager.committees.current_committee.epoch s.manager.current_epoch_number
            ≡ true =
          ground arith in
        let defined : is_some (next_committee c s.manager.committees) ≡ true = ground arith in
        let (info, stored) = is_some-next_committee s.manager.committees defined in
        let (s', rotated, is_rotated) = rotate_session-IsRotated s info stored (ltb→lt _ _ due) in
        (s', rw ends rotated, inr is_rotated)
    | inr stays ↦ (s, rw stays, inl (stays_because n s stays, refl))
  ]

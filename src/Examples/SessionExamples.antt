-- ===== src/Examples/SessionExamples.antt =====
-- Runs of the committee pallet, the session pallet and the session manager.
use iagon_network_explorer_n.Prelude.{
  ◌≤◌, ℕ, ◌+◌, ◌≡◌, ◌↔◌, ◌<◌, ◌⊎◌, refl, arith, ok, Bool, true, false, ◌&&◌, ◌||◌, ◌==◌, ==_iff,
  if◌then◌else◌, Option, none, some, List, [], ◌∷◌, length, u32, u64,
}
use iagon_network_explorer_n.ValidatorManagement
use iagon_network_explorer_n.ValidatorManagement.{
  Origin, none_origin, CommitteeInfo, MainChainScripts, InherentData, set,
}
use iagon_network_explorer_n.ValidatorManagement.Interfaces.{Config}
use iagon_network_explorer_n.ValidatorManagement.Inherents.{set_iff}
use iagon_network_explorer_n.Session.{
  disable_index, is_disabled, rotate_validators, disable, on_initialize,
}
use iagon_network_explorer_n.Session.Disabled.{IsSorted, disable_index_lem}
use iagon_network_explorer_n.Session.Providers.{
  rotate_validators-keeps_providers, disable_without_polkadot_js_compat,
}
use iagon_network_explorer_n.SessionManager
use iagon_network_explorer_n.SessionManager.{Manager}
use iagon_network_explorer_n.SessionManager.Rotation.{
  Handlers, session_config, State, IsRotated, on_initialize_total,
}
use iagon_network_explorer_n.Session
use iagon_network_explorer_n.Runtime.{
  Chain, genesis, initialize_block, IsReachable, starts_from, goes_to, starts,
}
use iagon_network_explorer_n.Runtime.Reachability.{ChainIsConsistent, reachable-IsConsistent}

abbrev same_pair : ℕ × ℕ → ℕ × ℕ → Bool
same_pair a b = (a.0 == b.0) && (a.1 == b.1)

same_pair_iff : (a b : ℕ × ℕ) → (same_pair a b ≡ true) ↔ (a ≡ b)
same_pair_iff a b = ground arith

-- Authorities, keys and accounts are numbers; the selection returns what the inherent data hold.
abbrev config : Config
config = record {
  AuthorityId = ℕ;
  AuthorityKeys = ℕ;
  AccountId = ℕ;
  AuthoritySelectionInputs = Option (List (ℕ × ℕ));
  max_validators = 32;
  into = λ id. id;
  same = same_pair;
  same_iff = same_pair_iff;
  select_authorities = λ committee epoch. ok committee;
}

-- A world that counts calls.
abbrev handlers : Bool → Handlers ℕ ℕ
handlers compat = record {
  World = ℕ;
  polkadot_js_compat = compat;
  same_account = λ a b. a == b;
  same_account_iff = ==_iff;
  inc_providers = λ a w. w + 1;
  dec_providers = λ a w. ok (w + 1);
  on_new_session = λ changed vs w. w + 1;
  on_genesis_session = λ vs w. w + 1;
  on_before_session_ending = λ w. w + 1;
  on_disabled = λ i w. w + 1;
}

abbrev scripts : MainChainScripts
scripts = record {
  committee_candidate_address = [];
  d_parameter_policy_id = [];
  permissioned_candidates_policy_id = [];
}

abbrev storage : ValidatorManagement.Storage ℕ ℕ
storage = record {
  current_committee = record { epoch = 4; committee = (1, 11) ∷ [] };
  next_committee_value = none;
  main_chain_scripts_configuration = scripts;
}

abbrev next_storage : ValidatorManagement.Storage ℕ ℕ
next_storage = record storage {
  next_committee_value = some (record { epoch = 5; committee = (2, 22) ∷ [] });
}

abbrev inherent_data : InherentData (Option (List (ℕ × ℕ)))
inherent_data = ok (some (some ((2, 22) ∷ [])))

set_iff_example : (set config none_origin ((2, 22) ∷ []) 5 storage ≡ ok next_storage) ↔ (
    (none_origin ≡ none_origin)
    × (5 ≡ u64 (storage.current_committee.epoch + 1))
    × (next_storage ≡ next_storage))
set_iff_example = set_iff config none_origin ((2, 22) ∷ []) 5 storage next_storage

abbrev manager : Manager ℕ ℕ
manager = record {
  committees = next_storage;
  current_epoch_number = 5;
  pallet_session_current_index = 3;
}

abbrev session : State config (handlers true)
session = record {
  validators = 1 ∷ 6 ∷ [];
  validators_and_keys = (1, 11) ∷ (6, 66) ∷ [];
  current_index = 3;
  disabled_validators = 0 ∷ [];
  events = [];
  world = 0;
  manager = manager;
}

abbrev bare_session : State config (handlers false)
bare_session = record session { validators = [] }

disable_index_lem_example :
    (((disable_index (session_config config (handlers true)) 1 session).0 ≡ true) ↔ (
      (1 < u32 (length session.validators))
      × (is_disabled (session_config config (handlers true)) 1 session ≡ false)))
    × IsSorted
        (disable_index (session_config config (handlers true)) 1 session).1.disabled_validators
    × ((j : ℕ)
        → is_disabled
            (session_config config (handlers true))
            j
            (disable_index (session_config config (handlers true)) 1 session).1
          ≡ (((disable_index (session_config config (handlers true)) 1 session).0 && (1 == j))
              || is_disabled (session_config config (handlers true)) j session))
    × ((disable_index (session_config config (handlers true)) 1 session).1.world ≡ (
        if (disable_index (session_config config (handlers true)) 1 session).0
        then session.world + 1
        else session.world))
disable_index_lem_example =
    disable_index_lem (session_config config (handlers true)) 1 session (tt, tt)

rotate_validators-keeps_providers_example :
    rotate_validators (session_config config (handlers true)) ((2, 22) ∷ []) session
    ≡ ok (record session {
      validators_and_keys = (2, 22) ∷ [];
      validators = 2 ∷ [];
      disabled_validators = [];
    })
rotate_validators-keeps_providers_example =
    rotate_validators-keeps_providers (session_config config (handlers true)) ((2, 22) ∷ []) session

disable_without_polkadot_js_compat_example :
    (s' : State config (handlers false)) × (rotate_validators
        (session_config config (handlers false))
        ((2, 22) ∷ [])
        bare_session
      ≡ ok s')
    × (s'.validators_and_keys ≡ (2, 22) ∷ [])
    × (s'.validators ≡ [])
    × (disable (session_config config (handlers false)) 2 s' ≡ (false, s'))
disable_without_polkadot_js_compat_example =
    disable_without_polkadot_js_compat (session_config config (handlers false)) ((2, 22) ∷ [])
      bare_session 2 refl refl

on_initialize_total_example :
    (s' : State config (handlers true)) × (on_initialize
        (session_config config (handlers true))
        20
        session
      ≡ ok s')
    × ((((session.manager.current_epoch_number ≤ session.manager.committees.current_committee.epoch)
            ⊎ (session.manager.committees.next_committee_value ≡ none))
          × (s' ≡ session))
        ⊎ IsRotated config (handlers true) session s')
on_initialize_total_example = on_initialize_total config (handlers true) 20 session

abbrev genesis_chain : Chain config (handlers true)
genesis_chain = record {
  block_number = 0;
  session = record {
    validators = 1 ∷ [];
    validators_and_keys = (1, 11) ∷ [];
    current_index = 0;
    disabled_validators = [];
    events = [];
    world = 1;
    manager = record {
      committees = record storage {
        current_committee = record { epoch = 0; committee = (1, 11) ∷ [] };
      };
      current_epoch_number = 0;
      pallet_session_current_index = 0;
    };
  };
}

abbrev first_chain : Chain config (handlers true)
first_chain = record genesis_chain {
  block_number = 1;
  session = record genesis_chain.session {
    manager = record genesis_chain.session.manager {
      committees = storage;
      current_epoch_number = 4;
    };
  };
}

first_chain-IsReachable : IsReachable config (handlers true) first_chain
unfolding genesis initialize_block Session.build Session.on_initialize rotate_validators
    SessionManager.new_session_genesis SessionManager.should_end_session
first_chain-IsReachable =
    goes_to {chain = genesis_chain}
      (starts_from {chain = genesis_chain} ((1, 11) ∷ []) scripts 0 refl)
      (starts {chain = genesis_chain} {chain' = first_chain} 4 (omega arith) (omega arith) refl)

reachable-IsConsistent_example : ChainIsConsistent config (handlers true) first_chain
reachable-IsConsistent_example =
    reachable-IsConsistent config (handlers true) first_chain-IsReachable

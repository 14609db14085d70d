-- ===== src/Runtime.antt =====
-- node/runtime/src/lib.rs: the committee pallet and the session pallet in the order in which the
-- runtime executes them, as steps of a chain.
pub mod Consistency
pub mod Reachability
use iagon_network_explorer_n.Prelude.{ℕ, ◌+◌, ◌≤◌, ◌<◌, ◌^◌, ◌≡◌, ok, Exec, List, [], ◌>>=◌, take}
use iagon_network_explorer_n.ValidatorManagement
use iagon_network_explorer_n.ValidatorManagement.{
  Origin, Call, MainChainScripts, build, on_initialize, dispatch,
}
use iagon_network_explorer_n.ValidatorManagement.Interfaces.{Config}
use iagon_network_explorer_n.Session
use iagon_network_explorer_n.SessionManager.{Manager}
use iagon_network_explorer_n.SessionManager.Rotation.{Handlers, session_config, State}

module _ (c : Config) (h : Handlers c.AccountId c.AuthorityKeys) where
  open c use {AuthorityId, AuthorityKeys, AccountId}

  pub record Chain : Type 0 where
    pub block_number : ℕ
    pub session : State c h

  -- The genesis build of the two pallets, on empty storage.
  unfoldable pub genesis :
      List (AuthorityId × AuthorityKeys) → MainChainScripts → h.World → Exec Chain
  unfolding build Session.build
  genesis initial_authorities scripts world = do
    let empty : State c h = record {
      validators = [];
      validators_and_keys = [];
      current_index = 0;
      disabled_validators = [];
      events = [];
      world = world;
      manager = record {
        committees = build c initial_authorities scripts;
        current_epoch_number = 0;
        pallet_session_current_index = 0;
      };
    }
    session ← Session.build (session_config c h) [] empty
    ok (record { block_number = 0; session = session })

  -- The start of the next block, in a slot of epoch `epoch`: the hooks in the order of
  -- `construct_runtime!`, the one of the committee pallet first.
  unfoldable pub initialize_block : ℕ → Chain → Exec Chain
  unfolding on_initialize Session.on_initialize
  initialize_block epoch chain = do
    let n = chain.block_number + 1
    let s = chain.session
    let m = record s.manager {
      current_epoch_number = epoch;
      committees = on_initialize c n epoch s.manager.committees;
    }
    session ← Session.on_initialize (session_config c h) n (record s { manager = m })
    ok (record { block_number = n; session = session })

  -- A step starts a block or executes a call of the committee pallet in one. Slots, and with
  -- them epochs, do not go back, and an epoch has a successor in u64.
  pub data Step : Chain → Chain → Type 0 where
    starts :
        {chain chain' : Chain} (epoch : ℕ)
        → chain.session.manager.current_epoch_number ≤ epoch
        → epoch + 1 < 2 ^ 64
        → initialize_block epoch chain ≡ ok chain'
        → Step chain chain'
    executes :
        {chain : Chain} (origin : Origin) (call : Call AuthorityId AuthorityKeys)
        (committees : ValidatorManagement.Storage AuthorityId AuthorityKeys)
        → 0 < chain.block_number
        → dispatch c origin call chain.session.manager.committees ≡ ok committees
        → Step chain (record chain {
          session = record chain.session {
            manager = record chain.session.manager { committees = committees };
          };
        })

  pub data IsReachable : Chain → Type 0 where
    starts_from :
        {chain : Chain} (initial_authorities : List (AuthorityId × AuthorityKeys))
        (scripts : MainChainScripts) (world : h.World)
        → genesis initial_authorities scripts world ≡ ok chain
        → IsReachable chain
    goes_to : {chain chain' : Chain} → IsReachable chain → Step chain chain' → IsReachable chain'

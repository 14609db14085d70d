-- ===== src/Runtime/Reachability.antt =====
-- What holds in every state that the chain of node/runtime/src/lib.rs can reach.
use iagon_network_explorer_n.Prelude.{
  ℕ, ◌+◌, ◌≤◌, ◌<◌, ◌^◌, ◌≡◌, refl, ap, sym, subst, ◌∙◌, arith, ok, List, [], take, map, inl, inr,
  ok_unique, if◌then◌else◌,
}
use iagon_network_explorer_n.ValidatorManagement.{MainChainScripts, build, on_initialize}
use iagon_network_explorer_n.ValidatorManagement.Interfaces.{Config}
use iagon_network_explorer_n.Session
use iagon_network_explorer_n.Session.Providers.{rotate_validators-keeps_providers}
use iagon_network_explorer_n.SessionManager.{Manager, new_session_genesis}
use iagon_network_explorer_n.SessionManager.Rotation.{
  Handlers, session_config, State, IsRotated, on_initialize_total,
}
use iagon_network_explorer_n.Runtime.{
  Chain, genesis, initialize_block, Step, starts, executes, IsReachable, starts_from, goes_to,
}
use iagon_network_explorer_n.Runtime.Consistency.{
  IsConsistent, on_initialize-IsConsistent, dispatch-IsConsistent,
}

module _ (c : Config) (h : Handlers c.AccountId c.AuthorityKeys) where
  open c use {AuthorityId, AuthorityKeys, AccountId, into}

  -- `IsConsistent` of the state of a chain.
  abbrev pub ChainIsConsistent : Chain c h → Type 0
  ChainIsConsistent chain =
      IsConsistent c chain.block_number chain.session.manager.current_epoch_number
        chain.session.manager.committees chain.session.validators_and_keys

  genesis-IsConsistent :
      (initial_authorities : List (AuthorityId × AuthorityKeys)) (scripts : MainChainScripts)
      (world : h.World) (chain : Chain c h)
      → genesis c h initial_authorities scripts world ≡ ok chain
      → ChainIsConsistent chain
  unfolding genesis build Session.build Session.new_session_genesis new_session_genesis
  genesis-IsConsistent initial_authorities scripts world chain e =
      let vs : List (AccountId × AuthorityKeys) =
        map (λ v. (into v.0, v.1)) (take c.max_validators initial_authorities) in
      let manager : Manager AuthorityId AuthorityKeys = record {
        committees = build c initial_authorities scripts;
        current_epoch_number = 0;
        pallet_session_current_index = 0;
      } in
      let empty : State c h = record {
        validators = [];
        validators_and_keys = [];
        current_index = 0;
        disabled_validators = [];
        events = [];
        world = world;
        manager = manager;
      } in
      let session : State c h = record empty {
        validators_and_keys = vs;
        validators = if h.polkadot_js_compat then map (λ v. v.0) vs else [];
        world = h.on_genesis_session vs world;
      } in
      let built : genesis c h initial_authorities scripts world
          ≡ ok (record { block_number = 0; session = session }) =
        rw (rotate_validators-keeps_providers (session_config c h) vs empty) in
      subst (ChainIsConsistent) (ok_unique (genesis c h initial_authorities scripts world) built e)
        (record {
          has_successor = omega arith;
          not_ahead = omega arith;
          none_at_genesis = λ _. refl;
          next_epoch = λ info stored. cc;
          seated = refl;
        })

  rotation-IsConsistent :
      (n : ℕ) (s s' : State c h)
      → IsRotated c h s s'
      → IsConsistent c n s.manager.current_epoch_number s.manager.committees s.validators_and_keys
      → 0 < n
      → IsConsistent c n s'.manager.current_epoch_number s'.manager.committees
          s'.validators_and_keys
  rotation-IsConsistent n s s' r i pos = record {
    has_successor = omega (arith, r.same_epoch, i.has_successor);
    not_ahead = omega (
      arith,
      ap (λ z. z.current_committee.epoch) r.committees,
      i.next_epoch r.info r.stored,
      r.due,
      r.same_epoch,
    );
    none_at_genesis = λ z. absurd (omega (arith, z));
    next_epoch = λ info stored. cc (ap (λ z. z.next_committee_value) r.committees, stored);
    seated =
        r.validators
        ∙ sym (ap (λ z. map (λ v. (into v.0, v.1)) z.current_committee.committee) r.committees);
  }

  starts-IsConsistent :
      (chain chain' : Chain c h) (epoch : ℕ)
      → chain.session.manager.current_epoch_number ≤ epoch
      → epoch + 1 < 2 ^ 64
      → initialize_block c h epoch chain ≡ ok chain'
      → ChainIsConsistent chain
      → ChainIsConsistent chain'
  unfolding initialize_block
  starts-IsConsistent chain chain' epoch le fits e i =
      let n = chain.block_number + 1 in
      let s : State c h = record chain.session {
        manager = record chain.session.manager {
          current_epoch_number = epoch;
          committees = on_initialize c n epoch chain.session.manager.committees;
        };
      } in
      let i' =
        on_initialize-IsConsistent c chain.block_number chain.session.manager.current_epoch_number
          epoch chain.session.manager.committees chain.session.validators_and_keys i le fits in
      let (s', initialized, ends) = on_initialize_total c h n s in
      let started : initialize_block c h epoch chain
          ≡ ok (record { block_number = n; session = s' }) =
        rw initialized in
      subst ChainIsConsistent (ok_unique (initialize_block c h epoch chain) started e) (elim ends [
        | inl (_, same) ↦
            subst
              (λ z.
                IsConsistent c n z.manager.current_epoch_number z.manager.committees
                  z.validators_and_keys)
              (sym same) i'
        | inr rotated ↦ rotation-IsConsistent n s s' rotated i' (omega arith)
      ])

  Step-IsConsistent :
      {chain chain' : Chain c h}
      → Step c h chain chain'
      → ChainIsConsistent chain
      → ChainIsConsistent chain'
  Step-IsConsistent {chain} {chain'} (starts epoch le fits e) i =
      starts-IsConsistent chain chain' epoch le fits e i
  Step-IsConsistent {chain} (executes origin call committees pos e) i =
      dispatch-IsConsistent c chain.block_number chain.session.manager.current_epoch_number
        chain.session.manager.committees committees chain.session.validators_and_keys origin call
        pos e i

  -- Every reachable state of the chain is consistent: whatever calls are executed and however slots
  -- are skipped, the current committee is not of a later epoch than the current slot, a stored
  -- next committee is of the epoch right after the current committee's, and the validators of the
  -- session are the members of the current committee.
  pub reachable-IsConsistent : {chain : Chain c h} → IsReachable c h chain → ChainIsConsistent chain
  reachable-IsConsistent {chain} (starts_from initial_authorities scripts world e) =
      genesis-IsConsistent initial_authorities scripts world chain e
  reachable-IsConsistent (goes_to r step) = Step-IsConsistent step (reachable-IsConsistent r)

-- ===== src/Runtime/Consistency.antt =====
-- What the hook and the calls of the committee pallet keep, in the chain of
-- node/runtime/src/lib.rs.
use iagon_network_explorer_n.Prelude.{
  ℕ, ◌+◌, ◌≤◌, ◌<◌, ◌^◌, ◌≡◌, ap, sym, subst, arith, ok, List, map, none, some, inl, inr, u64, ◌==◌,
  Bool-cases,
}
use iagon_network_explorer_n.ValidatorManagement
use iagon_network_explorer_n.ValidatorManagement.{
  Origin, root_origin, signed_origin, none_origin, Call, set_call, set_main_chain_scripts_call,
  CommitteeInfo, MainChainScripts, build, on_initialize, dispatch, set, set_main_chain_scripts,
}
use iagon_network_explorer_n.ValidatorManagement.Interfaces.{Config}
use iagon_network_explorer_n.ValidatorManagement.Inherents.{set_iff}

module _ (c : Config) where
  open c use {AuthorityId, AuthorityKeys, AccountId, into}

  -- The two committees, the epoch of the current slot and the validators of the session fit
  -- together: the current committee is not of a later epoch, the stored next committee is of
  -- the epoch after it, and the validators are the members of the current committee.
  pub record IsConsistent (block_number epoch : ℕ)
      (s : ValidatorManagement.Storage AuthorityId AuthorityKeys)
      (validators : List (AccountId × AuthorityKeys)) : Type 0 where
    pub has_successor : epoch + 1 < 2 ^ 64
    pub not_ahead : s.current_committee.epoch ≤ epoch
    pub none_at_genesis : block_number ≡ 0 → s.next_committee_value ≡ none
    pub next_epoch :
        (info : CommitteeInfo AuthorityId AuthorityKeys)
        → s.next_committee_value ≡ some info
        → info.epoch ≡ s.current_committee.epoch + 1
    pub seated : validators ≡ map (λ v. (into v.0, v.1)) s.current_committee.committee

  pub on_initialize-IsConsistent :
      (n epoch epoch' : ℕ) (s : ValidatorManagement.Storage AuthorityId AuthorityKeys)
      (vs : List (AccountId × AuthorityKeys))
      → IsConsistent n epoch s vs
      → epoch ≤ epoch'
      → epoch' + 1 < 2 ^ 64
      → IsConsistent (n + 1) epoch' (on_initialize c (n + 1) epoch' s) vs
  unfolding on_initialize
  on_initialize-IsConsistent n epoch epoch' s vs i le fits = elim (Bool-cases (n + 1 == 1)) [
    | inl first ↦ rw first (record {
      has_successor = fits;
      not_ahead = omega arith;
      none_at_genesis = λ z. absurd (omega (arith, z));
      next_epoch =
          λ info stored. absurd (ground (arith, i.none_at_genesis (ground (arith, first)), stored));
      seated = i.seated;
    })
    | inr later ↦ rw later (record {
      has_successor = fits;
      not_ahead = omega (arith, i.not_ahead);
      none_at_genesis = λ z. absurd (omega (arith, z));
      next_epoch = i.next_epoch;
      seated = i.seated;
    })
  ]

  next_epoch_of :
      {epoch current for_epoch_number : ℕ} {validators : List (AuthorityId × AuthorityKeys)}
      (info : CommitteeInfo AuthorityId AuthorityKeys)
      → some (record { epoch = for_epoch_number; committee = validators }) ≡ some info
      → for_epoch_number ≡ u64 (current + 1)
      → epoch + 1 < 2 ^ 64
      → current ≤ epoch
      → info.epoch ≡ current + 1
  next_epoch_of {for_epoch_number} {validators} info same for_epoch fits le =
      let info' : CommitteeInfo AuthorityId AuthorityKeys = record {
        epoch = for_epoch_number;
        committee = validators;
      } in
      let p : info' ≡ info = cc in omega (arith, ap (λ z. z.epoch) p, for_epoch)

  set-IsConsistent :
      (n epoch : ℕ) (s s' : ValidatorManagement.Storage AuthorityId AuthorityKeys)
      (vs : List (AccountId × AuthorityKeys)) (origin : Origin)
      (validators : List (AuthorityId × AuthorityKeys)) (for_epoch_number : ℕ)
      → 0 < n
      → set c origin validators for_epoch_number s ≡ ok s'
      → IsConsistent n epoch s vs
      → IsConsistent n epoch s' vs
  set-IsConsistent n epoch s s' vs origin validators for_epoch_number pos e i =
      let (_, for_epoch, stored) = (set_iff c origin validators for_epoch_number s s').0 e in
      subst (λ z. IsConsistent n epoch z vs) (sym stored)
        (record {
          has_successor = i.has_successor;
          not_ahead = i.not_ahead;
          none_at_genesis = λ z. absurd (omega (arith, z));
          next_epoch = λ info same. next_epoch_of info same for_epoch i.has_successor i.not_ahead;
          seated = i.seated;
        })

  pub dispatch-IsConsistent :
      (n epoch : ℕ) (s s' : ValidatorManagement.Storage AuthorityId AuthorityKeys)
      (vs : List (AccountId × AuthorityKeys)) (origin : Origin)
      (call : Call AuthorityId AuthorityKeys)
      → 0 < n
      → dispatch c origin call s ≡ ok s'
      → IsConsistent n epoch s vs
      → IsConsistent n epoch s' vs
  unfolding dispatch set_main_chain_scripts
  dispatch-IsConsistent n epoch s s' vs origin (set_call validators for_epoch_number) pos e i =
      set-IsConsistent n epoch s s' vs origin validators for_epoch_number pos e i
  dispatch-IsConsistent n epoch s s' vs root_origin (set_main_chain_scripts_call scripts) pos e i =
      let same : record s { main_chain_scripts_configuration = scripts } ≡ s' = cc in
      subst (λ z. IsConsistent n epoch z vs) same
        (record {
          has_successor = i.has_successor;
          not_ahead = i.not_ahead;
          none_at_genesis = i.none_at_genesis;
          next_epoch = i.next_epoch;
          seated = i.seated;
        })
  dispatch-IsConsistent n epoch s s' vs none_origin (set_main_chain_scripts_call scripts) pos e i =
      cc
  dispatch-IsConsistent n epoch s s' vs signed_origin (set_main_chain_scripts_call scripts) pos e
        i =
      cc

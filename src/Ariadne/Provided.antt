-- ===== src/Ariadne/Provided.antt =====
-- On what the inherent data of ariadne_inherent_data_provider.rs depends.
use iagon_network_explorer_n.Prelude.{
  ℕ, ◌<◌, ◌≡◌, refl, Bytes, ok, map_err, map_err-eq-ok, >>=-cong, Bool, true, false, ltb, ltb→lt,
  Option,
}
use iagon_network_explorer_n.MainchainEpoch.{MainchainEpochConfig}
use iagon_network_explorer_n.Slots.{ScSlotConfig}
use iagon_network_explorer_n.ValidatorManagement.Types.{MainChainScripts}
use iagon_network_explorer_n.Ariadne.{
  AuthoritySelectionDataSource, inputs_from_mc_data, provided_inputs, RuntimeApi, api_error,
  data_source_error, mc_epoch_for_next_ariadne_cidp, new,
}

-- The sources look up the same epochs, and answer alike for those whose data is from an epoch before
-- the main chain epoch `r`.
pub record AgreeBefore {E : Type 0} (r : ℕ) (s t : AuthoritySelectionDataSource E) : Type 0 where
  pub epochs : (e : ℕ) → s.data_epoch e ≡ t.data_epoch e
  pub parameters :
      (e d : ℕ) (p q : Bytes)
      → s.data_epoch e ≡ ok d
      → d < r
      → s.get_ariadne_parameters e p q ≡ t.get_ariadne_parameters e p q
  pub candidates :
      (e d : ℕ) (a : Bytes)
      → s.data_epoch e ≡ ok d
      → d < r
      → s.get_candidates e a ≡ t.get_candidates e a
  pub nonces : (e d : ℕ) → s.data_epoch e ≡ ok d → d < r → s.get_epoch_nonce e ≡ t.get_epoch_nonce e

module _ {E : Type 0} (s t : AuthoritySelectionDataSource E) (r : ℕ)
    (agree : AgreeBefore r s t) where
  provided_inputs-agrees :
      (e d : ℕ) (scripts : MainChainScripts) (b : Bool)
      → s.data_epoch e ≡ ok d
      → ltb d r ≡ b
      → provided_inputs s e scripts b ≡ provided_inputs t e scripts b
  unfolding provided_inputs inputs_from_mc_data
  provided_inputs-agrees e d scripts false h lt = refl
  provided_inputs-agrees e d scripts true h lt =
      rw
        (agree.parameters e d scripts.d_parameter_policy_id
          scripts.permissioned_candidates_policy_id h (ltb→lt d r lt))
        (rw (agree.candidates e d scripts.committee_candidate_address h (ltb→lt d r lt))
          (rw (agree.nonces e d h (ltb→lt d r lt))))

  module _ (slot_timestamp : ℕ → ℕ → Option ℕ) (sc_slot_config : ScSlotConfig)
      (epoch_config : MainchainEpochConfig) where
    -- The inherent data of a block depends only on main chain data from epochs before the epoch of
    -- the block's main chain reference: two nodes whose sources look up the same epochs and agree
    -- on these data make the same inputs, or fail alike, whatever else their sources hold.
    pub new-agrees :
        (api : RuntimeApi E) (slot : ℕ)
        → new slot_timestamp sc_slot_config epoch_config api slot s r
          ≡ new slot_timestamp sc_slot_config epoch_config api slot t r
    unfolding new
    new-agrees api slot =
        >>=-cong
          (mc_epoch_for_next_ariadne_cidp slot_timestamp sc_slot_config epoch_config api slot) _ _
          (λ e _. rw (← agree.epochs e) (
            >>=-cong (map_err data_source_error (s.data_epoch e)) _ _ (λ d h.
              >>=-cong (map_err api_error api.get_main_chain_scripts) _ _ (λ scripts _.
                provided_inputs-agrees e d scripts (ltb d r) ((map_err-eq-ok _ _ _).0 h) refl))))

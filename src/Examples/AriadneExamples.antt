-- ===== src/Examples/AriadneExamples.antt =====
-- Runs of ariadne_inherent_data_provider.rs.
use iagon_network_explorer_n.Prelude.{
  ℕ, ◌+◌, ◌*◌, ◌-◌, ◌≡◌, refl, arith, ok, err, Option, none, some, ltb, if◌then◌else◌, [],
}
use iagon_network_explorer_n.MainchainEpoch.{MainchainEpochConfig}
use iagon_network_explorer_n.Slots.{ScSlotConfig}
use iagon_network_explorer_n.Ariadne.{RuntimeApi, AuthoritySelectionDataSource, new}
use iagon_network_explorer_n.Ariadne.Provided.{AgreeBefore, new-agrees}

abbrev epochs : MainchainEpochConfig
epochs = record {
  first_epoch_timestamp_millis = 0;
  epoch_duration_millis = 10000;
  first_epoch_number = 0;
  first_slot_number = 0;
}

abbrev slots : ScSlotConfig
slots = record { slots_per_epoch = 10; slot_duration = 1000 }

abbrev slot_timestamp : ℕ → ℕ → Option ℕ
slot_timestamp duration slot = some (1000 * slot)

abbrev api : RuntimeApi ℕ
api = record {
  get_next_unset_epoch_number = ok 6;
  get_main_chain_scripts = ok (record {
    committee_candidate_address = [];
    d_parameter_policy_id = [];
    permissioned_candidates_policy_id = [];
  });
}

-- A source whose data ends with the epoch before `last`.
abbrev source_until : ℕ → AuthoritySelectionDataSource ℕ
source_until last = record {
  get_ariadne_parameters = λ e p q.
      if ltb e (last + 2)
      then ok (record {
        d_parameter = record { num_permissioned_candidates = e; num_registered_candidates = 0 };
        permissioned_candidates = [];
      })
      else err e;
  get_candidates = λ e a. ok [];
  get_epoch_nonce = λ e. ok none;
  data_epoch = λ e. if ltb e 2 then err e else ok (e - 2);
}

sources-AgreeBefore : AgreeBefore 5 (source_until 5) (source_until 8)
sources-AgreeBefore = record {
  epochs = λ e. refl;
  parameters = λ e d p q h lt. ground arith;
  candidates = λ e d a h lt. refl;
  nonces = λ e d h lt. refl;
}

new-agrees_example :
    new slot_timestamp slots epochs api 55 (source_until 5) 5
    ≡ new slot_timestamp slots epochs api 55 (source_until 8) 5
new-agrees_example =
    new-agrees (source_until 5) (source_until 8) 5 sources-AgreeBefore slot_timestamp slots epochs
      api 55

-- ===== src/Follower/Candidates.antt =====
-- toolkit/mainchain-follower/db-sync-follower/src/candidates/mod.rs: the D-parameter, the candidates
-- and the nonce of an epoch, with the queries of db_model.rs that it makes. The tables hold what the
-- joins of the queries give: an output with its transaction, block and datum. The array of the
-- inputs of a transaction, which the query prints and `UtxoId::from_str` reads back, is the list of
-- their ids. The order of the groups of `into_group_map_by`, a hash map, is that of the first
-- registrations.
pub mod Groups
pub mod Registered
pub mod Listed
pub mod Cached
use iagon_network_explorer_n.Prelude.{
  ℕ, ◌+◌, ◌-◌, ◌^◌, Bytes, bytes_eq, Result, ok, err, panic, ◌>>=◌, ok_or, map_err, Bool, true,
  false, not, ◌&&◌, ◌||◌, ltb, leb, ◌==◌, if◌then◌else◌, Option, none, some, List, [], ◌∷◌, ◌++◌,
  map, sum, filter, find, greatest, unwrap_or, length,
}
use iagon_network_explorer_n.Domain.{
  UtxoId, UtxoInfo, RegistrationData, CandidateRegistrations, DParameter, PermissionedCandidateData,
}
use iagon_network_explorer_n.Plutus.{PlutusLib, DecodingError, decode}
use iagon_network_explorer_n.Plutus.DParam.{DParamDatum}
use iagon_network_explorer_n.Plutus.PermissionedCandidates.{PermissionedCandidateDatums}
use iagon_network_explorer_n.Plutus.Registrations.{RegisterValidatorDatum, RegisterValidatorDatums}
use iagon_network_explorer_n.Ariadne.{AriadneParameters, AuthoritySelectionDataSource}
use iagon_network_explorer_n.Follower.Database.{
  DataSourceError, bad_request, expected_data_not_found, internal_data_source_error, BlockRow,
  Block, fetch_optional, is_not_null, holds,
}

pub data CandidatesError : Type 0 where
  data_source_error : DataSourceError → CandidatesError
  data_decoding_error : DecodingError → CandidatesError

pub record TokenTxOutput (PlutusData : Type 0) : Type 0 where
  pub policy : Bytes
  pub name : Bytes
  pub tx_epoch_no : ℕ
  pub tx_block_no : ℕ
  pub tx_block_index : ℕ
  pub datum : Option PlutusData

-- `spent` has the block of the transaction that consumes the output, whose number may be null.
pub record TxOutput (PlutusData : Type 0) : Type 0 where
  pub utxo_id : UtxoId
  pub tx_block_no : ℕ
  pub tx_slot_no : ℕ
  pub tx_epoch_no : ℕ
  pub tx_index_in_block : ℕ
  pub address : Bytes
  pub datum : Option PlutusData
  pub tx_inputs : List UtxoId
  pub spent : Option (Option ℕ)

pub record EpochStake : Type 0 where
  pub epoch_no : ℕ
  pub pool_hash : Bytes
  pub amount : ℕ

pub record Tables (PlutusData : Type 0) : Type 0 where
  pub blocks : List BlockRow
  pub token_outputs : List (TokenTxOutput PlutusData)
  pub outputs : List (TxOutput PlutusData)
  pub stakes : List EpochStake
  pub nonces : List (ℕ × Bytes)

-- `get_latest_block_for_epoch`
unfoldable pub get_latest_block_for_epoch :
    List BlockRow → ℕ → Result DataSourceError (Option Block)
unfolding holds is_not_null fetch_optional
get_latest_block_for_epoch blocks epoch = fetch_optional (
    greatest (λ r. unwrap_or r.slot_no 0)
      (filter
        (λ r.
          holds (λ n. leb n epoch) r.epoch_no && is_not_null r.slot_no && is_not_null r.block_no)
        blocks))

-- `ORDER BY tx_block_no DESC, block_index DESC LIMIT 1`
unfoldable pub is_later : {D : Type 0} → TokenTxOutput D → TokenTxOutput D → Bool
is_later o q =
    ltb q.tx_block_no o.tx_block_no
    || (q.tx_block_no == o.tx_block_no && ltb q.tx_block_index o.tx_block_index)

unfoldable pub latest_output : {D : Type 0} → List (TokenTxOutput D) → Option (TokenTxOutput D)
unfolding is_later
latest_output [] = none
latest_output (o ∷ os) = elim (latest_output os) [
  | none ↦ some o
  | some q ↦ if is_later q o then some q else some o
]

-- The name of the queried assets is empty.
unfoldable pub get_token_utxo_for_epoch :
    {D : Type 0} → List (TokenTxOutput D) → Bytes → ℕ → Option (TokenTxOutput D)
unfolding latest_output
get_token_utxo_for_epoch outputs policy epoch = latest_output (
    filter (λ o. bytes_eq o.policy policy && bytes_eq o.name [] && leb o.tx_epoch_no epoch) outputs)

-- Not spent up to the block.
unfoldable pub is_unspent : ℕ → Option (Option ℕ) → Bool
unfolding holds
is_unspent block none = true
is_unspent block (some consuming) = holds (λ n. ltb block n) consuming

unfoldable pub get_utxos_for_address :
    {D : Type 0} → List (TxOutput D) → Bytes → ℕ → List (TxOutput D)
unfolding is_unspent
get_utxos_for_address outputs address block =
    filter (λ o. bytes_eq o.address address && leb o.tx_block_no block && is_unspent block o.spent)
      outputs

-- `get_stake_distribution`: the groups by pool with the sums of their amounts, which must fit u64
unfoldable pub add_stake : Bytes → ℕ → List (Bytes × ℕ) → List (Bytes × ℕ)
add_stake pool amount [] = (pool, amount) ∷ []
add_stake pool amount ((hash, total) ∷ groups) =
    if bytes_eq hash pool
    then (hash, total + amount) ∷ groups
    else (hash, total) ∷ add_stake pool amount groups

unfoldable pub stake_groups : ℕ → List EpochStake → List (Bytes × ℕ)
unfolding add_stake
stake_groups epoch [] = []
stake_groups epoch (e ∷ es) =
    let rest = stake_groups epoch es in
    if e.epoch_no == epoch then add_stake e.pool_hash e.amount rest else rest

unfoldable pub fetch_stakes : List (Bytes × ℕ) → Result DataSourceError (List (Bytes × ℕ))
fetch_stakes [] = ok []
fetch_stakes ((hash, total) ∷ groups) = do
  rest ← fetch_stakes groups
  (if ltb total (2 ^ 64) then ok ((hash, total) ∷ rest) else err internal_data_source_error)

unfoldable pub get_epoch_of_data_storage : ℕ → Result DataSourceError ℕ
get_epoch_of_data_storage epoch_of_data_usage =
    if ltb epoch_of_data_usage 2 then err bad_request else ok (epoch_of_data_usage - 2)

unfoldable pub get_stake_delegation : (Bytes → Bytes) → List (Bytes × ℕ) → Bytes → Option ℕ
get_stake_delegation from_vkey [] mainchain_pub_key = none
get_stake_delegation from_vkey (s ∷ stake_map) mainchain_pub_key =
    elim (find (λ e. bytes_eq e.0 (from_vkey mainchain_pub_key)) (s ∷ stake_map)) [
      | none ↦ some 0
      | some e ↦ some e.1
    ]

-- A registration with the key that it is grouped by.
pub record RegisteredCandidate : Type 0 where
  pub mainchain_pub_key : Bytes
  pub registration : RegistrationData

-- `group_candidates_by_mc_pub_key`
unfoldable pub add_to_group :
    RegisteredCandidate
    → List (Bytes × List RegistrationData)
    → List (Bytes × List RegistrationData)
add_to_group c [] = (c.mainchain_pub_key, c.registration ∷ []) ∷ []
add_to_group c ((key, registrations) ∷ groups) =
    if bytes_eq key c.mainchain_pub_key
    then (key, registrations ++ c.registration ∷ []) ∷ groups
    else (key, registrations) ∷ add_to_group c groups

unfoldable pub group_onto :
    List (Bytes × List RegistrationData)
    → List RegisteredCandidate
    → List (Bytes × List RegistrationData)
unfolding add_to_group
group_onto groups [] = groups
group_onto groups (c ∷ cs) = group_onto (add_to_group c groups) cs

-- The answer, from the groups and the stakes.
unfoldable pub candidate_registrations :
    (Bytes → Bytes)
    → List (Bytes × ℕ)
    → List (Bytes × List RegistrationData)
    → List CandidateRegistrations
unfolding get_stake_delegation
candidate_registrations from_vkey stake_map groups =
    map
      (λ g. record {
        mainchain_pub_key = g.0;
        registrations = g.1;
        stake_delegation = get_stake_delegation from_vkey stake_map g.0;
      })
      groups

module _ (p : PlutusLib) where
  open p use {PlutusData}

  -- `parse_candidates` and `convert_utxos_to_candidates` on one output: without a datum, or with one
  -- that is not a registration, it is passed over.
  unfoldable pub parse_candidate : TxOutput PlutusData → Option RegisteredCandidate
  parse_candidate output = elim output.datum [
    | none ↦ none
    | some datum ↦ elim (decode p (RegisterValidatorDatums p) datum) [
      | err _ ↦ none
      | panic ↦ none
      | ok d ↦ some (record {
        mainchain_pub_key = d.stake_ownership.pub_key;
        registration = record {
          consumed_input = d.consumed_input;
          sidechain_signature = d.sidechain_signature;
          mainchain_signature = d.stake_ownership.signature;
          cross_chain_signature = d.sidechain_signature;
          sidechain_pub_key = d.sidechain_pub_key;
          cross_chain_pub_key = d.sidechain_pub_key;
          utxo_info = record {
            utxo_id = output.utxo_id;
            epoch_number = output.tx_epoch_no;
            block_number = output.tx_block_no;
            slot_number = output.tx_slot_no;
            tx_index_within_block = output.tx_index_in_block;
          };
          tx_inputs = output.tx_inputs;
          aura_pub_key = d.aura_pub_key;
          grandpa_pub_key = d.grandpa_pub_key;
        };
      })
    ]
  ]

  unfoldable pub parse_candidates : List (TxOutput PlutusData) → List RegisteredCandidate
  unfolding parse_candidate
  parse_candidates [] = []
  parse_candidates (output ∷ outputs) = elim (parse_candidate output) [
    | none ↦ parse_candidates outputs
    | some c ↦ c ∷ parse_candidates outputs
  ]

  module _ (from_vkey : Bytes → Bytes) (t : Tables PlutusData) where
    unfoldable pub get_registered_candidates :
        ℕ → Bytes → Result DataSourceError (List RegisteredCandidate)
    unfolding get_latest_block_for_epoch get_utxos_for_address parse_candidates
    get_registered_candidates epoch committee_candidate_address = do
      found ← get_latest_block_for_epoch t.blocks epoch
      ok (elim found [
        | none ↦ []
        | some block ↦
            parse_candidates
              (get_utxos_for_address t.outputs committee_candidate_address block.block_no)
      ])

    unfoldable pub get_candidates : ℕ → Bytes → Result CandidatesError (List CandidateRegistrations)
    unfolding get_epoch_of_data_storage get_registered_candidates stake_groups fetch_stakes
        candidate_registrations group_onto
    get_candidates for_epoch committee_candidate_address = do
      epoch ← map_err data_source_error (get_epoch_of_data_storage for_epoch)
      candidates ←
          map_err data_source_error (get_registered_candidates epoch committee_candidate_address)
      stake_map ← map_err data_source_error (fetch_stakes (stake_groups epoch t.stakes))
      ok (candidate_registrations from_vkey stake_map (group_onto [] candidates))

    unfoldable pub get_datum : Option (TokenTxOutput PlutusData) → Result CandidatesError PlutusData
    get_datum output = do
      o ← ok_or output (data_source_error expected_data_not_found)
      ok_or o.datum (data_source_error expected_data_not_found)

    unfoldable pub get_ariadne_parameters :
        ℕ → Bytes → Bytes → Result CandidatesError AriadneParameters
    unfolding get_epoch_of_data_storage get_token_utxo_for_epoch get_datum decode
    get_ariadne_parameters for_epoch d_parameter_policy permissioned_candidate_policy = do
      epoch ← map_err data_source_error (get_epoch_of_data_storage for_epoch)
      d_datum ← get_datum (get_token_utxo_for_epoch t.token_outputs d_parameter_policy epoch)
      d_parameter ← map_err data_decoding_error (decode p (DParamDatum p) d_datum)
      candidates_datum ←
          get_datum (get_token_utxo_for_epoch t.token_outputs permissioned_candidate_policy epoch)
      permissioned_candidates ←
          map_err data_decoding_error (decode p (PermissionedCandidateDatums p) candidates_datum)
      ok (record { d_parameter = d_parameter; permissioned_candidates = permissioned_candidates })

    unfoldable pub get_epoch_nonce : ℕ → Result CandidatesError (Option Bytes)
    unfolding get_epoch_of_data_storage
    get_epoch_nonce for_epoch = do
      epoch ← map_err data_source_error (get_epoch_of_data_storage for_epoch)
      ok (elim (find (λ n. n.0 == epoch) t.nonces) [ none ↦ none | some n ↦ some n.1 ])

    -- `CandidatesDataSourceImpl`
    abbrev pub candidates_data_source : AuthoritySelectionDataSource CandidatesError
    candidates_data_source = record {
      get_ariadne_parameters = get_ariadne_parameters;
      get_candidates = get_candidates;
      get_epoch_nonce = get_epoch_nonce;
      data_epoch = λ for_epoch. map_err data_source_error (get_epoch_of_data_storage for_epoch);
    }

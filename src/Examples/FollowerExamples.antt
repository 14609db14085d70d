-- ===== src/Examples/FollowerExamples.antt =====
-- Runs of the source of candidates of toolkit/mainchain-follower/db-sync-follower.
use iagon_network_explorer_n.Prelude.{
  ℕ, ◌≤◌, ◌≡◌, ◌⊎◌, refl, arith, sym, bytes_eq, bytes_eq_iff, ok, ◌>>=◌, Bool, Bool-cases, true,
  ◌&&◌, ◌==◌, inl, inr, Option, none, some, some_inj, List, [], ◌∷◌, filter, find, greatest,
  if◌then◌else◌,
}
use iagon_network_explorer_n.Domain.{CandidateRegistrations}
use iagon_network_explorer_n.Plutus.Registrations.{
  registration_to_plutus_data, decode_v0_register_validator_datum,
}
use iagon_network_explorer_n.Plutus.{decode}
use iagon_network_explorer_n.Ariadne.{AuthoritySelectionDataSource}
use iagon_network_explorer_n.Follower.Candidates.{
  TxOutput, Tables, RegisteredCandidate, get_candidates,
}
use iagon_network_explorer_n.Follower.Candidates.Groups.{DistinctKeys, groups_in, group_of}
use iagon_network_explorer_n.Follower.Candidates.Registered.{IsListed}
use iagon_network_explorer_n.Follower.Candidates.Listed.{
  NoBlock, IsLastBlock, get_candidates-IsListed,
}
use iagon_network_explorer_n.Follower.Candidates.Cached.{
  LruCache, AriadneParametersCacheKey, CandidatesCacheKey, View, new,
}
use iagon_network_explorer_n.Follower.Candidates.Cached.Runs.{
  Event, parameters_request, candidates_request, advance, run, run_inner, Evolves,
  run-new-eq-run_inner,
}
use iagon_network_explorer_n.Examples.Fixtures.{bytes}
use iagon_network_explorer_n.Examples.PlutusExamples.{Datum, pairs, registration}

-- A cache with room for one answer.
abbrev held : {K V : Type 0} → (K → K → Bool) → Option (K × V) → K → Option V
held eq none q = none
held eq (some (k, v)) q = if eq k q then some v else none

held_put :
    {K V : Type 0} (eq : K → K → Bool) (sound : (k q : K) → eq k q ≡ true → k ≡ q) (k q : K)
    (v w : V) (c : Option (K × V))
    → held eq (some (k, v)) q ≡ some w
    → ((q ≡ k) × (w ≡ v)) ⊎ (held eq c q ≡ some w)
held_put eq sound k q v w c h = elim (Bool-cases (eq k q)) [
  | inl e ↦ inl (sym (sound k q e), sym (some_inj (rw e at h)))
  | inr e ↦ cc (rw e at h)
]

abbrev cache_of_one :
    {K V : Type 0} (eq : K → K → Bool) → ((k q : K) → eq k q ≡ true → k ≡ q) → LruCache K V
cache_of_one {K} {V} eq sound = record {
  Cache = Option (K × V);
  empty = λ size. none;
  get = λ k c. (held eq c k, c);
  put = λ k v c. some (k, v);
  peek = held eq;
  get_reads = λ k c. refl;
  get_keeps = λ k q c v h. h;
  put_holds = held_put eq sound;
  peek_empty = λ n k. refl;
}

abbrev parameters_eq : AriadneParametersCacheKey → AriadneParametersCacheKey → Bool
parameters_eq (e, p, q) (e', p', q') = (e == e') && bytes_eq p p' && bytes_eq q q'

parameters_eq-sound : (k q : AriadneParametersCacheKey) → parameters_eq k q ≡ true → k ≡ q
parameters_eq-sound (e, p, q) (e', p', q') h =
    let epochs : e ≡ e' = ground arith in
    let first : p ≡ p' = (bytes_eq_iff p p').0 (ground arith) in
    let second : q ≡ q' = (bytes_eq_iff q q').0 (ground arith) in cc

abbrev candidates_eq : CandidatesCacheKey → CandidatesCacheKey → Bool
candidates_eq (e, a) (e', a') = (e == e') && bytes_eq a a'

candidates_eq-sound : (k q : CandidatesCacheKey) → candidates_eq k q ≡ true → k ≡ q
candidates_eq-sound (e, a) (e', a') h =
    let epochs : e ≡ e' = ground arith in
    let address : a ≡ a' = (bytes_eq_iff a a').0 (ground arith) in cc

-- A main chain on which nobody has registered.
abbrev source : AuthoritySelectionDataSource ℕ
source = record {
  get_ariadne_parameters = λ e p q. ok (record {
    d_parameter = record { num_permissioned_candidates = 1; num_registered_candidates = e };
    permissioned_candidates = [];
  });
  get_candidates = λ e a. ok [];
  get_epoch_nonce = λ e. ok none;
  data_epoch = λ e. ok e;
}

abbrev early : View ℕ
early = record { inner = source; latest_stable_epoch = ok none }

abbrev late : View ℕ
late = record { inner = source; latest_stable_epoch = ok (some 3) }

abbrev events : List (Event ℕ)
events =
    parameters_request 2 [] []
    ∷ advance late
    ∷ parameters_request 2 [] []
    ∷ candidates_request 3 []
    ∷ parameters_request 2 [] []
    ∷ []

same_source : Evolves 0 early late
same_source = record {
  epochs = λ e. refl;
  parameters = λ e d p q x h le a. a;
  candidates = λ e d a x h le c. c;
}

run-new-eq-run_inner_example :
    (new
        (cache_of_one parameters_eq parameters_eq-sound)
        (cache_of_one candidates_eq candidates_eq-sound)
        10
      >>= λ s.
          run
            (cache_of_one parameters_eq parameters_eq-sound)
            (cache_of_one candidates_eq candidates_eq-sound)
            early
            s
            events)
    ≡ run_inner early events
run-new-eq-run_inner_example =
    run-new-eq-run_inner (cache_of_one parameters_eq parameters_eq-sound)
      (cache_of_one candidates_eq candidates_eq-sound) early 10 events (omega arith)
      (
        2,
        none,
        refl,
        refl,
        (
          same_source,
          (2, some 3, refl, refl, (3, some 3, refl, refl, (2, some 3, refl, refl, tt))),
        ),
      )

abbrev output : ℕ → Option Datum → TxOutput Datum
output n datum = record {
  utxo_id = record { tx_hash = bytes 32 n; index = 0 };
  tx_block_no = n;
  tx_slot_no = n;
  tx_epoch_no = 0;
  tx_index_in_block = 0;
  address = 9 ∷ [];
  datum = datum;
  tx_inputs = [];
  spent = none;
}

abbrev spent_at : ℕ → TxOutput Datum → TxOutput Datum
spent_at n o = record o { spent = some (some n) }

abbrev tables : Tables Datum
tables = record {
  blocks =
      record {
        block_no = some 5;
        hash = [];
        epoch_no = some 0;
        slot_no = some 5;
        time = 0;
        token_outputs = [];
      }
      ∷ [];
  token_outputs = [];
  outputs =
      output 1 (some (registration_to_plutus_data pairs registration))
      ∷ output 2 none
      ∷ spent_at 5 (output 4 (some (registration_to_plutus_data pairs registration)))
      ∷ spent_at 6 (output 3 (some (registration_to_plutus_data pairs registration)))
      ∷ [];
  stakes = record { epoch_no = 0; pool_hash = bytes 32 1; amount = 7 } ∷ [];
  nonces = [];
}

abbrev registered : ℕ → RegisteredCandidate
registered n = record {
  mainchain_pub_key = bytes 32 1;
  registration = record {
    consumed_input = record { tx_hash = bytes 32 5; index = 1 };
    sidechain_signature = bytes 64 4;
    mainchain_signature = bytes 64 2;
    cross_chain_signature = bytes 64 4;
    sidechain_pub_key = bytes 33 3;
    cross_chain_pub_key = bytes 33 3;
    utxo_info = record {
      utxo_id = record { tx_hash = bytes 32 n; index = 0 };
      epoch_number = 0;
      block_number = n;
      slot_number = n;
      tx_index_within_block = 0;
    };
    tx_inputs = [];
    aura_pub_key = bytes 32 7;
    grandpa_pub_key = bytes 32 8;
  };
}

abbrev answer : List CandidateRegistrations
answer =
    record {
      mainchain_pub_key = bytes 32 1;
      registrations = (registered 1).registration ∷ (registered 3).registration ∷ [];
      stake_delegation = some 7;
    }
    ∷ []

candidates_at : get_candidates pairs (λ key. key) tables 2 (9 ∷ []) ≡ ok answer
unfolding get_candidates greatest filter bytes_eq decode registration_to_plutus_data
    decode_v0_register_validator_datum find
candidates_at = refl

get_candidates-IsListed_example :
    (2 ≤ 2)
    × DistinctKeys (groups_in answer)
    × (((n : ℕ) × IsLastBlock tables.blocks 0 n
          × IsListed pairs
              (9 ∷ [])
              n
              (bytes 32 1)
              tables.outputs
              (group_of (bytes 32 1) (groups_in answer)))
        ⊎ (NoBlock tables.blocks 0 × (group_of (bytes 32 1) (groups_in answer) ≡ [])))
get_candidates-IsListed_example =
    get_candidates-IsListed pairs (λ key. key) tables 2 (9 ∷ []) (bytes 32 1) answer candidates_at

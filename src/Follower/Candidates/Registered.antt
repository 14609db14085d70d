-- ===== src/Follower/Candidates/Registered.antt =====
-- Which outputs toolkit/mainchain-follower/db-sync-follower/src/candidates/mod.rs takes for
-- registrations of a main chain key.
use iagon_network_explorer_n.Prelude.{
  ℕ, ◌≤◌, ◌<◌, ◌≡◌, ◌⊎◌, refl, arith, sym, ap, subst, ◌∙◌, Bytes, bytes_eq, bytes_eq_iff, Bool,
  Bool-cases, Option-cases, inl, inr, true, ◌&&◌, leb, Result, ok, err, panic, some_inj, none, some,
  List, [], ◌∷◌, map, filter,
}
use iagon_network_explorer_n.Domain.{RegistrationData}
use iagon_network_explorer_n.Plutus.{PlutusLib, decode}
use iagon_network_explorer_n.Plutus.Registrations.{RegisterValidatorDatum, RegisterValidatorDatums}
use iagon_network_explorer_n.Follower.Database.{holds}
use iagon_network_explorer_n.Follower.Candidates.{
  TxOutput, RegisteredCandidate, is_unspent, parse_candidate, parse_candidates,
}

-- The output is at the address, from the block or before, and not spent up to the block.
pub record Stands {D : Type 0} (address : Bytes) (block : ℕ) (o : TxOutput D) : Type 0 where
  pub at_address : o.address ≡ address
  pub not_after : o.tx_block_no ≤ block
  pub unspent : (o.spent ≡ none) ⊎ ((n : ℕ) × (o.spent ≡ some (some n)) × (block < n))

-- The datum of the output registers a candidate with the main chain key.
pub record Registers (p : PlutusLib) (o : TxOutput (p.PlutusData)) (key : Bytes)
    (r : RegistrationData) : Type 0 where
  pub datum : p.PlutusData
  pub has_datum : o.datum ≡ some datum
  pub d : RegisterValidatorDatum
  pub decodes : decode p (RegisterValidatorDatums p) datum ≡ ok d
  pub of_key : d.stake_ownership.pub_key ≡ key
  pub consumed_input : r.consumed_input ≡ d.consumed_input
  pub sidechain_signature : r.sidechain_signature ≡ d.sidechain_signature
  pub mainchain_signature : r.mainchain_signature ≡ d.stake_ownership.signature
  pub cross_chain_signature : r.cross_chain_signature ≡ d.sidechain_signature
  pub sidechain_pub_key : r.sidechain_pub_key ≡ d.sidechain_pub_key
  pub cross_chain_pub_key : r.cross_chain_pub_key ≡ d.sidechain_pub_key
  pub aura_pub_key : r.aura_pub_key ≡ d.aura_pub_key
  pub grandpa_pub_key : r.grandpa_pub_key ≡ d.grandpa_pub_key
  pub utxo_id : r.utxo_info.utxo_id ≡ o.utxo_id
  pub epoch_number : r.utxo_info.epoch_number ≡ o.tx_epoch_no
  pub block_number : r.utxo_info.block_number ≡ o.tx_block_no
  pub slot_number : r.utxo_info.slot_number ≡ o.tx_slot_no
  pub tx_index_within_block : r.utxo_info.tx_index_within_block ≡ o.tx_index_in_block
  pub tx_inputs : r.tx_inputs ≡ o.tx_inputs

-- The registrations of the key in the outputs that stand at the address, in the order of the outputs.
pub data IsListed (p : PlutusLib) (address : Bytes) (block : ℕ) (key : Bytes)
    : List (TxOutput (p.PlutusData)) → List RegistrationData → Type 0 where
  ends : IsListed p address block key [] []
  listed :
      {o : TxOutput (p.PlutusData)} {r : RegistrationData} {os : List (TxOutput (p.PlutusData))}
      {rs : List RegistrationData}
      → Stands address block o
      → Registers p o key r
      → IsListed p address block key os rs
      → IsListed p address block key (o ∷ os) (r ∷ rs)
  passed :
      {o : TxOutput (p.PlutusData)} {os : List (TxOutput (p.PlutusData))}
      {rs : List RegistrationData}
      → ¬ (Stands address block o × ((r : RegistrationData) × Registers p o key r))
      → IsListed p address block key os rs
      → IsListed p address block key (o ∷ os) rs

abbrev stands : {D : Type 0} → Bytes → ℕ → TxOutput D → Bool
stands address block o =
    bytes_eq o.address address && leb o.tx_block_no block && is_unspent block o.spent

stands-Stands :
    {D : Type 0} (address : Bytes) (block : ℕ) (o : TxOutput D)
    → stands address block o ≡ true
    → Stands address block o
unfolding is_unspent holds
stands-Stands address block o h = record {
  at_address = (bytes_eq_iff o.address address).0 (ground (arith, h));
  not_after = ground (arith, h);
  unspent = elim (Option-cases o.spent) [
    | inl e ↦ inl e
    | inr (consuming, e) ↦ elim (Option-cases consuming) [
      | inl null ↦ absurd (ground (arith, h, e, null))
      | inr (n, f) ↦ inr (n, e ∙ ap some f, ground (arith, h, e, f))
    ]
  ];
}

Stands-stands :
    {D : Type 0} (address : Bytes) (block : ℕ) (o : TxOutput D)
    → Stands address block o
    → stands address block o ≡ true
unfolding is_unspent holds
Stands-stands address block o s = elim s.unspent [
  | inl e ↦
      let a = (bytes_eq_iff o.address address).1 s.at_address in
      let le = s.not_after in rw (a, e) (ground arith)
  | inr (n, e, lt) ↦
      let a = (bytes_eq_iff o.address address).1 s.at_address in
      let le = s.not_after in rw (a, e) (ground arith)
]

module _ (p : PlutusLib) where
  Result-cases :
      {E A : Type 0} (r : Result E A)
      → ((a : A) × (r ≡ ok a)) ⊎ ((e : E) × (r ≡ err e)) ⊎ (r ≡ panic)
  Result-cases (ok a) = inl (a, refl)
  Result-cases (err e) = inr (inl (e, refl))
  Result-cases panic = inr (inr refl)

  abbrev registered_by : TxOutput (p.PlutusData) → RegisterValidatorDatum → RegisteredCandidate
  registered_by output d = record {
    mainchain_pub_key = d.stake_ownership.pub_key;
    registration = record {
      consumed_input = d.consumed_input;
      sidechain_signature = d.sidechain_signature;
      mainchain_signature = d.stake_ownership.signature;
      cross_chain_signature = d.sidechain_signature;
      sidechain_pub_key = d.sidechain_pub_key;
      cross_chain_pub_key = d.sidechain_pub_key;
      utxo_info = record {
        utxo_id = output.utxo_id;
        epoch_number = output.tx_epoch_no;
        block_number = output.tx_block_no;
        slot_number = output.tx_slot_no;
        tx_index_within_block = output.tx_index_in_block;
      };
      tx_inputs = output.tx_inputs;
      aura_pub_key = d.aura_pub_key;
      grandpa_pub_key = d.grandpa_pub_key;
    };
  }

  parse_candidate-decoded :
      (o : TxOutput (p.PlutusData)) (datum : p.PlutusData) (d : RegisterValidatorDatum)
      → o.datum ≡ some datum
      → decode p (RegisterValidatorDatums p) datum ≡ ok d
      → parse_candidate p o ≡ some (registered_by o d)
  unfolding parse_candidate
  parse_candidate-decoded o datum d e k = rw (e, parse_candidate) (rw k)

  parse_candidate-eq-some :
      (o : TxOutput (p.PlutusData)) (c : RegisteredCandidate)
      → parse_candidate p o ≡ some c
      → Registers p o c.mainchain_pub_key c.registration
  unfolding parse_candidate
  parse_candidate-eq-some o c h = elim (Option-cases o.datum) [
    | inl e ↦ absurd (ground (arith, rw (e, parse_candidate) at h))
    | inr (datum, e) ↦ elim (Result-cases (decode p (RegisterValidatorDatums p) datum)) [
      | inl (d, k) ↦
          subst (λ z. Registers p o z.mainchain_pub_key z.registration)
            (some_inj (sym (parse_candidate-decoded o datum d e k) ∙ h))
            (record {
              datum = datum;
              has_datum = e;
              d = d;
              decodes = k;
              of_key = refl;
              consumed_input = refl;
              sidechain_signature = refl;
              mainchain_signature = refl;
              cross_chain_signature = refl;
              sidechain_pub_key = refl;
              cross_chain_pub_key = refl;
              aura_pub_key = refl;
              grandpa_pub_key = refl;
              utxo_id = refl;
              epoch_number = refl;
              block_number = refl;
              slot_number = refl;
              tx_index_within_block = refl;
              tx_inputs = refl;
            })
      | inr (inl (x, k)) ↦ absurd (ground (arith, rw (k) at (rw (e, parse_candidate) at h)))
      | inr (inr k) ↦ absurd (ground (arith, rw (k) at (rw (e, parse_candidate) at h)))
    ]
  ]

  Registers-parse_candidate :
      (o : TxOutput (p.PlutusData)) (key : Bytes) (r : RegistrationData)
      → Registers p o key r
      → (c : RegisteredCandidate) × (parse_candidate p o ≡ some c) × (c.mainchain_pub_key ≡ key)
  Registers-parse_candidate o key r g =
      (registered_by o g.d, parse_candidate-decoded o g.datum g.d g.has_datum g.decodes, g.of_key)

  -- What the code reads of the key from the outputs.
  abbrev pub read : Bytes → ℕ → Bytes → List (TxOutput (p.PlutusData)) → List RegistrationData
  read address block key os =
      map (λ c. c.registration)
        (filter (λ c. bytes_eq c.mainchain_pub_key key)
          (parse_candidates p (filter (stands address block) os)))

  pub read-IsListed :
      (address : Bytes) (block : ℕ) (key : Bytes) (os : List (TxOutput (p.PlutusData)))
      → IsListed p address block key os (read address block key os)
  unfolding filter parse_candidates
  read-IsListed address block key [] = ends
  read-IsListed address block key (o ∷ os) =
      let rest = read-IsListed address block key os in
      elim (Bool-cases (stands address block o)) [
        | inr gone ↦ rw gone (passed (λ h. cc (Stands-stands address block o h.0)) rest)
        | inl there ↦ rw there (elim (Option-cases (parse_candidate p o)) [
          | inl unparsed ↦
              rw (unparsed, parse_candidates)
                (passed (λ h. let (c, f, _) = Registers-parse_candidate o key h.1.0 h.1.1 in cc)
                  rest)
          | inr (c, f) ↦
              rw (f, parse_candidates)
                (elim (Bool-cases (bytes_eq c.mainchain_pub_key key)) [
                  | inl same ↦ rw same (
                      listed (stands-Stands address block o there)
                        (subst (λ z. Registers p o z c.registration)
                          ((bytes_eq_iff c.mainchain_pub_key key).0 same)
                          (parse_candidate-eq-some o c f))
                        rest)
                  | inr other ↦ rw other (
                      passed
                        (λ h.
                          let (c', f', k) = Registers-parse_candidate o key h.1.0 h.1.1 in
                          let equal : c ≡ c' = some_inj (sym f ∙ f') in
                          let same =
                            (bytes_eq_iff c.mainchain_pub_key key).1
                              (ap (λ z. z.mainchain_pub_key) equal ∙ k) in
                          cc)
                        rest)
                ])
        ])
      ]

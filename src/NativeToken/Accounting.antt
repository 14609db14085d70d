-- ===== src/NativeToken/Accounting.antt =====
-- The provider, the inherent and the pallet of the native token over a chain of blocks: what the
-- handler is given adds up to what the main chain observed.
use iagon_network_explorer_n.Prelude.{
  ℕ, ◌+◌, ◌≡◌, refl, sym, arith, Bytes, Result, ok, ◌>>=◌, map_err, Bool, true, false, ltb, Option,
  none, some, List, [], ◌∷◌, Bool-cases, inl, inr,
}
use iagon_network_explorer_n.ValidatorManagement.{none_origin}
use iagon_network_explorer_n.NativeToken.{
  MainChainScripts, Storage, Call, transfer_tokens_call, set_main_chain_scripts_call, build,
  create_inherent, transfer_tokens, set_main_chain_scripts, get_main_chain_scripts, initialized,
}
use iagon_network_explorer_n.NativeToken.Provider.{
  Environment, new_if_pallet_present, provide_inherent_data,
}

-- A chain with the pallet: its storage, the sum of what the handler was given, and the main chain
-- hash in the digest of the last block, none at genesis.
pub record Chain : Type 0 where
  pub storage : Storage
  pub handled : ℕ
  pub mc_hash : Option Bytes

-- The error of any stage, forgotten.
abbrev discard {ℓ κ} : {E : Type ℓ} {A : Type κ} → Result E A → Result (Unit {0}) A
discard m = map_err (λ _. tt) m

-- The call of the inherent, executed.
unfoldable pub execute : Option Call → Storage × ℕ → Result (Unit {0}) (Storage × ℕ)
unfolding transfer_tokens set_main_chain_scripts
execute none state = ok state
execute (some (transfer_tokens_call token_amount)) state =
    discard (transfer_tokens (λ n w. ok (w + n)) none_origin token_amount state)
execute (some (set_main_chain_scripts_call scripts)) (s, w) = do
  s' ← discard (set_main_chain_scripts none_origin scripts s)
  ok (s', w)

-- `total` are the transfers that the data source observes behind one block up to another.
module _ (total : Option Bytes → Bytes → Bytes → Bytes → Bytes → ℕ) where
  unfoldable pub environment : Chain → Environment (Unit {0})
  unfolding get_main_chain_scripts initialized
  environment chain = record {
    has_api = ok true;
    get_main_chain_scripts = ok (get_main_chain_scripts chain.storage);
    initialized = ok (initialized chain.storage);
    get_mc_hash_for_block = ok chain.mc_hash;
    get_total_native_token_transfer = λ after_block to_block policy_id asset_name address.
        ok (total after_block to_block policy_id asset_name address);
  }

  -- A block that refers to the main chain block `mc_hash`.
  unfoldable pub run_block : Bytes → Chain → Result (Unit {0}) Chain
  unfolding execute environment new_if_pallet_present provide_inherent_data create_inherent
  run_block mc_hash chain = do
    token_amount ← discard (new_if_pallet_present (environment chain) mc_hash)
    call ← discard (create_inherent (provide_inherent_data token_amount))
    (s, w) ← execute call (chain.storage, chain.handled)
    ok (record { storage = s; handled = w; mc_hash = some mc_hash })

  unfoldable pub run_blocks : List Bytes → Chain → Result (Unit {0}) Chain
  unfolding run_block
  run_blocks [] chain = ok chain
  run_blocks (h ∷ hs) chain = do chain' ← run_block h chain; run_blocks hs chain'

-- The last hash of `hs`, behind an earlier one.
abbrev pub last_hash : Option Bytes → List Bytes → Option Bytes
last_hash before [] = before
last_hash before (h ∷ hs) = last_hash (some h) hs

module _ (total : Option Bytes → Bytes → Bytes → Bytes → Bytes → ℕ)
    (scripts : MainChainScripts) where
  abbrev pub observed : Option Bytes → Bytes → ℕ
  observed after_block to_block =
      total after_block to_block scripts.native_token_policy_id scripts.native_token_asset_name
        scripts.illiquid_supply_validator_address

  -- Everything that was transferred up to a block, and nothing at genesis.
  abbrev pub observed_until : Option Bytes → ℕ
  observed_until none = 0
  observed_until (some h) = observed none h

  -- From one referenced block to the next, the transfers up to the first and those behind it up to
  -- the second are those up to the second.
  abbrev pub IsAdditive : Option Bytes → List Bytes → Type 0
  IsAdditive before [] = Unit
  IsAdditive none (h ∷ hs) = IsAdditive (some h) hs
  IsAdditive (some p) (h ∷ hs) =
      (observed none h ≡ observed none p + observed (some p) h) × IsAdditive (some h) hs

  abbrev chain_of : Bool → ℕ → Option Bytes → Chain
  chain_of b w before = record {
    storage = record { main_chain_scripts_configuration = some scripts; initialized_value = b };
    handled = w;
    mc_hash = before;
  }

  run_block-uninitialized :
      (h : Bytes) (before : Option Bytes)
      → run_block total h (chain_of false 0 before)
        ≡ ok (chain_of (ltb 0 (observed none h)) (observed none h) (some h))
  unfolding run_block
  run_block-uninitialized h before = ground arith

  run_block-initialized :
      (h p : Bytes) (w : ℕ)
      → run_block total h (chain_of true w (some p))
        ≡ ok (chain_of true (w + observed (some p) h) (some h))
  unfolding run_block
  run_block-initialized h p w = ground arith

  run_blocks-initialized :
      (hs : List Bytes) (p : Bytes)
      → IsAdditive (some p) hs
      → run_blocks total hs (chain_of true (observed none p) (some p))
        ≡ ok (chain_of true (observed_until (last_hash (some p) hs)) (last_hash (some p) hs))
  unfolding run_blocks
  run_blocks-initialized [] p a = refl
  run_blocks-initialized (h ∷ hs) p a =
      rw (run_block-initialized h p (observed none p), run_blocks)
        (rw (sym a.0) (run_blocks-initialized hs h a.1))

  run_blocks-uninitialized :
      (hs : List Bytes) (before : Option Bytes)
      → observed_until before ≡ 0
      → IsAdditive before hs
      → (b : Bool) × (run_blocks total hs (chain_of false 0 before)
          ≡ ok (chain_of b (observed_until (last_hash before hs)) (last_hash before hs)))
  unfolding run_blocks
  run_blocks-uninitialized [] before zeroes a = (false, rw zeroes)
  run_blocks-uninitialized (h ∷ hs) before zeroes a = elim (Bool-cases (ltb 0 (observed none h))) [
    | inl some_tokens ↦ (
      true,
      rw (run_block-uninitialized h before, run_blocks)
          (rw some_tokens (run_blocks-initialized hs h (tail before a))),
    )
    | inr no_tokens ↦
        let zero : observed none h ≡ 0 = ground (arith, no_tokens) in
        let (b, e) = run_blocks-uninitialized hs (some h) zero (tail before a) in
        (b, rw (run_block-uninitialized h before, run_blocks) (rw zero e))
  ]
    where
      tail : (before : Option Bytes) → IsAdditive before (h ∷ hs) → IsAdditive (some h) hs
      tail none a = a
      tail (some p) a = a.1

  -- From genesis with main chain scripts, over any sequence of blocks whose references are additive
  -- in the data source, every block is made and executed without an error, and what the handler
  -- was given in sum is all that was transferred up to the reference of the last block: no
  -- transfer is lost and none is handled twice, whichever blocks have no transfer.
  pub transfers_accounted :
      (hs : List Bytes)
      → IsAdditive none hs
      → (chain : Chain) × (run_blocks total hs
            (record { storage = build scripts; handled = 0; mc_hash = none })
          ≡ ok chain)
        × (chain.handled ≡ observed_until (last_hash none hs))
        × (chain.mc_hash ≡ last_hash none hs)
  unfolding build
  transfers_accounted hs a =
      let (b, e) = run_blocks-uninitialized hs none refl a in
      (chain_of b (observed_until (last_hash none hs)) (last_hash none hs), e, refl, refl)

-- ===== src/McHash/Verification.antt =====
-- Which main chain references toolkit/primitives/sidechain-mc-hash/src/lib.rs accepts.
use iagon_network_explorer_n.Prelude.{
  ℕ, ◌≤◌, ◌≡◌, ◌↔◌, ap, sym, subst, ◌∙◌, arith, Bytes, ok, err, Option, none, some, List,
  Bool-cases, inl, inr, ltb, le→ltb, >>=-eq-ok, ok_or-eq-ok, map_err-eq-ok, some_inj, if◌then◌else◌,
}
use iagon_network_explorer_n.Domain.{MainchainBlock}
use iagon_network_explorer_n.McHash.{
  DigestItem, McHashDataSource, value_from_digest, get_mc_state_reference, new_proposal,
  new_verification,
}

not_regressed {ℓ} :
    {F : Type ℓ} (e : F) (b parent_block block : MainchainBlock)
    → (if ltb b.number parent_block.number then err e else ok b) ≡ ok block
    → (parent_block.number ≤ block.number) × (b ≡ block)
not_regressed e b parent_block block h = elim (Bool-cases (ltb b.number parent_block.number)) [
  | inl lower ↦ ground (arith, h, lower)
  | inr not_lower ↦
      let same : b ≡ block = ground (arith, h, not_lower) in
      (subst (λ z. parent_block.number ≤ z.number) same (ground (arith, not_lower)), same)
]

module _ {E : Type 0} (d : McHashDataSource E) (slot_timestamp : ℕ → Option ℕ) where
  -- The data source has the block of this hash as stable at the time of the slot.
  pub record IsStable (slot : ℕ) (hash : Bytes) (block : MainchainBlock) : Type 0 where
    pub timestamp : ℕ
    pub at : slot_timestamp slot ≡ some timestamp
    pub found : d.get_stable_block_for hash timestamp ≡ ok (some block)

  get_mc_state_reference_iff :
      (slot : ℕ) (hash : Bytes) (block : MainchainBlock)
      → (get_mc_state_reference d slot_timestamp slot hash ≡ ok block) ↔ IsStable slot hash block
  unfolding get_mc_state_reference
  get_mc_state_reference_iff slot hash block = (
    λ h.
        let (t, p, h₁) = >>=-eq-ok _ _ h in
        let (o, q, h₂) = >>=-eq-ok _ _ h₁ in
        record {
          timestamp = t;
          at = (ok_or-eq-ok _ _ _).0 p;
          found = (map_err-eq-ok _ _ _).0 q ∙ ap ok ((ok_or-eq-ok _ _ _).0 h₂);
        },
    λ s. rw (s.at) (rw (s.found)),
  )

  -- The reference of the parent: there is none at genesis, else the parent's digest has one, which
  -- is stable at the parent's slot and not above `block`.
  abbrev pub FollowsParent : List DigestItem → Option ℕ → MainchainBlock → Type 0
  FollowsParent parent_logs none block = Unit
  FollowsParent parent_logs (some parent_slot) block =
      (parent_hash : Bytes) × (parent_block : MainchainBlock) × (value_from_digest parent_logs
        ≡ ok parent_hash)
      × IsStable parent_slot parent_hash parent_block
      × (parent_block.number ≤ block.number)

  -- Verification accepts a reference, as the block that it returns, exactly when the data source has
  -- that block as stable at the time of the slot, and the reference of the parent block, if the
  -- parent is not the genesis block, is stable at the parent's slot and not of a higher number.
  pub new_verification_iff :
      (parent_logs : List DigestItem) (parent_slot : Option ℕ) (slot : ℕ) (hash : Bytes)
      (block : MainchainBlock)
      → (new_verification d slot_timestamp parent_logs parent_slot slot hash ≡ ok block)
        ↔ (IsStable slot hash block × FollowsParent parent_logs parent_slot block)
  unfolding new_verification
  new_verification_iff parent_logs none slot hash block =
      let (to, from) = get_mc_state_reference_iff slot hash block in
      (λ h. (to h, tt), λ h. from h.0)
  new_verification_iff parent_logs (some parent_slot) slot hash block = (
    λ h.
        let (b, p, h₁) = >>=-eq-ok _ _ h in
        let (parent_hash, q, h₂) = >>=-eq-ok _ _ h₁ in
        let (parent_block, r, h₃) = >>=-eq-ok _ _ h₂ in
        let (le, same) = not_regressed _ b parent_block block h₃ in
        (
          (get_mc_state_reference_iff slot hash block).0 (p ∙ ap ok same),
          (
            parent_hash,
            parent_block,
            (map_err-eq-ok _ _ _).0 q,
            (get_mc_state_reference_iff parent_slot parent_hash parent_block).0 r,
            le,
          ),
        ),
    λ (stable, (parent_hash, parent_block, q, parent_stable, le)).
        rw ((get_mc_state_reference_iff slot hash block).1 stable) (
          rw q (
            rw ((get_mc_state_reference_iff parent_slot parent_hash parent_block).1 parent_stable)
              (rw (le→ltb block.number parent_block.number le)))),
  )

  -- What `McHashDataSource` documents: the latest stable block for a time is stable for that time
  -- under its own hash, and no block that is stable for a time before has a higher number.
  pub record IsCoherent : Type 0 where
    pub latest_is_stable :
        (t : ℕ) (b : MainchainBlock)
        → d.get_latest_stable_block_for t ≡ ok (some b)
        → d.get_stable_block_for b.hash t ≡ ok (some b)
    pub latest_is_highest :
        (t t' : ℕ) (b b' : MainchainBlock) (hash : Bytes)
        → d.get_latest_stable_block_for t ≡ ok (some b)
        → t' ≤ t
        → d.get_stable_block_for hash t' ≡ ok (some b')
        → b'.number ≤ b.number

  -- With a coherent data source, the reference that an author chooses for a slot passes the
  -- verification of every node with that source, on a parent of an earlier time whose own
  -- reference is in its digest and stable at the parent's slot.
  pub new_proposal-verified :
      IsCoherent
      → (slot parent_slot time parent_time : ℕ) (block parent_block : MainchainBlock)
        (parent_logs : List DigestItem) (parent_hash : Bytes)
      → new_proposal d slot_timestamp slot ≡ ok block
      → slot_timestamp slot ≡ some time
      → slot_timestamp parent_slot ≡ some parent_time
      → parent_time ≤ time
      → value_from_digest parent_logs ≡ ok parent_hash
      → d.get_stable_block_for parent_hash parent_time ≡ ok (some parent_block)
      → new_verification d slot_timestamp parent_logs (some parent_slot) slot block.hash ≡ ok block
  unfolding new_proposal
  new_proposal-verified co slot parent_slot time parent_time block parent_block parent_logs
        parent_hash proposed at parent_at le in_digest parent_found =
      let (t, p, h₁) = >>=-eq-ok _ _ proposed in
      let (o, q, h₂) = >>=-eq-ok _ _ h₁ in
      let found : d.get_latest_stable_block_for t ≡ ok (some block) =
        (map_err-eq-ok _ _ _).0 q ∙ ap ok ((ok_or-eq-ok _ _ _).0 h₂) in
      let same : t ≡ time = some_inj (sym ((ok_or-eq-ok _ _ _).0 p) ∙ at) in
      let latest = subst (λ z. d.get_latest_stable_block_for z ≡ ok (some block)) same found in
      (new_verification_iff parent_logs (some parent_slot) slot block.hash block).1 (
        record { timestamp = time; at = at; found = co.latest_is_stable time block latest },
        (
          parent_hash,
          parent_block,
          in_digest,
          record { timestamp = parent_time; at = parent_at; found = parent_found },
          co.latest_is_highest time parent_time block parent_block parent_hash latest le
              parent_found,
        ),
      )

-- ===== src/Follower/Candidates/Listed.antt =====
-- Which registrations toolkit/mainchain-follower/db-sync-follower/src/candidates/mod.rs reads from the
-- ledger for an epoch.
use mathlib.Core.List.{Memᴰ}
use mathlib.Core.List.Memᴰ.{head, tail}
use iagon_network_explorer_n.Prelude.{
  ℕ, ◌-◌, ◌≤◌, ◌≡◌, ◌⊎◌, refl, arith, sym, ap, subst, ◌∙◌, Bytes, bytes_eq, Bool, Option-cases, inl,
  inr, true, ◌&&◌, leb, ok, >>=-eq-ok, map_err, map_err-eq-ok, ok_inj, none, some, List, [], ◌∷◌,
  map, All, All-imp, All-filter, All-of_filter, filter, greatest, greatest-All, greatest_bounds,
  greatest-none, unwrap_or,
}
use iagon_network_explorer_n.Domain.{RegistrationData, CandidateRegistrations}
use iagon_network_explorer_n.Plutus.{PlutusLib}
use iagon_network_explorer_n.Follower.Database.{
  BlockRow, Block, from_row, fetch_optional, holds, is_not_null,
}
use iagon_network_explorer_n.Follower.Blocks.Stability.{from_row_inversion}
use iagon_network_explorer_n.Follower.Candidates.{
  data_source_error, Tables, RegisteredCandidate, get_latest_block_for_epoch, get_utxos_for_address,
  get_epoch_of_data_storage, get_registered_candidates, get_candidates,
}
use iagon_network_explorer_n.Follower.Candidates.Groups.{
  DistinctKeys, groups_in, group_of, get_candidates-group_of,
}
use iagon_network_explorer_n.Follower.Candidates.Registered.{IsListed, read-IsListed}

-- The number and the slot of a block of the epoch or before.
pub record IsBlock (epoch : ℕ) (r : BlockRow) (n slot : ℕ) : Type 0 where
  pub number : r.block_no ≡ some n
  pub block_epoch : ℕ
  pub in_epoch : r.epoch_no ≡ some block_epoch
  pub not_after : block_epoch ≤ epoch
  pub in_slot : r.slot_no ≡ some slot

-- `n` is the number of the block with the largest slot of those of the epoch or before.
pub record IsLastBlock (blocks : List BlockRow) (epoch n : ℕ) : Type 0 where
  pub row : BlockRow
  pub slot : ℕ
  pub in_table : Memᴰ row blocks
  pub block : IsBlock epoch row n slot
  pub latest : All (λ q. (n' slot' : ℕ) → IsBlock epoch q n' slot' → slot' ≤ slot) blocks

abbrev pub NoBlock : List BlockRow → ℕ → Type 0
NoBlock blocks epoch = All (λ q. (n' slot' : ℕ) → ¬ IsBlock epoch q n' slot') blocks

abbrev slot_of : BlockRow → ℕ
slot_of r = unwrap_or r.slot_no 0

unfoldable is_block : ℕ → BlockRow → Bool
unfolding holds is_not_null
is_block epoch r =
    holds (λ n. leb n epoch) r.epoch_no && is_not_null r.slot_no && is_not_null r.block_no

module _ (epoch : ℕ) (r : BlockRow) where
  is_block-IsBlock : is_block epoch r ≡ true → (n : ℕ) × (slot : ℕ) × IsBlock epoch r n slot
  unfolding is_block is_not_null holds
  is_block-IsBlock h = elim (Option-cases r.block_no) [
    | inl b ↦ absurd (ground (arith, h, b))
    | inr (n, b) ↦ elim (Option-cases r.slot_no) [
      | inl s ↦ absurd (ground (arith, h, s))
      | inr (slot, s) ↦ elim (Option-cases r.epoch_no) [
        | inl e ↦ absurd (ground (arith, h, e))
        | inr (block_epoch, e) ↦ (
          n,
          slot,
          record {
            number = b;
            block_epoch = block_epoch;
            in_epoch = e;
            not_after = ground (arith, h, e);
            in_slot = s;
          },
        )
      ]
    ]
  ]

  IsBlock-is_block : (n slot : ℕ) → IsBlock epoch r n slot → is_block epoch r ≡ true
  unfolding is_block is_not_null holds
  IsBlock-is_block n slot b =
      let le = b.not_after in rw (b.number, b.in_slot, b.in_epoch) (ground arith)

All-Memᴰ :
    {A : Type 0} (xs ys : List A) → ((x : A) → Memᴰ x xs → Memᴰ x ys) → All (λ x. Memᴰ x ys) xs
All-Memᴰ [] ys h = tt
All-Memᴰ (x ∷ xs) ys h = (h x (head refl), All-Memᴰ xs ys (λ z m. h z (tail m)))

module _ (blocks : List BlockRow) (epoch : ℕ) where
  no_block : get_latest_block_for_epoch blocks epoch ≡ ok none → NoBlock blocks epoch
  unfolding get_latest_block_for_epoch fetch_optional is_block
  no_block h = elim (Option-cases (greatest slot_of (filter (is_block epoch) blocks))) [
    | inl e ↦
        All-imp _ _ blocks (λ q no_test n' slot' b. no_test (IsBlock-is_block epoch q n' slot' b))
          (All-of_filter (λ _. ⊥) (is_block epoch) blocks
            (subst (λ z. All (λ _. ⊥) z) (sym (greatest-none slot_of _ e)) tt))
    | inr (r, e) ↦ absurd (ground (arith, rw (e, get_latest_block_for_epoch) at h))
  ]

  last_block :
      (b : Block)
      → get_latest_block_for_epoch blocks epoch ≡ ok (some b)
      → IsLastBlock blocks epoch b.block_no
  unfolding get_latest_block_for_epoch fetch_optional is_block
  last_block b h = elim (Option-cases (greatest slot_of (filter (is_block epoch) blocks))) [
    | inl e ↦ absurd (ground (arith, rw (e, get_latest_block_for_epoch) at h))
    | inr (r, e) ↦
        let of_row : from_row r ≡ ok b = ground (arith, rw (e, get_latest_block_for_epoch) at h) in
        let both =
          greatest-All (λ q. Memᴰ q blocks × (is_block epoch q ≡ true)) slot_of
            (filter (is_block epoch) blocks)
            (All-filter (λ q. Memᴰ q blocks) _ (is_block epoch) blocks (λ q m t. (m, t))
              (All-Memᴰ blocks blocks (λ q m. m)))
            e in
        let (n, slot, block) = is_block-IsBlock epoch r both.1 in
        record {
          row = r;
          slot = slot;
          in_table = both.0;
          block = record {
            number = (from_row_inversion r b of_row).0;
            block_epoch = block.block_epoch;
            in_epoch = block.in_epoch;
            not_after = block.not_after;
            in_slot = block.in_slot;
          };
          latest =
              All-imp _ _ blocks
                (λ q bound n' slot' block'.
                  let le = bound (IsBlock-is_block epoch q n' slot' block') in
                  let a = block'.in_slot in let a' = block.in_slot in rw (a, a') at le)
                (All-of_filter _ (is_block epoch) blocks (greatest_bounds slot_of _ e));
        }
  ]

module _ (p : PlutusLib) (from_vkey : Bytes → Bytes) (t : Tables (p.PlutusData)) where
  -- What the code has read of the key: the registrations at the last block, or none without a block.
  abbrev IsRead : (epoch : ℕ) (address key : Bytes) → List RegistrationData → Type 0
  IsRead epoch address key rs =
      ((n : ℕ) × IsLastBlock t.blocks epoch n × IsListed p address n key t.outputs rs)
      ⊎ (NoBlock t.blocks epoch × (rs ≡ []))

  get_registered_candidates-IsRead :
      (epoch : ℕ) (address key : Bytes) (rs : List RegisteredCandidate)
      → get_registered_candidates p from_vkey t epoch address ≡ ok rs
      → IsRead epoch address key
          (map (λ c. c.registration) (filter (λ c. bytes_eq c.mainchain_pub_key key) rs))
  unfolding get_registered_candidates get_utxos_for_address filter
  get_registered_candidates-IsRead epoch address key rs h =
      let (found, e, h') = >>=-eq-ok (get_latest_block_for_epoch t.blocks epoch) _ h in
      elim (Option-cases found) [
        | inl missing ↦
            let read : [] ≡ rs = ok_inj (rw missing at h') in
            inr (
              no_block t.blocks epoch (e ∙ ap ok missing),
              subst
                  (λ z.
                    map (λ c. c.registration) (filter (λ c. bytes_eq c.mainchain_pub_key key) z)
                    ≡ [])
                  read refl,
            )
        | inr (b, is) ↦
            let read = ok_inj (rw is at h') in
            inl (
              b.block_no,
              last_block t.blocks epoch b (e ∙ ap ok is),
              subst
                  (λ z.
                    IsListed p address b.block_no key t.outputs (
                      map (λ c. c.registration) (filter (λ c. bytes_eq c.mainchain_pub_key key) z)))
                  read (read-IsListed p address b.block_no key t.outputs),
            )
      ]

  get_epoch_of_data_storage-eq-ok :
      (for_epoch : ℕ) {e : ℕ}
      → get_epoch_of_data_storage for_epoch ≡ ok e
      → (2 ≤ for_epoch) × (e ≡ for_epoch - 2)
  unfolding get_epoch_of_data_storage
  get_epoch_of_data_storage-eq-ok for_epoch h = ground (arith, h)

  -- A request for candidates that succeeds is for epoch 2 or a later one, and its answer has no main
  -- chain key twice. Take the block with the largest slot of those up to the second epoch before: for
  -- each key, the answer has the registrations of all outputs, in their order, that are at the
  -- address, from that block or before, not spent in it or before, and have a datum that decodes to a
  -- registration of the key, with the fields of the datum and of the output. If there is no block up
  -- to that epoch, it has none.
  pub get_candidates-IsListed :
      (for_epoch : ℕ) (address key : Bytes) (cs : List CandidateRegistrations)
      → get_candidates p from_vkey t for_epoch address ≡ ok cs
      → (2 ≤ for_epoch)
        × DistinctKeys (groups_in cs)
        × (((n : ℕ) × IsLastBlock t.blocks (for_epoch - 2) n
              × IsListed p address n key t.outputs (group_of key (groups_in cs)))
            ⊎ (NoBlock t.blocks (for_epoch - 2) × (group_of key (groups_in cs) ≡ [])))
  unfolding get_candidates
  get_candidates-IsListed for_epoch address key cs h =
      let (e, p₁, h₁) =
        >>=-eq-ok (map_err data_source_error (get_epoch_of_data_storage for_epoch)) _ h in
      let (rs, p₂, _) =
        >>=-eq-ok (map_err data_source_error (get_registered_candidates p from_vkey t e address)) _
          h₁ in
      let data_epoch = (map_err-eq-ok _ _ _).0 p₁ in
      let registered = (map_err-eq-ok _ _ _).0 p₂ in
      let (late, same) = get_epoch_of_data_storage-eq-ok for_epoch data_epoch in
      let (distinct, group) =
        get_candidates-group_of p from_vkey t for_epoch e address key rs cs data_epoch registered
          h in
      (
        late,
        distinct,
        subst (λ z. IsRead z address key (group_of key (groups_in cs))) same
            (subst (IsRead e address key) (sym group)
              (get_registered_candidates-IsRead e address key rs registered)),
      )

-- ===== src/McHash/Digest.antt =====
-- The digest of toolkit/primitives/sidechain-mc-hash/src/lib.rs, written and read back.
use iagon_network_explorer_n.Prelude.{
  ◌≡◌, ◌≢◌, ◌↔◌, ap, sym, subst, ◌∙◌, arith, Bytes, bytes_eq, bytes_eq_iff, ok, Bool-cases, inl,
  inr, List, [], ◌∷◌, ◌++◌, length, All,
}
use iagon_network_explorer_n.McHash.{
  DigestItem, pre_runtime, other_item, mc_hash_digest_id, from_mc_block_hash, value_from_digest,
}

-- An item that `value_from_digest` passes over.
abbrev pub IsForeign : DigestItem → Type 0
IsForeign (pre_runtime id payload) = id ≢ mc_hash_digest_id
IsForeign (other_item b) = Unit

-- The first item with the identifier of main chain hashes holds `hash`, of 32 bytes.
pub record IsReference (logs : List DigestItem) (hash : Bytes) : Type 0 where
  pub before : List DigestItem
  pub after : List DigestItem
  pub split : logs ≡ before ++ from_mc_block_hash hash ++ after
  pub foreign : All IsForeign before
  pub size : length hash ≡ 32

value_from_digest-append :
    (before after : List DigestItem) (hash : Bytes)
    → All IsForeign before
    → length hash ≡ 32
    → value_from_digest (before ++ from_mc_block_hash hash ++ after) ≡ ok hash
unfolding value_from_digest from_mc_block_hash
value_from_digest-append [] after hash foreign size =
    ground (arith, bytes_eq_iff mc_hash_digest_id mc_hash_digest_id)
value_from_digest-append (other_item b ∷ before) after hash foreign size =
    value_from_digest-append before after hash foreign.1 size
value_from_digest-append (pre_runtime id payload ∷ before) after hash foreign size = ground (
  arith,
  bytes_eq_iff id mc_hash_digest_id,
  foreign.0,
  value_from_digest-append before after hash foreign.1 size,
)

value_from_digest-IsReference :
    (logs : List DigestItem) (hash : Bytes)
    → value_from_digest logs ≡ ok hash
    → IsReference logs hash
unfolding value_from_digest from_mc_block_hash
value_from_digest-IsReference [] hash h = cc
value_from_digest-IsReference (other_item b ∷ logs) hash h =
    let r = value_from_digest-IsReference logs hash h in
    record {
      before = other_item b ∷ r.before;
      after = r.after;
      split = ap (λ z. other_item b ∷ z) r.split;
      foreign = (tt, r.foreign);
      size = r.size;
    }
value_from_digest-IsReference (pre_runtime id payload ∷ logs) hash h =
    elim (Bool-cases (bytes_eq id mc_hash_digest_id)) [
      | inl same ↦
          let id_eq = (bytes_eq_iff id mc_hash_digest_id).0 same in
          let payload_eq : payload ≡ hash = ground (arith, h, same) in
          let len : length payload ≡ 32 = ground (arith, h, same) in
          record {
            before = [];
            after = logs;
            split = cc (id_eq, payload_eq);
            foreign = tt;
            size = ap length (sym payload_eq) ∙ len;
          }
      | inr other ↦
          let r = value_from_digest-IsReference logs hash (ground (arith, h, other)) in
          record {
            before = pre_runtime id payload ∷ r.before;
            after = r.after;
            split = ap (λ z. pre_runtime id payload ∷ z) r.split;
            foreign = (λ e. ground (arith, bytes_eq_iff id mc_hash_digest_id, e, other), r.foreign);
            size = r.size;
          }
    ]

-- Reading the digest returns a hash exactly when the first item with the identifier b"mcsh" holds
-- it and it has 32 bytes, as the item that `from_mc_block_hash` writes does, whatever the items
-- before, if they have other identifiers, and behind it are.
pub value_from_digest_iff :
    (logs : List DigestItem) (hash : Bytes)
    → (value_from_digest logs ≡ ok hash) ↔ IsReference logs hash
value_from_digest_iff logs hash = (
  value_from_digest-IsReference logs hash,
  λ r.
      subst (λ z. value_from_digest z ≡ ok hash) (sym r.split)
        (value_from_digest-append r.before r.after hash r.foreign r.size),
)

-- ===== src/Session/Disabled.antt =====
-- The disabled validators of toolkit/pallets/partner-chains-session/src/lib.rs.
use iagon_network_explorer_n.Prelude.{
  ℕ, ◌<◌, ◌≡◌, ◌↔◌, refl, arith, true, false, ◌&&◌, ◌||◌, ◌==◌, u32, length, List, [], ◌∷◌, All,
  Bool-cases, if◌then◌else◌, leb, inl, inr, All-imp,
}
use iagon_network_explorer_n.Session.{
  Storage, contains_index, insert_index, disable_index, is_disabled,
}
use iagon_network_explorer_n.Session.Interfaces.{Config}

-- Strictly ascending, as `binary_search` needs it.
abbrev pub IsSorted : List ℕ → Type 0
IsSorted [] = Unit
IsSorted (d ∷ ds) = All (λ e. d < e) ds × IsSorted ds

contains_index-insert_index :
    (ds : List ℕ) (i j : ℕ)
    → contains_index (insert_index ds i) j ≡ ((i == j) || contains_index ds j)
unfolding contains_index insert_index
contains_index-insert_index [] i j = refl
contains_index-insert_index (d ∷ ds) i j = ground (arith, contains_index-insert_index ds i j)

insert_index-All :
    (b i : ℕ) (ds : List ℕ) → b < i → All (λ e. b < e) ds → All (λ e. b < e) (insert_index ds i)
unfolding insert_index
insert_index-All b i [] h all = (h, tt)
insert_index-All b i (d ∷ ds) h all = ground (arith, insert_index-All b i ds h all.1)

insert_index-IsSorted :
    (ds : List ℕ) (i : ℕ) → contains_index ds i ≡ false → IsSorted ds → IsSorted (insert_index ds i)
unfolding contains_index insert_index
insert_index-IsSorted [] i new sorted = (tt, tt)
insert_index-IsSorted (d ∷ ds) i new sorted = ground (
  arith,
  insert_index-IsSorted ds i,
  λ (h : d < i). insert_index-All d i ds h sorted.0,
  λ (h : i < d). All-imp (λ e. d < e) (λ e. i < e) ds (λ e p. omega arith) sorted.0,
)

module _ (c : Config) where
  open c use {ValidatorId, Keys, World, Manager}

  -- In a storage whose disabled validators are sorted, `disable_index` returns true exactly for the
  -- index of a stored validator that is not disabled yet. Afterwards the disabled validators are
  -- still sorted, the index is disabled if the call returned true, every other index is what it
  -- was, and the handler was told exactly if the call returned true.
  pub disable_index_lem :
      (i : ℕ) (s : Storage ValidatorId Keys World Manager)
      → IsSorted s.disabled_validators
      → (((disable_index c i s).0 ≡ true)
          ↔ ((i < u32 (length s.validators)) × (is_disabled c i s ≡ false)))
        × IsSorted (disable_index c i s).1.disabled_validators
        × ((j : ℕ)
            → is_disabled c j (disable_index c i s).1
              ≡ (((disable_index c i s).0 && (i == j)) || is_disabled c j s))
        × ((disable_index c i s).1.world
            ≡ (if (disable_index c i s).0 then c.on_disabled i s.world else s.world))
  unfolding disable_index is_disabled
  disable_index_lem i s sorted =
      let ds = s.disabled_validators in
      elim (Bool-cases (leb (u32 (length s.validators)) i)) [
        | inl out ↦ rw out (ground (arith, out), sorted, λ j. refl, refl)
        | inr within ↦ elim (Bool-cases (contains_index ds i)) [
          | inl already ↦ rw (within, already) (ground (arith, already), sorted, λ j. refl, refl)
          | inr new ↦
              rw (within, new)
                (
                  ground (arith, within, new),
                  insert_index-IsSorted ds i new sorted,
                  λ j. contains_index-insert_index ds i j,
                  refl,
                )
        ]
      ]

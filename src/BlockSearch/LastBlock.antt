-- ===== src/BlockSearch/LastBlock.antt =====
-- What impl_find_block.rs of toolkit/primitives/sidechain-block-search/src finds with the comparison
-- `LastBlockInEpoch` of impl_compare_strategy.rs.
use Prim.Native.Nat.Ordering.{lt, eq, gt}
use iagon_network_explorer_n.Prelude.{
  ℕ, ◌+◌, ◌^◌, ◌≤◌, ◌<◌, ◌≡◌, ◌⊎◌, arith, u32, inl, inr, Option, none, some, ap, Bytes, Result, ok,
  ◌∙◌,
}
use iagon_network_explorer_n.BlockSearch.{
  SidechainInfo, last_if_followed, last_block_in_epoch, find_block_number, find_block,
}
use iagon_network_explorer_n.BlockSearch.Correctness.{IsOrdered, binary_search_by_complete}

-- The blocks up to the best one have epochs, in their order, and there is none behind it.
pub record HasEpochs (info : SidechainInfo) (epoch : ℕ → ℕ) : Type 0 where
  pub known : (n : ℕ) → 0 < n → n ≤ info.best_number → info.get_epoch_of_block n ≡ some (epoch n)
  pub unknown : info.get_epoch_of_block (info.best_number + 1) ≡ none
  pub ordered : (n m : ℕ) → 0 < n → n ≤ m → m ≤ info.best_number → epoch n ≤ epoch m

module _ (info : SidechainInfo) (epoch : ℕ → ℕ) (e last : ℕ) (epochs : HasEpochs info epoch)
    (small : info.best_number + 1 < 2 ^ 31) (pos : 0 < last) (within : last < info.best_number)
    (is_last : epoch last ≡ e) (followed : e < epoch (last + 1)) where
  -- How the blocks compare.
  before_last : (i : ℕ) → 0 < i → i < last → last_block_in_epoch e info i ≡ some lt
  unfolding last_block_in_epoch last_if_followed
  before_last i i_pos below =
      let at = epochs.known i i_pos (omega arith) in
      let next = epochs.known (i + 1) (omega arith) (omega arith) in
      let le = epochs.ordered i last i_pos (omega arith) (omega arith) in
      let next_le = epochs.ordered (i + 1) last (omega arith) (omega arith) (omega arith) in
      let word : u32 (i + 1) ≡ i + 1 = omega arith in
      rw (at, last_block_in_epoch) (ground (arith, word, next))

  at_last : last_block_in_epoch e info last ≡ some eq
  unfolding last_block_in_epoch last_if_followed
  at_last =
      let at = epochs.known last pos (omega arith) in
      let next = epochs.known (last + 1) (omega arith) (omega arith) in
      let word : u32 (last + 1) ≡ last + 1 = omega arith in
      rw (at, last_block_in_epoch) (ground (arith, word, next))

  behind_last : (i : ℕ) → last < i → i ≤ info.best_number → last_block_in_epoch e info i ≡ some gt
  unfolding last_block_in_epoch
  behind_last i above le =
      let at = epochs.known i (omega arith) le in
      let higher = epochs.ordered (last + 1) i (omega arith) (omega arith) le in
      rw (at, last_block_in_epoch) (ground arith)

  not_behind_best : last_block_in_epoch e info (info.best_number + 1) ≡ none
  unfolding last_block_in_epoch
  not_behind_best = rw (epochs.unknown, last_block_in_epoch)

  cases : (i : ℕ) → 0 < i → i ≤ info.best_number → (i < last) ⊎ (i ≡ last) ⊎ (last < i)
  cases i i_pos le = ground arith

  cases_behind :
      (i : ℕ)
      → 0 < i
      → i ≤ info.best_number + 1
      → (i < last) ⊎ (i ≡ last) ⊎ ((last < i) × (i ≤ info.best_number)) ⊎ (i ≡ info.best_number + 1)
  cases_behind i i_pos le = ground arith

  search-IsOrdered : IsOrdered (last_block_in_epoch e info) info.best_number
  search-IsOrdered = record {
    total = λ i i_pos le. elim (cases i i_pos le) [
      | inl below ↦ (lt, before_last i i_pos below)
      | inr (inl same) ↦ (eq, ap (last_block_in_epoch e info) same ∙ at_last)
      | inr (inr above) ↦ (gt, behind_last i above le)
    ];
    not_less = λ i j i_pos i_lt le h k. elim (cases j (omega arith) le) [
      | inl below ↦ cc (before_last i i_pos (omega arith))
      | inr (inl same) ↦ cc (ap (last_block_in_epoch e info) same, at_last)
      | inr (inr above) ↦ cc (behind_last j above le)
    ];
    not_greater = λ i j i_pos i_lt le h k. elim (cases i i_pos (omega arith)) [
      | inl below ↦ cc (before_last i i_pos below)
      | inr (inl same) ↦ cc (ap (last_block_in_epoch e info) same, at_last)
      | inr (inr above) ↦ cc (behind_last j (omega arith) le)
    ];
  }

  only_last :
      (m : ℕ) → 0 < m → m ≤ info.best_number + 1 → last_block_in_epoch e info m ≡ some eq → m ≡ last
  only_last m m_pos le h = elim (cases_behind m m_pos le) [
    | inl below ↦ cc (before_last m m_pos below)
    | inr (inl same) ↦ same
    | inr (inr (inl (above, within))) ↦ cc (behind_last m above within)
    | inr (inr (inr behind)) ↦ cc (ap (last_block_in_epoch e info) behind, not_behind_best)
  ]

  found-last :
      find_block_number (info.best_number + 2) info (last_block_in_epoch e) ≡ some (some last)
  unfolding find_block_number
  found-last =
      let (m, found, low, high, equal) =
        binary_search_by_complete (last_block_in_epoch e info) (info.best_number + 2) 1
          (info.best_number + 1) info.best_number last search-IsOrdered (omega arith) (omega arith)
          (omega arith) (omega arith) (omega arith) (omega arith) (omega arith) at_last in
      let word : u32 (info.best_number + 1) ≡ info.best_number + 1 = omega arith in
      rw word (found ∙ ap (λ z. some (some z)) (only_last m (omega arith) high equal))

  -- On a chain whose blocks have epochs in their order, with a best block below 2 ^ 31 - 1, the
  -- search for the last block of an epoch that a later block has ended returns, with fuel for two
  -- rounds more than there are blocks, the hash that the client has of the last block of the epoch.
  pub find_block-last_block_in_epoch :
      {E : Type 0} (hash : ℕ → Result E (Option Bytes)) (h : Bytes)
      → hash last ≡ ok (some h)
      → find_block (info.best_number + 2) info hash (last_block_in_epoch e) ≡ some (ok h)
  unfolding find_block
  find_block-last_block_in_epoch hash h found = rw (found-last, find_block) (rw found)

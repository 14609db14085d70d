-- ===== src/Selection/Interfaces.antt =====
-- What toolkit/primitives/selection/src uses of rand_chacha and sp_core, with the behaviour that
-- their documentation gives.
use iagon_network_explorer_n.Prelude.{
  ℕ, ◌+◌, ◌*◌, ◌%◌, ◌^◌, ◌<◌, ◌≡◌, Bool, List, [], ◌∷◌, length, All,
}

-- `ChaCha20Rng`: `gen_range(0..n)` draws below `n`.
pub record ChaCha20Rng : Type 1 where
  pub Rng : Type 0
  pub from_seed : List ℕ → Rng
  pub gen_range : ℕ → Rng → ℕ × Rng
  pub gen_range_lt : (n : ℕ) (rng : Rng) → 0 < n → (gen_range n rng).0 < n

-- The number that bytes stand for, the most significant byte first.
abbrev pub big_endian_from : ℕ → List ℕ → ℕ
big_endian_from acc [] = acc
big_endian_from acc (b ∷ bytes) = big_endian_from (acc * 256 + b) bytes

abbrev pub big_endian : List ℕ → ℕ
big_endian bytes = big_endian_from 0 bytes

-- `U256` read as a number. Its conversions from and to 32 bytes are big-endian.
pub record U256 : Type 1 where
  pub Word : Type 0
  pub value : Word → ℕ
  pub from_bytes : List ℕ → Word
  pub from_u64 : ℕ → Word
  pub overflowing_add : Word → Word → Word × Bool
  pub to_bytes : Word → List ℕ
  pub value-from_bytes :
      (bytes : List ℕ)
      → length bytes ≡ 32
      → All (λ b. b < 256) bytes
      → value (from_bytes bytes) ≡ big_endian bytes
  pub value-from_u64 : (n : ℕ) → n < 2 ^ 64 → value (from_u64 n) ≡ n
  pub value-overflowing_add :
      (a b : Word) → value (overflowing_add a b).0 ≡ (value a + value b) % 2 ^ 256
  pub big_endian-to_bytes : (w : Word) → big_endian (to_bytes w) ≡ value w
  pub length-to_bytes : (w : Word) → length (to_bytes w) ≡ 32

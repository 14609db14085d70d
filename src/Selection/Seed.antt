-- ===== src/Selection/Seed.antt =====
-- The seed of toolkit/primitives/selection/src/impls.rs as a number.
use iagon_network_explorer_n.Prelude.{
  ℕ, zero, suc, ◌+◌, ◌%◌, ◌^◌, ◌<◌, ◌≡◌, ap, refl, arith, List, [], ◌∷◌, length, All,
}
use iagon_network_explorer_n.Selection.{resize, seed_from_nonce_and_sc_epoch}
use iagon_network_explorer_n.Selection.Interfaces.{U256, big_endian}

length-resize : (n : ℕ) (bytes : List ℕ) → length (resize n bytes) ≡ n
unfolding resize
length-resize zero bytes = refl
length-resize (suc n) [] = ap suc (length-resize n [])
length-resize (suc n) (b ∷ bytes) = ap suc (length-resize n bytes)

resize-All :
    (n : ℕ) (bytes : List ℕ) → All (λ b. b < 256) bytes → All (λ b. b < 256) (resize n bytes)
unfolding resize
resize-All zero bytes h = tt
resize-All (suc n) [] h = (omega arith, resize-All n [] tt)
resize-All (suc n) (b ∷ bytes) h = (h.0, resize-All n bytes h.1)

module _ (u : U256) where
  -- The seed is 32 bytes: the nonce, cut or padded to 32 bytes, plus the epoch, modulo 2 ^ 256.
  pub seed_value :
      (nonce : List ℕ) (epoch : ℕ)
      → All (λ b. b < 256) nonce
      → epoch < 2 ^ 64
      → (length (seed_from_nonce_and_sc_epoch u nonce epoch) ≡ 32)
        × (big_endian (seed_from_nonce_and_sc_epoch u nonce epoch)
            ≡ (big_endian (resize 32 nonce) + epoch) % 2 ^ 256)
  unfolding seed_from_nonce_and_sc_epoch
  seed_value nonce epoch bytes fits = (
    u.length-to_bytes _,
    rw (
      u.big_endian-to_bytes,
      u.value-overflowing_add,
      u.value-from_bytes (resize 32 nonce) (length-resize 32 nonce) (resize-All 32 nonce bytes),
      u.value-from_u64 epoch fits,
    ),
  )

  -- Under one nonce two partner chain epochs never have the same seed.
  pub seed-injective :
      (nonce : List ℕ) (e e' : ℕ)
      → All (λ b. b < 256) nonce
      → e < 2 ^ 64
      → e' < 2 ^ 64
      → seed_from_nonce_and_sc_epoch u nonce e ≡ seed_from_nonce_and_sc_epoch u nonce e'
      → e ≡ e'
  seed-injective nonce e e' bytes fits fits' same =
      let v = (seed_value nonce e bytes fits).1 in
      let v' = (seed_value nonce e' bytes fits').1 in let s = ap big_endian same in omega arith

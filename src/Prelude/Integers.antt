-- ===== src/Prelude/Integers.antt =====
-- Signed integers over the native numbers, as far as times before 1970 need them.
use Prim.Native.Nat.{ℕ, suc, ◌-◌}
use mathlib.Core.Bool.{Bool}
use iagon_network_explorer_n.Prelude.Tests.{leb, if◌then◌else◌}

-- `negsuc n` is -(n + 1).
pub data ℤ : Type 0 where
  pos : ℕ → ℤ
  negsuc : ℕ → ℤ

-- a - b, as an integer.
abbrev pub sub_ℕ : ℕ → ℕ → ℤ
sub_ℕ a b = if leb b a then pos (a - b) else negsuc (b - a - 1)

-- a ≤ b and b ≤ a, for an integer `a` and a number `b`
abbrev pub leb_ℤℕ : ℤ → ℕ → Bool
leb_ℤℕ (pos a) b = leb a b
leb_ℤℕ (negsuc a) b = leb 0 b

abbrev pub leb_ℕℤ : ℕ → ℤ → Bool
leb_ℕℤ b (pos a) = leb b a
leb_ℕℤ b (negsuc a) = leb (suc b) 0

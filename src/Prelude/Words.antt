-- ===== src/Prelude/Words.antt =====
-- Machine words as native numbers. `+` and `*` wrap, as they do in the release and production
-- profiles of the workspace, which do not switch overflow checks on.
use Prim.Native.Nat.{ℕ, ◌+◌, ◌-◌, ◌%◌, ◌^◌, min}
use iagon_network_explorer_n.Prelude.Tests.{ltb, if◌then◌else◌}
use iagon_network_explorer_n.Prelude.Results.{Result, ok, err}

abbrev pub u16 : ℕ → ℕ
u16 n = n % 2 ^ 16

abbrev pub u32 : ℕ → ℕ
u32 n = n % 2 ^ 32

abbrev pub u64 : ℕ → ℕ
u64 n = n % 2 ^ 64

abbrev pub u128 : ℕ → ℕ
u128 n = n % 2 ^ 128

-- `saturating_add` and `saturating_sub` on u32
abbrev pub saturating_add_u32 : ℕ → ℕ → ℕ
saturating_add_u32 a b = min (a + b) (2 ^ 32 - 1)

abbrev pub saturating_sub : ℕ → ℕ → ℕ
saturating_sub a b = a - b

-- `u32::try_from(n)`, with the error to report
abbrev pub try_u32 {ℓ} : {E : Type ℓ} → ℕ → E → Result E ℕ
try_u32 n e = if ltb n (2 ^ 32) then ok n else err e

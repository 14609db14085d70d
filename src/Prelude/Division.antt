-- ===== src/Prelude/Division.antt =====
-- Division by a variable, in the form that linear arithmetic reads.
use Prim.Native.Nat.{ℕ, ◌+◌, ◌*◌, ◌/◌, ◌≤◌, ◌<◌}
use mathlib.Core.Path.{◌≡◌}
use native.Mathlib.Omega.{arith}

-- The quotient of `a` by `d` is the number of whole times that `d` fits.
pub div_bounds : (a d : ℕ) → 0 < d → ((a / d) * d ≤ a) × (a < (a / d + 1) * d)
div_bounds a d h = (omega arith, omega arith)

pub div_unique : (a d q : ℕ) → q * d ≤ a → a < (q + 1) * d → a / d ≡ q
div_unique a d q lo hi = grind arith

pub div-mul_add : (q d r : ℕ) → r < d → (q * d + r) / d ≡ q
div-mul_add q d r h = div_unique (q * d + r) d q (omega arith) (omega arith)

pub div-mul : (q d : ℕ) → 0 < d → (q * d) / d ≡ q
div-mul q d h = div_unique (q * d) d q (omega arith) (omega arith)

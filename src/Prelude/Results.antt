-- ===== src/Prelude/Results.antt =====
-- Rust's `Result`, with a third outcome for a panic: an `expect` or an `assert` that fails, a
-- division by zero, an empty sampling range. A panic passes through every caller.
use Prim.Native.Nat.{ℕ, ◌-◌, ◌/◌}
use mathlib.Core.Path.{◌≡◌, refl}
use mathlib.Core.Logic.{◌↔◌}
use mathlib.Core.Bool.{Bool, true, false}
use mathlib.Core.Option.{Option, none, some}
use iagon_network_explorer_n.Prelude.Tests.{ltb, ◌==◌, if◌then◌else◌}

pub data Result {ℓ κ} (E : Type ℓ) (A : Type κ) : Type (ℓ ⊔ κ) where
  ok : A → Result E A
  err : E → Result E A
  panic : Result E A

-- A function that returns a plain value, or panics.
abbrev pub Exec {ℓ} : Type ℓ → Type ℓ
Exec A = Result {0, ℓ} ⊥ A

infixl 5 ◌>>=◌ ◌>>◌
abbrev pub ◌>>=◌ {ℓ κ μ} :
    {E : Type ℓ} {A : Type κ} {B : Type μ} → Result E A → (A → Result E B) → Result E B
panic >>= next = panic
err e >>= next = err e
ok a >>= next = next a

abbrev pub ◌>>◌ {ℓ κ} : {E : Type ℓ} {B : Type κ} → Result E (Unit {0}) → Result E B → Result E B
m >> k = m >>= λ _. k

-- `unwrap_or`
abbrev pub unwrap_or {ℓ} : {A : Type ℓ} → Option A → A → A
unwrap_or none a = a
unwrap_or (some a') a = a'

module _ {ℓ κ} {E : Type ℓ} {A : Type κ} where
  -- `ok_or`
  abbrev pub ok_or : Option A → E → Result E A
  ok_or none e = err e
  ok_or (some a) e = ok a

  -- `map_err`
  abbrev pub map_err {μ} : {F : Type μ} → (E → F) → Result E A → Result F A
  map_err f (ok a) = ok a
  map_err f (err e) = err (f e)
  map_err f panic = panic

  -- `Option::expect`
  abbrev pub expect : Option A → Result E A
  expect none = panic
  expect (some a) = ok a

module _ {ℓ} {E : Type ℓ} where
  -- `ensure!` and a guarded early return
  abbrev pub ensure : Bool → E → Result E (Unit {0})
  ensure true e = ok tt
  ensure false e = err e

  -- `checked_sub(..).ok_or(e)`
  abbrev pub checked_sub : ℕ → ℕ → E → Result E ℕ
  checked_sub a b e = if ltb a b then err e else ok (a - b)

  -- `/` on machine integers panics at a zero divisor.
  abbrev pub checked_div : ℕ → ℕ → Result E ℕ
  checked_div a b = if b == 0 then panic else ok (a / b)

-- Inversion of a successful bind.
pub >>=-eq-ok {ℓ κ μ} :
    {E : Type ℓ} {A : Type κ} {B : Type μ} (r : Result E A) (next : A → Result E B) {v : B}
    → (r >>= next) ≡ ok v
    → (x : A) × (r ≡ ok x) × (next x ≡ ok v)
>>=-eq-ok panic next h = cc
>>=-eq-ok (err e) next h = cc
>>=-eq-ok (ok x) next h = (x, refl, h)

-- Binds of one computation agree where what follows agrees on its result.
pub >>=-cong {ℓ κ μ} :
    {E : Type ℓ} {A : Type κ} {B : Type μ} (m : Result E A) (f g : A → Result E B)
    → ((a : A) → m ≡ ok a → f a ≡ g a)
    → (m >>= f) ≡ (m >>= g)
>>=-cong (ok a) f g h = h a refl
>>=-cong (err e) f g h = refl
>>=-cong panic f g h = refl

-- A computation has one result.
pub ok_unique {ℓ κ} :
    {E : Type ℓ} {A : Type κ} (m : Result E A) {a b : A} → m ≡ ok a → m ≡ ok b → a ≡ b
ok_unique m p q = cc

pub some_inj {ℓ} : {A : Type ℓ} {a b : A} → some a ≡ some b → a ≡ b
some_inj h = cc

pub ok_inj {ℓ κ} : {E : Type ℓ} {A : Type κ} {a b : A} → ◌≡◌ {A = Result E A} (ok a) (ok b) → a ≡ b
ok_inj h = cc

pub ok_or-eq-ok {ℓ κ} :
    {E : Type ℓ} {A : Type κ} (o : Option A) (e : E) (a : A) → (ok_or o e ≡ ok a) ↔ (o ≡ some a)
ok_or-eq-ok none e a = (λ h. cc, λ h. cc)
ok_or-eq-ok (some b) e a = (λ h. cc, λ h. cc)

pub map_err-eq-ok {ℓ κ μ} :
    {E : Type ℓ} {F : Type μ} {A : Type κ} (f : E → F) (m : Result E A) (a : A)
    → (map_err f m ≡ ok a) ↔ (m ≡ ok a)
map_err-eq-ok f (ok b) a = (λ h. cc, λ h. cc)
map_err-eq-ok f (err e) a = (λ h. cc, λ h. cc)
map_err-eq-ok f panic a = (λ h. cc, λ h. cc)

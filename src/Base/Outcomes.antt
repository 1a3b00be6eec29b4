-- ===== src/Base/Outcomes.antt =====
-- How a call of the kernel ends, and the checked arithmetic of its `u64` and `usize`.
-- The tasks of .vscode/tasks.json build the `dev` profile, in which an overflow panics.
use Prim.Native.Nat.{ℕ, ◌+◌, ◌-◌, ◌*◌, ◌<◌, ◌^◌}
use mathlib.Core.Path.{◌≡◌, refl}
use mathlib.Core.Bool.{Bool, true, false}
use mathlib.Core.Option.{Option, none, some}
use native.Mathlib.Omega.{arith}
use miniature.Base.Tests.{ltb, leb, if◌then◌else◌}

-- `panic` is any panic; `spins` means that the fuel of a loop ran out.
pub data Outcome {ℓ} (A : Type ℓ) : Type ℓ where
  done : A → Outcome A
  panic : Outcome A
  spins : Outcome A

infixl 5 ◌>>=◌ ◌>>◌
abbrev pub ◌>>=◌ {ℓ κ} : {A : Type ℓ} {B : Type κ} → Outcome A → (A → Outcome B) → Outcome B
done a >>= f = f a
panic >>= f = panic
spins >>= f = spins

abbrev pub ◌>>◌ {ℓ} : {B : Type ℓ} → Outcome (Unit {0}) → Outcome B → Outcome B
m >> k = m >>= λ _. k

-- `assert!`, and the bounds check of an index.
abbrev pub assert : Bool → Outcome (Unit {0})
assert true = done tt
assert false = panic

-- `Option::or_panic` and `expect`
abbrev pub or_panic {ℓ} : {A : Type ℓ} → Option A → Outcome A
or_panic none = panic
or_panic (some a) = done a

abbrev pub word : ℕ
word = 2 ^ 64

abbrev pub add64 : ℕ → ℕ → Outcome ℕ
add64 a b = if ltb (a + b) word then done (a + b) else panic

abbrev pub sub64 : ℕ → ℕ → Outcome ℕ
sub64 a b = if leb b a then done (a - b) else panic

abbrev pub mul64 : ℕ → ℕ → Outcome ℕ
mul64 a b = if ltb (a * b) word then done (a * b) else panic

-- Inversion of a bind that is done.
pub >>=-eq-done {ℓ κ} :
    {A : Type ℓ} {B : Type κ} (m : Outcome A) (f : A → Outcome B) {b : B}
    → (m >>= f) ≡ done b
    → (a : A) × (m ≡ done a) × (f a ≡ done b)
>>=-eq-done (done a) f h = (a, refl, h)
>>=-eq-done panic f h = cc
>>=-eq-done spins f h = cc

pub add64-done : (a b : ℕ) {c : ℕ} → add64 a b ≡ done c → (c ≡ a + b) × (a + b < word)
add64-done a b h = ground arith

pub add64_fits : (a b : ℕ) → a + b < word → add64 a b ≡ done (a + b)
add64_fits a b h = ground arith

pub mul64-done : (a b : ℕ) {c : ℕ} → mul64 a b ≡ done c → (c ≡ a * b) × (a * b < word)
mul64-done a b h = ground arith

pub mul64_fits : (a b : ℕ) → a * b < word → mul64 a b ≡ done (a * b)
mul64_fits a b h = ground arith

pub done-injective {ℓ} : {A : Type ℓ} {a b : A} → done a ≡ done b → a ≡ b
done-injective h = cc

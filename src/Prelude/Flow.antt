-- ===== src/Prelude/Flow.antt =====
-- How a piece of the programs can end, as a monad for `do` blocks.
use Prim.Native.Nat.{ℕ}
use Prim.Native.String.{String}
use mathlib.Core.Path.{◌≡◌, refl}
use mathlib.Core.Bool.{Bool, true, false}

-- `done a`: control goes on, with the value `a`.
-- `exited c m`: `exit(c)` was called, after the last message `m`.
-- `aborted`: an `assert` failed.
-- `out_of_fuel`: a loop of the model used up its bound.
pub data Outcome {ℓ} (A : Type ℓ) : Type ℓ where
  done : A → Outcome A
  exited : ℕ → String → Outcome A
  aborted : Outcome A
  out_of_fuel : Outcome A

infixl 5 ◌>>=◌ ◌>>◌
abbrev pub ◌>>=◌ {ℓ κ} : {A : Type ℓ} {B : Type κ} → Outcome A → (A → Outcome B) → Outcome B
done a >>= f = f a
exited c m >>= f = exited c m
aborted >>= f = aborted
out_of_fuel >>= f = out_of_fuel

abbrev pub ◌>>◌ {ℓ} : {B : Type ℓ} → Outcome (Unit {0}) → Outcome B → Outcome B
m >> k = m >>= λ _. k

-- `assert(b)`
abbrev pub assert : Bool → Outcome (Unit {0})
assert true = done tt
assert false = aborted

-- A check that logs `m` and exits with status 1 unless `b` holds.
abbrev pub require : Bool → String → Outcome (Unit {0})
require true m = done tt
require false m = exited 1 m

-- Inversion of a bind that goes on.
pub >>=-eq-done {ℓ κ} :
    {A : Type ℓ} {B : Type κ} (m : Outcome A) (f : A → Outcome B) {b : B}
    → (m >>= f) ≡ done b
    → (a : A) × (m ≡ done a) × (f a ≡ done b)
>>=-eq-done (done a) f h = (a, refl, h)
>>=-eq-done (exited c m) f h = cc
>>=-eq-done aborted f h = cc
>>=-eq-done out_of_fuel f h = cc

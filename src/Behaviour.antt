-- ===== src/Behaviour.antt =====
-- How a process of the programs behaves: it makes calls of the system, and what it does next depends on the reply.
-- The calls and their replies are parameters.
pub mod Protocol
pub mod State
pub mod Keeps
use vmnet_helper.Prelude.{ℕ}

-- `ended`: the process has called `exit` with this status, and its handlers have run.
pub data Behaviour {ℓ} (C : Type 0) (R : C → Type 0) (A : Type ℓ) : Type ℓ where
  returns : A → Behaviour C R A
  ended : ℕ → Behaviour C R A
  aborted : Behaviour C R A
  out_of_fuel : Behaviour C R A
  call : (c : C) → (R c → Behaviour C R A) → Behaviour C R A

infixl 5 ◌>>=◌
abbrev pub ◌>>=◌ {ℓ κ} :
    {C : Type 0} {R : C → Type 0} {A : Type ℓ} {B : Type κ}
    → Behaviour C R A
    → (A → Behaviour C R B)
    → Behaviour C R B
returns a >>= f = f a
ended n >>= f = ended n
aborted >>= f = aborted
out_of_fuel >>= f = out_of_fuel
call c k >>= f = call c (λ r. k r >>= f)

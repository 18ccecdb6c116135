-- ===== src/Behaviour/State.antt =====
-- A behaviour that reads and writes the global variables `G` of its program.
use vmnet_helper.Behaviour
use vmnet_helper.Behaviour.{Behaviour, returns, call}

-- What such a behaviour is: it starts with the globals, and returns them with its result.
abbrev pub Stateful : (C : Type 0) → (C → Type 0) → Type 0 → Type 0 → Type 0
Stateful C R G A = G → Behaviour C R (A × G)

module _ {C : Type 0} {R : C → Type 0} {G : Type 0} where
  unfoldable pub pure : {A : Type 0} → A → G → Behaviour C R (A × G)
  pure a g = returns (a, g)

  infixl 5 ◌>>=◌ ◌>>◌
  unfoldable pub ◌>>=◌ :
      {A B : Type 0}
      → (G → Behaviour C R (A × G))
      → (A → G → Behaviour C R (B × G))
      → G
      → Behaviour C R (B × G)
  ◌>>=◌ m f g = Behaviour.◌>>=◌ (m g) (λ r. f r.0 r.1)

  unfoldable pub ◌>>◌ :
      {B : Type 0}
      → (G → Behaviour C R (Unit {0} × G))
      → (G → Behaviour C R (B × G))
      → G
      → Behaviour C R (B × G)
  m >> k = m >>= λ _. k

  unfoldable pub gets : {A : Type 0} → (G → A) → G → Behaviour C R (A × G)
  gets f g = returns (f g, g)

  unfoldable pub modify : (G → G) → G → Behaviour C R (Unit {0} × G)
  modify f g = returns (tt, f g)

  unfoldable pub ask : (c : C) → G → Behaviour C R (R c × G)
  ask c g = call c (λ r. returns (r, g))

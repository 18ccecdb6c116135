-- ===== src/Behaviour/Protocol.antt =====
-- What holds of every run of a program: a state that follows its calls, the replies that the system can give in
-- a state, and the calls that are allowed in it.
use vmnet_helper.Behaviour.{Behaviour, returns, ended, aborted, out_of_fuel, call, ◌>>=◌}

-- `Final` is what is asked of the state when the process has ended.
pub record ProtocolOf (C : Type 0) (R : C → Type 0) : Type 1 where
  pub State : Type 0
  pub Allowed : State → C → Type 0
  pub Possible : (s : State) (c : C) → R c → Type 0
  pub next : (s : State) (c : C) → R c → State
  pub Final : State → Type 0

module _ {C : Type 0} {R : C → Type 0} (t : ProtocolOf C R) where
  open t use {State, Allowed, Possible, next, Final}

  -- Every call of `p` is allowed, whatever the replies, no assertion fails, `Q` holds when it returns, and
  -- `Final` when it ends.
  abbrev pub Obeys : {A : Type 0} → (State → A → Type 0) → State → Behaviour C R A → Type 0
  Obeys Q s (returns a) = Q s a
  Obeys Q s (ended n) = Final s
  Obeys Q s aborted = ⊥
  Obeys Q s out_of_fuel = Unit
  Obeys Q s (call c k) = Allowed s c × ((r : R c) → Possible s c r → Obeys Q (next s c r) (k r))

  pub Obeys->>= :
      {A B : Type 0} (Q : State → A → Type 0) (Q' : State → B → Type 0) (s : State)
      (p : Behaviour C R A) (f : A → Behaviour C R B)
      → Obeys Q s p
      → ((s' : State) (a : A) → Q s' a → Obeys Q' s' (f a))
      → Obeys Q' s (p >>= f)
  Obeys->>= Q Q' s (returns a) f h k = k s a h
  Obeys->>= Q Q' s (ended n) f h k = h
  Obeys->>= Q Q' s aborted f h k = h
  Obeys->>= Q Q' s out_of_fuel f h k = tt
  Obeys->>= Q Q' s (call c g) f h k =
      (h.0, λ r possible. Obeys->>= Q Q' (next s c r) (g r) f (h.1 r possible) k)

  pub Obeys-map :
      {A : Type 0} (Q Q' : State → A → Type 0) (s : State) (p : Behaviour C R A)
      → Obeys Q s p
      → ((s' : State) (a : A) → Q s' a → Q' s' a)
      → Obeys Q' s p
  Obeys-map Q Q' s (returns a) h k = k s a h
  Obeys-map Q Q' s (ended n) h k = h
  Obeys-map Q Q' s aborted h k = h
  Obeys-map Q Q' s out_of_fuel h k = tt
  Obeys-map Q Q' s (call c g) h k =
      (h.0, λ r possible. Obeys-map Q Q' (next s c r) (g r) (h.1 r possible) k)

  -- `p` ends or returns, whatever the system replies.
  abbrev pub Settles : {A : Type 0} → State → Behaviour C R A → Type 0
  Settles s (returns a) = Unit
  Settles s (ended n) = Unit
  Settles s aborted = Unit
  Settles s out_of_fuel = ⊥
  Settles s (call c k) = (r : R c) → Possible s c r → Settles (next s c r) (k r)

  pub Settles->>= :
      {A B : Type 0} (s : State) (p : Behaviour C R A) (f : A → Behaviour C R B)
      → Settles s p
      → ((s' : State) (a : A) → Settles s' (f a))
      → Settles s (p >>= f)
  Settles->>= s (returns a) f h k = k s a
  Settles->>= s (ended n) f h k = tt
  Settles->>= s aborted f h k = tt
  Settles->>= s out_of_fuel f h k = absurd h
  Settles->>= s (call c g) f h k = λ r possible. Settles->>= (next s c r) (g r) f (h r possible) k

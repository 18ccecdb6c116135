-- ===== src/Behaviour/Keeps.antt =====
-- Rules for what a behaviour with global variables does under a protocol: `Keeps t P m Q` says that from a state and
-- globals with `P`, every call of `m` is allowed, and `Q` holds when it returns.
use vmnet_helper.Prelude.{◌≡◌, refl}
use vmnet_helper.Behaviour.State.{Stateful, pure, ◌>>=◌, ◌>>◌, gets, modify, ask}
use vmnet_helper.Behaviour.Protocol.{ProtocolOf, Obeys, Obeys->>=, Obeys-map}

abbrev pub AssertionOn : (G : Type 0) {C : Type 0} {R : C → Type 0} → ProtocolOf C R → Type 1
AssertionOn G t = t.State → G → Type 0

pub record Keeps {C : Type 0} {R : C → Type 0} {G : Type 0} (t : ProtocolOf C R) {A : Type 0}
    (P : AssertionOn G t) (m : Stateful C R G A) (Q : AssertionOn G t) : Type 0 where
  pub obeys : (s : t.State) (g : G) → P s g → Obeys t (λ s' r. Q s' r.1) s (m g)

module _ {C : Type 0} {Reply : C → Type 0} {G : Type 0} {t : ProtocolOf C Reply} where
  open t use {State, Allowed, Possible, next}

  pub Keeps->>= :
      {A B : Type 0} {P Q R : AssertionOn G t} {m : Stateful C Reply G A}
      {f : A → Stateful C Reply G B}
      → Keeps t P m Q
      → ((a : A) → Keeps t Q (f a) R)
      → Keeps t P (m >>= f) R
  unfolding ◌>>=◌
  Keeps->>= {Q} {R} {m} {f} first then_each = record {
    obeys = λ s g p.
        Obeys->>= t (λ s' r. Q s' r.1) (λ s' r. R s' r.1) s (m g) (λ r. f r.0 r.1)
          (first.obeys s g p) (λ s' r q. (then_each r.0).obeys s' r.1 q);
  }

  pub Keeps->> :
      {B : Type 0} {P Q R : AssertionOn G t} {m : Stateful C Reply G (Unit {0})}
      {k : Stateful C Reply G B}
      → Keeps t P m Q
      → Keeps t Q k R
      → Keeps t P (m >> k) R
  unfolding ◌>>◌
  Keeps->> first second = Keeps->>= first (λ _. second)

  pub pure-Keeps : {A : Type 0} {P : AssertionOn G t} (a : A) → Keeps t P (pure a) P
  unfolding pure
  pure-Keeps a = record { obeys = λ s g p. p }

  -- The rest may rely on what was read.
  pub gets-Keeps :
      {A B : Type 0} {P Q : AssertionOn G t} {f : G → A} {k : A → Stateful C Reply G B}
      → ((a : A) → Keeps t (λ s g. P s g × (f g ≡ a)) (k a) Q)
      → Keeps t P (gets f >>= k) Q
  unfolding ◌>>=◌ gets
  gets-Keeps {f} rest = record { obeys = λ s g p. (rest (f g)).obeys s g (p, refl) }

  pub modify-Keeps :
      {P Q : AssertionOn G t} (f : G → G)
      → ((s : State) (g : G) → P s g → Q s (f g))
      → Keeps t P (modify f) Q
  unfolding modify
  modify-Keeps f h = record { obeys = h }

  -- Strengthening what is assumed.
  pub Keeps-of :
      {A : Type 0} {P P' Q : AssertionOn G t} {m : Stateful C Reply G A}
      → ((s : State) (g : G) → P' s g → P s g)
      → Keeps t P m Q
      → Keeps t P' m Q
  Keeps-of h k = record { obeys = λ s g p. k.obeys s g (h s g p) }

  -- Weakening what holds after.
  pub Keeps-to :
      {A : Type 0} {P Q Q' : AssertionOn G t} {m : Stateful C Reply G A}
      → ((s : State) (g : G) → Q s g → Q' s g)
      → Keeps t P m Q
      → Keeps t P m Q'
  unfolding ◌>>=◌ pure
  Keeps-to {Q} {Q'} {m} h k = record {
    obeys = λ s g p. Obeys-map t _ _ s (m g) (k.obeys s g p) (λ s' r. h s' r.1);
  }

  -- A fact that follows from what is assumed.
  pub Keeps-when :
      {X A : Type 0} {P Q : AssertionOn G t} {m : Stateful C Reply G A}
      → ((s : State) (g : G) → P s g → X)
      → (X → Keeps t P m Q)
      → Keeps t P m Q
  Keeps-when fact k = record { obeys = λ s g p. (k (fact s g p)).obeys s g p }

  -- A call that is allowed and does not change what holds.
  pub ask-Keeps :
      {P Q : AssertionOn G t} (c : C)
      → ((s : State) (g : G) → P s g → Allowed s c)
      → ((s : State) (g : G) (r : Reply c) → P s g → Possible s c r → Q (next s c r) g)
      → Keeps t P (ask c) Q
  unfolding ask
  ask-Keeps c allowed after = record {
    obeys = λ s g p. (allowed s g p, λ r possible. after s g r p possible);
  }

  -- What holds may depend on the reply.
  pub ask-then-Keeps :
      {B : Type 0} {P Q : AssertionOn G t} (c : C) (R : Reply c → AssertionOn G t)
      {k : Reply c → Stateful C Reply G B}
      → ((s : State) (g : G) → P s g → Allowed s c)
      → ((s : State) (g : G) (r : Reply c) → P s g → Possible s c r → R r (next s c r) g)
      → ((r : Reply c) → Keeps t (R r) (k r) Q)
      → Keeps t P (ask c >>= k) Q
  unfolding ◌>>=◌ ask
  ask-then-Keeps c R allowed after rest = record {
    obeys = λ s g p.
        (allowed s g p, λ r possible. (rest r).obeys (next s c r) g (after s g r p possible));
  }

-- ===== src/Runner/Main/Discipline.antt =====
-- Rules for what the functions of programs/run.c do under a protocol, when they may end the process.
use vmnet_helper.Prelude.{ℕ, ◌≡◌, refl, Option, none, some, Outcome, done, exited}
use vmnet_helper.System.{Sys, ret, fail}
use vmnet_helper.Behaviour.{ended}
use vmnet_helper.Behaviour.Protocol.{ProtocolOf, Obeys, Obeys->>=}
use vmnet_helper.Behaviour.Keeps.{AssertionOn}
pub use vmnet_helper.Behaviour.Keeps.{
  Keeps, Keeps->>=, Keeps->>, pure-Keeps, gets-Keeps, modify-Keeps, Keeps-of, Keeps-to, Keeps-when,
  ask-Keeps, ask-then-Keeps,
}
use vmnet_helper.Runner.Calls.{SysCall, Call, sys, Reply}
use vmnet_helper.Runner.Globals.{
  Globals, pure, ◌>>=◌, ask, run_handlers, exit, or_exit, must, or_exit_none, lift,
}

abbrev pub Protocol : Type 1
Protocol = ProtocolOf Call Reply

module _ (t : Protocol) (fuel : ℕ) where
  open t use {State, Final}

  abbrev pub Assertion : Type 1
  Assertion = AssertionOn Globals t

  -- The handlers can run wherever `P` holds.
  abbrev pub CanExit : Assertion → Type 0
  CanExit P =
      (s : State) (g : Globals)
      → P s g
      → Obeys t (λ s' r. Final s') s (run_handlers fuel g.registered g)

  or_exit-Obeys :
      (Q F : Assertion) (s : State) (g : Globals) (r : Sys)
      → CanExit F
      → ((n : ℕ) → r ≡ ret n → Q s g)
      → ((e : ℕ) → r ≡ fail e → F s g)
      → Obeys t (λ s' a. Q s' a.1) s (or_exit fuel r g)
  unfolding or_exit pure exit
  or_exit-Obeys Q F s g (ret n) can works fails = works n refl
  or_exit-Obeys Q F s g (fail e) can works fails =
      Obeys->>= t (λ s' r. Final s') (λ s' r. Q s' r.1) s (run_handlers fuel g.registered g)
        (λ r. ended 1) (can s g (fails e refl)) (λ s' r final. final)

-- No assertion has failed.
abbrev pub Unaborted : {A : Type 0} → Outcome A → Type 0
Unaborted (done a) = Unit
Unaborted (exited code m) = Unit
Unaborted Outcome.aborted = ⊥
Unaborted Outcome.out_of_fuel = Unit

module _ {t : Protocol} (fuel : ℕ) where
  open t use {State, Allowed, Possible, next, Final}

  pub exit-Keeps :
      {A : Type 0} {P Q : Assertion t fuel} (code : ℕ)
      → CanExit t fuel P
      → Keeps t P (exit fuel {A = A} code) Q
  unfolding exit
  exit-Keeps {Q} code can = record {
    obeys = λ s g p.
        Obeys->>= t (λ s' r. Final s') (λ s' r. Q s' r.1) s (run_handlers fuel g.registered g)
          (λ r. ended code) (can s g p) (λ s' r final. final);
  }

  pub must-Keeps :
      {P Q : Assertion t fuel} (F : Assertion t fuel) (c : SysCall)
      → ((s : State) (g : Globals) → P s g → Allowed s (sys c))
      → ((s : State) (g : Globals) (n : ℕ) → P s g → Q (next s (sys c) (ret n)) g)
      → ((s : State) (g : Globals) (e : ℕ) → P s g → F (next s (sys c) (fail e)) g)
      → CanExit t fuel F
      → Keeps t P (must fuel c) Q
  unfolding must ◌>>=◌ ask
  must-Keeps {P} {Q} F c allowed works fails can = record {
    obeys = λ s g p. (
      allowed s g p,
      λ r possible.
          or_exit-Obeys t fuel Q F (next s (sys c) r) g r can (λ n e. rw e (works s g n p))
            (λ n e. rw e (fails s g n p)),
    );
  }

  pub or_exit_none-Keeps :
      {A : Type 0} {P : Assertion t fuel} (a : Option A)
      → CanExit t fuel P
      → Keeps t P (or_exit_none fuel a) P
  unfolding or_exit_none
  or_exit_none-Keeps none can = exit-Keeps 1 can
  or_exit_none-Keeps (some a) can = pure-Keeps a

  pub lift-Keeps :
      {A : Type 0} {P : Assertion t fuel} (m : Outcome A)
      → Unaborted m
      → CanExit t fuel P
      → Keeps t P (lift fuel m) P
  unfolding lift
  lift-Keeps (done a) _ can = pure-Keeps a
  lift-Keeps (exited code m) _ can = exit-Keeps code can
  lift-Keeps Outcome.aborted u can = absurd u
  lift-Keeps Outcome.out_of_fuel _ can = record { obeys = λ s g p. tt }

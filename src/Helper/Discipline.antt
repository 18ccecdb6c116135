-- ===== src/Helper/Discipline.antt =====
-- Rules for what the functions of programs/helper.c do under a protocol, when they may end the process.
use vmnet_helper.Prelude.{
  ℕ, ◌≡◌, refl, Bool, true, false, List, [], ◌∷◌, Option, none, some, String,
}
use vmnet_helper.System.{Sys, ret, fail}
use vmnet_helper.Process.{
  Handler, stop_host_interface, remove_socket_lockfile, remove_socket_silently, remove,
  stop_interface, SysCall, sys, ended,
}
use vmnet_helper.Process.Protocol.{Protocol, Obeys, Obeys->>=}
use vmnet_helper.Behaviour.Keeps.{AssertionOn}
pub use vmnet_helper.Behaviour.Keeps.{
  Keeps, Keeps->>=, Keeps->>, pure-Keeps, gets-Keeps, modify-Keeps, Keeps-of, Keeps-to, Keeps-when,
  ask-Keeps, ask-then-Keeps,
}
use vmnet_helper.Helper.Globals.{
  Globals, M, pure, stop_interface_if, remove_lockfile, remove_socket, run_handler, run_handlers,
  ◌>>=◌, exit, ask, or_exit, checked, exit_unless, must, when,
}

module _ (t : Protocol) where
  open t use {State, Allowed, Possible, next, Final}

  abbrev pub Assertion : Type 1
  Assertion = AssertionOn Globals t

  -- The handlers can run wherever `P` holds.
  abbrev pub CanExit : Assertion → Type 0
  CanExit P =
      (s : State) (g : Globals) → P s g → Obeys t (λ s' g'. Final s') s (run_handlers g.handlers g)

-- Under a protocol that lets every process remove files and stop its interface, the handlers can always run.
module _ (t : Protocol) (removes : (s : t.State) (p : String) → t.Allowed s (sys (remove p)))
    (stops : (s : t.State) → t.Allowed s stop_interface) (ends : (s : t.State) → t.Final s) where
  handler-Obeys :
      (h : Handler) (s : t.State) (g : Globals) → Obeys t (λ s' g'. Unit) s (run_handler h g)
  unfolding run_handler
  handler-Obeys stop_host_interface s g = stopping g.interface
    where
      stopping : (b : Bool) → Obeys t (λ s' g'. Unit) s (stop_interface_if b g)
      stopping true = (stops s, λ r _. tt)
      stopping false = tt
  handler-Obeys remove_socket_lockfile s g = removing g.socket_lockfile
    where
      removing : (o : Option String) → Obeys t (λ s' g'. Unit) s (remove_lockfile o g)
      removing none = tt
      removing (some p) = (removes s p, λ r _. tt)
  handler-Obeys remove_socket_silently s g = removing g.options.socket
    where
      removing : (o : Option String) → Obeys t (λ s' g'. Unit) s (remove_socket o g)
      removing none = tt
      removing (some p) = (removes s p, λ r _. tt)

  pub handlers-Obeys :
      (hs : List Handler) (s : t.State) (g : Globals)
      → Obeys t (λ s' g'. t.Final s') s (run_handlers hs g)
  unfolding run_handlers
  handlers-Obeys [] s g = ends s
  handlers-Obeys (h ∷ hs) s g =
      Obeys->>= t (λ s' g'. Unit) (λ s' g'. t.Final s') s (run_handler h g) (run_handlers hs)
        (handler-Obeys h s g) (λ s' g' _. handlers-Obeys hs s' g')

module _ {t : Protocol} where
  open t use {State, Allowed, Possible, next, Final}

  pub exit-Keeps :
      {A : Type 0} {P Q : Assertion t} (code : ℕ) → CanExit t P → Keeps t P (exit {A = A} code) Q
  unfolding exit
  exit-Keeps {Q} code can = record {
    obeys = λ s g p.
        Obeys->>= t (λ s' g'. Final s') (λ s' r. Q s' r.1) s (run_handlers g.handlers g)
          (λ g'. ended code) (can s g p) (λ s' g' final. final);
  }

  pub exit_unless-Keeps : {P : Assertion t} (b : Bool) → CanExit t P → Keeps t P (exit_unless b) P
  unfolding exit_unless
  exit_unless-Keeps true can = pure-Keeps tt
  exit_unless-Keeps false can = exit-Keeps 1 can

module _ (t : Protocol) where
  open t use {State}

  or_exit-Obeys :
      (Q F : Assertion t) (s : State) (g : Globals) (r : Sys)
      → CanExit t F
      → ((n : ℕ) → r ≡ ret n → Q s g)
      → ((e : ℕ) → r ≡ fail e → F s g)
      → Obeys t (λ s' a. Q s' a.1) s (or_exit r g)
  unfolding or_exit pure
  or_exit-Obeys Q F s g (ret n) can works fails = works n refl
  or_exit-Obeys Q F s g (fail e) can works fails =
      (exit-Keeps {P = F} {Q = Q} 1 can).obeys s g (fails e refl)

module _ {t : Protocol} where
  open t use {State, Allowed, Possible, next}

  -- A call that ends the process if it fails.
  pub checked-Keeps :
      {P Q : Assertion t} (F : Assertion t) (c : SysCall)
      → ((s : State) (g : Globals) → P s g → Allowed s (sys c))
      → ((s : State) (g : Globals) (n : ℕ) → P s g → Q (next s (sys c) (ret n)) g)
      → ((s : State) (g : Globals) (e : ℕ) → P s g → F (next s (sys c) (fail e)) g)
      → CanExit t F
      → Keeps t P (checked c) Q
  unfolding checked ◌>>=◌ ask
  checked-Keeps {P} {Q} F c allowed works fails can = record {
    obeys = λ s g p. (
      allowed s g p,
      λ r possible.
          or_exit-Obeys t Q F (next s (sys c) r) g r can (λ n e. rw e (works s g n p))
            (λ n e. rw e (fails s g n p)),
    );
  }

  pub must-Keeps :
      {P Q : Assertion t} (F : Assertion t) (c : SysCall)
      → ((s : State) (g : Globals) → P s g → Allowed s (sys c))
      → ((s : State) (g : Globals) (n : ℕ) → P s g → Q (next s (sys c) (ret n)) g)
      → ((s : State) (g : Globals) (e : ℕ) → P s g → F (next s (sys c) (fail e)) g)
      → CanExit t F
      → Keeps t P (must c) Q
  unfolding must
  must-Keeps F c allowed works fails can =
      Keeps->>= (checked-Keeps F c allowed works fails can) (λ n. pure-Keeps tt)

  pub when-Keeps :
      {P : Assertion t} {m : M (Unit {0})} (b : Bool) → Keeps t P m P → Keeps t P (when b m) P
  unfolding when
  when-Keeps true k = k
  when-Keeps false k = pure-Keeps tt

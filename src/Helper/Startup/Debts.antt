-- ===== src/Helper/Startup/Debts.antt =====
-- What a process of programs/helper.c owes, as a protocol: the lock file and the socket that it has made are to be removed
-- before it ends by `exit`.
pub mod Covers
pub mod Paid
use text.Mathlib.TextEquality.{eq_iff}
use vmnet_helper.Prelude.{
  ◌≡◌, refl, inl, inr, Bool, true, false, List, [], ◌∷◌, Option, none, some, String, str_eq,
  Bool-cases, if◌then◌else◌,
}
use vmnet_helper.System.{Sys, ret, fail}
use vmnet_helper.Process
use vmnet_helper.Process.{
  Program, Handler, stop_host_interface, remove_socket_lockfile, remove_socket_silently, SysCall,
  atexit, open_lock, bind, chmod, remove, Call, sys, Reply,
}
use vmnet_helper.Process.Protocol.{Protocol, Obeys}
use vmnet_helper.Helper.Globals.{
  Globals, stop_interface_if, remove_lockfile, remove_socket, run_handler, run_handlers,
}
use vmnet_helper.Helper.Socket.{lockfile_of}

-- Whether the process has made the file and has not tried to remove it since: the lock file from the `open` that
-- succeeds, the socket from the `bind` that succeeds. After a failure of `atexit`, or of `chmod` for the socket, the file
-- is not owed any more: the code leaves it behind.
pub record Debts : Type 0 where
  pub lockfile : Bool
  pub socket : Bool

abbrev pub nothing_owed : Debts
nothing_owed = record { lockfile = false; socket = false }

abbrev pub unless_same : String → String → Bool → Bool
unless_same p q owed = if str_eq p q then false else owed

still_owed : (b owed : Bool) → (if b then false else owed) ≡ true → (b ≡ false) × (owed ≡ true)
still_owed true owed e = cc
still_owed false owed e = (refl, e)

pub not_owed : (b owed : Bool) → owed ≡ false → (if b then false else owed) ≡ false
not_owed true owed e = refl
not_owed false owed e = e

same_file : (p q : String) (owed : Bool) → p ≡ q → unless_same p q owed ≡ true → ⊥
same_file p q owed e h =
    let (other, still) = still_owed (str_eq p q) owed h in absurd (cc (other, (eq_iff p q).1 e))

module _ (path : String) where
  abbrev pub after_sys : Debts → SysCall → Sys → Debts
  after_sys s (open_lock p) (ret n) = record s { lockfile = true }
  after_sys s (bind fd p) (ret n) = record s { socket = true }
  after_sys s (atexit remove_socket_lockfile) (fail e) = record s { lockfile = false }
  after_sys s (chmod p) (fail e) = record s { socket = false }
  after_sys s (atexit remove_socket_silently) (fail e) = record s { socket = false }
  after_sys s (remove p) r = record {
    lockfile = unless_same p (lockfile_of path) s.lockfile;
    socket = unless_same p path s.socket;
  }
  after_sys s c r = s

  abbrev pub after : Debts → (c : Call) → Reply c → Debts
  after s (sys c) r = after_sys s c r
  after s c r = s

  abbrev pub cleanup : Protocol
  cleanup = record {
    State = Debts;
    Allowed = λ s c. Unit;
    Possible = λ s c r. Unit;
    next = after;
    Final = λ s. (s.lockfile ≡ false) × (s.socket ≡ false);
  }

  abbrev pub removes_lockfile : List Handler → Bool
  removes_lockfile [] = false
  removes_lockfile (remove_socket_lockfile ∷ hs) = true
  removes_lockfile (stop_host_interface ∷ hs) = removes_lockfile hs
  removes_lockfile (remove_socket_silently ∷ hs) = removes_lockfile hs

  abbrev pub removes_socket : List Handler → Bool
  removes_socket [] = false
  removes_socket (remove_socket_silently ∷ hs) = true
  removes_socket (stop_host_interface ∷ hs) = removes_socket hs
  removes_socket (remove_socket_lockfile ∷ hs) = removes_socket hs

  -- The handlers `hs` pay what is owed.
  pub record Covered (s : Debts) (hs : List Handler) (lockfile socket : Option String)
      : Type 0 where
    pub lockfile_known :
        s.lockfile ≡ true → (lockfile ≡ some (lockfile_of path)) × (removes_lockfile hs ≡ true)
    pub socket_known : s.socket ≡ true → (socket ≡ some path) × (removes_socket hs ≡ true)

  paid : (b : Bool) → (b ≡ true → ⊥) → b ≡ false
  paid true h = absurd (h refl)
  paid false h = refl

  abbrev Pays : Debts → List Handler → Globals → Type 0
  Pays s hs g =
      Obeys cleanup (λ s' g'. (s'.lockfile ≡ false) × (s'.socket ≡ false)) s (run_handlers hs g)

  stop-Pays :
      (b : Bool) (s : Debts) (hs : List Handler) (g : Globals)
      → Pays s hs g
      → Obeys cleanup
          (λ s' g'. (s'.lockfile ≡ false) × (s'.socket ≡ false))
          s
          (Process.◌>>=◌ (stop_interface_if b g) (run_handlers hs))
  unfolding stop_interface_if
  stop-Pays true s hs g rest = (tt, λ r _. rest)
  stop-Pays false s hs g rest = rest

  lockfile-Pays :
      (o : Option String) (s : Debts) (hs : List Handler) (g : Globals)
      → (s.lockfile ≡ true → o ≡ some (lockfile_of path))
      → (s.lockfile ≡ false → Pays s hs g)
      → ((p : String)
          → (s.lockfile ≡ true → p ≡ lockfile_of path)
          → Pays (after_sys s (remove p) (ret 0)) hs (record g { socket_lockfile = none }))
      → Obeys cleanup
          (λ s' g'. (s'.lockfile ≡ false) × (s'.socket ≡ false))
          s
          (Process.◌>>=◌ (remove_lockfile o g) (run_handlers hs))
  unfolding remove_lockfile
  lockfile-Pays none s hs g known unowed removed = unowed (paid s.lockfile (λ e. cc (known e)))
  lockfile-Pays (some p) s hs g known unowed removed = (tt, λ r _. removed p (λ e. cc (known e)))

  socket-Pays :
      (o : Option String) (s : Debts) (hs : List Handler) (g : Globals)
      → (s.socket ≡ true → o ≡ some path)
      → (s.socket ≡ false → Pays s hs g)
      → ((p : String)
          → (s.socket ≡ true → p ≡ path)
          → Pays
              (after_sys s (remove p) (ret 0))
              hs
              (record g { options = record (g.options) { socket = none } }))
      → Obeys cleanup
          (λ s' g'. (s'.lockfile ≡ false) × (s'.socket ≡ false))
          s
          (Process.◌>>=◌ (remove_socket o g) (run_handlers hs))
  unfolding remove_socket
  socket-Pays none s hs g known unowed removed = unowed (paid s.socket (λ e. cc (known e)))
  socket-Pays (some p) s hs g known unowed removed = (tt, λ r _. removed p (λ e. cc (known e)))

  cleared : (p q : String) (owed : Bool) → (owed ≡ true → p ≡ q) → unless_same p q owed ≡ true → ⊥
  cleared p q owed same h = same_file p q owed (same (still_owed (str_eq p q) owed h).1) h

  -- Running the handlers pays everything.
  pub Covered-Pays :
      (hs : List Handler) (s : Debts) (g : Globals)
      → Covered s hs g.socket_lockfile g.options.socket
      → Pays s hs g
  unfolding run_handlers run_handler
  Covered-Pays [] s g c = (
    paid s.lockfile (λ e. cc ((c.lockfile_known e).1)),
    paid s.socket (λ e. cc ((c.socket_known e).1)),
  )
  Covered-Pays (stop_host_interface ∷ hs) s g c = stop-Pays g.interface s hs g (
      Covered-Pays hs s g
        (record { lockfile_known = c.lockfile_known; socket_known = c.socket_known }))
  Covered-Pays (remove_socket_lockfile ∷ hs) s g c =
      lockfile-Pays g.socket_lockfile s hs g (λ e. (c.lockfile_known e).0)
        (λ unowed.
          Covered-Pays hs s g (record {
            lockfile_known = λ e. absurd (cc (unowed, e));
            socket_known = c.socket_known;
          }))
        (λ p same. Covered-Pays hs (after_sys s (remove p) (ret 0)) _ (record {
          lockfile_known = λ e. absurd (cleared p (lockfile_of path) s.lockfile same e);
          socket_known = λ e. c.socket_known (still_owed (str_eq p path) s.socket e).1;
        }))
  Covered-Pays (remove_socket_silently ∷ hs) s g c =
      socket-Pays g.options.socket s hs g (λ e. (c.socket_known e).0)
        (λ unowed. Covered-Pays hs s g (record {
          lockfile_known = c.lockfile_known;
          socket_known = λ e. absurd (cc (unowed, e));
        }))
        (λ p same. Covered-Pays hs (after_sys s (remove p) (ret 0)) _ (record {
          lockfile_known =
              λ e. c.lockfile_known (still_owed (str_eq p (lockfile_of path)) s.lockfile e).1;
          socket_known = λ e. absurd (cleared p path s.socket same e);
        }))

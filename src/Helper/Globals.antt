-- ===== src/Helper/Globals.antt =====
-- The global variables of programs/helper.c, its exit handlers, and how its functions run: they read and write
-- the globals, call the system, return, or end the process by `exit`.
use vmnet_helper.Prelude.{
  ℕ, Bool, true, false, List, [], ◌∷◌, Option, none, some, String, if◌then◌else◌,
}
use vmnet_helper.System.{Sys, ret, fail}
use vmnet_helper.Process.{
  Handler, stop_host_interface, remove_socket_lockfile, remove_socket_silently, SysCall, atexit,
  remove, Call, sys, stop_interface, Reply, Program, returns, ended, aborted, call,
}
use vmnet_helper.Process
unfoldable pub use vmnet_helper.Behaviour.State.{pure, ◌>>=◌, ◌>>◌, gets, modify, ask}
use vmnet_helper.Options.{Options}

-- `interface` says that the pointer is not NULL. `handlers` are those registered with `atexit`, the last first.
pub record Globals : Type 0 where
  pub options : Options
  pub kq : Option ℕ
  pub status : ℕ
  pub interface : Bool
  pub max_packet_size : ℕ
  pub socket_lockfile : Option String
  pub handlers : List Handler

unfoldable pub stop_interface_if : Bool → Globals → Program Globals
stop_interface_if true g = call stop_interface (λ status. returns g)
stop_interface_if false g = returns g

-- A warning is logged if a removal fails, whatever `errno` is; the rest is the same.
unfoldable pub remove_lockfile : Option String → Globals → Program Globals
remove_lockfile none g = returns g
remove_lockfile (some path) g =
    call (sys (remove path)) (λ r. returns (record g { socket_lockfile = none }))

unfoldable pub remove_socket : Option String → Globals → Program Globals
remove_socket none g = returns g
remove_socket (some path) g =
    call (sys (remove path))
      (λ r. returns (record g { options = record (g.options) { socket = none } }))

unfoldable pub run_handler : Handler → Globals → Program Globals
unfolding stop_interface_if remove_lockfile remove_socket
run_handler stop_host_interface g = stop_interface_if g.interface g
run_handler remove_socket_lockfile g = remove_lockfile g.socket_lockfile g
run_handler remove_socket_silently g = remove_socket g.options.socket g

-- Handlers run in the reverse order of their registration.
unfoldable pub run_handlers : List Handler → Globals → Program Globals
run_handlers [] g = returns g
run_handlers (h ∷ hs) g = Process.◌>>=◌ (run_handler h g) (run_handlers hs)

abbrev pub M : Type 0 → Type 0
M A = Globals → Program (A × Globals)

unfoldable pub exit : {A : Type 0} → ℕ → M A
unfolding run_handlers
exit code g = Process.◌>>=◌ (run_handlers g.handlers g) (λ g'. ended code)

-- A call whose failure ends the process with EXIT_FAILURE.
unfoldable pub or_exit : Sys → M ℕ
or_exit (ret n) = pure n
or_exit (fail errno) = exit 1

unfoldable pub checked : SysCall → M ℕ
checked c = ask (sys c) >>= or_exit

unfoldable pub exit_unless : Bool → M (Unit {0})
exit_unless b = if b then pure tt else exit 1

-- The same, for a result that is not used.
unfoldable pub must : SysCall → M (Unit {0})
must c = checked c >>= λ n. pure tt

unfoldable pub when : Bool → M (Unit {0}) → M (Unit {0})
when true m = m
when false m = pure tt

-- `if (atexit(h) < 0) exit(EXIT_FAILURE)`
unfoldable pub register : Handler → M (Unit {0})
register h = do must (atexit h); modify (λ g. record g { handlers = h ∷ g.handlers })

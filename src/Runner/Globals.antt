-- ===== src/Runner/Globals.antt =====
-- The global variables of programs/run.c, its exit handler, and `exit`.
use vmnet_helper.Prelude.{
  ℕ, zero, suc, Bool, true, false, not, List, [], Option, none, some, String, Outcome, done, exited,
  ◌==◌, if◌then◌else◌,
}
use vmnet_helper.System.{Sys, ret, fail}
use vmnet_helper.Behaviour
use vmnet_helper.Behaviour.{ended, returns, aborted, out_of_fuel}
unfoldable pub use vmnet_helper.Behaviour.State.{pure, ◌>>=◌, ◌>>◌, gets, modify, ask}
use vmnet_helper.Runner.Calls.{SysCall, killpg, wait, sys, ignore_sigterm, Program}
use vmnet_helper.Runner.Arguments.{ClientOptions, no_options}

-- A pid is `none` for -1. `registered` says that `atexit` has been given `terminate_process_group`.
pub record Globals : Type 0 where
  pub options : ClientOptions
  pub helper_argv : List String
  pub command_argv : List String
  pub helper_pid : Option ℕ
  pub command_pid : Option ℕ
  pub registered : Bool

abbrev pub initial_globals : Globals
initial_globals = record {
  options = no_options;
  helper_argv = [];
  command_argv = [];
  helper_pid = none;
  command_pid = none;
  registered = false;
}

abbrev pub M : Type 0 → Type 0
M A = Globals → Program (A × Globals)

-- <sys/errno.h>
abbrev pub esrch : ℕ
esrch = 3

-- `wait(NULL) > 0`
abbrev pub is_pid : Sys → Bool
is_pid (ret n) = not (n == 0)
is_pid (fail errno) = false

-- `while (wait(NULL) > 0);`, for this many rounds.
unfoldable pub wait_children : ℕ → M (Unit {0})
wait_children zero = λ g. out_of_fuel
wait_children (suc fuel) =
    ask (sys wait) >>= λ r. elim (is_pid r) [ true ↦ wait_children fuel | false ↦ pure tt ]

-- `killpg(0, SIGTERM) == -1 && errno != ESRCH`
abbrev pub refused : Sys → Bool
refused (ret n) = false
refused (fail errno) = not (errno == esrch)

module _ (fuel : ℕ) where
  unfoldable pub terminate_process_group : M (Unit {0})
  unfolding wait_children
  terminate_process_group = do
    _ ← ask ignore_sigterm
    r ← ask (sys killpg)
    if refused r then pure tt else wait_children fuel

  unfoldable pub run_handlers : Bool → M (Unit {0})
  run_handlers registered = if registered then terminate_process_group else pure tt

  unfoldable pub exit : {A : Type 0} → ℕ → M A
  unfolding run_handlers
  exit code g = Behaviour.◌>>=◌ (run_handlers g.registered g) (λ r. ended code)

  -- A call whose failure ends the process with EXIT_FAILURE.
  unfoldable pub or_exit : Sys → M (Unit {0})
  or_exit (ret n) = pure tt
  or_exit (fail errno) = exit 1

  unfoldable pub must : SysCall → M (Unit {0})
  must c = ask (sys c) >>= or_exit

  unfoldable pub or_exit_none : {A : Type 0} → Option A → M A
  or_exit_none none = exit 1
  or_exit_none (some a) = pure a

  -- A part of the program that makes no calls.
  unfoldable pub lift : {A : Type 0} → Outcome A → M A
  lift (done a) = pure a
  lift (exited code m) = exit code
  lift Outcome.aborted = λ g. aborted
  lift Outcome.out_of_fuel = λ g. out_of_fuel

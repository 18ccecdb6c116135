-- ===== src/Runner/Main.antt =====
-- `main` of programs/run.c: the order in which vmnet-run starts its two processes, and waits for the command.
pub mod Discipline
pub mod Group
pub mod Files
pub mod Reaping
pub mod Unaborted
use vmnet_helper.Prelude.{
  ℕ, zero, suc, ◌-◌, Bool, true, false, List, [], ◌∷◌, Option, none, some, String, ◌<>◌, Outcome,
  done, exited, if◌then◌else◌,
}
use vmnet_helper.Common.{send_buffer_size, recv_buffer_size, recv_buffer_size_offload}
use vmnet_helper.Behaviour.{out_of_fuel}
use vmnet_helper.Runner.Calls.{
  SysCall, sigaction, setpgid, atexit, dup2, set_send_buffer, set_receive_buffer, Fork, failed,
  child, parent, Call, sys, sysctl, leads_group, close, socketpair, fork, execvp, waitpid,
}
use vmnet_helper.Runner.Arguments.{ClientOptions, no_options, build_helper_argv}
use vmnet_helper.Runner.CommandLine.{Opt, parse_options}
use vmnet_helper.Runner.Processes.{helper_fd, command_fd, Waitpid, wait_round}
use vmnet_helper.Runner.Globals.{
  Globals, M, pure, ◌>>=◌, ◌>>◌, gets, modify, ask, exit, must, or_exit_none, lift,
}

-- <signal.h>
abbrev sigterm : ℕ
sigterm = 15

abbrev sigint : ℕ
sigint = 2

-- `PATH_MAX` of <limits.h>
abbrev path_max : ℕ
path_max = 1024

abbrev truncated : ℕ → String → String
truncated zero s = ""
truncated (suc n) String.[] = ""
truncated (suc n) (String.◌∷◌ c s) = String.◌∷◌ c (truncated n s)

-- `snprintf` writes at most `path_max - 1` bytes. `dir` is `dirname(runner_path)`.
abbrev pub resolve_helper_path : String → String
resolve_helper_path dir = truncated (path_max - 1) (dir <> "/vmnet-helper")

-- A return of `waitpid` after which `command_pid` is -1: the command has ended.
abbrev pub reaps : Waitpid → Bool
reaps (Waitpid.interrupted (suc n) status) = false
reaps w = true

module _ (fuel : ℕ) where
  unfoldable pub setup_signals : M (Unit {0})
  setup_signals = do must fuel (sigaction sigterm); must fuel (sigaction sigint)

  unfoldable pub become_process_group_leader : M (Unit {0})
  become_process_group_leader = do
    leads ← ask leads_group
    if leads then pure tt else must fuel setpgid

  unfoldable pub defer_terminate_process_group : M (Unit {0})
  defer_terminate_process_group = do must fuel atexit; modify (λ g. record g { registered = true })

  -- Failures are only logged.
  unfoldable pub set_socket_buffers : ℕ → M (Unit {0})
  set_socket_buffers fd = do
    _ ← ask (sys (set_send_buffer fd send_buffer_size))
    tso ← gets (λ g. g.options.enable_tso)
    _ ←
        ask
          (sys (set_receive_buffer fd (if tso then recv_buffer_size_offload else recv_buffer_size)))
    pure tt

  -- The descriptors of the pair, moved to their places.
  unfoldable pub place_pair : ℕ × ℕ → M (Unit {0})
  place_pair (a, b) = do must fuel (dup2 b command_fd); must fuel (dup2 a helper_fd)

  unfoldable pub create_socketpair : M (Unit {0})
  unfolding place_pair set_socket_buffers
  create_socketpair = do
    _ ← ask (close helper_fd)
    _ ← ask (close command_fd)
    fds ← ask socketpair
    pair ← or_exit_none fuel fds
    place_pair pair
    set_socket_buffers helper_fd
    set_socket_buffers command_fd

  -- The child keeps all but `fd`; it goes on only if `execvp` fails.
  unfoldable pub become : ℕ → List String → M (Unit {0})
  become fd argv = do _ ← ask (close fd); _ ← ask (execvp argv); exit fuel 1

  unfoldable pub after_helper_fork : Fork → M (Unit {0})
  unfolding become
  after_helper_fork (failed errno) = exit fuel 1
  after_helper_fork child = do argv ← gets (λ g. g.helper_argv); become command_fd argv
  after_helper_fork (parent pid) = do
    modify (λ g. record g { helper_pid = some pid })
    _ ← ask (close helper_fd)
    pure tt

  unfoldable pub start_helper : M (Unit {0})
  unfolding after_helper_fork
  start_helper = do f ← ask fork; after_helper_fork f

  unfoldable pub after_command_fork : Fork → M (Unit {0})
  unfolding become
  after_command_fork (failed errno) = exit fuel 1
  after_command_fork child = do argv ← gets (λ g. g.command_argv); become helper_fd argv
  after_command_fork (parent pid) = do
    modify (λ g. record g { command_pid = some pid })
    _ ← ask (close command_fd)
    pure tt

  unfoldable pub start_command : M (Unit {0})
  unfolding after_command_fork
  start_command = do f ← ask fork; after_command_fork f

  unfoldable pub stop_waiting : Bool → ℕ → M ℕ
  stop_waiting reaped code = do
    modify (λ g. record g { command_pid = if reaped then none else g.command_pid })
    pure code

  -- The loop, for this many rounds.
  unfoldable pub wait_for_command : ℕ → M ℕ
  unfolding stop_waiting
  wait_for_command zero = λ g. out_of_fuel
  wait_for_command (suc rounds) = do
    pid ← gets (λ g. g.command_pid)
    w ← ask (waitpid pid)
    r ← lift fuel (wait_round w)
    elim r [ some code ↦ stop_waiting (reaps w) code | none ↦ wait_for_command rounds ]

  -- What follows `build_helper_argv`. Returning from `main` is a call of `exit`.
  unfoldable pub run : M (Unit {0})
  unfolding setup_signals become_process_group_leader defer_terminate_process_group
      create_socketpair start_helper start_command wait_for_command
  run = do
    setup_signals
    become_process_group_leader
    defer_terminate_process_group
    create_socketpair
    start_helper
    start_command
    code ← wait_for_command fuel
    exit fuel code

  -- `getopt_long` gives `items` and leaves `rest`; `uuid_parse` and `inet_aton` are those of libuuid and libc. Each
  -- waiting loop has `fuel` rounds.
  unfoldable pub main :
      (String → Bool) → (String → Bool) → List (String × Opt) → List String → String → M (Unit {0})
  unfolding run
  main uuid_parse inet_aton items rest dir = do
    (o, command) ← lift fuel (parse_options uuid_parse inet_aton no_options items rest)
    text ← ask sysctl
    argv ← lift fuel (build_helper_argv text (resolve_helper_path dir) o)
    modify (λ g. record g { options = o; helper_argv = argv; command_argv = command })
    run

-- ===== src/Runner/Calls.antt =====
-- The calls that vmnet-run (programs/run.c) makes of the system.
use vmnet_helper.Prelude.{ℕ, Bool, List, Option, String}
use vmnet_helper.System.{Sys}
use vmnet_helper.Behaviour.{Behaviour}
use vmnet_helper.Runner.Processes.{Waitpid}

-- The calls that return a number, or -1 with `errno`.
pub data SysCall : Type 0 where
  -- `handle_signal` for this signal, without SA_RESTART
  sigaction : ℕ → SysCall
  -- `setpgid(0, 0)`
  setpgid : SysCall
  -- `atexit(terminate_process_group)`
  atexit : SysCall
  dup2 : ℕ → ℕ → SysCall
  set_send_buffer : ℕ → ℕ → SysCall
  set_receive_buffer : ℕ → ℕ → SysCall
  -- `killpg(0, SIGTERM)`
  killpg : SysCall
  -- `wait(NULL)`
  wait : SysCall

-- What `fork` returns: -1, 0 in the child, or the child's pid in the parent.
pub data Fork : Type 0 where
  failed : ℕ → Fork
  child : Fork
  parent : ℕ → Fork

pub data Call : Type 0 where
  sys : SysCall → Call
  -- `sysctlbyname("kern.osproductversion", ..)`
  sysctl : Call
  -- `getpid() == getpgid(0)`
  leads_group : Call
  -- `close`, whose result is not looked at
  close : ℕ → Call
  -- `socketpair(PF_LOCAL, SOCK_DGRAM, 0, fds)`
  socketpair : Call
  fork : Call
  -- `execvp(argv[0], argv)` returns only if it fails, with this `errno`.
  execvp : List String → Call
  -- `waitpid(pid, &status, 0)`
  waitpid : Option ℕ → Call
  -- `signal(SIGTERM, SIG_IGN)`
  ignore_sigterm : Call

abbrev pub Reply : Call → Type 0
Reply (sys c) = Sys
Reply sysctl = Option (List ℕ)
Reply leads_group = Bool
Reply (close fd) = Unit
Reply socketpair = Option (ℕ × ℕ)
Reply fork = Fork
Reply (execvp argv) = ℕ
Reply (waitpid pid) = Waitpid
Reply ignore_sigterm = Unit

abbrev pub Program : Type 0 → Type 0
Program A = Behaviour Call Reply A

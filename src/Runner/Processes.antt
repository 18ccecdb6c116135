-- ===== src/Runner/Processes.antt =====
-- programs/run.c: the tables of descriptors, and what the returns of `waitpid` mean for the exit status.
pub mod Ends
use vmnet_helper.Prelude.{
  ℕ, zero, suc, ◌+◌, Bool, true, false, Option, none, some, List, [], ◌∷◌, Outcome, done, exited,
  out_of_fuel, require, ◌>>=◌, ◌>>◌, ◌==◌, if◌then◌else◌,
}

-- What a descriptor refers to: an end of the socket pair, or another file.
pub data File : Type 0 where
  first : File
  second : File
  other : ℕ → File

-- The open descriptors of a process.
abbrev pub Descriptors : Type 0
Descriptors = ℕ → Option File

abbrev pub helper_fd : ℕ
helper_fd = 3

abbrev pub command_fd : ℕ
command_fd = 4

abbrev pub put : ℕ → Option File → Descriptors → Descriptors
put fd f t = λ n. if n == fd then f else t n

-- `close(fd)`; closing a descriptor that is not open is no error that is looked at.
abbrev pub close : ℕ → Descriptors → Descriptors
close fd t = put fd none t

-- What `waitpid` stores: `WIFEXITED`, `WIFSIGNALED`, or neither.
pub data Status : Type 0 where
  exited_with : ℕ → Status
  signaled_by : ℕ → Status
  running : Status

-- A return of `waitpid`: with a status, or with -1. If it was interrupted, `terminated` is the signal that the
-- handler has stored, and `status` is what the variable happens to hold.
pub data Waitpid : Type 0 where
  stored : Status → Waitpid
  interrupted : ℕ → Status → Waitpid
  failed : Waitpid

-- A round of the loop: a result, or `none` for another round.
abbrev pub read_status : Status → Option ℕ
read_status (exited_with n) = some n
read_status (signaled_by n) = some (128 + n)
read_status running = none

unfoldable pub wait_round : Waitpid → Outcome (Option ℕ)
wait_round (stored status) = done (read_status status)
wait_round (interrupted terminated status) =
    if terminated == 0 then done (read_status status) else done (some (128 + terminated))
wait_round failed = exited 1 "[runner] waitpid"

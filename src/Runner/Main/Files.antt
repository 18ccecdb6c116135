-- ===== src/Runner/Main/Files.antt =====
-- The descriptors of a process of programs/run.c, as a protocol: with which files vmnet-helper and the command are executed,
-- and which vmnet-run keeps while it waits.
pub mod Pair
pub mod Handed
use vmnet_helper.Prelude.{
  ℕ, zero, suc, ◌+◌, ◌<◌, ◌≤◌, ◌≡◌, ◌⊎◌, Bool, List, String, Option, none, some, Outcome, done,
  ◌>>=◌,
}
use vmnet_helper.System.{Sys, ret, fail}
use vmnet_helper.Runner.Processes.{Descriptors, first, second, put}
use vmnet_helper.Runner.Processes
use vmnet_helper.Runner.Calls.{
  SysCall, dup2, Call, sys, close, socketpair, fork, execvp, waitpid, sysctl, Reply,
}
use vmnet_helper.Runner.Main.{resolve_helper_path}
use vmnet_helper.Runner.CommandLine.{Opt, parse_options}
use vmnet_helper.Runner.Arguments.{no_options, build_helper_argv}
use vmnet_helper.Runner.Main.Discipline.{Protocol}

-- The reply of `sysctl`, and the arguments with which vmnet-helper and the command are to be executed, if the command
-- line is accepted.
pub record Programs : Type 0 where
  pub version : Option (List ℕ)
  pub helper : Outcome (List String)
  pub command : Outcome (List String)

-- vmnet-helper gets what `build_helper_argv` builds of the options, and the command is the rest of the command line.
abbrev pub programs :
    (String → Bool)
    → (String → Bool)
    → List (String × Opt)
    → List String
    → String
    → Option (List ℕ)
    → Programs
programs uuid_parse inet_aton items rest dir version =
    let parsed = parse_options uuid_parse inet_aton no_options items rest in
    record {
      version = version;
      helper = parsed >>= λ (o, command). build_helper_argv version (resolve_helper_path dir) o;
      command = parsed >>= λ (o, command). done command;
    }

-- The table of a process, and how often it, or its parent before it, has called `fork`.
pub record Files : Type 0 where
  pub table : Descriptors
  pub forks : ℕ

-- A new descriptor is the lowest that is free.
pub record IsLowestPair (t : Descriptors) (a b : ℕ) : Type 0 where
  pub ordered : a < b
  pub lowest : (n : ℕ) → t n ≡ none → ((n ≡ a) ⊎ (b ≤ n))

-- The arguments for the first child, and for the second.
abbrev pub IsProgram : Programs → ℕ → List String → Type 0
IsProgram p (suc zero) argv = p.helper ≡ done argv
IsProgram p (suc (suc zero)) argv = p.command ≡ done argv
IsProgram p n argv = ⊥

abbrev pub IsPossible : Programs → Files → (c : Call) → Reply c → Type 0
IsPossible p s socketpair (some (a, b)) = IsLowestPair s.table a b
IsPossible p s sysctl version = version ≡ p.version
IsPossible p s c r = Unit

abbrev pub after : Files → (c : Call) → Reply c → Files
after s (close fd) r = record s { table = Processes.close fd s.table }
after s (sys (dup2 from to)) (ret n) = record s { table = put to (s.table from) s.table }
after s socketpair (some (a, b)) = record s {
  table = put b (some second) (put a (some first) s.table);
}
after s fork r = record s { forks = s.forks + 1 }
after s c r = s

-- `t` is the table with which vmnet-run was started.
module _ (t : Descriptors) (p : Programs) where
  abbrev pub Keeps4 : Descriptors → Type 0
  Keeps4 table = (n : ℕ) → 4 < n → table n ≡ t n

  -- The tables with which the first child and the second may be executed: vmnet-helper and the command.
  abbrev pub IsHanded : ℕ → Descriptors → Type 0
  IsHanded (suc zero) table = (table 3 ≡ some first) × (table 4 ≡ none) × Keeps4 table
  IsHanded (suc (suc zero)) table = (table 3 ≡ none) × (table 4 ≡ some second) × Keeps4 table
  IsHanded n table = ⊥

  abbrev pub Permits : Files → Call → Type 0
  Permits s (execvp argv) = IsHanded s.forks s.table × IsProgram p s.forks argv
  Permits s (waitpid pid) = (s.table 3 ≡ none) × (s.table 4 ≡ none) × Keeps4 s.table
  Permits s c = Unit

  abbrev pub file_protocol : Protocol
  file_protocol = record {
    State = Files;
    Allowed = Permits;
    Possible = IsPossible p;
    next = after;
    Final = λ s. Unit;
  }

-- ===== src/Runner/Main/Group.antt =====
-- The process group of programs/run.c, as a protocol: when a process may be started, when the group may be
-- signalled, and how it is left when a process ends.
pub mod Ending
pub mod Stages
pub mod Orderly
use vmnet_helper.Prelude.{ℕ, ◌≡◌, Bool, true, false, ◌⊎◌, ◌||◌, Option, ◌==◌, if◌then◌else◌}
use vmnet_helper.System.{Sys, ret, fail}
use vmnet_helper.Runner.Calls.{
  SysCall, sigaction, setpgid, atexit, killpg, wait, Call, sys, leads_group, fork, ignore_sigterm,
  Reply,
}
use vmnet_helper.Runner.Globals.{is_pid, refused}
use vmnet_helper.Runner.Main.Discipline.{Protocol}

-- <sys/errno.h>
abbrev pub echild : ℕ
echild = 10

-- What has become of the group: `killpg` has signalled it or was refused; after that, `wait` has found no child left, or
-- has failed for another reason.
pub data Group : Type 0 where
  running : Group
  signalled : Group
  unsignalled : Group
  gone : Group
  abandoned : Group

-- What vmnet-run, or a child that it has started, has done about signals and its group. `leads` says that the group is
-- that of vmnet-run.
pub record Life : Type 0 where
  pub catches_term : Bool
  pub catches_int : Bool
  pub leads : Bool
  pub registered : Bool
  pub ignores_term : Bool
  pub group : Group

abbrev pub group_after_wait : Sys → Group
group_after_wait (ret n) = abandoned
group_after_wait (fail errno) = if errno == echild then gone else abandoned

abbrev pub after_sys : Life → SysCall → Sys → Life
after_sys s (sigaction n) (ret m) = record s {
  catches_term = n == 15 || s.catches_term;
  catches_int = n == 2 || s.catches_int;
}
after_sys s setpgid (ret m) = record s { leads = true }
after_sys s atexit (ret m) = record s { registered = true }
after_sys s killpg r = record s { group = if refused r then unsignalled else signalled }
after_sys s wait r = record s { group = if is_pid r then s.group else group_after_wait r }
after_sys s c r = s

abbrev pub after : Life → (c : Call) → Reply c → Life
after s (sys c) r = after_sys s c r
after s leads_group r = record s { leads = r || s.leads }
after s ignore_sigterm r = record s { ignores_term = true }
after s c r = s

-- A process is started only with the signals caught, in the group of vmnet-run, which an exit handler terminates. Only
-- that group is signalled, by a process that ignores the signal itself, and only then does it wait for its children.
abbrev pub Permits : Life → Call → Type 0
Permits s fork =
    (s.catches_term ≡ true) × (s.catches_int ≡ true) × (s.leads ≡ true) × (s.registered ≡ true)
Permits s (sys killpg) = (s.leads ≡ true) × (s.ignores_term ≡ true)
Permits s (sys wait) = s.group ≡ signalled
Permits s c = Unit

-- How the group is left: there is no handler yet, no child is left, the group could not be signalled, or `wait` has
-- failed.
abbrev pub IsOver : Life → Type 0
IsOver s =
    (s.registered ≡ false) ⊎ ((s.group ≡ gone) ⊎ ((s.group ≡ unsignalled) ⊎ (s.group ≡ abandoned)))

abbrev pub group_protocol : Protocol
group_protocol = record {
  State = Life;
  Allowed = Permits;
  Possible = λ s c r. Unit;
  next = after;
  Final = IsOver;
}

abbrev pub newborn : Life
newborn = record {
  catches_term = false;
  catches_int = false;
  leads = false;
  registered = false;
  ignores_term = false;
  group = running;
}

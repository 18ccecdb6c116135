-- ===== src/Helper/Events.antt =====
-- Signals, timers and the shutdown event in programs/helper.c, and the status that the process ends with.
pub mod Termination
use Prim.Native.Nat.{bit_or, bit_and}
use vmnet_helper.Prelude.{
  ℕ, zero, suc, ◌-◌, ◌^◌, Bool, true, false, not, ◌||◌, List, [], ◌∷◌, ◌==◌, if◌then◌else◌,
}
use vmnet_helper.Process.{
  add_signal, add_user, add_timer, trigger, Event, signal, user, timer, readable, Wait, failed,
  nothing, event, kqueue, kevent, sigprocmask, ignore_sigpipe, kevent_wait, read_clock, ended,
}
use vmnet_helper.Process
use vmnet_helper.Helper.Report.{report_stats}
use vmnet_helper.Helper.VmToHost.{status_failure, status_stopped}
use vmnet_helper.Helper.Globals.{
  Globals, M, pure, ◌>>=◌, ◌>>◌, exit, gets, modify, ask, checked, must, when,
}
use vmnet_helper.Prelude.{some, Outcome, done, exited, aborted, out_of_fuel}

-- <signal.h>
abbrev pub sigterm : ℕ
sigterm = 15

abbrev pub sigint : ℕ
sigint = 2

abbrev pub shutdown_event : ℕ
shutdown_event = 1

abbrev pub stats_timer : ℕ
stats_timer = 2

unfoldable pub setup_kq : M (Unit {0})
setup_kq = do
  fd ← checked kqueue
  modify (λ g. record g { kq = some fd })
  must (sigprocmask (sigterm ∷ sigint ∷ []))
  _ ← ask ignore_sigpipe
  must (kevent (add_signal sigterm ∷ add_signal sigint ∷ add_user shutdown_event ∷ []))

-- `NOTE_FFLAGSMASK` of <sys/event.h>
abbrev note_fflagsmask : ℕ
note_fflagsmask = 2 ^ 24 - 1

unfoldable pub trigger_shutdown : ℕ → M (Unit {0})
trigger_shutdown flags = do
  must (kevent (trigger shutdown_event (bit_and flags note_fflagsmask) ∷ []))

unfoldable pub start_stats_timer : M (Unit {0})
start_stats_timer = do
  o ← gets (λ g. g.options)
  when (not (o.stats_interval == 0)) (must (kevent (add_timer stats_timer o.stats_interval ∷ [])))

-- What `run_until_termination` does with an event.
pub data Next : Type 0 where
  finish : ℕ → Next
  report : Next
  again : Next

unfoldable pub run_event : Wait → Next
run_event (failed errno) = finish status_failure
run_event nothing = again
run_event (event (signal n)) = finish status_stopped
run_event (event (user flags)) = finish flags
run_event (event timer) = report
run_event (event readable) = again

-- After `report_stats`, which logs its line; it never exits.
unfoldable pub reported : Outcome (List ℕ) → M (Unit {0}) → M (Unit {0})
reported (done line) rest = rest
reported (exited code message) rest = λ g. ended code
reported aborted rest = λ g. Process.aborted
reported out_of_fuel rest = λ g. Process.out_of_fuel

unfoldable pub after_event : Next → M (Unit {0}) → M (Unit {0})
unfolding reported
after_event (finish flags) rest = modify (λ g. record g { status = bit_or g.status flags })
after_event report rest = do
  c ← ask read_clock
  reported (report_stats c.date c.tv_nsec c.tm_gmtoff c.host c.vm) rest
after_event again rest = rest

-- The loop, for this many rounds.
unfoldable pub run_until_termination : ℕ → M (Unit {0})
run_until_termination zero = λ g. Process.out_of_fuel
run_until_termination (suc fuel) =
    ask kevent_wait >>= λ w. after_event (run_event w) (run_until_termination fuel)

-- `(status == 0 || status & STATUS_STOPPED) ? EXIT_SUCCESS : EXIT_FAILURE`
abbrev pub exit_status : ℕ → ℕ
exit_status status = if status == 0 || not (bit_and status status_stopped == 0) then 0 else 1

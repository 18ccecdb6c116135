-- ===== src/Helper/Events/Termination.antt =====
-- `run_until_termination` of programs/helper.c over the events that arrive, and the exit status.
use Prim.Native.Nat.{bit_or}
use vmnet_helper.Prelude.{
  ℕ, zero, suc, ◌<◌, ◌≡◌, refl, ◌∙◌, subst, ◌⊎◌, inl, inr, List, [], ◌∷◌, ◌++◌, length, All, arith,
  ◌==◌, if◌then◌else◌,
}
use vmnet_helper.Process.{
  Wait, failed, nothing, event, signal, user, timer, readable, kevent_wait, read_clock, Clock,
  Program, returns, ended, aborted, out_of_fuel, call,
}
use vmnet_helper.Helper.VmToHost.{status_failure, status_stopped}
use vmnet_helper.Helper.Report.Line.{report_stats-eq}
use vmnet_helper.Helper.Globals.{Globals, M, ◌>>=◌, ask, modify}
use vmnet_helper.Helper.Events.{
  finish, report, reported, run_event, after_event, run_until_termination, exit_status,
}

-- What becomes of a program that waits for these events, one after another; it may read the clock in between.
pub serve : {A : Type 0} → Clock → List Wait → Program A → Program A
serve c ws (returns a) = returns a
serve c ws (ended n) = ended n
serve c ws aborted = aborted
serve c ws out_of_fuel = out_of_fuel
serve c [] (call kevent_wait k) = call kevent_wait k
serve c (w ∷ ws) (call kevent_wait k) = serve c ws (k w)
serve c ws (call read_clock k) = serve c ws (k c)
serve c ws (call other k) = call other k

-- The events that leave the process running: kevent returned none, the timer of the statistics fired, or a
-- descriptor is readable.
pub data Undecided : Wait → Type 0 where
  by_nothing : Undecided nothing
  by_timer : Undecided (event timer)
  by_readable : Undecided (event readable)

-- The events that end it, with the flags that the status gains: SIGTERM or SIGINT with `STATUS_STOPPED`, a shutdown
-- event with its own flags, and a failed `kevent` with `STATUS_FAILURE`.
pub data Decides : Wait → ℕ → Type 0 where
  by_signal : (n : ℕ) → Decides (event (signal n)) 2
  by_shutdown : (flags : ℕ) → Decides (event (user flags)) flags
  by_failure : (errno : ℕ) → Decides (failed errno) 1

Decides-finish : (w : Wait) (flags : ℕ) → Decides w flags → run_event w ≡ finish flags
unfolding run_event
Decides-finish _ _ (by_signal n) = refl
Decides-finish _ _ (by_shutdown flags) = refl
Decides-finish _ _ (by_failure errno) = refl

serve-finish :
    (c : Clock) (ws : List Wait) (flags : ℕ) (rest : M (Unit {0})) (g : Globals)
    → serve c ws (after_event (finish flags) rest g)
      ≡ returns (tt, record g { status = bit_or g.status flags })
unfolding serve after_event modify
serve-finish c ws flags rest g = refl

serve_clock :
    {A : Type 0} (c : Clock) (ws : List Wait) (k : Clock → Program A)
    → serve c ws (call read_clock k) ≡ serve c ws (k c)
unfolding serve
serve_clock c [] k = refl
serve_clock c (w ∷ ws) k = refl

serve-report :
    (c : Clock) (ws : List Wait) (rest : M (Unit {0})) (g : Globals)
    → serve c ws (after_event report rest g) ≡ serve c ws (rest g)
unfolding after_event reported ◌>>=◌ ask
serve-report c ws rest g =
    serve_clock c ws _
    ∙ rw
        (report_stats-eq c.date c.tv_nsec c.tm_gmtoff c.host c.vm c.date_length c.tv_nsec-lt
          c.tm_gmtoff-lt)
        refl

serve_round :
    (c : Clock) (w : Wait) (ws : List Wait) (fuel : ℕ) (g : Globals)
    → serve c (w ∷ ws) (run_until_termination (suc fuel) g)
      ≡ serve c ws (after_event (run_event w) (run_until_termination fuel) g)
unfolding serve run_until_termination ◌>>=◌ ask
serve_round c w ws fuel g = refl

serve-Undecided :
    (c : Clock) (w : Wait) (ws : List Wait) (fuel : ℕ) (g : Globals)
    → Undecided w
    → serve c (w ∷ ws) (run_until_termination (suc fuel) g)
      ≡ serve c ws (run_until_termination fuel g)
unfolding run_event after_event
serve-Undecided c w ws fuel g by_nothing = serve_round c nothing ws fuel g
serve-Undecided c w ws fuel g by_timer =
    serve_round c (event timer) ws fuel g ∙ serve-report c ws (run_until_termination fuel) g
serve-Undecided c w ws fuel g by_readable = serve_round c (event readable) ws fuel g

-- If a signal, a shutdown event or a failure of `kevent` comes after events that leave the process running, reports of
-- the statistics included, then the loop ends there, with enough rounds for these events, and the flags of that event
-- are all that the status gains.
pub run_until_termination-ends :
    (c : Clock) (ws rest : List Wait) (w : Wait) (flags fuel : ℕ) (g : Globals)
    → All Undecided ws
    → Decides w flags
    → length ws < fuel
    → serve c (ws ++ (w ∷ rest)) (run_until_termination fuel g)
      ≡ returns (tt, record g { status = bit_or g.status flags })
run_until_termination-ends c ws rest w flags zero g undecided e enough = absurd (omega arith)
run_until_termination-ends c [] rest w flags (suc fuel) g undecided e enough =
    rw (serve_round c w rest fuel g, Decides-finish w flags e)
      (serve-finish c rest flags (run_until_termination fuel) g)
run_until_termination-ends c (v ∷ ws) rest w flags (suc fuel) g undecided e enough =
    rw (serve-Undecided c v (ws ++ (w ∷ rest)) fuel g undecided.0)
      (run_until_termination-ends c ws rest w flags fuel g undecided.1 e (omega arith))

-- The exit status of a process that ends with this event.
abbrev pub exit_with : Wait → ℕ
exit_with (event (signal n)) = 0
exit_with (event (user flags)) = if flags == status_failure then 1 else 0
exit_with _ = 1

-- The flags that the helper gives to `trigger_shutdown`; the event collects those of several calls.
abbrev pub IsHelperFlags : ℕ → Type 0
IsHelperFlags flags =
    (flags ≡ status_failure)
    ⊎ ((flags ≡ status_stopped) ⊎ (flags ≡ bit_or status_failure status_stopped))

abbrev pub IsHelperEvent : Wait → Type 0
IsHelperEvent (event (user flags)) = IsHelperFlags flags
IsHelperEvent _ = Unit

user_exit :
    (flags : ℕ)
    → IsHelperFlags flags
    → exit_status (bit_or 0 flags) ≡ (if flags == status_failure then 1 else 0)
user_exit flags (inl e) = rw e refl
user_exit flags (inr (inl e)) = rw e refl
user_exit flags (inr (inr e)) = rw e refl

-- For a status that was 0, the exit status is 0 after a signal or if the peer has closed the socket, even if
-- forwarding has failed too, and 1 if only forwarding, or `kevent`, has failed.
pub exit_status-exit_with :
    (w : Wait) (flags : ℕ)
    → IsHelperEvent w
    → run_event w ≡ finish flags
    → exit_status (bit_or 0 flags) ≡ exit_with w
unfolding run_event
exit_status-exit_with (failed errno) flags h e =
    let f : status_failure ≡ flags = cc in subst (λ n. exit_status (bit_or 0 n) ≡ 1) f refl
exit_status-exit_with nothing flags h e = cc
exit_status-exit_with (event timer) flags h e = cc
exit_status-exit_with (event readable) flags h e = cc
exit_status-exit_with (event (signal n)) flags h e =
    let f : status_stopped ≡ flags = cc in subst (λ n. exit_status (bit_or 0 n) ≡ 0) f refl
exit_status-exit_with (event (user flags')) flags h e =
    let f : flags' ≡ flags = cc in
    subst (λ n. exit_status (bit_or 0 n) ≡ exit_with (event (user flags'))) f (user_exit flags' h)

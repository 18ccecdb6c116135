-- ===== src/Runner/Main/Reaping.antt =====
-- How `exit` of programs/run.c waits for its children.
use vmnet_helper.Prelude.{
  ℕ, zero, suc, ◌<◌, ◌≡◌, Bool, true, false, inl, inr, arith, if◌then◌else◌, Bool-cases,
}
use vmnet_helper.System.{Sys}
use vmnet_helper.Behaviour.{ended}
use vmnet_helper.Behaviour.Protocol.{Settles, Settles->>=}
use vmnet_helper.Runner.Calls.{wait, Call, sys, Reply}
use vmnet_helper.Runner.Globals.{
  Globals, pure, ◌>>=◌, ask, wait_children, is_pid, refused, terminate_process_group, run_handlers,
  exit,
}
use vmnet_helper.Runner.Main.Discipline.{Protocol}

-- The number of children that `wait` has not returned yet. It returns each of them once.
abbrev pub children_after : ℕ → Sys → ℕ
children_after zero r = zero
children_after (suc n) r = if is_pid r then n else suc n

abbrev pub next_children : ℕ → (c : Call) → Reply c → ℕ
next_children n (sys wait) r = children_after n r
next_children n c r = n

abbrev pub IsPossible : ℕ → (c : Call) → Reply c → Type 0
IsPossible zero (sys wait) r = is_pid r ≡ false
IsPossible n c r = Unit

abbrev pub children : Protocol
children = record {
  State = ℕ;
  Allowed = λ n c. Unit;
  Possible = IsPossible;
  next = next_children;
  Final = λ n. Unit;
}

wait_children-Settles :
    (fuel n : ℕ) (g : Globals) → n < fuel → Settles children n (wait_children fuel g)
unfolding wait_children ◌>>=◌ ask pure
wait_children-Settles zero n g h = omega arith
wait_children-Settles (suc fuel) zero g h = λ r none_left. rw none_left tt
wait_children-Settles (suc fuel) (suc n) g h = λ r _. elim (Bool-cases (is_pid r)) [
  | inl one_more ↦ rw one_more (wait_children-Settles fuel n g (omega arith))
  | inr last ↦ rw last tt
]

run_handlers-Settles :
    (fuel n : ℕ) (b : Bool) (g : Globals) → n < fuel → Settles children n (run_handlers fuel b g)
unfolding run_handlers terminate_process_group ◌>>=◌ ask pure
run_handlers-Settles fuel n false g h = tt
run_handlers-Settles fuel n true g h = λ _ _ r _. elim (Bool-cases (refused r)) [
  | inl refusal ↦ rw refusal tt
  | inr signal_sent ↦ rw signal_sent (wait_children-Settles fuel n g h)
]

-- A process with `n` children ends when it calls `exit`, whatever the system replies, if the loop is given more than
-- `n` rounds.
pub exit-Settles :
    (A : Type 0) (fuel n code : ℕ) (g : Globals)
    → n < fuel
    → Settles children n (exit fuel {A = A} code g)
unfolding exit
exit-Settles A fuel n code g h =
    Settles->>= children n (run_handlers fuel g.registered g) (λ r. ended code)
      (run_handlers-Settles fuel n g.registered g h) (λ s' r. tt)

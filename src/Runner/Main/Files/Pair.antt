-- ===== src/Runner/Main/Files/Pair.antt =====
-- Rules for the functions of programs/run.c under `file_protocol`, and the socket pair.
use vmnet_helper.Prelude.{
  ℕ, zero, suc, ◌+◌, ◌<◌, ◌≤◌, ◌≡◌, refl, ap, ◌∙◌, Bool, true, false, List, String, Option, none,
  some, Outcome, arith, Bool-cases, inl, inr, if◌then◌else◌,
}
use vmnet_helper.System.{Sys, ret, fail}
use vmnet_helper.Behaviour.Protocol.{Obeys}
use vmnet_helper.Runner.Calls.{
  SysCall, sigaction, setpgid, atexit, dup2, set_send_buffer, set_receive_buffer, Call, sys,
  leads_group, close, socketpair, fork, Reply,
}
use vmnet_helper.Runner.Globals.{
  Globals, pure, ◌>>=◌, ask, must, lift, is_pid, refused, wait_children, terminate_process_group,
  run_handlers,
}
use vmnet_helper.Runner.Processes.{Descriptors, first, second, put, Waitpid, wait_round}
use vmnet_helper.Runner.Processes
use vmnet_helper.Runner.Processes.Ends.{paired, placed, placed_ends}
use vmnet_helper.Runner.Main.{
  setup_signals, become_process_group_leader, defer_terminate_process_group, set_socket_buffers,
  place_pair,
}
use vmnet_helper.Runner.Main.Discipline.{
  Assertion, CanExit, Keeps, Keeps->>=, Keeps->>, pure-Keeps, gets-Keeps, modify-Keeps, Keeps-of,
  ask-Keeps, must-Keeps, lift-Keeps, Unaborted,
}
use vmnet_helper.Runner.Main.Files.{
  Programs, Files, IsLowestPair, after, Keeps4, Permits, file_protocol,
}

-- `B` is what is known of the arguments of both programs.
module _ (t : Descriptors) (p : Programs) (fuel : ℕ) (B : List String → List String → Type 0) where
  wait_children-Obeys :
      (n : ℕ) (s : Files) (g : Globals)
      → Obeys (file_protocol t p) (λ s' r. Unit) s (wait_children n g)
  unfolding wait_children ◌>>=◌ ask pure
  wait_children-Obeys zero s g = tt
  wait_children-Obeys (suc n) s g = (
    tt,
    λ r _. elim (Bool-cases (is_pid r)) [
      | inl one_more ↦ rw one_more (wait_children-Obeys n s g)
      | inr last ↦ rw last tt
    ],
  )

  handlers-Obeys :
      (b : Bool) (s : Files) (g : Globals)
      → Obeys (file_protocol t p) (λ s' r. Unit) s (run_handlers fuel b g)
  unfolding run_handlers terminate_process_group ◌>>=◌ ask pure
  handlers-Obeys false s g = tt
  handlers-Obeys true s g = (
    tt,
    λ _ _. (
      tt,
      λ r _. elim (Bool-cases (refused r)) [
        | inl refusal ↦ rw refusal tt
        | inr signal_sent ↦ rw signal_sent (wait_children-Obeys fuel s g)
      ],
    ),
  )

  -- The handlers of vmnet-run do not touch its descriptors.
  pub can : (P : Assertion (file_protocol t p) fuel) → CanExit (file_protocol t p) fuel P
  can P s g h = handlers-Obeys g.registered s g

  -- Calls that do not touch the descriptors.
  module _ (P : Files → Type 0) where
    abbrev Is : Assertion (file_protocol t p) fuel
    Is s g = P s × B g.helper_argv g.command_argv

    pub quiet_must :
        (c : SysCall)
        → ((s : Files) → Permits t p s (sys c))
        → ((s : Files) (r : Sys) → after s (sys c) r ≡ s)
        → Keeps (file_protocol t p) Is (must fuel c) Is
    quiet_must c allowed same =
        must-Keeps fuel Is c (λ s g _. allowed s) (λ s g n h. rw (same s (ret n)) h)
          (λ s g e h. rw (same s (fail e)) h) (can Is)

    pub quiet :
        (c : Call)
        → ((s : Files) → P s → Permits t p s c)
        → ((s : Files) (r : Reply c) → after s c r ≡ s)
        → Keeps (file_protocol t p) Is (ask c) Is
    quiet c allowed same = ask-Keeps c (λ s g h. allowed s h.0) (λ s g r h _. rw (same s r) h)

    pub lift-Is :
        {A : Type 0} (m : Outcome A) → Unaborted m → Keeps (file_protocol t p) Is (lift fuel m) Is
    lift-Is m u = lift-Keeps fuel m u (can Is)

    leader-Is :
        (leads : Bool)
        → Keeps (file_protocol t p) Is (if leads then pure tt else must fuel setpgid) Is
    leader-Is true = pure-Keeps tt
    leader-Is false = quiet_must setpgid (λ s. tt) (λ s r. refl)

    -- Before the socket pair is created.
    pub prepare-Is :
        Keeps (file_protocol t p) Is (setup_signals fuel) Is
        × Keeps (file_protocol t p) Is (become_process_group_leader fuel) Is
        × Keeps (file_protocol t p) Is (defer_terminate_process_group fuel) Is
    unfolding setup_signals become_process_group_leader defer_terminate_process_group
    prepare-Is = (
      Keeps->> (quiet_must (sigaction 15) (λ s. tt) (λ s r. refl))
          (quiet_must (sigaction 2) (λ s. tt) (λ s r. refl)),
      Keeps->>= (quiet leads_group (λ s p. tt) (λ s r. refl)) leader-Is,
      Keeps->> (quiet_must atexit (λ s. tt) (λ s r. refl)) (modify-Keeps _ (λ s g h. h)),
    )

    pub set_socket_buffers-Is :
        (fd : ℕ) → Keeps (file_protocol t p) Is (set_socket_buffers fuel fd) Is
    unfolding set_socket_buffers
    set_socket_buffers-Is fd =
        Keeps->>= (quiet (sys (set_send_buffer fd _)) (λ s p. tt) (λ s r. refl)) (λ _.
          gets-Keeps (λ tso.
            Keeps-of {P = Is} (λ s g h. h.0)
              (Keeps->>= (quiet (sys (set_receive_buffer fd _)) (λ s p. tt) (λ s r. refl))
                (λ _. pure-Keeps tt))))

  -- The stages of the table: `n` calls of `fork`, and what is at 3 and at 4.
  abbrev pub Stage : ℕ → (Option Processes.File) → (Option Processes.File) → Files → Type 0
  Stage n three four s =
      (s.forks ≡ n) × (s.table 3 ≡ three) × (s.table 4 ≡ four) × Keeps4 t p s.table

  abbrev pub At :
      ℕ → Option Processes.File → Option Processes.File → Assertion (file_protocol t p) fuel
  At n three four s g = Stage n three four s × B g.helper_argv g.command_argv

  pub close_three :
      (n : ℕ) (three four : Option Processes.File)
      → Keeps (file_protocol t p) (At n three four) (ask (close 3)) (At n none four)
  close_three n three four =
      ask-Keeps (close 3) (λ s g p. tt)
        (λ s g r ((forks, at3, at4, kept), known) _.
          ((forks, refl, at4, λ m lt. ground (arith, kept m lt)), known))

  pub close_four :
      (n : ℕ) (three four : Option Processes.File)
      → Keeps (file_protocol t p) (At n three four) (ask (close 4)) (At n three none)
  close_four n three four =
      ask-Keeps (close 4) (λ s g p. tt)
        (λ s g r ((forks, at3, at4, kept), known) _.
          ((forks, at3, refl, λ m lt. ground (arith, kept m lt)), known))

  pub fork-Keeps :
      (n : ℕ) (three four : Option Processes.File)
      → Keeps (file_protocol t p) (At n three four) (ask fork) (At (n + 1) three four)
  fork-Keeps n three four =
      ask-Keeps fork (λ s g p. tt)
        (λ s g r ((forks, at3, at4, kept), known) _.
          ((ap (λ k. k + 1) forks, at3, at4, kept), known))

  -- The pair is at `a` and `b`, and then `b` is copied to 4.
  pub record Created (table : Descriptors → Descriptors) (a b : ℕ) (s : Files) : Type 0 where
    forks : s.forks ≡ 0
    before : Descriptors
    table_eq : s.table ≡ table before
    ordered : a < b
    second_low : b ≤ 4
    first_low : a ≤ 3
    kept : Keeps4 t p before

  abbrev moved : ℕ → ℕ → Descriptors → Descriptors
  moved a b u = put 4 (paired a b u b) (paired a b u)

  pub created :
      (a b : ℕ) (s : Files)
      → Stage 0 none none s
      → IsLowestPair s.table a b
      → Created (paired a b) a b (after s socketpair (some (a, b)))
  created a b s (forks, at3, at4, kept) low = record {
    forks = forks;
    before = s.table;
    table_eq = refl;
    ordered = low.ordered;
    second_low = ground (arith, low.ordered, low.lowest 3 at3, low.lowest 4 at4);
    first_low = ground (arith, low.ordered, low.lowest 3 at3, low.lowest 4 at4);
    kept = kept;
  }

  placed_there :
      (a b : ℕ) (s : Files) (n : ℕ)
      → Created (moved a b) a b s
      → Stage 0 (some first) (some second) (after s (sys (dup2 a 3)) (ret n))
  placed_there a b s n c =
      let (one, two, rest) = placed_ends a b c.before c.ordered c.second_low c.first_low in
      let e : put 3 (s.table a) s.table ≡ placed a b c.before =
        ap (λ f. put 3 (f a) f) c.table_eq in
      (
        c.forks,
        ap (λ f. f 3) e ∙ one,
        ap (λ f. f 4) e ∙ two,
        λ m lt. ap (λ f. f m) e ∙ rest m lt ∙ c.kept m lt,
      )

  copied :
      (a b : ℕ) (s : Files) (n : ℕ)
      → Created (paired a b) a b s
      → Created (moved a b) a b (after s (sys (dup2 b 4)) (ret n))
  copied a b s n c = record {
    forks = c.forks;
    before = c.before;
    table_eq = ap (λ f. put 4 (f b) f) c.table_eq;
    ordered = c.ordered;
    second_low = c.second_low;
    first_low = c.first_low;
    kept = c.kept;
  }

  abbrev pub CreatedAt : (Descriptors → Descriptors) → ℕ → ℕ → Assertion (file_protocol t p) fuel
  CreatedAt table a b s g = Created table a b s × B g.helper_argv g.command_argv

  abbrev pub Anything : Assertion (file_protocol t p) fuel
  Anything s g = Unit

  pub place_pair-Keeps :
      (a b : ℕ)
      → Keeps
          (file_protocol t p)
          (CreatedAt (paired a b) a b)
          (place_pair fuel (a, b))
          (At 0 (some first) (some second))
  unfolding place_pair
  place_pair-Keeps a b =
      Keeps->> {Q = CreatedAt (moved a b) a b}
        (must-Keeps fuel Anything (dup2 b 4) (λ s g p. tt) (λ s g n c. (copied a b s n c.0, c.1))
          (λ s g e p. tt) (can Anything))
        (must-Keeps fuel Anything (dup2 a 3) (λ s g p. tt)
          (λ s g n c. (placed_there a b s n c.0, c.1)) (λ s g e p. tt) (can Anything))

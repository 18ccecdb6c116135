-- ===== src/Runner/Main/Files/Handed.antt =====
-- `main` of programs/run.c under `file_protocol`.
use vmnet_helper.Prelude.{
  ℕ, zero, suc, ◌≡◌, refl, Bool, List, String, Option, none, some, Outcome, done, arith,
}
use vmnet_helper.Behaviour.Protocol.{Obeys}
use vmnet_helper.Runner.Calls.{Fork, failed, child, parent, sysctl, socketpair, execvp, waitpid}
use vmnet_helper.Runner.Globals.{
  Globals, initial_globals, M, pure, ◌>>=◌, ask, exit, or_exit_none, lift,
}
use vmnet_helper.Runner.CommandLine.{Opt, parse_options}
use vmnet_helper.Runner.Arguments.{no_options, build_helper_argv}
use vmnet_helper.Runner.Processes.{Descriptors, first, second, put, Waitpid, wait_round}
use vmnet_helper.Runner.Processes
use vmnet_helper.Runner.Processes.Ends.{paired}
use vmnet_helper.Runner.Main.{
  resolve_helper_path, reaps, create_socketpair, become, after_helper_fork, start_helper,
  after_command_fork, start_command, stop_waiting, wait_for_command, run, main,
}
use vmnet_helper.Runner.Main.Discipline.{
  Assertion, Keeps, Keeps->>=, Keeps->>, pure-Keeps, gets-Keeps, modify-Keeps, Keeps-of,
  ask-then-Keeps, exit-Keeps, Keeps-when, CanExit, Unaborted,
}
use vmnet_helper.Runner.Main.Unaborted.{
  build_helper_argv-Unaborted, parse_options-Unaborted, wait_round-Unaborted,
}
use vmnet_helper.Runner.Main.Files.{
  Programs, programs, Files, IsPossible, after, IsHanded, IsProgram, file_protocol,
}
use vmnet_helper.Runner.Main.Files.Pair.{
  can, quiet, lift-Is, prepare-Is, set_socket_buffers-Is, Stage, At, CreatedAt, close_three,
  close_four, fork-Keeps, created, place_pair-Keeps,
}

module _ (t : Descriptors) (p : Programs) (fuel : ℕ) where
  -- The globals have the arguments of both programs.
  abbrev Known : List String → List String → Type 0
  Known helper command = (p.helper ≡ done helper) × (p.command ≡ done command)

  -- What `socketpair` has returned.
  abbrev Given : Option (ℕ × ℕ) → Assertion (file_protocol t p) fuel
  Given none s g = Unit
  Given (some (a, b)) s g = CreatedAt t p fuel Known (paired a b) a b s g

  given :
      (fds : Option (ℕ × ℕ)) (s : Files) (g : Globals)
      → At t p fuel Known 0 none none s g
      → IsPossible p s socketpair fds
      → Given fds (after s socketpair fds) g
  given none s g h low = tt
  given (some (a, b)) s g h low = (created t p fuel Known a b s h.0 low, h.1)

  pair_then :
      (fds : Option (ℕ × ℕ)) (k : ℕ × ℕ → M (Unit {0})) (Q : Assertion (file_protocol t p) fuel)
      → ((a b : ℕ)
          → Keeps (file_protocol t p) (CreatedAt t p fuel Known (paired a b) a b) (k (a, b)) Q)
      → Keeps (file_protocol t p) (Given fds) (or_exit_none fuel fds >>= k) Q
  unfolding or_exit_none ◌>>=◌ pure
  pair_then none k Q rest =
      Keeps->>= {Q = λ s g. ⊥} (exit-Keeps fuel 1 (can t p fuel Known (Given none)))
        (λ a. record { obeys = λ s g h. absurd h })
  pair_then (some (a, b)) k Q rest = record { obeys = (rest a b).obeys }

  create_socketpair-Keeps :
      (three four : Option Processes.File)
      → Keeps
          (file_protocol t p)
          (At t p fuel Known 0 three four)
          (create_socketpair fuel)
          (At t p fuel Known 0 (some first) (some second))
  unfolding create_socketpair
  create_socketpair-Keeps three four = Keeps->>= (close_three t p fuel Known 0 three four) (λ _.
      Keeps->>= (close_four t p fuel Known 0 none four) (λ _.
        ask-then-Keeps socketpair Given (λ s g h. tt) (λ s g fds h low. given fds s g h low)
          (λ fds. pair_then fds _ _ (λ a b. Keeps->> (place_pair-Keeps t p fuel Known a b) (
            Keeps->>
              (set_socket_buffers-Is t p fuel Known
                (Stage t p fuel Known 0 (some first) (some second)) 3)
              (set_socket_buffers-Is t p fuel Known
                (Stage t p fuel Known 0 (some first) (some second)) 4))))))

  -- A child executes a program with the table and the arguments that are meant for it.
  execute :
      (n : ℕ) (three four : Option Processes.File) (argv : List String)
      {Q : Assertion (file_protocol t p) fuel}
      → ((s : Files) → Stage t p fuel Known n three four s → IsHanded t p s.forks s.table)
      → IsProgram p n argv
      → Keeps
          (file_protocol t p)
          (At t p fuel Known n three four)
          (ask (execvp argv) >>= λ _. exit fuel {A = Unit {0}} 1)
          Q
  execute n three four argv handed program =
      Keeps->>=
        (quiet t p fuel Known (Stage t p fuel Known n three four) (execvp argv)
          (λ s h. (handed s h, rw (h.0) program)) (λ s r. refl))
        (λ _. exit-Keeps fuel 1 (can t p fuel Known (At t p fuel Known n three four)))

  first-IsHanded :
      (s : Files) → Stage t p fuel Known 1 (some first) none s → IsHanded t p s.forks s.table
  first-IsHanded s (forks, at3, at4, kept) = rw forks (at3, at4, kept)

  second-IsHanded :
      (s : Files) → Stage t p fuel Known 2 none (some second) s → IsHanded t p s.forks s.table
  second-IsHanded s (forks, at3, at4, kept) = rw forks (at3, at4, kept)

  after_helper_fork-Keeps :
      (f : Fork)
      → Keeps
          (file_protocol t p)
          (At t p fuel Known 1 (some first) (some second))
          (after_helper_fork fuel f)
          (At t p fuel Known 1 none (some second))
  unfolding after_helper_fork become
  after_helper_fork-Keeps (failed errno) = exit-Keeps fuel 1 (can t p fuel Known _)
  after_helper_fork-Keeps child = gets-Keeps (λ argv.
      Keeps-when (λ s g h. rw (h.1) at (h.0.1.0))
        (λ (built : p.helper ≡ done argv).
          Keeps-of {P = At t p fuel Known 1 (some first) (some second)} (λ s g h. h.0)
            (Keeps->>= (close_four t p fuel Known 1 (some first) (some second))
              (λ _. execute 1 (some first) none argv first-IsHanded built))))
  after_helper_fork-Keeps (parent pid) =
      Keeps->> (modify-Keeps {P = At t p fuel Known 1 (some first) (some second)} _ (λ s g h. h))
        (Keeps->>= (close_three t p fuel Known 1 (some first) (some second)) (λ _. pure-Keeps tt))

  after_command_fork-Keeps :
      (f : Fork)
      → Keeps
          (file_protocol t p)
          (At t p fuel Known 2 none (some second))
          (after_command_fork fuel f)
          (At t p fuel Known 2 none none)
  unfolding after_command_fork become
  after_command_fork-Keeps (failed errno) = exit-Keeps fuel 1 (can t p fuel Known _)
  after_command_fork-Keeps child = gets-Keeps (λ argv.
      Keeps-when (λ s g h. rw (h.1) at (h.0.1.1))
        (λ (given : p.command ≡ done argv).
          Keeps-of {P = At t p fuel Known 2 none (some second)} (λ s g h. h.0)
            (Keeps->>= (close_three t p fuel Known 2 none (some second))
              (λ _. execute 2 none (some second) argv second-IsHanded given))))
  after_command_fork-Keeps (parent pid) =
      Keeps->> (modify-Keeps {P = At t p fuel Known 2 none (some second)} _ (λ s g h. h))
        (Keeps->>= (close_four t p fuel Known 2 none (some second)) (λ _. pure-Keeps tt))

  next_round-Keeps :
      {rest : M ℕ} (w : Waitpid)
      → Keeps
          (file_protocol t p)
          (At t p fuel Known 2 none none)
          rest
          (At t p fuel Known 2 none none)
      → (r : Option ℕ)
      → Keeps
          (file_protocol t p)
          (At t p fuel Known 2 none none)
          (elim r [ some code ↦ stop_waiting fuel (reaps w) code | none ↦ rest ])
          (At t p fuel Known 2 none none)
  unfolding stop_waiting
  next_round-Keeps w k (some code) =
      Keeps->> (modify-Keeps {P = At t p fuel Known 2 none none} _ (λ s g h. h)) (pure-Keeps code)
  next_round-Keeps w k none = k

  wait_for_command-Keeps :
      (rounds : ℕ)
      → Keeps
          (file_protocol t p)
          (At t p fuel Known 2 none none)
          (wait_for_command fuel rounds)
          (At t p fuel Known 2 none none)
  unfolding wait_for_command
  wait_for_command-Keeps zero = record { obeys = λ s g h. tt }
  wait_for_command-Keeps (suc rounds) = gets-Keeps (λ pid.
      Keeps-of {P = At t p fuel Known 2 none none} (λ s g h. h.0)
        (Keeps->>=
          (quiet t p fuel Known (Stage t p fuel Known 2 none none) (waitpid pid)
            (λ s h. (h.1, h.2, h.3)) (λ s r. refl))
          (λ w.
            Keeps->>=
              (lift-Is t p fuel Known (Stage t p fuel Known 2 none none) (wait_round w)
                (wait_round-Unaborted w))
              (next_round-Keeps w (wait_for_command-Keeps rounds)))))

  run-Keeps :
      (three four : Option Processes.File)
      → Keeps (file_protocol t p) (At t p fuel Known 0 three four) (run fuel) (λ s g. Unit)
  unfolding run start_helper start_command
  run-Keeps three four =
      let (signals, leader, handler) =
        prepare-Is t p fuel Known (Stage t p fuel Known 0 three four) in
      Keeps->> signals (
        Keeps->> leader (
          Keeps->> handler (
            Keeps->> (create_socketpair-Keeps three four) (
              Keeps->>
                (Keeps->>= (fork-Keeps t p fuel Known 0 (some first) (some second))
                  after_helper_fork-Keeps)
                (Keeps->>
                  (Keeps->>= (fork-Keeps t p fuel Known 1 none (some second))
                    after_command_fork-Keeps)
                  (Keeps->>= (wait_for_command-Keeps fuel)
                    (λ code. exit-Keeps fuel code (can t p fuel Known _))))))))

-- What a part of the program has computed is known to the rest.
lift-known :
    {t : Descriptors} {p : Programs} (fuel : ℕ) {A B : Type 0}
    {P Q : Assertion (file_protocol t p) fuel} (m : Outcome A) {k : A → M B}
    → Unaborted m
    → CanExit (file_protocol t p) fuel P
    → ((a : A) → m ≡ done a → Keeps (file_protocol t p) P (k a) Q)
    → Keeps (file_protocol t p) P (lift fuel m >>= k) Q
unfolding lift ◌>>=◌ pure
lift-known fuel (done a) u may rest = record { obeys = (rest a refl).obeys }
lift-known fuel (Outcome.exited code message) u may rest =
    Keeps->>= {Q = λ s g. ⊥} (exit-Keeps fuel code may) (λ a. record { obeys = λ s g h. absurd h })
lift-known fuel Outcome.aborted u may rest = absurd u
lift-known fuel Outcome.out_of_fuel u may rest = record { obeys = λ s g h. tt }

module _ (t : Descriptors) (fuel : ℕ) (uuid_parse inet_aton : String → Bool)
    (items : List (String × Opt)) (rest : List String) (dir : String)
    (version : Option (List ℕ)) where
  abbrev p : Programs
  p = programs uuid_parse inet_aton items rest dir version

  -- Before the arguments are in the globals.
  abbrev Parsing : Assertion (file_protocol t p) fuel
  Parsing = At t p fuel (λ helper command. Unit) 0 (t 3) (t 4)

  main-Keeps :
      Keeps
        (file_protocol t p)
        Parsing
        (main fuel uuid_parse inet_aton items rest dir)
        (λ s g. Unit)
  unfolding main
  main-Keeps =
      lift-known fuel (parse_options uuid_parse inet_aton no_options items rest)
        (parse_options-Unaborted _ _ _ items rest) (can t p fuel (λ helper command. Unit) Parsing)
        (λ (o, command) parsed.
          ask-then-Keeps sysctl (λ text s g. Parsing s g × (text ≡ version)) (λ s g h. tt)
            (λ s g text h same. (h, same))
            (λ text.
              Keeps-when (λ s g h. h.1)
                (λ same.
                  Keeps-of {P = Parsing} (λ s g h. h.0)
                    (lift-known fuel (build_helper_argv text (resolve_helper_path dir) o)
                      (build_helper_argv-Unaborted text _ o)
                      (can t p fuel (λ helper command. Unit) Parsing)
                      (λ argv built.
                        Keeps->>
                          (modify-Keeps {Q = At t p fuel (Known t p fuel) 0 (t 3) (t 4)} _ (λ s g h.
                            (h.0, (ground (arith, parsed, same, built), ground (arith, parsed)))))
                          (run-Keeps t p fuel (t 3) (t 4)))))))

  -- If `socketpair` gives out the lowest free descriptors, and whatever else the system replies, with any `version` as
  -- the reply of `sysctl`: the first child of vmnet-run is executed with the arguments that `build_helper_argv` builds
  -- of the accepted options, the first end of the pair at 3 and nothing at 4; the second child is executed with
  -- the command of the command line, the second end at 4 and nothing at 3; vmnet-run waits for the command with
  -- nothing at 3 and 4; and no descriptor above 4 has changed in any of them.
  pub main-Obeys-file_protocol :
      Obeys
        (file_protocol t p)
        (λ s r. Unit)
        (record { table = t; forks = 0 })
        (main fuel uuid_parse inet_aton items rest dir initial_globals)
  main-Obeys-file_protocol =
      main-Keeps.obeys (record { table = t; forks = 0 }) initial_globals
        ((refl, refl, refl, λ n lt. refl), tt)

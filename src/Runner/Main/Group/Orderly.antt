-- ===== src/Runner/Main/Group/Orderly.antt =====
-- `main` of programs/run.c under `group_protocol`.
use vmnet_helper.Prelude.{
  ℕ, zero, suc, ◌≡◌, refl, ◌∙◌, Bool, List, String, Option, none, some, Outcome,
}
use vmnet_helper.Behaviour.Protocol.{Obeys}
use vmnet_helper.Runner.Calls.{
  dup2, set_send_buffer, set_receive_buffer, Fork, failed, child, parent, sys, sysctl, close,
  socketpair, fork, execvp, waitpid,
}
use vmnet_helper.Runner.Globals.{Globals, initial_globals, M, modify, ask, lift}
use vmnet_helper.Runner.Main.Discipline.{
  Keeps, Keeps->>=, Keeps->>, pure-Keeps, gets-Keeps, modify-Keeps, Keeps-of, ask-Keeps, exit-Keeps,
  or_exit_none-Keeps, lift-Keeps, Unaborted,
}
use vmnet_helper.Runner.Processes.{Waitpid, wait_round}
use vmnet_helper.Runner.CommandLine.{Opt}
use vmnet_helper.Runner.Main.{
  reaps, set_socket_buffers, place_pair, create_socketpair, become, after_helper_fork, start_helper,
  after_command_fork, start_command, stop_waiting, wait_for_command, run, main,
}
use vmnet_helper.Runner.Main.Unaborted.{
  build_helper_argv-Unaborted, parse_options-Unaborted, wait_round-Unaborted,
}
use vmnet_helper.Runner.Main.Group.{group_protocol, newborn}
use vmnet_helper.Runner.Main.Group.Ending.{
  Early, IsReady, Ready-CanExit, Early-CanExit, quiet_must, quiet,
}
use vmnet_helper.Runner.Main.Group.Stages.{
  setup_signals-Keeps, become_process_group_leader-Keeps, defer_terminate_process_group-Keeps,
}

module _ (fuel : ℕ) where
  lift-Ready :
      {A : Type 0} (m : Outcome A)
      → Unaborted m
      → Keeps group_protocol IsReady (lift fuel m) IsReady
  lift-Ready m u = lift-Keeps fuel m u (Ready-CanExit fuel)

  place_pair-Keeps : (p : ℕ × ℕ) → Keeps group_protocol IsReady (place_pair fuel p) IsReady
  unfolding place_pair
  place_pair-Keeps (a, b) =
      Keeps->> (quiet_must fuel (dup2 b _) (λ s. tt) (λ s r. refl))
        (quiet_must fuel (dup2 a _) (λ s. tt) (λ s r. refl))

  set_socket_buffers-Keeps :
      (fd : ℕ) → Keeps group_protocol IsReady (set_socket_buffers fuel fd) IsReady
  unfolding set_socket_buffers
  set_socket_buffers-Keeps fd =
      Keeps->>= (quiet fuel (sys (set_send_buffer fd _)) (λ s. tt) (λ s r. refl)) (λ _.
        gets-Keeps (λ tso.
          Keeps-of {P = IsReady} (λ s g p. p.0)
            (Keeps->>= (quiet fuel (sys (set_receive_buffer fd _)) (λ s. tt) (λ s r. refl))
              (λ _. pure-Keeps tt))))

  create_socketpair-Keeps : Keeps group_protocol IsReady (create_socketpair fuel) IsReady
  unfolding create_socketpair
  create_socketpair-Keeps = Keeps->>= (quiet fuel (close _) (λ s. tt) (λ s r. refl)) (λ _.
      Keeps->>= (quiet fuel (close _) (λ s. tt) (λ s r. refl)) (λ _.
        Keeps->>= (quiet fuel socketpair (λ s. tt) (λ s r. refl)) (λ fds.
          Keeps->>= (or_exit_none-Keeps fuel fds (Ready-CanExit fuel)) (λ pair.
            Keeps->> (place_pair-Keeps pair)
              (Keeps->> (set_socket_buffers-Keeps _) (set_socket_buffers-Keeps _))))))

  become-Keeps :
      (fd : ℕ) (argv : List String) → Keeps group_protocol IsReady (become fuel fd argv) IsReady
  unfolding become
  become-Keeps fd argv = Keeps->>= (quiet fuel (close fd) (λ s. tt) (λ s r. refl)) (λ _.
      Keeps->>= (quiet fuel (execvp argv) (λ s. tt) (λ s r. refl))
        (λ _. exit-Keeps fuel 1 (Ready-CanExit fuel)))

  fork-Keeps : Keeps group_protocol IsReady (ask fork) IsReady
  fork-Keeps =
      ask-Keeps fork (λ s g p. (p.catches_term, p.catches_int, p.leads, p.registered))
        (λ s g r p _. p)

  known_after :
      (f : Globals → Globals)
      → ((g : Globals) → (f g).registered ≡ g.registered)
      → Keeps group_protocol IsReady (modify f) IsReady
  known_after f same = modify-Keeps f (λ s g p. record {
    catches_term = p.catches_term;
    catches_int = p.catches_int;
    leads = p.leads;
    registered = p.registered;
    known = same g ∙ p.known;
  })

  after_helper_fork-Keeps :
      (f : Fork) → Keeps group_protocol IsReady (after_helper_fork fuel f) IsReady
  unfolding after_helper_fork
  after_helper_fork-Keeps (failed errno) = exit-Keeps fuel 1 (Ready-CanExit fuel)
  after_helper_fork-Keeps child =
      gets-Keeps (λ argv. Keeps-of {P = IsReady} (λ s g p. p.0) (become-Keeps _ argv))
  after_helper_fork-Keeps (parent pid) =
      Keeps->> (known_after _ (λ g. refl))
        (Keeps->>= (quiet fuel (close _) (λ s. tt) (λ s r. refl)) (λ _. pure-Keeps tt))

  after_command_fork-Keeps :
      (f : Fork) → Keeps group_protocol IsReady (after_command_fork fuel f) IsReady
  unfolding after_command_fork
  after_command_fork-Keeps (failed errno) = exit-Keeps fuel 1 (Ready-CanExit fuel)
  after_command_fork-Keeps child =
      gets-Keeps (λ argv. Keeps-of {P = IsReady} (λ s g p. p.0) (become-Keeps _ argv))
  after_command_fork-Keeps (parent pid) =
      Keeps->> (known_after _ (λ g. refl))
        (Keeps->>= (quiet fuel (close _) (λ s. tt) (λ s r. refl)) (λ _. pure-Keeps tt))

  next_round-Keeps :
      {rest : M ℕ} (w : Waitpid)
      → Keeps group_protocol IsReady rest IsReady
      → (r : Option ℕ)
      → Keeps group_protocol IsReady
          (elim r [ some code ↦ stop_waiting fuel (reaps w) code | none ↦ rest ])
          IsReady
  unfolding stop_waiting
  next_round-Keeps w k (some code) = Keeps->> (known_after _ (λ g. refl)) (pure-Keeps code)
  next_round-Keeps w k none = k

  wait_for_command-Keeps :
      (rounds : ℕ) → Keeps group_protocol IsReady (wait_for_command fuel rounds) IsReady
  unfolding wait_for_command stop_waiting
  wait_for_command-Keeps zero = record { obeys = λ s g p. tt }
  wait_for_command-Keeps (suc rounds) = gets-Keeps (λ pid.
      Keeps-of {P = IsReady} (λ s g p. p.0)
        (Keeps->>= (quiet fuel (waitpid pid) (λ s. tt) (λ s r. refl)) (λ w.
          Keeps->>= (lift-Ready (wait_round w) (wait_round-Unaborted w))
            (next_round-Keeps w (wait_for_command-Keeps rounds)))))

  run-Keeps : Keeps group_protocol (Early newborn) (run fuel) (λ s g. Unit)
  unfolding run start_helper start_command
  run-Keeps = Keeps->> (setup_signals-Keeps fuel) (
      Keeps->> (become_process_group_leader-Keeps fuel) (
        Keeps->> (defer_terminate_process_group-Keeps fuel) (
          Keeps->> create_socketpair-Keeps (
            Keeps->> (Keeps->>= fork-Keeps after_helper_fork-Keeps) (
              Keeps->> (Keeps->>= fork-Keeps after_command_fork-Keeps) (
                Keeps->>= (wait_for_command-Keeps fuel)
                  (λ code. exit-Keeps fuel code (Ready-CanExit fuel))))))))

  lift-Early :
      {A : Type 0} (m : Outcome A)
      → Unaborted m
      → Keeps group_protocol (Early newborn) (lift fuel m) (Early newborn)
  lift-Early m u = lift-Keeps fuel m u (Early-CanExit fuel newborn)

module _ (fuel : ℕ) (uuid_parse inet_aton : String → Bool) (items : List (String × Opt))
    (rest : List String) (dir : String) where
  main-Keeps :
      Keeps group_protocol
        (Early newborn)
        (main fuel uuid_parse inet_aton items rest dir)
        (λ s g. Unit)
  unfolding main
  main-Keeps =
      Keeps->>= (lift-Early fuel _ (parse_options-Unaborted _ _ _ items rest)) (λ (o, command).
        Keeps->>= {Q = Early newborn} (ask-Keeps sysctl (λ s g p. tt) (λ s g r p _. p)) (λ text.
          Keeps->>= (lift-Early fuel _ (build_helper_argv-Unaborted text _ o))
            (λ argv. Keeps->> (modify-Keeps _ (λ s g p. (p.0, p.1, p.2))) (run-Keeps fuel))))

  -- Whatever the system replies, in vmnet-run and in a child of it until `execvp`: no assertion fails; a process is
  -- started only with SIGTERM and SIGINT caught, in a group that vmnet-run leads, and with the exit handler registered
  -- that terminates the group; only that group is signalled, by a process that ignores the signal; and a process that ends
  -- after the handler was registered has no child left, or could not signal the group, or `wait` has failed otherwise.
  pub main-Obeys-group_protocol :
      Obeys group_protocol
        (λ s r. Unit)
        newborn
        (main fuel uuid_parse inet_aton items rest dir initial_globals)
  main-Obeys-group_protocol = main-Keeps.obeys newborn initial_globals (refl, refl, refl)

-- ===== src/Scenarios/RunnerMain.antt =====
-- A run of vmnet-run from its command line.
use vmnet_helper.Prelude.{
  ltb, if◌then◌else◌, none, ℕ, Bool, true, List, [], ◌∷◌, some, String, arith,
}
use vmnet_helper.Behaviour.Protocol.{Obeys, Settles}
use vmnet_helper.Libc.{codes}
use vmnet_helper.Runner.CommandLine.{Opt, network, enable_tso}
use vmnet_helper.Runner.Globals.{Globals, initial_globals, exit}
use vmnet_helper.Runner.Main.{main}
use vmnet_helper.Runner.Main.Group.{group_protocol, newborn}
use vmnet_helper.Runner.Main.Group.Orderly.{main-Obeys-group_protocol}
use vmnet_helper.Runner.Processes.{Descriptors, other}
use vmnet_helper.Runner.Main.Files.{programs, file_protocol}
use vmnet_helper.Runner.Main.Files.Handed.{main-Obeys-file_protocol}
use vmnet_helper.Runner.Main.Reaping.{children, exit-Settles}

abbrev anything : String → Bool
anything s = true

abbrev items : List (String × Opt)
items = ("--network", network "shared") ∷ ("--enable-tso", enable_tso) ∷ []

main-Obeys-group_protocol_example :
    Obeys group_protocol
      (λ s r. Unit)
      newborn
      (main 8 anything anything items ("vfkit" ∷ []) "/opt/vmnet-helper/bin" initial_globals)
main-Obeys-group_protocol_example =
    main-Obeys-group_protocol 8 anything anything items ("vfkit" ∷ []) "/opt/vmnet-helper/bin"

-- Both processes have been started.
abbrev both_started : Globals
both_started = record initial_globals {
  helper_pid = some 100;
  command_pid = some 101;
  registered = true;
}

exit-Settles_example : Settles children 2 (exit 3 {A = ℕ} 0 both_started)
exit-Settles_example = exit-Settles ℕ 3 2 0 both_started (omega arith)

-- vmnet-run starts with its standard streams only.
abbrev standard : Descriptors
standard n = if ltb n 3 then some (other n) else none

main-Obeys-file_protocol_example :
    Obeys
      (file_protocol standard (
        programs anything anything items
          ("vfkit" ∷ [])
          "/opt/vmnet-helper/bin"
          (some (codes "26.0"))))
      (λ s r. Unit)
      (record { table = standard; forks = 0 })
      (main 8 anything anything items ("vfkit" ∷ []) "/opt/vmnet-helper/bin" initial_globals)
main-Obeys-file_protocol_example =
    main-Obeys-file_protocol standard 8 anything anything items ("vfkit" ∷ [])
      "/opt/vmnet-helper/bin" (some (codes "26.0"))

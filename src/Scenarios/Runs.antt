-- ===== src/Scenarios/Runs.antt =====
-- Command lines of vmnet-run.
use vmnet_helper.Prelude.{
  ◌<◌, ◌≡◌, refl, Bool, true, false, List, [], ◌∷◌, some, String, length, done,
}
use vmnet_helper.Libc.{codes, strtol}
use vmnet_helper.Runner.Arguments.{
  no_options, ClientOptions, requires_root, build_helper_argv, helper_slots,
}
use vmnet_helper.Runner.Arguments.Fit.{arguments, build_helper_argv_fits}
use vmnet_helper.Runner.CommandLine.Verdict.{runner_verdict}
use vmnet_helper.Runner.CommandLine.{
  Opt, network, enable_tso, apply_options, apply_option, parse_options,
}

abbrev shared_network : ClientOptions
shared_network = record no_options { network_name = some "shared"; enable_tso = true }

pub macos_15 : requires_root (some (codes "15.6.1")) ≡ done true
unfolding requires_root strtol
macos_15 = refl

macos_26 : requires_root (some (codes "26.0")) ≡ done false
unfolding requires_root strtol
macos_26 = refl

build_helper_argv_fits_example :
    (build_helper_argv (some (codes "15.6.1")) "/opt/vmnet-helper/bin/vmnet-helper" shared_network
      ≡ done (arguments true "/opt/vmnet-helper/bin/vmnet-helper" shared_network))
    × (length (arguments true "/opt/vmnet-helper/bin/vmnet-helper" shared_network) < helper_slots)
build_helper_argv_fits_example =
    build_helper_argv_fits (some (codes "15.6.1")) "/opt/vmnet-helper/bin/vmnet-helper"
      shared_network true macos_15

abbrev network_items : List (String × Opt)
network_items = ("--network", network "shared") ∷ ("--enable-tso", enable_tso) ∷ []

abbrev command : List String
command = "vfkit" ∷ []

abbrev anything : String → Bool
anything s = true

network_read : apply_options anything anything no_options network_items ≡ done shared_network
unfolding apply_options apply_option
network_read = refl

runner_verdict_example :
    parse_options anything anything no_options network_items command
    ≡ done (shared_network, command)
runner_verdict_example =
    runner_verdict anything anything no_options shared_network network_items command network_read

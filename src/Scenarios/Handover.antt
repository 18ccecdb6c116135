-- ===== src/Scenarios/Handover.antt =====
-- A command line of vmnet-run, and what vmnet-helper makes of it.
use vmnet_helper.Prelude.{
  ◌≡◌, refl, true, false, List, [], ◌∷◌, ◌++◌, Option, none, some, String, ◌<>◌, str_eq, done,
  if◌then◌else◌,
}
use vmnet_helper.Libc.{codes, strtol}
use vmnet_helper.Options.{
  HasArg, no_argument, required_argument, long_options, parse_options, Opt, initial_options,
  find_id, parse_stats_interval,
}
use vmnet_helper.Options.Valid.{with_mode}
use vmnet_helper.Runner.Arguments.{ClientOptions, no_options, build_helper_argv}
use vmnet_helper.Runner.Arguments.Fit.{arguments, sudo}
use vmnet_helper.Runner.CommandLine
use vmnet_helper.Runner.Handover.{GetoptLong, ReadsOptions, accepts_uuid, handed}
use vmnet_helper.Runner.Handover.Reading.{vmnet_run-handed}
use vmnet_helper.Scenarios.CommandLine.{environment}
use vmnet_helper.Scenarios.Runs.{macos_15}

-- The entry of the option that a word is.
abbrev entry_of : List (String × HasArg) → String → Option HasArg
entry_of [] w = none
entry_of ((name, arg) ∷ table) w = if str_eq ("--" <> name) w then some arg else entry_of table w

abbrev attached_of : List (String × HasArg) → String → Option HasArg
attached_of [] w = none
attached_of ((name, arg) ∷ table) w =
    if str_eq ("--" <> (name <> ("=" <> "3"))) w then some arg else attached_of table w

-- A reader of long options; the option before waits for its argument.
abbrev scan :
    List (String × HasArg) → Option (String × (String → Opt)) → List String → List (String × Opt)
scan table waiting [] = []
scan table (some (name, opt)) (w ∷ ws) = (name, opt w) ∷ scan table none ws
scan table none (w ∷ ws) = elim (entry_of table w) [
  | some arg ↦ elim arg [
    | no_argument opt ↦ (w, opt) ∷ scan table none ws
    | required_argument opt ↦ scan table (some (w, opt)) ws
  ]
  | none ↦ elim (attached_of table w) [
    | some arg ↦ elim arg [
      | no_argument opt ↦ scan table none ws
      | required_argument opt ↦ (w, opt "3") ∷ scan table none ws
    ]
    | none ↦ scan table none ws
  ]
]

abbrev read_options : GetoptLong
read_options table [] = []
read_options table (path ∷ ws) = scan table none ws

read_options-ReadsOptions : ReadsOptions read_options long_options
read_options-ReadsOptions = record {
  ends = λ path. refl;
  entries = (
    λ path arg words. refl,
    (
      λ path arg words. refl,
      (
        λ path arg words. refl,
        (
          λ path arg words. refl,
          (
            λ path arg words. refl,
            (
              λ path arg words. refl,
              (
                λ path arg words. refl,
                (
                  λ path arg words. refl,
                  (
                    λ path words. refl,
                    (
                      λ path words. refl,
                      (
                        λ path words. refl,
                        (
                          λ path words. refl,
                          (
                            λ path arg words. refl,
                            (
                              λ path arg words. refl,
                              (λ path words. refl, (λ path words. refl, (λ path words. refl, tt))),
                            ),
                          ),
                        ),
                      ),
                    ),
                  ),
                ),
              ),
            ),
          ),
        ),
      ),
    ),
  );
  attached = (
    λ path words. refl,
    (
      λ path words. refl,
      (
        λ path words. refl,
        (
          λ path words. refl,
          (
            λ path words. refl,
            (
              λ path words. refl,
              (
                λ path words. refl,
                (
                  λ path words. refl,
                  (
                    tt,
                    (
                      tt,
                      (tt, (tt, (λ path words. refl, (λ path words. refl, (tt, (tt, (tt, tt))))))),
                    ),
                  ),
                ),
              ),
            ),
          ),
        ),
      ),
    ),
  );
}

abbrev given : List (String × CommandLine.Opt)
given =
    ("--operation-mode", CommandLine.operation_mode "host")
    ∷ ("--start-address", CommandLine.start_address "192.168.66.1")
    ∷ ("--end-address", CommandLine.end_address "192.168.66.254")
    ∷ ("--subnet-mask", CommandLine.subnet_mask "255.255.255.0")
    ∷ ("--stats-interval", CommandLine.stats_interval "30")
    ∷ []

abbrev stored : ClientOptions
stored = record no_options {
  operation_mode = some "host";
  start_address = some "192.168.66.1";
  end_address = some "192.168.66.254";
  subnet_mask = some "255.255.255.0";
  stats_interval = some "30";
}

given_parsed :
    CommandLine.parse_options
      (accepts_uuid environment)
      environment.inet_aton
      no_options
      given
      ("vfkit" ∷ [])
    ≡ done (stored, "vfkit" ∷ [])
unfolding CommandLine.parse_options CommandLine.apply_options CommandLine.apply_option
    CommandLine.check_options CommandLine.check_command CommandLine.validate_operation_mode
    CommandLine.validate_address
given_parsed = refl

abbrev helper_path : String
helper_path = "/opt/vmnet-helper/bin/vmnet-helper"

vmnet_run-handed_example :
    (build_helper_argv (some (codes "15.6.1")) helper_path stored
      ≡ done (sudo true ++ arguments false helper_path stored))
    × (parse_options environment initial_options
          (read_options long_options (arguments false helper_path stored))
        ≡ done (record (with_mode (handed environment stored)) { uid = 501; gid = 20 }))
unfolding find_id parse_stats_interval strtol
vmnet_run-handed_example =
    vmnet_run-handed environment read_options (some (codes "15.6.1")) true helper_path stored given
      ("vfkit" ∷ []) ("vfkit" ∷ []) 501 20 read_options-ReadsOptions macos_15 given_parsed refl refl
      refl refl

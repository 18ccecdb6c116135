-- ===== src/Runner/CommandLine/Verdict.antt =====
-- What `parse_options` of programs/run.c decides.
use vmnet_helper.Prelude.{
  ◌≡◌, Bool, true, false, not, ◌&&◌, ◌||◌, List, [], ◌∷◌, String, Outcome, done, exited, arith,
  if◌then◌else◌,
}
use vmnet_helper.Runner.Arguments.{ClientOptions}
use vmnet_helper.Runner.CommandLine.{
  Opt, is_bridged, is_set, apply_options, check_network, check_bridged, check_options,
  check_command, unset_network_option, parse_options,
}

-- The combinations that vmnet-run lets through: no other network option with a network, and in bridged mode a shared
-- interface without isolation. Outside bridged mode nothing is asked of the address options, so that one of them alone
-- is let through.
abbrev pub consistent : ClientOptions → Bool
consistent o =
    if is_set o.network_name
    then not (
        is_set o.operation_mode
        || (is_set o.shared_interface
            || (is_set o.start_address || (is_set o.end_address || is_set o.subnet_mask))))
    else not (is_bridged o.operation_mode) || is_set o.shared_interface && not o.enable_isolation

abbrev pub some_command : List String → Bool
some_command [] = false
some_command (arg ∷ args) = true

-- The last message before an exit.
abbrev pub reason : {A : Type 0} → Outcome A → String
reason (exited c m) = m
reason _ = ""

check_options-verdict :
    (o : ClientOptions)
    → check_options o ≡ (if consistent o then done o else exited 1 (reason (check_options o)))
unfolding check_options check_network check_bridged unset_network_option
check_options-verdict o = ground arith

-- Once the options are stored, `parse_options` of vmnet-run goes on with them and the command exactly if there is a command and the
-- options are one of these: a network name without a mode, a shared interface or an address; a mode other than bridged
-- or none, whatever the address options are, also if only one of the three is given; or bridged mode with a shared
-- interface and without isolation. Otherwise it exits with status 1.
pub runner_verdict :
    (uuid_parse inet_aton : String → Bool) (start o : ClientOptions) (items : List (String × Opt))
    (command_argv : List String)
    → apply_options uuid_parse inet_aton start items ≡ done o
    → parse_options uuid_parse inet_aton start items command_argv ≡ (
        if consistent o && some_command command_argv
        then done (o, command_argv)
        else exited 1 (reason (parse_options uuid_parse inet_aton start items command_argv)))
unfolding parse_options check_command
runner_verdict uuid_parse inet_aton start o items [] h = ground (arith, h, check_options-verdict o)
runner_verdict uuid_parse inet_aton start o items (arg ∷ args) h =
    ground (arith, h, check_options-verdict o)

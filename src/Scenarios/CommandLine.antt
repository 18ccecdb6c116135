-- ===== src/Scenarios/CommandLine.antt =====
-- Command lines of vmnet-helper and vmnet-run.
use vmnet_helper.Prelude.{
  ◌≡◌, refl, true, List, [], ◌∷◌, none, some, String, done, exited, if◌then◌else◌,
}
use vmnet_helper.Libc.{strtol}
use vmnet_helper.Options.{
  Options, Environment, Opt, fd, operation_mode, shared_interface, initial_options,
  vmnet_bridged_mode, parse_options, apply_options, apply_option, resolve_ids, find_id, parse_fd,
  parse_operation_mode, check_options, check_mode, check_bridged, check_socket,
}
use vmnet_helper.Options.Parsers.{parse_fd-decimal}
use vmnet_helper.Options.Valid.{
  Accepted, consistent, with_mode, reason, parse_options-verdict, parse_options-Accepted,
}

abbrev pub environment : Environment
environment = record {
  uuid_parse = λ s. none;
  inet_aton = λ s. true;
  getenv = λ s. none;
  getuid = 501;
  getgid = 20;
  has_shared_interfaces = true;
}

abbrev bridged_items : List (String × Opt)
bridged_items =
    ("--fd", fd "3")
    ∷ ("--operation-mode", operation_mode "bridged")
    ∷ ("--shared-interface", shared_interface "en0")
    ∷ []

abbrev bridged_options : Options
bridged_options = record initial_options {
  fd = some 3;
  operation_mode = vmnet_bridged_mode;
  shared_interface = some "en0";
}

bridged_read : apply_options environment initial_options bridged_items ≡ done bridged_options
unfolding apply_options apply_option parse_fd parse_operation_mode strtol
bridged_read = refl

abbrev bridged_run : Options
bridged_run = record bridged_options { uid = 501; gid = 20 }

bridged_parsed : parse_options environment initial_options bridged_items ≡ done bridged_run
unfolding parse_options apply_options apply_option parse_fd parse_operation_mode check_options
    check_mode check_bridged check_socket resolve_ids find_id strtol
bridged_parsed = refl

parse_options-verdict_example : parse_options environment initial_options bridged_items ≡ (
    if consistent bridged_options
    then resolve_ids environment (with_mode bridged_options)
    else exited 1 (reason (parse_options environment initial_options bridged_items)))
parse_options-verdict_example =
    parse_options-verdict environment bridged_items bridged_options bridged_read

parse_options-Accepted_example : Accepted bridged_run
parse_options-Accepted_example =
    parse_options-Accepted environment bridged_items bridged_run bridged_parsed

-- 2147483648 is INT_MAX + 1.
parse_fd-decimal_example : parse_fd "2147483648" ≡ exited 1 "Invalid fd '2147483648'"
parse_fd-decimal_example =
    parse_fd-decimal "2147483648" b'2'
      (b'1' ∷ b'4' ∷ b'7' ∷ b'4' ∷ b'8' ∷ b'3' ∷ b'6' ∷ b'4' ∷ b'8' ∷ []) refl
      (refl, (refl, (refl, (refl, (refl, (refl, (refl, (refl, (refl, (refl, tt))))))))))

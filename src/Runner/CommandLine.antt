-- ===== src/Runner/CommandLine.antt =====
-- The command line of vmnet-run: parse_options of programs/run.c.
pub mod Verdict
use vmnet_helper.Prelude.{
  ◌≡◌, Bool, true, false, not, ◌&&◌, ◌||◌, List, [], ◌∷◌, Option, none, some, String, ◌<>◌, str_eq,
  Outcome, done, exited, require, ◌>>=◌, ◌>>◌, arith, if◌then◌else◌,
}
use vmnet_helper.Runner.Arguments.{ClientOptions}

-- What `getopt_long` returns, with `optarg` where the option takes an argument. `missing` is ':'
-- and `invalid` is '?'.
pub data Opt : Type 0 where
  interface_id : String → Opt
  operation_mode : String → Opt
  shared_interface : String → Opt
  start_address : String → Opt
  end_address : String → Opt
  subnet_mask : String → Opt
  enable_tso : Opt
  enable_checksum_offload : Opt
  enable_isolation : Opt
  network : String → Opt
  stats_interval : String → Opt
  verbose : Opt
  version : Opt
  help : Opt
  missing : Opt
  invalid : Opt

abbrev names : String → Option String → Bool
names word none = false
names word (some mode) = str_eq mode word

abbrev pub is_shared : Option String → Bool
is_shared mode = names "shared" mode

abbrev pub is_host : Option String → Bool
is_host mode = names "host" mode

abbrev pub is_bridged : Option String → Bool
is_bridged mode = names "bridged" mode

abbrev pub is_set : Option String → Bool
is_set none = false
is_set (some s) = true

unfoldable pub validate_operation_mode : String → Outcome (Unit {0})
validate_operation_mode arg =
    require
      (not
        (not (is_shared (some arg)) && (not (is_host (some arg)) && not (is_bridged (some arg)))))
      ("[runner] invalid operation-mode: \"" <> arg <> "\"")

-- `uuid_parse` and `inet_aton` are given as whether they accept a text.
module _ (uuid_parse inet_aton : String → Bool) where
  unfoldable pub validate_interface_id : String → Outcome (Unit {0})
  validate_interface_id arg =
      require (uuid_parse arg) ("[runner] invalid interface-id: \"" <> arg <> "\"")

  unfoldable pub validate_address : String → String → Outcome (Unit {0})
  validate_address arg name =
      require (inet_aton arg) ("[runner] invalid " <> name <> ": \"" <> arg <> "\"]")

  -- One round of the loop over the options. `name` is `optname`.
  unfoldable pub apply_option : ClientOptions → String × Opt → Outcome ClientOptions
  unfolding validate_interface_id validate_operation_mode validate_address
  apply_option o (name, help) = exited 0 "usage"
  apply_option o (name, interface_id arg) = do
    validate_interface_id arg
    done (record o { interface_id = some arg })
  apply_option o (name, operation_mode arg) = do
    validate_operation_mode arg
    done (record o { operation_mode = some arg })
  apply_option o (name, shared_interface arg) = done (record o { shared_interface = some arg })
  apply_option o (name, start_address arg) = do
    validate_address arg name
    done (record o { start_address = some arg })
  apply_option o (name, end_address arg) = do
    validate_address arg name
    done (record o { end_address = some arg })
  apply_option o (name, subnet_mask arg) = do
    validate_address arg name
    done (record o { subnet_mask = some arg })
  apply_option o (name, enable_tso) = done (record o { enable_tso = true })
  apply_option o (name, enable_checksum_offload) =
      done (record o { enable_checksum_offload = true })
  apply_option o (name, enable_isolation) = done (record o { enable_isolation = true })
  apply_option o (name, network arg) = done (record o { network_name = some arg })
  apply_option o (name, stats_interval arg) = done (record o { stats_interval = some arg })
  apply_option o (name, verbose) = done (record o { verbose = true })
  apply_option o (name, version) = exited 0 "version"
  apply_option o (name, missing) = exited 1 ("[runner] option " <> name <> " requires an argument")
  apply_option o (name, invalid) = exited 1 ("[runner] invalid option: " <> name)

  unfoldable pub apply_options : ClientOptions → List (String × Opt) → Outcome ClientOptions
  unfolding apply_option
  apply_options o [] = done o
  apply_options o (opt ∷ opts) = do o' ← apply_option o opt; apply_options o' opts

unfoldable pub unset_network_option : Bool → String → Outcome (Unit {0})
unset_network_option b name =
    require (not b) ("[runner] conflicting arguments: --network cannot be used with " <> name)

-- The checks with `--network`.
unfoldable pub check_network : ClientOptions → Outcome ClientOptions
unfolding unset_network_option
check_network o = do
  unset_network_option (is_set o.operation_mode) "--operation-mode"
  unset_network_option (is_set o.shared_interface) "--shared-interface"
  unset_network_option (is_set o.start_address) "--start-address"
  unset_network_option (is_set o.end_address) "--end-address"
  unset_network_option (is_set o.subnet_mask) "--subnet-mask"
  done o

-- The checks in bridged mode.
unfoldable pub check_bridged : ClientOptions → Outcome ClientOptions
check_bridged o = do
  require (is_set o.shared_interface)
      "[runner] missing argument: shared-interface is required for operation-mode=bridged"
  require (not o.enable_isolation)
      "[runner] conflicting arguments: enable-isolation not compatible with operation-mode=bridged"
  done o

unfoldable pub check_options : ClientOptions → Outcome ClientOptions
unfolding check_network check_bridged
check_options o =
    if is_set o.network_name
    then check_network o
    else if is_bridged o.operation_mode
    then check_bridged o
    else done o

-- `command_argv`, the arguments that `getopt_long` leaves.
unfoldable pub check_command : ClientOptions → List String → Outcome (ClientOptions × List String)
check_command o [] = exited 1 "[runner] no command specified"
check_command o (arg ∷ args) = done (o, arg ∷ args)

-- `parse_options`, given the options that `getopt_long` returns, each with its name, and the arguments it leaves.
unfoldable pub parse_options :
    (String → Bool)
    → (String → Bool)
    → ClientOptions
    → List (String × Opt)
    → List String
    → Outcome (ClientOptions × List String)
unfolding apply_options check_options check_command
parse_options uuid_parse inet_aton opts items command_argv = do
  o ← apply_options uuid_parse inet_aton opts items
  o' ← check_options o
  check_command o' command_argv

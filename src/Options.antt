-- ===== src/Options.antt =====
-- programs/options.c: the command line of vmnet-helper.
pub mod Parsers
pub mod Range
pub mod Valid
use vmnet_helper.Prelude.{
  ℕ, zero, suc, ◌+◌, ◌-◌, ◌^◌, ◌≡◌, Bool, true, false, not, ◌&&◌, ◌||◌, List, [], ◌∷◌, Option, none,
  some, String, ◌<>◌, str_eq, Outcome, done, exited, require, ◌>>=◌, ◌>>◌, ltb, leb, ◌==◌,
  if◌then◌else◌,
}
use vmnet_helper.Libc.{ℤ, pos, negsuc, codes, strlen, Strtol, strtol}

-- `uuid_t`, its sixteen bytes
abbrev pub Uuid : Type 0
Uuid = List ℕ

-- `operating_modes_t` of vmnet. 0 is no mode.
abbrev pub vmnet_host_mode : ℕ
vmnet_host_mode = 1000

abbrev pub vmnet_shared_mode : ℕ
vmnet_shared_mode = 1001

abbrev pub vmnet_bridged_mode : ℕ
vmnet_bridged_mode = 1002

-- `struct options`, with the global `verbose`. `fd` is `none` for -1, and the texts are `none` for NULL.
pub record Options : Type 0 where
  pub fd : Option ℕ
  pub socket : Option String
  pub operation_mode : ℕ
  pub interface_id : Uuid
  pub start_address : Option String
  pub end_address : Option String
  pub subnet_mask : Option String
  pub shared_interface : Option String
  pub network_name : Option String
  pub enable_isolation : Bool
  pub enable_tso : Bool
  pub enable_checksum_offload : Bool
  pub uid : ℕ
  pub gid : ℕ
  pub stats_interval : ℕ
  pub verbose : Bool

-- What the parser calls outside the C standard: `uuid_parse`, `inet_aton`, the environment, the
-- real user and group, and the bridgeable interfaces.
pub record Environment : Type 0 where
  pub uuid_parse : String → Option Uuid
  pub inet_aton : String → Bool
  pub getenv : String → Option String
  pub getuid : ℕ
  pub getgid : ℕ
  pub has_shared_interfaces : Bool

-- What the codes of `getopt_long` stand for, with `optarg` where the option takes an argument. `missing` is ':'
-- and `invalid` is '?'.
pub data Opt : Type 0 where
  help : Opt
  fd : String → Opt
  socket : String → Opt
  interface_id : String → Opt
  operation_mode : String → Opt
  shared_interface : String → Opt
  start_address : String → Opt
  end_address : String → Opt
  subnet_mask : String → Opt
  enable_tso : Opt
  enable_checksum_offload : Opt
  enable_isolation : Opt
  list_shared_interfaces : Opt
  network : String → Opt
  stats_interval : String → Opt
  verbose : Opt
  version : Opt
  missing : Opt
  invalid : Opt

-- An entry of `long_options`: `has_arg`, and the code that is returned.
pub data HasArg : Type 0 where
  no_argument : Opt → HasArg
  required_argument : (String → Opt) → HasArg

abbrev pub long_options : List (String × HasArg)
long_options =
    ("fd", required_argument fd)
    ∷ ("socket", required_argument socket)
    ∷ ("interface-id", required_argument interface_id)
    ∷ ("operation-mode", required_argument operation_mode)
    ∷ ("shared-interface", required_argument shared_interface)
    ∷ ("start-address", required_argument start_address)
    ∷ ("end-address", required_argument end_address)
    ∷ ("subnet-mask", required_argument subnet_mask)
    ∷ ("enable-tso", no_argument enable_tso)
    ∷ ("enable-checksum-offload", no_argument enable_checksum_offload)
    ∷ ("enable-isolation", no_argument enable_isolation)
    ∷ ("list-shared-interfaces", no_argument list_shared_interfaces)
    ∷ ("network", required_argument network)
    ∷ ("stats-interval", required_argument stats_interval)
    ∷ ("verbose", no_argument verbose)
    ∷ ("version", no_argument version)
    ∷ ("help", no_argument help)
    ∷ []

abbrev pub int_max : ℕ
int_max = 2 ^ 31 - 1

abbrev pub uid_max : ℕ
uid_max = 2 ^ 31 - 1

-- sizeof(address.sun_path) - 1
abbrev pub sun_path_max : ℕ
sun_path_max = 103

abbrev is_empty : List ℕ → Bool
is_empty [] = true
is_empty (c ∷ s) = false

-- `value < 0 || value > max`
abbrev out_of_range : ℤ → ℕ → Bool
out_of_range (pos n) max = ltb max n
out_of_range (negsuc n) max = true

abbrev magnitude : ℤ → ℕ
magnitude (pos n) = n
magnitude (negsuc n) = 0

-- A number that passed its checks is not negative.
-- `errno` in a message stands for the text of `strerror(errno)`.
unfoldable pub parse_fd : String → Outcome ℕ
parse_fd arg = do
  let r = strtol (codes arg)
  require (r.errno == 0) ("Invalid fd '" <> arg <> "': errno")
  require (not (not (is_empty r.rest) || out_of_range r.value int_max))
      ("Invalid fd '" <> arg <> "'")
  done (magnitude r.value)

unfoldable pub parse_socket : String → Outcome String
parse_socket arg = do
  require (leb (strlen arg) sun_path_max) ("Socket \"" <> arg <> "\" too long")
  done arg

unfoldable pub parse_id : String → String → Outcome ℕ
parse_id arg name = do
  let r = strtol (codes arg)
  require (r.errno == 0) ("Invalid " <> name <> " '" <> arg <> "': errno")
  require (not (not (is_empty r.rest) || out_of_range r.value uid_max))
      ("Invalid " <> name <> " '" <> arg <> "'")
  done (magnitude r.value)

-- `value < 1 || value > INT_MAX`
abbrev not_positive : ℤ → Bool
not_positive (pos n) = ltb n 1
not_positive (negsuc n) = true

unfoldable pub parse_stats_interval : String → Outcome ℕ
parse_stats_interval arg = do
  let r = strtol (codes arg)
  require
      (not (
        not (r.errno == 0)
        || (not (is_empty r.rest) || (not_positive r.value || out_of_range r.value int_max))))
      ("Invalid --stats value '" <> arg <> "': must be a positive integer")
  done (magnitude r.value)

unfoldable pub parse_operation_mode : String → String → Outcome ℕ
parse_operation_mode arg name =
    if str_eq arg "shared"
    then done vmnet_shared_mode
    else if str_eq arg "bridged"
    then done vmnet_bridged_mode
    else if str_eq arg "host"
    then done vmnet_host_mode
    else exited 1 ("Invalid " <> name <> ": \"" <> arg <> "\"")

abbrev pub is_set : {A : Type 0} → Option A → Bool
is_set none = false
is_set (some a) = true

abbrev pub set_count : Bool → ℕ
set_count b = if b then 1 else 0

-- All three address options must be given together or all omitted.
unfoldable pub validate_network_options : Options → Outcome (Unit {0})
validate_network_options o =
    let options_set =
      set_count (is_set o.start_address)
      + set_count (is_set o.end_address)
      + set_count (is_set o.subnet_mask) in
    require (options_set == 0 || options_set == 3)
      "--start-address, --end-address, and --subnet-mask must be given together, or all omitted"

module _ (env : Environment) where
  open env use {uuid_parse, inet_aton, getenv, getuid, getgid, has_shared_interfaces}

  unfoldable pub parse_interface_id : String → Outcome Uuid
  parse_interface_id arg = elim (uuid_parse arg) [
    | some uuid ↦ done uuid
    | none ↦ exited 1 ("Invalid interface-id: \"" <> arg <> "\"")
  ]

  unfoldable pub parse_address : String → String → Outcome String
  parse_address arg name = do
    require (inet_aton arg) ("Invalid " <> name <> ": \"" <> arg <> "\"")
    done arg

  -- It always exits, after printing the interfaces.
  unfoldable pub list_interfaces : Outcome Options
  list_interfaces =
      if has_shared_interfaces then exited 0 "" else exited 1 "Unable to list shared interfaces"

  -- One round of the loop over the options. `name` is `optname`.
  unfoldable pub apply_option : Options → String × Opt → Outcome Options
  unfolding parse_fd parse_socket parse_interface_id parse_address parse_operation_mode
      parse_stats_interval list_interfaces
  apply_option o (name, help) = exited 0 "usage"
  apply_option o (name, fd arg) = do n ← parse_fd arg; done (record o { fd = some n })
  apply_option o (name, socket arg) = do s ← parse_socket arg; done (record o { socket = some s })
  apply_option o (name, interface_id arg) = do
    uuid ← parse_interface_id arg
    done (record o { interface_id = uuid })
  apply_option o (name, operation_mode arg) = do
    mode ← parse_operation_mode arg name
    done (record o { operation_mode = mode })
  apply_option o (name, shared_interface arg) = done (record o { shared_interface = some arg })
  apply_option o (name, start_address arg) = do
    a ← parse_address arg name
    done (record o { start_address = some a })
  apply_option o (name, end_address arg) = do
    a ← parse_address arg name
    done (record o { end_address = some a })
  apply_option o (name, subnet_mask arg) = do
    a ← parse_address arg name
    done (record o { subnet_mask = some a })
  apply_option o (name, enable_tso) = done (record o { enable_tso = true })
  apply_option o (name, enable_checksum_offload) =
      done (record o { enable_checksum_offload = true })
  apply_option o (name, enable_isolation) = done (record o { enable_isolation = true })
  apply_option o (name, list_shared_interfaces) = list_interfaces
  apply_option o (name, network arg) = done (record o { network_name = some arg })
  apply_option o (name, stats_interval arg) = do
    n ← parse_stats_interval arg
    done (record o { stats_interval = n })
  apply_option o (name, verbose) = done (record o { verbose = true })
  apply_option o (name, version) = exited 0 "version"
  apply_option o (name, missing) = exited 1 ("Option " <> name <> " requires an argument")
  apply_option o (name, invalid) = exited 1 ("Invalid option: " <> name)

  unfoldable pub apply_options : Options → List (String × Opt) → Outcome Options
  unfolding apply_option
  apply_options o [] = done o
  apply_options o (opt ∷ opts) = do o' ← apply_option o opt; apply_options o' opts

  -- `SUDO_UID` or `SUDO_GID`, and the real one if it is not set.
  unfoldable pub find_id : String → ℕ → Outcome ℕ
  unfolding parse_id
  find_id name real = elim (getenv name) [ some s ↦ parse_id s name | none ↦ done real ]

  unfoldable pub resolve_ids : Options → Outcome Options
  unfolding find_id
  resolve_ids o = do
    u ← if o.uid == 0 then find_id "SUDO_UID" getuid else done o.uid
    g ← if o.gid == 0 then find_id "SUDO_GID" getgid else done o.gid
    done (record o { uid = u; gid = g })

unfoldable pub unset_network_option : Bool → String → Outcome (Unit {0})
unset_network_option b name =
    require (not b) ("Conflicting arguments: --network cannot be used with " <> name)

-- The checks with `--network`.
unfoldable pub check_network : Options → Outcome Options
unfolding unset_network_option
check_network o = do
  unset_network_option (not (o.operation_mode == 0)) "--operation-mode"
  unset_network_option (is_set o.shared_interface) "--shared-interface"
  unset_network_option (is_set o.start_address) "--start-address"
  unset_network_option (is_set o.end_address) "--end-address"
  unset_network_option (is_set o.subnet_mask) "--subnet-mask"
  done o

unfoldable pub check_addresses : Options → Outcome Options
unfolding validate_network_options
check_addresses o = do validate_network_options o; done o

unfoldable pub check_bridged : Options → Outcome Options
check_bridged o = do
  require (is_set o.shared_interface)
      "Missing argument: shared-interface is required for operation-mode=bridged"
  require (not o.enable_isolation)
      "Conflicting arguments: enable-isolation cannot be used with bridged mode"
  done o

-- The `switch` over the operation mode; another mode has no case.
unfoldable pub check_mode : Options → Outcome Options
unfolding check_addresses check_bridged
check_mode o =
    if o.operation_mode == vmnet_shared_mode || o.operation_mode == vmnet_host_mode
    then check_addresses o
    else if o.operation_mode == vmnet_bridged_mode
    then check_bridged o
    else done o

-- The checks and the default mode without `--network`.
unfoldable pub check_options : Options → Outcome Options
unfolding check_network check_mode
check_options o =
    if is_set o.network_name
    then check_network o
    else check_mode (record o {
      operation_mode = if o.operation_mode == 0 then vmnet_shared_mode else o.operation_mode;
    })

unfoldable pub check_socket : Options → Outcome Options
check_socket o = do
  require (is_set o.fd || is_set o.socket) "Missing argument: either \"fd\" or \"socket\" required"
  require (not (is_set o.fd && is_set o.socket))
      "Conflicting arguments: \"fd\" and \"socket\" are mutually exclusive"
  done o

-- `parse_options`, given the options that `getopt_long` returns, each with its name.
unfoldable pub parse_options : Environment → Options → List (String × Opt) → Outcome Options
unfolding apply_options check_options check_socket resolve_ids
parse_options env opts items = do
  o ← apply_options env opts items
  o' ← check_options o
  o'' ← check_socket o'
  resolve_ids env o''

-- `static struct options options` of programs/helper.c
abbrev pub initial_options : Options
initial_options = record {
  fd = none;
  socket = none;
  operation_mode = 0;
  interface_id = 0 ∷ 0 ∷ 0 ∷ 0 ∷ 0 ∷ 0 ∷ 0 ∷ 0 ∷ 0 ∷ 0 ∷ 0 ∷ 0 ∷ 0 ∷ 0 ∷ 0 ∷ 0 ∷ [];
  start_address = none;
  end_address = none;
  subnet_mask = none;
  shared_interface = none;
  network_name = none;
  enable_isolation = false;
  enable_tso = false;
  enable_checksum_offload = false;
  uid = 0;
  gid = 0;
  stats_interval = 0;
  verbose = false;
}

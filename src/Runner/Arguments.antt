-- ===== src/Runner/Arguments.antt =====
-- The argument vector of vmnet-helper that programs/run.c builds.
pub mod Fit
use vmnet_helper.Prelude.{
  ℕ, ◌-◌, Bool, true, false, List, [], ◌∷◌, ◌++◌, Option, none, some, String, length, Outcome, done,
  exited, ◌>>=◌, ◌>>◌, ◌*◌, ltb, ◌==◌, if◌then◌else◌,
}
use vmnet_helper.Libc.{ℤ, pos, negsuc, codes}
use vmnet_helper.Os.{os_product_version, initial_version, before_26}

-- `struct client_options`, with the global `verbose`. A text is `none` for NULL.
pub record ClientOptions : Type 0 where
  pub interface_id : Option String
  pub operation_mode : Option String
  pub start_address : Option String
  pub end_address : Option String
  pub subnet_mask : Option String
  pub shared_interface : Option String
  pub network_name : Option String
  pub stats_interval : Option String
  pub enable_tso : Bool
  pub enable_checksum_offload : Bool
  pub enable_isolation : Bool
  pub verbose : Bool

-- `static struct client_options options`, and `verbose`, before the command line is read.
abbrev pub no_options : ClientOptions
no_options = record {
  interface_id = none;
  operation_mode = none;
  start_address = none;
  end_address = none;
  subnet_mask = none;
  shared_interface = none;
  network_name = none;
  stats_interval = none;
  enable_tso = false;
  enable_checksum_offload = false;
  enable_isolation = false;
  verbose = false;
}

-- The slots of `helper_argv`, and the size of a pointer.
abbrev pub helper_slots : ℕ
helper_slots = 32

abbrev pointer_size : ℕ
pointer_size = 8

-- `sizeof(helper_argv)` counts bytes.
abbrev sizeof_helper_argv : ℕ
sizeof_helper_argv = helper_slots * pointer_size

-- `argv` is the first `helper_next` slots. A write past the last slot is not a state of the model: the list
-- grows, and its length says which slots were written.
unfoldable pub append_helper_arg : List String → String → Outcome (List String)
append_helper_arg argv arg =
    if length argv == sizeof_helper_argv - 1
    then exited 1 "[runner] too many arguments"
    else done (argv ++ (arg ∷ []))

-- `if (options.f) { append_helper_arg(name); append_helper_arg(options.f); }`
abbrev pub append_value : List String → String → Option String → Outcome (List String)
append_value argv name none = done argv
append_value argv name (some value) = do
  argv' ← append_helper_arg argv name
  append_helper_arg argv' value

-- `if (options.f) { append_helper_arg(name); }`
abbrev pub append_flag : List String → String → Bool → Outcome (List String)
append_flag argv name false = done argv
append_flag argv name true = append_helper_arg argv name

-- `sysctl` is the product version that the system gives.
unfoldable pub requires_root : Option (List ℕ) → Outcome Bool
unfolding os_product_version
requires_root sysctl = elim (os_product_version sysctl initial_version) [
  | none ↦ exited 1 "[runner] cannot detect macOS version"
  | some v ↦ done (before_26 v.major)
]

abbrev pub append_sudo : Bool → Outcome (List String)
append_sudo false = done []
append_sudo true = do
  a ← append_helper_arg [] "sudo"
  b ← append_helper_arg a "--non-interactive"
  append_helper_arg b "--close-from=4"

-- What follows the test of `requires_root`, and its body.
unfoldable pub build_arguments : Bool → String → ClientOptions → Outcome (List String)
build_arguments root helper_path o = do
  a ← append_sudo root
  b ← append_helper_arg a helper_path
  c ← append_helper_arg b "--fd=3"
  d ← append_value c "--interface-id" o.interface_id
  e ← append_value d "--operation-mode" o.operation_mode
  f ← append_value e "--start-address" o.start_address
  g ← append_value f "--end-address" o.end_address
  h ← append_value g "--subnet-mask" o.subnet_mask
  i ← append_value h "--shared-interface" o.shared_interface
  j ← append_flag i "--enable-tso" o.enable_tso
  k ← append_flag j "--enable-checksum-offload" o.enable_checksum_offload
  l ← append_flag k "--enable-isolation" o.enable_isolation
  m ← append_value l "--network" o.network_name
  n ← append_value m "--stats-interval" o.stats_interval
  append_flag n "--verbose" o.verbose

unfoldable pub build_helper_argv : Option (List ℕ) → String → ClientOptions → Outcome (List String)
unfolding requires_root build_arguments
build_helper_argv sysctl helper_path o = do
  root ← requires_root sysctl
  build_arguments root helper_path o

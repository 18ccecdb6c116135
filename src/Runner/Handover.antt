-- ===== src/Runner/Handover.antt =====
-- The options that vmnet-run hands to vmnet-helper: what programs/options.c reads from the arguments that
-- programs/run.c has built.
pub mod Getopt
pub mod Stored
pub mod Reading
use vmnet_helper.Prelude.{
  ℕ, ◌≡◌, Bool, true, false, List, [], ◌∷◌, ◌++◌, Option, none, some, String, ◌<>◌, All, str_eq,
  done, Outcome, exited, aborted, out_of_fuel, if◌then◌else◌,
}
use vmnet_helper.Options.{
  Environment, Opt, HasArg, no_argument, required_argument, Uuid, Options, initial_options,
  vmnet_shared_mode, vmnet_bridged_mode, vmnet_host_mode, parse_stats_interval,
}
use vmnet_helper.Options.Opt.{
  fd, interface_id, operation_mode, shared_interface, start_address, end_address, subnet_mask,
  enable_tso, enable_checksum_offload, enable_isolation, network, stats_interval, verbose,
}
use vmnet_helper.Runner.Arguments.{ClientOptions}

abbrev pub value_item : String → (String → Opt) → Option String → List (String × Opt)
value_item name opt none = []
value_item name opt (some arg) = (name, opt arg) ∷ []

abbrev pub flag_item : String → Opt → Bool → List (String × Opt)
flag_item name opt false = []
flag_item name opt true = (name, opt) ∷ []

-- The options in the arguments of vmnet-helper, each with its name.
abbrev pub items : ClientOptions → List (String × Opt)
items o =
    ("--fd=3", fd "3")
    ∷ (value_item "--interface-id" interface_id o.interface_id
        ++ (value_item "--operation-mode" operation_mode o.operation_mode
            ++ (value_item "--start-address" start_address o.start_address
                ++ (value_item "--end-address" end_address o.end_address
                    ++ (value_item "--subnet-mask" subnet_mask o.subnet_mask
                        ++ (value_item "--shared-interface" shared_interface o.shared_interface
                            ++ (flag_item "--enable-tso" enable_tso o.enable_tso
                                ++ (flag_item "--enable-checksum-offload" enable_checksum_offload
                                      o.enable_checksum_offload
                                    ++ (flag_item "--enable-isolation" enable_isolation
                                          o.enable_isolation
                                        ++ (value_item "--network" network o.network_name
                                            ++ (value_item "--stats-interval" stats_interval
                                                  o.stats_interval
                                                ++ flag_item "--verbose" verbose
                                                    o.verbose)))))))))))

-- `getopt_long`, given the table of long options and the arguments: the options, each with the word that it was read
-- from.
abbrev pub GetoptLong : Type 0
GetoptLong = List (String × HasArg) → List String → List (String × Opt)

-- What is documented of `getopt_long` for an entry of the table: the word `--name` is this option, with the next word as
-- its argument if it needs one, and the words after that are read in the same way.
abbrev pub ReadsEntry : GetoptLong → List (String × HasArg) → String × HasArg → Type 0
ReadsEntry getopt_long table (name, no_argument opt) =
    (path : String) (words : List String)
    → getopt_long table (path ∷ ("--" <> name) ∷ words)
      ≡ ("--" <> name, opt) ∷ getopt_long table (path ∷ words)
ReadsEntry getopt_long table (name, required_argument opt) =
    (path arg : String) (words : List String)
    → getopt_long table (path ∷ ("--" <> name) ∷ arg ∷ words)
      ≡ ("--" <> name, opt arg) ∷ getopt_long table (path ∷ words)

-- The same for the word `--name=arg`.
abbrev pub ReadsAttached : GetoptLong → List (String × HasArg) → String → String × HasArg → Type 0
ReadsAttached getopt_long table arg (name, no_argument opt) = Unit
ReadsAttached getopt_long table arg (name, required_argument opt) =
    (path : String) (words : List String)
    → getopt_long table (path ∷ ("--" <> (name <> ("=" <> arg))) ∷ words)
      ≡ ("--" <> (name <> ("=" <> arg)), opt arg) ∷ getopt_long table (path ∷ words)

-- What is documented of `getopt_long` for a table whose names all differ. Of the arguments that follow a `=`, only 3 is
-- needed here.
pub record ReadsOptions (getopt_long : GetoptLong) (table : List (String × HasArg)) : Type 0 where
  pub ends : (path : String) → getopt_long table (path ∷ []) ≡ []
  pub entries : All (ReadsEntry getopt_long table) table
  pub attached : All (ReadsAttached getopt_long table "3") table

abbrev pub accepts_uuid : Environment → String → Bool
accepts_uuid env arg = elim (env.uuid_parse arg) [ some uuid ↦ true | none ↦ false ]

abbrev pub uuid_value : Environment → Option String → Uuid
uuid_value env none = initial_options.interface_id
uuid_value env (some arg) = elim (env.uuid_parse arg) [
  | some uuid ↦ uuid
  | none ↦ initial_options.interface_id
]

abbrev pub mode_value : Option String → ℕ
mode_value none = 0
mode_value (some arg) =
    if str_eq arg "shared"
    then vmnet_shared_mode
    else if str_eq arg "bridged"
    then vmnet_bridged_mode
    else if str_eq arg "host"
    then vmnet_host_mode
    else 0

abbrev pub number : Outcome ℕ → Option ℕ
number (done n) = some n
number _ = none

abbrev pub interval : Option String → Option ℕ
interval none = some 0
interval (some arg) = number (parse_stats_interval arg)

abbrev pub has_interval : Option String → Bool
has_interval v = elim (interval v) [ some n ↦ true | none ↦ false ]

abbrev pub interval_value : Option String → ℕ
interval_value v = elim (interval v) [ some n ↦ n | none ↦ 0 ]

-- The options that the helper should have.
abbrev pub handed : Environment → ClientOptions → Options
handed env o = record {
  fd = some 3;
  socket = none;
  operation_mode = mode_value o.operation_mode;
  interface_id = uuid_value env o.interface_id;
  start_address = o.start_address;
  end_address = o.end_address;
  subnet_mask = o.subnet_mask;
  shared_interface = o.shared_interface;
  network_name = o.network_name;
  enable_isolation = o.enable_isolation;
  enable_tso = o.enable_tso;
  enable_checksum_offload = o.enable_checksum_offload;
  uid = 0;
  gid = 0;
  stats_interval = interval_value o.stats_interval;
  verbose = o.verbose;
}

-- ===== src/Runner/Main/Unaborted.antt =====
-- The functions of programs/run.c that make no calls: none has an assertion that fails.
use vmnet_helper.Prelude.{
  ℕ, Bool, true, false, List, [], ◌∷◌, length, inl, inr, Option, none, some, String, Outcome, done,
  exited, aborted, out_of_fuel, require, ◌>>=◌, ◌>>◌, ◌==◌, Bool-cases,
}
use vmnet_helper.Os.{OsVersion, before_26, os_product_version, initial_version}
use vmnet_helper.Runner.Arguments.{
  ClientOptions, append_helper_arg, append_value, append_flag, append_sudo, requires_root,
  build_arguments, build_helper_argv,
}
use vmnet_helper.Runner.CommandLine.{
  Opt, interface_id, operation_mode, shared_interface, start_address, end_address, subnet_mask,
  enable_tso, enable_checksum_offload, enable_isolation, network, stats_interval, verbose, version,
  help, missing, invalid, validate_interface_id, validate_operation_mode, validate_address,
  apply_option, apply_options, check_network, check_bridged, check_options, check_command,
  parse_options, is_set, is_bridged, unset_network_option,
}
use vmnet_helper.Runner.Processes.{Waitpid, stored, interrupted, failed, wait_round}
use vmnet_helper.Runner.Main.Discipline.{Unaborted}

Unaborted->>= :
    {A B : Type 0} (m : Outcome A) (f : A → Outcome B)
    → Unaborted m
    → ((a : A) → Unaborted (f a))
    → Unaborted (m >>= f)
Unaborted->>= (done a) f u rest = rest a
Unaborted->>= (exited code m) f u rest = tt
Unaborted->>= aborted f u rest = absurd u
Unaborted->>= out_of_fuel f u rest = tt

require-Unaborted : (b : Bool) (m : String) → Unaborted (require b m)
require-Unaborted true m = tt
require-Unaborted false m = tt

required :
    {B : Type 0} (b : Bool) (m : String) (k : Outcome B)
    → Unaborted k
    → Unaborted (require b m >> k)
required b m k u = Unaborted->>= (require b m) (λ _. k) (require-Unaborted b m) (λ _. u)

append_helper_arg-Unaborted :
    (argv : List String) (arg : String) → Unaborted (append_helper_arg argv arg)
unfolding append_helper_arg
append_helper_arg-Unaborted argv arg = elim (Bool-cases (length argv == 255)) [
  | inl full ↦ rw full tt
  | inr free ↦ rw free tt
]

append_value-Unaborted :
    (argv : List String) (name : String) (value : Option String)
    → Unaborted (append_value argv name value)
append_value-Unaborted argv name none = tt
append_value-Unaborted argv name (some value) =
    Unaborted->>= (append_helper_arg argv name) _ (append_helper_arg-Unaborted argv name)
      (λ a. append_helper_arg-Unaborted a value)

append_flag-Unaborted :
    (argv : List String) (name : String) (b : Bool) → Unaborted (append_flag argv name b)
append_flag-Unaborted argv name false = tt
append_flag-Unaborted argv name true = append_helper_arg-Unaborted argv name

append_sudo-Unaborted : (b : Bool) → Unaborted (append_sudo b)
append_sudo-Unaborted false = tt
append_sudo-Unaborted true = search (Unaborted->>=, append_helper_arg-Unaborted)

build_arguments-Unaborted :
    (root : Bool) (path : String) (o : ClientOptions) → Unaborted (build_arguments root path o)
unfolding build_arguments
build_arguments-Unaborted root path o =
    search
      (
        Unaborted->>=, append_sudo-Unaborted, append_helper_arg-Unaborted, append_value-Unaborted,
        append_flag-Unaborted,
      )
      depth 40

requires_root-Unaborted : (text : Option (List ℕ)) → Unaborted (requires_root text)
unfolding requires_root
requires_root-Unaborted text = detected (os_product_version text initial_version)
  where
    detected :
        (v : Option OsVersion)
        → Unaborted (elim v [
          | none ↦ exited 1 "[runner] cannot detect macOS version"
          | some v ↦ done (before_26 v.major)
        ])
    detected none = tt
    detected (some v) = tt

pub build_helper_argv-Unaborted :
    (text : Option (List ℕ)) (path : String) (o : ClientOptions)
    → Unaborted (build_helper_argv text path o)
unfolding build_helper_argv
build_helper_argv-Unaborted text path o =
    search (Unaborted->>=, requires_root-Unaborted, build_arguments-Unaborted)

check_network-Unaborted : (o : ClientOptions) → Unaborted (check_network o)
unfolding check_network unset_network_option
check_network-Unaborted o = search (required) depth 20

check_bridged-Unaborted : (o : ClientOptions) → Unaborted (check_bridged o)
unfolding check_bridged
check_bridged-Unaborted o = search (required) depth 20

check_options-Unaborted : (o : ClientOptions) → Unaborted (check_options o)
unfolding check_options
check_options-Unaborted o = elim (Bool-cases (is_set o.network_name)) [
  | inl with_network ↦ rw with_network (check_network-Unaborted o)
  | inr without ↦ rw without (elim (Bool-cases (is_bridged o.operation_mode)) [
    | inl bridged ↦ rw bridged (check_bridged-Unaborted o)
    | inr other ↦ rw other tt
  ])
]

check_command-Unaborted :
    (o : ClientOptions) (argv : List String) → Unaborted (check_command o argv)
unfolding check_command
check_command-Unaborted o [] = tt
check_command-Unaborted o (arg ∷ args) = tt

module _ (uuid_parse inet_aton : String → Bool) where
  apply_option-Unaborted :
      (o : ClientOptions) (name : String) (x : Opt)
      → Unaborted (apply_option uuid_parse inet_aton o (name, x))
  unfolding apply_option validate_interface_id validate_operation_mode validate_address
  apply_option-Unaborted o name (interface_id arg) = search (required)
  apply_option-Unaborted o name (operation_mode arg) = search (required)
  apply_option-Unaborted o name (shared_interface arg) = tt
  apply_option-Unaborted o name (start_address arg) = search (required)
  apply_option-Unaborted o name (end_address arg) = search (required)
  apply_option-Unaborted o name (subnet_mask arg) = search (required)
  apply_option-Unaborted o name enable_tso = tt
  apply_option-Unaborted o name enable_checksum_offload = tt
  apply_option-Unaborted o name enable_isolation = tt
  apply_option-Unaborted o name (network arg) = tt
  apply_option-Unaborted o name (stats_interval arg) = tt
  apply_option-Unaborted o name verbose = tt
  apply_option-Unaborted o name version = tt
  apply_option-Unaborted o name help = tt
  apply_option-Unaborted o name missing = tt
  apply_option-Unaborted o name invalid = tt

  apply_options-Unaborted :
      (o : ClientOptions) (items : List (String × Opt))
      → Unaborted (apply_options uuid_parse inet_aton o items)
  unfolding apply_options
  apply_options-Unaborted o [] = tt
  apply_options-Unaborted o ((name, x) ∷ items) =
      Unaborted->>= (apply_option uuid_parse inet_aton o (name, x)) _
        (apply_option-Unaborted o name x) (λ o'. apply_options-Unaborted o' items)

  pub parse_options-Unaborted :
      (o : ClientOptions) (items : List (String × Opt)) (rest : List String)
      → Unaborted (parse_options uuid_parse inet_aton o items rest)
  unfolding parse_options
  parse_options-Unaborted o items rest =
      search
        (Unaborted->>=, apply_options-Unaborted, check_options-Unaborted, check_command-Unaborted)

pub wait_round-Unaborted : (w : Waitpid) → Unaborted (wait_round w)
unfolding wait_round
wait_round-Unaborted (stored status) = tt
wait_round-Unaborted (interrupted n status) = elim (Bool-cases (n == 0)) [
  | inl none_stored ↦ rw none_stored tt
  | inr some_stored ↦ rw some_stored tt
]
wait_round-Unaborted failed = tt

-- ===== src/Helper/Interface.antt =====
-- Starting and stopping the vmnet interface in programs/helper.c.
pub mod Described
use vmnet_helper.Prelude.{
  ℕ, Bool, true, false, not, ◌||◌, List, [], ◌∷◌, ◌++◌, Option, none, some, String, Outcome, done,
  aborted, out_of_fuel, exited, ◌==◌, if◌then◌else◌,
}
use vmnet_helper.Prelude
use vmnet_helper.System.{VmnetReturn, success}
use vmnet_helper.Process.{
  Key, Value, uint64, bool, string, uuid, Description, stop_host_interface, start_interface,
  start_with_network, create_network, sys, atexit, set_event_callback, dispatch_forwarding,
  interface_id, operation_mode, start_address, end_address, subnet_mask, shared_interface_name,
  enable_isolation, enable_tso, enable_checksum_offload, allocate_mac_address,
}
use vmnet_helper.Process
use vmnet_helper.Options.{Options, Uuid, vmnet_shared_mode, vmnet_host_mode, vmnet_bridged_mode}
use vmnet_helper.Broker.{Acquired, vmnet_broker_acquire_network}
use vmnet_helper.Helper.Globals.{
  Globals, M, pure, ◌>>=◌, ◌>>◌, exit, gets, modify, ask, checked, exit_unless, register,
}

-- `xpc_dictionary_set_string`, which takes no NULL.
abbrev set_string : Key → Option String → Description → Outcome Description
set_string key none rest = aborted
set_string key (some s) rest = done ((key, string s) ∷ rest)

-- The addresses, if there is a first one.
abbrev addresses : Options → Description → Outcome Description
addresses o rest = elim o.start_address [
  | none ↦ done rest
  | some first ↦ Prelude.◌>>=◌ (set_string subnet_mask o.subnet_mask rest) (λ more.
      Prelude.◌>>=◌ (set_string end_address o.end_address more)
        (λ all. done ((start_address, string first) ∷ all)))
]

-- The `switch` over the mode; another mode is an `assert(0)`.
unfoldable pub mode_description : Options → Description → Outcome Description
mode_description o rest =
    if o.operation_mode == vmnet_shared_mode || o.operation_mode == vmnet_host_mode
    then addresses o ((enable_isolation, bool o.enable_isolation) ∷ rest)
    else if o.operation_mode == vmnet_bridged_mode
    then set_string shared_interface_name o.shared_interface rest
    else aborted

abbrev is_vmnet_success : VmnetReturn → Bool
is_vmnet_success success = true
is_vmnet_success _ = false

-- `host_strerror`
unfoldable pub host_strerror : VmnetReturn → String
host_strerror VmnetReturn.success = "VMNET_SUCCESS"
host_strerror VmnetReturn.failure = "VMNET_FAILURE"
host_strerror VmnetReturn.mem_failure = "VMNET_MEM_FAILURE"
host_strerror VmnetReturn.invalid_argument = "VMNET_INVALID_ARGUMENT"
host_strerror VmnetReturn.setup_incomplete = "VMNET_SETUP_INCOMPLETE"
host_strerror VmnetReturn.invalid_access = "VMNET_INVALID_ACCESS"
host_strerror VmnetReturn.packet_too_big = "VMNET_PACKET_TOO_BIG"
host_strerror VmnetReturn.buffer_exhausted = "VMNET_BUFFER_EXHAUSTED"
host_strerror VmnetReturn.too_many_packets = "VMNET_TOO_MANY_PACKETS"
host_strerror VmnetReturn.unknown_status = "(unknown status)"

-- What the callback does with its status and the maximum packet size.
unfoldable pub interface_started : VmnetReturn × ℕ → M (Unit {0})
interface_started (status, size) = do
  exit_unless (is_vmnet_success status)
  modify (λ g. record g { interface = true; max_packet_size = size })

-- `uuid_is_null` is of libuuid.
module _ (uuid_is_null : Uuid → Bool) where
  -- The description with the entries in the order in which they are set.
  unfoldable pub description : Options → Outcome Description
  unfolding mode_description
  description o =
      Prelude.◌>>=◌
        (mode_description o (
          (enable_tso, bool o.enable_tso)
          ∷ (enable_checksum_offload, bool o.enable_checksum_offload)
          ∷ []))
        (λ rest. done (
          (if uuid_is_null o.interface_id then [] else (interface_id, uuid o.interface_id) ∷ [])
          ++ ((operation_mode, uint64 o.operation_mode) ∷ rest)))

  unfoldable pub start_described : Outcome Description → M (Unit {0})
  unfolding interface_started
  start_described (done d) = ask (start_interface d) >>= interface_started
  start_described (exited c m) = λ g. Process.aborted
  start_described aborted = λ g. Process.aborted
  start_described out_of_fuel = λ g. Process.aborted

  unfoldable pub start_interface_with_options : M (Unit {0})
  unfolding description start_described
  start_interface_with_options = do o ← gets (λ g. g.options); start_described (description o)

abbrev pub network_description : Options → Description
network_description o =
    (allocate_mac_address, bool false)
    ∷ (enable_tso, bool o.enable_tso)
    ∷ (enable_checksum_offload, bool o.enable_checksum_offload)
    ∷ (enable_isolation, bool o.enable_isolation)
    ∷ []

unfoldable pub start_interface_with_network : ℕ → M (Unit {0})
unfolding interface_started
start_interface_with_network network = do
  o ← gets (λ g. g.options)
  r ← ask (start_with_network network (network_description o))
  interface_started r

unfoldable pub or_exit_none : {A : Type 0} → Option A → M A
or_exit_none none = exit 1
or_exit_none (some a) = pure a

unfoldable pub request : String → M Acquired
unfolding vmnet_broker_acquire_network
request name g =
    Process.◌>>=◌ (vmnet_broker_acquire_network name false) (λ r. Process.returns (r.0, g))

-- The static `connection` of broker/client.c is not set yet: this is the only request.
unfoldable pub acquire_network_from_broker : String → M ℕ
acquire_network_from_broker name = do
  a ← request name
  serialization ← or_exit_none a.serialization
  network ← ask (create_network serialization)
  or_exit_none network

unfoldable pub start_interface_for : (Uuid → Bool) → Option String → M (Unit {0})
start_interface_for uuid_is_null (some name) =
    acquire_network_from_broker name >>= start_interface_with_network
start_interface_for uuid_is_null none = start_interface_with_options uuid_is_null

unfoldable pub start_host_interface : (Uuid → Bool) → M (Unit {0})
start_host_interface uuid_is_null = do
  o ← gets (λ g. g.options)
  start_interface_for uuid_is_null o.network_name
  register stop_host_interface

unfoldable pub start_forwarding_from_host : M (Unit {0})
start_forwarding_from_host = do
  status ← ask set_event_callback
  exit_unless (is_vmnet_success status)

unfoldable pub start_forwarding_from_vm : M (Unit {0})
start_forwarding_from_vm = do _ ← ask dispatch_forwarding; pure tt

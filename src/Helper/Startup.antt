-- ===== src/Helper/Startup.antt =====
-- `main` of programs/helper.c: the order in which the parts of vmnet-helper start.
pub mod Calm
pub mod Debts
pub mod Orderly
pub mod Privileges
pub mod Ownership
pub mod AfterDrop
pub mod Unprivileged
use vmnet_helper.Prelude.{
  ℕ, Bool, true, false, not, ◌&&◌, List, [], ◌∷◌, Option, none, some, ◌==◌, if◌then◌else◌,
}
use vmnet_helper.Process.{setgid, setuid, sysctl, geteuid, calloc, Program}
use vmnet_helper.Options.{Options, Uuid}
use vmnet_helper.Os.{OsVersion, os_product_version, initial_version, before_26}
use vmnet_helper.Helper.Endpoint.{packet_count, sizeof_packet, sizeof_msg, sizeof_iov}
use vmnet_helper.Helper.Globals.{
  Globals, M, pure, ◌>>=◌, ◌>>◌, exit, gets, modify, ask, checked, exit_unless, must, when,
}
use vmnet_helper.Helper.Socket.{is_given, setup_socket}
use vmnet_helper.Helper.Interface.{
  start_host_interface, start_forwarding_from_host, start_forwarding_from_vm,
}
use vmnet_helper.Helper.Events.{setup_kq, start_stats_timer, run_until_termination, exit_status}

abbrev version_ok : Options → Option OsVersion → Bool
version_ok o none = false
version_ok o (some v) = not (is_given o.network_name && before_26 v.major)

unfoldable pub check_os_version : M (Unit {0})
unfolding os_product_version
check_os_version = do
  text ← ask sysctl
  o ← gets (λ g. g.options)
  exit_unless (version_ok o (os_product_version text initial_version))

-- A group or user id of 0 is left alone.
unfoldable pub drop_root : M (Unit {0})
drop_root = do
  o ← gets (λ g. g.options)
  when (not (o.gid == 0)) (must (setgid o.gid))
  when (not (o.uid == 0)) (must (setuid o.uid))

unfoldable pub drop_privileges : M (Unit {0})
unfolding drop_root
drop_privileges = do euid ← ask geteuid; when (euid == 0) drop_root

-- The allocations of `init_endpoint`, in order.
unfoldable pub allocate_endpoint : ℕ → M (Unit {0})
allocate_endpoint size = do
  let count = packet_count size
  buffers ← ask (calloc count size)
  exit_unless buffers
  packets ← ask (calloc count sizeof_packet)
  exit_unless packets
  msgs ← ask (calloc count sizeof_msg)
  exit_unless msgs
  iovs ← ask (calloc count sizeof_iov)
  exit_unless iovs

unfoldable pub setup_endpoints : M (Unit {0})
unfolding allocate_endpoint
setup_endpoints = do
  size ← gets (λ g. g.max_packet_size)
  allocate_endpoint size
  allocate_endpoint size

-- `main` after `parse_options`. Each waiting loop has `fuel` rounds. Returning from `main` is a call of `exit`.
-- What runs on the dispatch queues, such as `forward_from_vm` and the `trigger_shutdown` at its end, is not part of it.
unfoldable pub main : (Uuid → Bool) → ℕ → M (Unit {0})
main uuid_is_null fuel = do
  check_os_version
  setup_kq
  start_host_interface uuid_is_null
  drop_privileges
  setup_socket fuel
  setup_endpoints
  start_forwarding_from_host
  start_forwarding_from_vm
  start_stats_timer
  run_until_termination fuel
  status ← gets (λ g. g.status)
  exit (exit_status status)

-- The globals when `parse_options` has returned.
abbrev pub parsed_globals : Options → Globals
parsed_globals o = record {
  options = o;
  kq = none;
  status = 0;
  interface = false;
  max_packet_size = 0;
  socket_lockfile = none;
  handlers = [];
}

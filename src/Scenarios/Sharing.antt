-- ===== src/Scenarios/Sharing.antt =====
-- Two vmnet-helper processes on one socket path, and the theorems about them at concrete schedules.
use vmnet_helper.Prelude.{
  ℕ, ◌≡◌, refl, Bool, true, false, List, [], ◌∷◌, ◌++◌, replicate, none, some, done, String, str_eq,
  if◌then◌else◌, arith,
}
use vmnet_helper.System.{ret, fail, success}
use vmnet_helper.Libc.{pos, codes}
use vmnet_helper.Helper.Endpoint.{ForwardStats}
use vmnet_helper.Process.{
  event, readable, open_lock, remove, bind, Call, sys, sysctl, kevent_wait, start_interface, Reply,
  returns, ended, aborted, out_of_fuel, call, error_object, Clock,
}
use vmnet_helper.Options.{
  Options, Uuid, Opt, socket, initial_options, vmnet_shared_mode, parse_options, apply_options,
  apply_option, parse_socket, check_options, check_mode, check_addresses, check_socket, resolve_ids,
  find_id,
}
use vmnet_helper.Scenarios.CommandLine.{environment}
use vmnet_helper.Options.Valid.{Accepted, parse_options-Accepted}
use vmnet_helper.Helper.Socket.{lockfile_of}
use vmnet_helper.Helper.Socket.Lock.{after}
use vmnet_helper.Helper.Socket.Sharing.{
  LockFile, absent, present, update, unlocked, Run, Answers, Helpers, calls, Reach, here, next,
  starting,
}
use vmnet_helper.Helper.Socket.Exclusive.{socket-exclusive}
use vmnet_helper.Helper.Startup.{main, check_os_version, drop_privileges, drop_root}
use vmnet_helper.Helper.Events.{setup_kq}
use vmnet_helper.Helper.Socket.{
  setup_socket, serve_socket, create_socket_lockfile, create_socket, set_socket_buffers,
}
use vmnet_helper.Helper.Interface.{
  start_host_interface, start_interface_for, start_interface_with_options, description,
  mode_description, start_described, interface_started,
}
use vmnet_helper.Helper.Globals.{
  pure, ◌>>=◌, ◌>>◌, exit, gets, modify, ask, or_exit, checked, exit_unless, must, when, register,
  run_handler, stop_interface_if,
}
use vmnet_helper.Os.{os_product_version}

abbrev pub path : String
path = "/tmp/vm.sock"

abbrev pub socket_options : Options
socket_options = record initial_options {
  socket = some path;
  operation_mode = vmnet_shared_mode;
  uid = 501;
  gid = 20;
}

abbrev no_packets : ForwardStats
no_packets = record { packets = 0; bytes = 0; drops = 0; fast = 0; slow = 0 }

-- A summer noon two hours to the east of UTC.
pub noon : Clock
noon = record {
  date = codes "1970-06-01T12:00:00";
  tv_nsec = 5000000;
  tm_gmtoff = pos 7200;
  host = no_packets;
  vm = no_packets;
  date_length = refl;
  tv_nsec-lt = omega arith;
  tm_gmtoff-lt = omega arith;
}

-- A system in which every call succeeds, but for the lock.
abbrev reply : (c : Call) → LockFile → Reply c
reply (sys (open_lock p)) f = if unlocked f then ret 6 else fail 35
reply (sys c) f = ret 7
reply sysctl f = some (codes "15.6.1")
reply Call.ignore_sigpipe f = tt
reply kevent_wait f = event readable
reply Call.geteuid f = 0
reply (start_interface d) f = (success, 1514)
reply (Call.start_with_network n d) f = (success, 1514)
reply Call.connect_to_broker f = tt
reply (Call.send_request n) f = error_object
reply (Call.create_network s) f = none
reply Call.stop_interface f = success
reply Call.set_event_callback f = success
reply Call.dispatch_forwarding f = tt
reply (Call.calloc n size) f = true
reply Call.read_clock f = noon

abbrev file_after : ℕ → Call → LockFile → LockFile
file_after i (sys (open_lock p)) f = if unlocked f then present (some i) else f
file_after i (sys (remove p)) f = if str_eq p (lockfile_of path) then absent else f
file_after i _ f = f

reply-Answers :
    (i : ℕ) (c : Call) (f : LockFile) → Answers path i c (reply c f) f (file_after i c f)
reply-Answers i (sys (open_lock p)) absent = (refl, refl)
reply-Answers i (sys (open_lock p)) (present none) = (refl, refl)
reply-Answers i (sys (open_lock p)) (present (some j)) = refl
reply-Answers i (sys (remove p)) f = refl
reply-Answers i _ f = refl

-- The next call of process `i`.
abbrev turn_of : ℕ → Helpers path → Run → Helpers path
turn_of i s (call c k) = record {
  file = file_after i c s.file;
  program = update s.program i (k (reply c s.file));
  phase = update s.phase i (after path (s.phase i) c (reply c s.file));
}
turn_of i s _ = s

turn-Reach :
    (i : ℕ) (s t : Helpers path) → Reach path t s → Reach path t (turn_of i s (s.program i))
turn-Reach i s t r = at (s.program i) refl
  where
    at : (p : Run) → s.program i ≡ p → Reach path t (turn_of i s p)
    at (call c k) e =
        next r (calls i c k (reply c s.file) (file_after i c s.file) e (reply-Answers i c s.file))
    at (returns a) e = r
    at (ended n) e = r
    at aborted e = r
    at out_of_fuel e = r

-- The schedule says whose turn it is.
abbrev run : List ℕ → Helpers path → Helpers path
run [] s = s
run (i ∷ is) s = run is (turn_of i s (s.program i))

run-Reach : (is : List ℕ) (s t : Helpers path) → Reach path t s → Reach path t (run is s)
run-Reach [] s t r = r
run-Reach (i ∷ is) s t r = run-Reach is (turn_of i s (s.program i)) t (turn-Reach i s t r)

abbrev pub never_null : Uuid → Bool
never_null u = false

abbrev two_helpers : Helpers path
two_helpers = starting path never_null (λ i. socket_options) (λ i. 5) absent

-- The second process has ended, since the first holds the lock and is about to bind the socket.
abbrev schedule : List ℕ
schedule = replicate 17 0 ++ replicate 20 1

abbrev contended : Helpers path
contended = run schedule two_helpers

contended_calls :
    (k : Reply (sys (bind 7 path)) → Run) × (contended.program 0 ≡ call (sys (bind 7 path)) k)
unfolding starting main setup_kq check_os_version start_host_interface drop_privileges drop_root
    setup_socket serve_socket create_socket_lockfile create_socket set_socket_buffers pure ◌>>=◌
    ◌>>◌ exit gets modify ask or_exit checked exit_unless must when register start_interface_for
    start_interface_with_options description mode_description start_described interface_started
    os_product_version run_handler stop_interface_if
contended_calls = (_, refl)

abbrev socket_items : List (String × Opt)
socket_items = ("--socket", socket path) ∷ []

socket_parsed : parse_options environment initial_options socket_items ≡ done socket_options
unfolding parse_options apply_options apply_option parse_socket check_options check_mode
    check_addresses check_socket resolve_ids find_id
socket_parsed = refl

pub socket_options-Accepted : Accepted socket_options
socket_options-Accepted =
    parse_options-Accepted environment socket_items socket_options socket_parsed

pub only_path : (q : String) → socket_options.socket ≡ some q → q ≡ path
only_path q e = cc

socket-exclusive_example : (contended.file ≡ present (some 0)) × ◌≡◌ {A = ℕ} 0 0
socket-exclusive_example =
    socket-exclusive path never_null (λ i. socket_options) (λ i. 5) absent
      (λ i. socket_options-Accepted) (λ i. only_path)
      (run-Reach schedule two_helpers two_helpers here) 0 0 (sys (bind 7 path)) (sys (bind 7 path))
      contended_calls.0 contended_calls.0 contended_calls.1 contended_calls.1 refl refl

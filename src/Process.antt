-- ===== src/Process.antt =====
-- A process of the programs: the calls that it makes of the system, each with what it does after every reply.
-- What the system replies is not part of the program.
pub mod Protocol
use vmnet_helper.Prelude.{ℕ, ◌≡◌, ◌<◌, ◌^◌, length, Bool, List, Option, String}
use vmnet_helper.System.{Sys, VmnetReturn}
use vmnet_helper.Libc.{ℤ, distance}
use vmnet_helper.Helper.Endpoint.{ForwardStats}
use vmnet_helper.Behaviour.{Behaviour}
pub use vmnet_helper.Behaviour.{returns, ended, aborted, out_of_fuel, call, ◌>>=◌}

-- `EVFILT_*`, with the identifier of the event that is added or deleted.
pub data Change : Type 0 where
  add_signal : ℕ → Change
  add_user : ℕ → Change
  add_timer : ℕ → ℕ → Change
  add_read : ℕ → Change
  delete_read : ℕ → Change
  -- `NOTE_TRIGGER | NOTE_FFOR`, with the flags to or in
  trigger : ℕ → ℕ → Change

-- An event that `kevent` returns; `user` carries its `fflags`.
pub data Event : Type 0 where
  signal : ℕ → Event
  user : ℕ → Event
  timer : Event
  readable : Event

-- What waiting returns: -1, 0, or one event.
pub data Wait : Type 0 where
  failed : ℕ → Wait
  nothing : Wait
  event : Event → Wait

-- The functions that the programs register with `atexit`.
pub data Handler : Type 0 where
  stop_host_interface : Handler
  remove_socket_lockfile : Handler
  remove_socket_silently : Handler

-- The keys of an interface description: `vmnet_interface_id_key` and so on.
pub data Key : Type 0 where
  interface_id operation_mode start_address end_address subnet_mask shared_interface_name : Key
  enable_isolation enable_tso enable_checksum_offload allocate_mac_address : Key

-- The values of an XPC dictionary that the programs build.
pub data Value : Type 0 where
  uint64 : ℕ → Value
  bool : Bool → Value
  string : String → Value
  uuid : List ℕ → Value

abbrev pub Description : Type 0
Description = List (Key × Value)

-- A reply of vmnet-broker: an error object, a dictionary with the integer "error" and the object "network", if it
-- has one, or another object.
pub data BrokerReply : Type 0 where
  error_object : BrokerReply
  dictionary : ℤ → Option ℕ → BrokerReply
  other_object : BrokerReply

-- The calls that return a number, or -1 with `errno`.
pub data SysCall : Type 0 where
  kqueue : SysCall
  -- `kevent(kq, changes, n, NULL, 0, NULL)`
  kevent : List Change → SysCall
  -- `sigprocmask(SIG_BLOCK, &mask, NULL)`
  sigprocmask : List ℕ → SysCall
  atexit : Handler → SysCall
  -- `asprintf`, which allocates
  asprintf : SysCall
  -- `open(path, O_RDONLY | O_CREAT | O_EXLOCK | O_NONBLOCK, 0600)`
  open_lock : String → SysCall
  remove : String → SysCall
  -- `socket(PF_LOCAL, SOCK_DGRAM, 0)`
  socket : SysCall
  set_send_buffer : ℕ → ℕ → SysCall
  set_receive_buffer : ℕ → ℕ → SysCall
  bind : ℕ → String → SysCall
  -- `chmod(path, 0600)`
  chmod : String → SysCall
  -- `recvfrom(fd, buf, 64, MSG_PEEK, &client, &len)`
  recvfrom : ℕ → SysCall
  -- `connect(fd, &client, sizeof(client))`, to the sender of that datagram
  connect : ℕ → SysCall
  -- `read(fd, buf, 64)`
  read : ℕ → SysCall
  setgid : ℕ → SysCall
  setuid : ℕ → SysCall

pub data Call : Type 0 where
  sys : SysCall → Call
  -- `sysctlbyname("kern.osproductversion", ..)`
  sysctl : Call
  -- `signal(SIGPIPE, SIG_IGN)`
  ignore_sigpipe : Call
  -- `kevent(kq, NULL, 0, events, 1, NULL)`
  kevent_wait : Call
  geteuid : Call
  -- `vmnet_start_interface`, and the wait for its callback: the status, and `vmnet_max_packet_size_key`
  start_interface : Description → Call
  -- `vmnet_interface_start_with_network`, with the same results
  start_with_network : ℕ → Description → Call
  -- the connection to vmnet-broker, and a request for the network of this name
  connect_to_broker : Call
  send_request : String → Call
  -- `vmnet_network_create_with_serialization`: a network, or NULL
  create_network : ℕ → Call
  -- `vmnet_stop_interface`
  stop_interface : Call
  -- `vmnet_interface_set_event_callback`
  set_event_callback : Call
  -- `dispatch_async(vm.queue, forward_from_vm)`
  dispatch_forwarding : Call
  -- an allocation of `init_endpoint`
  calloc : ℕ → ℕ → Call
  -- `clock_gettime`, `localtime_r` and `strftime` of `iso_8601_timestamp`, with the counters at that moment
  read_clock : Call

-- The time of a report: `strftime` writes nineteen characters for `%Y-%m-%dT%H:%M:%S`, a time has less than 10^9
-- nanoseconds, and an offset from UTC is less than a hundred hours.
pub record Clock : Type 0 where
  pub date : List ℕ
  pub tv_nsec : ℕ
  pub tm_gmtoff : ℤ
  pub host : ForwardStats
  pub vm : ForwardStats
  pub date_length : length date ≡ 19
  pub tv_nsec-lt : tv_nsec < 10 ^ 9
  pub tm_gmtoff-lt : distance tm_gmtoff < 360000

abbrev pub Reply : Call → Type 0
Reply (sys c) = Sys
Reply sysctl = Option (List ℕ)
Reply ignore_sigpipe = Unit
Reply kevent_wait = Wait
Reply geteuid = ℕ
Reply (start_interface d) = VmnetReturn × ℕ
Reply (start_with_network n d) = VmnetReturn × ℕ
Reply connect_to_broker = Unit
Reply (send_request n) = BrokerReply
Reply (create_network serialization) = Option ℕ
Reply stop_interface = VmnetReturn
Reply set_event_callback = VmnetReturn
Reply dispatch_forwarding = Unit
Reply (calloc n size) = Bool
Reply read_clock = Clock

abbrev pub Program {ℓ} : Type ℓ → Type ℓ
Program A = Behaviour Call Reply A

-- ===== src/Helper/VmToHost.antt =====
-- `read_from_vm`, `write_to_host` and `forward_from_vm` of programs/helper.c: what the virtual
-- machine sends goes to the vmnet interface, until the peer closes the socket or a call fails.
pub mod Slots
pub mod Reading
pub mod Batch
pub mod Forward
use vmnet_helper.Prelude.{
  ℕ, zero, suc, ◌+◌, ◌≤◌, ◌<◌, ◌≡◌, ◌≢◌, Bool, true, false, List, [], ◌∷◌, ◌++◌, map, Option, none,
  some, Outcome, done, out_of_fuel, ltb, if◌then◌else◌, length, take, modify_head, u64,
}
use vmnet_helper.System.{Datagram, Sys, ret, fail, VmnetReturn, success}
use vmnet_helper.Helper.Endpoint.{
  IoVec, PacketDesc, MessageHeader, Endpoint, iov_at, msg_at, bytes_at, packet_bytes, IsBound,
}
use vmnet_helper.Helper.FromHost.{reset_iovs}

-- What can be observed: the datagrams that the next reads of the socket return, up to the end, and
-- the packets that the vmnet interface has taken.
pub record VmTrace : Type 0 where
  pub incoming : List Datagram
  pub written : List Datagram

-- What `recvmsg_x` returns and writes to.
pub record MessagesRead (W : Type 0) : Type 0 where
  pub result : Sys
  pub msgs : List MessageHeader
  pub buffers : List ℕ
  pub world : W

-- What `read` returns and writes to.
pub record BytesRead (W : Type 0) : Type 0 where
  pub result : Sys
  pub buffers : List ℕ
  pub world : W

-- What `vmnet_write` returns. `count` is its output parameter.
pub record HostWrite (W : Type 0) : Type 0 where
  pub status : VmnetReturn
  pub count : ℕ
  pub world : W

pub record VmSystem : Type 1 where
  pub World : Type 0
  -- `recvmsg_x(options.fd, vm.msgs, cnt, 0)`
  pub recvmsg_x : Endpoint → ℕ → World → MessagesRead World
  -- `read(options.fd, base, len)`
  pub read : Endpoint → ℕ → ℕ → World → BytesRead World
  -- `vmnet_write(interface, packets, &count)`, given the bytes that the packets describe
  pub vmnet_write : List Datagram → World → HostWrite World
  pub trace : World → VmTrace

abbrev pub status_failure : ℕ
status_failure = 1

abbrev pub status_stopped : ℕ
status_stopped = 2

-- for (i = 0; i < n; i++) packets[i].vm_pkt_size = msgs[i].msg_len;
unfoldable pub set_packet_sizes : ℕ → List MessageHeader → List PacketDesc → List PacketDesc
set_packet_sizes zero ms ps = ps
set_packet_sizes (suc n) [] ps = ps
set_packet_sizes (suc n) (m ∷ ms) [] = []
set_packet_sizes (suc n) (m ∷ ms) (p ∷ ps) =
    record p { vm_pkt_size = m.msg_len } ∷ set_packet_sizes n ms ps

-- for (i = 0; i < n; i++) iovs[i].iov_len = msgs[i].msg_len;
unfoldable pub set_iov_lens : ℕ → List MessageHeader → List IoVec → List IoVec
set_iov_lens zero ms vs = vs
set_iov_lens (suc n) [] vs = vs
set_iov_lens (suc n) (m ∷ ms) [] = []
set_iov_lens (suc n) (m ∷ ms) (v ∷ vs) = record v { iov_len = m.msg_len } ∷ set_iov_lens n ms vs

-- The loop of `vm_msgs_size`.
msgs_size : List MessageHeader → ℕ → ℕ → ℕ
msgs_size ms zero size = size
msgs_size [] (suc n) size = size
msgs_size (m ∷ ms) (suc n) size = msgs_size ms n (u64 (size + m.msg_len))

unfoldable pub vm_msgs_size : Endpoint → ℕ → ℕ
unfolding msgs_size
vm_msgs_size vm count = msgs_size vm.msgs count 0

-- The endpoint before the fast path reads.
pub before_fast : Endpoint → ℕ → Endpoint
before_fast vm max_packet_size = record vm {
  iovs = reset_iovs vm.max_packet_count max_packet_size vm.iovs;
  stats = record (vm.stats) { fast = u64 (vm.stats.fast + 1) };
}

-- The endpoint before the slow path reads.
pub before_slow : Endpoint → ℕ → Endpoint
before_slow vm max_packet_size = record vm {
  iovs = modify_head (λ v. record v { iov_len = max_packet_size }) vm.iovs;
  stats = record (vm.stats) { slow = u64 (vm.stats.slow + 1) };
}

-- The endpoint with what a read has written.
abbrev pub with_messages : {W : Type 0} → Endpoint → MessagesRead W → Endpoint
with_messages e r = record e { msgs = r.msgs; buffers = r.buffers }

abbrev pub with_bytes : {W : Type 0} → Endpoint → BytesRead W → Endpoint
with_bytes e r = record e { buffers = r.buffers }

-- The end of the slow path. `none` is -1.
pub after_read : Endpoint → Sys → Endpoint × Option ℕ
after_read e (fail errno) = (e, none)
after_read e (ret len) = (
  record e { msgs = modify_head (λ m. record m { msg_len = len }) e.msgs },
  some (if ltb 0 len then 1 else 0),
)

-- The endpoint with the sizes of a batch set.
unfoldable pub described : Endpoint → ℕ → Endpoint
unfolding set_packet_sizes set_iov_lens
described vm count = record vm {
  packets = set_packet_sizes count vm.msgs vm.packets;
  iovs = set_iov_lens count vm.msgs vm.iovs;
}

abbrev pub failed : VmnetReturn → Bool
failed success = false
failed _ = true

-- The statistics after a batch.
unfoldable pub add_batch : Endpoint → ℕ → Endpoint
unfolding vm_msgs_size
add_batch vm count = record vm {
  stats = record (vm.stats) {
    packets = u64 (vm.stats.packets + count);
    bytes = u64 (vm.stats.bytes + vm_msgs_size vm count);
  };
}

module _ (sys : VmSystem) (max_packet_size : ℕ) where
  open sys use {World, recvmsg_x, read, vmnet_write}

  read_slow : Endpoint → World → Endpoint × Option ℕ × World
  unfolding before_slow after_read
  read_slow vm w =
      let e = before_slow vm max_packet_size in
      let r = read e (iov_at e 0).iov_base (iov_at e 0).iov_len w in
      let (e', count) = after_read (with_bytes e r) r.result in (e', count, r.world)

  unfoldable pub read_from_vm : Bool → Endpoint → World → Endpoint × Option ℕ × World
  unfolding before_fast read_slow
  read_from_vm false vm w = read_slow vm w
  read_from_vm true vm w =
      let e = before_fast vm max_packet_size in
      let r = recvmsg_x e vm.max_packet_count w in
      elim r.result [
        | ret count ↦ (with_messages e r, some count, r.world)
        | fail errno ↦ read_slow (with_messages e r) r.world
      ]

  -- It returns whether it failed.
  unfoldable pub write_to_host : Endpoint → ℕ → World → Endpoint × Bool × World
  unfolding described
  write_to_host vm count w =
      let e = described vm count in
      let r = vmnet_write (map (packet_bytes e) (take count e.packets)) w in
      (e, failed r.status, r.world)

  -- The loop of `forward_from_vm`. It returns the argument of `trigger_shutdown`.
  unfoldable pub forward_from_vm : ℕ → Bool → Endpoint → World → Outcome (Endpoint × ℕ × World)
  forward_from_vm zero use_bulk_forwarding vm w = out_of_fuel
  forward_from_vm (suc fuel) use_bulk_forwarding vm w =
      let (e, result, w') = read_from_vm use_bulk_forwarding vm w in
      elim result [
        | none ↦ done (e, status_failure, w')
        | some count ↦ elim count [
          | zero ↦ done (e, status_stopped, w')
          | suc n ↦
              let (e', fails, w'') = write_to_host e (suc n) w' in
              elim fails [
                | true ↦ done (e', status_failure, w'')
                | false ↦ forward_from_vm fuel use_bulk_forwarding (add_batch e' (suc n)) w''
              ]
        ]
      ]

-- The bytes of a message that was read.
abbrev pub msg_data : Endpoint → MessageHeader → Datagram
msg_data e m = bytes_at e (iov_at e m.msg_iov).iov_base m.msg_len

abbrev pub messages : Endpoint → ℕ → List Datagram
messages e n = map (msg_data e) (take n e.msgs)

-- A read of messages takes the next datagrams, each no longer than its slot, and none only at the
-- end.
pub record MessagesTaken (sys : VmSystem) (e : Endpoint) (size n : ℕ) (w w' : sys.World)
    : Type 0 where
  pub count-le : n ≤ e.max_packet_count
  pub fits : (i : ℕ) → i < n → (msg_at e i).msg_len ≤ size
  pub taken :
      sys.trace w ≡ record (sys.trace w') { incoming = messages e n ++ (sys.trace w').incoming }
  pub closed : n ≡ 0 → (sys.trace w).incoming ≡ []

-- The documented behaviour of `recvmsg_x` (programs/socket_x.h) and of `read` on a connected unix
-- datagram socket: a call that fails takes nothing, pointers are left alone, and 0 is the end. The
-- peer sends no empty datagram.
pub record IsPacketSource (sys : VmSystem) (size : ℕ) : Type 0 where
  pub recvmsg_x_bound :
      (e : Endpoint) (w : sys.World)
      → IsBound e size
      → IsBound (with_messages e (sys.recvmsg_x e e.max_packet_count w)) size
  pub recvmsg_x_takes :
      (e : Endpoint) (w : sys.World) (n : ℕ)
      → IsBound e size
      → ((i : ℕ) → i < e.max_packet_count → (iov_at e i).iov_len ≡ size)
      → (sys.recvmsg_x e e.max_packet_count w).result ≡ ret n
      → MessagesTaken sys
          (with_messages e (sys.recvmsg_x e e.max_packet_count w))
          size
          n
          w
          (sys.recvmsg_x e e.max_packet_count w).world
  pub recvmsg_x_fails :
      (e : Endpoint) (w : sys.World) (errno : ℕ)
      → (sys.recvmsg_x e e.max_packet_count w).result ≡ fail errno
      → sys.trace (sys.recvmsg_x e e.max_packet_count w).world ≡ sys.trace w
  pub length-read :
      (e : Endpoint) (base len : ℕ) (w : sys.World)
      → length (sys.read e base len w).buffers ≡ length e.buffers
  pub read_takes :
      (e : Endpoint) (base len n : ℕ) (w : sys.World)
      → base + len ≤ length e.buffers
      → (sys.read e base len w).result ≡ ret n
      → 0 < n
      → (n ≤ len)
        × (sys.trace w ≡ record (sys.trace (sys.read e base len w).world) {
          incoming =
              bytes_at (with_bytes e (sys.read e base len w)) base n
              ∷ (sys.trace (sys.read e base len w).world).incoming;
        })
  pub read_ends :
      (e : Endpoint) (base len : ℕ) (w : sys.World)
      → (sys.read e base len w).result ≡ ret 0
      → (sys.trace (sys.read e base len w).world ≡ sys.trace w) × ((sys.trace w).incoming ≡ [])
  pub read_fails :
      (e : Endpoint) (base len errno : ℕ) (w : sys.World)
      → (sys.read e base len w).result ≡ fail errno
      → sys.trace (sys.read e base len w).world ≡ sys.trace w

-- `vmnet_write` takes the first packets, as many as it says, and none if it fails.
pub record IsPacketSink (sys : VmSystem) : Type 0 where
  pub writes :
      (ds : List Datagram) (w : sys.World)
      → (sys.vmnet_write ds w).status ≡ success
      → sys.trace (sys.vmnet_write ds w).world ≡ record (sys.trace w) {
        written = (sys.trace w).written ++ take (sys.vmnet_write ds w).count ds;
      }
  pub writes_nothing :
      (ds : List Datagram) (w : sys.World)
      → (sys.vmnet_write ds w).status ≢ success
      → sys.trace (sys.vmnet_write ds w).world ≡ sys.trace w

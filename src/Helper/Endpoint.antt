-- ===== src/Helper/Endpoint.antt =====
-- `struct endpoint` of programs/helper.c, and the arrays that it holds. A pointer into an array is
-- an index, and `iov_base` is an offset into the buffers.
pub mod Binding
use vmnet_helper.Prelude.{
  ℕ, zero, suc, ◌+◌, List, [], ◌∷◌, String, get_or, take, drop, u64, ◌*◌, ◌≡◌, ◌<◌, Bool, leb,
  if◌then◌else◌, length, replicate, Outcome, done, require, ◌>>=◌, ◌>>◌,
}
use vmnet_helper.System.{Datagram}

-- `struct iovec`
pub record IoVec : Type 0 where
  pub iov_base : ℕ
  pub iov_len : ℕ

-- `struct vmpktdesc`
pub record PacketDesc : Type 0 where
  pub vm_pkt_size : ℕ
  pub vm_pkt_iov : ℕ
  pub vm_pkt_iovcnt : ℕ
  pub vm_flags : ℕ

-- `struct msghdr_x`, with the fields of its `msg_hdr` that the helper sets
pub record MessageHeader : Type 0 where
  pub msg_iov : ℕ
  pub msg_iovlen : ℕ
  pub msg_len : ℕ

pub record ForwardStats : Type 0 where
  pub packets : ℕ
  pub bytes : ℕ
  pub drops : ℕ
  pub fast : ℕ
  pub slow : ℕ

pub record Endpoint : Type 0 where
  pub packets : List PacketDesc
  pub msgs : List MessageHeader
  pub iovs : List IoVec
  pub buffers : List ℕ
  pub max_packet_count : ℕ
  pub name : String
  pub stats : ForwardStats

abbrev pub no_iov : IoVec
no_iov = record { iov_base = 0; iov_len = 0 }

abbrev pub get_iov : List IoVec → ℕ → IoVec
get_iov iovs i = get_or iovs i no_iov

abbrev pub no_packet : PacketDesc
no_packet = record { vm_pkt_size = 0; vm_pkt_iov = 0; vm_pkt_iovcnt = 0; vm_flags = 0 }

abbrev pub get_packet : List PacketDesc → ℕ → PacketDesc
get_packet packets i = get_or packets i no_packet

abbrev pub no_msg : MessageHeader
no_msg = record { msg_iov = 0; msg_iovlen = 0; msg_len = 0 }

abbrev pub get_msg : List MessageHeader → ℕ → MessageHeader
get_msg msgs i = get_or msgs i no_msg

-- `&e->iovs[i]`
abbrev pub iov_at : Endpoint → ℕ → IoVec
iov_at e i = get_iov e.iovs i

-- The `len` bytes of the buffers from `base` on.
abbrev pub bytes_at : Endpoint → ℕ → ℕ → Datagram
bytes_at e base len = take len (drop base e.buffers)

-- What `write(fd, packet->vm_pkt_iov[0].iov_base, packet->vm_pkt_size)` reads.
abbrev pub packet_bytes : Endpoint → PacketDesc → Datagram
packet_bytes e p = bytes_at e (iov_at e p.vm_pkt_iov).iov_base p.vm_pkt_size

-- What a message describes: `sendmsg_x` goes by the length in the iovec.
abbrev pub msg_bytes : Endpoint → MessageHeader → Datagram
msg_bytes e m = let iov = iov_at e m.msg_iov in bytes_at e iov.iov_base iov.iov_len

-- `&e->packets[i]`
abbrev pub packet_at : Endpoint → ℕ → PacketDesc
packet_at e i = get_packet e.packets i

-- `&e->msgs[i]`
abbrev pub msg_at : Endpoint → ℕ → MessageHeader
msg_at e i = get_msg e.msgs i

-- The loop of `host_packets_size`.
unfoldable pub packets_size : List PacketDesc → ℕ → ℕ → ℕ
packets_size ps zero size = size
packets_size [] (suc n) size = size
packets_size (p ∷ ps) (suc n) size = packets_size ps n (u64 (size + p.vm_pkt_size))

-- `host_packets_size(count)`: the sum of the first `count` sizes, in a `size_t`.
unfoldable pub host_packets_size : Endpoint → ℕ → ℕ
unfolding packets_size
host_packets_size e count = packets_size e.packets count 0

-- The sizes of the structures on the 64-bit targets.
abbrev pub sizeof_packet : ℕ
sizeof_packet = 24

abbrev pub sizeof_msg : ℕ
sizeof_msg = 56

abbrev pub sizeof_iov : ℕ
sizeof_iov = 16

abbrev pub packet_count : ℕ → ℕ
packet_count max_packet_size = if leb (64 * 1024) max_packet_size then 16 else 128

abbrev zero_stats : ForwardStats
zero_stats = record { packets = 0; bytes = 0; drops = 0; fast = 0; slow = 0 }

-- The loop that binds the iovecs and the buffers to the packets and the messages, one function for
-- each array: the elements from `i` on, of which `n` are left. `calloc` has zeroed the other fields.
bind_iovs : ℕ → ℕ → ℕ → List IoVec
bind_iovs zero i size = []
bind_iovs (suc n) i size = record { iov_base = i * size; iov_len = 0 } ∷ bind_iovs n (i + 1) size

bind_packets : ℕ → ℕ → List PacketDesc
bind_packets zero i = []
bind_packets (suc n) i =
    record { vm_pkt_size = 0; vm_pkt_iov = i; vm_pkt_iovcnt = 1; vm_flags = 0 }
    ∷ bind_packets n (i + 1)

bind_msgs : ℕ → ℕ → List MessageHeader
bind_msgs zero i = []
bind_msgs (suc n) i = record { msg_iov = i; msg_iovlen = 1; msg_len = 0 } ∷ bind_msgs n (i + 1)

-- The endpoint after the loop.
bind : String → ℕ → Endpoint
unfolding bind_iovs bind_packets bind_msgs
bind name max_packet_size =
    let count = packet_count max_packet_size in
    record {
      packets = bind_packets count 0;
      msgs = bind_msgs count 0;
      iovs = bind_iovs count 0 max_packet_size;
      buffers = replicate (count * max_packet_size) 0;
      max_packet_count = count;
      name = name;
      stats = zero_stats;
    }

-- `init_endpoint`. `calloc` says whether an allocation of so many elements of a size succeeds.
unfoldable pub init_endpoint : (ℕ → ℕ → Bool) → String → ℕ → Outcome Endpoint
unfolding bind
init_endpoint calloc name max_packet_size = do
  let count = packet_count max_packet_size
  require (calloc count max_packet_size) "[main] calloc"
  require (calloc count sizeof_packet) "[main] calloc"
  require (calloc count sizeof_msg) "[main] calloc"
  require (calloc count sizeof_iov) "[main] calloc"
  done (bind name max_packet_size)

-- How the arrays of an endpoint refer to one another: slot `i` of each array is bound to the `i`-th
-- part of the buffers, of `size` bytes.
pub record IsBound (e : Endpoint) (size : ℕ) : Type 0 where
  pub packets_length : length e.packets ≡ e.max_packet_count
  pub msgs_length : length e.msgs ≡ e.max_packet_count
  pub iovs_length : length e.iovs ≡ e.max_packet_count
  pub buffers_length : length e.buffers ≡ e.max_packet_count * size
  pub packet_slot : (i : ℕ) → i < e.max_packet_count → (packet_at e i).vm_pkt_iov ≡ i
  pub msg_slot : (i : ℕ) → i < e.max_packet_count → (msg_at e i).msg_iov ≡ i
  pub iov_slot : (i : ℕ) → i < e.max_packet_count → (iov_at e i).iov_base ≡ i * size

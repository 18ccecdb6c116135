-- ===== src/Helper/FromHost/Reading.antt =====
-- `read_from_host` of programs/helper.c: the slots before and after a read.
use vmnet_helper.Prelude.{
  ℕ, zero, suc, ◌*◌, ◌≤◌, ◌<◌, ◌≡◌, refl, ap, ◌∙◌, sym, List, [], ◌∷◌, arith, length, drop,
  All_of_get, map-take_eq, length-take, length-drop,
}
use vmnet_helper.Helper.Endpoint.{
  PacketDesc, IoVec, Endpoint, get_packet, get_iov, packet_at, msg_at, iov_at, no_packet, no_msg,
  packet_bytes, msg_bytes, bytes_at, IsBound,
}
use vmnet_helper.Helper.Endpoint.Binding.{next_slot}
use vmnet_helper.Helper.HostToVm.Delivery.{IsFilled}
use vmnet_helper.Helper.FromHost.{
  HostRead, HostSystem, HostWorld, reset_packets, reset_iovs, reset, with_read, IsReset, ReadSome,
}

length-reset_packets :
    (n size : ℕ) (ps : List PacketDesc) → length (reset_packets n size ps) ≡ length ps
unfolding reset_packets
length-reset_packets zero size ps = refl
length-reset_packets (suc n) size [] = refl
length-reset_packets (suc n) size (p ∷ ps) = ap suc (length-reset_packets n size ps)

pub length-reset_iovs : (n size : ℕ) (vs : List IoVec) → length (reset_iovs n size vs) ≡ length vs
unfolding reset_iovs
length-reset_iovs zero size vs = refl
length-reset_iovs (suc n) size [] = refl
length-reset_iovs (suc n) size (v ∷ vs) = ap suc (length-reset_iovs n size vs)

get-reset_packets :
    (n size i : ℕ) (ps : List PacketDesc)
    → i < n
    → n ≤ length ps
    → get_packet (reset_packets n size ps) i
      ≡ record (get_packet ps i) { vm_pkt_size = size; vm_flags = 0 }
unfolding reset_packets
get-reset_packets zero size i ps lt le = absurd (omega arith)
get-reset_packets (suc n) size i [] lt le = absurd (omega arith)
get-reset_packets (suc n) size zero (p ∷ ps) lt le = refl
get-reset_packets (suc n) size (suc i) (p ∷ ps) lt le =
    get-reset_packets n size i ps (omega arith) (omega arith)

pub get-reset_iovs :
    (n size i : ℕ) (vs : List IoVec)
    → i < n
    → n ≤ length vs
    → get_iov (reset_iovs n size vs) i ≡ record (get_iov vs i) { iov_len = size }
unfolding reset_iovs
get-reset_iovs zero size i vs lt le = absurd (omega arith)
get-reset_iovs (suc n) size i [] lt le = absurd (omega arith)
get-reset_iovs (suc n) size zero (v ∷ vs) lt le = refl
get-reset_iovs (suc n) size (suc i) (v ∷ vs) lt le =
    get-reset_iovs n size i vs (omega arith) (omega arith)

module _ (e : Endpoint) (size : ℕ) (b : IsBound e size) where
  reset_packet :
      (i : ℕ)
      → i < e.max_packet_count
      → packet_at (reset e size) i ≡ record (packet_at e i) { vm_pkt_size = size; vm_flags = 0 }
  unfolding reset
  reset_packet i lt =
      get-reset_packets e.max_packet_count size i e.packets lt (omega (arith, b.packets_length))

  reset_iov :
      (i : ℕ)
      → i < e.max_packet_count
      → iov_at (reset e size) i ≡ record (iov_at e i) { iov_len = size }
  unfolding reset
  reset_iov i lt = get-reset_iovs e.max_packet_count size i e.iovs lt (omega (arith, b.iovs_length))

  pub reset-IsBound : IsBound (reset e size) size
  unfolding reset
  reset-IsBound = record {
    packets_length = length-reset_packets e.max_packet_count size e.packets ∙ b.packets_length;
    msgs_length = b.msgs_length;
    iovs_length = length-reset_iovs e.max_packet_count size e.iovs ∙ b.iovs_length;
    buffers_length = b.buffers_length;
    packet_slot = λ i lt. rw (reset_packet i lt) (b.packet_slot i lt);
    msg_slot = b.msg_slot;
    iov_slot = λ i lt. rw (reset_iov i lt) (b.iov_slot i lt);
  }

  pub reset-IsReset : IsReset (reset e size) size
  unfolding reset
  reset-IsReset = record {
    packet_size = λ i lt. ap (λ p. p.vm_pkt_size) (reset_packet i lt);
    packet_flags = λ i lt. ap (λ p. p.vm_flags) (reset_packet i lt);
    iov_size = λ i lt. ap (λ v. v.iov_len) (reset_iov i lt);
  }

-- The bytes of a packet that fits its slot are all in the buffers.
pub length-slot :
    (e : Endpoint) (size i len : ℕ)
    → IsBound e size
    → i < e.max_packet_count
    → len ≤ size
    → length (bytes_at e (i * size) len) ≡ len
length-slot e size i len b lt le = omega (
  arith,
  length-take len (drop (i * size) e.buffers),
  length-drop (i * size) e.buffers,
  b.buffers_length,
  next_slot i e.max_packet_count size lt,
)

module _ (sys : HostSystem) (e : Endpoint) (size : ℕ) (w : HostWorld sys)
    (r : HostRead (HostWorld sys)) (some_read : ReadSome sys e size w r) where
  packet_in_slot :
      (i : ℕ)
      → i < r.count
      → packet_bytes (with_read e r) (packet_at (with_read e r) i)
        ≡ bytes_at (with_read e r) (i * size) (packet_at (with_read e r) i).vm_pkt_size
  packet_in_slot i lt =
      let within : i < e.max_packet_count = omega (arith, some_read.count-le) in
      rw (some_read.bound.packet_slot i within, some_read.bound.iov_slot i within)

  msg_in_slot :
      (i : ℕ)
      → i < r.count
      → msg_bytes (with_read e r) (msg_at (with_read e r) i)
        ≡ bytes_at (with_read e r) (i * size) (packet_at (with_read e r) i).vm_pkt_size
  msg_in_slot i lt =
      let within : i < e.max_packet_count = omega (arith, some_read.count-le) in
      rw (
        some_read.bound.msg_slot i within,
        some_read.bound.iov_slot i within,
        some_read.iov_fits i lt,
      )

  -- What a successful read leaves can be forwarded.
  pub ReadSome-IsFilled : 0 < r.count → IsFilled (with_read e r) r.count
  ReadSome-IsFilled pos =
      let b = some_read.bound in
      let le = some_read.count-le in
      record {
        nonempty = pos;
        room = omega (arith, b.packets_length);
        whole =
            All_of_get (λ p. length (packet_bytes (with_read e r) p) ≡ p.vm_pkt_size) no_packet
              r.count r.packets (omega (arith, b.packets_length))
              (λ i lt.
                ap length (packet_in_slot i lt)
                ∙ length-slot (with_read e r) size i _ b (omega arith)
                    (some_read.packet_fits i lt));
        described =
            map-take_eq (msg_bytes (with_read e r)) (packet_bytes (with_read e r)) no_msg no_packet
              r.count e.msgs r.packets (omega (arith, b.msgs_length))
              (omega (arith, b.packets_length))
              (λ i lt. msg_in_slot i lt ∙ sym (packet_in_slot i lt));
      }

-- ===== src/Helper/HostToVm/Delivery.antt =====
-- What `write_to_vm` does with a batch that was read from the host.
use mathlib.Core.List.{append-nil, Sublistᴰ}
use mathlib.Core.List.Sublistᴰ
use vmnet_helper.Prelude.{
  ℕ, zero, suc, ◌+◌, ◌-◌, ◌≤◌, ◌<◌, ◌≡◌, refl, ap, ◌∙◌, Bool, true, false, List, [], ◌∷◌, ◌++◌, map,
  Outcome, done, ◌>>=◌, arith, inl, inr, Bool-cases, length, length-map, length-take, length-drop,
  take, drop, take_all, take-append-drop, map-drop, total_length, total_length-append,
  length-append, All, All-drop, u64,
}
use vmnet_helper.System.{Datagram, VmSocket, IsDatagramSocket, IsReliable}
use vmnet_helper.Helper.Endpoint.{
  PacketDesc, MessageHeader, Endpoint, packet_bytes, msg_bytes, packets_size, host_packets_size,
}
use vmnet_helper.Helper.HostToVm.{
  set_msg_lens, try_bulk, bulk_bytes, add_bulk, add_stats, finish, write_packets, write_to_vm,
  vm_retry_max,
}
use vmnet_helper.Helper.HostToVm.FastPath
use vmnet_helper.Helper.HostToVm.FastPath.{bulk_trace}
use vmnet_helper.Helper.HostToVm.SlowPath
use vmnet_helper.Helper.HostToVm.SlowPath.{since}

-- The datagrams of the first `count` packets.
abbrev pub batch : Endpoint → ℕ → List Datagram
batch host count = map (packet_bytes host) (take count host.packets)

-- What reading from the host leaves: `count` packets whose bytes are in the buffers, and that the
-- messages describe too.
pub record IsFilled (host : Endpoint) (count : ℕ) : Type 0 where
  pub nonempty : 0 < count
  pub room : count ≤ length host.packets
  pub whole : All (λ p. length (packet_bytes host p) ≡ p.vm_pkt_size) (take count host.packets)
  pub described : map (msg_bytes host) (take count host.msgs) ≡ batch host count

-- A batch was handled: an in-order part of it, `delivered`, reached the peer whole, and the
-- statistics account for every packet, byte and system call.
pub record Handled (sys : VmSocket) (host : Endpoint) (count : ℕ) (w : sys.World)
    (result : Outcome (Endpoint × sys.World)) : Type 0 where
  pub after : Endpoint
  pub world : sys.World
  pub delivered : List Datagram
  pub bulk_calls : ℕ
  pub write_calls : ℕ
  pub sleeps : ℕ
  pub returned : result ≡ done (after, world)
  pub arrays_eq :
      record after { stats = host.stats }
      ≡ record host { msgs = set_msg_lens count host.packets host.msgs }
  pub in_order : Sublistᴰ delivered (batch host count)
  pub traced : sys.trace world ≡ since (sys.trace w) delivered bulk_calls write_calls sleeps
  pub budget : sleeps ≤ vm_retry_max
  pub packets_eq : after.stats.packets ≡ u64 (host.stats.packets + length delivered)
  pub bytes_eq : after.stats.bytes ≡ u64 (host.stats.bytes + total_length delivered)
  pub drops_eq : u64 after.stats.drops ≡ u64 (host.stats.drops + (count - length delivered))
  pub fast_eq : after.stats.fast ≡ u64 (host.stats.fast + bulk_calls)
  pub slow_eq : u64 after.stats.slow ≡ u64 (host.stats.slow + write_calls)
  pub all : IsReliable sys → delivered ≡ batch host count

-- Setting `msg_len` does not change what the messages describe.
take-set_msg_lens :
    (host : Endpoint) (n count : ℕ) (ps : List PacketDesc) (ms : List MessageHeader)
    → map (msg_bytes host) (take n (set_msg_lens count ps ms)) ≡ map (msg_bytes host) (take n ms)
unfolding set_msg_lens
take-set_msg_lens host n zero ps ms = refl
take-set_msg_lens host n (suc count) [] ms = refl
take-set_msg_lens host n (suc count) (p ∷ ps) [] = refl
take-set_msg_lens host zero (suc count) (p ∷ ps) (m ∷ ms) = refl
take-set_msg_lens host (suc n) (suc count) (p ∷ ps) (m ∷ ms) =
    ap (λ r. msg_bytes host m ∷ r) (take-set_msg_lens host n count ps ms)

packets_size-total_length :
    (host : Endpoint) (ps : List PacketDesc) (n m size : ℕ)
    → n ≤ m
    → All (λ p. length (packet_bytes host p) ≡ p.vm_pkt_size) (take m ps)
    → u64 (packets_size ps n size)
      ≡ u64 (size + total_length (take n (map (packet_bytes host) (take m ps))))
unfolding packets_size
packets_size-total_length host ps zero m size le whole = omega arith
packets_size-total_length host [] (suc n) zero size le whole = omega arith
packets_size-total_length host [] (suc n) (suc m) size le whole = omega arith
packets_size-total_length host (p ∷ ps) (suc n) zero size le whole = absurd (omega arith)
packets_size-total_length host (p ∷ ps) (suc n) (suc m) size le whole = omega (
  arith,
  whole.0,
  packets_size-total_length host ps n m (u64 (size + p.vm_pkt_size)) (omega arith) whole.1,
)

-- A part that begins with the first `k` elements.
take-Sublistᴰ :
    (k : ℕ) (ds delivered : List Datagram)
    → Sublistᴰ delivered (drop k ds)
    → Sublistᴰ (take k ds ++ delivered) ds
take-Sublistᴰ zero ds delivered h = h
take-Sublistᴰ (suc k) [] delivered h = h
take-Sublistᴰ (suc k) (d ∷ ds) delivered h =
    Sublistᴰ.cons-cons refl (take-Sublistᴰ k ds delivered h)

pub length-batch :
    (host : Endpoint) (count : ℕ) → count ≤ length host.packets → length (batch host count) ≡ count
length-batch host count room =
    length-map (packet_bytes host) (take count host.packets)
    ∙ omega (arith, length-take count host.packets)

module _ (sys : VmSocket) (lawful : IsDatagramSocket sys) (host : Endpoint) (count : ℕ)
    (filled : IsFilled host count) (w : sys.World) where
  batch_size : length (batch host count) ≡ count
  batch_size = length-batch host count filled.room

  -- The host with `msg_len` set, on which the paths work.
  abbrev prepared : Endpoint
  prepared = record host { msgs = set_msg_lens count host.packets host.msgs }

  described : map (msg_bytes prepared) (take count prepared.msgs) ≡ batch host count
  described = take-set_msg_lens host count count host.packets host.msgs ∙ filled.described

  not_started : FastPath.SentBulk sys lawful (sys.trace w) (batch host count) 0 0 0 0 w
  not_started = record {
    traced = ground (arith, append-nil (sys.trace w).received);
    within = omega arith;
    budget = omega arith;
    counted = refl;
  }

  -- The fast path is left, or was not taken, and `bytes` counts what it sent.
  record TryEnds (bulk : Bool) : Type 0 where
    ends :
        FastPath.BulkEnds sys lawful
          (sys.trace w)
          (batch host count)
          (try_bulk sys bulk prepared count w)
    bytes_eq :
        u64 (bulk_bytes bulk prepared ends.bulk.packets)
        ≡ u64 (total_length (take ends.bulk.packets (batch host count)))

  send_bulk_prepared :
      FastPath.BulkEnds sys lawful
        (sys.trace w)
        (batch host count)
        (try_bulk sys true prepared count w)
  unfolding try_bulk
  send_bulk_prepared =
      let open_ends =
        FastPath.send_bulk-BulkEnds sys lawful (sys.trace w) (batch host count)
          (vm_retry_max + count + 1) 0 0 0 0 w not_started
          (omega (arith, batch_size, filled.nonempty)) (omega (arith, batch_size)) in
      rw described (rw batch_size at open_ends)

  try_bulk-TryEnds : (bulk : Bool) → TryEnds bulk
  unfolding try_bulk host_packets_size
  try_bulk-TryEnds false = record {
    ends = record {
      bulk = record { complete = false; packets = 0; retries = 0; fast = 0 };
      world = w;
      calls = 0;
      returned = refl;
      sent = not_started;
      all_sent = λ c. cc;
    };
    bytes_eq = refl;
  }
  try_bulk-TryEnds true = record {
    ends = send_bulk_prepared;
    bytes_eq =
        let k = send_bulk_prepared.bulk.packets in
        let within : k ≤ count = omega (arith, batch_size, send_bulk_prepared.sent.within) in
        omega
          (arith, packets_size-total_length prepared host.packets k count 0 within filled.whole);
  }

  -- The slow path over what the fast path has left.
  slow_ends :
      (bulk : Bool) (e : TryEnds bulk)
      → SlowPath.SlowEnds sys lawful
          (sys.trace w)
          e.ends.calls
          prepared
          (take e.ends.bulk.packets (batch host count))
          (drop e.ends.bulk.packets (take count host.packets))
          (record {
            packets = e.ends.bulk.packets;
            bytes = bulk_bytes bulk prepared e.ends.bulk.packets;
            retries = e.ends.bulk.retries;
            drops = 0;
            slow = 0;
          })
          (write_packets sys prepared
            (drop e.ends.bulk.packets (take count host.packets))
            (record {
              packets = e.ends.bulk.packets;
              bytes = bulk_bytes bulk prepared e.ends.bulk.packets;
              retries = e.ends.bulk.retries;
              drops = 0;
              slow = 0;
            })
            e.ends.world)
  slow_ends bulk e =
      SlowPath.write_packets-SlowEnds sys lawful (sys.trace w) e.ends.calls prepared
        (drop e.ends.bulk.packets (take count host.packets))
        (take e.ends.bulk.packets (batch host count)) _ 0 e.ends.world
        (All-drop (λ p. length (packet_bytes host p) ≡ p.vm_pkt_size) e.ends.bulk.packets
          (take count host.packets) filled.whole)
        (record {
          traced = ground (arith, e.ends.sent.traced);
          budget = e.ends.sent.budget;
          counted = refl;
        })

  all_sent :
      {bulk : Bool} (e : TryEnds bulk)
      → e.ends.bulk.complete ≡ true
      → take e.ends.bulk.packets (batch host count) ≡ batch host count
  all_sent e c = take_all e.ends.bulk.packets (batch host count) (omega (arith, e.ends.all_sent c))

  finish_complete-Handled :
      (bulk : Bool) (e : TryEnds bulk)
      → e.ends.bulk.complete ≡ true
      → Handled sys host count w (finish sys bulk prepared count e.ends.bulk e.ends.world)
  unfolding finish
  finish_complete-Handled bulk e c =
      let b = e.ends.bulk in
      let bytes = bulk_bytes bulk prepared b.packets in
      record {
        after = record prepared { stats = add_bulk host.stats b.packets bytes b.fast };
        world = e.ends.world;
        delivered = batch host count;
        bulk_calls = e.ends.calls;
        write_calls = 0;
        sleeps = b.retries;
        returned = ground (arith, c);
        arrays_eq = refl;
        in_order = Sublistᴰ.refl (batch host count);
        traced = ground (arith, e.ends.sent.traced, all_sent e c);
        budget = e.ends.sent.budget;
        packets_eq = ground (arith, e.ends.all_sent c);
        bytes_eq = ground (arith, e.bytes_eq, all_sent e c);
        drops_eq = omega (arith, batch_size);
        fast_eq = ground (arith, e.ends.sent.counted);
        slow_eq = omega arith;
        all = λ reliable. refl;
      }

  finish_slow-Handled :
      (bulk : Bool) (e : TryEnds bulk)
      → e.ends.bulk.complete ≡ false
      → Handled sys host count w (finish sys bulk prepared count e.ends.bulk e.ends.world)
  unfolding finish
  finish_slow-Handled bulk e c =
      let b = e.ends.bulk in
      let s = slow_ends bulk e in
      let first = take b.packets (batch host count) in
      let within : b.packets ≤ count = omega (arith, batch_size, e.ends.sent.within) in
      let first_length : length first ≡ b.packets =
        omega (arith, length-take b.packets (batch host count), batch_size) in
      let rest_length : length (drop b.packets (take count host.packets)) ≡ count - b.packets =
        omega (
          arith,
          length-drop b.packets (take count host.packets),
          length-take count host.packets,
          filled.room,
        ) in
      record {
        after = record prepared { stats = add_stats host.stats s.end b.fast };
        world = s.world;
        delivered = first ++ s.delivered;
        bulk_calls = e.ends.calls;
        write_calls = s.calls;
        sleeps = s.end.retries;
        returned = rw (c, ◌>>=◌) (rw (s.returned, ◌>>=◌));
        arrays_eq = refl;
        in_order =
            take-Sublistᴰ b.packets (batch host count) s.delivered
              (rw (← map-drop (packet_bytes host) b.packets (take count host.packets)) s.in_order);
        traced = s.stands.traced;
        budget = s.stands.budget;
        packets_eq = omega (arith, s.packets_eq, length-append first s.delivered, first_length);
        bytes_eq = omega (arith, s.bytes_eq, e.bytes_eq, total_length-append first s.delivered);
        drops_eq =
            omega (arith, s.drops_eq, length-append first s.delivered, first_length, rest_length);
        fast_eq = omega (arith, e.ends.sent.counted);
        slow_eq = omega (arith, s.stands.counted);
        all = λ reliable.
            ap (λ ds. first ++ ds)
              (s.all reliable ∙ map-drop (packet_bytes host) b.packets (take count host.packets))
            ∙ take-append-drop b.packets (batch host count);
      }

  -- With a datagram socket that keeps to its contract and a batch of at least one packet that fits the arrays
  -- and lies in the buffers, `write_to_vm` returns, on both paths: the peer received a part of the batch in
  -- order and whole, there were at most `vm_retry_max` sleeps, and the counters grew by the packets, the bytes,
  -- the drops and the system calls, modulo 2^64. The other fields but `msg_len` are kept.
  pub write_to_vm-Handled :
      (use_bulk_forwarding : Bool)
      → Handled sys host count w (write_to_vm sys use_bulk_forwarding host count w)
  unfolding write_to_vm
  write_to_vm-Handled use_bulk_forwarding =
      let e = try_bulk-TryEnds use_bulk_forwarding in
      rw (e.ends.returned, ◌>>=◌)
        (elim (Bool-cases e.ends.bulk.complete) [
          | inl c ↦ finish_complete-Handled use_bulk_forwarding e c
          | inr c ↦ finish_slow-Handled use_bulk_forwarding e c
        ])

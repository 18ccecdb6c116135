-- ===== src/Helper/HostToVm.antt =====
-- `write_to_vm` of programs/helper.c: a batch of packets goes to the virtual machine, by
-- `sendmsg_x` while that works, then packet by packet with `write`.
pub mod FastPath
pub mod SlowPath
pub mod Delivery
pub mod Binding
pub mod Paths
use vmnet_helper.Prelude.{
  ℕ, zero, suc, ◌+◌, ◌*◌, Bool, true, false, ◌&&◌, List, [], ◌∷◌, map, Outcome, done, out_of_fuel,
  assert, ◌>>=◌, ◌>>◌, ltb, ◌==◌, if◌then◌else◌, take, drop, u64,
}
use vmnet_helper.System.{Datagram, Sys, ret, fail, enobufs, VmSocket}
use vmnet_helper.Helper.Endpoint.{
  PacketDesc, MessageHeader, ForwardStats, Endpoint, packet_bytes, msg_bytes, host_packets_size,
}

-- `VM_RETRY_DELAY`, in nanoseconds
abbrev pub vm_retry_delay : ℕ
vm_retry_delay = 50 * 1000

abbrev pub vm_retry_max : ℕ
vm_retry_max = 10

-- for (i = 0; i < count; i++) msgs[i].msg_len = packets[i].vm_pkt_size;
unfoldable pub set_msg_lens : ℕ → List PacketDesc → List MessageHeader → List MessageHeader
set_msg_lens zero ps ms = ms
set_msg_lens (suc n) [] ms = ms
set_msg_lens (suc n) (p ∷ ps) [] = []
set_msg_lens (suc n) (p ∷ ps) (m ∷ ms) = record m { msg_len = p.vm_pkt_size } ∷ set_msg_lens n ps ms

-- The locals of the fast path when it is left. `complete` says that it returned from the function.
pub record Bulk : Type 0 where
  pub complete : Bool
  pub packets : ℕ
  pub retries : ℕ
  pub fast : ℕ

-- The locals of the slow path.
pub record Slow : Type 0 where
  pub packets : ℕ
  pub bytes : ℕ
  pub retries : ℕ
  pub drops : ℕ
  pub slow : ℕ

-- `errno == ENOBUFS && retries < VM_RETRY_MAX`
abbrev pub may_retry : ℕ → ℕ → Bool
may_retry errno retries = errno == enobufs && ltb retries vm_retry_max

-- The rest of a round of the slow path, after `write`.
settle : PacketDesc → Sys → ℕ → ℕ → Slow → Outcome Slow
settle p (fail errno) retries slow s =
    done (record s { retries = retries; slow = slow; drops = s.drops + 1 })
settle p (ret len) retries slow s = do
  assert (len == p.vm_pkt_size)
  done (record s {
    retries = retries;
    slow = slow;
    packets = s.packets + 1;
    bytes = u64 (s.bytes + p.vm_pkt_size);
  })

-- `bytes` when the fast path is left: it stays 0 if the fast path is not enabled.
abbrev bulk_bytes : Bool → Endpoint → ℕ → ℕ
bulk_bytes use_bulk_forwarding host packets =
    if use_bulk_forwarding then host_packets_size host packets else 0

-- The statistics when the fast path has sent everything.
unfoldable pub add_bulk : ForwardStats → ℕ → ℕ → ℕ → ForwardStats
add_bulk t packets bytes fast = record t {
  packets = u64 (t.packets + packets);
  bytes = u64 (t.bytes + bytes);
  fast = u64 (t.fast + fast);
}

-- The statistics after the slow path.
add_stats : ForwardStats → Slow → ℕ → ForwardStats
add_stats t s fast = record t {
  packets = u64 (t.packets + s.packets);
  bytes = u64 (t.bytes + s.bytes);
  drops = u64 (t.drops + s.drops);
  fast = u64 (t.fast + fast);
  slow = u64 (t.slow + s.slow);
}

module _ (sys : VmSocket) where
  open sys use {World, sendmsg_x, write, nanosleep}

  unfoldable pub wait_for_buffer_space : World → World
  wait_for_buffer_space = nanosleep vm_retry_delay

  -- The loop of the fast path. `datagrams` are those of `host.msgs[0 .. count]`.
  pub send_bulk : ℕ → List Datagram → ℕ → ℕ → ℕ → ℕ → World → Outcome (Bulk × World)
  unfolding wait_for_buffer_space
  send_bulk zero datagrams count packets retries fast w = out_of_fuel
  send_bulk (suc fuel) datagrams count packets retries fast w =
      let fast' = u64 (fast + 1) in
      let (result, w') = sendmsg_x (drop packets datagrams) w in
      elim result [
        | fail errno ↦ elim (may_retry errno retries) [
          | true ↦
              send_bulk fuel datagrams count packets (retries + 1) fast' (wait_for_buffer_space w')
          | false ↦
              done (
                record { complete = false; packets = packets; retries = retries; fast = fast' },
                w',
              )
        ]
        | ret n ↦ elim (packets + n == count) [
          | true ↦ done (
            record { complete = true; packets = packets + n; retries = retries; fast = fast' },
            w',
          )
          | false ↦ send_bulk fuel datagrams count (packets + n) retries fast' w'
        ]
      ]

  -- The inner loop of the slow path: one packet, until it is written or given up. It returns the
  -- last result of `write`, `retries` and `slow`.
  pub write_packet : ℕ → Datagram → ℕ → ℕ → World → Outcome (Sys × ℕ × ℕ × World)
  unfolding wait_for_buffer_space
  write_packet zero datagram retries slow w = out_of_fuel
  write_packet (suc fuel) datagram retries slow w =
      let slow' = u64 (slow + 1) in
      let (result, w') = write datagram w in
      elim result [
        | fail errno ↦ elim (may_retry errno retries) [
          | true ↦ write_packet fuel datagram (retries + 1) slow' (wait_for_buffer_space w')
          | false ↦ done (fail errno, retries, slow', w')
        ]
        | ret len ↦ done (ret len, retries, slow', w')
      ]

  -- The slow path, over the packets from `packets` up to `count`.
  pub write_packets : Endpoint → List PacketDesc → Slow → World → Outcome (Slow × World)
  unfolding write_packet settle
  write_packets host [] s w = done (s, w)
  write_packets host (p ∷ ps) s w = do
    (result, retries, slow, w') ←
        write_packet (vm_retry_max + 1) (packet_bytes host p) s.retries s.slow w
    s' ← settle p result retries slow s
    write_packets host ps s' w'

  -- The fast path, if it is enabled.
  try_bulk : Bool → Endpoint → ℕ → World → Outcome (Bulk × World)
  unfolding send_bulk
  try_bulk false host count w =
      done (record { complete = false; packets = 0; retries = 0; fast = 0 }, w)
  try_bulk true host count w =
      send_bulk (vm_retry_max + count + 1) (map (msg_bytes host) (take count host.msgs)) count 0 0 0
        w

  -- What follows the fast path.
  finish : Bool → Endpoint → ℕ → Bulk → World → Outcome (Endpoint × World)
  unfolding write_packets add_bulk add_stats
  finish use_bulk_forwarding host count b w =
      let bytes = bulk_bytes use_bulk_forwarding host b.packets in
      elim b.complete [
        | true ↦ done (record host { stats = add_bulk host.stats b.packets bytes b.fast }, w)
        | false ↦ do
          (s, w') ←
              write_packets host (drop b.packets (take count host.packets))
                (record {
                  packets = b.packets;
                  bytes = bytes;
                  retries = b.retries;
                  drops = 0;
                  slow = 0;
                })
                w
          done (record host { stats = add_stats host.stats s b.fast }, w')
      ]

  unfoldable pub write_to_vm : Bool → Endpoint → ℕ → World → Outcome (Endpoint × World)
  unfolding set_msg_lens try_bulk finish
  write_to_vm use_bulk_forwarding host count w = do
    let host' = record host { msgs = set_msg_lens count host.packets host.msgs }
    (b, w') ← try_bulk use_bulk_forwarding host' count w
    finish use_bulk_forwarding host' count b w'

-- ===== src/Helper/FromHost.antt =====
-- `read_from_host` and `packets_available` of programs/helper.c: while the vmnet interface has
-- packets, a batch of them is read and written to the virtual machine.
pub mod Reading
pub mod Drain
use vmnet_helper.Prelude.{
  ℕ, zero, suc, ◌+◌, ◌≤◌, ◌<◌, ◌≡◌, ◌≢◌, Bool, true, false, List, [], ◌∷◌, ◌++◌, Option, none, some,
  Outcome, done, out_of_fuel, ◌>>=◌, ltb,
}
use vmnet_helper.System.{Datagram, Trace, VmSocket, VmnetReturn, success}
use vmnet_helper.Helper.Endpoint.{
  PacketDesc, MessageHeader, IoVec, Endpoint, packet_at, iov_at, IsBound,
}
use vmnet_helper.Helper.HostToVm.{write_to_vm}
use vmnet_helper.Helper.HostToVm.Delivery.{batch}

-- What `vmnet_read` returns: its status, the arrays and the buffers that it has written to, the
-- number of packets, and the next state.
pub record HostRead (W : Type 0) : Type 0 where
  pub status : VmnetReturn
  pub packets : List PacketDesc
  pub iovs : List IoVec
  pub buffers : List ℕ
  pub count : ℕ
  pub world : W

pub record HostSystem : Type 1 where
  pub socket : VmSocket
  pub vmnet_read : Endpoint → ℕ → socket.World → HostRead socket.World

abbrev pub HostWorld : HostSystem → Type 0
HostWorld sys = sys.socket.World

abbrev pub host_trace : (sys : HostSystem) → HostWorld sys → Trace
host_trace sys = sys.socket.trace

-- for (i = 0; i < n; i++) { packets[i].vm_pkt_size = size; packets[i].vm_flags = 0; }
reset_packets : ℕ → ℕ → List PacketDesc → List PacketDesc
reset_packets zero size ps = ps
reset_packets (suc n) size [] = []
reset_packets (suc n) size (p ∷ ps) =
    record p { vm_pkt_size = size; vm_flags = 0 } ∷ reset_packets n size ps

-- for (i = 0; i < n; i++) iovs[i].iov_len = size;
unfoldable pub reset_iovs : ℕ → ℕ → List IoVec → List IoVec
reset_iovs zero size vs = vs
reset_iovs (suc n) size [] = []
reset_iovs (suc n) size (v ∷ vs) = record v { iov_len = size } ∷ reset_iovs n size vs

pub reset : Endpoint → ℕ → Endpoint
unfolding reset_packets reset_iovs
reset host size = record host {
  packets = reset_packets host.max_packet_count size host.packets;
  iovs = reset_iovs host.max_packet_count size host.iovs;
}

-- The endpoint with what a read has written.
abbrev pub with_read : {W : Type 0} → Endpoint → HostRead W → Endpoint
with_read e r = record e { packets = r.packets; iovs = r.iovs; buffers = r.buffers }

-- `none` is -1.
abbrev pub read_result : VmnetReturn → ℕ → Option ℕ
read_result success count = some count
read_result _ count = none

module _ (sys : HostSystem) (max_packet_size : ℕ) where
  pub read_from_host : Endpoint → HostWorld sys → Endpoint × Option ℕ × HostWorld sys
  unfolding reset
  read_from_host host w =
      let e = reset host max_packet_size in
      let r = sys.vmnet_read e host.max_packet_count w in
      (with_read e r, read_result r.status r.count, r.world)

  -- The loop of `packets_available`.
  unfoldable pub packets_available :
      ℕ → Bool → Endpoint → HostWorld sys → Outcome (Endpoint × HostWorld sys)
  unfolding read_from_host
  packets_available zero use_bulk_forwarding host w = out_of_fuel
  packets_available (suc fuel) use_bulk_forwarding host w =
      let (host', result, w') = read_from_host host w in
      elim result [
        | none ↦ done (host', w')
        | some count ↦ elim (ltb count 1) [
          | true ↦ done (host', w')
          | false ↦ do
            (host'', w'') ← write_to_vm sys.socket use_bulk_forwarding host' count w'
            packets_available fuel use_bulk_forwarding host'' w''
        ]
      ]

-- What `vmnet_read` requires of the first `count` packets.
pub record IsReset (e : Endpoint) (size : ℕ) : Type 0 where
  pub packet_size : (i : ℕ) → i < e.max_packet_count → (packet_at e i).vm_pkt_size ≡ size
  pub packet_flags : (i : ℕ) → i < e.max_packet_count → (packet_at e i).vm_flags ≡ 0
  pub iov_size : (i : ℕ) → i < e.max_packet_count → (iov_at e i).iov_len ≡ size

-- A read that succeeds takes the next packets, at most as many as it is given slots, and none only
-- if there is none. It writes their bytes to the slots and their sizes to `vm_pkt_size` and
-- `iov_len`, and leaves the pointers alone.
pub record ReadSome (sys : HostSystem) (e : Endpoint) (size : ℕ) (w : HostWorld sys)
    (r : HostRead (HostWorld sys)) : Type 0 where
  pub count-le : r.count ≤ e.max_packet_count
  pub bound : IsBound (with_read e r) size
  pub iov_fits :
      (i : ℕ)
      → i < r.count
      → (iov_at (with_read e r) i).iov_len ≡ (packet_at (with_read e r) i).vm_pkt_size
  pub packet_fits : (i : ℕ) → i < r.count → (packet_at (with_read e r) i).vm_pkt_size ≤ size
  pub taken : host_trace sys w ≡ record (host_trace sys r.world) {
    incoming = batch (with_read e r) r.count ++ (host_trace sys r.world).incoming;
  }
  pub none_left : r.count ≡ 0 → (host_trace sys w).incoming ≡ []

-- The documented behaviour of `vmnet_read`.
pub record IsVmnetReader (sys : HostSystem) (size : ℕ) : Type 0 where
  pub reads :
      (e : Endpoint) (w : HostWorld sys)
      → IsBound e size
      → IsReset e size
      → (sys.vmnet_read e e.max_packet_count w).status ≡ success
      → ReadSome sys e size w (sys.vmnet_read e e.max_packet_count w)
  pub reads_nothing :
      (e : Endpoint) (w : HostWorld sys)
      → IsBound e size
      → (sys.vmnet_read e e.max_packet_count w).status ≢ success
      → IsBound (with_read e (sys.vmnet_read e e.max_packet_count w)) size
        × (host_trace sys (sys.vmnet_read e e.max_packet_count w).world ≡ host_trace sys w)

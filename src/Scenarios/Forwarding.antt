-- ===== src/Scenarios/Forwarding.antt =====
-- Packets on their way from the host to the virtual machine.
use vmnet_helper.Prelude.{
  ℕ, zero, suc, ◌*◌, ◌⊎◌, ◌+◌, ◌≤◌, ◌<◌, ◌≡◌, refl, Bool, true, false, [], ◌∷◌, Outcome, done,
  exited, arith, length,
}
use vmnet_helper.System.{Trace, ret, fail, enobufs}
use vmnet_helper.Helper.Endpoint.{
  Endpoint, packet_at, msg_at, iov_at, init_endpoint, host_packets_size, IsBound,
}
use vmnet_helper.Helper.Endpoint.Binding.{init_endpoint-IsBound, init_endpoint_apart}
use vmnet_helper.Helper.HostToVm.{write_to_vm}
use vmnet_helper.Helper.HostToVm.Delivery.{IsFilled, Handled, write_to_vm-Handled}
use vmnet_helper.Helper.FromHost.{packets_available}
use vmnet_helper.Helper.FromHost.Drain.{Drained, packets_available-Drained}
use vmnet_helper.Scenarios.Machine.{
  Machine, machine_socket, machine_socket-IsDatagramSocket, machine, machine-IsVmnetReader,
}

-- An endpoint with two slots of four bytes.
abbrev pub host : Endpoint
host = record {
  packets =
      record { vm_pkt_size = 4; vm_pkt_iov = 0; vm_pkt_iovcnt = 1; vm_flags = 0 }
      ∷ record { vm_pkt_size = 2; vm_pkt_iov = 1; vm_pkt_iovcnt = 1; vm_flags = 0 }
      ∷ [];
  msgs =
      record { msg_iov = 0; msg_iovlen = 1; msg_len = 0 }
      ∷ record { msg_iov = 1; msg_iovlen = 1; msg_len = 0 }
      ∷ [];
  iovs = record { iov_base = 0; iov_len = 4 } ∷ record { iov_base = 4; iov_len = 2 } ∷ [];
  buffers = 1 ∷ 2 ∷ 3 ∷ 4 ∷ 5 ∷ 6 ∷ 0 ∷ 0 ∷ [];
  max_packet_count = 2;
  name = "host";
  stats = record { packets = 10; bytes = 100; drops = 1; fast = 3; slow = 2 };
}

pub host-IsBound : IsBound host 4
host-IsBound = record {
  packets_length = refl;
  msgs_length = refl;
  iovs_length = refl;
  buffers_length = refl;
  packet_slot = packet_slot;
  msg_slot = msg_slot;
  iov_slot = iov_slot;
}
  where
    packet_slot : (i : ℕ) → i < 2 → (packet_at host i).vm_pkt_iov ≡ i
    packet_slot zero lt = refl
    packet_slot (suc zero) lt = refl
    packet_slot (suc (suc i)) lt = absurd (omega arith)

    msg_slot : (i : ℕ) → i < 2 → (msg_at host i).msg_iov ≡ i
    msg_slot zero lt = refl
    msg_slot (suc zero) lt = refl
    msg_slot (suc (suc i)) lt = absurd (omega arith)

    iov_slot : (i : ℕ) → i < 2 → (iov_at host i).iov_base ≡ i * 4
    iov_slot zero lt = refl
    iov_slot (suc zero) lt = refl
    iov_slot (suc (suc i)) lt = absurd (omega arith)

pub host-IsFilled : IsFilled host 2
host-IsFilled = record {
  nonempty = omega arith;
  room = omega arith;
  whole = (refl, (refl, tt));
  described = refl;
}

abbrev quiet : Trace
quiet = record { incoming = []; received = []; bulk_calls = 0; write_calls = 0; sleeps = 0 }

-- The buffers of the peer are full for a while: the fast path sends one packet and fails, and the
-- slow path drops the other.
abbrev crowded : Machine
crowded = record { script = ret 1 ∷ fail enobufs ∷ fail 12 ∷ fail 12 ∷ []; trace = quiet }

write_to_vm-crowded :
    write_to_vm machine_socket true host 2 crowded
    ≡ done (
      record host {
        msgs =
            record { msg_iov = 0; msg_iovlen = 1; msg_len = 4 }
            ∷ record { msg_iov = 1; msg_iovlen = 1; msg_len = 2 }
            ∷ [];
        stats = record { packets = 11; bytes = 104; drops = 2; fast = 6; slow = 3 };
      },
      record {
        script = [];
        trace = record {
          incoming = [];
          received = (1 ∷ 2 ∷ 3 ∷ 4 ∷ []) ∷ [];
          bulk_calls = 3;
          write_calls = 1;
          sleeps = 1;
        };
      },
    )
unfolding write_to_vm host_packets_size
write_to_vm-crowded = refl

write_to_vm-Handled_example :
    Handled machine_socket host 2 crowded (write_to_vm machine_socket true host 2 crowded)
write_to_vm-Handled_example =
    write_to_vm-Handled machine_socket machine_socket-IsDatagramSocket host 2 host-IsFilled crowded
      true

-- Three packets wait at the interface.
abbrev busy : Machine
busy = record {
  script = [];
  trace = record quiet { incoming = (7 ∷ []) ∷ (8 ∷ 9 ∷ []) ∷ (1 ∷ 1 ∷ 1 ∷ 1 ∷ []) ∷ [] };
}

packets_available-Drained_example :
    Drained (machine 4) host 4 busy (packets_available (machine 4) 4 4 true host busy)
packets_available-Drained_example =
    packets_available-Drained (machine 4) 4 machine_socket-IsDatagramSocket
      (machine-IsVmnetReader 4) true 4 host busy host-IsBound (omega arith)

abbrev always : ℕ → ℕ → Bool
always count size = true

init_endpoint-IsBound_example :
    ((true ≡ true)
      × (e : Endpoint) × (init_endpoint always "vm" 4 ≡ done e)
      × (e.max_packet_count ≡ 128)
      × IsBound e 4)
    ⊎ ((true ≡ false) × (init_endpoint always "vm" 4 ≡ exited 1 "[main] calloc"))
init_endpoint-IsBound_example = init_endpoint-IsBound always "vm" 4

initialised : Outcome Endpoint → Endpoint
initialised (done e) = e
initialised _ = host

abbrev vm : Endpoint
unfolding init_endpoint initialised
vm = initialised (init_endpoint always "vm" 4)

init_endpoint_apart_example :
    ((iov_at vm (packet_at vm 3).vm_pkt_iov).iov_base + 4
      ≤ (iov_at vm (packet_at vm 100).vm_pkt_iov).iov_base)
    × ((iov_at vm (packet_at vm 100).vm_pkt_iov).iov_base + 4 ≤ length vm.buffers)
unfolding init_endpoint initialised
init_endpoint_apart_example =
    init_endpoint_apart always "vm" 4 {e = vm} refl 3 100 (omega arith) (omega arith)

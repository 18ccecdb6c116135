-- ===== src/Scenarios/FromVm.antt =====
-- Packets on their way from the virtual machine to the host.
use vmnet_helper.Prelude.{
  ℕ, ◌+◌, ◌<◌, u64, ◌≡◌, refl, true, List, [], ◌∷◌, Outcome, done, arith, length,
}
use vmnet_helper.Helper.Endpoint.{Endpoint}
use vmnet_helper.System.{Datagram}
use vmnet_helper.Helper.FromHost.{reset_iovs}
use vmnet_helper.Helper.VmToHost.{
  VmTrace, described, add_batch, vm_msgs_size, read_from_vm, write_to_host, forward_from_vm,
  status_stopped,
}
use vmnet_helper.Helper.VmToHost.Forward.{Forwarded, forward_from_vm-Forwarded, short_write_counted}
use vmnet_helper.Scenarios.Forwarding.{host, host-IsBound}
use vmnet_helper.Scenarios.VmMachine.{
  vm_machine, vm_machine-IsPacketSource, vm_machine-IsPacketSink,
}

-- Two frames, and the end.
abbrev two_frames : VmTrace
two_frames = record { incoming = (1 ∷ 2 ∷ 3 ∷ 4 ∷ []) ∷ (5 ∷ 6 ∷ []) ∷ []; written = [] }

-- The flags, the packets that were written, and the counts.
abbrev report : Outcome (Endpoint × ℕ × VmTrace) → ℕ × List Datagram × ℕ × ℕ
report (done (vm, flags, w)) = (flags, w.written, vm.stats.packets, vm.stats.bytes)
report _ = (0, [], 0, 0)

abbrev expected : ℕ × List Datagram × ℕ × ℕ
expected = (status_stopped, two_frames.incoming, 12, 106)

-- The loop ends as the peer closes the socket; the frames are written in order.
two_frames_forwarded : report (forward_from_vm (vm_machine 8) 4 3 true host two_frames) ≡ expected
unfolding forward_from_vm read_from_vm write_to_host add_batch vm_msgs_size described reset_iovs
two_frames_forwarded = refl

forward_from_vm-Forwarded_example :
    Forwarded
      (vm_machine 8)
      host
      4
      two_frames
      (forward_from_vm (vm_machine 8) 4 3 true host two_frames)
forward_from_vm-Forwarded_example =
    forward_from_vm-Forwarded (vm_machine 8) 4 (vm_machine-IsPacketSource 8 4)
      (vm_machine-IsPacketSink 8) true 3 host two_frames host-IsBound (omega arith) (omega arith)

-- The interface takes no packet, and reports success.
short_write_counted_example :
    (v : Endpoint) × (u : VmTrace) × (forward_from_vm (vm_machine 0) 4 3 true host two_frames
      ≡ forward_from_vm (vm_machine 0) 4 2 true v u)
    × (u64 v.stats.packets ≡ u64 (host.stats.packets + 1))
    × (length u.written < 1)
unfolding read_from_vm reset_iovs
short_write_counted_example =
    short_write_counted (vm_machine 0) 4 (vm_machine-IsPacketSource 0 4) (vm_machine-IsPacketSink 0)
      true 2 0 host two_frames host-IsBound (omega arith) refl refl (omega arith)

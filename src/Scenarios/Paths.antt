-- ===== src/Scenarios/Paths.antt =====
-- A socket on which `sendmsg_x` fails and `write` does not.
use vmnet_helper.Prelude.{refl, true, false, [], ◌∷◌, length}
use vmnet_helper.System.{ret, fail, VmSocket, IsDatagramSocket, IsReliable, after_write}
use vmnet_helper.Helper.HostToVm.{write_to_vm}
use vmnet_helper.Helper.HostToVm.Paths.{Agree, write_to_vm-Agree}
use vmnet_helper.Scenarios.Machine.{Machine, machine_socket, machine_socket-IsDatagramSocket}
use vmnet_helper.Scenarios.Forwarding.{host, host-IsFilled}

abbrev writable : VmSocket
writable = record machine_socket {
  write = λ d w. (ret (length d), record w { trace = after_write d (ret (length d)) w.trace });
}

writable-IsDatagramSocket : IsDatagramSocket writable
writable-IsDatagramSocket = record {
  trace-sendmsg_x = machine_socket-IsDatagramSocket.trace-sendmsg_x;
  sendmsg_x_range = machine_socket-IsDatagramSocket.sendmsg_x_range;
  trace-write = λ d w. refl;
  write_whole = λ d w n e. cc;
  trace-nanosleep = λ ns w. refl;
}

writable-IsReliable : IsReliable writable
writable-IsReliable d w = (length d, refl)

-- The fast path sends one packet and fails.
abbrev refusing : Machine
refusing = record {
  script = ret 1 ∷ fail 12 ∷ [];
  trace = record { incoming = []; received = []; bulk_calls = 0; write_calls = 0; sleeps = 0 };
}

write_to_vm-Agree_example :
    Agree writable host 2 refusing
      (write_to_vm writable true host 2 refusing)
      (write_to_vm writable false host 2 refusing)
write_to_vm-Agree_example =
    write_to_vm-Agree writable writable-IsDatagramSocket writable-IsReliable host 2 host-IsFilled
      refusing

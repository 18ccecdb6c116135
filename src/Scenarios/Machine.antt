-- ===== src/Scenarios/Machine.antt =====
-- A system for concrete runs. The socket answers by a script, and sends everything when the script
-- is over. The vmnet interface hands over one packet at a time.
use vmnet_helper.Prelude.{
  ℕ, zero, suc, ◌+◌, ◌*◌, ◌≤◌, ◌<◌, ◌≡◌, refl, ap, ◌∙◌, sym, ◌≢◌, inl, inr, Bool-cases, ◌&&◌, List,
  [], ◌∷◌, map, ◌++◌, arith, leb, ltb, if◌then◌else◌, length, length-append, length-drop, take,
  drop,
}
use vmnet_helper.System.{
  Datagram, Trace, Sys, ret, fail, VmSocket, IsDatagramSocket, success, packet_too_big,
  after_sendmsg_x, after_write,
}
use vmnet_helper.Helper.Endpoint.{PacketDesc, IoVec, Endpoint, get_packet, get_iov, IsBound}
use vmnet_helper.Helper.HostToVm.Delivery.{batch}
use vmnet_helper.Helper.FromHost.{HostRead, HostSystem, with_read, ReadSome, IsVmnetReader}

pub record Machine : Type 0 where
  pub script : List Sys
  pub trace : Trace

-- At least one datagram is sent by a call that succeeds, if it is given any, and no more than it is given.
abbrev clamp : Sys → ℕ → Sys
clamp (fail errno) n = fail errno
clamp (ret k) n = ret (if leb n k then n else if ltb 0 k then k else 1)

abbrev answer : List Sys → ℕ → Sys
answer [] n = ret n
answer (r ∷ rs) n = clamp r n

abbrev rest : List Sys → List Sys
rest [] = []
rest (r ∷ rs) = rs

abbrev whole : List Sys → ℕ → Sys
whole [] n = ret n
whole (fail errno ∷ rs) n = fail errno
whole (ret k ∷ rs) n = ret n

abbrev pub machine_socket : VmSocket
machine_socket = record {
  World = Machine;
  sendmsg_x = λ ds w. (
    answer w.script (length ds),
    record {
      script = rest w.script;
      trace = after_sendmsg_x ds (answer w.script (length ds)) w.trace;
    },
  );
  write = λ d w. (
    whole w.script (length d),
    record { script = rest w.script; trace = after_write d (whole w.script (length d)) w.trace },
  );
  nanosleep = λ ns w. record w { trace = record (w.trace) { sleeps = w.trace.sleeps + 1 } };
  trace = λ w. w.trace;
}

answer_range : (script : List Sys) (k n : ℕ) → answer script k ≡ ret n → 0 < k → (0 < n) × (n ≤ k)
answer_range [] k n e pos = ground arith
answer_range (fail errno ∷ rs) k n e pos = cc
answer_range (ret m ∷ rs) k n e pos = ground arith

whole_length : (script : List Sys) (k n : ℕ) → whole script k ≡ ret n → n ≡ k
whole_length [] k n e = ground arith
whole_length (fail errno ∷ rs) k n e = cc
whole_length (ret m ∷ rs) k n e = ground arith

pub machine_socket-IsDatagramSocket : IsDatagramSocket machine_socket
machine_socket-IsDatagramSocket = record {
  trace-sendmsg_x = λ ds w. refl;
  sendmsg_x_range = λ ds w n e pos. answer_range w.script (length ds) n e pos;
  trace-write = λ d w. refl;
  write_whole = λ d w n e. whole_length w.script (length d) n e;
  trace-nanosleep = λ ns w. refl;
}

-- The arrays with a packet of `len` bytes in slot 0.
abbrev put_packet : ℕ → List PacketDesc → List PacketDesc
put_packet len [] = []
put_packet len (p ∷ ps) = record p { vm_pkt_size = len } ∷ ps

abbrev put_iov : ℕ → List IoVec → List IoVec
put_iov len [] = []
put_iov len (v ∷ vs) = record v { iov_len = len } ∷ vs

abbrev read_packet : Endpoint → ℕ → ℕ → List Datagram → Machine → HostRead Machine
read_packet e size count [] w = record {
  status = success;
  packets = e.packets;
  iovs = e.iovs;
  buffers = e.buffers;
  count = 0;
  world = w;
}
read_packet e size count (d ∷ ds) w =
    if ltb 0 count && leb (length d) size
    then record {
      status = success;
      packets = put_packet (length d) e.packets;
      iovs = put_iov (length d) e.iovs;
      buffers = d ++ drop (length d) e.buffers;
      count = 1;
      world = record w { trace = record (w.trace) { incoming = ds } };
    }
    else record {
      status = packet_too_big;
      packets = e.packets;
      iovs = e.iovs;
      buffers = e.buffers;
      count = 0;
      world = w;
    }

abbrev pub machine : ℕ → HostSystem
machine size = record {
  socket = machine_socket;
  vmnet_read = λ e count w. read_packet e size count w.trace.incoming w;
}

length-put_packet : (len : ℕ) (ps : List PacketDesc) → length (put_packet len ps) ≡ length ps
length-put_packet len [] = refl
length-put_packet len (p ∷ ps) = refl

length-put_iov : (len : ℕ) (vs : List IoVec) → length (put_iov len vs) ≡ length vs
length-put_iov len [] = refl
length-put_iov len (v ∷ vs) = refl

put_packet_iov :
    (len i : ℕ) (ps : List PacketDesc)
    → (get_packet (put_packet len ps) i).vm_pkt_iov ≡ (get_packet ps i).vm_pkt_iov
put_packet_iov len i [] = refl
put_packet_iov len zero (p ∷ ps) = refl
put_packet_iov len (suc i) (p ∷ ps) = refl

put_iov_base :
    (len i : ℕ) (vs : List IoVec) → (get_iov (put_iov len vs) i).iov_base ≡ (get_iov vs i).iov_base
put_iov_base len i [] = refl
put_iov_base len zero (v ∷ vs) = refl
put_iov_base len (suc i) (v ∷ vs) = refl

put_packet_size :
    (len : ℕ) (ps : List PacketDesc)
    → 0 < length ps
    → (get_packet (put_packet len ps) 0).vm_pkt_size ≡ len
put_packet_size len [] pos = absurd (omega arith)
put_packet_size len (p ∷ ps) pos = refl

put_iov_len :
    (len : ℕ) (vs : List IoVec) → 0 < length vs → (get_iov (put_iov len vs) 0).iov_len ≡ len
put_iov_len len [] pos = absurd (omega arith)
put_iov_len len (v ∷ vs) pos = refl

take-append_self : (d r : List ℕ) → take (length d) (d ++ r) ≡ d
take-append_self [] r = refl
take-append_self (x ∷ d) r = ap (λ t. x ∷ t) (take-append_self d r)

take_one :
    (f : PacketDesc → Datagram) (len : ℕ) (ps : List PacketDesc)
    → 0 < length ps
    → map f (take 1 (put_packet len ps)) ≡ f (get_packet (put_packet len ps) 0) ∷ []
take_one f len [] pos = absurd (omega arith)
take_one f len (p ∷ ps) pos = refl

module _ (e : Endpoint) (size : ℕ) (b : IsBound e size) (d : Datagram) (ds : List Datagram)
    (w : Machine) (waiting : w.trace.incoming ≡ d ∷ ds) (some_slot : 0 < e.max_packet_count)
    (fits : length d ≤ size) where
  abbrev r : HostRead Machine
  r = record {
    status = success;
    packets = put_packet (length d) e.packets;
    iovs = put_iov (length d) e.iovs;
    buffers = d ++ drop (length d) e.buffers;
    count = 1;
    world = record w { trace = record (w.trace) { incoming = ds } };
  }

  room : size ≤ e.max_packet_count * size
  room = grind arith

  read_one-IsBound : IsBound (with_read e r) size
  read_one-IsBound = record {
    packets_length = length-put_packet (length d) e.packets ∙ b.packets_length;
    msgs_length = b.msgs_length;
    iovs_length = length-put_iov (length d) e.iovs ∙ b.iovs_length;
    buffers_length = omega (
      arith,
      length-append d (drop (length d) e.buffers),
      length-drop (length d) e.buffers,
      b.buffers_length,
      room,
    );
    packet_slot = λ i lt. put_packet_iov (length d) i e.packets ∙ b.packet_slot i lt;
    msg_slot = b.msg_slot;
    iov_slot = λ i lt. put_iov_base (length d) i e.iovs ∙ b.iov_slot i lt;
  }

  has_packet : 0 < length e.packets
  has_packet = omega (arith, b.packets_length)

  has_iov : 0 < length e.iovs
  has_iov = omega (arith, b.iovs_length)

  at_zero :
      take (length d) (drop (0 * size) (d ++ drop (length d) e.buffers))
      ≡ take (length d) (d ++ drop (length d) e.buffers)
  at_zero =
      let start : 0 * size ≡ 0 = omega arith in
      ap (λ k. take (length d) (drop k (d ++ drop (length d) e.buffers))) start

  batch_one : batch (with_read e r) 1 ≡ d ∷ []
  batch_one =
      take_one _ (length d) e.packets has_packet
      ∙ rw
          (
            put_packet_size (length d) e.packets has_packet,
            read_one-IsBound.packet_slot 0 some_slot,
            read_one-IsBound.iov_slot 0 some_slot,
          )
          (ap (λ t. t ∷ []) (at_zero ∙ take-append_self d (drop (length d) e.buffers)))

  read_one-ReadSome : ReadSome (machine size) e size w r
  read_one-ReadSome = record {
    count-le = some_slot;
    bound = read_one-IsBound;
    iov_fits = λ i lt.
        let first : i ≡ 0 = omega arith in
        rw first (
          put_iov_len (length d) e.iovs has_iov
          ∙ sym (put_packet_size (length d) e.packets has_packet));
    packet_fits = λ i lt.
        let first : i ≡ 0 = omega arith in
        rw first (omega (arith, put_packet_size (length d) e.packets has_packet));
    taken = ground (arith, batch_one, waiting);
    none_left = λ z. cc;
  }

read_packet-ReadSome :
    (size : ℕ) (e : Endpoint) (w : Machine) (incoming : List Datagram)
    → w.trace.incoming ≡ incoming
    → IsBound e size
    → (read_packet e size e.max_packet_count incoming w).status ≡ success
    → ReadSome (machine size) e size w (read_packet e size e.max_packet_count incoming w)
read_packet-ReadSome size e w [] waiting b works = record {
  count-le = omega arith;
  bound = b;
  iov_fits = λ i lt. absurd (omega arith);
  packet_fits = λ i lt. absurd (omega arith);
  taken = refl;
  none_left = λ z. waiting;
}
read_packet-ReadSome size e w (d ∷ ds) waiting b works =
    elim (Bool-cases (ltb 0 e.max_packet_count && leb (length d) size)) [
      | inl fits ↦ rw fits (read_one-ReadSome e size b d ds w waiting (ground arith) (ground arith))
      | inr refused ↦ absurd (status_refused (rw refused at works))
    ]
  where
    status_refused : packet_too_big ≡ success → ⊥
    status_refused h = cc

read_packet_failed :
    (size : ℕ) (e : Endpoint) (w : Machine) (incoming : List Datagram)
    → IsBound e size
    → (read_packet e size e.max_packet_count incoming w).status ≢ success
    → IsBound (with_read e (read_packet e size e.max_packet_count incoming w)) size
      × ((read_packet e size e.max_packet_count incoming w).world.trace ≡ w.trace)
read_packet_failed size e w [] b fails = absurd (fails refl)
read_packet_failed size e w (d ∷ ds) b fails =
    elim (Bool-cases (ltb 0 e.max_packet_count && leb (length d) size)) [
      | inl fits ↦ absurd (fails (rw fits))
      | inr refused ↦ rw refused (b, refl)
    ]

pub machine-IsVmnetReader : (size : ℕ) → IsVmnetReader (machine size) size
machine-IsVmnetReader size = record {
  reads = λ e w b asked works. read_packet-ReadSome size e w w.trace.incoming refl b works;
  reads_nothing = λ e w b fails. read_packet_failed size e w w.trace.incoming b fails;
}

-- ===== src/Scenarios/VmMachine.antt =====
-- A system for concrete runs of the other direction: `recvmsg_x` is not supported, `read` returns
-- one datagram at a time, and the vmnet interface takes at most `capacity` packets of a batch.
use vmnet_helper.Prelude.{
  ℕ, zero, suc, ◌+◌, ◌≤◌, ◌<◌, ◌≡◌, refl, ap, Bool, ◌&&◌, List, [], ◌∷◌, ◌++◌, arith, leb, ltb,
  if◌then◌else◌, length, length-append, length-drop, length-take, take, drop, Bool-cases, inl, inr,
}
use vmnet_helper.System.{Datagram, ret, fail, success}
use vmnet_helper.Helper.Endpoint.{Endpoint, bytes_at}
use vmnet_helper.Helper.VmToHost.{
  VmTrace, VmSystem, BytesRead, with_bytes, IsPacketSource, IsPacketSink,
}

-- buffers[base .. base + length d] = d
abbrev splice : ℕ → Datagram → List ℕ → List ℕ
splice base d buffers = take base buffers ++ (d ++ drop (base + length d) buffers)

length-splice :
    (base : ℕ) (d : Datagram) (buffers : List ℕ)
    → base + length d ≤ length buffers
    → length (splice base d buffers) ≡ length buffers
length-splice base d buffers le = omega (
  arith,
  length-append (take base buffers) (d ++ drop (base + length d) buffers),
  length-append d (drop (base + length d) buffers),
  length-take base buffers,
  length-drop (base + length d) buffers,
)

take-append_self : (d r : List ℕ) → take (length d) (d ++ r) ≡ d
take-append_self [] r = refl
take-append_self (x ∷ d) r = ap (λ t. x ∷ t) (take-append_self d r)

bytes-splice :
    (base : ℕ) (d r buffers : List ℕ)
    → base ≤ length buffers
    → take (length d) (drop base (take base buffers ++ (d ++ r))) ≡ d
bytes-splice zero d r buffers le = take-append_self d r
bytes-splice (suc base) d r [] le = absurd (omega arith)
bytes-splice (suc base) d r (x ∷ buffers) le = bytes-splice base d r buffers (omega arith)

abbrev fits : Endpoint → ℕ → ℕ → Datagram → Bool
fits e base len d =
    ltb 0 (length d) && (leb (length d) len && leb (base + length d) (length e.buffers))

abbrev read_datagram : Endpoint → ℕ → ℕ → List Datagram → VmTrace → BytesRead VmTrace
read_datagram e base len [] w = record { result = ret 0; buffers = e.buffers; world = w }
read_datagram e base len (d ∷ ds) w =
    if fits e base len d
    then record {
      result = ret (length d);
      buffers = splice base d e.buffers;
      world = record w { incoming = ds };
    }
    else record { result = fail 40; buffers = e.buffers; world = w }

abbrev pub vm_machine : ℕ → VmSystem
vm_machine capacity = record {
  World = VmTrace;
  recvmsg_x = λ e cnt w. record { result = fail 78; msgs = e.msgs; buffers = e.buffers; world = w };
  read = λ e base len w. read_datagram e base len w.incoming w;
  vmnet_write = λ ds w. record {
    status = success;
    count = capacity;
    world = record w { written = w.written ++ take capacity ds };
  };
  trace = λ w. w;
}

module _ (e : Endpoint) (base len : ℕ) (w : VmTrace) where
  length-read_datagram :
      (ds : List Datagram) → length (read_datagram e base len ds w).buffers ≡ length e.buffers
  length-read_datagram [] = refl
  length-read_datagram (d ∷ ds) = elim (Bool-cases (fits e base len d)) [
    | inl ok ↦ rw ok (length-splice base d e.buffers (ground arith))
    | inr refused ↦ rw refused
  ]

  read_datagram_takes :
      (ds : List Datagram) (n : ℕ)
      → w.incoming ≡ ds
      → base + len ≤ length e.buffers
      → (read_datagram e base len ds w).result ≡ ret n
      → 0 < n
      → (n ≤ len)
        × (w ≡ record ((read_datagram e base len ds w).world) {
          incoming =
              bytes_at (with_bytes e (read_datagram e base len ds w)) base n
              ∷ (read_datagram e base len ds w).world.incoming;
        })
  read_datagram_takes [] n waiting room ok pos = absurd (ground arith)
  read_datagram_takes (d ∷ ds) n waiting room ok pos = elim (Bool-cases (fits e base len d)) [
    | inl yes_fits ↦
        ground (arith, yes_fits, bytes-splice base d (drop (base + length d) e.buffers) e.buffers)
    | inr refused ↦ ground arith
  ]

  read_datagram_ends :
      (ds : List Datagram)
      → w.incoming ≡ ds
      → (read_datagram e base len ds w).result ≡ ret 0
      → ((read_datagram e base len ds w).world ≡ w) × (w.incoming ≡ [])
  read_datagram_ends [] waiting ok = (refl, waiting)
  read_datagram_ends (d ∷ ds) waiting ok = ground arith

  read_datagram_fails :
      (ds : List Datagram) (errno : ℕ)
      → (read_datagram e base len ds w).result ≡ fail errno
      → (read_datagram e base len ds w).world ≡ w
  read_datagram_fails [] errno bad = refl
  read_datagram_fails (d ∷ ds) errno bad = ground arith

pub vm_machine-IsPacketSource : (capacity size : ℕ) → IsPacketSource (vm_machine capacity) size
vm_machine-IsPacketSource capacity size = record {
  recvmsg_x_bound = λ e w b. b;
  recvmsg_x_takes = λ e w n b lens ok. cc;
  recvmsg_x_fails = λ e w errno bad. refl;
  length-read = λ e base len w. length-read_datagram e base len w w.incoming;
  read_takes =
      λ e base len n w room ok pos. read_datagram_takes e base len w w.incoming n refl room ok pos;
  read_ends = λ e base len w ok. read_datagram_ends e base len w w.incoming refl ok;
  read_fails = λ e base len errno w bad. read_datagram_fails e base len w w.incoming errno bad;
}

pub vm_machine-IsPacketSink : (capacity : ℕ) → IsPacketSink (vm_machine capacity)
vm_machine-IsPacketSink capacity = record {
  writes = λ ds w ok. refl;
  writes_nothing = λ ds w bad. absurd (bad refl);
}

-- ===== src/Helper/VmToHost/Reading.antt =====
-- Both paths of `read_from_vm` of programs/helper.c.
use vmnet_helper.Prelude.{
  ℕ, zero, suc, ◌+◌, ◌<◌, ◌≤◌, ◌≡◌, refl, ap, ◌∙◌, sym, inl, inr, Bool, true, false, List, [], ◌∷◌,
  map, Option, none, some, lt→ltb, arith, length, take, modify_head,
}
use vmnet_helper.System.{Datagram, Sys, ret, fail, Sys-cases}
use vmnet_helper.Helper.Endpoint.{
  Endpoint, MessageHeader, IoVec, get_msg, get_iov, iov_at, msg_at, bytes_at, IsBound,
}
use vmnet_helper.Helper.Endpoint.Binding.{next_slot}
use vmnet_helper.Helper.VmToHost.{
  VmSystem, MessagesRead, BytesRead, before_fast, before_slow, after_read, with_messages,
  with_bytes, read_slow, read_from_vm, messages, msg_data, MessagesTaken, IsPacketSource,
}
use vmnet_helper.Helper.VmToHost.Slots.{
  before_fast-IsBound, before_fast_len, length-modify_head, before_slow-IsBound,
  message_read-IsBound,
}

-- What a read leaves, by its result: nothing was taken if it failed.
abbrev pub Took : (sys : VmSystem) → Endpoint → ℕ → Option ℕ → sys.World → sys.World → Type 0
Took sys e size none w w' = sys.trace w' ≡ sys.trace w
Took sys e size (some n) w w' = MessagesTaken sys e size n w w'

-- A `read` of the socket that fails, and leaves the world so.
pub record ReadFailed (sys : VmSystem) (world : sys.World) : Type 0 where
  pub endpoint : Endpoint
  pub base : ℕ
  pub len : ℕ
  pub errno : ℕ
  pub before : sys.World
  pub fails : (sys.read endpoint base len before).result ≡ fail errno
  pub world_eq : world ≡ (sys.read endpoint base len before).world

-- A read keeps the binding and the counts of packets and bytes.
pub record ReadEnds (sys : VmSystem) (vm : Endpoint) (size : ℕ) (w : sys.World)
    (read : Endpoint × Option ℕ × sys.World) : Type 0 where
  pub bound : IsBound read.0 size
  pub max_eq : read.0.max_packet_count ≡ vm.max_packet_count
  pub packets_eq : read.0.stats.packets ≡ vm.stats.packets
  pub bytes_eq : read.0.stats.bytes ≡ vm.stats.bytes
  pub took : Took sys read.0 size read.1 w read.2
  pub failed : read.1 ≡ none → ReadFailed sys read.2

head_len :
    (size : ℕ) (vs : List IoVec)
    → 0 < length vs
    → (get_iov (modify_head (λ v. record v { iov_len = size }) vs) 0).iov_len ≡ size
head_len size [] pos = absurd (omega arith)
head_len size (v ∷ vs) pos = refl

msg_len_head :
    (len : ℕ) (ms : List MessageHeader)
    → 0 < length ms
    → (get_msg (modify_head (λ m. record m { msg_len = len }) ms) 0).msg_len ≡ len
msg_len_head len [] pos = absurd (omega arith)
msg_len_head len (m ∷ ms) pos = refl

take_head :
    (f : MessageHeader → Datagram) (ms : List MessageHeader)
    → 0 < length ms
    → map f (take 1 ms) ≡ f (get_msg ms 0) ∷ []
take_head f [] pos = absurd (omega arith)
take_head f (m ∷ ms) pos = refl

module _ (sys : VmSystem) (size : ℕ) (source : IsPacketSource sys size) (vm : Endpoint)
    (w : sys.World) (b : IsBound vm size) (some_slot : 0 < vm.max_packet_count) where
  abbrev slow : Endpoint
  slow = before_slow vm size

  -- Slot 0 starts at the beginning of the buffers and is `size` bytes long.
  slot_zero : ((iov_at slow 0).iov_base ≡ 0) × ((iov_at slow 0).iov_len ≡ size)
  unfolding before_slow
  slot_zero = (
    (before_slow-IsBound vm size b).iov_slot 0 some_slot ∙ omega arith,
    head_len size vm.iovs (omega (arith, b.iovs_length)),
  )

  abbrev r : BytesRead sys.World
  r = sys.read slow (iov_at slow 0).iov_base (iov_at slow 0).iov_len w

  bytes-IsBound : IsBound (with_bytes slow r) size
  bytes-IsBound =
      let sb = before_slow-IsBound vm size b in
      record {
        packets_length = sb.packets_length;
        msgs_length = sb.msgs_length;
        iovs_length = sb.iovs_length;
        buffers_length = source.length-read slow _ _ w ∙ sb.buffers_length;
        packet_slot = sb.packet_slot;
        msg_slot = sb.msg_slot;
        iov_slot = sb.iov_slot;
      }

  abbrev with_len : ℕ → Endpoint
  with_len n = record (with_bytes slow r) {
    msgs = modify_head (λ m. record m { msg_len = n }) slow.msgs;
  }

  with_len-IsBound : (n : ℕ) → IsBound (with_len n) size
  with_len-IsBound n = message_read-IsBound (with_bytes slow r) size bytes-IsBound n

  has_msg : 0 < length slow.msgs
  unfolding before_slow
  has_msg = omega (arith, b.msgs_length)

  first_len : (n : ℕ) → (msg_at (with_len n) 0).msg_len ≡ n
  first_len n = msg_len_head n slow.msgs has_msg

  slot_of_msg : (n : ℕ) → (msg_at (with_len n) 0).msg_iov ≡ 0
  unfolding before_slow
  slot_of_msg n = (with_len-IsBound n).msg_slot 0 some_slot

  one_message :
      (n : ℕ)
      → messages (with_len n) 1 ≡ bytes_at (with_bytes slow r) (iov_at slow 0).iov_base n ∷ []
  one_message n =
      take_head (msg_data (with_len n)) (with_len n).msgs (
        omega (
          arith,
          length-modify_head (λ (m : MessageHeader). record m { msg_len = n }) slow.msgs,
          has_msg,
        ))
      ∙ rw (slot_of_msg n, first_len n) refl

  one_taken :
      (n : ℕ) → r.result ≡ ret (suc n) → MessagesTaken sys (with_len (suc n)) size 1 w r.world
  unfolding before_slow
  one_taken n e =
      let fits_buffers : (iov_at slow 0).iov_base + (iov_at slow 0).iov_len ≤ length slow.buffers =
        omega
          (arith, slot_zero, b.buffers_length, next_slot 0 vm.max_packet_count size some_slot) in
      let takes = source.read_takes slow _ _ (suc n) w fits_buffers e (omega arith) in
      record {
        count-le = some_slot;
        fits = λ i lt.
            let first : i ≡ 0 = omega arith in
            rw first (omega (arith, first_len (suc n), takes.0, slot_zero.1));
        taken = ground (arith, takes.1, one_message (suc n));
        closed = λ z. cc;
      }

  settle_read :
      (result : Sys)
      → r.result ≡ result
      → ReadEnds sys vm size w (
        (after_read (with_bytes slow r) result).0,
        (after_read (with_bytes slow r) result).1,
        r.world,
      )
  unfolding before_slow after_read
  settle_read (fail errno) e = record {
    bound = bytes-IsBound;
    max_eq = refl;
    packets_eq = refl;
    bytes_eq = refl;
    took = source.read_fails slow _ _ errno w e;
    failed = λ _. record {
      endpoint = slow;
      base = (iov_at slow 0).iov_base;
      len = (iov_at slow 0).iov_len;
      errno = errno;
      before = w;
      fails = e;
      world_eq = refl;
    };
  }
  settle_read (ret zero) e = record {
    bound = with_len-IsBound 0;
    max_eq = refl;
    packets_eq = refl;
    bytes_eq = refl;
    took = record {
      count-le = omega arith;
      fits = λ i lt. absurd (omega arith);
      taken = sym (source.read_ends slow _ _ w e).0;
      closed = λ z. (source.read_ends slow _ _ w e).1;
    };
    failed = λ h. cc;
  }
  settle_read (ret (suc n)) e = record {
    bound = with_len-IsBound (suc n);
    max_eq = refl;
    packets_eq = refl;
    bytes_eq = refl;
    took = rw (lt→ltb 0 (suc n) (omega arith)) (one_taken n e);
    failed = λ h. cc;
  }

  read_slow-ReadEnds : ReadEnds sys vm size w (read_slow sys size vm w)
  unfolding read_slow
  read_slow-ReadEnds = settle_read r.result refl

module _ (sys : VmSystem) (size : ℕ) (source : IsPacketSource sys size) (vm : Endpoint)
    (w : sys.World) (b : IsBound vm size) (some_slot : 0 < vm.max_packet_count) where
  abbrev fast : Endpoint
  fast = before_fast vm size

  abbrev m : MessagesRead sys.World
  m = sys.recvmsg_x fast vm.max_packet_count w

  messages-IsBound : IsBound (with_messages fast m) size
  unfolding before_fast
  messages-IsBound = source.recvmsg_x_bound fast w (before_fast-IsBound vm size b)

  read_fast :
      (n : ℕ)
      → m.result ≡ ret n
      → read_from_vm sys size true vm w ≡ (with_messages fast m, some n, m.world)
  unfolding read_from_vm
  read_fast n e = ground arith

  fall_back :
      (errno : ℕ)
      → m.result ≡ fail errno
      → read_from_vm sys size true vm w ≡ read_slow sys size (with_messages fast m) m.world
  unfolding read_from_vm
  fall_back errno e = ground arith

  fast-ReadEnds :
      (n : ℕ) → m.result ≡ ret n → ReadEnds sys vm size w (with_messages fast m, some n, m.world)
  unfolding before_fast
  fast-ReadEnds n e = record {
    bound = messages-IsBound;
    max_eq = refl;
    packets_eq = refl;
    bytes_eq = refl;
    took =
        source.recvmsg_x_takes fast w n (before_fast-IsBound vm size b) (before_fast_len vm size b)
          e;
    failed = λ h. cc;
  }

  -- A read of the slow path, after the fast path has failed.
  after_failure :
      (errno : ℕ)
      → m.result ≡ fail errno
      → (read : Endpoint × Option ℕ × sys.World)
      → ReadEnds sys (with_messages fast m) size m.world read
      → ReadEnds sys vm size w read
  unfolding before_fast
  after_failure errno e (e', none, w') ends = record {
    bound = ends.bound;
    max_eq = ends.max_eq;
    packets_eq = ends.packets_eq;
    bytes_eq = ends.bytes_eq;
    took = ends.took ∙ source.recvmsg_x_fails fast w errno e;
    failed = ends.failed;
  }
  after_failure errno e (e', some n, w') ends =
      let same : sys.trace m.world ≡ sys.trace w = source.recvmsg_x_fails fast w errno e in
      record {
        bound = ends.bound;
        max_eq = ends.max_eq;
        packets_eq = ends.packets_eq;
        bytes_eq = ends.bytes_eq;
        took = record {
          count-le = ends.took.count-le;
          fits = ends.took.fits;
          taken = sym same ∙ ends.took.taken;
          closed = λ z. ap (λ t. t.incoming) (sym same) ∙ ends.took.closed z;
        };
        failed = ends.failed;
      }

  pub read_from_vm-ReadEnds :
      (use_bulk_forwarding : Bool)
      → ReadEnds sys vm size w (read_from_vm sys size use_bulk_forwarding vm w)
  unfolding read_from_vm
  read_from_vm-ReadEnds false = read_slow-ReadEnds sys size source vm w b some_slot
  read_from_vm-ReadEnds true = elim (Sys-cases m.result) [
    | inl (n, e) ↦ rw (read_fast n e) (fast-ReadEnds n e)
    | inr (errno, e) ↦ rw (fall_back errno e) (
        after_failure errno e _ (
          read_slow-ReadEnds sys size source (with_messages fast m) m.world messages-IsBound
            (unfold before_fast in some_slot)))
  ]

-- ===== src/Helper/HostToVm/SlowPath.antt =====
-- The slow path of `write_to_vm` of programs/helper.c, and the budget of retries that it shares with the fast path.
use mathlib.Core.List.{append-nil, append_assoc, Sublistᴰ}
use vmnet_helper.Prelude.{
  ℕ, zero, suc, ◌+◌, ◌-◌, ◌≤◌, ◌<◌, ◌≡◌, refl, ap, true, false, List, [], ◌∷◌, ◌++◌, map, Outcome,
  done, arith, inl, inr, Bool-cases, ◌>>=◌, ◌∙◌, length, total_length, All, u64,
}
use vmnet_helper.System.{
  Datagram, Trace, Sys, ret, fail, Sys-cases, VmSocket, IsDatagramSocket, IsReliable,
}
use vmnet_helper.Helper.Endpoint.{PacketDesc, Endpoint, packet_bytes}
use vmnet_helper.Helper.HostToVm.{
  Slow, settle, write_packet, write_packets, vm_retry_max, vm_retry_delay, may_retry,
  wait_for_buffer_space,
}

-- The trace since `t`, when `sent` was delivered.
abbrev pub since : Trace → List Datagram → ℕ → ℕ → ℕ → Trace
since t sent bulk_calls write_calls sleeps = record t {
  received = t.received ++ sent;
  bulk_calls = t.bulk_calls + bulk_calls;
  write_calls = t.write_calls + write_calls;
  sleeps = t.sleeps + sleeps;
}

-- What one call of `write` delivers.
abbrev pub accepted : Datagram → Sys → List Datagram
accepted d (ret n) = d ∷ []
accepted d (fail errno) = []

module _ (sys : VmSocket) (lawful : IsDatagramSocket sys) (t : Trace) (bulk_calls : ℕ) where
  -- How the slow path stands, when `sent` was delivered since `t`.
  pub record SentSlow (sent : List Datagram) (retries slow calls : ℕ) (w : sys.World) : Type 0 where
    pub traced : sys.trace w ≡ since t sent bulk_calls calls retries
    pub budget : retries ≤ vm_retry_max
    pub counted : slow ≡ u64 calls

  module _ (d : Datagram) where
    -- One packet is settled by the last result of `write`.
    pub record PacketEnds (sent : List Datagram) (result : Outcome (Sys × ℕ × ℕ × sys.World))
        : Type 0 where
      pub last : Sys
      pub retries : ℕ
      pub slow : ℕ
      pub calls : ℕ
      pub world : sys.World
      pub returned : result ≡ done (last, retries, slow, world)
      pub stands : SentSlow (sent ++ accepted d last) retries slow calls world
      pub whole : (n : ℕ) → last ≡ ret n → n ≡ length d
      pub works : IsReliable sys → (n : ℕ) × (last ≡ ret n)

    written :
        (sent : List Datagram) (retries slow calls : ℕ) (w : sys.World)
        → SentSlow sent retries slow calls w
        → SentSlow
            (sent ++ accepted d (sys.write d w).0)
            retries
            (u64 (slow + 1))
            (calls + 1)
            (sys.write d w).1
    written sent retries slow calls w h = record {
      traced = ground (
        arith,
        lawful.trace-write d w,
        append_assoc t.received sent (d ∷ []),
        append-nil sent,
        h.traced,
      );
      budget = h.budget;
      counted = omega (arith, h.counted);
    }

    not_written :
        (sent : List Datagram) (retries slow calls errno : ℕ) (w : sys.World)
        → SentSlow sent retries slow calls w
        → (sys.write d w).0 ≡ fail errno
        → SentSlow sent retries (u64 (slow + 1)) (calls + 1) (sys.write d w).1
    not_written sent retries slow calls errno w h e = record {
      traced = ground (arith, lawful.trace-write d w, h.traced);
      budget = h.budget;
      counted = omega (arith, h.counted);
    }

    slept_once :
        (sent : List Datagram) (retries slow calls : ℕ) (w : sys.World)
        → SentSlow sent retries slow calls w
        → retries < vm_retry_max
        → SentSlow sent (retries + 1) slow calls (wait_for_buffer_space sys w)
    unfolding wait_for_buffer_space
    slept_once sent retries slow calls w h lt = record {
      traced = ground (arith, lawful.trace-nanosleep vm_retry_delay w, h.traced);
      budget = omega arith;
      counted = h.counted;
    }

    write_packet_retry :
        (fuel retries slow errno : ℕ) (w : sys.World)
        → (sys.write d w).0 ≡ fail errno
        → may_retry errno retries ≡ true
        → write_packet sys (suc fuel) d retries slow w
          ≡ write_packet sys fuel d
              (retries + 1)
              (u64 (slow + 1))
              (wait_for_buffer_space sys (sys.write d w).1)
    unfolding write_packet
    write_packet_retry fuel retries slow errno w e again = ground arith

    write_packet_last :
        (fuel retries slow : ℕ) (w : sys.World)
        → ((errno : ℕ) → (sys.write d w).0 ≡ fail errno → may_retry errno retries ≡ false)
        → write_packet sys (suc fuel) d retries slow w
          ≡ done ((sys.write d w).0, retries, u64 (slow + 1), (sys.write d w).1)
    unfolding write_packet
    write_packet_last fuel retries slow w stop = elim (Sys-cases (sys.write d w).0) [
      | inl (n, e) ↦ ground arith
      | inr (errno, e) ↦ ground (arith, stop errno e)
    ]

    ends :
        (fuel : ℕ) (sent : List Datagram) (retries slow calls : ℕ) (w : sys.World)
        → SentSlow sent retries slow calls w
        → ((errno : ℕ) → (sys.write d w).0 ≡ fail errno → may_retry errno retries ≡ false)
        → PacketEnds sent (write_packet sys (suc fuel) d retries slow w)
    ends fuel sent retries slow calls w h stop = record {
      last = (sys.write d w).0;
      retries = retries;
      slow = u64 (slow + 1);
      calls = calls + 1;
      world = (sys.write d w).1;
      returned = write_packet_last fuel retries slow w stop;
      stands = written sent retries slow calls w h;
      whole = λ n e. lawful.write_whole d w n e;
      works = λ reliable. reliable d w;
    }

    pub write_packet-PacketEnds :
        (fuel : ℕ) (sent : List Datagram) (retries slow calls : ℕ) (w : sys.World)
        → SentSlow sent retries slow calls w
        → vm_retry_max - retries < fuel
        → PacketEnds sent (write_packet sys fuel d retries slow w)
    write_packet-PacketEnds zero sent retries slow calls w h enough = absurd (omega arith)
    write_packet-PacketEnds (suc fuel) sent retries slow calls w h enough =
        elim (Sys-cases (sys.write d w).0) [
          | inl (n, e) ↦ ends fuel sent retries slow calls w h (λ errno e'. cc)
          | inr (errno, e) ↦ elim (Bool-cases (may_retry errno retries)) [
            | inl again ↦
                let left : retries < vm_retry_max = ground arith in
                rw (write_packet_retry fuel retries slow errno w e again) (
                  write_packet-PacketEnds fuel sent (retries + 1) (u64 (slow + 1)) (calls + 1)
                    (wait_for_buffer_space sys (sys.write d w).1)
                    (slept_once sent retries (u64 (slow + 1)) (calls + 1) (sys.write d w).1
                      (not_written sent retries slow calls errno w h e) left)
                    (omega arith))
            | inr stop ↦ ends fuel sent retries slow calls w h (λ errno' e'. ground arith)
          ]
        ]

  module _ (host : Endpoint) where
    -- The buffers hold a packet whole.
    abbrev pub IsWhole : PacketDesc → Type 0
    IsWhole p = length (packet_bytes host p) ≡ p.vm_pkt_size

    abbrev pub bytes_of : List PacketDesc → List Datagram
    bytes_of = map (packet_bytes host)

    -- The slow path ends: it has delivered some of its packets, in order, and counted all of them.
    pub record SlowEnds (sent : List Datagram) (ps : List PacketDesc) (s : Slow)
        (result : Outcome (Slow × sys.World)) : Type 0 where
      pub end : Slow
      pub world : sys.World
      pub calls : ℕ
      pub delivered : List Datagram
      pub returned : result ≡ done (end, world)
      pub stands : SentSlow (sent ++ delivered) end.retries end.slow calls world
      pub in_order : Sublistᴰ delivered (bytes_of ps)
      pub packets_eq : end.packets ≡ s.packets + length delivered
      pub bytes_eq : u64 end.bytes ≡ u64 (s.bytes + total_length delivered)
      pub drops_eq : end.drops + length delivered ≡ s.drops + length ps
      pub all : IsReliable sys → delivered ≡ bytes_of ps

    -- The locals after a packet, if its assertion holds.
    abbrev settled : PacketDesc → Sys → ℕ → ℕ → Slow → Slow
    settled p (fail errno) retries slow s = record s {
      retries = retries;
      slow = slow;
      drops = s.drops + 1;
    }
    settled p (ret len) retries slow s = record s {
      retries = retries;
      slow = slow;
      packets = s.packets + 1;
      bytes = u64 (s.bytes + p.vm_pkt_size);
    }

    settle-eq-settled :
        (p : PacketDesc) (last : Sys) (retries slow : ℕ) (s : Slow)
        → ((n : ℕ) → last ≡ ret n → n ≡ p.vm_pkt_size)
        → settle p last retries slow s ≡ done (settled p last retries slow s)
    unfolding settle
    settle-eq-settled p (fail errno) retries slow s whole = refl
    settle-eq-settled p (ret n) retries slow s whole = ground (arith, whole n refl)

    settled-SentSlow :
        (p : PacketDesc) (last : Sys) (retries slow : ℕ) (s : Slow) {sent : List Datagram}
        {calls : ℕ} {w : sys.World}
        → SentSlow sent retries slow calls w
        → SentSlow sent
            (settled p last retries slow s).retries
            (settled p last retries slow s).slow
            calls
            w
    settled-SentSlow p (fail errno) retries slow s h = h
    settled-SentSlow p (ret n) retries slow s h = h

    write_packets_next :
        (p : PacketDesc) (ps : List PacketDesc) (sent : List Datagram) (s : Slow) (w : sys.World)
        → IsWhole p
        → (e : PacketEnds
            (packet_bytes host p)
            sent
            (write_packet sys (vm_retry_max + 1) (packet_bytes host p) s.retries s.slow w))
        → write_packets sys host (p ∷ ps) s w
          ≡ write_packets sys host ps (settled p e.last e.retries e.slow s) e.world
    unfolding write_packets
    write_packets_next p ps sent s w whole e =
        rw (e.returned, ◌>>=◌)
          (rw (settle-eq-settled p e.last e.retries e.slow s (λ n h. e.whole n h ∙ whole), ◌>>=◌))

    prepend :
        (p : PacketDesc) (ps : List PacketDesc) (sent : List Datagram) (s : Slow) (last : Sys)
        (retries slow : ℕ) (result : Outcome (Slow × sys.World))
        → IsWhole p
        → (IsReliable sys → (n : ℕ) × (last ≡ ret n))
        → SlowEnds
            (sent ++ accepted (packet_bytes host p) last)
            ps
            (settled p last retries slow s)
            result
        → SlowEnds sent (p ∷ ps) s result
    prepend p ps sent s (fail errno) retries slow result whole works e = record {
      end = e.end;
      world = e.world;
      calls = e.calls;
      delivered = e.delivered;
      returned = e.returned;
      stands = rw (append-nil sent) at (e.stands);
      in_order = Sublistᴰ.cons e.in_order;
      packets_eq = e.packets_eq;
      bytes_eq = e.bytes_eq;
      drops_eq = omega (arith, e.drops_eq);
      all = λ reliable. let (n, written_it) = works reliable in cc;
    }
    prepend p ps sent s (ret n) retries slow result whole works e = record {
      end = e.end;
      world = e.world;
      calls = e.calls;
      delivered = packet_bytes host p ∷ e.delivered;
      returned = e.returned;
      stands = rw (append_assoc sent (packet_bytes host p ∷ []) e.delivered) at (e.stands);
      in_order = Sublistᴰ.cons-cons refl e.in_order;
      packets_eq = omega (arith, e.packets_eq);
      bytes_eq = omega (arith, e.bytes_eq, whole);
      drops_eq = omega (arith, e.drops_eq);
      all = λ reliable. ap (λ ds. packet_bytes host p ∷ ds) (e.all reliable);
    }

    pub write_packets-SlowEnds :
        (ps : List PacketDesc) (sent : List Datagram) (s : Slow) (calls : ℕ) (w : sys.World)
        → All IsWhole ps
        → SentSlow sent s.retries s.slow calls w
        → SlowEnds sent ps s (write_packets sys host ps s w)
    unfolding write_packets
    write_packets-SlowEnds [] sent s calls w whole h = record {
      end = s;
      world = w;
      calls = calls;
      delivered = [];
      returned = refl;
      stands = rw (append-nil sent) h;
      in_order = Sublistᴰ.slnil;
      packets_eq = omega arith;
      bytes_eq = omega arith;
      drops_eq = omega arith;
      all = λ reliable. refl;
    }
    write_packets-SlowEnds (p ∷ ps) sent s calls w whole h =
        let e =
          write_packet-PacketEnds (packet_bytes host p) (vm_retry_max + 1) sent s.retries s.slow
            calls w h (omega arith) in
        rw (write_packets_next p ps sent s w whole.0 e) (
          prepend p ps sent s e.last e.retries e.slow _ whole.0 e.works (
            write_packets-SlowEnds ps (sent ++ accepted (packet_bytes host p) e.last)
              (settled p e.last e.retries e.slow s) e.calls e.world whole.1
              (settled-SentSlow p e.last e.retries e.slow s e.stands)))

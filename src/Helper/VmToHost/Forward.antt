-- ===== src/Helper/VmToHost/Forward.antt =====
-- The loop of `forward_from_vm` of programs/helper.c.
use mathlib.Core.List.{append_assoc, append-nil, Sublistᴰ}
use vmnet_helper.Prelude.{
  ℕ, zero, suc, ◌+◌, ◌<◌, ◌≡◌, ◌≢◌, refl, ap, subst, ◌∙◌, sym, take, ◌⊎◌, inl, inr, Option-cases,
  Bool-cases, Bool, true, false, List, [], ◌++◌, Option, none, some, Outcome, done, arith, length,
  length-append, length-take, total_length, total_length-append, u64,
}
use vmnet_helper.System.{Datagram, success}
use vmnet_helper.Helper.Endpoint.{Endpoint, IsBound}
use vmnet_helper.Helper.FromHost.Drain.{append-Sublistᴰ}
use vmnet_helper.Helper.VmToHost.{
  VmSystem, VmTrace, status_failure, status_stopped, described, add_batch, read_from_vm,
  write_to_host, forward_from_vm, messages, MessagesTaken, IsPacketSource, IsPacketSink,
}
use vmnet_helper.Helper.VmToHost.Slots.{described-IsBound}
use vmnet_helper.Helper.VmToHost.Batch.{
  take-Sublistᴰ, size_of_messages, length-messages, add_batch-IsBound, wrote, wrote_endpoint,
  wrote_count, wrote_none, good_write, refused_write, works_if,
}
use vmnet_helper.Helper.VmToHost.Reading.{ReadEnds, ReadFailed, read_from_vm-ReadEnds}

-- A call of `vmnet_write` with this batch that fails, and after which the loop ends.
pub record WriteFailed (sys : VmSystem) (batch : List Datagram) (world : sys.World) : Type 0 where
  pub before : sys.World
  pub some_packet : 0 < length batch
  pub fails : (sys.vmnet_write batch before).status ≢ success
  pub world_eq : world ≡ (sys.vmnet_write batch before).world

-- Why the loop ended: the peer has closed the socket, the last `read` has failed, or the last `vmnet_write` has failed,
-- with the batch `lost`.
abbrev pub EndsWith : (sys : VmSystem) → ℕ → List Datagram → sys.World → Type 0
EndsWith sys flags lost world =
    ((flags ≡ status_stopped) × (lost ≡ []) × ((sys.trace world).incoming ≡ []))
    ⊎ (((flags ≡ status_failure) × (lost ≡ []) × ReadFailed sys world)
        ⊎ ((flags ≡ status_failure) × WriteFailed sys lost world))

-- The calls of `vmnet_write` that succeed, from when the interface has taken `before` on: each is given a batch, and
-- takes as many packets of it as it returns. `forwarded` are the batches, `accepted` is what was taken.
pub data Written (sys : VmSystem) : List Datagram → List Datagram → List Datagram → Type 0 where
  nothing : {before : List Datagram} → Written sys before [] []
  write :
      (batch : List Datagram) (u : sys.World) {forwarded accepted : List Datagram}
      → 0 < length batch
      → (sys.vmnet_write batch u).status ≡ success
      → Written sys (sys.trace (sys.vmnet_write batch u).world).written forwarded accepted
      → Written sys
          (sys.trace u).written
          (batch ++ forwarded)
          (take (sys.vmnet_write batch u).count batch ++ accepted)

-- The loop has ended. The datagrams `forwarded` were taken from the socket and handed to the vmnet
-- interface, batch by batch, and it took `accepted`, of each batch as many as `vmnet_write` has returned; a batch
-- `lost` may have been taken last, which the interface refused. The statistics count `forwarded`, modulo 2 ^ 64.
pub record Forwarded (sys : VmSystem) (vm : Endpoint) (size : ℕ) (w : sys.World)
    (result : Outcome (Endpoint × ℕ × sys.World)) : Type 0 where
  pub after : Endpoint
  pub flags : ℕ
  pub world : sys.World
  pub forwarded : List Datagram
  pub accepted : List Datagram
  pub lost : List Datagram
  pub returned : result ≡ done (after, flags, world)
  pub bound : IsBound after size
  pub incoming_eq : (sys.trace w).incoming ≡ forwarded ++ (lost ++ (sys.trace world).incoming)
  pub written_eq : (sys.trace world).written ≡ (sys.trace w).written ++ accepted
  pub in_order : Sublistᴰ accepted forwarded
  pub handed : Written sys (sys.trace w).written forwarded accepted
  pub packets_eq : u64 after.stats.packets ≡ u64 (vm.stats.packets + length forwarded)
  pub bytes_eq : u64 after.stats.bytes ≡ u64 (vm.stats.bytes + total_length forwarded)
  pub ended : EndsWith sys flags lost world

module _ (sys : VmSystem) (size : ℕ) (bulk : Bool) (vm : Endpoint) (w : sys.World) (fuel : ℕ) where
  abbrev rd : Endpoint × Option ℕ × sys.World
  rd = read_from_vm sys size bulk vm w

  round_failed :
      rd.1 ≡ none
      → forward_from_vm sys size (suc fuel) bulk vm w ≡ done (rd.0, status_failure, rd.2)
  unfolding forward_from_vm
  round_failed e = ground arith

  round_closed :
      rd.1 ≡ some 0
      → forward_from_vm sys size (suc fuel) bulk vm w ≡ done (rd.0, status_stopped, rd.2)
  unfolding forward_from_vm
  round_closed e = ground arith

  module _ (n : ℕ) (e : rd.1 ≡ some (suc n)) where
    abbrev wr : Endpoint × Bool × sys.World
    wr = write_to_host sys size rd.0 (suc n) rd.2

    round_refused :
        wr.1 ≡ true
        → forward_from_vm sys size (suc fuel) bulk vm w ≡ done (wr.0, status_failure, wr.2)
    unfolding forward_from_vm
    round_refused refused = ground arith

    round_more :
        wr.1 ≡ false
        → forward_from_vm sys size (suc fuel) bulk vm w
          ≡ forward_from_vm sys size fuel bulk (add_batch wr.0 (suc n)) wr.2
    unfolding forward_from_vm
    round_more written = ground arith

module _ (sys : VmSystem) (size : ℕ) (source : IsPacketSource sys size) (sink : IsPacketSink sys)
    (bulk : Bool) where
  module _ (vm : Endpoint) (w : sys.World) (b : IsBound vm size)
      (some_slot : 0 < vm.max_packet_count) (fuel : ℕ) where
    ends : ReadEnds sys vm size w (rd sys size bulk vm w fuel)
    ends = read_from_vm-ReadEnds sys size source vm w b some_slot bulk

    failed_read :
        (rd sys size bulk vm w fuel).1 ≡ none
        → Forwarded sys vm size w (forward_from_vm sys size (suc fuel) bulk vm w)
    failed_read e =
        let same = rw e at (ends.took) in
        record {
          after = (rd sys size bulk vm w fuel).0;
          flags = status_failure;
          world = (rd sys size bulk vm w fuel).2;
          forwarded = [];
          accepted = [];
          lost = [];
          returned = round_failed sys size bulk vm w fuel e;
          bound = ends.bound;
          incoming_eq = ap (λ (t : VmTrace). t.incoming) (sym same);
          written_eq =
              ap (λ (t : VmTrace). t.written) same ∙ sym (append-nil (sys.trace w).written);
          in_order = Sublistᴰ.slnil;
          handed = nothing;
          packets_eq = omega (arith, ends.packets_eq);
          bytes_eq = omega (arith, ends.bytes_eq);
          ended = inr (inl (refl, refl, ends.failed e));
        }

    closed_socket :
        (rd sys size bulk vm w fuel).1 ≡ some 0
        → Forwarded sys vm size w (forward_from_vm sys size (suc fuel) bulk vm w)
    closed_socket e =
        let taken = rw e at (ends.took) in
        record {
          after = (rd sys size bulk vm w fuel).0;
          flags = status_stopped;
          world = (rd sys size bulk vm w fuel).2;
          forwarded = [];
          accepted = [];
          lost = [];
          returned = round_closed sys size bulk vm w fuel e;
          bound = ends.bound;
          incoming_eq = ap (λ (t : VmTrace). t.incoming) (taken.taken);
          written_eq =
              ap (λ (t : VmTrace). t.written) (sym taken.taken)
              ∙ sym (append-nil (sys.trace w).written);
          in_order = Sublistᴰ.slnil;
          handed = nothing;
          packets_eq = omega (arith, ends.packets_eq);
          bytes_eq = omega (arith, ends.bytes_eq);
          ended =
              inl (
                refl,
                refl,
                ap (λ (t : VmTrace). t.incoming) (sym taken.taken) ∙ taken.closed refl,
              );
        }

    module _ (n : ℕ) (e : (rd sys size bulk vm w fuel).1 ≡ some (suc n)) where
      abbrev vm' : Endpoint
      vm' = (rd sys size bulk vm w fuel).0

      abbrev w' : sys.World
      w' = (rd sys size bulk vm w fuel).2

      taken : MessagesTaken sys vm' size (suc n) w w'
      taken = rw e at (ends.took)

      refused_batch :
          (wrote sys size sink vm' (suc n) w w' ends.bound taken).1 ≡ true
          → Forwarded sys vm size w (forward_from_vm sys size (suc fuel) bulk vm w)
      refused_batch refused =
          let same = wrote_none sys size sink vm' (suc n) w w' ends.bound taken refused in
          record {
            after = described vm' (suc n);
            flags = status_failure;
            world = (wrote sys size sink vm' (suc n) w w' ends.bound taken).2;
            forwarded = [];
            accepted = [];
            lost = messages vm' (suc n);
            returned =
                rw (← wrote_endpoint sys size sink vm' (suc n) w w' ends.bound taken)
                  (round_refused sys size bulk vm w fuel n e refused);
            bound = described-IsBound vm' size ends.bound (suc n);
            incoming_eq = ground (arith, taken.taken, same);
            written_eq = ground (arith, taken.taken, same, append-nil (sys.trace w).written);
            in_order = Sublistᴰ.slnil;
            handed = nothing;
            packets_eq = unfold described in omega (arith, ends.packets_eq);
            bytes_eq = unfold described in omega (arith, ends.bytes_eq);
            ended = inr (
                inr (
                  refl,
                  record {
                    before = w';
                    some_packet =
                        omega (arith, length-messages sys vm' size (suc n) w w' ends.bound taken);
                    fails =
                        (refused_write sys size sink vm' (suc n) w w' ends.bound taken refused).0;
                    world_eq =
                        (refused_write sys size sink vm' (suc n) w w' ends.bound taken refused).1;
                  },
                ));
          }

      Forwarded-batch :
          (wrote sys size sink vm' (suc n) w w' ends.bound taken).1 ≡ false
          → (rest : Outcome (Endpoint × ℕ × sys.World))
          → Forwarded sys
              (add_batch (described vm' (suc n)) (suc n))
              size
              (wrote sys size sink vm' (suc n) w w' ends.bound taken).2
              rest
          → Forwarded sys vm size w rest
      unfolding add_batch described
      Forwarded-batch works rest f =
          let traced = wrote_count sys size sink vm' (suc n) w w' ends.bound taken works in
          let ms = messages vm' (suc n) in
          let count = (sys.vmnet_write ms w').count in
          let accepted = take count ms in
          let (status, world_eq) =
            good_write sys size sink vm' (suc n) w w' ends.bound taken works in
          let same : (sys.trace w').written ≡ (sys.trace w).written =
            ap (λ (t : VmTrace). t.written) (sym taken.taken) in
          record {
            after = f.after;
            flags = f.flags;
            world = f.world;
            forwarded = ms ++ f.forwarded;
            accepted = accepted ++ f.accepted;
            lost = f.lost;
            returned = f.returned;
            bound = f.bound;
            incoming_eq = ground (
              arith,
              taken.taken,
              traced,
              f.incoming_eq,
              append_assoc ms f.forwarded (f.lost ++ (sys.trace f.world).incoming),
            );
            written_eq = ground (
              arith,
              taken.taken,
              traced,
              f.written_eq,
              append_assoc (sys.trace w).written accepted f.accepted,
            );
            in_order = append-Sublistᴰ (take-Sublistᴰ count ms) f.in_order;
            handed =
                subst (λ b. Written sys b (ms ++ f.forwarded) (accepted ++ f.accepted)) same
                  (write ms w'
                    (omega (arith, length-messages sys vm' size (suc n) w w' ends.bound taken))
                    status
                    (subst (λ u. Written sys (sys.trace u).written f.forwarded f.accepted) world_eq
                      f.handed));
            packets_eq = omega (
              arith,
              f.packets_eq,
              ends.packets_eq,
              length-append ms f.forwarded,
              length-messages sys vm' size (suc n) w w' ends.bound taken,
            );
            bytes_eq = omega (
              arith,
              f.bytes_eq,
              ends.bytes_eq,
              total_length-append ms f.forwarded,
              size_of_messages sys vm' size (suc n) w w' ends.bound taken,
            );
            ended = f.ended;
          }

      -- The loop has fewer datagrams left, and is still bound.
      fewer :
          (wrote sys size sink vm' (suc n) w w' ends.bound taken).1 ≡ false
          → length (sys.trace (wrote sys size sink vm' (suc n) w w' ends.bound taken).2).incoming
            < length (sys.trace w).incoming
      fewer works =
          let traced = wrote_count sys size sink vm' (suc n) w w' ends.bound taken works in
          omega (
            arith,
            ap (λ (t : VmTrace). length t.incoming) traced,
            ap (λ (t : VmTrace). length t.incoming) taken.taken,
            length-append (messages vm' (suc n)) (sys.trace w').incoming,
            length-messages sys vm' size (suc n) w w' ends.bound taken,
          )

      still-IsBound : IsBound (add_batch (described vm' (suc n)) (suc n)) size
      still-IsBound = add_batch-IsBound sys vm' size (suc n) w w' ends.bound taken

      still_slots : 0 < (add_batch (described vm' (suc n)) (suc n)).max_packet_count
      unfolding add_batch described
      still_slots = omega (arith, ends.max_eq)

  -- With a socket and a vmnet interface that keep to their contracts, an endpoint with at least one slot whose
  -- slots are bound, and fuel for one round more than there are datagrams waiting, `forward_from_vm` returns
  -- an endpoint that is still bound. Every batch that was read is handed to `vmnet_write`, in order, until one
  -- is refused; the interface takes of each as many packets as `vmnet_write` returns, and the counters count every
  -- packet and byte of the batches that were not refused. It ends with `STATUS_STOPPED` when the socket is at its
  -- end, and with `STATUS_FAILURE` when the last call was a `read` or a `vmnet_write` that failed.
  pub forward_from_vm-Forwarded :
      (fuel : ℕ) (vm : Endpoint) (w : sys.World)
      → IsBound vm size
      → 0 < vm.max_packet_count
      → length (sys.trace w).incoming < fuel
      → Forwarded sys vm size w (forward_from_vm sys size fuel bulk vm w)
  unfolding write_to_host described
  forward_from_vm-Forwarded zero vm w b some_slot enough = absurd (omega arith)
  forward_from_vm-Forwarded (suc fuel) vm w b some_slot enough =
      elim (Option-cases (rd sys size bulk vm w fuel).1) [
        | inl e ↦ failed_read vm w b some_slot fuel e
        | inr (zero, e) ↦ closed_socket vm w b some_slot fuel e
        | inr (suc n, e) ↦ elim (Bool-cases (wr sys size bulk vm w fuel n e).1) [
          | inl refused ↦ refused_batch vm w b some_slot fuel n e refused
          | inr works ↦ rw (round_more sys size bulk vm w fuel n e works) (
              Forwarded-batch vm w b some_slot fuel n e works _ (
                forward_from_vm-Forwarded fuel _ _ (still-IsBound vm w b some_slot fuel n e)
                  (still_slots vm w b some_slot fuel n e)
                  (omega (arith, fewer vm w b some_slot fuel n e works))))
        ]
      ]

  -- When one read takes a batch of packets, and `vmnet_write` reports success for fewer of them, `forward_from_vm` goes on
  -- as after a round that has forwarded them all: it counts every packet of the batch, though the interface has
  -- taken fewer.
  pub short_write_counted :
      (fuel n : ℕ) (vm : Endpoint) (w : sys.World)
      → IsBound vm size
      → 0 < vm.max_packet_count
      → (rd sys size bulk vm w fuel).1 ≡ some (suc n)
      → (sys.vmnet_write
          (messages (rd sys size bulk vm w fuel).0 (suc n))
          (rd sys size bulk vm w fuel).2).status
        ≡ success
      → (sys.vmnet_write
          (messages (rd sys size bulk vm w fuel).0 (suc n))
          (rd sys size bulk vm w fuel).2).count
        < suc n
      → (v : Endpoint) × (u : sys.World) × (forward_from_vm sys size (suc fuel) bulk vm w
          ≡ forward_from_vm sys size fuel bulk v u)
        × (u64 v.stats.packets ≡ u64 (vm.stats.packets + suc n))
        × (length (sys.trace u).written < length (sys.trace w).written + suc n)
  unfolding add_batch described write_to_host
  short_write_counted fuel n vm w b some_slot e good short =
      let x = ends vm w b some_slot fuel in
      let r = rd sys size bulk vm w fuel in
      let k = taken vm w b some_slot fuel n e in
      let works = works_if sys size sink r.0 (suc n) w r.2 x.bound k good in
      let count = (sys.vmnet_write (messages r.0 (suc n)) r.2).count in
      (
        add_batch (wr sys size bulk vm w fuel n e).0 (suc n),
        (wr sys size bulk vm w fuel n e).2,
        round_more sys size bulk vm w fuel n e works,
        omega (arith, x.packets_eq),
        omega (
          arith,
          ap (λ (t : VmTrace). length t.written)
              (wrote_count sys size sink r.0 (suc n) w r.2 x.bound k works),
          ap (λ (t : VmTrace). length t.written) k.taken,
          length-append (sys.trace r.2).written (take count (messages r.0 (suc n))),
          length-take count (messages r.0 (suc n)),
        ),
      )

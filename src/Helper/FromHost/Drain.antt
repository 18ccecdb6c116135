-- ===== src/Helper/FromHost/Drain.antt =====
-- `packets_available` of programs/helper.c and the packets of the vmnet interface.
use mathlib.Core.List.{append_assoc, append-nil, Sublistᴰ}
use vmnet_helper.Prelude.{
  ℕ, zero, suc, ◌+◌, ◌≤◌, ◌<◌, ◌≡◌, refl, ap, ◌∙◌, sym, ◌≢◌, ◌⊎◌, inl, inr, Bool, true, false, List,
  [], ◌++◌, none, Outcome, done, ◌>>=◌, arith, length, length-append, total_length,
  total_length-append, Bool-cases, ltb, u64,
}
use vmnet_helper.System.{Datagram, Trace, IsDatagramSocket, VmnetReturn, success}
use vmnet_helper.Helper.Endpoint.{Endpoint, IsBound}
use vmnet_helper.Helper.HostToVm.{write_to_vm}
use vmnet_helper.Helper.HostToVm.Binding.{Handled-IsBound}
use vmnet_helper.Helper.HostToVm.Delivery.{Handled, batch, length-batch, write_to_vm-Handled}
use vmnet_helper.Helper.FromHost.{
  HostRead, HostSystem, HostWorld, host_trace, reset, with_read, read_result, ReadSome,
  IsVmnetReader, packets_available,
}
use vmnet_helper.Helper.FromHost.Reading.{reset-IsBound, reset-IsReset, ReadSome-IsFilled}

pub append-Sublistᴰ :
    {xs ys zs vs : List Datagram} → Sublistᴰ xs ys → Sublistᴰ zs vs → Sublistᴰ (xs ++ zs) (ys ++ vs)
append-Sublistᴰ Sublistᴰ.slnil t = t
append-Sublistᴰ (Sublistᴰ.cons s) t = Sublistᴰ.cons (append-Sublistᴰ s t)
append-Sublistᴰ (Sublistᴰ.cons-cons e s) t = Sublistᴰ.cons-cons e (append-Sublistᴰ s t)

-- The read of the vmnet interface that ends the loop: what is returned is the endpoint and the world that it left, and
-- it failed, or returned no packet because none waits.
pub record LastRead (sys : HostSystem) (size : ℕ) (after : Endpoint) (world : HostWorld sys)
    : Type 0 where
  pub endpoint : Endpoint
  pub before : HostWorld sys
  pub bound : IsBound endpoint size
  pub after_eq :
      after
      ≡ with_read
          (reset endpoint size)
          (sys.vmnet_read (reset endpoint size) endpoint.max_packet_count before)
  pub world_eq :
      world ≡ (sys.vmnet_read (reset endpoint size) endpoint.max_packet_count before).world
  pub unread : host_trace sys world ≡ host_trace sys before
  pub stops :
      ((sys.vmnet_read (reset endpoint size) endpoint.max_packet_count before).status ≢ success)
      ⊎ (((sys.vmnet_read (reset endpoint size) endpoint.max_packet_count before).status ≡ success)
          × ((sys.vmnet_read (reset endpoint size) endpoint.max_packet_count before).count ≡ 0)
          × ((host_trace sys world).incoming ≡ []))

-- The packets `consumed` were taken from the interface and `delivered`, an in-order part of them,
-- reached the peer whole; the statistics account for all of them, modulo 2 ^ 64.
pub record Drained (sys : HostSystem) (host : Endpoint) (size : ℕ) (w : HostWorld sys)
    (result : Outcome (Endpoint × HostWorld sys)) : Type 0 where
  pub after : Endpoint
  pub world : HostWorld sys
  pub consumed : List Datagram
  pub delivered : List Datagram
  pub returned : result ≡ done (after, world)
  pub bound : IsBound after size
  pub incoming_eq : (host_trace sys w).incoming ≡ consumed ++ (host_trace sys world).incoming
  pub received_eq : (host_trace sys world).received ≡ (host_trace sys w).received ++ delivered
  pub in_order : Sublistᴰ delivered consumed
  pub packets_eq : u64 after.stats.packets ≡ u64 (host.stats.packets + length delivered)
  pub bytes_eq : u64 after.stats.bytes ≡ u64 (host.stats.bytes + total_length delivered)
  pub drops_eq :
      u64 (after.stats.drops + length delivered) ≡ u64 (host.stats.drops + length consumed)
  pub stopped : LastRead sys size after world

length-Sublistᴰ : {xs ys : List Datagram} → Sublistᴰ xs ys → length xs ≤ length ys
length-Sublistᴰ Sublistᴰ.slnil = omega arith
length-Sublistᴰ (Sublistᴰ.cons s) = omega (arith, length-Sublistᴰ s)
length-Sublistᴰ (Sublistᴰ.cons-cons e s) = omega (arith, length-Sublistᴰ s)

VmnetReturn-discrete : Discrete VmnetReturn
VmnetReturn-discrete = hlevel

read_result_failed :
    (status : VmnetReturn) (count : ℕ) → status ≢ success → read_result status count ≡ none
read_result_failed success count h = absurd (h refl)
read_result_failed _ count h = refl

module _ (sys : HostSystem) (size : ℕ) (bulk : Bool) (host : Endpoint) (w : HostWorld sys) where
  abbrev read : HostRead (HostWorld sys)
  read = sys.vmnet_read (reset host size) host.max_packet_count w

  abbrev filled : Endpoint
  filled = with_read (reset host size) read

  round_failed :
      (fuel : ℕ)
      → read.status ≢ success
      → packets_available sys size (suc fuel) bulk host w ≡ done (filled, read.world)
  unfolding packets_available
  round_failed fuel fails = ground (arith, read_result_failed read.status read.count fails)

  round_empty :
      (fuel : ℕ)
      → read.status ≡ success
      → ltb read.count 1 ≡ true
      → packets_available sys size (suc fuel) bulk host w ≡ done (filled, read.world)
  unfolding packets_available
  round_empty fuel works empty = ground arith

  round_more :
      (fuel : ℕ)
      → read.status ≡ success
      → ltb read.count 1 ≡ false
      → packets_available sys size (suc fuel) bulk host w ≡ (
          write_to_vm sys.socket bulk filled read.count read.world >>= λ (h, u).
          packets_available sys size fuel bulk h u)
  unfolding packets_available
  round_more fuel works more = ground arith

module _ (sys : HostSystem) (size : ℕ) (socket : IsDatagramSocket sys.socket)
    (reader : IsVmnetReader sys size) (bulk : Bool) where
  -- A round that forwards nothing.
  nothing_more :
      (host : Endpoint) (w : HostWorld sys) (result : Outcome (Endpoint × HostWorld sys))
      → result ≡ done (filled sys size bulk host w, (read sys size bulk host w).world)
      → IsBound (filled sys size bulk host w) size
      → host_trace sys (read sys size bulk host w).world ≡ host_trace sys w
      → IsBound host size
      → ((read sys size bulk host w).status ≢ success)
        ⊎ (((read sys size bulk host w).status ≡ success)
            × ((read sys size bulk host w).count ≡ 0)
            × ((host_trace sys (read sys size bulk host w).world).incoming ≡ []))
      → Drained sys host size w result
  unfolding reset
  nothing_more host w result returned b same before stops = record {
    after = filled sys size bulk host w;
    world = (read sys size bulk host w).world;
    consumed = [];
    delivered = [];
    returned = returned;
    bound = b;
    incoming_eq = ground (arith, same);
    received_eq = ground (arith, same, append-nil (host_trace sys w).received);
    in_order = Sublistᴰ.slnil;
    packets_eq = omega arith;
    bytes_eq = omega arith;
    drops_eq = refl;
    stopped = record {
      endpoint = host;
      before = w;
      bound = before;
      after_eq = refl;
      world_eq = refl;
      unread = same;
      stops = stops;
    };
  }

  -- A round that forwards a batch, before the rounds that follow.
  one_more :
      (host : Endpoint) (w : HostWorld sys) (result rest : Outcome (Endpoint × HostWorld sys))
      → ReadSome sys (reset host size) size w (read sys size bulk host w)
      → (h : Handled sys.socket
          (filled sys size bulk host w)
          (read sys size bulk host w).count
          (read sys size bulk host w).world
          result)
      → length (batch (filled sys size bulk host w) (read sys size bulk host w).count)
        ≡ (read sys size bulk host w).count
      → Drained sys h.after size h.world rest
      → Drained sys host size w rest
  unfolding reset
  one_more host w result rest some_read h all d =
      let b = batch (filled sys size bulk host w) (read sys size bulk host w).count in
      let le : length h.delivered ≤ (read sys size bulk host w).count =
        omega (arith, length-Sublistᴰ h.in_order) in
      record {
        after = d.after;
        world = d.world;
        consumed = b ++ d.consumed;
        delivered = h.delivered ++ d.delivered;
        returned = d.returned;
        bound = d.bound;
        incoming_eq = ground (
          arith,
          some_read.taken,
          h.traced,
          d.incoming_eq,
          append_assoc b d.consumed (host_trace sys d.world).incoming,
        );
        received_eq = ground (
          arith,
          some_read.taken,
          h.traced,
          d.received_eq,
          append_assoc (host_trace sys w).received h.delivered d.delivered,
        );
        in_order = append-Sublistᴰ h.in_order d.in_order;
        packets_eq =
            omega (arith, d.packets_eq, h.packets_eq, length-append h.delivered d.delivered);
        bytes_eq =
            omega (arith, d.bytes_eq, h.bytes_eq, total_length-append h.delivered d.delivered);
        drops_eq = omega (
          arith,
          d.drops_eq,
          h.drops_eq,
          length-append h.delivered d.delivered,
          length-append b d.consumed,
        );
        stopped = d.stopped;
      }

  module _ (host : Endpoint) (w : HostWorld sys) (b : IsBound host size) where
    abbrev r : HostRead (HostWorld sys)
    r = read sys size bulk host w

    failed_round :
        (fuel : ℕ)
        → r.status ≢ success
        → Drained sys host size w (packets_available sys size (suc fuel) bulk host w)
    unfolding reset
    failed_round fuel fails =
        let kept = reader.reads_nothing (reset host size) w (reset-IsBound host size b) fails in
        nothing_more host w _ (round_failed sys size bulk host w fuel fails) kept.0 kept.1 b
          (inl fails)

    reads_some : r.status ≡ success → ReadSome sys (reset host size) size w r
    unfolding reset
    reads_some works =
        reader.reads (reset host size) w (reset-IsBound host size b) (reset-IsReset host size b)
          works

    empty_round :
        (fuel : ℕ)
        → r.status ≡ success
        → ltb r.count 1 ≡ true
        → Drained sys host size w (packets_available sys size (suc fuel) bulk host w)
    empty_round fuel works empty =
        let some_read = reads_some works in
        let zero_count : r.count ≡ 0 = ground arith in
        let taken : host_trace sys r.world ≡ host_trace sys w =
          sym (rw zero_count at (some_read.taken)) in
        nothing_more host w _ (round_empty sys size bulk host w fuel works empty) some_read.bound
          taken b
          (inr (works, zero_count, ap (λ t. t.incoming) taken ∙ some_read.none_left zero_count))

    -- The batch of a read that is not empty is handled.
    batch_handled :
        (works : r.status ≡ success)
        → 0 < r.count
        → Handled sys.socket
            (filled sys size bulk host w)
            r.count
            r.world
            (write_to_vm sys.socket bulk (filled sys size bulk host w) r.count r.world)
    batch_handled works pos =
        write_to_vm-Handled sys.socket socket (filled sys size bulk host w) r.count
          (ReadSome-IsFilled sys (reset host size) size w r (reads_some works) pos) r.world bulk

    size_of_batch :
        r.status ≡ success → length (batch (filled sys size bulk host w) r.count) ≡ r.count
    size_of_batch works =
        length-batch (filled sys size bulk host w) r.count
          (omega (arith, (reads_some works).count-le, (reads_some works).bound.packets_length))

    -- The packets that are left after a batch.
    fewer :
        (works : r.status ≡ success) (pos : 0 < r.count)
        → length (host_trace sys (batch_handled works pos).world).incoming
          < length (host_trace sys w).incoming
    fewer works pos =
        let h = batch_handled works pos in
        let some_read = reads_some works in
        omega (
          arith,
          ap (λ (t : Trace). length t.incoming) h.traced,
          ap (λ (t : Trace). length t.incoming) some_read.taken,
          length-append (batch (filled sys size bulk host w) r.count)
              (host_trace sys r.world).incoming,
          size_of_batch works,
        )

  -- With a vmnet interface and a socket that keep to their contracts, an endpoint whose slots are bound, and
  -- fuel for one round more than there are packets waiting, `packets_available` returns an endpoint that is
  -- still bound. The packets it read are a beginning of those that waited; what it delivered is a part of them
  -- in order; the counters say how many packets and bytes were delivered and how many were dropped, and what
  -- it returns is what its last read left, which failed, or found no packet waiting.
  pub packets_available-Drained :
      (fuel : ℕ) (host : Endpoint) (w : HostWorld sys)
      → IsBound host size
      → length (host_trace sys w).incoming < fuel
      → Drained sys host size w (packets_available sys size fuel bulk host w)
  packets_available-Drained zero host w b enough = absurd (omega arith)
  packets_available-Drained (suc fuel) host w b enough =
      elim (VmnetReturn-discrete (r host w b).status success) [
        | no fails ↦ failed_round host w b fuel fails
        | yes works ↦ elim (Bool-cases (ltb (r host w b).count 1)) [
          | inl empty ↦ empty_round host w b fuel works empty
          | inr more ↦
              let pos : 0 < (r host w b).count = ground arith in
              let h = batch_handled host w b works pos in
              rw (round_more sys size bulk host w fuel works more) (
                rw (h.returned, ◌>>=◌)
                  (one_more host w _ _ (reads_some host w b works) h (size_of_batch host w b works)
                    (packets_available-Drained fuel h.after h.world
                      (Handled-IsBound sys.socket _ _ size _ _ (reads_some host w b works).bound h)
                      (omega (arith, fewer host w b works pos)))))
        ]
      ]

-- ===== src/Helper/VmToHost/Batch.antt =====
-- `write_to_host` of programs/helper.c and the datagrams that `read_from_vm` has read.
use mathlib.Core.List.{Sublistᴰ}
use vmnet_helper.Prelude.{
  ℕ, zero, suc, ◌+◌, ◌*◌, ◌<◌, ◌≤◌, ◌≡◌, ◌≢◌, refl, ap, subst, ◌∙◌, sym, ◌↔◌, Bool, true, false,
  List, [], ◌∷◌, ◌++◌, map, arith, length, length-map, length-take, take, total_length, All,
  All_of_get, map-take_eq, u64,
}
use vmnet_helper.System.{Datagram, VmnetReturn, success}
use vmnet_helper.Helper.Endpoint.{
  Endpoint, MessageHeader, no_msg, no_packet, packet_at, msg_at, packet_bytes, bytes_at, IsBound,
}
use vmnet_helper.Helper.FromHost.Reading.{length-slot}
use vmnet_helper.Helper.VmToHost.{
  VmSystem, described, msgs_size, vm_msgs_size, add_batch, failed, write_to_host, messages,
  msg_data, MessagesTaken, IsPacketSink,
}
use vmnet_helper.Helper.VmToHost.Slots.{described-IsBound, vm_pkt_size-set_packet_sizes}

msgs_size-total_length :
    (e : Endpoint) (ms : List MessageHeader) (n size : ℕ)
    → All (λ m. length (msg_data e m) ≡ m.msg_len) (take n ms)
    → u64 (msgs_size ms n size) ≡ u64 (size + total_length (map (msg_data e) (take n ms)))
unfolding msgs_size
msgs_size-total_length e ms zero size whole = omega arith
msgs_size-total_length e [] (suc n) size whole = omega arith
msgs_size-total_length e (m ∷ ms) (suc n) size whole =
    omega (arith, whole.0, msgs_size-total_length e ms n (u64 (size + m.msg_len)) whole.1)

-- The batch that was read is the batch that is written.
module _ (sys : VmSystem) (e : Endpoint) (size n : ℕ) (w w' : sys.World) (b : IsBound e size)
    (taken : MessagesTaken sys e size n w w') where
  enough_msgs : n ≤ length e.msgs
  enough_msgs = omega (arith, b.msgs_length, taken.count-le)

  enough_packets : n ≤ length (described e n).packets
  unfolding described
  enough_packets = omega (arith, (described-IsBound e size b n).packets_length, taken.count-le)

  msg_in_slot :
      (i : ℕ) → i < n → msg_data e (msg_at e i) ≡ bytes_at e (i * size) (msg_at e i).msg_len
  msg_in_slot i lt =
      let within : i < e.max_packet_count = omega (arith, taken.count-le) in
      rw (b.msg_slot i within, b.iov_slot i within)

  packet_in_slot :
      (i : ℕ)
      → i < n
      → packet_bytes (described e n) (packet_at (described e n) i)
        ≡ bytes_at e (i * size) (msg_at e i).msg_len
  unfolding described
  packet_in_slot i lt =
      let within : i < e.max_packet_count = omega (arith, taken.count-le) in
      let d = described-IsBound e size b n in
      rw (
        d.packet_slot i within,
        d.iov_slot i within,
        vm_pkt_size-set_packet_sizes n i e.msgs e.packets lt enough_msgs
            (omega (arith, b.packets_length, taken.count-le)),
      )

  pub written_batch :
      map (packet_bytes (described e n)) (take n (described e n).packets) ≡ messages e n
  written_batch =
      map-take_eq (packet_bytes (described e n)) (msg_data e) no_packet no_msg n
        (described e n).packets e.msgs enough_packets enough_msgs
        (λ i lt. packet_in_slot i lt ∙ sym (msg_in_slot i lt))

  whole : All (λ m. length (msg_data e m) ≡ m.msg_len) (take n e.msgs)
  whole =
      All_of_get (λ m. length (msg_data e m) ≡ m.msg_len) no_msg n e.msgs enough_msgs
        (λ i lt.
          ap length (msg_in_slot i lt)
          ∙ length-slot e size i _ b (omega (arith, taken.count-le)) (taken.fits i lt))

  pub size_of_messages : u64 (vm_msgs_size (described e n) n) ≡ u64 (total_length (messages e n))
  unfolding vm_msgs_size described
  size_of_messages = omega (arith, msgs_size-total_length e e.msgs n 0 whole)

  pub length-messages : length (messages e n) ≡ n
  length-messages =
      length-map (msg_data e) (take n e.msgs) ∙ omega (arith, length-take n e.msgs, enough_msgs)

  pub add_batch-IsBound : IsBound (add_batch (described e n) n) size
  unfolding add_batch
  add_batch-IsBound =
      let d = described-IsBound e size b n in
      record {
        packets_length = d.packets_length;
        msgs_length = d.msgs_length;
        iovs_length = d.iovs_length;
        buffers_length = d.buffers_length;
        packet_slot = d.packet_slot;
        msg_slot = d.msg_slot;
        iov_slot = d.iov_slot;
      }

failed_iff : (status : VmnetReturn) → (failed status ≡ false) ↔ (status ≡ success)
failed_iff success = (λ h. refl, λ h. refl)
failed_iff _ = (λ h. cc, λ h. cc)

pub take-Sublistᴰ : (n : ℕ) (ds : List Datagram) → Sublistᴰ (take n ds) ds
take-Sublistᴰ zero [] = Sublistᴰ.slnil
take-Sublistᴰ zero (d ∷ ds) = Sublistᴰ.cons (take-Sublistᴰ zero ds)
take-Sublistᴰ (suc n) [] = Sublistᴰ.slnil
take-Sublistᴰ (suc n) (d ∷ ds) = Sublistᴰ.cons-cons refl (take-Sublistᴰ n ds)

module _ (sys : VmSystem) (size : ℕ) (sink : IsPacketSink sys) (e : Endpoint) (n : ℕ)
    (w w' : sys.World) (b : IsBound e size) (taken : MessagesTaken sys e size n w w') where
  abbrev pub wrote : Endpoint × Bool × sys.World
  wrote = write_to_host sys size e n w'

  pub wrote_endpoint : wrote.0 ≡ described e n
  unfolding write_to_host
  wrote_endpoint = refl

  pub wrote_none : wrote.1 ≡ true → sys.trace wrote.2 ≡ sys.trace w'
  unfolding write_to_host
  wrote_none refused = sink.writes_nothing _ w' (λ s. ground (
    arith,
    failed_iff
        (sys.vmnet_write (map (packet_bytes (described e n)) (take n (described e n).packets))
          w').status,
  ))

  pub wrote_count :
      wrote.1 ≡ false
      → sys.trace wrote.2 ≡ record (sys.trace w') {
        written =
            (sys.trace w').written ++ take (sys.vmnet_write (messages e n) w').count (messages e n);
      }
  unfolding write_to_host
  wrote_count works =
      rw (← written_batch sys e size n w w' b taken) (sink.writes _ w' ((failed_iff _).0 works))

  -- What the call of `vmnet_write` was.
  pub good_write :
      wrote.1 ≡ false
      → ((sys.vmnet_write (messages e n) w').status ≡ success)
        × (wrote.2 ≡ (sys.vmnet_write (messages e n) w').world)
  unfolding write_to_host
  good_write works = rw (← written_batch sys e size n w w' b taken) ((failed_iff _).0 works, refl)

  pub refused_write :
      wrote.1 ≡ true
      → ((sys.vmnet_write (messages e n) w').status ≢ success)
        × (wrote.2 ≡ (sys.vmnet_write (messages e n) w').world)
  unfolding write_to_host
  refused_write refused =
      rw (← written_batch sys e size n w w' b taken)
        (λ s. absurd (cc ((failed_iff _).1 s, refused)), refl)

  pub works_if : (sys.vmnet_write (messages e n) w').status ≡ success → wrote.1 ≡ false
  unfolding write_to_host
  works_if s = (failed_iff _).1 (
      subst (λ ds. (sys.vmnet_write ds w').status ≡ success)
        (sym (written_batch sys e size n w w' b taken)) s)

-- ===== src/Helper/HostToVm/Binding.antt =====
-- `write_to_vm` of programs/helper.c and the binding of the slots.
use vmnet_helper.Prelude.{
  ℕ, zero, suc, ◌≡◌, refl, ap, ◌∙◌, List, [], ◌∷◌, Outcome, length, subst, sym,
}
use vmnet_helper.System.{VmSocket}
use vmnet_helper.Helper.Endpoint.{PacketDesc, MessageHeader, Endpoint, get_msg, IsBound}
use vmnet_helper.Helper.HostToVm.{set_msg_lens}
use vmnet_helper.Helper.HostToVm.Delivery.{Handled}

length-set_msg_lens :
    (n : ℕ) (ps : List PacketDesc) (ms : List MessageHeader)
    → length (set_msg_lens n ps ms) ≡ length ms
unfolding set_msg_lens
length-set_msg_lens zero ps ms = refl
length-set_msg_lens (suc n) [] ms = refl
length-set_msg_lens (suc n) (p ∷ ps) [] = refl
length-set_msg_lens (suc n) (p ∷ ps) (m ∷ ms) = ap suc (length-set_msg_lens n ps ms)

msg_iov-set_msg_lens :
    (n i : ℕ) (ps : List PacketDesc) (ms : List MessageHeader)
    → (get_msg (set_msg_lens n ps ms) i).msg_iov ≡ (get_msg ms i).msg_iov
unfolding set_msg_lens
msg_iov-set_msg_lens zero i ps ms = refl
msg_iov-set_msg_lens (suc n) i [] ms = refl
msg_iov-set_msg_lens (suc n) i (p ∷ ps) [] = refl
msg_iov-set_msg_lens (suc n) zero (p ∷ ps) (m ∷ ms) = refl
msg_iov-set_msg_lens (suc n) (suc i) (p ∷ ps) (m ∷ ms) = msg_iov-set_msg_lens n i ps ms

-- The binding does not depend on the statistics.
without_stats :
    (e host : Endpoint) (size : ℕ) → IsBound (record e { stats = host.stats }) size → IsBound e size
without_stats e host size b = record {
  packets_length = b.packets_length;
  msgs_length = b.msgs_length;
  iovs_length = b.iovs_length;
  buffers_length = b.buffers_length;
  packet_slot = b.packet_slot;
  msg_slot = b.msg_slot;
  iov_slot = b.iov_slot;
}

pub Handled-IsBound :
    (sys : VmSocket) (host : Endpoint) (count size : ℕ) (w : sys.World)
    (result : Outcome (Endpoint × sys.World))
    → IsBound host size
    → (h : Handled sys host count w result) → IsBound h.after size
Handled-IsBound sys host count size w result b h = without_stats h.after host size (
    subst (λ x. IsBound x size) (sym h.arrays_eq)
      (record {
        packets_length = b.packets_length;
        msgs_length = length-set_msg_lens count host.packets host.msgs ∙ b.msgs_length;
        iovs_length = b.iovs_length;
        buffers_length = b.buffers_length;
        packet_slot = b.packet_slot;
        msg_slot = λ i lt. msg_iov-set_msg_lens count i host.packets host.msgs ∙ b.msg_slot i lt;
        iov_slot = b.iov_slot;
      }))

-- ===== src/Helper/VmToHost/Slots.antt =====
-- The slots of the endpoint `vm` of programs/helper.c, while sizes are written to them.
use vmnet_helper.Prelude.{
  ℕ, zero, suc, ◌<◌, ◌≤◌, ◌≡◌, refl, ap, ◌∙◌, List, [], ◌∷◌, arith, length, modify_head,
}
use vmnet_helper.Helper.Endpoint.{
  IoVec, PacketDesc, MessageHeader, Endpoint, get_iov, get_packet, get_msg, iov_at, IsBound,
}
use vmnet_helper.Helper.FromHost.Reading.{length-reset_iovs, get-reset_iovs}
use vmnet_helper.Helper.VmToHost.{
  set_packet_sizes, set_iov_lens, described, before_fast, before_slow,
}

pub length-modify_head {ℓ} :
    {A : Type ℓ} (f : A → A) (xs : List A) → length (modify_head f xs) ≡ length xs
length-modify_head f [] = refl
length-modify_head f (x ∷ xs) = refl

iov_base-modify_head :
    (f : IoVec → IoVec) (i : ℕ) (vs : List IoVec)
    → ((v : IoVec) → (f v).iov_base ≡ v.iov_base)
    → (get_iov (modify_head f vs) i).iov_base ≡ (get_iov vs i).iov_base
iov_base-modify_head f i [] keeps = refl
iov_base-modify_head f zero (v ∷ vs) keeps = keeps v
iov_base-modify_head f (suc i) (v ∷ vs) keeps = refl

msg_iov-modify_head :
    (f : MessageHeader → MessageHeader) (i : ℕ) (ms : List MessageHeader)
    → ((m : MessageHeader) → (f m).msg_iov ≡ m.msg_iov)
    → (get_msg (modify_head f ms) i).msg_iov ≡ (get_msg ms i).msg_iov
msg_iov-modify_head f i [] keeps = refl
msg_iov-modify_head f zero (m ∷ ms) keeps = keeps m
msg_iov-modify_head f (suc i) (m ∷ ms) keeps = refl

length-set_packet_sizes :
    (n : ℕ) (ms : List MessageHeader) (ps : List PacketDesc)
    → length (set_packet_sizes n ms ps) ≡ length ps
unfolding set_packet_sizes
length-set_packet_sizes zero ms ps = refl
length-set_packet_sizes (suc n) [] ps = refl
length-set_packet_sizes (suc n) (m ∷ ms) [] = refl
length-set_packet_sizes (suc n) (m ∷ ms) (p ∷ ps) = ap suc (length-set_packet_sizes n ms ps)

vm_pkt_iov-set_packet_sizes :
    (n i : ℕ) (ms : List MessageHeader) (ps : List PacketDesc)
    → (get_packet (set_packet_sizes n ms ps) i).vm_pkt_iov ≡ (get_packet ps i).vm_pkt_iov
unfolding set_packet_sizes
vm_pkt_iov-set_packet_sizes zero i ms ps = refl
vm_pkt_iov-set_packet_sizes (suc n) i [] ps = refl
vm_pkt_iov-set_packet_sizes (suc n) i (m ∷ ms) [] = refl
vm_pkt_iov-set_packet_sizes (suc n) zero (m ∷ ms) (p ∷ ps) = refl
vm_pkt_iov-set_packet_sizes (suc n) (suc i) (m ∷ ms) (p ∷ ps) =
    vm_pkt_iov-set_packet_sizes n i ms ps

pub vm_pkt_size-set_packet_sizes :
    (n i : ℕ) (ms : List MessageHeader) (ps : List PacketDesc)
    → i < n
    → n ≤ length ms
    → n ≤ length ps
    → (get_packet (set_packet_sizes n ms ps) i).vm_pkt_size ≡ (get_msg ms i).msg_len
unfolding set_packet_sizes
vm_pkt_size-set_packet_sizes zero i ms ps lt le le' = absurd (omega arith)
vm_pkt_size-set_packet_sizes (suc n) i [] ps lt le le' = absurd (omega arith)
vm_pkt_size-set_packet_sizes (suc n) i (m ∷ ms) [] lt le le' = absurd (omega arith)
vm_pkt_size-set_packet_sizes (suc n) zero (m ∷ ms) (p ∷ ps) lt le le' = refl
vm_pkt_size-set_packet_sizes (suc n) (suc i) (m ∷ ms) (p ∷ ps) lt le le' =
    vm_pkt_size-set_packet_sizes n i ms ps (omega arith) (omega arith) (omega arith)

length-set_iov_lens :
    (n : ℕ) (ms : List MessageHeader) (vs : List IoVec) → length (set_iov_lens n ms vs) ≡ length vs
unfolding set_iov_lens
length-set_iov_lens zero ms vs = refl
length-set_iov_lens (suc n) [] vs = refl
length-set_iov_lens (suc n) (m ∷ ms) [] = refl
length-set_iov_lens (suc n) (m ∷ ms) (v ∷ vs) = ap suc (length-set_iov_lens n ms vs)

iov_base-set_iov_lens :
    (n i : ℕ) (ms : List MessageHeader) (vs : List IoVec)
    → (get_iov (set_iov_lens n ms vs) i).iov_base ≡ (get_iov vs i).iov_base
unfolding set_iov_lens
iov_base-set_iov_lens zero i ms vs = refl
iov_base-set_iov_lens (suc n) i [] vs = refl
iov_base-set_iov_lens (suc n) i (m ∷ ms) [] = refl
iov_base-set_iov_lens (suc n) zero (m ∷ ms) (v ∷ vs) = refl
iov_base-set_iov_lens (suc n) (suc i) (m ∷ ms) (v ∷ vs) = iov_base-set_iov_lens n i ms vs

module _ (vm : Endpoint) (size : ℕ) (b : IsBound vm size) where
  pub described-IsBound : (count : ℕ) → IsBound (described vm count) size
  unfolding described
  described-IsBound count = record {
    packets_length = length-set_packet_sizes count vm.msgs vm.packets ∙ b.packets_length;
    msgs_length = b.msgs_length;
    iovs_length = length-set_iov_lens count vm.msgs vm.iovs ∙ b.iovs_length;
    buffers_length = b.buffers_length;
    packet_slot =
        λ i lt. vm_pkt_iov-set_packet_sizes count i vm.msgs vm.packets ∙ b.packet_slot i lt;
    msg_slot = b.msg_slot;
    iov_slot = λ i lt. iov_base-set_iov_lens count i vm.msgs vm.iovs ∙ b.iov_slot i lt;
  }

  pub before_fast-IsBound : IsBound (before_fast vm size) size
  unfolding before_fast
  before_fast-IsBound = record {
    packets_length = b.packets_length;
    msgs_length = b.msgs_length;
    iovs_length = length-reset_iovs vm.max_packet_count size vm.iovs ∙ b.iovs_length;
    buffers_length = b.buffers_length;
    packet_slot = b.packet_slot;
    msg_slot = b.msg_slot;
    iov_slot = λ i lt.
        ap (λ v. v.iov_base)
          (get-reset_iovs vm.max_packet_count size i vm.iovs lt (omega (arith, b.iovs_length)))
        ∙ b.iov_slot i lt;
  }

  pub before_fast_len :
      (i : ℕ) → i < vm.max_packet_count → (iov_at (before_fast vm size) i).iov_len ≡ size
  unfolding before_fast
  before_fast_len i lt =
      ap (λ v. v.iov_len)
        (get-reset_iovs vm.max_packet_count size i vm.iovs lt (omega (arith, b.iovs_length)))

  pub before_slow-IsBound : IsBound (before_slow vm size) size
  unfolding before_slow
  before_slow-IsBound = record {
    packets_length = b.packets_length;
    msgs_length = b.msgs_length;
    iovs_length = length-modify_head _ vm.iovs ∙ b.iovs_length;
    buffers_length = b.buffers_length;
    packet_slot = b.packet_slot;
    msg_slot = b.msg_slot;
    iov_slot = λ i lt. iov_base-modify_head _ i vm.iovs (λ v. refl) ∙ b.iov_slot i lt;
  }

  -- The length of the message in slot 0 is set.
  pub message_read-IsBound :
      (len : ℕ)
      → IsBound (record vm { msgs = modify_head (λ m. record m { msg_len = len }) vm.msgs }) size
  message_read-IsBound len = record {
    packets_length = b.packets_length;
    msgs_length = length-modify_head _ vm.msgs ∙ b.msgs_length;
    iovs_length = b.iovs_length;
    buffers_length = b.buffers_length;
    packet_slot = b.packet_slot;
    msg_slot = λ i lt. msg_iov-modify_head _ i vm.msgs (λ m. refl) ∙ b.msg_slot i lt;
    iov_slot = b.iov_slot;
  }

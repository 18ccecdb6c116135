-- ===== src/Helper/Endpoint/Binding.antt =====
-- The slots of an endpoint of programs/helper.c, and the parts of its buffers.
use vmnet_helper.Prelude.{
  ℕ, zero, suc, ◌+◌, ◌*◌, ◌≤◌, ◌<◌, ◌≡◌, refl, ap, subst, ◌∙◌, ◌⊎◌, Bool, true, false, done, exited,
  inl, inr, Bool-cases, ◌&&◌, String, arith, length, length-replicate,
}
use vmnet_helper.Helper.Endpoint.{
  Endpoint, packet_at, iov_at, packet_count, bind_iovs, bind_packets, bind_msgs, bind,
  init_endpoint, sizeof_packet, sizeof_msg, sizeof_iov, IsBound, get_iov, get_packet, get_msg,
}

bind_iovs_slot :
    (n i k size : ℕ) → k < n → (get_iov (bind_iovs n i size) k).iov_base ≡ (i + k) * size
unfolding bind_iovs
bind_iovs_slot zero i k size lt = absurd (omega arith)
bind_iovs_slot (suc n) i zero size lt = ap (λ j. j * size) (omega arith)
bind_iovs_slot (suc n) i (suc k) size lt =
    bind_iovs_slot n (i + 1) k size (omega arith) ∙ ap (λ j. j * size) (omega arith)

bind_packets_slot : (n i k : ℕ) → k < n → (get_packet (bind_packets n i) k).vm_pkt_iov ≡ i + k
unfolding bind_packets
bind_packets_slot zero i k lt = absurd (omega arith)
bind_packets_slot (suc n) i zero lt = omega arith
bind_packets_slot (suc n) i (suc k) lt = omega (arith, bind_packets_slot n (i + 1) k (omega arith))

bind_msgs_slot : (n i k : ℕ) → k < n → (get_msg (bind_msgs n i) k).msg_iov ≡ i + k
unfolding bind_msgs
bind_msgs_slot zero i k lt = absurd (omega arith)
bind_msgs_slot (suc n) i zero lt = omega arith
bind_msgs_slot (suc n) i (suc k) lt = omega (arith, bind_msgs_slot n (i + 1) k (omega arith))

length-bind_iovs : (n i size : ℕ) → length (bind_iovs n i size) ≡ n
unfolding bind_iovs
length-bind_iovs zero i size = refl
length-bind_iovs (suc n) i size = ap suc (length-bind_iovs n (i + 1) size)

length-bind_packets : (n i : ℕ) → length (bind_packets n i) ≡ n
unfolding bind_packets
length-bind_packets zero i = refl
length-bind_packets (suc n) i = ap suc (length-bind_packets n (i + 1))

length-bind_msgs : (n i : ℕ) → length (bind_msgs n i) ≡ n
unfolding bind_msgs
length-bind_msgs zero i = refl
length-bind_msgs (suc n) i = ap suc (length-bind_msgs n (i + 1))

bind-IsBound : (name : String) (size : ℕ) → IsBound (bind name size) size
unfolding bind
bind-IsBound name size =
    let n = packet_count size in
    record {
      packets_length = length-bind_packets n 0;
      msgs_length = length-bind_msgs n 0;
      iovs_length = length-bind_iovs n 0 size;
      buffers_length = length-replicate (n * size) 0;
      packet_slot = λ i lt. bind_packets_slot n 0 i lt ∙ omega arith;
      msg_slot = λ i lt. bind_msgs_slot n 0 i lt ∙ omega arith;
      iov_slot = λ i lt. bind_iovs_slot n 0 i size lt ∙ ap (λ j. j * size) (omega arith);
    }

-- All four allocations succeed.
abbrev pub allocated : (ℕ → ℕ → Bool) → ℕ → Bool
allocated calloc size =
    calloc (packet_count size) size
    && calloc (packet_count size) sizeof_packet
    && calloc (packet_count size) sizeof_msg
    && calloc (packet_count size) sizeof_iov

-- If `calloc` succeeds for the buffers, the packets, the messages and the iovecs, then `init_endpoint` returns an
-- endpoint with as many slots as `packet_count` says, and every slot is bound; if one of them fails, the program exits
-- with status 1.
pub init_endpoint-IsBound :
    (calloc : ℕ → ℕ → Bool) (name : String) (size : ℕ)
    → ((allocated calloc size ≡ true)
        × (e : Endpoint) × (init_endpoint calloc name size ≡ done e)
        × (e.max_packet_count ≡ packet_count size)
        × IsBound e size)
      ⊎ ((allocated calloc size ≡ false)
          × (init_endpoint calloc name size ≡ exited 1 "[main] calloc"))
unfolding init_endpoint
init_endpoint-IsBound calloc name size = elim (Bool-cases (allocated calloc size)) [
  | inl all ↦ inl (all, bind name size, ground arith, unfold bind in refl, bind-IsBound name size)
  | inr one_fails ↦ inr (one_fails, ground arith)
]

pub next_slot : (i j size : ℕ) → i < j → i * size + size ≤ j * size
next_slot i j size lt = grind arith

IsBound-apart :
    (e : Endpoint) (size : ℕ)
    → IsBound e size
    → (i j : ℕ) → i < j
    → j < e.max_packet_count
    → ((iov_at e (packet_at e i).vm_pkt_iov).iov_base + size
        ≤ (iov_at e (packet_at e j).vm_pkt_iov).iov_base)
      × ((iov_at e (packet_at e j).vm_pkt_iov).iov_base + size ≤ length e.buffers)
IsBound-apart e size b i j lt within =
    let within_i : i < e.max_packet_count = omega arith in
    rw
      (
        b.packet_slot i within_i,
        b.packet_slot j within,
        b.iov_slot i within_i,
        b.iov_slot j within,
        b.buffers_length,
      )
      (next_slot i j size lt, next_slot j e.max_packet_count size within)

-- The parts of the buffers that two slots use do not overlap, and lie within the buffers.
pub init_endpoint_apart :
    (calloc : ℕ → ℕ → Bool) (name : String) (size : ℕ) {e : Endpoint}
    → init_endpoint calloc name size ≡ done e
    → (i j : ℕ) → i < j
    → j < e.max_packet_count
    → ((iov_at e (packet_at e i).vm_pkt_iov).iov_base + size
        ≤ (iov_at e (packet_at e j).vm_pkt_iov).iov_base)
      × ((iov_at e (packet_at e j).vm_pkt_iov).iov_base + size ≤ length e.buffers)
init_endpoint_apart calloc name size {e} h i j lt within =
    elim (init_endpoint-IsBound calloc name size) [
      | inl (all, f, returned, count, b) ↦
          let same : f ≡ e = cc (returned, h) in
          IsBound-apart e size (subst (λ x. IsBound x size) same b) i j lt within
      | inr failed ↦ cc (failed.1, h)
    ]

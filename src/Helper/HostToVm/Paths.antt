-- ===== src/Helper/HostToVm/Paths.antt =====
-- `write_to_vm` of programs/helper.c with and without the fast path.
use vmnet_helper.Prelude.{
  ℕ, ◌+◌, ◌-◌, ◌≡◌, sym, ap, ◌∙◌, true, false, ◌++◌, Outcome, done, arith, length, total_length,
  u64,
}
use vmnet_helper.System.{VmSocket, IsDatagramSocket, IsReliable}
use vmnet_helper.Helper.Endpoint.{Endpoint}
use vmnet_helper.Helper.HostToVm.{write_to_vm}
use vmnet_helper.Helper.HostToVm.Delivery.{batch, IsFilled, Handled, write_to_vm-Handled}

-- Two runs from the world `w` do the same, but for their system calls: both return, the peer has received the batch, and
-- the endpoints differ in the counts of the calls only.
pub record Agree (sys : VmSocket) (host : Endpoint) (count : ℕ) (w : sys.World)
    (r r' : Outcome (Endpoint × sys.World)) : Type 0 where
  pub after : Endpoint
  pub after' : Endpoint
  pub world : sys.World
  pub world' : sys.World
  pub returned : r ≡ done (after, world)
  pub returned' : r' ≡ done (after', world')
  pub received_all : (sys.trace world).received ≡ (sys.trace w).received ++ batch host count
  pub received_eq : (sys.trace world).received ≡ (sys.trace world').received
  pub arrays_eq : record after { stats = host.stats } ≡ record after' { stats = host.stats }
  pub packets_eq : after.stats.packets ≡ after'.stats.packets
  pub bytes_eq : after.stats.bytes ≡ after'.stats.bytes
  pub drops_eq : u64 after.stats.drops ≡ u64 after'.stats.drops

module _ (sys : VmSocket) (reliable : IsReliable sys) (host : Endpoint) (count : ℕ)
    (w : sys.World) where
  received :
      {r : Outcome (Endpoint × sys.World)} (h : Handled sys host count w r)
      → (sys.trace h.world).received ≡ (sys.trace w).received ++ batch host count
  received h = ground (arith, h.traced, h.all reliable)

  Handled-Agree :
      {r r' : Outcome (Endpoint × sys.World)}
      → Handled sys host count w r
      → Handled sys host count w r'
      → Agree sys host count w r r'
  Handled-Agree h h' =
      let same : h.delivered ≡ h'.delivered = h.all reliable ∙ sym (h'.all reliable) in
      record {
        after = h.after;
        after' = h'.after;
        world = h.world;
        world' = h'.world;
        returned = h.returned;
        returned' = h'.returned;
        received_all = received h;
        received_eq = received h ∙ sym (received h');
        arrays_eq = h.arrays_eq ∙ sym h'.arrays_eq;
        packets_eq =
            h.packets_eq ∙ ap (λ ds. u64 (host.stats.packets + length ds)) same ∙ sym h'.packets_eq;
        bytes_eq =
            h.bytes_eq ∙ ap (λ ds. u64 (host.stats.bytes + total_length ds)) same ∙ sym h'.bytes_eq;
        drops_eq =
            h.drops_eq
            ∙ ap (λ ds. u64 (host.stats.drops + (count - length ds))) same
            ∙ sym h'.drops_eq;
      }

-- With a datagram socket that keeps to its contract and on which `write` never fails, and a batch that lies in the
-- buffers, `write_to_vm` does the same with the fast path as without it, whatever `sendmsg_x` sends or refuses: it
-- returns, the peer has received the whole batch, and the endpoints are equal but for the counts of system calls.
pub write_to_vm-Agree :
    (sys : VmSocket)
    → IsDatagramSocket sys
    → IsReliable sys
    → (host : Endpoint) (count : ℕ) → IsFilled host count
    → (w : sys.World)
    → Agree sys host count w
        (write_to_vm sys true host count w)
        (write_to_vm sys false host count w)
write_to_vm-Agree sys lawful reliable host count filled w =
    Handled-Agree sys reliable host count w
      (write_to_vm-Handled sys lawful host count filled w true)
      (write_to_vm-Handled sys lawful host count filled w false)

-- ===== src/System.antt =====
-- What the programs call of the operating system and of the vmnet framework, as a parameter: a
-- state, and operations that return a result and the next state.
use vmnet_helper.Prelude.{
  ℕ, ◌+◌, ◌≤◌, ◌<◌, ◌≡◌, refl, ◌⊎◌, inl, inr, List, [], ◌∷◌, ◌++◌, length, take,
}

-- The bytes of one packet.
abbrev pub Datagram : Type 0
Datagram = List ℕ

-- The result of a system call: a value, or -1 with this `errno`.
pub data Sys : Type 0 where
  ret : ℕ → Sys
  fail : ℕ → Sys

pub Sys-cases : (r : Sys) → ((n : ℕ) × (r ≡ ret n)) ⊎ ((errno : ℕ) × (r ≡ fail errno))
Sys-cases (ret n) = inl (n, refl)
Sys-cases (fail errno) = inr (errno, refl)

-- <sys/errno.h>
abbrev pub enobufs : ℕ
enobufs = 55

-- What can be observed of the calls that forward to the virtual machine: the packets that the next
-- reads of the vmnet interface return, up to the first read that returns none, the datagrams that
-- the peer can read, in order, and how often each call was made.
pub record Trace : Type 0 where
  pub incoming : List Datagram
  pub received : List Datagram
  pub bulk_calls : ℕ
  pub write_calls : ℕ
  pub sleeps : ℕ

-- The calls that send to the virtual machine over `options.fd`.
pub record VmSocket : Type 1 where
  pub World : Type 0
  -- `sendmsg_x(options.fd, msgs, cnt, 0)`, given the datagrams that the messages describe
  pub sendmsg_x : List Datagram → World → Sys × World
  -- `write(options.fd, base, size)`
  pub write : Datagram → World → Sys × World
  -- `nanosleep`, for this many nanoseconds
  pub nanosleep : ℕ → World → World
  -- An observation, which no call of the helper reads.
  pub trace : World → Trace

abbrev pub after_sendmsg_x : List Datagram → Sys → Trace → Trace
after_sendmsg_x ds (ret n) t = record t {
  received = t.received ++ take n ds;
  bulk_calls = t.bulk_calls + 1;
}
after_sendmsg_x ds (fail errno) t = record t { bulk_calls = t.bulk_calls + 1 }

abbrev pub after_write : Datagram → Sys → Trace → Trace
after_write d (ret n) t = record t {
  received = t.received ++ (d ∷ []);
  write_calls = t.write_calls + 1;
}
after_write d (fail errno) t = record t { write_calls = t.write_calls + 1 }

-- The documented behaviour of these calls on a connected unix datagram socket (socket_x.h for
-- `sendmsg_x`): a call that fails sends nothing, `sendmsg_x` sends the first datagrams, at least one
-- if it is given any, and `write` sends a datagram whole.
pub record IsDatagramSocket (sys : VmSocket) : Type 0 where
  pub trace-sendmsg_x :
      (ds : List Datagram) (w : sys.World)
      → sys.trace (sys.sendmsg_x ds w).1 ≡ after_sendmsg_x ds (sys.sendmsg_x ds w).0 (sys.trace w)
  pub sendmsg_x_range :
      (ds : List Datagram) (w : sys.World) (n : ℕ)
      → (sys.sendmsg_x ds w).0 ≡ ret n
      → 0 < length ds
      → (0 < n) × (n ≤ length ds)
  pub trace-write :
      (d : Datagram) (w : sys.World)
      → sys.trace (sys.write d w).1 ≡ after_write d (sys.write d w).0 (sys.trace w)
  pub write_whole :
      (d : Datagram) (w : sys.World) (n : ℕ) → (sys.write d w).0 ≡ ret n → n ≡ length d
  pub trace-nanosleep :
      (ns : ℕ) (w : sys.World)
      → sys.trace (sys.nanosleep ns w) ≡ record (sys.trace w) { sleeps = (sys.trace w).sleeps + 1 }

-- `vmnet_return_t`
pub data VmnetReturn : Type 0 where
  success failure mem_failure invalid_argument setup_incomplete invalid_access packet_too_big :
      VmnetReturn
  buffer_exhausted too_many_packets unknown_status : VmnetReturn

-- `write` never fails.
abbrev pub IsReliable : VmSocket → Type 0
IsReliable sys = (d : Datagram) (w : sys.World) → (n : ℕ) × ((sys.write d w).0 ≡ ret n)

-- ===== src/Helper/Socket.antt =====
-- `setup_socket` of programs/helper.c: the lock file, the socket, and the connection to the client.
pub mod Lock
pub mod Phases
pub mod Serving
pub mod Sharing
pub mod Exclusive
use vmnet_helper.Prelude.{
  ℕ, zero, suc, ◌*◌, Bool, true, false, not, ◌&&◌, List, [], ◌∷◌, Option, none, some, String, ◌<>◌,
  ltb, ◌==◌, if◌then◌else◌,
}
use vmnet_helper.System.{Sys, ret, fail}
use vmnet_helper.Process.{
  add_read, delete_read, Event, signal, readable, user, timer, Wait, failed, nothing, event,
  remove_socket_lockfile, remove_socket_silently, SysCall, kevent, asprintf, open_lock, remove,
  socket, set_send_buffer, set_receive_buffer, bind, chmod, recvfrom, connect, read, sys,
  kevent_wait, out_of_fuel, aborted,
}
use vmnet_helper.Common.{send_buffer_size, recv_buffer_size, recv_buffer_size_offload}
use vmnet_helper.Options.{Options}
use vmnet_helper.Helper.Globals.{
  Globals, M, pure, ◌>>=◌, ◌>>◌, exit, gets, modify, ask, checked, exit_unless, must, when,
  register,
}

-- <sys/errno.h>
abbrev pub enoent : ℕ
enoent = 2

abbrev pub lockfile_of : String → String
lockfile_of path = path <> ".lock"

-- `path` is `options.socket`.
unfoldable pub create_socket_lockfile : String → M (Unit {0})
create_socket_lockfile path = do
  must asprintf
  modify (λ g. record g { socket_lockfile = some (lockfile_of path) })
  must (open_lock (lockfile_of path))
  register remove_socket_lockfile

-- Failures are only logged.
unfoldable pub set_socket_buffers : ℕ → M (Unit {0})
set_socket_buffers fd = do
  _ ← ask (sys (set_send_buffer fd send_buffer_size))
  tso ← gets (λ g. g.options.enable_tso)
  _ ← ask (sys (set_receive_buffer fd (if tso then recv_buffer_size_offload else recv_buffer_size)))
  pure tt

-- `r < 0 && errno != ENOENT`
abbrev pub not_removed : Sys → Bool
not_removed (ret n) = false
not_removed (fail errno) = not (errno == enoent)

-- `strncpy` keeps the whole path, since `parse_socket` has checked its length.
unfoldable pub create_socket : String → M ℕ
unfolding set_socket_buffers
create_socket path = do
  fd ← checked socket
  modify (λ g. record g { options = record (g.options) { fd = some fd } })
  set_socket_buffers fd
  r ← ask (sys (remove path))
  exit_unless (not (not_removed r))
  must (bind fd path)
  must (chmod path)
  register remove_socket_silently
  pure fd

-- What a wait for the client does with an event: it ends the process, it ends the loop, or it waits again.
pub data Waited : Type 0 where
  leave : ℕ → Waited
  arrived : Waited
  again : Waited

abbrev pub client_event : Wait → Waited
client_event (failed errno) = leave 1
client_event nothing = again
client_event (event (signal n)) = leave 0
client_event (event readable) = arrived
client_event (event (user flags)) = again
client_event (event timer) = again

unfoldable pub after_wait : Waited → M (Unit {0}) → M (Unit {0})
after_wait (leave code) rest = exit code
after_wait arrived rest = pure tt
after_wait again rest = rest

-- The loop of `wait_for_client`, for this many rounds.
unfoldable pub wait_readable : ℕ → M (Unit {0})
wait_readable zero = λ g. out_of_fuel
wait_readable (suc fuel) = ask kevent_wait >>= λ w. after_wait (client_event w) (wait_readable fuel)

unfoldable pub wait_for_client : ℕ → ℕ → M (Unit {0})
unfolding wait_readable
wait_for_client fuel fd = do
  must (kevent (add_read fd ∷ []))
  wait_readable fuel
  must (kevent (delete_read fd ∷ []))

-- `recvfrom` peeks at the first datagram, and `connect` takes the address of its sender.
unfoldable pub connect_socket : ℕ → M (Unit {0})
connect_socket fd = do
  n ← checked (recvfrom fd)
  must (connect fd)
  when (ltb n 64) (must (read fd))

-- Without a socket path the C code would read a NULL pointer.
unfoldable pub serve_socket : ℕ → Option String → M (Unit {0})
unfolding create_socket_lockfile create_socket wait_for_client connect_socket
serve_socket fuel none = λ g. aborted
serve_socket fuel (some path) = do
  create_socket_lockfile path
  fd ← create_socket path
  wait_for_client fuel fd
  connect_socket fd

abbrev pub is_given : {A : Type 0} → Option A → Bool
is_given none = false
is_given (some a) = true

unfoldable pub setup_socket : ℕ → M (Unit {0})
unfolding serve_socket
setup_socket fuel = do
  o ← gets (λ g. g.options)
  if is_given o.fd then pure tt else serve_socket fuel o.socket

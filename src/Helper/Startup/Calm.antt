-- ===== src/Helper/Startup/Calm.antt =====
-- `main` of programs/helper.c under a protocol to which most of its calls do not matter: only what concerns the files,
-- the credentials and the handlers of the socket.
pub mod Walk
use vmnet_helper.Prelude.{
  ℕ, zero, suc, ◌≡◌, refl, sym, subst, ◌∙◌, ltb, Bool, true, false, List, [], ◌∷◌, Option, none,
  some, String, Outcome, done,
}
use vmnet_helper.System.{Sys, ret, fail, VmnetReturn}
use vmnet_helper.Process.{
  stop_host_interface, remove_socket_lockfile, remove_socket_silently, Description, SysCall,
  add_read, delete_read, kqueue, kevent, sigprocmask, atexit, open_lock, remove, set_send_buffer,
  set_receive_buffer, bind, chmod, recvfrom, connect, read, setgid, setuid, Call, sys, sysctl,
  geteuid, ignore_sigpipe, start_interface, start_with_network, connect_to_broker, send_request,
  create_network, kevent_wait, set_event_callback, dispatch_forwarding, calloc, read_clock,
}
use vmnet_helper.Process.Protocol.{Protocol, Obeys}
use vmnet_helper.Options.{Options, Uuid, is_set}
use vmnet_helper.Broker.{vmnet_broker_acquire_network}
use vmnet_helper.Helper.Globals.{
  Globals, M, pure, ◌>>=◌, ◌>>◌, exit, gets, ask, or_exit, checked, exit_unless, must, register,
}
use vmnet_helper.Helper.Discipline.{
  Assertion, CanExit, Keeps, Keeps->>=, Keeps->>, pure-Keeps, gets-Keeps, modify-Keeps, Keeps-of,
  Keeps-when, exit-Keeps, exit_unless-Keeps, when-Keeps,
}
use vmnet_helper.Helper.Socket.{
  Waited, leave, arrived, again, client_event, after_wait, wait_readable, wait_for_client,
  connect_socket, set_socket_buffers, setup_socket,
}
use vmnet_helper.Helper.Interface.{
  description, interface_started, start_described, start_interface_with_options,
  start_interface_with_network, or_exit_none, acquire_network_from_broker, start_interface_for,
  request, start_host_interface, start_forwarding_from_host, start_forwarding_from_vm,
}
use vmnet_helper.Helper.Events
use vmnet_helper.Helper.Events.{
  setup_kq, start_stats_timer, Next, finish, report, run_event, after_event, run_until_termination,
}
use vmnet_helper.Helper.Startup.{
  check_os_version, drop_root, drop_privileges, allocate_endpoint, setup_endpoints, main,
}

-- The calls that make or remove files, or that change the credentials or the handlers of the socket, are not calm.
abbrev pub is_calm : Call → Bool
is_calm (sys (open_lock p)) = false
is_calm (sys (remove p)) = false
is_calm (sys (bind fd p)) = false
is_calm (sys (chmod p)) = false
is_calm (sys (setgid n)) = false
is_calm (sys (setuid n)) = false
is_calm (sys (atexit remove_socket_lockfile)) = false
is_calm (sys (atexit remove_socket_silently)) = false
is_calm c = true

-- What the calm functions keep.
pub record IsCalm (t : Protocol) (P : Assertion t) : Type 0 where
  pub can : CanExit t P
  pub keeps : (c : Call) → is_calm c ≡ true → Keeps t P (ask c) P
  pub sets :
      (s : t.State) (g : Globals) (kq : Option ℕ) (status : ℕ) (interface : Bool) (size : ℕ)
      → P s g
      → P s (record g { kq = kq; status = status; interface = interface; max_packet_size = size })
  pub handles :
      (s : t.State) (g : Globals)
      → P s g
      → P s (record g { handlers = stop_host_interface ∷ g.handlers })

-- What holds, with the options.
abbrev pub With : (t : Protocol) → Assertion t → Options → Assertion t
With t P o s g = P s g × (g.options ≡ o)

pub With-IsCalm :
    {t : Protocol} {P : Assertion t} (o : Options) → IsCalm t P → IsCalm t (With t P o)
unfolding ask
With-IsCalm o c = record {
  can = λ s g p. c.can s g p.0;
  keeps = λ x e. record {
    obeys =
        λ s g p. let k = (c.keeps x e).obeys s g p.0 in (k.0, λ r possible. (k.1 r possible, p.1));
  };
  sets = λ s g kq status interface size p. (c.sets s g kq status interface size p.0, p.1);
  handles = λ s g p. (c.handles s g p.0, p.1);
}

module _ {t : Protocol} {P : Assertion t} (c : IsCalm t P) where
  abbrev pub Calm : {A : Type 0} → M A → Type 0
  Calm m = Keeps t P m P

  pub or_exit-Calm : (r : Sys) → Calm (or_exit r)
  unfolding or_exit
  or_exit-Calm (ret n) = pure-Keeps n
  or_exit-Calm (fail errno) = exit-Keeps 1 c.can

  pub checked-Calm : (x : SysCall) → is_calm (sys x) ≡ true → Calm (checked x)
  unfolding checked
  checked-Calm x e = Keeps->>= (c.keeps (sys x) e) or_exit-Calm

  pub must-Calm : (x : SysCall) → is_calm (sys x) ≡ true → Calm (must x)
  unfolding must
  must-Calm x e = Keeps->>= (checked-Calm x e) (λ n. pure-Keeps tt)

  pub gets-Calm :
      {A B : Type 0} (f : Globals → A) (k : A → M B) → ((a : A) → Calm (k a)) → Calm (gets f >>= k)
  gets-Calm f k rest = gets-Keeps (λ a. Keeps-of {P = P} (λ s g p. p.0) (rest a))

  pub unless-Calm : (b : Bool) → Calm (exit_unless b)
  unless-Calm b = exit_unless-Keeps b c.can

  pub check_os_version-Calm : Calm check_os_version
  unfolding check_os_version
  check_os_version-Calm =
      Keeps->>= (c.keeps sysctl refl) (λ text. gets-Calm _ _ (λ o. unless-Calm _))

  pub setup_kq-Calm : Calm setup_kq
  unfolding setup_kq
  setup_kq-Calm = Keeps->>= (checked-Calm kqueue refl) (λ fd.
      Keeps->>
        (modify-Keeps _ (λ s g p. c.sets s g (some fd) g.status g.interface g.max_packet_size p))
        (Keeps->> (must-Calm (sigprocmask _) refl)
          (Keeps->>= (c.keeps ignore_sigpipe refl) (λ _. must-Calm (kevent _) refl))))

  pub interface_started-Calm : (r : VmnetReturn × ℕ) → Calm (interface_started r)
  unfolding interface_started
  interface_started-Calm (status, size) =
      Keeps->> (unless-Calm _) (modify-Keeps _ (λ s g p. c.sets s g g.kq g.status true size p))

  or_exit_none-Calm : {A : Type 0} (a : Option A) → Calm (or_exit_none a)
  unfolding or_exit_none
  or_exit_none-Calm none = exit-Keeps 1 c.can
  or_exit_none-Calm (some a) = pure-Keeps a

  request-Calm : (name : String) → Calm (request name)
  unfolding request vmnet_broker_acquire_network ask
  request-Calm name = record {
    obeys = λ s g p.
        let first = (c.keeps connect_to_broker refl).obeys s g p in
        (first.0, λ r possible. (c.keeps (send_request name) refl).obeys _ g (first.1 r possible));
  }

  pub start_described-Calm :
      (u : Uuid → Bool) (m : Outcome Description)
      → (d : Description) × (m ≡ done d)
      → Calm (start_described u m)
  unfolding start_described
  start_described-Calm u m (d, e) =
      rw e (Keeps->>= (c.keeps (start_interface d) refl) interface_started-Calm)

  pub acquire-Calm : (name : String) → Calm (acquire_network_from_broker name)
  unfolding acquire_network_from_broker
  acquire-Calm name = Keeps->>= (request-Calm name) (λ a.
      Keeps->>= (or_exit_none-Calm a.serialization) (λ serialization.
        Keeps->>= (c.keeps (create_network serialization) refl) or_exit_none-Calm))

  pub start_with_network-Calm : (network : ℕ) → Calm (start_interface_with_network network)
  unfolding start_interface_with_network
  start_with_network-Calm network =
      gets-Calm _ _
        (λ o. Keeps->>= (c.keeps (start_with_network network _) refl) interface_started-Calm)

  pub set_socket_buffers-Calm : (fd : ℕ) → Calm (set_socket_buffers fd)
  unfolding set_socket_buffers
  set_socket_buffers-Calm fd = Keeps->>= (c.keeps (sys (set_send_buffer fd _)) refl) (λ _.
      gets-Calm _ _
        (λ tso. Keeps->>= (c.keeps (sys (set_receive_buffer fd _)) refl) (λ _. pure-Keeps tt)))

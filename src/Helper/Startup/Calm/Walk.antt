-- ===== src/Helper/Startup/Calm/Walk.antt =====
-- The order of `main` in programs/helper.c, under a protocol to which its calm calls do not matter.
use vmnet_helper.Prelude.{
  ℕ, zero, suc, ◌≡◌, refl, sym, subst, ◌∙◌, ltb, Bool, false, [], ◌∷◌, Option, none, some, String,
  done,
}
use vmnet_helper.Process.{
  stop_host_interface, Description, add_read, delete_read, kevent, atexit, recvfrom, connect, read,
  setgid, setuid, geteuid, kevent_wait, set_event_callback, dispatch_forwarding, calloc, read_clock,
}
use vmnet_helper.Process.Protocol.{Protocol}
use vmnet_helper.Options.{Options, Uuid, is_set}
use vmnet_helper.Helper.Globals.{M, ◌>>=◌, ◌>>◌, gets, ask, exit_unless, must, register}
use vmnet_helper.Helper.Discipline.{
  Assertion, Keeps, Keeps->>=, Keeps->>, pure-Keeps, gets-Keeps, modify-Keeps, Keeps-of, Keeps-when,
  exit-Keeps, when-Keeps,
}
use vmnet_helper.Helper.Socket.{
  Waited, leave, arrived, again, client_event, after_wait, wait_readable, wait_for_client,
  connect_socket, setup_socket,
}
use vmnet_helper.Helper.Interface.{
  description, start_interface_with_options, start_interface_for, start_host_interface,
  start_forwarding_from_host, start_forwarding_from_vm,
}
use vmnet_helper.Helper.Events
use vmnet_helper.Helper.Events.{
  setup_kq, start_stats_timer, Next, finish, report, reported, run_event, after_event,
  run_until_termination,
}
use vmnet_helper.Helper.Startup.{
  drop_root, drop_privileges, allocate_endpoint, setup_endpoints, main,
}
use vmnet_helper.Helper.Report.Line.{report_stats-eq}
use vmnet_helper.Helper.Startup.Calm.{
  IsCalm, With, With-IsCalm, Calm, checked-Calm, must-Calm, gets-Calm, unless-Calm,
  check_os_version-Calm, setup_kq-Calm, start_described-Calm, acquire-Calm, start_with_network-Calm,
}

-- Before the socket is set up: the options are known.
module _ {t : Protocol} {P : Assertion t} (calm : IsCalm t P) (o : Options) where
  abbrev Here : {A : Type 0} → M A → Type 0
  Here m = Calm (With-IsCalm o calm) m

  -- What reads the options and goes on with them.
  pub reads_options :
      {A : Type 0} {Q : Assertion t} (k : Options → M A)
      → Keeps t (With t P o) (k o) Q
      → Keeps t (With t P o) (gets (λ g. g.options) >>= k) Q
  reads_options {Q} k rest = gets-Keeps (λ o'.
      Keeps-when {X = o ≡ o'} (λ s g p. sym (p.0.1) ∙ p.1)
        (λ same.
          Keeps-of {P = With t P o} (λ s g p. p.0)
            (subst (λ x. Keeps t (With t P o) (k x) Q) same rest)))

  start_interface_for-Calm :
      (u : Uuid → Bool) (name : Option String)
      → (is_set name ≡ false → (d : Description) × (description u o ≡ done d))
      → Here (start_interface_for u name)
  unfolding start_interface_for start_interface_with_options
  start_interface_for-Calm u none fine =
      reads_options _ (start_described-Calm (With-IsCalm o calm) u (description u o) (fine refl))
  start_interface_for-Calm u (some name) fine =
      Keeps->>= (acquire-Calm (With-IsCalm o calm) name)
        (start_with_network-Calm (With-IsCalm o calm))

  start_host_interface-Calm :
      (u : Uuid → Bool)
      → (is_set o.network_name ≡ false → (d : Description) × (description u o ≡ done d))
      → Here (start_host_interface u)
  unfolding start_host_interface register
  start_host_interface-Calm u fine = reads_options _ (
      Keeps->> (start_interface_for-Calm u o.network_name fine) (
        Keeps->> (must-Calm (With-IsCalm o calm) (atexit stop_host_interface) refl)
          (modify-Keeps _ (λ s g p. (With-IsCalm o calm).handles s g p))))

-- After the socket is set up.
module _ {t : Protocol} {P : Assertion t} (calm : IsCalm t P) where
  pub after_wait-Calm :
      (w : Waited) (rest : M (Unit {0})) → Calm calm rest → Calm calm (after_wait w rest)
  unfolding after_wait
  after_wait-Calm (leave code) rest k = exit-Keeps code calm.can
  after_wait-Calm arrived rest k = pure-Keeps tt
  after_wait-Calm again rest k = k

  wait_readable-Calm : (fuel : ℕ) → Calm calm (wait_readable fuel)
  unfolding wait_readable
  wait_readable-Calm zero = record { obeys = λ s g p. tt }
  wait_readable-Calm (suc fuel) =
      Keeps->>= (calm.keeps kevent_wait refl)
        (λ w. after_wait-Calm (client_event w) (wait_readable fuel) (wait_readable-Calm fuel))

  pub wait_for_client-Calm : (fuel fd : ℕ) → Calm calm (wait_for_client fuel fd)
  unfolding wait_for_client
  wait_for_client-Calm fuel fd =
      Keeps->> (must-Calm calm (kevent (add_read fd ∷ [])) refl)
        (Keeps->> (wait_readable-Calm fuel) (must-Calm calm (kevent (delete_read fd ∷ [])) refl))

  pub connect_socket-Calm : (fd : ℕ) → Calm calm (connect_socket fd)
  unfolding connect_socket
  connect_socket-Calm fd = Keeps->>= (checked-Calm calm (recvfrom fd) refl) (λ n.
      Keeps->> (must-Calm calm (connect fd) refl)
        (when-Keeps (ltb n 64) (must-Calm calm (read fd) refl)))

  allocated :
      (count size : ℕ) {k : M (Unit {0})}
      → Calm calm k
      → Calm calm (ask (calloc count size) >>= λ b. exit_unless b >> k)
  allocated count size rest =
      Keeps->>= (calm.keeps (calloc count size) refl) (λ b. Keeps->> (unless-Calm calm b) rest)

  allocate_endpoint-Calm : (size : ℕ) → Calm calm (allocate_endpoint size)
  unfolding allocate_endpoint
  allocate_endpoint-Calm size = allocated _ _ (
      allocated _ _
        (allocated _ _ (Keeps->>= (calm.keeps (calloc _ _) refl) (λ b. unless-Calm calm b))))

  setup_endpoints-Calm : Calm calm setup_endpoints
  unfolding setup_endpoints
  setup_endpoints-Calm =
      gets-Calm calm _ _
        (λ size. Keeps->> (allocate_endpoint-Calm size) (allocate_endpoint-Calm size))

  start_forwarding_from_host-Calm : Calm calm start_forwarding_from_host
  unfolding start_forwarding_from_host
  start_forwarding_from_host-Calm =
      Keeps->>= (calm.keeps set_event_callback refl) (λ status. unless-Calm calm _)

  start_forwarding_from_vm-Calm : Calm calm start_forwarding_from_vm
  unfolding start_forwarding_from_vm
  start_forwarding_from_vm-Calm =
      Keeps->>= (calm.keeps dispatch_forwarding refl) (λ _. pure-Keeps tt)

  start_stats_timer-Calm : Calm calm start_stats_timer
  unfolding start_stats_timer
  start_stats_timer-Calm = gets-Calm calm _ _ (λ o. when-Keeps _ (must-Calm calm (kevent _) refl))

  after_event-Calm :
      (e : Next) (rest : M (Unit {0})) → Calm calm rest → Calm calm (after_event e rest)
  unfolding after_event reported
  after_event-Calm (finish flags) rest k =
      modify-Keeps _ (λ s g p. calm.sets s g g.kq _ g.interface g.max_packet_size p)
  after_event-Calm report rest k = Keeps->>= (calm.keeps read_clock refl) (λ c.
      rw
        (report_stats-eq c.date c.tv_nsec c.tm_gmtoff c.host c.vm c.date_length c.tv_nsec-lt
          c.tm_gmtoff-lt)
        k)
  after_event-Calm Events.again rest k = k

  run_until_termination-Calm : (fuel : ℕ) → Calm calm (run_until_termination fuel)
  unfolding run_until_termination
  run_until_termination-Calm zero = record { obeys = λ s g p. tt }
  run_until_termination-Calm (suc fuel) = Keeps->>= (calm.keeps kevent_wait refl) (λ w.
      after_event-Calm (run_event w) (run_until_termination fuel) (run_until_termination-Calm fuel))

-- The functions that change the credentials, if the protocol allows it.
pub drop_privileges-Calm :
    {t : Protocol} {P : Assertion t} (calm : IsCalm t P)
    → ((n : ℕ) → Calm calm (must (setgid n)))
    → ((n : ℕ) → Calm calm (must (setuid n)))
    → Calm calm drop_privileges
unfolding drop_privileges drop_root
drop_privileges-Calm calm group user = Keeps->>= (calm.keeps geteuid refl) (λ euid.
    when-Keeps _
      (gets-Calm calm _ _ (λ o. Keeps->> (when-Keeps _ (group o.gid)) (when-Keeps _ (user o.uid)))))

-- The whole of `main`, with what the protocol says of the privileges and of the socket.
module _ {t : Protocol} {P Q R : Assertion t} (first : IsCalm t P) (last : IsCalm t R)
    (u : Uuid → Bool) (o : Options) (fuel : ℕ) where
  pub main-Calm :
      (is_set o.network_name ≡ false → (d : Description) × (description u o ≡ done d))
      → Keeps t (With t P o) drop_privileges (With t Q o)
      → Keeps t (With t Q o) (setup_socket fuel) R
      → Keeps t (With t P o) (main u fuel) (λ s g. Unit)
  unfolding main
  main-Calm fine drop serve = Keeps->> (check_os_version-Calm (With-IsCalm o first)) (
      Keeps->> (setup_kq-Calm (With-IsCalm o first)) (
        Keeps->> (start_host_interface-Calm first o u fine) (
          Keeps->> drop (
            Keeps->> serve (
              Keeps->> (setup_endpoints-Calm last) (
                Keeps->> (start_forwarding_from_host-Calm last) (
                  Keeps->> (start_forwarding_from_vm-Calm last) (
                    Keeps->> (start_stats_timer-Calm last) (
                      Keeps->> (run_until_termination-Calm last fuel) (
                        gets-Keeps (λ status.
                          Keeps-of {P = R} (λ s g p. p.0) (exit-Keeps _ last.can))))))))))))

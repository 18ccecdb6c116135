-- ===== src/Helper/Socket/Serving.antt =====
-- `setup_socket` of programs/helper.c under `lock_protocol`.
use vmnet_helper.Prelude.{
  ℕ, ◌≡◌, refl, inl, sym, subst, ◌∙◌, Bool, true, false, List, [], ◌∷◌, some, String, if◌then◌else◌,
}
use vmnet_helper.System.{Sys, ret, fail}
use vmnet_helper.Process.{
  Handler, stop_host_interface, remove_socket_lockfile, remove_socket_silently, SysCall, atexit,
  asprintf, open_lock, remove, socket, bind, chmod, sys,
}
use vmnet_helper.Options.{Options}
use vmnet_helper.Helper.Globals.{Globals, pure, must, register}
use vmnet_helper.Helper.Discipline.{
  Assertion, Keeps, Keeps->>=, Keeps->>, pure-Keeps, gets-Keeps, modify-Keeps, Keeps-of, Keeps-to,
  Keeps-when, ask-Keeps, exit_unless-Keeps, must-Keeps,
}
use vmnet_helper.Helper.Socket.{
  lockfile_of, create_socket_lockfile, create_socket, serve_socket, is_given, setup_socket,
}
use vmnet_helper.Helper.Startup.Calm.{set_socket_buffers-Calm}
use vmnet_helper.Helper.Startup.Calm.Walk.{wait_for_client-Calm, connect_socket-Calm}
use vmnet_helper.Helper.Socket.Lock.{
  Phase, apart, held, Permits, after_sys, lock_protocol, Registered, Quiet, Linked,
  path-ne-lockfile_of,
}
use vmnet_helper.Helper.Socket.Phases.{At, must_quiet, At-CanExit, At-IsCalm, quiet_must, quiet}

module _ (path : String) where
  -- Before the lock is taken, no registered handler touches the files.
  apart-Quiet : (hs : List Handler) → Registered path apart hs → Quiet path hs
  apart-Quiet [] r = tt
  apart-Quiet (stop_host_interface ∷ hs) r = apart-Quiet hs r
  apart-Quiet (remove_socket_lockfile ∷ hs) r = cc (r.0)
  apart-Quiet (remove_socket_silently ∷ hs) r = cc (r.0)

  Quiet-Registered : (s : Phase) (hs : List Handler) → Quiet path hs → Registered path s hs
  Quiet-Registered s [] q = tt
  Quiet-Registered s (stop_host_interface ∷ hs) q = Quiet-Registered s hs q
  Quiet-Registered s (remove_socket_lockfile ∷ hs) q = absurd q
  Quiet-Registered s (remove_socket_silently ∷ hs) q = absurd q

  -- The lock file is open, and its handler is not registered yet.
  abbrev Opened : Assertion (lock_protocol path)
  Opened s g = At path held s g × Quiet path g.handlers

  opened : (s : Phase) (g : Globals) → At path apart s g → Opened held g
  opened s g p =
      let l = p.1 in
      let q = apart-Quiet g.handlers (subst (λ x. Registered path x g.handlers) p.0 l.registered) in
      (
        (
          refl,
          record {
            registered = Quiet-Registered held g.handlers q;
            lockfile = l.lockfile;
            socket = l.socket;
          },
        ),
        q,
      )

  create_socket_lockfile-Keeps :
      Keeps (lock_protocol path) (At path apart) (create_socket_lockfile path) (At path held)
  unfolding create_socket_lockfile register
  create_socket_lockfile-Keeps = Keeps->> (quiet_must path apart asprintf refl) (
      Keeps->> {Q = At path apart}
        (modify-Keeps _ (λ s g p.
          (p.0, record { registered = p.1.registered; lockfile = λ f e. cc; socket = p.1.socket })))
        (Keeps->> {Q = Opened}
          (must-Keeps (At path apart) (open_lock (lockfile_of path)) (λ s g p. (refl, p.0))
            (λ s g n p. opened s g p) (λ s g e p. p) (At-CanExit path apart))
          (Keeps->> (must_quiet path Opened (λ s g p. p.0.1) (atexit remove_socket_lockfile) refl) (
            modify-Keeps _ (λ s g p. (
              p.0.0,
              record {
                registered = (p.0.0, p.1);
                lockfile = p.0.1.lockfile;
                socket = p.0.1.socket;
              },
            ))))))

  kept_socket :
      (s : Phase) (g : Globals) (p : String) (r : Sys)
      → p ≡ path
      → At path held s g
      → At path held (after_sys path s (remove p) r) g
  kept_socket s g p r e a = rw (e, path-ne-lockfile_of path) a

  -- `bind` and `chmod` of the socket.
  on_socket :
      (c : SysCall)
      → ((s : Phase) → s ≡ held → Permits path s c)
      → ((s : Phase) (r : Sys) → after_sys path s c r ≡ s)
      → Keeps (lock_protocol path) (At path held) (must c) (At path held)
  on_socket c permitted stays =
      must-Keeps (At path held) c (λ s g p. permitted s p.0)
        (λ s g n p. subst (λ x. At path held x g) (sym (stays s (ret n))) p)
        (λ s g e p. subst (λ x. At path held x g) (sym (stays s (fail e))) p) (At-CanExit path held)

  register_socket :
      Keeps (lock_protocol path) (At path held) (register remove_socket_silently) (At path held)
  unfolding register
  register_socket = Keeps->> (quiet_must path held (atexit remove_socket_silently) refl) (
      modify-Keeps _ (λ s g p. (
        p.0,
        record { registered = (p.0, p.1.registered); lockfile = p.1.lockfile; socket = p.1.socket },
      )))

  create_socket-Keeps :
      Keeps (lock_protocol path) (At path held) (create_socket path) (At path held)
  unfolding create_socket register
  create_socket-Keeps = Keeps->>= (quiet path held socket refl) (λ fd.
      Keeps->> {Q = At path held}
        (modify-Keeps _ (λ s g p. (
          p.0,
          record { registered = p.1.registered; lockfile = p.1.lockfile; socket = p.1.socket },
        )))
        (Keeps->> (set_socket_buffers-Calm (At-IsCalm path held) fd) (
          Keeps->>= {Q = At path held}
            (ask-Keeps (sys (remove path)) (λ s g p. (inl refl, p.0))
              (λ s g r p _. kept_socket s g path r refl p))
            (λ r. Keeps->> (exit_unless-Keeps _ (At-CanExit path held)) (
              Keeps->> (on_socket (bind fd path) (λ s h. (refl, h)) (λ s r. refl)) (
                Keeps->> (on_socket (chmod path) (λ s h. (refl, h)) (λ s r. refl))
                  (Keeps->> register_socket (pure-Keeps fd))))))))

  serve_socket-Keeps :
      (fuel : ℕ)
      → Keeps (lock_protocol path) (At path apart) (serve_socket fuel (some path)) (At path held)
  unfolding serve_socket
  serve_socket-Keeps fuel = Keeps->> create_socket_lockfile-Keeps (
      Keeps->>= create_socket-Keeps (λ fd.
        Keeps->> (wait_for_client-Calm (At-IsCalm path held) fuel fd)
          (connect_socket-Calm (At-IsCalm path held) fd)))

  given_or_served :
      (o : Options) (fuel : ℕ) (given : Bool)
      → (given ≡ false → o.socket ≡ some path)
      → Keeps
          (lock_protocol path)
          (At path apart)
          (if given then pure tt else serve_socket fuel o.socket)
          (Linked path)
  given_or_served o fuel true h = Keeps-of (λ s g p. p.1) (pure-Keeps tt)
  given_or_served o fuel false h =
      rw (h refl) (Keeps-to {Q = At path held} (λ s g p. p.1) (serve_socket-Keeps fuel))

  -- With a descriptor of its own, the helper never touches the files.
  pub setup_socket-Keeps :
      (o : Options) (fuel : ℕ)
      → (is_given o.fd ≡ false → o.socket ≡ some path)
      → Keeps
          (lock_protocol path)
          (λ s g. At path apart s g × (g.options ≡ o))
          (setup_socket fuel)
          (Linked path)
  unfolding setup_socket
  setup_socket-Keeps o fuel given = gets-Keeps (λ o'.
      Keeps-when {X = o ≡ o'} (λ s g p. sym (p.0.1) ∙ p.1)
        (λ same.
          Keeps-of {P = At path apart} (λ s g p. p.0.0)
            (given_or_served o' fuel (is_given o'.fd)
              (subst (λ x. is_given x.fd ≡ false → x.socket ≡ some path) same given))))

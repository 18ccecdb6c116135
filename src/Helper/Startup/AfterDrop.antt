-- ===== src/Helper/Startup/AfterDrop.antt =====
-- Under `ownership`: `setup_socket` of programs/helper.c, after `drop_privileges`.
use vmnet_helper.Prelude.{
  ℕ, ◌≡◌, refl, sym, ap, subst, ◌∙◌, Bool, true, false, Option, some, String, if◌then◌else◌,
}
use vmnet_helper.System.{Sys, ret, fail}
use vmnet_helper.Process.{
  remove_socket_lockfile, remove_socket_silently, SysCall, atexit, asprintf, open_lock, remove,
  socket, bind, chmod, sys,
}
use vmnet_helper.Options.{Options}
use vmnet_helper.Helper.Globals.{M, pure, must, register}
use vmnet_helper.Helper.Discipline.{
  Keeps, Keeps->>=, Keeps->>, pure-Keeps, modify-Keeps, Keeps-of, exit_unless-Keeps, must-Keeps,
}
use vmnet_helper.Helper.Socket.{
  lockfile_of, create_socket_lockfile, create_socket, serve_socket, is_given, setup_socket,
}
use vmnet_helper.Helper.Startup.Privileges.{Credentials, MakesFiles, ownership, after_call}
use vmnet_helper.Helper.Startup.Ownership.{
  Stays, Same, Stays-CanExit, ask-Same, must-Same, Stays-IsCalm,
}
use vmnet_helper.Helper.Startup.Calm.{With, checked-Calm, set_socket_buffers-Calm}
use vmnet_helper.Helper.Startup.Calm.Walk.{reads_options, wait_for_client-Calm, connect_socket-Calm}

-- The process is the owner of its files.
module _ (owner : Credentials) where
  abbrev Owned : {A : Type 0} → M A → Type 0
  Owned m = Same owner owner m

  -- A call that makes a file.
  files :
      (c : SysCall)
      → ((r : Sys) → after_call owner (sys c) r ≡ owner)
      → MakesFiles owner owner (sys c)
      → Owned (must c)
  files c stays allowed =
      must-Keeps (Stays owner owner) c
        (λ x g p. subst (λ x. MakesFiles owner x (sys c)) (sym p) allowed)
        (λ x g n p. ap (λ x. after_call x (sys c) (ret n)) p ∙ stays (ret n))
        (λ x g e p. ap (λ x. after_call x (sys c) (fail e)) p ∙ stays (fail e))
        (Stays-CanExit owner owner)

  create_socket_lockfile-Owned : (path : String) → Owned (create_socket_lockfile path)
  unfolding create_socket_lockfile register
  create_socket_lockfile-Owned path = Keeps->> (must-Same owner owner asprintf refl) (
      Keeps->> (modify-Keeps _ (λ x g p. p)) (
        Keeps->> (files (open_lock (lockfile_of path)) (λ r. refl) refl) (
          Keeps->> (must-Same owner owner (atexit remove_socket_lockfile) refl)
            (modify-Keeps _ (λ x g p. p)))))

  create_socket-Owned : (path : String) → Owned (create_socket path)
  unfolding create_socket register
  create_socket-Owned path = Keeps->>= (checked-Calm (Stays-IsCalm owner owner) socket refl) (λ fd.
      Keeps->> (modify-Keeps _ (λ x g p. p)) (
        Keeps->> (set_socket_buffers-Calm (Stays-IsCalm owner owner) fd) (
          Keeps->>= (ask-Same owner owner (sys (remove path)) refl) (λ r.
            Keeps->> (exit_unless-Keeps _ (Stays-CanExit owner owner)) (
              Keeps->> (files (bind fd path) (λ r. refl) refl) (
                Keeps->> (files (chmod path) (λ r. refl) refl) (
                  Keeps->>
                    (Keeps->> (must-Same owner owner (atexit remove_socket_silently) refl)
                      (modify-Keeps _ (λ x g p. p)))
                    (pure-Keeps fd))))))))

  served :
      (fuel : ℕ) (given : Bool) (at : Option String)
      → (given ≡ false → (path : String) × (at ≡ some path))
      → Owned (if given then pure tt else serve_socket fuel at)
  unfolding serve_socket
  served fuel true at h = pure-Keeps tt
  served fuel false at h =
      let (path, e) = h refl in
      rw e (
        Keeps->> (create_socket_lockfile-Owned path) (
          Keeps->>= (create_socket-Owned path) (λ fd.
            Keeps->> (wait_for_client-Calm (Stays-IsCalm owner owner) fuel fd)
              (connect_socket-Calm (Stays-IsCalm owner owner) fd))))

  -- Without a descriptor, the options have a socket.
  pub setup_socket-Owned :
      (fuel : ℕ) (o : Options)
      → (is_given o.fd ≡ false → (path : String) × (o.socket ≡ some path))
      → Keeps
          (ownership owner)
          (With (ownership owner) (Stays owner owner) o)
          (setup_socket fuel)
          (Stays owner owner)
  unfolding setup_socket
  setup_socket-Owned fuel o h =
      reads_options (Stays-IsCalm owner owner) o _
        (Keeps-of {P = Stays owner owner} (λ x g p. p.0) (served fuel (is_given o.fd) o.socket h))

-- ===== src/Helper/Startup/Orderly.antt =====
-- `main` of programs/helper.c under `lock_protocol`.
use vmnet_helper.Prelude.{
  ℕ, ◌≡◌, ◌≢◌, ap, inl, inr, Option-cases, arith, refl, ◌∙◌, Bool, false, none, some, String,
}
use vmnet_helper.Process.{setgid, setuid}
use vmnet_helper.Process.Protocol.{Obeys}
use vmnet_helper.Helper.Discipline.{Keeps}
use vmnet_helper.Options.{Options, Uuid}
use vmnet_helper.Options.Valid.{Accepted}
use vmnet_helper.Helper.Socket.{is_given}
use vmnet_helper.Helper.Socket.Lock.{apart, lock_protocol}
use vmnet_helper.Helper.Socket.Phases.{At, must_quiet, At-IsCalm, Linked-IsCalm}
use vmnet_helper.Helper.Socket.Serving.{setup_socket-Keeps}
use vmnet_helper.Helper.Interface.Described.{description-entry}
use vmnet_helper.Helper.Startup.{drop_privileges, main, parsed_globals}
use vmnet_helper.Helper.Startup.Calm.{With, With-IsCalm}
use vmnet_helper.Helper.Startup.Calm.Walk.{drop_privileges-Calm, main-Calm}

drop_privileges-Keeps :
    (path : String) (o : Options)
    → Keeps
        (lock_protocol path)
        (With (lock_protocol path) (At path apart) o)
        drop_privileges
        (With (lock_protocol path) (At path apart) o)
drop_privileges-Keeps path o =
    drop_privileges-Calm (With-IsCalm o (At-IsCalm path apart))
      (λ n. must_quiet path _ (λ s g p. p.0.1) (setgid n) refl)
      (λ n. must_quiet path _ (λ s g p. p.0.1) (setuid n) refl)

-- Without a descriptor there is a socket.
pub socket_given : (o : Options) → Accepted o → is_given o.fd ≡ false → o.socket ≢ none
socket_given o a no_fd no_socket = ground (arith, a.together)

pub socket_at :
    (path : String) (o : Options)
    → Accepted o
    → ((p : String) → o.socket ≡ some p → p ≡ path)
    → is_given o.fd ≡ false
    → o.socket ≡ some path
socket_at path o a at no_fd = elim (Option-cases o.socket) [
  | inl none_given ↦ absurd (socket_given o a no_fd none_given)
  | inr (p, e) ↦ e ∙ ap some (at p e)
]

pub main-Obeys-lock_protocol :
    (u : Uuid → Bool) (path : String) (o : Options) (fuel : ℕ)
    → Accepted o
    → ((p : String) → o.socket ≡ some p → p ≡ path)
    → Obeys (lock_protocol path) (λ s r. Unit) apart (main u fuel (parsed_globals o))
main-Obeys-lock_protocol u path o fuel a at =
    (main-Calm (At-IsCalm path apart) (Linked-IsCalm path) u o fuel
        (λ own. let d = description-entry u o a own in (d.0, d.1)) (drop_privileges-Keeps path o)
        (setup_socket-Keeps path o fuel (socket_at path o a at))).obeys
      apart (parsed_globals o)
      ((refl, record { registered = tt; lockfile = λ p e. cc; socket = at }), refl)

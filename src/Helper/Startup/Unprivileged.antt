-- ===== src/Helper/Startup/Unprivileged.antt =====
-- `main` of programs/helper.c under `ownership`.
use vmnet_helper.Prelude.{ℕ, ◌≡◌, refl, Bool, false, Option, none, some, String}
use vmnet_helper.Process.Protocol.{Obeys}
use vmnet_helper.Options.{Options, Uuid}
use vmnet_helper.Options.Valid.{Accepted}
use vmnet_helper.Helper.Socket.{is_given}
use vmnet_helper.Helper.Interface.Described.{description-entry}
use vmnet_helper.Helper.Startup.{main, parsed_globals}
use vmnet_helper.Helper.Startup.Orderly.{socket_given}
use vmnet_helper.Helper.Startup.Privileges.{Credentials, ownership, dropped, drop_privileges-drops}
use vmnet_helper.Helper.Startup.Ownership.{Stays-IsCalm}
use vmnet_helper.Helper.Startup.AfterDrop.{setup_socket-Owned}
use vmnet_helper.Helper.Startup.Calm.Walk.{main-Calm}

socket_path :
    (o : Options) → Accepted o → is_given o.fd ≡ false → (path : String) × (o.socket ≡ some path)
socket_path o a no_fd = given o.socket refl
  where
    given : (at : Option String) → o.socket ≡ at → (path : String) × (o.socket ≡ some path)
    given none e = absurd (socket_given o a no_fd e)
    given (some path) e = (path, e)

-- Where only root may change its group and user, a helper with options that `parse_options` has accepted makes its
-- lock file and its socket, and sets the mode of the socket, only with the group and the user that `drop_privileges`
-- leaves, however the system replies.
pub main-Obeys-ownership :
    (u : Uuid → Bool) (o : Options) (s : Credentials) (fuel : ℕ)
    → Accepted o
    → Obeys (ownership (dropped o s)) (λ x r. Unit) s (main u fuel (parsed_globals o))
main-Obeys-ownership u o s fuel a =
    let owner = dropped o s in
    (main-Calm (Stays-IsCalm owner s) (Stays-IsCalm owner owner) u o fuel
        (λ own. let d = description-entry u o a own in (d.0, d.1)) (drop_privileges-drops owner o s)
        (setup_socket-Owned owner fuel o (socket_path o a))).obeys
      s (parsed_globals o) (refl, refl)

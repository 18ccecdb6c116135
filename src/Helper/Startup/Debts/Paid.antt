-- ===== src/Helper/Startup/Debts/Paid.antt =====
-- `main` of programs/helper.c under `cleanup`.
use vmnet_helper.Prelude.{◌≡◌, true, false, some, String}
use vmnet_helper.Process.{socket}
use vmnet_helper.Options.{Options}
use vmnet_helper.Helper.Globals.{Globals}
use vmnet_helper.Helper.Discipline.{Assertion}
use vmnet_helper.Helper.Socket.{lockfile_of}
use vmnet_helper.Helper.Startup.Debts.{Debts, cleanup, removes_lockfile}
use vmnet_helper.Helper.Startup.Debts.Covers.{Covers, Free}

module _ (path : String) where
  -- The lock file is in the globals, and so is the socket.
  abbrev Named : Globals → Type 0
  Named g = (g.socket_lockfile ≡ some (lockfile_of path)) × (g.options.socket ≡ some path)

  -- The handler of the lock file is registered, and that of the socket is not.
  abbrev Holding : Assertion (cleanup path)
  Holding s g = (s.socket ≡ false) × Named g × (removes_lockfile path g.handlers ≡ true)

  -- Before the handler of the lock file is registered.
  abbrev Unlocked : Assertion (cleanup path)
  Unlocked s g = Free path s g × Named g

  -- The lock file has been made, and its handler is not registered.
  abbrev Made : Assertion (cleanup path)
  Made s g = (s.socket ≡ false) × Named g

  -- Nothing is owed.
  abbrev Settled : Assertion (cleanup path)
  Settled s g = (s.lockfile ≡ false) × (s.socket ≡ false)

  -- The socket has been made, and its handler is not registered.
  abbrev Bound : Assertion (cleanup path)
  Bound s g = Named g × (removes_lockfile path g.handlers ≡ true)

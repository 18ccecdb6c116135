-- ===== src/Helper/Socket/Sharing.antt =====
-- Helpers that run at the same time on one socket path: their calls interleave in any order, and each may be
-- killed at any time.
use vmnet_helper.Prelude.{
  ℕ, ◌≡◌, Bool, true, false, Option, none, some, String, str_eq, ◌==◌, if◌then◌else◌,
}
use vmnet_helper.System.{ret, fail}
use vmnet_helper.Process.{open_lock, remove, Call, sys, Reply, Program, call, ended}
use vmnet_helper.Options.{Options, Uuid}
use vmnet_helper.Helper.Startup.{main, parsed_globals}
use vmnet_helper.Helper.Globals.{Globals}
use vmnet_helper.Helper.Socket.{lockfile_of}
use vmnet_helper.Helper.Socket.Lock.{Phase, apart, released, after}

-- The file at the path of the lock file, with the process that has locked it. A file that was removed cannot be
-- opened again.
pub data LockFile : Type 0 where
  absent : LockFile
  present : Option ℕ → LockFile

abbrev pub update {ℓ} : {A : Type ℓ} → (ℕ → A) → ℕ → A → ℕ → A
update f i a j = if j == i then a else f j

abbrev pub unlocked : LockFile → Bool
unlocked absent = true
unlocked (present none) = true
unlocked (present (some i)) = false

-- A process that ends gives up its lock.
abbrev pub without : ℕ → LockFile → LockFile
without i absent = absent
without i (present none) = present none
without i (present (some j)) = if j == i then present none else present (some j)

-- A helper's `main`, with its globals.
abbrev pub Run : Type 0
Run = Program (Unit {0} × Globals)

module _ (path : String) where
  -- How the system answers process `i`. `open` with `O_EXLOCK | O_NONBLOCK` opens the file at the path, or creates
  -- it, and locks it, in one step; it fails if the file is locked, and may fail for other reasons.
  abbrev pub Answers : ℕ → (c : Call) → Reply c → LockFile → LockFile → Type 0
  Answers i (sys (open_lock p)) (ret n) f f' = (unlocked f ≡ true) × (f' ≡ present (some i))
  Answers i (sys (open_lock p)) (fail e) f f' = f' ≡ f
  Answers i (sys (remove p)) (ret n) f f' = f' ≡ (if str_eq p (lockfile_of path) then absent else f)
  Answers i (sys (remove p)) (fail e) f f' = f' ≡ f
  Answers i _ r f f' = f' ≡ f

  -- Each process, with the phase that its calls have brought it to.
  pub record Helpers : Type 0 where
    pub file : LockFile
    pub program : ℕ → Run
    pub phase : ℕ → Phase

  pub data Step (s : Helpers) : Helpers → Type 0 where
    calls :
        (i : ℕ) (c : Call) (k : Reply c → Run) (r : Reply c) (file : LockFile)
        → s.program i ≡ call c k
        → Answers i c r s.file file
        → Step s (record {
          file = file;
          program = update s.program i (k r);
          phase = update s.phase i (after path (s.phase i) c r);
        })
    -- It has ended, or is killed; its files stay.
    dies :
        (i : ℕ)
        → Step s (record {
          file = without i s.file;
          program = update s.program i (ended 0);
          phase = update s.phase i released;
        })

  pub data Reach (s : Helpers) : Helpers → Type 0 where
    here : Reach s s
    next : {t u : Helpers} → Reach s t → Step t u → Reach s u

  -- Helpers that have not made a call yet, with any options that `parse_options` accepts.
  unfoldable pub starting : (Uuid → Bool) → (ℕ → Options) → (ℕ → ℕ) → LockFile → Helpers
  starting u options fuel file = record {
    file = file;
    program = λ i. main u (fuel i) (parsed_globals (options i));
    phase = λ i. apart;
  }

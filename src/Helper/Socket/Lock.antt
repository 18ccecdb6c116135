-- ===== src/Helper/Socket/Lock.antt =====
-- The discipline of the lock file of programs/helper.c, as a protocol: only who holds it may remove, bind and chmod the
-- socket, and remove both files.
use text.Mathlib.TextEquality.{eq_iff}
use text.Mathlib.TextPositions.{len-append}
use vmnet_helper.Prelude.{
  ◌+◌, ◌≡◌, refl, ap, ◌∙◌, ◌⊎◌, inl, inr, Bool, true, false, List, [], ◌∷◌, Option, none, some,
  String, len, str_eq, arith, if◌then◌else◌, Bool-cases,
}
use vmnet_helper.System.{Sys, ret, fail}
use vmnet_helper.Process
use vmnet_helper.Process.{
  Program, Handler, stop_host_interface, remove_socket_lockfile, remove_socket_silently, SysCall,
  open_lock, remove, bind, chmod, Call, sys, Reply,
}
use vmnet_helper.Process.Protocol.{Protocol, Obeys}
use vmnet_helper.Helper.Globals.{
  Globals, stop_interface_if, remove_lockfile, remove_socket, run_handler, run_handlers,
}
use vmnet_helper.Helper.Socket.{lockfile_of}

-- The lock file is not opened yet, held, or removed.
pub data Phase : Type 0 where
  apart : Phase
  held : Phase
  released : Phase

pub path-ne-lockfile_of : (path : String) → str_eq path (lockfile_of path) ≡ false
path-ne-lockfile_of path = elim (Bool-cases (str_eq path (lockfile_of path))) [
  | inl same ↦
      let e : len path ≡ len path + 5 =
        ap len ((eq_iff path (lockfile_of path)).0 same) ∙ len-append path ".lock" in
      absurd (omega (arith, e))
  | inr other ↦ other
]

-- The calls that the discipline is about.
abbrev pub touches_files : SysCall → Bool
touches_files (open_lock p) = true
touches_files (remove p) = true
touches_files (bind fd p) = true
touches_files (chmod p) = true
touches_files _ = false

module _ (path : String) where
  abbrev pub Permits : Phase → SysCall → Type 0
  Permits s (open_lock p) = (p ≡ lockfile_of path) × (s ≡ apart)
  Permits s (remove p) = ((p ≡ path) ⊎ (p ≡ lockfile_of path)) × (s ≡ held)
  Permits s (bind fd p) = (p ≡ path) × (s ≡ held)
  Permits s (chmod p) = (p ≡ path) × (s ≡ held)
  Permits s _ = Unit

  abbrev pub PermitsCall : Phase → Call → Type 0
  PermitsCall s (sys c) = Permits s c
  PermitsCall s _ = Unit

  abbrev pub after_sys : Phase → SysCall → Sys → Phase
  after_sys s (open_lock p) (ret n) = held
  after_sys s (open_lock p) (fail e) = s
  after_sys s (remove p) r = if str_eq p (lockfile_of path) then released else s
  after_sys s _ r = s

  abbrev pub after : Phase → (c : Call) → Reply c → Phase
  after s (sys c) r = after_sys s c r
  after s _ r = s

  abbrev pub lock_protocol : Protocol
  lock_protocol = record {
    State = Phase;
    Allowed = PermitsCall;
    Possible = λ s c r. Unit;
    next = after;
    Final = λ s. Unit;
  }

  pub other-Permits : (s : Phase) (c : SysCall) → touches_files c ≡ false → Permits s c
  other-Permits s (open_lock p) e = cc
  other-Permits s (remove p) e = cc
  other-Permits s (bind fd p) e = cc
  other-Permits s (chmod p) e = cc
  other-Permits s _ e = tt

  pub after_sys_other :
      (s : Phase) (c : SysCall) (r : Sys) → touches_files c ≡ false → after_sys s c r ≡ s
  after_sys_other s (open_lock p) r e = cc
  after_sys_other s (remove p) r e = cc
  after_sys_other s (bind fd p) r e = refl
  after_sys_other s (chmod p) r e = refl
  after_sys_other s _ r e = refl

  -- The handlers that a process may have registered in a phase.
  abbrev pub Quiet : List Handler → Type 0
  Quiet [] = Unit
  Quiet (stop_host_interface ∷ hs) = Quiet hs
  Quiet (remove_socket_lockfile ∷ hs) = ⊥
  Quiet (remove_socket_silently ∷ hs) = ⊥

  abbrev pub Registered : Phase → List Handler → Type 0
  Registered s [] = Unit
  Registered s (stop_host_interface ∷ hs) = Registered s hs
  Registered s (remove_socket_lockfile ∷ hs) = (s ≡ held) × Quiet hs
  Registered s (remove_socket_silently ∷ hs) = (s ≡ held) × Registered s hs

  -- What ties the globals to the phase.
  pub record Linked (s : Phase) (g : Globals) : Type 0 where
    pub registered : Registered s g.handlers
    pub lockfile : (p : String) → g.socket_lockfile ≡ some p → p ≡ lockfile_of path
    pub socket : (p : String) → g.options.socket ≡ some p → p ≡ path

  -- Stopping the interface does not touch the files.
  stop-Obeys :
      (b : Bool) (s : Phase) (g : Globals) (f : Globals → Program Globals)
      → Obeys lock_protocol (λ s' g'. Unit) s (f g)
      → Obeys lock_protocol (λ s' g'. Unit) s (Process.◌>>=◌ (stop_interface_if b g) f)
  unfolding stop_interface_if
  stop-Obeys true s g f h = (tt, λ r _. h)
  stop-Obeys false s g f h = h

  Quiet-Obeys :
      (hs : List Handler) (s : Phase) (g : Globals)
      → Quiet hs
      → Obeys lock_protocol (λ s' g'. Unit) s (run_handlers hs g)
  unfolding run_handlers run_handler
  Quiet-Obeys [] s g q = tt
  Quiet-Obeys (stop_host_interface ∷ hs) s g q =
      stop-Obeys g.interface s g (run_handlers hs) (Quiet-Obeys hs s g q)
  Quiet-Obeys (remove_socket_lockfile ∷ hs) s g q = absurd q
  Quiet-Obeys (remove_socket_silently ∷ hs) s g q = absurd q

  remove_lockfile-Obeys :
      (o : Option String) (hs : List Handler) (s : Phase) (g : Globals)
      → ((p : String) → o ≡ some p → p ≡ lockfile_of path)
      → s ≡ held
      → Quiet hs
      → Obeys lock_protocol
          (λ s' g'. Unit)
          s
          (Process.◌>>=◌ (remove_lockfile o g) (run_handlers hs))
  unfolding remove_lockfile
  remove_lockfile-Obeys none hs s g file h q = Quiet-Obeys hs s g q
  remove_lockfile-Obeys (some p) hs s g file h q =
      ((inr (file p refl), h), λ r _. Quiet-Obeys hs (after_sys s (remove p) r) _ q)

  remains :
      (p : String) (s : Phase)
      → p ≡ path
      → (if str_eq p (lockfile_of path) then released else s) ≡ s
  remains p s e = rw (e, path-ne-lockfile_of path) refl

  remove_socket-Obeys :
      (o : Option String) (hs : List Handler) (s : Phase) (g : Globals)
      → ((p : String) → o ≡ some p → p ≡ path)
      → s ≡ held
      → Obeys lock_protocol (λ s' g'. Unit) s (run_handlers hs g)
      → Obeys lock_protocol
          (λ s' g'. Unit)
          s
          (run_handlers hs (record g { options = record (g.options) { socket = none } }))
      → Obeys lock_protocol (λ s' g'. Unit) s (Process.◌>>=◌ (remove_socket o g) (run_handlers hs))
  unfolding remove_socket
  remove_socket-Obeys none hs s g sock h unchanged cleared = unchanged
  remove_socket-Obeys (some p) hs s g sock h unchanged cleared =
      ((inl (sock p refl), h), λ r _. rw (remains p s (sock p refl)) cleared)

  -- Whatever is registered in a phase can run in it.
  pub Registered-Obeys :
      (hs : List Handler) (s : Phase) (g : Globals)
      → Registered s hs
      → ((p : String) → g.socket_lockfile ≡ some p → p ≡ lockfile_of path)
      → ((p : String) → g.options.socket ≡ some p → p ≡ path)
      → Obeys lock_protocol (λ s' g'. Unit) s (run_handlers hs g)
  unfolding run_handlers run_handler
  Registered-Obeys [] s g q file sock = tt
  Registered-Obeys (stop_host_interface ∷ hs) s g q file sock =
      stop-Obeys g.interface s g (run_handlers hs) (Registered-Obeys hs s g q file sock)
  Registered-Obeys (remove_socket_lockfile ∷ hs) s g q file sock =
      remove_lockfile-Obeys g.socket_lockfile hs s g file q.0 q.1
  Registered-Obeys (remove_socket_silently ∷ hs) s g q file sock =
      remove_socket-Obeys g.options.socket hs s g sock q.0 (Registered-Obeys hs s g q.1 file sock) (
        Registered-Obeys hs s (record g { options = record (g.options) { socket = none } }) q.1 file
          (λ p e. cc))

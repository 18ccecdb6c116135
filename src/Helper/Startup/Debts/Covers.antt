-- ===== src/Helper/Startup/Debts/Covers.antt =====
-- Rules for the functions of programs/helper.c under `cleanup`.
use vmnet_helper.Prelude.{◌≡◌, refl, ap, ◌∙◌, Bool, true, false, String}
use vmnet_helper.System.{Sys, ret, fail}
use vmnet_helper.Process.{
  stop_host_interface, remove_socket_lockfile, remove_socket_silently, SysCall, atexit, open_lock,
  bind, chmod, remove, Call, sys, Reply,
}
use vmnet_helper.Helper.Globals.{Globals, must}
use vmnet_helper.Helper.Discipline.{Assertion, CanExit, Keeps, ask-Keeps, must-Keeps}
use vmnet_helper.Helper.Startup.Calm.{is_calm, IsCalm}
use vmnet_helper.Helper.Startup.Debts.{
  Debts, nothing_owed, after_sys, after, cleanup, Covered, Covered-Pays,
}

module _ (path : String) where
  -- The calls that owe and pay nothing.
  abbrev pub is_plain : SysCall → Bool
  is_plain (atexit remove_socket_lockfile) = false
  is_plain (atexit remove_socket_silently) = false
  is_plain (remove p) = false
  is_plain (open_lock p) = false
  is_plain (bind fd p) = false
  is_plain (chmod p) = false
  is_plain c = true

  plain_after : (s : Debts) (c : SysCall) (r : Sys) → is_plain c ≡ true → after_sys path s c r ≡ s
  plain_after s (atexit remove_socket_lockfile) r e = cc
  plain_after s (atexit remove_socket_silently) r e = cc
  plain_after s (remove p) r e = cc
  plain_after s (open_lock p) r e = cc
  plain_after s (bind fd p) r e = cc
  plain_after s (chmod p) r e = cc
  plain_after s (atexit stop_host_interface) (ret n) e = refl
  plain_after s (atexit stop_host_interface) (fail errno) e = refl
  plain_after s _ r e = refl

  calm_plain : (c : SysCall) → is_calm (sys c) ≡ true → is_plain c ≡ true
  calm_plain (atexit remove_socket_lockfile) e = e
  calm_plain (atexit remove_socket_silently) e = e
  calm_plain (atexit stop_host_interface) e = refl
  calm_plain (remove p) e = e
  calm_plain (open_lock p) e = e
  calm_plain (bind fd p) e = e
  calm_plain (chmod p) e = e
  calm_plain _ e = refl

  pub calm_after : (s : Debts) (c : Call) (r : Reply c) → is_calm c ≡ true → after path s c r ≡ s
  calm_after s (sys c) r e = plain_after s c r (calm_plain c e)
  calm_after s _ r e = refl

  -- A call that owes and pays nothing keeps what holds.
  module _ (P : Assertion (cleanup path)) (can : CanExit (cleanup path) P) where
    pub must_plain : (c : SysCall) → is_plain c ≡ true → Keeps (cleanup path) P (must c) P
    must_plain c e =
        must-Keeps P c (λ s g p. tt) (λ s g n p. rw (plain_after s c (ret n) e) p)
          (λ s g errno p. rw (plain_after s c (fail errno) e) p) can

  -- Whatever is registered covers what is owed.
  abbrev pub Covers : Assertion (cleanup path)
  Covers s g = Covered path s g.handlers g.socket_lockfile g.options.socket

  pub Covers-CanExit : CanExit (cleanup path) Covers
  Covers-CanExit s g c = Covered-Pays path g.handlers s g c

  pub Covers-IsCalm : IsCalm (cleanup path) Covers
  Covers-IsCalm = record {
    can = Covers-CanExit;
    keeps = λ c e. ask-Keeps c (λ s g p. tt) (λ s g r p _. rw (calm_after s c r e) p);
    sets = λ s g kq status interface size c. c;
    handles = λ s g c. record { lockfile_known = c.lockfile_known; socket_known = c.socket_known };
  }

  -- Nothing is owed.
  abbrev pub Free : Assertion (cleanup path)
  Free s g = s ≡ nothing_owed

  pub free : (s : Debts) (g : Globals) → Free s g → Covers s g
  free s g e = record {
    lockfile_known = λ owed. absurd (cc (ap (λ (s : Debts). s.lockfile) e, owed));
    socket_known = λ owed. absurd (cc (ap (λ (s : Debts). s.socket) e, owed));
  }

  pub Free-IsCalm : IsCalm (cleanup path) Free
  Free-IsCalm = record {
    can = λ s g e. Covers-CanExit s g (free s g e);
    keeps = λ c e. ask-Keeps c (λ s g p. tt) (λ s g r p _. calm_after s c r e ∙ p);
    sets = λ s g kq status interface size e. e;
    handles = λ s g e. e;
  }

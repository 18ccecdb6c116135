-- ===== src/Helper/Socket/Phases.antt =====
-- Rules for the functions of programs/helper.c under `lock_protocol`.
use vmnet_helper.Prelude.{◌≡◌, refl, sym, subst, true, false, String}
use vmnet_helper.System.{ret, fail}
use vmnet_helper.Process.{SysCall, open_lock, remove, bind, chmod, Call, sys, Reply}
use vmnet_helper.Helper.Globals.{Globals, ask, checked, must}
use vmnet_helper.Helper.Discipline.{Assertion, CanExit, Keeps, ask-Keeps, checked-Keeps, must-Keeps}
use vmnet_helper.Helper.Startup.Calm.{is_calm, IsCalm}
use vmnet_helper.Helper.Socket.Lock.{
  PermitsCall, after, Phase, lock_protocol, touches_files, other-Permits, after_sys_other, Linked,
  Registered-Obeys,
}

module _ (path : String) where
  abbrev pub At : Phase → Assertion (lock_protocol path)
  At ph s g = (s ≡ ph) × Linked path s g

  pub Linked-CanExit : CanExit (lock_protocol path) (Linked path)
  Linked-CanExit s g l = Registered-Obeys path g.handlers s g l.registered l.lockfile l.socket

  pub CanExit-of :
      (P : Assertion (lock_protocol path))
      → ((s : Phase) (g : Globals) → P s g → Linked path s g)
      → CanExit (lock_protocol path) P
  CanExit-of P linked s g p = Linked-CanExit s g (linked s g p)

  -- A call that has nothing to do with the files keeps what holds.
  module _ (P : Assertion (lock_protocol path))
      (linked : (s : Phase) (g : Globals) → P s g → Linked path s g) where
    pub ask_quiet :
        (c : SysCall) → touches_files c ≡ false → Keeps (lock_protocol path) P (ask (sys c)) P
    ask_quiet c q =
        ask-Keeps (sys c) (λ s g p. other-Permits path s c q)
          (λ s g r p _. subst (λ x. P x g) (sym (after_sys_other path s c r q)) p)

    pub must_quiet :
        (c : SysCall) → touches_files c ≡ false → Keeps (lock_protocol path) P (must c) P
    must_quiet c q =
        must-Keeps P c (λ s g p. other-Permits path s c q)
          (λ s g n p. subst (λ x. P x g) (sym (after_sys_other path s c (ret n) q)) p)
          (λ s g e p. subst (λ x. P x g) (sym (after_sys_other path s c (fail e) q)) p)
          (CanExit-of P linked)

    pub checked_quiet :
        (c : SysCall) → touches_files c ≡ false → Keeps (lock_protocol path) P (checked c) P
    checked_quiet c q =
        checked-Keeps P c (λ s g p. other-Permits path s c q)
          (λ s g n p. subst (λ x. P x g) (sym (after_sys_other path s c (ret n) q)) p)
          (λ s g e p. subst (λ x. P x g) (sym (after_sys_other path s c (fail e) q)) p)
          (CanExit-of P linked)

  pub At-CanExit : (ph : Phase) → CanExit (lock_protocol path) (At ph)
  At-CanExit ph = CanExit-of (At ph) (λ s g p. p.1)

  calm_touches : (c : SysCall) → is_calm (sys c) ≡ true → touches_files c ≡ false
  calm_touches (open_lock p) e = cc
  calm_touches (remove p) e = cc
  calm_touches (bind fd p) e = cc
  calm_touches (chmod p) e = cc
  calm_touches _ e = refl

  calm-Permits : (s : Phase) (c : Call) → is_calm c ≡ true → PermitsCall path s c
  calm-Permits s (sys c) e = other-Permits path s c (calm_touches c e)
  calm-Permits s _ e = tt

  calm_after : (s : Phase) (c : Call) (r : Reply c) → is_calm c ≡ true → after path s c r ≡ s
  calm_after s (sys c) r e = after_sys_other path s c r (calm_touches c e)
  calm_after s _ r e = refl

  pub At-IsCalm : (ph : Phase) → IsCalm (lock_protocol path) (At ph)
  At-IsCalm ph = record {
    can = At-CanExit ph;
    keeps = λ c e.
        ask-Keeps c (λ s g p. calm-Permits s c e)
          (λ s g r p _. subst (λ x. At ph x g) (sym (calm_after s c r e)) p);
    sets = λ s g kq status interface size p.
        (p.0, record { registered = p.1.registered; lockfile = p.1.lockfile; socket = p.1.socket });
    handles = λ s g p.
        (p.0, record { registered = p.1.registered; lockfile = p.1.lockfile; socket = p.1.socket });
  }

  pub Linked-IsCalm : IsCalm (lock_protocol path) (Linked path)
  Linked-IsCalm = record {
    can = Linked-CanExit;
    keeps = λ c e.
        ask-Keeps c (λ s g p. calm-Permits s c e)
          (λ s g r p _. subst (λ x. Linked path x g) (sym (calm_after s c r e)) p);
    sets = λ s g kq status interface size l. record {
      registered = l.registered;
      lockfile = l.lockfile;
      socket = l.socket;
    };
    handles =
        λ s g l. record { registered = l.registered; lockfile = l.lockfile; socket = l.socket };
  }

  pub quiet_must :
      (ph : Phase) (c : SysCall)
      → touches_files c ≡ false
      → Keeps (lock_protocol path) (At ph) (must c) (At ph)
  quiet_must ph c q = must_quiet (At ph) (λ s g p. p.1) c q

  pub quiet :
      (ph : Phase) (c : SysCall)
      → touches_files c ≡ false
      → Keeps (lock_protocol path) (At ph) (checked c) (At ph)
  quiet ph c q = checked_quiet (At ph) (λ s g p. p.1) c q

-- ===== src/Helper/Startup/Ownership.antt =====
-- What changes no credentials in programs/helper.c, under `ownership`.
use vmnet_helper.Prelude.{◌≡◌, refl, ◌∙◌, Bool, true, false}
use vmnet_helper.System.{ret, fail}
use vmnet_helper.Process.{SysCall, setgid, setuid, open_lock, bind, chmod, Call, sys, Reply}
use vmnet_helper.Helper.Globals.{M, ask, must}
use vmnet_helper.Helper.Discipline.{
  Assertion, CanExit, handlers-Obeys, Keeps, ask-Keeps, must-Keeps,
}
use vmnet_helper.Helper.Startup.Calm.{is_calm, IsCalm}
use vmnet_helper.Helper.Startup.Privileges.{Credentials, MakesFiles, ownership, after_call}

-- A call that makes no file and changes no credentials.
abbrev pub is_quiet : Call → Bool
is_quiet (sys (open_lock p)) = false
is_quiet (sys (bind fd p)) = false
is_quiet (sys (chmod p)) = false
is_quiet (sys (setgid n)) = false
is_quiet (sys (setuid n)) = false
is_quiet c = true

is_calm-is_quiet : (c : Call) → is_calm c ≡ true → is_quiet c ≡ true
is_calm-is_quiet (sys (open_lock p)) e = e
is_calm-is_quiet (sys (bind fd p)) e = e
is_calm-is_quiet (sys (chmod p)) e = e
is_calm-is_quiet (sys (setgid n)) e = e
is_calm-is_quiet (sys (setuid n)) e = e
is_calm-is_quiet _ e = refl

module _ (owner s : Credentials) where
  -- The credentials are `s`.
  abbrev pub Stays : Assertion (ownership owner)
  Stays x g = x ≡ s

  abbrev pub Same : {A : Type 0} → M A → Type 0
  Same m = Keeps (ownership owner) Stays m Stays

  quiet_allowed : (c : Call) → is_quiet c ≡ true → (x : Credentials) → MakesFiles owner x c
  quiet_allowed (sys (open_lock p)) q x = cc
  quiet_allowed (sys (bind fd p)) q x = cc
  quiet_allowed (sys (chmod p)) q x = cc
  quiet_allowed (sys (setgid n)) q x = cc
  quiet_allowed (sys (setuid n)) q x = cc
  quiet_allowed _ q x = tt

  quiet_next :
      (c : Call) → is_quiet c ≡ true → (x : Credentials) (r : Reply c) → after_call x c r ≡ x
  quiet_next (sys (setgid n)) q x r = cc
  quiet_next (sys (setuid n)) q x r = cc
  quiet_next _ q x r = refl

  pub Stays-CanExit : CanExit (ownership owner) Stays
  Stays-CanExit x g p =
      handlers-Obeys (ownership owner) (λ s f. tt) (λ s. tt) (λ s. tt) g.handlers x g

  pub ask-Same : (c : Call) → is_quiet c ≡ true → Same (ask c)
  ask-Same c q = ask-Keeps c (λ x g p. quiet_allowed c q x) (λ x g r p _. quiet_next c q x r ∙ p)

  pub must-Same : (c : SysCall) → is_quiet (sys c) ≡ true → Same (must c)
  must-Same c q =
      must-Keeps Stays c (λ x g p. quiet_allowed (sys c) q x)
        (λ x g n p. quiet_next (sys c) q x (ret n) ∙ p)
        (λ x g e p. quiet_next (sys c) q x (fail e) ∙ p) Stays-CanExit

  pub Stays-IsCalm : IsCalm (ownership owner) Stays
  Stays-IsCalm = record {
    can = Stays-CanExit;
    keeps = λ c e. ask-Same c (is_calm-is_quiet c e);
    sets = λ x g kq status interface size p. p;
    handles = λ x g p. p;
  }

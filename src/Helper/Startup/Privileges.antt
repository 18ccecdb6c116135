-- ===== src/Helper/Startup/Privileges.antt =====
-- `drop_privileges` of programs/helper.c, in a system where only root changes its group and user.
use vmnet_helper.Prelude.{
  ℕ, ◌≡◌, sym, subst, ◌∙◌, ap, true, false, not, arith, ◌==◌, if◌then◌else◌, Bool-cases, inl, inr,
  ◌⊎◌,
}
use vmnet_helper.System.{Sys, ret}
use vmnet_helper.Process.{
  SysCall, open_lock, bind, chmod, setgid, setuid, Call, sys, geteuid, Reply,
}
use vmnet_helper.Process.Protocol.{Protocol}
use vmnet_helper.Options.{Options}
use vmnet_helper.Helper.Globals.{must, when, ◌>>◌}
use vmnet_helper.Helper.Discipline.{
  Assertion, CanExit, handlers-Obeys, Keeps, Keeps->>, pure-Keeps, gets-Keeps, Keeps-of, Keeps-when,
  ask-then-Keeps, must-Keeps,
}
use vmnet_helper.Helper.Startup.{drop_root, drop_privileges}

-- The effective user and group.
pub record Credentials : Type 0 where
  pub uid : ℕ
  pub gid : ℕ

abbrev pub credentials_after : Credentials → SysCall → Sys → Credentials
credentials_after s (setgid n) (ret m) = record s { gid = n }
credentials_after s (setuid n) (ret m) = record s { uid = n }
credentials_after s c r = s

-- `setgid` and `setuid` are called by root only.
abbrev pub RootOnly : Credentials → Call → Type 0
RootOnly s (sys (setgid n)) = s.uid ≡ 0
RootOnly s (sys (setuid n)) = s.uid ≡ 0
RootOnly s _ = Unit

abbrev pub Truthful : (s : Credentials) (c : Call) → Reply c → Type 0
Truthful s geteuid r = r ≡ s.uid
Truthful s _ r = Unit

abbrev pub after_call : Credentials → (c : Call) → Reply c → Credentials
after_call s (sys c) r = credentials_after s c r
after_call s _ r = s

-- Files are made by `owner` only.
abbrev pub MakesFiles : Credentials → Credentials → Call → Type 0
MakesFiles owner s (sys (open_lock p)) = s ≡ owner
MakesFiles owner s (sys (bind fd p)) = s ≡ owner
MakesFiles owner s (sys (chmod p)) = s ≡ owner
MakesFiles owner s c = RootOnly s c

abbrev pub ownership : Credentials → Protocol
ownership owner = record {
  State = Credentials;
  Allowed = MakesFiles owner;
  Possible = Truthful;
  next = after_call;
  Final = λ s. Unit;
}

-- What root is to become. An id of 0 is not given.
abbrev pub given_or : ℕ → ℕ → ℕ
given_or new old = if new == 0 then old else new

abbrev pub dropped : Options → Credentials → Credentials
dropped o s =
    if s.uid == 0 then record { uid = given_or o.uid s.uid; gid = given_or o.gid s.gid } else s

module _ (owner : Credentials) where
  abbrev Has : Options → Credentials → Assertion (ownership owner)
  Has o s x g = (x ≡ s) × (g.options ≡ o)

  Has-CanExit : (o : Options) (s : Credentials) → CanExit (ownership owner) (Has o s)
  Has-CanExit o s x g p =
      handlers-Obeys (ownership owner) (λ s f. tt) (λ s. tt) (λ s. tt) g.handlers x g

  change_group :
      (o : Options) (s : Credentials) (n : ℕ)
      → s.uid ≡ 0
      → Keeps
          (ownership owner)
          (Has o s)
          (when (not (n == 0)) (must (setgid n)))
          (Has o (record s { gid = given_or n s.gid }))
  unfolding when
  change_group o s n root = elim (Bool-cases (n == 0)) [
    | inl zero_given ↦ rw zero_given (pure-Keeps tt)
    | inr given ↦ rw given (
        must-Keeps (Has o s) (setgid n) (λ x g p. ap (λ c. c.uid) p.0 ∙ root)
          (λ x g m p. (ap (λ (c : Credentials). record c { gid = n }) p.0, p.1)) (λ x g e p. p)
          (Has-CanExit o s))
  ]

  change_user :
      (o : Options) (s : Credentials) (n : ℕ)
      → s.uid ≡ 0
      → Keeps
          (ownership owner)
          (Has o s)
          (when (not (n == 0)) (must (setuid n)))
          (Has o (record s { uid = given_or n s.uid }))
  unfolding when
  change_user o s n root = elim (Bool-cases (n == 0)) [
    | inl zero_given ↦ rw zero_given (pure-Keeps tt)
    | inr given ↦ rw given (
        must-Keeps (Has o s) (setuid n) (λ x g p. ap (λ c. c.uid) p.0 ∙ root)
          (λ x g m p. (ap (λ (c : Credentials). record c { uid = n }) p.0, p.1)) (λ x g e p. p)
          (Has-CanExit o s))
  ]

  drop_root-drops :
      (o : Options) (s : Credentials)
      → s.uid ≡ 0
      → Keeps
          (ownership owner)
          (Has o s)
          drop_root
          (Has o (record { uid = given_or o.uid s.uid; gid = given_or o.gid s.gid }))
  unfolding drop_root
  drop_root-drops o s root = gets-Keeps (λ o'.
      Keeps-when {X = o ≡ o'} (λ x g p. sym (p.0.1) ∙ p.1)
        (λ same.
          Keeps-of {P = Has o s} (λ x g p. p.0)
            (subst
              (λ y.
                Keeps (ownership owner) (Has o s)
                  (when (not (y.gid == 0)) (must (setgid y.gid))
                    >> when (not (y.uid == 0)) (must (setuid y.uid)))
                  (Has o (record { uid = given_or o.uid s.uid; gid = given_or o.gid s.gid })))
              same
              (Keeps->> (change_group o s o.gid root)
                (change_user o (record s { gid = given_or o.gid s.gid }) o.uid root)))))

  when_root :
      (o : Options) (s : Credentials)
      → s.uid ≡ 0
      → Keeps
          (ownership owner)
          (Has o s)
          (when true drop_root)
          (Has o (record { uid = given_or o.uid s.uid; gid = given_or o.gid s.gid }))
  unfolding when
  when_root o s root = drop_root-drops o s root

  when_other :
      (o : Options) (s : Credentials)
      → Keeps (ownership owner) (Has o s) (when false drop_root) (Has o s)
  unfolding when
  when_other o s = pure-Keeps tt

  -- In a system where only root may change its group and user, `drop_privileges` makes only calls that are allowed,
  -- whoever the owner of the files is. When it returns, a process that ran as root has the group and the user of the options, each where it is not 0, and
  -- any other process has what it had.
  pub drop_privileges-drops :
      (o : Options) (s : Credentials)
      → Keeps
          (ownership owner)
          (λ x g. (x ≡ s) × (g.options ≡ o))
          drop_privileges
          (λ x g. (x ≡ dropped o s) × (g.options ≡ o))
  unfolding drop_privileges
  drop_privileges-drops o s =
      ask-then-Keeps geteuid (λ r x g. Has o s x g × (r ≡ s.uid)) (λ x g p. tt)
        (λ x g r p truth. (p, truth ∙ ap (λ (c : Credentials). c.uid) p.0))
        (λ r.
          Keeps-when {X = r ≡ s.uid} (λ x g p. p.1)
            (λ e. Keeps-of {P = Has o s} (λ x g p. p.0) (if_root r e (Bool-cases (r == 0)))))
    where
      if_root :
          (r : ℕ)
          → r ≡ s.uid
          → ((r == 0) ≡ true) ⊎ ((r == 0) ≡ false)
          → Keeps (ownership owner) (Has o s) (when (r == 0) drop_root) (Has o (dropped o s))
      if_root r e (inl root) = rw root (
          let is_root : s.uid ≡ 0 = ground (arith, e, root) in
          subst (λ c. Keeps (ownership owner) (Has o s) (when true drop_root) (Has o c))
            (ground (arith, is_root)) (when_root o s is_root))
      if_root r e (inr other) = rw other (
          let same : s ≡ dropped o s = ground (arith, e, other) in
          subst (λ c. Keeps (ownership owner) (Has o s) (when false drop_root) (Has o c)) same
            (when_other o s))

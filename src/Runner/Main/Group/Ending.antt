-- ===== src/Runner/Main/Group/Ending.antt =====
-- `exit` of programs/run.c under `group_protocol`, and the calls that change nothing for the group.
use vmnet_helper.Prelude.{
  ℕ, zero, suc, ◌≡◌, refl, ap, ◌∙◌, Bool, true, false, inl, inr, ◌==◌, Bool-cases,
}
use vmnet_helper.System.{Sys, ret, fail}
use vmnet_helper.Behaviour.Protocol.{Obeys}
use vmnet_helper.Runner.Calls.{SysCall, Call, sys, Reply}
use vmnet_helper.Runner.Globals.{
  Globals, pure, ◌>>=◌, wait_children, is_pid, refused, terminate_process_group, run_handlers, ask,
  must,
}
use vmnet_helper.Runner.Main.Discipline.{Assertion, CanExit, Keeps, ask-Keeps, must-Keeps}
use vmnet_helper.Runner.Main.Group.{
  group_after_wait, signalled, Life, after, Permits, IsOver, group_protocol, newborn,
}

-- No process can have been started yet.
abbrev pub Early : Life → Assertion group_protocol 0
Early x s g = (s ≡ x) × (x.registered ≡ false) × (g.registered ≡ false)

-- The handler is registered, and processes may be started.
pub record IsReady (s : Life) (g : Globals) : Type 0 where
  pub catches_term : s.catches_term ≡ true
  pub catches_int : s.catches_int ≡ true
  pub leads : s.leads ≡ true
  pub registered : s.registered ≡ true
  pub known : g.registered ≡ true

group_after_wait-IsOver : (s : Life) (r : Sys) → IsOver (record s { group = group_after_wait r })
group_after_wait-IsOver s (ret n) = inr (inr (inr refl))
group_after_wait-IsOver s (fail errno) = elim (Bool-cases (errno == 10)) [
  | inl no_child ↦ rw no_child (inr (inl refl))
  | inr other ↦ rw other (inr (inr (inr refl)))
]

-- After `killpg` has signalled the group, the loop leaves no child or fails.
wait_children-Obeys :
    (fuel : ℕ) (s : Life) (g : Globals)
    → s.group ≡ signalled
    → Obeys group_protocol (λ s' r. IsOver s') s (wait_children fuel g)
unfolding wait_children ◌>>=◌ ask pure
wait_children-Obeys zero s g h = tt
wait_children-Obeys (suc fuel) s g h = (
  h,
  λ r _. elim (Bool-cases (is_pid r)) [
    | inl one_more ↦ rw one_more (wait_children-Obeys fuel s g h)
    | inr last ↦ rw last (group_after_wait-IsOver s r)
  ],
)

terminate_process_group-Obeys :
    (fuel : ℕ) (s : Life) (g : Globals)
    → s.leads ≡ true
    → Obeys group_protocol (λ s' r. IsOver s') s (terminate_process_group fuel g)
unfolding terminate_process_group ◌>>=◌ ask pure
terminate_process_group-Obeys fuel s g leads = (
  tt,
  λ _ _. (
    (leads, refl),
    λ r _. elim (Bool-cases (refused r)) [
      | inl refusal ↦ rw refusal (inr (inr (inl refl)))
      | inr signal_sent ↦ rw signal_sent (wait_children-Obeys fuel _ g refl)
    ],
  ),
)

-- Ending the process, with the handler registered or not.
run_handlers-Obeys :
    (fuel : ℕ) (b : Bool) (s : Life) (g : Globals)
    → (b ≡ true → s.leads ≡ true)
    → (b ≡ false → s.registered ≡ false)
    → Obeys group_protocol (λ s' r. IsOver s') s (run_handlers fuel b g)
unfolding run_handlers pure
run_handlers-Obeys fuel true s g leads early = terminate_process_group-Obeys fuel s g (leads refl)
run_handlers-Obeys fuel false s g leads early = inl (early refl)

abbrev pub catching_term : Life
catching_term = record newborn { catches_term = true }

abbrev pub catching : Life
catching = record catching_term { catches_int = true }

abbrev pub leading : Life
leading = record catching { leads = true }

module _ (fuel : ℕ) where
  pub Ready-CanExit : CanExit group_protocol fuel IsReady
  Ready-CanExit s g p =
      run_handlers-Obeys fuel g.registered s g (λ _. p.leads) (λ e. absurd (cc p.known))

  pub Early-CanExit : (x : Life) → CanExit group_protocol fuel (Early x)
  Early-CanExit x s g p =
      run_handlers-Obeys fuel g.registered s g (λ e. absurd (cc p.2))
        (λ _. ap (λ (s : Life). s.registered) p.0 ∙ p.1)

  -- The calls that change nothing for the group.
  pub quiet_must :
      (c : SysCall)
      → ((s : Life) → Permits s (sys c))
      → ((s : Life) (r : Sys) → after s (sys c) r ≡ s)
      → Keeps group_protocol IsReady (must fuel c) IsReady
  quiet_must c allowed same =
      must-Keeps fuel IsReady c (λ s g _. allowed s) (λ s g n p. rw (same s (ret n)) p)
        (λ s g e p. rw (same s (fail e)) p) Ready-CanExit

  pub quiet :
      (c : Call)
      → ((s : Life) → Permits s c)
      → ((s : Life) (r : Reply c) → after s c r ≡ s)
      → Keeps group_protocol IsReady (ask c) IsReady
  quiet c allowed same = ask-Keeps c (λ s g _. allowed s) (λ s g r p _. rw (same s r) p)

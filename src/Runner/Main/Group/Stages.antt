-- ===== src/Runner/Main/Group/Stages.antt =====
-- The functions of programs/run.c that come before a process may be started, under `group_protocol`.
use vmnet_helper.Prelude.{ℕ, ◌≡◌, refl, ap, ◌∙◌, Bool, true, false, if◌then◌else◌}
use vmnet_helper.System.{ret, fail}
use vmnet_helper.Runner.Calls.{SysCall, sigaction, setpgid, atexit, sys, leads_group}
use vmnet_helper.Runner.Globals.{pure, must}
use vmnet_helper.Runner.Main.Discipline.{
  Keeps, Keeps->>, pure-Keeps, modify-Keeps, ask-then-Keeps, must-Keeps,
}
use vmnet_helper.Runner.Main.{
  setup_signals, become_process_group_leader, defer_terminate_process_group,
}
use vmnet_helper.Runner.Main.Group.{Life, after, Permits, group_protocol, newborn}
use vmnet_helper.Runner.Main.Group.Ending.{
  Early, IsReady, catching_term, catching, leading, Early-CanExit,
}

module _ (fuel : ℕ) where
  -- The stages before a process may be started.
  stage :
      (x y : Life) (c : SysCall)
      → ((s : Life) → Permits s (sys c))
      → ((n : ℕ) → after x (sys c) (ret n) ≡ y)
      → ((e : ℕ) → after x (sys c) (fail e) ≡ x)
      → y.registered ≡ false
      → Keeps group_protocol (Early x) (must fuel c) (Early y)
  stage x y c allowed works fails early =
      must-Keeps fuel (Early x) c (λ s g _. allowed s)
        (λ s g n p. (ap (λ s. after s (sys c) (ret n)) p.0 ∙ works n, early, p.2))
        (λ s g e p. (ap (λ s. after s (sys c) (fail e)) p.0 ∙ fails e, p.1, p.2))
        (Early-CanExit fuel x)

  pub setup_signals-Keeps :
      Keeps group_protocol (Early newborn) (setup_signals fuel) (Early catching)
  unfolding setup_signals
  setup_signals-Keeps =
      Keeps->> (stage newborn catching_term (sigaction 15) (λ s. tt) (λ n. refl) (λ e. refl) refl)
        (stage catching_term catching (sigaction 2) (λ s. tt) (λ n. refl) (λ e. refl) refl)

  become_leader-Keeps :
      (leads : Bool)
      → Keeps group_protocol
          (Early (record catching { leads = leads }))
          (if leads then pure tt else must fuel setpgid)
          (Early leading)
  become_leader-Keeps true = pure-Keeps tt
  become_leader-Keeps false = stage catching leading setpgid (λ s. tt) (λ n. refl) (λ e. refl) refl

  led : (r : Bool) → after catching leads_group r ≡ record catching { leads = r }
  led true = refl
  led false = refl

  pub become_process_group_leader-Keeps :
      Keeps group_protocol (Early catching) (become_process_group_leader fuel) (Early leading)
  unfolding become_process_group_leader
  become_process_group_leader-Keeps =
      ask-then-Keeps leads_group (λ leads. Early (record catching { leads = leads })) (λ s g p. tt)
        (λ s g r p _. (ap (λ s. after s leads_group r) p.0 ∙ led r, refl, p.2)) become_leader-Keeps

  pub defer_terminate_process_group-Keeps :
      Keeps group_protocol (Early leading) (defer_terminate_process_group fuel) IsReady
  unfolding defer_terminate_process_group
  defer_terminate_process_group-Keeps =
      Keeps->> {Q = λ s g. s ≡ record leading { registered = true }}
        (must-Keeps fuel (Early leading) atexit (λ s g p. tt)
          (λ s g n p. ap (λ s. after s (sys atexit) (ret n)) p.0) (λ s g e p. p)
          (Early-CanExit fuel leading))
        (modify-Keeps _ (λ s g p. record {
          catches_term = ap (λ (s : Life). s.catches_term) p;
          catches_int = ap (λ (s : Life). s.catches_int) p;
          leads = ap (λ (s : Life). s.leads) p;
          registered = ap (λ (s : Life). s.registered) p;
          known = refl;
        }))

-- ===== src/Options/Range.antt =====
-- The values that the option parsers of programs/options.c store.
use vmnet_helper.Prelude.{
  ℕ, ◌≤◌, ◌≡◌, subst, refl, ◌⊎◌, inl, inr, List, [], ◌∷◌, Option, some, String, Outcome, done,
  ◌>>=◌, >>=-eq-done, arith,
}
use vmnet_helper.Libc.{strlen}
use vmnet_helper.Options.{
  Options, Environment, Opt, int_max, sun_path_max, vmnet_shared_mode, vmnet_bridged_mode,
  vmnet_host_mode, parse_fd, parse_socket, parse_operation_mode, parse_stats_interval,
  parse_interface_id, parse_address, list_interfaces, apply_option, apply_options, initial_options,
}
use vmnet_helper.Options.Opt.{
  help, fd, socket, interface_id, operation_mode, shared_interface, start_address, end_address,
  subnet_mask, enable_tso, enable_checksum_offload, enable_isolation, list_shared_interfaces,
  network, stats_interval, verbose, version, missing, invalid,
}
use vmnet_helper.Options.Parsers.{
  parse_operation_mode_known, parse_fd-le, parse_stats_interval-le, parse_socket-le,
}

-- Values that the parsers have let through.
pub record Fits (mode : ℕ) (fd : Option ℕ) (socket : Option String) (interval : ℕ) : Type 0 where
  pub mode_known :
      (mode ≡ 0)
      ⊎ ((mode ≡ vmnet_shared_mode) ⊎ ((mode ≡ vmnet_bridged_mode) ⊎ (mode ≡ vmnet_host_mode)))
  pub fd_fits : (n : ℕ) → fd ≡ some n → n ≤ int_max
  pub socket_fits : (s : String) → socket ≡ some s → strlen s ≤ sun_path_max
  pub interval_fits : interval ≤ int_max

abbrev pub InRange : Options → Type 0
InRange o = Fits o.operation_mode o.fd o.socket o.stats_interval

bind-InRange :
    {A : Type 0} (m : Outcome A) (f : A → Options) {o : Options}
    → ((a : A) → m ≡ done a → InRange (f a))
    → (m >>= λ a. done (f a)) ≡ done o
    → InRange o
bind-InRange m f {o} k h =
    let (a, e, d) = >>=-eq-done m _ h in let same : f a ≡ o = cc in subst InRange same (k a e)

done-InRange : {o o' : Options} → InRange o → done o ≡ done o' → InRange o'
done-InRange {o} {o'} r h = let same : o ≡ o' = cc in subst InRange same r

with_fd : (o : Options) (n : ℕ) → n ≤ int_max → InRange o → InRange (record o { fd = some n })
with_fd o n le r = record {
  mode_known = r.mode_known;
  fd_fits = λ k e. subst (λ k. k ≤ int_max) (cc) le;
  socket_fits = r.socket_fits;
  interval_fits = r.interval_fits;
}

with_socket :
    (o : Options) (s : String)
    → strlen s ≤ sun_path_max
    → InRange o
    → InRange (record o { socket = some s })
with_socket o s le r = record {
  mode_known = r.mode_known;
  fd_fits = r.fd_fits;
  socket_fits = λ k e. subst (λ k. strlen k ≤ sun_path_max) (cc) le;
  interval_fits = r.interval_fits;
}

-- One round of the loop keeps the values in range.
apply_option-InRange :
    (env : Environment) (o o' : Options) (opt : String × Opt)
    → InRange o
    → apply_option env o opt ≡ done o'
    → InRange o'
unfolding apply_option list_interfaces
apply_option-InRange env o o' (name, fd arg) r h =
    bind-InRange (parse_fd arg) (λ n. record o { fd = some n })
      (λ n e. with_fd o n (parse_fd-le arg n e) r) h
apply_option-InRange env o o' (name, socket arg) r h =
    bind-InRange (parse_socket arg) (λ s. record o { socket = some s })
      (λ s e. with_socket o s (parse_socket-le arg s e) r) h
apply_option-InRange env o o' (name, interface_id arg) r h =
    bind-InRange (parse_interface_id env arg) (λ u. record o { interface_id = u }) (λ u e. r) h
apply_option-InRange env o o' (name, operation_mode arg) r h =
    bind-InRange (parse_operation_mode arg name) (λ m. record o { operation_mode = m })
      (λ m e. record {
        mode_known = inr (parse_operation_mode_known arg name m e);
        fd_fits = r.fd_fits;
        socket_fits = r.socket_fits;
        interval_fits = r.interval_fits;
      })
      h
apply_option-InRange env o o' (name, shared_interface arg) r h = done-InRange r h
apply_option-InRange env o o' (name, start_address arg) r h =
    bind-InRange (parse_address env arg name) (λ a. record o { start_address = some a }) (λ a e. r)
      h
apply_option-InRange env o o' (name, end_address arg) r h =
    bind-InRange (parse_address env arg name) (λ a. record o { end_address = some a }) (λ a e. r) h
apply_option-InRange env o o' (name, subnet_mask arg) r h =
    bind-InRange (parse_address env arg name) (λ a. record o { subnet_mask = some a }) (λ a e. r) h
apply_option-InRange env o o' (name, enable_tso) r h = done-InRange r h
apply_option-InRange env o o' (name, enable_checksum_offload) r h = done-InRange r h
apply_option-InRange env o o' (name, enable_isolation) r h = done-InRange r h
apply_option-InRange env o o' (name, network arg) r h = done-InRange r h
apply_option-InRange env o o' (name, stats_interval arg) r h =
    bind-InRange (parse_stats_interval arg) (λ n. record o { stats_interval = n })
      (λ n e. record {
        mode_known = r.mode_known;
        fd_fits = r.fd_fits;
        socket_fits = r.socket_fits;
        interval_fits = (parse_stats_interval-le arg n e).1;
      })
      h
apply_option-InRange env o o' (name, verbose) r h = done-InRange r h
apply_option-InRange env o o' (name, list_shared_interfaces) r h = ground arith
apply_option-InRange env o o' (name, help) r h = cc
apply_option-InRange env o o' (name, version) r h = cc
apply_option-InRange env o o' (name, missing) r h = cc
apply_option-InRange env o o' (name, invalid) r h = cc

pub apply_options-InRange :
    (env : Environment) (o o' : Options) (items : List (String × Opt))
    → InRange o
    → apply_options env o items ≡ done o'
    → InRange o'
unfolding apply_options
apply_options-InRange env o o' [] r h = done-InRange r h
apply_options-InRange env o o' (opt ∷ items) r h =
    let (next, e, h') = >>=-eq-done (apply_option env o opt) _ h in
    apply_options-InRange env next o' items (apply_option-InRange env o next opt r e) h'

pub initial_options-InRange : InRange initial_options
initial_options-InRange = record {
  mode_known = inl refl;
  fd_fits = λ n e. cc;
  socket_fits = λ s e. cc;
  interval_fits = omega arith;
}

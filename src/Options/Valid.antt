-- ===== src/Options/Valid.antt =====
-- What `parse_options` of programs/options.c lets through.
use vmnet_helper.Prelude.{
  ℕ, ◌≡◌, ◌≢◌, subst, sym, refl, Bool, true, not, ◌&&◌, ◌||◌, List, String, Outcome, done, exited,
  ◌>>=◌, >>=-eq-done, arith, ◌==◌, if◌then◌else◌,
}
use vmnet_helper.Options.{
  Options, Environment, Opt, vmnet_shared_mode, vmnet_bridged_mode, is_set, apply_options,
  parse_options, check_options, check_socket, check_network, check_mode, check_addresses,
  check_bridged, validate_network_options, resolve_ids, find_id, initial_options,
  unset_network_option,
}
use vmnet_helper.Options.Range.{InRange, apply_options-InRange, initial_options-InRange}

-- The options that may be used together.
abbrev pub network_consistent : Options → Bool
network_consistent o =
    o.operation_mode == 0
    && not (
        is_set o.shared_interface
        || (is_set o.start_address || (is_set o.end_address || is_set o.subnet_mask)))

abbrev pub mode_consistent : Options → Bool
mode_consistent o =
    if o.operation_mode == vmnet_bridged_mode
    then is_set o.shared_interface && not o.enable_isolation
    else is_set o.start_address && (is_set o.end_address && is_set o.subnet_mask)
      || not (is_set o.start_address || (is_set o.end_address || is_set o.subnet_mask))

abbrev pub socket_consistent : Options → Bool
socket_consistent o = is_set o.fd && not (is_set o.socket) || is_set o.socket && not (is_set o.fd)

abbrev pub consistent : Options → Bool
consistent o =
    (if is_set o.network_name then network_consistent o else mode_consistent o)
    && socket_consistent o

abbrev pub with_mode : Options → Options
with_mode o = record o {
  operation_mode =
      if is_set o.network_name
      then o.operation_mode
      else if o.operation_mode == 0
      then vmnet_shared_mode
      else o.operation_mode;
}

-- The last message before an exit.
abbrev pub reason : {A : Type 0} → Outcome A → String
reason (exited c m) = m
reason _ = ""

-- What a check is to be: it goes on with `o`, or exits with status 1 and the message of `m`.
abbrev pub verdict : {A : Type 0} → Bool → A → Outcome A → Outcome A
verdict b o m = if b then done o else exited 1 (reason m)

check_socket-verdict :
    (o : Options) → check_socket o ≡ verdict (socket_consistent o) o (check_socket o)
unfolding check_socket
check_socket-verdict o = ground arith

check_mode-verdict :
    (o : Options)
    → InRange o
    → o.operation_mode ≢ 0
    → check_mode o ≡ verdict (mode_consistent o) o (check_mode o)
unfolding check_mode check_addresses check_bridged validate_network_options
check_mode-verdict o r set = ground (arith, r.mode_known)

check_network-verdict :
    (o : Options) → check_network o ≡ verdict (network_consistent o) o (check_network o)
unfolding check_network unset_network_option
check_network-verdict o = ground arith

abbrev default_mode : Options → Options
default_mode o = record o {
  operation_mode = if o.operation_mode == 0 then vmnet_shared_mode else o.operation_mode;
}

default_mode-InRange : (o : Options) → InRange o → InRange (default_mode o)
default_mode-InRange o r = record {
  mode_known = ground (arith, r.mode_known);
  fd_fits = r.fd_fits;
  socket_fits = r.socket_fits;
  interval_fits = r.interval_fits;
}

check_options-verdict :
    (o : Options)
    → InRange o
    → check_options o
      ≡ verdict
          (if is_set o.network_name then network_consistent o else mode_consistent o)
          (with_mode o)
          (check_options o)
unfolding check_options
check_options-verdict o r = ground (
  arith,
  check_network-verdict o,
  check_mode-verdict (default_mode o) (default_mode-InRange o r) (ground arith),
)

-- Both checks together.
checks-verdict :
    (o : Options)
    → InRange o
    → (check_options o >>= check_socket)
      ≡ verdict (consistent o) (with_mode o) (check_options o >>= check_socket)
checks-verdict o r = ground (arith, check_options-verdict o r, check_socket-verdict (with_mode o))

-- The command line decides what `parse_options` does: with options that may be used together it goes on to
-- the user and group, in the default mode if none is given, and otherwise it exits with status 1.
pub parse_options-verdict :
    (env : Environment) (items : List (String × Opt)) (o : Options)
    → apply_options env initial_options items ≡ done o
    → parse_options env initial_options items ≡ (
        if consistent o
        then resolve_ids env (with_mode o)
        else exited 1 (reason (parse_options env initial_options items)))
unfolding parse_options
parse_options-verdict env items o h =
    let r = apply_options-InRange env initial_options o items initial_options-InRange h in
    ground (arith, h, checks-verdict o r)

-- The user and the group are the last values that are found, and no other value is changed.
pub resolve_ids-eq :
    (env : Environment) (o o' : Options)
    → resolve_ids env o ≡ done o'
    → o' ≡ record o { uid = o'.uid; gid = o'.gid }
unfolding resolve_ids
resolve_ids-eq env o o' h =
    let (u, e, h') =
      >>=-eq-done (if o.uid == 0 then find_id env "SUDO_UID" env.getuid else done o.uid) _ h in
    let (g, e', h'') =
      >>=-eq-done (if o.gid == 0 then find_id env "SUDO_GID" env.getgid else done o.gid) _ h' in
    let same : record o { uid = u; gid = g } ≡ o' = cc in
    subst (λ p. p ≡ record o { uid = p.uid; gid = p.gid }) same refl

-- What the rest of the program is given.
pub record Accepted (o : Options) : Type 0 where
  pub in_range : InRange o
  pub together : consistent o ≡ true
  pub network_or_mode : (o.operation_mode == 0) ≡ is_set o.network_name

Accepted-ids : (o : Options) (u g : ℕ) → Accepted o → Accepted (record o { uid = u; gid = g })
Accepted-ids o u g a = record {
  in_range = a.in_range;
  together = a.together;
  network_or_mode = a.network_or_mode;
}

Accepted-with_mode : (o : Options) → InRange o → consistent o ≡ true → Accepted (with_mode o)
Accepted-with_mode o r c = record {
  in_range = record {
    mode_known = ground (arith, r.mode_known);
    fd_fits = r.fd_fits;
    socket_fits = r.socket_fits;
    interval_fits = r.interval_fits;
  };
  together = ground (arith, c);
  network_or_mode = ground (arith, c);
}

-- Options that `parse_options` goes on with are in range, may be used together, and have a mode unless they
-- name a network.
pub parse_options-Accepted :
    (env : Environment) (items : List (String × Opt)) (o : Options)
    → parse_options env initial_options items ≡ done o
    → Accepted o
unfolding parse_options
parse_options-Accepted env items o h =
    let (read, e, h') = >>=-eq-done (apply_options env initial_options items) _ h in
    let r = apply_options-InRange env initial_options read items initial_options-InRange e in
    let verdict = parse_options-verdict env items read e in
    let c : consistent read ≡ true = ground (arith, h, verdict) in
    let ids : resolve_ids env (with_mode read) ≡ done o = ground (arith, h, verdict, c) in
    subst Accepted (sym (resolve_ids-eq env (with_mode read) o ids))
      (Accepted-ids (with_mode read) o.uid o.gid (Accepted-with_mode read r c))

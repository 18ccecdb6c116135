-- ===== src/Runner/Handover/Reading.antt =====
-- What vmnet-helper reads from the arguments of vmnet-run.
use vmnet_helper.Prelude.{
  ℕ, ◌≡◌, ◌∙◌, ap, sym, subst, refl, Bool, true, false, not, ◌&&◌, ◌||◌, List, ◌++◌, Option, none,
  some, String, done, exited, >>=-eq-done, arith, if◌then◌else◌,
}
use vmnet_helper.Libc.{strtol}
use vmnet_helper.Options.{
  long_options, apply_options, apply_option, parse_options, Environment, Options, Opt,
  initial_options, parse_fd, parse_operation_mode, parse_interface_id, parse_address, find_id,
  resolve_ids, is_set,
}
use vmnet_helper.Options.Opt.{
  interface_id, operation_mode, shared_interface, start_address, end_address, subnet_mask,
  enable_tso, enable_checksum_offload, enable_isolation, network, stats_interval, verbose,
}
use vmnet_helper.Options.Valid.{consistent, with_mode, parse_options-verdict}
use vmnet_helper.Runner.Arguments.{ClientOptions, no_options, requires_root, build_helper_argv}
use vmnet_helper.Runner.Arguments.Fit.{arguments, sudo, build_helper_argv_fits}
use vmnet_helper.Runner.CommandLine
use vmnet_helper.Runner.CommandLine.Verdict
use vmnet_helper.Runner.CommandLine.Verdict.{runner_verdict}
use vmnet_helper.Runner.Handover.{
  items, value_item, flag_item, GetoptLong, ReadsOptions, accepts_uuid, uuid_value, mode_value,
  has_interval, interval_value, handed,
}
use vmnet_helper.Runner.Handover.Getopt.{getopt_long-items}
use vmnet_helper.Runner.Handover.Stored.{is_mode, Stored, apply_options-Stored, no_options-Stored}

module _ (env : Environment) where
  abbrev Reads : Options → List (String × Opt) → Options → Type 0
  Reads o items o' = apply_options env o items ≡ done o'

  -- An item and what follows it; `set` stores its value.
  read_value :
      (o o' : Options) (t : List (String × Opt)) (name : String) (opt : String → Opt)
      (v : Option String) (set : Options → Option String → Options)
      → o ≡ set o none
      → ((p : Options) (arg : String)
          → v ≡ some arg
          → apply_option env p (name, opt arg) ≡ done (set p (some arg)))
      → Reads (set o v) t o'
      → Reads o (value_item name opt v ++ t) o'
  unfolding apply_options
  read_value o o' t name opt none set h k rest = subst (λ x. Reads x t o') (sym h) rest
  read_value o o' t name opt (some arg) set h k rest = rw (k o arg refl) rest

  read_flag :
      (o o' : Options) (t : List (String × Opt)) (name : String) (opt : Opt) (b : Bool)
      (set : Options → Bool → Options)
      → o ≡ set o false
      → apply_option env o (name, opt) ≡ done (set o true)
      → Reads (set o b) t o'
      → Reads o (flag_item name opt b ++ t) o'
  unfolding apply_options
  read_flag o o' t name opt false set h k rest = subst (λ x. Reads x t o') (sym h) rest
  read_flag o o' t name opt true set h k rest = rw k rest

  read_uuid :
      (o : Options) (arg : String)
      → accepts_uuid env arg ≡ true
      → apply_option env o ("--interface-id", interface_id arg)
        ≡ done (record o { interface_id = uuid_value env (some arg) })
  unfolding apply_option parse_interface_id
  read_uuid o arg p = ground (arith, p)

  read_mode :
      (o : Options) (arg : String)
      → is_mode arg ≡ true
      → apply_option env o ("--operation-mode", operation_mode arg)
        ≡ done (record o { operation_mode = mode_value (some arg) })
  unfolding apply_option parse_operation_mode
  read_mode o arg p = ground (arith, p)

  read_interval :
      (o : Options) (arg : String)
      → has_interval (some arg) ≡ true
      → apply_option env o ("--stats-interval", stats_interval arg)
        ≡ done (record o { stats_interval = interval_value (some arg) })
  unfolding apply_option
  read_interval o arg p = ground (arith, p)

  read_verbose :
      (o : Options) (b : Bool)
      → o.verbose ≡ false
      → Reads o (flag_item "--verbose" verbose b) (record o { verbose = b })
  unfolding apply_options apply_option
  read_verbose o false h = ap (λ x. done (record o { verbose = x })) h
  read_verbose o true h = refl

  -- vmnet-helper reads from the arguments what vmnet-run has stored.
  items-Reads :
      (o : ClientOptions)
      → Stored (accepts_uuid env) env.inet_aton o
      → has_interval o.stats_interval ≡ true
      → Reads initial_options (items o) (handed env o)
  unfolding apply_options apply_option parse_fd strtol parse_address
  items-Reads o s p =
      read_value _ _ _ "--interface-id" interface_id o.interface_id
        (λ o v. record o { interface_id = uuid_value env v }) refl
        (λ q arg e. read_uuid q arg (ground (arith, s.interface_id, e)))
        (read_value _ _ _ "--operation-mode" operation_mode o.operation_mode
          (λ o v. record o { operation_mode = mode_value v }) refl
          (λ q arg e. read_mode q arg (ground (arith, s.operation_mode, e)))
          (read_value _ _ _ "--start-address" start_address o.start_address
            (λ o v. record o { start_address = v }) refl
            (λ q arg e. ground (arith, s.start_address, e))
            (read_value _ _ _ "--end-address" end_address o.end_address
              (λ o v. record o { end_address = v }) refl
              (λ q arg e. ground (arith, s.end_address, e))
              (read_value _ _ _ "--subnet-mask" subnet_mask o.subnet_mask
                (λ o v. record o { subnet_mask = v }) refl
                (λ q arg e. ground (arith, s.subnet_mask, e))
                (read_value _ _ _ "--shared-interface" shared_interface o.shared_interface
                  (λ o v. record o { shared_interface = v }) refl (λ q arg e. refl)
                  (read_flag _ _ _ "--enable-tso" enable_tso o.enable_tso
                    (λ o b. record o { enable_tso = b }) refl refl
                    (read_flag _ _ _ "--enable-checksum-offload" enable_checksum_offload
                      o.enable_checksum_offload (λ o b. record o { enable_checksum_offload = b })
                      refl refl
                      (read_flag _ _ _ "--enable-isolation" enable_isolation o.enable_isolation
                        (λ o b. record o { enable_isolation = b }) refl refl
                        (read_value _ _ _ "--network" network o.network_name
                          (λ o v. record o { network_name = v }) refl (λ q arg e. refl)
                          (read_value _ _ _ "--stats-interval" stats_interval o.stats_interval
                            (λ o v. record o { stats_interval = interval_value v }) refl
                            (λ q arg e. read_interval q arg (ground (arith, p, e)))
                            (read_verbose _ o.verbose refl)))))))))))

-- Whether the three address options are given together.
abbrev pub addresses_together : ClientOptions → Bool
addresses_together o =
    is_set o.start_address && (is_set o.end_address && is_set o.subnet_mask)
    || not (is_set o.start_address || (is_set o.end_address || is_set o.subnet_mask))

handed-consistent :
    (env : Environment) (o : ClientOptions)
    → Stored (accepts_uuid env) env.inet_aton o
    → Verdict.consistent o ≡ true
    → addresses_together o ≡ true
    → consistent (handed env o) ≡ true
handed-consistent env o s c together = ground (arith, c, together, s.operation_mode)

if_done :
    {A : Type 0} (b : Bool) (x y : A) (m : String)
    → (if b then done x else exited 1 m) ≡ done y
    → (b ≡ true) × (x ≡ y)
if_done true x y m h = (refl, cc)
if_done false x y m h = cc

-- What vmnet-run goes on with has been stored, and may be used together.
going_on :
    (env : Environment) (o : ClientOptions) (given : List (String × CommandLine.Opt))
    (command_argv rest : List String)
    → CommandLine.parse_options (accepts_uuid env) env.inet_aton no_options given command_argv
      ≡ done (o, rest)
    → Stored (accepts_uuid env) env.inet_aton o × (Verdict.consistent o ≡ true)
unfolding CommandLine.parse_options
going_on env o given command_argv rest h =
    let uuid = accepts_uuid env in
    let (start, e, h') =
      >>=-eq-done (CommandLine.apply_options uuid env.inet_aton no_options given) _ h in
    let verdict = runner_verdict uuid env.inet_aton no_options start given command_argv e in
    let (c, same) =
      if_done (Verdict.consistent start && Verdict.some_command command_argv) (start, command_argv)
        (o, rest) _ (sym verdict ∙ h) in
    let stored =
      apply_options-Stored uuid env.inet_aton no_options start given
        (no_options-Stored uuid env.inet_aton) e in
    let start_is : start ≡ o = ap (λ x. x.0) same in
    (
      subst (Stored uuid env.inet_aton) start_is stored,
      subst (λ x. Verdict.consistent x ≡ true) start_is (ground (arith, c)),
    )

handed-resolved :
    (env : Environment) (o : Options) (u g : ℕ)
    → o.uid ≡ 0
    → o.gid ≡ 0
    → find_id env "SUDO_UID" env.getuid ≡ done u
    → find_id env "SUDO_GID" env.getgid ≡ done g
    → resolve_ids env o ≡ done (record o { uid = u; gid = g })
unfolding resolve_ids
handed-resolved env o u g uid gid eu eg = ground (arith, uid, gid, eu, eg)

-- If `getopt_long` does what is documented with the table `long_options` of vmnet-helper, vmnet-run goes on with its
-- command line, the three address options are given together or not at all, and the stats
-- interval, if there is one, is a number that vmnet-helper accepts, then vmnet-helper goes on with the arguments that vmnet-run has
-- built, after those of sudo if root is required. Its options are those that vmnet-run was given, with the descriptor 3 and
-- the default mode. Both programs are given the same `uuid_parse` and `inet_aton`, the version of macOS is
-- known, and the user and the group are found.
pub vmnet_run-handed :
    (env : Environment) (getopt_long : GetoptLong) (sysctl : Option (List ℕ)) (root : Bool)
    (helper_path : String) (o : ClientOptions) (given : List (String × CommandLine.Opt))
    (command_argv rest : List String) (u g : ℕ)
    → ReadsOptions getopt_long long_options
    → requires_root sysctl ≡ done root
    → CommandLine.parse_options (accepts_uuid env) env.inet_aton no_options given command_argv
      ≡ done (o, rest)
    → addresses_together o ≡ true
    → has_interval o.stats_interval ≡ true
    → find_id env "SUDO_UID" env.getuid ≡ done u
    → find_id env "SUDO_GID" env.getgid ≡ done g
    → (build_helper_argv sysctl helper_path o ≡ done (sudo root ++ arguments false helper_path o))
      × (parse_options env initial_options
            (getopt_long long_options (arguments false helper_path o))
          ≡ done (record (with_mode (handed env o)) { uid = u; gid = g }))
vmnet_run-handed env getopt_long sysctl root helper_path o given command_argv rest u g reads version
      h together number eu eg =
    let (stored, c) = going_on env o given command_argv rest h in
    let read = items-Reads env o stored number in
    let verdict = parse_options-verdict env (items o) (handed env o) read in
    let good = handed-consistent env o stored c together in
    let ids = handed-resolved env (with_mode (handed env o)) u g refl refl eu eg in
    (
      (build_helper_argv_fits sysctl helper_path o root version).0,
      rw (getopt_long-items getopt_long helper_path o reads) (verdict ∙ rw good ids),
    )

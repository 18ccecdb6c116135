-- ===== src/Runner/Handover/Getopt.antt =====
-- What `getopt_long` reads with the table `long_options` of programs/options.c from the arguments that programs/run.c has
-- built.
use vmnet_helper.Prelude.{
  ◌≡◌, ap, ◌∙◌, Bool, true, false, List, [], ◌∷◌, ◌++◌, Option, none, some, String,
}
use vmnet_helper.Options.{Opt, long_options}
use vmnet_helper.Options.Opt.{
  fd, interface_id, operation_mode, shared_interface, start_address, end_address, subnet_mask,
  enable_tso, enable_checksum_offload, enable_isolation, network, stats_interval, verbose,
}
use vmnet_helper.Runner.Arguments.{ClientOptions}
use vmnet_helper.Runner.Arguments.Fit.{arguments, value, flag}
use vmnet_helper.Runner.Handover.{value_item, flag_item, items, GetoptLong, ReadsOptions}

module _ (getopt_long : GetoptLong) (path : String) where
  read_value :
      (name : String) (opt : String → Opt) (v : Option String) (words : List String)
      (after : List (String × Opt))
      → ((arg : String) (words : List String)
          → getopt_long long_options (path ∷ name ∷ arg ∷ words)
            ≡ (name, opt arg) ∷ getopt_long long_options (path ∷ words))
      → getopt_long long_options (path ∷ words) ≡ after
      → getopt_long long_options (path ∷ (value name v ++ words)) ≡ value_item name opt v ++ after
  read_value name opt none words after reads rest = rest
  read_value name opt (some arg) words after reads rest =
      reads arg words ∙ ap (λ t. (name, opt arg) ∷ t) rest

  read_flag :
      (name : String) (opt : Opt) (b : Bool) (words : List String) (after : List (String × Opt))
      → ((words : List String)
          → getopt_long long_options (path ∷ name ∷ words)
            ≡ (name, opt) ∷ getopt_long long_options (path ∷ words))
      → getopt_long long_options (path ∷ words) ≡ after
      → getopt_long long_options (path ∷ (flag name b ++ words)) ≡ flag_item name opt b ++ after
  read_flag name opt false words after reads rest = rest
  read_flag name opt true words after reads rest = reads words ∙ ap (λ t. (name, opt) ∷ t) rest

  read_verbose :
      (b : Bool)
      → ((words : List String)
          → getopt_long long_options (path ∷ "--verbose" ∷ words)
            ≡ ("--verbose", verbose) ∷ getopt_long long_options (path ∷ words))
      → getopt_long long_options (path ∷ []) ≡ []
      → getopt_long long_options (path ∷ flag "--verbose" b) ≡ flag_item "--verbose" verbose b
  read_verbose false reads ends = ends
  read_verbose true reads ends = reads [] ∙ ap (λ t. ("--verbose", verbose) ∷ t) ends

  -- The options in the arguments of vmnet-helper, in their order.
  pub getopt_long-items :
      (o : ClientOptions)
      → ReadsOptions getopt_long long_options
      → getopt_long long_options (arguments false path o) ≡ items o
  getopt_long-items o r =
      let (
        fds,
        (
          sockets,
          (
            ids,
            (
              modes,
              (
                shared,
                (
                  starts,
                  (
                    ends,
                    (
                      masks,
                      (
                        tso,
                        (
                          checksum,
                          (isolation, (list, (networks, (intervals, (verboses, others))))),
                        ),
                      ),
                    ),
                  ),
                ),
              ),
            ),
          ),
        ),
      ) =
        r.entries in
      r.attached.0 path _
      ∙ ap (λ t. ("--fd=3", fd "3") ∷ t)
          (read_value "--interface-id" interface_id o.interface_id _ _ (ids path) (
            read_value "--operation-mode" operation_mode o.operation_mode _ _ (modes path) (
              read_value "--start-address" start_address o.start_address _ _ (starts path) (
                read_value "--end-address" end_address o.end_address _ _ (ends path) (
                  read_value "--subnet-mask" subnet_mask o.subnet_mask _ _ (masks path) (
                    read_value "--shared-interface" shared_interface o.shared_interface _ _
                      (shared path)
                      (read_flag "--enable-tso" enable_tso o.enable_tso _ _ (tso path) (
                        read_flag "--enable-checksum-offload" enable_checksum_offload
                          o.enable_checksum_offload _ _ (checksum path)
                          (read_flag "--enable-isolation" enable_isolation o.enable_isolation _ _
                            (isolation path)
                            (read_value "--network" network o.network_name _ _ (networks path) (
                              read_value "--stats-interval" stats_interval o.stats_interval _ _
                                (intervals path)
                                (read_verbose o.verbose (verboses path) (r.ends path)))))))))))))

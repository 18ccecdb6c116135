-- ===== src/Runner/Handover/Stored.antt =====
-- The values that `parse_options` of programs/run.c stores.
use vmnet_helper.Prelude.{
  ◌≡◌, subst, refl, Bool, true, ◌||◌, List, [], ◌∷◌, Option, none, some, String, done, >>=-eq-done,
  arith, str_eq,
}
use vmnet_helper.Runner.Arguments.{ClientOptions, no_options}
use vmnet_helper.Runner.CommandLine.{
  Opt, validate_interface_id, validate_operation_mode, validate_address, apply_option,
  apply_options,
}

abbrev pub passes : (String → Bool) → Option String → Bool
passes test none = true
passes test (some arg) = test arg

abbrev pub is_mode : String → Bool
is_mode arg = str_eq arg "shared" || (str_eq arg "bridged" || str_eq arg "host")

module _ (uuid_parse inet_aton : String → Bool) where
  pub record Stored (o : ClientOptions) : Type 0 where
    pub interface_id : passes uuid_parse o.interface_id ≡ true
    pub operation_mode : passes is_mode o.operation_mode ≡ true
    pub start_address : passes inet_aton o.start_address ≡ true
    pub end_address : passes inet_aton o.end_address ≡ true
    pub subnet_mask : passes inet_aton o.subnet_mask ≡ true

  apply_option-Stored :
      (o o' : ClientOptions) (name : String) (opt : Opt)
      → Stored o
      → apply_option uuid_parse inet_aton o (name, opt) ≡ done o'
      → Stored o'
  unfolding apply_option validate_interface_id validate_operation_mode validate_address
  apply_option-Stored o o' name Opt.help s h = cc
  apply_option-Stored o o' name _ s h = record {
    interface_id = ground (arith, h, s.interface_id);
    operation_mode = ground (arith, h, s.operation_mode);
    start_address = ground (arith, h, s.start_address);
    end_address = ground (arith, h, s.end_address);
    subnet_mask = ground (arith, h, s.subnet_mask);
  }

  pub apply_options-Stored :
      (start o : ClientOptions) (items : List (String × Opt))
      → Stored start
      → apply_options uuid_parse inet_aton start items ≡ done o
      → Stored o
  unfolding apply_options
  apply_options-Stored start o [] s h = let same : start ≡ o = cc in subst Stored same s
  apply_options-Stored start o (item ∷ items) s h =
      let (next, e, h') = >>=-eq-done (apply_option uuid_parse inet_aton start item) _ h in
      apply_options-Stored next o items (apply_option-Stored start next item.0 item.1 s e) h'

  pub no_options-Stored : Stored no_options
  no_options-Stored = record {
    interface_id = refl;
    operation_mode = refl;
    start_address = refl;
    end_address = refl;
    subnet_mask = refl;
  }

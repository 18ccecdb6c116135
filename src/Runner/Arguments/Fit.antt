-- ===== src/Runner/Arguments/Fit.antt =====
-- The arguments of vmnet-helper and the slots of `helper_argv` of programs/run.c.
use vmnet_helper.Prelude.{
  ℕ, ◌+◌, ◌≤◌, ◌<◌, ◌≡◌, refl, sym, ap, ◌∙◌, Bool, true, false, List, [], ◌∷◌, ◌++◌, Option, none,
  some, String, length, length-append, Outcome, done, exited, aborted, out_of_fuel, ◌>>=◌, arith,
}
use mathlib.Core.List.{append_assoc, append-nil}
use vmnet_helper.Runner.Arguments.{
  ClientOptions, helper_slots, append_helper_arg, append_value, append_flag, append_sudo,
  build_arguments, requires_root, build_helper_argv,
}

-- The arguments of `xs`, one by one.
appends : List String → List String → Outcome (List String)
appends argv [] = done argv
appends argv (x ∷ xs) = append_helper_arg argv x >>= λ argv'. appends argv' xs

abbrev pub value : String → Option String → List String
value name none = []
value name (some v) = name ∷ v ∷ []

abbrev pub flag : String → Bool → List String
flag name false = []
flag name true = name ∷ []

abbrev pub sudo : Bool → List String
sudo false = []
sudo true = "sudo" ∷ "--non-interactive" ∷ "--close-from=4" ∷ []

-- The command line of vmnet-helper.
abbrev pub arguments : Bool → String → ClientOptions → List String
arguments root helper_path o =
    sudo root
    ++ (helper_path
        ∷ "--fd=3"
        ∷ (value "--interface-id" o.interface_id
            ++ (value "--operation-mode" o.operation_mode
                ++ (value "--start-address" o.start_address
                    ++ (value "--end-address" o.end_address
                        ++ (value "--subnet-mask" o.subnet_mask
                            ++ (value "--shared-interface" o.shared_interface
                                ++ (flag "--enable-tso" o.enable_tso
                                    ++ (flag "--enable-checksum-offload" o.enable_checksum_offload
                                        ++ (flag "--enable-isolation" o.enable_isolation
                                            ++ (value "--network" o.network_name
                                                ++ (value "--stats-interval" o.stats_interval
                                                    ++ flag "--verbose" o.verbose))))))))))))

>>=-ext :
    {A : Type 0} (m : Outcome A) (f g : A → Outcome A)
    → ((a : A) → f a ≡ g a)
    → (m >>= f) ≡ (m >>= g)
>>=-ext (done a) f g h = h a
>>=-ext (exited c m) f g h = refl
>>=-ext aborted f g h = refl
>>=-ext out_of_fuel f g h = refl

>>=-assoc :
    {A : Type 0} (m : Outcome A) (f g : A → Outcome A) → ((m >>= f) >>= g) ≡ (m >>= λ a. f a >>= g)
>>=-assoc (done a) f g = refl
>>=-assoc (exited c m) f g = refl
>>=-assoc aborted f g = refl
>>=-assoc out_of_fuel f g = refl

-- What comes after an argument, a value or a flag, if `k` appends `t`.
module _ (t : List String) (k : List String → Outcome (List String))
    (rest : (b : List String) → k b ≡ appends b t) where
  then_arg : (a : List String) (x : String) → (append_helper_arg a x >>= k) ≡ appends a (x ∷ t)
  unfolding appends
  then_arg a x = >>=-ext (append_helper_arg a x) k (λ b. appends b t) rest

  then_value :
      (a : List String) (name : String) (v : Option String)
      → (append_value a name v >>= k) ≡ appends a (value name v ++ t)
  unfolding appends
  then_value a name none = rest a
  then_value a name (some v) =
      >>=-assoc (append_helper_arg a name) (λ b. append_helper_arg b v) k
      ∙ >>=-ext (append_helper_arg a name) _ _ (λ b. then_arg b v)

  then_flag :
      (a : List String) (name : String) (b : Bool)
      → (append_flag a name b >>= k) ≡ appends a (flag name b ++ t)
  then_flag a name false = rest a
  then_flag a name true = then_arg a name

  then_sudo : (root : Bool) → (append_sudo root >>= k) ≡ appends [] (sudo root ++ t)
  unfolding appends append_helper_arg
  then_sudo false = rest []
  then_sudo true = rest _

>>=-done : {A : Type 0} (m : Outcome A) → m ≡ (m >>= λ a. done a)
>>=-done (done a) = refl
>>=-done (exited c m) = refl
>>=-done aborted = refl
>>=-done out_of_fuel = refl

last_flag :
    (a : List String) (name : String) (b : Bool) → append_flag a name b ≡ appends a (flag name b)
unfolding appends
last_flag a name false = refl
last_flag a name true = >>=-done (append_helper_arg a name)

append_short :
    (argv : List String) (x : String)
    → length argv < 255
    → append_helper_arg argv x ≡ done (argv ++ (x ∷ []))
unfolding append_helper_arg
append_short argv x lt = ground arith

-- Fewer arguments than the guard counts are all stored.
appends-eq :
    (argv xs : List String) → length argv + length xs ≤ 255 → appends argv xs ≡ done (argv ++ xs)
unfolding appends
appends-eq argv [] le = ap done (sym (append-nil argv))
appends-eq argv (x ∷ xs) le =
    ap (λ m. m >>= λ a. appends a xs) (append_short argv x (omega (arith, le)))
    ∙ appends-eq (argv ++ (x ∷ [])) xs (omega (arith, le, length-append argv (x ∷ [])))
    ∙ ap done (append_assoc argv (x ∷ []) xs)

value_le :
    (name : String) (v : Option String) (t : List String) (n : ℕ)
    → length t ≤ n
    → length (value name v ++ t) ≤ 2 + n
value_le name none t n le = omega (arith, le)
value_le name (some v) t n le = omega (arith, le)

flag_le :
    (name : String) (b : Bool) (t : List String) (n : ℕ)
    → length t ≤ n
    → length (flag name b ++ t) ≤ 1 + n
flag_le name false t n le = omega (arith, le)
flag_le name true t n le = omega (arith, le)

last_le : (name : String) (b : Bool) → length (flag name b) ≤ 1
last_le name false = omega arith
last_le name true = omega arith

sudo_le : (root : Bool) (t : List String) (n : ℕ) → length t ≤ n → length (sudo root ++ t) ≤ 3 + n
sudo_le false t n le = omega (arith, le)
sudo_le true t n le = omega (arith, le)

more : (x y : String) (t : List String) (n : ℕ) → length t ≤ n → length (x ∷ y ∷ t) ≤ 2 + n
more x y t n le = omega (arith, le)

length-arguments :
    (root : Bool) (helper_path : String) (o : ClientOptions)
    → length (arguments root helper_path o) ≤ 25
length-arguments root path o = sudo_le root _ 22 (
    more path "--fd=3" _ 20 (
      value_le _ o.interface_id _ 18 (
        value_le _ o.operation_mode _ 16 (
          value_le _ o.start_address _ 14 (
            value_le _ o.end_address _ 12 (
              value_le _ o.subnet_mask _ 10 (
                value_le _ o.shared_interface _ 8 (
                  flag_le _ o.enable_tso _ 7 (
                    flag_le _ o.enable_checksum_offload _ 6 (
                      flag_le _ o.enable_isolation _ 5 (
                        value_le _ o.network_name _ 3
                          (value_le _ o.stats_interval _ 1 (last_le _ o.verbose)))))))))))))

built :
    (root : Bool) (path : String) (o : ClientOptions)
    → build_arguments root path o ≡ appends [] (arguments root path o)
unfolding build_arguments
built root path o =
    then_sudo _ _
      (λ a.
        then_arg _ _
          (λ b.
            then_arg _ _
              (λ c.
                then_value _ _
                  (λ d.
                    then_value _ _
                      (λ e.
                        then_value _ _
                          (λ f.
                            then_value _ _
                              (λ g.
                                then_value _ _
                                  (λ h.
                                    then_value _ _
                                      (λ i.
                                        then_flag _ _
                                          (λ j.
                                            then_flag _ _
                                              (λ k.
                                                then_flag _ _
                                                  (λ l.
                                                    then_value _ _
                                                      (λ m.
                                                        then_value _ _
                                                          (λ n. last_flag n "--verbose" o.verbose) m
                                                          "--stats-interval" o.stats_interval)
                                                      l "--network" o.network_name)
                                                  k "--enable-isolation" o.enable_isolation)
                                              j "--enable-checksum-offload"
                                              o.enable_checksum_offload)
                                          i "--enable-tso" o.enable_tso)
                                      h "--shared-interface" o.shared_interface)
                                  g "--subnet-mask" o.subnet_mask)
                              f "--end-address" o.end_address)
                          e "--start-address" o.start_address)
                      d "--operation-mode" o.operation_mode)
                  c "--interface-id" o.interface_id)
              b "--fd=3")
          a path)
      root

-- Once the version of macOS is known, `build_helper_argv` stores the whole command line, and a slot of
-- `helper_argv` is left for the NULL that ends it.
pub build_helper_argv_fits :
    (sysctl : Option (List ℕ)) (helper_path : String) (o : ClientOptions) (root : Bool)
    → requires_root sysctl ≡ done root
    → (build_helper_argv sysctl helper_path o ≡ done (arguments root helper_path o))
      × (length (arguments root helper_path o) < helper_slots)
unfolding build_helper_argv
build_helper_argv_fits sysctl path o root h = (
  rw (h, built root path o)
      (appends-eq [] (arguments root path o) (omega (arith, length-arguments root path o))),
  omega (arith, length-arguments root path o),
)

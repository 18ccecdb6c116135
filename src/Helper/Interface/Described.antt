-- ===== src/Helper/Interface/Described.antt =====
-- The interface description of programs/helper.c, and the options that it is to say.
use vmnet_helper.Prelude.{
  ◌≡◌, refl, Bool, true, false, [], ◌∷◌, ◌++◌, Option, none, some, String, done, arith, ◌==◌,
  if◌then◌else◌,
}
use vmnet_helper.Process.{
  Key, Value, uint64, bool, string, uuid, Description, interface_id, operation_mode, start_address,
  end_address, subnet_mask, shared_interface_name, enable_isolation, enable_tso,
  enable_checksum_offload, allocate_mac_address,
}
use vmnet_helper.Options.{Options, Uuid, vmnet_bridged_mode, is_set}
use vmnet_helper.Options.Valid.{Accepted}
use vmnet_helper.Helper.Interface.{description, mode_description}

abbrev pub is_bridged_mode : Options → Bool
is_bridged_mode o = o.operation_mode == vmnet_bridged_mode

abbrev pub text : Option String → Option Value
text none = none
text (some s) = some (string s)

-- What vmnet should be told under a key.
abbrev pub entry : (Uuid → Bool) → Options → Key → Option Value
entry uuid_is_null o interface_id =
    if uuid_is_null o.interface_id then none else some (uuid o.interface_id)
entry uuid_is_null o operation_mode = some (uint64 o.operation_mode)
entry uuid_is_null o start_address = if is_bridged_mode o then none else text o.start_address
entry uuid_is_null o end_address = if is_bridged_mode o then none else text o.end_address
entry uuid_is_null o subnet_mask = if is_bridged_mode o then none else text o.subnet_mask
entry uuid_is_null o shared_interface_name =
    if is_bridged_mode o then text o.shared_interface else none
entry uuid_is_null o enable_isolation =
    if is_bridged_mode o then none else some (bool o.enable_isolation)
entry uuid_is_null o enable_tso = some (bool o.enable_tso)
entry uuid_is_null o enable_checksum_offload = some (bool o.enable_checksum_offload)
entry uuid_is_null o allocate_mac_address = none

abbrev pub same_key : Key → Key → Bool
same_key interface_id interface_id = true
same_key operation_mode operation_mode = true
same_key start_address start_address = true
same_key end_address end_address = true
same_key subnet_mask subnet_mask = true
same_key shared_interface_name shared_interface_name = true
same_key enable_isolation enable_isolation = true
same_key enable_tso enable_tso = true
same_key enable_checksum_offload enable_checksum_offload = true
same_key allocate_mac_address allocate_mac_address = true
same_key _ _ = false

abbrev pub value_at : Key → Description → Option Value
value_at k [] = none
value_at k ((j, v) ∷ d) = if same_key k j then some v else value_at k d

abbrev text_entry : Key → Option String → Description
text_entry k none = []
text_entry k (some s) = (k, string s) ∷ []

abbrev mode_entries : Options → Description
mode_entries o =
    if is_bridged_mode o
    then text_entry shared_interface_name o.shared_interface
    else text_entry start_address o.start_address
      ++ (text_entry end_address o.end_address
          ++ (text_entry subnet_mask o.subnet_mask
              ++ ((enable_isolation, bool o.enable_isolation) ∷ [])))

-- All entries, in order.
abbrev entries : (Uuid → Bool) → Options → Description
entries u o =
    (if u o.interface_id then [] else (interface_id, uuid o.interface_id) ∷ [])
    ++ ((operation_mode, uint64 o.operation_mode)
        ∷ (mode_entries o
            ++ ((enable_tso, bool o.enable_tso)
                ∷ (enable_checksum_offload, bool o.enable_checksum_offload)
                ∷ [])))

mode_description-entries :
    (o : Options) (rest : Description)
    → Accepted o
    → is_set o.network_name ≡ false
    → mode_description o rest ≡ done (mode_entries o ++ rest)
unfolding mode_description
mode_description-entries o rest a own =
    ground (arith, a.in_range.mode_known, a.together, a.network_or_mode)

description-entries :
    (u : Uuid → Bool) (o : Options)
    → Accepted o
    → is_set o.network_name ≡ false
    → description u o ≡ done (entries u o)
unfolding description
description-entries u o a own = rw (mode_description-entries o _ a own) refl

value_at-entries :
    (u : Uuid → Bool) (o : Options) (k : Key) → value_at k (entries u o) ≡ entry u o k
value_at-entries u o interface_id = ground arith
value_at-entries u o operation_mode = ground arith
value_at-entries u o start_address = ground arith
value_at-entries u o end_address = ground arith
value_at-entries u o subnet_mask = ground arith
value_at-entries u o shared_interface_name = ground arith
value_at-entries u o enable_isolation = ground arith
value_at-entries u o enable_tso = ground arith
value_at-entries u o enable_checksum_offload = ground arith
value_at-entries u o allocate_mac_address = ground arith

-- With options that `parse_options` has accepted and no network of the broker, the interface description is built
-- without a failed assertion or a missing text, and each key has the value that the options ask for.
pub description-entry :
    (u : Uuid → Bool) (o : Options)
    → Accepted o
    → is_set o.network_name ≡ false
    → (d : Description) × (description u o ≡ done d) × ((k : Key) → value_at k d ≡ entry u o k)
description-entry u o a own = (entries u o, description-entries u o a own, value_at-entries u o)

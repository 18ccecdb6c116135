-- ===== src/Helper/Report/Reading.antt =====
-- The texts that programs/helper.c writes, read as JSON: the description of the interface.
use mathlib.Core.List.{append_assoc}
use vmnet_helper.Prelude.{
  ℕ, zero, suc, ◌+◌, ◌≤◌, ◌≡◌, refl, ap, ◌∙◌, sym, true, false, List, [], ◌∷◌, ◌++◌, Option, none,
  some, ltb, arith,
}
use vmnet_helper.Libc.{ℤ, pos, negsuc, codes}
use vmnet_helper.Options.{Uuid}
use vmnet_helper.Json.{
  Json, Members, number, text, object, end, member, separated, render, render_members, read_value,
}
use vmnet_helper.Json.RoundTrip.{AllPlain, cost, read_value-render}
use vmnet_helper.Helper.Report.{
  Network, Parameter, uint64, int64, string, uuid, other, signed_text, string_text, print_item,
  print_parameters, print_network, write_interface_info,
}

-- The rest of the members, after `count` others.
abbrev continued : ℕ → Members → List ℕ → List ℕ
continued zero ms r = render_members false ms r
continued (suc count) ms r = separated false ms (render_members false ms r)

continued-end : (count : ℕ) (r : List ℕ) → continued count end r ≡ r
unfolding render
continued-end zero r = refl
continued-end (suc count) r = refl

-- Printing an item, if the text of its value is that of `v`.
print_item-eq :
    (key value : List ℕ) (v : Json) (rest : Members) (count : ℕ) (out r : List ℕ)
    → ((x : List ℕ) → value ++ x ≡ render false v x)
    → (print_item key value (count, out)).1 ++ continued (count + 1) rest r
      ≡ out ++ continued count (member key v rest) r
unfolding render
print_item-eq key value v rest zero out r h =
    rw (← h (separated false rest (render_members false rest r))) (simp (append_assoc))
print_item-eq key value v rest (suc count) out r h =
    let after : suc count + 1 ≡ suc (suc count) = omega arith in
    let more : ltb 0 (suc count) ≡ true = ground arith in
    rw (after, more)
      (rw (← h (separated false rest (render_members false rest r))) (simp (append_assoc)))

signed_text_eq : (z : ℤ) (x : List ℕ) → signed_text z ++ x ≡ render false (number z) x
unfolding render
signed_text_eq (pos n) x = refl
signed_text_eq (negsuc n) x = refl

string_text_eq : (s x : List ℕ) → string_text s ++ x ≡ render false (text s) x
unfolding render
string_text_eq s x = simp (append_assoc)

abbrev pub network_members : Option Network → Members
network_members none = end
network_members (some net) = member (codes "net_ipv4_subnet") (text net.subnet) (
    member (codes "net_ipv4_mask") (text net.mask) (
      member (codes "net_ipv6_prefix") (text net.ipv6_prefix)
        (member (codes "net_ipv6_prefix_len") (number (pos net.prefix_len)) end)))

print_network-eq :
    (net : Option Network) (count : ℕ) (out r : List ℕ)
    → (print_network net (count, out)).1 ++ r ≡ out ++ continued count (network_members net) r
print_network-eq none count out r = ap (λ x. out ++ x) (sym (continued-end count r))
print_network-eq (some net) count out r =
    ap (λ x. (print_network (some net) (count, out)).1 ++ x)
      (sym (continued-end (count + 1 + 1 + 1 + 1) r))
    ∙ print_item-eq (codes "net_ipv6_prefix_len") _ (number (pos net.prefix_len)) end
        (count + 1 + 1 + 1) _ r (signed_text_eq (pos net.prefix_len))
    ∙ print_item-eq (codes "net_ipv6_prefix") _ (text net.ipv6_prefix) _ (count + 1 + 1) _ r
        (string_text_eq net.ipv6_prefix)
    ∙ print_item-eq (codes "net_ipv4_mask") _ (text net.mask) _ (count + 1) _ r
        (string_text_eq net.mask)
    ∙ print_item-eq (codes "net_ipv4_subnet") _ (text net.subnet) _ count out r
        (string_text_eq net.subnet)

-- The entries that are printed, and the network.
module _ (uuid_unparse : Uuid → List ℕ) where
  abbrev pub parameter_member : List ℕ → Parameter → Members → Members
  parameter_member key (uint64 n) rest = member key (number (pos n)) rest
  parameter_member key (int64 z) rest = member key (number z) rest
  parameter_member key (string s) rest = member key (text s) rest
  parameter_member key (uuid u) rest = member key (text (uuid_unparse u)) rest
  parameter_member key other rest = rest

  abbrev pub info_members : List (List ℕ × Parameter) → Option Network → Members
  info_members [] net = network_members net
  info_members ((key, value) ∷ entries) net = parameter_member key value (info_members entries net)

  print_parameters-eq :
      (entries : List (List ℕ × Parameter)) (net : Option Network) (count : ℕ) (out r : List ℕ)
      → (print_network net (print_parameters uuid_unparse entries (count, out))).1 ++ r
        ≡ out ++ continued count (info_members entries net) r
  unfolding print_parameters
  print_parameters-eq [] net count out r = print_network-eq net count out r
  print_parameters-eq ((key, uint64 n) ∷ entries) net count out r =
      print_parameters-eq entries net (count + 1) _ r
      ∙ print_item-eq key _ _ _ count out r (signed_text_eq (pos n))
  print_parameters-eq ((key, int64 z) ∷ entries) net count out r =
      print_parameters-eq entries net (count + 1) _ r
      ∙ print_item-eq key _ _ _ count out r (signed_text_eq z)
  print_parameters-eq ((key, string s) ∷ entries) net count out r =
      print_parameters-eq entries net (count + 1) _ r
      ∙ print_item-eq key _ _ _ count out r (string_text_eq s)
  print_parameters-eq ((key, uuid u) ∷ entries) net count out r =
      print_parameters-eq entries net (count + 1) _ r
      ∙ print_item-eq key _ _ _ count out r (string_text_eq (uuid_unparse u))
  print_parameters-eq ((key, other) ∷ entries) net count out r =
      print_parameters-eq entries net count out r

  write_interface_info-eq :
      (entries : List (List ℕ × Parameter)) (net : Option Network)
      → write_interface_info uuid_unparse entries net
        ≡ render false (object (info_members entries net)) (b'\n' ∷ [])
  unfolding write_interface_info render
  write_interface_info-eq entries net =
      print_parameters-eq entries net 0 (b'{' ∷ []) (b'}' ∷ b'\n' ∷ [])

  -- If no text of the dictionary or the network needs escapes in JSON, and the numbers have at most 20 digits, then
  -- `write_interface_info` writes one line with a JSON object, and reading it gives the entries of the dictionary
  -- that have a type to print, in their order, and then those of the network, if there is one.
  pub write_interface_info-reads :
      (fuel : ℕ) (entries : List (List ℕ × Parameter)) (net : Option Network)
      → cost (object (info_members entries net)) ≤ fuel
      → AllPlain (info_members entries net)
      → read_value fuel (write_interface_info uuid_unparse entries net)
        ≡ some (object (info_members entries net), b'\n' ∷ [])
  write_interface_info-reads fuel entries net le plain =
      ap (read_value fuel) (write_interface_info-eq entries net)
      ∙ read_value-render false fuel (object (info_members entries net)) _ le plain refl

-- ===== src/Helper/Report.antt =====
-- The texts that programs/helper.c writes for its clients: the description of the interface on stdout, and the
-- statistics on stderr.
pub mod Reading
pub mod Stats
pub mod Line
use vmnet_helper.Prelude.{
  ℕ, zero, suc, ◌+◌, Bool, List, [], ◌∷◌, ◌++◌, Option, none, some, Outcome, done, ◌>>=◌, ltb,
  if◌then◌else◌,
}
use vmnet_helper.Libc.{ℤ, pos, negsuc, codes, print}
use vmnet_helper.Options.{Uuid}
use vmnet_helper.Helper.Endpoint.{ForwardStats}
use vmnet_helper.Helper.Timestamp.{iso_8601_timestamp}

-- `struct network`
pub record Network : Type 0 where
  pub subnet : List ℕ
  pub mask : List ℕ
  pub ipv6_prefix : List ℕ
  pub prefix_len : ℕ

-- What vmnet tells about a network: the IPv4 subnet and its mask, and the IPv6 prefix and its length.
pub record Addresses : Type 0 where
  pub subnet : List ℕ
  pub mask : List ℕ
  pub ipv6_prefix : List ℕ
  pub prefix_len : ℕ

-- `inet_ntop`, for the two families, is of libc.
unfoldable pub network_from_ref : (List ℕ → List ℕ) → (List ℕ → List ℕ) → Addresses → Network
network_from_ref inet_ntop inet_ntop6 a = record {
  subnet = inet_ntop a.subnet;
  mask = inet_ntop a.mask;
  ipv6_prefix = inet_ntop6 a.ipv6_prefix;
  prefix_len = a.prefix_len;
}

-- The values of the dictionary of vmnet.
pub data Parameter : Type 0 where
  uint64 : ℕ → Parameter
  int64 : ℤ → Parameter
  string : List ℕ → Parameter
  uuid : Uuid → Parameter
  -- of another type
  other : Parameter

-- `%lld`
abbrev pub signed_text : ℤ → List ℕ
signed_text (pos n) = print 20 n
signed_text (negsuc n) = b'-' ∷ print 20 (suc n)

-- `\"%s\"`
abbrev pub string_text : List ℕ → List ℕ
string_text s = b'"' ∷ (s ++ (b'"' ∷ []))

-- `count`, and what has been written.
abbrev pub Output : Type 0
Output = ℕ × List ℕ

-- `print_item`, with the value as it is printed.
abbrev pub print_item : List ℕ → List ℕ → Output → Output
print_item key value (count, out) = (
  count + 1,
  (if ltb 0 count then out ++ (b',' ∷ []) else out) ++ (string_text key ++ (b':' ∷ value)),
)

abbrev pub print_network : Option Network → Output → Output
print_network none out = out
print_network (some net) out = print_item (codes "net_ipv6_prefix_len") (print 20 net.prefix_len) (
    print_item (codes "net_ipv6_prefix") (string_text net.ipv6_prefix) (
      print_item (codes "net_ipv4_mask") (string_text net.mask)
        (print_item (codes "net_ipv4_subnet") (string_text net.subnet) out)))

-- `uuid_unparse` is of libuuid.
module _ (uuid_unparse : Uuid → List ℕ) where
  -- The block that `xpc_dictionary_apply` calls for each entry.
  abbrev pub print_parameter : List ℕ → Parameter → Output → Output
  print_parameter key (uint64 n) out = print_item key (print 20 n) out
  print_parameter key (int64 z) out = print_item key (signed_text z) out
  print_parameter key (string s) out = print_item key (string_text s) out
  print_parameter key (uuid u) out = print_item key (string_text (uuid_unparse u)) out
  print_parameter key other out = out

  unfoldable pub print_parameters : List (List ℕ × Parameter) → Output → Output
  print_parameters [] out = out
  print_parameters ((key, value) ∷ entries) out =
      print_parameters entries (print_parameter key value out)

  unfoldable pub write_interface_info : List (List ℕ × Parameter) → Option Network → List ℕ
  unfolding print_parameters
  write_interface_info param net =
      (print_network net (print_parameters param (0, b'{' ∷ []))).1 ++ (b'}' ∷ b'\n' ∷ [])

-- The counters of an endpoint, as the format of `report_stats` has them.
abbrev pub counters : ForwardStats → List ℕ
counters t =
    codes "{\"packets\": "
    ++ (print 20 t.packets
        ++ (codes ", \"bytes\": "
            ++ (print 20 t.bytes
                ++ (codes ", \"drops\": "
                    ++ (print 20 t.drops
                        ++ (codes ", \"fast\": "
                            ++ (print 20 t.fast
                                ++ (codes ", \"slow\": " ++ (print 20 t.slow ++ codes "}")))))))))

-- `INFOF`, of log.h
abbrev pub infof : List ℕ → List ℕ
infof message = codes "INFO  " ++ (message ++ (b'\n' ∷ []))

unfoldable pub stats_line : List ℕ → ForwardStats → ForwardStats → List ℕ
stats_line timestamp host vm = infof (
    codes "[stats] "
    ++ (codes "{\"time\": \""
        ++ (timestamp
            ++ (codes "\", \"host\": "
                ++ (counters host ++ (codes ", \"vm\": " ++ (counters vm ++ codes "}")))))))

-- `char timestamp[32]`
abbrev pub timestamp_size : ℕ
timestamp_size = 32

-- The date, the nanoseconds and the offset from UTC are those of `iso_8601_timestamp`.
unfoldable pub report_stats : List ℕ → ℕ → ℤ → ForwardStats → ForwardStats → Outcome (List ℕ)
unfolding stats_line
report_stats date tv_nsec tm_gmtoff host vm = do
  timestamp ← iso_8601_timestamp date tv_nsec tm_gmtoff timestamp_size
  done (stats_line timestamp host vm)

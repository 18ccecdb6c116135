-- ===== src/Scenarios/Reports.antt =====
-- The texts of vmnet-helper, for a network and for some counters.
use vmnet_helper.Prelude.{◌==◌, if◌then◌else◌, ℕ, ◌≡◌, refl, List, [], ◌∷◌, ◌++◌, some, arith}
use vmnet_helper.Libc.{pos, codes, print}
use vmnet_helper.Options.{Uuid}
use vmnet_helper.Json.{object, read_value}
use vmnet_helper.Helper.Endpoint.{ForwardStats}
use vmnet_helper.Helper.Report.{
  Network, Parameter, uint64, string, uuid, other, network_from_ref, write_interface_info,
  report_stats,
}
use vmnet_helper.Helper.Report.Reading.{info_members, write_interface_info-reads}
use vmnet_helper.Helper.Report.Stats.{Logged, report_stats-Logged}

abbrev unparsed : Uuid → List ℕ
unparsed u = codes "2f1b-uuid"

abbrev entries : List (List ℕ × Parameter)
entries =
    (codes "vmnet_mac_address", string (codes "92:00:00:00:00:01"))
    ∷ (codes "vmnet_write_max_packets", uint64 256)
    ∷ (codes "vmnet_handle", other)
    ∷ (codes "vmnet_interface_id", uuid (1 ∷ 2 ∷ []))
    ∷ []

-- `inet_ntop`, for the addresses below.
abbrev dotted : List ℕ → List ℕ
dotted [] = codes "0.0.0.0"
dotted (c ∷ s) = if c == 255 then codes "255.255.255.0" else codes "192.168.64.0"

abbrev prefixed : List ℕ → List ℕ
prefixed a = codes "fd00::"

abbrev shared : Network
unfolding network_from_ref
shared = network_from_ref dotted prefixed (record {
  subnet = 192 ∷ 168 ∷ 64 ∷ 0 ∷ [];
  mask = 255 ∷ 255 ∷ 255 ∷ 0 ∷ [];
  ipv6_prefix = 253 ∷ 0 ∷ [];
  prefix_len = 64;
})

write_interface_info_text :
    write_interface_info unparsed entries (some shared)
    ≡ codes "{\"vmnet_mac_address\":\"92:00:00:00:00:01\",\"vmnet_write_max_packets\":256,"
      ++ (codes "\"vmnet_interface_id\":\"2f1b-uuid\",\"net_ipv4_subnet\":\"192.168.64.0\","
          ++ (codes "\"net_ipv4_mask\":\"255.255.255.0\",\"net_ipv6_prefix\":\"fd00::\","
              ++ (codes "\"net_ipv6_prefix_len\":64}" ++ (b'\n' ∷ []))))
unfolding write_interface_info print network_from_ref
write_interface_info_text = refl

write_interface_info-reads_example :
    read_value 64 (write_interface_info unparsed entries (some shared))
    ≡ some (object (info_members unparsed entries (some shared)), b'\n' ∷ [])
unfolding network_from_ref
write_interface_info-reads_example =
    write_interface_info-reads unparsed 64 entries (some shared) (omega arith) (
      search,
      search,
      (
        search,
        omega arith,
        (
          search,
          search,
          (search, search, (search, search, (search, search, (search, omega arith, tt)))),
        ),
      ),
    )

abbrev sent : ForwardStats
sent = record { packets = 10; bytes = 14000; drops = 1; fast = 3; slow = 2 }

report_stats-Logged_example :
    Logged
      (codes "1970-06-01T12:00:00")
      5000000
      (pos 7200)
      sent
      sent
      (report_stats (codes "1970-06-01T12:00:00") 5000000 (pos 7200) sent sent)
report_stats-Logged_example =
    report_stats-Logged (codes "1970-06-01T12:00:00") 5000000 (pos 7200) sent sent refl (search)
      (omega arith) (omega arith) (omega arith, omega arith, omega arith, omega arith, omega arith)
      (omega arith, omega arith, omega arith, omega arith, omega arith)

-- ===== src/Scenarios/Timestamp.antt =====
-- A time in a zone half an hour to the west of UTC.
use vmnet_helper.Prelude.{ℕ, ◌/◌, ◌^◌, ◌≡◌, refl, List, ◌∷◌, ◌++◌, some, done, arith}
use vmnet_helper.Libc.{pos, negsuc, codes, print}
use vmnet_helper.Helper.Timestamp.{iso_8601_timestamp, padded, offset, signed}
use vmnet_helper.Helper.Timestamp.Offset.{read_offset, iso_8601_timestamp-shown}

abbrev date : List ℕ
date = codes "1970-06-01T12:00:00"

timestamp_text :
    iso_8601_timestamp date 5000000 (negsuc 1799) 32 ≡ done (codes "1970-06-01T12:00:00.005+00:30")
unfolding iso_8601_timestamp padded print offset signed
timestamp_text = refl

iso_8601_timestamp-shown_example :
    (zone : List ℕ) × (iso_8601_timestamp date 5000000 (negsuc 1799) 32
      ≡ done (date ++ (b'.' ∷ (padded 3 (5000000 / 10 ^ 6) ++ zone))))
    × (read_offset zone ≡ some (pos 1800))
iso_8601_timestamp-shown_example =
    iso_8601_timestamp-shown date 5000000 (negsuc 1799) refl (omega arith) refl (omega arith)

-- ===== src/Helper/Report/Line.antt =====
-- The line of statistics that `report_stats` of programs/helper.c logs.
use vmnet_helper.Prelude.{ℕ, ◌/◌, ◌^◌, ◌<◌, ◌≡◌, refl, List, ◌∷◌, ◌++◌, length, done, ◌>>=◌}
use vmnet_helper.Libc.{ℤ, distance}
use vmnet_helper.Helper.Endpoint.{ForwardStats}
use vmnet_helper.Helper.Timestamp.{padded, offset}
use vmnet_helper.Helper.Timestamp.Offset.{iso_8601_timestamp-eq}
use vmnet_helper.Helper.Report.{stats_line, report_stats}

-- No assertion fails, and the line is `stats_line`.
pub report_stats-eq :
    (date : List ℕ) (tv_nsec : ℕ) (tm_gmtoff : ℤ) (host vm : ForwardStats)
    → length date ≡ 19
    → tv_nsec < 10 ^ 9
    → distance tm_gmtoff < 360000
    → report_stats date tv_nsec tm_gmtoff host vm
      ≡ done
          (stats_line (date ++ (b'.' ∷ (padded 3 (tv_nsec / 10 ^ 6) ++ offset tm_gmtoff))) host vm)
unfolding report_stats
report_stats-eq date tv_nsec tm_gmtoff host vm d ns small =
    rw (iso_8601_timestamp-eq date tv_nsec tm_gmtoff d ns small, ◌>>=◌) refl

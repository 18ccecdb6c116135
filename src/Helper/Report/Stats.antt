-- ===== src/Helper/Report/Stats.antt =====
-- The texts that programs/helper.c writes, read as JSON: the statistics.
use mathlib.Core.List.{append_assoc}
use vmnet_helper.Prelude.{
  ℕ, zero, suc, ◌^◌, ◌<◌, ◌/◌, length, take, replicate, All, All-append, Outcome, done, ◌≡◌, refl,
  ◌∙◌, ap, true, List, [], ◌∷◌, ◌++◌, some, arith,
}
use vmnet_helper.Libc.{ℤ, pos, negsuc, distance, codes, print}
use vmnet_helper.Libc.Decimal.{IsDigit}
use vmnet_helper.Libc.Print.{print-IsDigit}
use vmnet_helper.Helper.Timestamp.{padded, signed, offset, hours, minutes, iso_8601_timestamp}
use vmnet_helper.Helper.Timestamp.Offset.{iso_8601_timestamp-eq}
use vmnet_helper.Json.{Json, number, text, object, end, member, render, is_plain, read_value}
use vmnet_helper.Json.RoundTrip.{IsPlain, IsPlainText, read_value-render}
use vmnet_helper.Helper.Endpoint.{ForwardStats}
use vmnet_helper.Helper.Report.{stats_line, report_stats}
use vmnet_helper.Helper.Report.Line.{report_stats-eq}

-- What the statistics are to say.
abbrev pub counters_json : ForwardStats → Json
counters_json t = object (
    member (codes "packets") (number (pos t.packets)) (
      member (codes "bytes") (number (pos t.bytes)) (
        member (codes "drops") (number (pos t.drops)) (
          member (codes "fast") (number (pos t.fast))
            (member (codes "slow") (number (pos t.slow)) end)))))

abbrev pub stats_json : List ℕ → ForwardStats → ForwardStats → Json
stats_json timestamp host vm = object (
    member (codes "time") (text timestamp)
      (member (codes "host") (counters_json host) (member (codes "vm") (counters_json vm) end)))

stats_line-eq :
    (timestamp : List ℕ) (host vm : ForwardStats)
    → stats_line timestamp host vm
      ≡ codes "INFO  [stats] " ++ render true (stats_json timestamp host vm) (b'\n' ∷ [])
unfolding stats_line render
stats_line-eq timestamp host vm = simp (append_assoc)

-- Digits need no escapes.
IsDigit-plain : (s : List ℕ) → All IsDigit s → IsPlainText s
IsDigit-plain [] h = tt
IsDigit-plain (c ∷ s) h = (ground (arith, h.0), IsDigit-plain s h.1)

zeros-plain : (n : ℕ) → IsPlainText (replicate n b'0')
zeros-plain zero = tt
zeros-plain (suc n) = (refl, zeros-plain n)

plain-append : (s r : List ℕ) → IsPlainText s → IsPlainText r → IsPlainText (s ++ r)
plain-append s r h k = All-append (λ c. is_plain c ≡ true) s r h k

padded-plain : (w n : ℕ) → IsPlainText (padded w n)
unfolding padded
padded-plain w n =
    plain-append (replicate _ b'0') (print 10 n) (zeros-plain _)
      (IsDigit-plain (print 10 n) (print-IsDigit 10 n))

signed-plain : (z : ℤ) → IsPlainText (signed z)
unfolding signed
signed-plain (pos n) = (refl, padded-plain 2 n)
signed-plain (negsuc n) = (refl, padded-plain 2 (suc n))

offset-plain : (z : ℤ) → IsPlainText (offset z)
unfolding offset
offset-plain z =
    plain-append (signed (hours z)) (b':' ∷ padded 2 (minutes z)) (signed-plain (hours z))
      (refl, padded-plain 2 (minutes z))

-- The counters are those of 64 bits.
abbrev pub IsCounted : ForwardStats → Type 0
IsCounted t =
    (t.packets < 2 ^ 64)
    × (t.bytes < 2 ^ 64)
    × (t.drops < 2 ^ 64)
    × (t.fast < 2 ^ 64)
    × (t.slow < 2 ^ 64)

counters-IsPlain : (t : ForwardStats) → IsCounted t → IsPlain (counters_json t)
counters-IsPlain t (a, b, c, d, e) = (
  search,
  omega arith,
  (search, omega arith, (search, omega arith, (search, omega arith, (search, omega arith, tt)))),
)

take-append : (s r : List ℕ) → take (length s) (s ++ r) ≡ s
take-append [] r = refl
take-append (c ∷ s) r = ap (λ t. c ∷ t) (take-append s r)

-- A line of statistics that was logged, with the object that its text holds. The time is the text of
-- `iso_8601_timestamp`, which begins with the date.
pub record Logged (date : List ℕ) (tv_nsec : ℕ) (tm_gmtoff : ℤ) (host vm : ForwardStats)
    (result : Outcome (List ℕ)) : Type 0 where
  pub timestamp : List ℕ
  pub timestamp_eq : iso_8601_timestamp date tv_nsec tm_gmtoff 32 ≡ done timestamp
  pub dated : take 19 timestamp ≡ date
  pub object_text : List ℕ
  pub returned : result ≡ done (codes "INFO  [stats] " ++ object_text)
  pub reads : read_value 64 object_text ≡ some (stats_json timestamp host vm, b'\n' ∷ [])

-- If the date has nineteen characters that need no escapes in JSON, the nanoseconds are less than a second, the offset
-- from UTC is less than a hundred hours, and the counters have 64 bits, then no assertion of `report_stats` fails,
-- and it logs one line with a JSON object: reading it gives the text of `iso_8601_timestamp`,
-- which begins with the date, and every counter of both endpoints, each under its
-- name.
pub report_stats-Logged :
    (date : List ℕ) (tv_nsec : ℕ) (tm_gmtoff : ℤ) (host vm : ForwardStats)
    → length date ≡ 19
    → IsPlainText date
    → tv_nsec < 10 ^ 9
    → distance tm_gmtoff < 360000
    → IsCounted host
    → IsCounted vm
    → Logged date tv_nsec tm_gmtoff host vm (report_stats date tv_nsec tm_gmtoff host vm)
report_stats-Logged date tv_nsec tm_gmtoff host vm d plain ns small h v =
    let ms = padded 3 (tv_nsec / 10 ^ 6) in
    let timestamp = date ++ (b'.' ∷ (ms ++ offset tm_gmtoff)) in
    let all_plain : IsPlainText timestamp =
      plain-append date (b'.' ∷ (ms ++ offset tm_gmtoff)) plain
        (refl, plain-append ms (offset tm_gmtoff) (padded-plain 3 _) (offset-plain tm_gmtoff)) in
    record {
      timestamp = timestamp;
      timestamp_eq = iso_8601_timestamp-eq date tv_nsec tm_gmtoff d ns small;
      dated = rw (← d) (take-append date _);
      object_text = render true (stats_json timestamp host vm) (b'\n' ∷ []);
      returned =
          report_stats-eq date tv_nsec tm_gmtoff host vm d ns small
          ∙ ap done (stats_line-eq timestamp host vm);
      reads =
          read_value-render true 64 (stats_json timestamp host vm) (b'\n' ∷ []) (omega arith)
            (
              search,
              all_plain,
              (search, counters-IsPlain host h, (search, counters-IsPlain vm v, tt)),
            )
            refl;
    }

-- ===== src/Helper/Timestamp/Offset.antt =====
-- The texts of `iso_8601_timestamp` of programs/helper.c, and how their offset is read.
use vmnet_helper.Prelude.{
  ℕ, zero, suc, ◌+◌, ◌-◌, ◌*◌, ◌/◌, ◌%◌, ◌^◌, ◌<◌, ◌≡◌, refl, ◌∙◌, List, [], ◌∷◌, ◌++◌, length,
  length-append, Option, some, none, done, ltb, ◌==◌, if◌then◌else◌, arith,
}
use vmnet_helper.Libc.{ℤ, pos, negsuc, negated, distance, print}
use vmnet_helper.Helper.Timestamp.{padded, hours, minutes, signed, offset, iso_8601_timestamp}

padded_two : (n : ℕ) → n < 100 → padded 2 n ≡ (b'0' + n / 10) ∷ (b'0' + n % 10) ∷ []
unfolding padded print
padded_two n lt = ground arith

length-padded_three : (n : ℕ) → n < 1000 → length (padded 3 n) ≡ 3
unfolding padded print
length-padded_three n lt = ground arith

abbrev digit : ℕ → ℕ
digit c = c - b'0'

abbrev seconds : ℕ → ℕ → ℕ → ℕ → ℕ
seconds a b c d = (digit a * 10 + digit b) * 3600 + (digit c * 10 + digit d) * 60

-- `+hh:mm` or `-hh:mm`, in seconds.
abbrev pub read_offset : List ℕ → Option ℤ
read_offset (sign ∷ a ∷ b ∷ colon ∷ c ∷ d ∷ []) =
    if colon == b':'
    then (if sign == b'+'
        then some (pos (seconds a b c d))
        else if sign == b'-'
        then some (negated (seconds a b c d))
        else none)
    else none
read_offset _ = none

-- What is read for an offset: less than an hour to the west it loses its sign.
abbrev pub shown : ℤ → ℤ
shown (pos n) = pos n
shown (negsuc n) = if ltb (suc n) 3600 then pos (suc n) else negsuc n

offset_at :
    (sign h m : ℕ)
    → h < 100
    → m < 60
    → read_offset (sign ∷ (padded 2 h ++ (b':' ∷ padded 2 m))) ≡ (
        if sign == b'+'
        then some (pos (h * 3600 + m * 60))
        else if sign == b'-'
        then some (negated (h * 3600 + m * 60))
        else none)
offset_at sign h m hl ml =
    let value : seconds (b'0' + h / 10) (b'0' + h % 10) (b'0' + m / 10) (b'0' + m % 10)
        ≡ h * 3600 + m * 60 =
      omega arith in
    rw (padded_two h hl, padded_two m (omega (arith, ml)), value) refl

-- The hours and the minutes of whole minutes.
whole_minutes : (n : ℕ) → n % 60 ≡ 0 → n / 3600 * 3600 + n % 3600 / 60 * 60 ≡ n
whole_minutes n whole = omega (arith, whole)

signed-negated : (k : ℕ) → signed (negated k) ≡ (if k == 0 then b'+' else b'-') ∷ padded 2 k
unfolding signed
signed-negated zero = refl
signed-negated (suc k) = ground arith

offset-shown :
    (gmtoff : ℤ)
    → distance gmtoff % 60 ≡ 0
    → distance gmtoff < 360000
    → read_offset (offset gmtoff) ≡ some (shown gmtoff)
unfolding offset signed
offset-shown (pos n) whole small =
    rw
      (offset_at b'+' (n / 3600) (n % 3600 / 60) (omega arith) (omega arith), whole_minutes n whole)
      refl
offset-shown (negsuc n) whole small =
    let k = suc n / 3600 in
    let sign : ℕ = if k == 0 then b'+' else b'-' in
    let kl : suc n / 3600 < 100 = omega arith in
    let ml : suc n % 3600 / 60 < 60 = omega arith in
    rw (signed-negated k, offset_at sign k (suc n % 3600 / 60) kl ml, whole_minutes (suc n) whole)
      (ground arith)

length-padded_two : (n : ℕ) → n < 100 → length (padded 2 n) ≡ 2
length-padded_two n lt = rw (padded_two n lt) refl

hours_small : (z : ℤ) → distance z < 360000 → distance (hours z) < 100
hours_small (pos n) small = omega (arith, small)
hours_small (negsuc n) small = ground (arith, small)

length-signed : (z : ℤ) → distance z < 100 → length (signed z) ≡ 3
unfolding signed
length-signed (pos n) small = omega (arith, length-padded_two n small)
length-signed (negsuc n) small = omega (arith, length-padded_two (suc n) small)

minutes_small : (z : ℤ) → minutes z < 60
minutes_small (pos n) = omega arith
minutes_small (negsuc n) = omega arith

length-offset : (z : ℤ) → distance z < 360000 → length (offset z) ≡ 6
unfolding offset
length-offset z small =
    let m : minutes z < 100 = omega (arith, minutes_small z) in
    length-append (signed (hours z)) (b':' ∷ padded 2 (minutes z))
    ∙ omega (arith, length-signed (hours z) (hours_small z small), length-padded_two (minutes z) m)

pub iso_8601_timestamp-eq :
    (date : List ℕ) (tv_nsec : ℕ) (tm_gmtoff : ℤ)
    → length date ≡ 19
    → tv_nsec < 10 ^ 9
    → distance tm_gmtoff < 360000
    → iso_8601_timestamp date tv_nsec tm_gmtoff 32
      ≡ done (date ++ (b'.' ∷ (padded 3 (tv_nsec / 10 ^ 6) ++ offset tm_gmtoff)))
unfolding iso_8601_timestamp
iso_8601_timestamp-eq date tv_nsec tm_gmtoff d ns small =
    let zone = offset tm_gmtoff in
    let ms = padded 3 (tv_nsec / 10 ^ 6) in
    let three : length ms ≡ 3 = length-padded_three (tv_nsec / 10 ^ 6) (omega (arith, ns)) in
    let rest : length (ms ++ zone) ≡ 9 =
      length-append ms zone ∙ omega (arith, three, length-offset tm_gmtoff small) in
    let all : length (date ++ (b'.' ∷ (ms ++ zone))) ≡ 29 =
      length-append date (b'.' ∷ (ms ++ zone)) ∙ omega (arith, d, rest) in
    rw (d, all) refl

-- If the date has the nineteen characters of `%Y-%m-%dT%H:%M:%S`, the nanoseconds are less than a second, and the offset from UTC is a
-- whole number of minutes and less than a hundred hours, then no assertion fails for a buffer of 32 bytes, and
-- the text ends with the offset, but one less than an hour to the west of UTC is shown without its sign.
pub iso_8601_timestamp-shown :
    (date : List ℕ) (tv_nsec : ℕ) (tm_gmtoff : ℤ)
    → length date ≡ 19
    → tv_nsec < 10 ^ 9
    → distance tm_gmtoff % 60 ≡ 0
    → distance tm_gmtoff < 360000
    → (zone : List ℕ) × (iso_8601_timestamp date tv_nsec tm_gmtoff 32
        ≡ done (date ++ (b'.' ∷ (padded 3 (tv_nsec / 10 ^ 6) ++ zone))))
      × (read_offset zone ≡ some (shown tm_gmtoff))
iso_8601_timestamp-shown date tv_nsec tm_gmtoff d ns whole small = (
  offset tm_gmtoff,
  iso_8601_timestamp-eq date tv_nsec tm_gmtoff d ns small,
  offset-shown tm_gmtoff whole small,
)

-- ===== src/Helper/Timestamp.antt =====
-- `iso_8601_timestamp` of programs/helper.c.
pub mod Offset
use vmnet_helper.Prelude.{
  ℕ, zero, suc, ◌+◌, ◌-◌, ◌*◌, ◌/◌, ◌%◌, ◌^◌, Bool, true, false, List, [], ◌∷◌, ◌++◌, length,
  replicate, Outcome, done, aborted, ltb, ◌==◌, if◌then◌else◌,
}
use vmnet_helper.Libc.{ℤ, pos, negsuc, negated, print}

-- `%0wd` of a number that is not negative
unfoldable pub padded : ℕ → ℕ → List ℕ
unfolding print
padded w n = let s = print 10 n in replicate (w - length s) b'0' ++ s

-- `gmtoff / 3600`, which rounds towards 0
abbrev pub hours : ℤ → ℤ
hours (pos n) = pos (n / 3600)
hours (negsuc n) = negated (suc n / 3600)

-- `abs(gmtoff % 3600) / 60`
abbrev pub minutes : ℤ → ℕ
minutes (pos n) = n % 3600 / 60
minutes (negsuc n) = suc n % 3600 / 60

-- `%+03d`
unfoldable pub signed : ℤ → List ℕ
unfolding padded
signed (pos n) = b'+' ∷ padded 2 n
signed (negsuc n) = b'-' ∷ padded 2 (suc n)

-- `%+03d:%02d`
unfoldable pub offset : ℤ → List ℕ
unfolding signed padded
offset gmtoff = signed (hours gmtoff) ++ (b':' ∷ padded 2 (minutes gmtoff))

-- `localtime_r` and `strftime` give the offset and the date, which is empty if `strftime` returns 0; `len` is the size
-- of the buffer.
unfoldable pub iso_8601_timestamp : List ℕ → ℕ → ℤ → ℕ → Outcome (List ℕ)
unfolding offset padded
iso_8601_timestamp date tv_nsec tm_gmtoff len =
    let text = date ++ (b'.' ∷ (padded 3 (tv_nsec / 10 ^ 6) ++ offset tm_gmtoff)) in
    if length date == 0 then aborted else if ltb (length text) len then done text else aborted

-- ===== src/Os.antt =====
-- programs/os.c: the version of macOS.
use vmnet_helper.Prelude.{
  ℕ, Bool, true, ◌-◌, ◌^◌, ◌%◌, List, [], ◌∷◌, Option, none, some, ltb, ◌==◌, if◌then◌else◌,
}
use vmnet_helper.Libc.{ℤ, pos, negsuc, strtol}

-- `struct os_version`
pub record OsVersion : Type 0 where
  pub major : ℤ
  pub minor : ℤ
  pub point : ℤ

-- `strsep(&s, ".")` for `s` not NULL: the text before the separator, and the next `s`, `none` for NULL.
abbrev before_dot : ℕ → List ℕ × Option (List ℕ) → List ℕ × Option (List ℕ)
before_dot c (token, next) = (c ∷ token, next)

strsep : List ℕ → List ℕ × Option (List ℕ)
strsep [] = ([], none)
strsep (c ∷ s) = let more = strsep s in if c == b'.' then ([], some s) else before_dot c more

-- A `long` as an `int`: the low 32 bits.
abbrev pub to_int : ℤ → ℤ
to_int (pos n) = let m = n % 2 ^ 32 in if ltb m (2 ^ 31) then pos m else negsuc (2 ^ 32 - 1 - m)
to_int (negsuc n) = let m = n % 2 ^ 32 in if ltb m (2 ^ 31) then negsuc m else pos (2 ^ 32 - 1 - m)

abbrev atoi : List ℕ → ℤ
atoi s = to_int (strtol s).value

-- The three rounds of the loop; a number that is not there keeps its value.
set_point : Option (List ℕ) → OsVersion → OsVersion
unfolding strsep
set_point none v = v
set_point (some s) v = record v { point = atoi (strsep s).0 }

set_minor : Option (List ℕ) → OsVersion → OsVersion
unfolding strsep set_point
set_minor none v = v
set_minor (some s) v = set_point (strsep s).1 (record v { minor = atoi (strsep s).0 })

set_major : List ℕ → OsVersion → OsVersion
unfolding strsep set_minor
set_major s v = set_minor (strsep s).1 (record v { major = atoi (strsep s).0 })

-- `sysctl` is the text that `sysctlbyname` stores, or `none` if it fails.
unfoldable pub os_product_version : Option (List ℕ) → OsVersion → Option OsVersion
unfolding set_major
os_product_version none v = none
os_product_version (some buf) v = some (set_major buf v)

-- `major < 26`
abbrev pub before_26 : ℤ → Bool
before_26 (pos n) = ltb n 26
before_26 (negsuc n) = true

abbrev pub initial_version : OsVersion
initial_version = record { major = pos 0; minor = pos 0; point = pos 0 }

-- ===== src/Libc.antt =====
-- What the programs use of the C library: `strtol` in base 10, and `printf` of a number, on the characters of a text.
pub mod Decimal
pub mod Print
use Prim.Native.Char.{code}
use vmnet_helper.Prelude.{
  ℕ, zero, suc, ◌+◌, ◌-◌, ◌*◌, ◌/◌, ◌%◌, ◌^◌, Bool, true, false, ◌&&◌, ◌||◌, List, [], ◌∷◌, ◌++◌,
  String, leb, ltb, ◌==◌, if◌then◌else◌,
}

-- `negsuc n` is -(n + 1).
pub data ℤ : Type 0 where
  pos : ℕ → ℤ
  negsuc : ℕ → ℤ

-- How far a number is from 0.
abbrev pub distance : ℤ → ℕ
distance (pos n) = n
distance (negsuc n) = suc n

-- The negative of a number.
abbrev pub negated : ℕ → ℤ
negated zero = pos 0
negated (suc n) = negsuc n

-- The characters of a text. `String` has its own constructors.
abbrev pub codes : String → List ℕ
codes String.[] = []
codes (String.◌∷◌ c s) = code c ∷ codes s

-- The bytes of a character in UTF-8.
abbrev utf8_size : ℕ → ℕ
utf8_size c = if ltb c 128 then 1 else if ltb c 2048 then 2 else if ltb c 65536 then 3 else 4

abbrev bytes_of : List ℕ → ℕ
bytes_of [] = 0
bytes_of (c ∷ s) = utf8_size c + bytes_of s

-- `strlen`, which counts bytes.
abbrev pub strlen : String → ℕ
strlen s = bytes_of (codes s)

abbrev pub is_digit : ℕ → Bool
is_digit c = leb b'0' c && leb c b'9'

-- `isspace`
abbrev pub is_space : ℕ → Bool
is_space c = c == 32 || leb 9 c && leb c 13

abbrev pub long_max : ℕ
long_max = 2 ^ 63 - 1

-- <sys/errno.h>
abbrev pub einval : ℕ
einval = 22

abbrev pub erange : ℕ
erange = 34

-- `errno` after the call, if it was 0 before, the value, and the text at `*end`.
pub record Strtol : Type 0 where
  pub errno : ℕ
  pub value : ℤ
  pub rest : List ℕ

-- The value of the leading digits after `acc`, and what follows them.
pub digits_from : ℕ → List ℕ → ℕ × List ℕ
digits_from acc [] = (acc, [])
digits_from acc (c ∷ s) = elim (is_digit c) [
  | true ↦ digits_from (acc * 10 + (c - b'0')) s
  | false ↦ (acc, c ∷ s)
]

-- A value is limited to the range of `long`.
abbrev in_range : Bool → ℕ × List ℕ → Strtol
in_range false (n, rest) =
    if leb n long_max
    then record { errno = 0; value = pos n; rest = rest }
    else record { errno = erange; value = pos long_max; rest = rest }
in_range true (n, rest) =
    if n == 0
    then record { errno = 0; value = pos 0; rest = rest }
    else if leb n (long_max + 1)
    then record { errno = 0; value = negsuc (n - 1); rest = rest }
    else record { errno = erange; value = negsuc long_max; rest = rest }

abbrev pub starts_digit : List ℕ → Bool
starts_digit [] = false
starts_digit (c ∷ s) = is_digit c

-- Without a digit nothing is converted, and `*end` is the whole text.
unsigned : List ℕ → Bool → List ℕ → Strtol
unfolding digits_from
unsigned text negative s =
    if starts_digit s
    then in_range negative (digits_from 0 s)
    else record { errno = einval; value = pos 0; rest = text }

signed : List ℕ → List ℕ → Strtol
unfolding unsigned
signed text [] = unsigned text false []
signed text (c ∷ s) =
    if c == b'-'
    then unsigned text true s
    else if c == b'+'
    then unsigned text false s
    else unsigned text false (c ∷ s)

skip_spaces : List ℕ → List ℕ
skip_spaces [] = []
skip_spaces (c ∷ s) = let more = skip_spaces s in if is_space c then more else c ∷ s

-- `strtol(text, &end, 10)` on macOS
unfoldable pub strtol : List ℕ → Strtol
unfolding signed skip_spaces
strtol text = signed text (skip_spaces text)

-- `%d` of a number with at most as many digits as `fuel`; an int has at most ten,
-- and an unsigned long long at most 20.
unfoldable pub print : ℕ → ℕ → List ℕ
print zero n = []
print (suc fuel) n =
    let more = print fuel (n / 10) in
    if ltb n 10 then (b'0' + n) ∷ [] else more ++ ((b'0' + n % 10) ∷ [])

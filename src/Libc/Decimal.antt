-- ===== src/Libc/Decimal.antt =====
-- `strtol` on decimal texts.
use vmnet_helper.Prelude.{
  ℕ, ◌+◌, ◌-◌, ◌*◌, ◌≡◌, refl, true, List, [], ◌∷◌, arith, leb, All, if◌then◌else◌,
}
use vmnet_helper.Libc.{is_digit, digits_from, long_max, erange, strtol, pos}

abbrev pub IsDigit : ℕ → Type 0
IsDigit c = is_digit c ≡ true

-- The number that the digits `s` write after `acc`.
abbrev pub decimal : ℕ → List ℕ → ℕ
decimal acc [] = acc
decimal acc (c ∷ s) = decimal (acc * 10 + (c - b'0')) s

digits_from_all : (acc : ℕ) (s : List ℕ) → All IsDigit s → digits_from acc s ≡ (decimal acc s, [])
unfolding digits_from
digits_from_all acc [] h = refl
digits_from_all acc (c ∷ s) h =
    rw (h.0, digits_from) (digits_from_all (acc * 10 + (c - b'0')) s h.1)

-- A text of digits is converted whole, or is out of range.
pub strtol-decimal :
    (c : ℕ) (s : List ℕ)
    → All IsDigit (c ∷ s)
    → strtol (c ∷ s) ≡ (
        if leb (decimal 0 (c ∷ s)) long_max
        then record { errno = 0; value = pos (decimal 0 (c ∷ s)); rest = [] }
        else record { errno = erange; value = pos long_max; rest = [] })
unfolding strtol
strtol-decimal c s h = ground (arith, h.0, digits_from_all 0 (c ∷ s) h)

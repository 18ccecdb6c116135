-- ===== src/Libc/Print.antt =====
-- `printf` of a number, and its digits read back.
use mathlib.Core.List.{append_assoc}
use vmnet_helper.Prelude.{
  ℕ, zero, suc, ◌+◌, ◌-◌, ◌*◌, ◌/◌, ◌%◌, ◌^◌, ◌<◌, ◌≡◌, refl, ap, ◌∙◌, true, false, List, [], ◌∷◌,
  ◌++◌, arith, ltb, All, All-append, inl, inr, Bool-cases,
}
use vmnet_helper.Libc.{starts_digit, digits_from, print}
use vmnet_helper.Libc.Decimal.{IsDigit, decimal}

decimal-append :
    (acc : ℕ) (s : List ℕ) (d : ℕ) → decimal acc (s ++ (d ∷ [])) ≡ decimal acc s * 10 + (d - b'0')
decimal-append acc [] d = refl
decimal-append acc (c ∷ s) d = decimal-append (acc * 10 + (c - b'0')) s d

pub print-IsDigit : (f n : ℕ) → All IsDigit (print f n)
unfolding print
print-IsDigit zero n = tt
print-IsDigit (suc f) n = elim (Bool-cases (ltb n 10)) [
  | inl small ↦ rw small (ground arith, tt)
  | inr large ↦
      rw large
        (All-append IsDigit (print f (n / 10)) _ (print-IsDigit f (n / 10)) (ground arith, tt))
]

decimal_last :
    (f n : ℕ)
    → decimal 0 (print f (n / 10)) ≡ n / 10
    → decimal 0 (print f (n / 10) ++ ((b'0' + n % 10) ∷ [])) ≡ n
decimal_last f n e = decimal-append 0 (print f (n / 10)) (b'0' + n % 10) ∙ omega (arith, e)

decimal-print : (f n : ℕ) → n < 10 ^ suc f → decimal 0 (print (suc f) n) ≡ n
unfolding print
decimal-print zero n lt = ground arith
decimal-print (suc f) n lt = elim (Bool-cases (ltb n 10)) [
  | inl small ↦ rw small (omega arith)
  | inr large ↦ rw large (decimal_last (suc f) n (decimal-print f (n / 10) (omega arith)))
]

digits_from-append :
    (acc : ℕ) (s r : List ℕ)
    → All IsDigit s
    → starts_digit r ≡ false
    → digits_from acc (s ++ r) ≡ (decimal acc s, r)
unfolding digits_from
digits_from-append acc [] [] h e = refl
digits_from-append acc [] (c ∷ r) h e = rw (e, digits_from) refl
digits_from-append acc (c ∷ s) r h e =
    rw (h.0, digits_from) (digits_from-append (acc * 10 + (c - b'0')) s r h.1 e)

pub digits_from-print :
    (f n : ℕ) (r : List ℕ)
    → n < 10 ^ suc f
    → starts_digit r ≡ false
    → digits_from 0 (print (suc f) n ++ r) ≡ (n, r)
digits_from-print f n r lt e =
    digits_from-append 0 (print (suc f) n) r (print-IsDigit (suc f) n) e
    ∙ ap (λ v. (v, r)) (decimal-print f n lt)

-- A printed number is not empty.
pub starts_digit-print : (f n : ℕ) (r : List ℕ) → starts_digit (print (suc f) n ++ r) ≡ true
unfolding print
starts_digit-print zero n r = ground arith
starts_digit-print (suc f) n r = elim (Bool-cases (ltb n 10)) [
  | inl small ↦ rw small (ground arith)
  | inr large ↦
      rw large (rw (append_assoc (print (suc f) (n / 10)) _ r) (starts_digit-print f (n / 10) _))
]

-- ===== src/Json/RoundTrip.antt =====
-- Reading rendered JSON texts.
use vmnet_helper.Prelude.{
  ℕ, zero, suc, ◌+◌, ◌^◌, ◌≤◌, ◌<◌, ◌≡◌, refl, ap, ◌∙◌, Bool, true, false, List, [], ◌∷◌, ◌++◌,
  some, All, arith, ◌==◌,
}
use vmnet_helper.Libc.{ℤ, pos, negsuc, negated, starts_digit, print}
use vmnet_helper.Libc.Print.{digits_from-print, starts_digit-print}
use vmnet_helper.Json.{
  Json, Members, number, text, object, end, member, print_int, quoted, gap, separated, render,
  render_members, is_plain, read_text, read_digits, skip_space, read_value, read_first,
  read_members, read_more, ◌>>=◌,
}

abbrev pub IsPlainText : List ℕ → Type 0
IsPlainText s = All (λ c. is_plain c ≡ true) s

abbrev pub IsPrintable : ℤ → Type 0
IsPrintable (pos n) = n < 10 ^ 20
IsPrintable (negsuc n) = suc n < 10 ^ 20

-- The texts need no escapes, and the numbers have at most 20 digits.
abbrev mutual
  pub IsPlain : Json → Type 0
  IsPlain (number z) = IsPrintable z
  IsPlain (text s) = IsPlainText s
  IsPlain (object ms) = AllPlain ms

  pub AllPlain : Members → Type 0
  AllPlain end = Unit
  AllPlain (member key value rest) = IsPlainText key × IsPlain value × AllPlain rest

-- How many rounds reading takes.
abbrev mutual
  pub cost : Json → ℕ
  cost (number z) = 1
  cost (text s) = 1
  cost (object ms) = 2 + cost_members ms

  pub cost_members : Members → ℕ
  cost_members end = 0
  cost_members (member key value rest) = 2 + (cost value + cost_members rest)

read_text-quoted : (s r : List ℕ) → IsPlainText s → read_text (s ++ (b'"' ∷ r)) ≡ some (s, r)
unfolding read_text
read_text-quoted [] r h = refl
read_text-quoted (c ∷ s) r h = ground (arith, h.0, read_text-quoted s r h.1)

skip_digits : (s : List ℕ) → starts_digit s ≡ true → skip_space s ≡ s
skip_digits [] h = refl
skip_digits (c ∷ s) h = ground arith

skip_value :
    (spaced : Bool) (j : Json) (r : List ℕ)
    → skip_space (gap spaced (render spaced j r)) ≡ render spaced j r
unfolding render
skip_value true j r = refl
skip_value false (number (pos n)) r = skip_digits (print 20 n ++ r) (starts_digit-print 19 n r)
skip_value false (number (negsuc n)) r = refl
skip_value false (text s) r = refl
skip_value false (object ms) r = refl

read_digits-print :
    (n : ℕ) (r : List ℕ)
    → n < 10 ^ 20
    → starts_digit r ≡ false
    → read_digits (print 20 n ++ r) ≡ some (n, r)
read_digits-print n r lt e =
    rw (starts_digit-print 19 n r) (ap some (digits_from-print 19 n r lt e))

read_value-digits :
    (fuel : ℕ) (s : List ℕ)
    → starts_digit s ≡ true
    → read_value (suc fuel) s ≡ (read_digits s >>= λ r. some (number (pos r.0), r.1))
unfolding read_value
read_value-digits fuel [] h = cc
read_value-digits fuel (c ∷ s) h =
    let plain : (c == b'"') ≡ false = ground arith in
    let open_brace : (c == b'{') ≡ false = ground arith in
    let minus : (c == b'-') ≡ false = ground arith in
    rw (plain, read_value) (rw open_brace (rw minus refl))

read_value-number :
    (fuel : ℕ) (z : ℤ) (r : List ℕ)
    → IsPrintable z
    → starts_digit r ≡ false
    → read_value (suc fuel) (print_int z r) ≡ some (number z, r)
unfolding read_value
read_value-number fuel (pos n) r lt e =
    read_value-digits fuel (print 20 n ++ r) (starts_digit-print 19 n r)
    ∙ ap (λ o. o >>= λ r. some (number (pos r.0), r.1)) (read_digits-print n r lt e)
read_value-number fuel (negsuc n) r lt e =
    ap (λ o. o >>= λ r. some (number (negated r.0), r.1)) (read_digits-print (suc n) r lt e)

-- An object is not continued by a digit.
starts_digit-separated :
    (spaced : Bool) (ms : Members) (r : List ℕ)
    → starts_digit (separated spaced ms (render_members spaced ms (b'}' ∷ r))) ≡ false
unfolding render_members
starts_digit-separated spaced end r = refl
starts_digit-separated spaced (member key value rest) r = refl

skip_members :
    (spaced : Bool) (key r : List ℕ) → skip_space (gap spaced (quoted key r)) ≡ quoted key r
skip_members true key r = refl
skip_members false key r = refl

module _ (spaced : Bool) where
  mutual
    unfolding read_value read_first read_members read_more render render_members

    pub read_value-render :
        (fuel : ℕ) (j : Json) (r : List ℕ)
        → cost j ≤ fuel
        → IsPlain j
        → starts_digit r ≡ false
        → read_value fuel (render spaced j r) ≡ some (j, r)
    read_value-render zero (number z) r le plain e = absurd (omega arith)
    read_value-render zero (text s) r le plain e = absurd (omega arith)
    read_value-render zero (object ms) r le plain e = absurd (omega arith)
    read_value-render (suc fuel) (number z) r le plain e = read_value-number fuel z r plain e
    read_value-render (suc fuel) (text s) r le plain e = rw (read_text-quoted s r plain) refl
    read_value-render (suc fuel) (object ms) r le plain e =
        rw (read_first-render fuel ms r (omega arith) plain) refl

    read_members-render :
        (fuel : ℕ) (key : List ℕ) (value : Json) (rest : Members) (r : List ℕ)
        → cost_members (member key value rest) ≤ fuel
        → AllPlain (member key value rest)
        → read_members fuel (render_members spaced (member key value rest) (b'}' ∷ r))
          ≡ some (member key value rest, r)
    read_members-render zero key value rest r le plain = absurd (omega arith)
    read_members-render (suc fuel) key value rest r le (p, q, ps) = rw (read_text-quoted key _ p) (
        rw (skip_value spaced value _) (
          rw (read_value-render fuel value _ (omega arith) q (starts_digit-separated spaced rest r))
            (rw (read_more-render fuel rest r (omega arith) ps) refl)))

    read_first-render :
        (fuel : ℕ) (ms : Members) (r : List ℕ)
        → cost_members ms < fuel
        → AllPlain ms
        → read_first fuel (render_members spaced ms (b'}' ∷ r)) ≡ some (ms, r)
    read_first-render zero ms r lt plain = absurd (omega arith)
    read_first-render (suc fuel) end r lt plain = refl
    read_first-render (suc fuel) (member key value rest) r lt plain =
        read_members-render fuel key value rest r (omega arith) plain

    read_more-render :
        (fuel : ℕ) (ms : Members) (r : List ℕ)
        → cost_members ms < fuel
        → AllPlain ms
        → read_more fuel (separated spaced ms (render_members spaced ms (b'}' ∷ r))) ≡ some (ms, r)
    read_more-render zero ms r lt plain = absurd (omega arith)
    read_more-render (suc fuel) end r lt plain = refl
    read_more-render (suc fuel) (member key value rest) r lt plain =
        rw (skip_members spaced key _)
          (read_members-render fuel key value rest r (omega arith) plain)

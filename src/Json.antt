-- ===== src/Json.antt =====
-- JSON texts without escapes, as lists of character codes, and a reader for them, which is not part of the programs.
pub mod RoundTrip
use vmnet_helper.Prelude.{
  ℕ, zero, suc, Bool, true, false, List, [], ◌∷◌, ◌++◌, Option, none, some, ltb, ◌==◌,
  if◌then◌else◌,
}
use vmnet_helper.Libc.{ℤ, pos, negsuc, negated, starts_digit, digits_from, print}

mutual
  pub data Json : Type 0 where
    number : ℤ → Json
    text : List ℕ → Json
    object : Members → Json

  pub data Members : Type 0 where
    end : Members
    member : List ℕ → Json → Members → Members

-- `%llu`, `%lld` or `%d`, before `r`. A number has at most 20 digits.
abbrev pub print_int : ℤ → List ℕ → List ℕ
print_int (pos n) r = print 20 n ++ r
print_int (negsuc n) r = b'-' ∷ (print 20 (suc n) ++ r)

-- A text in quotation marks, before `r`.
abbrev pub quoted : List ℕ → List ℕ → List ℕ
quoted s r = b'"' ∷ (s ++ (b'"' ∷ r))

-- `spaced` says that a space stands after ':' and ','.
module _ (spaced : Bool) where
  abbrev pub gap : List ℕ → List ℕ
  gap r = if spaced then 32 ∷ r else r

  -- The rest of an object before `r`, after a comma if there is one.
  abbrev pub separated : Members → List ℕ → List ℕ
  separated end r = r
  separated (member key value rest) r = b',' ∷ gap r

  unfoldable mutual
    pub render : Json → List ℕ → List ℕ
    render (number z) r = print_int z r
    render (text s) r = quoted s r
    render (object ms) r = b'{' ∷ render_members ms (b'}' ∷ r)

    pub render_members : Members → List ℕ → List ℕ
    render_members end r = r
    render_members (member key value rest) r =
        quoted key (b':' ∷ gap (render value (separated rest (render_members rest r))))

infixl 5 ◌>>=◌
abbrev pub ◌>>=◌ {ℓ κ} : {A : Type ℓ} {B : Type κ} → Option A → (A → Option B) → Option B
none >>= f = none
some a >>= f = f a

-- A character that stands for itself in a text.
abbrev pub is_plain : ℕ → Bool
is_plain c =
    if c == b'"' then false else if c == b'\\' then false else if ltb c 32 then false else true

-- The text up to the quotation mark, and what follows it.
unfoldable pub read_text : List ℕ → Option (List ℕ × List ℕ)
read_text [] = none
read_text (c ∷ s) =
    let more = read_text s in
    if c == b'"'
    then some ([], s)
    else if is_plain c
    then more >>= (λ r. some (c ∷ r.0, r.1))
    else none

abbrev pub read_digits : List ℕ → Option (ℕ × List ℕ)
read_digits s = if starts_digit s then some (digits_from 0 s) else none

abbrev pub read_number : List ℕ → Option (Json × List ℕ)
read_number [] = none
read_number (c ∷ s) =
    if c == b'-'
    then (read_digits s >>= λ r. some (number (negated r.0), r.1))
    else (read_digits (c ∷ s) >>= λ r. some (number (pos r.0), r.1))

-- The text after this character.
abbrev pub expect : ℕ → List ℕ → Option (List ℕ)
expect c [] = none
expect c (d ∷ s) = if d == c then some s else none

abbrev pub skip_space : List ℕ → List ℕ
skip_space [] = []
skip_space (c ∷ s) = if c == 32 then s else c ∷ s

-- A value at the front of a text, with what follows it. `fuel` bounds the values and members.
unfoldable mutual
  pub read_value : ℕ → List ℕ → Option (Json × List ℕ)
  read_value zero s = none
  read_value (suc fuel) [] = none
  read_value (suc fuel) (c ∷ s) = elim (c == b'"') [
    | true ↦ read_text s >>= λ r. some (text r.0, r.1)
    | false ↦ elim (c == b'{') [
      | true ↦ read_first fuel s >>= λ r. some (object r.0, r.1)
      | false ↦ read_number (c ∷ s)
    ]
  ]

  -- What follows the brace that opens an object.
  pub read_first : ℕ → List ℕ → Option (Members × List ℕ)
  read_first zero s = none
  read_first (suc fuel) [] = none
  read_first (suc fuel) (c ∷ s) = elim (c == b'}') [
    | true ↦ some (end, s)
    | false ↦ read_members fuel (c ∷ s)
  ]

  pub read_members : ℕ → List ℕ → Option (Members × List ℕ)
  read_members zero s = none
  read_members (suc fuel) s = expect b'"' s >>= λ s1. read_text s1 >>= λ key.
      expect b':' key.1 >>= λ s2. read_value fuel (skip_space s2) >>= λ value.
      read_more fuel value.1 >>= λ rest. some (member key.0 value.0 rest.0, rest.1)

  -- The other members, or the brace that closes the object.
  pub read_more : ℕ → List ℕ → Option (Members × List ℕ)
  read_more zero s = none
  read_more (suc fuel) [] = none
  read_more (suc fuel) (c ∷ s) = elim (c == b',') [
    | true ↦ read_members fuel (skip_space s)
    | false ↦ elim (c == b'}') [ true ↦ some (end, s) | false ↦ none ]
  ]

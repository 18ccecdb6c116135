-- ===== src/Prelude/Lists.antt =====
-- Lists measured and indexed by native numbers, under the library's names, and sums over them.
use Prim.Native.Nat.{ℕ, zero, suc, ◌+◌, ◌-◌, ◌≤◌, ◌<◌, min}
use mathlib.Core.Path.{◌≡◌, refl, ap, ap₂}
use mathlib.Core.List.{List, [], ◌∷◌, ◌++◌, map}
use native.Mathlib.Nat.{zero-add, suc-add}
use native.Mathlib.Omega.{arith}

module _ {ℓ} {A : Type ℓ} where
  abbrev pub length : List A → ℕ
  length [] = 0
  length (x ∷ xs) = suc (length xs)

  abbrev pub take : ℕ → List A → List A
  take zero xs = []
  take (suc n) [] = []
  take (suc n) (x ∷ xs) = x ∷ take n xs

  abbrev pub drop : ℕ → List A → List A
  drop zero xs = xs
  drop (suc n) [] = []
  drop (suc n) (x ∷ xs) = drop n xs

  abbrev pub replicate : ℕ → A → List A
  replicate zero a = []
  replicate (suc n) a = a ∷ replicate n a

  pub length-replicate : (n : ℕ) (a : A) → length (replicate n a) ≡ n
  length-replicate zero a = refl
  length-replicate (suc n) a = ap suc (length-replicate n a)

  -- xs[0] = f(xs[0]), where there is one.
  abbrev pub modify_head : (A → A) → List A → List A
  modify_head f [] = []
  modify_head f (x ∷ xs) = f x ∷ xs

  abbrev pub get_or : List A → ℕ → A → A
  get_or [] i d = d
  get_or (x ∷ xs) zero d = x
  get_or (x ∷ xs) (suc i) d = get_or xs i d

  pub length-append : (xs ys : List A) → length (xs ++ ys) ≡ length xs + length ys
  length-append [] ys = omega arith
  length-append (x ∷ xs) ys = omega (arith, length-append xs ys)

  pub take-append-drop : (n : ℕ) (xs : List A) → take n xs ++ drop n xs ≡ xs
  take-append-drop zero xs = refl
  take-append-drop (suc n) [] = refl
  take-append-drop (suc n) (x ∷ xs) = rw (take-append-drop n xs)

  pub length-take : (n : ℕ) (xs : List A) → length (take n xs) ≡ min n (length xs)
  length-take zero xs = omega arith
  length-take (suc n) [] = omega arith
  length-take (suc n) (x ∷ xs) = omega (arith, length-take n xs)

  pub length-drop : (n : ℕ) (xs : List A) → length (drop n xs) ≡ length xs - n
  length-drop zero xs = omega arith
  length-drop (suc n) [] = omega arith
  length-drop (suc n) (x ∷ xs) = omega (arith, length-drop n xs)

  pub take-add : (m n : ℕ) (xs : List A) → take (m + n) xs ≡ take m xs ++ take n (drop m xs)
  take-add zero n xs = rw zero-add
  take-add (suc m) zero [] = rw suc-add
  take-add (suc m) (suc n) [] = rw suc-add
  take-add (suc m) n (x ∷ xs) = rw suc-add (ap (λ r. x ∷ r) (take-add m n xs))

  pub take_all : (n : ℕ) (xs : List A) → length xs ≤ n → take n xs ≡ xs
  take_all zero [] h = refl
  take_all zero (x ∷ xs) h = absurd (omega arith)
  take_all (suc n) [] h = refl
  take_all (suc n) (x ∷ xs) h = ap (λ r. x ∷ r) (take_all n xs (omega arith))

module _ {ℓ κ} {A : Type ℓ} {B : Type κ} (f : A → B) where
  pub map-take : (n : ℕ) (xs : List A) → map f (take n xs) ≡ take n (map f xs)
  map-take zero xs = refl
  map-take (suc n) [] = refl
  map-take (suc n) (x ∷ xs) = ap (λ r. f x ∷ r) (map-take n xs)

  pub map-drop : (n : ℕ) (xs : List A) → map f (drop n xs) ≡ drop n (map f xs)
  map-drop zero xs = refl
  map-drop (suc n) [] = refl
  map-drop (suc n) (x ∷ xs) = map-drop n xs

  pub length-map : (xs : List A) → length (map f xs) ≡ length xs
  length-map [] = refl
  length-map (x ∷ xs) = ap suc (length-map xs)

-- The elements of a list of lists, counted.
abbrev pub total_length {ℓ} : {A : Type ℓ} → List (List A) → ℕ
total_length [] = 0
total_length (xs ∷ xss) = length xs + total_length xss

pub total_length-append {ℓ} :
    {A : Type ℓ} (xss yss : List (List A))
    → total_length (xss ++ yss) ≡ total_length xss + total_length yss
total_length-append [] yss = omega arith
total_length-append (xs ∷ xss) yss = omega (arith, total_length-append xss yss)

abbrev pub All {ℓ κ} : {A : Type ℓ} → (A → Type κ) → List A → Type κ
All P [] = Unit
All P (x ∷ xs) = P x × All P xs

pub All-drop {ℓ κ} :
    {A : Type ℓ} (P : A → Type κ) (n : ℕ) (xs : List A) → All P xs → All P (drop n xs)
All-drop P zero xs h = h
All-drop P (suc n) [] h = tt
All-drop P (suc n) (x ∷ xs) h = All-drop P n xs h.1

pub All-append {ℓ κ} :
    {A : Type ℓ} (P : A → Type κ) (xs ys : List A) → All P xs → All P ys → All P (xs ++ ys)
All-append P [] ys h k = k
All-append P (x ∷ xs) ys h k = (h.0, All-append P xs ys h.1 k)

-- A property of the first elements, by their indices.
pub All_of_get {ℓ κ} :
    {A : Type ℓ} (P : A → Type κ) (d : A) (n : ℕ) (xs : List A)
    → n ≤ length xs
    → ((i : ℕ) → i < n → P (get_or xs i d))
    → All P (take n xs)
All_of_get P d zero xs le h = tt
All_of_get P d (suc n) [] le h = absurd (omega arith)
All_of_get P d (suc n) (x ∷ xs) le h =
    (h 0 (omega arith), All_of_get P d n xs (omega arith) (λ i lt. h (suc i) (omega arith)))

pub map-take_eq {ℓ κ μ} :
    {A : Type ℓ} {B : Type κ} {C : Type μ} (f : A → C) (g : B → C) (a : A) (b : B) (n : ℕ)
    (xs : List A) (ys : List B)
    → n ≤ length xs
    → n ≤ length ys
    → ((i : ℕ) → i < n → f (get_or xs i a) ≡ g (get_or ys i b))
    → map f (take n xs) ≡ map g (take n ys)
map-take_eq f g a b zero xs ys le le' h = refl
map-take_eq f g a b (suc n) [] ys le le' h = absurd (omega arith)
map-take_eq f g a b (suc n) (x ∷ xs) [] le le' h = absurd (omega arith)
map-take_eq f g a b (suc n) (x ∷ xs) (y ∷ ys) le le' h =
    ap₂ ◌∷◌ (h 0 (omega arith))
      (map-take_eq f g a b n xs ys (omega arith) (omega arith) (λ i lt. h (suc i) (omega arith)))

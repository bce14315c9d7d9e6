-- ===== src/Prelude/Lists.antt =====
-- Lists measured and indexed by native numbers, under the library's names. A block of storage is
-- such a list, read with `get!` and written with `set`.
use Prim.Native.Nat.{ℕ, zero, suc, ◌+◌, ◌-◌, ◌≤◌, ◌<◌, min}
use mathlib.Core.Path.{◌≡◌, refl, ap, ap₂}
use mathlib.Core.Logic.{◌≢◌}
use mathlib.Core.List.{List, [], ◌∷◌, ◌++◌}
use native.Mathlib.Omega.{arith}
use memkit.Prelude.Tests.{◌==◌, if◌then◌else◌}

-- What a read outside a block returns. No theorem depends on it.
pub record Inhabited {ℓ} (A : Type ℓ) : Type ℓ where
  pub default : A

instance abbrev pub nat_inhabited : Inhabited ℕ
nat_inhabited = record { default = 0 }

module _ {ℓ} {A : Type ℓ} where
  abbrev pub length : List A → ℕ
  length [] = 0
  length (x ∷ xs) = suc (length xs)

  -- A write out of bounds changes nothing.
  abbrev pub set : List A → ℕ → A → List A
  set [] i v = []
  set (x ∷ xs) zero v = v ∷ xs
  set (x ∷ xs) (suc i) v = x ∷ set xs i v

  abbrev pub take : ℕ → List A → List A
  take zero xs = []
  take (suc n) [] = []
  take (suc n) (x ∷ xs) = x ∷ take n xs

  abbrev pub drop : ℕ → List A → List A
  drop zero xs = xs
  drop (suc n) [] = []
  drop (suc n) (x ∷ xs) = drop n xs

  abbrev pub replicate : ℕ → A → List A
  replicate zero a = []
  replicate (suc n) a = a ∷ replicate n a

  pub length-append : (xs ys : List A) → length (xs ++ ys) ≡ length xs + length ys
  length-append [] ys = omega arith
  length-append (x ∷ xs) ys = omega (arith, length-append xs ys)

  pub length-set : (xs : List A) (i : ℕ) (v : A) → length (set xs i v) ≡ length xs
  length-set [] i v = refl
  length-set (x ∷ xs) zero v = refl
  length-set (x ∷ xs) (suc i) v = ap suc (length-set xs i v)

  pub set_twice : (xs : List A) (i : ℕ) (a b : A) → set (set xs i a) i b ≡ set xs i b
  set_twice [] i a b = refl
  set_twice (x ∷ xs) zero a b = refl
  set_twice (x ∷ xs) (suc i) a b = ap (◌∷◌ x) (set_twice xs i a b)

  pub set_past : (xs : List A) (i : ℕ) (a : A) → length xs ≤ i → set xs i a ≡ xs
  set_past [] i a h = refl
  set_past (x ∷ xs) zero a h = absurd (omega arith)
  set_past (x ∷ xs) (suc i) a h = ap (◌∷◌ x) (set_past xs i a (omega arith))

  pub set_comm :
      (xs : List A) (i j : ℕ) (a b : A) → i ≢ j → set (set xs i a) j b ≡ set (set xs j b) i a
  set_comm [] i j a b h = refl
  set_comm (x ∷ xs) zero zero a b h = absurd (h refl)
  set_comm (x ∷ xs) zero (suc j) a b h = refl
  set_comm (x ∷ xs) (suc i) zero a b h = refl
  set_comm (x ∷ xs) (suc i) (suc j) a b h = ap (◌∷◌ x) (set_comm xs i j a b (λ e. h (ap suc e)))

  pub take-set : (n i : ℕ) (xs : List A) (v : A) → take n (set xs i v) ≡ set (take n xs) i v
  take-set zero i xs v = refl
  take-set (suc n) i [] v = refl
  take-set (suc n) zero (x ∷ xs) v = refl
  take-set (suc n) (suc i) (x ∷ xs) v = ap (◌∷◌ x) (take-set n i xs v)

  pub take-set_last :
      (n : ℕ) (xs : List A) (v : A)
      → n < length xs
      → take (suc n) (set xs n v) ≡ take n xs ++ v ∷ []
  take-set_last n [] v h = absurd (omega arith)
  take-set_last zero (x ∷ xs) v h = refl
  take-set_last (suc n) (x ∷ xs) v h = ap (◌∷◌ x) (take-set_last n xs v (omega arith))

  pub length-replicate : (n : ℕ) (a : A) → length (replicate n a) ≡ n
  length-replicate zero a = refl
  length-replicate (suc n) a = ap suc (length-replicate n a)

  pub length-drop : (n : ℕ) (xs : List A) → length (drop n xs) ≡ length xs - n
  length-drop zero xs = omega arith
  length-drop (suc n) [] = omega arith
  length-drop (suc n) (x ∷ xs) = omega (arith, length-drop n xs)

  pub length-take : (n : ℕ) (xs : List A) → length (take n xs) ≡ min n (length xs)
  length-take zero xs = omega arith
  length-take (suc n) [] = omega arith
  length-take (suc n) (x ∷ xs) = omega (arith, length-take n xs)

module _ {ℓ} {A : Type ℓ} ⦃inhabited : Inhabited A⦄ where
  abbrev pub get! : List A → ℕ → A
  get! [] i = inhabited.default
  get! (x ∷ xs) zero = x
  get! (x ∷ xs) (suc i) = get! xs i

  -- The block after a write inside it.
  pub get!-set :
      (xs : List A) (i j : ℕ) (v : A)
      → i < length xs
      → get! (set xs i v) j ≡ (if i == j then v else get! xs j)
  get!-set [] i j v h = absurd (omega arith)
  get!-set (x ∷ xs) zero zero v h = refl
  get!-set (x ∷ xs) zero (suc j) v h = ground arith
  get!-set (x ∷ xs) (suc i) zero v h = ground arith
  get!-set (x ∷ xs) (suc i) (suc j) v h = ground (arith, get!-set xs i j v)

  pub get!-set_self : (xs : List A) (i : ℕ) (v : A) → i < length xs → get! (set xs i v) i ≡ v
  get!-set_self xs i v h = ground (arith, get!-set xs i i v h)

  pub get!-set_ne : (xs : List A) (i j : ℕ) (v : A) → i ≢ j → get! (set xs i v) j ≡ get! xs j
  get!-set_ne [] i j v h = refl
  get!-set_ne (x ∷ xs) zero zero v h = absurd (h refl)
  get!-set_ne (x ∷ xs) zero (suc j) v h = refl
  get!-set_ne (x ∷ xs) (suc i) zero v h = refl
  get!-set_ne (x ∷ xs) (suc i) (suc j) v h = get!-set_ne xs i j v (λ e. h (ap suc e))

  -- To write back what was read changes nothing.
  pub set-get! : (xs : List A) (i : ℕ) → set xs i (get! xs i) ≡ xs
  set-get! [] i = refl
  set-get! (x ∷ xs) zero = refl
  set-get! (x ∷ xs) (suc i) = ap (◌∷◌ x) (set-get! xs i)

  pub get!-take : (n : ℕ) (xs : List A) (i : ℕ) → i < n → get! (take n xs) i ≡ get! xs i
  get!-take zero xs i h = absurd (omega arith)
  get!-take (suc n) [] i h = refl
  get!-take (suc n) (x ∷ xs) zero h = refl
  get!-take (suc n) (x ∷ xs) (suc i) h = get!-take n xs i (omega arith)

  pub take_last :
      (n : ℕ) (xs : List A) → n < length xs → take (suc n) xs ≡ take n xs ++ get! xs n ∷ []
  take_last n [] h = absurd (omega arith)
  take_last zero (x ∷ xs) h = refl
  take_last (suc n) (x ∷ xs) h = ap (◌∷◌ x) (take_last n xs (omega arith))

  -- A copy of the first `n` elements reads as its source.
  pub get!-take_append :
      (n : ℕ) (xs ys : List A) (i : ℕ)
      → i < n
      → n ≤ length xs
      → get! (take n xs ++ ys) i ≡ get! xs i
  get!-take_append zero xs ys i h p = absurd (omega arith)
  get!-take_append (suc n) [] ys i h p = absurd (omega arith)
  get!-take_append (suc n) (x ∷ xs) ys zero h p = refl
  get!-take_append (suc n) (x ∷ xs) ys (suc i) h p =
      get!-take_append n xs ys i (omega arith) (omega arith)

  pub take-ext :
      (n : ℕ) (xs ys : List A)
      → n ≤ length xs
      → n ≤ length ys
      → ((i : ℕ) → i < n → get! xs i ≡ get! ys i)
      → take n xs ≡ take n ys
  take-ext zero xs ys p q h = refl
  take-ext (suc n) [] ys p q h = absurd (omega arith)
  take-ext (suc n) (x ∷ xs) [] p q h = absurd (omega arith)
  take-ext (suc n) (x ∷ xs) (y ∷ ys) p q h =
      ap₂ ◌∷◌ (h 0 (omega arith))
        (take-ext n xs ys (omega arith) (omega arith) (λ i r. h (suc i) (omega arith)))

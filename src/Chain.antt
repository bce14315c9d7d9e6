-- ===== src/Chain.antt =====
-- Pointers and the fields that they lead to, for the cores that link nodes. A field of the nodes is a
-- function of the address, and a sequence of nodes is the list of their addresses.
pub mod Forward
pub mod Backward
use memkit.Prelude.{
  ℕ, zero, suc, ◌+◌, ◌-◌, ◌≤◌, ◌<◌, ◌≡◌, ◌≢◌, refl, ap, ap₂, List, [], ◌∷◌, ◌++◌, arith, ◌==◌, ltb,
  if◌then◌else◌, length,
}

abbrev pub Ptr : Type 0
Ptr = ℕ

abbrev pub null : Ptr
null = 0

-- `p->field = v`
abbrev pub write {ℓ} : {B : Type ℓ} → (Ptr → B) → Ptr → B → Ptr → B
write field p v a = if a == p then v else field a

-- The node at a position, null past the end.
abbrev pub ptr_at : List Ptr → ℕ → Ptr
ptr_at [] i = null
ptr_at (x ∷ xs) zero = x
ptr_at (x ∷ xs) (suc i) = ptr_at xs i

-- The node before a position, null before the first.
abbrev pub ptr_before : List Ptr → ℕ → Ptr
ptr_before xs zero = null
ptr_before xs (suc i) = ptr_at xs i

module _ {ℓ} {A : Type ℓ} where
  abbrev pub insert_nth : List A → ℕ → A → List A
  insert_nth xs zero x = x ∷ xs
  insert_nth [] (suc i) x = x ∷ []
  insert_nth (y ∷ xs) (suc i) x = y ∷ insert_nth xs i x

  abbrev pub remove_nth : List A → ℕ → List A
  remove_nth [] i = []
  remove_nth (y ∷ xs) zero = xs
  remove_nth (y ∷ xs) (suc i) = y ∷ remove_nth xs i

  pub length-insert_nth :
      (xs : List A) (i : ℕ) (x : A) → length (insert_nth xs i x) ≡ suc (length xs)
  length-insert_nth xs zero x = refl
  length-insert_nth [] (suc i) x = refl
  length-insert_nth (y ∷ xs) (suc i) x = ap suc (length-insert_nth xs i x)

  pub length-remove_nth :
      (xs : List A) (i : ℕ) → i < length xs → length (remove_nth xs i) ≡ length xs - 1
  length-remove_nth [] i h = absurd (omega arith)
  length-remove_nth (y ∷ xs) zero h = omega arith
  length-remove_nth (y ∷ xs) (suc i) h = omega (arith, length-remove_nth xs i (omega arith))

  pub insert_last : (xs : List A) (x : A) → insert_nth xs (length xs) x ≡ xs ++ x ∷ []
  insert_last [] x = refl
  insert_last (y ∷ xs) x = ap (◌∷◌ y) (insert_last xs x)

pub ptr_at-insert_nth :
    (xs : List Ptr) (i : ℕ) (x : Ptr) (j : ℕ)
    → i ≤ length xs
    → ptr_at (insert_nth xs i x) j
      ≡ (if ltb j i then ptr_at xs j else if j == i then x else ptr_at xs (j - 1))
ptr_at-insert_nth xs zero x zero h = refl
ptr_at-insert_nth xs zero x (suc j) h = ground arith
ptr_at-insert_nth [] (suc i) x j h = absurd (omega arith)
ptr_at-insert_nth (y ∷ xs) (suc i) x zero h = ground arith
ptr_at-insert_nth (y ∷ xs) (suc i) x (suc zero) h = ground (arith, ptr_at-insert_nth xs i x 0)
ptr_at-insert_nth (y ∷ xs) (suc i) x (suc (suc j)) h =
    ground (arith, ptr_at-insert_nth xs i x (suc j))

pub ptr_at-remove_nth :
    (xs : List Ptr) (i j : ℕ)
    → ptr_at (remove_nth xs i) j ≡ (if ltb j i then ptr_at xs j else ptr_at xs (suc j))
ptr_at-remove_nth [] i j = ground arith
ptr_at-remove_nth (y ∷ xs) zero j = ground arith
ptr_at-remove_nth (y ∷ xs) (suc i) zero = ground arith
ptr_at-remove_nth (y ∷ xs) (suc i) (suc j) = ground (arith, ptr_at-remove_nth xs i j)

pub ptr_at_past : (xs : List Ptr) (i : ℕ) → length xs ≤ i → ptr_at xs i ≡ null
ptr_at_past [] i h = refl
ptr_at_past (x ∷ xs) zero h = absurd (omega arith)
ptr_at_past (x ∷ xs) (suc i) h = ptr_at_past xs i (omega arith)

-- What a field holds along the nodes.
abbrev pub values {ℓ} : {B : Type ℓ} → (Ptr → B) → List Ptr → List B
values field [] = []
values field (x ∷ xs) = field x ∷ values field xs

module _ {ℓ} {B : Type ℓ} where
  pub values-insert_nth :
      (field : Ptr → B) (xs : List Ptr) (i : ℕ) (x : Ptr)
      → values field (insert_nth xs i x) ≡ insert_nth (values field xs) i (field x)
  values-insert_nth field xs zero x = refl
  values-insert_nth field [] (suc i) x = refl
  values-insert_nth field (y ∷ xs) (suc i) x = ap (◌∷◌ (field y)) (values-insert_nth field xs i x)

  pub values-remove_nth :
      (field : Ptr → B) (xs : List Ptr) (i : ℕ)
      → values field (remove_nth xs i) ≡ remove_nth (values field xs) i
  values-remove_nth field [] i = refl
  values-remove_nth field (y ∷ xs) zero = refl
  values-remove_nth field (y ∷ xs) (suc i) = ap (◌∷◌ (field y)) (values-remove_nth field xs i)

  pub values_same :
      (field field' : Ptr → B) (xs : List Ptr)
      → ((i : ℕ) → i < length xs → field (ptr_at xs i) ≡ field' (ptr_at xs i))
      → values field xs ≡ values field' xs
  values_same field field' [] same = refl
  values_same field field' (x ∷ xs) same =
      ap₂ ◌∷◌ (same 0 (omega arith))
        (values_same field field' xs (λ i p. same (suc i) (omega arith)))

  pub length-values : (field : Ptr → B) (xs : List Ptr) → length (values field xs) ≡ length xs
  length-values field [] = refl
  length-values field (x ∷ xs) = ap suc (length-values field xs)

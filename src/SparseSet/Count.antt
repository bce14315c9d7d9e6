-- ===== src/SparseSet/Count.antt =====
-- The pigeonhole: ids with distinct positions are no more than the bound.
use memkit.Prelude.{ℕ, zero, suc, ◌≤◌, ◌<◌, ◌≡◌, arith, ltb, ◌==◌, if◌then◌else◌}

-- `f` takes the numbers below `n` to numbers below `m`, and `g` takes them back.
abbrev pub Injects : ℕ → ℕ → (ℕ → ℕ) → (ℕ → ℕ) → Type 0
Injects n m f g = (i : ℕ) → i < n → (f i < m) × (g (f i) ≡ i)

pub pigeonhole : (m n : ℕ) (f g : ℕ → ℕ) → Injects n m f g → n ≤ m
pigeonhole zero zero f g h = omega arith
pigeonhole zero (suc n) f g h = absurd (omega (arith, h 0 (omega arith)))
pigeonhole (suc m) zero f g h = omega arith
pigeonhole (suc m) (suc n) f g h =
    -- the number that goes to `m` takes the image of the last one
    let f' = λ (i : ℕ). if f i == m then f n else f i in
    let g' = λ (x : ℕ).
      if x == f n
      then (if ltb (g m) n then (if f (g m) == m then g m else g x) else g x)
      else g x in
    omega (arith, pigeonhole m n f' g' (λ i p. ground (arith, h i, h n, h (g m))))

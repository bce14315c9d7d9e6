-- ===== src/Bits/Align.antt =====
-- Masks of high bits, and the test of a power of two.
use native.Mathlib.Nat.{mod-eq_of_lt}
use memkit.Prelude.{
  ℕ, zero, suc, ◌-◌, ◌/◌, ◌%◌, ◌^◌, ◌≤◌, ◌<◌, bit_and, ◌≡◌, sym, ◌∙◌, ap, arith, ◌⊎◌, inl, inr,
}
use memkit.Bits.{bit_and_halves, bit_and-ones, mod-two_pow, two_pow-le}

-- A mask of the bits from `k` on rounds down to a multiple.
pub bit_and-high : (k n a : ℕ) → k ≤ n → a < 2 ^ n → bit_and a (2 ^ n - 2 ^ k) ≡ a - a % 2 ^ k
bit_and-high zero n a h p = bit_and-ones n a ∙ mod-eq_of_lt p ∙ omega arith
bit_and-high (suc k) zero a h p = absurd (omega arith)
bit_and-high (suc k) (suc n) a h p =
    let le = two_pow-le k n (omega arith) in
    let half : (2 ^ suc n - 2 ^ suc k) / 2 ≡ 2 ^ n - 2 ^ k = omega arith in
    let rest : bit_and (a / 2) ((2 ^ suc n - 2 ^ suc k) / 2) ≡ a / 2 - a / 2 % 2 ^ k =
      ap (bit_and (a / 2)) half ∙ bit_and-high k n (a / 2) (omega arith) (omega arith) in
    let even : (2 ^ suc n - 2 ^ suc k) % 2 ≡ 0 = omega arith in
    omega (arith, bit_and_halves a (2 ^ suc n - 2 ^ suc k), rest, even, mod-two_pow k a)

bit_and_self : (n a : ℕ) → a ≤ n → bit_and a a ≡ a
bit_and_self n zero h = omega (arith, bit_and-ones 0 0)
bit_and_self zero (suc a) h = absurd (omega arith)
bit_and_self (suc n) (suc a) h =
    omega (arith, bit_and_halves (suc a) (suc a), bit_and_self n (suc a / 2) (omega arith))

-- The test `(a & (a - 1)) == 0` for a positive number.
pub bit_and-pred : (n a : ℕ) → a ≤ n → 0 < a → bit_and a (a - 1) ≡ 0 → (k : ℕ) × (a ≡ 2 ^ k)
bit_and-pred zero a h p e = absurd (omega arith)
bit_and-pred (suc n) a h p e = elim (parity a) [
  | inl even ↦
      let half : (a - 1) / 2 ≡ a / 2 - 1 = omega arith in
      let rest : bit_and (a / 2) (a / 2 - 1) ≡ 0 =
        ap (bit_and (a / 2)) (sym half) ∙ omega (arith, bit_and_halves a (a - 1), e) in
      let (k, whole) = bit_and-pred n (a / 2) (omega arith) (omega arith) rest in
      (suc k, omega (arith, whole))
  | inr odd ↦
      let half : (a - 1) / 2 ≡ a / 2 = omega arith in
      let rest : bit_and (a / 2) ((a - 1) / 2) ≡ a / 2 =
        ap (bit_and (a / 2)) half ∙ bit_and_self a (a / 2) (omega arith) in
      (0, omega (arith, rest, bit_and_halves a (a - 1), e))
]
  where
    parity : (a : ℕ) → (a % 2 ≡ 0) ⊎ (a % 2 ≡ 1)
    parity a = ground arith

-- ===== src/Bits.antt =====
-- Bit operations of the source at variables: the `j`-th bit of a number, and what the operations
-- do to it. Shared by the containers that keep their members in the bits of bytes.
pub mod Align
use Prim.Native.Nat.{digits, differ, bit_and-bitwise, bit_or-bitwise, bit_xor-bitwise}
use native.Mathlib.Nat.{
  mul_assoc, mul_comm, div-add-mod, add-mul-mod_self_left, mod-eq_of_lt, mod-lt, pow-suc,
}
use memkit.Prelude.{
  ℕ, zero, suc, ◌+◌, ◌-◌, ◌*◌, ◌/◌, ◌%◌, ◌^◌, ◌≤◌, ◌<◌, min, max, bit_and, bit_or, bit_xor, ◌≡◌,
  refl, sym, ◌∙◌, ap, arith, ◌==◌, ltb, if◌then◌else◌,
}

-- The `j`-th binary digit.
unfoldable pub nth : ℕ → ℕ → ℕ
nth zero a = a % 2
nth (suc j) a = nth j (a / 2)

pub nth-lt : (j a : ℕ) → nth j a < 2
unfolding nth
nth-lt zero a = omega arith
nth-lt (suc j) a = nth-lt j (a / 2)

module _ (z : ℕ → ℕ) (f : ℕ → ℕ → ℕ) (base : (b : ℕ) → z b ≡ z (b / 2) * 2 + f 0 (b % 2)) where
  -- A round more changes nothing once there are as many as the number.
  one_more_round : (fuel x y : ℕ) → x ≤ fuel → digits z f (suc fuel) x y ≡ digits z f fuel x y
  one_more_round zero zero y below = refl
  one_more_round (suc fuel) zero y below = refl
  one_more_round zero (suc x) y below = absurd (omega arith)
  one_more_round (suc fuel) (suc x) y below =
      ap (λ rest. rest * 2 + f (suc x % 2) (y % 2))
        (one_more_round fuel (suc x / 2) (y / 2) (omega arith))

  more_rounds :
      (extra fuel x y : ℕ) → x ≤ fuel → digits z f (extra + fuel) x y ≡ digits z f fuel x y
  more_rounds zero fuel x y below = ap (λ n. digits z f n x y) {y = fuel} (omega arith)
  more_rounds (suc extra) fuel x y below =
      ap (λ n. digits z f n x y) {y = suc (extra + fuel)} (omega arith)
      ∙ one_more_round (extra + fuel) x y (omega arith)
      ∙ more_rounds extra fuel x y below

  digits_step :
      (x y : ℕ) → digits z f x x y ≡ digits z f (x / 2) (x / 2) (y / 2) * 2 + f (x % 2) (y % 2)
  digits_step zero y = base y
  digits_step (suc x) y =
      let half = suc x / 2 in
      ap (λ rest. rest * 2 + f (suc x % 2) (y % 2))
        (ap (λ n. digits z f n half (y / 2)) {y = x - half + half} (omega arith)
          ∙ more_rounds (x - half) half half (y / 2) (omega arith))

  nth-digits :
      ((x y : ℕ) → x < 2 → y < 2 → f x y < 2)
      → (j a b : ℕ) → nth j (digits z f a a b) ≡ f (nth j a) (nth j b)
  unfolding nth
  nth-digits small zero a b =
      omega (arith, digits_step a b, small (a % 2) (b % 2) (omega arith) (omega arith))
  nth-digits small (suc j) a b =
      let half : digits z f a a b / 2 ≡ digits z f (a / 2) (a / 2) (b / 2) =
        omega (arith, digits_step a b, small (a % 2) (b % 2) (omega arith) (omega arith)) in
      ap (nth j) half ∙ nth-digits small j (a / 2) (b / 2)

  digits-lt :
      ((x y : ℕ) → x < 2 → y < 2 → f x y < 2)
      → (n a b : ℕ) → z 0 ≡ 0
      → a < 2 ^ n
      → b < 2 ^ n
      → digits z f a a b < 2 ^ n
  digits-lt small zero zero zero e p q = omega (arith, e)
  digits-lt small zero (suc a) b e p q = absurd (omega arith)
  digits-lt small zero a (suc b) e p q = absurd (omega arith)
  digits-lt small (suc n) a b e p q = omega (
    arith,
    digits_step a b,
    small (a % 2) (b % 2) (omega arith) (omega arith),
    digits-lt small n (a / 2) (b / 2) e (omega arith) (omega arith),
  )

pub bit_and_halves : (x y : ℕ) → bit_and x y ≡ bit_and (x / 2) (y / 2) * 2 + min (x % 2) (y % 2)
bit_and_halves x y =
    bit_and-bitwise x y
    ∙ digits_step (λ b. 0) min (λ b. omega arith) x y
    ∙ ap (λ d. d * 2 + min (x % 2) (y % 2)) (sym (bit_and-bitwise (x / 2) (y / 2)))

pub nth-bit_and : (j a b : ℕ) → nth j (bit_and a b) ≡ min (nth j a) (nth j b)
nth-bit_and j a b =
    ap (nth j) (bit_and-bitwise a b)
    ∙ nth-digits (λ b. 0) min (λ b. omega arith) (λ x y p q. omega arith) j a b

pub nth-bit_or : (j a b : ℕ) → nth j (bit_or a b) ≡ max (nth j a) (nth j b)
nth-bit_or j a b =
    ap (nth j) (bit_or-bitwise a b)
    ∙ nth-digits (λ b. b) max (λ b. omega arith) (λ x y p q. omega arith) j a b

differ-lt : (x y : ℕ) → x < 2 → y < 2 → differ x y < 2
differ-lt zero y p q = q
differ-lt (suc x) zero p q = p
differ-lt (suc zero) (suc y) p q = omega arith
differ-lt (suc (suc x)) (suc y) p q = absurd (omega arith)

differ_lem : (x y : ℕ) → x < 2 → y < 2 → differ x y ≡ (if x == y then 0 else 1)
differ_lem zero zero p q = refl
differ_lem zero (suc zero) p q = refl
differ_lem (suc zero) zero p q = refl
differ_lem (suc zero) (suc zero) p q = refl
differ_lem (suc (suc x)) y p q = absurd (omega arith)
differ_lem x (suc (suc y)) p q = absurd (omega arith)

xor_base : (b : ℕ) → b ≡ b / 2 * 2 + differ 0 (b % 2)
xor_base b = omega arith

pub nth-bit_xor : (j a b : ℕ) → nth j (bit_xor a b) ≡ (if nth j a == nth j b then 0 else 1)
nth-bit_xor j a b =
    ap (nth j) (bit_xor-bitwise a b)
    ∙ nth-digits (λ b. b) differ xor_base differ-lt j a b
    ∙ differ_lem (nth j a) (nth j b) (nth-lt j a) (nth-lt j b)

pub nth-zero : (j : ℕ) → nth j 0 ≡ 0
unfolding nth
nth-zero zero = refl
nth-zero (suc j) = nth-zero j

pub nth-pow : (j i : ℕ) → nth j (2 ^ i) ≡ (if i == j then 1 else 0)
unfolding nth
nth-pow zero zero = refl
nth-pow (suc j) zero = nth-zero j ∙ ground arith
nth-pow zero (suc i) = ground arith
nth-pow (suc j) (suc i) =
    let half : 2 ^ suc i / 2 ≡ 2 ^ i = omega arith in ap (nth j) half ∙ nth-pow j i ∙ ground arith

-- `~a` in `n` bits.
pub nth-complement : (n j a : ℕ) → j < n → a < 2 ^ n → nth j (2 ^ n - 1 - a) ≡ 1 - nth j a
unfolding nth
nth-complement zero j a h p = absurd (omega arith)
nth-complement (suc n) zero a h p = omega arith
nth-complement (suc n) (suc j) a h p =
    let half : (2 ^ suc n - 1 - a) / 2 ≡ 2 ^ n - 1 - a / 2 = omega arith in
    ap (nth j) half ∙ nth-complement n j (a / 2) (omega arith) (omega arith)

-- A number of `n` bits is made of them.
pub nth-ext : (n a b : ℕ) → a < 2 ^ n → b < 2 ^ n → ((j : ℕ) → j < n → nth j a ≡ nth j b) → a ≡ b
unfolding nth
nth-ext zero a b p q h = omega arith
nth-ext (suc n) a b p q h =
    let halves =
      nth-ext n (a / 2) (b / 2) (omega arith) (omega arith) (λ j r. h (suc j) (omega arith)) in
    omega (arith, halves, h 0 (omega arith))

bit_and-zero : (n a : ℕ) → a ≤ n → bit_and a 0 ≡ 0
bit_and-zero n zero h = refl
bit_and-zero zero (suc a) h = absurd (omega arith)
bit_and-zero (suc n) (suc a) h =
    omega (arith, bit_and_halves (suc a) 0, bit_and-zero n (suc a / 2) (omega arith))

-- `(a & (1 << i)) != 0` reads the `i`-th bit.
pub bit_and-pow : (i a : ℕ) → bit_and a (2 ^ i) ≡ nth i a * 2 ^ i
unfolding nth
bit_and-pow zero a = omega (arith, bit_and_halves a 1, bit_and-zero a (a / 2) (omega arith))
bit_and-pow (suc i) a =
    let half : 2 ^ suc i / 2 ≡ 2 ^ i = omega arith in
    let rest : bit_and (a / 2) (2 ^ suc i / 2) ≡ nth i (a / 2) * 2 ^ i =
      ap (bit_and (a / 2)) half ∙ bit_and-pow i (a / 2) in
    let even : 2 ^ suc i % 2 ≡ 0 = omega arith in
    let double : nth i (a / 2) * 2 ^ suc i ≡ nth i (a / 2) * 2 ^ i * 2 =
      ap (λ k. nth i (a / 2) * k) (pow-suc 2 i) ∙ sym (mul_assoc (nth i (a / 2)) (2 ^ i) 2) in
    omega (arith, bit_and_halves a (2 ^ suc i), rest, even, double)

pub two_pow_pos : (n : ℕ) → 0 < 2 ^ n
two_pow_pos zero = omega arith
two_pow_pos (suc n) = omega (arith, two_pow_pos n)

pub two_pow-le : (a b : ℕ) → a ≤ b → 2 ^ a ≤ 2 ^ b
two_pow-le zero b h = two_pow_pos b
two_pow-le (suc a) zero h = absurd (omega arith)
two_pow-le (suc a) (suc b) h = omega (arith, two_pow-le a b (omega arith))

pub mod-two_pow : (n a : ℕ) → a % 2 ^ suc n ≡ a / 2 % 2 ^ n * 2 + a % 2
mod-two_pow n a =
    let m = 2 ^ n in
    let q = a / 2 / m in
    let low : a / 2 % m < m = mod-lt (a / 2) (two_pow_pos n) in
    let whole : m * 2 * q ≡ m * q * 2 = rw (mul_assoc m 2 q, mul_assoc m q 2, mul_comm 2 q) refl in
    ap (λ k. a % k) (pow-suc 2 n)
    ∙ ap (λ k. k % (m * 2)) (omega (arith, div-add-mod (a / 2) m, whole))
    ∙ add-mul-mod_self_left (a / 2 % m * 2 + a % 2) (m * 2) q
    ∙ mod-eq_of_lt (omega arith)

-- `a & ((1 << n) - 1)` is the remainder.
pub bit_and-ones : (n a : ℕ) → bit_and a (2 ^ n - 1) ≡ a % 2 ^ n
bit_and-ones zero a = omega (arith, bit_and-zero a a (omega arith))
bit_and-ones (suc n) a =
    let half : (2 ^ suc n - 1) / 2 ≡ 2 ^ n - 1 = omega arith in
    let rest : bit_and (a / 2) ((2 ^ suc n - 1) / 2) ≡ a / 2 % 2 ^ n =
      ap (bit_and (a / 2)) half ∙ bit_and-ones n (a / 2) in
    let odd : (2 ^ suc n - 1) % 2 ≡ 1 = omega (arith, two_pow_pos n) in
    omega (arith, bit_and_halves a (2 ^ suc n - 1), rest, mod-two_pow n a, odd)

pub bit_and-lt : (n a b : ℕ) → a < 2 ^ n → b < 2 ^ n → bit_and a b < 2 ^ n
bit_and-lt n a b h g =
    rw (bit_and-bitwise a b)
      (digits-lt (λ b. 0) min (λ b. omega arith) (λ x y p q. omega arith) n a b refl h g)

pub bit_or-lt : (n a b : ℕ) → a < 2 ^ n → b < 2 ^ n → bit_or a b < 2 ^ n
bit_or-lt n a b h g =
    rw (bit_or-bitwise a b)
      (digits-lt (λ b. b) max (λ b. omega arith) (λ x y p q. omega arith) n a b refl h g)

pub bit_xor-lt : (n a b : ℕ) → a < 2 ^ n → b < 2 ^ n → bit_xor a b < 2 ^ n
bit_xor-lt n a b h g =
    rw (bit_xor-bitwise a b) (digits-lt (λ b. b) differ xor_base differ-lt n a b refl h g)

-- A mask of `n` ones.
pub nth-ones : (n j : ℕ) → nth j (2 ^ n - 1) ≡ (if ltb j n then 1 else 0)
unfolding nth
nth-ones zero zero = refl
nth-ones zero (suc j) = nth-zero j ∙ ground arith
nth-ones (suc n) zero =
    let odd : (2 ^ suc n - 1) % 2 ≡ 1 = omega (arith, two_pow_pos n) in odd ∙ ground arith
nth-ones (suc n) (suc j) =
    let half : (2 ^ suc n - 1) / 2 ≡ 2 ^ n - 1 = omega arith in
    ap (nth j) half ∙ nth-ones n j ∙ ground arith

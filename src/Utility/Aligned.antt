-- ===== src/Utility/Aligned.antt =====
-- `align_up` rounds up to a multiple of a power of two, up to the wrap of a `size_t`.
use native.Mathlib.Nat.{add-mul-mod_self_left, div-add-mod}
use memkit.Prelude.{ℕ, ◌+◌, ◌-◌, ◌*◌, ◌/◌, ◌%◌, ◌^◌, ◌≤◌, ◌<◌, ◌≡◌, true, ap, ◌∙◌, arith}
use memkit.Growth.{size_mod}
use memkit.Bits.{two_pow_pos, two_pow-le}
use memkit.Bits.Align.{bit_and-high, bit_and-pred}
use memkit.Utility.{align_up, is_power_of_two}

pub is_power_of_two-two_pow : (a : ℕ) → is_power_of_two a ≡ true → (k : ℕ) × (a ≡ 2 ^ k)
unfolding is_power_of_two
is_power_of_two-two_pow a h = bit_and-pred a a (omega arith) (ground arith) (ground arith)

-- What `align_up` computes: `w` is the sum that it rounds down.
pub align_up_lem :
    (k value : ℕ)
    → k ≤ 63
    → align_up value (2 ^ k)
      ≡ (value + (2 ^ k - 1)) % size_mod - (value + (2 ^ k - 1)) % size_mod % 2 ^ k
unfolding align_up
align_up_lem k value h =
    let le = two_pow-le k 63 h in
    let pos = two_pow_pos k in
    let mask : (2 ^ k + (2 ^ 64 - 1)) % 2 ^ 64 ≡ 2 ^ k - 1 = omega arith in
    let high : 2 ^ 64 - 1 - (2 ^ k - 1) ≡ 2 ^ 64 - 2 ^ k = omega arith in
    rw (mask, high) (bit_and-high k 64 ((value + (2 ^ k - 1)) % 2 ^ 64) (omega arith) (omega arith))

pub rounded_down-mod : (w m : ℕ) → 0 < m → (w - w % m) % m ≡ 0
rounded_down-mod w m pos =
    ap (λ k. k % m) {y = 0 + m * (w / m)} (omega (arith, div-add-mod w m))
    ∙ add-mul-mod_self_left 0 m (w / m)
    ∙ ground arith

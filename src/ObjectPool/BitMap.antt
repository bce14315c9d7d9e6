-- ===== src/ObjectPool/BitMap.antt =====
-- The bits of the pool.
use memkit.Prelude.{
  ℕ, zero, suc, ◌-◌, ◌*◌, ◌/◌, ◌%◌, ◌^◌, ◌<◌, ◌≡◌, ap, bit_and, bit_or, true, false, List, not,
  ◌==◌, if◌then◌else◌, arith, get!, get!-set, set, nat_inhabited, length, Bool-cases, inl, inr,
}
use memkit.Bits.{
  nth, nth-lt, nth-bit_and, nth-bit_or, nth-pow, nth-complement, bit_and-pow, two_pow_pos,
  two_pow-le,
}
use memkit.ObjectPool.{bit_test, bit_set, bit_clear}

digit_test : (x p : ℕ) → x < 2 → 0 < p → not (x * p == 0) ≡ (x == 1)
digit_test zero p h pos = ground arith
digit_test (suc zero) p h pos = ground arith
digit_test (suc (suc x)) p h pos = absurd (omega arith)

pub test-nth : (bits : List ℕ) (j : ℕ) → bit_test bits j ≡ (nth (j % 8) (get! bits (j / 8)) == 1)
unfolding bit_test
test-nth bits j = rw (bit_and-pow (j % 8) (get! bits (j / 8))) (
    digit_test (nth (j % 8) (get! bits (j / 8))) (2 ^ (j % 8)) (nth-lt (j % 8) _)
      (two_pow_pos (j % 8)))

pub test-set :
    (bits : List ℕ) (i j : ℕ)
    → i / 8 < length bits
    → bit_test (bit_set bits i) j ≡ (if i == j then true else bit_test bits j)
unfolding bit_set
test-set bits i j h =
    let old = get! bits (i / 8) in
    rw
      (
        test-nth (set bits (i / 8) (bit_or old (2 ^ (i % 8)))) j,
        test-nth bits j,
        get!-set bits (i / 8) (j / 8) (bit_or old (2 ^ (i % 8))) h,
      )
      (elim (Bool-cases (i / 8 == j / 8)) [
        | inr other ↦ rw other (ground arith)
        | inl here ↦
            let same : old ≡ get! bits (j / 8) = ap (get! bits) (ground arith) in
            rw (here, nth-bit_or (j % 8) old (2 ^ (i % 8)), nth-pow (j % 8) (i % 8), same)
              (ground (arith, nth-lt (j % 8) (get! bits (j / 8))))
      ])

pub test-clear :
    (bits : List ℕ) (i j : ℕ)
    → i / 8 < length bits
    → bit_test (bit_clear bits i) j ≡ (if i == j then false else bit_test bits j)
unfolding bit_clear
test-clear bits i j h =
    let old = get! bits (i / 8) in
    let small : 2 ^ (i % 8) < 2 ^ 8 = omega (arith, two_pow-le (i % 8) 7 (omega arith)) in
    rw
      (
        test-nth (set bits (i / 8) (bit_and old (0xFF - 2 ^ (i % 8)))) j,
        test-nth bits j,
        get!-set bits (i / 8) (j / 8) (bit_and old (0xFF - 2 ^ (i % 8))) h,
      )
      (elim (Bool-cases (i / 8 == j / 8)) [
        | inr other ↦ rw other (ground arith)
        | inl here ↦
            let same : old ≡ get! bits (j / 8) = ap (get! bits) (ground arith) in
            rw
              (
                here,
                nth-bit_and (j % 8) old (0xFF - 2 ^ (i % 8)),
                nth-complement 8 (j % 8) (2 ^ (i % 8)) (omega arith) small,
                nth-pow (j % 8) (i % 8),
                same,
              )
              (ground (arith, nth-lt (j % 8) (get! bits (j / 8))))
      ])

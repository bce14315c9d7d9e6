-- ===== src/Arena/Carving.antt =====
-- Blocks of the arena are aligned, inside the backing block, and past the blocks handed out before.
use native.Mathlib.Decide.{dec_lt}
use native.Mathlib.Nat.{mod-lt}
use memkit.Prelude.{
  ap, ◌∙◌, ℕ, ◌+◌, ◌-◌, ◌%◌, ◌^◌, ◌≤◌, ◌<◌, ◌≡◌, ◌⊎◌, inl, inr, true, Option, some, arith, refl,
}
use memkit.Status.{Status}
use memkit.Growth.{size_mod}
use memkit.Bits.{two_pow_pos, two_pow-le}
use memkit.Utility.{align_up, is_power_of_two}
use memkit.Utility.Aligned.{is_power_of_two-two_pow, align_up_lem, rounded_down-mod}
use memkit.Arena.{Arena, allocate}

-- The block lies in the address space, and what has been handed out lies in the block.
pub record IsValid (a : Arena) : Type 0 where
  pub there : 0 < a.base
  pub addressable : a.base + a.capacity_bytes < 2 ^ 64
  pub sized : 0 < a.capacity_bytes
  pub inside : a.offset_bytes ≤ a.capacity_bytes

-- A block of `size` bytes has been handed out at an aligned address.
pub record Carved (a : Arena) (size alignment : ℕ) (out : Status × Option ℕ × Arena) : Type 0 where
  pub address : ℕ
  pub done : out.0 ≡ Status.ok
  pub given : out.1 ≡ some address
  pub aligned : address % alignment ≡ 0
  pub after : a.base + a.offset_bytes ≤ address
  pub before : address + size ≡ out.2.base + out.2.offset_bytes
  pub same : out.2.base ≡ a.base
  pub capacity : out.2.capacity_bytes ≡ a.capacity_bytes
  pub valid : IsValid out.2

module _ (a : Arena) (size alignment old p : ℕ) (valid : IsValid a) (some_size : 0 < size)
    (small : size < 2 ^ 64) (power : is_power_of_two alignment ≡ true) (nonzero : 0 < alignment)
    (at : align_up (a.base + a.offset_bytes) alignment ≡ p) (fits : p < 2 ^ 64) where
  raw : (a.base + a.offset_bytes) % size_mod ≡ a.base + a.offset_bytes
  raw = omega (arith, valid.addressable, valid.inside)

  allocate_ok :
      a.base + a.offset_bytes ≤ p
      → p + size ≤ a.base + a.capacity_bytes
      → allocate a size alignment (some old) ≡ (
        Status.ok,
        some p,
        record a {
          offset_bytes = p - a.base + size;
          allocation_count = (a.allocation_count + 1) % size_mod;
        },
      )
  unfolding allocate
  allocate_ok after room =
      let off : (p + (size_mod - a.base)) % size_mod ≡ p - a.base =
        omega (arith, valid.addressable) in
      let sum : (p - a.base + size) % size_mod ≡ p - a.base + size =
        omega (arith, valid.addressable) in
      rw (raw, at, power, off, sum)
        (ground (arith, valid.there, valid.sized, valid.addressable, valid.inside))

  allocate_oom :
      (o : ℕ)
      → (p + (size_mod - a.base)) % size_mod ≡ o
      → o < 2 ^ 64
      → (o < a.offset_bytes) ⊎ (a.capacity_bytes < o + size)
      → allocate a size alignment (some old) ≡ (Status.oom, some 0, a)
  unfolding allocate
  allocate_oom o off below no_room =
      rw (raw, at, power, off)
        (ground (arith, valid.there, valid.sized, valid.addressable, valid.inside))

  -- The test that the requested size fits, on the rounded address.
  allocate_lem :
      p % alignment ≡ 0
      → (p < a.base + a.offset_bytes → a.capacity_bytes < p + 2 ^ 64 - a.base)
      → Carved a size alignment (allocate a size alignment (some old))
        ⊎ ((allocate a size alignment (some old) ≡ (Status.oom, some 0, a))
            × ((p < a.base + a.offset_bytes) ⊎ (a.base + a.capacity_bytes < p + size)))
  allocate_lem aligned wraps = elim (dec_lt p (a.base + a.offset_bytes)) [
    | yes wrapped ↦ inr (
      allocate_oom ((p + (size_mod - a.base)) % size_mod) refl (omega arith)
          (ground (arith, wraps, valid.there, valid.addressable, valid.inside)),
      inl wrapped,
    )
    | no not_wrapped ↦ elim (dec_lt (a.base + a.capacity_bytes) (p + size)) [
      | yes full ↦ inr (
        allocate_oom (p - a.base) (omega (arith, valid.there)) (omega arith) (inr (omega arith)),
        inr full,
      )
      | no room ↦
          let run = allocate_ok (omega arith) (omega arith) in
          inl (
            rw run (record {
              address = p;
              done = refl;
              given = refl;
              aligned = aligned;
              after = omega arith;
              before = omega arith;
              same = refl;
              capacity = refl;
              valid = record {
                there = valid.there;
                addressable = valid.addressable;
                sized = valid.sized;
                inside = omega arith;
              };
            }))
    ]
  ]

-- `allocate` on a valid arena, with a positive size and an alignment that passes the test for a
-- power of two, both of them a `size_t`: either it reports `ok`, and hands out an address that is a
-- multiple of the alignment, at or past the end of what was handed out before, such that the arena
-- ends with the new block and is valid; or it reports `oom`, hands out null and leaves the arena as
-- it was, and then the rest of the backing block is smaller than the size with the largest padding.
pub allocate-Carved :
    (a : Arena) (size alignment old : ℕ)
    → IsValid a
    → 0 < size
    → size < 2 ^ 64
    → alignment < 2 ^ 64
    → is_power_of_two alignment ≡ true
    → Carved a size alignment (allocate a size alignment (some old))
      ⊎ ((allocate a size alignment (some old) ≡ (Status.oom, some 0, a))
          × (a.capacity_bytes < a.offset_bytes + (alignment - 1) + size))
allocate-Carved a size alignment old valid some_size small fits power =
    let (k, e) = is_power_of_two-two_pow alignment power in
    let k_small : k ≤ 63 = elim (dec_lt 63 k) [
      | yes big ↦ absurd (omega (arith, two_pow-le 64 k big, e))
      | no small_k ↦ omega (arith, small_k)
    ] in
    let w : ℕ = (a.base + a.offset_bytes + (2 ^ k - 1)) % size_mod in
    let p : ℕ = w - w % 2 ^ k in
    let pos = two_pow_pos k in
    let low : w % 2 ^ k < 2 ^ k = mod-lt w pos in
    let at : align_up (a.base + a.offset_bytes) alignment ≡ p =
      ap (align_up (a.base + a.offset_bytes)) e
      ∙ align_up_lem k (a.base + a.offset_bytes) k_small in
    elim (allocate_lem a size alignment old p valid some_size small power (omega (arith, e)) at
      (omega arith) (rw e (rounded_down-mod w (2 ^ k) pos))
      (λ wrapped. omega (arith, valid.addressable, valid.there))) [
        | inl carved ↦ inl carved
        | inr (failed, no_room) ↦ inr (failed, ground (arith, e, valid.addressable))
      ]

-- ===== src/DoubleBuffer/Slots.antt =====
-- The two slots of the double buffer do not overlap, and `publish` exchanges them.
use memkit.Prelude.{ℕ, ◌+◌, ◌-◌, ◌*◌, ◌^◌, ◌≤◌, ◌<◌, ◌≡◌, ◌⊎◌, inl, inr, arith, sym, ◌∙◌}
use memkit.DoubleBuffer.{
  DoubleBuffer, slot_bytes, slot_ptr, other_index, write_slot, read_slot, publish,
}

-- Either slot is readable, and the two slots fit an object.
pub record IsValid (b : DoubleBuffer) : Type 0 where
  pub one_of_two : b.readable < 2
  pub fits : 2 * (b.slot_capacity * b.elem_size) ≤ 2 ^ 63

bytes_lem : (b : DoubleBuffer) → IsValid b → slot_bytes b ≡ b.slot_capacity * b.elem_size
unfolding slot_bytes
bytes_lem b valid = omega (arith, valid.fits)

first_slot : (b : DoubleBuffer) (i : ℕ) → i ≡ 0 → slot_ptr b i ≡ 0
unfolding slot_ptr
first_slot b i e = rw e (ground arith)

second_slot :
    (b : DoubleBuffer) (i : ℕ) → IsValid b → i ≡ 1 → slot_ptr b i ≡ b.slot_capacity * b.elem_size
unfolding slot_ptr
second_slot b i valid e = rw (e, bytes_lem b valid) (omega (arith, valid.fits))

other_index_lem : (b : DoubleBuffer) → b.readable < 2 → other_index b ≡ 1 - b.readable
unfolding other_index
other_index_lem b p = omega arith

two_cases : (n : ℕ) → n < 2 → (n ≡ 0) ⊎ (n ≡ 1)
two_cases n p = ground arith

-- The block of a valid double buffer has two slots of `slot_capacity` elements. The slot to write
-- and the slot to read lie in it and share no byte; `publish` leaves a valid buffer, in which the
-- slot that was written is read, and the one that was read is written.
pub publish-slots :
    (b : DoubleBuffer)
    → IsValid b
    → IsValid (publish b)
      × (read_slot (publish b) ≡ write_slot b)
      × (write_slot (publish b) ≡ read_slot b)
      × (write_slot b + b.slot_capacity * b.elem_size ≤ 2 * (b.slot_capacity * b.elem_size))
      × (read_slot b + b.slot_capacity * b.elem_size ≤ 2 * (b.slot_capacity * b.elem_size))
      × ((write_slot b + b.slot_capacity * b.elem_size ≤ read_slot b)
          ⊎ (read_slot b + b.slot_capacity * b.elem_size ≤ write_slot b))
unfolding publish write_slot read_slot
publish-slots b valid =
    let b' = publish b in
    let other = other_index_lem b valid.one_of_two in
    let back = other_index_lem b' (omega (arith, other, valid.one_of_two)) in
    let valid' : IsValid b' = record { one_of_two = omega (arith, other); fits = valid.fits } in
    elim (two_cases b.readable valid.one_of_two) [
      | inl first ↦
          let r = first_slot b b.readable first in
          let w = second_slot b (other_index b) valid (omega (arith, other, first)) in
          let r' = second_slot b' b'.readable valid' (omega (arith, other, first)) in
          let w' = first_slot b' (other_index b') (omega (arith, other, back, first)) in
          (
            valid',
            r' ∙ sym w,
            w' ∙ sym r,
            omega (arith, w),
            omega (arith, r),
            inr (omega (arith, r, w)),
          )
      | inr second ↦
          let r = second_slot b b.readable valid second in
          let w = first_slot b (other_index b) (omega (arith, other, second)) in
          let r' = first_slot b' b'.readable (omega (arith, other, second)) in
          let w' = second_slot b' (other_index b') valid' (omega (arith, other, back, second)) in
          (
            valid',
            r' ∙ sym w,
            w' ∙ sym r,
            omega (arith, w),
            omega (arith, r),
            inl (omega (arith, r, w)),
          )
    ]

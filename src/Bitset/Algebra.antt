-- ===== src/Bitset/Algebra.antt =====
-- `union_with`, `intersect_with`, `xor_with` and `complement`: the bitset as a set.
use memkit.Prelude.{
  ℕ, zero, suc, ◌+◌, ◌-◌, ◌/◌, ◌%◌, ◌^◌, ◌≤◌, ◌<◌, ◌≡◌, refl, ◌∙◌, bit_and, bit_or, bit_xor, Bool,
  List, not, ◌&&◌, ◌||◌, ◌==◌, if◌then◌else◌, arith, get!, get!-set, set, nat_inhabited, length,
  length-set,
}
use memkit.Status.{Status}
use memkit.Bits.{
  nth, nth-lt, nth-bit_and, nth-bit_or, nth-bit_xor, nth-complement, bit_and-lt, bit_or-lt,
  bit_xor-lt,
}
use memkit.Bitset.{
  Bitset, test, masked, with_other, combine_loop, combine_with, complement_loop, complement,
  union_with, intersect_with, xor_with,
}
use memkit.Bitset.Inv.{IsValid, Holds, stored_as, test-bit, masked-Holds}

-- The loop changes each byte in its range by itself.
combine_loop_lem :
    (f : ℕ → ℕ → ℕ) (n i : ℕ) (bytes others : List ℕ)
    → i + n ≤ length bytes
    → (length (combine_loop f n i bytes others) ≡ length bytes)
      × ((j : ℕ)
          → i ≤ j
          → j < i + n
          → get! (combine_loop f n i bytes others) j ≡ f (get! bytes j) (get! others j))
      × ((j : ℕ) → j < i → get! (combine_loop f n i bytes others) j ≡ get! bytes j)
unfolding combine_loop
combine_loop_lem f zero i bytes others h = (refl, λ j p q. absurd (omega arith), λ j p. refl)
combine_loop_lem f (suc n) i bytes others h =
    let v = f (get! bytes i) (get! others i) in
    let size = length-set bytes i v in
    let (same, inside, before) =
      combine_loop_lem f n (i + 1) (set bytes i v) others (omega (arith, size)) in
    let at = λ (j : ℕ). get!-set bytes i j v (omega arith) in
    (
      same ∙ size,
      λ j p q. ground (arith, inside j, before j, at j),
      λ j p. ground (arith, before j, at j),
    )

complement_loop-combine :
    (n i : ℕ) (bytes others : List ℕ)
    → complement_loop n i bytes ≡ combine_loop (λ x y. 0xFF - x) n i bytes others
unfolding combine_loop complement_loop
complement_loop-combine zero i bytes others = refl
complement_loop-combine (suc n) i bytes others = complement_loop-combine n (i + 1) _ others

-- An operation on bytes that works on each bit as `g` does.
record IsBitwise (f : ℕ → ℕ → ℕ) (g : Bool → Bool → Bool) : Type 0 where
  fits : (x y : ℕ) → x < 2 ^ 8 → y < 2 ^ 8 → f x y < 2 ^ 8
  digit : (k x y : ℕ) → k < 8 → x < 2 ^ 8 → (nth k (f x y) == 1) ≡ g (nth k x == 1) (nth k y == 1)

module _ (b other : Bitset) (bytes others : List ℕ) (v : IsValid b bytes) (w : IsValid other others)
    (same : b.capacity ≡ other.capacity) where
  with_other-ok :
      (f : List ℕ → List ℕ → List ℕ)
      → with_other b other f
        ≡ (Status.ok, stored_as b (masked b.capacity b.storage_bytes (f bytes others)))
  unfolding with_other
  with_other-ok f = ground (arith, v.stored, w.stored)

  combined-Holds :
      (f : ℕ → ℕ → ℕ) (g : Bool → Bool → Bool)
      → IsBitwise f g
      → Holds b
          (stored_as b
            (masked b.capacity b.storage_bytes (combine_loop f b.storage_bytes 0 bytes others)))
          (λ j. g (test b j) (test other j))
  combined-Holds f g u =
      let (size, at, _) =
        combine_loop_lem f b.storage_bytes 0 bytes others (omega (arith, v.room)) in
      masked-Holds b (combine_loop f b.storage_bytes 0 bytes others) _ v.positive v.sized
        (rw size v.room)
        (λ i h.
          rw (at i (omega arith) (omega arith))
            (u.fits _ _ (v.byte i h) (w.byte i (omega (arith, v.sized, w.sized)))))
        (λ j h. rw (at (j / 8) (omega arith) (omega (arith, v.sized))) (
          u.digit (j % 8) _ _ (omega arith) (v.byte (j / 8) (omega (arith, v.sized)))
          ∙ rw (test-bit b bytes j v.stored h, test-bit other others j w.stored (omega arith))
              refl))

  combine-Holds :
      (f : ℕ → ℕ → ℕ) (g : Bool → Bool → Bool)
      → IsBitwise f g
      → ((combine_with b other f).0 ≡ Status.ok)
        × Holds b (combine_with b other f).1 (λ j. g (test b j) (test other j))
  unfolding combine_with
  combine-Holds f g u =
      rw (with_other-ok (λ xs ys. combine_loop f b.storage_bytes 0 xs ys))
        (refl, combined-Holds f g u)

  -- For two valid bitsets of one capacity, `union_with`, `intersect_with` and `xor_with` succeed and
  -- leave a valid set with the members of either, of both, and of exactly one of them.
  pub combine-members :
      ((union_with b other).0 ≡ Status.ok)
      × Holds b (union_with b other).1 (λ j. test b j || test other j)
      × ((intersect_with b other).0 ≡ Status.ok)
      × Holds b (intersect_with b other).1 (λ j. test b j && test other j)
      × ((xor_with b other).0 ≡ Status.ok)
      × Holds b (xor_with b other).1 (λ j. if test b j then not (test other j) else test other j)
  unfolding union_with intersect_with xor_with
  combine-members =
      let (ok_or, or) = combine-Holds bit_or ◌||◌ (record {
        fits = bit_or-lt 8;
        digit = λ k x y h p. rw (nth-bit_or k x y) (ground (arith, nth-lt k x, nth-lt k y));
      }) in
      let (ok_and, and) = combine-Holds bit_and ◌&&◌ (record {
        fits = bit_and-lt 8;
        digit = λ k x y h p. rw (nth-bit_and k x y) (ground (arith, nth-lt k x, nth-lt k y));
      }) in
      let (ok_xor, xor) =
        combine-Holds bit_xor (λ x y. if x then not y else y)
          (record {
            fits = bit_xor-lt 8;
            digit = λ k x y h p. rw (nth-bit_xor k x y) (ground (arith, nth-lt k x, nth-lt k y));
          }) in
      (ok_or, or, ok_and, and, ok_xor, xor)

complement-ok :
    (b : Bitset) (bytes : List ℕ)
    → IsValid b bytes
    → complement b ≡ (
      Status.ok,
      stored_as b (masked b.capacity b.storage_bytes (complement_loop b.storage_bytes 0 bytes)),
    )
unfolding complement
complement-ok b bytes v = ground (arith, v.stored)

-- `complement` of a valid bitset succeeds and leaves a valid set with exactly the indices below
-- the capacity that were not members.
pub complement-members :
    (b : Bitset) (bytes : List ℕ)
    → IsValid b bytes
    → ((complement b).0 ≡ Status.ok) × Holds b (complement b).1 (λ j. not (test b j))
complement-members b bytes v =
    let u : IsBitwise (λ x y. 0xFF - x) (λ x y. not x) = record {
      fits = λ x y p q. omega arith;
      digit = λ k x y h p. rw (nth-complement 8 k x h p) (ground (arith, nth-lt k x));
    } in
    rw (complement-ok b bytes v, complement_loop-combine b.storage_bytes 0 bytes bytes)
      (refl, combined-Holds b b bytes bytes v v refl (λ x y. 0xFF - x) (λ x y. not x) u)

-- ===== src/Bitset/Copies.antt =====
-- `equal`, and the copies of the bytes to and from a block.
use native.Mathlib.Decide.{dec_lt}
use memkit.Prelude.{
  ℕ, zero, suc, ◌+◌, ◌*◌, ◌/◌, ◌%◌, ◌≤◌, ◌<◌, ◌≡◌, ◌↔◌, refl, subst, ◌∙◌, sym, true, false, some,
  List, ltb, if◌then◌else◌, arith, get!, nat_inhabited, length, take, drop, length-append,
  length-take, length-drop, get!-take_append, Bool-cases, inl, inr,
}
use memkit.Status.{Status}
use memkit.Bits.{nth, nth-lt, nth-ext}
use memkit.Bitset.{Bitset, test, masked, memcmp_loop, equal, memcpy, load_bytes, store_bytes}
use memkit.Bitset.Inv.{IsValid, Holds, bit, stored_as, test-bit, masked-Holds}

memcmp_loop_iff :
    (n i : ℕ) (xs ys : List ℕ)
    → (memcmp_loop n i xs ys ≡ true) ↔ ((j : ℕ) → i ≤ j → j < i + n → get! xs j ≡ get! ys j)
unfolding memcmp_loop
memcmp_loop_iff zero i xs ys = (λ e j p q. absurd (omega arith), λ h. refl)
memcmp_loop_iff (suc n) i xs ys =
    let (to, from) = memcmp_loop_iff n (i + 1) xs ys in
    (
      λ e j p q. elim (dec_lt i j) [
        | yes r ↦ to (ground arith) j (omega arith) (omega arith)
        | no r ↦
            let here : i ≡ j = omega arith in subst (λ k. get! xs k ≡ get! ys k) here (ground arith)
      ],
      λ h.
          let first = h i (omega arith) (omega arith) in
          let rest = from (λ j p q. h j (omega arith) (omega arith)) in ground arith,
    )

-- A bit is a test, also past the capacity.
bit-test :
    (b : Bitset) (bytes : List ℕ) (j : ℕ)
    → IsValid b bytes
    → j < 8 * b.storage_bytes
    → bit bytes j ≡ (if ltb j b.capacity then (if test b j then 1 else 0) else 0)
bit-test b bytes j v h = elim (Bool-cases (ltb j b.capacity)) [
  | inl below ↦
      rw (below, test-bit b bytes j v.stored (ground arith))
        (ground (arith, nth-lt (j % 8) (get! bytes (j / 8))))
  | inr past ↦ rw past (v.tail j (ground arith) h)
]

test-past : (b : Bitset) (j : ℕ) → b.capacity ≤ j → test b j ≡ false
unfolding test
test-past b j h = ground arith

module _ (b other : Bitset) (bytes others : List ℕ) (v : IsValid b bytes) (w : IsValid other others)
    (same : b.capacity ≡ other.capacity) where
  equal-memcmp : equal b other ≡ memcmp_loop b.storage_bytes 0 bytes others
  unfolding equal
  equal-memcmp = ground (arith, v.stored, w.stored)

  same_bits :
      ((j : ℕ) → test b j ≡ test other j)
      → (i k : ℕ) → i < b.storage_bytes
      → k < 8
      → nth k (get! bytes i) ≡ nth k (get! others i)
  same_bits h i k p q =
      let j = 8 * i + k in
      let at : j / 8 ≡ i = omega arith in
      let digit : j % 8 ≡ k = omega arith in
      let one = bit-test b bytes j v (omega arith) in
      let two = bit-test other others j w (omega (arith, v.sized, w.sized)) in
      rw (at, digit) at (one ∙ rw (h j, same) refl ∙ sym two)

  -- `equal` compares bytes, but on two valid bitsets of one capacity it answers exactly whether
  -- they have the same members.
  pub equal_iff : (equal b other ≡ true) ↔ ((j : ℕ) → test b j ≡ test other j)
  equal_iff =
      let (to, from) = memcmp_loop_iff b.storage_bytes 0 bytes others in
      rw equal-memcmp (
        λ e j. elim (dec_lt j b.capacity) [
          | yes below ↦
              rw
                (
                  test-bit b bytes j v.stored below,
                  test-bit other others j w.stored (omega arith),
                  to e (j / 8) (omega arith) (omega (arith, v.sized)),
                )
                refl
          | no past ↦ test-past b j (omega arith) ∙ sym (test-past other j (omega arith))
        ],
        λ h. from (λ i p q.
            nth-ext 8 _ _ (v.byte i (omega arith)) (w.byte i (omega (arith, v.sized, w.sized)))
              (λ k r. same_bits h i k (omega arith) r)),
      )

-- A block that holds the bytes of a valid bitset.
module _ (b c : Bitset) (bytes dst now : List ℕ) (v : IsValid b bytes) (w : IsValid c now)
    (same : b.capacity ≡ c.capacity) (bytes_len : ℕ) (long : b.storage_bytes ≤ bytes_len)
    (room : b.storage_bytes ≤ length dst) where
  abbrev block : List ℕ
  block = memcpy b.storage_bytes bytes dst

  stores : store_bytes b (some dst) bytes_len ≡ (Status.ok, some block)
  unfolding store_bytes
  stores = ground (arith, v.stored)

  loads : load_bytes c (some block) bytes_len ≡ (
    Status.ok,
    stored_as c (masked c.capacity c.storage_bytes (memcpy c.storage_bytes block now)),
  )
  unfolding load_bytes
  loads = ground (arith, w.stored, v.sized, w.sized)

  same_byte :
      (i : ℕ) → i < c.storage_bytes → get! (memcpy c.storage_bytes block now) i ≡ get! bytes i
  same_byte i h =
      get!-take_append c.storage_bytes block (drop c.storage_bytes now) i h (
        omega (
          arith,
          length-append (take b.storage_bytes bytes) (drop b.storage_bytes dst),
          length-take b.storage_bytes bytes,
          v.room,
          v.sized,
          w.sized,
        ))
      ∙ get!-take_append b.storage_bytes bytes (drop b.storage_bytes dst) i
          (omega (arith, v.sized, w.sized)) v.room

  -- What `store_bytes` of a valid bitset writes into a block, `load_bytes` reads back into any valid
  -- bitset of the same capacity: both succeed when the block has the bytes of the capacity, and the
  -- second set then is valid and has the members of the first.
  pub load-store_bytes :
      (store_bytes b (some dst) bytes_len ≡ (Status.ok, some block))
      × ((load_bytes c (some block) bytes_len).0 ≡ Status.ok)
      × Holds c (load_bytes c (some block) bytes_len).1 (test b)
  load-store_bytes = rw loads (
    stores,
    refl,
    masked-Holds c (memcpy c.storage_bytes block now) (test b) w.positive w.sized
        (omega (
          arith,
          length-append (take c.storage_bytes block) (drop c.storage_bytes now),
          length-take c.storage_bytes block,
          length-append (take b.storage_bytes bytes) (drop b.storage_bytes dst),
          length-take b.storage_bytes bytes,
          length-drop c.storage_bytes now,
          w.room,
          v.room,
          v.sized,
          w.sized,
        ))
        (λ i h. rw (same_byte i h) (v.byte i (omega (arith, v.sized, w.sized))))
        (λ j h.
          rw (same_byte (j / 8) (omega (arith, w.sized)))
            (sym (test-bit b bytes j v.stored (omega arith)))),
  )

-- ===== src/Bitset/Inv.antt =====
-- The invariant of the bitset, and what its operations on bytes do to its bits.
use memkit.Prelude.{
  ℕ, zero, suc, ◌+◌, ◌-◌, ◌*◌, ◌/◌, ◌%◌, ◌^◌, ◌≤◌, ◌<◌, ◌≡◌, refl, ap, ◌∙◌, bit_and, Bool, false,
  some, List, not, ltb, leb, ◌==◌, if◌then◌else◌, arith, get!, get!-set, nat_inhabited, length,
  length-set, Bool-cases, inl, inr,
}
use memkit.Bits.{
  nth, nth-lt, nth-bit_and, nth-ones, bit_and-pow, bit_and-lt, two_pow_pos, two_pow-le,
}
use memkit.Bitset.{Bitset, test, masked, tail_mask, byte_mask}

-- The bit of index `j`.
abbrev pub bit : List ℕ → ℕ → ℕ
bit bytes j = nth (j % 8) (get! bytes (j / 8))

-- The storage is `bytes`, and the bits of its last byte that are past the capacity are 0.
pub record IsValid (b : Bitset) (bytes : List ℕ) : Type 0 where
  pub stored : b.storage ≡ some bytes
  pub positive : 0 < b.capacity
  pub sized : b.storage_bytes ≡ (b.capacity + 7) / 8
  pub room : b.storage_bytes ≤ length bytes
  pub byte : (i : ℕ) → i < b.storage_bytes → get! bytes i < 2 ^ 8
  pub tail : (j : ℕ) → b.capacity ≤ j → j < 8 * b.storage_bytes → bit bytes j ≡ 0

-- `out` is a valid set of the same capacity, whose members below it are those of `m`.
pub record Holds (b out : Bitset) (m : ℕ → Bool) : Type 0 where
  pub bytes : List ℕ
  pub valid : IsValid out bytes
  pub capacity : out.capacity ≡ b.capacity
  pub member : (j : ℕ) → j < b.capacity → test out j ≡ m j

abbrev pub stored_as : Bitset → List ℕ → Bitset
stored_as b bytes = record b { storage = some bytes }

test_digit : (x p : ℕ) → x < 2 → 0 < p → not (x * p == 0) ≡ (x == 1)
test_digit zero p h pos = ground arith
test_digit (suc zero) p h pos = ground arith
test_digit (suc (suc x)) p h pos = absurd (omega arith)

pub test-bit :
    (b : Bitset) (bytes : List ℕ) (j : ℕ)
    → b.storage ≡ some bytes
    → j < b.capacity
    → test b j ≡ (bit bytes j == 1)
unfolding test byte_mask
test-bit b bytes j e h =
    let inside : leb b.capacity j ≡ false = ground arith in
    rw (e, inside, bit_and-pow (j % 8) (get! bytes (j / 8)))
      (test_digit (bit bytes j) (2 ^ (j % 8)) (nth-lt (j % 8) _) (two_pow_pos (j % 8)))

nth-tail_mask :
    (capacity k : ℕ)
    → k < 8
    → nth k (tail_mask capacity)
      ≡ (if capacity % 8 == 0 then 1 else if ltb k (capacity % 8) then 1 else 0)
unfolding tail_mask
nth-tail_mask capacity k h = ground (arith, nth-ones 8 k, nth-ones (capacity % 8) k)

tail_mask-lt : (capacity : ℕ) → tail_mask capacity < 2 ^ 8
unfolding tail_mask
tail_mask-lt capacity = ground (arith, two_pow-le (capacity % 8) 8 (omega arith))

-- `apply_tail_mask` clears the bits past the capacity, and no other.
masked-bit :
    (capacity n : ℕ) (bytes : List ℕ) (j : ℕ)
    → n ≡ (capacity + 7) / 8
    → n ≤ length bytes
    → j < 8 * n
    → bit (masked capacity n bytes) j ≡ (if ltb j capacity then bit bytes j else 0)
unfolding masked
masked-bit capacity n bytes j sized room h =
    let last = get! bytes (n - 1) in
    let some_bytes : (n == 0) ≡ false = ground arith in
    rw
      (some_bytes, get!-set bytes (n - 1) (j / 8) (bit_and last (tail_mask capacity)) (omega arith))
      (elim (Bool-cases (n - 1 == j / 8)) [
        | inr other ↦ rw other (ground arith)
        | inl here ↦
            let same : last ≡ get! bytes (j / 8) = ap (get! bytes) (ground arith) in
            rw
              (
                here,
                nth-bit_and (j % 8) last (tail_mask capacity),
                nth-tail_mask capacity (j % 8) (omega arith),
                same,
              )
              (ground (arith, nth-lt (j % 8) (get! bytes (j / 8))))
      ])

masked_small :
    (capacity n : ℕ) (bytes : List ℕ)
    → n ≤ length bytes
    → ((i : ℕ) → i < n → get! bytes i < 2 ^ 8)
    → (length (masked capacity n bytes) ≡ length bytes)
      × ((i : ℕ) → i < n → get! (masked capacity n bytes) i < 2 ^ 8)
unfolding masked
masked_small capacity n bytes room small = elim (Bool-cases (n == 0)) [
  | inl none_left ↦ rw none_left (refl, small)
  | inr some_bytes ↦
      let last = get! bytes (n - 1) in
      let v = bit_and last (tail_mask capacity) in
      let fits : v < 2 ^ 8 =
        bit_and-lt 8 last (tail_mask capacity) (small (n - 1) (ground arith))
          (tail_mask-lt capacity) in
      rw some_bytes (
        length-set bytes (n - 1) v,
        λ i h. rw (get!-set bytes (n - 1) i v (ground arith)) (ground (arith, small i, fits)),
      )
]

pub masked-Holds :
    (b : Bitset) (bytes : List ℕ) (m : ℕ → Bool)
    → 0 < b.capacity
    → b.storage_bytes ≡ (b.capacity + 7) / 8
    → b.storage_bytes ≤ length bytes
    → ((i : ℕ) → i < b.storage_bytes → get! bytes i < 2 ^ 8)
    → ((j : ℕ) → j < b.capacity → (bit bytes j == 1) ≡ m j)
    → Holds b (stored_as b (masked b.capacity b.storage_bytes bytes)) m
masked-Holds b bytes m positive sized room small members =
    let now = masked b.capacity b.storage_bytes bytes in
    let (same, small') = masked_small b.capacity b.storage_bytes bytes room small in
    record {
      bytes = now;
      valid = record {
        stored = refl;
        positive = positive;
        sized = sized;
        room = rw same room;
        byte = small';
        tail = λ j p q. ground (arith, masked-bit b.capacity b.storage_bytes bytes j sized room q);
      };
      capacity = refl;
      member = λ j h.
          test-bit (stored_as b now) now j refl h
          ∙ ap (λ x. x == 1)
              (ground (arith, masked-bit b.capacity b.storage_bytes bytes j sized room))
          ∙ members j h;
    }

-- ===== src/Bitset/Members.antt =====
-- `assign` and `toggle`: one member of the bitset.
use memkit.Prelude.{
  ℕ, ◌-◌, ◌*◌, ◌/◌, ◌%◌, ◌^◌, ◌≤◌, ◌<◌, ◌≡◌, refl, ap, ◌∙◌, bit_and, bit_or, bit_xor, Bool, true,
  false, List, not, ltb, ◌==◌, if◌then◌else◌, arith, get!, get!-set, set, nat_inhabited, length-set,
  Bool-cases, inl, inr,
}
use memkit.Status.{Status}
use memkit.Bits.{
  nth, nth-lt, nth-bit_and, nth-bit_or, nth-bit_xor, nth-pow, nth-complement, bit_and-lt, bit_or-lt,
  bit_xor-lt, two_pow-le,
}
use memkit.Bitset.{Bitset, test, update_byte, byte_mask, set_bit, reset, assign, toggle}
use memkit.Bitset.Inv.{IsValid, Holds, bit, stored_as, test-bit}

-- What the update of a byte does to its bits: it gives the bit of `index` the value that `f` has on
-- it, and keeps the others.
record IsUpdate (index : ℕ) (f : ℕ → ℕ) (g : ℕ → ℕ) : Type 0 where
  fits : (a : ℕ) → a < 2 ^ 8 → f a < 2 ^ 8
  digit :
      (k a : ℕ)
      → k < 8
      → a < 2 ^ 8
      → nth k (f a) ≡ (if index % 8 == k then g (nth k a) else nth k a)

byte_mask-lt : (index : ℕ) → byte_mask index < 2 ^ 8
unfolding byte_mask
byte_mask-lt index = omega (arith, two_pow-le (index % 8) 7 (omega arith))

nth-byte_mask : (index k : ℕ) → nth k (byte_mask index) ≡ (if index % 8 == k then 1 else 0)
unfolding byte_mask
nth-byte_mask index k = nth-pow k (index % 8)

or-IsUpdate : (index : ℕ) → IsUpdate index (λ byte. bit_or byte (byte_mask index)) (λ x. 1)
or-IsUpdate index = record {
  fits = λ a h. bit_or-lt 8 a (byte_mask index) h (byte_mask-lt index);
  digit = λ k a h p.
      rw (nth-bit_or k a (byte_mask index), nth-byte_mask index k) (ground (arith, nth-lt k a));
}

and-IsUpdate : (index : ℕ) → IsUpdate index (λ byte. bit_and byte (0xFF - byte_mask index)) (λ x. 0)
and-IsUpdate index = record {
  fits = λ a h. bit_and-lt 8 a (0xFF - byte_mask index) h (omega arith);
  digit = λ k a h p.
      rw
        (
          nth-bit_and k a (0xFF - byte_mask index),
          nth-complement 8 k (byte_mask index) h (byte_mask-lt index),
          nth-byte_mask index k,
        )
        (ground (arith, nth-lt k a));
}

xor-IsUpdate : (index : ℕ) → IsUpdate index (λ byte. bit_xor byte (byte_mask index)) (λ x. 1 - x)
xor-IsUpdate index = record {
  fits = λ a h. bit_xor-lt 8 a (byte_mask index) h (byte_mask-lt index);
  digit = λ k a h p.
      rw (nth-bit_xor k a (byte_mask index), nth-byte_mask index k) (ground (arith, nth-lt k a));
}

module _ (b : Bitset) (bytes : List ℕ) (v : IsValid b bytes) (index : ℕ) where
  refused : (f : ℕ → ℕ) → b.capacity ≤ index → update_byte b index f ≡ (Status.invalid, b)
  unfolding update_byte
  refused f h = ground (arith, v.stored)

  done :
      (f : ℕ → ℕ)
      → index < b.capacity
      → update_byte b index f
        ≡ (Status.ok, stored_as b (set bytes (index / 8) (f (get! bytes (index / 8)))))
  unfolding update_byte
  done f h = ground (arith, v.stored)

  changed-bit :
      (f g : ℕ → ℕ) (j : ℕ)
      → IsUpdate index f g
      → index < b.capacity
      → j < 8 * b.storage_bytes
      → bit (set bytes (index / 8) (f (get! bytes (index / 8)))) j
        ≡ (if index == j then g (bit bytes j) else bit bytes j)
  changed-bit f g j u inside h =
      let old = get! bytes (index / 8) in
      rw (get!-set bytes (index / 8) (j / 8) (f old) (omega (arith, v.room, v.sized)))
        (elim (Bool-cases (index / 8 == j / 8)) [
          | inr other ↦ rw other (ground arith)
          | inl here ↦
              let same : old ≡ get! bytes (j / 8) = ap (get! bytes) (ground arith) in
              rw
                (
                  here,
                  u.digit (j % 8) old (omega arith) (v.byte (index / 8) (omega (arith, v.sized))),
                  same,
                )
                (ground arith)
        ])

  changed-IsValid :
      (f g : ℕ → ℕ)
      → IsUpdate index f g
      → index < b.capacity
      → IsValid
          (stored_as b (set bytes (index / 8) (f (get! bytes (index / 8)))))
          (set bytes (index / 8) (f (get! bytes (index / 8))))
  changed-IsValid f g u inside =
      let old = get! bytes (index / 8) in
      let within : index / 8 < b.storage_bytes = omega (arith, v.sized) in
      let fits = u.fits old (v.byte (index / 8) within) in
      record {
        stored = refl;
        positive = v.positive;
        sized = v.sized;
        room = rw (length-set bytes (index / 8) (f old)) v.room;
        byte = λ i h.
            rw (get!-set bytes (index / 8) i (f old) (omega (arith, v.room)))
              (ground (arith, v.byte i, fits));
        tail = λ j p q. rw (changed-bit f g j u inside q) (ground (arith, v.tail j p q));
      }

  update_lem :
      (f g : ℕ → ℕ)
      → IsUpdate index f g
      → ((update_byte b index f).0 ≡ (if ltb index b.capacity then Status.ok else Status.invalid))
        × Holds b
            (update_byte b index f).1
            (λ j. if index == j then g (bit bytes j) == 1 else test b j)
  update_lem f g u = elim (Bool-cases (ltb index b.capacity)) [
    | inr out ↦
        rw (refused f (ground arith), out)
          (refl, record { bytes = bytes; valid = v; capacity = refl; member = λ j h. ground arith })
    | inl inside ↦
        let now = set bytes (index / 8) (f (get! bytes (index / 8))) in
        rw (done f (ground arith), inside)
          (
            refl,
            record {
              bytes = now;
              valid = changed-IsValid f g u (ground arith);
              capacity = refl;
              member = λ j h.
                  test-bit (stored_as b now) now j refl h
                  ∙ ap (λ x. x == 1) (changed-bit f g j u (ground arith) (omega (arith, v.sized)))
                  ∙ rw (test-bit b bytes j v.stored h)
                      (elim (Bool-cases (index == j)) [ inl e ↦ rw e refl | inr e ↦ rw e refl ]);
            },
          )
  ]

  -- `assign` to a valid bitset refuses an index past the capacity and changes nothing; else it
  -- reports `ok`, and the set, still valid, has the index exactly if the value is true and the
  -- others as before.
  pub assign-Holds :
      (value : Bool)
      → ((assign b value index).0 ≡ (if ltb index b.capacity then Status.ok else Status.invalid))
        × Holds b (assign b value index).1 (λ j. if index == j then value else test b j)
  unfolding assign set_bit reset
  assign-Holds true = update_lem _ _ (or-IsUpdate index)
  assign-Holds false = update_lem _ _ (and-IsUpdate index)

  -- `toggle` of a valid bitset refuses an index past the capacity and changes nothing; else it
  -- reports `ok`, and the set, still valid, differs from the old one in that index alone.
  pub toggle-Holds :
      ((toggle b index).0 ≡ (if ltb index b.capacity then Status.ok else Status.invalid))
      × Holds b (toggle b index).1 (λ j. if index == j then not (test b j) else test b j)
  unfolding toggle
  toggle-Holds =
      let (s, out) = update_lem _ _ (xor-IsUpdate index) in
      (
        s,
        record {
          bytes = out.bytes;
          valid = out.valid;
          capacity = out.capacity;
          member = λ j h.
              out.member j h
              ∙ rw (test-bit b bytes j v.stored h)
                  (ground (arith, nth-lt (j % 8) (get! bytes (j / 8))));
        },
      )

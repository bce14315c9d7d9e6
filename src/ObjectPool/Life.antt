-- ===== src/ObjectPool/Life.antt =====
-- The life of an element of the pool: `alloc`, `contains` and `free`.
use native.Mathlib.Nat.{mul-mod_left, mul-div_left}
use memkit.Prelude.{
  ℕ, ◌+◌, ◌-◌, ◌*◌, ◌/◌, ◌%◌, ◌^◌, ◌<◌, ◌≡◌, refl, sym, ap, ◌∙◌, true, false, some, List, arith,
  get!, get!-set, set, length, length-set, ◌==◌, ◌||◌, ltb, leb, if◌then◌else◌, nat_inhabited,
  Inhabited, Bool-cases, inl, inr,
}
use memkit.Status.{Status}
use memkit.Element.{destroy, needs_destroy_on_clear}
use memkit.Chain.{null}
use memkit.ObjectPool.{
  ObjectPool, bit_test, bit_set, bit_clear, elem_at, alloc, index_of, contains, destroy_elem, free,
}
use memkit.ObjectPool.BitMap.{test-set, test-clear}
use memkit.ObjectPool.Inv.{Tracks, free-lt_of_used}

module _ {A : Type 0} (p : ObjectPool A) (place : ℕ → ℕ) (t : Tracks p place) where
  abbrev pub taken : ℕ → ObjectPool A
  taken i = record p {
    free_count = p.free_count - 1;
    used_bits = bit_set p.used_bits i;
    used_count = p.used_count + 1;
  }

  abbrev top : ℕ
  top = get! p.free_stack (p.free_count - 1)

  byte_in : (i : ℕ) → i < p.capacity → i / 8 < length p.used_bits
  byte_in i h = omega (arith, t.bits_room)

  alloc-taken : 0 < p.free_count → alloc p true ≡ (Status.ok, some (elem_at p top), taken top)
  unfolding alloc
  alloc-taken pos =
      let more : (p.free_count == 0) ≡ false = ground arith in
      let inside : leb p.capacity top ≡ false = ground (arith, t.free_in (p.free_count - 1)) in
      rw (more, inside) refl

  length-bit_set : (i : ℕ) → length (bit_set p.used_bits i) ≡ length p.used_bits
  unfolding bit_set
  length-bit_set i = length-set p.used_bits (i / 8) _

  taken-Tracks : 0 < p.free_count → Tracks (taken top) place
  taken-Tracks pos =
      let top_in = t.free_in (p.free_count - 1) (omega arith) in
      record {
        there = t.there;
        sized = t.sized;
        bits_room = rw (length-bit_set top) t.bits_room;
        stack_room = t.stack_room;
        indexable = t.indexable;
        counted = omega (arith, t.counted);
        free_in = λ k h. t.free_in k (omega arith);
        free_unused = λ k h. ground (
          arith,
          test-set p.used_bits top (get! p.free_stack k) (byte_in top top_in),
          t.free_unused k,
          t.free_place k,
          t.free_place (p.free_count - 1),
        );
        free_place = λ k h. t.free_place k (omega arith);
      }

  -- `alloc` of a pool with a free element reports `ok` and hands out the address of an element that is
  -- not in use; after it the pool is valid, and that element is in use and every other one as before.
  pub alloc-Tracks :
      0 < p.free_count
      → (i : ℕ) × (alloc p true ≡ (Status.ok, some (elem_at p i), taken i))
        × (i < p.capacity)
        × (bit_test p.used_bits i ≡ false)
        × Tracks (taken i) place
        × ((j : ℕ)
            → bit_test (taken i).used_bits j ≡ (if i == j then true else bit_test p.used_bits j))
  alloc-Tracks pos =
      let top_in = t.free_in (p.free_count - 1) (omega arith) in
      (
        top,
        alloc-taken pos,
        top_in,
        t.free_unused (p.free_count - 1) (omega arith),
        taken-Tracks pos,
        λ j. test-set p.used_bits top j (byte_in top top_in),
      )

  index-elem_at : (i : ℕ) → i < p.capacity → index_of p (elem_at p i) ≡ (Status.ok, i)
  unfolding index_of elem_at
  index-elem_at i h =
      let there : (p.storage + i * p.policy.elem_size == null || p.storage == null) ≡ false =
        ground (arith, t.there) in
      let above : ltb (p.storage + i * p.policy.elem_size) p.storage ≡ false = ground arith in
      let offset : p.storage + i * p.policy.elem_size - p.storage ≡ i * p.policy.elem_size =
        omega arith in
      let inside : leb p.capacity i ≡ false = ground arith in
      rw (there, above, offset, mul-mod_left i p.policy.elem_size, mul-div_left i t.sized, inside)
        refl

  elem_there : (i : ℕ) → (elem_at p i == null) ≡ false
  unfolding elem_at
  elem_there i = ground (arith, t.there)

  contains-elem_at : (i : ℕ) → i < p.capacity → contains p (elem_at p i) ≡ bit_test p.used_bits i
  unfolding contains
  contains-elem_at i h = rw (index-elem_at i h) refl

  module _ ⦃inhabited : Inhabited A⦄ where
    -- The pool with the element free again; `log` are the elements that were destroyed.
    abbrev pub given_back : ℕ → List A → ObjectPool A
    given_back i log = record p {
      destroyed = log;
      used_bits = bit_clear p.used_bits i;
      free_stack = set p.free_stack p.free_count i;
      free_count = p.free_count + 1;
      used_count = p.used_count - 1;
    }

    -- What was destroyed, when the element goes.
    abbrev pub log_of : ℕ → List A
    log_of i =
        if needs_destroy_on_clear p.policy.kind
        then destroy p.policy.kind (get! p.elements i) p.destroyed
        else p.destroyed

    free-given_back :
        (i : ℕ)
        → i < p.capacity
        → bit_test p.used_bits i ≡ true
        → free p (elem_at p i) ≡ (Status.ok, given_back i (log_of i))
    unfolding free destroy_elem
    free-given_back i h used =
        let there : (elem_at p i == null) ≡ false = elem_there i in
        let whole : i % 2 ^ 32 ≡ i = omega (arith, t.indexable) in
        elim (Bool-cases (needs_destroy_on_clear p.policy.kind)) [
          | inl destroys ↦ rw (index-elem_at i h, there, used, destroys, whole) refl
          | inr keeps ↦ rw (index-elem_at i h, there, used, keeps, whole) refl
        ]

    free_unknown :
        (i : ℕ)
        → i < p.capacity
        → bit_test p.used_bits i ≡ false
        → free p (elem_at p i) ≡ (Status.not_found, p)
    unfolding free
    free_unknown i h unused = rw (index-elem_at i h, elem_there i, unused) refl

    length-bit_clear : (i : ℕ) → length (bit_clear p.used_bits i) ≡ length p.used_bits
    unfolding bit_clear
    length-bit_clear i = length-set p.used_bits (i / 8) _

    given_back-Tracks :
        (i : ℕ) (log : List A)
        → i < p.capacity
        → bit_test p.used_bits i ≡ true
        → Tracks (given_back i log) (λ x. if x == i then p.free_count else place x)
    given_back-Tracks i log h used =
        let room = free-lt_of_used p place i t h used in
        let read =
          λ (k : ℕ). get!-set p.free_stack p.free_count k i (omega (arith, t.stack_room)) in
        record {
          there = t.there;
          sized = t.sized;
          bits_room = rw (length-bit_clear i) t.bits_room;
          stack_room = rw (length-set p.free_stack p.free_count i) t.stack_room;
          indexable = t.indexable;
          counted = omega (arith, t.counted);
          free_in = λ k q. ground (arith, read k, t.free_in k);
          free_unused = λ k q. ground (
            arith,
            read k,
            test-clear p.used_bits i (get! (given_back i log).free_stack k) (byte_in i h),
            t.free_unused k,
          );
          free_place = λ k q. ground (arith, read k, t.free_place k, t.free_unused k);
        }

module _ {A : Type 0} ⦃inhabited : Inhabited A⦄ (p : ObjectPool A) (place : ℕ → ℕ)
    (t : Tracks p place) where
  same_address : (i : ℕ) (log : List A) → elem_at (given_back p place t i log) i ≡ elem_at p i
  unfolding elem_at
  same_address i log = refl

  -- `free` of the address of an element in use reports `ok`, and leaves a valid pool in which this
  -- element is not in use and every other one is as before; to free it once more is refused with
  -- `not_found` and changes nothing.
  pub free-Tracks :
      (i : ℕ)
      → i < p.capacity
      → bit_test p.used_bits i ≡ true
      → let p' = given_back p place t i (log_of p place t i) in
        (free p (elem_at p i) ≡ (Status.ok, p'))
        × Tracks p' (λ x. if x == i then p.free_count else place x)
        × ((j : ℕ) → bit_test p'.used_bits j ≡ (if i == j then false else bit_test p.used_bits j))
        × (free p' (elem_at p i) ≡ (Status.not_found, p'))
  free-Tracks i h used =
      let log = log_of p place t i in
      let p' = given_back p place t i log in
      let place' = λ (x : ℕ). if x == i then p.free_count else place x in
      let t' : Tracks p' place' = given_back-Tracks p place t i log h used in
      let bits = λ (j : ℕ). test-clear p.used_bits i j (byte_in p place t i h) in
      let unused : bit_test p'.used_bits i ≡ false = ground (arith, bits i) in
      (
        free-given_back p place t i h used,
        t',
        bits,
        ap (free p') (sym (same_address i log)) ∙ free_unknown p' place' t' i h unused,
      )

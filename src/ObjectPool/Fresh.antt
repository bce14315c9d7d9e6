-- ===== src/ObjectPool/Fresh.antt =====
-- The pool after `init` and after `clear`: no element is in use.
use memkit.Prelude.{
  ℕ, zero, suc, ◌+◌, ◌-◌, ◌/◌, ◌%◌, ◌^◌, ◌≤◌, ◌<◌, ◌≡◌, ◌≢◌, refl, sym, ap, ◌∙◌, true, false, some,
  List, arith, get!, get!-set, set, length, length-set, ◌==◌, ◌||◌, [], ◌∷◌, ◌++◌, append-nil,
  append_assoc, if◌then◌else◌, nat_inhabited, Inhabited, Bool-cases, inl, inr,
}
use memkit.Status.{Status}
use memkit.Element.{Kind, destroy, Policy, needs_destroy_on_clear}
use memkit.Ring.{external}
use memkit.Chain.{Ptr, null}
use memkit.Bits.{nth-zero}
use memkit.ObjectPool.{
  ObjectPool, used_bits_bytes, zero_bytes, stack_loop, bit_test, reset_free_list, init,
  destroy_elem, clear_loop, clear,
}
use memkit.ObjectPool.BitMap.{test-nth}
use memkit.ObjectPool.Inv.{Tracks}

-- After `n` rounds from `i` on.
record Zeroed (n i : ℕ) (bits out : List ℕ) : Type 0 where
  now : (j : ℕ) → i ≤ j → j < i + n → get! out j ≡ 0
  before : (j : ℕ) → j < i → get! out j ≡ get! bits j
  long : length out ≡ length bits

zero_bytes-Zeroed :
    (n i : ℕ) (bits : List ℕ) → i + n ≤ length bits → Zeroed n i bits (zero_bytes n i bits)
unfolding zero_bytes
zero_bytes-Zeroed zero i bits h = record {
  now = λ j a b. absurd (omega arith);
  before = λ j a. refl;
  long = refl;
}
zero_bytes-Zeroed (suc n) i bits h =
    let size = length-set bits i 0 in
    let r = zero_bytes-Zeroed n (i + 1) (set bits i 0) (omega (arith, size)) in
    record {
      now = λ j a b. ground (arith, r.now j, r.before j, get!-set bits i j 0);
      before = λ j a. ground (arith, r.before j, get!-set bits i j 0);
      long = omega (arith, r.long, size);
    }

record Stacked (capacity n i : ℕ) (stack out : List ℕ) : Type 0 where
  now : (j : ℕ) → i ≤ j → j < i + n → get! out j ≡ capacity - 1 - j
  before : (j : ℕ) → j < i → get! out j ≡ get! stack j
  long : length out ≡ length stack

stack_loop-Stacked :
    (capacity n i : ℕ) (stack : List ℕ)
    → capacity ≤ 2 ^ 32
    → i + n ≤ length stack
    → Stacked capacity n i stack (stack_loop capacity n i stack)
unfolding stack_loop
stack_loop-Stacked capacity zero i stack fits h = record {
  now = λ j a b. absurd (omega arith);
  before = λ j a. refl;
  long = refl;
}
stack_loop-Stacked capacity (suc n) i stack fits h =
    let x = (capacity - 1 - i) % 2 ^ 32 in
    let size = length-set stack i x in
    let r = stack_loop-Stacked capacity n (i + 1) (set stack i x) fits (omega (arith, size)) in
    record {
      now = λ j a b. ground (arith, r.now j, r.before j, get!-set stack i j x);
      before = λ j a. ground (arith, r.before j, get!-set stack i j x);
      long = omega (arith, r.long, size);
    }

module _ {A : Type 0} (p : ObjectPool A) (there : p.storage ≢ null) (sized : 0 < p.policy.elem_size)
    (bits_room : (p.capacity + 7) / 8 ≤ length p.used_bits)
    (stack_room : p.capacity ≤ length p.free_stack) (indexable : p.capacity ≤ 2 ^ 32) where
  abbrev unused : ObjectPool A
  unused = record p {
    used_bits = zero_bytes (used_bits_bytes p.capacity) 0 p.used_bits;
    used_count = 0;
    free_count = p.capacity;
    free_stack = stack_loop p.capacity p.capacity 0 p.free_stack;
  }

  reset_free_list-unused : reset_free_list p ≡ (Status.ok, unused)
  unfolding reset_free_list
  reset_free_list-unused =
      let some_storage : (p.storage == null) ≡ false = ground (arith, there) in rw some_storage refl

  no_bit : (j : ℕ) → j < p.capacity → bit_test unused.used_bits j ≡ false
  unfolding used_bits_bytes
  no_bit j h =
      let z = zero_bytes-Zeroed (used_bits_bytes p.capacity) 0 p.used_bits (omega arith) in
      rw (test-nth unused.used_bits j, z.now (j / 8) (omega arith) (omega arith), nth-zero (j % 8))
        refl

  unused-Tracks : Tracks unused (λ i. p.capacity - 1 - i)
  unfolding used_bits_bytes
  unused-Tracks =
      let z = zero_bytes-Zeroed (used_bits_bytes p.capacity) 0 p.used_bits (omega arith) in
      let s = stack_loop-Stacked p.capacity p.capacity 0 p.free_stack indexable (omega arith) in
      record {
        there = there;
        sized = sized;
        bits_room = rw z.long bits_room;
        stack_room = rw s.long stack_room;
        indexable = indexable;
        counted = omega arith;
        free_in = λ k h. omega (arith, s.now k (omega arith) (omega arith));
        free_unused = λ k h.
            no_bit (get! unused.free_stack k) (omega (arith, s.now k (omega arith) (omega arith)));
        free_place = λ k h. omega (arith, s.now k (omega arith) (omega arith));
      }

-- `init` with storage, a stack and bits of the capacity succeeds: the pool is valid and no element is
-- in use.
pub init-unused :
    {A : Type 0} (p : ObjectPool A) (policy : Policy A) (storage : Ptr) (elements : List A)
    (stack bits : List ℕ) (capacity : ℕ)
    → storage ≢ null
    → 0 < capacity
    → 0 < policy.elem_size
    → capacity ≤ 2 ^ 32
    → capacity ≤ length stack
    → (capacity + 7) / 8 ≤ length bits
    → let r = init p policy storage elements (some stack) (some bits) capacity in
      (r.0 ≡ Status.ok)
      × (r.1.used_count ≡ 0)
      × Tracks r.1 (λ i. capacity - 1 - i)
      × ((j : ℕ) → j < capacity → bit_test r.1.used_bits j ≡ false)
unfolding init
init-unused p policy storage elements stack bits capacity there some_elements sized fits stack_room
      bits_room =
    let bare = record p {
      policy = policy;
      storage = storage;
      elements = elements;
      free_stack = stack;
      used_bits = bits;
      capacity = capacity;
      kind = external;
    } in
    let whole : (storage == null || capacity == 0) ≡ false = ground (arith, there) in
    rw (whole, reset_free_list-unused bare there sized bits_room stack_room fits)
      (
        refl,
        refl,
        unused-Tracks bare there sized bits_room stack_room fits,
        no_bit bare there sized bits_room stack_room fits,
      )

module _ {A : Type 0} ⦃inhabited : Inhabited A⦄ where
  -- The elements in use of `n` indices from `i` on.
  abbrev pub in_use : List A → List ℕ → ℕ → ℕ → List A
  in_use elements bits zero i = []
  in_use elements bits (suc n) i =
      let rest = in_use elements bits n (i + 1) in
      if bit_test bits i then get! elements i ∷ rest else rest

  destroyed_last :
      (k : Kind A) (x : A) (log : List A)
      → needs_destroy_on_clear k ≡ true
      → destroy k x log ≡ log ++ x ∷ []
  destroyed_last (Kind.typed leaves true) x log e = refl
  destroyed_last (Kind.typed leaves false) x log e = absurd (cc)
  destroyed_last (Kind.runtime f true) x log e = refl
  destroyed_last (Kind.runtime f false) x log e = absurd (cc)

  clear_loop-logged :
      (n i : ℕ) (p : ObjectPool A)
      → needs_destroy_on_clear p.policy.kind ≡ true
      → clear_loop n i p ≡ record p { destroyed = p.destroyed ++ in_use p.elements p.used_bits n i }
  unfolding clear_loop destroy_elem
  clear_loop-logged zero i p e = ap (λ l. record p { destroyed = l }) (sym (append-nil p.destroyed))
  clear_loop-logged (suc n) i p e = elim (Bool-cases (bit_test p.used_bits i)) [
    | inr free ↦ rw free (clear_loop-logged n (i + 1) p e)
    | inl used ↦ rw used (
        clear_loop-logged n (i + 1)
          (record p { destroyed = destroy p.policy.kind (get! p.elements i) p.destroyed }) e
        ∙ ap (λ l. record p { destroyed = l ++ in_use p.elements p.used_bits n (i + 1) })
            (destroyed_last p.policy.kind (get! p.elements i) p.destroyed e)
        ∙ ap (λ l. record p { destroyed = l })
            (append_assoc p.destroyed (get! p.elements i ∷ [])
              (in_use p.elements p.used_bits n (i + 1))))
  ]

  module _ (p : ObjectPool A) (place : ℕ → ℕ) (t : Tracks p place)
      (some_used : 0 < p.used_count) where
    abbrev logged : List A → ObjectPool A
    logged log = record p { destroyed = log }

    clear-unused :
        (log : List A)
        → (if needs_destroy_on_clear p.policy.kind then clear_loop p.capacity 0 p else p)
          ≡ logged log
        → clear p ≡ unused (logged log) t.there t.sized t.bits_room t.stack_room t.indexable
    unfolding clear
    clear-unused log run =
        let some_left : (p.used_count == 0) ≡ false = ground arith in
        rw
          (
            some_left,
            run,
            reset_free_list-unused (logged log) t.there t.sized t.bits_room t.stack_room
                t.indexable,
          )
          refl

    abbrev log_after : List A
    log_after =
        if needs_destroy_on_clear p.policy.kind
        then p.destroyed ++ in_use p.elements p.used_bits p.capacity 0
        else p.destroyed

    run_log :
        (if needs_destroy_on_clear p.policy.kind then clear_loop p.capacity 0 p else p)
        ≡ logged log_after
    run_log = elim (Bool-cases (needs_destroy_on_clear p.policy.kind)) [
      | inl destroys ↦ rw destroys (clear_loop-logged p.capacity 0 p destroys)
      | inr keeps ↦ rw keeps refl
    ]

    -- `clear` of a valid pool with an element in use leaves a valid pool with none in use; it has
    -- destroyed the elements that were in use, in the order of their indices, if the policy asks for it,
    -- and no other.
    pub clear-in_use :
        ((clear p).used_count ≡ 0)
        × Tracks (clear p) (λ i. p.capacity - 1 - i)
        × ((clear p).destroyed ≡ (
            if needs_destroy_on_clear p.policy.kind
            then p.destroyed ++ in_use p.elements p.used_bits p.capacity 0
            else p.destroyed))
    clear-in_use = rw (clear-unused log_after run_log) (
      refl,
      unused-Tracks (logged log_after) t.there t.sized t.bits_room t.stack_room t.indexable,
      refl,
    )

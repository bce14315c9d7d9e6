-- ===== src/HandlePool/Fresh.antt =====
-- A pool after `init`: it tracks no slot as held, and it takes handles that it never issued.
use memkit.Prelude.{
  ℕ, zero, suc, ◌+◌, ◌-◌, ◌/◌, ◌%◌, ◌^◌, ◌≤◌, ◌<◌, ◌≡◌, true, false, some, List, refl, arith, get!,
  get!-set, set, length, length-set, ◌==◌, ltb, leb, if◌then◌else◌, nat_inhabited,
}
use memkit.Status.{Status}
use memkit.HandlePool.{HandlePool, reset_loop, reset_free_list, init, release, valid}
use memkit.HandlePool.Inv.{Tracks}

-- After `n` rounds from `i` on, the slots from `i` to `i + n` are reset and the others as before.
record Reset (p : HandlePool) (n i : ℕ) (q : HandlePool) : Type 0 where
  gens : (j : ℕ) → i ≤ j → j < i + n → get! q.generations j ≡ 0
  stack : (j : ℕ) → i ≤ j → j < i + n → get! q.free_stack j ≡ p.capacity - 1 - j
  gens_before : (j : ℕ) → j < i → get! q.generations j ≡ get! p.generations j
  stack_before : (j : ℕ) → j < i → get! q.free_stack j ≡ get! p.free_stack j
  gen_size : length q.generations ≡ length p.generations
  stack_size : length q.free_stack ≡ length p.free_stack
  capacity : q.capacity ≡ p.capacity

reset_loop-Reset :
    (n i : ℕ) (p : HandlePool)
    → i + n ≤ length p.generations
    → i + n ≤ length p.free_stack
    → p.capacity ≤ 2 ^ 32
    → Reset p n i (reset_loop n i p)
unfolding reset_loop
reset_loop-Reset zero i p h1 h2 h3 = record {
  gens = λ j a b. absurd (omega arith);
  stack = λ j a b. absurd (omega arith);
  gens_before = λ j a. refl;
  stack_before = λ j a. refl;
  gen_size = refl;
  stack_size = refl;
  capacity = refl;
}
reset_loop-Reset (suc n) i p h1 h2 h3 =
    let x = (p.capacity - 1 - i) % 2 ^ 32 in
    let p' = record p { generations = set p.generations i 0; free_stack = set p.free_stack i x } in
    let g = length-set p.generations i 0 in
    let f = length-set p.free_stack i x in
    let r = reset_loop-Reset n (i + 1) p' (omega arith) (omega arith) h3 in
    record {
      gens = λ j a b. ground (arith, r.gens j, r.gens_before j, get!-set p.generations i j 0);
      stack = λ j a b. ground (arith, r.stack j, r.stack_before j, get!-set p.free_stack i j x);
      gens_before = λ j a. ground (arith, r.gens_before j, get!-set p.generations i j 0);
      stack_before = λ j a. ground (arith, r.stack_before j, get!-set p.free_stack i j x);
      gen_size = omega (arith, r.gen_size);
      stack_size = omega (arith, r.stack_size);
      capacity = r.capacity;
    }

module _ (p : HandlePool) (gens stack : List ℕ) (capacity elem_size align : ℕ)
    (fits : capacity ≤ 2 ^ 16) (pos : 0 < capacity) (sized : 0 < elem_size)
    (gen_room : capacity ≤ length gens) (stack_room : capacity ≤ length stack) where
  pub start : HandlePool
  start = record {
    generations = gens;
    free_stack = stack;
    capacity = capacity;
    elem_size = elem_size;
    elem_align = if ltb 0 align then align else 1;
    live_count = 0;
    free_count = capacity;
  }

  init-ok :
      init p true (some gens) (some stack) capacity elem_size align
      ≡ (Status.ok, reset_free_list start)
  unfolding init start
  init-ok = ground arith

  reset : Reset start capacity 0 (reset_loop capacity 0 start)
  unfolding start
  reset = reset_loop-Reset capacity 0 start (omega arith) (omega arith) (omega arith)

  -- `init` with arrays of the capacity, which 16 bits can index, succeeds, and no slot is held.
  pub init-Tracks :
      (init p true (some gens) (some stack) capacity elem_size align
        ≡ (Status.ok, reset_free_list start))
      × Tracks (reset_free_list start) (λ _. false) (λ i. capacity - 1 - i)
  unfolding reset_free_list start
  init-Tracks = (
    init-ok,
    record {
      gen_room = omega (arith, reset.gen_size, reset.capacity);
      stack_room = omega (arith, reset.stack_size, reset.capacity);
      positive = omega (arith, reset.capacity);
      indexable = omega (arith, reset.capacity);
      counted = omega (arith, reset.capacity);
      gen_16 = λ k h. omega (arith, reset.gens k (omega arith) (omega (arith, reset.capacity)));
      free_in = λ k h. omega (arith, reset.stack k (omega arith) (omega arith), reset.capacity);
      free_unused = λ k h. refl;
      free_place = λ k h. omega (arith, reset.stack k (omega arith) (omega arith), reset.capacity);
      used_in = λ k u. cc;
      used_gen = λ k u. cc;
    },
  )

  -- A pool just initialised, from which nothing was acquired, takes every positive number below
  -- its capacity for a valid handle, and `release` of it reports `ok`: it writes at the index
  -- `capacity` of the free stack, counts one slot more than there are as free, and its live count
  -- wraps round.
  pub release_forged :
      (i : ℕ)
      → 0 < i
      → i < capacity
      → let q = reset_free_list start in
        (valid q i ≡ true)
        × ((release q i).0 ≡ Status.ok)
        × ((release q i).1.free_stack ≡ set q.free_stack capacity i)
        × ((release q i).1.free_count ≡ capacity + 1)
        × ((release q i).1.live_count ≡ 2 ^ 64 - 1)
  unfolding reset_free_list valid release start
  release_forged i some_i below =
      let low : i % 2 ^ 16 ≡ i = omega arith in
      let high : i / 2 ^ 16 % 2 ^ 16 ≡ 0 = omega arith in
      let named : (i == 0) ≡ false = ground arith in
      let gen : get! (reset_loop capacity 0 start).generations i ≡ 0 =
        reset.gens i (omega arith) (omega arith) in
      let inside : ltb i capacity ≡ true = ground arith in
      let inside' : leb capacity i ≡ false = ground arith in
      rw (named, low, high, gen, reset.capacity, inside, inside') (refl, refl, refl, refl, refl)

-- ===== src/HandlePool/Acquire.antt =====
-- `acquire` hands out a slot that nobody holds.
use memkit.Prelude.{
  ℕ, ◌+◌, ◌-◌, ◌%◌, ◌^◌, ◌<◌, ◌≡◌, Bool, true, false, some, arith, get!, get!-set, get!-set_self,
  set, length, length-set, ◌==◌, ltb, leb, if◌then◌else◌, nat_inhabited,
}
use memkit.Status.{Status}
use memkit.HandlePool.{HandlePool, acquire, get, valid, slot_ptr, make_handle}
use memkit.HandlePool.Inv.{Tracks, handle_of, mark, handle_halves}

-- The generation that `acquire` gives to a slot.
abbrev pub next_generation : HandlePool → ℕ → ℕ
next_generation p i = if get! p.generations i == 0 then 1 else get! p.generations i

abbrev pub taken : HandlePool → ℕ → HandlePool
taken p i = record p {
  free_count = p.free_count - 1;
  generations = set p.generations i (next_generation p i);
  live_count = p.live_count + 1;
}

module _ (p : HandlePool) (used : ℕ → Bool) (place : ℕ → ℕ) (t : Tracks p used place)
    (some_free : 0 < p.free_count) where
  top : ℕ
  top = get! p.free_stack (p.free_count - 1)

  top_in : top < p.capacity
  unfolding top
  top_in = t.free_in (p.free_count - 1) (omega arith)

  acquire-taken :
      acquire p true
      ≡ (Status.ok, some (slot_ptr p top), make_handle top (next_generation p top), taken p top)
  unfolding acquire top
  acquire-taken =
      let inside : leb p.capacity (get! p.free_stack (p.free_count - 1)) ≡ false =
        ground (arith, top_in) in
      let more : (p.free_count == 0) ≡ false = ground arith in
      let whole : get! p.free_stack (p.free_count - 1) % 2 ^ 16
          ≡ get! p.free_stack (p.free_count - 1) =
        omega (arith, top_in, t.indexable) in
      rw (more, inside, whole)

  top_taken : (k : ℕ) → k < p.free_count - 1 → mark used top true (get! p.free_stack k) ≡ false
  unfolding top
  top_taken k h = ground (arith, t.free_unused k, t.free_place k, t.free_place (p.free_count - 1))

  taken-Tracks : Tracks (taken p top) (mark used top true) place
  taken-Tracks = record {
    gen_room = rw (length-set p.generations top (next_generation p top)) t.gen_room;
    stack_room = t.stack_room;
    positive = t.positive;
    indexable = t.indexable;
    counted = omega (arith, t.counted);
    gen_16 = λ i h. ground (
      arith,
      get!-set p.generations top i (next_generation p top),
      t.gen_16 i,
      t.gen_16 top,
      t.gen_room,
      top_in,
    );
    free_in = λ k h. t.free_in k (omega arith);
    free_unused = λ k h. top_taken k h;
    free_place = λ k h. t.free_place k (omega arith);
    used_in = λ i u. ground (arith, t.used_in i, top_in);
    used_gen = λ i u. ground (
      arith,
      get!-set p.generations top i (next_generation p top),
      t.used_gen i,
      t.gen_room,
      top_in,
    );
  }

  -- A pool with a free slot answers `acquire` with `ok`, the address and the current handle of some
  -- slot `i` below the capacity that no client holds; it then tracks that slot as held, and the
  -- generation of every other slot stays as it was.
  pub acquire-Tracks :
      (i : ℕ) × (acquire p true
        ≡ (Status.ok, some (slot_ptr p i), handle_of (taken p i) i, taken p i))
      × (used i ≡ false)
      × (i < p.capacity)
      × Tracks (taken p i) (mark used i true) place
      × ((j : ℕ)
          → get! (taken p i).generations j
            ≡ (if i == j then next_generation p i else get! p.generations j))
  acquire-Tracks =
      let unused : used top ≡ false =
        unfold top in t.free_unused (p.free_count - 1) (omega arith) in
      let inside : top < length p.generations = omega (arith, top_in, t.gen_room) in
      (
        top,
        rw (get!-set_self p.generations top (next_generation p top) inside) acquire-taken,
        unused,
        top_in,
        taken-Tracks,
        λ j. get!-set p.generations top j (next_generation p top) inside,
      )

module _ (p : HandlePool) (used : ℕ → Bool) (place : ℕ → ℕ) (t : Tracks p used place) where
  -- The handle of every held slot is valid and leads to the slot, and it is not the invalid handle.
  pub get-held :
      (i : ℕ)
      → used i ≡ true
      → (valid p (handle_of p i) ≡ true)
        × (get p true (handle_of p i) ≡ (Status.ok, some (slot_ptr p i)))
  unfolding valid get
  get-held i u =
      let below = t.used_in i u in
      let (index, generation) =
        handle_halves i (get! p.generations i) (omega (arith, t.indexable)) (t.gen_16 i below) in
      let named : (handle_of p i == 0) ≡ false = ground (arith, t.used_gen i u) in
      let inside : ltb i p.capacity ≡ true = ground arith in
      let inside' : leb p.capacity i ≡ false = ground arith in
      let same : (get! p.generations i == get! p.generations i) ≡ true = ground arith in
      (rw (index, generation, named, inside, same), rw (index, generation, named, inside', same))

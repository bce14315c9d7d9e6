-- ===== src/HandlePool/Release.antt =====
-- `release` takes a held slot back, and makes its handle stale.
use memkit.Prelude.{
  ℕ, ◌+◌, ◌-◌, ◌%◌, ◌^◌, ◌<◌, ◌≡◌, ◌≢◌, Bool, true, false, none, arith, get!, get!-set,
  get!-set_self, set, length, length-set, ◌==◌, leb, if◌then◌else◌, nat_inhabited,
}
use memkit.Status.{Status}
use memkit.HandlePool.{HandlePool, get, release, valid, bump_generation}
use memkit.HandlePool.Inv.{Tracks, handle_of, mark, handle_halves, free-lt_of_used}

pub returned : HandlePool → ℕ → HandlePool
unfolding bump_generation
returned p i = record p {
  generations = set p.generations i (bump_generation (get! p.generations i));
  free_stack = set p.free_stack p.free_count i;
  free_count = p.free_count + 1;
  live_count = p.live_count - 1;
}

bump_generation-in :
    (g : ℕ)
    → g < 2 ^ 16
    → (0 < bump_generation g) × (bump_generation g < 2 ^ 16) × (0 < g → bump_generation g ≢ g)
unfolding bump_generation
bump_generation-in g h = (ground arith, ground arith, λ q. ground arith)

-- `get` and `release` refuse exactly by the test of `valid`.
valid-refused :
    (p : HandlePool) (h : ℕ)
    → valid p h ≡ false
    → (get p true h ≡ (Status.invalid, none)) × (release p h ≡ (Status.invalid, p))
unfolding valid get release
valid-refused p h bad = (ground arith, ground arith)

module _ (p : HandlePool) (used : ℕ → Bool) (place : ℕ → ℕ) (t : Tracks p used place) (i : ℕ)
    (held : used i ≡ true) where
  room : p.free_count < p.capacity
  room = free-lt_of_used i t held

  release-returned : release p (handle_of p i) ≡ (Status.ok, returned p i)
  unfolding release returned
  release-returned =
      let below = t.used_in i held in
      let (index, generation) =
        handle_halves i (get! p.generations i) (omega (arith, t.indexable)) (t.gen_16 i below) in
      let named : (handle_of p i == 0) ≡ false = ground (arith, t.used_gen i held) in
      let inside : leb p.capacity i ≡ false = ground arith in
      let same : (get! p.generations i == get! p.generations i) ≡ true = ground arith in
      let one_less : (p.live_count + (2 ^ 64 - 1)) % 2 ^ 64 ≡ p.live_count - 1 =
        omega (arith, room, t.counted, t.indexable) in
      rw (index, generation, named, inside, same, one_less)

  abbrev pub place' : ℕ → ℕ
  place' j = if i == j then p.free_count else place j

  returned-Tracks : Tracks (returned p i) (mark used i false) place'
  unfolding returned
  returned-Tracks =
      let below = t.used_in i held in
      let g = bump_generation (get! p.generations i) in
      let (g_pos, g_16, _) = bump_generation-in (get! p.generations i) (t.gen_16 i below) in
      record {
        gen_room = rw (length-set p.generations i g) t.gen_room;
        stack_room = rw (length-set p.free_stack p.free_count i) t.stack_room;
        positive = t.positive;
        indexable = t.indexable;
        counted = omega (arith, room, t.counted);
        gen_16 = λ j h. ground (arith, get!-set p.generations i j g, t.gen_16 j, t.gen_room);
        free_in = λ k h.
            ground (arith, get!-set p.free_stack p.free_count k i, t.free_in k, t.stack_room, room);
        free_unused = λ k h.
            ground
              (arith, get!-set p.free_stack p.free_count k i, t.free_unused k, t.stack_room, room);
        free_place = λ k h. ground (
          arith,
          get!-set p.free_stack p.free_count k i,
          t.free_place k,
          t.free_unused k,
          t.stack_room,
          room,
        );
        used_in = λ j u. ground (arith, t.used_in j);
        used_gen = λ j u. ground (arith, get!-set p.generations i j g, t.used_gen j, t.gen_room);
      }

  stale : valid (returned p i) (handle_of p i) ≡ false
  unfolding valid returned
  stale =
      let below = t.used_in i held in
      let (index, generation) =
        handle_halves i (get! p.generations i) (omega (arith, t.indexable)) (t.gen_16 i below) in
      let (_, _, moved) = bump_generation-in (get! p.generations i) (t.gen_16 i below) in
      let differs : (bump_generation (get! p.generations i) == get! p.generations i) ≡ false =
        ground (arith, moved (t.used_gen i held)) in
      rw
        (
          index,
          generation,
          get!-set_self p.generations i (bump_generation (get! p.generations i))
              (omega (arith, t.gen_room)),
          differs,
        )
        (ground arith)

  -- `release` of the handle of a held slot reports `ok` and writes inside the free stack; the pool
  -- then tracks the slot as free, and the handle is stale: it is no longer valid, `get` refuses it,
  -- and a second `release` of it is refused and changes nothing.
  pub release-Tracks :
      (release p (handle_of p i) ≡ (Status.ok, returned p i))
      × (p.free_count < length p.free_stack)
      × Tracks (returned p i) (mark used i false) place'
      × (valid (returned p i) (handle_of p i) ≡ false)
      × (get (returned p i) true (handle_of p i) ≡ (Status.invalid, none))
      × (release (returned p i) (handle_of p i) ≡ (Status.invalid, returned p i))
  release-Tracks =
      let (refused, kept) = valid-refused (returned p i) (handle_of p i) stale in
      (release-returned, omega (arith, room, t.stack_room), returned-Tracks, stale, refused, kept)

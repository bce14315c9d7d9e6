-- ===== src/Tests/PoolTests.antt =====
-- The sparse set, the token bucket, the handle pool, the double buffer and the
-- arena at concrete inputs.
use memkit.Prelude.{
  ℕ, zero, suc, ◌+◌, ◌-◌, ◌^◌, ◌≤◌, ◌<◌, ◌≡◌, ◌*◌, ◌⊎◌, refl, Bool, true, false, none, some, List,
  [], ◌∷◌, arith, ◌==◌, if◌then◌else◌, get!, set, nat_inhabited, replicate,
}
use memkit.Status.{Status}
use memkit.Arena.{Arena, allocate}
use memkit.Arena.Carving as ArenaCarving
use memkit.Utility.{is_power_of_two}
use memkit.DoubleBuffer.{DoubleBuffer, publish, write_slot, read_slot}
use memkit.DoubleBuffer.Slots as BufferSlots
use memkit.SparseSet.{SparseSet, insert}
use memkit.SparseSet.Inv as SetInv
use memkit.SparseSet.Laws as SetLaws
use memkit.TokenBucket.{TokenBucket}
use memkit.TokenBucket.Laws as BucketLaws
use memkit.HandlePool.{HandlePool, acquire, get, valid, release, slot_ptr, reset_free_list}
use memkit.HandlePool.Inv.{Tracks, handle_of, mark}
use memkit.HandlePool.Acquire
use memkit.HandlePool.Release
use memkit.HandlePool.Fresh

-- The ids 3 and 1, in that order.
abbrev two_ids : SparseSet
two_ids = record { dense = 3 ∷ 1 ∷ 7 ∷ 7 ∷ []; sparse = 9 ∷ 1 ∷ 9 ∷ 0 ∷ []; max_id = 4; size = 2 }

two_members : (i : ℕ) → i < 2 → get! (3 ∷ 1 ∷ 7 ∷ 7 ∷ []) i < 4
two_members zero h = omega arith
two_members (suc zero) h = omega arith
two_members (suc (suc i)) h = absurd (omega arith)

two_positions : (i : ℕ) → i < 2 → get! (9 ∷ 1 ∷ 9 ∷ 0 ∷ []) (get! (3 ∷ 1 ∷ 7 ∷ 7 ∷ []) i) ≡ i
two_positions zero h = refl
two_positions (suc zero) h = refl
two_positions (suc (suc i)) h = absurd (omega arith)

two_ids-IsValid : SetInv.IsValid two_ids
two_ids-IsValid = record {
  dense_room = omega arith;
  sparse_room = omega arith;
  size_in = omega arith;
  member_in = two_members;
  position = two_positions;
}

insert-IsValid_example : SetInv.IsValid (insert two_ids 2).1
insert-IsValid_example = SetInv.insert-IsValid two_ids 2 two_ids-IsValid

-- Three tokens of at most ten, two more each tick.
abbrev bucket : TokenBucket
bucket = record { capacity = 10; refill_per_tick = 2; tokens = 3 }

bucket-IsValid : BucketLaws.IsValid bucket
bucket-IsValid = omega arith

abbrev calls : List BucketLaws.Call
calls =
    BucketLaws.Call.tries 2
    ∷ BucketLaws.Call.resets
    ∷ BucketLaws.Call.consumes 9
    ∷ BucketLaws.Call.refills 3
    ∷ BucketLaws.Call.tries 7
    ∷ []

run_limited_example :
    ((BucketLaws.run bucket calls).1 + (BucketLaws.run bucket calls).0.tokens ≤ 19)
    × BucketLaws.IsValid (BucketLaws.run bucket calls).0
unfolding BucketLaws.ticks_of BucketLaws.resets_of
run_limited_example = BucketLaws.run_limited calls bucket bucket-IsValid (omega arith, tt)

-- A pool not yet initialised, and one of three slots of eight bytes.
abbrev blank : HandlePool
blank = record {
  generations = [];
  free_stack = [];
  capacity = 0;
  elem_size = 0;
  elem_align = 0;
  live_count = 0;
  free_count = 0;
}

abbrev three : List ℕ
three = 5 ∷ 6 ∷ 7 ∷ []

abbrev fresh : HandlePool
fresh = reset_free_list (
    Fresh.start blank three three 3 8 8 (omega arith) (omega arith) (omega arith) (omega arith)
      (omega arith))

release_forged_example :
    (valid fresh 2 ≡ true)
    × ((release fresh 2).0 ≡ Status.ok)
    × ((release fresh 2).1.free_stack ≡ set fresh.free_stack 3 2)
    × ((release fresh 2).1.free_count ≡ 4)
    × ((release fresh 2).1.live_count ≡ 2 ^ 64 - 1)
release_forged_example =
    Fresh.release_forged blank three three 3 8 8 (omega arith) (omega arith) (omega arith)
      (omega arith) (omega arith) 2 (omega arith) (omega arith)

-- The same pool with the slot 1 held, at its third generation.
abbrev one_held : HandlePool
one_held = record {
  generations = 0 ∷ 3 ∷ 0 ∷ [];
  free_stack = 2 ∷ 0 ∷ 0 ∷ [];
  capacity = 3;
  elem_size = 8;
  elem_align = 8;
  live_count = 1;
  free_count = 2;
}

abbrev only_one : ℕ → Bool
only_one i = i == 1

abbrev two_free : ℕ → ℕ
two_free i = if i == 2 then 0 else 1

one_held-Tracks : Tracks one_held only_one two_free
one_held-Tracks = record {
  gen_room = omega arith;
  stack_room = omega arith;
  positive = omega arith;
  indexable = omega arith;
  counted = omega arith;
  gen_16 = small;
  free_in = inside;
  free_unused = unused;
  free_place = placed;
  used_in = λ i h. ground arith;
  used_gen = some_gen;
}
  where
    small : (i : ℕ) → i < 3 → get! (0 ∷ 3 ∷ 0 ∷ []) i < 2 ^ 16
    small zero h = omega arith
    small (suc zero) h = omega arith
    small (suc (suc zero)) h = omega arith
    small (suc (suc (suc i))) h = absurd (omega arith)

    inside : (k : ℕ) → k < 2 → get! (2 ∷ 0 ∷ 0 ∷ []) k < 3
    inside zero h = omega arith
    inside (suc zero) h = omega arith
    inside (suc (suc k)) h = absurd (omega arith)

    unused : (k : ℕ) → k < 2 → only_one (get! (2 ∷ 0 ∷ 0 ∷ []) k) ≡ false
    unused zero h = refl
    unused (suc zero) h = refl
    unused (suc (suc k)) h = absurd (omega arith)

    placed : (k : ℕ) → k < 2 → two_free (get! (2 ∷ 0 ∷ 0 ∷ []) k) ≡ k
    placed zero h = refl
    placed (suc zero) h = refl
    placed (suc (suc k)) h = absurd (omega arith)

    some_gen : (i : ℕ) → only_one i ≡ true → 0 < get! (0 ∷ 3 ∷ 0 ∷ []) i
    some_gen zero h = absurd (ground arith)
    some_gen (suc zero) h = omega arith
    some_gen (suc (suc i)) h = absurd (ground arith)

acquire-Tracks_example :
    (i : ℕ) × (acquire one_held true ≡ (
      Status.ok,
      some (slot_ptr one_held i),
      handle_of (Acquire.taken one_held i) i,
      Acquire.taken one_held i,
    ))
    × (only_one i ≡ false)
    × (i < 3)
    × Tracks (Acquire.taken one_held i) (mark only_one i true) two_free
    × ((j : ℕ)
        → get! (Acquire.taken one_held i).generations j
          ≡ (if i == j then Acquire.next_generation one_held i else get! (0 ∷ 3 ∷ 0 ∷ []) j))
acquire-Tracks_example =
    Acquire.acquire-Tracks one_held only_one two_free one_held-Tracks (omega arith)

release-Tracks_example :
    (release one_held (handle_of one_held 1) ≡ (Status.ok, Release.returned one_held 1))
    × (2 < 3)
    × Tracks
        (Release.returned one_held 1)
        (mark only_one 1 false)
        (Release.place' one_held only_one two_free one_held-Tracks 1 refl)
    × (valid (Release.returned one_held 1) (handle_of one_held 1) ≡ false)
    × (get (Release.returned one_held 1) true (handle_of one_held 1) ≡ (Status.invalid, none))
    × (release (Release.returned one_held 1) (handle_of one_held 1)
        ≡ (Status.invalid, Release.returned one_held 1))
release-Tracks_example = Release.release-Tracks one_held only_one two_free one_held-Tracks 1 refl

abbrev words : DoubleBuffer
words = record { elem_size = 4; slot_storage = true; slot_capacity = 6; readable = 1 }

publish-slots_example :
    BufferSlots.IsValid (publish words)
    × (read_slot (publish words) ≡ write_slot words)
    × (write_slot (publish words) ≡ read_slot words)
    × (write_slot words + 6 * 4 ≤ 2 * (6 * 4))
    × (read_slot words + 6 * 4 ≤ 2 * (6 * 4))
    × ((write_slot words + 6 * 4 ≤ read_slot words) ⊎ (read_slot words + 6 * 4 ≤ write_slot words))
publish-slots_example =
    BufferSlots.publish-slots words (record { one_of_two = omega arith; fits = omega arith })

abbrev block : Arena
block = record {
  base = 4100;
  capacity_bytes = 64;
  bytes = replicate 64 7;
  offset_bytes = 10;
  allocation_count = 1;
}

sixteen : is_power_of_two 16 ≡ true
unfolding is_power_of_two
sixteen = refl

allocate-Carved_example :
    ArenaCarving.Carved block 20 16 (allocate block 20 16 (some 0))
    ⊎ ((allocate block 20 16 (some 0) ≡ (Status.oom, some 0, block)) × (64 < 10 + (16 - 1) + 20))
allocate-Carved_example =
    ArenaCarving.allocate-Carved block 20 16 0
      (record {
        there = omega arith;
        addressable = omega arith;
        sized = omega arith;
        inside = omega arith;
      })
      (omega arith) (omega arith) (omega arith) sixteen

-- ===== src/Tests/RingTests.antt =====
-- The circular buffer: three slots, with 8 at the end of the storage and 9 at its start.
use mathlib.Core.Option.{some-injective}
use memkit.Prelude.{
  ℕ, ◌*◌, ◌^◌, ◌≤◌, ◌<◌, ◌≡◌, ◌↔◌, ◌⊎◌, refl, subst, true, false, none, some, List, [], ◌∷◌, arith,
  nat_inhabited, length, length-replicate, replicate,
}
use memkit.Element.{Policy, Kind}
use memkit.Growth.{Platform, grow_capacity}
use memkit.Deque
use memkit.Ring.{Ring, external}
use memkit.Ring.Grow.Room.{Supplies}
use memkit.Ring.Inv.{IsValid, AlwaysCopies, contents}
use memkit.Ring.Ops.{push_back, push_front, pop_front, pop_back}
use memkit.Ring.Ops.Push.{Answers, push_back_refines, push_front_refines}
use memkit.Ring.Ops.Pop.{Yields, pop_front_refines, pop_back_refines}
use memkit.Ring.Ops.Grow.{GrownTo, next_block, push_back_grows}
use memkit.Ring.Bulk.{readable_contiguous, writable_contiguous}
use memkit.Ring.Bulk.Spans.{FitsIn, readable_contiguous_bounds, writable_contiguous_bounds}

abbrev host : Platform ℕ
host = record {
  allow_heap = true;
  malloc = λ bytes. some (replicate bytes 0);
  realloc = λ block bytes. some (replicate bytes 0);
}

-- One byte to an element; a moved-from element reads 0 and has a destructor.
abbrev bytes_policy : Policy ℕ
bytes_policy = record { elem_size = 1; kind = Kind.typed (λ x. 0) true }

abbrev wrapped : Ring ℕ
wrapped = record {
  policy = bytes_policy;
  storage = 9 ∷ 7 ∷ 8 ∷ [];
  capacity = 3;
  head = 1;
  tail = 2;
  count = 2;
  flags = record { growable = false; overwrite_on_full = true };
  kind = external;
  grow_alloc = none;
  destroyed = [];
}

abbrev full_ring : Ring ℕ
full_ring = record wrapped {
  storage = 9 ∷ 7 ∷ 8 ∷ [];
  head = 2;
  count = 3;
  flags = record { growable = true; overwrite_on_full = false };
}

wrapped-IsValid : IsValid wrapped
wrapped-IsValid = omega arith

full_ring-IsValid : IsValid full_ring
full_ring-IsValid = omega arith

copies : AlwaysCopies bytes_policy.kind
copies dst src = refl

contents-wrapped : contents wrapped ≡ 8 ∷ 9 ∷ []
contents-wrapped = refl

host-Supplies : Supplies host full_ring
host-Supplies = record {
  heap = λ bytes block e.
      subst (λ (b : List ℕ). bytes ≤ length b * 1) (some-injective _ _ e)
        (omega (arith, length-replicate {A = ℕ} bytes 0));
  arena = λ allocate bytes block e run. cc;
}

push_back_refines_example :
    Answers wrapped
      (Deque.push_back 3 true (8 ∷ 9 ∷ []) 4)
      (push_back host wrapped (some 4) false false)
push_back_refines_example = push_back_refines host wrapped wrapped-IsValid copies refl 4 false false

push_front_refines_example :
    Answers wrapped (Deque.push_front 3 true (8 ∷ 9 ∷ []) 4) (push_front host wrapped (some 4) true)
push_front_refines_example = push_front_refines host wrapped wrapped-IsValid copies refl 4 true

pop_front_refines_example :
    Yields wrapped (Deque.pop_front (8 ∷ 9 ∷ []) (some 0)) (pop_front wrapped (some 0) true)
pop_front_refines_example = pop_front_refines wrapped wrapped-IsValid (some 0) true copies

pop_back_refines_example :
    Yields wrapped (Deque.pop_back (8 ∷ 9 ∷ []) none) (pop_back wrapped none false)
pop_back_refines_example = pop_back_refines wrapped wrapped-IsValid none false copies

one_more_fits : grow_capacity 3 4 * 1 ≤ 2 ^ 63
unfolding grow_capacity
one_more_fits = omega arith

push_back_grows_example :
    GrownTo full_ring
      (next_block host full_ring)
      (8 ∷ 9 ∷ 7 ∷ 4 ∷ [])
      (push_back host full_ring (some 4) false false)
push_back_grows_example =
    push_back_grows host full_ring full_ring-IsValid host-Supplies copies refl refl one_more_fits 4
      false false

five_fit : grow_capacity 3 5 * 1 ≤ 2 ^ 63
unfolding grow_capacity
five_fit = omega arith

readable_contiguous_bounds_example :
    let (n, start) = readable_contiguous wrapped true in
    FitsIn 3 n start ↔ ((2 < 1) ⊎ (wrapped.head ≡ 0))
readable_contiguous_bounds_example =
    readable_contiguous_bounds wrapped wrapped-IsValid (omega arith)

writable_contiguous_bounds_example :
    let (n, start, r') = writable_contiguous host wrapped true in
    FitsIn 3 n start ↔ (wrapped.tail ≡ 0)
writable_contiguous_bounds_example =
    writable_contiguous_bounds wrapped wrapped-IsValid host (omega arith)

-- The wrapped buffer has two readable elements, in spans of one.
readable_past_the_end : readable_contiguous wrapped true ≡ (2, some 2)
unfolding readable_contiguous
readable_past_the_end = refl

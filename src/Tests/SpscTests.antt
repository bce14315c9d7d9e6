-- ===== src/Tests/SpscTests.antt =====
-- The queue of one producer and one consumer, full, where its counters wrap: 9 and then 8.
use native.Mathlib.Nat.{dvd-mul_right}
use memkit.Prelude.{ℕ, ◌-◌, ◌^◌, ◌≡◌, refl, true, false, some, [], ◌∷◌, arith, nat_inhabited}
use memkit.Status.{Status}
use memkit.Element.{Kind}
use memkit.Deque
use memkit.SpscQueue.{SpscQueue, push, pop}
use memkit.SpscQueue.Inv.{IsValid}
use memkit.SpscQueue.Laws.{Holds, push_refines, pop_refines}

abbrev pair : SpscQueue ℕ
pair = record {
  policy = record { elem_size = 1; kind = Kind.typed (λ x. 0) true };
  storage = 8 ∷ 9 ∷ [];
  capacity = 2;
  mask = 1;
  drop_on_full = false;
  overwrite_on_full = true;
  head = 2 ^ 64 - 1;
  tail = 1;
  destroyed = [];
}

pair-IsValid : IsValid pair
pair-IsValid = record {
  backed = omega arith;
  positive = omega arith;
  small = omega arith;
  rounds = dvd-mul_right 2 (2 ^ 63);
  masked = refl;
  bits = 1;
  power = omega arith;
  head_64 = omega arith;
  tail_64 = omega arith;
  size_in = omega arith;
}

push_refines_example :
    ((push pair (some 5)).0 ≡ Status.ok) × Holds pair (8 ∷ 5 ∷ []) (push pair (some 5)).2
unfolding Deque.push_back
push_refines_example = push_refines pair pair-IsValid 5 (λ dst src. refl)

pop_refines_example :
    ((pop pair (some 0) true).0 ≡ Status.ok)
    × ((pop pair (some 0) true).1 ≡ some 9)
    × Holds pair (8 ∷ []) (pop pair (some 0) true).2
unfolding Deque.pop_front Deque.front
pop_refines_example = pop_refines pair pair-IsValid (some 0) true (λ dst src. refl)

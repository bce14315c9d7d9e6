-- ===== src/Tests/HeapTests.antt =====
-- The priority queue at concrete inputs: the heap 2, 5, 3 with room for one more.
use mathlib.Core.List.{Perm}
use memkit.Prelude.{
  ℕ, zero, suc, ◌<◌, ◌≡◌, ◌⊎◌, refl, false, some, [], ◌∷◌, ltb, arith, get!, nat_inhabited,
}
use memkit.Status.{Status}
use memkit.Element.{Kind}
use memkit.Ring.{external}
use memkit.PriorityQueue.{PriorityQueue, push, pop, parent}
use memkit.PriorityQueue.Swap.{IsStrict, elements}
use memkit.PriorityQueue.Inv.{IsValid}
use memkit.PriorityQueue.Push.{push-IsValid}
use memkit.PriorityQueue.Pop.{pop-IsValid}

abbrev three_tasks : PriorityQueue ℕ
three_tasks = record {
  policy = record { elem_size = 4; kind = Kind.typed (λ x. x) false };
  less = ltb;
  storage = 2 ∷ 5 ∷ 3 ∷ 0 ∷ [];
  capacity = 4;
  size = 3;
  growable = false;
  kind = external;
  destroyed = [];
}

ltb-IsStrict : IsStrict ltb
ltb-IsStrict = record { asymmetric = λ a b h. ground arith; transitive = λ a b c p q. ground arith }

three_in_order :
    (c : ℕ)
    → 0 < c
    → c < 3
    → ltb (get! (2 ∷ 5 ∷ 3 ∷ 0 ∷ []) c) (get! (2 ∷ 5 ∷ 3 ∷ 0 ∷ []) (parent c)) ≡ false
three_in_order zero p q = absurd (omega arith)
three_in_order (suc zero) p q = refl
three_in_order (suc (suc zero)) p q = refl
three_in_order (suc (suc (suc c))) p q = absurd (omega arith)

three_tasks-IsValid : IsValid three_tasks
three_tasks-IsValid = record {
  strict = ltb-IsStrict;
  swappable = record { copies = λ dst src. refl; small = λ e. omega arith };
  within = omega arith;
  backed = omega arith;
  heap = three_in_order;
}

push-IsValid_example :
    ((3 < 4)
      × ((push three_tasks (some 1)).0 ≡ Status.ok)
      × IsValid (push three_tasks (some 1)).1
      × ((push three_tasks (some 1)).1.capacity ≡ 4)
      × Perm (elements (push three_tasks (some 1)).1) (1 ∷ 2 ∷ 5 ∷ 3 ∷ []))
    ⊎ ((three_tasks.size ≡ 4) × (push three_tasks (some 1) ≡ (Status.full, three_tasks)))
push-IsValid_example = push-IsValid three_tasks three_tasks-IsValid 1 (λ e. omega arith)

pop-IsValid_example :
    ((three_tasks.size ≡ 0) × (pop three_tasks (some 0) ≡ (Status.empty, some 0, three_tasks)))
    ⊎ (((pop three_tasks (some 0)).0 ≡ Status.ok)
        × ((pop three_tasks (some 0)).1 ≡ some 2)
        × ((i : ℕ) → i < 3 → ltb (get! (2 ∷ 5 ∷ 3 ∷ 0 ∷ []) i) 2 ≡ false)
        × IsValid (pop three_tasks (some 0)).2
        × ((pop three_tasks (some 0)).2.capacity ≡ 4)
        × Perm (2 ∷ elements (pop three_tasks (some 0)).2) (2 ∷ 5 ∷ 3 ∷ []))
pop-IsValid_example = pop-IsValid three_tasks three_tasks-IsValid (some 0)

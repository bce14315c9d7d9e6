-- ===== src/Tests/ObjectTests.antt =====
-- The object pool at concrete inputs.
use memkit.Prelude.{
  ◌-◌, ◌++◌, ℕ, zero, suc, ◌<◌, ◌≡◌, refl, true, false, some, [], ◌∷◌, arith, ◌==◌, get!,
  nat_inhabited, if◌then◌else◌,
}
use memkit.Status.{Status}
use memkit.Element.{Kind}
use memkit.Ring.{external}
use memkit.ObjectPool.Fresh as PoolFresh
use memkit.ObjectPool.{clear, ObjectPool, alloc, free, elem_at, bit_test}
use memkit.ObjectPool.Inv.{Tracks}
use memkit.ObjectPool.Life as PoolLife

-- Three elements at the addresses 100, 108 and 116, of which the one of index 1 is in use.
abbrev one_used : ObjectPool ℕ
one_used = record {
  policy = record { elem_size = 8; kind = Kind.typed (λ x. x) true };
  storage = 100;
  elements = 5 ∷ 6 ∷ 7 ∷ [];
  free_stack = 2 ∷ 0 ∷ 1 ∷ [];
  used_bits = 2 ∷ [];
  capacity = 3;
  used_count = 1;
  free_count = 2;
  kind = external;
  destroyed = [];
}

abbrev in_stack : ℕ → ℕ
in_stack i = if i == 2 then 0 else 1

free_in_pool : (k : ℕ) → k < 2 → get! one_used.free_stack k < 3
free_in_pool zero h = omega arith
free_in_pool (suc zero) h = omega arith
free_in_pool (suc (suc k)) h = absurd (omega arith)

free_not_used : (k : ℕ) → k < 2 → bit_test one_used.used_bits (get! one_used.free_stack k) ≡ false
unfolding bit_test
free_not_used zero h = refl
free_not_used (suc zero) h = refl
free_not_used (suc (suc k)) h = absurd (omega arith)

free_at_place : (k : ℕ) → k < 2 → in_stack (get! one_used.free_stack k) ≡ k
free_at_place zero h = refl
free_at_place (suc zero) h = refl
free_at_place (suc (suc k)) h = absurd (omega arith)

one_used-Tracks : Tracks one_used in_stack
one_used-Tracks = record {
  there = λ e. omega (arith, e);
  sized = omega arith;
  bits_room = omega arith;
  stack_room = omega arith;
  indexable = omega arith;
  counted = refl;
  free_in = free_in_pool;
  free_unused = free_not_used;
  free_place = free_at_place;
}

alloc-Tracks_example :
    (i : ℕ) × (alloc one_used true
      ≡ (Status.ok, some (elem_at one_used i), PoolLife.taken one_used in_stack one_used-Tracks i))
    × (i < 3)
    × (bit_test one_used.used_bits i ≡ false)
    × Tracks (PoolLife.taken one_used in_stack one_used-Tracks i) in_stack
    × ((j : ℕ)
        → bit_test (PoolLife.taken one_used in_stack one_used-Tracks i).used_bits j
          ≡ (if i == j then true else bit_test one_used.used_bits j))
alloc-Tracks_example = PoolLife.alloc-Tracks one_used in_stack one_used-Tracks (omega arith)

used_one : bit_test one_used.used_bits 1 ≡ true
unfolding bit_test
used_one = refl

free-Tracks_example :
    let p =
      PoolLife.given_back one_used in_stack one_used-Tracks 1
        (PoolLife.log_of one_used in_stack one_used-Tracks 1) in
    (free one_used (elem_at one_used 1) ≡ (Status.ok, p))
    × Tracks p (λ x. if x == 1 then 2 else in_stack x)
    × ((j : ℕ) → bit_test p.used_bits j ≡ (if 1 == j then false else bit_test one_used.used_bits j))
    × (free p (elem_at one_used 1) ≡ (Status.not_found, p))
free-Tracks_example =
    PoolLife.free-Tracks one_used in_stack one_used-Tracks 1 (omega arith) used_one

clear-in_use_example :
    ((clear one_used).used_count ≡ 0)
    × Tracks (clear one_used) (λ i. 3 - 1 - i)
    × ((clear one_used).destroyed ≡ [] ++ PoolFresh.in_use (5 ∷ 6 ∷ 7 ∷ []) (2 ∷ []) 3 0)
clear-in_use_example = PoolFresh.clear-in_use one_used in_stack one_used-Tracks (omega arith)

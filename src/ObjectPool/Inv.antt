-- ===== src/ObjectPool/Inv.antt =====
-- The invariant of the object pool: its bits against its stack.
use memkit.Prelude.{
  ℕ, ◌+◌, ◌/◌, ◌^◌, ◌≤◌, ◌<◌, ◌≡◌, ◌≢◌, true, false, arith, get!, length, ◌==◌, if◌then◌else◌,
  nat_inhabited,
}
use memkit.SparseSet.Count.{pigeonhole}
use memkit.Chain.{null}
use memkit.ObjectPool.{ObjectPool, bit_test}

-- `place i` is where a free index stands in the stack.
pub record Tracks {A : Type 0} (p : ObjectPool A) (place : ℕ → ℕ) : Type 0 where
  pub there : p.storage ≢ null
  pub sized : 0 < p.policy.elem_size
  pub bits_room : (p.capacity + 7) / 8 ≤ length p.used_bits
  pub stack_room : p.capacity ≤ length p.free_stack
  pub indexable : p.capacity ≤ 2 ^ 32
  pub counted : p.free_count + p.used_count ≡ p.capacity
  pub free_in : (k : ℕ) → k < p.free_count → get! p.free_stack k < p.capacity
  pub free_unused : (k : ℕ) → k < p.free_count → bit_test p.used_bits (get! p.free_stack k) ≡ false
  pub free_place : (k : ℕ) → k < p.free_count → place (get! p.free_stack k) ≡ k

-- An element in use leaves room on the stack.
pub free-lt_of_used :
    {A : Type 0} (p : ObjectPool A) (place : ℕ → ℕ) (i : ℕ)
    → Tracks p place
    → i < p.capacity
    → bit_test p.used_bits i ≡ true
    → p.free_count < p.capacity
free-lt_of_used p place i t inside used =
    let fits =
      pigeonhole p.capacity (p.free_count + 1)
        (λ k. if k == p.free_count then i else get! p.free_stack k)
        (λ x. if x == i then p.free_count else place x)
        (λ k h. ground (arith, t.free_in k, t.free_place k, t.free_unused k, inside)) in
    omega arith

-- ===== src/HandlePool/Inv.antt =====
-- The invariant of the handle pool, against the slots that its clients hold.
use memkit.Prelude.{
  ℕ, ◌+◌, ◌^◌, ◌≤◌, ◌<◌, ◌≡◌, Bool, true, false, arith, get!, length, ◌==◌, if◌then◌else◌,
  nat_inhabited,
}
use memkit.SparseSet.Count.{pigeonhole}
use memkit.HandlePool.{HandlePool, make_handle, handle_index, handle_generation}

-- `used i` says that a client holds slot `i`, and `place i` where a free slot stands in the stack.
pub record Tracks (p : HandlePool) (used : ℕ → Bool) (place : ℕ → ℕ) : Type 0 where
  pub gen_room : p.capacity ≤ length p.generations
  pub stack_room : p.capacity ≤ length p.free_stack
  pub positive : 0 < p.capacity
  pub indexable : p.capacity ≤ 2 ^ 16
  pub counted : p.free_count + p.live_count ≡ p.capacity
  pub gen_16 : (i : ℕ) → i < p.capacity → get! p.generations i < 2 ^ 16
  pub free_in : (k : ℕ) → k < p.free_count → get! p.free_stack k < p.capacity
  pub free_unused : (k : ℕ) → k < p.free_count → used (get! p.free_stack k) ≡ false
  pub free_place : (k : ℕ) → k < p.free_count → place (get! p.free_stack k) ≡ k
  pub used_in : (i : ℕ) → used i ≡ true → i < p.capacity
  pub used_gen : (i : ℕ) → used i ≡ true → 0 < get! p.generations i

-- The handle by which the holder of slot `i` knows it.
abbrev pub handle_of : HandlePool → ℕ → ℕ
handle_of p i = make_handle i (get! p.generations i)

abbrev pub mark : (ℕ → Bool) → ℕ → Bool → ℕ → Bool
mark used i b j = if i == j then b else used j

-- A handle gives back its two halves.
pub handle_halves :
    (i g : ℕ)
    → i < 2 ^ 16
    → g < 2 ^ 16
    → (handle_index (make_handle i g) ≡ i) × (handle_generation (make_handle i g) ≡ g)
handle_halves i g hi hg = omega arith

-- A held slot leaves room on the free stack.
pub free-lt_of_used :
    {p : HandlePool} {used : ℕ → Bool} {place : ℕ → ℕ} (i : ℕ)
    → Tracks p used place
    → used i ≡ true
    → p.free_count < p.capacity
free-lt_of_used {p} {used} {place} i t u =
    let fits =
      pigeonhole p.capacity (p.free_count + 1)
        (λ k. if k == p.free_count then i else get! p.free_stack k)
        (λ x. if x == i then p.free_count else place x)
        (λ k h. ground (arith, t.free_in k, t.free_place k, t.free_unused k, t.used_in i)) in
    omega arith

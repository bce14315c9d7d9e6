-- ===== src/Growth.antt =====
-- include/memkit/detail/growable_storage.hpp: the next capacity, and where a larger block comes
-- from.
pub mod Bounds
use memkit.Prelude.{ℕ, zero, suc, ◌-◌, ◌*◌, ◌/◌, ◌%◌, ◌^◌, Bool, Option, List, ltb, if◌then◌else◌}
use memkit.Status.{Status}

abbrev pub size_mod : ℕ
size_mod = 2 ^ 64

abbrev pub size_max : ℕ
size_max = 2 ^ 64 - 1

-- `while (new_capacity < required)`, on fuel. Each round doubles a positive capacity, so
-- `required` rounds are enough; `Bounds` proves that the loop ends by its test.
grow_loop : ℕ → ℕ → ℕ → ℕ
grow_loop zero new_capacity required = new_capacity
grow_loop (suc fuel) new_capacity required =
    let rest = grow_loop fuel (new_capacity * 2 % size_mod) required in
    if ltb new_capacity required
    then (if ltb (size_max / 2) new_capacity then required else rest)
    else new_capacity

unfoldable pub grow_capacity : ℕ → ℕ → ℕ
unfolding grow_loop
grow_capacity current required = grow_loop required (if ltb 0 current then current else 1) required

-- What the platform and the user supply. `allow_heap` is MEMKIT_ALLOW_HEAP, `malloc` takes a
-- number of bytes and returns a block or null, and `realloc` the live block as well.
pub record Platform {ℓ} (A : Type ℓ) : Type ℓ where
  pub allow_heap : Bool
  pub malloc : ℕ → Option (List A)
  pub realloc : List A → ℕ → Option (List A)

-- `grow_alloc::allocate`: takes a number of bytes, and returns its status and the block.
abbrev pub GrowAlloc {ℓ} : Type ℓ → Type ℓ
GrowAlloc A = Option (ℕ → Status × List A)

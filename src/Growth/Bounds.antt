-- ===== src/Growth/Bounds.antt =====
-- The bounds of `grow_capacity`: the loop ends, and the result serves the request.
use memkit.Prelude.{ℕ, zero, suc, ◌+◌, ◌*◌, ◌%◌, ◌≤◌, ◌<◌, max, ◌≡◌, refl, ap, ◌⊎◌, arith}
use memkit.Growth.{size_mod, grow_loop, grow_capacity}

grow_loop-ge :
    (fuel n required : ℕ)
    → 0 < n
    → required ≤ n + fuel
    → (required ≤ grow_loop fuel n required) × (n ≤ grow_loop fuel n required)
unfolding grow_loop
grow_loop-ge zero n required pos enough = omega arith
grow_loop-ge (suc fuel) n required pos enough =
    ground (arith, grow_loop-ge fuel (n * 2 % size_mod) required)

grow_loop-lt :
    (fuel n required : ℕ)
    → n < size_mod
    → required < size_mod
    → grow_loop fuel n required < size_mod
unfolding grow_loop
grow_loop-lt zero n required fits below = fits
grow_loop-lt (suc fuel) n required fits below =
    ground (arith, grow_loop-lt fuel (n * 2 % size_mod) required)

grow_loop_tight :
    (fuel n required : ℕ) → 0 < n → n < required → grow_loop fuel n required < 2 * required
unfolding grow_loop
grow_loop_tight zero n required pos small = omega arith
grow_loop_tight (suc zero) n required pos small = ground arith
grow_loop_tight (suc (suc fuel)) n required pos small =
    ground (arith, grow_loop_tight (suc fuel) (n * 2 % size_mod) required)

grow_loop_stop : (fuel n required : ℕ) → required ≤ n → grow_loop fuel n required ≡ n
unfolding grow_loop
grow_loop_stop zero n required h = refl
grow_loop_stop (suc fuel) n required h = ground arith

grow_capacity_start :
    (current required : ℕ)
    → grow_capacity current required ≡ grow_loop required (max current 1) required
unfolding grow_capacity
grow_capacity_start current required = ap (λ n. grow_loop required n required) (ground arith)

-- For every current capacity and every required one that a `size_t` can hold, the loop of
-- `grow_capacity` ends by its test or by its guard: the capacity returned is at least the
-- required one and at least the current one, it is a `size_t`, and it is less than twice the
-- required one unless it is the current capacity, or 1 for a current capacity of 0.
pub grow_capacity_bounds :
    (current required : ℕ)
    → current < size_mod
    → required < size_mod
    → (required ≤ grow_capacity current required)
      × (current ≤ grow_capacity current required)
      × (grow_capacity current required < size_mod)
      × ((grow_capacity current required < 2 * required)
          ⊎ (grow_capacity current required ≡ max current 1))
grow_capacity_bounds current required fits below =
    let start : ℕ = max current 1 in
    ground (
      arith,
      grow_capacity_start current required,
      grow_loop-ge required start required (omega arith) (omega arith),
      grow_loop-lt required start required (omega arith) below,
      grow_loop_tight required start required,
      grow_loop_stop required start required,
    )

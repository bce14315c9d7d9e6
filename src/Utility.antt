-- ===== src/Utility.antt =====
-- include/memkit/detail/utility.hpp: arithmetic on sizes and addresses.
pub mod Aligned
use memkit.Prelude.{ℕ, ◌+◌, ◌-◌, ◌/◌, ◌%◌, bit_and, Bool, ◌&&◌, not, ltb, ◌==◌}
use memkit.Growth.{size_mod, size_max}

pub align_up : ℕ → ℕ → ℕ
align_up value alignment =
    let mask = (alignment + size_max) % size_mod in
    bit_and ((value + mask) % size_mod) (size_max - mask)

unfoldable pub is_power_of_two : ℕ → Bool
is_power_of_two value = not (value == 0) && (bit_and value (value - 1) == 0)

abbrev pub add_would_overflow : ℕ → ℕ → Bool
add_would_overflow a b = ltb (size_max - a) b

abbrev pub mul_would_overflow : ℕ → ℕ → Bool
mul_would_overflow a b = not (a == 0) && ltb (size_max / a) b

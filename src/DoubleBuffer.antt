-- ===== src/DoubleBuffer.antt =====
-- include/memkit/detail/double_buffer_core.hpp: two slots in one block, one to read and one to write.
-- A slot is its byte offset in the block.
pub mod Slots
use memkit.Prelude.{ℕ, ◌+◌, ◌-◌, ◌*◌, ◌%◌, Bool, true, false, ◌||◌, ◌==◌, if◌then◌else◌}
use memkit.Status.{Status}
use memkit.Growth.{size_mod}

-- `slot_storage_` is the flag whether it is not null.
pub record DoubleBuffer : Type 0 where
  pub elem_size : ℕ
  pub slot_storage : Bool
  pub slot_capacity : ℕ
  pub readable : ℕ

pub init : DoubleBuffer → ℕ → Bool → ℕ → Status × DoubleBuffer
init b elem_size false slot_capacity = (Status.invalid, b)
init b elem_size true slot_capacity = if slot_capacity == 0 then (Status.invalid, b) else (
  Status.ok,
  record {
    elem_size = elem_size;
    slot_storage = true;
    slot_capacity = slot_capacity;
    readable = 0;
  },
)

-- `elem_size` is that of `Policy{}`.
pub reset_state : DoubleBuffer → ℕ → DoubleBuffer
reset_state b elem_size = record {
  elem_size = elem_size;
  slot_storage = false;
  slot_capacity = 0;
  readable = 0;
}

pub slot_bytes : DoubleBuffer → ℕ
slot_bytes b = b.slot_capacity * b.elem_size % size_mod

pub slot_ptr : DoubleBuffer → ℕ → ℕ
unfolding slot_bytes
slot_ptr b index = index * slot_bytes b % size_mod

-- `static_cast<std::uint8_t>(1u - readable)`
pub other_index : DoubleBuffer → ℕ
other_index b = (1 + (256 - b.readable)) % 256

pub write_slot : DoubleBuffer → ℕ
unfolding slot_ptr other_index
write_slot b = slot_ptr b (other_index b)

pub read_slot : DoubleBuffer → ℕ
unfolding slot_ptr
read_slot b = slot_ptr b b.readable

pub publish : DoubleBuffer → DoubleBuffer
unfolding other_index
publish b = record b { readable = other_index b }

-- ===== src/Arena.antt =====
-- include/memkit/memory/arena.hpp: allocation from the front of a backing block.
pub mod Carving
use memkit.Prelude.{
  ℕ, ◌+◌, ◌-◌, ◌*◌, ◌%◌, Bool, Option, none, some, List, ◌++◌, ◌&&◌, ◌||◌, not, ltb, ◌==◌,
  if◌then◌else◌, replicate, take, drop,
}
use memkit.Status.{Status, is_ok}
use memkit.Growth.{size_mod}
use memkit.Utility.{align_up, is_power_of_two, add_would_overflow, mul_would_overflow}

-- `base` and `capacity_bytes` are what the backing returns: the address of its block, 0 for a null
-- one, and its size. `bytes` is the block.
pub record Arena : Type 0 where
  pub base : ℕ
  pub capacity_bytes : ℕ
  pub bytes : List ℕ
  pub offset_bytes : ℕ
  pub allocation_count : ℕ

pub remaining_bytes : Arena → ℕ
remaining_bytes a =
    if ltb a.capacity_bytes a.offset_bytes then 0 else a.capacity_bytes - a.offset_bytes

pub reset : Arena → Arena
reset a = record a { offset_bytes = 0; allocation_count = 0 }

-- `out` is what `*out_ptr` holds before, none for a null `out_ptr`; an address of 0 is null.
pub allocate : Arena → ℕ → ℕ → Option ℕ → Status × Option ℕ × Arena
allocate a size alignment none = (Status.null_ptr, none, a)
allocate a size alignment (some old) =
    let raw_addr = (a.base + a.offset_bytes) % size_mod in
    let aligned_addr = align_up raw_addr alignment in
    let aligned_offset = (aligned_addr + (size_mod - a.base)) % size_mod in
    let new_offset = (aligned_offset + size) % size_mod in
    if (a.base == 0) || (a.capacity_bytes == 0)
    then (Status.null_ptr, some 0, a)
    else if (size == 0) || (alignment == 0) || not (is_power_of_two alignment)
    then (Status.invalid, some 0, a)
    else if ltb a.capacity_bytes a.offset_bytes
    then (Status.oom, some 0, a)
    else if ltb raw_addr a.base
    then (Status.oom, some 0, a)
    else if ltb aligned_offset a.offset_bytes
    then (Status.oom, some 0, a)
    else if add_would_overflow aligned_offset size
    then (Status.oom, some 0, a)
    else if ltb a.capacity_bytes new_offset
    then (Status.oom, some 0, a)
    else (
      Status.ok,
      some aligned_addr,
      record a {
        offset_bytes = new_offset;
        allocation_count = (a.allocation_count + 1) % size_mod;
      },
    )

-- `std::memset(*out_ptr, 0, total)` in the block.
abbrev pub zero_fill : Arena → ℕ → ℕ → Arena
zero_fill a address total = record a {
  bytes =
      take (address - a.base) a.bytes
      ++ replicate total 0
      ++ drop (address - a.base + total) a.bytes;
}

pub calloc : Arena → ℕ → ℕ → ℕ → Option ℕ → Status × Option ℕ × Arena
unfolding allocate
calloc a count size alignment out =
    let total = count * size % size_mod in
    let (s, out', a') = allocate a total alignment out in
    if not (count == 0) && mul_would_overflow count size
    then (Status.invalid, out, a)
    else if not (is_ok s)
    then (s, out', a')
    else elim out' [
      | none ↦ (Status.ok, none, a')
      | some address ↦ (Status.ok, some address, zero_fill a' address total)
    ]

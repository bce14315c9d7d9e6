-- ===== src/HandlePool.antt =====
-- include/memkit/detail/handle_pool_core.hpp: a pool of slots behind handles of a 16-bit index and
-- a 16-bit generation. A slot's address is its byte offset in the storage.
pub mod Inv
pub mod Acquire
pub mod Release
pub mod Fresh
use memkit.Prelude.{
  ℕ, zero, suc, ◌+◌, ◌-◌, ◌*◌, ◌/◌, ◌%◌, ◌^◌, Bool, true, false, Option, none, some, List, [], ◌&&◌,
  ◌||◌, not, ltb, leb, ◌==◌, if◌then◌else◌, get!, set, nat_inhabited,
}
use memkit.Status.{Status}

pub record HandlePool : Type 0 where
  pub generations : List ℕ
  pub free_stack : List ℕ
  pub capacity : ℕ
  pub elem_size : ℕ
  pub elem_align : ℕ
  pub live_count : ℕ
  pub free_count : ℕ

abbrev pub invalid_handle : ℕ
invalid_handle = 0

abbrev pub index_mask : ℕ
index_mask = 2 ^ 16 - 1

-- The shift and the masks in arithmetic: the index is 16 bits, so `|` adds it.
abbrev pub make_handle : ℕ → ℕ → ℕ
make_handle index generation = generation * 2 ^ 16 + index

abbrev pub handle_index : ℕ → ℕ
handle_index handle = handle % 2 ^ 16

abbrev pub handle_generation : ℕ → ℕ
handle_generation handle = handle / 2 ^ 16 % 2 ^ 16

-- The loop of `reset_free_list`: `n` rounds from `i` on.
reset_loop : ℕ → ℕ → HandlePool → HandlePool
reset_loop zero i p = p
reset_loop (suc n) i p = reset_loop n (i + 1) (record p {
  generations = set p.generations i 0;
  free_stack = set p.free_stack i ((p.capacity - 1 - i) % 2 ^ 32);
})

pub reset_free_list : HandlePool → HandlePool
unfolding reset_loop
reset_free_list p = record (reset_loop p.capacity 0 p) { free_count = p.capacity; live_count = 0 }

-- The flag says whether `storage` is not null.
pub init : HandlePool → Bool → Option (List ℕ) → Option (List ℕ) → ℕ → ℕ → ℕ → Status × HandlePool
unfolding reset_free_list
init p has_storage none free_stack capacity elem_size elem_alignment = (Status.invalid, p)
init p has_storage (some gens) none capacity elem_size elem_alignment = (Status.invalid, p)
init p has_storage (some gens) (some stack) capacity elem_size elem_alignment =
    if not has_storage || (capacity == 0) || (elem_size == 0)
    then (Status.invalid, p)
    else if ltb index_mask (capacity - 1)
    then (Status.invalid, p)
    else (
      Status.ok,
      reset_free_list (record {
        generations = gens;
        free_stack = stack;
        capacity = capacity;
        elem_size = elem_size;
        elem_align = if ltb 0 elem_alignment then elem_alignment else 1;
        live_count = 0;
        free_count = capacity;
      }),
    )

pub slot_ptr : HandlePool → ℕ → ℕ
slot_ptr p index = index * p.elem_size

-- What `acquire` and `get` put through their out-pointers: a null pointer is `none`.
pub acquire : HandlePool → Bool → Status × Option ℕ × ℕ × HandlePool
unfolding slot_ptr
acquire p has_out =
    let index = get! p.free_stack (p.free_count - 1) in
    let popped = record p { free_count = p.free_count - 1 } in
    let generation = if get! p.generations index == 0 then 1 else get! p.generations index in
    if not has_out
    then (Status.null_ptr, none, invalid_handle, p)
    else if p.free_count == 0
    then (Status.full, none, invalid_handle, p)
    else if leb p.capacity index
    then (Status.invalid, none, invalid_handle, popped)
    else (
      Status.ok,
      some (slot_ptr p index),
      make_handle (index % 2 ^ 16) generation,
      record popped {
        generations = set p.generations index generation;
        live_count = p.live_count + 1;
      },
    )

bump_generation : ℕ → ℕ
bump_generation generation = if generation == 0xFFFF then 1 else generation + 1

-- The test that `release`, `get` and `valid` share.
pub valid : HandlePool → ℕ → Bool
valid p handle =
    not (handle == invalid_handle)
    && ltb (handle_index handle) p.capacity
    && (get! p.generations (handle_index handle) == handle_generation handle)

-- `live_count_` is a `size_t`.
pub release : HandlePool → ℕ → Status × HandlePool
unfolding bump_generation
release p handle =
    let index = handle_index handle in
    if handle == invalid_handle
    then (Status.invalid, p)
    else if leb p.capacity index || not (get! p.generations index == handle_generation handle)
    then (Status.invalid, p)
    else (
      Status.ok,
      record p {
        generations = set p.generations index (bump_generation (get! p.generations index));
        free_stack = set p.free_stack p.free_count index;
        free_count = p.free_count + 1;
        live_count = (p.live_count + (2 ^ 64 - 1)) % 2 ^ 64;
      },
    )

pub get : HandlePool → Bool → ℕ → Status × Option ℕ
unfolding slot_ptr
get p has_out handle =
    let index = handle_index handle in
    if not has_out
    then (Status.null_ptr, none)
    else if handle == invalid_handle
    then (Status.invalid, none)
    else if leb p.capacity index || not (get! p.generations index == handle_generation handle)
    then (Status.invalid, none)
    else (Status.ok, some (slot_ptr p index))

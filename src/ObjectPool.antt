-- ===== src/ObjectPool.antt =====
-- include/memkit/detail/objpool_core.hpp: a pool of elements, with a bit for each that is in use and a
-- stack of the others.
pub mod BitMap
pub mod Fresh
pub mod Inv
pub mod Life
use memkit.Prelude.{
  ℕ, zero, suc, ◌+◌, ◌-◌, ◌*◌, ◌/◌, ◌%◌, ◌^◌, bit_and, bit_or, Bool, true, false, Option, none,
  some, List, [], ◌∷◌, not, ◌==◌, ltb, leb, ◌||◌, ◌&&◌, if◌then◌else◌, get!, set, Inhabited,
  nat_inhabited,
}
use memkit.Status.{Status, is_ok}
use memkit.Element.{Policy, Kind, is_runtime, copy_construct, destroy, needs_destroy_on_clear}
use memkit.Ring.{StorageKind, external}
use memkit.Chain.{Ptr, null}

-- `storage` is the address of the elements; it, `free_stack_` and `used_bits_` are null together.
pub record ObjectPool {ℓ} (A : Type ℓ) : Type ℓ where
  pub policy : Policy A
  pub storage : Ptr
  pub elements : List A
  pub free_stack : List ℕ
  pub used_bits : List ℕ
  pub capacity : ℕ
  pub used_count : ℕ
  pub free_count : ℕ
  pub kind : StorageKind
  pub destroyed : List A

pub used_bits_bytes : ℕ → ℕ
used_bits_bytes capacity = (capacity + 7) / 8

pub free_stack_bytes : ℕ → ℕ
free_stack_bytes capacity = capacity * 4

unfoldable pub bit_test : List ℕ → ℕ → Bool
bit_test used_bits index = not (bit_and (get! used_bits (index / 8)) (2 ^ (index % 8)) == 0)

pub bit_set : List ℕ → ℕ → List ℕ
bit_set used_bits index =
    set used_bits (index / 8) (bit_or (get! used_bits (index / 8)) (2 ^ (index % 8)))

pub bit_clear : List ℕ → ℕ → List ℕ
bit_clear used_bits index =
    set used_bits (index / 8) (bit_and (get! used_bits (index / 8)) (0xFF - 2 ^ (index % 8)))

-- `memset(bits, 0, n)`, from byte `i` on.
zero_bytes : ℕ → ℕ → List ℕ → List ℕ
zero_bytes zero i bits = bits
zero_bytes (suc n) i bits = zero_bytes n (i + 1) (set bits i 0)

-- The loop of `reset_free_list`, from `i` on.
stack_loop : ℕ → ℕ → ℕ → List ℕ → List ℕ
stack_loop capacity zero i stack = stack
stack_loop capacity (suc n) i stack =
    stack_loop capacity n (i + 1) (set stack i ((capacity - 1 - i) % 2 ^ 32))

module _ {ℓ} {A : Type ℓ} where
  pub elem_at : ObjectPool A → ℕ → Ptr
  elem_at p index = p.storage + index * p.policy.elem_size

  pub reset_free_list : ObjectPool A → Status × ObjectPool A
  unfolding zero_bytes stack_loop used_bits_bytes
  reset_free_list p = if p.storage == null then (Status.invalid, p) else (
    Status.ok,
    record p {
      used_bits = zero_bytes (used_bits_bytes p.capacity) 0 p.used_bits;
      used_count = 0;
      free_count = p.capacity;
      free_stack = stack_loop p.capacity p.capacity 0 p.free_stack;
    },
  )

  -- `elements` are what the storage holds, and `none` is a null pointer.
  pub init :
      ObjectPool A
      → Policy A
      → Ptr
      → List A
      → Option (List ℕ)
      → Option (List ℕ)
      → ℕ
      → Status × ObjectPool A
  unfolding reset_free_list
  init p policy storage elements none used_bits capacity = (Status.invalid, p)
  init p policy storage elements (some free_stack) none capacity = (Status.invalid, p)
  init p policy storage elements (some free_stack) (some used_bits) capacity =
      if storage == null || capacity == 0
      then (Status.invalid, p)
      else reset_free_list (record p {
        policy = policy;
        storage = storage;
        elements = elements;
        free_stack = free_stack;
        used_bits = used_bits;
        capacity = capacity;
        kind = external;
      })

  -- `Policy{}` is the caller's.
  pub reset_state : ObjectPool A → Policy A → ObjectPool A
  reset_state p policy = record p {
    policy = policy;
    storage = null;
    elements = [];
    free_stack = [];
    used_bits = [];
    capacity = 0;
    used_count = 0;
    free_count = 0;
    kind = external;
  }

  -- `asked` says that `out_elem` is not null, and `none` that it was not written.
  pub alloc : ObjectPool A → Bool → Status × Option Ptr × ObjectPool A
  unfolding bit_set elem_at
  alloc p asked =
      let index = get! p.free_stack (p.free_count - 1) in
      if not asked
      then (Status.null_ptr, none, p)
      else if p.free_count == 0
      then (Status.full, none, p)
      else if leb p.capacity index
      then (Status.invalid, none, p)
      else (
        Status.ok,
        some (elem_at p index),
        record p {
          free_count = p.free_count - 1;
          used_bits = bit_set p.used_bits index;
          used_count = p.used_count + 1;
        },
      )

  -- The position of an element, if the pool has one at the address.
  pub index_of : ObjectPool A → Ptr → Status × ℕ
  index_of p elem =
      let offset = elem - p.storage in
      let idx = offset / p.policy.elem_size in
      if elem == null || p.storage == null
      then (Status.null_ptr, 0)
      else if ltb elem p.storage
      then (Status.not_found, 0)
      else if not (offset % p.policy.elem_size == 0)
      then (Status.not_found, 0)
      else if leb p.capacity idx
      then (Status.not_found, 0)
      else (Status.ok, idx)

  pub contains : ObjectPool A → Ptr → Bool
  unfolding index_of bit_test
  contains p elem =
      let (s, idx) = index_of p elem in if is_ok s then bit_test p.used_bits idx else false

module _ {ℓ} {A : Type ℓ} ⦃inhabited : Inhabited A⦄ where
  destroy_elem : ObjectPool A → ℕ → ObjectPool A
  destroy_elem p index = record p {
    destroyed = destroy p.policy.kind (get! p.elements index) p.destroyed;
  }

  pub free : ObjectPool A → Ptr → Status × ObjectPool A
  unfolding index_of bit_test bit_clear destroy_elem
  free p elem =
      let (s, idx) = index_of p elem in
      let p' = if needs_destroy_on_clear p.policy.kind then destroy_elem p idx else p in
      if elem == null
      then (Status.null_ptr, p)
      else if not (is_ok s)
      then (s, p)
      else if not (bit_test p.used_bits idx)
      then (Status.not_found, p)
      else (
        Status.ok,
        record p' {
          used_bits = bit_clear p.used_bits idx;
          free_stack = set p.free_stack p.free_count (idx % 2 ^ 32);
          free_count = p.free_count + 1;
          used_count = p.used_count - 1;
        },
      )

  clear_loop : ℕ → ℕ → ObjectPool A → ObjectPool A
  unfolding bit_test destroy_elem
  clear_loop zero i p = p
  clear_loop (suc n) i p =
      clear_loop n (i + 1) (if bit_test p.used_bits i then destroy_elem p i else p)

  pub clear : ObjectPool A → ObjectPool A
  unfolding clear_loop reset_free_list
  clear p =
      if p.used_count == 0
      then p
      else (reset_free_list
          (if needs_destroy_on_clear p.policy.kind then clear_loop p.capacity 0 p else p)).1

  -- The element that is constructed stands at the index of the address that `alloc` gave.
  pub alloc_copy : ObjectPool A → A → Status × Option Ptr × ObjectPool A
  unfolding alloc free
  alloc_copy p src =
      let index = get! p.free_stack (p.free_count - 1) in
      let (s, elem, p1) = alloc p true in
      let (c, copied) = copy_construct p.policy.kind (get! p.elements index) src in
      let p2 = record p1 { elements = set p.elements index copied } in
      if not (is_ok s)
      then (s, none, p1)
      else if is_runtime p.policy.kind && not (is_ok c)
      then (c, none, (free p2 (elem_at p index)).1)
      else (Status.ok, elem, p2)

  -- `visit` takes the caller's state, an element and the number of those before it.
  visit_loop {κ} :
      {S : Type κ} → (S → A → ℕ → Status × S) → ℕ → ℕ → ℕ → ObjectPool A → S → Status × S
  unfolding bit_test
  visit_loop visit zero i visit_index p s = (Status.ok, s)
  visit_loop visit (suc n) i visit_index p s =
      let here = bit_test p.used_bits i in
      let (st, s') = if here then visit s (get! p.elements i) visit_index else (Status.ok, s) in
      let rest = visit_loop visit n (i + 1) (if here then visit_index + 1 else visit_index) p s' in
      if is_ok st then rest else (st, s')

  pub for_each {κ} : {S : Type κ} → (S → A → ℕ → Status × S) → ObjectPool A → S → Status × S
  unfolding visit_loop
  for_each visit p s =
      if p.storage == null then (Status.null_ptr, s) else visit_loop visit p.capacity 0 0 p s

-- ===== src/Dlist.antt =====
-- include/memkit/detail/dlist_core.hpp: a doubly linked list, whose nodes are from a pool or from the
-- heap.
pub mod Inv
pub mod Links
pub mod Ops
pub mod Start
pub mod Walk
use memkit.Prelude.{
  ℕ, zero, suc, ◌+◌, ◌-◌, ◌*◌, ◌/◌, ◌%◌, Bool, true, false, Option, none, some, List, [], ◌∷◌, ◌&&◌,
  not, ltb, leb, ◌==◌, if◌then◌else◌,
}
use memkit.Status.{Status, is_ok}
use memkit.Element.{Kind, Policy, is_runtime, copy_construct, destroy, needs_destroy_on_clear}
use memkit.Growth.{size_mod, size_max}
use memkit.Ring.{StorageKind, external}
use memkit.Utility.{align_up}
use memkit.Chain.{Ptr, null, write}

-- `prev`, `next` and `node_data` are the fields of the nodes and the element behind the header. Of
-- `list_flags_` the code reads the flag of the fixed pool. `freed` lists the nodes that were given to
-- `std::free`.
pub record Dlist {ℓ} (A : Type ℓ) : Type ℓ where
  pub policy : Policy A
  pub prev : Ptr → Ptr
  pub next : Ptr → Ptr
  pub node_data : Ptr → A
  pub head : Ptr
  pub tail : Ptr
  pub free_list : Ptr
  pub size : ℕ
  pub node_capacity : ℕ
  pub node_pool : Ptr
  pub fixed_pool : Bool
  pub kind : StorageKind
  pub destroyed : List A
  pub freed : List Ptr

-- MEMKIT_ALLOW_HEAP, and what `std::malloc` returns in a call.
pub record Malloc : Type 0 where
  pub allow_heap : Bool
  pub fresh : Ptr

-- A header is two pointers.
pub node_stride : ℕ → ℕ
node_stride elem_size = (align_up 16 8 + elem_size) % size_mod

pub pool_bytes : ℕ → ℕ → ℕ
unfolding node_stride
pool_bytes node_capacity elem_size = node_stride elem_size * node_capacity % size_mod

-- `n` steps along the links.
pub walk : (Ptr → Ptr) → ℕ → Ptr → Ptr
walk link zero p = p
walk link (suc n) p = walk link n (link p)

module _ {ℓ} {A : Type ℓ} where
  pub pool_node_at : Dlist A → ℕ → Ptr
  unfolding node_stride
  pool_node_at d i = d.node_pool + i * node_stride d.policy.elem_size

  -- The loop of `init_free_list`: `n` rounds from `i` on.
  init_loop : ℕ → ℕ → Dlist A → Dlist A
  unfolding pool_node_at
  init_loop zero i d = d
  init_loop (suc n) i d =
      let slot = pool_node_at d i in
      init_loop n (i + 1) (record d {
        prev = write d.prev slot null;
        next = write d.next slot d.free_list;
        free_list = slot;
      })

  pub init_free_list : Dlist A → Dlist A
  unfolding init_loop
  init_free_list d = init_loop d.node_capacity 0 (record d { free_list = null })

  -- `fixed_pool` is the flag of `list_flags`.
  pub init : Dlist A → Policy A → Ptr → ℕ → Bool → Status × Dlist A
  unfolding init_free_list
  init d policy node_pool node_capacity fixed_pool =
      if node_pool == null
      then (Status.invalid, d)
      else if node_capacity == 0
      then (Status.invalid, d)
      else (
        Status.ok,
        init_free_list (record d {
          policy = policy;
          node_pool = node_pool;
          node_capacity = node_capacity;
          head = null;
          tail = null;
          size = 0;
          fixed_pool = fixed_pool;
          kind = external;
        }),
      )

  pub init_dynamic : Dlist A → Policy A → Status × Dlist A
  init_dynamic d policy = (
    Status.ok,
    record d {
      policy = policy;
      node_pool = null;
      node_capacity = 0;
      head = null;
      tail = null;
      free_list = null;
      size = 0;
      fixed_pool = false;
      kind = external;
    },
  )

  -- `Policy{}` is the caller's.
  pub reset_state : Dlist A → Policy A → Dlist A
  reset_state d policy = record d {
    policy = policy;
    head = null;
    tail = null;
    free_list = null;
    size = 0;
    node_capacity = 0;
    node_pool = null;
    fixed_pool = false;
    kind = external;
  }

  pub capacity : Dlist A → ℕ
  capacity d = if d.fixed_pool then d.node_capacity else size_max

  pub is_empty : Dlist A → Bool
  is_empty d = d.size == 0

  pub is_full : Dlist A → Bool
  is_full d = if d.fixed_pool then leb d.node_capacity d.size else false

  abbrev pub destroy_node_value : Dlist A → Ptr → Dlist A
  destroy_node_value d slot = record d {
    destroyed =
        if needs_destroy_on_clear d.policy.kind
        then destroy d.policy.kind (d.node_data slot) d.destroyed
        else d.destroyed;
  }

  abbrev pub link_front : Dlist A → Ptr → Dlist A
  link_front d slot =
      let d1 = record d { prev = write d.prev slot null; next = write d.next slot d.head } in
      record d1 {
        prev = if d.head == null then d1.prev else write d1.prev d.head slot;
        tail = if d.head == null then slot else d.tail;
        head = slot;
      }

  abbrev pub link_back : Dlist A → Ptr → Dlist A
  link_back d slot =
      let d1 = record d { prev = write d.prev slot d.tail; next = write d.next slot null } in
      record d1 {
        next = if d.tail == null then d1.next else write d1.next d.tail slot;
        head = if d.tail == null then slot else d.head;
        tail = slot;
      }

  abbrev pub link_before : Dlist A → Ptr → Ptr → Dlist A
  link_before d target new_node =
      let p = d.prev target in
      let d1 = record d { prev = write d.prev new_node p; next = write d.next new_node target } in
      record d1 {
        next = if d1.prev target == null then d1.next else write d1.next (d1.prev target) new_node;
        head = if d1.prev target == null then new_node else d.head;
        prev = write d1.prev target new_node;
      }

  abbrev pub unlink_node : Dlist A → Ptr → Dlist A
  unlink_node d slot =
      let next1 =
        if d.prev slot == null then d.next else write d.next (d.prev slot) (d.next slot) in
      let s = next1 slot in
      record d {
        head = if d.prev slot == null then d.next slot else d.head;
        tail = if s == null then d.prev slot else d.tail;
        prev = write (if s == null then d.prev else write d.prev s (d.prev slot)) slot null;
        next = write next1 slot null;
      }

  pub node_at : Dlist A → ℕ → Ptr
  unfolding walk
  node_at d index =
      if leb d.size index
      then null
      else if leb index (d.size / 2)
      then walk d.next index d.head
      else walk d.prev (d.size - 1 - index) d.tail

-- ===== src/Ring.antt =====
-- include/memkit/detail/ring_buffer_core.hpp: the circular buffer under Ring, Queue, Deque and
-- ByteRing. An operation returns its status and the new buffer; an element pointer is an
-- `Option`, and an out-pointer is the old content of what it points to. An index into the storage
-- stands for the slot's address. `Ops` has the operations at the two ends, `Bulk` the others.
pub mod Ops
pub mod Bulk
pub mod Inv
pub mod Window
pub mod Grow
use memkit.Prelude.{
  ℕ, ◌+◌, ◌-◌, ◌*◌, ◌%◌, Bool, true, false, Option, none, some, List, [], ◌&&◌, ◌||◌, not, ltb, leb,
  ◌==◌, if◌then◌else◌, Inhabited, get!, set, zero, suc,
}
use memkit.Status.{Status, is_ok}
use memkit.Element.{Policy, move_construct, is_runtime, destroy, needs_destroy_on_clear}
use memkit.Growth.{Platform, GrowAlloc, grow_capacity, size_mod}

-- The flag sets, one field to a bit.
pub record Flags : Type 0 where
  pub growable : Bool
  pub overwrite_on_full : Bool

pub record StorageKind : Type 0 where
  pub owns : Bool
  pub arena : Bool
  pub heap : Bool

abbrev pub external : StorageKind
external = record { owns = false; arena = false; heap = false }

-- `destroyed` is the trace of the elements whose destructor ran.
pub record Ring {ℓ} (A : Type ℓ) : Type ℓ where
  pub policy : Policy A
  pub storage : List A
  pub capacity : ℕ
  pub head : ℕ
  pub tail : ℕ
  pub count : ℕ
  pub flags : Flags
  pub kind : StorageKind
  pub grow_alloc : GrowAlloc A
  pub destroyed : List A

-- `size_t` addition.
abbrev pub add_size : ℕ → ℕ → ℕ
add_size a b = (a + b) % size_mod

-- The next state after a step that may fail.
abbrev pub then_if_ok {ℓ} :
    {A : Type ℓ} → Status × Ring A → (Ring A → Status × Ring A) → Status × Ring A
then_if_ok (s, r) f = if is_ok s then f r else (s, r)

module _ {ℓ} {A : Type ℓ} where
  -- `init` on an object whose storage kind and allocator are those of `r`. The block is `none`
  -- for a null pointer.
  pub init : Ring A → Policy A → Option (List A) → ℕ → Flags → Status × Ring A
  init r p block cap fl = if cap == 0 || p.elem_size == 0 then (Status.invalid, r) else place block
    where
      place : Option (List A) → Status × Ring A
      place none = (Status.null_ptr, r)
      place (some s) = (
        Status.ok,
        record r {
          policy = p;
          storage = s;
          capacity = cap;
          head = 0;
          tail = 0;
          count = 0;
          flags = fl;
        },
      )

  pub is_empty : Ring A → Bool
  is_empty r = r.count == 0

  pub is_full : Ring A → Bool
  is_full r = if r.flags.growable then false else leb r.capacity r.count

  pub advance : Ring A → ℕ → ℕ → ℕ
  advance r index delta = add_size index delta % r.capacity

  pub logical_index : Ring A → ℕ → ℕ
  logical_index r logical = add_size r.tail logical % r.capacity

  -- `(index + capacity_ - 1u) % capacity_`, at a capacity that is not 0.
  pub step_back : Ring A → ℕ → ℕ
  step_back r index = (add_size index r.capacity + (size_mod - 1)) % size_mod % r.capacity

module _ {ℓ} {A : Type ℓ} ⦃inhabited : Inhabited A⦄ where
  abbrev pub slot_at : Ring A → ℕ → A
  slot_at r i = get! r.storage i

  -- `policy_.destroy(slot_at(i))`
  abbrev pub destroy_at : Ring A → ℕ → Ring A
  destroy_at r i = record r { destroyed = destroy r.policy.kind (slot_at r i) r.destroyed }

  -- The same under `if (policy_.needs_destroy_on_clear())`.
  abbrev pub destroy_if_needed : Ring A → ℕ → Ring A
  destroy_if_needed r i = record r {
    destroyed =
        if needs_destroy_on_clear r.policy.kind
        then destroy r.policy.kind (slot_at r i) r.destroyed
        else r.destroyed;
  }

  -- The source after one round of `relinearize`: a typed policy moves from it and destroys it, a
  -- runtime policy has its bytes copied.
  after_move : Ring A → ℕ → A → Ring A
  after_move r src left =
      let k = r.policy.kind in
      record r {
        storage = if is_runtime k then r.storage else set r.storage src left;
        destroyed = if is_runtime k then r.destroyed else destroy k left r.destroyed;
      }

  -- The loop of `relinearize`: `n` rounds from `i` on.
  copy_out : ℕ → ℕ → Ring A → List A → Ring A × List A
  unfolding logical_index after_move
  copy_out zero i r new = (r, new)
  copy_out (suc n) i r new =
      let src = logical_index r i in
      let (placed, left) = move_construct r.policy.kind (get! new i) (slot_at r src) in
      copy_out n (i + 1) (after_move r src left) (set new i placed)

  -- What `relinearize` does once it has a block: the loop, and the new fields.
  moved : Ring A → List A → StorageKind → ℕ → Ring A
  unfolding copy_out
  moved r block kind new_capacity =
      let (r', new) = copy_out r.count 0 (record r { kind = kind }) block in
      record r' { storage = new; capacity = new_capacity; head = r.count; tail = 0 }

  -- The end of `relinearize`, with the block or the status of the allocation.
  finish : Ring A → ℕ → Status × List A × StorageKind → Status × Ring A
  unfolding moved
  finish r new_capacity (s, block, kind) =
      if is_ok s then (Status.ok, moved r block kind new_capacity) else (s, r)

  -- What `std::malloc` returned, with the storage kind that results.
  from_malloc : Ring A → StorageKind → Option (List A) → Status × List A × StorageKind
  from_malloc r kind none = (Status.oom, [], r.kind)
  from_malloc r kind (some block) = (Status.ok, block, kind)

  module _ (platform : Platform A) where
    -- With `grow_alloc` set the block comes from there, else from the heap.
    grown : Ring A → ℕ → GrowAlloc A → Status × List A × StorageKind
    unfolding from_malloc
    grown r bytes (some allocate) = let (s, block) = allocate bytes in (s, block, r.kind)
    grown r bytes none =
        if platform.allow_heap
        then from_malloc r (record { owns = true; arena = false; heap = true })
            (platform.malloc bytes)
        else (Status.unsupported, [], r.kind)

    -- Where `relinearize` gets the new block from.
    new_block : Ring A → ℕ → Status × List A × StorageKind
    unfolding grown
    new_block r bytes =
        if platform.allow_heap && r.kind.heap
        then from_malloc r r.kind (platform.malloc bytes)
        else grown r bytes r.grow_alloc

    relinearize : Ring A → ℕ → Status × Ring A
    unfolding new_block finish
    relinearize r new_capacity =
        if ltb new_capacity r.count
        then (Status.invalid, r)
        else finish r new_capacity (new_block r (new_capacity * r.policy.elem_size % size_mod))

    pub ensure_room : Ring A → Status × Ring A
    ensure_room r =
        if ltb r.count r.capacity
        then (Status.ok, r)
        else if not r.flags.growable
        then (Status.full, r)
        else (let new_capacity = grow_capacity r.capacity (add_size r.count 1) in
            if leb new_capacity r.capacity then (Status.full, r) else relinearize r new_capacity)

    pub reserve : Ring A → ℕ → Status × Ring A
    reserve r min_capacity =
        if leb min_capacity r.capacity
        then (Status.ok, r)
        else if not r.flags.growable
        then (Status.full, r)
        else relinearize r (grow_capacity r.capacity min_capacity)

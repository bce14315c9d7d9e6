-- ===== src/Vector.antt =====
-- include/memkit/detail/vector_core.hpp: a growable array, under the vector and the stack.
pub mod Copying
pub mod Ends
pub mod Growing
pub mod Inv
pub mod Release
use memkit.Prelude.{
  ℕ, zero, suc, ◌+◌, ◌-◌, ◌*◌, ◌%◌, ◌^◌, Bool, true, false, Option, none, some, List, [], ◌∷◌, ◌++◌,
  ◌&&◌, ◌||◌, not, ltb, leb, ◌==◌, if◌then◌else◌, Inhabited, get!, set, take, drop,
}
use memkit.Status.{Status, is_ok}
use memkit.Element.{
  Kind, Policy, is_runtime, copy_construct, move_construct, destroy, needs_destroy_on_clear,
}
use memkit.Growth.{Platform, GrowAlloc, grow_capacity, size_mod}
use memkit.Ring.{StorageKind, external}

-- `storage_` is `none` when it is null. `freed` lists the blocks that were given to `std::free`.
pub record Vector {ℓ} (A : Type ℓ) : Type ℓ where
  pub policy : Policy A
  pub storage : Option (List A)
  pub capacity : ℕ
  pub size : ℕ
  pub growable : Bool
  pub kind : StorageKind
  pub grow_alloc : GrowAlloc A
  pub destroyed : List A
  pub freed : List (List A)

module _ {ℓ} {A : Type ℓ} where
  pub init : Vector A → Policy A → Option (List A) → ℕ → Bool → Status × Vector A
  init v policy none capacity growable = (Status.invalid, v)
  init v policy (some storage) capacity growable =
      if (capacity == 0) || (policy.elem_size == 0) then (Status.invalid, v) else (
        Status.ok,
        record v {
          policy = policy;
          storage = some storage;
          capacity = capacity;
          size = 0;
          growable = growable;
        },
      )

  -- `Policy{}` is the caller's.
  pub reset_state : Vector A → Policy A → Vector A
  reset_state v policy = record v {
    policy = policy;
    storage = none;
    capacity = 0;
    size = 0;
    growable = false;
    kind = external;
    grow_alloc = none;
  }

  pub is_empty : Vector A → Bool
  is_empty v = v.size == 0

  -- The elements of the block; a null one has none.
  abbrev pub block_of : Option (List A) → List A
  block_of none = []
  block_of (some block) = block

module _ {ℓ} {A : Type ℓ} ⦃inhabited : Inhabited A⦄ where
  abbrev pub slot_at : Vector A → ℕ → A
  slot_at v i = get! (block_of v.storage) i

  -- `*slot_at(i) = x`
  abbrev pub write_slot : Vector A → ℕ → A → Vector A
  write_slot v i x = record v {
    storage = elim v.storage [ none ↦ none | some block ↦ some (set block i x) ];
  }

  abbrev pub destroy_slot : Vector A → ℕ → Vector A
  destroy_slot v i = record v {
    destroyed =
        if needs_destroy_on_clear v.policy.kind
        then destroy v.policy.kind (slot_at v i) v.destroyed
        else v.destroyed;
  }

  -- The loop of `clear`: `n` rounds from `i` on.
  clear_loop : ℕ → ℕ → Vector A → Vector A
  clear_loop zero i v = v
  clear_loop (suc n) i v =
      clear_loop n (i + 1)
        (record v { destroyed = destroy v.policy.kind (slot_at v i) v.destroyed })

  pub clear : Vector A → Vector A
  unfolding clear_loop
  clear v =
      let v' = clear_loop v.size 0 v in
      if v.size == 0
      then v
      else record (if needs_destroy_on_clear v.policy.kind then v' else v) { size = 0 }

  -- The loop of `copy_range`, from the live block into the block `new`: `n` rounds from `i` on. A
  -- runtime policy copies, and stops at a copy that fails; a typed one moves and destroys.
  copy_loop : ℕ → ℕ → Vector A → List A → Status × Vector A × List A
  copy_loop zero i v new = (Status.ok, v, new)
  copy_loop (suc n) i v new =
      let k = v.policy.kind in
      let (s, copied) = copy_construct k (get! new i) (slot_at v i) in
      let (placed, left) = move_construct k (get! new i) (slot_at v i) in
      let moved = write_slot (record v { destroyed = destroy k left v.destroyed }) i left in
      let after_copy = copy_loop n (i + 1) v (set new i copied) in
      let after_move = copy_loop n (i + 1) moved (set new i placed) in
      if is_runtime k
      then (if is_ok s then after_copy else (s, v, set new i copied))
      else after_move

  -- `realloc` keeps the bytes that fit both blocks.
  abbrev pub realloc_heap : Platform A → Vector A → ℕ → Option (List A)
  realloc_heap platform v bytes = elim v.storage [
    | none ↦ platform.malloc bytes
    | some block ↦ platform.realloc block bytes
  ]

  -- `std::free(storage_)`, under the test of the storage kind and of the pointer.
  abbrev pub free_old : Vector A → Vector A
  free_old v = elim v.storage [
    | none ↦ v
    | some block ↦ record v { freed = if v.kind.heap then block ∷ v.freed else v.freed }
  ]

  -- The end of `reallocate`, with a fresh block: the copies, the release of the old block and the
  -- new fields.
  pub replace : Vector A → ℕ → List A → Status × Vector A
  unfolding copy_loop
  replace v new_capacity block =
      let copied : Status × Vector A × List A = elim v.storage [
        | none ↦ (Status.ok, v, block)
        | some old ↦ copy_loop v.size 0 v block
      ] in
      let (s, v', new) = copied in
      if is_ok s
      then (Status.ok, record (free_old v') { storage = some new; capacity = new_capacity })
      else (s, v')

  module _ (platform : Platform A) where
    -- The block of a `grow_alloc`, or of the heap, whose kind the vector then has.
    reallocate_moved : Vector A → ℕ → ℕ → Status × Vector A
    unfolding replace
    reallocate_moved v new_capacity bytes = elim v.grow_alloc [
      | some allocate ↦
          let (s, block) = allocate bytes in
          if is_ok s then replace v new_capacity block else (s, v)
      | none ↦
          if platform.allow_heap
          then elim (platform.malloc bytes) [
            | none ↦ (Status.oom, v)
            | some block ↦
                replace (record v { kind = record { owns = true; arena = false; heap = true } })
                  new_capacity block
          ]
          else (Status.unsupported, v)
    ]

    pub reallocate : Vector A → ℕ → Status × Vector A
    unfolding reallocate_moved
    reallocate v new_capacity =
        let bytes = new_capacity * v.policy.elem_size % size_mod in
        if ltb new_capacity v.size
        then (Status.invalid, v)
        else if platform.allow_heap && v.kind.heap
        then elim (realloc_heap platform v bytes) [
          | none ↦ (Status.oom, v)
          | some block ↦ (Status.ok, record v { storage = some block; capacity = new_capacity })
        ]
        else reallocate_moved v new_capacity bytes

    pub grow : Vector A → ℕ → Status × Vector A
    grow v min_capacity =
        let new_capacity = grow_capacity v.capacity min_capacity in
        if not v.growable
        then (Status.full, v)
        else if ltb new_capacity min_capacity
        then (Status.oom, v)
        else reallocate v new_capacity

    pub reserve : Vector A → ℕ → Status × Vector A
    reserve v min_capacity =
        if leb min_capacity v.capacity
        then (Status.ok, v)
        else if not v.growable
        then (Status.full, v)
        else grow v min_capacity

    pub room : Vector A → Status × Vector A
    room v = if v.size == v.capacity then grow v ((v.size + 1) % size_mod) else (Status.ok, v)

  -- The end of `push_back`, once there is room. A failed copy leaves what it wrote.
  pub append : Vector A → A → Bool → Status × Vector A
  append v x use_move =
      let k = v.policy.kind in
      let (s, copied) = copy_construct k (slot_at v v.size) x in
      let (placed, left) = move_construct k (slot_at v v.size) x in
      if is_runtime k
      then (if is_ok s
          then (Status.ok, record (write_slot v v.size copied) { size = v.size + 1 })
          else (s, write_slot v v.size copied))
      else (
        Status.ok,
        record (write_slot v v.size (if use_move then placed else copied)) { size = v.size + 1 },
      )

  pub push_back : Platform A → Vector A → Option A → Bool → Status × Vector A
  push_back platform v none use_move = (Status.null_ptr, v)
  push_back platform v (some x) use_move =
      let (s, v') = room platform v in if is_ok s then append v' x use_move else (s, v')

  pub pop_back : Vector A → Option A → Status × Option A × Vector A
  unfolding is_empty
  pop_back v none =
      let v' = record v { size = v.size - 1 } in
      if is_empty v then (Status.empty, none, v) else (Status.ok, none, destroy_slot v' v'.size)
  pop_back v (some old) =
      let k = v.policy.kind in
      let v' = record v { size = v.size - 1 } in
      let (s, copied) = copy_construct k old (slot_at v v'.size) in
      let (taken, left) = move_construct k old (slot_at v v'.size) in
      if is_empty v
      then (Status.empty, some old, v)
      else if is_runtime k
      then (if is_ok s then (Status.ok, some copied, v') else (s, some copied, v))
      else (Status.ok, some taken, destroy_slot (write_slot v' v'.size left) v'.size)

  pub peek_at : Vector A → ℕ → Option A → Status × Option A
  peek_at v index none = (Status.null_ptr, none)
  peek_at v index (some old) =
      if leb v.size index then (Status.invalid, some old) else (Status.ok, some (slot_at v index))

  pub peek_front : Vector A → Option A → Status × Option A
  unfolding peek_at
  peek_front v out = peek_at v 0 out

  pub peek_back : Vector A → Option A → Status × Option A
  unfolding is_empty
  peek_back v none = (Status.null_ptr, none)
  peek_back v (some old) =
      if is_empty v then (Status.empty, some old) else (Status.ok, some (slot_at v (v.size - 1)))

  pub set_at : Vector A → ℕ → Option A → Status × Vector A
  set_at v index none = (Status.null_ptr, v)
  set_at v index (some x) =
      let (s, copied) = copy_construct v.policy.kind (slot_at v index) x in
      if leb v.size index then (Status.invalid, v) else (s, write_slot v index copied)

  -- The loop of `foreach`: `visit` takes the caller's state, the element and its position.
  visit_loop {κ} : {S : Type κ} → (S → A → ℕ → Status × S) → ℕ → ℕ → Vector A → S → Status × S
  visit_loop visit zero i v s = (Status.ok, s)
  visit_loop visit (suc n) i v s =
      let (st, s') = visit s (slot_at v i) i in
      let rest = visit_loop visit n (i + 1) v s' in if is_ok st then rest else (st, s')

  pub foreach {κ} : {S : Type κ} → (S → A → ℕ → Status × S) → Vector A → S → Status × S
  unfolding visit_loop
  foreach visit v s = visit_loop visit v.size 0 v s

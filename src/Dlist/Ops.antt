-- ===== src/Dlist/Ops.antt =====
-- include/memkit/detail/dlist_core.hpp: the operations on elements.
pub mod Clear
pub mod Drop
pub mod Insert
pub mod Link
pub mod Loops
pub mod Making
pub mod Remove
use memkit.Prelude.{
  ℕ, zero, suc, ◌+◌, ◌-◌, ◌*◌, ◌/◌, ◌%◌, Bool, true, false, Option, none, some, List, [], ◌∷◌, ◌&&◌,
  not, ltb, leb, ◌==◌, if◌then◌else◌,
}
use memkit.Status.{Status, is_ok}
use memkit.Element.{is_runtime, copy_construct}
use memkit.Chain.{Ptr, null, write}
use memkit.Dlist.{
  Dlist, Malloc, destroy_node_value, link_front, link_back, link_before, unlink_node, node_at,
  is_empty,
}

module _ {ℓ} {A : Type ℓ} (m : Malloc) where
  acquire_node : Dlist A → Status × Ptr × Dlist A
  acquire_node d =
      let cut = λ (p : Ptr). record d { prev = write d.prev p null; next = write d.next p null } in
      if d.fixed_pool
      then (if d.free_list == null then (Status.full, null, d) else (
        Status.ok,
        d.free_list,
        record (cut d.free_list) { free_list = d.next d.free_list },
      ))
      else if not m.allow_heap
      then (Status.unsupported, null, d)
      else if m.fresh == null
      then (Status.oom, null, d)
      else (Status.ok, m.fresh, cut m.fresh)

  pub release_node : Dlist A → Ptr → Dlist A
  release_node d slot =
      if slot == null
      then d
      else if d.fixed_pool
      then record d {
        prev = write d.prev slot null;
        next = write d.next slot d.free_list;
        free_list = slot;
      }
      else if m.allow_heap
      then record d { freed = slot ∷ d.freed }
      else d

  pub make_node : Dlist A → A → Status × Ptr × Dlist A
  unfolding acquire_node release_node
  make_node d x =
      let (s, slot, d1) = acquire_node d in
      let (c, copied) = copy_construct d.policy.kind (d.node_data slot) x in
      let d2 = record d1 { node_data = write d.node_data slot copied } in
      if not (is_ok s)
      then (s, null, d1)
      else if is_runtime d.policy.kind && not (is_ok c)
      then (c, null, release_node d2 slot)
      else (Status.ok, slot, d2)

  pub insert_front : Dlist A → A → Status × Dlist A
  unfolding make_node
  insert_front d x =
      let (s, slot, d') = make_node d x in
      if is_ok s then (Status.ok, record (link_front d' slot) { size = d.size + 1 }) else (s, d')

  pub insert_back : Dlist A → A → Status × Dlist A
  unfolding make_node
  insert_back d x =
      let (s, slot, d') = make_node d x in
      if is_ok s then (Status.ok, record (link_back d' slot) { size = d.size + 1 }) else (s, d')

  pub push_front : Dlist A → A → Status × Dlist A
  unfolding insert_front
  push_front d x = insert_front d x

  pub push_back : Dlist A → A → Status × Dlist A
  unfolding insert_back
  push_back d x = insert_back d x

  pub insert_at : Dlist A → ℕ → Option A → Status × Dlist A
  unfolding make_node insert_front insert_back
  insert_at d index none = (Status.null_ptr, d)
  insert_at d index (some x) =
      let target = node_at d index in
      let (s, slot, d') = make_node d x in
      if ltb d.size index
      then (Status.invalid, d)
      else if index == 0
      then insert_front d x
      else if index == d.size
      then insert_back d x
      else if target == null
      then (Status.invalid, d)
      else if is_ok s
      then (Status.ok, record (link_before d' target slot) { size = d.size + 1 })
      else (s, d')

  -- `unlink_node`, `release_node` and `--size_`.
  pub drop_node : Dlist A → Ptr → Dlist A
  unfolding release_node
  drop_node d slot = record (release_node (unlink_node d slot) slot) { size = d.size - 1 }

  pub pop_node : Dlist A → Ptr → Option A → Status × Option A × Dlist A
  unfolding drop_node
  pop_node d slot none = (Status.ok, none, drop_node (destroy_node_value d slot) slot)
  pop_node d slot (some old) =
      let (c, copied) = copy_construct d.policy.kind old (d.node_data slot) in
      if is_runtime d.policy.kind && not (is_ok c)
      then (c, some copied, d)
      else (Status.ok, some copied, drop_node d slot)

  pub pop_front : Dlist A → Option A → Status × Option A × Dlist A
  unfolding pop_node
  pop_front d out = if d.size == 0 then (Status.empty, out, d) else pop_node d d.head out

  pub pop_back : Dlist A → Option A → Status × Option A × Dlist A
  unfolding pop_node
  pop_back d out = if d.size == 0 then (Status.empty, out, d) else pop_node d d.tail out

  pub remove_at : Dlist A → ℕ → Option A → Status × Option A × Dlist A
  unfolding pop_front pop_back pop_node
  remove_at d index out =
      let target = node_at d index in
      if leb d.size index
      then (Status.invalid, out, d)
      else if index == 0
      then pop_front d out
      else if index == d.size - 1
      then pop_back d out
      else if target == null
      then (Status.invalid, out, d)
      else pop_node d target out

  -- The loop of `remove_first`, on fuel.
  remove_first_loop : (A → Bool) → ℕ → Ptr → ℕ → Dlist A → Option A → Status × Option A × Dlist A
  unfolding remove_at
  remove_first_loop pred zero current index d out = (Status.not_found, out, d)
  remove_first_loop pred (suc fuel) current index d out =
      let rest = remove_first_loop pred fuel (d.next current) (index + 1) d out in
      if current == null
      then (Status.not_found, out, d)
      else if pred (d.node_data current)
      then remove_at d index out
      else rest

  pub remove_first : (A → Bool) → Dlist A → Option A → Status × Option A × Dlist A
  unfolding remove_first_loop
  remove_first pred d out = remove_first_loop pred (d.size + 1) d.head 0 d out

  -- The loop of `clear`, on fuel.
  clear_loop : ℕ → Dlist A → Dlist A
  unfolding release_node
  clear_loop zero d = d
  clear_loop (suc fuel) d =
      let slot = d.head in
      let rest =
        clear_loop fuel (release_node (destroy_node_value (unlink_node d slot) slot) slot) in
      if d.head == null then d else rest

  pub clear : Dlist A → Dlist A
  unfolding clear_loop
  clear d = record (clear_loop (d.size + 1) d) { head = null; tail = null; size = 0 }

module _ {ℓ} {A : Type ℓ} where
  pub peek_front : Dlist A → Option A → Status × Option A
  peek_front d none = (Status.null_ptr, none)
  peek_front d (some old) =
      if d.size == 0 then (Status.empty, some old) else (Status.ok, some (d.node_data d.head))

  pub peek_back : Dlist A → Option A → Status × Option A
  peek_back d none = (Status.null_ptr, none)
  peek_back d (some old) =
      if d.size == 0 then (Status.empty, some old) else (Status.ok, some (d.node_data d.tail))

  pub peek_at : Dlist A → ℕ → Option A → Status × Option A
  peek_at d index none = (Status.null_ptr, none)
  peek_at d index (some old) =
      let current = node_at d index in
      if current == null
      then (Status.invalid, some old)
      else (Status.ok, some (d.node_data current))

  -- The loops of `for_each` and `for_each_reverse`, on fuel: `visit` takes the caller's state, the
  -- element and its position.
  visit_loop {κ} : {S : Type κ} → (S → A → ℕ → Status × S) → ℕ → Ptr → ℕ → Dlist A → S → Status × S
  visit_loop visit zero current index d s = (Status.ok, s)
  visit_loop visit (suc fuel) current index d s =
      let (st, s') = visit s (d.node_data current) index in
      let rest = visit_loop visit fuel (d.next current) (index + 1) d s' in
      if current == null then (Status.ok, s) else if is_ok st then rest else (st, s')

  pub for_each {κ} : {S : Type κ} → (S → A → ℕ → Status × S) → Dlist A → S → Status × S
  unfolding visit_loop
  for_each visit d s = visit_loop visit (d.size + 1) d.head 0 d s

  visit_back_loop {κ} :
      {S : Type κ} → (S → A → ℕ → Status × S) → ℕ → Ptr → ℕ → Dlist A → S → Status × S
  visit_back_loop visit zero current index d s = (Status.ok, s)
  visit_back_loop visit (suc fuel) current index d s =
      let (st, s') = visit s (d.node_data current) index in
      let rest = visit_back_loop visit fuel (d.prev current) (index - 1) d s' in
      if current == null
      then (Status.ok, s)
      else if not (is_ok st)
      then (st, s')
      else if index == 0
      then (Status.ok, s')
      else rest

  pub for_each_reverse {κ} : {S : Type κ} → (S → A → ℕ → Status × S) → Dlist A → S → Status × S
  unfolding visit_back_loop
  for_each_reverse visit d s =
      let back = visit_back_loop visit (d.size + 1) d.tail (d.size - 1) d s in
      if d.size == 0 then (Status.ok, s) else back

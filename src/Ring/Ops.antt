-- ===== src/Ring/Ops.antt =====
-- ring_buffer_core.hpp: the operations at the two ends. The caller's object after it was moved
-- from is not modelled.
pub mod Steps
pub mod Push
pub mod Grow
pub mod Pop
use memkit.Prelude.{
  ℕ, ◌+◌, ◌-◌, Bool, Option, none, some, ◌&&◌, ◌||◌, not, leb, ◌==◌, if◌then◌else◌, Inhabited, set,
}
use memkit.Status.{Status, is_ok}
use memkit.Element.{Kind, copy_construct, move_construct, is_runtime}
use memkit.Growth.{Platform}
use memkit.Ring.{
  Ring, is_empty, advance, step_back, logical_index, slot_at, destroy_if_needed, ensure_room,
  then_if_ok,
}

module _ {ℓ} {A : Type ℓ} where
  -- The element put into a slot: what `if constexpr` and `use_move` select.
  place : Kind A → Bool → A → A → Status × A
  place k use_move dst src =
      if is_runtime k
      then copy_construct k dst src
      else if use_move
      then (Status.ok, (move_construct k dst src).0)
      else (Status.ok, (copy_construct k dst src).1)

module _ {ℓ} {A : Type ℓ} ⦃inhabited : Inhabited A⦄ where
  -- The slot keeps what a failed copy left in it.
  write_slot : Ring A → ℕ → A → Bool → Status × Ring A
  unfolding place
  write_slot r i x use_move =
      let (s, v) = place r.policy.kind use_move (slot_at r i) x in
      (s, record r { storage = set r.storage i v })

  pub extract_slot : Ring A → ℕ → Option A → Bool → Status × Option A × Ring A
  extract_slot r i none move_out = (Status.ok, none, destroy_if_needed r i)
  extract_slot r i (some dst) move_out =
      let k = r.policy.kind in
      let (s, v) = copy_construct k dst (slot_at r i) in
      let (taken, left) = move_construct k dst (slot_at r i) in
      let r' = record r { storage = set r.storage i left } in
      if is_runtime k
      then (s, some v, r)
      else if move_out
      then (Status.ok, some taken, destroy_if_needed r' i)
      else (Status.ok, some v, r)

  pub drop_oldest : Ring A → Ring A
  unfolding advance
  drop_oldest r =
      let r' = destroy_if_needed r r.tail in
      record r' { tail = advance r r.tail 1; count = r.count - 1 }

  pub drop_newest : Ring A → Ring A
  unfolding step_back
  drop_newest r =
      let back = step_back r r.head in
      let r' = destroy_if_needed r back in record r' { head = back; count = r.count - 1 }

  -- The end of `push_back`, once there is room.
  pub append : Ring A → A → Bool → Status × Ring A
  unfolding write_slot advance
  append r x use_move =
      let (s, r') = write_slot r r.head x use_move in
      if is_ok s
      then (Status.ok, record r' { head = advance r r.head 1; count = r.count + 1 })
      else (s, r')

  -- The end of `push_front`: the failed copy gives the slot back.
  pub prepend : Ring A → A → Bool → Status × Ring A
  unfolding write_slot advance step_back
  prepend r x use_move =
      let front = step_back r r.tail in
      let (s, r') = write_slot (record r { tail = front }) front x use_move in
      if is_ok s
      then (Status.ok, record r' { count = r.count + 1 })
      else (s, record r' { tail = advance r' front 1 })

  module _ (platform : Platform A) where
    pub room_back : Ring A → Bool → Status × Ring A
    unfolding drop_oldest
    room_back r allow_overwrite =
        if leb r.capacity r.count
        then (if r.flags.growable
            then ensure_room platform r
            else if allow_overwrite || r.flags.overwrite_on_full
            then (Status.ok, drop_oldest r)
            else (Status.full, r))
        else (Status.ok, r)

    pub push_back : Ring A → Option A → Bool → Bool → Status × Ring A
    unfolding room_back
    push_back r none allow_overwrite use_move = (Status.null_ptr, r)
    push_back r (some x) allow_overwrite use_move =
        if r.capacity == 0
        then (Status.invalid, r)
        else if (r.count == r.capacity)
            && not r.flags.growable
            && not allow_overwrite
            && not r.flags.overwrite_on_full
        then (Status.full, r)
        else then_if_ok (room_back r allow_overwrite) (λ r'. append r' x use_move)

    pub room_front : Ring A → Status × Ring A
    unfolding drop_newest
    room_front r =
        if leb r.capacity r.count
        then (if r.flags.growable
            then ensure_room platform r
            else if r.flags.overwrite_on_full
            then (Status.ok, drop_newest r)
            else (Status.full, r))
        else (Status.ok, r)

    pub push_front : Ring A → Option A → Bool → Status × Ring A
    unfolding room_front
    push_front r none use_move = (Status.null_ptr, r)
    push_front r (some x) use_move = then_if_ok (room_front r) (λ r'. prepend r' x use_move)

  pub pop_front : Ring A → Option A → Bool → Status × Option A × Ring A
  unfolding extract_slot is_empty advance
  pop_front r out move_out =
      let (s, o, r') = extract_slot r r.tail out move_out in
      if is_empty r
      then (Status.empty, out, r)
      else if is_ok s
      then (Status.ok, o, record r' { tail = advance r r.tail 1; count = r.count - 1 })
      else (s, o, r')

  pub pop_back : Ring A → Option A → Bool → Status × Option A × Ring A
  unfolding extract_slot is_empty advance step_back
  pop_back r out move_out =
      let back = step_back r r.head in
      let (s, o, r') = extract_slot (record r { head = back }) back out move_out in
      if is_empty r
      then (Status.empty, out, r)
      else if is_ok s
      then (Status.ok, o, record r' { count = r.count - 1 })
      else (s, o, record r' { head = advance r back 1 })

  -- The reads copy the bytes of a slot; `out` is the old content of `*out_elem`, if not null.
  pub peek_front : Ring A → Option A → Status × Option A
  unfolding is_empty
  peek_front r none = (Status.null_ptr, none)
  peek_front r (some old) =
      if is_empty r then (Status.empty, some old) else (Status.ok, some (slot_at r r.tail))

  pub peek_back : Ring A → Option A → Status × Option A
  unfolding is_empty step_back
  peek_back r none = (Status.null_ptr, none)
  peek_back r (some old) =
      if is_empty r
      then (Status.empty, some old)
      else (Status.ok, some (slot_at r (step_back r r.head)))

  pub peek_at : Ring A → ℕ → Option A → Status × Option A
  unfolding logical_index
  peek_at r index none = (Status.null_ptr, none)
  peek_at r index (some old) =
      if leb r.count index
      then (Status.invalid, some old)
      else (Status.ok, some (slot_at r (logical_index r index)))

  pub set_at : Ring A → ℕ → Option A → Status × Ring A
  unfolding logical_index
  set_at r index none = (Status.null_ptr, r)
  set_at r index (some x) =
      let i = logical_index r index in
      let (s, v) = copy_construct r.policy.kind (slot_at r i) x in
      if leb r.count index
      then (Status.invalid, r)
      else (s, record r { storage = set r.storage i v })

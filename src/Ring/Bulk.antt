-- ===== src/Ring/Bulk.antt =====
-- ring_buffer_core.hpp: clearing, visiting, and the contiguous spans of stream I/O.
pub mod Spans
use memkit.Prelude.{
  ℕ, zero, suc, ◌+◌, ◌-◌, ◌%◌, Bool, false, Option, none, some, [], ◌||◌, not, ltb, leb, ◌==◌,
  if◌then◌else◌, Inhabited,
}
use memkit.Status.{Status, is_ok}
use memkit.Element.{needs_destroy_on_clear}
use memkit.Growth.{Platform, size_mod}
use memkit.Ring.{Ring, external, is_empty, advance, logical_index, slot_at, destroy_at, ensure_room}
use memkit.Element.{Policy}

module _ {ℓ} {A : Type ℓ} where
  -- `Policy{}` is the caller's.
  pub reset_state : Ring A → Policy A → Ring A
  reset_state r p = record {
    policy = p;
    storage = [];
    capacity = 0;
    head = 0;
    tail = 0;
    count = 0;
    flags = record { growable = false; overwrite_on_full = false };
    kind = external;
    grow_alloc = none;
    destroyed = r.destroyed;
  }

module _ {ℓ} {A : Type ℓ} ⦃inhabited : Inhabited A⦄ where
  -- `n` rounds of `destroy(slot_at((tail_ + i) % capacity_))`, from `i` on.
  destroy_run : ℕ → ℕ → Ring A → Ring A
  unfolding logical_index
  destroy_run zero i r = r
  destroy_run (suc n) i r = destroy_run n (i + 1) (destroy_at r (logical_index r i))

  pub clear : Ring A → Ring A
  unfolding destroy_run
  clear r =
      let r' = if needs_destroy_on_clear r.policy.kind then destroy_run r.count 0 r else r in
      if r.count == 0 then r else record r' { head = 0; tail = 0; count = 0 }

  -- `visit` takes the caller's state, the element and its position.
  visit_run {κ} : {S : Type κ} → (S → A → ℕ → Status × S) → ℕ → ℕ → Ring A → S → Status × S
  unfolding logical_index
  visit_run visit zero i r s = (Status.ok, s)
  visit_run visit (suc n) i r s =
      let (st, s') = visit s (slot_at r (logical_index r i)) i in
      let rest = visit_run visit n (i + 1) r s' in if is_ok st then rest else (st, s')

  pub foreach {κ} : {S : Type κ} → (S → A → ℕ → Status × S) → Ring A → S → Status × S
  unfolding visit_run
  foreach visit r s = visit_run visit r.count 0 r s

  -- The span that may be read: its length, and the index of its first slot. The flag says
  -- whether `out_ptr` is not null.
  unfoldable pub readable_contiguous : Ring A → Bool → ℕ × Option ℕ
  unfolding is_empty
  readable_contiguous r has_out =
      if is_empty r || not has_out
      then (0, none)
      else if ltb r.tail r.head
      then (r.head - r.tail, some r.tail)
      else (r.count, some r.tail)

  -- The span that may be written, once there is room. With the head before the tail,
  -- `head_ - tail_` goes below 0 and wraps in `size_t`.
  open_span : Ring A → ℕ × Option ℕ × Ring A
  open_span r =
      if leb r.tail r.head
      then (r.capacity - r.count, some r.head, r)
      else ((r.head + size_mod - r.tail) % size_mod, some r.head, r)

  pub writable_contiguous : Platform A → Ring A → Bool → ℕ × Option ℕ × Ring A
  writable_contiguous platform r has_out =
      let (s, r') = ensure_room platform r in
      if not has_out
      then (0, none, r)
      else if leb r.capacity r.count
      then (if not r.flags.growable
          then (0, none, r)
          else if is_ok s
          then open_span r'
          else (0, none, r'))
      else open_span r

  pub commit_read : Ring A → ℕ → Ring A
  unfolding is_empty advance destroy_run
  commit_read r elem_count =
      let n = if ltb r.count elem_count then r.count else elem_count in
      let r' = if needs_destroy_on_clear r.policy.kind then destroy_run n 0 r else r in
      if (elem_count == 0) || is_empty r
      then r
      else record r' { tail = advance r r.tail n; count = r.count - n }

  pub commit_write : Ring A → ℕ → Ring A
  unfolding advance
  commit_write r elem_count =
      let free_slots = r.capacity - r.count in
      let n = if ltb free_slots elem_count then free_slots else elem_count in
      if elem_count == 0 then r else record r { head = advance r r.head n; count = r.count + n }

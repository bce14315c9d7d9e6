-- ===== src/Ring/Grow/Room.antt =====
-- `relinearize`, `reserve` and `ensure_room`: what they leave, by the answer of the allocator.
use memkit.Prelude.{
  ℕ, ◌+◌, ◌*◌, ◌%◌, ◌^◌, ◌≤◌, ◌<◌, ◌≡◌, ◌≢◌, refl, ap, ◌∙◌, ◌⊎◌, inl, inr, Bool, true, false, ◌&&◌,
  if◌then◌else◌, subst, Option, none, some, List, arith, Bool-cases, Inhabited, length, ltb, leb,
}
use memkit.Status.{Status, is_ok, is_ok→ok, not_is_ok→ne}
use memkit.Growth.{Platform, GrowAlloc, grow_capacity, size_mod}
use memkit.Growth.Bounds.{grow_capacity_bounds}
use memkit.Ring.{
  Ring, StorageKind, add_size, finish, new_block, grown, from_malloc, relinearize, ensure_room,
  reserve,
}
use memkit.Ring.Inv.{IsValid, contents}
use memkit.Ring.Grow.{moved-keeps}

-- What `malloc` and a `grow_alloc` promise of a block that they hand out: it has the bytes that were
-- asked for. Its length is counted in elements.
pub record Supplies {A : Type 0} (platform : Platform A) (r : Ring A) : Type 0 where
  pub heap :
      (bytes : ℕ) (block : List A)
      → platform.malloc bytes ≡ some block
      → bytes ≤ length block * r.policy.elem_size
  pub arena :
      (allocate : ℕ → Status × List A) (bytes : ℕ) (block : List A)
      → r.grow_alloc ≡ some allocate
      → allocate bytes ≡ (Status.ok, block)
      → bytes ≤ length block * r.policy.elem_size

-- What `malloc` answers, and where a buffer asks for its blocks: a heap block is replaced from the
-- heap, any other by `grow_alloc`, or without one from the heap again if there is a heap.
module _ {A : Type 0} where
  abbrev malloc_status : Option (List A) → Status
  malloc_status none = Status.oom
  malloc_status (some block) = Status.ok

  abbrev request : Platform A → Bool → GrowAlloc A → ℕ → Status
  request platform true g bytes = malloc_status (platform.malloc bytes)
  request platform false (some allocate) bytes = (allocate bytes).0
  request platform false none bytes =
      if platform.allow_heap then malloc_status (platform.malloc bytes) else Status.unsupported

  -- The allocator's answer to the buffer's request for a block of `bytes`.
  abbrev pub allocation : Platform A → Ring A → ℕ → Status
  allocation platform r bytes =
      request platform (platform.allow_heap && r.kind.heap) r.grow_alloc bytes

-- What a request for room for `wide` elements leaves, when the allocator answers `s`: if `ok`, the
-- elements, in a buffer of that size, and else the answer and the buffer as it was.
abbrev pub Resized :
    {A : Type 0} ⦃inhabited : Inhabited A⦄ → Ring A → Status → ℕ → Status × Ring A → Type 0
Resized r s wide out =
    ((s ≡ Status.ok)
      × (out.0 ≡ Status.ok)
      × IsValid out.1
      × (contents out.1 ≡ contents r)
      × (out.1.count ≡ r.count)
      × (out.1.capacity ≡ wide)
      × (out.1.policy ≡ r.policy))
    ⊎ ((s ≢ Status.ok) × (out.0 ≡ s) × (out.1 ≡ r))

module _ {A : Type 0} ⦃inhabited : Inhabited A⦄ (platform : Platform A) (r : Ring A) (v : IsValid r)
    (supplies : Supplies platform r) where
  from_malloc-status :
      (kind : StorageKind) (o : Option (List A)) → (from_malloc r kind o).0 ≡ malloc_status o
  unfolding from_malloc
  from_malloc-status kind none = refl
  from_malloc-status kind (some block) = refl

  grown-status :
      (bytes : ℕ) (g : GrowAlloc A) → (grown platform r bytes g).0 ≡ request platform false g bytes
  unfolding grown
  grown-status bytes (some allocate) = refl
  grown-status bytes none = elim (Bool-cases platform.allow_heap) [
    | inl heap ↦ rw heap (from_malloc-status _ (platform.malloc bytes))
    | inr no_heap ↦ rw no_heap refl
  ]

  new_block-allocation : (bytes : ℕ) → (new_block platform r bytes).0 ≡ allocation platform r bytes
  unfolding new_block
  new_block-allocation bytes = elim (Bool-cases (platform.allow_heap && r.kind.heap)) [
    | inl heap ↦ rw heap (from_malloc-status r.kind (platform.malloc bytes))
    | inr other ↦ rw other (grown-status bytes r.grow_alloc)
  ]

  from_malloc-eq_ok :
      (kind kind' : StorageKind) (o : Option (List A)) (block : List A)
      → from_malloc r kind o ≡ (Status.ok, block, kind')
      → o ≡ some block
  unfolding from_malloc
  from_malloc-eq_ok kind kind' none block run = cc
  from_malloc-eq_ok kind kind' (some b) block run = cc

  grown-enough :
      (bytes : ℕ) (g : GrowAlloc A) (block : List A) (kind : StorageKind)
      → r.grow_alloc ≡ g
      → grown platform r bytes g ≡ (Status.ok, block, kind)
      → bytes ≤ length block * r.policy.elem_size
  unfolding grown
  grown-enough bytes none block kind e run = elim (Bool-cases platform.allow_heap) [
    | inl heap ↦
        supplies.heap bytes block
          (from_malloc-eq_ok _ kind (platform.malloc bytes) block (rw heap at run))
    | inr no_heap ↦ absurd (let run' = rw no_heap at run in cc)
  ]
  grown-enough bytes (some allocate) block kind e run = supplies.arena allocate bytes block e (cc)

  new_block-enough :
      (bytes : ℕ) (block : List A) (kind : StorageKind)
      → new_block platform r bytes ≡ (Status.ok, block, kind)
      → bytes ≤ length block * r.policy.elem_size
  unfolding new_block
  new_block-enough bytes block kind run = elim (Bool-cases (platform.allow_heap && r.kind.heap)) [
    | inl heap ↦
        supplies.heap bytes block
          (from_malloc-eq_ok r.kind kind (platform.malloc bytes) block (rw heap at run))
    | inr other ↦ grown-enough bytes r.grow_alloc block kind refl (rw other at run)
  ]

  finish-Resized :
      (wide : ℕ) (s : Status) (block : List A) (kind : StorageKind)
      → r.count < wide
      → wide ≤ 2 ^ 63
      → (s ≡ Status.ok → wide ≤ length block)
      → Resized r s wide (finish r wide (s, block, kind))
  unfolding finish
  finish-Resized wide s block kind room small enough = elim (Bool-cases (is_ok s)) [
    | inl good ↦
        let (v', elements, cap, count, policy) =
          moved-keeps r block kind wide v room (enough (is_ok→ok s good)) small in
        rw good (inl (is_ok→ok s good, refl, v', elements, count, cap, policy))
    | inr bad ↦ rw bad (inr (not_is_ok→ne s bad, refl, refl))
  ]

  relinearize-Resized :
      (wide : ℕ)
      → r.count < wide
      → wide * r.policy.elem_size ≤ 2 ^ 63
      → Resized r
          (allocation platform r (wide * r.policy.elem_size))
          wide
          (relinearize platform r wide)
  unfolding relinearize
  relinearize-Resized wide room fits =
      let bytes = wide * r.policy.elem_size % size_mod in
      let (s, block, kind) = new_block platform r bytes in
      let whole : bytes ≡ wide * r.policy.elem_size = omega arith in
      let small : wide ≤ 2 ^ 63 = grind arith in
      let not_less : ltb wide r.count ≡ false = ground arith in
      rw not_less (
        subst (λ a. Resized r a wide (finish r wide (s, block, kind)))
          (new_block-allocation bytes ∙ ap (allocation platform r) whole)
          (finish-Resized wide s block kind room small
            (λ e. grind (arith, new_block-enough bytes block kind (λ i. (e i, block, kind))))))

  reserve-relinearize :
      (min_capacity : ℕ)
      → r.flags.growable ≡ true
      → r.capacity < min_capacity
      → reserve platform r min_capacity
        ≡ relinearize platform r (grow_capacity r.capacity min_capacity)
  unfolding reserve
  reserve-relinearize min_capacity growable more = ground arith

  ensure_room-relinearize :
      r.flags.growable ≡ true
      → r.count ≡ r.capacity
      → r.capacity < grow_capacity r.capacity (r.count + 1)
      → ensure_room platform r ≡ relinearize platform r (grow_capacity r.capacity (r.count + 1))
  unfolding ensure_room
  ensure_room-relinearize growable full more =
      let exact : add_size r.count 1 ≡ r.count + 1 = omega arith in
      let larger : leb (grow_capacity r.capacity (r.count + 1)) r.capacity ≡ false = ground arith in
      let no_room : ltb r.count r.capacity ≡ false = ground arith in
      rw (exact, larger, no_room) (ground arith)

  -- `reserve` on a valid growable buffer that is too small, with blocks as large as asked for and
  -- a new capacity whose bytes fit an object: the new capacity serves the request, and either the
  -- allocator hands out the block, and the buffer has that capacity, with the same elements in order
  -- and still valid, or the allocator refuses, its status is returned and nothing has changed.
  pub reserve-Resized :
      (min_capacity : ℕ)
      → r.flags.growable ≡ true
      → min_capacity < size_mod
      → r.capacity < min_capacity
      → grow_capacity r.capacity min_capacity * r.policy.elem_size ≤ 2 ^ 63
      → (min_capacity ≤ grow_capacity r.capacity min_capacity)
        × Resized r
            (allocation platform r (grow_capacity r.capacity min_capacity * r.policy.elem_size))
            (grow_capacity r.capacity min_capacity)
            (reserve platform r min_capacity)
  reserve-Resized min_capacity growable below more fits =
      let (ge, _, _, _) = grow_capacity_bounds r.capacity min_capacity (omega arith) below in
      (
        ge,
        rw (reserve-relinearize min_capacity growable more)
            (relinearize-Resized (grow_capacity r.capacity min_capacity) (omega arith) fits),
      )

  -- A full growable buffer asks for room for one more.
  pub ensure_room-Resized :
      r.flags.growable ≡ true
      → r.count ≡ r.capacity
      → grow_capacity r.capacity (r.count + 1) * r.policy.elem_size ≤ 2 ^ 63
      → (r.count < grow_capacity r.capacity (r.count + 1))
        × Resized r
            (allocation platform r (grow_capacity r.capacity (r.count + 1) * r.policy.elem_size))
            (grow_capacity r.capacity (r.count + 1))
            (ensure_room platform r)
  ensure_room-Resized growable full fits =
      let (ge, _, _, _) =
        grow_capacity_bounds r.capacity (r.count + 1) (omega arith) (omega arith) in
      let more : r.count < grow_capacity r.capacity (r.count + 1) = omega arith in
      (
        more,
        rw (ensure_room-relinearize growable full (omega arith))
            (relinearize-Resized (grow_capacity r.capacity (r.count + 1)) more fits),
      )

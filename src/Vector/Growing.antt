-- ===== src/Vector/Growing.antt =====
-- Growth of the vector keeps its elements.
use memkit.Prelude.{
  ℕ, ◌+◌, ◌*◌, ◌%◌, ◌^◌, ◌≤◌, ◌<◌, ◌≡◌, ◌≢◌, ◌⊎◌, inl, inr, refl, sym, ap, true, false, none, some,
  List, arith, ◌&&◌, ltb, subst, Bool-cases, Option-cases, Inhabited, get!, length, take-ext,
}
use memkit.Status.{Status, is_ok, is_ok→ok, not_is_ok→ne}
use memkit.Growth.{Platform, GrowAlloc, grow_capacity, size_mod}
use memkit.Growth.Bounds.{grow_capacity_bounds}
use memkit.Ring.{StorageKind}
use memkit.Ring.Inv.{AlwaysCopies}
use memkit.Vector.{Vector, replace, reallocate_moved, reallocate, grow, reserve}
use memkit.Vector.Inv.{IsValid, contents}
use memkit.Vector.Copying.{replace-Replaced}

-- What `malloc`, `realloc` and a `grow_alloc` promise of a block that they hand out: it has the bytes
-- that were asked for, and `realloc` keeps the elements that fit both blocks. Lengths are counted in
-- elements.
pub record Supplies {A : Type 0} ⦃inhabited : Inhabited A⦄ (platform : Platform A) (v : Vector A)
    : Type 0 where
  pub heap :
      (bytes : ℕ) (block : List A)
      → platform.malloc bytes ≡ some block
      → bytes ≤ length block * v.policy.elem_size
  pub again :
      (old : List A) (bytes : ℕ) (block : List A)
      → platform.realloc old bytes ≡ some block
      → bytes ≤ length block * v.policy.elem_size
  pub kept :
      (old : List A) (bytes : ℕ) (block : List A) (j : ℕ)
      → platform.realloc old bytes ≡ some block
      → j < length old
      → (j + 1) * v.policy.elem_size ≤ bytes
      → get! block j ≡ get! old j
  pub arena :
      (allocate : ℕ → Status × List A) (bytes : ℕ) (block : List A)
      → v.grow_alloc ≡ some allocate
      → allocate bytes ≡ (Status.ok, block)
      → bytes ≤ length block * v.policy.elem_size

module _ {A : Type 0} ⦃inhabited : Inhabited A⦄ where
  -- The vector `w` has the elements of `v`, in a block with room for `wide`.
  pub record Regrown (v : Vector A) (wide : ℕ) (w : Vector A) : Type 0 where
    pub block : List A
    pub valid : IsValid w block
    pub elements : contents w ≡ contents v
    pub wider : w.capacity ≡ wide
    pub size : w.size ≡ v.size
    pub policy : w.policy ≡ v.policy

  -- Either the grown vector, or a failure that changes nothing.
  abbrev pub Outcome : Vector A → ℕ → Status × Vector A → Type 0
  Outcome v wide out =
      ((out.0 ≡ Status.ok) × Regrown v wide out.1) ⊎ ((out.0 ≢ Status.ok) × (out.1 ≡ v))

  Regrown-intro :
      (v : Vector A) (old block log : List A) (freed : List (List A)) (kind : StorageKind)
      (wide : ℕ)
      → 0 < v.policy.elem_size
      → v.size ≤ length old
      → v.size ≤ wide
      → wide ≤ length block
      → ((j : ℕ) → j < v.size → get! block j ≡ get! old j)
      → Regrown
          (record v { storage = some old })
          wide
          (record v {
            storage = some block;
            capacity = wide;
            destroyed = log;
            freed = freed;
            kind = kind;
          })
  Regrown-intro v old block log freed kind wide sized within h room same = record {
    block = block;
    valid = record { stored = refl; sized = sized; backed = room; within = h };
    elements = take-ext v.size block old (omega arith) within same;
    wider = refl;
    size = refl;
    policy = refl;
  }

  replace-Outcome :
      (v : Vector A) (old block : List A) (kind : StorageKind) (wide : ℕ)
      → AlwaysCopies v.policy.kind
      → 0 < v.policy.elem_size
      → v.size ≤ length old
      → v.size ≤ wide
      → wide ≤ length block
      → Outcome
          (record v { storage = some old })
          wide
          (replace (record v { storage = some old; kind = kind }) wide block)
  replace-Outcome v old block kind wide copies sized within h room =
      let r = replace-Replaced v old block wide kind copies h room in
      rw r.result
        (inl (refl, Regrown-intro v old r.block r.log _ kind wide sized within h r.room r.same))

module _ {A : Type 0} ⦃inhabited : Inhabited A⦄ (platform : Platform A) where
  reallocate_moved-Outcome :
      (v : Vector A) (old : List A) (wide bytes : ℕ) (g : GrowAlloc A)
      → AlwaysCopies v.policy.kind
      → 0 < v.policy.elem_size
      → v.size ≤ length old
      → v.size ≤ wide
      → ((block : List A) → bytes ≤ length block * v.policy.elem_size → wide ≤ length block)
      → ((block : List A)
          → platform.malloc bytes ≡ some block
          → bytes ≤ length block * v.policy.elem_size)
      → ((allocate : ℕ → Status × List A) (block : List A)
          → g ≡ some allocate
          → allocate bytes ≡ (Status.ok, block)
          → bytes ≤ length block * v.policy.elem_size)
      → Outcome
          (record v { storage = some old; grow_alloc = g })
          wide
          (reallocate_moved platform (record v { storage = some old; grow_alloc = g }) wide bytes)
  unfolding reallocate_moved
  reallocate_moved-Outcome v old wide bytes none copies sized within h fits heap arena =
      elim (Bool-cases platform.allow_heap) [
        | inl allow ↦ elim (Option-cases (platform.malloc bytes)) [
          | inl e ↦ rw (allow, e) (inr (cc, refl))
          | inr (block, e) ↦
              rw (allow, e)
                (replace-Outcome (record v { grow_alloc = none }) old block _ wide copies sized
                  within h (fits block (heap block e)))
        ]
        | inr no_heap ↦ rw no_heap (inr (cc, refl))
      ]
  reallocate_moved-Outcome v old wide bytes (some allocate) copies sized within h fits heap arena =
      let (s, block) = allocate bytes in
      elim (Bool-cases (is_ok s)) [
        | inl good ↦
            let e : allocate bytes ≡ (Status.ok, block) = ap (λ t. (t, block)) (is_ok→ok s good) in
            rw good (
              replace-Outcome (record v { grow_alloc = some allocate }) old block v.kind wide copies
                sized within h (fits block (arena allocate block refl e)))
        | inr bad ↦ rw bad (inr (not_is_ok→ne s bad, refl))
      ]

  reallocate-Outcome :
      (v : Vector A) (old : List A) (wide : ℕ)
      → Supplies platform v
      → AlwaysCopies v.policy.kind
      → 0 < v.policy.elem_size
      → v.size ≤ length old
      → v.size ≤ wide
      → wide * v.policy.elem_size ≤ 2 ^ 63
      → Outcome
          (record v { storage = some old })
          wide
          (reallocate platform (record v { storage = some old }) wide)
  unfolding reallocate
  reallocate-Outcome v old wide supplies copies sized within h fits =
      let bytes = wide * v.policy.elem_size % size_mod in
      let whole : bytes ≡ wide * v.policy.elem_size = omega arith in
      let enough : (block : List A)
          → bytes ≤ length block * v.policy.elem_size
          → wide ≤ length block =
        λ block p. grind arith in
      let not_less : ltb wide v.size ≡ false = ground arith in
      elim (Bool-cases (platform.allow_heap && v.kind.heap)) [
        | inl heap ↦ elim (Option-cases (platform.realloc old bytes)) [
          | inl e ↦ rw (not_less, heap, e) (inr (cc, refl))
          | inr (block, e) ↦
              rw (not_less, heap, e)
                (inl (
                  refl,
                  Regrown-intro v old block v.destroyed v.freed v.kind wide sized within h
                      (enough block (supplies.again old bytes block e))
                      (λ j p. supplies.kept old bytes block j e (omega arith) (grind arith)),
                ))
        ]
        | inr moved ↦
            rw (not_less, moved)
              (reallocate_moved-Outcome v old wide bytes v.grow_alloc copies sized within h enough
                (supplies.heap bytes) (λ allocate. supplies.arena allocate bytes))
      ]

module _ {A : Type 0} ⦃inhabited : Inhabited A⦄ (platform : Platform A) (v : Vector A)
    (old : List A) (valid : IsValid v old) (supplies : Supplies platform v)
    (copies : AlwaysCopies v.policy.kind) (growable : v.growable ≡ true) where
  grow_reallocates :
      (min_capacity : ℕ)
      → min_capacity ≤ grow_capacity v.capacity min_capacity
      → grow platform v min_capacity ≡ reallocate platform v (grow_capacity v.capacity min_capacity)
  unfolding grow
  grow_reallocates min_capacity enough = ground (arith, growable)

  reserve-grow :
      (min_capacity : ℕ)
      → v.capacity < min_capacity
      → reserve platform v min_capacity ≡ grow platform v min_capacity
  unfolding reserve
  reserve-grow min_capacity more = ground (arith, growable)

  pub grow-Outcome :
      (min_capacity : ℕ)
      → v.capacity < min_capacity
      → min_capacity < size_mod
      → grow_capacity v.capacity min_capacity * v.policy.elem_size ≤ 2 ^ 63
      → Outcome v (grow_capacity v.capacity min_capacity) (grow platform v min_capacity)
  grow-Outcome min_capacity more below fits =
      let wide = grow_capacity v.capacity min_capacity in
      let bounds = grow_capacity_bounds v.capacity min_capacity (omega arith) below in
      rw (grow_reallocates min_capacity (omega (arith, bounds))) (
        subst
          (λ s.
            Outcome (record v { storage = s }) wide
              (reallocate platform (record v { storage = s }) wide))
          (sym valid.stored)
          (reallocate-Outcome platform v old wide supplies copies valid.sized
            (omega (arith, valid.backed, valid.within)) (omega (arith, valid.within, bounds)) fits))

  -- `reserve` of more than the capacity of a valid growable vector whose copies succeed, whose
  -- allocators hand out blocks as large as asked for (with the old elements, for `realloc`), and
  -- whose new capacity in bytes fits an object: either it reports `ok`, and the vector is valid,
  -- has the next capacity and the same elements in order, or it reports a failure and has changed
  -- nothing.
  pub reserve_grows :
      (min_capacity : ℕ)
      → v.capacity < min_capacity
      → min_capacity < size_mod
      → grow_capacity v.capacity min_capacity * v.policy.elem_size ≤ 2 ^ 63
      → Outcome v (grow_capacity v.capacity min_capacity) (reserve platform v min_capacity)
  reserve_grows min_capacity more below fits =
      rw (reserve-grow min_capacity more) (grow-Outcome min_capacity more below fits)

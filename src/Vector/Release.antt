-- ===== src/Vector/Release.antt =====
-- Which block the growth of the vector gives back to the heap.
use memkit.Prelude.{
  ℕ, ◌*◌, ◌%◌, ◌≤◌, ◌≡◌, refl, sym, true, false, none, some, List, ◌∷◌, arith, ◌&&◌, ltb, subst,
  Inhabited, length,
}
use memkit.Growth.{Platform, size_mod}
use memkit.Ring.Inv.{AlwaysCopies}
use memkit.Vector.{Vector, block_of, reallocate_moved, reallocate}
use memkit.Vector.Inv.{IsValid}
use memkit.Vector.Copying.{replace-Replaced}

-- One block was released: that of `v`, with what the copies left in it.
pub record Released {A : Type 0} (v : Vector A) (w : Vector A) : Type 0 where
  pub left : List A
  pub only : w.freed ≡ left ∷ v.freed
  pub shape : length left ≡ length (block_of v.storage)

module _ {A : Type 0} ⦃inhabited : Inhabited A⦄ (platform : Platform A) where
  reallocate_external :
      (v : Vector A) (old block : List A) (wide : ℕ)
      → AlwaysCopies v.policy.kind
      → v.size ≤ wide
      → wide ≤ length block
      → platform.allow_heap ≡ true
      → v.kind.heap ≡ false
      → platform.malloc (wide * v.policy.elem_size % size_mod) ≡ some block
      → Released
          (record v { storage = some old; grow_alloc = none })
          (reallocate platform (record v { storage = some old; grow_alloc = none }) wide).1
  unfolding reallocate reallocate_moved
  reallocate_external v old block wide copies h room allow external run =
      let not_less : ltb wide v.size ≡ false = ground arith in
      let not_heap : (platform.allow_heap && v.kind.heap) ≡ false = ground arith in
      let r =
        replace-Replaced (record v { grow_alloc = none }) old block wide
          (record { owns = true; arena = false; heap = true }) copies h room in
      rw (not_less, not_heap, allow, run)
        (rw r.result (record { left = r.left; only = refl; shape = r.shape }))

  -- `reallocate` of a valid vector whose storage is the caller's and that has no `grow_alloc`, to a
  -- capacity that is not below the size, on a heap that has a block as large as asked for, with
  -- copies that succeed: the caller's block is given to `std::free`.
  pub reallocate-Released :
      (v : Vector A) (old block : List A) (wide : ℕ)
      → IsValid v old
      → AlwaysCopies v.policy.kind
      → v.size ≤ wide
      → wide ≤ length block
      → platform.allow_heap ≡ true
      → v.kind.heap ≡ false
      → v.grow_alloc ≡ none
      → platform.malloc (wide * v.policy.elem_size % size_mod) ≡ some block
      → Released v (reallocate platform v wide).1
  reallocate-Released v old block wide valid copies h room allow external no_arena run =
      subst
        (λ g.
          Released (record v { grow_alloc = g })
            (reallocate platform (record v { grow_alloc = g }) wide).1)
        (sym no_arena)
        (subst
          (λ s.
            Released (record v { storage = s; grow_alloc = none })
              (reallocate platform (record v { storage = s; grow_alloc = none }) wide).1)
          (sym valid.stored)
          (reallocate_external v old block wide copies h room allow external run))

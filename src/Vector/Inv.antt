-- ===== src/Vector/Inv.antt =====
-- The representation invariant of the vector, and its elements.
use memkit.Prelude.{◌≤◌, ◌<◌, ◌≡◌, some, List, Inhabited, length, take}
use memkit.Vector.{Vector, block_of}

-- The storage is the block `old`, large enough for the capacity.
pub record IsValid {A : Type 0} (v : Vector A) (old : List A) : Type 0 where
  pub stored : v.storage ≡ some old
  pub sized : 0 < v.policy.elem_size
  pub backed : v.capacity ≤ length old
  pub within : v.size ≤ v.capacity

module _ {A : Type 0} ⦃inhabited : Inhabited A⦄ where
  abbrev pub contents : Vector A → List A
  contents v = take v.size (block_of v.storage)

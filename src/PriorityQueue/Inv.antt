-- ===== src/PriorityQueue/Inv.antt =====
-- The invariant of the priority queue.
use mathlib.Core.List.{Perm}
use memkit.Prelude.{◌≤◌, ◌≡◌, refl, Inhabited, length}
use memkit.Status.{Status}
use memkit.PriorityQueue.{PriorityQueue}
use memkit.PriorityQueue.Swap.{IsStrict, IsSwappable, elements}
use memkit.PriorityQueue.Sift.{IsHeap, Sifted}

-- The order of the heap, in a queue whose elements can be copied and compared.
pub record IsValid {A : Type 0} ⦃inhabited : Inhabited A⦄ (q : PriorityQueue A) : Type 0 where
  pub strict : IsStrict q.less
  pub swappable : IsSwappable q
  pub within : q.size ≤ q.capacity
  pub backed : q.capacity ≤ length q.storage
  pub heap : IsHeap q.less q.storage q.size

module _ {A : Type 0} ⦃inhabited : Inhabited A⦄ where
  -- A sifted queue is valid if the one it came from was but for its order.
  pub Sifted-IsValid :
      (q : PriorityQueue A) (out : Status × PriorityQueue A)
      → IsStrict q.less
      → IsSwappable q
      → q.size ≤ q.capacity
      → q.capacity ≤ length q.storage
      → Sifted q out
      → (out.0 ≡ Status.ok)
        × IsValid out.1
        × (out.1.capacity ≡ q.capacity)
        × Perm (elements out.1) (elements q)
  Sifted-IsValid q out strict ok within backed r = rw r.result (
    refl,
    record {
      strict = strict;
      swappable = record { copies = ok.copies; small = ok.small };
      within = within;
      backed = rw r.room backed;
      heap = r.heap;
    },
    refl,
    r.perm,
  )

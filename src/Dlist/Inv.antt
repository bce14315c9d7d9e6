-- ===== src/Dlist/Inv.antt =====
-- The representation invariant of the doubly linked list.
use memkit.Prelude.{ℕ, ◌+◌, ◌<◌, ◌≡◌, ◌≢◌, List, true, length}
use memkit.Chain.{Ptr, null, ptr_at, values}
use memkit.Chain.Forward.{AreNodes, IsNew, Forward}
use memkit.Dlist.{Dlist, Malloc}
use memkit.Dlist.Links.{Linked}

-- The nodes `xs` hold the elements, and the nodes `fs` are free; in a pool there are no others.
pub record IsValid {A : Type 0} (d : Dlist A) (xs fs : List Ptr) : Type 0 where
  pub linked : Linked d xs
  pub size : d.size ≡ length xs
  pub free_nodes : AreNodes fs
  pub free : Forward d.next d.free_list fs
  pub apart : (i j : ℕ) → i < length xs → j < length fs → ptr_at xs i ≢ ptr_at fs j
  pub pool : d.fixed_pool ≡ true → length xs + length fs ≡ d.node_capacity

abbrev pub contents : {A : Type 0} → Dlist A → List Ptr → List A
contents d xs = values d.node_data xs

-- The elements of the list are `q`.
pub record Holds {A : Type 0} (d : Dlist A) (q : List A) : Type 0 where
  pub nodes : List Ptr
  pub spare : List Ptr
  pub valid : IsValid d nodes spare
  pub elements : contents d nodes ≡ q

-- `std::malloc` returns null, or an address of no node of the list.
abbrev pub IsFresh : Malloc → List Ptr → List Ptr → Type 0
IsFresh m xs fs = m.fresh ≢ null → IsNew m.fresh xs × IsNew m.fresh fs

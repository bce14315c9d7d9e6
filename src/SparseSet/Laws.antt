-- ===== src/SparseSet/Laws.antt =====
-- The operations of the sparse set, against the set of its ids.
use memkit.Prelude.{nat_inhabited}
use memkit.Status.{Status}
use memkit.SparseSet.{SparseSet}

-- ===== src/SparseSet.antt =====
-- include/memkit/detail/sparse_set_core.hpp: a set of ids below a bound, as a dense array of the
-- members and a sparse array of their positions. Neither array is initialised.
pub mod Inv
pub mod Count
pub mod Laws
use memkit.Prelude.{
  ℕ, ◌+◌, ◌-◌, Bool, true, false, Option, none, some, List, [], ltb, leb, ◌==◌, ◌&&◌, if◌then◌else◌,
  get!, set, nat_inhabited, not, ◌*◌,
}
use memkit.Status.{Status}

pub record SparseSet : Type 0 where
  pub dense : List ℕ
  pub sparse : List ℕ
  pub max_id : ℕ
  pub size : ℕ

-- `sizeof(std::size_t)` bytes to an entry, in each array.
pub dense_bytes : ℕ → ℕ
dense_bytes max_id = max_id * 8

pub sparse_bytes : ℕ → ℕ
sparse_bytes max_id = max_id * 8

-- A null pointer is `none`.
pub init : SparseSet → Option (List ℕ) → Option (List ℕ) → ℕ → Status × SparseSet
init s none sparse max_id = (Status.invalid, s)
init s (some d) none max_id = (Status.invalid, s)
init s (some d) (some sp) max_id =
    if max_id == 0
    then (Status.invalid, s)
    else (Status.ok, record { dense = d; sparse = sp; max_id = max_id; size = 0 })

pub reset_state : SparseSet → SparseSet
reset_state s = record { dense = []; sparse = []; max_id = 0; size = 0 }

pub contains : SparseSet → ℕ → Bool
contains s id =
    if leb s.max_id id
    then false
    else (let pos = get! s.sparse id in ltb pos s.size && (get! s.dense pos == id))

pub insert : SparseSet → ℕ → Status × SparseSet
insert s id =
    if leb s.max_id id then (Status.invalid, s) else if contains s id then (Status.ok, s) else (
      Status.ok,
      record s {
        dense = set s.dense s.size id;
        sparse = set s.sparse id s.size;
        size = s.size + 1;
      },
    )

pub remove : SparseSet → ℕ → Status × SparseSet
remove s id =
    let pos = get! s.sparse id in
    let last_id = get! s.dense (s.size - 1) in
    if not (contains s id) then (Status.not_found, s) else (
      Status.ok,
      record s {
        dense = set s.dense pos last_id;
        sparse = set (set s.sparse last_id pos) id 0;
        size = s.size - 1;
      },
    )

pub at : SparseSet → ℕ → ℕ
at s index = get! s.dense index

pub clear : SparseSet → SparseSet
clear s = record s { size = 0 }

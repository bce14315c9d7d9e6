-- ===== src/HashMap.antt =====
-- include/memkit/detail/hashmap_map_core.hpp: a hash map with chained buckets or with open addressing.
pub mod Chaining
pub mod Open
pub mod Ops
use memkit.Prelude.{
  ℕ, zero, suc, ◌+◌, ◌*◌, ◌/◌, ◌%◌, Bool, true, false, List, [], ltb, leb, ◌==◌, if◌then◌else◌,
  replicate, Inhabited,
}
use memkit.Status.{Status}
use memkit.Element.{Kind}
use memkit.Growth.{size_mod, size_max}
use memkit.Ring.{StorageKind, external}

pub data SlotState : Type 0 where
  empty : SlotState
  deleted : SlotState
  occupied : SlotState

-- A slot of the open table: its byte of state, its key and its value.
pub record Slot {ℓ} (K : Type ℓ) (V : Type ℓ) : Type ℓ where
  pub state : SlotState
  pub key : K
  pub value : V

-- `is_open` is `strategy_ == open_addressing`, `in_arena` is `arena_alloc_fn_ != nullptr`. A chain is
-- the list of the keys and values of its nodes, which no other chain shares. `destroyed_keys` and
-- `destroyed_values` are the traces of what was destroyed.
pub record HashMap {ℓ} (K : Type ℓ) (V : Type ℓ) : Type ℓ where
  pub is_open : Bool
  pub bucket_count : ℕ
  pub size : ℕ
  pub buckets : List (List (K × V))
  pub slots : List (Slot K V)
  pub key_kind : Kind K
  pub value_kind : Kind V
  pub hash : K → ℕ
  pub equal : K → K → Bool
  pub growable : Bool
  pub in_arena : Bool
  pub kind : StorageKind
  pub destroyed_keys : List K
  pub destroyed_values : List V

-- What `alloc_raw` returns in a call: for a new table, and for a new node.
pub record Blocks : Type 0 where
  pub table : Status
  pub node : Status

abbrev pub default_buckets : ℕ
default_buckets = 8

-- The three states of a slot.
abbrev pub by_state {ℓ} : {B : Type ℓ} → SlotState → B → B → B → B
by_state SlotState.empty e d o = e
by_state SlotState.deleted e d o = d
by_state SlotState.occupied e d o = o

module _ {ℓ} {K : Type ℓ} {V : Type ℓ} where
  pub should_grow : HashMap K V → Bool
  should_grow m =
      if m.growable
      then leb (m.bucket_count * 3 % size_mod) ((m.size + 1) % size_mod * 4 % size_mod)
      else false

  -- The kind of a table that a rehash has allocated.
  abbrev pub new_kind : HashMap K V → StorageKind
  new_kind m =
      if m.in_arena
      then record { owns = true; arena = true; heap = false }
      else record { owns = true; arena = false; heap = true }

pub grow_bucket_count : ℕ → ℕ
grow_bucket_count current =
    if current == 0
    then default_buckets
    else if ltb (size_max / 2) current
    then current
    else current * 2

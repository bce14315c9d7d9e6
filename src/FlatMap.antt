-- ===== src/FlatMap.antt =====
-- include/memkit/detail/flat_map_core.hpp: a map as an array of entries sorted by key. The keys and
-- the values of the entries are two lists, each read at the index of the entry.
pub mod Search
pub mod Order
use memkit.Prelude.{
  ℕ, zero, suc, ◌+◌, ◌-◌, ◌/◌, Bool, true, false, Option, none, some, List, [], ltb, leb, ◌==◌,
  ◌&&◌, if◌then◌else◌, Inhabited, get!, set,
}
use memkit.Status.{Status, is_ok}
use memkit.Element.{Kind, copy_construct, move_construct, destroy}

-- The sign of the `int` that a comparison returns.
pub data Sign : Type 0 where
  negative : Sign
  equal : Sign
  positive : Sign

pub record FlatMap {ℓ} (K : Type ℓ) (V : Type ℓ) : Type ℓ where
  pub key_kind : Kind K
  pub value_kind : Kind V
  pub compare : K → K → Sign
  pub keys : List K
  pub values : List V
  pub capacity : ℕ
  pub size : ℕ
  pub destroyed_keys : List K
  pub destroyed_values : List V

-- The three branches of a comparison.
abbrev pub by_sign {ℓ} : {B : Type ℓ} → Sign → B → B → B → B
by_sign Sign.negative n e p = n
by_sign Sign.equal n e p = e
by_sign Sign.positive n e p = p

module _ {ℓ} {K : Type ℓ} {V : Type ℓ} ⦃key_inhabited : Inhabited K⦄
    ⦃value_inhabited : Inhabited V⦄ where
  pub init :
      FlatMap K V
      → Kind K
      → Kind V
      → (K → K → Sign)
      → Option (List K × List V)
      → ℕ
      → Status × FlatMap K V
  init m key_kind value_kind compare none capacity = (Status.invalid, m)
  init m key_kind value_kind compare (some (keys, values)) capacity =
      if capacity == 0 then (Status.invalid, m) else (
        Status.ok,
        record m {
          key_kind = key_kind;
          value_kind = value_kind;
          compare = compare;
          keys = keys;
          values = values;
          capacity = capacity;
          size = 0;
        },
      )

  -- The default policies and comparison are the caller's.
  pub reset_state : FlatMap K V → Kind K → Kind V → (K → K → Sign) → FlatMap K V
  reset_state m key_kind value_kind compare = record m {
    key_kind = key_kind;
    value_kind = value_kind;
    compare = compare;
    keys = [];
    values = [];
    capacity = 0;
    size = 0;
  }

  pub is_full : FlatMap K V → Bool
  is_full m = leb m.capacity m.size

  pub destroy_entry_at : FlatMap K V → ℕ → FlatMap K V
  destroy_entry_at m i = record m {
    destroyed_keys = destroy m.key_kind (get! m.keys i) m.destroyed_keys;
    destroyed_values = destroy m.value_kind (get! m.values i) m.destroyed_values;
  }

  -- The loop of `clear`: `n` rounds from `i` on.
  clear_loop : ℕ → ℕ → FlatMap K V → FlatMap K V
  unfolding destroy_entry_at
  clear_loop zero i m = m
  clear_loop (suc n) i m = clear_loop n (i + 1) (destroy_entry_at m i)

  pub clear : FlatMap K V → FlatMap K V
  unfolding clear_loop
  clear m = record (clear_loop m.size 0 m) { size = 0 }

  -- The loop of `find_index`, on fuel.
  search_loop : FlatMap K V → K → ℕ → ℕ → ℕ → Status × ℕ
  search_loop m key zero lo hi = (Status.not_found, lo)
  search_loop m key (suc fuel) lo hi =
      let mid = lo + (hi - lo) / 2 in
      let upper = search_loop m key fuel (mid + 1) hi in
      let lower = search_loop m key fuel lo mid in
      if ltb lo hi
      then by_sign (m.compare (get! m.keys mid) key) upper (Status.ok, mid) lower
      else (Status.not_found, lo)

  -- A null key leaves the caller's index, which is 0.
  pub find_index : FlatMap K V → Option K → Status × ℕ
  unfolding search_loop
  find_index m none = (Status.null_ptr, 0)
  find_index m (some key) = search_loop m key m.size 0 m.size

  -- `get`, whose caller's value is `out`.
  pub get : FlatMap K V → Option K → V → Status × V
  unfolding find_index
  get m key out =
      let (found, i) = find_index m key in
      if is_ok found
      then (Status.ok, (copy_construct m.value_kind out (get! m.values i)).1)
      else (Status.not_found, out)

  move_entry : ℕ → ℕ → FlatMap K V → FlatMap K V
  move_entry from to m =
      let (key, key_left) = move_construct m.key_kind (get! m.keys to) (get! m.keys from) in
      let (value, value_left) =
        move_construct m.value_kind (get! m.values to) (get! m.values from) in
      record m {
        keys = set (set m.keys to key) from key_left;
        values = set (set m.values to value) from value_left;
        destroyed_keys = destroy m.key_kind key_left m.destroyed_keys;
        destroyed_values = destroy m.value_kind value_left m.destroyed_values;
      }

  -- The loop of `shift_right_from`: `n` rounds from `i` down.
  shift_right : ℕ → ℕ → FlatMap K V → FlatMap K V
  unfolding move_entry
  shift_right zero i m = m
  shift_right (suc n) i m = shift_right n (i - 1) (move_entry (i - 1) i m)

  -- The loop of `shift_left_from`: `n` rounds from `i` on.
  shift_left : ℕ → ℕ → FlatMap K V → FlatMap K V
  unfolding move_entry
  shift_left zero i m = m
  shift_left (suc n) i m = shift_left n (i + 1) (move_entry i (i - 1) m)

  -- The entry that `put` overwrites.
  replace_value : FlatMap K V → ℕ → V → FlatMap K V
  replace_value m i value =
      let old = get! m.values i in
      record m {
        values = set m.values i (copy_construct m.value_kind old value).1;
        destroyed_values = destroy m.value_kind old m.destroyed_values;
      }

  -- The end of `put`, once there is room.
  insert_entry : FlatMap K V → ℕ → K → V → FlatMap K V
  unfolding shift_right
  insert_entry m i key value =
      let m' = shift_right (m.size - i) m.size m in
      record m' {
        keys = set m'.keys i (copy_construct m.key_kind (get! m'.keys i) key).1;
        values = set m'.values i (copy_construct m.value_kind (get! m'.values i) value).1;
        size = m.size + 1;
      }

  pub put : FlatMap K V → Option K → Option V → Status × FlatMap K V
  unfolding find_index replace_value insert_entry is_full
  put m none value = (Status.null_ptr, m)
  put m (some key) none = (Status.null_ptr, m)
  put m (some key) (some value) =
      let (found, i) = find_index m (some key) in
      if is_ok found
      then (Status.ok, replace_value m i value)
      else if is_full m
      then (Status.full, m)
      else (Status.ok, insert_entry m i key value)

  -- What `remove` puts through its out-pointer.
  removed_value : FlatMap K V → ℕ → Option V → Option V
  removed_value m i none = none
  removed_value m i (some old) = some (copy_construct m.value_kind old (get! m.values i)).1

  pub remove : FlatMap K V → Option K → Option V → Status × Option V × FlatMap K V
  unfolding find_index removed_value shift_left destroy_entry_at
  remove m key out =
      let (found, i) = find_index m key in
      let m' = shift_left (m.size - (i + 1)) (i + 1) (destroy_entry_at m i) in
      if is_ok found
      then (Status.ok, removed_value m i out, record m' { size = m.size - 1 })
      else (Status.not_found, out, m)

  pub contains : FlatMap K V → Option K → Bool
  unfolding find_index
  contains m key = is_ok (find_index m key).0

-- ===== src/HashMap/Ops.antt =====
-- The map over both strategies: initialisation, growth and the operations.
pub mod Chained
pub mod Fresh
use memkit.Prelude.{
  ℕ, zero, suc, ◌+◌, Bool, true, false, Option, none, some, List, [], ◌∷◌, not, ◌==◌, ◌||◌,
  if◌then◌else◌, get!, set, replicate, Inhabited,
}
use memkit.Status.{Status, is_ok}
use memkit.Element.{Kind}
use memkit.Ring.{StorageKind, external}
use memkit.HashMap.{
  HashMap, Slot, SlotState, Blocks, default_buckets, by_state, should_grow, grow_bucket_count,
}
use memkit.HashMap.Open.{open_put, open_get, open_remove, open_contains, open_clear, open_rehash}
use memkit.HashMap.Chaining.{
  chain_put, chain_get, chain_remove, chain_contains, chain_clear, chain_rehash,
}

-- The policies that an initialisation is given.
pub record Policies {ℓ} (K : Type ℓ) (V : Type ℓ) : Type ℓ where
  pub key_kind : Kind K
  pub value_kind : Kind V
  pub hash : K → ℕ
  pub equal : K → K → Bool
  pub growable : Bool

module _ {ℓ} {K : Type ℓ} {V : Type ℓ} where
  abbrev with_policies : Policies K V → HashMap K V → HashMap K V
  with_policies p m = record m {
    key_kind = p.key_kind;
    value_kind = p.value_kind;
    hash = p.hash;
    equal = p.equal;
    growable = p.growable;
  }

  -- `default_policies` are those of default-constructed policy objects.
  pub reset_state : HashMap K V → Policies K V → HashMap K V
  reset_state m default_policies = with_policies default_policies (record m {
    is_open = false;
    bucket_count = 0;
    size = 0;
    buckets = [];
    slots = [];
    in_arena = false;
    kind = external;
  })

  null_loop : ℕ → ℕ → List (List (K × V)) → List (List (K × V))
  null_loop zero i buckets = buckets
  null_loop (suc rounds) i buckets = null_loop rounds (i + 1) (set buckets i [])

  -- `none` is a null pointer.
  pub init_chaining :
      HashMap K V → Option (List (List (K × V))) → ℕ → Policies K V → Status × HashMap K V
  unfolding reset_state null_loop
  init_chaining m none bucket_count p = (Status.invalid, m)
  init_chaining m (some buckets) bucket_count p =
      if bucket_count == 0 then (Status.invalid, m) else (
        Status.ok,
        with_policies p (record (reset_state m p) {
          buckets = null_loop bucket_count 0 buckets;
          bucket_count = bucket_count;
        }),
      )

module _ {ℓ} {K : Type ℓ} {V : Type ℓ} ⦃slot_inhabited : Inhabited (Slot K V)⦄
    ⦃chain_inhabited : Inhabited (List (K × V))⦄ ⦃node_inhabited : Inhabited (K × V)⦄ where
  empty_loop : ℕ → ℕ → List (Slot K V) → List (Slot K V)
  empty_loop zero i slots = slots
  empty_loop (suc rounds) i slots =
      empty_loop rounds (i + 1) (set slots i (record (get! slots i) { state = SlotState.empty }))

  pub init_open :
      HashMap K V → Option (List (Slot K V)) → ℕ → ℕ → Policies K V → Status × HashMap K V
  unfolding reset_state empty_loop
  init_open m none bucket_count slot_stride p = (Status.invalid, m)
  init_open m (some slots) bucket_count slot_stride p =
      if bucket_count == 0 || slot_stride == 0 then (Status.invalid, m) else (
        Status.ok,
        with_policies p (record (reset_state m p) {
          is_open = true;
          slots = empty_loop bucket_count 0 slots;
          bucket_count = bucket_count;
        }),
      )

  pub init_from_arena : Blocks → HashMap K V → ℕ → Bool → Policies K V → Status × HashMap K V
  unfolding reset_state
  init_from_arena b m initial_buckets is_open p =
      let count = if initial_buckets == 0 then default_buckets else initial_buckets in
      let bare =
        with_policies p (record (reset_state m p) { is_open = is_open; in_arena = true }) in
      let kind : StorageKind = record { owns = true; arena = true; heap = false } in
      if not (is_ok b.table)
      then (b.table, record bare { in_arena = false })
      else if is_open
      then (
        Status.ok,
        record bare {
          slots = replicate count (record slot_inhabited.default { state = SlotState.empty });
          bucket_count = count;
          kind = kind;
        },
      )
      else (
        Status.ok,
        record bare { buckets = replicate count []; bucket_count = count; kind = kind },
      )

  pub maybe_grow : Blocks → HashMap K V → Status × HashMap K V
  maybe_grow b m =
      let new_count = grow_bucket_count m.bucket_count in
      if new_count == m.bucket_count
      then (Status.full, m)
      else if m.is_open
      then open_rehash b slot_inhabited.default m new_count
      else chain_rehash b m new_count

  -- The call after the growth.
  abbrev put_entry : Blocks → HashMap K V → K → V → Status × HashMap K V
  put_entry b m key value = if m.is_open then open_put m key value else chain_put b m key value

  pub put : Blocks → HashMap K V → Option K → Option V → Status × HashMap K V
  unfolding maybe_grow
  put b m none value = (Status.null_ptr, m)
  put b m (some key) none = (Status.null_ptr, m)
  put b m (some key) (some value) =
      let (grow_st, grown) = if should_grow m then maybe_grow b m else (Status.ok, m) in
      if m.bucket_count == 0
      then (Status.null_ptr, m)
      else if is_ok grow_st
      then put_entry b grown key value
      else (grow_st, grown)

  pub get : HashMap K V → Option K → Option V → Status × Option V
  get m none out = (Status.null_ptr, out)
  get m (some key) none = (Status.null_ptr, none)
  get m (some key) (some out) =
      let (st, value) = if m.is_open then open_get m key out else chain_get m key out in
      (st, some value)

  pub remove : HashMap K V → Option K → Status × HashMap K V
  remove m none = (Status.null_ptr, m)
  remove m (some key) = if m.is_open then open_remove m key else chain_remove m key

  pub contains : HashMap K V → Option K → Bool
  contains m none = false
  contains m (some key) = if m.is_open then open_contains m key else chain_contains m key

  pub clear : HashMap K V → HashMap K V
  clear m =
      if m.bucket_count == 0
      then record m { size = 0 }
      else record (if m.is_open then open_clear m else chain_clear m) { size = 0 }

  -- The storage goes back to the heap when the map owns it.
  pub release_storage : HashMap K V → HashMap K V
  release_storage m = record m {
    buckets = [];
    slots = [];
    bucket_count = 0;
    kind = external;
    in_arena = false;
  }

  -- The loops of `foreach`: `visit` takes the caller's state, a key and a value.
  visit_chain {κ} : {S : Type κ} → (S → K → V → Status × S) → List (K × V) → S → Status × S
  visit_chain visit [] s = (Status.ok, s)
  visit_chain visit (node ∷ chain) s =
      let (st, s') = visit s node.0 node.1 in
      let rest = visit_chain visit chain s' in if is_ok st then rest else (st, s')

  visit_chains {κ} : {S : Type κ} → (S → K → V → Status × S) → ℕ → ℕ → HashMap K V → S → Status × S
  unfolding visit_chain
  visit_chains visit zero i m s = (Status.ok, s)
  visit_chains visit (suc rounds) i m s =
      let (st, s') = visit_chain visit (get! m.buckets i) s in
      let rest = visit_chains visit rounds (i + 1) m s' in if is_ok st then rest else (st, s')

  visit_slots {κ} : {S : Type κ} → (S → K → V → Status × S) → ℕ → ℕ → HashMap K V → S → Status × S
  visit_slots visit zero i m s = (Status.ok, s)
  visit_slots visit (suc rounds) i m s =
      let slot = get! m.slots i in
      let (st, s') =
        by_state slot.state (Status.ok, s) (Status.ok, s) (visit s slot.key slot.value) in
      let rest = visit_slots visit rounds (i + 1) m s' in if is_ok st then rest else (st, s')

  pub foreach {κ} : {S : Type κ} → (S → K → V → Status × S) → HashMap K V → S → Status × S
  unfolding visit_chains visit_slots
  foreach visit m s =
      if m.is_open
      then visit_slots visit m.bucket_count 0 m s
      else visit_chains visit m.bucket_count 0 m s

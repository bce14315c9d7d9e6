-- ===== src/HashMap/Open.antt =====
-- Open addressing: the probe and the operations on slots.
pub mod Places
pub mod Probes
pub mod Ahead
pub mod RoundTrip
pub mod Found
pub mod Full
use memkit.Prelude.{
  ℕ, zero, suc, ◌+◌, ◌-◌, ◌%◌, Bool, true, false, Option, none, some, List, [], ◌∷◌, ◌&&◌, not,
  ◌==◌, if◌then◌else◌, get!, set, replicate, Inhabited,
}
use memkit.Status.{Status, is_ok}
use memkit.Element.{Kind, copy_construct, destroy}
use memkit.Growth.{size_mod, size_max}
use memkit.HashMap.{HashMap, Slot, SlotState, Blocks, by_state, new_kind}

abbrev pub is_occupied : SlotState → Bool
is_occupied s = by_state s false false true

-- `for_insert && first_deleted != SIZE_MAX ? first_deleted : index`, where `none` is `SIZE_MAX`.
abbrev pub place : Bool → Option ℕ → ℕ → ℕ
place for_insert none index = index
place for_insert (some first) index = if for_insert then first else index

abbrev pub note_deleted : Bool → Option ℕ → ℕ → Option ℕ
note_deleted for_insert none index = if for_insert then some index else none
note_deleted for_insert (some first) index = some first

module _ {ℓ} {K : Type ℓ} {V : Type ℓ} ⦃slot_inhabited : Inhabited (Slot K V)⦄ where
  -- The loop of `open_probe` for the rounds that are left.
  pub probe_loop : HashMap K V → K → Bool → ℕ → ℕ → Option ℕ → SlotState × ℕ
  probe_loop m key for_insert zero index first_deleted =
      (SlotState.occupied, place for_insert first_deleted index)
  probe_loop m key for_insert (suc rounds) index first_deleted =
      let slot = get! m.slots index in
      let noted =
        by_state slot.state first_deleted (note_deleted for_insert first_deleted index)
          first_deleted in
      let rest = probe_loop m key for_insert rounds ((index + 1) % m.bucket_count) noted in
      by_state slot.state (SlotState.empty, place for_insert first_deleted index) rest
        (if m.equal slot.key key then (SlotState.occupied, index) else rest)

  pub open_probe : HashMap K V → K → Bool → SlotState × ℕ
  unfolding probe_loop
  open_probe m key for_insert =
      probe_loop m key for_insert m.bucket_count (m.hash key % m.bucket_count) none

  -- A new entry in the slot at `index`.
  pub fill_slot : HashMap K V → ℕ → K → V → Status × HashMap K V
  fill_slot m index key value =
      let slot = get! m.slots index in
      let (key_st, key') = copy_construct m.key_kind slot.key key in
      let (value_st, value') = copy_construct m.value_kind slot.value value in
      if not (is_ok key_st)
      then (key_st, record m { slots = set m.slots index (record slot { key = key' }) })
      else if not (is_ok value_st)
      then (
        value_st,
        record m {
          slots =
              set m.slots index (record { state = SlotState.empty; key = key'; value = value' });
          destroyed_keys = destroy m.key_kind key' m.destroyed_keys;
        },
      )
      else (
        Status.ok,
        record m {
          slots =
              set m.slots index (record { state = SlotState.occupied; key = key'; value = value' });
          size = (m.size + 1) % size_mod;
        },
      )

  -- `value_policy_.copy_assign` into the slot at `index`.
  pub assign_slot : HashMap K V → ℕ → V → HashMap K V
  assign_slot m index value =
      let slot = get! m.slots index in
      record m {
        slots =
            set m.slots index
              (record slot { value = (copy_construct m.value_kind slot.value value).1 });
      }

  pub open_put : HashMap K V → K → V → Status × HashMap K V
  unfolding open_probe fill_slot assign_slot
  open_put m key value =
      let (state, index) = open_probe m key true in
      if is_occupied state
      then (if m.equal (get! m.slots index).key key
          then (Status.ok, assign_slot m index value)
          else (Status.full, m))
      else fill_slot m index key value

  pub open_get : HashMap K V → K → V → Status × V
  unfolding open_probe
  open_get m key out =
      let (state, index) = open_probe m key false in
      if is_occupied state
      then (Status.ok, (copy_construct m.value_kind out (get! m.slots index).value).1)
      else (Status.not_found, out)

  pub open_remove : HashMap K V → K → Status × HashMap K V
  unfolding open_probe
  open_remove m key =
      let (state, index) = open_probe m key false in
      let slot = get! m.slots index in
      if is_occupied state
      then (
        Status.ok,
        record m {
          slots = set m.slots index (record slot { state = SlotState.deleted });
          size = (m.size + size_max) % size_mod;
          destroyed_keys = destroy m.key_kind slot.key m.destroyed_keys;
          destroyed_values = destroy m.value_kind slot.value m.destroyed_values;
        },
      )
      else (Status.not_found, m)

  pub open_contains : HashMap K V → K → Bool
  unfolding open_probe
  open_contains m key = is_occupied (open_probe m key false).0

  -- The loops of `open_clear` and of `open_rehash` for the slots that are left.
  open_clear_loop : ℕ → ℕ → HashMap K V → HashMap K V
  open_clear_loop zero i m = m
  open_clear_loop (suc rounds) i m =
      let slot = get! m.slots i in
      open_clear_loop rounds (i + 1) (record m {
        slots = set m.slots i (record slot { state = SlotState.empty });
        destroyed_keys =
            if is_occupied slot.state
            then destroy m.key_kind slot.key m.destroyed_keys
            else m.destroyed_keys;
        destroyed_values =
            if is_occupied slot.state
            then destroy m.value_kind slot.value m.destroyed_values
            else m.destroyed_values;
      })

  pub open_clear : HashMap K V → HashMap K V
  unfolding open_clear_loop
  open_clear m = open_clear_loop m.bucket_count 0 m

  refill_loop : List (Slot K V) → ℕ → ℕ → HashMap K V → Status × HashMap K V
  unfolding open_put
  refill_loop old zero i m = (Status.ok, m)
  refill_loop old (suc rounds) i m =
      let slot = get! old i in
      let (st, m') =
        if is_occupied slot.state then open_put m slot.key slot.value else (Status.ok, m) in
      let rest = refill_loop old rounds (i + 1) m' in if is_ok st then rest else (st, m')

  -- The new slots are zeroed memory, whose elements the model takes from `blank`.
  pub open_rehash : Blocks → Slot K V → HashMap K V → ℕ → Status × HashMap K V
  unfolding refill_loop
  open_rehash b blank m new_bucket_count =
      let bare = record m {
        slots = replicate new_bucket_count (record blank { state = SlotState.empty });
        bucket_count = new_bucket_count;
        size = 0;
      } in
      let (st, m') = refill_loop m.slots m.bucket_count 0 bare in
      if not (is_ok b.table)
      then (b.table, m)
      else if is_ok st
      then (Status.ok, record m' { kind = new_kind m })
      else (st, record m' { slots = m.slots; bucket_count = m.bucket_count; size = m.size })

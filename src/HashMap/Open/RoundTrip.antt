-- ===== src/HashMap/Open/RoundTrip.antt =====
-- A key is found where it was put.
use native.Mathlib.Nat.{mod-lt}
use memkit.Prelude.{
  ℕ, ◌+◌, ◌%◌, ◌<◌, ◌≡◌, ◌≢◌, refl, ap, ◌∙◌, true, false, none, inl, inr, get!, set, Inhabited,
}
use memkit.Status.{Status}
use memkit.Element.{copy_construct}
use memkit.Ring.Inv.{AlwaysCopies}
use memkit.Growth.{size_mod}
use memkit.HashMap.{HashMap, Slot, SlotState}
use memkit.HashMap.Open.{open_probe, fill_slot, assign_slot, open_put, open_get}
use memkit.HashMap.Open.Probes.{state_cases}
use memkit.HashMap.Open.Ahead.{EmptyAhead, table-EmptyAhead}
use memkit.HashMap.Open.Places.{IsTable, place_free, found_there}
use memkit.HashMap.Open.Found.{slot_new, filled_found, assigned_found}

module _ {K V : Type 0} ⦃slot_inhabited : Inhabited (Slot K V)⦄ (m : HashMap K V) (t : IsTable m)
    (key : K) (value : V) (keys : AlwaysCopies m.key_kind)
    (values : AlwaysCopies m.value_kind) where
  abbrev filled : ℕ → HashMap K V
  filled p = record m {
    slots = set m.slots p (record { state = SlotState.occupied; key = key; value = value });
    size = (m.size + 1) % size_mod;
  }

  fill_slot-filled : (p : ℕ) → fill_slot m p key value ≡ (Status.ok, filled p)
  unfolding fill_slot
  fill_slot-filled p = rw (keys (get! m.slots p).key key, values (get! m.slots p).value value) refl

  abbrev assigned : ℕ → HashMap K V
  assigned p = record m { slots = set m.slots p (record (get! m.slots p) { value = value }) }

  assign_slot-assigned : (p : ℕ) → assign_slot m p value ≡ assigned p
  unfolding assign_slot
  assign_slot-assigned p = rw (values (get! m.slots p).value value) refl

  put_free :
      (st : SlotState) (p : ℕ)
      → st ≢ SlotState.occupied
      → open_probe m key true ≡ (st, p)
      → open_put m key value ≡ (Status.ok, filled p)
  unfolding open_put
  put_free SlotState.empty p free run = rw (run, fill_slot-filled p) refl
  put_free SlotState.deleted p free run = rw (run, fill_slot-filled p) refl
  put_free SlotState.occupied p free run = absurd (free refl)

  put_over :
      (p : ℕ)
      → m.equal (get! m.slots p).key key ≡ true
      → open_probe m key true ≡ (SlotState.occupied, p)
      → open_put m key value ≡ (Status.ok, assigned p)
  unfolding open_put
  put_over p hit run = rw (run, hit, assign_slot-assigned p) refl

  get_found :
      (m' : HashMap K V) (p : ℕ) (w : Slot K V) (out : V)
      → m'.value_kind ≡ m.value_kind
      → get! m'.slots p ≡ w
      → w.value ≡ value
      → open_probe m' key false ≡ (SlotState.occupied, p)
      → open_get m' key out ≡ (Status.ok, value)
  unfolding open_get
  get_found m' p w out kind at holds run = rw run (
      ap (λ v. (Status.ok, v))
        (ap (λ k. (copy_construct k out (get! m'.slots p).value).1) kind
          ∙ ap (λ r. r.1) (values out (get! m'.slots p).value)
          ∙ ap (λ s. s.value) at
          ∙ holds))

  put_get_free :
      (st : SlotState) (p : ℕ) (out : V)
      → m.equal key key ≡ true
      → st ≢ SlotState.occupied
      → open_probe m key true ≡ (st, p)
      → ((open_put m key value).0 ≡ Status.ok)
        × (open_get (open_put m key value).1 key out ≡ (Status.ok, value))
  unfolding open_probe
  put_get_free st p out self free run =
      let start = mod-lt (m.hash key) t.some_slots in
      let (p_in, p_free) = place_free m t key m.bucket_count _ p st start free run in
      let new : Slot K V = record { state = SlotState.occupied; key = key; value = value } in
      rw (put_free st p free run) (
        refl,
        get_found (filled p) p new out refl
            (slot_new m t key (filled p) p new refl refl refl p_in refl self) refl
            (filled_found m t key (filled p) p new refl refl refl p_in refl self m.bucket_count _ st
              start free run),
      )

  put_get_over :
      (p : ℕ) (out : V)
      → EmptyAhead m m.bucket_count (m.hash key % m.bucket_count)
      → open_probe m key true ≡ (SlotState.occupied, p)
      → ((open_put m key value).0 ≡ Status.ok)
        × (open_get (open_put m key value).1 key out ≡ (Status.ok, value))
  unfolding open_probe
  put_get_over p out ahead run =
      let start = mod-lt (m.hash key) t.some_slots in
      let (p_in, full, hit) = found_there m t key m.bucket_count _ p true none start ahead run in
      let new = record (get! m.slots p) { value = value } in
      rw (put_over p hit run) (
        refl,
        get_found (assigned p) p new out refl
            (slot_new m t key (assigned p) p new refl refl refl p_in full hit) refl
            (assigned_found m t key (assigned p) p new refl refl refl p_in full hit m.bucket_count _
              none start ahead full hit run),
      )

  -- In an open table with an empty slot, whose copies succeed and whose equality holds of the key and
  -- itself, `put` of a key and a value succeeds, and `get` of the key afterwards gives the value.
  pub open_put-get :
      (e : ℕ) (out : V)
      → e < m.bucket_count
      → (get! m.slots e).state ≡ SlotState.empty
      → m.equal key key ≡ true
      → ((open_put m key value).0 ≡ Status.ok)
        × (open_get (open_put m key value).1 key out ≡ (Status.ok, value))
  open_put-get e out inside is_empty self = elim (state_cases (open_probe m key true).0) [
    | inl free ↦ put_get_free _ _ out self (λ o. cc) refl
    | inr (inl free) ↦ put_get_free _ _ out self (λ o. cc) refl
    | inr (inr full) ↦
        put_get_over _ out
          (table-EmptyAhead m e inside is_empty _ (mod-lt (m.hash key) t.some_slots))
          (ap (λ s. (s, (open_probe m key true).1)) full)
  ]

-- ===== src/HashMap/Open/Probes.antt =====
-- One round of the probe.
use memkit.Prelude.{
  ℕ, suc, ◌+◌, ◌%◌, ◌≡◌, ◌⊎◌, refl, Bool, true, false, Option, inl, inr, get!, Inhabited,
}
use memkit.HashMap.{HashMap, Slot, SlotState}
use memkit.HashMap.Open.{place, note_deleted, probe_loop}

pub state_cases :
    (s : SlotState) → (s ≡ SlotState.empty) ⊎ (s ≡ SlotState.deleted) ⊎ (s ≡ SlotState.occupied)
state_cases SlotState.empty = inl refl
state_cases SlotState.deleted = inr (inl refl)
state_cases SlotState.occupied = inr (inr refl)

module _ {K V : Type 0} ⦃slot_inhabited : Inhabited (Slot K V)⦄ (m : HashMap K V) (key : K)
    (ins : Bool) (rounds index : ℕ) (first : Option ℕ) where
  abbrev pub next_index : ℕ
  next_index = (index + 1) % m.bucket_count

  pub step_empty :
      (get! m.slots index).state ≡ SlotState.empty
      → probe_loop m key ins (suc rounds) index first ≡ (SlotState.empty, place ins first index)
  unfolding probe_loop
  step_empty e = rw e refl

  pub step_deleted :
      (get! m.slots index).state ≡ SlotState.deleted
      → probe_loop m key ins (suc rounds) index first
        ≡ probe_loop m key ins rounds next_index (note_deleted ins first index)
  unfolding probe_loop
  step_deleted e = rw e refl

  pub step_hit :
      (get! m.slots index).state ≡ SlotState.occupied
      → m.equal (get! m.slots index).key key ≡ true
      → probe_loop m key ins (suc rounds) index first ≡ (SlotState.occupied, index)
  unfolding probe_loop
  step_hit e hit = rw (e, hit) refl

  pub step_miss :
      (get! m.slots index).state ≡ SlotState.occupied
      → m.equal (get! m.slots index).key key ≡ false
      → probe_loop m key ins (suc rounds) index first ≡ probe_loop m key ins rounds next_index first
  unfolding probe_loop
  step_miss e miss = rw (e, miss) refl

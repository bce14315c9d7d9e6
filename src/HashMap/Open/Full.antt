-- ===== src/HashMap/Open/Full.antt =====
-- A table without an empty slot.
use native.Mathlib.Nat.{mod-lt}
use memkit.Prelude.{
  ℕ, zero, suc, ◌+◌, ◌%◌, ◌<◌, ◌≡◌, ◌≢◌, refl, ap, ◌∙◌, true, false, Option, none, Bool-cases, inl,
  inr, get!, Inhabited,
}
use memkit.Status.{Status}
use memkit.HashMap.{HashMap, Slot, SlotState}
use memkit.HashMap.Open.{is_occupied, probe_loop, open_probe, open_contains, open_get}
use memkit.HashMap.Open.Probes.{state_cases, step_deleted, step_hit, step_miss}

module _ {K V : Type 0} ⦃slot_inhabited : Inhabited (Slot K V)⦄ (m : HashMap K V)
    (some_slots : 0 < m.bucket_count)
    (none_empty : (i : ℕ) → i < m.bucket_count → (get! m.slots i).state ≢ SlotState.empty) where
  probe_full :
      (key : K) (rounds index : ℕ) (first : Option ℕ)
      → index < m.bucket_count
      → (probe_loop m key false rounds index first).0 ≡ SlotState.occupied
  unfolding probe_loop
  probe_full key zero index first h = refl
  probe_full key (suc rounds) index first h =
      let next = mod-lt (index + 1) some_slots in
      elim (state_cases (get! m.slots index).state) [
        | inl e ↦ absurd (none_empty index h e)
        | inr (inl d) ↦
            ap (λ r. r.0) (step_deleted m key false rounds index first d)
            ∙ probe_full key rounds _ _ next
        | inr (inr o) ↦ elim (Bool-cases (m.equal (get! m.slots index).key key)) [
          | inl hit ↦ ap (λ r. r.0) (step_hit m key false rounds index first o hit)
          | inr miss ↦
              ap (λ r. r.0) (step_miss m key false rounds index first o miss)
              ∙ probe_full key rounds _ _ next
        ]
      ]

  -- In an open table of some slots none of which is empty, `contains` answers yes for every key, also
  -- for one that no slot holds, and `get` reports `ok`.
  pub open_contains_full :
      (key : K) (out : V) → (open_contains m key ≡ true) × ((open_get m key out).0 ≡ Status.ok)
  unfolding open_contains open_get open_probe
  open_contains_full key out =
      let found =
        probe_full key m.bucket_count (m.hash key % m.bucket_count) none
          (mod-lt (m.hash key) some_slots) in
      (ap is_occupied found, rw found refl)

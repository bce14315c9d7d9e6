-- ===== src/HashMap/Open/Places.antt =====
-- The slot in which a probe ends.
use native.Mathlib.Nat.{mod-lt}
use memkit.Prelude.{
  ℕ, zero, suc, ◌+◌, ◌%◌, ◌<◌, ◌≡◌, ◌≢◌, sym, ap, subst, ◌∙◌, Bool, true, Option, none, some,
  Bool-cases, inl, inr, get!, length, Inhabited,
}
use memkit.HashMap.{HashMap, Slot, SlotState}
use memkit.HashMap.Open.{probe_loop}
use memkit.HashMap.Open.Probes.{state_cases, step_empty, step_deleted, step_hit, step_miss}
use memkit.HashMap.Open.Ahead.{EmptyAhead}

-- The slots of the open table are as many as it counts.
pub record IsTable {K V : Type 0} (m : HashMap K V) : Type 0 where
  pub some_slots : 0 < m.bucket_count
  pub length-slots : length m.slots ≡ m.bucket_count

module _ {K V : Type 0} ⦃slot_inhabited : Inhabited (Slot K V)⦄ (m : HashMap K V) (t : IsTable m)
    (key : K) where
  pub next_in : (index : ℕ) → (index + 1) % m.bucket_count < m.bucket_count
  next_in index = mod-lt (index + 1) t.some_slots

  -- The first deleted slot that was noted stays the place.
  pub noted_place :
      (rounds index q p : ℕ) (st : SlotState)
      → st ≢ SlotState.occupied
      → probe_loop m key true rounds index (some q) ≡ (st, p)
      → p ≡ q
  unfolding probe_loop
  noted_place zero index q p st free run = absurd (free (sym (ap (λ r. r.0) run)))
  noted_place (suc rounds) index q p st free run = elim (state_cases (get! m.slots index).state) [
    | inl e ↦ sym (ap (λ r. r.1) (sym (step_empty m key true rounds index (some q) e) ∙ run))
    | inr (inl d) ↦
        noted_place rounds _ q p st free
          (sym (step_deleted m key true rounds index (some q) d) ∙ run)
    | inr (inr o) ↦ elim (Bool-cases (m.equal (get! m.slots index).key key)) [
      | inl hit ↦
          absurd (
            free
              (sym (ap (λ r. r.0) (sym (step_hit m key true rounds index (some q) o hit) ∙ run))))
      | inr miss ↦
          noted_place rounds _ q p st free
            (sym (step_miss m key true rounds index (some q) o miss) ∙ run)
    ]
  ]

  -- The place for a new entry is a slot of the table that is not occupied.
  pub place_free :
      (rounds index p : ℕ) (st : SlotState)
      → index < m.bucket_count
      → st ≢ SlotState.occupied
      → probe_loop m key true rounds index none ≡ (st, p)
      → (p < m.bucket_count) × ((get! m.slots p).state ≢ SlotState.occupied)
  unfolding probe_loop
  place_free zero index p st h free run = absurd (free (sym (ap (λ r. r.0) run)))
  place_free (suc rounds) index p st h free run = elim (state_cases (get! m.slots index).state) [
    | inl e ↦
        let at : index ≡ p =
          ap (λ r. r.1) (sym (step_empty m key true rounds index none e) ∙ run) in
        subst (λ j. (j < m.bucket_count) × ((get! m.slots j).state ≢ SlotState.occupied)) at
          (h, λ o. cc)
    | inr (inl d) ↦
        let at =
          noted_place rounds _ index p st free
            (sym (step_deleted m key true rounds index none d) ∙ run) in
        subst (λ j. (j < m.bucket_count) × ((get! m.slots j).state ≢ SlotState.occupied)) (sym at)
          (h, λ o. cc)
    | inr (inr o) ↦ elim (Bool-cases (m.equal (get! m.slots index).key key)) [
      | inl hit ↦
          absurd
            (free (sym (ap (λ r. r.0) (sym (step_hit m key true rounds index none o hit) ∙ run))))
      | inr miss ↦
          place_free rounds _ p st (next_in index) free
            (sym (step_miss m key true rounds index none o miss) ∙ run)
    ]
  ]

  pub onward :
      (rounds index : ℕ)
      → (get! m.slots index).state ≢ SlotState.empty
      → EmptyAhead m (suc rounds) index
      → EmptyAhead m rounds ((index + 1) % m.bucket_count)
  onward rounds index here (inl e) = absurd (here e)
  onward rounds index here (inr ahead) = ahead

  -- With an empty slot ahead, an answer `occupied` is a slot with the key.
  pub found_there :
      (rounds index p : ℕ) (ins : Bool) (first : Option ℕ)
      → index < m.bucket_count
      → EmptyAhead m rounds index
      → probe_loop m key ins rounds index first ≡ (SlotState.occupied, p)
      → (p < m.bucket_count)
        × ((get! m.slots p).state ≡ SlotState.occupied)
        × (m.equal (get! m.slots p).key key ≡ true)
  unfolding probe_loop
  found_there zero index p ins first h ahead run = absurd ahead
  found_there (suc rounds) index p ins first h (inl e) run = absurd (absent e)
    where
      absent : (get! m.slots index).state ≡ SlotState.empty → ⊥
      absent e =
          let st : SlotState.empty ≡ SlotState.occupied =
            ap (λ r. r.0) (sym (step_empty m key ins rounds index first e) ∙ run) in
          cc
  found_there (suc rounds) index p ins first h (inr ahead) run =
      elim (state_cases (get! m.slots index).state) [
        | inl e ↦
            let st : SlotState.empty ≡ SlotState.occupied =
              ap (λ r. r.0) (sym (step_empty m key ins rounds index first e) ∙ run) in
            absurd (cc)
        | inr (inl d) ↦
            found_there rounds _ p ins _ (next_in index) ahead
              (sym (step_deleted m key ins rounds index first d) ∙ run)
        | inr (inr o) ↦ elim (Bool-cases (m.equal (get! m.slots index).key key)) [
          | inl hit ↦
              let at : index ≡ p =
                ap (λ r. r.1) (sym (step_hit m key ins rounds index first o hit) ∙ run) in
              subst
                (λ j.
                  (j < m.bucket_count)
                  × ((get! m.slots j).state ≡ SlotState.occupied)
                  × (m.equal (get! m.slots j).key key ≡ true))
                at (h, o, hit)
          | inr miss ↦
              found_there rounds _ p ins _ (next_in index) ahead
                (sym (step_miss m key ins rounds index first o miss) ∙ run)
        ]
      ]

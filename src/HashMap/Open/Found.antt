-- ===== src/HashMap/Open/Found.antt =====
-- A probe finds the slot that was filled for its key, or assigned to.
use memkit.Prelude.{
  ℕ, zero, suc, ◌+◌, ◌%◌, ◌<◌, ◌≡◌, ◌≢◌, sym, ap, subst, ◌∙◌, true, false, Option, none, arith,
  Bool-cases, inl, inr, get!, set, get!-set_self, get!-set_ne, Inhabited,
}
use memkit.HashMap.{HashMap, Slot, SlotState}
use memkit.HashMap.Open.{probe_loop}
use memkit.HashMap.Open.Probes.{state_cases, step_empty, step_deleted, step_hit, step_miss}
use memkit.HashMap.Open.Ahead.{EmptyAhead}
use memkit.HashMap.Open.Places.{IsTable, next_in, noted_place, place_free, onward}

module _ {K V : Type 0} ⦃slot_inhabited : Inhabited (Slot K V)⦄ (m : HashMap K V) (t : IsTable m)
    (key : K) where
  module _ (m' : HashMap K V) (p : ℕ) (w : Slot K V) (slots : m'.slots ≡ set m.slots p w)
      (count : m'.bucket_count ≡ m.bucket_count) (same : m'.equal ≡ m.equal)
      (p_in : p < m.bucket_count) (full : w.state ≡ SlotState.occupied)
      (with_key : m.equal w.key key ≡ true) where
    pub slot_new : get! m'.slots p ≡ w
    slot_new = ap (λ s. get! s p) slots ∙ get!-set_self m.slots p w (omega (arith, t.length-slots))

    slot_old : (i : ℕ) → p ≢ i → get! m'.slots i ≡ get! m.slots i
    slot_old i ne = ap (λ s. get! s i) slots ∙ get!-set_ne m.slots p i w ne

    lookup_here :
        (rounds : ℕ) → probe_loop m' key false (suc rounds) p none ≡ (SlotState.occupied, p)
    lookup_here rounds =
        step_hit m' key false rounds p none (ap (λ s. s.state) slot_new ∙ full)
          (ap (λ s. m'.equal s.key key) slot_new ∙ ap (λ f. f w.key key) same ∙ with_key)

    lookup_miss :
        (rounds index : ℕ)
        → p ≢ index
        → (get! m.slots index).state ≡ SlotState.occupied
        → m.equal (get! m.slots index).key key ≡ false
        → probe_loop m' key false rounds ((index + 1) % m.bucket_count) none
          ≡ (SlotState.occupied, p)
        → probe_loop m' key false (suc rounds) index none ≡ (SlotState.occupied, p)
    lookup_miss rounds index ne o miss rest =
        step_miss m' key false rounds index none (ap (λ s. s.state) (slot_old index ne) ∙ o) (
          ap (λ s. m'.equal s.key key) (slot_old index ne)
          ∙ ap (λ f. f (get! m.slots index).key key) same
          ∙ miss)
        ∙ ap (λ n. probe_loop m' key false rounds ((index + 1) % n) none) count
        ∙ rest

    pub filled_found :
        (rounds index : ℕ) (st : SlotState)
        → index < m.bucket_count
        → st ≢ SlotState.occupied
        → probe_loop m key true rounds index none ≡ (st, p)
        → probe_loop m' key false rounds index none ≡ (SlotState.occupied, p)
    unfolding probe_loop
    filled_found zero index st h free run = absurd (free (sym (ap (λ r. r.0) run)))
    filled_found (suc rounds) index st h free run = elim (state_cases (get! m.slots index).state) [
      | inl e ↦
          let at : index ≡ p =
            ap (λ r. r.1) (sym (step_empty m key true rounds index none e) ∙ run) in
          subst (λ j. probe_loop m' key false (suc rounds) j none ≡ (SlotState.occupied, p))
            (sym at) (lookup_here rounds)
      | inr (inl d) ↦
          let at =
            noted_place m t key rounds _ index p st free
              (sym (step_deleted m key true rounds index none d) ∙ run) in
          subst (λ j. probe_loop m' key false (suc rounds) j none ≡ (SlotState.occupied, p)) at
            (lookup_here rounds)
      | inr (inr o) ↦ elim (Bool-cases (m.equal (get! m.slots index).key key)) [
        | inl hit ↦
            absurd
              (free (sym (ap (λ r. r.0) (sym (step_hit m key true rounds index none o hit) ∙ run))))
        | inr miss ↦
            let later = sym (step_miss m key true rounds index none o miss) ∙ run in
            let (p_there, p_free) =
              place_free m t key rounds _ p st (next_in m t key index) free later in
            lookup_miss rounds index (λ e. p_free (ap (λ j. (get! m.slots j).state) e ∙ o)) o miss
              (filled_found rounds _ st (next_in m t key index) free later)
      ]
    ]

    lookup_deleted :
        (rounds index : ℕ)
        → p ≢ index
        → (get! m.slots index).state ≡ SlotState.deleted
        → probe_loop m' key false rounds ((index + 1) % m.bucket_count) none
          ≡ (SlotState.occupied, p)
        → probe_loop m' key false (suc rounds) index none ≡ (SlotState.occupied, p)
    lookup_deleted rounds index ne d rest =
        step_deleted m' key false rounds index none (ap (λ s. s.state) (slot_old index ne) ∙ d)
        ∙ ap (λ n. probe_loop m' key false rounds ((index + 1) % n) none) count
        ∙ rest

    pub assigned_found :
        (rounds index : ℕ) (first : Option ℕ)
        → index < m.bucket_count
        → EmptyAhead m rounds index
        → (get! m.slots p).state ≡ SlotState.occupied
        → m.equal (get! m.slots p).key key ≡ true
        → probe_loop m key true rounds index first ≡ (SlotState.occupied, p)
        → probe_loop m' key false rounds index none ≡ (SlotState.occupied, p)
    assigned_found zero index first h ahead o' hit' run = absurd ahead
    assigned_found (suc rounds) index first h ahead o' hit' run =
        elim (state_cases (get! m.slots index).state) [
          | inl e ↦
              let st : SlotState.empty ≡ SlotState.occupied =
                ap (λ r. r.0) (sym (step_empty m key true rounds index first e) ∙ run) in
              absurd (cc)
          | inr (inl d) ↦
              lookup_deleted rounds index
                (λ e.
                  let same_state : (get! m.slots index).state ≡ SlotState.occupied =
                    subst (λ j. (get! m.slots j).state ≡ SlotState.occupied) e o' in
                  absurd (cc))
                d
                (assigned_found rounds _ _ (next_in m t key index)
                  (onward m t key rounds index (λ e. cc) ahead) o' hit'
                  (sym (step_deleted m key true rounds index first d) ∙ run))
          | inr (inr o) ↦ elim (Bool-cases (m.equal (get! m.slots index).key key)) [
            | inl hit ↦
                let at : index ≡ p =
                  ap (λ r. r.1) (sym (step_hit m key true rounds index first o hit) ∙ run) in
                subst (λ j. probe_loop m' key false (suc rounds) j none ≡ (SlotState.occupied, p))
                  (sym at) (lookup_here rounds)
            | inr miss ↦
                lookup_miss rounds index
                  (λ e.
                    let same_key : m.equal (get! m.slots index).key key ≡ true =
                      subst (λ j. m.equal (get! m.slots j).key key ≡ true) e hit' in
                    absurd (cc))
                  o miss
                  (assigned_found rounds _ _ (next_in m t key index)
                    (onward m t key rounds index (λ e. cc) ahead) o' hit'
                    (sym (step_miss m key true rounds index first o miss) ∙ run))
          ]
        ]

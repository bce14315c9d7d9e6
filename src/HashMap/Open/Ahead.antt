-- ===== src/HashMap/Open/Ahead.antt =====
-- An empty slot lies ahead of a probe.
use memkit.Prelude.{
  ℕ, zero, suc, ◌+◌, ◌%◌, ◌≤◌, ◌<◌, ◌≡◌, ◌⊎◌, sym, ap, subst, ◌∙◌, arith, inl, inr, get!, Inhabited,
}
use native.Mathlib.Decide.{dec_lt}
use native.Mathlib.Nat.{mod-eq_of_lt, mod_self}
use memkit.HashMap.{HashMap, Slot, SlotState}

module _ {K V : Type 0} ⦃slot_inhabited : Inhabited (Slot K V)⦄ (m : HashMap K V) where
  -- One of the `rounds` slots from `index` on is empty.
  abbrev pub EmptyAhead : ℕ → ℕ → Type 0
  EmptyAhead zero index = ⊥
  EmptyAhead (suc rounds) index =
      ((get! m.slots index).state ≡ SlotState.empty)
      ⊎ EmptyAhead rounds ((index + 1) % m.bucket_count)

  module _ (e : ℕ) (inside : e < m.bucket_count)
      (is_empty : (get! m.slots e).state ≡ SlotState.empty) where
    ahead_to : (rounds i : ℕ) → i ≤ e → e < i + rounds → EmptyAhead rounds i
    ahead_to zero i le lt = absurd (omega arith)
    ahead_to (suc rounds) i le lt = elim (dec_lt i e) [
      | yes before ↦
          let next : (i + 1) % m.bucket_count ≡ i + 1 = mod-eq_of_lt (omega arith) in
          inr (
            subst (EmptyAhead rounds) (sym next)
              (ahead_to rounds (i + 1) (omega arith) (omega arith)))
      | no there ↦
          let at : e ≡ i = omega arith in
          inl (subst (λ j. (get! m.slots j).state ≡ SlotState.empty) at is_empty)
    ]

    ahead_round :
        (rounds i : ℕ)
        → e < i
        → i < m.bucket_count
        → m.bucket_count + e < i + rounds
        → EmptyAhead rounds i
    ahead_round zero i lt in_table enough = absurd (omega arith)
    ahead_round (suc rounds) i lt in_table enough = elim (dec_lt (i + 1) m.bucket_count) [
      | yes more ↦
          let next : (i + 1) % m.bucket_count ≡ i + 1 = mod-eq_of_lt (omega arith) in
          inr (
            subst (EmptyAhead rounds) (sym next)
              (ahead_round rounds (i + 1) (omega arith) more (omega arith)))
      | no last ↦
          let end : i + 1 ≡ m.bucket_count = omega arith in
          let next : (i + 1) % m.bucket_count ≡ 0 =
            ap (λ a. a % m.bucket_count) end ∙ mod_self m.bucket_count in
          inr (subst (EmptyAhead rounds) (sym next) (ahead_to rounds 0 (omega arith) (omega arith)))
    ]

    pub table-EmptyAhead : (i : ℕ) → i < m.bucket_count → EmptyAhead m.bucket_count i
    table-EmptyAhead i h = elim (dec_lt e i) [
      | yes behind ↦ ahead_round m.bucket_count i behind h (omega arith)
      | no front ↦ ahead_to m.bucket_count i (omega arith) (omega arith)
    ]

-- ===== src/FlatMap/Search.antt =====
-- The binary search of the flat map.
use native.Mathlib.Decide.{dec_lt}
use memkit.Prelude.{
  ℕ, zero, suc, ◌+◌, ◌-◌, ◌/◌, ◌≤◌, ◌<◌, ◌≡◌, ◌⊎◌, inl, inr, refl, subst, some, arith, ltb,
  Bool-cases, Inhabited, get!,
}
use memkit.Status.{Status}
use memkit.FlatMap.{FlatMap, Sign, search_loop, find_index}

-- What the map needs of the user's comparison: that it is transitive and that it
-- changes its sign with the order of its arguments.
pub record IsOrder {K : Type 0} (compare : K → K → Sign) : Type 0 where
  pub before :
      (a b c : K)
      → compare a b ≡ Sign.negative
      → compare b c ≡ Sign.negative
      → compare a c ≡ Sign.negative
  pub after :
      (a b c : K)
      → compare a b ≡ Sign.negative
      → compare a c ≡ Sign.positive
      → compare b c ≡ Sign.positive
  pub flip : (a b : K) → compare a b ≡ Sign.positive → compare b a ≡ Sign.negative

pub record IsSorted {K V : Type 0} ⦃key_inhabited : Inhabited K⦄ (m : FlatMap K V) : Type 0 where
  pub order : IsOrder m.compare
  pub ascending :
      (i j : ℕ) → i < j → j < m.size → m.compare (get! m.keys i) (get! m.keys j) ≡ Sign.negative

-- Either the index of an entry with the key, or the index where the key belongs: the entries before
-- it have smaller keys, and those from it on larger ones.
abbrev pub Found :
    {K V : Type 0} ⦃key_inhabited : Inhabited K⦄ → FlatMap K V → K → Status × ℕ → Type 0
Found m key (s, i) =
    ((s ≡ Status.ok) × (i < m.size) × (m.compare (get! m.keys i) key ≡ Sign.equal))
    ⊎ ((s ≡ Status.not_found)
        × (i ≤ m.size)
        × ((j : ℕ) → j < i → m.compare (get! m.keys j) key ≡ Sign.negative)
        × ((j : ℕ) → i ≤ j → j < m.size → m.compare (get! m.keys j) key ≡ Sign.positive))

sign-cases : (s : Sign) → (s ≡ Sign.negative) ⊎ (s ≡ Sign.equal) ⊎ (s ≡ Sign.positive)
sign-cases Sign.negative = inl refl
sign-cases Sign.equal = inr (inl refl)
sign-cases Sign.positive = inr (inr refl)

module _ {K V : Type 0} ⦃key_inhabited : Inhabited K⦄ ⦃value_inhabited : Inhabited V⦄
    (m : FlatMap K V) (sorted : IsSorted m) (key : K) where
  smaller_upto :
      (mid j : ℕ)
      → mid < m.size
      → m.compare (get! m.keys mid) key ≡ Sign.negative
      → j < mid + 1
      → m.compare (get! m.keys j) key ≡ Sign.negative
  smaller_upto mid j inside less h = elim (dec_lt j mid) [
    | yes p ↦ sorted.order.before _ (get! m.keys mid) _ (sorted.ascending j mid p inside) less
    | no p ↦
        let e : mid ≡ j = omega arith in
        subst (λ i. m.compare (get! m.keys i) key ≡ Sign.negative) e less
  ]

  larger_from :
      (mid j : ℕ)
      → mid ≤ j
      → j < m.size
      → m.compare (get! m.keys mid) key ≡ Sign.positive
      → m.compare (get! m.keys j) key ≡ Sign.positive
  larger_from mid j h inside greater = elim (dec_lt mid j) [
    | yes p ↦ sorted.order.after (get! m.keys mid) _ _ (sorted.ascending mid j p inside) greater
    | no p ↦
        let e : mid ≡ j = omega arith in
        subst (λ i. m.compare (get! m.keys i) key ≡ Sign.positive) e greater
  ]

  search_loop_lem :
      (fuel lo hi : ℕ)
      → hi - lo ≤ fuel
      → lo ≤ hi
      → hi ≤ m.size
      → ((j : ℕ) → j < lo → m.compare (get! m.keys j) key ≡ Sign.negative)
      → ((j : ℕ) → hi ≤ j → j < m.size → m.compare (get! m.keys j) key ≡ Sign.positive)
      → Found m key (search_loop m key fuel lo hi)
  unfolding search_loop
  search_loop_lem zero lo hi enough some_left inside low high =
      inr (refl, omega arith, low, λ j p q. high j (omega arith) q)
  search_loop_lem (suc fuel) lo hi enough some_left inside low high =
      elim (Bool-cases (ltb lo hi)) [
        | inr done ↦ rw done (inr (refl, omega arith, low, λ j p q. high j (ground arith) q))
        | inl more ↦
            let mid = lo + (hi - lo) / 2 in
            elim (sign-cases (m.compare (get! m.keys mid) key)) [
              | inl less ↦
                  rw (more, less)
                    (search_loop_lem fuel (mid + 1) hi (ground arith) (ground arith) inside
                      (λ j h. smaller_upto mid j (ground arith) less h) high)
              | inr (inl same) ↦ rw (more, same) (inl (refl, ground arith, same))
              | inr (inr greater) ↦
                  rw (more, greater)
                    (search_loop_lem fuel lo mid (ground arith) (ground arith) (ground arith) low
                      (λ j p q. larger_from mid j p q greater))
            ]
      ]

  -- In a map sorted by a comparison that is an order, `find_index` ends within its fuel: it finds an entry
  -- with the key, or reports `not_found` and the index that separates the smaller keys from the
  -- larger ones.
  pub find_index-Found : Found m key (find_index m (some key))
  unfolding find_index
  find_index-Found =
      search_loop_lem m.size 0 m.size (omega arith) (omega arith) (omega arith)
        (λ j h. absurd (omega arith)) (λ j p q. absurd (omega arith))

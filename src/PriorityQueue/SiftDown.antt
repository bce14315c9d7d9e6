-- ===== src/PriorityQueue/SiftDown.antt =====
-- `sift_down` restores the order of the heap and keeps its elements.
use memkit.Prelude.{
  ℕ, zero, suc, ◌+◌, ◌-◌, ◌*◌, ◌≤◌, ◌<◌, ◌≡◌, ◌⊎◌, refl, true, false, arith, ◌==◌, ◌&&◌, Inhabited,
  get!, length, Bool-cases, inl, inr, ltb,
}
use memkit.PriorityQueue.{PriorityQueue, smallest, sift_down_loop, sift_down, parent, less_than}
use memkit.PriorityQueue.Swap.{IsStrict, IsSwappable, swapped, swap_elements_lem, length-swapped}
use memkit.PriorityQueue.Sift.{
  DownInv, Sifted, settled, Sifted-swap, IsSwappable-storage, swapped-DownInv,
}

module _ {A : Type 0} ⦃inhabited : Inhabited A⦄ where
  -- The choice of `sift_down`.
  smallest_lem :
      (q : PriorityQueue A) (i : ℕ)
      → IsStrict q.less
      → i < q.size
      → ((smallest q i ≡ i)
          × ((c : ℕ) → 0 < c → c < q.size → parent c ≡ i → less_than q c i ≡ false))
        ⊎ ((0 < smallest q i)
            × (smallest q i < q.size)
            × (parent (smallest q i) ≡ i)
            × (less_than q (smallest q i) i ≡ true)
            × ((c : ℕ) → 0 < c → c < q.size → parent c ≡ i → less_than q c (smallest q i) ≡ false))
  unfolding smallest
  smallest_lem q i strict inside =
      let left = i * 2 + 1 in
      let at = get! q.storage in
      let child : (c : ℕ) → 0 < c → parent c ≡ i → (c ≡ left) ⊎ (c ≡ left + 1) =
        λ c p e. ground arith in
      let flip_left = strict.asymmetric (at left) (at i) in
      let flip_right = strict.asymmetric (at (left + 1)) (at left) in
      let flip_root = strict.asymmetric (at (left + 1)) (at i) in
      elim (Bool-cases (ltb left q.size && less_than q left i)) [
        | inl one ↦ elim (Bool-cases (ltb (left + 1) q.size && less_than q (left + 1) left)) [
          | inl two ↦
              rw (one, two)
                (inr (
                  omega arith,
                  ground arith,
                  omega arith,
                  ground (arith, flip_left, strict.transitive (at left) (at i) (at (left + 1))),
                  λ c p r e. ground (
                    arith,
                    child c p e,
                    flip_right,
                    strict.asymmetric (at (left + 1)) (at (left + 1)),
                  ),
                ))
          | inr two ↦
              rw (one, two)
                (inr (
                  omega arith,
                  ground arith,
                  omega arith,
                  ground arith,
                  λ c p r e. ground (arith, child c p e, strict.asymmetric (at left) (at left)),
                ))
        ]
        | inr one ↦ elim (Bool-cases (ltb (left + 1) q.size && less_than q (left + 1) i)) [
          | inl two ↦
              rw (one, two)
                (inr (
                  omega arith,
                  ground arith,
                  omega arith,
                  ground arith,
                  λ c p r e. ground (
                    arith,
                    child c p e,
                    flip_root,
                    strict.asymmetric (at (left + 1)) (at (left + 1)),
                    strict.transitive (at (left + 1)) (at i) (at left),
                  ),
                ))
          | inr two ↦ rw (one, two) (inl (refl, λ c p r e. ground (arith, child c p e)))
        ]
      ]

  sift_down_lem :
      (fuel i : ℕ) (q : PriorityQueue A)
      → IsStrict q.less
      → IsSwappable q
      → q.size ≤ length q.storage
      → q.size - i < fuel
      → DownInv q.less q.storage q.size i
      → Sifted q (sift_down_loop fuel i q)
  unfolding sift_down_loop
  sift_down_lem zero i q strict ok room h v = absurd (omega arith)
  sift_down_lem (suc fuel) i q strict ok room h v =
      let m = smallest q i in
      elim (smallest_lem q i strict v.inside) [
        | inl (same, least) ↦
            let stop : (m == i) ≡ true = ground arith in
            rw stop (settled q (λ c p r. ground (arith, v.edges c, least c)))
        | inr (pos, inside, up, below, least) ↦
            let go : (m == i) ≡ false = ground arith in
            let (log, run) = swap_elements_lem q i m ok (ground arith) in
            let q' = record q { storage = swapped q.storage i m; destroyed = log } in
            rw (go, run)
              (Sifted-swap q log i m _ v.inside inside room (
                sift_down_lem fuel m q' strict (IsSwappable-storage q _ log ok)
                  (rw (length-swapped q.storage i m) room) (omega (arith, v.inside))
                  (swapped-DownInv q.less strict q.storage q.size i m room v inside pos up below
                    least)))
      ]

  pub sift_down-Sifted :
      (i : ℕ) (q : PriorityQueue A)
      → IsStrict q.less
      → IsSwappable q
      → q.size ≤ length q.storage
      → DownInv q.less q.storage q.size i
      → Sifted q (sift_down i q)
  unfolding sift_down
  sift_down-Sifted i q strict ok room v =
      sift_down_lem (q.size + 1) i q strict ok room (omega arith) v

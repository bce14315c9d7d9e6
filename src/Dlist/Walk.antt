-- ===== src/Dlist/Walk.antt =====
-- `node_at` finds the node of a position from either end.
use memkit.Prelude.{
  ℕ, zero, suc, ◌+◌, ◌-◌, ◌/◌, ◌≤◌, ◌<◌, ◌≡◌, inl, inr, sym, ap, ◌∙◌, List, arith, leb, false,
  Bool-cases, length,
}
use memkit.Chain.{Ptr, null, ptr_at, ptr_before}
use memkit.Chain.Forward.{Forward}
use memkit.Chain.Backward.{Backward}
use memkit.Dlist.{Dlist, walk, node_at}
use memkit.Dlist.Inv.{IsValid}

walk-Forward :
    (next : Ptr → Ptr) (first : Ptr) (xs : List Ptr)
    → Forward next first xs
    → (n i : ℕ) → n + i < length xs
    → walk next n (ptr_at xs i) ≡ ptr_at xs (n + i)
unfolding walk
walk-Forward next first xs f zero i h = ap (ptr_at xs) (omega arith)
walk-Forward next first xs f (suc n) i h =
    ap (walk next n) (f.step i (omega arith))
    ∙ walk-Forward next first xs f n (suc i) (omega arith)
    ∙ ap (ptr_at xs) (omega arith)

walk-Backward :
    (prev : Ptr → Ptr) (last : Ptr) (xs : List Ptr)
    → Backward prev last xs
    → (n i : ℕ) → n + i < length xs
    → walk prev n (ptr_at xs (n + i)) ≡ ptr_at xs i
unfolding walk
walk-Backward prev last xs f zero i h = ap (ptr_at xs) (omega arith)
walk-Backward prev last xs f (suc n) i h =
    let at : suc n + i ≡ suc (n + i) = omega arith in
    ap (λ k. walk prev n (prev (ptr_at xs k))) at
    ∙ ap (walk prev n) (f.step (suc (n + i)) (omega arith))
    ∙ walk-Backward prev last xs f n i (omega arith)

module _ {A : Type 0} (d : Dlist A) (xs fs : List Ptr) (v : IsValid d xs fs) where
  from_head : (i : ℕ) → i < length xs → walk d.next i d.head ≡ ptr_at xs i
  from_head i h =
      ap (walk d.next i) v.linked.forward.first_at
      ∙ walk-Forward d.next d.head xs v.linked.forward i 0 (omega arith)
      ∙ ap (ptr_at xs) (omega arith)

  last_node : (n : ℕ) → suc n ≡ length xs → d.tail ≡ ptr_at xs n
  last_node n h = v.linked.backward.last_at ∙ ap (ptr_before xs) (sym h)

  from_tail : (n i : ℕ) → suc (n + i) ≡ length xs → walk d.prev n d.tail ≡ ptr_at xs i
  from_tail n i h =
      ap (walk d.prev n) (last_node (n + i) h)
      ∙ walk-Backward d.prev d.tail xs v.linked.backward n i (omega arith)

  pub node_at-ptr_at : (i : ℕ) → i < length xs → node_at d i ≡ ptr_at xs i
  unfolding node_at
  node_at-ptr_at i h =
      let inside : leb d.size i ≡ false = ground (arith, v.size) in
      elim (Bool-cases (leb i (d.size / 2))) [
        | inl front ↦ rw (inside, front) (from_head i h)
        | inr back ↦ rw (inside, back) (from_tail (d.size - 1 - i) i (omega (arith, v.size)))
      ]

  pub node_at_past : (i : ℕ) → length xs ≤ i → node_at d i ≡ null
  unfolding node_at
  node_at_past i h = ground (arith, v.size)

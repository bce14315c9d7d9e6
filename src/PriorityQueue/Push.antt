-- ===== src/PriorityQueue/Push.antt =====
-- `push` of the priority queue, against the bag of its elements.
use mathlib.Core.List.{Perm, perm_middle}
use mathlib.Core.List.Perm
use native.Mathlib.Decide.{dec_lt}
use memkit.Prelude.{
  suc, ◌+◌, ◌≤◌, ◌<◌, ◌≡◌, ◌⊎◌, refl, sym, ◌∙◌, true, false, some, [], ◌∷◌, append-nil, arith,
  if◌then◌else◌, Inhabited, get!, set, length-set, length-take, get!-set, get!-set_ne, set_past,
  take, take-set, take_last, Bool-cases, inl, inr, leb,
}
use memkit.Status.{Status}
use memkit.Element.{is_runtime}
use memkit.PriorityQueue.{PriorityQueue, push, parent, sift_up, is_full, elem_at}
use memkit.PriorityQueue.Swap.{IsSwappable, elements}
use memkit.PriorityQueue.Sift.{UpInv, sift_up-Sifted}
use memkit.PriorityQueue.Inv.{IsValid, Sifted-IsValid}

module _ {A : Type 0} ⦃inhabited : Inhabited A⦄ (q : PriorityQueue A) (v : IsValid q) where
  abbrev added : A → PriorityQueue A
  added x = record q { storage = set q.storage q.size x; size = q.size + 1 }

  added-UpInv :
      (x : A) → q.size < q.capacity → UpInv q.less (set q.storage q.size x) (q.size + 1) q.size
  added-UpInv x room = record {
    inside = omega arith;
    edges = λ c p r ne.
        rw
          (
            get!-set_ne q.storage q.size c x (λ e. ne (sym e)),
            get!-set_ne q.storage q.size (parent c) x (λ e. omega arith),
          )
          (v.heap c p (omega arith));
    bridged = λ c p r e s. absurd (omega arith);
  }

  added-Perm : (x : A) → q.size < q.capacity → Perm (elements (added x)) (x ∷ elements q)
  added-Perm x room =
      let more : q.size + 1 ≡ suc q.size = omega arith in
      let wide = length-set q.storage q.size x in
      let last = take_last q.size (set q.storage q.size x) (omega (arith, wide, v.backed)) in
      let same : get! (set q.storage q.size x) q.size ≡ x =
        ground (arith, get!-set q.storage q.size q.size x, v.backed) in
      let before : take q.size (set q.storage q.size x) ≡ take q.size q.storage =
        take-set q.size q.size q.storage x
        ∙ set_past (take q.size q.storage) q.size x (omega (arith, length-take q.size q.storage)) in
      rw (more, last, before, same)
        (rw (append-nil (take q.size q.storage)) at
          (perm_middle {a = x} (take q.size q.storage) []))

  push_room : (x : A) → q.size < q.capacity → push q (some x) ≡ sift_up q.size (added x)
  unfolding push is_full
  push_room x room =
      let not_full : (if q.growable then false else leb q.capacity q.size) ≡ false = ground arith in
      rw (not_full, v.swappable.copies (elem_at q q.size) x)
        (elim (Bool-cases (is_runtime q.policy.kind)) [ inl e ↦ rw e refl | inr e ↦ rw e refl ])

  push_full :
      (x : A) → q.growable ≡ false → q.capacity ≤ q.size → push q (some x) ≡ (Status.full, q)
  unfolding push is_full
  push_full x fixed full = ground arith

  -- `push` into a valid queue, which has room if it is one that the wrapper grows: if there is room
  -- it succeeds, the queue stays valid, and its elements are the old ones and the new one; if not,
  -- it refuses the element and changes nothing.
  pub push-IsValid :
      (x : A)
      → (q.growable ≡ true → q.size < q.capacity)
      → ((q.size < q.capacity)
          × ((push q (some x)).0 ≡ Status.ok)
          × IsValid (push q (some x)).1
          × ((push q (some x)).1.capacity ≡ q.capacity)
          × Perm (elements (push q (some x)).1) (x ∷ elements q))
        ⊎ ((q.size ≡ q.capacity) × (push q (some x) ≡ (Status.full, q)))
  push-IsValid x grown = elim (dec_lt q.size q.capacity) [
    | no full ↦
        let fixed : q.growable ≡ false = ground (arith, grown) in
        inr (omega (arith, v.within), push_full x fixed (omega arith))
    | yes room ↦
        let ok : IsSwappable (added x) = record {
          copies = v.swappable.copies;
          small = v.swappable.small;
        } in
        let wide = length-set q.storage q.size x in
        let s =
          sift_up-Sifted q.size (added x) v.strict ok (omega (arith, wide, v.backed))
            (added-UpInv x room) in
        let (good, valid, same, perm) =
          Sifted-IsValid (added x) (sift_up q.size (added x)) v.strict ok (omega arith)
            (omega (arith, wide, v.backed)) s in
        rw (push_room x room) (inl (room, good, valid, same, Perm.trans perm (added-Perm x room)))
  ]

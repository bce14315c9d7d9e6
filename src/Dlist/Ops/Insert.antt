-- ===== src/Dlist/Ops/Insert.antt =====
-- Insertion into the doubly linked list.
use native.Mathlib.Decide.{dec_lt}
use memkit.Prelude.{
  ℕ, zero, suc, ◌+◌, ◌≤◌, ◌<◌, ◌≡◌, ◌≢◌, ◌⊎◌, inl, inr, refl, sym, ap, subst, ◌∙◌, List, [], ◌∷◌,
  ◌++◌, arith, ◌==◌, ltb, false, some, length,
}
use memkit.Status.{Status, not_ok→not_is_ok}
use memkit.Dlist.Walk.{node_at-ptr_at}
use memkit.Ring.Inv.{AlwaysCopies}
use memkit.Chain.{Ptr, null, insert_nth, insert_last, length-values}
use memkit.Dlist.{Dlist, Malloc, link_front, link_back, link_before, node_at}
use memkit.Dlist.Ops.{make_node, insert_front, insert_back, push_front, push_back, insert_at}
use memkit.Dlist.Inv.{IsValid, IsFresh, Holds, contents}
use memkit.Dlist.Ops.Making.{Refused, make_node-Made}
use memkit.Dlist.Ops.Link.{front_Holds, back_Holds, before_Holds}

module _ {A : Type 0} (m : Malloc) (d : Dlist A) (x : A) where
  insert_front_made :
      (slot : Ptr) (d' : Dlist A)
      → make_node m d x ≡ (Status.ok, slot, d')
      → insert_front m d x ≡ (Status.ok, record (link_front d' slot) { size = d.size + 1 })
  unfolding insert_front
  insert_front_made slot d' run = rw run

  insert_back_made :
      (slot : Ptr) (d' : Dlist A)
      → make_node m d x ≡ (Status.ok, slot, d')
      → insert_back m d x ≡ (Status.ok, record (link_back d' slot) { size = d.size + 1 })
  unfolding insert_back
  insert_back_made slot d' run = rw run

  insert_at_made :
      (index : ℕ) (target slot : Ptr) (d' : Dlist A)
      → 0 < index
      → index < d.size
      → node_at d index ≡ target
      → target ≢ null
      → make_node m d x ≡ (Status.ok, slot, d')
      → insert_at m d index (some x)
        ≡ (Status.ok, record (link_before d' target slot) { size = d.size + 1 })
  unfolding insert_at
  insert_at_made index target slot d' pos inside at there run = rw (at, run) (ground arith)

  refused_front :
      (make_node m d x).0 ≢ Status.ok
      → insert_front m d x ≡ ((make_node m d x).0, (make_node m d x).2)
  unfolding insert_front
  refused_front bad = ground (arith, not_ok→not_is_ok (make_node m d x).0)

  refused_back :
      (make_node m d x).0 ≢ Status.ok
      → insert_back m d x ≡ ((make_node m d x).0, (make_node m d x).2)
  unfolding insert_back
  refused_back bad = ground (arith, not_ok→not_is_ok (make_node m d x).0)

  insert_at_front : insert_at m d 0 (some x) ≡ insert_front m d x
  unfolding insert_at
  insert_at_front = ground arith

  insert_at_back : 0 < d.size → insert_at m d d.size (some x) ≡ insert_back m d x
  unfolding insert_at
  insert_at_back pos = ground arith

  refused_at :
      (index : ℕ) (target : Ptr)
      → 0 < index
      → index < d.size
      → node_at d index ≡ target
      → target ≢ null
      → (make_node m d x).0 ≢ Status.ok
      → insert_at m d index (some x) ≡ ((make_node m d x).0, (make_node m d x).2)
  unfolding insert_at
  refused_at index target pos inside at there bad =
      let c1 : ltb d.size index ≡ false = ground arith in
      let c2 : (index == 0) ≡ false = ground arith in
      let c3 : (index == d.size) ≡ false = ground arith in
      let c4 : (target == null) ≡ false = ground arith in
      rw (at, c1, c2, c3, c4, not_ok→not_is_ok (make_node m d x).0 bad) refl

-- Either the element is in, or the list refused it.
abbrev pub Inserted : {A : Type 0} → Dlist A → List Ptr → List A → Status × Dlist A → Type 0
Inserted d fs q out = ((out.0 ≡ Status.ok) × Holds out.1 q) ⊎ Refused d fs out

module _ {A : Type 0} (m : Malloc) (d : Dlist A) (xs fs : List Ptr) (v : IsValid d xs fs) (x : A)
    (copies : AlwaysCopies d.policy.kind) (fresh : IsFresh m xs fs) where
  insert_front-Inserted : Inserted d fs (x ∷ contents d xs) (insert_front m d x)
  insert_front-Inserted = elim (make_node-Made m d x copies xs fs v fresh) [
    | inl mk ↦
        rw (insert_front_made m d x mk.slot _ mk.result) (inl (refl, front_Holds d xs fs v x mk))
    | inr bad ↦ rw (refused_front m d x bad.failed) (inr bad)
  ]

  insert_back-Inserted :
      Inserted d fs (insert_nth (contents d xs) (length xs) x) (insert_back m d x)
  insert_back-Inserted = elim (make_node-Made m d x copies xs fs v fresh) [
    | inl mk ↦
        rw (insert_back_made m d x mk.slot _ mk.result) (inl (refl, back_Holds d xs fs v x mk))
    | inr bad ↦ rw (refused_back m d x bad.failed) (inr bad)
  ]

  insert_inner :
      (k : ℕ)
      → suc k < length xs
      → Inserted d fs (insert_nth (contents d xs) (suc k) x) (insert_at m d (suc k) (some x))
  insert_inner k h =
      let at = node_at-ptr_at d xs fs v (suc k) h in
      let inside : suc k < d.size = omega (arith, v.size) in
      let there = v.linked.nodes.there (suc k) h in
      elim (make_node-Made m d x copies xs fs v fresh) [
        | inl mk ↦
            rw (insert_at_made m d x (suc k) _ mk.slot _ (omega arith) inside at there mk.result)
              (inl (refl, before_Holds d xs fs v x mk k h))
        | inr bad ↦
            rw (refused_at m d x (suc k) _ (omega arith) inside at there bad.failed) (inr bad)
      ]

  -- `insert_at` at a position up to the size, in a valid list whose copies succeed and whose `malloc`
  -- returns null or an address of none of its nodes: either it reports `ok` and the list is valid and
  -- has the new element at the position, the elements from there on one further; or it reports a
  -- failure, has changed nothing, and if the nodes are from the pool, the pool has no free one.
  pub insert_at-Inserted :
      (index : ℕ)
      → index ≤ length xs
      → Inserted d fs (insert_nth (contents d xs) index x) (insert_at m d index (some x))
  insert_at-Inserted zero h = rw (insert_at_front m d x) insert_front-Inserted
  insert_at-Inserted (suc k) h = elim (dec_lt (suc k) (length xs)) [
    | yes inner ↦ insert_inner k inner
    | no last ↦
        let e : length xs ≡ suc k = omega arith in
        let e' : d.size ≡ suc k = v.size ∙ e in
        subst (λ n. Inserted d fs (insert_nth (contents d xs) n x) (insert_at m d n (some x))) e
          (subst
            (λ n.
              Inserted d fs (insert_nth (contents d xs) (length xs) x) (insert_at m d n (some x)))
            v.size (rw (insert_at_back m d x (omega arith)) insert_back-Inserted))
  ]

  -- `push_back` and `push_front` under the same conditions: the same at the end and at the front.
  pub push-Inserted :
      Inserted d fs (contents d xs ++ x ∷ []) (push_back m d x)
      × Inserted d fs (x ∷ contents d xs) (push_front m d x)
  unfolding push_front push_back
  push-Inserted = (
    subst (λ q. Inserted d fs q (insert_back m d x))
        (ap (λ n. insert_nth (contents d xs) n x) (sym (length-values d.node_data xs))
          ∙ insert_last (contents d xs) x)
        insert_back-Inserted,
    insert_front-Inserted,
  )

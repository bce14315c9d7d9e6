-- ===== src/Dlist/Ops/Remove.antt =====
-- Removal from the doubly linked list.
use native.Mathlib.Decide.{dec_lt}
use memkit.Prelude.{
  ℕ, zero, suc, ◌-◌, ◌<◌, ◌≡◌, ◌≢◌, refl, sym, ap, subst, ◌∙◌, List, [], ◌∷◌, arith, ◌==◌, leb,
  false, Option, none, some, length,
}
use memkit.Status.{Status}
use memkit.Ring.Inv.{AlwaysCopies}
use memkit.Chain.{Ptr, null, ptr_at, ptr_before, values, insert_nth, remove_nth}
use memkit.Dlist.{Dlist, Malloc, destroy_node_value, node_at}
use memkit.Dlist.Walk.{node_at-ptr_at}
use memkit.Dlist.Ops.{drop_node, pop_node, pop_front, pop_back, remove_at}
use memkit.Dlist.Inv.{IsValid, Holds, contents}
use memkit.Dlist.Ops.Drop.{drop_node-Holds}

insert-remove_nth :
    {A : Type 0} (f : Ptr → A) (xs : List Ptr) (i : ℕ)
    → i < length xs
    → insert_nth (remove_nth (values f xs) i) i (f (ptr_at xs i)) ≡ values f xs
insert-remove_nth f [] i h = absurd (omega arith)
insert-remove_nth f (x ∷ xs) zero h = refl
insert-remove_nth f (x ∷ xs) (suc i) h = ap (◌∷◌ (f x)) (insert-remove_nth f xs i (omega arith))

-- What goes out: an element if one was asked for.
abbrev pub answer {ℓ} : {A : Type ℓ} → Option A → A → Option A
answer none x = none
answer (some old) x = some x

-- The element of position `i` is out of the elements `q`, and the others are in order.
pub record Removed {A : Type 0} (q : List A) (i : ℕ) (asked : Option A)
    (out : Status × Option A × Dlist A) : Type 0 where
  pub element : A
  pub done : out.0 ≡ Status.ok
  pub given : out.1 ≡ answer asked element
  pub whole : insert_nth (remove_nth q i) i element ≡ q
  pub rest : Holds out.2 (remove_nth q i)

module _ {A : Type 0} (m : Malloc) (d : Dlist A) (xs fs : List Ptr) (v : IsValid d xs fs)
    (copies : AlwaysCopies d.policy.kind) where
  pop_some :
      (slot : Ptr) (old : A)
      → pop_node m d slot (some old) ≡ (Status.ok, some (d.node_data slot), drop_node m d slot)
  unfolding pop_node
  pop_some slot old = rw (copies old (d.node_data slot)) (ground arith)

  logged : (log : List A) → IsValid (record d { destroyed = log }) xs fs
  logged log = record {
    linked = record {
      nodes = v.linked.nodes;
      forward = v.linked.forward;
      backward = v.linked.backward;
    };
    size = v.size;
    free_nodes = v.free_nodes;
    free = v.free;
    apart = v.apart;
    pool = v.pool;
  }

  pop_node-Removed :
      (i : ℕ) (out : Option A)
      → i < length xs
      → Removed (contents d xs) i out (pop_node m d (ptr_at xs i) out)
  unfolding pop_node
  pop_node-Removed i (some old) h =
      let slot = ptr_at xs i in
      subst (Removed (contents d xs) i (some old)) (sym (pop_some slot old)) (record {
        element = d.node_data slot;
        done = refl;
        given = refl;
        whole = insert-remove_nth d.node_data xs i h;
        rest = drop_node-Holds m d xs fs v i h;
      })
  pop_node-Removed i none h =
      let slot = ptr_at xs i in
      record {
        element = d.node_data slot;
        done = refl;
        given = refl;
        whole = insert-remove_nth d.node_data xs i h;
        rest = drop_node-Holds m (destroy_node_value d slot) xs fs (logged _) i h;
      }

  pop_front_head : (out : Option A) → 0 < d.size → pop_front m d out ≡ pop_node m d d.head out
  unfolding pop_front
  pop_front_head out pos = ground arith

  pop_back_tail : (out : Option A) → 0 < d.size → pop_back m d out ≡ pop_node m d d.tail out
  unfolding pop_back
  pop_back_tail out pos = ground arith

  remove_at_first : (out : Option A) → 0 < d.size → remove_at m d 0 out ≡ pop_front m d out
  unfolding remove_at
  remove_at_first out pos = ground arith

  remove_at_last :
      (index : ℕ) (out : Option A)
      → 0 < index
      → suc index ≡ d.size
      → remove_at m d index out ≡ pop_back m d out
  unfolding remove_at
  remove_at_last index out pos last = ground arith

  remove_at_inner :
      (index : ℕ) (out : Option A)
      → 0 < index
      → suc index < d.size
      → node_at d index ≢ null
      → remove_at m d index out ≡ pop_node m d (node_at d index) out
  unfolding remove_at
  remove_at_inner index out pos inner there =
      let c1 : leb d.size index ≡ false = ground arith in
      let c2 : (index == 0) ≡ false = ground arith in
      let c3 : (index == d.size - 1) ≡ false = ground arith in
      let c4 : (node_at d index == null) ≡ false = ground (arith, there) in rw (c1, c2, c3, c4) refl

  remove_at_pop :
      (index : ℕ) (out : Option A)
      → index < length xs
      → remove_at m d index out ≡ pop_node m d (ptr_at xs index) out
  remove_at_pop zero out h =
      remove_at_first out (omega (arith, v.size))
      ∙ pop_front_head out (omega (arith, v.size))
      ∙ ap (λ p. pop_node m d p out) v.linked.forward.first_at
  remove_at_pop (suc k) out h = elim (dec_lt (suc (suc k)) d.size) [
    | yes inner ↦
        let at = node_at-ptr_at d xs fs v (suc k) h in
        remove_at_inner (suc k) out (omega arith) inner
          (λ e. v.linked.nodes.there (suc k) h (sym at ∙ e))
        ∙ ap (λ p. pop_node m d p out) at
    | no last ↦
        let e : length xs ≡ suc (suc k) = omega (arith, v.size) in
        remove_at_last (suc k) out (omega arith) (omega (arith, v.size))
        ∙ pop_back_tail out (omega (arith, v.size))
        ∙ ap (λ p. pop_node m d p out) (v.linked.backward.last_at ∙ ap (ptr_before xs) e)
  ]

  -- `remove_at` at a position below the size, in a valid list whose copies succeed, with or without
  -- somewhere to put the element: it reports `ok`, hands out the element of the position, and leaves a
  -- valid list of the others in order; also from the heap.
  pub remove_at-Removed :
      (index : ℕ) (out : Option A)
      → index < length xs
      → Removed (contents d xs) index out (remove_at m d index out)
  remove_at-Removed index out h =
      subst (Removed (contents d xs) index out) (sym (remove_at_pop index out h))
        (pop_node-Removed index out h)

  -- `pop_front` and `pop_back` of a non-empty list do this at the first and at the last position.
  pub pop-Removed :
      (n : ℕ) (out : Option A)
      → suc n ≡ length xs
      → Removed (contents d xs) 0 out (pop_front m d out)
        × Removed (contents d xs) n out (pop_back m d out)
  pop-Removed n out h = (
    subst (Removed (contents d xs) 0 out)
        (sym (
          pop_front_head out (omega (arith, v.size))
          ∙ ap (λ p. pop_node m d p out) v.linked.forward.first_at))
        (pop_node-Removed 0 out (omega arith)),
    subst (Removed (contents d xs) n out)
        (sym (
          pop_back_tail out (omega (arith, v.size))
          ∙ ap (λ p. pop_node m d p out) (v.linked.backward.last_at ∙ ap (ptr_before xs) (sym h))))
        (pop_node-Removed n out (omega arith)),
  )

-- ===== src/Ring/Ops/Grow.antt =====
-- `push_back` and `push_front` of a full buffer that grows.
use memkit.Prelude.{
  ◌+◌, ◌*◌, ◌^◌, ◌≤◌, ◌<◌, ◌≡◌, ◌≢◌, ◌⊎◌, inl, inr, refl, sym, subst, ◌∙◌, ap, Bool, true, some,
  List, [], ◌∷◌, ◌++◌, arith, Inhabited,
}
use memkit.Status.{Status, not_ok→not_is_ok}
use memkit.Element.{Policy}
use memkit.Growth.{Platform, grow_capacity}
use memkit.Ring.{Ring, ensure_room}
use memkit.Ring.Ops.{append, prepend, push_back, push_front}
use memkit.Ring.Ops.Steps.{append_lem, prepend_lem}
use memkit.Ring.Grow.Room.{Supplies, Resized, allocation, ensure_room-Resized}
use memkit.Ring.Inv.{IsValid, AlwaysCopies, contents}

-- The allocator's answer to the request of a full buffer for its next block.
abbrev pub next_block : {A : Type 0} → Platform A → Ring A → Status
next_block platform r =
    allocation platform r (grow_capacity r.capacity (r.count + 1) * r.policy.elem_size)

-- What growing gives, when the allocator answers `s`: if `ok`, the grown buffer with the elements
-- `q`, and else the answer and `r`.
abbrev pub GrownTo :
    {A : Type 0} ⦃inhabited : Inhabited A⦄ → Ring A → Status → List A → Status × Ring A → Type 0
GrownTo r s q out =
    ((s ≡ Status.ok)
      × (out.0 ≡ Status.ok)
      × IsValid out.1
      × (contents out.1 ≡ q)
      × (out.1.capacity ≡ grow_capacity r.capacity (r.count + 1)))
    ⊎ ((s ≢ Status.ok) × (out.0 ≡ s) × (out.1 ≡ r))

module _ {A : Type 0} ⦃inhabited : Inhabited A⦄ (platform : Platform A) (r : Ring A) (v : IsValid r)
    (supplies : Supplies platform r) (copies : AlwaysCopies r.policy.kind)
    (growable : r.flags.growable ≡ true) (full : r.count ≡ r.capacity)
    (fits : grow_capacity r.capacity (r.count + 1) * r.policy.elem_size ≤ 2 ^ 63) where
  push_back_ok :
      (x : A) (ow mv : Bool)
      → (ensure_room platform r).0 ≡ Status.ok
      → push_back platform r (some x) ow mv ≡ append (ensure_room platform r).1 x mv
  unfolding push_back
  push_back_ok x ow mv good = ground (arith, full)

  push_back_bad :
      (x : A) (ow mv : Bool)
      → (ensure_room platform r).0 ≢ Status.ok
      → push_back platform r (some x) ow mv ≡ ensure_room platform r
  unfolding push_back
  push_back_bad x ow mv bad = ground (arith, not_ok→not_is_ok (ensure_room platform r).0)

  push_front_ok :
      (x : A) (mv : Bool)
      → (ensure_room platform r).0 ≡ Status.ok
      → push_front platform r (some x) mv ≡ prepend (ensure_room platform r).1 x mv
  unfolding push_front
  push_front_ok x mv good = ground (arith, full)

  push_front_bad :
      (x : A) (mv : Bool)
      → (ensure_room platform r).0 ≢ Status.ok
      → push_front platform r (some x) mv ≡ ensure_room platform r
  unfolding push_front
  push_front_bad x mv bad = ground (arith, not_ok→not_is_ok (ensure_room platform r).0)

  room : r.count < grow_capacity r.capacity (r.count + 1)
  room = (ensure_room-Resized platform r v supplies growable full fits).0

  -- `push_back` on a full valid buffer that grows, whose copies succeed, whose allocator hands out
  -- blocks as large as asked for, and whose new capacity in bytes fits an object: either the
  -- allocator hands out the block of the next capacity, `ok` is reported, and the buffer has that
  -- capacity, is valid and holds the old elements in order and then the new one;
  -- or the allocator refuses it, its status is reported, and nothing has changed.
  pub push_back_grows :
      (x : A) (ow mv : Bool)
      → GrownTo r
          (next_block platform r)
          (contents r ++ x ∷ [])
          (push_back platform r (some x) ow mv)
  push_back_grows x ow mv = go (ensure_room-Resized platform r v supplies growable full fits).1
    where
      go :
          Resized r
            (next_block platform r)
            (grow_capacity r.capacity (r.count + 1))
            (ensure_room platform r)
          → GrownTo r
              (next_block platform r)
              (contents r ++ x ∷ [])
              (push_back platform r (some x) ow mv)
      go (inl (given, good, v', elements, count, cap, policy)) =
          let d = (ensure_room platform r).1 in
          let copies' = subst (λ (p : Policy A). AlwaysCopies p.kind) (sym policy) copies in
          let (r', run, v'', added, cap') =
            append_lem d v' x mv copies' (omega (arith, room, count, cap)) in
          rw (push_back_ok x ow mv good, run)
            (inl (given, refl, v'', added ∙ ap (λ q. q ++ x ∷ []) elements, cap' ∙ cap))
      go (inr (refused, answer, same)) =
          rw (push_back_bad x ow mv (λ ok. refused (sym answer ∙ ok))) (inr (refused, answer, same))

  -- `push_front` on a full valid buffer that grows, whose copies succeed, whose allocator hands out
  -- blocks as large as asked for, and whose new capacity in bytes fits an object: either the
  -- allocator hands out the block of the next capacity, `ok` is reported, and the buffer has that
  -- capacity, is valid and holds the new element and then the old ones in order;
  -- or the allocator refuses it, its status is reported, and nothing has changed.
  pub push_front_grows :
      (x : A) (mv : Bool)
      → GrownTo r (next_block platform r) (x ∷ contents r) (push_front platform r (some x) mv)
  push_front_grows x mv = go (ensure_room-Resized platform r v supplies growable full fits).1
    where
      go :
          Resized r
            (next_block platform r)
            (grow_capacity r.capacity (r.count + 1))
            (ensure_room platform r)
          → GrownTo r (next_block platform r) (x ∷ contents r) (push_front platform r (some x) mv)
      go (inl (given, good, v', elements, count, cap, policy)) =
          let d = (ensure_room platform r).1 in
          let copies' = subst (λ (p : Policy A). AlwaysCopies p.kind) (sym policy) copies in
          let (r', run, v'', added, cap') =
            prepend_lem d v' x mv copies' (omega (arith, room, count, cap)) in
          rw (push_front_ok x mv good, run)
            (inl (given, refl, v'', added ∙ ap (λ q. x ∷ q) elements, cap' ∙ cap))
      go (inr (refused, answer, same)) =
          rw (push_front_bad x mv (λ ok. refused (sym answer ∙ ok))) (inr (refused, answer, same))

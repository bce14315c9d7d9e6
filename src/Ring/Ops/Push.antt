-- ===== src/Ring/Ops/Push.antt =====
-- `push_back` and `push_front` of a buffer that does not grow, against the bounded deque.
use memkit.Prelude.{
  ◌-◌, ◌<◌, ◌≡◌, refl, ◌∙◌, Bool, true, false, ◌||◌, some, List, [], ◌∷◌, ◌++◌, arith, Inhabited,
  ltb, if◌then◌else◌, Bool-cases, inl, inr,
}
use memkit.Status.{Status}
use memkit.Growth.{Platform}
use memkit.Deque
use memkit.Ring.{Ring}
use memkit.Ring.Ops.{append, prepend, drop_oldest, drop_newest, push_back, push_front}
use memkit.Ring.Ops.Steps.{append_lem, prepend_lem, drop_oldest_lem, drop_newest_lem}
use memkit.Ring.Inv.{IsValid, AlwaysCopies, contents, length-contents}

-- `out` is a valid buffer of the same capacity, with the status and the elements of `q`.
pub record Answers {A : Type 0} ⦃inhabited : Inhabited A⦄ (r : Ring A) (q : Status × List A)
    (out : Status × Ring A) : Type 0 where
  pub status : out.0 ≡ q.0
  pub elements : contents out.1 ≡ q.1
  pub valid : IsValid out.1
  pub capacity : out.1.capacity ≡ r.capacity

module _ {A : Type 0} ⦃inhabited : Inhabited A⦄ where
  append-Answers :
      (r d : Ring A) (x : A) (mv : Bool)
      → IsValid d
      → AlwaysCopies d.policy.kind
      → d.count < d.capacity
      → d.capacity ≡ r.capacity
      → Answers r (Status.ok, contents d ++ x ∷ []) (append d x mv)
  append-Answers r d x mv v copies room same =
      let (r', run, v', elements, cap) = append_lem d v x mv copies room in
      rw run (record { status = refl; elements = elements; valid = v'; capacity = cap ∙ same })

  prepend-Answers :
      (r d : Ring A) (x : A) (mv : Bool)
      → IsValid d
      → AlwaysCopies d.policy.kind
      → d.count < d.capacity
      → d.capacity ≡ r.capacity
      → Answers r (Status.ok, x ∷ contents d) (prepend d x mv)
  prepend-Answers r d x mv v copies room same =
      let (r', run, v', elements, cap) = prepend_lem d v x mv copies room in
      rw run (record { status = refl; elements = elements; valid = v'; capacity = cap ∙ same })

drop_oldest-kind :
    {A : Type 0} ⦃inhabited : Inhabited A⦄ (r : Ring A)
    → AlwaysCopies r.policy.kind
    → AlwaysCopies (drop_oldest r).policy.kind
unfolding drop_oldest
drop_oldest-kind r h = h

drop_oldest-count :
    {A : Type 0} ⦃inhabited : Inhabited A⦄ (r : Ring A) → (drop_oldest r).count ≡ r.count - 1
unfolding drop_oldest
drop_oldest-count r = refl

drop_newest-kind :
    {A : Type 0} ⦃inhabited : Inhabited A⦄ (r : Ring A)
    → AlwaysCopies r.policy.kind
    → AlwaysCopies (drop_newest r).policy.kind
unfolding drop_newest
drop_newest-kind r h = h

drop_newest-count :
    {A : Type 0} ⦃inhabited : Inhabited A⦄ (r : Ring A) → (drop_newest r).count ≡ r.count - 1
unfolding drop_newest
drop_newest-count r = refl

module _ {A : Type 0} ⦃inhabited : Inhabited A⦄ (platform : Platform A) (r : Ring A) (v : IsValid r)
    (copies : AlwaysCopies r.policy.kind) (fixed : r.flags.growable ≡ false) where
  push_back_room :
      (x : A) (ow mv : Bool)
      → r.count < r.capacity
      → push_back platform r (some x) ow mv ≡ append r x mv
  unfolding push_back
  push_back_room x ow mv room = ground arith

  push_back_over :
      (x : A) (ow mv : Bool)
      → r.count ≡ r.capacity
      → (ow || r.flags.overwrite_on_full) ≡ true
      → push_back platform r (some x) ow mv ≡ append (drop_oldest r) x mv
  unfolding push_back
  push_back_over x ow mv full over = ground arith

  push_back_full :
      (x : A) (ow mv : Bool)
      → r.count ≡ r.capacity
      → (ow || r.flags.overwrite_on_full) ≡ false
      → push_back platform r (some x) ow mv ≡ (Status.full, r)
  unfolding push_back
  push_back_full x ow mv full over = ground arith

  -- A valid buffer that does not grow and whose copies succeed answers `push_back` as the bounded
  -- deque of its elements does, for either source of the overwrite permission and for copies and
  -- moves: the status, the elements afterwards, and a valid buffer of the same capacity.
  pub push_back_refines :
      (x : A) (ow mv : Bool)
      → Answers r
          (Deque.push_back r.capacity (ow || r.flags.overwrite_on_full) (contents r) x)
          (push_back platform r (some x) ow mv)
  unfolding Deque.push_back
  push_back_refines x ow mv = elim (Bool-cases (ltb r.count r.capacity)) [
    | inl room ↦
        rw (length-contents r, room, push_back_room x ow mv (ground arith))
          (append-Answers r r x mv v copies (ground arith) refl)
    | inr no_room ↦ elim (Bool-cases (ow || r.flags.overwrite_on_full)) [
      | inl over ↦
          let (d, elements, cap) = drop_oldest_lem r v (ground arith) in
          rw
            (
              length-contents r,
              no_room,
              over,
              push_back_over x ow mv (ground arith) over,
              ← elements,
            )
            (append-Answers r (drop_oldest r) x mv d (drop_oldest-kind r copies)
              (omega (arith, drop_oldest-count r)) cap)
      | inr refuse ↦
          rw (length-contents r, no_room, refuse, push_back_full x ow mv (ground arith) refuse)
            (record { status = refl; elements = refl; valid = v; capacity = refl })
    ]
  ]

  push_front_room :
      (x : A) (mv : Bool)
      → r.count < r.capacity
      → push_front platform r (some x) mv ≡ prepend r x mv
  unfolding push_front
  push_front_room x mv room = ground arith

  push_front_over :
      (x : A) (mv : Bool)
      → r.count ≡ r.capacity
      → r.flags.overwrite_on_full ≡ true
      → push_front platform r (some x) mv ≡ prepend (drop_newest r) x mv
  unfolding push_front
  push_front_over x mv full over = ground arith

  push_front_full :
      (x : A) (mv : Bool)
      → r.count ≡ r.capacity
      → r.flags.overwrite_on_full ≡ false
      → push_front platform r (some x) mv ≡ (Status.full, r)
  unfolding push_front
  push_front_full x mv full over = ground arith

  push_front_at :
      (x : A) (mv over : Bool)
      → r.flags.overwrite_on_full ≡ over
      → Answers r
          (Deque.push_front r.capacity over (contents r) x)
          (push_front platform r (some x) mv)
  unfolding Deque.push_front
  push_front_at x mv over set = elim (Bool-cases (ltb r.count r.capacity)) [
    | inl room ↦
        rw (length-contents r, room, push_front_room x mv (ground arith))
          (prepend-Answers r r x mv v copies (ground arith) refl)
    | inr no_room ↦ rw (length-contents r, no_room) (at_full over set (ground arith))
  ]
    where
      at_full :
          (over : Bool)
          → r.flags.overwrite_on_full ≡ over
          → r.count ≡ r.capacity
          → Answers r
              (if over
                then (Status.ok, x ∷ Deque.drop_last (contents r))
                else (Status.full, contents r))
              (push_front platform r (some x) mv)
      at_full true set full =
          let (d, elements, cap) = drop_newest_lem r v (omega arith) in
          rw (push_front_over x mv full set, ← elements)
            (prepend-Answers r (drop_newest r) x mv d (drop_newest-kind r copies)
              (omega (arith, drop_newest-count r)) cap)
      at_full false set full =
          rw (push_front_full x mv full set)
            (record { status = refl; elements = refl; valid = v; capacity = refl })

  -- A valid buffer that does not grow and whose copies succeed answers `push_front` as the
  -- bounded deque of its elements does, for copies and moves: the status, the elements
  -- afterwards, and a valid buffer of the same capacity. A full buffer that overwrites drops the
  -- element at its back, the newest, and not the oldest, which stands at the front.
  pub push_front_refines :
      (x : A) (mv : Bool)
      → Answers r
          (Deque.push_front r.capacity r.flags.overwrite_on_full (contents r) x)
          (push_front platform r (some x) mv)
  push_front_refines x mv = push_front_at x mv r.flags.overwrite_on_full refl

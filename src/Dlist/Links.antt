-- ===== src/Dlist/Links.antt =====
-- The links of the doubly linked list: what `link_front`, `link_back`, `link_before` and `unlink_node`
-- do to a sequence of nodes.
use native.Mathlib.Decide.{dec_lt}
use memkit.Prelude.{
  inl, inr, Bool-cases, ℕ, zero, suc, ◌<◌, ◌≡◌, ◌≢◌, refl, sym, ap, subst, ◌∙◌, List, [], ◌∷◌,
  arith, ◌==◌, true, false, if◌then◌else◌, length,
}
use memkit.Chain.{
  Ptr, null, write, ptr_at, ptr_before, insert_nth, remove_nth, length-remove_nth, ptr_at_past,
  ptr_at-remove_nth,
}
use memkit.Chain.Forward.{
  AreNodes, IsNew, Forward, AreNodes-insert_nth, AreNodes-remove_nth, Forward-frame, Forward-push,
  Forward-remove_first, Forward-insert_nth, Forward-remove_nth,
}
use memkit.Chain.Backward.{
  Backward, Backward-frame, Backward-insert_nth, Backward-append, Backward-remove_nth,
  Backward-drop_last,
}
use memkit.Dlist.{Dlist, link_front, link_back, link_before, unlink_node}

-- The live nodes of the list are `xs`, in order.
pub record Linked {A : Type 0} (d : Dlist A) (xs : List Ptr) : Type 0 where
  pub nodes : AreNodes xs
  pub forward : Forward d.next d.head xs
  pub backward : Backward d.prev d.tail xs

module _ {A : Type 0} (d : Dlist A) (x : Ptr) where
  link_front_empty : Linked d [] → x ≢ null → Linked (link_front d x) (x ∷ [])
  link_front_empty l there =
      let no_head : (d.head == null) ≡ true = ground (arith, l.forward.first_at) in
      record {
        nodes =
            AreNodes-insert_nth [] 0 x (omega arith) l.nodes there (λ i p. absurd (omega arith));
        forward = Forward-push d.next d.head [] x (λ i p. absurd (omega arith)) l.forward;
        backward = rw no_head (
            subst (λ t. Backward (write d.prev x t) x (x ∷ [])) l.backward.last_at
              (Backward-append d.prev d.tail [] x (λ i p. absurd (omega arith)) l.backward));
      }

  link_front_nonempty :
      (y : Ptr) (ys : List Ptr)
      → Linked d (y ∷ ys)
      → x ≢ null
      → IsNew x (y ∷ ys)
      → Linked (link_front d x) (x ∷ y ∷ ys)
  link_front_nonempty y ys l there new =
      let some_head : (d.head == null) ≡ false =
        ground (arith, l.forward.first_at, l.nodes.there 0) in
      record {
        nodes = AreNodes-insert_nth (y ∷ ys) 0 x (omega arith) l.nodes there new;
        forward = Forward-push d.next d.head (y ∷ ys) x new l.forward;
        backward = rw some_head (
            subst (λ h. Backward (write (write d.prev x null) h x) d.tail (x ∷ y ∷ ys))
              (sym l.forward.first_at)
              (Backward-insert_nth d.prev d.tail (y ∷ ys) 0 x (omega arith) l.nodes new
                l.backward));
      }

  pub link_front-Linked :
      (xs : List Ptr) → Linked d xs → x ≢ null → IsNew x xs → Linked (link_front d x) (x ∷ xs)
  link_front-Linked [] l there new = link_front_empty l there
  link_front-Linked (y ∷ ys) l there new = link_front_nonempty y ys l there new

  link_back_nonempty :
      (n : ℕ) (xs : List Ptr)
      → suc n ≡ length xs
      → Linked d xs
      → x ≢ null
      → IsNew x xs
      → Linked (link_back d x) (insert_nth xs (length xs) x)
  link_back_nonempty n xs e l there new =
      let last : d.tail ≡ ptr_at xs n = l.backward.last_at ∙ ap (ptr_before xs) (sym e) in
      let some_tail : (d.tail == null) ≡ false = ground (arith, last, l.nodes.there n) in
      record {
        nodes = AreNodes-insert_nth xs (length xs) x (omega arith) l.nodes there new;
        forward = rw some_tail (
            subst (λ k. Forward (write (write d.next x null) d.tail x) d.head (insert_nth xs k x)) e
              (subst
                (λ t. Forward (write (write d.next x null) t x) d.head (insert_nth xs (suc n) x))
                (sym last)
                (subst
                  (λ u.
                    Forward (write (write d.next x u) (ptr_at xs n) x) d.head
                      (insert_nth xs (suc n) x))
                  (ptr_at_past xs (suc n) (omega arith))
                  (Forward-insert_nth d.next d.head xs n x (omega arith) l.nodes new l.forward))));
        backward = Backward-append d.prev d.tail xs x new l.backward;
      }

  pub link_back-Linked :
      (xs : List Ptr)
      → Linked d xs
      → x ≢ null
      → IsNew x xs
      → Linked (link_back d x) (insert_nth xs (length xs) x)
  link_back-Linked [] l there new =
      let no_tail : (d.tail == null) ≡ true = ground (arith, l.backward.last_at) in
      record {
        nodes = AreNodes-insert_nth [] 0 x (omega arith) l.nodes there new;
        forward = rw no_tail (
            subst (λ h. Forward (write d.next x h) x (x ∷ [])) l.forward.first_at
              (Forward-push d.next d.head [] x new l.forward));
        backward = Backward-append d.prev d.tail [] x new l.backward;
      }
  link_back-Linked (y ∷ ys) l there new = link_back_nonempty (length ys) (y ∷ ys) refl l there new

module _ {A : Type 0} (d : Dlist A) (xs : List Ptr) (l : Linked d xs) where
  prev_ne : (k : ℕ) → suc k < length xs → (d.prev (ptr_at xs (suc k)) == null) ≡ false
  prev_ne k h = ground (arith, l.backward.step (suc k) h, l.nodes.there k)

  pub link_before-Linked :
      (x : Ptr) (k : ℕ)
      → suc k < length xs
      → x ≢ null
      → IsNew x xs
      → Linked (link_before d (ptr_at xs (suc k)) x) (insert_nth xs (suc k) x)
  link_before-Linked x k h there new =
      let target = ptr_at xs (suc k) in
      let p : d.prev target ≡ ptr_at xs k = l.backward.step (suc k) h in
      let reread : write d.prev x (d.prev target) target ≡ d.prev target =
        ground (arith, new (suc k)) in
      record {
        nodes = AreNodes-insert_nth xs (suc k) x (omega arith) l.nodes there new;
        forward =
            rw (reread, prev_ne k h)
              (subst
                (λ q. Forward (write (write d.next x target) q x) d.head (insert_nth xs (suc k) x))
                (sym p)
                (Forward-insert_nth d.next d.head xs k x (omega arith) l.nodes new l.forward));
        backward =
            subst
              (λ q. Backward (write (write d.prev x q) target x) d.tail (insert_nth xs (suc k) x))
              (sym p) (Backward-insert_nth d.prev d.tail xs (suc k) x h l.nodes new l.backward);
      }

  pub removed_ne :
      (i j : ℕ)
      → i < length xs
      → j < length (remove_nth xs i)
      → ptr_at (remove_nth xs i) j ≢ ptr_at xs i
  removed_ne i j h p = ground (
    arith,
    length-remove_nth xs i h,
    ptr_at-remove_nth xs i j,
    l.nodes.distinct i j,
    l.nodes.distinct i (suc j),
  )

  unlink_first :
      0 < length xs
      → Forward
          (unlink_node d (ptr_at xs 0)).next
          (unlink_node d (ptr_at xs 0)).head
          (remove_nth xs 0)
  unlink_first h =
      let first : (d.prev (ptr_at xs 0) == null) ≡ true = ground (arith, l.backward.step 0 h) in
      rw first (
        Forward-frame d.next _ _ (remove_nth xs 0) (λ j p. ground (arith, removed_ne 0 j h p))
          (Forward-remove_first d.next d.head xs h l.forward))

  unlink_later :
      (k : ℕ)
      → suc k < length xs
      → Forward
          (unlink_node d (ptr_at xs (suc k))).next
          (unlink_node d (ptr_at xs (suc k))).head
          (remove_nth xs (suc k))
  unlink_later k h =
      let slot = ptr_at xs (suc k) in
      let p : d.prev slot ≡ ptr_at xs k = l.backward.step (suc k) h in
      let n : d.next slot ≡ ptr_at xs (suc (suc k)) = l.forward.step (suc k) h in
      rw (prev_ne k h) (
        Forward-frame (write d.next (d.prev slot) (d.next slot)) _ _ (remove_nth xs (suc k))
          (λ j r. ground (arith, removed_ne (suc k) j h r))
          (subst (λ q. Forward (write d.next q (d.next slot)) d.head (remove_nth xs (suc k)))
            (sym p)
            (subst (λ q. Forward (write d.next (ptr_at xs k) q) d.head (remove_nth xs (suc k)))
              (sym n) (Forward-remove_nth d.next d.head xs k h l.nodes l.forward))))

  pub before_ne : (i : ℕ) → i < length xs → ptr_before xs i ≢ ptr_at xs i
  before_ne zero h = λ e. l.nodes.there 0 h (sym e)
  before_ne (suc k) h = ground (arith, l.nodes.distinct k (suc k))

  -- The write before it does not change the node's own link.
  after_slot :
      (i : ℕ)
      → i < length xs
      → (if d.prev (ptr_at xs i) == null
            then d.next
            else write d.next (d.prev (ptr_at xs i)) (d.next (ptr_at xs i)))
          (ptr_at xs i)
        ≡ ptr_at xs (suc i)
  after_slot i h = elim (Bool-cases (d.prev (ptr_at xs i) == null)) [
    | inl none_before ↦ rw none_before (l.forward.step i h)
    | inr some_before ↦
        rw some_before (ground (arith, l.forward.step i h, l.backward.step i h, before_ne i h))
  ]

  unlink_inner :
      (i : ℕ)
      → suc i < length xs
      → Backward
          (unlink_node d (ptr_at xs i)).prev
          (unlink_node d (ptr_at xs i)).tail
          (remove_nth xs i)
  unlink_inner i h =
      let slot = ptr_at xs i in
      let some_after : (ptr_at xs (suc i) == null) ≡ false =
        ground (arith, l.nodes.there (suc i) h) in
      rw (after_slot i (omega arith), some_after)
        (Backward-frame (write d.prev (ptr_at xs (suc i)) (d.prev slot)) _ _ (remove_nth xs i)
          (λ j r. ground (arith, removed_ne i j (omega arith) r))
          (subst (λ q. Backward (write d.prev (ptr_at xs (suc i)) q) d.tail (remove_nth xs i))
            (sym (l.backward.step i (omega arith)))
            (Backward-remove_nth d.prev d.tail xs i h l.nodes l.backward)))

  unlink_last :
      (i : ℕ)
      → suc i ≡ length xs
      → Backward
          (unlink_node d (ptr_at xs i)).prev
          (unlink_node d (ptr_at xs i)).tail
          (remove_nth xs i)
  unlink_last i h =
      let none_after : (ptr_at xs (suc i) == null) ≡ true =
        ground (arith, ptr_at_past xs (suc i)) in
      rw (after_slot i (omega arith), none_after)
        (Backward-frame d.prev _ _ (remove_nth xs i)
          (λ j r. ground (arith, removed_ne i j (omega arith) r))
          (Backward-drop_last d.prev d.tail xs i h l.backward))

  unlink-Forward :
      (i : ℕ)
      → i < length xs
      → Forward
          (unlink_node d (ptr_at xs i)).next
          (unlink_node d (ptr_at xs i)).head
          (remove_nth xs i)
  unlink-Forward zero h = unlink_first h
  unlink-Forward (suc k) h = unlink_later k h

  pub unlink_node-Linked :
      (i : ℕ) → i < length xs → Linked (unlink_node d (ptr_at xs i)) (remove_nth xs i)
  unlink_node-Linked i h = record {
    nodes = AreNodes-remove_nth xs i h l.nodes;
    forward = unlink-Forward i h;
    backward = elim (dec_lt (suc i) (length xs)) [
      | yes inner ↦ unlink_inner i inner
      | no last ↦ unlink_last i (omega arith)
    ];
  }

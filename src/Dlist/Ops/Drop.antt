-- ===== src/Dlist/Ops/Drop.antt =====
-- What is left when a node is out of the doubly linked list.
use memkit.Prelude.{
  ℕ, zero, suc, ◌+◌, ◌-◌, ◌<◌, ◌≡◌, ◌≢◌, inl, inr, refl, sym, ap, subst, ◌∙◌, List, ◌∷◌, arith,
  ◌==◌, true, false, Bool-cases, length,
}
use memkit.Chain.{
  Ptr, null, write, ptr_at, ptr_before, values, remove_nth, length-remove_nth, ptr_at-remove_nth,
  values-remove_nth,
}
use memkit.Chain.Forward.{AreNodes, Forward, Forward-frame, Forward-push, AreNodes-insert_nth}
use memkit.Chain.Backward.{Backward-frame}
use memkit.Dlist.{Dlist, Malloc, unlink_node}
use memkit.Dlist.Links.{Linked, unlink_node-Linked, removed_ne}
use memkit.Dlist.Ops.{release_node, drop_node}
use memkit.Dlist.Inv.{IsValid, Holds, contents}
use memkit.Dlist.Ops.Link.{cond_write}

module _ {A : Type 0} (m : Malloc) (d : Dlist A) (slot : Ptr) where
  drop_pool :
      slot ≢ null
      → d.fixed_pool ≡ true
      → drop_node m d slot ≡ record (unlink_node d slot) {
        prev = write (unlink_node d slot).prev slot null;
        next = write (unlink_node d slot).next slot d.free_list;
        free_list = slot;
        size = d.size - 1;
      }
  unfolding drop_node release_node
  drop_pool there fixed = ground arith

  drop_heap :
      slot ≢ null
      → d.fixed_pool ≡ false
      → m.allow_heap ≡ true
      → drop_node m d slot
        ≡ record (unlink_node d slot) { freed = slot ∷ d.freed; size = d.size - 1 }
  unfolding drop_node release_node
  drop_heap there heap allow = ground arith

  drop_kept :
      slot ≢ null
      → d.fixed_pool ≡ false
      → m.allow_heap ≡ false
      → drop_node m d slot ≡ record (unlink_node d slot) { size = d.size - 1 }
  unfolding drop_node release_node
  drop_kept there heap forbid = ground arith

before_spare :
    {A : Type 0} (d : Dlist A) (xs fs : List Ptr) (v : IsValid d xs fs) (i : ℕ)
    → i < length xs
    → (j : ℕ) → j < length fs
    → (d.prev (ptr_at xs i) == null) ≡ false
    → ptr_at fs j ≢ ptr_before xs i
before_spare d xs fs v zero h j p e eq = v.free_nodes.there j p eq
before_spare d xs fs v (suc k) h j p e eq = v.apart k j (omega arith) p (sym eq)

module _ {A : Type 0} (d : Dlist A) (xs fs : List Ptr) (v : IsValid d xs fs) (i : ℕ)
    (h : i < length xs) where
  abbrev slot : Ptr
  slot = ptr_at xs i

  unlink_next :
      (j : ℕ) → j < length fs → (unlink_node d slot).next (ptr_at fs j) ≡ d.next (ptr_at fs j)
  unlink_next j p =
      let inner =
        cond_write (d.prev slot == null) d.next (d.prev slot) (d.next slot) (ptr_at fs j)
          (λ e eq. before_spare d xs fs v i h j p e (eq ∙ v.linked.backward.step i h)) in
      ground (arith, inner, v.apart i j h p)

  spare_after :
      (j k : ℕ)
      → j < length (remove_nth xs i)
      → k < length fs
      → ptr_at (remove_nth xs i) j ≢ ptr_at fs k
  spare_after j k p q =
      ground
        (arith, length-remove_nth xs i h, ptr_at-remove_nth xs i j, v.apart j k, v.apart (suc j) k)

  settled :
      (d2 : Dlist A) (gs : List Ptr)
      → Linked d2 (remove_nth xs i)
      → AreNodes gs
      → Forward d2.next d2.free_list gs
      → ((j k : ℕ)
          → j < length (remove_nth xs i)
          → k < length gs
          → ptr_at (remove_nth xs i) j ≢ ptr_at gs k)
      → (d2.fixed_pool ≡ true → length xs + length fs ≡ length (remove_nth xs i) + length gs)
      → d2.node_data ≡ d.node_data
      → d2.fixed_pool ≡ d.fixed_pool
      → d2.node_capacity ≡ d.node_capacity
      → d2.size ≡ d.size - 1
      → Holds d2 (remove_nth (contents d xs) i)
  settled d2 gs linked nodes free apart pool node_data fixed capacity size = record {
    nodes = remove_nth xs i;
    spare = gs;
    valid = record {
      linked = linked;
      size = omega (arith, v.size, size, length-remove_nth xs i h);
      free_nodes = nodes;
      free = free;
      apart = apart;
      pool = λ e. sym (pool e) ∙ v.pool (sym fixed ∙ e) ∙ sym capacity;
    };
    elements = ap (λ f. values f (remove_nth xs i)) node_data ∙ values-remove_nth d.node_data xs i;
  }

  unlinked : Linked (unlink_node d slot) (remove_nth xs i)
  unlinked = unlink_node-Linked d xs v.linked i h

  pool_Holds :
      d.fixed_pool ≡ true
      → Holds
          (record (unlink_node d slot) {
            prev = write (unlink_node d slot).prev slot null;
            next = write (unlink_node d slot).next slot d.free_list;
            free_list = slot;
            size = d.size - 1;
          })
          (remove_nth (contents d xs) i)
  pool_Holds fixed =
      settled _ (slot ∷ fs)
        (record {
          nodes = unlinked.nodes;
          forward =
              Forward-frame (unlink_node d slot).next _ _ (remove_nth xs i)
                (λ j p. ground (arith, removed_ne d xs v.linked i j h p)) unlinked.forward;
          backward =
              Backward-frame (unlink_node d slot).prev _ _ (remove_nth xs i)
                (λ j p. ground (arith, removed_ne d xs v.linked i j h p)) unlinked.backward;
        })
        (AreNodes-insert_nth fs 0 slot (omega arith) v.free_nodes (v.linked.nodes.there i h)
          not_spare)
        (Forward-push (unlink_node d slot).next d.free_list fs slot not_spare
          (Forward-frame d.next _ d.free_list fs unlink_next v.free))
        apart (λ e. omega (arith, length-remove_nth xs i h)) refl refl refl refl
    where
      not_spare : (k : ℕ) → k < length fs → ptr_at fs k ≢ slot
      not_spare k q e = v.apart i k h q (sym e)

      apart :
          (j k : ℕ)
          → j < length (remove_nth xs i)
          → k < suc (length fs)
          → ptr_at (remove_nth xs i) j ≢ ptr_at (slot ∷ fs) k
      apart j zero p q = removed_ne d xs v.linked i j h p
      apart j (suc k) p q = spare_after j k p (omega arith)

  heap_Holds :
      (freed : List Ptr)
      → d.fixed_pool ≡ false
      → Holds
          (record (unlink_node d slot) { freed = freed; size = d.size - 1 })
          (remove_nth (contents d xs) i)
  heap_Holds freed heap =
      settled _ fs
        (record {
          nodes = unlinked.nodes;
          forward = unlinked.forward;
          backward = unlinked.backward;
        })
        v.free_nodes (Forward-frame d.next _ d.free_list fs unlink_next v.free) spare_after
        (λ e. absurd (cc)) refl refl refl refl

module _ {A : Type 0} (m : Malloc) (d : Dlist A) (xs fs : List Ptr) (v : IsValid d xs fs) where
  pub drop_node-Holds :
      (i : ℕ) → i < length xs → Holds (drop_node m d (ptr_at xs i)) (remove_nth (contents d xs) i)
  drop_node-Holds i h =
      let there = v.linked.nodes.there i h in
      elim (Bool-cases d.fixed_pool) [
        | inl fixed ↦
            subst (λ w. Holds w (remove_nth (contents d xs) i))
              (sym (drop_pool m d (ptr_at xs i) there fixed)) (pool_Holds d xs fs v i h fixed)
        | inr heap ↦ elim (Bool-cases m.allow_heap) [
          | inl allow ↦
              subst (λ w. Holds w (remove_nth (contents d xs) i))
                (sym (drop_heap m d (ptr_at xs i) there heap allow))
                (heap_Holds d xs fs v i h (ptr_at xs i ∷ d.freed) heap)
          | inr forbid ↦
              subst (λ w. Holds w (remove_nth (contents d xs) i))
                (sym (drop_kept m d (ptr_at xs i) there heap forbid))
                (heap_Holds d xs fs v i h d.freed heap)
        ]
      ]

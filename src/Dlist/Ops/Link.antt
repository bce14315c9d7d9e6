-- ===== src/Dlist/Ops/Link.antt =====
-- What the doubly linked list is when a new node is in.
use memkit.Prelude.{
  ℕ, zero, suc, ◌+◌, ◌-◌, ◌≤◌, ◌<◌, ◌≡◌, ◌≢◌, refl, sym, ap, ap₂, subst, ◌∙◌, List, ◌∷◌, arith,
  ◌==◌, Bool, true, false, if◌then◌else◌, length,
}
use memkit.Status.{Status}
use memkit.Chain.{
  Ptr, null, write, ptr_at, ptr_before, values, insert_nth, length-insert_nth, ptr_at-insert_nth,
  values-insert_nth, values_same,
}
use memkit.Chain.Forward.{Forward, Forward-frame}
use memkit.Chain.Backward.{Backward-frame}
use memkit.Dlist.{Dlist, link_front, link_back, link_before}
use memkit.Dlist.Links.{Linked, link_front-Linked, link_back-Linked, link_before-Linked}
use memkit.Dlist.Inv.{IsValid, Holds, contents}
use memkit.Dlist.Ops.Making.{made, Made}

-- A conditional write elsewhere.
pub cond_write :
    (b : Bool) (field : Ptr → Ptr) (p x a : Ptr)
    → (b ≡ false → a ≢ p)
    → (if b then field else write field p x) a ≡ field a
cond_write true field p x a ne = refl
cond_write false field p x a ne = ground (arith, ne refl)

module _ {A : Type 0} (d : Dlist A) (xs fs : List Ptr) (v : IsValid d xs fs) (x : A)
    {out : Status × Ptr × Dlist A} (mk : Made d xs fs x out) where
  abbrev pub d' : Dlist A
  d' = made d mk.slot mk.first x

  made-Linked : Linked d' xs
  made-Linked = record {
    nodes = v.linked.nodes;
    forward = Forward-frame d.next _ d.head xs (λ i p. ground (arith, mk.new i p)) v.linked.forward;
    backward =
        Backward-frame d.prev _ d.tail xs (λ i p. ground (arith, mk.new i p)) v.linked.backward;
  }

  settled :
      (d2 : Dlist A) (i : ℕ)
      → i ≤ length xs
      → Linked d2 (insert_nth xs i mk.slot)
      → ((j : ℕ) → j < length mk.rest → d2.next (ptr_at mk.rest j) ≡ d.next (ptr_at mk.rest j))
      → d2.free_list ≡ mk.first
      → d2.node_data ≡ write d.node_data mk.slot x
      → d2.fixed_pool ≡ d.fixed_pool
      → d2.node_capacity ≡ d.node_capacity
      → Holds (record d2 { size = d.size + 1 }) (insert_nth (contents d xs) i x)
  settled d2 i h linked same free node_data fixed capacity = record {
    nodes = insert_nth xs i mk.slot;
    spare = mk.rest;
    valid = record {
      linked = record {
        nodes = linked.nodes;
        forward = linked.forward;
        backward = linked.backward;
      };
      size = omega (arith, v.size, length-insert_nth xs i mk.slot);
      free_nodes = mk.free_nodes;
      free =
          Forward-frame d.next d2.next _ mk.rest same
            (subst (λ f. Forward d.next f mk.rest) (sym free) mk.free);
      apart = λ j k p q. ground (
        arith,
        length-insert_nth xs i mk.slot,
        ptr_at-insert_nth xs i mk.slot j h,
        mk.apart j k,
        mk.apart (j - 1) k,
        mk.spare k,
      );
      pool = λ e. omega (
        arith,
        length-insert_nth xs i mk.slot,
        mk.pool (sym fixed ∙ e),
        v.pool (sym fixed ∙ e),
        capacity,
      );
    };
    elements =
        ap (λ f. values f (insert_nth xs i mk.slot)) node_data
        ∙ values-insert_nth (write d.node_data mk.slot x) xs i mk.slot
        ∙ ap₂ (λ q y. insert_nth q i y)
            (values_same (write d.node_data mk.slot x) d.node_data xs
              (λ j p. ground (arith, mk.new j p)))
            (ground arith);
  }

  pub front_Holds : Holds (record (link_front d' mk.slot) { size = d.size + 1 }) (x ∷ contents d xs)
  front_Holds =
      settled (link_front d' mk.slot) 0 (omega arith)
        (link_front-Linked d' mk.slot xs made-Linked mk.there mk.new)
        (λ j p. ground (arith, mk.spare j p)) refl refl refl refl

  tail_ne : (j : ℕ) → j < length mk.rest → (d.tail == null) ≡ false → ptr_at mk.rest j ≢ d.tail
  tail_ne j p some_tail = last (length xs) refl
    where
      last : (n : ℕ) → n ≡ length xs → ptr_at mk.rest j ≢ d.tail
      last zero e =
          let none_last : d.tail ≡ null = v.linked.backward.last_at ∙ ap (ptr_before xs) (sym e) in
          absurd (ground (arith, none_last))
      last (suc n) e = λ eq.
          mk.apart n j (omega arith) p
            (sym (v.linked.backward.last_at ∙ ap (ptr_before xs) (sym e)) ∙ sym eq)

  before_target :
      (k : ℕ)
      → suc k < length xs
      → write
          (write d.prev mk.slot null)
          mk.slot
          (write d.prev mk.slot null (ptr_at xs (suc k)))
          (ptr_at xs (suc k))
        ≡ ptr_at xs k
  before_target k h = ground (arith, mk.new (suc k) h, v.linked.backward.step (suc k) h)

  pub back_Holds :
      Holds
        (record (link_back d' mk.slot) { size = d.size + 1 })
        (insert_nth (contents d xs) (length xs) x)
  back_Holds =
      settled (link_back d' mk.slot) (length xs) (omega arith)
        (link_back-Linked d' mk.slot xs made-Linked mk.there mk.new)
        (λ j p. cond_write _ _ _ mk.slot _ (tail_ne j p) ∙ ground (arith, mk.spare j p)) refl refl
        refl refl

  pub before_Holds :
      (k : ℕ)
      → suc k < length xs
      → Holds
          (record (link_before d' (ptr_at xs (suc k)) mk.slot) { size = d.size + 1 })
          (insert_nth (contents d xs) (suc k) x)
  before_Holds k h =
      settled (link_before d' (ptr_at xs (suc k)) mk.slot) (suc k) (omega arith)
        (link_before-Linked d' xs made-Linked mk.slot k h mk.there mk.new)
        (λ j p.
          cond_write
            (write d'.prev mk.slot (d'.prev (ptr_at xs (suc k))) (ptr_at xs (suc k)) == null)
            (write d'.next mk.slot (ptr_at xs (suc k))) _ mk.slot _
            (λ e. λ eq. mk.apart k j (omega arith) p (sym (before_target k h) ∙ sym eq))
          ∙ ground (arith, mk.spare j p))
        refl refl refl refl

-- ===== src/Dlist/Ops/Clear.antt =====
-- `clear` of the doubly linked list.
use memkit.Prelude.{
  ℕ, zero, suc, ◌+◌, ◌-◌, ◌<◌, ◌≡◌, inl, inr, refl, sym, ap, subst, ◌∙◌, List, [], ◌∷◌, ◌++◌,
  append-nil, append_assoc, arith, ◌==◌, true, false, Bool-cases, if◌then◌else◌, length,
}
use memkit.Element.{Kind, destroy, needs_destroy_on_clear}
use memkit.Chain.{Ptr, null, ptr_at, ptr_at_past, values, length-values}
use memkit.Dlist.{Dlist, Malloc, unlink_node, destroy_node_value}
use memkit.Dlist.Ops.{release_node, drop_node, clear_loop, clear}
use memkit.Dlist.Inv.{IsValid, Holds}
use memkit.Dlist.Ops.Drop.{drop_node-Holds}

module _ {A : Type 0} where
  -- The trace after a list is destroyed.
  abbrev pub log_all : Kind A → List A → List A → List A
  log_all k log q = if needs_destroy_on_clear k then log ++ q else log

  destroy-log_all :
      (k : Kind A) (x : A) (log q : List A)
      → log_all k (if needs_destroy_on_clear k then destroy k x log else log) q
        ≡ log_all k log (x ∷ q)
  destroy-log_all (Kind.typed leaves true) x log q = append_assoc log (x ∷ []) q
  destroy-log_all (Kind.typed leaves false) x log q = refl
  destroy-log_all (Kind.runtime f true) x log q = append_assoc log (x ∷ []) q
  destroy-log_all (Kind.runtime f false) x log q = refl

  -- The list with `k` elements counted.
  abbrev counted : Dlist A → ℕ → Dlist A
  counted d k = record d { size = k }

  abbrev stepped : Malloc → Dlist A → Dlist A
  stepped m d = release_node m (destroy_node_value (unlink_node d d.head) d.head) d.head

  release-counted :
      (m : Malloc) (d : Dlist A) (slot : Ptr) (k : ℕ)
      → release_node m (counted d k) slot ≡ counted (release_node m d slot) k
  unfolding release_node
  release-counted m d slot k = elim (Bool-cases (slot == null)) [
    | inl none ↦ rw none refl
    | inr there ↦ elim (Bool-cases d.fixed_pool) [
      | inl fixed ↦ rw (there, fixed) refl
      | inr heap ↦ elim (Bool-cases m.allow_heap) [
        | inl allow ↦ rw (there, heap, allow) refl
        | inr forbid ↦ rw (there, heap, forbid) refl
      ]
    ]
  ]

  stepped-drop_node :
      (m : Malloc) (d : Dlist A) (n : ℕ)
      → drop_node m (counted (destroy_node_value d d.head) (suc n)) d.head ≡ counted (stepped m d) n
  unfolding drop_node
  stepped-drop_node m d n =
      ap (λ w. counted w (suc n - 1))
        (release-counted m (destroy_node_value (unlink_node d d.head) d.head) d.head (suc n))
      ∙ ap (counted (stepped m d)) (omega arith)

  release-destroyed :
      (m : Malloc) (d : Dlist A) (slot : Ptr)
      → ((release_node m d slot).destroyed ≡ d.destroyed)
        × ((release_node m d slot).policy ≡ d.policy)
  unfolding release_node
  release-destroyed m d slot = elim (Bool-cases (slot == null)) [
    | inl none ↦ rw none (refl, refl)
    | inr there ↦ elim (Bool-cases d.fixed_pool) [
      | inl fixed ↦ rw (there, fixed) (refl, refl)
      | inr heap ↦ elim (Bool-cases m.allow_heap) [
        | inl allow ↦ rw (there, heap, allow) (refl, refl)
        | inr forbid ↦ rw (there, heap, forbid) (refl, refl)
      ]
    ]
  ]

  -- A list with its nodes, and what stands first.
  record Front (d : Dlist A) (x : A) (q : List A) : Type 0 where
    some_head : (d.head == null) ≡ false
    first : d.node_data d.head ≡ x
    next : (m : Malloc) → Holds (counted (stepped m d) (length q)) q

  logged :
      (d : Dlist A) (xs fs : List Ptr) (log : List A)
      → IsValid d xs fs
      → IsValid (record d { destroyed = log }) xs fs
  logged d xs fs log v = record {
    linked = record {
      nodes = v.linked.nodes;
      forward = v.linked.forward;
      backward = v.linked.backward;
    };
    size = v.size;
    free_nodes = v.free_nodes;
    free = v.free;
    apart = v.apart;
    pool = v.pool;
  }

  nodes-Front :
      (d : Dlist A) (x : A) (q : List A) (xs fs : List Ptr)
      → IsValid (counted d (suc (length q))) xs fs
      → values d.node_data xs ≡ x ∷ q
      → Front d x q
  nodes-Front d x q [] fs v e = absurd (cc)
  nodes-Front d x q (y ∷ ys) fs v e =
      let head : d.head ≡ y = v.linked.forward.first_at in
      let here : d.node_data y ≡ x = cc in
      let rest : values d.node_data ys ≡ q = cc in
      record {
        some_head = ground (arith, head, v.linked.nodes.there 0);
        first = ap d.node_data head ∙ here;
        next = λ m.
            subst (λ w. Holds w q) (stepped-drop_node m d (length q))
              (subst
                (λ p.
                  Holds (drop_node m (counted (destroy_node_value d d.head) (suc (length q))) p) q)
                (sym head)
                (subst
                  (Holds (drop_node m (counted (destroy_node_value d d.head) (suc (length q))) y))
                  rest
                  (drop_node-Holds m (counted (destroy_node_value d d.head) (suc (length q)))
                    (y ∷ ys) fs (logged _ (y ∷ ys) fs _ v) 0 (omega arith))));
      }

  held-Front :
      (d : Dlist A) (x : A) (q : List A) → Holds (counted d (suc (length q))) (x ∷ q) → Front d x q
  held-Front d x q h = nodes-Front d x q h.nodes h.spare h.valid h.elements

  empty_head : (d : Dlist A) (h : Holds (counted d 0) []) → (d.head == null) ≡ true
  empty_head d h =
      let none_left : ptr_at h.nodes 0 ≡ null =
        ptr_at_past h.nodes 0 (omega (arith, h.valid.size)) in
      ground (arith, h.valid.linked.forward.first_at, none_left)

  record Cleared (d : Dlist A) (q : List A) (out : Dlist A) : Type 0 where
    holds : Holds (counted out 0) []
    log : out.destroyed ≡ log_all d.policy.kind d.destroyed q

  log_nil : (k : Kind A) (log : List A) → log ≡ log_all k log []
  log_nil k log = elim (Bool-cases (needs_destroy_on_clear k)) [
    | inl destroys ↦ rw destroys (sym (append-nil log))
    | inr keeps ↦ rw keeps refl
  ]

  clear_more :
      (m : Malloc) (fuel : ℕ) (d : Dlist A)
      → (d.head == null) ≡ false
      → clear_loop m (suc fuel) d ≡ clear_loop m fuel (stepped m d)
  unfolding clear_loop
  clear_more m fuel d e = ap (λ b. if b then d else clear_loop m fuel (stepped m d)) e

  clear_end :
      (m : Malloc) (fuel : ℕ) (d : Dlist A)
      → (d.head == null) ≡ true
      → clear_loop m (suc fuel) d ≡ d
  unfolding clear_loop
  clear_end m fuel d e = ap (λ b. if b then d else clear_loop m fuel (stepped m d)) e

  clear_loop-Cleared :
      (m : Malloc) (fuel : ℕ) (q : List A) (d : Dlist A)
      → Holds (counted d (length q)) q
      → length q < fuel
      → Cleared d q (clear_loop m fuel d)
  clear_loop-Cleared m zero q d h enough = absurd (omega arith)
  clear_loop-Cleared m (suc fuel) [] d h enough =
      subst (Cleared d []) (sym (clear_end m fuel d (empty_head d h)))
        (record { holds = h; log = log_nil d.policy.kind d.destroyed })
  clear_loop-Cleared m (suc fuel) (x ∷ q) d h enough =
      let f = held-Front d x q h in
      let (log, policy) =
        release-destroyed m (destroy_node_value (unlink_node d d.head) d.head) d.head in
      let r = clear_loop-Cleared m fuel q (stepped m d) (f.next m) (omega arith) in
      subst (Cleared d (x ∷ q)) (sym (clear_more m fuel d f.some_head)) (record {
        holds = r.holds;
        log =
            r.log
            ∙ ap (λ p. log_all p.kind (stepped m d).destroyed q) policy
            ∙ ap (λ l. log_all d.policy.kind l q) log
            ∙ ap
                (λ y.
                  log_all d.policy.kind
                    (if needs_destroy_on_clear d.policy.kind
                      then destroy d.policy.kind y d.destroyed
                      else d.destroyed)
                    q)
                f.first
            ∙ destroy-log_all d.policy.kind x d.destroyed q;
      })

  closed_by :
      (e : Dlist A) (xs fs : List Ptr)
      → IsValid (counted e 0) xs fs
      → Holds (record e { head = null; tail = null; size = 0 }) []
  closed_by e (x ∷ xs) fs v = absurd (omega (arith, v.size))
  closed_by e [] fs v = record {
    nodes = [];
    spare = fs;
    valid = record {
      linked = record {
        nodes = v.linked.nodes;
        forward = record { first_at = refl; step = λ i p. absurd (omega arith) };
        backward = record { last_at = refl; step = λ i p. absurd (omega arith) };
      };
      size = refl;
      free_nodes = v.free_nodes;
      free = v.free;
      apart = v.apart;
      pool = v.pool;
    };
    elements = refl;
  }

  -- `clear` of a valid list with the elements `q` ends with a valid empty list, whose pool has all its
  -- nodes free again, and it has destroyed the elements from first to last if the policy asks for it.
  pub clear-empties :
      (m : Malloc) (d : Dlist A) (q : List A)
      → Holds d q
      → Holds (clear m d) [] × ((clear m d).destroyed ≡ log_all d.policy.kind d.destroyed q)
  unfolding clear
  clear-empties m d q h =
      let long : d.size ≡ length q =
        h.valid.size ∙ sym (length-values d.node_data h.nodes) ∙ ap length h.elements in
      let r =
        clear_loop-Cleared m (d.size + 1) q d (subst (λ k. Holds (counted d k) q) long h)
          (omega (arith, long)) in
      (closed_by (clear_loop m (d.size + 1) d) r.holds.nodes r.holds.spare r.holds.valid, r.log)

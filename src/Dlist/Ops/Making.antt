-- ===== src/Dlist/Ops/Making.antt =====
-- A new node of the doubly linked list.
use native.Mathlib.Decide.{dec_lt}
use memkit.Prelude.{
  ℕ, suc, ◌<◌, ◌≡◌, ◌≢◌, ◌⊎◌, inl, inr, refl, sym, subst, ◌∙◌, List, [], ◌∷◌, arith, true, false,
  Bool-cases, length,
}
use memkit.Status.{Status}
use memkit.Ring.Inv.{AlwaysCopies}
use memkit.Chain.{Ptr, null, write, ptr_at}
use memkit.Chain.Forward.{AreNodes, IsNew, Forward, Forward-remove_first, AreNodes-remove_nth}
use memkit.Dlist.{Dlist, Malloc}
use memkit.Dlist.Ops.{acquire_node, make_node}
use memkit.Dlist.Inv.{IsValid, IsFresh}

module _ {A : Type 0} where
  -- The list with `slot` taken, and `x` in it.
  abbrev pub made : Dlist A → Ptr → Ptr → A → Dlist A
  made d slot first x = record d {
    prev = write d.prev slot null;
    next = write d.next slot null;
    node_data = write d.node_data slot x;
    free_list = first;
  }

  pub record Made (d : Dlist A) (xs fs : List Ptr) (x : A) (out : Status × Ptr × Dlist A)
      : Type 0 where
    pub slot : Ptr
    pub first : Ptr
    pub rest : List Ptr
    pub result : out ≡ (Status.ok, slot, made d slot first x)
    pub there : slot ≢ null
    pub new : IsNew slot xs
    pub spare : IsNew slot rest
    pub free_nodes : AreNodes rest
    pub free : Forward d.next first rest
    pub apart : (i j : ℕ) → i < length xs → j < length rest → ptr_at xs i ≢ ptr_at rest j
    pub pool : d.fixed_pool ≡ true → suc (length rest) ≡ length fs

  -- A refusal changes nothing; a pool refuses when it has no free node.
  pub record Refused (d : Dlist A) (fs : List Ptr) (out : Status × Dlist A) : Type 0 where
    pub failed : out.0 ≢ Status.ok
    pub same : out.1 ≡ d
    pub used_up : d.fixed_pool ≡ true → fs ≡ []

module _ {A : Type 0} (m : Malloc) (d : Dlist A) (x : A) (copies : AlwaysCopies d.policy.kind) where
  make_pool :
      d.fixed_pool ≡ true
      → d.free_list ≢ null
      → make_node m d x ≡ (Status.ok, d.free_list, made d d.free_list (d.next d.free_list) x)
  unfolding make_node acquire_node
  make_pool fixed some_free = ground (arith, copies (d.node_data d.free_list) x)

  make_heap :
      d.fixed_pool ≡ false
      → m.allow_heap ≡ true
      → m.fresh ≢ null
      → make_node m d x ≡ (Status.ok, m.fresh, made d m.fresh d.free_list x)
  unfolding make_node acquire_node
  make_heap heap allow given = ground (arith, copies (d.node_data m.fresh) x)

  refuse_pool : d.fixed_pool ≡ true → d.free_list ≡ null → make_node m d x ≡ (Status.full, null, d)
  unfolding make_node acquire_node
  refuse_pool fixed none_free = ground arith

  refuse_null :
      d.fixed_pool ≡ false
      → m.allow_heap ≡ true
      → m.fresh ≡ null
      → make_node m d x ≡ (Status.oom, null, d)
  unfolding make_node acquire_node
  refuse_null heap allow none_given = ground arith

  refuse_heap :
      d.fixed_pool ≡ false → m.allow_heap ≡ false → make_node m d x ≡ (Status.unsupported, null, d)
  unfolding make_node acquire_node
  refuse_heap heap forbid = ground arith

  pooled_slot :
      (xs : List Ptr) (f : Ptr) (rest : List Ptr)
      → IsValid d xs (f ∷ rest)
      → d.fixed_pool ≡ true
      → Made d xs (f ∷ rest) x (make_node m d x)
  pooled_slot xs f rest v fixed =
      let first : d.free_list ≡ f = v.free.first_at in
      let there : d.free_list ≢ null = λ e. v.free_nodes.there 0 (omega arith) (sym first ∙ e) in
      let tail = Forward-remove_first d.next d.free_list (f ∷ rest) (omega arith) v.free in
      record {
        slot = d.free_list;
        first = d.next d.free_list;
        rest = rest;
        result = make_pool fixed there;
        there = there;
        new = λ i p e. v.apart i 0 p (omega arith) (e ∙ first);
        spare = λ i p e. absurd (
            omega (arith, v.free_nodes.distinct (suc i) 0 (omega arith) (omega arith) (e ∙ first)));
        free_nodes = AreNodes-remove_nth (f ∷ rest) 0 (omega arith) v.free_nodes;
        free = subst (λ h. Forward d.next (d.next h) rest) (sym first) tail;
        apart = λ i j p q. v.apart i (suc j) p (omega arith);
        pool = λ e. refl;
      }

  heap_slot :
      (xs fs : List Ptr)
      → IsValid d xs fs
      → IsFresh m xs fs
      → d.fixed_pool ≡ false
      → m.allow_heap ≡ true
      → m.fresh ≢ null
      → Made d xs fs x (make_node m d x)
  heap_slot xs fs v fresh heap allow given = record {
    slot = m.fresh;
    first = d.free_list;
    rest = fs;
    result = make_heap heap allow given;
    there = given;
    new = (fresh given).0;
    spare = (fresh given).1;
    free_nodes = v.free_nodes;
    free = v.free;
    apart = v.apart;
    pool = λ e. absurd (cc);
  }

  refused :
      (fs : List Ptr) (s : Status) (p : Ptr)
      → s ≢ Status.ok
      → (d.fixed_pool ≡ true → fs ≡ [])
      → make_node m d x ≡ (s, p, d)
      → Refused d fs ((make_node m d x).0, (make_node m d x).2)
  refused fs s p bad used run = rw run (record { failed = bad; same = refl; used_up = used })

  pub make_node-Made :
      (xs fs : List Ptr)
      → IsValid d xs fs
      → IsFresh m xs fs
      → Made d xs fs x (make_node m d x) ⊎ Refused d fs ((make_node m d x).0, (make_node m d x).2)
  make_node-Made xs fs v fresh = elim (Bool-cases d.fixed_pool) [
    | inl fixed ↦ pooled fs v fixed
    | inr heap ↦ elim (Bool-cases m.allow_heap) [
      | inl allow ↦ elim (dec_lt 0 m.fresh) [
        | no zero_given ↦ inr (
            refused fs Status.oom null (λ e. cc) (λ e. absurd (cc))
              (refuse_null heap allow (omega arith)))
        | yes given ↦ inl (heap_slot xs fs v fresh heap allow (λ e. omega (arith, e)))
      ]
      | inr forbid ↦ inr (
          refused fs Status.unsupported null (λ e. cc) (λ e. absurd (cc)) (refuse_heap heap forbid))
    ]
  ]
    where
      pooled :
          (fs : List Ptr)
          → IsValid d xs fs
          → d.fixed_pool ≡ true
          → Made d xs fs x (make_node m d x)
            ⊎ Refused d fs ((make_node m d x).0, (make_node m d x).2)
      pooled [] v fixed =
          inr
            (refused [] Status.full null (λ e. cc) (λ e. refl) (refuse_pool fixed v.free.first_at))
      pooled (f ∷ rest) v fixed = inl (pooled_slot xs f rest v fixed)

-- ===== src/Dlist/Start.antt =====
-- A fresh list is empty, and every node of its pool is free.
use memkit.Prelude.{
  ℕ, zero, suc, ◌+◌, ◌*◌, ◌^◌, ◌≤◌, ◌<◌, ◌≡◌, ◌≢◌, refl, ap, subst, ◌∙◌, List, [], ◌∷◌, arith, ◌==◌,
  Bool, false, length,
}
use memkit.Status.{Status}
use memkit.Element.{Policy}
use memkit.Ring.{external}
use memkit.Utility.{align_up}
use memkit.Utility.Aligned.{align_up_lem}
use memkit.Chain.{Ptr, null, write, ptr_at}
use memkit.Chain.Forward.{AreNodes, IsNew, Forward, Forward-push, AreNodes-insert_nth}
use memkit.Dlist.{Dlist, node_stride, pool_node_at, init_loop, init_free_list, init}
use memkit.Dlist.Inv.{IsValid}

-- The first `k` nodes of a pool, the last one first.
abbrev pub pool_nodes : Ptr → ℕ → ℕ → List Ptr
pool_nodes base stride zero = []
pool_nodes base stride (suc k) = (base + k * stride) ∷ pool_nodes base stride k

length-pool_nodes : (base stride k : ℕ) → length (pool_nodes base stride k) ≡ k
length-pool_nodes base stride zero = refl
length-pool_nodes base stride (suc k) = ap suc (length-pool_nodes base stride k)

-- A node of the first `k` lies before the one of number `k`.
pool_nodes-lt :
    (base stride k j : ℕ)
    → 0 < stride
    → j < k
    → (ptr_at (pool_nodes base stride k) j < base + k * stride)
      × (base ≤ ptr_at (pool_nodes base stride k) j)
pool_nodes-lt base stride zero j pos h = absurd (omega arith)
pool_nodes-lt base stride (suc k) zero pos h = (grind arith, omega arith)
pool_nodes-lt base stride (suc k) (suc j) pos h =
    let (below, above) = pool_nodes-lt base stride k j pos (omega arith) in (grind arith, above)

pub pool_nodes-AreNodes :
    (base stride k : ℕ) → 0 < stride → 0 < base → AreNodes (pool_nodes base stride k)
pool_nodes-AreNodes base stride zero pos there = record {
  there = λ i p. absurd (omega arith);
  distinct = λ i j p. absurd (omega arith);
}
pool_nodes-AreNodes base stride (suc k) pos there =
    let rest = pool_nodes base stride k in
    AreNodes-insert_nth rest 0 (base + k * stride) (omega arith)
      (pool_nodes-AreNodes base stride k pos there) (λ e. omega (arith, e))
      (λ i p e. omega (
        arith,
        e,
        (pool_nodes-lt base stride k i pos (omega (arith, length-pool_nodes base stride k))).0,
      ))

pub no_nodes : (next : Ptr → Ptr) → Forward next null []
no_nodes next = record { first_at = refl; step = λ i p. absurd (omega arith) }

-- The loop leaves the rest of the state alone.
record SameButNodes {A : Type 0} (d d' : Dlist A) : Type 0 where
  head : d'.head ≡ d.head
  tail : d'.tail ≡ d.tail
  size : d'.size ≡ d.size
  capacity : d'.node_capacity ≡ d.node_capacity

pool_nodes-IsNew :
    (base stride k : ℕ) → 0 < stride → IsNew (base + k * stride) (pool_nodes base stride k)
pool_nodes-IsNew base stride k pos i p e = omega (
  arith,
  e,
  (pool_nodes-lt base stride k i pos (omega (arith, length-pool_nodes base stride k))).0,
)

header_size : align_up 16 8 ≡ 16
header_size = align_up_lem 3 16 (omega arith)

node_stride_pos : (elem_size : ℕ) → elem_size < 2 ^ 63 → 0 < node_stride elem_size
unfolding node_stride
node_stride_pos elem_size small = rw header_size (omega (arith, small))

module _ {A : Type 0} where
  abbrev pub nodes_to : Dlist A → ℕ → List Ptr
  nodes_to d k = pool_nodes d.node_pool (node_stride d.policy.elem_size) k

  init_loop-Forward :
      (n i k : ℕ) (d : Dlist A)
      → n + i ≡ k
      → 0 < node_stride d.policy.elem_size
      → Forward d.next d.free_list (nodes_to d i)
      → Forward (init_loop n i d).next (init_loop n i d).free_list (nodes_to d k)
        × SameButNodes d (init_loop n i d)
  unfolding init_loop pool_node_at
  init_loop-Forward zero i k d e pos f = (
    subst (λ j. Forward d.next d.free_list (nodes_to d j)) (omega (arith, e)) f,
    record { head = refl; tail = refl; size = refl; capacity = refl },
  )
  init_loop-Forward (suc n) i k d e pos f =
      let slot = pool_node_at d i in
      let d1 = record d {
        prev = write d.prev slot null;
        next = write d.next slot d.free_list;
        free_list = slot;
      } in
      let (chain, same) = init_loop-Forward n (i + 1) k d1 (omega (arith, e)) pos (
        subst (λ j. Forward d1.next slot (nodes_to d j)) {x = suc i} (omega arith)
          (Forward-push d.next d.free_list (nodes_to d i) slot (pool_nodes-IsNew _ _ i pos) f)) in
      (
        chain,
        record { head = same.head; tail = same.tail; size = same.size; capacity = same.capacity },
      )

  init-cases :
      (d : Dlist A) (policy : Policy A) (node_pool : Ptr) (node_capacity : ℕ) (fixed_pool : Bool)
      → node_pool ≢ null
      → node_capacity ≢ 0
      → init d policy node_pool node_capacity fixed_pool ≡ (
        Status.ok,
        init_loop node_capacity 0 (record d {
          policy = policy;
          node_pool = node_pool;
          node_capacity = node_capacity;
          head = null;
          tail = null;
          free_list = null;
          size = 0;
          fixed_pool = fixed_pool;
          kind = external;
        }),
      )
  unfolding init init_free_list
  init-cases d policy node_pool node_capacity fixed_pool there some_nodes =
      let c1 : (node_pool == null) ≡ false = ground (arith, there) in
      let c2 : (node_capacity == 0) ≡ false = ground (arith, some_nodes) in rw (c1, c2) refl

  fresh-IsValid :
      (d d' : Dlist A)
      → d.head ≡ null
      → d.tail ≡ null
      → d.size ≡ 0
      → 0 < d.node_pool
      → 0 < node_stride d.policy.elem_size
      → SameButNodes d d'
      → Forward d'.next d'.free_list (nodes_to d d.node_capacity)
      → IsValid d' [] (nodes_to d d.node_capacity)
  fresh-IsValid d d' head tail size there pos same chain = record {
    linked = record {
      nodes = pool_nodes-AreNodes 1 1 0 (omega arith) (omega arith);
      forward = record { first_at = same.head ∙ head; step = λ i p. absurd (omega arith) };
      backward = record { last_at = same.tail ∙ tail; step = λ i p. absurd (omega arith) };
    };
    size = same.size ∙ size;
    free_nodes = pool_nodes-AreNodes _ _ d.node_capacity pos there;
    free = chain;
    apart = λ i j p. absurd (omega arith);
    pool = λ e. omega (
      arith,
      length-pool_nodes d.node_pool (node_stride d.policy.elem_size) d.node_capacity,
      same.capacity,
    );
  }

  -- A list over a buffer of some nodes of less than 2^63 bytes each starts empty, and every node of
  -- the buffer is free, each once, the last one at the front of the free list.
  pub init-IsValid :
      (d : Dlist A) (policy : Policy A) (node_pool : Ptr) (node_capacity : ℕ) (fixed_pool : Bool)
      → node_pool ≢ null
      → node_capacity ≢ 0
      → policy.elem_size < 2 ^ 63
      → (init d policy node_pool node_capacity fixed_pool).0 ≡ Status.ok
        × IsValid
            (init d policy node_pool node_capacity fixed_pool).1
            []
            (pool_nodes node_pool (node_stride policy.elem_size) node_capacity)
  init-IsValid d policy node_pool node_capacity fixed_pool there some_nodes small =
      let d1 = record d {
        policy = policy;
        node_pool = node_pool;
        node_capacity = node_capacity;
        head = null;
        tail = null;
        free_list = null;
        size = 0;
        fixed_pool = fixed_pool;
        kind = external;
      } in
      let pos = node_stride_pos policy.elem_size small in
      let (chain, same) =
        init_loop-Forward node_capacity 0 node_capacity d1 (omega arith) pos (no_nodes d1.next) in
      rw (init-cases d policy node_pool node_capacity fixed_pool there some_nodes)
        (refl, fresh-IsValid d1 _ refl refl refl (omega (arith, there)) pos same chain)

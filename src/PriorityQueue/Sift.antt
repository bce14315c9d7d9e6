-- ===== src/PriorityQueue/Sift.antt =====
-- The order of the heap, and `sift_up`, which restores it and keeps the elements.
use mathlib.Core.List.{Perm}
use mathlib.Core.List.Perm
use memkit.Prelude.{
  ℕ, zero, suc, ◌+◌, ◌-◌, ◌/◌, ◌≤◌, ◌<◌, ◌≡◌, ◌≢◌, refl, ◌∙◌, Bool, true, false, List, arith, ◌==◌,
  Inhabited, get!, set, length, take, take-set, length-take, get!-take, Bool-cases, inl, inr,
}
use memkit.Status.{Status}
use memkit.PriorityQueue.{PriorityQueue, sift_up_loop, sift_up, parent, less_than}
use memkit.PriorityQueue.Swap.{
  IsStrict, IsSwappable, swapped, swap_elements_lem, get!-swapped, length-swapped, swapped-Perm,
}

module _ {A : Type 0} ⦃inhabited : Inhabited A⦄ (less : A → A → Bool) where
  -- No child among the first `n` elements is smaller than its parent.
  abbrev pub IsHeap : List A → ℕ → Type 0
  IsHeap s n = (c : ℕ) → 0 < c → c < n → less (get! s c) (get! s ((c - 1) / 2)) ≡ false

  -- The edges past `i`, from its parent to its children, are in order.
  abbrev pub IsBridged : List A → ℕ → ℕ → Type 0
  IsBridged s n i =
      (c : ℕ) → 0 < c → c < n → parent c ≡ i → 0 < i → less (get! s c) (get! s (parent i)) ≡ false

  -- Only the edge above `i` may be out of order.
  pub record UpInv (s : List A) (n i : ℕ) : Type 0 where
    pub inside : i < n
    pub edges : (c : ℕ) → 0 < c → c < n → c ≢ i → less (get! s c) (get! s (parent c)) ≡ false
    pub bridged : IsBridged s n i

  -- Only the edges below `i` may be out of order.
  pub record DownInv (s : List A) (n i : ℕ) : Type 0 where
    pub inside : i < n
    pub edges : (c : ℕ) → 0 < c → c < n → parent c ≢ i → less (get! s c) (get! s (parent c)) ≡ false
    pub bridged : IsBridged s n i

module _ {A : Type 0} ⦃inhabited : Inhabited A⦄ (less : A → A → Bool) (strict : IsStrict less) where
  swapped-UpInv :
      (s : List A) (n i : ℕ)
      → n ≤ length s
      → UpInv less s n i
      → 0 < i
      → less (get! s i) (get! s (parent i)) ≡ true
      → UpInv less (swapped s i (parent i)) n (parent i)
  swapped-UpInv s n i room v pos below =
      let p = parent i in
      let at =
        λ (c : ℕ). get!-swapped s i p c (omega (arith, v.inside)) (omega (arith, v.inside)) in
      let back = strict.asymmetric (get! s i) (get! s p) below in
      record {
        inside = omega (arith, v.inside);
        edges = λ c h1 h2 ne.
            rw (at c, at (parent c))
              (ground (
                arith,
                v.edges c,
                v.bridged c,
                back,
                strict.transitive (get! s i) (get! s p) (get! s c),
              ));
        bridged = λ c h1 h2 e h3.
            rw (at c, at (parent p))
              (ground (
                arith,
                v.edges c,
                v.edges p,
                strict.transitive (get! s (parent p)) (get! s p) (get! s c),
              ));
      }

  pub swapped-DownInv :
      (s : List A) (n i m : ℕ)
      → n ≤ length s
      → DownInv less s n i
      → m < n
      → 0 < m
      → parent m ≡ i
      → less (get! s m) (get! s i) ≡ true
      → ((c : ℕ) → 0 < c → c < n → parent c ≡ i → less (get! s c) (get! s m) ≡ false)
      → DownInv less (swapped s i m) n m
  swapped-DownInv s n i m room v inside pos above below least =
      let at = λ (c : ℕ). get!-swapped s i m c (omega (arith, v.inside)) (omega arith) in
      let back = strict.asymmetric (get! s m) (get! s i) below in
      record {
        inside = inside;
        edges = λ c h1 h2 ne.
            rw (at c, at (parent c)) (ground (arith, v.edges c, v.bridged m, least c, back));
        bridged = λ c h1 h2 e h3. rw (at c, at (parent m)) (ground (arith, v.edges c));
      }

-- `out` succeeds and is the queue `q` but for the order of its elements, which is that of a heap.
pub record Sifted {A : Type 0} ⦃inhabited : Inhabited A⦄ (q : PriorityQueue A)
    (out : Status × PriorityQueue A) : Type 0 where
  pub storage : List A
  pub log : List A
  pub result : out ≡ (Status.ok, record q { storage = storage; destroyed = log })
  pub room : length storage ≡ length q.storage
  pub heap : IsHeap q.less storage q.size
  pub perm : Perm (take q.size storage) (take q.size q.storage)

module _ {A : Type 0} ⦃inhabited : Inhabited A⦄ where
  pub settled : (q : PriorityQueue A) → IsHeap q.less q.storage q.size → Sifted q (Status.ok, q)
  settled q h = record {
    storage = q.storage;
    log = q.destroyed;
    result = refl;
    room = refl;
    heap = h;
    perm = Perm.rfl;
  }

  take-swapped :
      (s : List A) (n i j : ℕ)
      → i < n
      → j < n
      → n ≤ length s
      → Perm (take n (swapped s i j)) (take n s)
  take-swapped s n i j hi hj room =
      let size = length-take n s in
      let p = swapped-Perm (take n s) i j (omega (arith, size)) (omega (arith, size)) in
      let e : take n (swapped s i j) ≡ swapped (take n s) i j =
        take-set n j (set s i (get! s j)) (get! s i)
        ∙ rw (take-set n i s (get! s j), get!-take n s i hi, get!-take n s j hj) refl in
      rw e p

  -- A round that swaps, and what the rounds after it leave.
  pub Sifted-swap :
      (q : PriorityQueue A) (log : List A) (i j : ℕ) (out : Status × PriorityQueue A)
      → i < q.size
      → j < q.size
      → q.size ≤ length q.storage
      → Sifted (record q { storage = swapped q.storage i j; destroyed = log }) out
      → Sifted q out
  Sifted-swap q log i j out hi hj room r = record {
    storage = r.storage;
    log = r.log;
    result = r.result;
    room = r.room ∙ length-swapped q.storage i j;
    heap = r.heap;
    perm = Perm.trans r.perm (take-swapped q.storage q.size i j hi hj room);
  }

  pub IsSwappable-storage :
      (q : PriorityQueue A) (s log : List A)
      → IsSwappable q
      → IsSwappable (record q { storage = s; destroyed = log })
  IsSwappable-storage q s log ok = record { copies = ok.copies; small = ok.small }

  sift_up_lem :
      (fuel i : ℕ) (q : PriorityQueue A)
      → IsStrict q.less
      → IsSwappable q
      → q.size ≤ length q.storage
      → i < fuel
      → UpInv q.less q.storage q.size i
      → Sifted q (sift_up_loop fuel i q)
  unfolding sift_up_loop
  sift_up_lem zero i q strict ok room h v = absurd (omega arith)
  sift_up_lem (suc fuel) i q strict ok room h v = elim (Bool-cases (i == 0)) [
    | inl root ↦ rw root (settled q (λ c p r. v.edges c p r (ground arith)))
    | inr pos ↦ elim (Bool-cases (less_than q i (parent i))) [
      | inr done ↦ rw (pos, done) (settled q (λ c p r. ground (arith, v.edges c)))
      | inl below ↦
          let (log, run) = swap_elements_lem q i (parent i) ok (ground arith) in
          let q' = record q { storage = swapped q.storage i (parent i); destroyed = log } in
          rw (pos, below, run)
            (Sifted-swap q log i (parent i) _ v.inside (omega (arith, v.inside)) room (
              sift_up_lem fuel (parent i) q' strict (IsSwappable-storage q _ log ok)
                (rw (length-swapped q.storage i (parent i)) room) (ground arith)
                (swapped-UpInv q.less strict q.storage q.size i room v (ground arith) below)))
    ]
  ]

  pub sift_up-Sifted :
      (i : ℕ) (q : PriorityQueue A)
      → IsStrict q.less
      → IsSwappable q
      → q.size ≤ length q.storage
      → UpInv q.less q.storage q.size i
      → Sifted q (sift_up i q)
  unfolding sift_up
  sift_up-Sifted i q strict ok room v = sift_up_lem (i + 1) i q strict ok room (omega arith) v

-- ===== src/PriorityQueue/Pop.antt =====
-- `pop` of the priority queue, against the bag of its elements.
use mathlib.Core.List.{Perm, perm_middle}
use mathlib.Core.List.Perm
use native.Mathlib.Decide.{dec_lt}
use memkit.Prelude.{
  ℕ, zero, suc, ◌+◌, ◌-◌, ◌≤◌, ◌<◌, ◌≡◌, ◌⊎◌, refl, sym, ap, ◌∙◌, true, false, Option, none, some,
  List, [], ◌∷◌, append-nil, arith, ◌==◌, if◌then◌else◌, Inhabited, get!, set, length, length-set,
  length-take, get!-set, set_past, take, take-set, take_last, get!-take, Bool-cases, inl, inr,
}
use memkit.Status.{Status}
use memkit.Element.{move_construct, is_runtime}
use memkit.Deque
use memkit.Ring.Ops.Pop.{move_construct-placed}
use memkit.PriorityQueue.{
  PriorityQueue, pop, parent, sift_down, is_empty, take_root, last_to_root, destroy_if_needed,
}
use memkit.PriorityQueue.Swap.{IsSwappable, elements, set-Perm}
use memkit.PriorityQueue.Sift.{DownInv}
use memkit.PriorityQueue.SiftDown.{sift_down-Sifted}
use memkit.PriorityQueue.Inv.{IsValid, Sifted-IsValid}

module _ {A : Type 0} ⦃inhabited : Inhabited A⦄ (q : PriorityQueue A) (v : IsValid q) where
  abbrev root : A
  root = get! q.storage 0

  -- No element is smaller than the root.
  root_least : (k i : ℕ) → i < k → i < q.size → q.less (get! q.storage i) root ≡ false
  root_least zero i h p = absurd (omega arith)
  root_least (suc k) zero h p = ground (arith, v.strict.asymmetric root root)
  root_least (suc k) (suc i) h p =
      v.strict.transitive root (get! q.storage (parent (suc i))) (get! q.storage (suc i))
        (root_least k (parent (suc i)) (omega arith) (omega arith)) (v.heap (suc i) (omega arith) p)

  take_root-lem :
      (out : Option A)
      → (log : List A) × (take_root q out
          ≡ (Status.ok, Deque.deliver out root, record q { destroyed = log }))
  unfolding take_root
  take_root-lem none = ((destroy_if_needed q root).destroyed, refl)
  take_root-lem (some old) = (
    q.destroyed,
    rw (v.swappable.copies old root)
        (elim (Bool-cases (is_runtime q.policy.kind)) [ inl e ↦ rw e refl | inr e ↦ rw e refl ]),
  )

  -- The queue with the last element, at the index `n`, in the root.
  record LastInRoot (n : ℕ) (out : Status × PriorityQueue A) (log : List A) : Type 0 where
    storage : List A
    result : out ≡ (Status.ok, record q { size = n; destroyed = log; storage = storage })
    room : length storage ≡ length q.storage
    front : take n storage ≡ set (take n q.storage) 0 (get! q.storage n)

  last_to_root-lem :
      (n : ℕ) (log : List A)
      → 0 < n
      → LastInRoot n (last_to_root (record q { size = n; destroyed = log })) log
  unfolding last_to_root
  last_to_root-lem n log pos =
      let x = get! q.storage n in
      elim (Bool-cases (is_runtime q.policy.kind)) [
        | inl run ↦
            rw (run, v.swappable.copies root x)
              (record {
                storage = set q.storage 0 x;
                result = refl;
                room = length-set q.storage 0 x;
                front = take-set n 0 q.storage x;
              })
        | inr typed ↦
            let left = (move_construct q.policy.kind root x).1 in
            rw (typed, move_construct-placed q.policy.kind root x)
              (record {
                storage = set (set q.storage n left) 0 x;
                result = refl;
                room = length-set (set q.storage n left) 0 x ∙ length-set q.storage n left;
                front =
                    take-set n 0 (set q.storage n left) x
                    ∙ ap (λ xs. set xs 0 x)
                        (take-set n n q.storage left
                          ∙ set_past (take n q.storage) n left
                              (omega (arith, length-take n q.storage)));
              })
      ]

  -- What is sifted after the last element went into the root.
  abbrev rest : ℕ → List A → List A → PriorityQueue A
  rest n s log = destroy_if_needed (record q { size = n; destroyed = log; storage = s }) (get! s n)

  front-get! :
      (n : ℕ) (s : List A) (c : ℕ)
      → n ≤ length q.storage
      → take n s ≡ set (take n q.storage) 0 (get! q.storage n)
      → c < n
      → get! s c ≡ (if 0 == c then get! q.storage n else get! q.storage c)
  front-get! n s c room front h =
      let x = get! q.storage n in
      sym (get!-take n s c h)
      ∙ ap (λ xs. get! xs c) front
      ∙ get!-set (take n q.storage) 0 c x (omega (arith, length-take n q.storage))
      ∙ rw (get!-take n q.storage c h) refl

  rest-DownInv :
      (n : ℕ) (s : List A)
      → 0 < n
      → n < q.size
      → take n s ≡ set (take n q.storage) 0 (get! q.storage n)
      → DownInv q.less s n 0
  rest-DownInv n s pos below front =
      let at =
        λ (c : ℕ) (h : c < n). front-get! n s c (omega (arith, v.within, v.backed)) front h in
      record {
        inside = pos;
        edges = λ c p r ne. rw (at c r, at (parent c) (omega arith)) (ground (arith, v.heap c));
        bridged = λ c p r e h. absurd (omega arith);
      }

  rest-Perm :
      (n : ℕ) (s : List A)
      → 0 < n
      → suc n ≡ q.size
      → take n s ≡ set (take n q.storage) 0 (get! q.storage n)
      → Perm (root ∷ take n s) (elements q)
  rest-Perm n s pos e front =
      let x = get! q.storage n in
      let whole = take_last n q.storage (omega (arith, v.within, v.backed)) in
      let trade =
        set-Perm (take n q.storage) 0 x
          (omega (arith, length-take n q.storage, v.within, v.backed)) in
      let same = get!-take n q.storage 0 pos in
      rw (front, ← e, whole)
        (Perm.trans (rw same at trade) (
          Perm.symm
            (rw (append-nil (take n q.storage)) at (perm_middle {a = x} (take n q.storage) []))))

  pop_more :
      (out : Option A) (n : ℕ)
      → 0 < n
      → suc n ≡ q.size
      → (s : List A) × (log : List A) × (pop q out ≡ (
        (sift_down 0 (rest n s log)).0,
        Deque.deliver out root,
        (sift_down 0 (rest n s log)).1,
      ))
        × (length s ≡ length q.storage)
        × (take n s ≡ set (take n q.storage) 0 (get! q.storage n))
  unfolding pop is_empty
  pop_more out n pos e =
      let (log, first) = take_root-lem out in
      let last = last_to_root-lem n log pos in
      let down : q.size - 1 ≡ n = omega arith in
      let some_left : (q.size == 0) ≡ false = ground arith in
      let more : (n == 0) ≡ false = ground arith in
      (
        last.storage,
        log,
        rw (first, some_left, down, more, last.result) refl,
        last.room,
        last.front,
      )

  pop_last :
      (out : Option A)
      → q.size ≡ 1
      → (log : List A) × (pop q out
          ≡ (Status.ok, Deque.deliver out root, record q { size = 0; destroyed = log }))
  unfolding pop is_empty
  pop_last out e =
      let (log, first) = take_root-lem out in
      let some_left : (q.size == 0) ≡ false = ground arith in
      let down : q.size - 1 ≡ 0 = omega arith in (log, rw (first, some_left, down) refl)

  pop_none : (out : Option A) → q.size ≡ 0 → pop q out ≡ (Status.empty, out, q)
  unfolding pop is_empty
  pop_none out e = let none_left : (q.size == 0) ≡ true = ground arith in rw none_left refl

  only_one : q.size ≡ suc 0 → Perm (root ∷ []) (elements q)
  only_one e = rw (e, take_last 0 q.storage (omega (arith, v.within, v.backed))) Perm.rfl

  -- `pop` of a valid queue that is not empty succeeds and delivers an element that no other is
  -- smaller than; the queue stays valid, and with that element it has the elements it had. An empty
  -- queue reports `empty` and does not change.
  pub pop-IsValid :
      (out : Option A)
      → ((q.size ≡ 0) × (pop q out ≡ (Status.empty, out, q)))
        ⊎ (((pop q out).0 ≡ Status.ok)
            × ((pop q out).1 ≡ Deque.deliver out root)
            × ((i : ℕ) → i < q.size → q.less (get! q.storage i) root ≡ false)
            × IsValid (pop q out).2
            × ((pop q out).2.capacity ≡ q.capacity)
            × Perm (root ∷ elements (pop q out).2) (elements q))
  pop-IsValid out = elim (dec_lt 0 q.size) [
    | no none_left ↦ inl (omega arith, pop_none out (omega arith))
    | yes some_left ↦
        let least = λ (i : ℕ) (h : i < q.size). root_least (i + 1) i (omega arith) h in
        elim (dec_lt 1 q.size) [
          | no one ↦
              let e : q.size ≡ suc 0 = omega arith in
              let (log, run) = pop_last out e in
              rw run (
                inr (
                  refl,
                  refl,
                  least,
                  record {
                    strict = v.strict;
                    swappable = record { copies = v.swappable.copies; small = v.swappable.small };
                    within = omega arith;
                    backed = v.backed;
                    heap = λ c p r. absurd (omega arith);
                  },
                  refl,
                  only_one e,
                ))
          | yes two ↦
              let n = q.size - 1 in
              let (s, log, run, wide, front) = pop_more out n (omega arith) (omega arith) in
              let ok : IsSwappable (rest n s log) = record {
                copies = v.swappable.copies;
                small = v.swappable.small;
              } in
              let r =
                sift_down-Sifted 0 (rest n s log) v.strict ok
                  (omega (arith, v.within, v.backed, wide))
                  (rest-DownInv n s (omega arith) (omega arith) front) in
              let (good, valid, same, perm) =
                Sifted-IsValid (rest n s log) (sift_down 0 (rest n s log)) v.strict ok
                  (omega (arith, v.within)) (omega (arith, v.backed, wide)) r in
              rw run (
                inr (
                  good,
                  refl,
                  least,
                  valid,
                  same,
                  Perm.trans (Perm.cons root perm)
                      (rest-Perm n s (omega arith) (omega arith) front),
                ))
        ]
  ]

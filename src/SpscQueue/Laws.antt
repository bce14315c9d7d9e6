-- ===== src/SpscQueue/Laws.antt =====
-- The queue's operations, against the bounded queue of its elements.
pub mod Clear
use native.Mathlib.Decide.{dec_lt}
use memkit.Prelude.{
  ℕ, zero, suc, ◌+◌, ◌-◌, ◌%◌, ◌^◌, ◌≤◌, ◌<◌, ◌≡◌, Bool, true, false, Option, none, some, List, [],
  ◌∷◌, ◌++◌, refl, sym, ap, ap₂, ◌∙◌, inl, inr, arith, ltb, leb, ◌==◌, if◌then◌else◌, Bool-cases,
  Inhabited, length-set, set, get!, get!-set_self,
}
use memkit.Status.{Status}
use memkit.Element.{Kind, destroy}
use memkit.Deque
use memkit.Ring.Inv.{AlwaysCopies}
use memkit.Ring.Ops.Pop.{move_construct-placed}
use memkit.Ring.Ops.Steps.{drop_first-window}
use memkit.Ring.Window.{
  window, window_last, window_shift, window-set_before, window-set_last, add-mod,
}
use memkit.SpscQueue.{SpscQueue, push, pop, overwrite, enqueue, take_out, next, distance}
use memkit.SpscQueue.Inv.{IsValid, contents, length-contents, next-mod, slot_of_lem, tail_slot}

-- `out` is a valid queue of the same capacity, with the elements `xs`.
pub record Holds {A : Type 0} ⦃inhabited : Inhabited A⦄ (q : SpscQueue A) (xs : List A)
    (out : SpscQueue A) : Type 0 where
  pub elements : contents out ≡ xs
  pub valid : IsValid out
  pub capacity : out.capacity ≡ q.capacity

front-window :
    {A : Type 0} ⦃inhabited : Inhabited A⦄ (s : List A) (m t n : ℕ)
    → t < m
    → 0 < n
    → Deque.front (window s m t 0 n) ≡ some (get! s t)
unfolding Deque.front
front-window s m t zero below pos = absurd (omega arith)
front-window s m t (suc n) below pos =
    let here : (t + 0) % m ≡ t = ground (arith, add-mod t 0 m below (omega arith)) in
    ap (λ i. some (get! s i)) here

module _ {A : Type 0} ⦃inhabited : Inhabited A⦄ (q : SpscQueue A) (v : IsValid q) where
  abbrev count : ℕ
  count = distance q.tail q.head

  enqueue-Holds :
      (x : A)
      → AlwaysCopies q.policy.kind
      → count < q.capacity
      → Holds q (contents q ++ x ∷ []) (enqueue q x)
  unfolding enqueue
  enqueue-Holds x copies room =
      let more : distance (next q.tail) q.head ≡ suc count =
        omega (arith, room, v.small, v.head_64, v.tail_64) in
      rw (slot_of_lem q v q.tail, copies (get! q.storage (q.tail % q.capacity)) x)
        (record {
          elements =
              ap (window _ q.capacity (q.head % q.capacity) 0) more
              ∙ ap (λ i. window (set q.storage i x) q.capacity (q.head % q.capacity) 0 (suc count))
                  (tail_slot q v)
              ∙ window-set_last q.storage q.capacity (q.head % q.capacity) count x v.backed
                  (omega (arith, v.positive)) room;
          valid = record {
            backed = rw (length-set q.storage (q.tail % q.capacity) x) v.backed;
            positive = v.positive;
            small = v.small;
            rounds = v.rounds;
            masked = v.masked;
            bits = v.bits;
            power = v.power;
            head_64 = v.head_64;
            tail_64 = omega arith;
            size_in = rw more (omega (arith, room));
          };
          capacity = refl;
        })

  overwrite-Holds :
      (x : A)
      → count ≡ q.capacity
      → Holds q (Deque.drop_first (contents q) ++ x ∷ []) (overwrite q x).2
  unfolding overwrite
  overwrite-Holds x full =
      let h = q.head % q.capacity in
      let c = q.capacity in
      let s' = set q.storage ((h + 0) % c) x in
      let same : distance (next q.tail) (next q.head) ≡ c =
        omega (arith, full, v.small, v.head_64, v.tail_64) in
      let below : h < c = omega (arith, v.positive) in
      let whole : c ≡ suc (c - 1) = omega (arith, v.positive) in
      let here : h ≡ (h + 0) % c = ground (arith, add-mod h 0 c below (omega arith)) in
      let round : (h + (1 + (c - 1))) % c ≡ (h + 0) % c = ground (
        arith,
        add-mod h 0 c below (omega arith),
        add-mod h (1 + (c - 1)) c below (omega (arith, v.positive)),
      ) in
      rw (slot_of_lem q v q.head, move_construct-placed q.policy.kind (get! q.storage h) x)
        (record {
          elements =
              ap₂ (λ i n. window (set q.storage h x) c i 0 n) (next-mod q.head c v.rounds) same
              ∙ ap (λ i. window (set q.storage i x) c ((h + 1) % c) 0 c) here
              ∙ window_shift s' c h 1 0 c
              ∙ ap (window s' c h 1) whole
              ∙ window_last s' c h 1 (c - 1)
              ∙ ap₂ (λ w y. w ++ y ∷ [])
                  (window-set_before q.storage c h 1 (c - 1) 0 x below (omega arith)
                    (omega (arith, v.positive)))
                  (ap (get! s') round
                    ∙ get!-set_self q.storage ((h + 0) % c) x (omega (arith, v.backed, v.positive)))
              ∙ sym (
                  ap (λ w. w ++ x ∷ [])
                    (drop_first-window q.storage c h 0 count (omega (arith, v.positive))
                      ∙ ap (window q.storage c h 1) (omega arith)));
          valid = record {
            backed = rw (length-set q.storage h x) v.backed;
            positive = v.positive;
            small = v.small;
            rounds = v.rounds;
            masked = v.masked;
            bits = v.bits;
            power = v.power;
            head_64 = omega arith;
            tail_64 = omega arith;
            size_in = rw same (omega arith);
          };
          capacity = refl;
        })

  push_room : (x : A) → count < q.capacity → push q (some x) ≡ (Status.ok, some x, enqueue q x)
  unfolding push
  push_room x room = ground arith

  push_over :
      (x : A)
      → q.capacity ≤ count
      → q.overwrite_on_full ≡ true
      → push q (some x) ≡ (Status.ok, some (overwrite q x).1, (overwrite q x).2)
  unfolding push overwrite
  push_over x full over = ground arith

  push_full :
      (x : A)
      → q.capacity ≤ count
      → q.overwrite_on_full ≡ false
      → push q (some x) ≡ (Status.full, some x, q)
  unfolding push
  push_full x full refuse = ground arith

  abbrev spec : A → Status × List A
  spec x = Deque.push_back q.capacity q.overwrite_on_full (contents q) x

  spec_room : (x : A) → count < q.capacity → spec x ≡ (Status.ok, contents q ++ x ∷ [])
  unfolding Deque.push_back
  spec_room x room = ground (arith, length-contents q)

  spec_over :
      (x : A)
      → q.capacity ≤ count
      → q.overwrite_on_full ≡ true
      → spec x ≡ (Status.ok, Deque.drop_first (contents q) ++ x ∷ [])
  unfolding Deque.push_back
  spec_over x full over = ground (arith, length-contents q)

  spec_full :
      (x : A)
      → q.capacity ≤ count
      → q.overwrite_on_full ≡ false
      → spec x ≡ (Status.full, contents q)
  unfolding Deque.push_back
  spec_full x full refuse = ground (arith, length-contents q)

  -- A valid queue whose copies succeed answers `push` as the bounded queue of its elements does,
  -- whether it overwrites when it is full or refuses: the status and the elements, in a valid queue
  -- of the same capacity; also where a counter wraps.
  pub push_refines :
      (x : A)
      → AlwaysCopies q.policy.kind
      → ((push q (some x)).0 ≡ (Deque.push_back q.capacity q.overwrite_on_full (contents q) x).0)
        × Holds q
            (Deque.push_back q.capacity q.overwrite_on_full (contents q) x).1
            (push q (some x)).2
  push_refines x copies = elim (Bool-cases (ltb count q.capacity)) [
    | inl room ↦
        rw (spec_room x (ground arith), push_room x (ground arith))
          (refl, enqueue-Holds x copies (ground arith))
    | inr no_room ↦ elim (Bool-cases q.overwrite_on_full) [
      | inl over ↦
          rw (spec_over x (ground arith) over, push_over x (ground arith) over)
            (refl, overwrite-Holds x (ground (arith, v.size_in)))
      | inr refuse ↦
          rw (spec_full x (ground arith) refuse, push_full x (ground arith) refuse)
            (refl, record { elements = refl; valid = v; capacity = refl })
    ]
  ]

  -- What a successful `pop` leaves, with `y` in the slot and the trace `log`.
  pub after_pop : A → List A → SpscQueue A
  after_pop y log = record q {
    storage = set q.storage (q.head % q.capacity) y;
    destroyed = log;
    head = next q.head;
  }

  pub after_pop-Holds :
      (y : A) (log : List A) → 0 < count → Holds q (Deque.drop_first (contents q)) (after_pop y log)
  unfolding after_pop
  after_pop-Holds y log pos =
      let h = q.head % q.capacity in
      let c = q.capacity in
      let s' = set q.storage ((h + 0) % c) y in
      let less : distance q.tail (next q.head) ≡ count - 1 =
        omega (arith, pos, v.small, v.head_64, v.tail_64, v.size_in) in
      let below : h < c = omega (arith, v.positive) in
      let here : h ≡ (h + 0) % c = ground (arith, add-mod h 0 c below (omega arith)) in
      record {
        elements =
            ap₂ (λ i n. window (set q.storage h y) c i 0 n) (next-mod q.head c v.rounds) less
            ∙ ap (λ i. window (set q.storage i y) c ((h + 1) % c) 0 (count - 1)) here
            ∙ window_shift s' c h 1 0 (count - 1)
            ∙ window-set_before q.storage c h 1 (count - 1) 0 y below (omega arith)
                (omega (arith, v.size_in))
            ∙ sym (drop_first-window q.storage c h 0 count pos);
        valid = record {
          backed = rw (length-set q.storage h y) v.backed;
          positive = v.positive;
          small = v.small;
          rounds = v.rounds;
          masked = v.masked;
          bits = v.bits;
          power = v.power;
          head_64 = omega arith;
          tail_64 = v.tail_64;
          size_in = rw less (omega (arith, v.size_in));
        };
        capacity = refl;
      }

  take_out-deliver :
      (i : ℕ) (out : Option A) (mv : Bool)
      → AlwaysCopies q.policy.kind
      → (take_out q i out mv).0 ≡ Deque.deliver out (get! q.storage i)
  unfolding take_out
  take_out-deliver i none mv copies = refl
  take_out-deliver i (some dst) true copies =
      ap some (move_construct-placed q.policy.kind dst (get! q.storage i))
  take_out-deliver i (some dst) false copies = ap (λ c. some c.1) (copies dst (get! q.storage i))

  spec_pop :
      (out : Option A)
      → 0 < count
      → Deque.pop_front (contents q) out ≡ (
        Status.ok,
        Deque.deliver out (get! q.storage (q.head % q.capacity)),
        Deque.drop_first (contents q),
      )
  unfolding Deque.pop_front
  spec_pop out pos =
      rw
        (
          front-window q.storage q.capacity (q.head % q.capacity) count (omega (arith, v.positive))
              pos,
          Deque.pop_front,
        )
        refl

  spec_pop_empty :
      (out : Option A)
      → count ≡ 0
      → Deque.pop_front (contents q) out ≡ (Status.empty, out, contents q)
  unfolding Deque.pop_front Deque.front
  spec_pop_empty out none_left = rw none_left refl

  pop_some :
      (out : Option A) (mv : Bool)
      → AlwaysCopies q.policy.kind
      → 0 < count
      → (y : A) × (log : List A) × (pop q out mv
          ≡ (Status.ok, Deque.deliver out (get! q.storage (q.head % q.capacity)), after_pop y log))
  unfolding pop after_pop
  pop_some out mv copies pos =
      let i = q.head % q.capacity in
      let left = (take_out q i out mv).1 in
      let some_left : (q.head == q.tail) ≡ false = ground (arith, v.head_64) in
      (
        left,
        destroy q.policy.kind left q.destroyed,
        rw (some_left, slot_of_lem q v q.head, take_out-deliver i out mv copies) refl,
      )

  pub pop_none : (out : Option A) (mv : Bool) → count ≡ 0 → pop q out mv ≡ (Status.empty, out, q)
  unfolding pop
  pop_none out mv none_left = ground (arith, v.head_64, v.tail_64)

  -- A valid queue whose copies succeed answers `pop` as the queue of its elements does, with or
  -- without somewhere to put the element, and whether it moves or copies it out: the status, the
  -- oldest element, and the others in a valid queue of the same capacity; also where a counter
  -- wraps.
  pub pop_refines :
      (out : Option A) (mv : Bool)
      → AlwaysCopies q.policy.kind
      → ((pop q out mv).0 ≡ (Deque.pop_front (contents q) out).0)
        × ((pop q out mv).1 ≡ (Deque.pop_front (contents q) out).1)
        × Holds q (Deque.pop_front (contents q) out).2 (pop q out mv).2
  pop_refines out mv copies = elim (dec_lt 0 count) [
    | yes pos ↦
        let (y, log, run) = pop_some out mv copies pos in
        rw (spec_pop out pos, run) (refl, refl, after_pop-Holds y log pos)
    | no none_left ↦
        rw (spec_pop_empty out (omega arith), pop_none out mv (omega arith))
          (refl, refl, record { elements = refl; valid = v; capacity = refl })
  ]

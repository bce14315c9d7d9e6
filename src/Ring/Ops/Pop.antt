-- ===== src/Ring/Ops/Pop.antt =====
-- `pop_front`, `pop_back` and the reads, against the deque.
use native.Mathlib.Nat.{mod-add-mod}
use native.Mathlib.Decide.{dec_lt}
use memkit.Prelude.{
  ℕ, zero, suc, ◌+◌, ◌-◌, ◌%◌, ◌<◌, ◌≡◌, inl, inr, refl, sym, ap, ◌∙◌, Bool, true, false, Option,
  none, some, List, [], ◌∷◌, ◌++◌, arith, ◌==◌, Bool-cases, Inhabited, length-set, set, set-get!,
  get!,
}
use memkit.Status.{Status}
use memkit.Element.{Kind, is_runtime, move_construct}
use memkit.Deque
use memkit.Ring.{Ring, destroy_if_needed, step_back, advance}
use memkit.Ring.Ops.{extract_slot, pop_front, pop_back}
use memkit.Ring.Ops.Steps.{drop_first-window, drop_last-window}
use memkit.Ring.Window.{
  window, window_last, add-mod, window_shift, window-set_before, window-set_ne,
}
use memkit.Ring.Inv.{IsValid, AlwaysCopies, contents, advance_lem, step_back_head}

module _ {A : Type 0} ⦃inhabited : Inhabited A⦄ where
  back-append : (q : List A) (x : A) → Deque.back (q ++ x ∷ []) ≡ some x
  unfolding Deque.back
  back-append [] x = refl
  back-append (y ∷ []) x = refl
  back-append (y ∷ z ∷ q) x = back-append (z ∷ q) x

-- `out` is a valid buffer of the same capacity, with the status, the delivered element and the
-- elements of `q`.
pub record Yields {A : Type 0} ⦃inhabited : Inhabited A⦄ (r : Ring A)
    (q : Status × Option A × List A) (out : Status × Option A × Ring A) : Type 0 where
  pub status : out.0 ≡ q.0
  pub taken : out.1 ≡ q.1
  pub elements : contents out.2 ≡ q.2
  pub valid : IsValid out.2
  pub capacity : out.2.capacity ≡ r.capacity

module _ {A : Type 0} ⦃inhabited : Inhabited A⦄ where
  pub move_construct-placed : (k : Kind A) (dst src : A) → (move_construct k dst src).0 ≡ src
  move_construct-placed (Kind.typed leaves d) dst src = refl
  move_construct-placed (Kind.runtime f d) dst src = refl

  -- A slot that is taken out is delivered; at most that slot and the trace change.
  extract_lem :
      (r : Ring A) (i : ℕ) (out : Option A) (mv : Bool)
      → AlwaysCopies r.policy.kind
      → (y : A) × (log : List A) × (extract_slot r i out mv ≡ (
        Status.ok,
        Deque.deliver out (get! r.storage i),
        record r { storage = set r.storage i y; destroyed = log },
      ))
  unfolding extract_slot
  extract_lem r i none mv copies =
      (get! r.storage i, (destroy_if_needed r i).destroyed, rw (set-get! r.storage i))
  extract_lem r i (some old) mv copies = elim (Bool-cases (is_runtime r.policy.kind)) [
    | inl run ↦ (x, r.destroyed, rw (run, copies old x, set-get! r.storage i))
    | inr typed ↦ elim (Bool-cases mv) [
      | inl move ↦ (
        left,
        (destroy_if_needed (record r { storage = set r.storage i left }) i).destroyed,
        rw (typed, move, move_construct-placed r.policy.kind old x),
      )
      | inr copy ↦ (x, r.destroyed, rw (typed, copy, copies old x, set-get! r.storage i))
    ]
  ]
    where
      x : A
      x = get! r.storage i

      left : A
      left = (move_construct r.policy.kind old x).1

module _ {A : Type 0} ⦃inhabited : Inhabited A⦄ (r : Ring A) (v : IsValid r) where
  front-contents : 0 < r.count → Deque.front (contents r) ≡ some (get! r.storage r.tail)
  unfolding Deque.front
  front-contents pos = first r.count pos
    where
      first :
          (n : ℕ)
          → 0 < n
          → Deque.front (window r.storage r.capacity r.tail 0 n) ≡ some (get! r.storage r.tail)
      first zero h = absurd (omega arith)
      first (suc n) h =
          ap (λ k. some (get! r.storage k))
            (ground (arith, add-mod r.tail 0 r.capacity v.tail_in (omega arith)))

  back-contents : 0 < r.count → Deque.back (contents r) ≡ some (get! r.storage (step_back r r.head))
  back-contents pos = rw (step_back_head r v pos) (last r.count pos)
    where
      last :
          (n : ℕ)
          → 0 < n
          → Deque.back (window r.storage r.capacity r.tail 0 n)
            ≡ some (get! r.storage ((r.tail + (n - 1)) % r.capacity))
      last zero h = absurd (omega arith)
      last (suc n) h =
          rw (window_last r.storage r.capacity r.tail 0 n, back-append)
            (ap (λ k. some (get! r.storage ((r.tail + k) % r.capacity))) (omega arith))

  -- What a successful `pop_front` leaves.
  rest_front : A → List A → Ring A
  rest_front y log = record r {
    storage = set r.storage r.tail y;
    destroyed = log;
    tail = advance r r.tail 1;
    count = r.count - 1;
  }

  rest_back : A → List A → Ring A
  rest_back y log =
      let back = step_back r r.head in
      record r { storage = set r.storage back y; destroyed = log; head = back; count = r.count - 1 }

  rest_front-IsValid : (y : A) (log : List A) → 0 < r.count → IsValid (rest_front y log)
  unfolding rest_front
  rest_front-IsValid y log pos =
      let forward = advance_lem r v r.tail 1 v.tail_in (omega arith) in
      record {
        sized = v.sized;
        backed = rw (length-set r.storage r.tail y) v.backed;
        small = v.small;
        tail_in = rw forward (omega arith);
        count_in = omega arith;
        head_at = rw (forward, v.head_at, mod-add-mod) (ap (λ k. k % r.capacity) (omega arith));
      }

  rest_front-contents :
      (y : A) (log : List A)
      → 0 < r.count
      → contents (rest_front y log) ≡ Deque.drop_first (contents r)
  unfolding rest_front
  rest_front-contents y log pos = rw (advance_lem r v r.tail 1 v.tail_in (omega arith)) (
      window_shift _ r.capacity r.tail 1 0 (r.count - 1)
      ∙ ap (λ k. window (set r.storage k y) r.capacity r.tail 1 (r.count - 1)) here
      ∙ window-set_before r.storage r.capacity r.tail 1 (r.count - 1) 0 y v.tail_in (omega arith)
          (omega arith)
      ∙ sym (drop_first-window r.storage r.capacity r.tail 0 r.count pos))
    where
      here : r.tail ≡ (r.tail + 0) % r.capacity
      here = ground (arith, add-mod r.tail 0 r.capacity v.tail_in (omega arith))

  rest_back-IsValid : (y : A) (log : List A) → 0 < r.count → IsValid (rest_back y log)
  unfolding rest_back
  rest_back-IsValid y log pos = record {
    sized = v.sized;
    backed = rw (length-set r.storage (step_back r r.head) y) v.backed;
    small = v.small;
    tail_in = v.tail_in;
    count_in = omega arith;
    head_at = step_back_head r v pos;
  }

  rest_back-contents :
      (y : A) (log : List A)
      → 0 < r.count
      → contents (rest_back y log) ≡ Deque.drop_last (contents r)
  unfolding rest_back
  rest_back-contents y log pos = rw (step_back_head r v pos) (
      window-set_ne r.storage r.capacity r.tail 0 (r.count - 1) (r.count - 1) y v.tail_in
        (omega arith) (omega arith)
      ∙ sym (drop_last-window r.storage r.capacity r.tail r.count pos))

  spec_front :
      (out : Option A)
      → 0 < r.count
      → Deque.pop_front (contents r) out
        ≡ (Status.ok, Deque.deliver out (get! r.storage r.tail), Deque.drop_first (contents r))
  unfolding Deque.pop_front
  spec_front out pos = rw (front-contents pos, Deque.pop_front)

  spec_back :
      (out : Option A)
      → 0 < r.count
      → Deque.pop_back (contents r) out ≡ (
        Status.ok,
        Deque.deliver out (get! r.storage (step_back r r.head)),
        Deque.drop_last (contents r),
      )
  unfolding Deque.pop_back
  spec_back out pos = rw (back-contents pos, Deque.pop_back)

  spec_empty :
      (out : Option A)
      → r.count ≡ 0
      → (Deque.pop_front (contents r) out ≡ (Status.empty, out, contents r))
        × (Deque.pop_back (contents r) out ≡ (Status.empty, out, contents r))
  unfolding Deque.pop_front Deque.pop_back Deque.front Deque.back
  spec_empty out e = rw e (refl, refl)

  pop_front_some :
      (out : Option A) (mv : Bool)
      → AlwaysCopies r.policy.kind
      → 0 < r.count
      → (y : A) × (log : List A) × (pop_front r out mv
          ≡ (Status.ok, Deque.deliver out (get! r.storage r.tail), rest_front y log))
  unfolding pop_front rest_front
  pop_front_some out mv copies pos =
      let (y, log, run) = extract_lem r r.tail out mv copies in
      let some_left : (r.count == 0) ≡ false = ground arith in (y, log, rw (some_left, run))

  pop_back_some :
      (out : Option A) (mv : Bool)
      → AlwaysCopies r.policy.kind
      → 0 < r.count
      → (y : A) × (log : List A) × (pop_back r out mv
          ≡ (Status.ok, Deque.deliver out (get! r.storage (step_back r r.head)), rest_back y log))
  unfolding pop_back rest_back
  pop_back_some out mv copies pos =
      let back = step_back r r.head in
      let (y, log, run) = extract_lem (record r { head = back }) back out mv copies in
      let some_left : (r.count == 0) ≡ false = ground arith in (y, log, rw (some_left, run))

  pops_empty :
      (out : Option A) (mv : Bool)
      → r.count ≡ 0
      → (pop_front r out mv ≡ (Status.empty, out, r)) × (pop_back r out mv ≡ (Status.empty, out, r))
  unfolding pop_front pop_back
  pops_empty out mv e =
      let none_left : (r.count == 0) ≡ true = ground arith in (rw none_left, rw none_left)

  unchanged : (out : Option A) → Yields r (Status.empty, out, contents r) (Status.empty, out, r)
  unchanged out = record {
    status = refl;
    taken = refl;
    elements = refl;
    valid = v;
    capacity = refl;
  }

  -- A valid buffer whose copies succeed answers `pop_front` as the deque of its elements does, with
  -- or without somewhere to put the element, and whether it copies or moves it out: the status, the
  -- oldest element, the others in order, and a valid buffer of the same capacity.
  pub pop_front_refines :
      (out : Option A) (mv : Bool)
      → AlwaysCopies r.policy.kind
      → Yields r (Deque.pop_front (contents r) out) (pop_front r out mv)
  pop_front_refines out mv copies = elim (dec_lt 0 r.count) [
    | no none_left ↦
        rw ((spec_empty out (omega arith)).0, (pops_empty out mv (omega arith)).0) (unchanged out)
    | yes pos ↦
        let (y, log, run) = pop_front_some out mv copies pos in
        rw (spec_front out pos, run)
          (record {
            status = refl;
            taken = refl;
            elements = rest_front-contents y log pos;
            valid = rest_front-IsValid y log pos;
            capacity = unfold rest_front in refl;
          })
  ]

  -- A valid buffer whose copies succeed answers `pop_back` as the deque of its elements does, with
  -- or without somewhere to put the element, and whether it copies or moves it out: the status, the
  -- newest element, the others in order, and a valid buffer of the same capacity.
  pub pop_back_refines :
      (out : Option A) (mv : Bool)
      → AlwaysCopies r.policy.kind
      → Yields r (Deque.pop_back (contents r) out) (pop_back r out mv)
  pop_back_refines out mv copies = elim (dec_lt 0 r.count) [
    | no none_left ↦
        rw ((spec_empty out (omega arith)).1, (pops_empty out mv (omega arith)).1) (unchanged out)
    | yes pos ↦
        let (y, log, run) = pop_back_some out mv copies pos in
        rw (spec_back out pos, run)
          (record {
            status = refl;
            taken = refl;
            elements = rest_back-contents y log pos;
            valid = rest_back-IsValid y log pos;
            capacity = unfold rest_back in refl;
          })
  ]

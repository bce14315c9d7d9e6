-- ===== src/Ring/Ops/Steps.antt =====
-- What one step of the circular buffer does to its elements and its invariant.
use native.Mathlib.Nat.{mod-add-mod}
use native.Mathlib.Numerals.{add-one}
use memkit.Prelude.{
  ℕ, zero, suc, ◌+◌, ◌-◌, ◌%◌, ◌<◌, ◌≡◌, refl, sym, ap, ap₂, ◌∙◌, Bool, List, [], ◌∷◌, ◌++◌, arith,
  Inhabited, length, length-set, length-append, get!, get!-set_self, set, take,
}
use memkit.Status.{Status}
use memkit.Element.{Kind}
use memkit.Deque
use memkit.Ring.Window.{
  window, add-mod, window_shift, window_last, window-set_last, window-set_before,
}
use memkit.Ring.{Ring, advance, step_back}
use memkit.Ring.Ops.{append, prepend, drop_oldest, drop_newest, place, write_slot}
use memkit.Ring.Inv.{
  IsValid, AlwaysCopies, contents, advance_lem, step_back_lem, step_back_next, step_back_head,
  head_in,
}

module _ {ℓ} {A : Type ℓ} where
  place_copies :
      (k : Kind A) (use_move : Bool) (dst src : A)
      → AlwaysCopies k
      → place k use_move dst src ≡ (Status.ok, src)
  unfolding place
  place_copies (Kind.typed leaves d) use_move dst src h = ground arith
  place_copies (Kind.runtime f d) use_move dst src h = h dst src

  take-length : (q r : List A) → take (length q) (q ++ r) ≡ q
  take-length [] r = refl
  take-length (x ∷ q) r = ap (◌∷◌ x) (take-length q r)

  drop_last-append : (q : List A) (x : A) → Deque.drop_last (q ++ x ∷ []) ≡ q
  unfolding Deque.drop_last
  drop_last-append q x =
      ap (λ k. take k (q ++ x ∷ [])) (omega (arith, length-append q (x ∷ [])))
      ∙ take-length q (x ∷ [])

pub drop_first-window {ℓ} :
    {A : Type ℓ} ⦃inhabited : Inhabited A⦄ (s : List A) (cap t i n : ℕ)
    → 0 < n
    → Deque.drop_first (window s cap t i n) ≡ window s cap t (i + 1) (n - 1)
drop_first-window s cap t i zero h = absurd (omega arith)
drop_first-window s cap t i (suc n) h = ap (window s cap t (i + 1)) (omega arith)

pub drop_last-window {ℓ} :
    {A : Type ℓ} ⦃inhabited : Inhabited A⦄ (s : List A) (cap t n : ℕ)
    → 0 < n
    → Deque.drop_last (window s cap t 0 n) ≡ window s cap t 0 (n - 1)
drop_last-window s cap t zero h = absurd (omega arith)
drop_last-window s cap t (suc n) h =
    ap Deque.drop_last (window_last s cap t 0 n)
    ∙ drop_last-append (window s cap t 0 n) _
    ∙ ap (window s cap t 0) (omega arith)

module _ {ℓ} {A : Type ℓ} ⦃inhabited : Inhabited A⦄ (r : Ring A) (v : IsValid r) where
  pub append_lem :
      (x : A) (use_move : Bool)
      → AlwaysCopies r.policy.kind
      → r.count < r.capacity
      → (r' : Ring A) × (append r x use_move ≡ (Status.ok, r'))
        × IsValid r'
        × (contents r' ≡ contents r ++ x ∷ [])
        × (r'.capacity ≡ r.capacity)
  unfolding append write_slot
  append_lem x mv copies room = (
    record r { storage = set r.storage r.head x; head = advance r r.head 1; count = r.count + 1 },
    rw (place_copies r.policy.kind mv (get! r.storage r.head) x copies),
    record {
      sized = v.sized;
      backed = rw (length-set r.storage r.head x) v.backed;
      small = v.small;
      tail_in = v.tail_in;
      count_in = omega arith;
      head_at =
          rw (advance_lem r v r.head 1 (head_in r v) (omega arith), v.head_at, mod-add-mod)
            (ap (λ k. k % r.capacity) (omega arith));
    },
    rw v.head_at (
        ap (window (set r.storage ((r.tail + r.count) % r.capacity) x) r.capacity r.tail 0)
          (add-one r.count)
        ∙ window-set_last r.storage r.capacity r.tail r.count x v.backed v.tail_in room),
    refl,
  )

  -- The slot before the tail, from which the old elements are the second on.
  step_back_tail :
      (s : List A)
      → window s r.capacity (step_back r r.tail) 1 r.count ≡ window s r.capacity r.tail 0 r.count
  step_back_tail s =
      let t = step_back r r.tail in
      sym (window_shift s r.capacity t 1 0 r.count)
      ∙ ap (λ k. window s r.capacity k 0 r.count) (step_back_next r v r.tail v.tail_in)

  step_back_in : (i : ℕ) → i < r.capacity → step_back r i < r.capacity
  step_back_in i h = rw (step_back_lem r v i h) (omega arith)

  step_back_self : step_back r r.tail ≡ (step_back r r.tail + 0) % r.capacity
  step_back_self =
      let small = step_back_in r.tail v.tail_in in
      ground (arith, add-mod (step_back r r.tail) 0 r.capacity small (omega arith))

  head_from_tail : r.head ≡ (step_back r r.tail + (r.count + 1)) % r.capacity
  head_from_tail =
      let t = step_back r r.tail in
      v.head_at
      ∙ ap (λ k. (k + r.count) % r.capacity) (sym (step_back_next r v r.tail v.tail_in))
      ∙ mod-add-mod (t + 1) r.capacity r.count
      ∙ ap (λ k. k % r.capacity) (omega arith)

  pub prepend_lem :
      (x : A) (use_move : Bool)
      → AlwaysCopies r.policy.kind
      → r.count < r.capacity
      → (r' : Ring A) × (prepend r x use_move ≡ (Status.ok, r'))
        × IsValid r'
        × (contents r' ≡ x ∷ contents r)
        × (r'.capacity ≡ r.capacity)
  unfolding prepend write_slot
  prepend_lem x mv copies room =
      let t = step_back r r.tail in
      (
        record r { storage = set r.storage t x; tail = t; count = r.count + 1 },
        rw (place_copies r.policy.kind mv (get! r.storage t) x copies),
        record {
          sized = v.sized;
          backed = rw (length-set r.storage t x) v.backed;
          small = v.small;
          tail_in = step_back_in r.tail v.tail_in;
          count_in = omega arith;
          head_at = head_from_tail;
        },
        ap (window (set r.storage t x) r.capacity t 0) (add-one r.count)
            ∙ ap₂ ◌∷◌
                (rw (← step_back_self) (
                  get!-set_self r.storage t x
                    (omega (arith, v.backed, step_back_in r.tail v.tail_in))))
                (ap (λ k. window (set r.storage k x) r.capacity t 1 r.count) step_back_self
                  ∙ window-set_before r.storage r.capacity t 1 r.count 0 x
                      (step_back_in r.tail v.tail_in) (omega arith) (omega arith)
                  ∙ step_back_tail r.storage),
        refl,
      )

  pub drop_oldest_lem :
      0 < r.count
      → IsValid (drop_oldest r)
        × (contents (drop_oldest r) ≡ Deque.drop_first (contents r))
        × ((drop_oldest r).capacity ≡ r.capacity)
  unfolding drop_oldest
  drop_oldest_lem pos =
      let forward = advance_lem r v r.tail 1 v.tail_in (omega arith) in
      (
        record {
          sized = v.sized;
          backed = v.backed;
          small = v.small;
          tail_in = rw forward (omega arith);
          count_in = omega arith;
          head_at = rw (forward, v.head_at, mod-add-mod) (ap (λ k. k % r.capacity) (omega arith));
        },
        rw forward (
            window_shift r.storage r.capacity r.tail 1 0 (r.count - 1)
            ∙ sym (drop_first-window r.storage r.capacity r.tail 0 r.count pos)),
        refl,
      )

  pub drop_newest_lem :
      0 < r.count
      → IsValid (drop_newest r)
        × (contents (drop_newest r) ≡ Deque.drop_last (contents r))
        × ((drop_newest r).capacity ≡ r.capacity)
  unfolding drop_newest
  drop_newest_lem pos = (
    record {
      sized = v.sized;
      backed = v.backed;
      small = v.small;
      tail_in = v.tail_in;
      count_in = omega arith;
      head_at = step_back_head r v pos;
    },
    sym (drop_last-window r.storage r.capacity r.tail r.count pos),
    refl,
  )

-- ===== src/SpscQueue/Laws/Clear.antt =====
-- `clear` of the queue: its loop ends when the queue is empty, and destroys what was in it.
use memkit.Prelude.{
  ℕ, zero, suc, ◌+◌, ◌%◌, ◌<◌, ◌≡◌, true, false, none, List, [], ◌∷◌, ◌++◌, refl, sym, ap, ap₂, ◌∙◌,
  arith, ◌==◌, if◌then◌else◌, append-nil, append_assoc, Inhabited, set-get!, get!,
}
use memkit.Status.{Status}
use memkit.Element.{Kind, destroy, needs_destroy_on_clear}
use memkit.Deque
use memkit.Ring.Window.{window, add-mod}
use memkit.SpscQueue.{SpscQueue, pop, take_out, next, distance, drain, clear, size}
use memkit.SpscQueue.Inv.{IsValid, contents, slot_of_lem}
use memkit.SpscQueue.Laws.{Holds, after_pop, after_pop-Holds, pop_none}

module _ {A : Type 0} ⦃inhabited : Inhabited A⦄ where
  -- The trace after the elements `xs` were destroyed, oldest first.
  abbrev pub destroy_all : Kind A → List A → List A → List A
  destroy_all k log xs = if needs_destroy_on_clear k then log ++ xs else log

  destroy_all-nil : (k : Kind A) (log : List A) → destroy_all k log [] ≡ log
  destroy_all-nil (Kind.typed leaves true) log = append-nil log
  destroy_all-nil (Kind.typed leaves false) log = refl
  destroy_all-nil (Kind.runtime f true) log = append-nil log
  destroy_all-nil (Kind.runtime f false) log = refl

  destroy_all-destroy :
      (k : Kind A) (log : List A) (x : A) (xs : List A)
      → destroy_all k (destroy k x log) xs ≡ destroy_all k log (x ∷ xs)
  destroy_all-destroy (Kind.typed leaves true) log x xs = append_assoc log (x ∷ []) xs
  destroy_all-destroy (Kind.typed leaves false) log x xs = refl
  destroy_all-destroy (Kind.runtime f true) log x xs = append_assoc log (x ∷ []) xs
  destroy_all-destroy (Kind.runtime f false) log x xs = refl

  oldest : SpscQueue A → A
  oldest q = get! q.storage (q.head % q.capacity)

  -- One round of the loop.
  discarded : SpscQueue A → SpscQueue A
  discarded q = record q {
    destroyed = destroy q.policy.kind (oldest q) q.destroyed;
    head = next q.head;
  }

  pop-discarded :
      (q : SpscQueue A)
      → IsValid q
      → 0 < distance q.tail q.head
      → pop q none true ≡ (Status.ok, none, discarded q)
  unfolding pop take_out discarded oldest
  pop-discarded q v pos =
      let some_left : (q.head == q.tail) ≡ false = ground (arith, v.head_64) in
      rw (some_left, slot_of_lem q v q.head, set-get! q.storage (q.head % q.capacity)) refl

  discarded-Holds :
      (q : SpscQueue A)
      → IsValid q
      → 0 < distance q.tail q.head
      → Holds q (Deque.drop_first (contents q)) (discarded q)
  unfolding discarded after_pop oldest
  discarded-Holds q v pos =
      let h = after_pop-Holds q v (oldest q) (destroy q.policy.kind (oldest q) q.destroyed) pos in
      rw (set-get! q.storage (q.head % q.capacity)) at h

  first_of :
      (s : List A) (m t n : ℕ)
      → t < m
      → 0 < n
      → get! s t ∷ Deque.drop_first (window s m t 0 n) ≡ window s m t 0 n
  first_of s m t zero below pos = absurd (omega arith)
  first_of s m t (suc n) below pos =
      let here : t ≡ (t + 0) % m = ground (arith, add-mod t 0 m below (omega arith)) in
      ap (λ i. get! s i ∷ window s m t 1 n) here

  oldest-contents :
      (q : SpscQueue A)
      → IsValid q
      → 0 < distance q.tail q.head
      → oldest q ∷ Deque.drop_first (contents q) ≡ contents q
  unfolding oldest
  oldest-contents q v pos =
      first_of q.storage q.capacity (q.head % q.capacity) (distance q.tail q.head)
        (omega (arith, v.positive)) pos

  drain_lem :
      (n : ℕ) (q : SpscQueue A)
      → IsValid q
      → distance q.tail q.head ≡ n
      → drain (suc n) q
        ≡ record q { head = q.tail; destroyed = destroy_all q.policy.kind q.destroyed (contents q) }
  unfolding drain discarded
  drain_lem zero q v e =
      let empty : contents q ≡ [] = ap (window q.storage q.capacity (q.head % q.capacity) 0) e in
      rw (pop_none q v none true e) (
        ap₂ (λ h d. record q { head = h; destroyed = d }) (omega (arith, v.head_64, v.tail_64))
          (sym (
            ap (destroy_all q.policy.kind q.destroyed) empty
            ∙ destroy_all-nil q.policy.kind q.destroyed)))
  drain_lem (suc n) q v e =
      let held = discarded-Holds q v (omega arith) in
      let fewer : distance q.tail (next q.head) ≡ n = omega (arith, v.head_64, v.tail_64) in
      rw (pop-discarded q v (omega arith)) (
        drain_lem n (discarded q) held.valid fewer
        ∙ ap (λ d. record q { head = q.tail; destroyed = d })
            (ap (destroy_all q.policy.kind (discarded q).destroyed) held.elements
              ∙ destroy_all-destroy q.policy.kind q.destroyed (oldest q)
                  (Deque.drop_first (contents q))
              ∙ ap (destroy_all q.policy.kind q.destroyed) (oldest-contents q v (omega arith))))

  -- `clear` of a valid queue destroys each of its elements exactly once, oldest first, if they
  -- need it, and leaves an empty valid queue of the same capacity.
  pub clear-drains :
      (q : SpscQueue A)
      → IsValid q
      → ((clear q).destroyed ≡ destroy_all q.policy.kind q.destroyed (contents q))
        × Holds q [] (clear q)
  unfolding clear size
  clear-drains q v =
      let fuel : distance q.tail q.head + 1 ≡ suc (distance q.tail q.head) = omega arith in
      let run : drain (distance q.tail q.head + 1) q ≡ record q {
        head = q.tail;
        destroyed = destroy_all q.policy.kind q.destroyed (contents q);
      } =
        ap (λ n. drain n q) fuel ∙ drain_lem (distance q.tail q.head) q v refl in
      rw run (
        refl,
        record {
          elements = refl;
          valid = record {
            backed = v.backed;
            positive = v.positive;
            small = v.small;
            rounds = v.rounds;
            masked = v.masked;
            bits = v.bits;
            power = v.power;
            head_64 = omega arith;
            tail_64 = omega arith;
            size_in = omega arith;
          };
          capacity = refl;
        },
      )

-- ===== src/Vector/Ends.antt =====
-- The ends of the vector: `push_back` and `pop_back`.
use native.Mathlib.Decide.{dec_lt}
use native.Mathlib.Numerals.{add-one}
use memkit.Prelude.{
  ℕ, suc, ◌+◌, ◌-◌, ◌*◌, ◌^◌, ◌≤◌, ◌<◌, ◌≡◌, ◌≢◌, ◌⊎◌, inl, inr, refl, sym, ap, ◌∙◌, Bool, true,
  false, Option, some, List, [], ◌∷◌, ◌++◌, arith, ◌==◌, subst, if◌then◌else◌, Bool-cases,
  Inhabited, get!, set, set-get!, take_last, take-set, set_past, length-take, take-set_last,
  length-set, take,
}
use memkit.Status.{Status, not_ok→not_is_ok}
use memkit.Element.{Policy, move_construct, destroy, is_runtime, needs_destroy_on_clear}
use memkit.Growth.{Platform, grow_capacity, size_mod}
use memkit.Growth.Bounds.{grow_capacity_bounds}
use memkit.Ring.Inv.{AlwaysCopies}
use memkit.Ring.Ops.Pop.{move_construct-placed}
use memkit.Vector.{Vector, block_of, grow}
use memkit.Vector.Inv.{IsValid, contents}
use memkit.Vector.Growing.{Supplies, Outcome, grow-Outcome}
use memkit.Vector.{room, append, push_back, pop_back, is_empty}

module _ {A : Type 0} ⦃inhabited : Inhabited A⦄ where
  -- The vector `w` has the elements `q`.
  pub record Has (q : List A) (w : Vector A) : Type 0 where
    pub block : List A
    pub valid : IsValid w block
    pub elements : contents w ≡ q

  append_stored :
      (v : Vector A) (old : List A) (x : A) (mv : Bool)
      → AlwaysCopies v.policy.kind
      → append (record v { storage = some old }) x mv
        ≡ (Status.ok, record v { storage = some (set old v.size x); size = v.size + 1 })
  unfolding append
  append_stored v old x true copies =
      let k = v.policy.kind in
      elim (Bool-cases (is_runtime k)) [
        | inl run ↦ rw (run, copies (get! old v.size) x) refl
        | inr typed ↦ rw (typed, move_construct-placed k (get! old v.size) x) refl
      ]
  append_stored v old x false copies =
      let k = v.policy.kind in
      elim (Bool-cases (is_runtime k)) [
        | inl run ↦ rw (run, copies (get! old v.size) x) refl
        | inr typed ↦ rw (typed, copies (get! old v.size) x) refl
      ]

  append-Has :
      (v : Vector A) (old : List A) (x : A) (mv : Bool)
      → AlwaysCopies v.policy.kind
      → IsValid v old
      → v.size < v.capacity
      → ((append v x mv).0 ≡ Status.ok) × Has (contents v ++ x ∷ []) (append v x mv).1
  append-Has v old x mv copies valid free =
      subst
        (λ s.
          ((append (record v { storage = s }) x mv).0 ≡ Status.ok)
          × Has (take v.size (block_of s) ++ x ∷ []) (append (record v { storage = s }) x mv).1)
        (sym valid.stored)
        (rw (append_stored v old x mv copies) (
          refl,
          record {
            block = set old v.size x;
            valid = record {
              stored = refl;
              sized = valid.sized;
              backed = ground (arith, valid.backed, length-set old v.size x);
              within = omega arith;
            };
            elements =
                ap (λ n. take n (set old v.size x)) (add-one v.size)
                ∙ take-set_last v.size old x (omega (arith, valid.backed));
          },
        ))

  -- What a pop leaves: the popped element was the last one.
  pub record Popped (v : Vector A) (out : Status × Option A × Vector A) : Type 0 where
    pub element : A
    pub done : out.0 ≡ Status.ok
    pub given : out.1 ≡ some element
    pub block : List A
    pub valid : IsValid out.2 block
    pub whole : contents v ≡ contents out.2 ++ element ∷ []

  pop_back_stored :
      (v : Vector A) (old : List A) (y : A)
      → AlwaysCopies v.policy.kind
      → 0 < v.size
      → (left : A) × (log : List A) × (pop_back (record v { storage = some old }) (some y) ≡ (
        Status.ok,
        some (get! old (v.size - 1)),
        record v { storage = some (set old (v.size - 1) left); size = v.size - 1; destroyed = log },
      ))
  unfolding pop_back is_empty
  pop_back_stored v old y copies some_left =
      let k = v.policy.kind in
      let n : ℕ = v.size - 1 in
      let nonempty : (v.size == 0) ≡ false = ground arith in
      elim (Bool-cases (is_runtime k)) [
        | inl run ↦ (
          get! old n,
          v.destroyed,
          rw (nonempty, run, copies y (get! old n), set-get! old n) refl,
        )
        | inr typed ↦
            let l = (move_construct k y (get! old n)).1 in
            (
              l,
              if needs_destroy_on_clear k
                  then destroy k (get! (set old n l) n) v.destroyed
                  else v.destroyed,
              rw (nonempty, typed, move_construct-placed k y (get! old n)) refl,
            )
      ]

  -- `pop_back` into an element, on a valid non-empty vector whose copies succeed: it reports `ok`,
  -- hands out the last element, and leaves a valid vector with the elements before it in order.
  pub pop_back-takes :
      (v : Vector A) (old : List A) (y : A)
      → IsValid v old
      → AlwaysCopies v.policy.kind
      → 0 < v.size
      → Popped v (pop_back v (some y))
  pop_back-takes v old y valid copies some_left =
      let n : ℕ = v.size - 1 in
      let (left, log, run) = pop_back_stored v old y copies some_left in
      subst (λ s. Popped (record v { storage = s }) (pop_back (record v { storage = s }) (some y)))
        (sym valid.stored)
        (rw run (record {
          element = get! old n;
          done = refl;
          given = refl;
          block = set old n left;
          valid = record {
            stored = refl;
            sized = valid.sized;
            backed = ground (arith, valid.backed, length-set old n left);
            within = omega (arith, valid.within);
          };
          whole =
              ap (λ k. take k old) {y = suc (v.size - 1)} (omega arith)
              ∙ take_last n old (omega (arith, valid.backed, valid.within))
              ∙ ap (λ q. q ++ get! old n ∷ [])
                  (sym (
                    take-set n n old left
                    ∙ set_past (take n old) n left (omega (arith, length-take n old))));
        }))

-- Either the element has been added, or there was no room and the growth has failed.
abbrev pub Pushed :
    {A : Type 0} ⦃inhabited : Inhabited A⦄ → Vector A → A → Status × Vector A → Type 0
Pushed v x out =
    ((out.0 ≡ Status.ok) × Has (contents v ++ x ∷ []) out.1)
    ⊎ ((v.size ≡ v.capacity) × (out.0 ≢ Status.ok) × (out.1 ≡ v))

module _ {A : Type 0} ⦃inhabited : Inhabited A⦄ (platform : Platform A) (v : Vector A) (x : A)
    (mv : Bool) where
  push_back_room : v.size < v.capacity → push_back platform v (some x) mv ≡ append v x mv
  unfolding push_back room
  push_back_room h = ground arith

  push_back_ok :
      v.size ≡ v.capacity
      → v.size + 1 < size_mod
      → (grow platform v (v.size + 1)).0 ≡ Status.ok
      → push_back platform v (some x) mv ≡ append (grow platform v (v.size + 1)).1 x mv
  unfolding push_back room
  push_back_ok full small good = ground arith

  push_back_bad :
      v.size ≡ v.capacity
      → v.size + 1 < size_mod
      → (grow platform v (v.size + 1)).0 ≢ Status.ok
      → push_back platform v (some x) mv ≡ grow platform v (v.size + 1)
  unfolding push_back room
  push_back_bad full small bad = ground (arith, not_ok→not_is_ok (grow platform v (v.size + 1)).0)

  grow_fixed : v.growable ≡ false → grow platform v (v.size + 1) ≡ (Status.full, v)
  unfolding grow
  grow_fixed fixed = ground arith

  append_grown :
      (wide : ℕ)
      → v.size < wide
      → AlwaysCopies v.policy.kind
      → v.size ≡ v.capacity
      → v.size + 1 < size_mod
      → Outcome v wide (grow platform v (v.size + 1))
      → Pushed v x (push_back platform v (some x) mv)
  append_grown wide larger copies full small (inl (good, r)) =
      let w = (grow platform v (v.size + 1)).1 in
      let copies' = subst (λ (p : Policy A). AlwaysCopies p.kind) (sym r.policy) copies in
      let (done, has) =
        append-Has w r.block x mv copies' r.valid (omega (arith, r.size, r.wider)) in
      rw (push_back_ok full small good)
        (inl (done, subst (λ q. Has (q ++ x ∷ []) (append w x mv).1) r.elements has))
  append_grown wide larger copies full small (inr (bad, same)) =
      rw (push_back_bad full small bad) (inr (full, bad, same))

  -- `push_back` on a valid vector whose copies succeed, whose allocators hand out blocks as large
  -- as asked for (with the old elements, for `realloc`), and whose next capacity in bytes fits an
  -- object: either it reports `ok`, and the vector is valid and holds the old elements in order and
  -- then the new one, or the vector was full, it reports a failure and has changed nothing.
  pub push_back-appends :
      (old : List A)
      → IsValid v old
      → Supplies platform v
      → AlwaysCopies v.policy.kind
      → v.size + 1 < size_mod
      → grow_capacity v.capacity (v.size + 1) * v.policy.elem_size ≤ 2 ^ 63
      → Pushed v x (push_back platform v (some x) mv)
  push_back-appends old valid supplies copies small fits = elim (dec_lt v.size v.capacity) [
    | yes free ↦ rw (push_back_room free) (inl (append-Has v old x mv copies valid free))
    | no not_less ↦
        let full : v.size ≡ v.capacity = omega (arith, valid.within) in
        elim (Bool-cases v.growable) [
          | inl growable ↦
              append_grown (grow_capacity v.capacity (v.size + 1))
                (omega (arith, grow_capacity_bounds v.capacity (v.size + 1) (omega arith) small))
                copies full small
                (grow-Outcome platform v old valid supplies copies growable (v.size + 1)
                  (omega arith) small fits)
          | inr fixed ↦
              rw (push_back_bad full small (rw (grow_fixed fixed) (cc)), grow_fixed fixed)
                (inr (full, cc, refl))
        ]
  ]

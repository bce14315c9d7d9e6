-- ===== src/Dlist/Ops/Loops.antt =====
-- The loops over the nodes: `clear`, the visits and the search.
use memkit.Prelude.{
  ℕ, zero, suc, ◌+◌, ◌<◌, ◌≡◌, ◌≢◌, inl, inr, refl, ap, ◌∙◌, List, [], ◌∷◌, arith, ◌==◌, Bool,
  false, Option, none, some, Bool-cases, if◌then◌else◌, length,
}
use memkit.Status.{Status, is_ok}
use memkit.Chain.{Ptr, null, ptr_at, values}
use memkit.Dlist.{Dlist, Malloc}
use memkit.Dlist.Ops.{visit_loop, for_each, remove_first_loop, remove_first, remove_at}
use memkit.Dlist.Inv.{IsValid, contents}

-- A visit of elements one after the other, counted from `index` on, until one fails.
pub visit_all : {A S : Type 0} → (S → A → ℕ → Status × S) → ℕ → List A → S → Status × S
visit_all visit index [] s = (Status.ok, s)
visit_all visit index (x ∷ q) s =
    let rest = visit_all visit (index + 1) q (visit s x index).1 in
    if is_ok (visit s x index).0 then rest else visit s x index

-- The position of the first element that a test accepts.
pub first_index : {A : Type 0} → (A → Bool) → ℕ → List A → Option ℕ
first_index pred index [] = none
first_index pred index (x ∷ q) =
    let rest = first_index pred (index + 1) q in if pred x then some index else rest

-- The links of the nodes `ys` lead from each to the next.
record Chained {A : Type 0} (d : Dlist A) (ys : List Ptr) : Type 0 where
  there : (i : ℕ) → i < length ys → ptr_at ys i ≢ null
  step : (i : ℕ) → i < length ys → d.next (ptr_at ys i) ≡ ptr_at ys (suc i)

module _ {A : Type 0} (d : Dlist A) where
  later_nodes : (y : Ptr) (ys : List Ptr) → Chained d (y ∷ ys) → Chained d ys
  later_nodes y ys c = record {
    there = λ i p. c.there (suc i) (omega arith);
    step = λ i p. c.step (suc i) (omega arith);
  }

  visit_loop-visit_all :
      {S : Type 0} (visit : S → A → ℕ → Status × S) (fuel index : ℕ) (ys : List Ptr) (s : S)
      → Chained d ys
      → length ys < fuel
      → visit_loop visit fuel (ptr_at ys 0) index d s
        ≡ visit_all visit index (values d.node_data ys) s
  unfolding visit_loop visit_all
  visit_loop-visit_all visit zero index ys s c enough = absurd (omega arith)
  visit_loop-visit_all visit (suc fuel) index [] s c enough = refl
  visit_loop-visit_all visit (suc fuel) index (y ∷ ys) s c enough =
      let there : (y == null) ≡ false = ground (arith, c.there 0) in
      let rest =
        ap (λ p. visit_loop visit fuel p (index + 1) d (visit s (d.node_data y) index).1)
          (c.step 0 (omega arith))
        ∙ visit_loop-visit_all visit fuel (index + 1) ys (visit s (d.node_data y) index).1
            (later_nodes y ys c) (omega arith) in
      rw (there, rest) refl

  remove_first_loop_lem :
      (m : Malloc) (pred : A → Bool) (fuel index : ℕ) (ys : List Ptr) (out : Option A)
      → Chained d ys
      → length ys < fuel
      → remove_first_loop m pred fuel (ptr_at ys 0) index d out
        ≡ elim (first_index pred index (values d.node_data ys)) [
          | none ↦ (Status.not_found, out, d)
          | some i ↦ remove_at m d i out
        ]
  unfolding remove_first_loop first_index
  remove_first_loop_lem m pred zero index ys out c enough = absurd (omega arith)
  remove_first_loop_lem m pred (suc fuel) index [] out c enough = refl
  remove_first_loop_lem m pred (suc fuel) index (y ∷ ys) out c enough =
      let there : (y == null) ≡ false = ground (arith, c.there 0) in
      let rest =
        ap (λ p. remove_first_loop m pred fuel p (index + 1) d out) (c.step 0 (omega arith))
        ∙ remove_first_loop_lem m pred fuel (index + 1) ys out (later_nodes y ys c) (omega arith) in
      elim (Bool-cases (pred (d.node_data y))) [
        | inl hit ↦ rw (there, hit) refl
        | inr miss ↦ rw (there, miss, rest) refl
      ]

module _ {A : Type 0} (d : Dlist A) (xs fs : List Ptr) (v : IsValid d xs fs) where
  chained : Chained d xs
  chained = record { there = v.linked.nodes.there; step = v.linked.forward.step }

  -- `for_each` of a valid list visits its elements in order, each with its position, until a visit
  -- fails, whose status it returns.
  pub for_each-visit_all :
      {S : Type 0} (visit : S → A → ℕ → Status × S) (s : S)
      → for_each visit d s ≡ visit_all visit 0 (contents d xs) s
  unfolding for_each
  for_each-visit_all visit s =
      ap (λ p. visit_loop visit (d.size + 1) p 0 d s) v.linked.forward.first_at
      ∙ visit_loop-visit_all d visit (d.size + 1) 0 xs s chained (omega (arith, v.size))

  -- `remove_first` of a valid list is `remove_at` at the first position whose element the predicate
  -- accepts, and reports `not_found` and changes nothing if there is none.
  pub remove_first-first_index :
      (m : Malloc) (pred : A → Bool) (out : Option A)
      → remove_first m pred d out ≡ elim (first_index pred 0 (contents d xs)) [
        | none ↦ (Status.not_found, out, d)
        | some i ↦ remove_at m d i out
      ]
  unfolding remove_first
  remove_first-first_index m pred out =
      ap (λ p. remove_first_loop m pred (d.size + 1) p 0 d out) v.linked.forward.first_at
      ∙ remove_first_loop_lem d m pred (d.size + 1) 0 xs out chained (omega (arith, v.size))

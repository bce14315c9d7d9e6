-- ===== src/Deque.antt =====
-- What a circular buffer promises: a bounded double-ended queue, as a list with the oldest element
-- first.
use memkit.Prelude.{
  ℕ, ◌-◌, Bool, Option, none, some, List, [], ◌∷◌, ◌++◌, ltb, if◌then◌else◌, length, take, drop,
}
use memkit.Status.{Status}

module _ {ℓ} {A : Type ℓ} where
  abbrev pub drop_first : List A → List A
  drop_first q = drop 1 q

  unfoldable pub drop_last : List A → List A
  drop_last q = take (length q - 1) q

  -- A full queue refuses the element, or gives up the element at the other end.
  unfoldable pub push_back : ℕ → Bool → List A → A → Status × List A
  push_back cap overwrite q x =
      if ltb (length q) cap
      then (Status.ok, q ++ x ∷ [])
      else if overwrite
      then (Status.ok, drop_first q ++ x ∷ [])
      else (Status.full, q)

  unfoldable pub push_front : ℕ → Bool → List A → A → Status × List A
  push_front cap overwrite q x =
      if ltb (length q) cap
      then (Status.ok, x ∷ q)
      else if overwrite
      then (Status.ok, x ∷ drop_last q)
      else (Status.full, q)

  unfoldable pub front : List A → Option A
  front [] = none
  front (x ∷ q) = some x

  unfoldable pub back : List A → Option A
  back [] = none
  back (x ∷ []) = some x
  back (x ∷ y ∷ q) = back (y ∷ q)

  -- What goes through an out-pointer, if there is one.
  abbrev pub deliver : Option A → A → Option A
  deliver none x = none
  deliver (some old) x = some x

  unfoldable pub pop_front : List A → Option A → Status × Option A × List A
  pop_front q out = elim (front q) [
    | none ↦ (Status.empty, out, q)
    | some x ↦ (Status.ok, deliver out x, drop_first q)
  ]

  unfoldable pub pop_back : List A → Option A → Status × Option A × List A
  pop_back q out = elim (back q) [
    | none ↦ (Status.empty, out, q)
    | some x ↦ (Status.ok, deliver out x, drop_last q)
  ]

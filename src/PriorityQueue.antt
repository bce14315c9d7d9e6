-- ===== src/PriorityQueue.antt =====
-- include/memkit/detail/pqueue_core.hpp: a priority queue as a binary heap in an array. `less` is
-- `less_than` at the user's comparison.
pub mod Swap
pub mod Sift
pub mod SiftDown
pub mod Inv
pub mod Push
pub mod Pop
use memkit.Prelude.{
  ℕ, zero, suc, ◌+◌, ◌-◌, ◌*◌, ◌/◌, Bool, true, false, Option, none, some, List, [], ◌∷◌, ◌++◌,
  ◌&&◌, not, ltb, leb, ◌==◌, if◌then◌else◌, Inhabited, get!, set,
}
use memkit.Status.{Status, is_ok}
use memkit.Element.{
  Kind, Policy, is_runtime, copy_construct, move_construct, destroy, needs_destroy_on_clear,
}
use memkit.Ring.{StorageKind, external}

-- A null `storage_` is the empty list, and no other block is empty.
pub record PriorityQueue {ℓ} (A : Type ℓ) : Type ℓ where
  pub policy : Policy A
  pub less : A → A → Bool
  pub storage : List A
  pub capacity : ℕ
  pub size : ℕ
  pub growable : Bool
  pub kind : StorageKind
  pub destroyed : List A

abbrev pub parent : ℕ → ℕ
parent i = (i - 1) / 2

module _ {ℓ} {A : Type ℓ} where
  pub init :
      PriorityQueue A → Policy A → (A → A → Bool) → List A → ℕ → Bool → Status × PriorityQueue A
  init q policy less [] capacity growable = (Status.invalid, q)
  init q policy less (x ∷ block) capacity growable =
      if capacity == 0 then (Status.invalid, q) else (
        Status.ok,
        record q {
          policy = policy;
          less = less;
          storage = x ∷ block;
          capacity = capacity;
          size = 0;
          growable = growable;
          kind = external;
        },
      )

  -- `Policy{}` and `Compare{}` are the caller's.
  pub reset_state : PriorityQueue A → Policy A → (A → A → Bool) → PriorityQueue A
  reset_state q policy less = record q {
    policy = policy;
    less = less;
    storage = [];
    capacity = 0;
    size = 0;
    growable = false;
    kind = external;
  }

  pub set_storage : PriorityQueue A → List A → ℕ → PriorityQueue A
  set_storage q storage capacity = record q { storage = storage; capacity = capacity }

  pub is_empty : PriorityQueue A → Bool
  is_empty q = q.size == 0

  pub is_full : PriorityQueue A → Bool
  is_full q = if q.growable then false else leb q.capacity q.size

module _ {ℓ} {A : Type ℓ} ⦃inhabited : Inhabited A⦄ where
  abbrev pub elem_at : PriorityQueue A → ℕ → A
  elem_at q i = get! q.storage i

  abbrev pub less_than : PriorityQueue A → ℕ → ℕ → Bool
  less_than q a b = q.less (elem_at q a) (elem_at q b)

  -- `policy_.destroy` of a value, under `if (policy_.needs_destroy_on_clear())`.
  abbrev pub destroy_if_needed : PriorityQueue A → A → PriorityQueue A
  destroy_if_needed q x = record q {
    destroyed =
        if needs_destroy_on_clear q.policy.kind
        then destroy q.policy.kind x q.destroyed
        else q.destroyed;
  }

  -- The loop of `clear`: `n` rounds from `i` on.
  clear_loop : ℕ → ℕ → PriorityQueue A → PriorityQueue A
  clear_loop zero i q = q
  clear_loop (suc n) i q =
      clear_loop n (i + 1)
        (record q { destroyed = destroy q.policy.kind (elem_at q i) q.destroyed })

  pub clear : PriorityQueue A → PriorityQueue A
  unfolding clear_loop
  clear q =
      let q' = clear_loop q.size 0 q in
      record (if needs_destroy_on_clear q.policy.kind then q' else q) { size = 0 }

  -- `swap_elements` with a runtime policy, through a buffer of 256 bytes that `temp` fills at first.
  swap_runtime : PriorityQueue A → ℕ → ℕ → Status × PriorityQueue A
  swap_runtime q left right =
      let k = q.policy.kind in
      let x = elem_at q left in
      let (s1, temp) = copy_construct k inhabited.default x in
      let (s2, to_left) = copy_construct k x (elem_at q right) in
      let half = set q.storage left to_left in
      let (s3, to_right) = copy_construct k (get! half right) temp in
      if ltb 256 q.policy.elem_size
      then (Status.invalid, q)
      else if not (is_ok s1)
      then (s1, q)
      else if not (is_ok s2)
      then (s2, record q { storage = half })
      else (s3, record q { storage = set half right to_right })

  -- `swap_elements` with a typed policy. `temp` is destroyed if the type needs it, and once more at
  -- the end of its scope.
  swap_typed : PriorityQueue A → ℕ → ℕ → PriorityQueue A
  swap_typed q left right =
      let k = q.policy.kind in
      let (temp, left1) = move_construct k inhabited.default (elem_at q left) in
      let one = set q.storage left left1 in
      let (to_left, right1) = move_construct k (get! one left) (get! one right) in
      let two = set (set one right right1) left to_left in
      let (to_right, temp1) = move_construct k (get! two right) temp in
      record q {
        storage = set two right to_right;
        destroyed =
            if needs_destroy_on_clear k
            then destroy k temp1 (destroy k temp1 q.destroyed)
            else q.destroyed;
      }

  pub swap_elements : PriorityQueue A → ℕ → ℕ → Status × PriorityQueue A
  unfolding swap_runtime swap_typed
  swap_elements q left right =
      if is_runtime q.policy.kind
      then swap_runtime q left right
      else (Status.ok, swap_typed q left right)

  -- The loop of `sift_up`, on fuel: the index goes down in each round.
  sift_up_loop : ℕ → ℕ → PriorityQueue A → Status × PriorityQueue A
  sift_up_loop zero i q = (Status.ok, q)
  sift_up_loop (suc fuel) i q =
      let (s, q') = swap_elements q i (parent i) in
      let rest = sift_up_loop fuel (parent i) q' in
      if i == 0
      then (Status.ok, q)
      else if not (less_than q i (parent i))
      then (Status.ok, q)
      else if is_ok s
      then rest
      else (s, q')

  pub sift_up : ℕ → PriorityQueue A → Status × PriorityQueue A
  unfolding sift_up_loop
  sift_up i q = sift_up_loop (i + 1) i q

  -- The child of `i` that `sift_down` chooses, or `i`.
  pub smallest : PriorityQueue A → ℕ → ℕ
  smallest q i =
      let left = i * 2 + 1 in
      let m = if ltb left q.size && less_than q left i then left else i in
      if ltb (left + 1) q.size && less_than q (left + 1) m then left + 1 else m

  -- The loop of `sift_down`, on fuel: the index goes up in each round, and stays below the size.
  sift_down_loop : ℕ → ℕ → PriorityQueue A → Status × PriorityQueue A
  sift_down_loop zero i q = (Status.ok, q)
  sift_down_loop (suc fuel) i q =
      let m = smallest q i in
      let (s, q') = swap_elements q i m in
      let rest = sift_down_loop fuel m q' in
      if m == i then (Status.ok, q) else if is_ok s then rest else (s, q')

  pub sift_down : ℕ → PriorityQueue A → Status × PriorityQueue A
  unfolding sift_down_loop
  sift_down i q = sift_down_loop (q.size + 1) i q

  pub push : PriorityQueue A → Option A → Status × PriorityQueue A
  unfolding is_full
  push q none = (Status.null_ptr, q)
  push q (some x) =
      let (s, v) = copy_construct q.policy.kind (elem_at q q.size) x in
      let q' = record q { storage = set q.storage q.size v } in
      if is_full q
      then (Status.full, q)
      else if is_runtime q.policy.kind && not (is_ok s)
      then (s, q')
      else sift_up q.size (record q' { size = q.size + 1 })

  -- The first part of `pop`: what goes out, or the failed copy's status.
  take_root : PriorityQueue A → Option A → Status × Option A × PriorityQueue A
  take_root q none = (Status.ok, none, destroy_if_needed q (elem_at q 0))
  take_root q (some old) =
      let (s, v) = copy_construct q.policy.kind old (elem_at q 0) in
      (if is_runtime q.policy.kind then s else Status.ok, some v, q)

  -- The last element put into the root, with `size` already counted down.
  last_to_root : PriorityQueue A → Status × PriorityQueue A
  last_to_root q =
      let k = q.policy.kind in
      let (s, v) = copy_construct k (elem_at q 0) (elem_at q q.size) in
      let (placed, left) = move_construct k (elem_at q 0) (elem_at q q.size) in
      if is_runtime k
      then (s, record q { storage = set q.storage 0 v })
      else (Status.ok, record q { storage = set (set q.storage q.size left) 0 placed })

  pub pop : PriorityQueue A → Option A → Status × Option A × PriorityQueue A
  unfolding is_empty take_root last_to_root
  pop q out =
      let (s, o, q1) = take_root q out in
      let q2 = record q1 { size = q1.size - 1 } in
      let (s', q3) = last_to_root q2 in
      let (s'', q4) = sift_down 0 (destroy_if_needed q3 (elem_at q3 q3.size)) in
      if is_empty q
      then (Status.empty, out, q)
      else if not (is_ok s)
      then (s, o, q)
      else if q2.size == 0
      then (Status.ok, o, q2)
      else if not (is_ok s')
      then (s', o, record q3 { size = q3.size + 1 })
      else (s'', o, q4)

  pub peek : PriorityQueue A → Option A → Status × Option A
  unfolding is_empty
  peek q none = (Status.null_ptr, none)
  peek q (some old) =
      if is_empty q then (Status.empty, some old) else (Status.ok, some (elem_at q 0))

  -- The loop of `for_each`: `visit` takes the caller's state, the element and its position.
  visit_loop {κ} :
      {S : Type κ} → (S → A → ℕ → Status × S) → ℕ → ℕ → PriorityQueue A → S → Status × S
  visit_loop visit zero i q s = (Status.ok, s)
  visit_loop visit (suc n) i q s =
      let (st, s') = visit s (elem_at q i) i in
      let rest = visit_loop visit n (i + 1) q s' in if is_ok st then rest else (st, s')

  pub for_each {κ} : {S : Type κ} → (S → A → ℕ → Status × S) → PriorityQueue A → S → Status × S
  unfolding visit_loop
  for_each visit q s =
      let visited = visit_loop visit q.size 0 q s in
      elim q.storage [ [] ↦ (Status.null_ptr, s) | x ∷ block ↦ visited ]

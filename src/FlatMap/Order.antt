-- ===== src/FlatMap/Order.antt =====
-- `put` of the flat map keeps the keys in order.
use native.Mathlib.Decide.{dec_lt}
use memkit.Prelude.{
  ℕ, zero, suc, ◌+◌, ◌-◌, ◌≤◌, ◌<◌, ◌≡◌, inl, inr, refl, true, false, some, ◌∙◌, sym, arith,
  if◌then◌else◌, Inhabited, length, length-set, get!, get!-set_ne, get!-set_self, set, ap, subst,
  ◌≢◌,
}
use memkit.Status.{Status, is_ok}
use memkit.Element.{move_construct}
use memkit.Ring.Inv.{AlwaysCopies}
use memkit.Ring.Ops.Pop.{move_construct-placed}
use memkit.FlatMap.{
  FlatMap, Sign, move_entry, shift_right, insert_entry, replace_value, find_index, put, is_full,
}
use memkit.FlatMap.Search.{IsOrder, IsSorted, Found, find_index-Found}

-- After `n` rounds from `i` down, the `n` keys that stood below `i` are one place on.
record Shifted {K V : Type 0} ⦃key_inhabited : Inhabited K⦄ (n i : ℕ) (m out : FlatMap K V)
    : Type 0 where
  moved : (j : ℕ) → i ≤ j + n → j < i → get! out.keys (j + 1) ≡ get! m.keys j
  below : (j : ℕ) → j + n < i → get! out.keys j ≡ get! m.keys j
  above : (j : ℕ) → i < j → get! out.keys j ≡ get! m.keys j
  room : length out.keys ≡ length m.keys
  compare : out.compare ≡ m.compare

module _ {K V : Type 0} ⦃key_inhabited : Inhabited K⦄ ⦃value_inhabited : Inhabited V⦄ where
  -- One move writes the key below `i` at `i`, and changes no other key but the one moved from.
  moved_key :
      (m : FlatMap K V) (i : ℕ)
      → 0 < i
      → i < length m.keys
      → get! (move_entry (i - 1) i m).keys i ≡ get! m.keys (i - 1)
  unfolding move_entry
  moved_key m i pos inside =
      let (key, left) = move_construct m.key_kind (get! m.keys i) (get! m.keys (i - 1)) in
      get!-set_ne (set m.keys i key) (i - 1) i left (λ e. omega arith)
      ∙ get!-set_self m.keys i key inside
      ∙ move_construct-placed m.key_kind (get! m.keys i) (get! m.keys (i - 1))

  moved_keys :
      (m : FlatMap K V) (i j : ℕ)
      → j ≢ i - 1
      → i < length m.keys
      → j ≢ i
      → get! (move_entry (i - 1) i m).keys j ≡ get! m.keys j
  unfolding move_entry
  moved_keys m i j from inside to =
      let (key, left) = move_construct m.key_kind (get! m.keys i) (get! m.keys (i - 1)) in
      get!-set_ne (set m.keys i key) (i - 1) j left (λ e. from (sym e))
      ∙ get!-set_ne m.keys i j key (λ e. to (sym e))

  shift_right-Shifted :
      (n i : ℕ) (m : FlatMap K V) → n ≤ i → i < length m.keys → Shifted n i m (shift_right n i m)
  unfolding shift_right move_entry
  shift_right-Shifted zero i m h inside = record {
    moved = λ j p q. absurd (omega arith);
    below = λ j p. refl;
    above = λ j p. refl;
    room = refl;
    compare = refl;
  }
  shift_right-Shifted (suc n) i m h inside =
      let key = (move_construct m.key_kind (get! m.keys i) (get! m.keys (i - 1))).0 in
      let left = (move_construct m.key_kind (get! m.keys i) (get! m.keys (i - 1))).1 in
      let first = length-set m.keys i key in
      let both = length-set (set m.keys i key) (i - 1) left in
      let s =
        shift_right-Shifted n (i - 1) (move_entry (i - 1) i m) (omega arith)
          (omega (arith, first, both)) in
      record {
        moved = λ j p q. elim (dec_lt j (i - 1)) [
          | yes r ↦ s.moved j (omega arith) r ∙ moved_keys m i j (omega arith) inside (omega arith)
          | no r ↦
              let last : j + 1 ≡ i = omega arith in
              let last' : i - 1 ≡ j = omega arith in
              s.above (j + 1) (omega arith)
              ∙ ap (get! (move_entry (i - 1) i m).keys) last
              ∙ moved_key m i (omega arith) inside
              ∙ ap (get! m.keys) last'
        ];
        below =
            λ j p. s.below j (omega arith) ∙ moved_keys m i j (omega arith) inside (omega arith);
        above =
            λ j p. s.above j (omega arith) ∙ moved_keys m i j (omega arith) inside (omega arith);
        room = s.room ∙ both ∙ first;
        compare = s.compare;
      }

module _ {K V : Type 0} ⦃key_inhabited : Inhabited K⦄ ⦃value_inhabited : Inhabited V⦄
    (m : FlatMap K V) (i : ℕ) (key : K) (value : V) (inside : i ≤ m.size)
    (room : m.size < length m.keys) where
  shifted : FlatMap K V
  shifted = shift_right (m.size - i) m.size m

  shifted-Shifted : Shifted (m.size - i) m.size m shifted
  unfolding shifted
  shifted-Shifted = shift_right-Shifted (m.size - i) m.size m (omega arith) room

  key_before : (j : ℕ) → j < i → get! (insert_entry m i key value).keys j ≡ get! m.keys j
  unfolding insert_entry shifted
  key_before j h =
      get!-set_ne shifted.keys i j _ (λ e. omega arith) ∙ shifted-Shifted.below j (omega arith)

  key_here : AlwaysCopies m.key_kind → get! (insert_entry m i key value).keys i ≡ key
  unfolding insert_entry shifted
  key_here copies =
      get!-set_self shifted.keys i _ (omega (arith, shifted-Shifted.room))
      ∙ ap (λ c. c.1) (copies (get! shifted.keys i) key)

  key_after :
      (j : ℕ)
      → i < j
      → j < m.size + 1
      → get! (insert_entry m i key value).keys j ≡ get! m.keys (j - 1)
  unfolding insert_entry shifted
  key_after j h h' =
      let e : j ≡ j - 1 + 1 = omega arith in
      get!-set_ne shifted.keys i j _ (λ e. omega arith)
      ∙ ap (get! shifted.keys) e
      ∙ shifted-Shifted.moved (j - 1) (omega arith) (omega arith)

  compare_same : (insert_entry m i key value).compare ≡ m.compare
  unfolding insert_entry shifted
  compare_same = shifted-Shifted.compare

  size_more : (insert_entry m i key value).size ≡ m.size + 1
  unfolding insert_entry
  size_more = refl

  insert_entry-ascending :
      IsSorted m
      → AlwaysCopies m.key_kind
      → ((j : ℕ) → j < i → m.compare (get! m.keys j) key ≡ Sign.negative)
      → ((j : ℕ) → i ≤ j → j < m.size → m.compare key (get! m.keys j) ≡ Sign.negative)
      → (a b : ℕ) → a < b
      → b < m.size + 1
      → m.compare
          (get! (insert_entry m i key value).keys a)
          (get! (insert_entry m i key value).keys b)
        ≡ Sign.negative
  insert_entry-ascending sorted copies low high a b h h' = elim (dec_lt b i) [
    | yes p ↦ rw (key_before a (omega arith), key_before b p) (sorted.ascending a b h (omega arith))
    | no p ↦ elim (dec_lt i b) [
      | no q ↦
          let e : b ≡ i = omega arith in
          rw (e, key_before a (omega arith), key_here copies) (low a (omega arith))
      | yes q ↦ elim (dec_lt a i) [
        | yes r ↦
            rw (key_before a r, key_after b q h')
              (sorted.ascending a (b - 1) (omega arith) (omega arith))
        | no r ↦ elim (dec_lt i a) [
          | no t ↦
              let e : a ≡ i = omega arith in
              rw (e, key_here copies, key_after b q h') (high (b - 1) (omega arith) (omega arith))
          | yes t ↦
              rw (key_after a t (omega arith), key_after b q h')
                (sorted.ascending (a - 1) (b - 1) (omega arith) (omega arith))
        ]
      ]
    ]
  ]

  insert_entry-IsSorted :
      IsSorted m
      → AlwaysCopies m.key_kind
      → ((j : ℕ) → j < i → m.compare (get! m.keys j) key ≡ Sign.negative)
      → ((j : ℕ) → i ≤ j → j < m.size → m.compare key (get! m.keys j) ≡ Sign.negative)
      → IsSorted (insert_entry m i key value)
  insert_entry-IsSorted sorted copies low high = record {
    order = subst (λ c. IsOrder c) (sym compare_same) sorted.order;
    ascending = rw (size_more, compare_same) (insert_entry-ascending sorted copies low high);
  }

module _ {K V : Type 0} ⦃key_inhabited : Inhabited K⦄ ⦃value_inhabited : Inhabited V⦄ where
  replace_value-IsSorted :
      (m : FlatMap K V) (i : ℕ) (value : V) → IsSorted m → IsSorted (replace_value m i value)
  unfolding replace_value
  replace_value-IsSorted m i value sorted = record {
    order = sorted.order;
    ascending = sorted.ascending;
  }

  -- What `put` does with the answer of the search.
  put_found : FlatMap K V → K → V → Status × ℕ → Status × FlatMap K V
  put_found m key value (found, i) =
      if is_ok found
      then (Status.ok, replace_value m i value)
      else if is_full m
      then (Status.full, m)
      else (Status.ok, insert_entry m i key value)

  put_found-IsSorted :
      (m : FlatMap K V) (key : K) (value : V) (r : Status × ℕ)
      → IsSorted m
      → AlwaysCopies m.key_kind
      → m.capacity ≤ length m.keys
      → Found m key r
      → IsSorted (put_found m key value r).1
  unfolding put_found
  put_found-IsSorted m key value (found, i) sorted copies room (inl (s, inside, same)) =
      rw s (replace_value-IsSorted m i value sorted)
  put_found-IsSorted m key value (found, i) sorted copies room (inr (s, inside, low, high)) =
      elim (dec_lt m.size m.capacity) [
        | no full ↦ (let t : is_full m ≡ true = unfold is_full in ground arith in rw (s, t) sorted)
        | yes more ↦
            let t : is_full m ≡ false = unfold is_full in ground arith in
            rw (s, t)
              (insert_entry-IsSorted m i key value inside (omega arith) sorted copies low
                (λ j p q. sorted.order.flip _ _ (high j p q)))
      ]

  -- `put` into a map that is sorted by an order, whose key copies succeed and whose storage has
  -- room for its capacity, leaves it sorted, whether it writes over a value, adds the key or
  -- refuses it.
  pub put-IsSorted :
      (m : FlatMap K V) (key : K) (value : V)
      → IsSorted m
      → AlwaysCopies m.key_kind
      → m.capacity ≤ length m.keys
      → IsSorted (put m (some key) (some value)).1
  unfolding put put_found
  put-IsSorted m key value sorted copies room =
      put_found-IsSorted m key value (find_index m (some key)) sorted copies room
        (find_index-Found m sorted key)

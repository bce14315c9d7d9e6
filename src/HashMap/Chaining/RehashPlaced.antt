-- ===== src/HashMap/Chaining/RehashPlaced.antt =====
-- After a rehash every node is in its own chain, and each key has one node at most.
use native.Mathlib.Decide.{dec_lt}
use native.Mathlib.Nat.{mod-lt}
use memkit.Prelude.{
  ℕ, zero, suc, ◌+◌, ◌%◌, ◌≤◌, ◌<◌, ◌≡◌, ◌≢◌, sym, ap, subst, ◌∙◌, true, false, none, some, List,
  [], ◌∷◌, arith, ◌==◌, Bool-cases, inl, inr, get!, get!-set_self, get!-set_ne, length, length-set,
  Inhabited, replicate, length-replicate,
}
use memkit.HashMap.{HashMap}
use memkit.HashMap.Chaining.{chain_find, unlink_first, move_chain, move_loop}
use memkit.HashMap.Chaining.Lookup.{IsKeyEquality, find_hit, find_miss}
use memkit.HashMap.Chaining.Rehash.{
  IsPlaced, found_in, moved, found-moved_miss, move_absent, length-move_chain, get!-replicate,
  rehashed,
}
use memkit.HashMap.Chaining.Placed.{Once, unlink_hit, unlink_miss}

module _ {K V : Type 0} ⦃chain_inhabited : Inhabited (List (K × V))⦄
    ⦃node_inhabited : Inhabited (K × V)⦄ (m : HashMap K V) (laws : IsKeyEquality m.equal m.hash)
    (n : ℕ) (pos : 0 < n) (k : K) where
  abbrev new_own : ℕ
  new_own = m.hash k % n

  abbrev after : K × V → List (List (K × V)) → List (List (K × V))
  after node table = moved m laws n pos k node table

  index_of :
      (node : K × V) (table : List (List (K × V)))
      → length table ≡ n
      → m.hash node.0 % n < length table
  index_of node table long = omega (arith, long, mod-lt (m.hash node.0) pos)

  length-after :
      (node : K × V) (table : List (List (K × V)))
      → length table ≡ n
      → length (after node table) ≡ n
  length-after node table long = length-set table _ _ ∙ long

  after_elsewhere :
      (node : K × V) (table : List (List (K × V))) (i : ℕ)
      → length table ≡ n
      → i ≢ new_own
      → chain_find m.equal k (get! table i) ≡ none
      → chain_find m.equal k (get! (after node table) i) ≡ none
  after_elsewhere node table i long ne absent = elim (Bool-cases (m.hash node.0 % n == i)) [
    | inl here ↦
        let e : m.hash node.0 % n ≡ i = ground (arith, here) in
        elim (Bool-cases (m.equal node.0 k)) [
          | inl hit ↦ absurd (ne (sym e ∙ ap (λ h. h % n) (laws.one_hash node.0 k hit)))
          | inr miss ↦
              subst (λ j. chain_find m.equal k (get! (after node table) j) ≡ none) e
                (ap (chain_find m.equal k)
                    (get!-set_self table (m.hash node.0 % n) _ (index_of node table long))
                  ∙ find_miss m laws k node _ miss
                  ∙ ap (λ j. chain_find m.equal k (get! table j)) e
                  ∙ absent)
        ]
    | inr away ↦
        ap (chain_find m.equal k) (get!-set_ne table _ i _ (λ e. ground (arith, e, away))) ∙ absent
  ]

  chain_elsewhere :
      (chain : List (K × V)) (table : List (List (K × V))) (i : ℕ)
      → length table ≡ n
      → i ≢ new_own
      → chain_find m.equal k (get! table i) ≡ none
      → chain_find m.equal k (get! (move_chain m.hash n chain table) i) ≡ none
  unfolding move_chain
  chain_elsewhere [] table i long ne absent = absent
  chain_elsewhere (node ∷ chain) table i long ne absent =
      chain_elsewhere chain (after node table) i (length-after node table long) ne
        (after_elsewhere node table i long ne absent)

  loop_elsewhere :
      (rounds from : ℕ) (table : List (List (K × V))) (i : ℕ)
      → length table ≡ n
      → i ≢ new_own
      → chain_find m.equal k (get! table i) ≡ none
      → chain_find m.equal k (get! (move_loop m n rounds from table) i) ≡ none
  unfolding move_loop
  loop_elsewhere zero from table i long ne absent = absent
  loop_elsewhere (suc rounds) from table i long ne absent =
      loop_elsewhere rounds (from + 1) (move_chain m.hash n (get! m.buckets from) table) i
        (length-move_chain m n (get! m.buckets from) table ∙ long) ne
        (chain_elsewhere (get! m.buckets from) table i long ne absent)

  abbrev OwnOnce : List (List (K × V)) → Type 0
  OwnOnce table = Once m laws k (get! table new_own)

  -- The own chain, after a node with another key or with the key.
  after_miss-OwnOnce :
      (node : K × V) (table : List (List (K × V)))
      → length table ≡ n
      → m.equal node.0 k ≡ false
      → OwnOnce table
      → OwnOnce (after node table)
  after_miss-OwnOnce node table long miss once = elim (Bool-cases (m.hash node.0 % n == new_own)) [
    | inl here ↦
        let e : m.hash node.0 % n ≡ new_own = ground (arith, here) in
        subst (λ j. Once m laws k (get! (after node table) j)) e
          (subst (Once m laws k)
            (sym (get!-set_self table (m.hash node.0 % n) _ (index_of node table long)))
            (ap (chain_find m.equal k)
                (unlink_miss m laws k node (get! table (m.hash node.0 % n)) miss)
              ∙ find_miss m laws k node _ miss
              ∙ subst (λ j. Once m laws k (get! table j)) (sym e) once))
    | inr away ↦
        subst (Once m laws k) (sym (get!-set_ne table _ new_own _ (λ e. ground (arith, e, away))))
          once
  ]

  after_hit-OwnOnce :
      (node : K × V) (table : List (List (K × V)))
      → length table ≡ n
      → m.equal node.0 k ≡ true
      → found_in m laws n pos k table ≡ none
      → OwnOnce (after node table)
  after_hit-OwnOnce node table long hit bare =
      let e : m.hash node.0 % n ≡ new_own = ap (λ h. h % n) (laws.one_hash node.0 k hit) in
      subst (λ j. Once m laws k (get! (after node table) j)) e
        (subst (Once m laws k)
          (sym (get!-set_self table (m.hash node.0 % n) _ (index_of node table long)))
          (ap (chain_find m.equal k) (unlink_hit m laws k node (get! table (m.hash node.0 % n)) hit)
            ∙ ap (λ j. chain_find m.equal k (get! table j)) e
            ∙ bare))

  absent-OwnOnce :
      (chain : List (K × V)) (table : List (List (K × V)))
      → length table ≡ n
      → chain_find m.equal k chain ≡ none
      → OwnOnce table
      → OwnOnce (move_chain m.hash n chain table)
  unfolding move_chain
  absent-OwnOnce [] table long absent once = once
  absent-OwnOnce (node ∷ chain) table long absent once = elim (Bool-cases (m.equal node.0 k)) [
    | inl hit ↦
        let e : some node ≡ none = sym (find_hit m laws k node chain hit) ∙ absent in absurd (cc)
    | inr miss ↦
        absent-OwnOnce chain (after node table) (length-after node table long)
          (sym (find_miss m laws k node chain miss) ∙ absent)
          (after_miss-OwnOnce node table long miss once)
  ]

  Once-OwnOnce :
      (chain : List (K × V)) (table : List (List (K × V)))
      → length table ≡ n
      → Once m laws k chain
      → found_in m laws n pos k table ≡ none
      → OwnOnce table
      → OwnOnce (move_chain m.hash n chain table)
  unfolding move_chain
  Once-OwnOnce [] table long once bare own = own
  Once-OwnOnce (node ∷ chain) table long once bare own = elim (Bool-cases (m.equal node.0 k)) [
    | inl hit ↦
        absent-OwnOnce chain (after node table) (length-after node table long)
          (ap (chain_find m.equal k) (sym (unlink_hit m laws k node chain hit)) ∙ once)
          (after_hit-OwnOnce node table long hit bare)
    | inr miss ↦
        Once-OwnOnce chain (after node table) (length-after node table long)
          (sym (find_miss m laws k node (unlink_first m.equal k chain) miss)
            ∙ ap (chain_find m.equal k) (sym (unlink_miss m laws k node chain miss))
            ∙ once)
          (found-moved_miss m laws n pos k node table long miss ∙ bare)
          (after_miss-OwnOnce node table long miss own)
  ]

  abbrev old_own : ℕ
  old_own = m.hash k % m.bucket_count

  loop_absent-OwnOnce :
      (rounds i : ℕ) (table : List (List (K × V)))
      → length table ≡ n
      → ((j : ℕ) → i ≤ j → j < i + rounds → chain_find m.equal k (get! m.buckets j) ≡ none)
      → OwnOnce table
      → OwnOnce (move_loop m n rounds i table)
  unfolding move_loop
  loop_absent-OwnOnce zero i table long absent once = once
  loop_absent-OwnOnce (suc rounds) i table long absent once =
      loop_absent-OwnOnce rounds (i + 1) (move_chain m.hash n (get! m.buckets i) table)
        (length-move_chain m n (get! m.buckets i) table ∙ long)
        (λ j le lt. absent j (omega arith) (omega arith))
        (absent-OwnOnce (get! m.buckets i) table long (absent i (omega arith) (omega arith)) once)

  loop_own-OwnOnce :
      (rounds i : ℕ) (table : List (List (K × V)))
      → IsPlaced m k
      → length table ≡ n
      → found_in m laws n pos k table ≡ none
      → OwnOnce table
      → i ≤ old_own
      → i + rounds ≤ m.bucket_count
      → OwnOnce (move_loop m n rounds i table)
  unfolding move_loop
  loop_own-OwnOnce zero i table p long bare once le in_table = once
  loop_own-OwnOnce (suc rounds) i table p long bare once le in_table = elim (dec_lt i old_own) [
    | yes before ↦
        let absent = p.elsewhere i (omega arith) (λ e. omega (arith, e)) in
        loop_own-OwnOnce rounds (i + 1) (move_chain m.hash n (get! m.buckets i) table) p
          (length-move_chain m n (get! m.buckets i) table ∙ long)
          (move_absent m laws n pos k (get! m.buckets i) table long absent ∙ bare)
          (absent-OwnOnce (get! m.buckets i) table long absent once) (omega arith) (omega arith)
    | no here ↦
        let at : old_own ≡ i = omega arith in
        loop_absent-OwnOnce rounds (i + 1) (move_chain m.hash n (get! m.buckets i) table)
          (length-move_chain m n (get! m.buckets i) table ∙ long)
          (λ j after inside. p.elsewhere j (omega arith) (λ e. omega (arith, e, at)))
          (Once-OwnOnce (get! m.buckets i) table long
            (subst (λ j. Once m laws k (get! m.buckets j)) at p.once) bare once)
  ]

  -- A rehash keeps that a key has one node at most, in its own chain.
  pub rehashed-IsPlaced : IsPlaced m k → IsPlaced (rehashed m n) k
  unfolding chain_find unlink_first
  rehashed-IsPlaced p = record {
    elsewhere = λ i h ne.
        loop_elsewhere m.bucket_count 0 (replicate n []) i (length-replicate n []) ne
          (ap (chain_find m.equal k) (get!-replicate n i h));
    once =
        loop_own-OwnOnce m.bucket_count 0 (replicate n []) p (length-replicate n [])
          (ap (chain_find m.equal k) (get!-replicate n new_own (mod-lt (m.hash k) pos)))
          (ap (λ c. chain_find m.equal k (unlink_first m.equal k c))
            (get!-replicate n new_own (mod-lt (m.hash k) pos)))
          (omega arith) (omega arith);
  }

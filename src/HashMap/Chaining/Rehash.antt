-- ===== src/HashMap/Chaining/Rehash.antt =====
-- The move of the nodes into a larger table.
use native.Mathlib.Decide.{dec_lt}
use native.Mathlib.Nat.{mod-lt}
use memkit.Prelude.{
  ℕ, zero, suc, ◌+◌, ◌%◌, ◌≤◌, ◌<◌, ◌≡◌, ◌≢◌, refl, sym, ap, subst, ◌∙◌, true, false, Option, none,
  some, List, [], ◌∷◌, arith, ◌==◌, Bool-cases, inl, inr, get!, set, get!-set_self, get!-set_ne,
  length, length-set, Inhabited, if◌then◌else◌, replicate, length-replicate,
}
use memkit.Status.{Status}
use memkit.HashMap.{HashMap, Blocks, new_kind}
use memkit.HashMap.Chaining.{
  chain_find, unlink_first, copy_out, chain_get, move_chain, move_loop, chain_rehash,
}
use memkit.HashMap.Chaining.Answers.{HasChains}
use memkit.HashMap.Chaining.Lookup.{IsKeyEquality, find_hit, find_miss}

-- The nodes with the key stand in its own chain alone, and there is one at most.
pub record IsPlaced {K V : Type 0} ⦃chain_inhabited : Inhabited (List (K × V))⦄ (m : HashMap K V)
    (key : K) : Type 0 where
  pub elsewhere :
      (i : ℕ)
      → i < m.bucket_count
      → i ≢ m.hash key % m.bucket_count
      → chain_find m.equal key (get! m.buckets i) ≡ none
  pub once :
      chain_find m.equal key
        (unlink_first m.equal key (get! m.buckets (m.hash key % m.bucket_count)))
      ≡ none

module _ {K V : Type 0} ⦃chain_inhabited : Inhabited (List (K × V))⦄
    ⦃node_inhabited : Inhabited (K × V)⦄ (m : HashMap K V) (n : ℕ) where
  pub length-move_chain :
      (chain : List (K × V)) (table : List (List (K × V)))
      → length (move_chain m.hash n chain table) ≡ length table
  unfolding move_chain
  length-move_chain [] table = refl
  length-move_chain (node ∷ chain) table =
      length-move_chain chain
        (set table (m.hash node.0 % n) (node ∷ get! table (m.hash node.0 % n)))
      ∙ length-set table _ _

  length-move_loop :
      (rounds i : ℕ) (table : List (List (K × V)))
      → length (move_loop m n rounds i table) ≡ length table
  unfolding move_loop
  length-move_loop zero i table = refl
  length-move_loop (suc rounds) i table =
      length-move_loop rounds (i + 1) (move_chain m.hash n (get! m.buckets i) table)
      ∙ length-move_chain (get! m.buckets i) table

  abbrev pub rehashed : HashMap K V
  rehashed = record m {
    buckets = move_loop m n m.bucket_count 0 (replicate n []);
    bucket_count = n;
    kind = new_kind m;
  }

  pub chain_rehash-rehashed :
      (b : Blocks)
      → b.table ≡ Status.ok
      → 0 < n
      → (chain_rehash b m n ≡ (Status.ok, rehashed)) × HasChains rehashed
  unfolding chain_rehash
  chain_rehash-rehashed b given pos = (
    rw given refl,
    record {
      some_chains = pos;
      length-buckets = length-move_loop m.bucket_count 0 (replicate n []) ∙ length-replicate n [];
    },
  )

module _ {K V : Type 0} ⦃chain_inhabited : Inhabited (List (K × V))⦄
    ⦃node_inhabited : Inhabited (K × V)⦄ (m : HashMap K V) (laws : IsKeyEquality m.equal m.hash)
    (n : ℕ) (pos : 0 < n) (key : K) where
  -- What is found in a new table of `n` chains.
  abbrev pub found_in : List (List (K × V)) → Option (K × V)
  found_in table = chain_find m.equal key (get! table (m.hash key % n))

  abbrev pub moved : K × V → List (List (K × V)) → List (List (K × V))
  moved node table = set table (m.hash node.0 % n) (node ∷ get! table (m.hash node.0 % n))

  found-moved_hit :
      (node : K × V) (table : List (List (K × V)))
      → length table ≡ n
      → m.equal node.0 key ≡ true
      → found_in (moved node table) ≡ some node
  found-moved_hit node table long hit =
      ap (λ h. chain_find m.equal key (get! (moved node table) (h % n)))
        (sym (laws.one_hash node.0 key hit))
      ∙ ap (chain_find m.equal key) (
          get!-set_self table (m.hash node.0 % n) _
            (omega (arith, long, mod-lt (m.hash node.0) pos)))
      ∙ find_hit m laws key node _ hit

  pub found-moved_miss :
      (node : K × V) (table : List (List (K × V)))
      → length table ≡ n
      → m.equal node.0 key ≡ false
      → found_in (moved node table) ≡ found_in table
  found-moved_miss node table long miss = elim (Bool-cases (m.hash node.0 % n == m.hash key % n)) [
    | inl here ↦
        let at : m.hash node.0 % n ≡ m.hash key % n = ground (arith, here) in
        subst
          (λ i.
            chain_find m.equal key (get! (moved node table) i)
            ≡ chain_find m.equal key (get! table i))
          at
          (ap (chain_find m.equal key) (
              get!-set_self table (m.hash node.0 % n) _
                (omega (arith, long, mod-lt (m.hash node.0) pos)))
            ∙ find_miss m laws key node _ miss)
    | inr away ↦
        ap (chain_find m.equal key) (get!-set_ne table _ _ _ (λ e. ground (arith, e, away)))
  ]

  pub move_absent :
      (chain : List (K × V)) (table : List (List (K × V)))
      → length table ≡ n
      → chain_find m.equal key chain ≡ none
      → found_in (move_chain m.hash n chain table) ≡ found_in table
  unfolding move_chain
  move_absent [] table long absent = refl
  move_absent (node ∷ chain) table long absent = elim (Bool-cases (m.equal node.0 key)) [
    | inl hit ↦
        let e : some node ≡ none = sym (find_hit m laws key node chain hit) ∙ absent in absurd (cc)
    | inr miss ↦
        move_absent chain (moved node table) (length-set table _ _ ∙ long)
          (sym (find_miss m laws key node chain miss) ∙ absent)
        ∙ found-moved_miss node table long miss
  ]

  move_present :
      (chain : List (K × V)) (table : List (List (K × V))) (x : K × V)
      → length table ≡ n
      → chain_find m.equal key (unlink_first m.equal key chain) ≡ none
      → chain_find m.equal key chain ≡ some x
      → found_in (move_chain m.hash n chain table) ≡ some x
  unfolding move_chain unlink_first
  move_present [] table x long once there = absurd (cc)
  move_present (node ∷ chain) table x long once there = elim (Bool-cases (m.equal node.0 key)) [
    | inl hit ↦
        let rest : chain_find m.equal key chain ≡ none =
          ap
            (λ b.
              chain_find m.equal key (if b then chain else node ∷ unlink_first m.equal key chain))
            (sym hit)
          ∙ once in
        move_absent chain (moved node table) (length-set table _ _ ∙ long) rest
        ∙ found-moved_hit node table long hit
        ∙ sym (find_hit m laws key node chain hit)
        ∙ there
    | inr miss ↦
        let rest : chain_find m.equal key (unlink_first m.equal key chain) ≡ none =
          sym (find_miss m laws key node (unlink_first m.equal key chain) miss)
          ∙ ap
              (λ b.
                chain_find m.equal key (if b then chain else node ∷ unlink_first m.equal key chain))
              (sym miss)
          ∙ once in
        move_present chain (moved node table) x (length-set table _ _ ∙ long) rest
          (sym (find_miss m laws key node chain miss) ∙ there)
  ]

  abbrev own : ℕ
  own = m.hash key % m.bucket_count

  loop_absent :
      (rounds i : ℕ) (table : List (List (K × V)))
      → length table ≡ n
      → ((j : ℕ) → i ≤ j → j < i + rounds → chain_find m.equal key (get! m.buckets j) ≡ none)
      → found_in (move_loop m n rounds i table) ≡ found_in table
  unfolding move_loop
  loop_absent zero i table long absent = refl
  loop_absent (suc rounds) i table long absent =
      loop_absent rounds (i + 1) (move_chain m.hash n (get! m.buckets i) table)
        (length-move_chain m n (get! m.buckets i) table ∙ long)
        (λ j le lt. absent j (omega arith) (omega arith))
      ∙ move_absent (get! m.buckets i) table long (absent i (omega arith) (omega arith))

  move_own :
      (found : Option (K × V)) (table : List (List (K × V)))
      → IsPlaced m key
      → length table ≡ n
      → found_in table ≡ none
      → chain_find m.equal key (get! m.buckets own) ≡ found
      → found_in (move_chain m.hash n (get! m.buckets own) table) ≡ found
  move_own none table p long bare e = move_absent (get! m.buckets own) table long e ∙ bare
  move_own (some x) table p long bare e = move_present (get! m.buckets own) table x long p.once e

  loop_own :
      (rounds i : ℕ) (table : List (List (K × V)))
      → IsPlaced m key
      → length table ≡ n
      → found_in table ≡ none
      → i ≤ own
      → own < i + rounds
      → i + rounds ≤ m.bucket_count
      → found_in (move_loop m n rounds i table) ≡ chain_find m.equal key (get! m.buckets own)
  unfolding move_loop
  loop_own zero i table p long bare le lt in_table = absurd (omega arith)
  loop_own (suc rounds) i table p long bare le lt in_table = elim (dec_lt i own) [
    | yes before ↦
        loop_own rounds (i + 1) (move_chain m.hash n (get! m.buckets i) table) p
          (length-move_chain m n (get! m.buckets i) table ∙ long)
          (move_absent (get! m.buckets i) table long
              (p.elsewhere i (omega arith) (λ e. omega (arith, e)))
            ∙ bare)
          (omega arith) (omega arith) (omega arith)
    | no here ↦
        let at : own ≡ i = omega arith in
        loop_absent rounds (i + 1) (move_chain m.hash n (get! m.buckets i) table)
          (length-move_chain m n (get! m.buckets i) table ∙ long)
          (λ j after inside. p.elsewhere j (omega arith) (λ e. omega (arith, e, at)))
        ∙ subst
            (λ j.
              found_in (move_chain m.hash n (get! m.buckets j) table)
              ≡ chain_find m.equal key (get! m.buckets own))
            at (move_own _ table p long bare refl)
  ]

pub get!-replicate :
    {K V : Type 0} ⦃chain_inhabited : Inhabited (List (K × V))⦄ (n i : ℕ)
    → i < n
    → get! (replicate {A = List (K × V)} n []) i ≡ []
get!-replicate zero i h = absurd (omega arith)
get!-replicate (suc n) zero h = refl
get!-replicate (suc n) (suc i) h = get!-replicate n i (omega arith)

module _ {K V : Type 0} ⦃chain_inhabited : Inhabited (List (K × V))⦄
    ⦃node_inhabited : Inhabited (K × V)⦄ (m : HashMap K V) (laws : IsKeyEquality m.equal m.hash)
    (n : ℕ) (key : K) where
  rehash_find :
      0 < n
      → 0 < m.bucket_count
      → IsPlaced m key
      → chain_find m.equal key
          (get! (move_loop m n m.bucket_count 0 (replicate n [])) (m.hash key % n))
        ≡ chain_find m.equal key (get! m.buckets (m.hash key % m.bucket_count))
  unfolding chain_find
  rehash_find pos some_chains p =
      loop_own m laws n pos key m.bucket_count 0 (replicate n []) p (length-replicate n [])
        (ap (chain_find m.equal key) (get!-replicate n (m.hash key % n) (mod-lt (m.hash key) pos))
          ∙ find_none)
        (omega arith) (omega (arith, mod-lt (m.hash key) some_chains)) (omega arith)
    where
      find_none : chain_find {V = V} m.equal key [] ≡ none
      find_none = refl

  -- A rehash of chained buckets that gets memory for the new table of some chains succeeds, and for
  -- every key of which the old table has at most one node, in its own chain, `get` gives what it gave.
  pub chain_rehash-get :
      (b : Blocks) (out : V)
      → b.table ≡ Status.ok
      → 0 < n
      → 0 < m.bucket_count
      → IsPlaced m key
      → ((chain_rehash b m n).0 ≡ Status.ok)
        × (chain_get (chain_rehash b m n).1 key out ≡ chain_get m key out)
  unfolding chain_rehash chain_get
  chain_rehash-get b out given pos some_chains p =
      rw given (refl, ap (λ f. copy_out m.value_kind f out) (rehash_find pos some_chains p))

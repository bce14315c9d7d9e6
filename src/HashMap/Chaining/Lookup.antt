-- ===== src/HashMap/Chaining/Lookup.antt =====
-- What is found in a chain after a change.
use memkit.Prelude.{
  ℕ, ◌≡◌, refl, sym, ap, ◌∙◌, Bool, true, false, some, List, [], ◌∷◌, Bool-cases, inl, inr,
}
use memkit.Ring.Inv.{AlwaysCopies}
use memkit.HashMap.{HashMap}
use memkit.HashMap.Chaining.{chain_find, assign_first, unlink_first}

-- The equality of the user is one, and equal keys have one hash.
pub record IsKeyEquality {K : Type 0} (equal : K → K → Bool) (hash : K → ℕ) : Type 0 where
  pub reflexive : (a : K) → equal a a ≡ true
  pub symmetric : (a b : K) → equal a b ≡ true → equal b a ≡ true
  pub transitive : (a b c : K) → equal a b ≡ true → equal b c ≡ true → equal a c ≡ true
  pub one_hash : (a b : K) → equal a b ≡ true → hash a ≡ hash b

module _ {K V : Type 0} (m : HashMap K V) (laws : IsKeyEquality m.equal m.hash) where
  equal_same : (a b c : K) → m.equal a b ≡ true → m.equal c a ≡ m.equal c b
  equal_same a b c e = elim (Bool-cases (m.equal c a)) [
    | inl yes_a ↦ yes_a ∙ sym (laws.transitive c a b yes_a e)
    | inr no_a ↦ elim (Bool-cases (m.equal c b)) [
      | inl yes_b ↦ let yes_a = laws.transitive c b a yes_b (laws.symmetric a b e) in absurd (cc)
      | inr no_b ↦ no_a ∙ sym no_b
    ]
  ]

  pub other_key : (a b c : K) → m.equal a b ≡ true → m.equal b c ≡ false → m.equal a c ≡ false
  other_key a b c e ne = elim (Bool-cases (m.equal a c)) [
    | inl yes_c ↦ let yes_b = laws.transitive b a c (laws.symmetric a b e) yes_c in absurd (cc)
    | inr no_c ↦ no_c
  ]

  pub find_hit :
      (key : K) (node : K × V) (chain : List (K × V))
      → m.equal node.0 key ≡ true
      → chain_find m.equal key (node ∷ chain) ≡ some node
  unfolding chain_find
  find_hit key node chain hit = rw hit refl

  pub find_miss :
      (key : K) (node : K × V) (chain : List (K × V))
      → m.equal node.0 key ≡ false
      → chain_find m.equal key (node ∷ chain) ≡ chain_find m.equal key chain
  unfolding chain_find
  find_miss key node chain miss = rw miss refl

  pub find_same :
      (key key' : K) (chain : List (K × V))
      → m.equal key key' ≡ true
      → chain_find m.equal key' chain ≡ chain_find m.equal key chain
  unfolding chain_find
  find_same key key' [] e = refl
  find_same key key' (node ∷ chain) e =
      rw (equal_same key key' node.0 e, find_same key key' chain e) refl

  pub find-assign_other :
      (key key' : K) (value : V) (chain : List (K × V))
      → m.equal key key' ≡ false
      → chain_find m.equal key' (assign_first m key value chain) ≡ chain_find m.equal key' chain
  unfolding chain_find assign_first
  find-assign_other key key' value [] ne = refl
  find-assign_other key key' value (node ∷ chain) ne = elim (Bool-cases (m.equal node.0 key)) [
    | inl hit ↦ let miss = other_key node.0 key key' hit ne in rw (hit, miss) refl
    | inr miss ↦ rw (miss, find-assign_other key key' value chain ne) refl
  ]

  pub find-unlink_other :
      (key key' : K) (chain : List (K × V))
      → m.equal key key' ≡ false
      → chain_find m.equal key' (unlink_first m.equal key chain) ≡ chain_find m.equal key' chain
  unfolding chain_find unlink_first
  find-unlink_other key key' [] ne = refl
  find-unlink_other key key' (node ∷ chain) ne = elim (Bool-cases (m.equal node.0 key)) [
    | inl hit ↦ rw hit (sym (find_miss key' node chain (other_key node.0 key key' hit ne)))
    | inr miss ↦ rw (miss, find-unlink_other key key' chain ne) refl
  ]

  module _ (values : AlwaysCopies m.value_kind) where
    pub find-assign :
        (key : K) (value : V) (chain : List (K × V)) (node : K × V)
        → chain_find m.equal key chain ≡ some node
        → chain_find m.equal key (assign_first m key value chain) ≡ some (node.0, value)
    unfolding chain_find assign_first
    find-assign key value [] node found = absurd (cc)
    find-assign key value (first ∷ chain) node found = elim (Bool-cases (m.equal first.0 key)) [
      | inl hit ↦
          let at : first ≡ node =
            let e : some first ≡ some node = sym (find_hit key first chain hit) ∙ found in cc in
          rw (hit, values first.1 value, hit) (ap (λ n. some (n.0, value)) at)
      | inr miss ↦
          let rest =
            find-assign key value chain node (sym (find_miss key first chain miss) ∙ found) in
          rw (miss, miss, rest) refl
    ]

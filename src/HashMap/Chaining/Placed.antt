-- ===== src/HashMap/Chaining/Placed.antt =====
-- Every node stays in its own chain, and each key has one node at most.
use native.Mathlib.Nat.{mod-lt}
use memkit.Prelude.{
  ℕ, ◌+◌, ◌%◌, ◌<◌, ◌≡◌, ◌≢◌, refl, sym, ap, subst, ◌∙◌, true, false, Option, none, some, List, [],
  ◌∷◌, arith, ◌==◌, Bool-cases, inl, inr, get!, set, get!-set_self, get!-set_ne, Inhabited,
}
use memkit.Status.{Status}
use memkit.Growth.{size_mod}
use memkit.Ring.Inv.{AlwaysCopies}
use memkit.HashMap.{HashMap, Blocks}
use memkit.HashMap.Chaining.{chain_find, assign_first, unlink_first, bucket_index, chain_put}
use memkit.HashMap.Chaining.Lookup.{IsKeyEquality, find_hit, find_miss, find_same}
use memkit.HashMap.Chaining.Answers.{
  HasChains, put_existing, put_new, own_chain, with_chain, index_in,
}
use memkit.HashMap.Chaining.Rehash.{IsPlaced}

module _ {K V : Type 0} (m : HashMap K V) (laws : IsKeyEquality m.equal m.hash) where
  pub unlink_hit :
      (key : K) (node : K × V) (chain : List (K × V))
      → m.equal node.0 key ≡ true
      → unlink_first m.equal key (node ∷ chain) ≡ chain
  unfolding unlink_first
  unlink_hit key node chain hit = rw hit refl

  pub unlink_miss :
      (key : K) (node : K × V) (chain : List (K × V))
      → m.equal node.0 key ≡ false
      → unlink_first m.equal key (node ∷ chain) ≡ node ∷ unlink_first m.equal key chain
  unfolding unlink_first
  unlink_miss key node chain miss = rw miss refl

  abbrev pub Once : K → List (K × V) → Type 0
  Once k chain = chain_find m.equal k (unlink_first m.equal k chain) ≡ none

  -- A new node before a chain without its key.
  pub new-Once :
      (k : K) (node : K × V) (chain : List (K × V))
      → chain_find m.equal node.0 chain ≡ none
      → Once k chain
      → Once k (node ∷ chain)
  new-Once k node chain absent once = elim (Bool-cases (m.equal node.0 k)) [
    | inl hit ↦
        ap (chain_find m.equal k) (unlink_hit k node chain hit)
        ∙ find_same m laws node.0 k chain hit
        ∙ absent
    | inr miss ↦
        ap (chain_find m.equal k) (unlink_miss k node chain miss)
        ∙ find_miss m laws k node (unlink_first m.equal k chain) miss
        ∙ once
  ]

  pub assign_absent :
      (k key : K) (value : V) (chain : List (K × V))
      → chain_find m.equal k chain ≡ none
      → chain_find m.equal k (assign_first m key value chain) ≡ none
  unfolding chain_find assign_first
  assign_absent k key value [] absent = refl
  assign_absent k key value (node ∷ chain) absent = elim (Bool-cases (m.equal node.0 k)) [
    | inl hit ↦
        let e : some node ≡ none = sym (find_hit m laws k node chain hit) ∙ absent in absurd (cc)
    | inr miss ↦
        let rest = sym (find_miss m laws k node chain miss) ∙ absent in
        elim (Bool-cases (m.equal node.0 key)) [
          | inl here ↦ rw (here, miss) rest
          | inr away ↦ rw (away, miss) (assign_absent k key value chain rest)
        ]
  ]

  pub assign-Once :
      (k key : K) (value : V) (chain : List (K × V))
      → Once k chain
      → Once k (assign_first m key value chain)
  unfolding chain_find assign_first unlink_first
  assign-Once k key value [] once = refl
  assign-Once k key value (node ∷ chain) once = elim (Bool-cases (m.equal node.0 k)) [
    | inl hit ↦
        let rest : chain_find m.equal k chain ≡ none =
          ap (chain_find m.equal k) (sym (unlink_hit k node chain hit)) ∙ once in
        elim (Bool-cases (m.equal node.0 key)) [
          | inl here ↦ rw (here, hit) rest
          | inr away ↦ rw (away, hit) (assign_absent k key value chain rest)
        ]
    | inr miss ↦
        let rest : Once k chain =
          sym (find_miss m laws k node (unlink_first m.equal k chain) miss)
          ∙ ap (chain_find m.equal k) (sym (unlink_miss k node chain miss))
          ∙ once in
        elim (Bool-cases (m.equal node.0 key)) [
          | inl here ↦ rw (here, miss, miss) rest
          | inr away ↦ rw (away, miss, miss) (assign-Once k key value chain rest)
        ]
  ]

module _ {K V : Type 0} ⦃chain_inhabited : Inhabited (List (K × V))⦄
    ⦃node_inhabited : Inhabited (K × V)⦄ (m : HashMap K V) (laws : IsKeyEquality m.equal m.hash)
    (t : HasChains m) (key k : K) (p : IsPlaced m k) where
  abbrev own_index : ℕ
  own_index = m.hash k % m.bucket_count

  own_kept : bucket_index m key ≡ own_index → Once m laws k (own_chain m laws t key)
  own_kept e = subst (λ i. Once m laws k (get! m.buckets i)) (sym e) p.once

  absent_here :
      bucket_index m key ≢ own_index → chain_find m.equal k (own_chain m laws t key) ≡ none
  absent_here ne = p.elsewhere (bucket_index m key) (mod-lt (m.hash key) t.some_chains) ne

  changed-IsPlaced :
      (chain : List (K × V)) (size : ℕ) (dk : List K) (dv : List V)
      → (bucket_index m key ≢ own_index → chain_find m.equal k chain ≡ none)
      → (bucket_index m key ≡ own_index → Once m laws k chain)
      → IsPlaced (with_chain m laws t key chain size dk dv) k
  changed-IsPlaced chain size dk dv absent once = record {
    elsewhere = elsewhere;
    once = elim (Bool-cases (bucket_index m key == own_index)) [
      | inl here ↦
          let e : bucket_index m key ≡ own_index = ground (arith, here) in
          subst (λ i. Once m laws k (get! (set m.buckets (bucket_index m key) chain) i)) e
            (subst (Once m laws k)
              (sym (get!-set_self m.buckets (bucket_index m key) chain (index_in m laws t key)))
              (once e))
      | inr away ↦
          subst (Once m laws k)
            (sym (
              get!-set_ne m.buckets (bucket_index m key) own_index chain
                (λ e. ground (arith, e, away))))
            p.once
    ];
  }
    where
      elsewhere :
          (i : ℕ)
          → i < m.bucket_count
          → i ≢ own_index
          → chain_find m.equal k (get! (set m.buckets (bucket_index m key) chain) i) ≡ none
      elsewhere i h ne = elim (Bool-cases (bucket_index m key == i)) [
        | inl here ↦
            let e : bucket_index m key ≡ i = ground (arith, here) in
            subst
              (λ j. chain_find m.equal k (get! (set m.buckets (bucket_index m key) chain) j) ≡ none)
              e
              (ap (chain_find m.equal k)
                  (get!-set_self m.buckets (bucket_index m key) chain (index_in m laws t key))
                ∙ absent (λ o. ne (sym e ∙ o)))
        | inr away ↦
            ap (chain_find m.equal k)
              (get!-set_ne m.buckets (bucket_index m key) i chain (λ e. ground (arith, e, away)))
            ∙ p.elsewhere i h ne
      ]

  module _ (keys : AlwaysCopies m.key_kind) (values : AlwaysCopies m.value_kind) (b : Blocks)
      (value : V) (given : b.node ≡ Status.ok) where
    put_by :
        (found : Option (K × V))
        → chain_find m.equal key (own_chain m laws t key) ≡ found
        → IsPlaced (chain_put b m key value).1 k
    put_by (some node) e =
        subst (λ r. IsPlaced r.1 k) (sym (put_existing m laws t key keys values b value node e))
          (changed-IsPlaced (assign_first m key value (own_chain m laws t key)) m.size
            m.destroyed_keys m.destroyed_values
            (λ ne. assign_absent m laws k key value (own_chain m laws t key) (absent_here ne))
            (λ here. assign-Once m laws k key value (own_chain m laws t key) (own_kept here)))
    put_by none e =
        subst (λ r. IsPlaced r.1 k) (sym (put_new m laws t key keys values b value given e))
          (changed-IsPlaced ((key, value) ∷ own_chain m laws t key) ((m.size + 1) % size_mod)
            m.destroyed_keys m.destroyed_values
            (λ ne. elim (Bool-cases (m.equal key k)) [
              | inl hit ↦ absurd (ne (ap (λ h. h % m.bucket_count) (laws.one_hash key k hit)))
              | inr miss ↦
                  find_miss m laws k (key, value) (own_chain m laws t key) miss ∙ absent_here ne
            ])
            (λ here. new-Once m laws k (key, value) (own_chain m laws t key) e (own_kept here)))

    -- `put` keeps that the table has one node at most for a key, in the key's own chain.
    pub chain_put-IsPlaced : IsPlaced (chain_put b m key value).1 k
    chain_put-IsPlaced = put_by _ refl

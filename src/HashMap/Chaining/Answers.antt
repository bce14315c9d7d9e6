-- ===== src/HashMap/Chaining/Answers.antt =====
-- What a chained table answers after `put`.
use native.Mathlib.Nat.{mod-lt}
use memkit.Prelude.{
  ℕ, ◌+◌, ◌%◌, ◌<◌, ◌≡◌, refl, sym, ap, subst, ◌∙◌, true, false, Option, none, some, List, ◌∷◌,
  arith, ◌==◌, Bool-cases, inl, inr, get!, set, get!-set_self, get!-set_ne, length, Inhabited,
  if◌then◌else◌,
}
use memkit.Status.{Status}
use memkit.Growth.{size_mod}
use memkit.Ring.Inv.{AlwaysCopies}
use memkit.HashMap.{HashMap, Blocks}
use memkit.HashMap.Chaining.{
  chain_find, assign_first, bucket_index, copy_out, alloc_chain_node, chain_put, chain_get,
}
use memkit.HashMap.Chaining.Lookup.{
  IsKeyEquality, find_same, find_hit, find_miss, find-assign, find-assign_other,
}

-- The chains of the table are as many as it counts.
pub record HasChains {K V : Type 0} (m : HashMap K V) : Type 0 where
  pub some_chains : 0 < m.bucket_count
  pub length-buckets : length m.buckets ≡ m.bucket_count

module _ {K V : Type 0} ⦃chain_inhabited : Inhabited (List (K × V))⦄
    ⦃node_inhabited : Inhabited (K × V)⦄ (m : HashMap K V) (laws : IsKeyEquality m.equal m.hash)
    (t : HasChains m) (key : K) where
  abbrev pub own_chain : List (K × V)
  own_chain = get! m.buckets (bucket_index m key)

  -- The table with another chain for the key.
  abbrev pub with_chain : List (K × V) → ℕ → List K → List V → HashMap K V
  with_chain chain size destroyed_keys destroyed_values = record m {
    buckets = set m.buckets (bucket_index m key) chain;
    size = size;
    destroyed_keys = destroyed_keys;
    destroyed_values = destroyed_values;
  }

  pub index_in : bucket_index m key < length m.buckets
  index_in = omega (arith, mod-lt (m.hash key) t.some_chains, t.length-buckets)

  module _ (chain : List (K × V)) (size : ℕ) (dk : List K) (dv : List V) (key' : K) where
    abbrev m' : HashMap K V
    m' = with_chain chain size dk dv

    find_own :
        m.equal key key' ≡ true
        → chain_find m.equal key' (get! m'.buckets (bucket_index m key'))
          ≡ chain_find m.equal key chain
    find_own e =
        ap (λ h. chain_find m.equal key' (get! m'.buckets (h % m.bucket_count)))
          (sym (laws.one_hash key key' e))
        ∙ ap (chain_find m.equal key') (get!-set_self m.buckets (bucket_index m key) chain index_in)
        ∙ find_same m laws key key' chain e

    find_other :
        chain_find m.equal key' chain ≡ chain_find m.equal key' own_chain
        → chain_find m.equal key' (get! m'.buckets (bucket_index m key'))
          ≡ chain_find m.equal key' (get! m.buckets (bucket_index m key'))
    find_other same = elim (Bool-cases (bucket_index m key == bucket_index m key')) [
      | inl here ↦ at (ground (arith, here))
      | inr away ↦ ap (chain_find m.equal key') (
          get!-set_ne m.buckets (bucket_index m key) (bucket_index m key') chain
            (λ e. ground (arith, e, away)))
    ]
      where
        at :
            bucket_index m key ≡ bucket_index m key'
            → chain_find m.equal key' (get! m'.buckets (bucket_index m key'))
              ≡ chain_find m.equal key' (get! m.buckets (bucket_index m key'))
        at e =
            subst
              (λ i.
                chain_find m.equal key' (get! m'.buckets i)
                ≡ chain_find m.equal key' (get! m.buckets i))
              e
              (ap (chain_find m.equal key')
                  (get!-set_self m.buckets (bucket_index m key) chain index_in)
                ∙ same)

    pub get_other :
        (out : V)
        → chain_find m.equal key' chain ≡ chain_find m.equal key' own_chain
        → chain_get m' key' out ≡ chain_get m key' out
    unfolding chain_get
    get_other out same = ap (λ f. copy_out m.value_kind f out) (find_other same)

    get_own :
        AlwaysCopies m.value_kind
        → (out : V) (node : K × V) → m.equal key key' ≡ true
        → chain_find m.equal key chain ≡ some node
        → chain_get m' key' out ≡ (Status.ok, node.1)
    unfolding chain_get
    get_own values out node e found =
        ap (λ f. copy_out m.value_kind f out) (find_own e ∙ found)
        ∙ ap (λ r. (Status.ok, r.1)) (values out node.1)

    pub get_gone :
        (out : V)
        → m.equal key key' ≡ true
        → chain_find m.equal key chain ≡ none
        → chain_get m' key' out ≡ (Status.not_found, out)
    unfolding chain_get
    get_gone out e gone = ap (λ f. copy_out m.value_kind f out) (find_own e ∙ gone)

  module _ (keys : AlwaysCopies m.key_kind) (values : AlwaysCopies m.value_kind) (b : Blocks)
      (value : V) where
    pub put_existing :
        (node : K × V)
        → chain_find m.equal key own_chain ≡ some node
        → chain_put b m key value ≡ (
          Status.ok,
          with_chain
              (assign_first m key value own_chain)
              m.size
              m.destroyed_keys
              m.destroyed_values,
        )
    unfolding chain_put
    put_existing node found = rw found refl

    pub put_new :
        b.node ≡ Status.ok
        → chain_find m.equal key own_chain ≡ none
        → chain_put b m key value ≡ (
          Status.ok,
          with_chain
              ((key, value) ∷ own_chain)
              ((m.size + 1) % size_mod)
              m.destroyed_keys
              m.destroyed_values,
        )
    unfolding chain_put alloc_chain_node
    put_new given absent =
        rw (absent, keys node_inhabited.default.0 key, values node_inhabited.default.1 value, given)
          refl

    abbrev Answers : K → V → HashMap K V → Type 0
    Answers key' out m' =
        chain_get m' key' out
        ≡ (if m.equal key key' then (Status.ok, value) else chain_get m key' out)

    answer_changed :
        (chain : List (K × V)) (node : K × V) (size : ℕ) (key' : K) (out : V)
        → chain_find m.equal key chain ≡ some node
        → node.1 ≡ value
        → (m.equal key key' ≡ false
            → chain_find m.equal key' chain ≡ chain_find m.equal key' own_chain)
        → Answers key' out (with_chain chain size m.destroyed_keys m.destroyed_values)
    answer_changed chain node size key' out found holds others =
        elim (Bool-cases (m.equal key key')) [
          | inl e ↦ rw e (
              get_own chain size m.destroyed_keys m.destroyed_values key' values out node e found
              ∙ ap (λ v. (Status.ok, v)) holds)
          | inr ne ↦
              rw ne (get_other chain size m.destroyed_keys m.destroyed_values key' out (others ne))
        ]

    answer_by :
        (found : Option (K × V)) (key' : K) (out : V)
        → b.node ≡ Status.ok
        → chain_find m.equal key own_chain ≡ found
        → ((chain_put b m key value).0 ≡ Status.ok) × Answers key' out (chain_put b m key value).1
    answer_by (some node) key' out given e = rw (put_existing node e) (
      refl,
      answer_changed (assign_first m key value own_chain) (node.0, value) m.size key' out
          (find-assign m laws values key value own_chain node e) refl
          (find-assign_other m laws key key' value own_chain),
    )
    answer_by none key' out given e = rw (put_new given e) (
      refl,
      answer_changed ((key, value) ∷ own_chain) (key, value) ((m.size + 1) % size_mod) key' out
          (find_hit m laws key (key, value) own_chain (laws.reflexive key)) refl
          (find_miss m laws key' (key, value) own_chain),
    )

    -- In a chained table, whose copies succeed and whose equality is an equivalence under which
    -- equal keys have one hash, `put` succeeds when it gets the memory of a node, and afterwards
    -- `get` of an equal key gives the value and `get` of any other key what it gave before.
    pub chain_put-get :
        (key' : K) (out : V)
        → b.node ≡ Status.ok
        → ((chain_put b m key value).0 ≡ Status.ok)
          × (chain_get (chain_put b m key value).1 key' out
              ≡ (if m.equal key key' then (Status.ok, value) else chain_get m key' out))
    chain_put-get key' out given = answer_by _ key' out given refl

    strategy_by :
        (found : Option (K × V))
        → b.node ≡ Status.ok
        → chain_find m.equal key own_chain ≡ found
        → (chain_put b m key value).1.is_open ≡ m.is_open
    strategy_by (some node) given e = rw (put_existing node e) refl
    strategy_by none given e = rw (put_new given e) refl

    pub chain_put-is_open : b.node ≡ Status.ok → (chain_put b m key value).1.is_open ≡ m.is_open
    chain_put-is_open given = strategy_by _ given refl

-- ===== src/HashMap/Ops/Chained.antt =====
-- `put` and `get` of a map of chained buckets, growth included.
use memkit.Prelude.{
  ℕ, ◌*◌, ◌/◌, ◌≤◌, ◌<◌, ◌≡◌, refl, sym, ap, subst, ◌∙◌, Bool, true, false, Option, some, List,
  arith, ◌==◌, Bool-cases, inl, inr, Inhabited, if◌then◌else◌,
}
use memkit.Status.{Status}
use memkit.Growth.{size_max}
use memkit.Ring.Inv.{AlwaysCopies}
use memkit.HashMap.{HashMap, Slot, Blocks, should_grow, grow_bucket_count}
use memkit.HashMap.Chaining.{chain_put, chain_get, chain_rehash}
use memkit.HashMap.Chaining.Lookup.{IsKeyEquality}
use memkit.HashMap.Chaining.Answers.{HasChains, chain_put-get, chain_put-is_open}
use memkit.HashMap.Chaining.Rehash.{IsPlaced, rehashed, chain_rehash-rehashed, chain_rehash-get}
use memkit.HashMap.Chaining.Placed.{chain_put-IsPlaced}
use memkit.HashMap.Chaining.RehashPlaced.{rehashed-IsPlaced}
use memkit.HashMap.Ops.{maybe_grow, put, get}

doubled : (n : ℕ) → 0 < n → n ≤ size_max / 2 → grow_bucket_count n ≡ n * 2
unfolding grow_bucket_count
doubled n pos small = ground arith

module _ {K V : Type 0} ⦃slot_inhabited : Inhabited (Slot K V)⦄
    ⦃chain_inhabited : Inhabited (List (K × V))⦄ ⦃node_inhabited : Inhabited (K × V)⦄
    (m : HashMap K V) (laws : IsKeyEquality m.equal m.hash) (t : HasChains m)
    (chained : m.is_open ≡ false) (small : m.bucket_count ≤ size_max / 2) (b : Blocks)
    (table : b.table ≡ Status.ok) (node : b.node ≡ Status.ok) where
  grown : maybe_grow b m ≡ chain_rehash b m (m.bucket_count * 2)
  unfolding maybe_grow
  grown =
      let twice = doubled m.bucket_count t.some_chains small in
      let differs : (m.bucket_count * 2 == m.bucket_count) ≡ false =
        ground (arith, t.some_chains) in
      rw (twice, differs, chained) refl

  put_kept :
      (key : K) (value : V)
      → should_grow m ≡ false
      → put b m (some key) (some value) ≡ chain_put b m key value
  unfolding put
  put_kept key value keeps =
      let some_chains : (m.bucket_count == 0) ≡ false = ground (arith, t.some_chains) in
      rw (keeps, some_chains, chained) refl

  put_grown :
      (key : K) (value : V)
      → should_grow m ≡ true
      → put b m (some key) (some value) ≡ chain_put b (rehashed m (m.bucket_count * 2)) key value
  unfolding put
  put_grown key value grows =
      let some_chains : (m.bucket_count == 0) ≡ false = ground (arith, t.some_chains) in
      let run =
        grown
        ∙ (chain_rehash-rehashed m (m.bucket_count * 2) b table (omega (arith, t.some_chains))).0 in
      rw (grows, some_chains, run, chained) refl

  get_chained :
      (m' : HashMap K V) (key : K) (out : V)
      → m'.is_open ≡ false
      → get m' (some key) (some out) ≡ ((chain_get m' key out).0, some (chain_get m' key out).1)
  unfolding get
  get_chained m' key out c = rw c refl

  abbrev answer : Status × V → Status × Option V
  answer r = (r.0, some r.1)

  module _ (keys : AlwaysCopies m.key_kind) (values : AlwaysCopies m.value_kind) (key : K)
      (value : V) (key' : K) (out : V) (placed : IsPlaced m key') where
    abbrev Answered : Status × HashMap K V → Type 0
    Answered r =
        (r.0 ≡ Status.ok)
        × (r.1.is_open ≡ false)
        × (chain_get r.1 key' out
            ≡ (if m.equal key key' then (Status.ok, value) else chain_get m key' out))

    kept-Answered : Answered (chain_put b m key value)
    kept-Answered =
        let (st, got) = chain_put-get m laws t key keys values b value key' out node in
        (st, chain_put-is_open m laws t key keys values b value node ∙ chained, got)

    grown-Answered : Answered (chain_put b (rehashed m (m.bucket_count * 2)) key value)
    grown-Answered =
        let pos : 0 < m.bucket_count * 2 = omega (arith, t.some_chains) in
        let (run, chains) = chain_rehash-rehashed m (m.bucket_count * 2) b table pos in
        let (st, same) =
          chain_rehash-get m laws (m.bucket_count * 2) key' b out table pos t.some_chains placed in
        let (put_st, got) =
          chain_put-get (rehashed m (m.bucket_count * 2)) laws chains key keys values b value key'
            out node in
        (
          put_st,
          chain_put-is_open (rehashed m (m.bucket_count * 2)) laws chains key keys values b value
                node
              ∙ chained,
          got
              ∙ ap (λ r. if m.equal key key' then (Status.ok, value) else r)
                  (ap (λ w. chain_get w.1 key' out) (sym run) ∙ same),
        )

    put-Answered : Answered (put b m (some key) (some value))
    put-Answered = elim (Bool-cases (should_grow m)) [
      | inl grows ↦ subst Answered (sym (put_grown key value grows)) grown-Answered
      | inr keeps ↦ subst Answered (sym (put_kept key value keeps)) kept-Answered
    ]

    -- In a map of chained buckets, of at most half as many as a `size_t` can count, whose copies
    -- succeed and whose equality is an equivalence under which equal keys have one hash, and for
    -- memory that is given when it is asked for: a key of which the map has one node at most, in
    -- its own bucket, has this also after `put` of any key, also when the table grows.
    pub put-IsPlaced : IsPlaced (put b m (some key) (some value)).1 key'
    put-IsPlaced = elim (Bool-cases (should_grow m)) [
      | inl grows ↦
          let pos : 0 < m.bucket_count * 2 = omega (arith, t.some_chains) in
          let (run, chains) = chain_rehash-rehashed m (m.bucket_count * 2) b table pos in
          subst (λ r. IsPlaced r.1 key') (sym (put_grown key value grows))
            (chain_put-IsPlaced (rehashed m (m.bucket_count * 2)) laws chains key key'
              (rehashed-IsPlaced m laws (m.bucket_count * 2) pos key' placed) keys values b value
              node)
      | inr keeps ↦
          subst (λ r. IsPlaced r.1 key') (sym (put_kept key value keeps))
            (chain_put-IsPlaced m laws t key key' placed keys values b value node)
    ]

    -- In a map of chained buckets, of at most half as many as a `size_t` can count, whose copies
    -- succeed and whose equality is an equivalence under which equal keys have one hash, and for
    -- memory that is given when it is asked for: `put` succeeds, also when it grows the table, and
    -- afterwards `get` of a key, of which the map had one node at most, in its own bucket, gives
    -- the value if the key equals the one put, and else what it gave before.
    pub put-get :
        ((put b m (some key) (some value)).0 ≡ Status.ok)
        × (get (put b m (some key) (some value)).1 (some key') (some out)
            ≡ (if m.equal key key' then (Status.ok, some value) else get m (some key') (some out)))
    put-get =
        let (st, still_chained, got) = put-Answered in
        (
          st,
          get_chained (put b m (some key) (some value)).1 key' out still_chained
              ∙ ap answer got
              ∙ answer_if (m.equal key key')
              ∙ ap (λ r. if m.equal key key' then (Status.ok, some value) else r)
                  (sym (get_chained m key' out chained)),
        )
      where
        answer_if :
            (c : Bool)
            → answer (if c then (Status.ok, value) else chain_get m key' out)
              ≡ (if c then (Status.ok, some value) else answer (chain_get m key' out))
        answer_if true = refl
        answer_if false = refl

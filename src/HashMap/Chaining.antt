-- ===== src/HashMap/Chaining.antt =====
-- Chained buckets: the operations on chains.
pub mod Answers
pub mod Lookup
pub mod Placed
pub mod RehashPlaced
pub mod Rehash
pub mod Removal
use memkit.Prelude.{
  ℕ, zero, suc, ◌+◌, ◌-◌, ◌%◌, Bool, true, false, Option, none, some, List, [], ◌∷◌, not, ◌==◌,
  if◌then◌else◌, get!, set, replicate, Inhabited,
}
use memkit.Status.{Status, is_ok}
use memkit.Element.{Kind, copy_construct, destroy}
use memkit.Growth.{size_mod, size_max}
use memkit.HashMap.{HashMap, Blocks, new_kind}

-- `node != nullptr`: what to do without a node, and with one.
abbrev pub by_found {ℓ κ} : {A : Type ℓ} {B : Type κ} → Option A → B → (A → B) → B
by_found none absent there = absent
by_found (some node) absent there = there node

module _ {ℓ} {K : Type ℓ} {V : Type ℓ} where
  -- The first node of a chain with the key: its key and its value.
  unfoldable pub chain_find : (K → K → Bool) → K → List (K × V) → Option (K × V)
  chain_find equal key [] = none
  chain_find equal key (node ∷ chain) =
      let rest = chain_find equal key chain in if equal node.0 key then some node else rest

  -- `copy_assign` into the value of that node.
  pub assign_first : HashMap K V → K → V → List (K × V) → List (K × V)
  assign_first m key value [] = []
  assign_first m key value (node ∷ chain) =
      let rest = assign_first m key value chain in
      if m.equal node.0 key
      then (node.0, (copy_construct m.value_kind node.1 value).1) ∷ chain
      else node ∷ rest

  -- The chain without that node.
  unfoldable pub unlink_first : (K → K → Bool) → K → List (K × V) → List (K × V)
  unlink_first equal key [] = []
  unlink_first equal key (node ∷ chain) =
      let rest = unlink_first equal key chain in if equal node.0 key then chain else node ∷ rest

module _ {ℓ} {K : Type ℓ} {V : Type ℓ} ⦃chain_inhabited : Inhabited (List (K × V))⦄
    ⦃node_inhabited : Inhabited (K × V)⦄ where
  abbrev pub bucket_index : HashMap K V → K → ℕ
  bucket_index m key = m.hash key % m.bucket_count

  -- A node in fresh memory, whose key and value the model takes from the default node.
  pub alloc_chain_node : Blocks → HashMap K V → K → V → Status × (K × V) × HashMap K V
  alloc_chain_node b m key value =
      let blank = node_inhabited.default in
      let (key_st, key') = copy_construct m.key_kind blank.0 key in
      let (value_st, value') = copy_construct m.value_kind blank.1 value in
      if not (is_ok b.node)
      then (b.node, blank, m)
      else if not (is_ok key_st)
      then (key_st, blank, m)
      else if not (is_ok value_st)
      then (value_st, blank, record m { destroyed_keys = destroy m.key_kind key' m.destroyed_keys })
      else (Status.ok, (key', value'), m)

  pub chain_put : Blocks → HashMap K V → K → V → Status × HashMap K V
  unfolding chain_find assign_first alloc_chain_node
  chain_put b m key value =
      let index = bucket_index m key in
      let chain = get! m.buckets index in
      let (st, node, m') = alloc_chain_node b m key value in
      by_found (chain_find m.equal key chain)
        (if is_ok st
          then (
            Status.ok,
            record m' {
              buckets = set m.buckets index (node ∷ chain);
              size = (m.size + 1) % size_mod;
            },
          )
          else (st, m'))
        (λ existing.
          (Status.ok, record m { buckets = set m.buckets index (assign_first m key value chain) }))

  -- The value of the node that was found goes out.
  abbrev pub copy_out : Kind V → Option (K × V) → V → Status × V
  copy_out value_kind none out = (Status.not_found, out)
  copy_out value_kind (some node) out = (Status.ok, (copy_construct value_kind out node.1).1)

  pub chain_get : HashMap K V → K → V → Status × V
  unfolding chain_find
  chain_get m key out =
      copy_out m.value_kind (chain_find m.equal key (get! m.buckets (bucket_index m key))) out

  pub chain_remove : HashMap K V → K → Status × HashMap K V
  unfolding chain_find unlink_first
  chain_remove m key =
      let index = bucket_index m key in
      let chain = get! m.buckets index in
      by_found (chain_find m.equal key chain) (Status.not_found, m)
        (λ node. (
          Status.ok,
          record m {
            buckets = set m.buckets index (unlink_first m.equal key chain);
            size = (m.size + size_max) % size_mod;
            destroyed_keys = destroy m.key_kind node.0 m.destroyed_keys;
            destroyed_values = destroy m.value_kind node.1 m.destroyed_values;
          },
        ))

  pub chain_contains : HashMap K V → K → Bool
  unfolding chain_find
  chain_contains m key =
      by_found (chain_find m.equal key (get! m.buckets (bucket_index m key))) false (λ node. true)

  -- The nodes of a chain are destroyed from the first on.
  destroy_chain : HashMap K V → List (K × V) → HashMap K V
  destroy_chain m [] = m
  destroy_chain m (node ∷ chain) =
      destroy_chain
        (record m {
          destroyed_keys = destroy m.key_kind node.0 m.destroyed_keys;
          destroyed_values = destroy m.value_kind node.1 m.destroyed_values;
        })
        chain

  chain_clear_loop : ℕ → ℕ → HashMap K V → HashMap K V
  unfolding destroy_chain
  chain_clear_loop zero i m = m
  chain_clear_loop (suc rounds) i m =
      let m' = destroy_chain m (get! m.buckets i) in
      chain_clear_loop rounds (i + 1) (record m' { buckets = set m'.buckets i [] })

  pub chain_clear : HashMap K V → HashMap K V
  unfolding chain_clear_loop
  chain_clear m = chain_clear_loop m.bucket_count 0 m

  -- The nodes of a chain go to the front of their new chains, the first one first.
  pub move_chain : (K → ℕ) → ℕ → List (K × V) → List (List (K × V)) → List (List (K × V))
  move_chain hash new_bucket_count [] table = table
  move_chain hash new_bucket_count (node ∷ chain) table =
      let index = hash node.0 % new_bucket_count in
      move_chain hash new_bucket_count chain (set table index (node ∷ get! table index))

  pub move_loop : HashMap K V → ℕ → ℕ → ℕ → List (List (K × V)) → List (List (K × V))
  unfolding move_chain
  move_loop m new_bucket_count zero i table = table
  move_loop m new_bucket_count (suc rounds) i table =
      move_loop m new_bucket_count rounds (i + 1)
        (move_chain m.hash new_bucket_count (get! m.buckets i) table)

  pub chain_rehash : Blocks → HashMap K V → ℕ → Status × HashMap K V
  unfolding move_loop
  chain_rehash b m new_bucket_count = if not (is_ok b.table) then (b.table, m) else (
    Status.ok,
    record m {
      buckets = move_loop m new_bucket_count m.bucket_count 0 (replicate new_bucket_count []);
      bucket_count = new_bucket_count;
      kind = new_kind m;
    },
  )

-- ===== src/HashMap/Chaining/Removal.antt =====
-- What a chained table answers after `remove`.
use memkit.Prelude.{◌+◌, ◌%◌, ◌≡◌, List, Inhabited, if◌then◌else◌}
use memkit.Status.{Status}
use memkit.Element.{destroy}
use memkit.Growth.{size_mod, size_max}
use memkit.HashMap.{HashMap}
use memkit.HashMap.Chaining.{unlink_first, chain_get}
use memkit.HashMap.Chaining.Lookup.{IsKeyEquality}
use memkit.HashMap.Chaining.Answers.{HasChains, own_chain, with_chain}

module _ {K V : Type 0} ⦃chain_inhabited : Inhabited (List (K × V))⦄
    ⦃node_inhabited : Inhabited (K × V)⦄ (m : HashMap K V) (laws : IsKeyEquality m.equal m.hash)
    (t : HasChains m) (key : K) where
  abbrev chain : List (K × V)
  chain = own_chain m laws t key

  -- The table without the node that was found.
  abbrev without : K × V → HashMap K V
  without node =
      with_chain m laws t key (unlink_first m.equal key chain) ((m.size + size_max) % size_mod)
        (destroy m.key_kind node.0 m.destroyed_keys)
        (destroy m.value_kind node.1 m.destroyed_values)

  -- What `get` of a key answers when no key equal to the removed one is left.
  abbrev Gone : K → V → HashMap K V → Type 0
  Gone key' out m' =
      chain_get m' key' out
      ≡ (if m.equal key key' then (Status.not_found, out) else chain_get m key' out)

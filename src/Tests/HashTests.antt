-- ===== src/Tests/HashTests.antt =====
-- The hash map at concrete inputs.
use memkit.Prelude.{
  some, ℕ, zero, suc, ◌<◌, ◌≡◌, ◌≢◌, refl, true, false, none, List, [], ◌∷◌, arith, ◌==◌, get!,
  Inhabited, if◌then◌else◌,
}
use memkit.Status.{Status}
use memkit.Element.{Kind}
use memkit.Ring.{external}
use memkit.Ring.Inv.{AlwaysCopies}
use memkit.HashMap.{HashMap, Slot, SlotState, Blocks}
use memkit.HashMap.Open.{open_put, open_get, open_contains}
use memkit.HashMap.Open.Places.{IsTable}
use memkit.HashMap.Open.Full as HashFull
use memkit.HashMap.Open.RoundTrip as HashRoundTrip
use memkit.HashMap.Ops.{put, get}
use memkit.HashMap.Ops.Chained as HashChained
use memkit.HashMap.Chaining.Rehash.{IsPlaced}
use memkit.HashMap.Chaining.{chain_find, unlink_first}
use memkit.HashMap.Chaining.Lookup.{IsKeyEquality}
use memkit.HashMap.Chaining.Answers as HashAnswers
use memkit.HashMap.Chaining.Removal as HashRemoval

instance abbrev blank_slot : Inhabited (Slot ℕ ℕ)
blank_slot = record { default = record { state = SlotState.empty; key = 0; value = 0 } }

instance abbrev blank_chain : Inhabited (List (ℕ × ℕ))
blank_chain = record { default = [] }

instance abbrev blank_node : Inhabited (ℕ × ℕ)
blank_node = record { default = (0, 0) }

abbrev plain : Kind ℕ
plain = Kind.runtime none false

plain-AlwaysCopies : AlwaysCopies plain
plain-AlwaysCopies dst src = refl

abbrev full_slot : ℕ → ℕ → Slot ℕ ℕ
full_slot key value = record { state = SlotState.occupied; key = key; value = value }

-- Slots for the keys 3 and 7, which have one hash, between a deleted and an empty one.
abbrev open_map : HashMap ℕ ℕ
open_map = record {
  is_open = true;
  bucket_count = 4;
  size = 2;
  buckets = [];
  slots =
      record { state = SlotState.deleted; key = 11; value = 1 }
      ∷ full_slot 7 70
      ∷ record { state = SlotState.empty; key = 0; value = 0 }
      ∷ full_slot 3 30
      ∷ [];
  key_kind = plain;
  value_kind = plain;
  hash = λ key. key;
  equal = λ a b. a == b;
  growable = false;
  in_arena = false;
  kind = external;
  destroyed_keys = [];
  destroyed_values = [];
}

open_map-IsTable : IsTable open_map
open_map-IsTable = record { some_slots = omega arith; length-slots = refl }

open_put-get_example :
    ((open_put open_map 11 5).0 ≡ Status.ok)
    × (open_get (open_put open_map 11 5).1 11 0 ≡ (Status.ok, 5))
open_put-get_example =
    HashRoundTrip.open_put-get open_map open_map-IsTable 11 5 plain-AlwaysCopies plain-AlwaysCopies
      2 0 (omega arith) refl refl

-- The same without the empty slot.
abbrev full_map : HashMap ℕ ℕ
full_map = record open_map { bucket_count = 2; slots = full_slot 4 40 ∷ full_slot 3 30 ∷ [] }

none_empty : (i : ℕ) → i < 2 → (get! full_map.slots i).state ≢ SlotState.empty
none_empty zero h e = cc
none_empty (suc zero) h e = cc
none_empty (suc (suc i)) h e = absurd (omega arith)

open_contains_full_example :
    (open_contains full_map 5 ≡ true) × ((open_get full_map 5 0).0 ≡ Status.ok)
open_contains_full_example = HashFull.open_contains_full full_map (omega arith) none_empty 5 0

-- The keys 3 and 7 in one chain of two.
abbrev chained_map : HashMap ℕ ℕ
chained_map = record open_map {
  is_open = false;
  bucket_count = 2;
  buckets = [] ∷ ((7, 70) ∷ (3, 30) ∷ []) ∷ [];
  slots = [];
}

same_number : (a b : ℕ) → (a == b) ≡ true → a ≡ b
same_number a b e = ground (arith, e)

numbers-IsKeyEquality : IsKeyEquality {K = ℕ} (λ a b. a == b) (λ key. key)
numbers-IsKeyEquality = record {
  reflexive = λ a. ground arith;
  symmetric = λ a b e. ground (arith, e);
  transitive = λ a b c e f. ground (arith, e, f);
  one_hash = same_number;
}

abbrev memory : Blocks
memory = record { table = Status.ok; node = Status.ok }

chained_map-IsPlaced : IsPlaced chained_map 7
unfolding chain_find unlink_first
chained_map-IsPlaced = record { elsewhere = elsewhere; once = refl }
  where
    elsewhere :
        (i : ℕ) → i < 2 → i ≢ 1 → chain_find chained_map.equal 7 (get! chained_map.buckets i) ≡ none
    elsewhere zero h ne = refl
    elsewhere (suc zero) h ne = absurd (ne refl)
    elsewhere (suc (suc i)) h ne = absurd (omega arith)

-- The chained map, which grows when a third key comes.
abbrev growing_map : HashMap ℕ ℕ
growing_map = record chained_map { growable = true }

growing_map-IsPlaced : IsPlaced growing_map 7
growing_map-IsPlaced = record {
  elsewhere = chained_map-IsPlaced.elsewhere;
  once = chained_map-IsPlaced.once;
}

growing_map-HasChains : HashAnswers.HasChains growing_map
growing_map-HasChains = record { some_chains = omega arith; length-buckets = refl }

put-get_example :
    ((put memory growing_map (some 5) (some 50)).0 ≡ Status.ok)
    × (get (put memory growing_map (some 5) (some 50)).1 (some 7) (some 0)
        ≡ (if 5 == 7 then (Status.ok, some 50) else get growing_map (some 7) (some 0)))
put-get_example =
    HashChained.put-get growing_map numbers-IsKeyEquality growing_map-HasChains refl (omega arith)
      memory refl refl plain-AlwaysCopies plain-AlwaysCopies 5 50 7 0 growing_map-IsPlaced

put-IsPlaced_example : IsPlaced (put memory growing_map (some 5) (some 50)).1 7
put-IsPlaced_example =
    HashChained.put-IsPlaced growing_map numbers-IsKeyEquality growing_map-HasChains refl
      (omega arith) memory refl refl plain-AlwaysCopies plain-AlwaysCopies 5 50 7 0
      growing_map-IsPlaced

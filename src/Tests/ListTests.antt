-- ===== src/Tests/ListTests.antt =====
-- The doubly linked list at concrete inputs.
use memkit.Prelude.{
  ℕ, zero, suc, ◌+◌, ◌*◌, ◌<◌, ◌≡◌, ◌≢◌, refl, true, false, none, some, [], ◌∷◌, arith, ◌==◌,
}
use memkit.Status.{Status}
use memkit.Element.{Kind, Policy}
use memkit.Ring.{external}
use memkit.Ring.Inv.{AlwaysCopies}
use memkit.Chain.{ptr_at}
use memkit.Chain.Forward.{IsNew, Forward}
use memkit.Dlist.{Dlist, Malloc, node_stride, link_back, init}
use memkit.Dlist.Links.{Linked, link_back-Linked}
use memkit.Dlist.Inv.{Holds, IsValid, IsFresh}
use memkit.Dlist.Start as ListStart
use memkit.Dlist.Ops.Clear as ListClear
use memkit.Dlist.Ops.{clear, insert_at, remove_at, remove_first}
use memkit.Dlist.Ops.Insert as ListInsert
use memkit.Dlist.Ops.Remove as ListRemove
use memkit.Dlist.Ops.Loops as ListLoops

abbrev numbers : Policy ℕ
numbers = record { elem_size = 8; kind = Kind.typed (λ x. x) false }

numbers-AlwaysCopies : AlwaysCopies numbers.kind
numbers-AlwaysCopies dst src = refl

-- A list of no nodes; the elements stand at the addresses 16 and 40.
abbrev blank : Dlist ℕ
blank = record {
  policy = numbers;
  prev = λ p. 0;
  next = λ p. 0;
  node_data = λ p. p + 1;
  head = 0;
  tail = 0;
  free_list = 64;
  size = 0;
  node_capacity = 3;
  node_pool = 16;
  fixed_pool = true;
  kind = external;
  destroyed = [];
  freed = [];
}

-- The elements 17 and 41, and a free node at the address 64.
abbrev two_nodes : Dlist ℕ
two_nodes = record (link_back (link_back blank 16) 40) { size = 2 }

no_nodes-Linked : Linked blank []
no_nodes-Linked = record {
  nodes = record {
    there = λ i p. absurd (omega arith);
    distinct = λ i j p q. absurd (omega arith);
  };
  forward = record { first_at = refl; step = λ i p. absurd (omega arith) };
  backward = record { last_at = refl; step = λ i p. absurd (omega arith) };
}

not_first : IsNew 40 (16 ∷ [])
not_first zero p e = omega (arith, e)
not_first (suc i) p e = absurd (omega arith)

two_links : Linked (link_back (link_back blank 16) 40) (16 ∷ 40 ∷ [])
two_links =
    link_back-Linked (link_back blank 16) 40 (16 ∷ [])
      (link_back-Linked blank 16 [] no_nodes-Linked (λ e. omega (arith, e))
        (λ i p. absurd (omega arith)))
      (λ e. omega (arith, e)) not_first

free_two : Forward two_nodes.next 64 (64 ∷ [])
free_two = record { first_at = refl; step = step }
  where
    step : (i : ℕ) → i < 1 → two_nodes.next (ptr_at (64 ∷ []) i) ≡ ptr_at (64 ∷ []) (suc i)
    step zero p = refl
    step (suc i) p = absurd (omega arith)

apart_two : (i j : ℕ) → i < 2 → j < 1 → ptr_at (16 ∷ 40 ∷ []) i ≢ ptr_at (64 ∷ []) j
apart_two zero zero p q e = omega (arith, e)
apart_two (suc zero) zero p q e = omega (arith, e)
apart_two (suc (suc i)) zero p q e = absurd (omega arith)
apart_two i (suc j) p q e = absurd (omega arith)

two_nodes-IsValid : IsValid two_nodes (16 ∷ 40 ∷ []) (64 ∷ [])
two_nodes-IsValid = record {
  linked = record {
    nodes = two_links.nodes;
    forward = two_links.forward;
    backward = two_links.backward;
  };
  size = refl;
  free_nodes = ListStart.pool_nodes-AreNodes 64 1 1 (omega arith) (omega arith);
  free = free_two;
  apart = apart_two;
  pool = λ e. refl;
}

abbrev no_heap : Malloc
no_heap = record { allow_heap = false; fresh = 0 }

no_heap-IsFresh : IsFresh no_heap (16 ∷ 40 ∷ []) (64 ∷ [])
no_heap-IsFresh given = absurd (given refl)

init-IsValid_example :
    (init two_nodes numbers 1000 2 true).0 ≡ Status.ok
    × IsValid
        (init two_nodes numbers 1000 2 true).1
        []
        (ListStart.pool_nodes 1000 (node_stride 8) 2)
init-IsValid_example =
    ListStart.init-IsValid two_nodes numbers 1000 2 true (λ e. omega (arith, e))
      (λ e. omega (arith, e)) (omega arith)

insert_at-Inserted_example :
    ListInsert.Inserted two_nodes
      (64 ∷ [])
      (17 ∷ 5 ∷ 41 ∷ [])
      (insert_at no_heap two_nodes 1 (some 5))
insert_at-Inserted_example =
    ListInsert.insert_at-Inserted no_heap two_nodes (16 ∷ 40 ∷ []) (64 ∷ []) two_nodes-IsValid 5
      numbers-AlwaysCopies no_heap-IsFresh 1 (omega arith)

remove_at-Removed_example :
    ListRemove.Removed (17 ∷ 41 ∷ []) 1 (some 0) (remove_at no_heap two_nodes 1 (some 0))
remove_at-Removed_example =
    ListRemove.remove_at-Removed no_heap two_nodes (16 ∷ 40 ∷ []) (64 ∷ []) two_nodes-IsValid
      numbers-AlwaysCopies 1 (some 0) (omega arith)

-- A visit that adds up the elements times their positions.
abbrev weigh : ℕ → ℕ → ℕ → Status × ℕ
weigh total x index = (Status.ok, total + x * index)

remove_first-first_index_example :
    remove_first no_heap (λ x. x == 41) two_nodes none
    ≡ elim (ListLoops.first_index (λ x. x == 41) 0 (17 ∷ 41 ∷ [])) [
      | none ↦ (Status.not_found, none, two_nodes)
      | some i ↦ remove_at no_heap two_nodes i none
    ]
remove_first-first_index_example =
    ListLoops.remove_first-first_index two_nodes (16 ∷ 40 ∷ []) (64 ∷ []) two_nodes-IsValid no_heap
      (λ x. x == 41) none

two_nodes-Holds : Holds two_nodes (17 ∷ 41 ∷ [])
two_nodes-Holds = record {
  nodes = 16 ∷ 40 ∷ [];
  spare = 64 ∷ [];
  valid = two_nodes-IsValid;
  elements = refl;
}

clear-empties_example :
    Holds (clear no_heap two_nodes) [] × ((clear no_heap two_nodes).destroyed ≡ [])
clear-empties_example = ListClear.clear-empties no_heap two_nodes (17 ∷ 41 ∷ []) two_nodes-Holds

-- ===== src/Tests/VectorTests.antt =====
-- The vector at concrete inputs: the elements 8, 9 and 7 in a block of three, one byte to each.
use mathlib.Core.Option.{some-injective}
use memkit.Prelude.{
  ℕ, zero, suc, ◌*◌, ◌^◌, ◌≤◌, ◌<◌, ◌≡◌, refl, subst, true, none, some, List, [], ◌∷◌, ◌++◌, arith,
  get!, length, length-append, replicate, length-replicate, nat_inhabited,
}
use memkit.Element.{Kind}
use memkit.Growth.{Platform, grow_capacity}
use memkit.Ring.{external}
use memkit.Ring.Inv.{AlwaysCopies}
use memkit.Vector.{Vector, push_back, reallocate}
use memkit.Vector.Inv.{IsValid}
use memkit.Vector.Growing.{Supplies}
use memkit.Vector.Ends.{Pushed, push_back-appends}
use memkit.Vector.Release.{Released, reallocate-Released}

abbrev host : Platform ℕ
host = record {
  allow_heap = true;
  malloc = λ bytes. some (replicate bytes 0);
  realloc = λ block bytes. some (block ++ replicate bytes 0);
}

-- A moved-from element reads 0 and has a destructor.
abbrev three : Vector ℕ
three = record {
  policy = record { elem_size = 1; kind = Kind.typed (λ x. 0) true };
  storage = some (8 ∷ 9 ∷ 7 ∷ []);
  capacity = 3;
  size = 3;
  growable = true;
  kind = external;
  grow_alloc = none;
  destroyed = [];
  freed = [];
}

three-IsValid : IsValid three (8 ∷ 9 ∷ 7 ∷ [])
three-IsValid = record {
  stored = refl;
  sized = omega arith;
  backed = omega arith;
  within = omega arith;
}

copies : AlwaysCopies three.policy.kind
copies = λ dst src. refl

get!-append_left : (xs ys : List ℕ) (i : ℕ) → i < length xs → get! (xs ++ ys) i ≡ get! xs i
get!-append_left [] ys i h = absurd (omega arith)
get!-append_left (x ∷ xs) ys zero h = refl
get!-append_left (x ∷ xs) ys (suc i) h = get!-append_left xs ys i (omega arith)

host-Supplies : Supplies host three
host-Supplies = record {
  heap = λ bytes block e.
      subst (λ (b : List ℕ). bytes ≤ length b * 1) (some-injective _ _ e)
        (omega (arith, length-replicate {A = ℕ} bytes 0));
  again = λ old bytes block e.
      subst (λ (b : List ℕ). bytes ≤ length b * 1) (some-injective _ _ e)
        (omega (arith, length-append old (replicate bytes 0), length-replicate {A = ℕ} bytes 0));
  kept = λ old bytes block j e p q.
      subst (λ (b : List ℕ). get! b j ≡ get! old j) (some-injective _ _ e)
        (get!-append_left old (replicate bytes 0) j p);
  arena = λ allocate bytes block e run. cc;
}

four_fit : grow_capacity 3 4 * 1 ≤ 2 ^ 63
unfolding grow_capacity
four_fit = omega arith

push_back-appends_example : Pushed three 4 (push_back host three (some 4) true)
push_back-appends_example =
    push_back-appends host three 4 true (8 ∷ 9 ∷ 7 ∷ []) three-IsValid host-Supplies copies
      (omega arith) four_fit

reallocate-Released_example : Released three (reallocate host three 6).1
reallocate-Released_example =
    reallocate-Released host three (8 ∷ 9 ∷ 7 ∷ []) (replicate 6 0) 6 three-IsValid copies
      (omega arith) (omega (arith, length-replicate {A = ℕ} 6 0)) refl refl refl refl

-- ===== src/Tests/MapTests.antt =====
-- The flat map at concrete inputs: three entries, with the keys 2, 5 and 9, and room for one.
use memkit.Prelude.{
  ℕ, zero, suc, ◌<◌, ◌≡◌, refl, false, ltb, ◌==◌, if◌then◌else◌, some, [], ◌∷◌, arith, get!,
  nat_inhabited,
}
use memkit.Element.{Kind}
use memkit.FlatMap.{FlatMap, Sign, find_index, put}
use memkit.FlatMap.Search.{IsOrder, IsSorted, Found, find_index-Found}
use memkit.FlatMap.Order.{put-IsSorted}

abbrev compare_numbers : ℕ → ℕ → Sign
compare_numbers a b =
    if ltb a b then Sign.negative else if a == b then Sign.equal else Sign.positive

abbrev three_entries : FlatMap ℕ ℕ
three_entries = record {
  key_kind = Kind.typed (λ x. x) false;
  value_kind = Kind.typed (λ x. x) false;
  compare = compare_numbers;
  keys = 2 ∷ 5 ∷ 9 ∷ 0 ∷ [];
  values = 20 ∷ 50 ∷ 90 ∷ 0 ∷ [];
  capacity = 4;
  size = 3;
  destroyed_keys = [];
  destroyed_values = [];
}

compare_numbers-IsOrder : IsOrder compare_numbers
compare_numbers-IsOrder = record {
  before = λ a b c p q. ground arith;
  after = λ a b c p q. ground arith;
  flip = λ a b p. ground arith;
}

three_entries-IsSorted : IsSorted three_entries
three_entries-IsSorted = record { order = compare_numbers-IsOrder; ascending = rising }
  where
    rising :
        (i j : ℕ)
        → i < j
        → j < 3
        → compare_numbers (get! (2 ∷ 5 ∷ 9 ∷ 0 ∷ []) i) (get! (2 ∷ 5 ∷ 9 ∷ 0 ∷ []) j)
          ≡ Sign.negative
    rising i zero p q = absurd (omega arith)
    rising zero (suc zero) p q = refl
    rising (suc i) (suc zero) p q = absurd (omega arith)
    rising zero (suc (suc zero)) p q = refl
    rising (suc zero) (suc (suc zero)) p q = refl
    rising (suc (suc i)) (suc (suc zero)) p q = absurd (omega arith)
    rising i (suc (suc (suc j))) p q = absurd (omega arith)

find_index-Found_example : Found three_entries 7 (find_index three_entries (some 7))
find_index-Found_example = find_index-Found three_entries three_entries-IsSorted 7

put-IsSorted_example : IsSorted (put three_entries (some 7) (some 70)).1
put-IsSorted_example =
    put-IsSorted three_entries 7 70 three_entries-IsSorted (λ dst src. refl) (omega arith)

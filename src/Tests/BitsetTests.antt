-- ===== src/Tests/BitsetTests.antt =====
-- The bitset at concrete inputs: the sets 0, 2, 9 and 1, 2, 13 below fourteen.
use memkit.Prelude.{
  ℕ, zero, suc, ◌+◌, ◌-◌, ◌^◌, ◌<◌, ◌≡◌, refl, subst, true, not, ◌&&◌, ◌||◌, some, [], ◌∷◌, arith,
  ◌==◌, if◌then◌else◌, get!, nat_inhabited,
}
use memkit.Status.{Status}
use memkit.Ring.{external}
use memkit.Bits.{nth}
use memkit.Bitset.{Bitset, test, assign, union_with, intersect_with, xor_with}
use memkit.Bitset.Inv.{IsValid, Holds, bit}
use memkit.Bitset.Members.{assign-Holds}
use memkit.Bitset.Algebra.{combine-members}

abbrev evens : Bitset
evens = record { storage = some (5 ∷ 2 ∷ []); capacity = 14; storage_bytes = 2; kind = external }

abbrev others : Bitset
others = record { storage = some (6 ∷ 32 ∷ []); capacity = 14; storage_bytes = 2; kind = external }

small : (x y : ℕ) → x < 256 → y < 256 → (i : ℕ) → i < 2 → get! (x ∷ y ∷ []) i < 2 ^ 8
small x y p q zero h = p
small x y p q (suc zero) h = q
small x y p q (suc (suc i)) h = absurd (omega arith)

evens_tail : (d : ℕ) → d < 2 → bit (5 ∷ 2 ∷ []) (14 + d) ≡ 0
unfolding nth
evens_tail zero h = refl
evens_tail (suc zero) h = refl
evens_tail (suc (suc d)) h = absurd (omega arith)

others_tail : (d : ℕ) → d < 2 → bit (6 ∷ 32 ∷ []) (14 + d) ≡ 0
unfolding nth
others_tail zero h = refl
others_tail (suc zero) h = refl
others_tail (suc (suc d)) h = absurd (omega arith)

evens-IsValid : IsValid evens (5 ∷ 2 ∷ [])
evens-IsValid = record {
  stored = refl;
  positive = omega arith;
  sized = refl;
  room = omega arith;
  byte = small 5 2 (omega arith) (omega arith);
  tail = λ j p q.
      let e : 14 + (j - 14) ≡ j = omega arith in
      subst (λ k. bit (5 ∷ 2 ∷ []) k ≡ 0) e (evens_tail (j - 14) (omega arith));
}

others-IsValid : IsValid others (6 ∷ 32 ∷ [])
others-IsValid = record {
  stored = refl;
  positive = omega arith;
  sized = refl;
  room = omega arith;
  byte = small 6 32 (omega arith) (omega arith);
  tail = λ j p q.
      let e : 14 + (j - 14) ≡ j = omega arith in
      subst (λ k. bit (6 ∷ 32 ∷ []) k ≡ 0) e (others_tail (j - 14) (omega arith));
}

assign-Holds_example :
    ((assign evens true 13).0 ≡ Status.ok)
    × Holds evens (assign evens true 13).1 (λ j. if 13 == j then true else test evens j)
assign-Holds_example = assign-Holds evens (5 ∷ 2 ∷ []) evens-IsValid 13 true

combine-members_example :
    ((union_with evens others).0 ≡ Status.ok)
    × Holds evens (union_with evens others).1 (λ j. test evens j || test others j)
    × ((intersect_with evens others).0 ≡ Status.ok)
    × Holds evens (intersect_with evens others).1 (λ j. test evens j && test others j)
    × ((xor_with evens others).0 ≡ Status.ok)
    × Holds evens
        (xor_with evens others).1
        (λ j. if test evens j then not (test others j) else test others j)
combine-members_example =
    combine-members evens others (5 ∷ 2 ∷ []) (6 ∷ 32 ∷ []) evens-IsValid others-IsValid refl

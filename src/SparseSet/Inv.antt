-- ===== src/SparseSet/Inv.antt =====
-- The representation invariant of the sparse set.
use memkit.Prelude.{
  Bool-cases, inl, inr, ℕ, ◌+◌, ◌≤◌, ◌<◌, ◌≡◌, ◌≢◌, true, false, arith, get!, get!-set, length,
  length-set, leb, ◌==◌, if◌then◌else◌, nat_inhabited,
}
use memkit.SparseSet.Count.{pigeonhole}
use memkit.SparseSet.{SparseSet, contains, insert}

pub record IsValid (s : SparseSet) : Type 0 where
  pub dense_room : s.max_id ≤ length s.dense
  pub sparse_room : s.max_id ≤ length s.sparse
  pub size_in : s.size ≤ s.max_id
  pub member_in : (i : ℕ) → i < s.size → get! s.dense i < s.max_id
  pub position : (i : ℕ) → i < s.size → get! s.sparse (get! s.dense i) ≡ i

-- A valid set that lacks an id below the bound is not full: `insert` writes inside `dense`.
pub size-lt_of_missing :
    (s : SparseSet) (id : ℕ) → IsValid s → id < s.max_id → contains s id ≡ false → s.size < s.max_id
unfolding contains
size-lt_of_missing s id v below missing =
    let fits =
      pigeonhole s.max_id (s.size + 1) (λ i. if i == s.size then id else get! s.dense i)
        (λ x. if x == id then s.size else get! s.sparse x)
        (λ i p. ground (arith, v.member_in i, v.position i)) in
    omega arith

-- A member's position is in use and leads back to it.
pub position_of_member :
    (s : SparseSet) (id : ℕ)
    → contains s id ≡ true
    → (id < s.max_id) × (get! s.sparse id < s.size) × (get! s.dense (get! s.sparse id) ≡ id)
unfolding contains
position_of_member s id c = ground arith

-- No position in use holds an id that is missing.
pub ne_of_missing :
    (s : SparseSet) (id i : ℕ)
    → IsValid s
    → contains s id ≡ false
    → i < s.size
    → get! s.dense i ≢ id
unfolding contains
ne_of_missing s id i v c p = ground (arith, v.member_in i, v.position i)

-- `insert` keeps the invariant, whether it adds the id, has it already or refuses it.
pub insert-IsValid : (s : SparseSet) (id : ℕ) → IsValid s → IsValid (insert s id).1
unfolding insert
insert-IsValid s id v = elim (Bool-cases (leb s.max_id id)) [
  | inl t ↦ rw t v
  | inr t ↦ elim (Bool-cases (contains s id)) [
    | inl c ↦ rw (t, c) v
    | inr c ↦
        let room = size-lt_of_missing s id v (ground arith) c in
        rw (t, c)
          (record {
            dense_room = rw (length-set s.dense s.size id) v.dense_room;
            sparse_room = rw (length-set s.sparse id s.size) v.sparse_room;
            size_in = omega arith;
            member_in =
                λ i q. ground (arith, get!-set s.dense s.size i id, v.member_in i, v.dense_room);
            position = λ i q. ground (
              arith,
              get!-set s.dense s.size i id,
              get!-set s.sparse id (get! s.dense i) s.size,
              get!-set s.sparse id id s.size,
              v.position i,
              ne_of_missing s id i v c,
              v.dense_room,
              v.sparse_room,
            );
          })
  ]
]

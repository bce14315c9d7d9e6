-- ===== src/Bitset.antt =====
-- include/memkit/detail/bitset_core.hpp: a set of indices below a capacity, in the bits of bytes. A
-- byte is a number below 256, so that `~` is a subtraction from 255. The operation `set` of the source
-- is `set_bit`, beside the `set` of lists.
pub mod Inv
pub mod Members
pub mod Algebra
pub mod Copies
use memkit.Prelude.{
  ℕ, zero, suc, ◌+◌, ◌-◌, ◌/◌, ◌%◌, ◌^◌, bit_and, bit_or, bit_xor, Bool, true, false, Option, none,
  some, List, [], ◌∷◌, ◌++◌, not, ltb, leb, ◌==◌, if◌then◌else◌, get!, set, nat_inhabited,
  replicate, take, drop, length,
}
use memkit.Status.{Status, is_ok}
use memkit.Growth.{size_mod}
use memkit.Ring.{StorageKind, external}

-- A null `storage_` is `none`.
pub record Bitset : Type 0 where
  pub storage : Option (List ℕ)
  pub capacity : ℕ
  pub storage_bytes : ℕ
  pub kind : StorageKind

pub bytes_for : ℕ → ℕ
bytes_for capacity = (capacity + 7) % size_mod / 8

pub tail_mask : ℕ → ℕ
tail_mask capacity = if capacity % 8 == 0 then 0xFF else 2 ^ (capacity % 8) - 1

pub byte_mask : ℕ → ℕ
byte_mask index = 2 ^ (index % 8)

-- `memset` and `memcpy` of the first `n` bytes.
abbrev pub memset : ℕ → ℕ → List ℕ → List ℕ
memset n v bytes = replicate n v ++ drop n bytes

abbrev pub memcpy : ℕ → List ℕ → List ℕ → List ℕ
memcpy n src dst = take n src ++ drop n dst

pub clear : Bitset → Bitset
clear b = record b {
  storage = elim b.storage [ none ↦ none | some bytes ↦ some (memset b.storage_bytes 0 bytes) ];
}

pub init : Bitset → Option (List ℕ) → ℕ → Status × Bitset
unfolding clear bytes_for
init b none capacity = (Status.invalid, b)
init b (some bytes) capacity = if capacity == 0 then (Status.invalid, b) else (
  Status.ok,
  clear (record {
    storage = some bytes;
    capacity = capacity;
    storage_bytes = bytes_for capacity;
    kind = external;
  }),
)

pub reset_state : Bitset → Bitset
reset_state b = record { storage = none; capacity = 0; storage_bytes = 0; kind = external }

-- The loop of `popcount_byte`, on fuel: a byte has eight bits.
popcount_loop : ℕ → ℕ → ℕ
popcount_loop zero value = 0
popcount_loop (suc fuel) value =
    let rest = popcount_loop fuel (value / 2) in if value == 0 then 0 else bit_and value 1 + rest

pub popcount_byte : ℕ → ℕ
unfolding popcount_loop
popcount_byte value = popcount_loop 8 value

-- The loop of `size`: `n` rounds from `i` on.
size_loop : ℕ → ℕ → List ℕ → ℕ
unfolding popcount_byte
size_loop zero i bytes = 0
size_loop (suc n) i bytes = popcount_byte (get! bytes i) + size_loop n (i + 1) bytes

pub size : Bitset → ℕ
unfolding size_loop popcount_byte
size b = elim b.storage [
  | none ↦ 0
  | some bytes ↦
      if b.storage_bytes == 0
      then 0
      else size_loop (b.storage_bytes - 1) 0 bytes
        + popcount_byte (get! bytes (b.storage_bytes - 1))
]

pub is_empty : Bitset → Bool
unfolding size
is_empty b = size b == 0

pub is_full : Bitset → Bool
unfolding size
is_full b = size b == b.capacity

-- `apply_tail_mask`, on the bytes.
pub masked : ℕ → ℕ → List ℕ → List ℕ
unfolding tail_mask
masked capacity n bytes =
    if n == 0 then bytes else set bytes (n - 1) (bit_and (get! bytes (n - 1)) (tail_mask capacity))

pub set_all : Bitset → Status × Bitset
unfolding masked
set_all b = elim b.storage [
  | none ↦ (Status.null_ptr, b)
  | some bytes ↦ (
    Status.ok,
    record b {
      storage = some (masked b.capacity b.storage_bytes (memset b.storage_bytes 0xFF bytes));
    },
  )
]

pub test : Bitset → ℕ → Bool
unfolding byte_mask
test b index = elim b.storage [
  | none ↦ false
  | some bytes ↦
      if leb b.capacity index
      then false
      else not (bit_and (get! bytes (index / 8)) (byte_mask index) == 0)
]

-- The update of one byte that `set`, `reset` and `toggle` share.
pub update_byte : Bitset → ℕ → (ℕ → ℕ) → Status × Bitset
update_byte b index f = elim b.storage [
  | none ↦ (Status.null_ptr, b)
  | some bytes ↦ if leb b.capacity index then (Status.invalid, b) else (
    Status.ok,
    record b { storage = some (set bytes (index / 8) (f (get! bytes (index / 8)))) },
  )
]

pub set_bit : Bitset → ℕ → Status × Bitset
unfolding update_byte byte_mask
set_bit b index = update_byte b index (λ byte. bit_or byte (byte_mask index))

pub reset : Bitset → ℕ → Status × Bitset
unfolding update_byte byte_mask
reset b index = update_byte b index (λ byte. bit_and byte (0xFF - byte_mask index))

pub toggle : Bitset → ℕ → Status × Bitset
unfolding update_byte byte_mask
toggle b index = update_byte b index (λ byte. bit_xor byte (byte_mask index))

pub assign : Bitset → Bool → ℕ → Status × Bitset
unfolding set_bit reset
assign b value index = if value then set_bit b index else reset b index

-- The loop of `find_from`: `n` rounds from `index` on.
find_loop : Bitset → Bool → ℕ → ℕ → Option ℕ
unfolding test
find_loop b want_set zero index = none
find_loop b want_set (suc n) index =
    let rest = find_loop b want_set n (index + 1) in
    if (if test b index then want_set else not want_set) then some index else rest

-- `out` is what the caller's index holds before.
pub find_from : Bitset → ℕ → Bool → ℕ → Status × ℕ
unfolding find_loop
find_from b start want_set out = elim b.storage [
  | none ↦ (Status.null_ptr, out)
  | some bytes ↦
      if leb b.capacity start
      then (Status.not_found, out)
      else elim (find_loop b want_set (b.capacity - start) start) [
        | none ↦ (Status.not_found, out)
        | some index ↦ (Status.ok, index)
      ]
]

pub find_first_set : Bitset → ℕ → ℕ → Status × ℕ
unfolding find_from
find_first_set b start out = find_from b start true out

pub find_first_clear : Bitset → ℕ → ℕ → Status × ℕ
unfolding find_from
find_first_clear b start out = find_from b start false out

-- The tests that `copy_from` and `combine_with` share, and what they do with the two blocks.
pub with_other : Bitset → Bitset → (List ℕ → List ℕ → List ℕ) → Status × Bitset
unfolding masked
with_other b other f = elim b.storage [
  | none ↦ (Status.invalid, b)
  | some bytes ↦ elim other.storage [
    | none ↦ (Status.invalid, b)
    | some others ↦
        if b.capacity == other.capacity
        then (
          Status.ok,
          record b { storage = some (masked b.capacity b.storage_bytes (f bytes others)) },
        )
        else (Status.invalid, b)
  ]
]

pub copy_from : Bitset → Bitset → Status × Bitset
unfolding with_other
copy_from b src = with_other b src (λ bytes others. memcpy b.storage_bytes others bytes)

-- The comparison of the first `n` bytes from `i` on.
memcmp_loop : ℕ → ℕ → List ℕ → List ℕ → Bool
memcmp_loop zero i xs ys = true
memcmp_loop (suc n) i xs ys =
    let rest = memcmp_loop n (i + 1) xs ys in if get! xs i == get! ys i then rest else false

pub equal : Bitset → Bitset → Bool
unfolding memcmp_loop
equal b other = elim b.storage [
  | none ↦ false
  | some bytes ↦ elim other.storage [
    | none ↦ false
    | some others ↦
        if b.capacity == other.capacity then memcmp_loop b.storage_bytes 0 bytes others else false
  ]
]

-- The loop of `combine_with`: `n` rounds from `i` on.
combine_loop : (ℕ → ℕ → ℕ) → ℕ → ℕ → List ℕ → List ℕ → List ℕ
combine_loop f zero i bytes others = bytes
combine_loop f (suc n) i bytes others =
    combine_loop f n (i + 1) (set bytes i (f (get! bytes i) (get! others i))) others

pub combine_with : Bitset → Bitset → (ℕ → ℕ → ℕ) → Status × Bitset
unfolding with_other combine_loop
combine_with b other f =
    with_other b other (λ bytes others. combine_loop f b.storage_bytes 0 bytes others)

pub union_with : Bitset → Bitset → Status × Bitset
unfolding combine_with
union_with b other = combine_with b other bit_or

pub intersect_with : Bitset → Bitset → Status × Bitset
unfolding combine_with
intersect_with b other = combine_with b other bit_and

pub xor_with : Bitset → Bitset → Status × Bitset
unfolding combine_with
xor_with b other = combine_with b other bit_xor

-- The loop of `complement`: `n` rounds from `i` on.
complement_loop : ℕ → ℕ → List ℕ → List ℕ
complement_loop zero i bytes = bytes
complement_loop (suc n) i bytes = complement_loop n (i + 1) (set bytes i (0xFF - get! bytes i))

pub complement : Bitset → Status × Bitset
unfolding complement_loop masked
complement b = elim b.storage [
  | none ↦ (Status.null_ptr, b)
  | some bytes ↦ (
    Status.ok,
    record b {
      storage = some (masked b.capacity b.storage_bytes (complement_loop b.storage_bytes 0 bytes));
    },
  )
]

-- `bytes_len` is the length that the caller states for its block.
pub load_bytes : Bitset → Option (List ℕ) → ℕ → Status × Bitset
unfolding masked
load_bytes b block bytes_len = elim b.storage [
  | none ↦ (Status.null_ptr, b)
  | some bytes ↦ elim block [
    | none ↦ (Status.null_ptr, b)
    | some src ↦ if ltb bytes_len b.storage_bytes then (Status.invalid, b) else (
      Status.ok,
      record b {
        storage = some (masked b.capacity b.storage_bytes (memcpy b.storage_bytes src bytes));
      },
    )
  ]
]

pub store_bytes : Bitset → Option (List ℕ) → ℕ → Status × Option (List ℕ)
store_bytes b block bytes_len = elim b.storage [
  | none ↦ (Status.null_ptr, block)
  | some bytes ↦ elim block [
    | none ↦ (Status.null_ptr, none)
    | some dst ↦
        if ltb bytes_len b.storage_bytes
        then (Status.invalid, some dst)
        else (Status.ok, some (memcpy b.storage_bytes bytes dst))
  ]
]

-- The loop of `for_each`, with a visitor that returns a status: `n` rounds from `index` on. The
-- list holds the indices visited.
visit_loop : Bitset → (ℕ → Status) → ℕ → ℕ → Status × List ℕ
unfolding test
visit_loop b visit zero index = (Status.ok, [])
visit_loop b visit (suc n) index =
    let (s, rest) = visit_loop b visit n (index + 1) in
    if test b index
    then (if is_ok (visit index) then (s, index ∷ rest) else (visit index, index ∷ []))
    else (s, rest)

pub for_each : Bitset → (ℕ → Status) → Status × List ℕ
unfolding visit_loop
for_each b visit = elim b.storage [
  | none ↦ (Status.null_ptr, [])
  | some bytes ↦ visit_loop b visit b.capacity 0
]

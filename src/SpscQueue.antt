-- ===== src/SpscQueue.antt =====
-- include/memkit/detail/spsc_queue_core.hpp: the queue of one producer and one consumer, its calls
-- taken one after the other. The counters `head_` and `tail_` run freely in a `size_t`.

pub mod Inv
pub mod Laws
use memkit.Prelude.{
  ℕ, zero, suc, ◌+◌, ◌-◌, ◌%◌, Bool, Option, none, some, List, [], true, ◌&&◌, ◌||◌, not, bit_and,
  ltb, leb, ◌==◌, if◌then◌else◌, Inhabited, get!, set,
}
use memkit.Status.{Status, is_ok}
use memkit.Element.{Policy, copy_construct, move_construct, destroy}
use memkit.Growth.{size_mod}
use memkit.Utility.{is_power_of_two}

pub record SpscQueue {ℓ} (A : Type ℓ) : Type ℓ where
  pub policy : Policy A
  pub storage : List A
  pub capacity : ℕ
  pub mask : ℕ
  pub drop_on_full : Bool
  pub overwrite_on_full : Bool
  pub head : ℕ
  pub tail : ℕ
  pub destroyed : List A

-- `tail - head` in a `size_t`.
abbrev pub distance : ℕ → ℕ → ℕ
distance tail head = (tail + (size_mod - head)) % size_mod

-- `i + 1u` in a `size_t`.
abbrev pub next : ℕ → ℕ
next i = (i + 1) % size_mod

module _ {ℓ} {A : Type ℓ} where
  pub init : SpscQueue A → Policy A → Option (List A) → ℕ → Bool → Bool → Status × SpscQueue A
  unfolding is_power_of_two
  init q policy none capacity_pow2 drops overwrites = (Status.invalid, q)
  init q policy (some storage) capacity_pow2 drops overwrites =
      if ltb capacity_pow2 2 || not (is_power_of_two capacity_pow2) then (Status.invalid, q) else (
        Status.ok,
        record q {
          policy = policy;
          storage = storage;
          capacity = capacity_pow2;
          mask = capacity_pow2 - 1;
          drop_on_full = drops;
          overwrite_on_full = overwrites;
          head = 0;
          tail = 0;
        },
      )

  pub reset_state : SpscQueue A → Policy A → SpscQueue A
  reset_state q default = record q {
    policy = default;
    storage = [];
    capacity = 0;
    mask = 0;
    head = 0;
    tail = 0;
  }

  pub size : SpscQueue A → ℕ
  size q = distance q.tail q.head

  pub is_empty : SpscQueue A → Bool
  unfolding size
  is_empty q = size q == 0

  pub is_full : SpscQueue A → Bool
  unfolding size
  is_full q = leb q.capacity (size q)

  -- `i & mask_`
  pub slot_of : SpscQueue A → ℕ → ℕ
  slot_of q i = bit_and i q.mask

module _ {ℓ} {A : Type ℓ} ⦃inhabited : Inhabited A⦄ where
  -- The overwriting branch of `push`: the element moves into the slot of the oldest one. The
  -- second component is what is left of the caller's element.
  overwrite : SpscQueue A → A → Status × A × SpscQueue A
  unfolding slot_of
  overwrite q x =
      let i = slot_of q q.head in
      let k = q.policy.kind in
      let old = get! q.storage i in
      (
        Status.ok,
        (move_construct k old x).1,
        record q {
          storage = set q.storage i (move_construct k old x).0;
          destroyed = destroy k old q.destroyed;
          head = next q.head;
          tail = next q.tail;
        },
      )

  -- The end of `push`: nothing looks at the status of the copy.
  enqueue : SpscQueue A → A → SpscQueue A
  unfolding slot_of
  enqueue q x =
      let i = slot_of q q.tail in
      record q {
        storage = set q.storage i (copy_construct q.policy.kind (get! q.storage i) x).1;
        tail = next q.tail;
      }

  pub push : SpscQueue A → Option A → Status × Option A × SpscQueue A
  unfolding overwrite enqueue
  push q none = (Status.null_ptr, none, q)
  push q (some x) =
      let (s, left, q') = overwrite q x in
      if leb q.capacity (distance q.tail q.head)
      then (if q.overwrite_on_full then (s, some left, q') else (Status.full, some x, q))
      else (Status.ok, some x, enqueue q x)

  -- What `pop` delivers, and what it leaves in the slot `i`.
  take_out : SpscQueue A → ℕ → Option A → Bool → Option A × A
  take_out q i none move_out = (none, get! q.storage i)
  take_out q i (some dst) move_out =
      let k = q.policy.kind in
      let (taken, left) = move_construct k dst (get! q.storage i) in
      if move_out
      then (some taken, left)
      else (some (copy_construct k dst (get! q.storage i)).1, get! q.storage i)

  pub pop : SpscQueue A → Option A → Bool → Status × Option A × SpscQueue A
  unfolding slot_of take_out
  pop q out move_out =
      let i = slot_of q q.head in
      let (o, left) = take_out q i out move_out in
      if q.head == q.tail then (Status.empty, out, q) else (
        Status.ok,
        o,
        record q {
          storage = set q.storage i left;
          destroyed = destroy q.policy.kind left q.destroyed;
          head = next q.head;
        },
      )

  pub peek : SpscQueue A → Option A → Status × Option A
  unfolding slot_of
  peek q none = (Status.null_ptr, none)
  peek q (some dst) = if q.head == q.tail then (Status.empty, some dst) else (
    Status.ok,
    some (copy_construct q.policy.kind dst (get! q.storage (slot_of q q.head))).1,
  )

  -- The loop of `clear`, on fuel: each round takes one element out.
  drain : ℕ → SpscQueue A → SpscQueue A
  unfolding pop
  drain zero q = q
  drain (suc fuel) q =
      let (s, o, q') = pop q none true in let rest = drain fuel q' in if is_ok s then rest else q'

  pub clear : SpscQueue A → SpscQueue A
  unfolding drain size
  clear q = record (drain (size q + 1) q) { head = 0; tail = 0 }

-- ===== src/SpscQueue/Inv.antt =====
-- The invariant of the queue of one producer and one consumer, and its index arithmetic.
use native.Mathlib.Nat.{mod-add-mod, mod-mod_of_dvd}
use memkit.Prelude.{
  ℕ, ◌+◌, ◌-◌, bit_and, ◌%◌, ◌^◌, ◌≤◌, ◌<◌, ◌∣◌, ◌≡◌, List, ap, ◌∙◌, sym, arith, Inhabited, length,
}
use memkit.Bits.{bit_and-ones}
use memkit.Ring.Window.{window, length-window}
use memkit.SpscQueue.{SpscQueue, slot_of, next, distance}

-- The capacity, a power of two that is at least 2 and whose bytes fit an object, divides the number
-- of values of a `size_t`; so an index does not jump where a counter wraps.
pub record IsValid {ℓ} {A : Type ℓ} (q : SpscQueue A) : Type ℓ where
  pub backed : q.capacity ≤ length q.storage
  pub positive : 0 < q.capacity
  pub small : q.capacity ≤ 2 ^ 63
  pub rounds : q.capacity ∣ 2 ^ 64
  pub masked : q.mask + 1 ≡ q.capacity
  pub bits : ℕ
  pub power : q.capacity ≡ 2 ^ bits
  pub head_64 : q.head < 2 ^ 64
  pub tail_64 : q.tail < 2 ^ 64
  pub size_in : distance q.tail q.head ≤ q.capacity

-- The elements from the head on, oldest first.
abbrev pub contents {ℓ} : {A : Type ℓ} ⦃inhabited : Inhabited A⦄ → SpscQueue A → List A
contents q = window q.storage q.capacity (q.head % q.capacity) 0 (distance q.tail q.head)

pub length-contents {ℓ} :
    {A : Type ℓ} ⦃inhabited : Inhabited A⦄ (q : SpscQueue A)
    → length (contents q) ≡ distance q.tail q.head
length-contents q =
    length-window q.storage q.capacity (q.head % q.capacity) 0 (distance q.tail q.head)

-- A step of a counter is a step of its index, also where the counter wraps.
pub next-mod : (i m : ℕ) → m ∣ 2 ^ 64 → next i % m ≡ (i % m + 1) % m
next-mod i m d = mod-mod_of_dvd m (i + 1) d ∙ sym (mod-add-mod i m 1)

module _ {ℓ} {A : Type ℓ} (q : SpscQueue A) (v : IsValid q) where
  pub slot_of_lem : (i : ℕ) → slot_of q i ≡ i % q.capacity
  unfolding slot_of
  slot_of_lem i =
      let ones : q.mask ≡ 2 ^ v.bits - 1 = omega (arith, v.masked, v.power) in
      ap (bit_and i) ones ∙ bit_and-ones v.bits i ∙ ap (λ m. i % m) (sym v.power)

  -- The tail's slot is the first past the elements.
  pub tail_slot : q.tail % q.capacity ≡ (q.head % q.capacity + distance q.tail q.head) % q.capacity
  tail_slot =
      let d = distance q.tail q.head in
      let round : q.tail ≡ (q.head + d) % 2 ^ 64 = omega (arith, v.head_64, v.tail_64) in
      ap (λ t. t % q.capacity) round
      ∙ mod-mod_of_dvd q.capacity (q.head + d) v.rounds
      ∙ sym (mod-add-mod q.head q.capacity d)

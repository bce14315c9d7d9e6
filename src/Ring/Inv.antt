-- ===== src/Ring/Inv.antt =====
-- The representation invariant of the circular buffer, and what the index arithmetic computes
-- under it.
use memkit.Prelude.{ℕ, ◌+◌, ◌-◌, ◌%◌, ◌^◌, ◌≤◌, ◌<◌, ◌≡◌, List, ap, arith, Inhabited, length}
use memkit.Status.{Status}
use memkit.Element.{Kind, copy_construct}
use memkit.Ring.Window.{window, add-mod, length-window}
use memkit.Ring.{Ring, advance, logical_index, step_back}

-- An object takes at most half of the address space, so a capacity is at most 2 ^ 63.
pub record IsValid {ℓ} {A : Type ℓ} (r : Ring A) : Type ℓ where
  pub sized : 0 < r.policy.elem_size
  pub backed : r.capacity ≤ length r.storage
  pub small : r.capacity ≤ 2 ^ 63
  pub tail_in : r.tail < r.capacity
  pub count_in : r.count ≤ r.capacity
  pub head_at : r.head ≡ (r.tail + r.count) % r.capacity

-- Copies never fail and copy: every typed policy, the runtime policy with no callback, and one
-- whose callback does this.
abbrev pub AlwaysCopies {ℓ} : {A : Type ℓ} → Kind A → Type ℓ
AlwaysCopies k = (dst src : _) → copy_construct k dst src ≡ (Status.ok, src)

abbrev pub contents {ℓ} : {A : Type ℓ} ⦃inhabited : Inhabited A⦄ → Ring A → List A
contents r = window r.storage r.capacity r.tail 0 r.count

pub length-contents {ℓ} :
    {A : Type ℓ} ⦃inhabited : Inhabited A⦄ (r : Ring A) → length (contents r) ≡ r.count
length-contents r = length-window r.storage r.capacity r.tail 0 r.count

module _ {ℓ} {A : Type ℓ} (r : Ring A) (v : IsValid r) where
  -- No sum of the index arithmetic wraps.
  pub advance_lem :
      (i d : ℕ) → i < r.capacity → d ≤ r.capacity → advance r i d ≡ (i + d) % r.capacity
  unfolding advance
  advance_lem i d hi hd = ap (λ k. k % r.capacity) (omega arith)

  pub logical_index_lem : (i : ℕ) → i ≤ r.capacity → logical_index r i ≡ (r.tail + i) % r.capacity
  unfolding logical_index
  logical_index_lem i h = ap (λ k. k % r.capacity) (omega arith)

  pub step_back_lem : (i : ℕ) → i < r.capacity → step_back r i ≡ (i + (r.capacity - 1)) % r.capacity
  unfolding step_back
  step_back_lem i h = ap (λ k. k % r.capacity) (omega arith)

  -- A step on and a step back are inverse.
  pub step_back_next : (i : ℕ) → i < r.capacity → (step_back r i + 1) % r.capacity ≡ i
  step_back_next i h = rw (step_back_lem i h) (
      ground (
        arith,
        add-mod i (r.capacity - 1) r.capacity h (omega arith),
        add-mod ((i + (r.capacity - 1)) % r.capacity) 1 r.capacity (omega arith) (omega arith),
      ))

  -- The slot before the head holds the newest element.
  pub step_back_head : 0 < r.count → step_back r r.head ≡ (r.tail + (r.count - 1)) % r.capacity
  step_back_head h = ground (
    arith,
    step_back_lem r.head (rw v.head_at (omega arith)),
    v.head_at,
    add-mod r.tail r.count r.capacity v.tail_in v.count_in,
    add-mod r.tail (r.count - 1) r.capacity v.tail_in (omega arith),
    add-mod r.head (r.capacity - 1) r.capacity (rw v.head_at (omega arith)) (omega arith),
  )

  pub head_in : r.head < r.capacity
  head_in = rw v.head_at (omega arith)

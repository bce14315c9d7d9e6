-- ===== src/PriorityQueue/Swap.antt =====
-- The elements of the queue, and what `swap_elements` does to them.
use mathlib.Core.List.{Perm}
use mathlib.Core.List.Perm
use memkit.Prelude.{
  ℕ, zero, suc, ◌≤◌, ◌<◌, ◌≡◌, ◌≢◌, refl, sym, ap, ap₂, set_twice, set_comm, ◌∙◌, Bool, true, false,
  List, [], ◌∷◌, arith, ◌==◌, if◌then◌else◌, Inhabited, get!, set, get!-set, get!-set_ne, length,
  length-set, take, Bool-cases, inl, inr, ltb,
}
use memkit.Status.{Status}
use memkit.Element.{move_construct, is_runtime}
use memkit.Ring.Ops.Pop.{move_construct-placed}
use memkit.Ring.Inv.{AlwaysCopies}
use memkit.PriorityQueue.{PriorityQueue, swap_elements, swap_runtime, swap_typed, elem_at}

-- A comparison as the heap needs it: a strict weak order.
pub record IsStrict {A : Type 0} (less : A → A → Bool) : Type 0 where
  pub asymmetric : (a b : A) → less a b ≡ true → less b a ≡ false
  pub transitive : (a b c : A) → less b a ≡ false → less c b ≡ false → less c a ≡ false

module _ {A : Type 0} ⦃inhabited : Inhabited A⦄ where
  abbrev pub elements : PriorityQueue A → List A
  elements q = take q.size q.storage

  abbrev pub swapped : List A → ℕ → ℕ → List A
  swapped xs i j = set (set xs i (get! xs j)) j (get! xs i)

  -- Elements that can be copied, and swapped through the buffer.
  pub record IsSwappable (q : PriorityQueue A) : Type 0 where
    pub copies : AlwaysCopies q.policy.kind
    pub small : is_runtime q.policy.kind ≡ true → q.policy.elem_size ≤ 256

  swap_runtime_lem :
      (q : PriorityQueue A) (i j : ℕ)
      → AlwaysCopies q.policy.kind
      → q.policy.elem_size ≤ 256
      → i ≢ j
      → swap_runtime q i j ≡ (Status.ok, record q { storage = swapped q.storage i j })
  unfolding swap_runtime
  swap_runtime_lem q i j copies small ne =
      let fits : ltb 256 q.policy.elem_size ≡ false = ground arith in
      rw
        (
          fits,
          copies inhabited.default (elem_at q i),
          copies (elem_at q i) (elem_at q j),
          copies (get! (set q.storage i (elem_at q j)) j) (elem_at q i),
        )
        refl

  -- The two slots as the moves of a typed policy leave them.
  swap_moves :
      (s : List A) (i j : ℕ) (l1 r1 tl tr : A)
      → i ≢ j
      → set (set (set (set s i l1) j r1) i tl) j tr ≡ set (set s i tl) j tr
  swap_moves s i j l1 r1 tl tr ne =
      ap (λ xs. set xs j tr)
        (set_comm (set s i l1) j i r1 tl (λ e. ne (sym e))
          ∙ ap (λ xs. set xs j r1) (set_twice s i l1 tl))
      ∙ set_twice (set s i tl) j r1 tr

  swap_typed_lem :
      (q : PriorityQueue A) (i j : ℕ)
      → i ≢ j
      → (log : List A) × (swap_typed q i j
          ≡ record q { storage = swapped q.storage i j; destroyed = log })
  unfolding swap_typed
  swap_typed_lem q i j ne =
      let k = q.policy.kind in
      let x = elem_at q i in
      let l1 = (move_construct k inhabited.default x).1 in
      let one = set q.storage i l1 in
      let other : get! one j ≡ elem_at q j = get!-set_ne q.storage i j l1 ne in
      (
        (swap_typed q i j).destroyed,
        ap (λ s. record q { storage = s; destroyed = (swap_typed q i j).destroyed })
            (swap_moves q.storage i j _ _ _ _ ne
              ∙ ap₂ (λ a b. set (set q.storage i a) j b) (move_construct-placed k _ _ ∙ other)
                  (move_construct-placed k _ _ ∙ move_construct-placed k _ _)),
      )

  pub swap_elements_lem :
      (q : PriorityQueue A) (i j : ℕ)
      → IsSwappable q
      → i ≢ j
      → (log : List A) × (swap_elements q i j
          ≡ (Status.ok, record q { storage = swapped q.storage i j; destroyed = log }))
  unfolding swap_elements
  swap_elements_lem q i j ok ne = elim (Bool-cases (is_runtime q.policy.kind)) [
    | inl run ↦ (q.destroyed, rw (run, swap_runtime_lem q i j ok.copies (ok.small run) ne) refl)
    | inr typed ↦ let (log, e) = swap_typed_lem q i j ne in (log, rw (typed, e) refl)
  ]

  pub get!-swapped :
      (s : List A) (i j c : ℕ)
      → i < length s
      → j < length s
      → get! (swapped s i j) c
        ≡ (if j == c then get! s i else if i == c then get! s j else get! s c)
  get!-swapped s i j c hi hj =
      rw
        (
          get!-set (set s i (get! s j)) j c (get! s i) (rw (length-set s i (get! s j)) hj),
          get!-set s i c (get! s j) hi,
        )
        refl

  pub length-swapped : (s : List A) (i j : ℕ) → length (swapped s i j) ≡ length s
  length-swapped s i j = length-set _ j _ ∙ length-set s i _

  -- A write trades the old element for the new one.
  pub set-Perm : (s : List A) (i : ℕ) (v : A) → i < length s → Perm (get! s i ∷ set s i v) (v ∷ s)
  set-Perm [] i v h = absurd (omega arith)
  set-Perm (x ∷ s) zero v h = Perm.swap v x s
  set-Perm (x ∷ s) (suc i) v h =
      Perm.trans (Perm.swap x (get! s i) (set s i v))
        (Perm.trans (Perm.cons x (set-Perm s i v (omega arith))) (Perm.swap v x s))

  pub swapped-Perm : (s : List A) (i j : ℕ) → i < length s → j < length s → Perm (swapped s i j) s
  swapped-Perm s i j hi hj =
      let b = set s i (get! s j) in
      let kept : get! b j ≡ get! s j = ground (arith, get!-set s i j (get! s j) hi) in
      let second = rw kept at (set-Perm b j (get! s i) (rw (length-set s i (get! s j)) hj)) in
      Perm.cons_inv (Perm.trans second (set-Perm s i (get! s j) hi))

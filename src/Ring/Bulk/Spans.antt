-- ===== src/Ring/Bulk/Spans.antt =====
-- Clearing, and the contiguous spans with their commits.
use memkit.Prelude.{
  ℕ, zero, suc, ◌+◌, ◌-◌, ◌%◌, ◌≤◌, ◌<◌, ◌≡◌, ◌↔◌, ◌⊎◌, inl, inr, refl, sym, ap, ap₂, ◌∙◌, true,
  false, Option, none, some, List, [], ◌∷◌, ◌++◌, append-nil, append_assoc, arith, Bool-cases,
  Inhabited, get!, ltb, leb, ◌==◌, drop, min, if◌then◌else◌,
}
use native.Mathlib.Nat.{mod-add-mod}
use native.Mathlib.Decide.{dec_lt}
use memkit.Growth.{Platform}
use memkit.Element.{Kind, destroy, needs_destroy_on_clear}
use memkit.Ring.{Ring, destroy_at, logical_index, advance}
use memkit.Ring.Bulk.{
  destroy_run, clear, commit_read, writable_contiguous, readable_contiguous, open_span,
}
use memkit.Ring.Window.{window, window_shift, add-mod}
use memkit.Ring.Inv.{IsValid, contents, logical_index_lem, advance_lem, head_in}

module _ {A : Type 0} where
  destroy_needed :
      (k : Kind A) (x : A) (log : List A)
      → needs_destroy_on_clear k ≡ true
      → destroy k x log ≡ log ++ x ∷ []
  destroy_needed (Kind.typed leaves true) x log h = refl
  destroy_needed (Kind.typed leaves false) x log h = absurd (cc)
  destroy_needed (Kind.runtime f true) x log h = refl
  destroy_needed (Kind.runtime f false) x log h = absurd (cc)

module _ {A : Type 0} ⦃inhabited : Inhabited A⦄ where
  -- The loop destroys the `n` elements from the `i`-th on, in order, and changes only the trace.
  destroy_run_lem :
      (n i : ℕ) (r : Ring A)
      → IsValid r
      → i + n ≤ r.capacity
      → needs_destroy_on_clear r.policy.kind ≡ true
      → destroy_run n i r
        ≡ record r { destroyed = r.destroyed ++ window r.storage r.capacity r.tail i n }
  unfolding destroy_run
  destroy_run_lem zero i r v h needed =
      ap (λ l. record r { destroyed = l }) (sym (append-nil r.destroyed))
  destroy_run_lem (suc n) i r v h needed =
      let src = logical_index r i in
      let r' = destroy_at r src in
      let v' : IsValid r' = record {
        sized = v.sized;
        backed = v.backed;
        small = v.small;
        tail_in = v.tail_in;
        count_in = v.count_in;
        head_at = v.head_at;
      } in
      destroy_run_lem n (i + 1) r' v' (omega arith) needed
      ∙ ap (λ l. record r { destroyed = l })
          (ap (λ l. l ++ window r.storage r.capacity r.tail (i + 1) n)
              (destroy_needed r.policy.kind _ r.destroyed needed)
            ∙ append_assoc r.destroyed _ _
            ∙ ap
                (λ j.
                  r.destroyed ++ get! r.storage j ∷ window r.storage r.capacity r.tail (i + 1) n)
                (logical_index_lem r v i (omega arith)))

  destroy_run_same :
      (n i : ℕ) (r : Ring A)
      → destroy_run n i r ≡ record r { destroyed = (destroy_run n i r).destroyed }
  unfolding destroy_run
  destroy_run_same zero i r = refl
  destroy_run_same (suc n) i r = destroy_run_same n (i + 1) (destroy_at r (logical_index r i))

  -- Clearing a valid buffer of elements that need it destroys each of its elements exactly once,
  -- oldest first, and leaves a valid empty buffer of the same capacity.
  pub clear-destroys :
      (r : Ring A)
      → IsValid r
      → needs_destroy_on_clear r.policy.kind ≡ true
      → ((clear r).destroyed ≡ r.destroyed ++ contents r)
        × (contents (clear r) ≡ [])
        × IsValid (clear r)
        × ((clear r).capacity ≡ r.capacity)
  unfolding clear
  clear-destroys r v needed = elim (dec_lt 0 r.count) [
    | no none_left ↦
        let e : r.count ≡ 0 = omega arith in
        let t : (r.count == 0) ≡ true = ground arith in
        rw t (rw e (sym (append-nil _)), rw e refl, v, refl)
    | yes pos ↦
        let t : (r.count == 0) ≡ false = ground arith in
        rw (t, needed, destroy_run_lem r.count 0 r v (omega arith) needed)
          (
            refl,
            refl,
            record {
              sized = v.sized;
              backed = v.backed;
              small = v.small;
              tail_in = omega arith;
              count_in = omega arith;
              head_at = ground (arith, add-mod 0 0 r.capacity (omega arith) (omega arith));
            },
            refl,
          )
  ]

  drop-window :
      (s : List A) (size t i n k : ℕ)
      → drop k (window s size t i n) ≡ window s size t (i + k) (n - k)
  drop-window s cap t i n zero = ap₂ (λ j m. window s cap t j m) (omega arith) (omega arith)
  drop-window s cap t i zero (suc k) =
      let e : 0 ≡ 0 - suc k = omega arith in ap (window s cap t (i + suc k)) e
  drop-window s cap t i (suc n) (suc k) =
      drop-window s cap t (i + 1) n k ∙ ap₂ (λ j m. window s cap t j m) (omega arith) (omega arith)

-- What a span reaches: its length, from the index that it starts at.
abbrev pub FitsIn : ℕ → ℕ → Option ℕ → Type 0
FitsIn cap n none = n ≡ 0
FitsIn cap n (some i) = i + n ≤ cap

module _ {A : Type 0} ⦃inhabited : Inhabited A⦄ (r : Ring A) (v : IsValid r) where
  -- The span that `writable_contiguous` reports for a valid buffer with room stays inside the
  -- storage exactly if the tail is 0.
  pub writable_contiguous_bounds :
      (platform : Platform A)
      → r.count < r.capacity
      → let (n, start, r') = writable_contiguous platform r true in
        FitsIn r.capacity n start ↔ (r.tail ≡ 0)
  unfolding writable_contiguous open_span
  writable_contiguous_bounds platform room =
      let around = add-mod r.tail r.count r.capacity v.tail_in v.count_in in
      let no_grow : leb r.capacity r.count ≡ false = ground arith in
      elim (dec_lt r.head r.tail) [
        | yes p ↦
            let t : leb r.tail r.head ≡ false = ground arith in
            rw (no_grow, t)
              (
                λ f. absurd (omega (arith, f, v.small, v.tail_in)),
                λ d. absurd (omega (arith, d, p)),
              )
        | no p ↦
            let t : leb r.tail r.head ≡ true = ground arith in
            rw (no_grow, t)
              (λ f. ground (arith, v.head_at, around), λ d. ground (arith, v.head_at, around))
      ]

module _ {A : Type 0} ⦃inhabited : Inhabited A⦄ (r : Ring A) (v : IsValid r)
    (pos : 0 < r.count) where
  -- In a valid buffer that is not empty, the span that `readable_contiguous` reports stays inside
  -- the storage exactly if the elements do not go round the end of the storage, or end there: if
  -- the head is past the tail, or is 0.
  pub readable_contiguous_bounds :
      let (n, start) = readable_contiguous r true in
      FitsIn r.capacity n start ↔ ((r.tail < r.head) ⊎ (r.head ≡ 0))
  unfolding readable_contiguous
  readable_contiguous_bounds =
      let around = add-mod r.tail r.count r.capacity v.tail_in v.count_in in
      let some_left : (r.count == 0) ≡ false = ground arith in
      elim (dec_lt r.tail r.head) [
        | yes p ↦
            let t : ltb r.tail r.head ≡ true = ground arith in
            rw (some_left, t) (λ _. inl p, λ _. omega (arith, head_in r v))
        | no p ↦
            let t : ltb r.tail r.head ≡ false = ground arith in
            rw (some_left, t)
              (λ f. inr (ground (arith, v.head_at, around)), λ d. ground (arith, v.head_at, around))
      ]

  -- What a read of `n` elements leaves, with the trace `log`.
  after_read : ℕ → List A → Ring A
  after_read n log = record r { tail = advance r r.tail n; count = r.count - n; destroyed = log }

  commit_read_lem :
      (k : ℕ) → 0 < k → (log : List A) × (commit_read r k ≡ after_read (min k r.count) log)
  unfolding commit_read after_read
  commit_read_lem k some_k =
      let nonzero : (k == 0) ≡ false = ground arith in
      let some_left : (r.count == 0) ≡ false = ground arith in
      let n : (if ltb r.count k then r.count else k) ≡ min k r.count = ground arith in
      elim (Bool-cases (needs_destroy_on_clear r.policy.kind)) [
        | inl needed ↦
            let log = (destroy_run (min k r.count) 0 r).destroyed in
            (log, rw (nonzero, some_left, n, needed, destroy_run_same (min k r.count) 0 r))
        | inr trivial ↦ (r.destroyed, rw (nonzero, some_left, n, trivial))
      ]

  same_window :
      (k : ℕ)
      → window r.storage r.capacity r.tail (min k r.count + 0) (r.count - min k r.count)
        ≡ drop k (contents r)
  same_window k =
      let dropped = drop-window r.storage r.capacity r.tail 0 r.count k in
      elim (dec_lt r.count k) [
        | yes p ↦
            let gone : r.count - min k r.count ≡ 0 = omega arith in
            let over : r.count - k ≡ 0 = omega arith in
            rw gone (sym (dropped ∙ ap (window r.storage r.capacity r.tail (0 + k)) over))
        | no p ↦
            ap₂ (λ j m. window r.storage r.capacity r.tail j m)
              (let e : min k r.count + 0 ≡ 0 + k = omega arith in e)
              (let e : r.count - min k r.count ≡ r.count - k = omega arith in e)
            ∙ sym dropped
      ]

  -- Reading `k` elements off a valid buffer that is not empty leaves a valid buffer of the same
  -- capacity without its `k` oldest elements, or without any if it has no more than `k`.
  pub commit_read-drops :
      (k : ℕ)
      → 0 < k
      → IsValid (commit_read r k)
        × (contents (commit_read r k) ≡ drop k (contents r))
        × ((commit_read r k).capacity ≡ r.capacity)
  unfolding after_read
  commit_read-drops k some_k =
      let (log, run) = commit_read_lem k some_k in
      let n = min k r.count in
      let at : advance r r.tail n ≡ (r.tail + n) % r.capacity =
        advance_lem r v r.tail n v.tail_in (omega arith) in
      rw run (
        record {
          sized = v.sized;
          backed = v.backed;
          small = v.small;
          tail_in = rw at (omega arith);
          count_in = omega arith;
          head_at = rw (at, v.head_at, mod-add-mod) (ap (λ m. m % r.capacity) (omega arith));
        },
        rw at (window_shift r.storage r.capacity r.tail n 0 (r.count - n) ∙ same_window k),
        refl,
      )

-- ===== src/Ring/Window.antt =====
-- The elements of a circular buffer in order, read round the end of the storage.
use native.Mathlib.Nat.{mod-add-mod, mod-eq_of_lt, mod-eq-sub-mod}
use native.Mathlib.Decide.{dec_lt}
use memkit.Prelude.{
  ℕ, zero, suc, ◌+◌, ◌-◌, ◌%◌, ◌≤◌, ◌<◌, ◌≡◌, ◌≢◌, refl, sym, ap, ap₂, ◌∙◌, List, [], ◌∷◌, ◌++◌,
  arith, Inhabited, length, get!, set, get!-set_self, get!-set_ne, ltb, if◌then◌else◌,
}

-- Less than two rounds on, the remainder is at most one subtraction.
pub add-mod :
    (t m cap : ℕ)
    → t < cap
    → m ≤ cap
    → (t + m) % cap ≡ (if ltb (t + m) cap then t + m else t + m - cap)
add-mod t m cap ht hm = elim (dec_lt (t + m) cap) [
  | yes p ↦ ground (arith, mod-eq_of_lt p)
  | no p ↦ ground (
    arith,
    mod-eq-sub-mod {n = t + m} {m = cap} (omega arith),
    mod-eq_of_lt {n = t + m - cap} {m = cap} (omega arith),
  )
]

add-mod-ne : (t k m cap : ℕ) → t < cap → k < m → m < cap → (t + k) % cap ≢ (t + m) % cap
add-mod-ne t k m cap ht hk hm =
    ground (arith, add-mod t k cap ht (omega arith), add-mod t m cap ht (omega arith))

module _ {ℓ} {A : Type ℓ} ⦃inhabited : Inhabited A⦄ where
  -- The `n` elements from the `i`-th on.
  abbrev pub window : List A → ℕ → ℕ → ℕ → ℕ → List A
  window s cap t i zero = []
  window s cap t i (suc n) = get! s ((t + i) % cap) ∷ window s cap t (i + 1) n

  pub length-window : (s : List A) (cap t i n : ℕ) → length (window s cap t i n) ≡ n
  length-window s cap t i zero = refl
  length-window s cap t i (suc n) = ap suc (length-window s cap t (i + 1) n)

  pub window_last :
      (s : List A) (cap t i n : ℕ)
      → window s cap t i (suc n) ≡ window s cap t i n ++ get! s ((t + (i + n)) % cap) ∷ []
  window_last s cap t i zero = ap (λ k. get! s ((t + k) % cap) ∷ []) (omega arith)
  window_last s cap t i (suc n) = ap (◌∷◌ (get! s ((t + i) % cap))) (
      window_last s cap t (i + 1) n
      ∙ ap (λ k. window s cap t (i + 1) n ++ get! s ((t + k) % cap) ∷ []) (omega arith))

  -- Moving the start on is moving the first element on.
  pub window_shift :
      (s : List A) (cap t d i n : ℕ) → window s cap ((t + d) % cap) i n ≡ window s cap t (d + i) n
  window_shift s cap t d i zero = refl
  window_shift s cap t d i (suc n) =
      ap₂ (λ j rest. get! s j ∷ rest) (rw mod-add-mod (ap (λ k. k % cap) (omega arith)))
        (window_shift s cap t d (i + 1) n ∙ ap (λ k. window s cap t k n) (omega arith))

  -- A write to a slot past the window leaves it alone.
  pub window-set_ne :
      (s : List A) (cap t i n m : ℕ) (x : A)
      → t < cap
      → i + n ≤ m
      → m < cap
      → window (set s ((t + m) % cap) x) cap t i n ≡ window s cap t i n
  window-set_ne s cap t i zero m x ht hm hc = refl
  window-set_ne s cap t i (suc n) m x ht hm hc =
      ap₂ ◌∷◌ (get!-set_ne s _ _ x (λ e. add-mod-ne t i m cap ht (omega arith) hc (sym e)))
        (window-set_ne s cap t (i + 1) n m x ht (omega arith) hc)

  -- So does a write to a slot before it, if the window does not come round to it.
  pub window-set_before :
      (s : List A) (cap t i n m : ℕ) (x : A)
      → t < cap
      → m < i
      → i + n ≤ cap
      → window (set s ((t + m) % cap) x) cap t i n ≡ window s cap t i n
  window-set_before s cap t i zero m x ht hm hc = refl
  window-set_before s cap t i (suc n) m x ht hm hc =
      ap₂ ◌∷◌ (get!-set_ne s _ _ x (add-mod-ne t m i cap ht hm (omega arith)))
        (window-set_before s cap t (i + 1) n m x ht (omega arith) (omega arith))

  pub window-set_last :
      (s : List A) (cap t n : ℕ) (x : A)
      → cap ≤ length s
      → t < cap
      → n < cap
      → window (set s ((t + n) % cap) x) cap t 0 (suc n) ≡ window s cap t 0 n ++ x ∷ []
  window-set_last s cap t n x hs ht hn =
      window_last _ cap t 0 n
      ∙ ap₂ (λ w y. w ++ y ∷ []) (window-set_ne s cap t 0 n n x ht (omega arith) hn)
          (ap (λ k. get! (set s ((t + n) % cap) x) ((t + k) % cap)) (omega arith)
            ∙ get!-set_self s _ x (omega arith))

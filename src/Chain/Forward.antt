-- ===== src/Chain/Forward.antt =====
-- The links from a node to the next.
use memkit.Prelude.{ℕ, zero, suc, ◌-◌, ◌≤◌, ◌<◌, ◌≡◌, ◌≢◌, refl, ◌∙◌, List, [], ◌∷◌, arith, length}
use memkit.Chain.{
  Ptr, null, write, ptr_at, insert_nth, remove_nth, length-insert_nth, length-remove_nth,
  ptr_at-insert_nth, ptr_at-remove_nth,
}

-- The nodes `xs` are there, and each is there once.
pub record AreNodes (xs : List Ptr) : Type 0 where
  pub there : (i : ℕ) → i < length xs → ptr_at xs i ≢ null
  pub distinct : (i j : ℕ) → i < length xs → j < length xs → ptr_at xs i ≡ ptr_at xs j → i ≡ j

abbrev pub IsNew : Ptr → List Ptr → Type 0
IsNew x xs = (i : ℕ) → i < length xs → ptr_at xs i ≢ x

pub AreNodes-insert_nth :
    (xs : List Ptr) (i : ℕ) (x : Ptr)
    → i ≤ length xs
    → AreNodes xs
    → x ≢ null
    → IsNew x xs
    → AreNodes (insert_nth xs i x)
AreNodes-insert_nth xs i x h n nonnull new = record {
  there = λ j p.
      ground
        (arith, length-insert_nth xs i x, ptr_at-insert_nth xs i x j h, n.there j, n.there (j - 1));
  distinct = λ j k p q e. ground (
    arith,
    length-insert_nth xs i x,
    ptr_at-insert_nth xs i x j h,
    ptr_at-insert_nth xs i x k h,
    n.distinct j k,
    n.distinct (j - 1) k,
    n.distinct j (k - 1),
    n.distinct (j - 1) (k - 1),
    new j,
    new k,
    new (j - 1),
    new (k - 1),
  );
}

-- From `first` on the links of the nodes `xs` lead from each to the next, and from the last to null.
pub record Forward (next : Ptr → Ptr) (first : Ptr) (xs : List Ptr) : Type 0 where
  pub first_at : first ≡ ptr_at xs 0
  pub step : (i : ℕ) → i < length xs → next (ptr_at xs i) ≡ ptr_at xs (suc i)

pub Forward-insert_nth :
    (next : Ptr → Ptr) (first : Ptr) (xs : List Ptr) (i : ℕ) (x : Ptr)
    → suc i ≤ length xs
    → AreNodes xs
    → IsNew x xs
    → Forward next first xs
    → Forward
        (write (write next x (ptr_at xs (suc i))) (ptr_at xs i) x)
        first
        (insert_nth xs (suc i) x)
Forward-insert_nth next first xs i x h n new f = record {
  first_at = ground (arith, f.first_at, ptr_at-insert_nth xs (suc i) x 0 h);
  step = λ j p. ground (
    arith,
    length-insert_nth xs (suc i) x,
    ptr_at-insert_nth xs (suc i) x j h,
    ptr_at-insert_nth xs (suc i) x (suc j) h,
    f.step j,
    f.step (j - 1),
    n.distinct j i,
    n.distinct (j - 1) i,
    new i,
    new j,
    new (j - 1),
  );
}

pub AreNodes-remove_nth :
    (xs : List Ptr) (i : ℕ) → i < length xs → AreNodes xs → AreNodes (remove_nth xs i)
AreNodes-remove_nth xs i h n = record {
  there = λ j p.
      ground
        (arith, length-remove_nth xs i h, ptr_at-remove_nth xs i j, n.there j, n.there (suc j));
  distinct = λ j k p q e. ground (
    arith,
    length-remove_nth xs i h,
    ptr_at-remove_nth xs i j,
    ptr_at-remove_nth xs i k,
    n.distinct j k,
    n.distinct (suc j) k,
    n.distinct j (suc k),
    n.distinct (suc j) (suc k),
  );
}

-- A change elsewhere.
pub Forward-frame :
    (next next' : Ptr → Ptr) (first : Ptr) (xs : List Ptr)
    → ((i : ℕ) → i < length xs → next' (ptr_at xs i) ≡ next (ptr_at xs i))
    → Forward next first xs
    → Forward next' first xs
Forward-frame next next' first xs same f = record {
  first_at = f.first_at;
  step = λ i p. same i p ∙ f.step i p;
}

pub Forward-push :
    (next : Ptr → Ptr) (first : Ptr) (xs : List Ptr) (x : Ptr)
    → IsNew x xs
    → Forward next first xs
    → Forward (write next x first) x (x ∷ xs)
Forward-push next first xs x new f = record { first_at = refl; step = step }
  where
    step : (i : ℕ) → i < suc (length xs) → write next x first (ptr_at (x ∷ xs) i) ≡ ptr_at xs i
    step zero p = ground (arith, f.first_at)
    step (suc i) p = ground (arith, new i, f.step i)

pub Forward-remove_first :
    (next : Ptr → Ptr) (first : Ptr) (xs : List Ptr)
    → 0 < length xs
    → Forward next first xs
    → Forward next (next (ptr_at xs 0)) (remove_nth xs 0)
Forward-remove_first next first [] h f = absurd (omega arith)
Forward-remove_first next first (x ∷ xs) h f = record {
  first_at = f.step 0 (omega arith);
  step = λ i p. f.step (suc i) (omega arith);
}

pub Forward-remove_nth :
    (next : Ptr → Ptr) (first : Ptr) (xs : List Ptr) (i : ℕ)
    → suc i < length xs
    → AreNodes xs
    → Forward next first xs
    → Forward (write next (ptr_at xs i) (ptr_at xs (suc (suc i)))) first (remove_nth xs (suc i))
Forward-remove_nth next first xs i h n f = record {
  first_at = ground (arith, f.first_at, ptr_at-remove_nth xs (suc i) 0);
  step = λ j p. ground (
    arith,
    length-remove_nth xs (suc i) h,
    ptr_at-remove_nth xs (suc i) j,
    ptr_at-remove_nth xs (suc i) (suc j),
    f.step j,
    f.step (suc j),
    n.distinct j i,
    n.distinct (suc j) i,
  );
}

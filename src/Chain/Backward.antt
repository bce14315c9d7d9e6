-- ===== src/Chain/Backward.antt =====
-- The links from a node to the one before.
use memkit.Prelude.{
  ℕ, zero, suc, ◌-◌, ◌≤◌, ◌<◌, ◌≡◌, ◌∙◌, List, arith, ◌==◌, leb, if◌then◌else◌, length,
}
use memkit.Chain.{
  Ptr, write, ptr_at, ptr_before, insert_nth, remove_nth, length-insert_nth, length-remove_nth,
  ptr_at-insert_nth, ptr_at-remove_nth,
}
use memkit.Chain.Forward.{AreNodes, IsNew}

ptr_before-insert_nth :
    (xs : List Ptr) (i : ℕ) (x : Ptr) (j : ℕ)
    → i ≤ length xs
    → ptr_before (insert_nth xs i x) j
      ≡ (if leb j i then ptr_before xs j else if j == suc i then x else ptr_before xs (j - 1))
ptr_before-insert_nth xs i x zero h = ground arith
ptr_before-insert_nth xs i x (suc zero) h = ground (arith, ptr_at-insert_nth xs i x 0)
ptr_before-insert_nth xs i x (suc (suc j)) h = ground (arith, ptr_at-insert_nth xs i x (suc j))

ptr_before-remove_nth :
    (xs : List Ptr) (i j : ℕ)
    → ptr_before (remove_nth xs i) j ≡ (if leb j i then ptr_before xs j else ptr_before xs (suc j))
ptr_before-remove_nth xs i zero = ground arith
ptr_before-remove_nth xs i (suc j) = ground (arith, ptr_at-remove_nth xs i j)

-- From `last` on the links of the nodes `xs` lead from each to the one before, and from the first to
-- null.
pub record Backward (prev : Ptr → Ptr) (last : Ptr) (xs : List Ptr) : Type 0 where
  pub last_at : last ≡ ptr_before xs (length xs)
  pub step : (i : ℕ) → i < length xs → prev (ptr_at xs i) ≡ ptr_before xs i

pub Backward-frame :
    (prev prev' : Ptr → Ptr) (last : Ptr) (xs : List Ptr)
    → ((i : ℕ) → i < length xs → prev' (ptr_at xs i) ≡ prev (ptr_at xs i))
    → Backward prev last xs
    → Backward prev' last xs
Backward-frame prev prev' last xs same f = record {
  last_at = f.last_at;
  step = λ i p. same i p ∙ f.step i p;
}

-- A node at a position, before the one that was there.
pub Backward-insert_nth :
    (prev : Ptr → Ptr) (last : Ptr) (xs : List Ptr) (i : ℕ) (x : Ptr)
    → i < length xs
    → AreNodes xs
    → IsNew x xs
    → Backward prev last xs
    → Backward (write (write prev x (ptr_before xs i)) (ptr_at xs i) x) last (insert_nth xs i x)
Backward-insert_nth prev last xs i x h n new f = record {
  last_at =
      ground (
        arith,
        f.last_at,
        length-insert_nth xs i x,
        ptr_before-insert_nth xs i x (suc (length xs)),
      );
  step = λ j p. ground (
    arith,
    length-insert_nth xs i x,
    ptr_at-insert_nth xs i x j,
    ptr_before-insert_nth xs i x j,
    f.step j,
    f.step (j - 1),
    n.distinct j i,
    n.distinct (j - 1) i,
    new i,
    new j,
    new (j - 1),
  );
}

-- A node past the last.
pub Backward-append :
    (prev : Ptr → Ptr) (last : Ptr) (xs : List Ptr) (x : Ptr)
    → IsNew x xs
    → Backward prev last xs
    → Backward (write prev x last) x (insert_nth xs (length xs) x)
Backward-append prev last xs x new f =
    let n : ℕ = length xs in
    record {
      last_at = ground (arith, length-insert_nth xs n x, ptr_before-insert_nth xs n x (suc n));
      step = λ j p. ground (
        arith,
        length-insert_nth xs n x,
        ptr_at-insert_nth xs n x j,
        ptr_before-insert_nth xs n x j,
        f.last_at,
        f.step j,
        new j,
      );
    }

pub Backward-remove_nth :
    (prev : Ptr → Ptr) (last : Ptr) (xs : List Ptr) (i : ℕ)
    → suc i < length xs
    → AreNodes xs
    → Backward prev last xs
    → Backward (write prev (ptr_at xs (suc i)) (ptr_before xs i)) last (remove_nth xs i)
Backward-remove_nth prev last xs i h n f = record {
  last_at =
      ground (arith, f.last_at, length-remove_nth xs i, ptr_before-remove_nth xs i (length xs - 1));
  step = λ j p. ground (
    arith,
    length-remove_nth xs i,
    ptr_at-remove_nth xs i j,
    ptr_before-remove_nth xs i j,
    f.step j,
    f.step (suc j),
    n.distinct j (suc i),
    n.distinct (suc j) (suc i),
  );
}

pub Backward-drop_last :
    (prev : Ptr → Ptr) (last : Ptr) (xs : List Ptr) (i : ℕ)
    → suc i ≡ length xs
    → Backward prev last xs
    → Backward prev (prev (ptr_at xs i)) (remove_nth xs i)
Backward-drop_last prev last xs i h f = record {
  last_at = ground (arith, f.step i, length-remove_nth xs i, ptr_before-remove_nth xs i i);
  step = λ j p. ground (
    arith,
    length-remove_nth xs i,
    ptr_at-remove_nth xs i j,
    ptr_before-remove_nth xs i j,
    f.step j,
  );
}

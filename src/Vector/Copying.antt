-- ===== src/Vector/Copying.antt =====
-- A fresh block takes the elements of the vector over.
use memkit.Prelude.{
  ℕ, zero, suc, ◌+◌, ◌≤◌, ◌<◌, ◌≡◌, inl, inr, refl, ◌∙◌, some, List, ◌∷◌, arith, if◌then◌else◌,
  Bool-cases, Inhabited, get!, get!-set, get!-set_ne, set, length, length-set,
}
use memkit.Status.{Status}
use memkit.Element.{move_construct, destroy, is_runtime}
use memkit.Ring.{StorageKind}
use memkit.Ring.Inv.{AlwaysCopies}
use memkit.Ring.Ops.Pop.{move_construct-placed}
use memkit.Vector.{Vector, copy_loop, replace}

module _ {A : Type 0} ⦃inhabited : Inhabited A⦄ where
  -- After the loop the new block has the elements, and of the vector only the old block and the
  -- trace have changed.
  record Copied (n i : ℕ) (v : Vector A) (old new : List A) (out : Status × Vector A × List A)
      : Type 0 where
    block : List A
    left : List A
    log : List A
    result : out ≡ (Status.ok, record v { storage = some left; destroyed = log }, block)
    room : length block ≡ length new
    shape : length left ≡ length old
    now : (j : ℕ) → i ≤ j → j < i + n → get! block j ≡ get! old j
    before : (j : ℕ) → j < i → get! block j ≡ get! new j

  copy_loop-Copied :
      (n i : ℕ) (v : Vector A) (old log new : List A)
      → AlwaysCopies v.policy.kind
      → i + n ≤ length new
      → Copied n i v old new (copy_loop n i (record v { storage = some old; destroyed = log }) new)
  unfolding copy_loop
  copy_loop-Copied zero i v old log new copies h = record {
    block = new;
    left = old;
    log = log;
    result = refl;
    room = refl;
    shape = refl;
    now = λ j p q. absurd (omega arith);
    before = λ j p. refl;
  }
  copy_loop-Copied (suc n) i v old log new copies h =
      let k = v.policy.kind in
      let x = get! old i in
      let wide = length-set new i x in
      elim (Bool-cases (is_runtime k)) [
        | inl run ↦
            let r =
              copy_loop-Copied n (i + 1) v old log (set new i x) copies (omega (arith, wide)) in
            rw (run, copies (get! new i) x)
              (record {
                block = r.block;
                left = r.left;
                log = r.log;
                result = r.result;
                room = r.room ∙ wide;
                shape = r.shape;
                now = λ j p q. ground (arith, r.now j, r.before j, get!-set new i j x);
                before = λ j p. ground (arith, r.before j, get!-set new i j x);
              })
        | inr typed ↦
            let l = (move_construct k (get! new i) x).1 in
            let r =
              copy_loop-Copied n (i + 1) v (set old i l) (destroy k l log) (set new i x) copies
                (omega (arith, wide)) in
            rw (typed, move_construct-placed k (get! new i) x)
              (record {
                block = r.block;
                left = r.left;
                log = r.log;
                result = r.result;
                room = r.room ∙ wide;
                shape = r.shape ∙ length-set old i l;
                now = λ j p q.
                    ground (arith, r.now j, r.before j, get!-set new i j x, get!-set_ne old i j l);
                before = λ j p. ground (arith, r.before j, get!-set new i j x);
              })
      ]

  -- The vector in its new block. The old block was released if the vector's kind is the heap.
  pub record Replaced (v : Vector A) (old : List A) (wide : ℕ) (kind : StorageKind)
      (out : Status × Vector A) : Type 0 where
    pub block : List A
    pub log : List A
    pub left : List A
    pub result : out ≡ (
      Status.ok,
      record v {
        storage = some block;
        capacity = wide;
        destroyed = log;
        kind = kind;
        freed = if kind.heap then left ∷ v.freed else v.freed;
      },
    )
    pub room : wide ≤ length block
    pub shape : length left ≡ length old
    pub same : (j : ℕ) → j < v.size → get! block j ≡ get! old j

  pub replace-Replaced :
      (v : Vector A) (old block : List A) (wide : ℕ) (kind : StorageKind)
      → AlwaysCopies v.policy.kind
      → v.size ≤ wide
      → wide ≤ length block
      → Replaced v old wide kind (replace (record v { storage = some old; kind = kind }) wide block)
  unfolding replace
  replace-Replaced v old block wide kind copies h room =
      let r =
        copy_loop-Copied v.size 0 (record v { kind = kind }) old v.destroyed block copies
          (omega arith) in
      rw r.result (record {
        block = r.block;
        log = r.log;
        left = r.left;
        result = refl;
        room = ground (arith, r.room);
        shape = r.shape;
        same = λ j p. r.now j (omega arith) (omega arith);
      })

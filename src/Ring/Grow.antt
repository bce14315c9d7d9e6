-- ===== src/Ring/Grow.antt =====
-- The loop of `relinearize` and the fields that it sets: growth keeps the elements.
pub mod Room
use native.Mathlib.Numerals.{add-one}
use memkit.Prelude.{
  ℕ, zero, suc, ◌+◌, ◌*◌, ◌%◌, ◌^◌, ◌≤◌, ◌<◌, ◌≡◌, ◌≢◌, refl, sym, ap, ap₂, ◌∙◌, ◌⊎◌, inl, inr,
  Bool, true, false, ◌&&◌, if◌then◌else◌, subst, Option, none, some, List, [], ◌∷◌, ◌++◌,
  append-nil, append_assoc, arith, Bool-cases, Inhabited, length, length-set, set, get!, ltb, leb,
}
use memkit.Status.{Status, is_ok, is_ok→ok, not_is_ok→ne}
use memkit.Element.{Kind, move_construct, is_runtime}
use memkit.Growth.{Platform, GrowAlloc, grow_capacity, size_mod}
use memkit.Growth.Bounds.{grow_capacity_bounds}
use memkit.Ring.{
  Ring, StorageKind, logical_index, add_size, after_move, copy_out, moved, finish, new_block, grown,
  from_malloc, relinearize, ensure_room, reserve,
}
use memkit.Ring.Window.{window, add-mod, window-set_before, window-set_last}
use memkit.Ring.Inv.{IsValid, contents, logical_index_lem}

module _ {A : Type 0} ⦃inhabited : Inhabited A⦄ where
  move_construct-placed : (k : Kind A) (dst src : A) → (move_construct k dst src).0 ≡ src
  move_construct-placed (Kind.typed leaves d) dst src = refl
  move_construct-placed (Kind.runtime f d) dst src = refl

  after_move-IsValid : (r : Ring A) (src : ℕ) (y : A) → IsValid r → IsValid (after_move r src y)
  unfolding after_move
  after_move-IsValid r src y v = record {
    sized = v.sized;
    backed = ground (arith, v.backed, length-set r.storage src y);
    small = v.small;
    tail_in = v.tail_in;
    count_in = v.count_in;
    head_at = v.head_at;
  }

  -- The elements still to be moved are where they were.
  after_move-window :
      (r : Ring A) (i n : ℕ) (y : A)
      → IsValid r
      → i + 1 + n ≤ r.capacity
      → window (after_move r (logical_index r i) y).storage r.capacity r.tail (i + 1) n
        ≡ window r.storage r.capacity r.tail (i + 1) n
  unfolding after_move
  after_move-window r i n y v h = elim (Bool-cases (is_runtime r.policy.kind)) [
    | inl runtime ↦ rw runtime
    | inr typed ↦
        rw (typed, logical_index_lem r v i (omega arith))
          (window-set_before r.storage r.capacity r.tail (i + 1) n i y v.tail_in (omega arith) h)
  ]

  fill_next :
      (new : List A) (wide i : ℕ) (x : A)
      → i < wide
      → wide ≤ length new
      → window (set new i x) wide 0 0 (i + 1) ≡ window new wide 0 0 i ++ x ∷ []
  fill_next new wide i x h1 h2 =
      ap₂ (λ j k. window (set new j x) wide 0 0 k)
        (ground (arith, add-mod 0 i wide (omega arith) (omega arith))) (add-one i)
      ∙ window-set_last new wide 0 i x h2 (omega arith) h1

  -- What the loop of `relinearize` leaves: the new block holds the first `i + n` elements, and of
  -- the buffer only the storage and the trace have changed.
  record Copied (r : Ring A) (old : List A) (cap n i wide : ℕ) (new : List A)
      (out : Ring A × List A) : Type 0 where
    size : length out.1 ≡ length new
    elements : window out.1 wide 0 0 (i + n) ≡ window new wide 0 0 i ++ window old cap r.tail i n
    policy : out.0.policy ≡ r.policy
    count : out.0.count ≡ r.count

  copy_out-Copied :
      (n i wide : ℕ) (r : Ring A) (new : List A)
      → IsValid r
      → i + n ≤ r.capacity
      → i + n ≤ wide
      → wide ≤ length new
      → Copied r r.storage r.capacity n i wide new (copy_out n i r new)
  unfolding copy_out
  copy_out-Copied zero i wide r new v h1 h2 h3 = record {
    size = refl;
    elements = ap (window new wide 0 0) (omega arith) ∙ sym (append-nil _);
    policy = refl;
    count = refl;
  }
  copy_out-Copied (suc n) i wide r new v h1 h2 h3 =
      let src = logical_index r i in
      let moving = move_construct r.policy.kind (get! new i) (get! r.storage src) in
      let r' = after_move r src moving.1 in
      let new' = set new i moving.0 in
      let at : src ≡ (r.tail + i) % r.capacity = logical_index_lem r v i (omega arith) in
      let ih =
        copy_out-Copied n (i + 1) wide r' new' (after_move-IsValid r src moving.1 v) (omega arith)
          (omega arith) (rw (length-set new i moving.0) h3) in
      record {
        size = ih.size ∙ length-set new i moving.0;
        elements =
            ap (window (copy_out n (i + 1) r' new').1 wide 0 0) (omega arith)
            ∙ ih.elements
            ∙ ap₂ ◌++◌ (fill_next new wide i moving.0 (omega arith) h3)
                (after_move-window r i n moving.1 v (omega arith))
            ∙ append_assoc (window new wide 0 0 i) (moving.0 ∷ []) _
            ∙ ap (λ x. window new wide 0 0 i ++ x ∷ window r.storage r.capacity r.tail (i + 1) n)
                (move_construct-placed r.policy.kind _ _ ∙ ap (get! r.storage) at);
        policy = ih.policy;
        count = ih.count;
      }

  -- The loop run over the whole buffer, with the new fields.
  moved-keeps :
      (r : Ring A) (block : List A) (kind : StorageKind) (wide : ℕ)
      → IsValid r
      → r.count < wide
      → wide ≤ length block
      → wide ≤ 2 ^ 63
      → IsValid (moved r block kind wide)
        × (contents (moved r block kind wide) ≡ contents r)
        × ((moved r block kind wide).capacity ≡ wide)
        × ((moved r block kind wide).count ≡ r.count)
        × ((moved r block kind wide).policy ≡ r.policy)
  unfolding moved
  moved-keeps r block kind wide v room enough small =
      let start = record r { kind = kind } in
      let start_v : IsValid start = record {
        sized = v.sized;
        backed = v.backed;
        small = v.small;
        tail_in = v.tail_in;
        count_in = v.count_in;
        head_at = v.head_at;
      } in
      let c =
        copy_out-Copied r.count 0 wide start block start_v (omega arith) (omega arith) enough in
      (
        record {
          sized = rw c.policy v.sized;
          backed = rw c.size enough;
          small = small;
          tail_in = omega arith;
          count_in = rw c.count (omega arith);
          head_at = rw c.count (ground (arith, add-mod 0 r.count wide (omega arith) (omega arith)));
        },
        rw c.count
            (ap (window (copy_out r.count 0 start block).1 wide 0 0) (omega arith) ∙ c.elements),
        refl,
        c.count,
        c.policy,
      )

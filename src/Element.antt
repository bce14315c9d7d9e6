-- ===== src/Element.antt =====
-- include/memkit/detail/element_policy.hpp: how a container copies, moves and destroys the
-- elements of its storage. A slot of raw memory is a value of the element type `A`.
use memkit.Prelude.{ℕ, Bool, true, false, Option, none, some, List, [], ◌∷◌, ◌++◌}
use memkit.Status.{Status}

-- The two policies. `typed` is `typed_element_policy<T>`: `leaves x` is what T's move constructor
-- leaves of `x`, and the flag says whether T's destructor is non-trivial. `runtime` is
-- `runtime_element_policy`: `copy_fn_`, which takes the old slot and the source and returns its
-- status and the new slot, if it is set, and whether `destroy_fn_` is set. T and the two callbacks
-- are the user's.
pub data Kind {ℓ} (A : Type ℓ) : Type ℓ where
  typed : (A → A) → Bool → Kind A
  runtime : Option (A → A → Status × A) → Bool → Kind A

pub record Policy {ℓ} (A : Type ℓ) : Type ℓ where
  pub elem_size : ℕ
  pub kind : Kind A

module _ {ℓ} {A : Type ℓ} where
  -- `std::is_same_v<Policy, runtime_element_policy>`
  abbrev pub is_runtime : Kind A → Bool
  is_runtime (Kind.typed leaves d) = false
  is_runtime (Kind.runtime f d) = true

  -- The status is `ok` under `typed`, whose copy constructor returns nothing.
  abbrev pub copy_construct : Kind A → A → A → Status × A
  copy_construct (Kind.typed leaves d) dst src = (Status.ok, src)
  copy_construct (Kind.runtime none d) dst src = (Status.ok, src)
  copy_construct (Kind.runtime (some f) d) dst src = f dst src

  -- The slot written, and what is left in the source.
  abbrev pub move_construct : Kind A → A → A → A × A
  move_construct (Kind.typed leaves d) dst src = (src, leaves src)
  move_construct (Kind.runtime f d) dst src = (src, src)

  abbrev pub needs_destroy_on_clear : Kind A → Bool
  needs_destroy_on_clear (Kind.typed leaves d) = d
  needs_destroy_on_clear (Kind.runtime f d) = d

  -- `destroy` as the trace of the values whose destructor ran, oldest first.
  abbrev pub destroy : Kind A → A → List A → List A
  destroy (Kind.typed leaves true) x log = log ++ x ∷ []
  destroy (Kind.typed leaves false) x log = log
  destroy (Kind.runtime f true) x log = log ++ x ∷ []
  destroy (Kind.runtime f false) x log = log

-- ===== src/HashMap/Ops/Fresh.antt =====
-- A fresh map of chained buckets.
use native.Mathlib.Decide.{dec_lt}
use native.Mathlib.Nat.{mod-lt}
use memkit.Prelude.{
  ℕ, zero, suc, ◌+◌, ◌%◌, ◌≤◌, ◌<◌, ◌≡◌, refl, ap, ◌∙◌, false, some, List, [], arith, ◌==◌, get!,
  set, get!-set, length, length-set, Inhabited,
}
use memkit.Status.{Status}
use memkit.HashMap.{HashMap}
use memkit.HashMap.Chaining.{chain_find, unlink_first}
use memkit.HashMap.Chaining.Answers.{HasChains}
use memkit.HashMap.Chaining.Rehash.{IsPlaced}
use memkit.HashMap.Ops.{Policies, with_policies, reset_state, null_loop, init_chaining}

module _ {K V : Type 0} ⦃chain_inhabited : Inhabited (List (K × V))⦄ where
  length-null_loop :
      (rounds i : ℕ) (buckets : List (List (K × V)))
      → length (null_loop rounds i buckets) ≡ length buckets
  unfolding null_loop
  length-null_loop zero i buckets = refl
  length-null_loop (suc rounds) i buckets =
      length-null_loop rounds (i + 1) (set buckets i []) ∙ length-set buckets i []

  null_loop_before :
      (rounds i : ℕ) (buckets : List (List (K × V))) (j : ℕ)
      → i + rounds ≤ length buckets
      → j < i
      → get! buckets j ≡ []
      → get! (null_loop rounds i buckets) j ≡ []
  unfolding null_loop
  null_loop_before zero i buckets j room before is_null = is_null
  null_loop_before (suc rounds) i buckets j room before is_null =
      null_loop_before rounds (i + 1) (set buckets i []) j (omega (arith, length-set buckets i []))
        (omega arith) (ground (arith, get!-set buckets i j [], is_null))

  get!-null_loop :
      (rounds i : ℕ) (buckets : List (List (K × V))) (j : ℕ)
      → i + rounds ≤ length buckets
      → i ≤ j
      → j < i + rounds
      → get! (null_loop rounds i buckets) j ≡ []
  unfolding null_loop
  get!-null_loop zero i buckets j room le lt = absurd (omega arith)
  get!-null_loop (suc rounds) i buckets j room le lt = elim (dec_lt i j) [
    | yes later ↦
        get!-null_loop rounds (i + 1) (set buckets i []) j (omega (arith, length-set buckets i []))
          (omega arith) (omega arith)
    | no here ↦
        let e : i ≡ j = omega arith in
        null_loop_before rounds (i + 1) (set buckets i []) j
          (omega (arith, length-set buckets i [])) (omega arith)
          (ground (arith, get!-set buckets i j [], e))
  ]

  abbrev fresh : HashMap K V → List (List (K × V)) → Policies K V → HashMap K V
  fresh m buckets p = with_policies p (record (reset_state m p) {
    buckets = null_loop (length buckets) 0 buckets;
    bucket_count = length buckets;
  })

  init_chaining-fresh :
      (m : HashMap K V) (buckets : List (List (K × V))) (p : Policies K V)
      → 0 < length buckets
      → init_chaining m (some buckets) (length buckets) p ≡ (Status.ok, fresh m buckets p)
  unfolding init_chaining
  init_chaining-fresh m buckets p pos =
      let some_buckets : (length buckets == 0) ≡ false = ground (arith, pos) in rw some_buckets refl

  fresh-IsPlaced :
      (m : HashMap K V) (buckets : List (List (K × V))) (p : Policies K V) (key : K)
      → 0 < length buckets
      → IsPlaced (fresh m buckets p) key
  unfolding reset_state chain_find unlink_first
  fresh-IsPlaced m buckets p key pos = record {
    elsewhere = λ i h ne. ap (chain_find p.equal key) (
        get!-null_loop (length buckets) 0 buckets i (omega arith) (omega arith) (omega (arith, h)));
    once =
        ap (λ c. chain_find p.equal key (unlink_first p.equal key c))
          (get!-null_loop (length buckets) 0 buckets (p.hash key % length buckets) (omega arith)
            (omega arith) (omega (arith, mod-lt (p.hash key) pos)));
  }

  -- `init_chaining` of some buckets succeeds, and the map that it makes has one node at most for each
  -- key, in the key's own bucket.
  pub init_chaining-IsPlaced :
      (m : HashMap K V) (buckets : List (List (K × V))) (p : Policies K V) (key : K)
      → 0 < length buckets
      → ((init_chaining m (some buckets) (length buckets) p).0 ≡ Status.ok)
        × HasChains (init_chaining m (some buckets) (length buckets) p).1
        × IsPlaced (init_chaining m (some buckets) (length buckets) p).1 key
  unfolding reset_state
  init_chaining-IsPlaced m buckets p key pos = rw (init_chaining-fresh m buckets p pos) (
    refl,
    record { some_chains = pos; length-buckets = length-null_loop (length buckets) 0 buckets },
    fresh-IsPlaced m buckets p key pos,
  )

-- ===== src/TokenBucket/Laws.antt =====
-- What a token bucket lets through.
use memkit.Prelude.{
  ℕ, ◌+◌, ◌-◌, ◌*◌, ◌^◌, ◌≤◌, ◌<◌, ◌≡◌, refl, List, [], ◌∷◌, arith, if◌then◌else◌, min,
}
use memkit.Status.{Status, is_ok}
use memkit.TokenBucket.{TokenBucket, refill, consume, try_consume, reset}

pub record IsValid (b : TokenBucket) : Type 0 where
  pub tokens_in : b.tokens ≤ b.capacity
  pub capacity_32 : b.capacity < 2 ^ 32
  pub refill_32 : b.refill_per_tick < 2 ^ 32

mul-le-mul : (a b m : ℕ) → a ≤ m → b ≤ m → a * b ≤ m * m
mul-le-mul a b m p q = grind arith

-- No product or sum of `refill` wraps: for a valid bucket and any `uint32_t` number of ticks, the
-- bucket gains the ticks' tokens up to its capacity, and nothing else changes.
pub refill_lem :
    (b : TokenBucket) (ticks : ℕ)
    → IsValid b
    → ticks < 2 ^ 32
    → refill b ticks ≡ record b { tokens = min (b.tokens + b.refill_per_tick * ticks) b.capacity }
unfolding refill
refill_lem b ticks v small =
    let product : b.refill_per_tick * ticks ≤ (2 ^ 32 - 1) * (2 ^ 32 - 1) =
      mul-le-mul b.refill_per_tick ticks (2 ^ 32 - 1) (omega arith) (omega arith) in
    let zero_ticks : ticks ≡ 0 → b.refill_per_tick * ticks ≡ 0 = λ e. rw e (omega arith) in
    ground (arith, zero_ticks)

pub refill-IsValid :
    (b : TokenBucket) (ticks : ℕ) → IsValid b → ticks < 2 ^ 32 → IsValid (refill b ticks)
refill-IsValid b ticks v small = rw (refill_lem b ticks v small) (omega arith)

pub try_consume-IsValid : (b : TokenBucket) (n : ℕ) → IsValid b → IsValid (try_consume b n).1
unfolding try_consume
try_consume-IsValid b n v = ground arith

-- A client's calls on a bucket that is set up: `refill`, `try_consume`, `consume` and `reset`.
pub data Call : Type 0 where
  refills : ℕ → Call
  tries : ℕ → Call
  consumes : ℕ → Call
  resets : Call

-- What was granted: the request if it was answered `ok`, else nothing.
abbrev pub granted_by : Status → ℕ → ℕ
granted_by s n = if is_ok s then n else 0

-- The bucket after a client's calls, and the tokens granted in all.
unfoldable pub run : TokenBucket → List Call → TokenBucket × ℕ
run b [] = (b, 0)
run b (Call.refills n ∷ calls) = run (refill b n) calls
run b (Call.tries n ∷ calls) =
    let (s, b') = try_consume b n in
    let (last, granted) = run b' calls in (last, granted_by s n + granted)
run b (Call.consumes n ∷ calls) =
    let (s, b') = consume b n in
    let (last, granted) = run b' calls in (last, granted_by s n + granted)
run b (Call.resets ∷ calls) = run (reset b) calls

unfoldable pub ticks_of : List Call → ℕ
ticks_of [] = 0
ticks_of (Call.refills n ∷ calls) = n + ticks_of calls
ticks_of (Call.tries n ∷ calls) = ticks_of calls
ticks_of (Call.consumes n ∷ calls) = ticks_of calls
ticks_of (Call.resets ∷ calls) = ticks_of calls

unfoldable pub resets_of : List Call → ℕ
resets_of [] = 0
resets_of (Call.refills n ∷ calls) = resets_of calls
resets_of (Call.tries n ∷ calls) = resets_of calls
resets_of (Call.consumes n ∷ calls) = resets_of calls
resets_of (Call.resets ∷ calls) = 1 + resets_of calls

abbrev pub AllTicks : List Call → Type 0
AllTicks [] = Unit
AllTicks (Call.refills n ∷ calls) = (n < 2 ^ 32) × AllTicks calls
AllTicks (Call.tries n ∷ calls) = AllTicks calls
AllTicks (Call.consumes n ∷ calls) = AllTicks calls
AllTicks (Call.resets ∷ calls) = AllTicks calls

-- The settings of a bucket, which no call changes.
abbrev SameSettings : TokenBucket → TokenBucket → Type 0
SameSettings b b' = (b'.refill_per_tick ≡ b.refill_per_tick) × (b'.capacity ≡ b.capacity)

-- One request pays for what it is granted.
try_consume_pays :
    (b : TokenBucket) (n : ℕ)
    → let (s, b') = try_consume b n in (granted_by s n + b'.tokens ≡ b.tokens) × SameSettings b b'
unfolding try_consume
try_consume_pays b n = ground arith

refill_gains :
    (b : TokenBucket) (ticks : ℕ)
    → IsValid b
    → ticks < 2 ^ 32
    → ((refill b ticks).tokens ≤ b.tokens + b.refill_per_tick * ticks)
      × SameSettings b (refill b ticks)
refill_gains b ticks v small = rw (refill_lem b ticks v small) (omega arith, (refl, refl))

-- What a bucket may let through until the calls are over.
abbrev pub allowance : TokenBucket → List Call → ℕ
allowance b calls = b.tokens + b.refill_per_tick * ticks_of calls + b.capacity * resets_of calls

settings-allowance :
    (b b' : TokenBucket) (calls : List Call)
    → SameSettings b b'
    → allowance b' calls
      ≡ b'.tokens + b.refill_per_tick * ticks_of calls + b.capacity * resets_of calls
settings-allowance b b' calls (rate, cap) = rw (rate, cap) refl

-- The rate limit: whatever calls of `refill`, `try_consume`, `consume` and `reset` a valid bucket
-- gets, in whatever order, each `refill` with a `uint32_t` number of ticks, it grants no more in all
-- than the tokens that it had, those of the ticks, and its capacity again for each `reset`, and it
-- stays valid. Without a `reset` that is what it had and the tokens of the ticks.
pub run_limited :
    (calls : List Call) (b : TokenBucket)
    → IsValid b
    → AllTicks calls
    → ((run b calls).1 + (run b calls).0.tokens
        ≤ b.tokens + b.refill_per_tick * ticks_of calls + b.capacity * resets_of calls)
      × IsValid (run b calls).0
unfolding run ticks_of resets_of consume reset
run_limited [] b v h = (omega arith, v)
run_limited (Call.refills n ∷ calls) b v (small, h) =
    let (gain, same) = refill_gains b n v small in
    let (limit, valid) = run_limited calls (refill b n) (refill-IsValid b n v small) h in
    (omega (arith, settings-allowance b (refill b n) calls same), valid)
run_limited (Call.tries n ∷ calls) b v h =
    let (pays, same) = try_consume_pays b n in
    let (limit, valid) = run_limited calls (try_consume b n).1 (try_consume-IsValid b n v) h in
    (omega (arith, settings-allowance b (try_consume b n).1 calls same), valid)
run_limited (Call.consumes n ∷ calls) b v h =
    let (pays, same) = try_consume_pays b n in
    let (limit, valid) = run_limited calls (try_consume b n).1 (try_consume-IsValid b n v) h in
    (omega (arith, settings-allowance b (try_consume b n).1 calls same), valid)
run_limited (Call.resets ∷ calls) b v h =
    let (limit, valid) =
      run_limited calls (reset b) (omega (arith, v.capacity_32, v.refill_32)) h in
    (omega arith, valid)

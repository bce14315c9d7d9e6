-- ===== src/TokenBucket.antt =====
-- include/memkit/containers/token_bucket.hpp: a rate limiter that counts ticks. The fields are
-- `uint32_t`, and `refill` computes in `uint64_t`.
pub mod Laws
use memkit.Prelude.{ℕ, ◌+◌, ◌-◌, ◌*◌, ◌%◌, ◌^◌, ◌||◌, ltb, ◌==◌, if◌then◌else◌, min}
use memkit.Status.{Status}

pub record TokenBucket : Type 0 where
  pub capacity : ℕ
  pub refill_per_tick : ℕ
  pub tokens : ℕ

pub init : TokenBucket → ℕ → ℕ → Status × TokenBucket
init b capacity refill_per_tick = if capacity == 0 then (Status.invalid, b) else (
  Status.ok,
  record { capacity = capacity; refill_per_tick = refill_per_tick; tokens = capacity },
)

pub refill : TokenBucket → ℕ → TokenBucket
refill b ticks =
    let added = b.refill_per_tick * ticks % 2 ^ 64 in
    let next = (b.tokens + added) % 2 ^ 64 in
    if (ticks == 0) || (b.capacity == 0)
    then b
    else record b { tokens = min next b.capacity % 2 ^ 32 }

pub try_consume : TokenBucket → ℕ → Status × TokenBucket
try_consume b count =
    if count == 0
    then (Status.invalid, b)
    else if ltb b.tokens count
    then (Status.empty, b)
    else (Status.ok, record b { tokens = b.tokens - count })

pub consume : TokenBucket → ℕ → Status × TokenBucket
unfolding try_consume
consume b count = try_consume b count

pub reset : TokenBucket → TokenBucket
reset b = record b { tokens = b.capacity }

-- ===== src/Status.antt =====
-- include/memkit/status.hpp: the result codes of every operation.
use memkit.Prelude.{Bool, true, false, ◌≡◌, ◌≢◌, arith}

pub data Status : Type 0 where
  ok null_ptr invalid empty full oom unsupported not_found : Status

-- `ok(s)`, and the test `s == status::ok` that the code writes out elsewhere.
abbrev pub is_ok : Status → Bool
is_ok Status.ok = true
is_ok _ = false

pub is_ok→ok : (s : Status) → is_ok s ≡ true → s ≡ Status.ok
is_ok→ok s h = ground arith

pub not_is_ok→ne : (s : Status) → is_ok s ≡ false → s ≢ Status.ok
not_is_ok→ne s h = ground arith

pub not_ok→not_is_ok : (s : Status) → s ≢ Status.ok → is_ok s ≡ false
not_ok→not_is_ok s h = ground arith

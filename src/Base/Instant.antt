-- ===== src/Base/Instant.antt =====
-- `Date` values: milliseconds since the earliest instant that a `Date` can hold, which lies
-- 8.64e15 ms (a whole number of days) before 1970-01-01, so that no instant is negative.
use Prim.Native.Nat.{ℕ, ◌*◌, ◌/◌}

abbrev pub Instant : Type 0
Instant = ℕ

abbrev pub day_ms : ℕ
day_ms = 86_400_000

-- The instant of 1970-01-01T00:00Z.
abbrev pub unix_epoch : Instant
unix_epoch = 8_640_000_000_000_000

-- Midnight UTC of day number `d`.
abbrev pub midnight : ℕ → Instant
midnight d = d * day_ms

-- The day that an instant falls on.
abbrev pub day_of : Instant → ℕ
day_of t = t / day_ms

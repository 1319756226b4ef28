-- ===== src/Base/Clock.antt =====
-- Instants and durations of package time, in nanoseconds. An instant counts from Go's zero time, so
-- that 0 is `time.Time{}`; a duration is not negative where the program uses one.
use Prim.Native.Nat.{ℕ, ◌*◌}

abbrev pub Time : Type 0
Time = ℕ

abbrev pub second : Time
second = 1_000_000_000

abbrev pub minute : Time
minute = 60 * second

abbrev pub hour : Time
hour = 60 * minute

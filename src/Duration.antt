-- ===== src/Duration.antt =====
-- Go's `time.Duration`, an int64 of nanoseconds. A configured value may be negative and is an
-- integer; a session's intervals are positive or zero and are natural numbers. Products are the
-- bit patterns of the int64 results.
use gobfd.Common.{ℕ, ◌*◌, ◌/◌, ◌%◌, ◌^◌, ◌<◌, ◌≡◌, arith, Bool, ◌==◌}

-- `negsuc n` is -(n + 1).
pub data ℤ : Type 0 where
  pos : ℕ → ℤ
  negsuc : ℕ → ℤ

abbrev pub pos_part : ℤ → ℕ
pos_part (pos n) = n
pos_part (negsuc n) = 0

-- `d <= 0`.
abbrev pub not_positive : ℤ → Bool
not_positive d = pos_part d == 0

abbrev pub microsecond : ℕ
microsecond = 1000

abbrev pub millisecond : ℕ
millisecond = 1000_000

abbrev pub second : ℕ
second = 1000_000_000

-- The product of two int64 values that are not negative.
abbrev pub mul_int64 : ℕ → ℕ → ℕ
mul_int64 a b = a * b % 2 ^ 64

unfoldable pub duration_from_microseconds : ℕ → ℕ
duration_from_microseconds us = mul_int64 us microsecond

unfoldable pub microseconds_from_duration : ℕ → ℕ
microseconds_from_duration d = d / microsecond % 2 ^ 32

-- A wire value converts to a duration and back without loss, and so does every duration of whole
-- microseconds that the wire can hold.
pub microseconds-duration :
    (us : ℕ)
    → us < 2 ^ 32
    → (duration_from_microseconds us ≡ us * 1000)
      × (microseconds_from_duration (duration_from_microseconds us) ≡ us)
unfolding duration_from_microseconds microseconds_from_duration
microseconds-duration us h = (omega arith, omega arith)

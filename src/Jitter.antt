-- ===== src/Jitter.antt =====
-- The jitter of the transmission interval: applyJitterWithRand and jitterRNG of
-- internal/bfd/session_packet.go. A generator is its uint64 state.
use gobfd.Common.{
  ℕ, ◌+◌, ◌-◌, ◌*◌, ◌/◌, ◌%◌, ◌^◌, ◌<◌, ◌≤◌, ◌≡◌, arith, bit_xor, ltb, leb, ◌==◌, if◌then◌else◌,
}
use gobfd.Duration.{mul_int64}
use native.Mathlib.Nat.{mod-lt}

-- One round of xorshift64*: the new state and the value.
unfoldable pub next : ℕ → ℕ × ℕ
next state =
    let x0 = if state == 0 then 0x9e3779b97f4a7c15 else state in
    let x1 = bit_xor x0 (x0 / 2 ^ 12) in
    let x2 = bit_xor x1 (x1 * 2 ^ 25 % 2 ^ 64) in
    let x3 = bit_xor x2 (x2 / 2 ^ 27) in (x3, x3 * 2685821657736338717 % 2 ^ 64)

-- A number below `n`; an `int` has 64 bits.
unfoldable pub int_n : ℕ → ℕ → ℕ × ℕ
int_n state n =
    if leb n 1
    then (state, 0)
    else (let (after, value) = next state in
        let v = value % n in (after, if ltb (2 ^ 63 - 1) v then n - 1 else v))

-- The generator's new state and the percentage to take off.
unfoldable pub jitter_percent : ℕ → ℕ → ℕ × ℕ
jitter_percent detect_mult rng =
    if detect_mult == 1 then (let (after, r) = int_n rng 16 in (after, 10 + r)) else int_n rng 26

-- The generator's new state and the shortened interval.
unfoldable pub apply_jitter_with_rand : ℕ → ℕ → ℕ → ℕ × ℕ
apply_jitter_with_rand interval detect_mult rng =
    let (after, percent) = jitter_percent detect_mult rng in
    (after, interval - mul_int64 interval percent / 100)

unfoldable pub apply_jitter : ℕ → ℕ → ℕ → ℕ × ℕ
apply_jitter interval detect_mult rng =
    if interval == 0 then (rng, interval) else apply_jitter_with_rand interval detect_mult rng

int_n-lt : (state n : ℕ) → 0 < n → (int_n state n).1 < n
unfolding int_n
int_n-lt state n h = ground (arith, mod-lt (next state).1 h)

percent_range :
    (m rng : ℕ) → ((jitter_percent m rng).1 ≤ 25) × (m ≡ 1 → 10 ≤ (jitter_percent m rng).1)
unfolding jitter_percent
percent_range m rng = ground (arith, int_n-lt rng 16, int_n-lt rng 26)

-- What taking off a percentage from 0 to 25 leaves.
reduction :
    (interval p : ℕ)
    → interval < 2 ^ 55
    → p ≤ 25
    → let d = interval - mul_int64 interval p / 100 in
      (d ≤ interval) × (3 * interval ≤ 4 * d) × (10 ≤ p → 10 * d ≤ 9 * interval + 9)
reduction interval p h le =
    let hi : interval * p ≤ interval * 25 = grind arith in
    let lo : 10 ≤ p → interval * 10 ≤ interval * p = λ t. grind arith in
    (omega arith, omega arith, λ t. omega (arith, lo t))

-- For every generator state and every interval below 2^55 nanoseconds (about a year): the result is
-- at most the interval and at least three quarters of it; with a detect multiplier of 1 it is, up
-- to the truncation of one nanosecond, at most nine tenths.
pub apply_jitter_bounds :
    (interval m rng : ℕ)
    → interval < 2 ^ 55
    → let d = (apply_jitter interval m rng).1 in
      (d ≤ interval) × (3 * interval ≤ 4 * d) × (m ≡ 1 → 10 * d ≤ 9 * interval + 9)
unfolding apply_jitter apply_jitter_with_rand
apply_jitter_bounds interval m rng h =
    let (top, low) = percent_range m rng in
    let (a, b, c) = reduction interval (jitter_percent m rng).1 h top in
    ground (arith, a, b, c, low)

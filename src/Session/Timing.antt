-- ===== src/Session/Timing.antt =====
-- Timer negotiation: the interval and detection-time functions of internal/bfd/session_packet.go,
-- in the variants for readers outside the goroutine and for the goroutine itself.
use gobfd.Common.{
  ℕ, ◌*◌, ◌^◌, ◌<◌, ◌≤◌, ◌≡◌, ◌≢◌, inl, inr, Bool-cases, refl, arith, not, ◌&&◌, max, ltb, ◌==◌,
  if◌then◌else◌,
}
use gobfd.Packet.{State, up, reserved}
use gobfd.Duration.{mul_int64}
use gobfd.Jitter.{apply_jitter}
use gobfd.Fsm.{state_eq}
use gobfd.Session.{Session, slow_tx_interval, max_wire_interval}

-- The slow rate of RFC 5880 section 6.8.3 while the session is not up.
abbrev pub desired_interval : State → ℕ → ℕ
desired_interval st desired =
    if not (state_eq st up) && ltb desired slow_tx_interval then slow_tx_interval else desired

unfoldable pub calc_tx_interval : Session → ℕ
calc_tx_interval s = max (desired_interval s.state s.desired_min_tx) s.remote_min_rx

unfoldable pub calc_tx_interval_hot : Session → ℕ
calc_tx_interval_hot s = max (desired_interval s.cached_state s.desired_min_tx) s.remote_min_rx

unfoldable pub calc_detection_time : Session → ℕ
calc_detection_time s =
    if s.remote_detect_mult == 0
    then mul_int64 (calc_tx_interval s) s.detect_mult
    else mul_int64 (max s.required_min_rx s.remote_desired_min_tx) s.remote_detect_mult

unfoldable pub calc_detection_time_hot : Session → ℕ
calc_detection_time_hot s =
    if s.remote_detect_mult == 0
    then mul_int64 (calc_tx_interval_hot s) s.detect_mult
    else mul_int64 (max s.required_min_rx s.remote_desired_min_tx) s.remote_detect_mult

-- `txTimer.Reset(s.applyJitter(s.calcTxIntervalHot()))`.
unfoldable pub reset_tx_timer : Session → Session
reset_tx_timer s =
    let (rng, interval) = apply_jitter (calc_tx_interval_hot s) s.detect_mult s.jitter_rng in
    record s { jitter_rng = rng; tx_timer = interval }

unfoldable pub reset_detect_timer : Session → Session
reset_detect_timer s = record s { detect_timer = calc_detection_time_hot s }

-- The intervals and multipliers of a session lie in the ranges that the configuration check and
-- the wire format give them.
pub record HasWireTimers (s : Session) : Type 0 where
  pub desired_fits : s.desired_min_tx ≤ max_wire_interval
  pub required_fits : s.required_min_rx ≤ max_wire_interval
  pub remote_required_fits : s.remote_min_rx ≤ max_wire_interval
  pub remote_desired_fits : s.remote_desired_min_tx ≤ max_wire_interval
  pub mult_fits : s.detect_mult < 256
  pub remote_mult_fits : s.remote_detect_mult < 256

product : (i m : ℕ) → i ≤ max_wire_interval → m < 256 → (mul_int64 i m ≡ i * m) × (i * m < 2 ^ 63)
product i m h k =
    let le : i * m ≤ max_wire_interval * 256 = grind arith in (omega arith, omega arith)

pub desired_interval_floor :
    (st : State) (d : ℕ)
    → (d ≤ desired_interval st d) × (st ≢ up → slow_tx_interval ≤ desired_interval st d)
desired_interval_floor up d = (omega arith, λ n. absurd (n refl))
desired_interval_floor (reserved k) d = (ground arith, λ n. ground arith)
desired_interval_floor _ d = (ground arith, λ n. ground arith)

desired_interval_ceiling :
    (st : State) (d : ℕ) → d ≤ max_wire_interval → desired_interval st d ≤ max_wire_interval
desired_interval_ceiling st d h = ground arith

calc_tx_interval_hot-le :
    (s : Session) → HasWireTimers s → calc_tx_interval_hot s ≤ max_wire_interval
unfolding calc_tx_interval_hot
calc_tx_interval_hot-le s w =
    omega (arith, desired_interval_ceiling s.cached_state s.desired_min_tx w.desired_fits)

-- For intervals and multipliers in the ranges of the wire, the detection time does not overflow
-- the int64 of a Duration: before the first packet it is the local multiplier times the transmit
-- interval, and afterwards the remote multiplier times the larger of the local receive interval
-- and the remote transmit interval.
pub calc_detection_time_hot_exact :
    (s : Session)
    → HasWireTimers s
    → (calc_detection_time_hot s < 2 ^ 63)
      × (s.remote_detect_mult ≡ 0
          → calc_detection_time_hot s ≡ calc_tx_interval_hot s * s.detect_mult)
      × (0 < s.remote_detect_mult
          → calc_detection_time_hot s
            ≡ max s.required_min_rx s.remote_desired_min_tx * s.remote_detect_mult)
unfolding calc_detection_time_hot
calc_detection_time_hot_exact s w =
    let first =
      product (calc_tx_interval_hot s) s.detect_mult (calc_tx_interval_hot-le s w) w.mult_fits in
    let later =
      product (max s.required_min_rx s.remote_desired_min_tx) s.remote_detect_mult (omega arith)
        w.remote_mult_fits in
    elim (Bool-cases (s.remote_detect_mult == 0)) [
      | inl none_yet ↦
          rw (none_yet, calc_detection_time_hot)
            (omega (arith, first), λ e. first.0, λ e. absurd (ground arith))
      | inr heard ↦
          rw (heard, calc_detection_time_hot)
            (omega (arith, later), λ e. absurd (ground arith), λ e. later.0)
    ]

-- The rate of RFC 5880 section 6.8.3 and 6.8.7: the transmit interval is never below the remote
-- receive interval or the local one, and never below a second while the session is not up.
pub calc_tx_interval_hot_floor :
    (s : Session)
    → (s.remote_min_rx ≤ calc_tx_interval_hot s)
      × (s.desired_min_tx ≤ calc_tx_interval_hot s)
      × (s.cached_state ≢ up → slow_tx_interval ≤ calc_tx_interval_hot s)
unfolding calc_tx_interval_hot
calc_tx_interval_hot_floor s =
    let (d, slow) = desired_interval_floor s.cached_state s.desired_min_tx in
    (omega arith, omega (arith, d), λ n. omega (arith, slow n))

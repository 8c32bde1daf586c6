-- ===== src/Session/Announced.antt =====
-- What a session announces in its packets, after RFC 5880 section 6.8.7: buildControlPacket of
-- internal/bfd/session_packet.go.
use gobfd.Common.{ℕ, ◌/◌, ◌%◌, ◌^◌, ◌≡◌, ◌≢◌, refl, arith, none, false, max}
use gobfd.Packet.{State, up, reserved, ControlPacket}
use gobfd.Duration.{microseconds_from_duration}
use gobfd.Session.{Session}
use gobfd.Session.Timing.{desired_interval}
use gobfd.Session.Transmit.{control_packet}

-- The fields of the packet. Intervals are microseconds in 32 bits; a session that is not Up announces
-- no less than one second as its Desired Min TX Interval.
pub record Announces (s : Session) (pkt : ControlPacket) : Type 0 where
  pub version_one : pkt.pkt_version ≡ 1
  pub own_diag : pkt.diag ≡ s.local_diag
  pub own_state : pkt.state ≡ s.cached_state
  pub polls : pkt.poll ≡ s.poll_active
  pub answers : pkt.final ≡ s.pending_final
  pub no_section : (pkt.auth_present ≡ false) × (pkt.auth ≡ none)
  pub no_demand : (pkt.demand ≡ false) × (pkt.multipoint ≡ false)
  pub own_mult : pkt.detect_mult ≡ s.detect_mult
  pub own_discr : pkt.my_discriminator ≡ s.local_discr
  pub peer_discr : pkt.your_discriminator ≡ s.remote_discr
  pub desired_up :
      s.cached_state ≡ up → pkt.desired_min_tx_interval ≡ s.desired_min_tx / 1000 % 2 ^ 32
  pub desired_slow :
      s.cached_state ≢ up
      → pkt.desired_min_tx_interval ≡ max 1000_000_000 s.desired_min_tx / 1000 % 2 ^ 32
  pub required : pkt.required_min_rx_interval ≡ s.required_min_rx / 1000 % 2 ^ 32
  pub no_echo : pkt.required_min_echo_rx_interval ≡ 0

interval_slow : (st : State) (d : ℕ) → st ≢ up → desired_interval st d ≡ max 1000_000_000 d
interval_slow up d n = absurd (n refl)
interval_slow (reserved k) d n = ground arith
interval_slow _ d n = ground arith

interval_up : (st : State) (d : ℕ) → st ≡ up → desired_interval st d ≡ d
interval_up st d e = rw e refl

pub control_packet-Announces :
    (s : Session) (n : ℕ) → Announces s (record (control_packet s) { length_field = n })
unfolding control_packet microseconds_from_duration
control_packet-Announces s n = record {
  version_one = refl;
  own_diag = refl;
  own_state = refl;
  polls = refl;
  answers = refl;
  no_section = (refl, refl);
  no_demand = (refl, refl);
  own_mult = refl;
  own_discr = refl;
  peer_discr = refl;
  desired_up = λ e. rw (interval_up s.cached_state s.desired_min_tx e) refl;
  desired_slow = λ e. rw (interval_slow s.cached_state s.desired_min_tx e) refl;
  required = refl;
  no_echo = refl;
}

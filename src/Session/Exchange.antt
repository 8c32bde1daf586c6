-- ===== src/Session/Exchange.antt =====
-- What one session says and another takes in: the transmissions of internal/bfd/session_loop.go over
-- a path that carries the latest buffer.
use gobfd.Common.{ℕ, ◌≡◌, ◌≢◌, refl, ap, ◌∙◌, arith, List, [], ◌∷◌, false, Result, ok, err}
use gobfd.Packet.{State, ControlPacket, Error}
use gobfd.Packet.Unmarshal.{unmarshal_control_packet}
use gobfd.Duration.{microseconds_from_duration}
use gobfd.Session.{Session, active, Env}
use gobfd.Session.Timing.{reset_tx_timer}
use gobfd.Session.Transmit.{control_packet, send_control, maybe_send_control}
use gobfd.Session.Loop.{packet, tx_fired, step, handle_tx_timer}
use gobfd.Session.Wire.{send_control_decodes}
use gobfd.Session.Sound.{IsSound}
use gobfd.Session.Reception.{IsReceived}

abbrev pub receive : Env → Result Error ControlPacket → List ℕ → Session → Session
receive env (err e) bytes s = s
receive env (ok pkt) bytes s = step env (packet pkt bytes) s

-- The receiver takes a buffer in.
abbrev pub take_in : Env → List (List ℕ) → Session → Session
take_in env [] s = s
take_in env (bytes ∷ rest) s = receive env (unmarshal_control_packet bytes) bytes s

-- The network carries the sender's latest buffer to the receiver.
unfoldable pub deliver : Env → Session → Session → Session
deliver env from to = take_in env from.sent to

-- The latest buffer decodes to an acceptable packet without authentication that reports `st`.
pub record Says (st : State) (s : Session) : Type 0 where
  pub bytes : List ℕ
  pub earlier : List (List ℕ)
  pub pkt : ControlPacket
  pub latest : s.sent ≡ bytes ∷ earlier
  pub decodes : unmarshal_control_packet bytes ≡ ok pkt
  pub reports : pkt.state ≡ st
  pub unsigned : pkt.auth_present ≡ false
  pub acceptable : IsReceived pkt

pub send_control-Says :
    (env : Env) (s : Session) → IsSound s → Says s.cached_state (send_control env s)
unfolding control_packet microseconds_from_duration
send_control-Says env s i =
    let (bytes, sent_, decodes, l, z, says) = send_control_decodes env s i.can_send in
    let c = i.can_send in
    record {
      bytes = bytes;
      earlier = s.sent;
      pkt = record (control_packet s) { length_field = 24 };
      latest = sent_;
      decodes = decodes;
      reports = refl;
      unsigned = refl;
      acceptable = record {
        sender_set = c.local_set;
        sender_fits = c.local_fits;
        desired_low = omega arith;
        required_low = omega arith;
        mult_low = c.mult_fits;
        state_named = c.named;
      };
    }

pub resent : (st : State) (s t : Session) → t.sent ≡ s.sent → Says st s → Says st t
resent st s t e w = record {
  bytes = w.bytes;
  earlier = w.earlier;
  pkt = w.pkt;
  latest = e ∙ w.latest;
  decodes = w.decodes;
  reports = w.reports;
  unsigned = w.unsigned;
  acceptable = w.acceptable;
}

pub allowed :
    (env : Env) (s : Session)
    → s.role ≡ active
    → s.remote_min_rx ≢ 0
    → maybe_send_control env s ≡ send_control env s
unfolding maybe_send_control
allowed env s r m = ground (arith, r, m)

pub tx-Says :
    (env : Env) (s : Session)
    → IsSound s
    → s.role ≡ active
    → s.remote_min_rx ≢ 0
    → Says s.cached_state (step env tx_fired s)
unfolding step handle_tx_timer reset_tx_timer
tx-Says env s i r m =
    resent s.cached_state (send_control env s) (step env tx_fired s)
      (ap (λ x. x.sent) (allowed env s r m)) (send_control-Says env s i)

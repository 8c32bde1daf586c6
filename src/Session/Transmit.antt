-- ===== src/Session/Transmit.antt =====
-- Transmission: buildControlPacket, rebuildCachedPacket and signCachedPacket of
-- internal/bfd/session_packet.go, sendControl and maybeSendControl of session_loop.go.
use gobfd.Common.{
  ℕ, ◌+◌, ◌-◌, ◌%◌, ◌^◌, List, ◌∷◌, Option, none, some, Bool, true, false, ◌&&◌, ltb, ◌==◌,
  if◌then◌else◌, length, take, get_or, replicate, write_at,
}
use gobfd.Packet.{ControlPacket, version}
use gobfd.Packet.Marshal.{marshal_control_packet}
use gobfd.Auth.Sign.{Signed, sign}
use gobfd.Duration.{microseconds_from_duration}
use gobfd.Session.{Session, Security, SessionRole, passive, Env}
use gobfd.Session.Timing.{desired_interval}

-- The packet alone; the code also clears `pendingFinal`.
unfoldable pub control_packet : Session → ControlPacket
control_packet s = record {
  pkt_version = version;
  diag = s.local_diag;
  state = s.cached_state;
  poll = s.poll_active;
  final = s.pending_final;
  control_plane_independent = false;
  auth_present = false;
  demand = false;
  multipoint = false;
  detect_mult = s.detect_mult;
  length_field = 0;
  my_discriminator = s.local_discr;
  your_discriminator = s.remote_discr;
  desired_min_tx_interval =
      microseconds_from_duration (desired_interval s.cached_state s.desired_min_tx);
  required_min_rx_interval = microseconds_from_duration s.required_min_rx;
  required_min_echo_rx_interval = 0;
  auth = none;
}

unfoldable pub build_control_packet : Session → Session × ControlPacket
build_control_packet s = (record s { pending_final = false }, control_packet s)

-- `signCachedPacket`: the authenticator's state is kept even where signing fails, and so is what it
-- wrote into the buffer.
unfoldable pub store_signed : Session → Security → Signed → Session
store_signed s sec signed =
    let s' = record s {
      security = some (record sec { auth_state = signed.new_state });
      cached_packet = signed.buffer;
    } in
    elim signed.error [
      | some e ↦ s'
      | none ↦ record s' {
        cached_packet = (marshal_control_packet signed.signed_packet signed.buffer).0;
      }
    ]

unfoldable pub sign_cached_packet : Env → Security → ControlPacket → Session → Session
sign_cached_packet env sec pkt s =
    store_signed s sec
      (sign env.crypto sec.authenticator sec.auth_state sec.key_store pkt s.cached_packet)

-- The branch on `s.auth`.
unfoldable pub cache_packet : Env → Option Security → ControlPacket → Session → Session
cache_packet env none pkt s = record s {
  cached_packet = (marshal_control_packet pkt s.cached_packet).0;
}
cache_packet env (some sec) pkt s = sign_cached_packet env sec pkt s

unfoldable pub rebuild_cached_packet : Env → Session → Session
rebuild_cached_packet env s =
    let (s', pkt) = build_control_packet s in cache_packet env s'.security pkt s'

-- `cachedPacket[:sendLen]`, with the padding of RFC 9764 cleared. Byte 3 is the Length field.
unfoldable pub pad_cached_packet : Session → Session × List ℕ
pad_cached_packet s =
    let pkt_len = get_or s.cached_packet 3 0 in
    if ltb 0 s.padded_pdu_size && ltb pkt_len s.padded_pdu_size
    then (let padded =
          write_at pkt_len (replicate (s.padded_pdu_size - pkt_len) 0) s.cached_packet in
        (record s { cached_packet = padded }, take s.padded_pdu_size padded))
    else (s, take pkt_len s.cached_packet)

-- The call of the sender; the counter is a uint64.
unfoldable pub hand_over : Env → List ℕ → Session → Session
hand_over env bytes s =
    let s' = record s { sent = bytes ∷ s.sent } in
    if env.send_ok (length s.sent) bytes
    then record s' { packets_sent = (s.packets_sent + 1) % 2 ^ 64 }
    else s'

unfoldable pub send_control : Env → Session → Session
send_control env s =
    let (s', bytes) = pad_cached_packet (rebuild_cached_packet env s) in hand_over env bytes s'

abbrev pub is_passive : SessionRole → Bool
is_passive passive = true
is_passive _ = false

unfoldable pub maybe_send_control : Env → Session → Session
maybe_send_control env s =
    if is_passive s.role && s.remote_discr == 0
    then s
    else if s.remote_min_rx == 0
    then s
    else send_control env s

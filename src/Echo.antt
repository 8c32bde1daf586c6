-- ===== src/Echo.antt =====
-- Echo sessions: internal/bfd/echo.go. The record holds the fields of `EchoSession` and what its
-- goroutine works with: the two timers and the packets handed to the sender. The receive channel of
-- signals is the number of those that wait in it.
pub mod Create
pub mod Signals
pub mod Wire
use gobfd.Common.{
  ℕ, ◌+◌, ◌-◌, ◌%◌, ◌^◌, List, [], ◌∷◌, Option, none, some, Bool, true, false, not, ltb, ◌==◌,
  if◌then◌else◌, length, take, get_or, replicate, Result, ok, err, ◌>>=◌, ◌>>◌, guard,
}
use gobfd.Netip.{Addr, is_valid}
use gobfd.Packet.{
  State, down, up, ControlPacket, version, max_packet_size, diag_none, diag_echo_failed,
}
use gobfd.Packet.Marshal.{marshal_control_packet}
use gobfd.Fsm.{state_eq}
use gobfd.Duration.{ℤ, pos_part, not_positive, mul_int64, microseconds_from_duration}
use gobfd.Jitter.{apply_jitter}
use gobfd.Session.{StateChange, Channel, Env, other_type}
use gobfd.Session.Receive.{emit}

pub record EchoSessionConfig : Type 0 where
  pub echo_peer_addr : Addr
  pub echo_local_addr : Addr
  pub echo_interface : ℕ
  pub echo_tx_interval : ℤ
  pub echo_detect_multiplier : ℕ

pub data EchoError : Type 0 where
  invalid_discriminator invalid_detect_mult invalid_echo_tx_interval invalid_echo_peer_addr :
      EchoError

abbrev pub echo_recv_ch_size : ℕ
echo_recv_ch_size = 16

pub record EchoSession : Type 0 where
  pub state : State
  pub local_diag : ℕ
  pub local_discr : ℕ
  pub peer_addr : Addr
  pub local_addr : Addr
  pub if_name : ℕ
  pub tx_interval : ℕ
  pub detect_mult : ℕ
  pub recv_ch : ℕ
  pub notify_ch : Option Channel
  pub cached_packet : List ℕ
  pub echos_sent : ℕ
  pub echos_received : ℕ
  pub state_transitions : ℕ
  pub last_state_change : ℕ
  pub last_echo_recv : ℕ
  -- The intervals that the timers were last reset to.
  pub tx_timer : ℕ
  pub detect_timer : ℕ
  -- The buffers handed to the sender, the latest first.
  pub sent : List (List ℕ)

unfoldable pub validate_echo_config : EchoSessionConfig → ℕ → Result EchoError (Unit {0})
validate_echo_config cfg local_discr = do
  guard (not (local_discr == 0)) invalid_discriminator
  guard (not (ltb cfg.echo_detect_multiplier 1)) invalid_detect_mult
  guard (not (not_positive cfg.echo_tx_interval)) invalid_echo_tx_interval
  guard (is_valid cfg.echo_peer_addr) invalid_echo_peer_addr

unfoldable pub echo_packet : EchoSession → ControlPacket
echo_packet es = record {
  pkt_version = version;
  diag = es.local_diag;
  state = es.state;
  poll = false;
  final = false;
  control_plane_independent = false;
  auth_present = false;
  demand = false;
  multipoint = false;
  detect_mult = es.detect_mult;
  length_field = 0;
  my_discriminator = es.local_discr;
  your_discriminator = if state_eq es.state up then es.local_discr else 0;
  desired_min_tx_interval = microseconds_from_duration es.tx_interval;
  required_min_rx_interval = 0;
  required_min_echo_rx_interval = 0;
  auth = none;
}

-- An error of the encoder is logged, and the buffer is as it left it.
unfoldable pub rebuild_cached_packet : EchoSession → EchoSession
rebuild_cached_packet es = record es {
  cached_packet = (marshal_control_packet (echo_packet es) es.cached_packet).0;
}

-- The struct literal, and the two stores behind it.
unfoldable pub initial_echo_session : EchoSessionConfig → ℕ → Option Channel → EchoSession
initial_echo_session cfg local_discr notify = record {
  state = down;
  local_diag = diag_none;
  local_discr = local_discr;
  peer_addr = cfg.echo_peer_addr;
  local_addr = cfg.echo_local_addr;
  if_name = cfg.echo_interface;
  tx_interval = pos_part cfg.echo_tx_interval;
  detect_mult = cfg.echo_detect_multiplier;
  recv_ch = 0;
  notify_ch = notify;
  cached_packet = replicate max_packet_size 0;
  echos_sent = 0;
  echos_received = 0;
  state_transitions = 0;
  last_state_change = 0;
  last_echo_recv = 0;
  tx_timer = 0;
  detect_timer = 0;
  sent = [];
}

unfoldable pub new_echo_session :
    EchoSessionConfig → ℕ → Option Channel → Result EchoError EchoSession
new_echo_session cfg local_discr notify = do
  validate_echo_config cfg local_discr
  ok (rebuild_cached_packet (initial_echo_session cfg local_discr notify))

unfoldable pub detection_time : EchoSession → ℕ
detection_time es = mul_int64 es.tx_interval es.detect_mult

-- A full channel drops the signal.
unfoldable pub recv_echo : EchoSession → EchoSession
recv_echo es =
    if ltb es.recv_ch echo_recv_ch_size then record es { recv_ch = es.recv_ch + 1 } else es

-- The fields that the source leaves out of the change have their zero values.
abbrev pub echo_change : Env → State → State → ℕ → EchoSession → StateChange
echo_change env old new diag es = record {
  change_discr = es.local_discr;
  change_peer = es.peer_addr;
  change_old = old;
  change_new = new;
  change_diag = diag;
  change_time = env.now;
  change_type = other_type;
  change_interface = 0;
}

unfoldable pub emit_notification : Env → State → State → ℕ → EchoSession → EchoSession
unfolding emit
emit_notification env old new diag es = record es {
  notify_ch = emit (echo_change env old new diag es) es.notify_ch;
}

unfoldable pub transition_to : Env → State → ℕ → EchoSession → EchoSession
transition_to env new diag es =
    if state_eq es.state new
    then es
    else emit_notification env es.state new diag (record es {
      state = new;
      local_diag = diag;
      state_transitions = (es.state_transitions + 1) % 2 ^ 64;
      last_state_change = env.now;
    })

unfoldable pub handle_echo_recv : Env → EchoSession → EchoSession
handle_echo_recv env es =
    let es' = record es {
      echos_received = (es.echos_received + 1) % 2 ^ 64;
      last_echo_recv = env.now;
      detect_timer = detection_time es;
    } in
    if state_eq es.state down then transition_to env up diag_none es' else es'

-- The timer is reset behind the transition.
abbrev pub reset_detect_timer : EchoSession → EchoSession
reset_detect_timer es = record es { detect_timer = detection_time es }

unfoldable pub handle_detect_timeout : Env → EchoSession → EchoSession
handle_detect_timeout env es =
    reset_detect_timer
      (if state_eq es.state up then transition_to env down diag_echo_failed es else es)

-- The call of the sender with the bytes that the Length field counts.
abbrev pub hand_over : Env → List ℕ → EchoSession → EchoSession
hand_over env bytes es =
    let es' = record es { sent = bytes ∷ es.sent } in
    if env.send_ok (length es.sent) bytes
    then record es' { echos_sent = (es.echos_sent + 1) % 2 ^ 64 }
    else es'

unfoldable pub send_echo : Env → EchoSession → EchoSession
send_echo env es =
    let es' = rebuild_cached_packet es in
    hand_over env (take (get_or es'.cached_packet 3 0) es'.cached_packet) es'

-- ApplyJitter makes a generator of its own, from the seed that the random source gives.
abbrev pub reset_tx_timer : ℕ → EchoSession → EchoSession
reset_tx_timer seed es = record es {
  tx_timer = (apply_jitter es.tx_interval es.detect_mult seed).1;
}

-- What the select of echoRunLoop receives.
pub data Input : Type 0 where
  returned detect_fired : Input
  tx_fired : ℕ → Input

-- A signal is taken out of the channel; the select does not choose an empty one.
unfoldable pub step : Env → Input → EchoSession → EchoSession
step env returned es =
    if ltb 0 es.recv_ch then handle_echo_recv env (record es { recv_ch = es.recv_ch - 1 }) else es
step env (tx_fired seed) es = reset_tx_timer seed (send_echo env es)
step env detect_fired es = handle_detect_timeout env es

unfoldable pub start : ℕ → EchoSession → EchoSession
start seed es = reset_detect_timer (reset_tx_timer seed es)

-- The events of a session's life: what the goroutine receives, and the calls of RecvEcho.
pub data Event : Type 0 where
  input : Env → Input → Event
  recv : Event

unfoldable pub on : Event → EchoSession → EchoSession
on (input env i) es = step env i es
on recv es = recv_echo es

unfoldable pub run_loop : List Event → EchoSession → EchoSession
run_loop [] es = es
run_loop (e ∷ rest) es = run_loop rest (on e es)

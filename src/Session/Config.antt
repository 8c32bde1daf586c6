-- ===== src/Session/Config.antt =====
-- Creation of a session: NewSession, validateSessionConfig, validateSessionAuthConfig and initAuth
-- of internal/bfd/session.go.
use gobfd.Common.{
  ℕ, [], Option, none, some, Bool, true, false, not, ◌&&◌, ◌||◌, ltb, leb, ◌==◌, if◌then◌else◌,
  replicate, Result, ok, err, ◌>>◌, guard,
}
use gobfd.Packet.{down, auth_type_code, header_size, max_packet_size, diag_none}
use gobfd.Auth.{Authenticator, KeyStore, authenticator_type, new_auth_state}
use gobfd.Duration.{pos_part, not_positive}
use gobfd.Session.{
  SessionType, single_hop, multi_hop, micro_bfd, vxlan, geneve, SessionRole, other_role,
  SessionConfig, Channel, Security, Session, Env, max_padded_pdu_size, max_wire_interval,
  initial_remote_min_rx,
}
use gobfd.Session.Transmit.{rebuild_cached_packet}

pub data ConfigError : Type 0 where
  invalid_detect_mult invalid_tx_interval invalid_rx_interval invalid_wire_interval : ConfigError
  invalid_session_type invalid_session_role invalid_discriminator invalid_padded_pdu_size :
      ConfigError
  missing_auth_key_store auth_key_type_mismatch : ConfigError

unfoldable pub is_valid_session_type : SessionType → Bool
is_valid_session_type single_hop = true
is_valid_session_type multi_hop = true
is_valid_session_type micro_bfd = true
is_valid_session_type vxlan = true
is_valid_session_type geneve = true
is_valid_session_type _ = false

abbrev pub is_valid_role : SessionRole → Bool
is_valid_role other_role = false
is_valid_role _ = true

unfoldable pub validate_session_auth_config :
    Option Authenticator → Option KeyStore → Result ConfigError (Unit {0})
validate_session_auth_config none keys = ok tt
validate_session_auth_config (some auth) none = err missing_auth_key_store
validate_session_auth_config (some auth) (some store) =
    guard (auth_type_code store.current_key.key_type == auth_type_code (authenticator_type auth))
      auth_key_type_mismatch

unfoldable pub validate_session_config : SessionConfig → ℕ → Result ConfigError (Unit {0})
unfolding is_valid_session_type validate_session_auth_config
validate_session_config cfg local_discr = do
  guard (leb 1 cfg.cfg_detect_multiplier) invalid_detect_mult
  guard (not (not_positive cfg.cfg_desired_min_tx)) invalid_tx_interval
  guard (not (not_positive cfg.cfg_required_min_rx)) invalid_rx_interval
  guard (leb (pos_part cfg.cfg_desired_min_tx) max_wire_interval) invalid_wire_interval
  guard (leb (pos_part cfg.cfg_required_min_rx) max_wire_interval) invalid_wire_interval
  guard (is_valid_session_type cfg.cfg_type) invalid_session_type
  guard (is_valid_role cfg.cfg_role) invalid_session_role
  guard (not (local_discr == 0)) invalid_discriminator
  guard
      (cfg.cfg_padded_pdu_size == 0
        || (leb header_size cfg.cfg_padded_pdu_size
            && leb cfg.cfg_padded_pdu_size max_padded_pdu_size))
      invalid_padded_pdu_size
  validate_session_auth_config cfg.cfg_auth cfg.cfg_auth_keys

-- `initAuth`; a configuration that passed the check has both or the keys alone.
abbrev pub init_auth : Option Authenticator → Option KeyStore → ℕ → Option Security
init_auth (some auth) (some store) random = some (record {
  authenticator = auth;
  key_store = store;
  auth_state = new_auth_state (authenticator_type auth) random;
})
init_auth _ _ random = none

abbrev pub buffer_size : ℕ → ℕ
buffer_size padded = if ltb max_packet_size padded then padded else max_packet_size

-- The struct literal, and the three stores behind it.
unfoldable pub initial_session : SessionConfig → ℕ → Option Channel → ℕ → ℕ → Session
initial_session cfg local_discr notify seed random = record {
  state = down;
  cached_state = down;
  remote_state = down;
  local_diag = diag_none;
  local_discr = local_discr;
  remote_discr = 0;
  desired_min_tx = pos_part cfg.cfg_desired_min_tx;
  required_min_rx = pos_part cfg.cfg_required_min_rx;
  remote_min_rx = initial_remote_min_rx;
  remote_desired_min_tx = 0;
  remote_detect_mult = 0;
  detect_mult = cfg.cfg_detect_multiplier;
  remote_demand_mode = false;
  poll_active = false;
  pending_final = false;
  pending_desired_min_tx = 0;
  pending_required_min_rx = 0;
  session_type = cfg.cfg_type;
  role = cfg.cfg_role;
  peer_addr = cfg.cfg_peer_addr;
  local_addr = cfg.cfg_local_addr;
  interface = cfg.cfg_interface;
  cached_packet = replicate (buffer_size cfg.cfg_padded_pdu_size) 0;
  padded_pdu_size = cfg.cfg_padded_pdu_size;
  security = init_auth cfg.cfg_auth cfg.cfg_auth_keys random;
  packets_sent = 0;
  packets_received = 0;
  state_transitions = 0;
  last_state_change = 0;
  last_packet_recv = 0;
  jitter_rng = seed;
  tx_timer = 0;
  detect_timer = 0;
  sent = [];
  notify_ch = notify;
}

-- `seed` and `random` are what the random sources gave.
unfoldable pub new_session :
    Env → SessionConfig → ℕ → Option Channel → ℕ → ℕ → Result ConfigError Session
new_session env cfg local_discr notify seed random = do
  validate_session_config cfg local_discr
  ok (rebuild_cached_packet env (initial_session cfg local_discr notify seed random))

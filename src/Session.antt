-- ===== src/Session.antt =====
-- The state of a BFD session: internal/bfd/session.go. The record holds the fields of `Session` and
-- what its goroutine works with: the two timers, the packets handed to the sender and the channel of
-- notifications. An interface name is a number, 0 the
-- empty one.
pub mod Config
pub mod Timing
pub mod Transmit
pub mod Receive
pub mod Frame
pub mod States
pub mod Protocol
pub mod Traces
pub mod Announced
pub mod Wire
pub mod Poll
pub mod Exchange
pub mod Handshake
pub mod Stale
pub mod Create
pub mod Reception
pub mod Life
pub mod Sound
pub mod Invariant
pub mod Loop
pub mod Endpoint
pub mod Identity
use gobfd.Common.{ℕ, ◌*◌, ◌-◌, ◌^◌, List, Option, Bool}
use gobfd.Packet.{State, ControlPacket}
use gobfd.Auth.{Authenticator, KeyStore, AuthState, Crypto}
use gobfd.Netip.{Addr}
use gobfd.Duration.{ℤ, second, microsecond}

-- A `SessionType` is a uint8; `other_type` stands for the values with no name.
pub data SessionType : Type 0 where
  single_hop multi_hop echo_session micro_bfd vxlan geneve other_type : SessionType

-- A `SessionRole` is a uint8; `other_role` stands for the values with no name.
pub data SessionRole : Type 0 where
  active passive other_role : SessionRole

pub record SessionConfig : Type 0 where
  pub cfg_peer_addr : Addr
  pub cfg_local_addr : Addr
  pub cfg_interface : ℕ
  pub cfg_type : SessionType
  pub cfg_role : SessionRole
  pub cfg_desired_min_tx : ℤ
  pub cfg_required_min_rx : ℤ
  pub cfg_detect_multiplier : ℕ
  pub cfg_auth : Option Authenticator
  pub cfg_auth_keys : Option KeyStore
  pub cfg_padded_pdu_size : ℕ

pub record StateChange : Type 0 where
  pub change_discr : ℕ
  pub change_peer : Addr
  pub change_old : State
  pub change_new : State
  pub change_diag : ℕ
  pub change_time : ℕ
  pub change_type : SessionType
  pub change_interface : ℕ

-- A buffered channel, the oldest item first.
pub record Channel : Type 0 where
  pub capacity : ℕ
  pub queue : List StateChange

-- The fields `auth`, `authKeys` and `authState`, which NewSession sets together.
pub record Security : Type 0 where
  pub authenticator : Authenticator
  pub key_store : KeyStore
  pub auth_state : AuthState

pub record Session : Type 0 where
  pub state : State
  pub cached_state : State
  pub remote_state : State
  pub local_diag : ℕ
  pub local_discr : ℕ
  pub remote_discr : ℕ
  pub desired_min_tx : ℕ
  pub required_min_rx : ℕ
  pub remote_min_rx : ℕ
  pub remote_desired_min_tx : ℕ
  pub remote_detect_mult : ℕ
  pub detect_mult : ℕ
  pub remote_demand_mode : Bool
  pub poll_active : Bool
  pub pending_final : Bool
  pub pending_desired_min_tx : ℕ
  pub pending_required_min_rx : ℕ
  pub session_type : SessionType
  pub role : SessionRole
  pub peer_addr : Addr
  pub local_addr : Addr
  pub interface : ℕ
  pub cached_packet : List ℕ
  pub padded_pdu_size : ℕ
  pub security : Option Security
  pub packets_sent : ℕ
  pub packets_received : ℕ
  pub state_transitions : ℕ
  pub last_state_change : ℕ
  pub last_packet_recv : ℕ
  pub jitter_rng : ℕ
  -- The intervals that the timers were last reset to.
  pub tx_timer : ℕ
  pub detect_timer : ℕ
  -- The buffers handed to the sender, the latest first.
  pub sent : List (List ℕ)
  pub notify_ch : Option Channel

-- What a handler is given from outside: the hash functions, the time in Unix nanoseconds, and
-- whether the sender accepts a buffer, which may depend on how many were sent before.
pub record Env : Type 0 where
  pub crypto : Crypto
  pub now : ℕ
  pub send_ok : ℕ → List ℕ → Bool

abbrev pub max_padded_pdu_size : ℕ
max_padded_pdu_size = 9000

abbrev pub max_wire_interval : ℕ
max_wire_interval = (2 ^ 32 - 1) * microsecond

abbrev pub slow_tx_interval : ℕ
slow_tx_interval = second

abbrev pub initial_remote_min_rx : ℕ
initial_remote_min_rx = microsecond

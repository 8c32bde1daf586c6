-- ===== src/Packet.antt =====
-- The BFD Control packet: internal/bfd/packet.go, types and constants. A byte is a number below
-- 256 and a byte slice is a list of bytes; every `uint8` and `uint32` field is a number.
pub mod Marshal
pub mod Unmarshal
pub mod Header
pub mod AuthBytes
pub mod Sizes
pub mod Validation
pub mod RoundTrip
use gobfd.Common.{ℕ, zero, suc, ◌+◌, List, Option, Bool}

-- A `State` is a uint8: `reserved n` is the value n + 4, which the wire cannot hold.
pub data State : Type 0 where
  admin_down down init up : State
  reserved : ℕ → State

abbrev pub state_code : State → ℕ
state_code admin_down = 0
state_code down = 1
state_code init = 2
state_code up = 3
state_code (reserved n) = n + 4

abbrev pub state_of_code : ℕ → State
state_of_code zero = admin_down
state_of_code (suc zero) = down
state_of_code (suc (suc zero)) = init
state_of_code (suc (suc (suc zero))) = up
state_of_code (suc (suc (suc (suc n)))) = reserved n

-- An `AuthType` is a uint8: `unknown n` is the value n + 6.
pub data AuthType : Type 0 where
  no_auth simple_password keyed_md5 meticulous_keyed_md5 keyed_sha1 meticulous_keyed_sha1 : AuthType
  unknown : ℕ → AuthType

abbrev pub auth_type_code : AuthType → ℕ
auth_type_code no_auth = 0
auth_type_code simple_password = 1
auth_type_code keyed_md5 = 2
auth_type_code meticulous_keyed_md5 = 3
auth_type_code keyed_sha1 = 4
auth_type_code meticulous_keyed_sha1 = 5
auth_type_code (unknown n) = n + 6

abbrev pub auth_type_of_code : ℕ → AuthType
auth_type_of_code zero = no_auth
auth_type_of_code (suc zero) = simple_password
auth_type_of_code (suc (suc zero)) = keyed_md5
auth_type_of_code (suc (suc (suc zero))) = meticulous_keyed_md5
auth_type_of_code (suc (suc (suc (suc zero)))) = keyed_sha1
auth_type_of_code (suc (suc (suc (suc (suc zero))))) = meticulous_keyed_sha1
auth_type_of_code (suc (suc (suc (suc (suc (suc n)))))) = unknown n

-- Diagnostic codes, a field of five bits.
abbrev pub diag_none : ℕ
diag_none = 0

abbrev pub diag_control_time_expired : ℕ
diag_control_time_expired = 1

abbrev pub diag_echo_failed : ℕ
diag_echo_failed = 2

abbrev pub diag_neighbor_down : ℕ
diag_neighbor_down = 3

abbrev pub diag_path_down : ℕ
diag_path_down = 5

abbrev pub diag_admin_down : ℕ
diag_admin_down = 7

abbrev pub version : ℕ
version = 1

abbrev pub header_size : ℕ
header_size = 24

abbrev pub max_packet_size : ℕ
max_packet_size = 64

abbrev pub min_packet_size_no_auth : ℕ
min_packet_size_no_auth = 24

abbrev pub min_packet_size_with_auth : ℕ
min_packet_size_with_auth = 26

abbrev pub auth_len_md5 : ℕ
auth_len_md5 = 24

abbrev pub auth_len_sha1 : ℕ
auth_len_sha1 = 28

abbrev pub md5_digest_size : ℕ
md5_digest_size = 16

abbrev pub sha1_digest_size : ℕ
sha1_digest_size = 20

abbrev pub simple_password_min_len : ℕ
simple_password_min_len = 1

abbrev pub simple_password_max_len : ℕ
simple_password_max_len = 16

abbrev pub auth_simple_header_size : ℕ
auth_simple_header_size = 3

pub record AuthSection : Type 0 where
  pub auth_type : AuthType
  pub len : ℕ
  pub key_id : ℕ
  pub auth_data : List ℕ
  pub sequence_number : ℕ
  pub digest : List ℕ

-- `Auth` is a pointer: `none` is nil.
pub record ControlPacket : Type 0 where
  pub pkt_version : ℕ
  pub diag : ℕ
  pub state : State
  pub poll : Bool
  pub final : Bool
  pub control_plane_independent : Bool
  pub auth_present : Bool
  pub demand : Bool
  pub multipoint : Bool
  pub detect_mult : ℕ
  pub length_field : ℕ
  pub my_discriminator : ℕ
  pub your_discriminator : ℕ
  pub desired_min_tx_interval : ℕ
  pub required_min_rx_interval : ℕ
  pub required_min_echo_rx_interval : ℕ
  pub auth : Option AuthSection

-- The sentinel errors. `panic` is no error value: an index out of range, which stops the goroutine.
pub data Error : Type 0 where
  invalid_version packet_too_short invalid_length length_exceeds_payload zero_detect_mult : Error
  multipoint_set zero_my_discriminator zero_your_discriminator buf_too_small : Error
  invalid_auth_type auth_section_truncated panic : Error

-- ===== src/Tests.antt =====
-- Concrete values for the tests: packets, a session, keys, and stand-ins for the hash functions.
pub mod Codec
pub mod Machine
pub mod Keys
pub mod Sessions
pub mod Parts
pub mod Managers
pub mod Overlays
pub mod Reloads
pub mod Configs
pub mod Bgp
use gobfd.Common.{
  ℕ, ◌≡◌, ◌∙◌, refl, List, [], ◌∷◌, none, some, true, false, length, take, replicate, write_at,
  length-write_at, ◌+◌, Bool,
}
use gobfd.Packet.{down, init, meticulous_keyed_md5, simple_password, AuthSection, ControlPacket}
use gobfd.Auth.{AuthKey, KeyStore, AuthState, Crypto}
use gobfd.Netip.{Addr}
use gobfd.Duration.{pos}
use gobfd.Session.{single_hop, active, SessionConfig, Session, Env}
use gobfd.Session.Config.{initial_session}
use gobfd.Session.Endpoint.{new_endpoint}
use gobfd.Unsolicited.{Prefix, UnsolicitedPolicy}
use gobfd.Manager.{Entry, Supply, Manager, new_manager, key_of}
use gobfd.Manager.Demux.{PacketMeta}

-- The first bytes of the input.
abbrev pub short_hash : ℕ → List ℕ → List ℕ
short_hash n bytes = write_at 0 (take n bytes) (replicate n 0)

pub length-short_md5 : (bytes : List ℕ) → length (short_hash 16 bytes) ≡ 16
length-short_md5 bytes = length-write_at 0 (take 16 bytes) (replicate 16 0)

pub length-short_sha1 : (bytes : List ℕ) → length (short_hash 20 bytes) ≡ 20
length-short_sha1 bytes = length-write_at 0 (take 20 bytes) (replicate 20 0)

abbrev pub short_crypto : Crypto
short_crypto = record {
  md5 = short_hash 16;
  sha1 = short_hash 20;
  length-md5 = length-short_md5;
  length-sha1 = length-short_sha1;
}

abbrev pub noon : Env
noon = record { crypto = short_crypto; now = 5_000; send_ok = λ n bytes. true }

-- What a peer in Down sends first, with the Poll bit.
abbrev pub hello : ControlPacket
hello = record {
  pkt_version = 1;
  diag = 0;
  state = down;
  poll = true;
  final = false;
  control_plane_independent = false;
  auth_present = false;
  demand = false;
  multipoint = false;
  detect_mult = 3;
  length_field = 24;
  my_discriminator = 77;
  your_discriminator = 0;
  desired_min_tx_interval = 1000_000;
  required_min_rx_interval = 300_000;
  required_min_echo_rx_interval = 0;
  auth = none;
}

abbrev pub hello_bytes : List ℕ
hello_bytes =
    32 ∷ 96 ∷ 3 ∷ 24 ∷ 0 ∷ 0 ∷ 0 ∷ 77 ∷ 0 ∷ 0 ∷ 0 ∷ 0 ∷ 0 ∷ 15 ∷ 66 ∷ 64 ∷ 0 ∷ 4 ∷ 147 ∷ 224 ∷ 0 ∷ 0
    ∷ 0 ∷ 0 ∷ []

abbrev pub digest_section : AuthSection
digest_section = record {
  auth_type = meticulous_keyed_md5;
  len = 24;
  key_id = 9;
  auth_data = [];
  sequence_number = 101;
  digest = replicate 16 3;
}

abbrev pub signed_hello : ControlPacket
signed_hello = record hello { auth_present = true; auth = some digest_section; length_field = 48 }

abbrev pub signed_bytes : List ℕ
signed_bytes = replicate 48 3

abbrev pub key_nine : AuthKey
key_nine = record { id = 9; key_type = meticulous_keyed_md5; secret = 1 ∷ 2 ∷ 3 ∷ [] }

abbrev pub one_key : KeyStore
one_key = record { keys = (9, key_nine) ∷ []; current_key = key_nine }

-- The last number received was 100.
abbrev pub at_hundred : AuthState
at_hundred = record {
  state_type = meticulous_keyed_md5;
  rcv_auth_seq = 100;
  xmit_auth_seq = 7;
  auth_seq_known = true;
}

abbrev pub peer : Addr
peer = record { bit_len = 32; value = 3232235777; zone = 0 }

abbrev pub us : Addr
us = record { bit_len = 32; value = 3232235778; zone = 0 }

abbrev pub fast_config : SessionConfig
fast_config = record {
  cfg_peer_addr = peer;
  cfg_local_addr = us;
  cfg_interface = 0;
  cfg_type = single_hop;
  cfg_role = active;
  cfg_desired_min_tx = pos 300_000_000;
  cfg_required_min_rx = pos 300_000_000;
  cfg_detect_multiplier = 3;
  cfg_auth = none;
  cfg_auth_keys = none;
  cfg_padded_pdu_size = 100;
}

abbrev pub fresh_session : Session
unfolding initial_session
fresh_session = initial_session fast_config 42 none 1 0

abbrev pub lan : Prefix
lan = record { base = record { bit_len = 32; value = 3232235776; zone = 0 }; bits = some 24 }

abbrev pub lan_only : UnsolicitedPolicy
lan_only = record {
  enabled = true;
  interfaces = (4, record { if_enabled = true; allowed_prefixes = lan ∷ [] }) ∷ [];
  max_sessions = pos 10;
  session_defaults = record {
    desired_min_tx_interval = pos 300_000_000;
    required_min_rx_interval = pos 300_000_000;
    detect_multiplier = 3;
  };
  cleanup_timeout = pos 0;
}

-- What a heap holds before anything is stored there.
abbrev pub blank : Entry
unfolding initial_session
blank = record {
  endpoint = new_endpoint (initial_session fast_config 42 none 1 0);
  key = key_of fast_config;
  unsolicited = false;
  cancelled = false;
}

-- The random source gives 100, 101 and so on.
abbrev pub counting : Supply
counting = record { reads = λ n. some (100 + n); seed = 1; random = 0; env = noon }

abbrev pub plain_manager : Manager
plain_manager = new_manager (λ p. blank) none false false

-- With an unsolicited policy, and with a sender or without one.
abbrev pub open_manager : Bool → Manager
open_manager has_sender = new_manager (λ p. blank) (some lan_only) has_sender true

abbrev pub hello_meta : PacketMeta
hello_meta = record { src_addr = peer; dst_addr = us; if_name = 0 }

abbrev pub lan_meta : PacketMeta
lan_meta = record { src_addr = peer; dst_addr = us; if_name = 4 }

-- ===== src/Factory.antt =====
-- From the configured sessions to those of the protocol: cmd/gobfd/factory.go.
pub mod Accepted
pub mod Policy
use gobfd.Common.{
  ℕ, ◌≡◌, List, [], ◌∷◌, Option, none, some, Bool, true, false, not, ◌&&◌, ◌||◌, leb, ◌==◌,
  if◌then◌else◌, Result, ok, err, ◌>>=◌, ◌>>◌, guard,
}
use gobfd.Duration.{ℤ, pos, negsuc}
use gobfd.Netip.{Addr}
use gobfd.Intervals.{align_to_common_interval}
use gobfd.Packet.{
  AuthType, simple_password, keyed_md5, meticulous_keyed_md5, keyed_sha1, meticulous_keyed_sha1,
}
use gobfd.Auth.{
  AuthError, AuthKey, KeyStore, Authenticator, new_authenticator, new_static_auth_key_store,
}
use gobfd.Session
use gobfd.Session.{SessionType, single_hop, multi_hop, active}
use gobfd.Config.{
  Text, codes, text_eq, Library, BfdConfig, AuthConfig, SessionConfig, AddrError, is_empty,
  peer_addr, local_addr,
}

pub data FactoryError : Type 0 where
  peer_address_failed local_address_failed : AddrError → FactoryError
  detect_mult_overflow auth_type_invalid auth_key_id_invalid : FactoryError
  auth_failed : AuthError → FactoryError
  prefix_failed : FactoryError

abbrev pub wrap {ℓ} :
    {Inner Outer : Type 0} {A : Type ℓ} → (Inner → Outer) → Result Inner A → Result Outer A
wrap f (err failure) = err (f failure)
wrap f (ok a) = ok a

unfoldable pub config_session_type_to_bfd : Text → SessionType
config_session_type_to_bfd name = if text_eq name (codes "multi_hop") then multi_hop else single_hop

unfoldable pub config_auth_type_to_bfd : Text → Result FactoryError AuthType
config_auth_type_to_bfd name =
    if text_eq name (codes "simple_password")
    then ok simple_password
    else if text_eq name (codes "keyed_md5")
    then ok keyed_md5
    else if text_eq name (codes "meticulous_keyed_md5")
    then ok meticulous_keyed_md5
    else if text_eq name (codes "keyed_sha1")
    then ok keyed_sha1
    else if text_eq name (codes "meticulous_keyed_sha1")
    then ok meticulous_keyed_sha1
    else err auth_type_invalid

-- A value that is zero is the default's.
abbrev pub or_default : ℤ → ℤ → ℤ
or_default (pos n) d = if n == 0 then d else pos n
or_default (negsuc n) d = negsuc n

abbrev pub nat_or_default : ℕ → ℕ → ℕ
nat_or_default v d = if v == 0 then d else v

abbrev pub aligned : Bool → ℤ → ℤ
aligned true d = align_to_common_interval d
aligned false d = d

unfoldable pub static_auth :
    AuthConfig → AuthType → Result FactoryError (Option Authenticator × Option KeyStore)
static_auth cfg t = do
  auth ← wrap auth_failed (new_authenticator t)
  keys ← wrap auth_failed (
      new_static_auth_key_store (record { id = cfg.key_id; key_type = t; secret = cfg.auth_secret })
        [])
  ok (some auth, some keys)

module _ (lib : Library) where
  unfoldable pub config_auth_to_bfd :
      AuthConfig → Result FactoryError (Option Authenticator × Option KeyStore)
  unfolding config_auth_type_to_bfd static_auth
  config_auth_to_bfd cfg =
      let name = lib.trim_space cfg.auth_name in
      if is_empty name || text_eq name (codes "none")
      then ok (none, none)
      else config_auth_type_to_bfd name
        >>= (λ t. guard (leb cfg.key_id 255) auth_key_id_invalid >> static_auth cfg t)

  -- The struct literal at the end.
  abbrev pub converted :
      SessionConfig
      → BfdConfig
      → Addr
      → Addr
      → Option Authenticator
      → Option KeyStore
      → Session.SessionConfig
  converted sc defaults peer local auth keys = record {
    cfg_peer_addr = peer;
    cfg_local_addr = local;
    cfg_interface = lib.name_number sc.interface;
    cfg_type = config_session_type_to_bfd sc.type_name;
    cfg_role = active;
    cfg_desired_min_tx =
        aligned defaults.align_intervals
          (or_default sc.desired_min_tx defaults.default_desired_min_tx);
    cfg_required_min_rx =
        aligned defaults.align_intervals
          (or_default sc.required_min_rx defaults.default_required_min_rx);
    cfg_detect_multiplier = nat_or_default sc.detect_mult defaults.default_detect_multiplier;
    cfg_auth = auth;
    cfg_auth_keys = keys;
    cfg_padded_pdu_size = nat_or_default sc.padded_pdu_size defaults.default_padded_pdu_size;
  }

  unfoldable pub config_session_to_bfd :
      SessionConfig → BfdConfig → Result FactoryError Session.SessionConfig
  unfolding config_auth_to_bfd config_session_type_to_bfd
  config_session_to_bfd sc defaults = do
    peer ← wrap peer_address_failed (peer_addr lib sc.peer)
    local ← wrap local_address_failed (local_addr lib sc.local)
    guard (leb (nat_or_default sc.detect_mult defaults.default_detect_multiplier) 255)
        detect_mult_overflow
    auth ← config_auth_to_bfd sc.auth
    ok (converted sc defaults peer local auth.0 auth.1)

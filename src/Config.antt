-- ===== src/Config.antt =====
-- The configuration of the daemon: the sections of internal/config/config.go that Validate reads, and
-- the texts and addresses in them. A text is its list of bytes. Parsing of addresses and what
-- package strings does are the standard library's and are given as a record.
pub mod Validate
pub mod Sound
pub mod Valid
use Prim.Native.String.{String}
use Prim.Native.Char.{code}
use gobfd.Common.{
  ℕ, ◌≡◌, ◌↔◌, refl, arith, List, [], ◌∷◌, ◌++◌, Option, none, some, Bool, true, false, ◌&&◌, ◌||◌,
  ◌==◌, ==_iff, if◌then◌else◌, Result, ok, err,
}
use gobfd.Netip.{Addr}
use gobfd.Assoc.{KeyType}
use gobfd.Duration.{ℤ}

abbrev pub Text : Type 0
Text = List ℕ

-- A literal of the source, all of which are ASCII.
abbrev pub codes : String → Text
codes String.[] = []
codes (String.◌∷◌ c s) = code c ∷ codes s

unfoldable pub text_eq : Text → Text → Bool
text_eq [] [] = true
text_eq (a ∷ s) (b ∷ t) = a == b && text_eq s t
text_eq _ _ = false

pub text_eq_iff : (s t : Text) → (text_eq s t ≡ true) ↔ (s ≡ t)
unfolding text_eq
text_eq_iff [] [] = ground arith
text_eq_iff [] (b ∷ t) = ground arith
text_eq_iff (a ∷ s) [] = ground arith
text_eq_iff (a ∷ s) (b ∷ t) = ground (arith, text_eq_iff s t)

instance abbrev pub text_key : KeyType Text
text_key = record { same = text_eq; same_iff = text_eq_iff }

-- A table of names that are valid.
unfoldable pub one_of : Text → List Text → Bool
one_of s [] = false
one_of s (t ∷ rest) = text_eq s t || one_of s rest

-- `netip.ParseAddr`, of which an error is `none`, `strings.TrimSpace`, and the order of float64
-- values, which are named by their bits. `name_number` is the number by which the other modules call
-- an interface.
pub record Library : Type 0 where
  pub parse_addr : Text → Option Addr
  pub trim_space : Text → Text
  pub float_le : ℕ → ℕ → Bool
  pub name_number : Text → ℕ

pub record BfdConfig : Type 0 where
  pub default_desired_min_tx : ℤ
  pub default_required_min_rx : ℤ
  pub default_detect_multiplier : ℕ
  pub align_intervals : Bool
  pub default_padded_pdu_size : ℕ

pub record AuthConfig : Type 0 where
  pub auth_name : Text
  pub key_id : ℕ
  pub auth_secret : List ℕ

pub record SessionConfig : Type 0 where
  pub peer : Text
  pub local : Text
  pub interface : Text
  pub type_name : Text
  pub desired_min_tx : ℤ
  pub required_min_rx : ℤ
  pub detect_mult : ℕ
  pub padded_pdu_size : ℕ
  pub auth : AuthConfig

pub record EchoPeerConfig : Type 0 where
  pub echo_peer : Text
  pub echo_local : Text
  pub echo_interface : Text
  pub tx_interval : ℤ
  pub echo_detect_mult : ℕ

pub record EchoConfig : Type 0 where
  pub echo_enabled : Bool
  pub echo_peers : List EchoPeerConfig

pub record ActuatorConfig : Type 0 where
  pub mode : Text
  pub actuator_backend : Text
  pub owner_policy : Text
  pub down_action : Text
  pub up_action : Text

-- `VXLANPeerConfig`, and `GenevePeerConfig` with its identifier; the identifier of a VXLAN peer is
-- not read.
pub record TunnelPeerConfig : Type 0 where
  pub tunnel_peer : Text
  pub tunnel_local : Text
  pub peer_vni : ℕ
  pub tunnel_detect_mult : ℕ

-- `VXLANConfig` with its management identifier, `GeneveConfig` with its default one.
pub record TunnelConfig : Type 0 where
  pub tunnel_enabled : Bool
  pub tunnel_backend : Text
  pub tunnel_vni : ℕ
  pub tunnel_peers : List TunnelPeerConfig

pub record GobgpConfig : Type 0 where
  pub gobgp_enabled : Bool
  pub gobgp_addr : Text
  pub strategy : Text
  pub action_timeout : ℤ
  pub tls_enabled : Bool
  pub ca_file : Text
  pub server_name : Text
  pub dampening_enabled : Bool
  pub suppress_threshold : ℕ
  pub reuse_threshold : ℕ
  pub half_life : ℤ

pub record Config : Type 0 where
  pub grpc_addr : Text
  pub bfd : BfdConfig
  pub gobgp : GobgpConfig
  pub sessions : List SessionConfig
  pub echo : EchoConfig
  pub actuator : ActuatorConfig
  pub vxlan : TunnelConfig
  pub geneve : TunnelConfig

abbrev pub bar : Text
bar = codes "|"

unfoldable pub session_key : SessionConfig → Text
session_key sc = sc.peer ++ (bar ++ (sc.local ++ (bar ++ sc.interface)))

unfoldable pub echo_session_key : EchoPeerConfig → Text
echo_session_key ec =
    codes "echo|" ++ (ec.echo_peer ++ (bar ++ (ec.echo_local ++ (bar ++ ec.echo_interface))))

unfoldable pub vxlan_session_key : TunnelPeerConfig → Text
vxlan_session_key vc = codes "vxlan|" ++ (vc.tunnel_peer ++ (bar ++ vc.tunnel_local))

unfoldable pub geneve_session_key : TunnelPeerConfig → Text
geneve_session_key gc = codes "geneve|" ++ (gc.tunnel_peer ++ (bar ++ gc.tunnel_local))

abbrev pub is_empty : Text → Bool
is_empty [] = true
is_empty _ = false

-- What PeerAddr and LocalAddr return; the five structs have the same two methods.
pub data AddrError : Type 0 where
  no_address bad_address : AddrError

abbrev pub parsed : Option Addr → Result AddrError Addr
parsed none = err bad_address
parsed (some addr) = ok addr

unfoldable pub peer_addr : Library → Text → Result AddrError Addr
peer_addr lib peer = if is_empty peer then err no_address else parsed (lib.parse_addr peer)

unfoldable pub local_addr : Library → Text → Result AddrError Addr
local_addr lib local =
    if is_empty local
    then ok (record { bit_len = 0; value = 0; zone = 0 })
    else parsed (lib.parse_addr local)

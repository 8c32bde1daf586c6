-- ===== src/Tests/Configs.antt =====
-- A configuration of internal/config/config.go and its session, on concrete values.
use gobfd.Common.{
  ◌*◌, ◌≡◌, ◌↔◌, refl, arith, [], ◌∷◌, Option, some, true, false, inl, leb, length, ok,
}
use gobfd.Assoc.{lookup}
use gobfd.Netip.{Addr}
use gobfd.Duration.{pos, millisecond, second}
use gobfd.Session
use gobfd.Session.Config.{validate_session_config}
use gobfd.Config.{
  Text, text_eq, codes, one_of, peer_addr, local_addr, Library, Config, SessionConfig, session_key,
}
use gobfd.Config.Validate.{
  validate, validate_gobgp, validate_sessions, validate_echo_peers, validate_actuator,
  validate_vxlan, validate_geneve, check_each, validate_session, validate_session_auth,
}
use gobfd.Config.Valid.{IsValid, validate_iff}
use gobfd.Unsolicited.{Prefix, UnsolicitedPolicy, check_interface_policy}
use gobfd.Factory.Policy.{
  UnsolicitedConfig, build_unsolicited_policy, build_interfaces, parse_prefixes, ConfigAdmits,
  Carries, built-Admits,
}
use gobfd.Factory.{config_session_to_bfd}
use gobfd.Factory.Accepted.{IsPlausible, valid_session_accepted}

-- Every text is an address.
abbrev library : Library
library = record {
  parse_addr = λ s. some (record { bit_len = 32; value = length s; zone = 0 });
  trim_space = λ s. s;
  float_le = leb;
  name_number = length;
}

abbrev branch : SessionConfig
branch = record {
  peer = codes "10.0.0.1";
  local = [];
  interface = codes "eth0";
  type_name = codes "single_hop";
  desired_min_tx = pos (300 * millisecond);
  required_min_rx = pos 0;
  detect_mult = 3;
  padded_pdu_size = 0;
  auth = record { auth_name = codes "keyed_sha1"; key_id = 7; auth_secret = 1 ∷ 2 ∷ 3 ∷ [] };
}

abbrev sample : Config
sample = record {
  grpc_addr = codes ":50051";
  bfd = record {
    default_desired_min_tx = pos second;
    default_required_min_rx = pos second;
    default_detect_multiplier = 3;
    align_intervals = true;
    default_padded_pdu_size = 0;
  };
  gobgp = record {
    gobgp_enabled = false;
    gobgp_addr = [];
    strategy = [];
    action_timeout = pos 0;
    tls_enabled = false;
    ca_file = [];
    server_name = [];
    dampening_enabled = false;
    suppress_threshold = 3;
    reuse_threshold = 2;
    half_life = pos second;
  };
  sessions = branch ∷ [];
  echo = record { echo_enabled = false; echo_peers = [] };
  actuator = record {
    mode = codes "disabled";
    actuator_backend = codes "auto";
    owner_policy = codes "refuse-if-managed";
    down_action = codes "none";
    up_action = codes "none";
  };
  vxlan = record { tunnel_enabled = false; tunnel_backend = []; tunnel_vni = 0; tunnel_peers = [] };
  geneve = record {
    tunnel_enabled = false;
    tunnel_backend = [];
    tunnel_vni = 0;
    tunnel_peers = [];
  };
}

validate_iff_example : (validate library sample ≡ ok tt) ↔ IsValid library sample
validate_iff_example = validate_iff library sample

sample_valid : validate library sample ≡ ok tt
unfolding validate text_eq one_of peer_addr session_key lookup validate_gobgp validate_sessions
    validate_echo_peers validate_actuator validate_vxlan validate_geneve check_each validate_session
    validate_session_auth
sample_valid = refl

branch-IsPlausible : IsPlausible library sample.bfd branch
unfolding local_addr
branch-IsPlausible = record {
  local_given = (record { bit_len = 0; value = 0; zone = 0 }, refl);
  mult_fits = omega arith;
  tx_fits = (omega arith, omega arith);
  rx_fits = (omega arith, omega arith);
  size_fits = inl refl;
}

valid_session_accepted_example :
    (out : Session.SessionConfig) × (config_session_to_bfd library branch sample.bfd ≡ ok out)
    × (library.parse_addr branch.peer ≡ some out.cfg_peer_addr)
    × (validate_session_config out 42 ≡ ok tt)
valid_session_accepted_example =
    valid_session_accepted library sample branch 42 sample_valid (inl refl) branch-IsPlausible
      (ground arith)

abbrev peer_address : Addr
peer_address = record { bit_len = 32; value = 3232235777; zone = 0 }

-- Every text is the prefix that holds all addresses of 32 bits.
abbrev everything : Text → Option Prefix
everything s = some (record { base = record { bit_len = 32; value = 0; zone = 0 }; bits = some 0 })

abbrev on_lan : UnsolicitedConfig
on_lan = record {
  unsolicited_enabled = true;
  most_sessions = pos 10;
  unsolicited_cleanup = pos second;
  listed = (4, record { listed_enabled = true; prefix_texts = codes "0.0.0.0/0" ∷ [] }) ∷ [];
  defaults_min_tx = pos second;
  defaults_min_rx = pos second;
  defaults_detect_mult = 3;
}

abbrev lan_policy : UnsolicitedPolicy
lan_policy = record {
  enabled = true;
  interfaces =
      (
        4,
        record {
          if_enabled = true;
          allowed_prefixes =
              record { base = record { bit_len = 32; value = 0; zone = 0 }; bits = some 0 } ∷ [];
        },
      )
      ∷ [];
  max_sessions = pos 10;
  session_defaults = record {
    desired_min_tx_interval = pos second;
    required_min_rx_interval = pos second;
    detect_multiplier = 3;
  };
  cleanup_timeout = pos second;
}

lan_built : build_unsolicited_policy everything on_lan ≡ ok lan_policy
unfolding build_unsolicited_policy build_interfaces parse_prefixes
lan_built = refl

built-Admits_example :
    ((check_interface_policy (some lan_policy) peer_address 4 ≡ ok tt) ↔ (
      (on_lan.unsolicited_enabled ≡ true) × ConfigAdmits everything peer_address 4 on_lan.listed))
    × Carries everything on_lan lan_policy
built-Admits_example = built-Admits everything on_lan lan_policy peer_address 4 lan_built

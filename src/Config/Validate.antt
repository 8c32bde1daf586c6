-- ===== src/Config/Validate.antt =====
-- Validate and its parts in internal/config/config.go.
use gobfd.Common.{
  ℕ, ◌+◌, List, [], ◌∷◌, Option, none, some, Bool, true, false, not, ◌&&◌, ◌||◌, ltb, leb, ◌==◌,
  if◌then◌else◌, length, Result, ok, err, ◌>>◌, guard,
}
use gobfd.Assoc.{lookup, insert, is_some}
use gobfd.Duration.{not_positive}
use gobfd.Config.{
  Text, codes, text_key, text_eq, one_of, Library, AuthConfig, SessionConfig, EchoPeerConfig,
  EchoConfig, ActuatorConfig, TunnelPeerConfig, TunnelConfig, GobgpConfig, Config, session_key,
  echo_session_key, vxlan_session_key, geneve_session_key, is_empty, peer_addr,
}

-- The sentinel errors.
pub data Sentinel : Type 0 where
  empty_grpc_addr invalid_detect_multiplier invalid_desired_min_tx invalid_required_min_rx :
      Sentinel
  invalid_session_peer invalid_session_type invalid_session_detect_mult : Sentinel
  duplicate_session_key invalid_session_auth_type invalid_session_auth_key_id : Sentinel
  invalid_session_auth_secret empty_gobgp_addr invalid_gobgp_strategy : Sentinel
  invalid_gobgp_action_timeout invalid_gobgp_tls invalid_dampening_threshold : Sentinel
  invalid_dampening_half_life invalid_echo_peer invalid_echo_detect_mult : Sentinel
  duplicate_echo_session_key invalid_vxlan_peer invalid_vxlan_vni : Sentinel
  duplicate_vxlan_session_key invalid_geneve_peer invalid_geneve_vni : Sentinel
  duplicate_geneve_session_key invalid_overlay_backend unsupported_overlay_backend : Sentinel
  invalid_actuator_mode invalid_actuator_backend invalid_actuator_owner_policy : Sentinel
  invalid_actuator_action : Sentinel

-- A sentinel, with the index of the session or peer in its message.
pub record Failure : Type 0 where
  pub sentinel : Sentinel
  pub index : Option ℕ

abbrev pub Check : Type 0
Check = Result Failure (Unit {0})

abbrev pub fails : Sentinel → Failure
fails s = record { sentinel = s; index = none }

abbrev pub fails_at : ℕ → Sentinel → Failure
fails_at i s = record { sentinel = s; index = some i }

abbrev pub succeeds {ℓ} : {Err : Type 0} {A : Type ℓ} → Result Err A → Bool
succeeds (ok a) = true
succeeds (err failure) = false

-- The loops of the four checks on peers are one: what is checked of an item, then whether its key
-- has been seen.
module _ {Item : Type 0} (check : ℕ → Item → Check) (key : Item → Text) (duplicate : Sentinel) where
  unfoldable pub check_each : ℕ → List (Text × Unit {0}) → List Item → Check
  check_each i seen [] = ok tt
  check_each i seen (item ∷ rest) =
      let later = check_each (i + 1) (insert (key item) tt seen) rest in
      check i item
      >> (guard (not (is_some (lookup (key item) seen))) (fails_at i duplicate) >> later)

abbrev pub valid_actuator_modes : List Text
valid_actuator_modes = codes "disabled" ∷ codes "dry-run" ∷ codes "enforce" ∷ []

abbrev pub valid_actuator_backends : List Text
valid_actuator_backends =
    codes "auto" ∷ codes "kernel-bond" ∷ codes "ovs" ∷ codes "networkmanager" ∷ []

abbrev pub valid_actuator_owner_policies : List Text
valid_actuator_owner_policies =
    codes "refuse-if-managed" ∷ codes "allow-external" ∷ codes "networkmanager-dbus" ∷ []

abbrev pub valid_actuator_actions : List Text
valid_actuator_actions = codes "none" ∷ codes "remove-member" ∷ codes "add-member" ∷ []

unfoldable pub validate_actuator : ActuatorConfig → Check
validate_actuator cfg =
    guard (one_of cfg.mode valid_actuator_modes) (fails invalid_actuator_mode)
    >> (guard (one_of cfg.actuator_backend valid_actuator_backends) (fails invalid_actuator_backend)
        >> (guard (one_of cfg.owner_policy valid_actuator_owner_policies)
              (fails invalid_actuator_owner_policy)
            >> (guard (one_of cfg.down_action valid_actuator_actions)
                  (fails invalid_actuator_action)
                >> guard (one_of cfg.up_action valid_actuator_actions)
                    (fails invalid_actuator_action))))

abbrev pub userspace_udp : Text
userspace_udp = codes "userspace-udp"

abbrev pub valid_overlay_backends : List Text
valid_overlay_backends =
    userspace_udp
    ∷ codes "kernel"
    ∷ codes "ovs"
    ∷ codes "ovn"
    ∷ codes "cilium"
    ∷ codes "calico"
    ∷ codes "nsx"
    ∷ []

abbrev pub valid_gobgp_strategies : List Text
valid_gobgp_strategies = codes "disable-peer" ∷ codes "withdraw-routes" ∷ []

abbrev pub valid_session_types : List Text
valid_session_types = codes "single_hop" ∷ codes "multi_hop" ∷ []

abbrev pub short_secret_types : List Text
short_secret_types = codes "simple_password" ∷ codes "keyed_md5" ∷ codes "meticulous_keyed_md5" ∷ []

abbrev pub long_secret_types : List Text
long_secret_types = codes "keyed_sha1" ∷ codes "meticulous_keyed_sha1" ∷ []

-- Without "none", which is taken before the table is read.
abbrev pub is_auth_type : Text → Bool
is_auth_type name = one_of name short_secret_types || one_of name long_secret_types

abbrev pub has_none {ℓ} : {A : Type ℓ} → List A → Bool
has_none [] = true
has_none _ = false

module _ (lib : Library) where
  unfoldable pub normalize_overlay_backend : Text → Text
  normalize_overlay_backend backend =
      if is_empty (lib.trim_space backend) then userspace_udp else lib.trim_space backend

  unfoldable pub validate_overlay_backend : Text → Check
  unfolding normalize_overlay_backend
  validate_overlay_backend backend =
      guard (one_of (normalize_overlay_backend backend) valid_overlay_backends)
        (fails invalid_overlay_backend)
      >> guard (text_eq (normalize_overlay_backend backend) userspace_udp)
          (fails unsupported_overlay_backend)

  unfoldable pub validate_dampening : GobgpConfig → Check
  validate_dampening cfg =
      guard (not (lib.float_le cfg.suppress_threshold cfg.reuse_threshold))
        (fails invalid_dampening_threshold)
      >> guard (not (not_positive cfg.half_life)) (fails invalid_dampening_half_life)

  unfoldable pub validate_gobgp : GobgpConfig → Check
  unfolding validate_dampening
  validate_gobgp cfg =
      if not cfg.gobgp_enabled
      then ok tt
      else guard (not (is_empty cfg.gobgp_addr)) (fails empty_gobgp_addr)
        >> (guard (one_of cfg.strategy valid_gobgp_strategies) (fails invalid_gobgp_strategy)
            >> (guard (not (not_positive cfg.action_timeout)) (fails invalid_gobgp_action_timeout)
                >> (guard (cfg.tls_enabled || (is_empty cfg.ca_file && is_empty cfg.server_name))
                      (fails invalid_gobgp_tls)
                    >> (if cfg.dampening_enabled then validate_dampening cfg else ok tt))))

  -- The type's name is trimmed, its table and the two ranges of the secret's length are those of the
  -- switch.
  unfoldable pub validate_session_auth : ℕ → AuthConfig → Check
  validate_session_auth i auth =
      let name = lib.trim_space auth.auth_name in
      let most = if one_of name short_secret_types then 16 else 20 in
      if is_empty name || text_eq name (codes "none")
      then ok tt
      else guard (is_auth_type name) (fails_at i invalid_session_auth_type)
        >> (guard (leb auth.key_id 255) (fails_at i invalid_session_auth_key_id)
            >> guard (leb 1 (length auth.auth_secret) && leb (length auth.auth_secret) most)
                (fails_at i invalid_session_auth_secret))

  unfoldable pub validate_session : ℕ → SessionConfig → Check
  unfolding validate_session_auth
  validate_session i sc =
      guard (succeeds (peer_addr lib sc.peer)) (fails_at i invalid_session_peer)
      >> (guard (is_empty sc.type_name || one_of sc.type_name valid_session_types)
            (fails_at i invalid_session_type)
          >> (guard (not (not (sc.detect_mult == 0) && ltb sc.detect_mult 1))
                (fails_at i invalid_session_detect_mult)
              >> validate_session_auth i sc.auth))

  unfoldable pub validate_sessions : List SessionConfig → Check
  unfolding check_each validate_session
  validate_sessions sessions =
      check_each validate_session session_key duplicate_session_key 0 [] sessions

  unfoldable pub validate_echo_peer : ℕ → EchoPeerConfig → Check
  validate_echo_peer i ep =
      guard (succeeds (peer_addr lib ep.echo_peer)) (fails_at i invalid_echo_peer)
      >> guard (not (not (ep.echo_detect_mult == 0) && ltb ep.echo_detect_mult 1))
          (fails_at i invalid_echo_detect_mult)

  -- Without peers the loop has no turn.
  unfoldable pub validate_echo_peers : EchoConfig → Check
  unfolding check_each validate_echo_peer
  validate_echo_peers cfg =
      if not cfg.echo_enabled
      then ok tt
      else check_each validate_echo_peer echo_session_key duplicate_echo_session_key 0 []
          cfg.echo_peers

  abbrev pub vni_max : ℕ
  vni_max = 0x00FFFFFF

  unfoldable pub validate_vxlan_peer : ℕ → TunnelPeerConfig → Check
  validate_vxlan_peer i p =
      guard (succeeds (peer_addr lib p.tunnel_peer)) (fails_at i invalid_vxlan_peer)
      >> guard (leb p.tunnel_detect_mult 255) (fails_at i invalid_session_detect_mult)

  unfoldable pub validate_vxlan : TunnelConfig → Check
  unfolding check_each validate_vxlan_peer validate_overlay_backend
  validate_vxlan cfg =
      if not cfg.tunnel_enabled || has_none cfg.tunnel_peers
      then ok tt
      else validate_overlay_backend cfg.tunnel_backend
        >> (guard (leb cfg.tunnel_vni vni_max) (fails invalid_vxlan_vni)
            >> check_each validate_vxlan_peer vxlan_session_key duplicate_vxlan_session_key 0 []
                cfg.tunnel_peers)

  unfoldable pub validate_geneve_peer : ℕ → TunnelPeerConfig → Check
  validate_geneve_peer i p =
      guard (succeeds (peer_addr lib p.tunnel_peer)) (fails_at i invalid_geneve_peer)
      >> (guard (leb p.peer_vni vni_max) (fails_at i invalid_geneve_vni)
          >> guard (leb p.tunnel_detect_mult 255) (fails_at i invalid_session_detect_mult))

  unfoldable pub validate_geneve : TunnelConfig → Check
  unfolding check_each validate_geneve_peer validate_overlay_backend
  validate_geneve cfg =
      if not cfg.tunnel_enabled || has_none cfg.tunnel_peers
      then ok tt
      else validate_overlay_backend cfg.tunnel_backend
        >> (guard (leb cfg.tunnel_vni vni_max) (fails invalid_geneve_vni)
            >> check_each validate_geneve_peer geneve_session_key duplicate_geneve_session_key 0 []
                cfg.tunnel_peers)

  unfoldable pub validate : Config → Check
  unfolding validate_gobgp validate_sessions validate_echo_peers validate_actuator validate_vxlan
      validate_geneve
  validate cfg =
      guard (not (is_empty cfg.grpc_addr)) (fails empty_grpc_addr)
      >> (guard (leb 1 cfg.bfd.default_detect_multiplier) (fails invalid_detect_multiplier)
          >> (guard (not (not_positive cfg.bfd.default_desired_min_tx))
                (fails invalid_desired_min_tx)
              >> (guard (not (not_positive cfg.bfd.default_required_min_rx))
                    (fails invalid_required_min_rx)
                  >> (validate_gobgp cfg.gobgp
                      >> (validate_sessions cfg.sessions
                          >> (validate_echo_peers cfg.echo
                              >> (validate_actuator cfg.actuator
                                  >> (validate_vxlan cfg.vxlan >> validate_geneve cfg.geneve))))))))

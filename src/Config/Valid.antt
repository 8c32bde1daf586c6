-- ===== src/Config/Valid.antt =====
-- Validate of internal/config/config.go against the conditions on each section, written apart from it.
use gobfd.Common.{ℕ, ◌^◌, ◌<◌, ◌≤◌, ◌≡◌, ◌≢◌, ◌⊎◌, ◌↔◌, refl, arith, List, [], ◌∷◌, true, false, ok}
use gobfd.Duration.{pos_part}
use gobfd.Config.{
  Text, text_key, text_eq_iff, one_of, Library, EchoPeerConfig, EchoConfig, ActuatorConfig,
  TunnelPeerConfig, TunnelConfig, GobgpConfig, Config, session_key, echo_session_key,
  vxlan_session_key, geneve_session_key, is_empty,
}
use gobfd.Config.Validate.{
  has_none, validate, validate_session, validate_sessions, validate_echo_peer, validate_echo_peers,
  validate_vxlan_peer, validate_vxlan, validate_geneve_peer, validate_geneve,
  validate_overlay_backend, normalize_overlay_backend, validate_actuator, validate_gobgp,
  validate_dampening, duplicate_session_key, duplicate_echo_session_key,
  duplicate_vxlan_session_key, duplicate_geneve_session_key, valid_actuator_modes,
  valid_actuator_backends, valid_actuator_owner_policies, valid_actuator_actions,
  valid_gobgp_strategies, userspace_udp,
}
use gobfd.Config.Sound.{
  Among, one_of_iff, AllGood, Apart, check_each_iff, IsPeer, IsPeer-iff, empty_iff, IsGoodSession,
  session_iff,
}

module _ (lib : Library) where
  -- The sessions: each is good, and no two have the same text of peer, local address and interface.
  abbrev pub SessionsValid : Config → Type 0
  SessionsValid cfg = AllGood (IsGoodSession lib) cfg.sessions × Apart session_key cfg.sessions

  abbrev pub IsEchoPeer : EchoPeerConfig → Type 0
  IsEchoPeer ep = IsPeer lib ep.echo_peer

  echo_iff : (i : ℕ) (ep : EchoPeerConfig) → (validate_echo_peer lib i ep ≡ ok tt) ↔ IsEchoPeer ep
  unfolding validate_echo_peer
  echo_iff i ep = ground (arith, IsPeer-iff lib ep.echo_peer)

  abbrev pub EchoValid : EchoConfig → Type 0
  EchoValid cfg =
      cfg.echo_enabled ≡ true
      → AllGood IsEchoPeer cfg.echo_peers × Apart echo_session_key cfg.echo_peers

  abbrev pub IsVxlanPeer : TunnelPeerConfig → Type 0
  IsVxlanPeer p = IsPeer lib p.tunnel_peer × (p.tunnel_detect_mult ≤ 255)

  vxlan_iff : (i : ℕ) (p : TunnelPeerConfig) → (validate_vxlan_peer lib i p ≡ ok tt) ↔ IsVxlanPeer p
  unfolding validate_vxlan_peer
  vxlan_iff i p = ground (arith, IsPeer-iff lib p.tunnel_peer)

  abbrev pub IsGenevePeer : TunnelPeerConfig → Type 0
  IsGenevePeer p = IsPeer lib p.tunnel_peer × (p.peer_vni < 2 ^ 24) × (p.tunnel_detect_mult ≤ 255)

  geneve_iff :
      (i : ℕ) (p : TunnelPeerConfig) → (validate_geneve_peer lib i p ≡ ok tt) ↔ IsGenevePeer p
  unfolding validate_geneve_peer
  geneve_iff i p = ground (arith, IsPeer-iff lib p.tunnel_peer)

  -- Of the known backends only the one that is implemented is accepted; no name means it.
  abbrev pub IsBackend : Text → Type 0
  IsBackend s = (lib.trim_space s ≡ []) ⊎ (lib.trim_space s ≡ userspace_udp)

  IsBackend-iff : (s : Text) → (validate_overlay_backend lib s ≡ ok tt) ↔ IsBackend s
  unfolding validate_overlay_backend normalize_overlay_backend one_of
  IsBackend-iff s = ground (
    arith,
    empty_iff lib (lib.trim_space s),
    text_eq_iff (lib.trim_space s) userspace_udp,
    text_eq_iff userspace_udp userspace_udp,
  )

  abbrev pub VxlanValid : TunnelConfig → Type 0
  VxlanValid cfg =
      cfg.tunnel_enabled ≡ true
      → cfg.tunnel_peers ≢ []
      → IsBackend cfg.tunnel_backend
        × (cfg.tunnel_vni < 2 ^ 24)
        × AllGood IsVxlanPeer cfg.tunnel_peers
        × Apart vxlan_session_key cfg.tunnel_peers

  abbrev pub GeneveValid : TunnelConfig → Type 0
  GeneveValid cfg =
      cfg.tunnel_enabled ≡ true
      → cfg.tunnel_peers ≢ []
      → IsBackend cfg.tunnel_backend
        × (cfg.tunnel_vni < 2 ^ 24)
        × AllGood IsGenevePeer cfg.tunnel_peers
        × Apart geneve_session_key cfg.tunnel_peers

  abbrev pub IsActuator : ActuatorConfig → Type 0
  IsActuator cfg =
      Among cfg.mode valid_actuator_modes
      × Among cfg.actuator_backend valid_actuator_backends
      × Among cfg.owner_policy valid_actuator_owner_policies
      × Among cfg.down_action valid_actuator_actions
      × Among cfg.up_action valid_actuator_actions

  IsActuator-iff : (cfg : ActuatorConfig) → (validate_actuator cfg ≡ ok tt) ↔ IsActuator cfg
  unfolding validate_actuator
  IsActuator-iff cfg = ground (
    arith,
    one_of_iff cfg.mode valid_actuator_modes,
    one_of_iff cfg.actuator_backend valid_actuator_backends,
    one_of_iff cfg.owner_policy valid_actuator_owner_policies,
    one_of_iff cfg.down_action valid_actuator_actions,
    one_of_iff cfg.up_action valid_actuator_actions,
  )

  -- What is asked of the route server's client where it is enabled.
  abbrev pub IsGobgp : GobgpConfig → Type 0
  IsGobgp cfg =
      (cfg.gobgp_addr ≢ [])
      × Among cfg.strategy valid_gobgp_strategies
      × (0 < pos_part cfg.action_timeout)
      × ((cfg.tls_enabled ≡ true) ⊎ ((cfg.ca_file ≡ []) × (cfg.server_name ≡ [])))
      × ((cfg.dampening_enabled ≡ false)
          ⊎ ((lib.float_le cfg.suppress_threshold cfg.reuse_threshold ≡ false)
              × (0 < pos_part cfg.half_life)))

  abbrev pub GobgpValid : GobgpConfig → Type 0
  GobgpValid cfg = cfg.gobgp_enabled ≡ true → IsGobgp cfg

  gobgp_iff : (cfg : GobgpConfig) → (validate_gobgp lib cfg ≡ ok tt) ↔ GobgpValid cfg
  unfolding validate_gobgp validate_dampening
  gobgp_iff cfg = ground (
    arith,
    one_of_iff cfg.strategy valid_gobgp_strategies,
    empty_iff lib cfg.gobgp_addr,
    empty_iff lib cfg.ca_file,
    empty_iff lib cfg.server_name,
  )

  sessions_iff : (cfg : Config) → (validate_sessions lib cfg.sessions ≡ ok tt) ↔ SessionsValid cfg
  unfolding validate_sessions
  sessions_iff cfg =
      check_each_iff (validate_session lib) session_key duplicate_session_key (IsGoodSession lib)
        (session_iff lib) cfg.sessions

  echo_peers_iff : (cfg : EchoConfig) → (validate_echo_peers lib cfg ≡ ok tt) ↔ EchoValid cfg
  unfolding validate_echo_peers
  echo_peers_iff cfg = ground (
    arith,
    check_each_iff (validate_echo_peer lib) echo_session_key duplicate_echo_session_key IsEchoPeer
        echo_iff cfg.echo_peers,
  )

  none_iff : {A : Type 0} (l : List A) → (has_none l ≡ true) ↔ (l ≡ [])
  none_iff [] = ground arith
  none_iff (a ∷ l) = ground arith

  VxlanValid-iff : (cfg : TunnelConfig) → (validate_vxlan lib cfg ≡ ok tt) ↔ VxlanValid cfg
  unfolding validate_vxlan
  VxlanValid-iff cfg = ground (
    arith,
    none_iff cfg.tunnel_peers,
    IsBackend-iff cfg.tunnel_backend,
    check_each_iff (validate_vxlan_peer lib) vxlan_session_key duplicate_vxlan_session_key
        IsVxlanPeer vxlan_iff cfg.tunnel_peers,
  )

  GeneveValid-iff : (cfg : TunnelConfig) → (validate_geneve lib cfg ≡ ok tt) ↔ GeneveValid cfg
  unfolding validate_geneve
  GeneveValid-iff cfg = ground (
    arith,
    none_iff cfg.tunnel_peers,
    IsBackend-iff cfg.tunnel_backend,
    check_each_iff (validate_geneve_peer lib) geneve_session_key duplicate_geneve_session_key
        IsGenevePeer geneve_iff cfg.tunnel_peers,
  )

  pub record IsValid (cfg : Config) : Type 0 where
    pub has_grpc_addr : cfg.grpc_addr ≢ []
    pub multiplier : 1 ≤ cfg.bfd.default_detect_multiplier
    pub tx_positive : 0 < pos_part cfg.bfd.default_desired_min_tx
    pub rx_positive : 0 < pos_part cfg.bfd.default_required_min_rx
    pub gobgp_valid : GobgpValid cfg.gobgp
    pub sessions_valid : SessionsValid cfg
    pub echo_valid : EchoValid cfg.echo
    pub actuator_valid : IsActuator cfg.actuator
    pub vxlan_valid : VxlanValid cfg.vxlan
    pub geneve_valid : GeneveValid cfg.geneve

  filled : (s : Text) → s ≢ [] → is_empty s ≡ false
  filled [] h = ground arith
  filled (c ∷ s) h = refl

  checks_iff :
      (cfg : Config)
      → (validate lib cfg ≡ ok tt) ↔ (
          (is_empty cfg.grpc_addr ≡ false)
          × (1 ≤ cfg.bfd.default_detect_multiplier)
          × (0 < pos_part cfg.bfd.default_desired_min_tx)
          × (0 < pos_part cfg.bfd.default_required_min_rx)
          × (validate_gobgp lib cfg.gobgp ≡ ok tt)
          × (validate_sessions lib cfg.sessions ≡ ok tt)
          × (validate_echo_peers lib cfg.echo ≡ ok tt)
          × (validate_actuator cfg.actuator ≡ ok tt)
          × (validate_vxlan lib cfg.vxlan ≡ ok tt)
          × (validate_geneve lib cfg.geneve ≡ ok tt))
  unfolding validate
  checks_iff cfg = ground arith

  -- Validate accepts a configuration if and only if each section meets its conditions: among them
  -- that peers' addresses parse, secrets have a length that fits the authentication type, and no two
  -- sessions, echo peers or tunnel peers have the same text of addresses.
  pub validate_iff : (cfg : Config) → (validate lib cfg ≡ ok tt) ↔ IsValid cfg
  validate_iff cfg = (
    λ h.
        let (addr, mult, tx, rx, g, s, e, a, v, n) = (checks_iff cfg).0 h in
        record {
          has_grpc_addr = ground (arith, empty_iff lib cfg.grpc_addr);
          multiplier = mult;
          tx_positive = tx;
          rx_positive = rx;
          gobgp_valid = (gobgp_iff cfg.gobgp).0 g;
          sessions_valid = (sessions_iff cfg).0 s;
          echo_valid = (echo_peers_iff cfg.echo).0 e;
          actuator_valid = (IsActuator-iff cfg.actuator).0 a;
          vxlan_valid = (VxlanValid-iff cfg.vxlan).0 v;
          geneve_valid = (GeneveValid-iff cfg.geneve).0 n;
        },
    λ v. (checks_iff cfg).1 (
      filled cfg.grpc_addr v.has_grpc_addr,
      v.multiplier,
      v.tx_positive,
      v.rx_positive,
      (gobgp_iff cfg.gobgp).1 v.gobgp_valid,
      (sessions_iff cfg).1 v.sessions_valid,
      (echo_peers_iff cfg.echo).1 v.echo_valid,
      (IsActuator-iff cfg.actuator).1 v.actuator_valid,
      (VxlanValid-iff cfg.vxlan).1 v.vxlan_valid,
      (GeneveValid-iff cfg.geneve).1 v.geneve_valid,
    ),
  )

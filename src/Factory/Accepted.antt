-- ===== src/Factory/Accepted.antt =====
-- Valid configured sessions are accepted by the protocol: internal/config/config.go,
-- cmd/gobfd/factory.go and NewSession of internal/bfd/session.go together.
use gobfd.Common.{
  ℕ, ◌<◌, ◌≤◌, ◌≡◌, ◌≢◌, ◌⊎◌, refl, sym, arith, List, [], ◌∷◌, Option, none, some, Bool, true,
  false, ◌||◌, leb, length, inl, inr, ok,
}
use mathlib.Core.Path.{subst}
use gobfd.Duration.{ℤ, pos_part}
use gobfd.Netip.{Addr}
use gobfd.Intervals.{align_to_common_interval, align_from}
use gobfd.Packet.{
  AuthType, simple_password, keyed_md5, meticulous_keyed_md5, keyed_sha1, meticulous_keyed_sha1,
}
use gobfd.Auth.{
  AuthKey, Authenticator, KeyStore, simple_password_auth, keyed_md5_auth, meticulous_keyed_md5_auth,
  keyed_sha1_auth, meticulous_keyed_sha1_auth, new_authenticator, new_static_auth_key_store,
  validate_auth_key, validate_auth_key_type, add_keys, authenticator_type,
}
use gobfd.Session
use gobfd.Session.{max_wire_interval}
use gobfd.Session.Config.{
  validate_session_auth_config, validate_session_config, is_valid_session_type,
}
use gobfd.Config.{
  Text, codes, text_eq, Library, BfdConfig, AuthConfig, SessionConfig, Config, is_empty, peer_addr,
  local_addr,
}
use gobfd.Config.Validate.{validate}
use gobfd.Config.Sound.{AuthOff, AuthOn, IsPeer, IsGoodSession, AllGood}
use gobfd.Config.Valid.{validate_iff}
use gobfd.Factory.{
  config_auth_to_bfd, config_auth_type_to_bfd, config_session_to_bfd, config_session_type_to_bfd,
  static_auth, or_default, converted, nat_or_default, aligned,
}

-- An interval that is positive and that the wire can hold.
abbrev pub InRange : ℤ → Type 0
InRange d = (0 < pos_part d) × (pos_part d ≤ max_wire_interval)

aligned-InRange : (align : Bool) (d : ℤ) → InRange d → InRange (aligned align d)
unfolding align_to_common_interval align_from
aligned-InRange false d r = r
aligned-InRange true d r = ground arith

module _ (lib : Library) where
  -- An authenticator and keys that a session accepts.
  abbrev HasAuth : AuthConfig → Type 0
  HasAuth cfg =
      (auth : Option Authenticator) × (keys : Option KeyStore) × (config_auth_to_bfd lib cfg
        ≡ ok (auth, keys))
      × (validate_session_auth_config auth keys ≡ ok tt)

  one_key : AuthConfig → AuthType → KeyStore
  one_key cfg t =
      let key : AuthKey = record { id = cfg.key_id; key_type = t; secret = cfg.auth_secret } in
      record { keys = (cfg.key_id, key) ∷ []; current_key = key }

  stored :
      (cfg : AuthConfig) (t : AuthType) (a : Authenticator)
      → validate_auth_key_type t (length cfg.auth_secret) ≡ ok tt
      → new_authenticator t ≡ ok a
      → static_auth cfg t ≡ ok (some a, some (one_key cfg t))
  unfolding static_auth new_static_auth_key_store validate_auth_key add_keys one_key
  stored cfg t a fits made = rw (made, fits) refl

  with_type :
      (cfg : AuthConfig) (name : Text) (t : AuthType) (a : Authenticator)
      → lib.trim_space cfg.auth_name ≡ name
      → (is_empty name || text_eq name (codes "none")) ≡ false
      → config_auth_type_to_bfd name ≡ ok t
      → cfg.key_id ≤ 255
      → validate_auth_key_type t (length cfg.auth_secret) ≡ ok tt
      → new_authenticator t ≡ ok a
      → authenticator_type a ≡ t
      → HasAuth cfg
  unfolding config_auth_to_bfd validate_session_auth_config one_key
  with_type cfg name t a named given is_t id fits made typed =
      let small : leb cfg.key_id 255 ≡ true = ground arith in
      (
        some a,
        some (one_key cfg t),
        rw (named, given, is_t, small) (stored cfg t a fits made),
        rw typed (ground arith),
      )

  auth_accepted : (cfg : AuthConfig) → AuthOff lib cfg ⊎ AuthOn lib cfg → HasAuth cfg
  unfolding config_auth_to_bfd text_eq validate_session_auth_config config_auth_type_to_bfd
      new_authenticator authenticator_type validate_auth_key_type
  auth_accepted cfg (inl (inl e)) = (none, none, rw e refl, refl)
  auth_accepted cfg (inl (inr e)) = (none, none, rw e refl, refl)
  auth_accepted cfg (inr (id, some_secret, inl (inl e, most))) =
      with_type cfg (codes "simple_password") simple_password simple_password_auth e refl refl id
        (ground arith) refl refl
  auth_accepted cfg (inr (id, some_secret, inl (inr (inl e), most))) =
      with_type cfg (codes "keyed_md5") keyed_md5 keyed_md5_auth e refl refl id (ground arith) refl
        refl
  auth_accepted cfg (inr (id, some_secret, inl (inr (inr (inl e)), most))) =
      with_type cfg (codes "meticulous_keyed_md5") meticulous_keyed_md5 meticulous_keyed_md5_auth e
        refl refl id (ground arith) refl refl
  auth_accepted cfg (inr (id, some_secret, inl (inr (inr (inr e)), most))) = absurd e
  auth_accepted cfg (inr (id, some_secret, inr (inl e, most))) =
      with_type cfg (codes "keyed_sha1") keyed_sha1 keyed_sha1_auth e refl refl id (ground arith)
        refl refl
  auth_accepted cfg (inr (id, some_secret, inr (inr (inl e), most))) =
      with_type cfg (codes "meticulous_keyed_sha1") meticulous_keyed_sha1 meticulous_keyed_sha1_auth
        e refl refl id (ground arith) refl refl
  auth_accepted cfg (inr (id, some_secret, inr (inr (inr e), most))) = absurd e

  -- What Validate does not look at: the local address parses or is not given, and with the defaults
  -- filled in the multiplier is a byte, the intervals are positive and fit the wire, and the size
  -- of a padded packet is none or in range.
  pub record IsPlausible (defaults : BfdConfig) (sc : SessionConfig) : Type 0 where
    pub local_given : (local : Addr) × (local_addr lib sc.local ≡ ok local)
    pub mult_fits : nat_or_default sc.detect_mult defaults.default_detect_multiplier ≤ 255
    pub tx_fits : InRange (or_default sc.desired_min_tx defaults.default_desired_min_tx)
    pub rx_fits : InRange (or_default sc.required_min_rx defaults.default_required_min_rx)
    pub size_fits :
        (nat_or_default sc.padded_pdu_size defaults.default_padded_pdu_size ≡ 0)
        ⊎ ((24 ≤ nat_or_default sc.padded_pdu_size defaults.default_padded_pdu_size)
            × (nat_or_default sc.padded_pdu_size defaults.default_padded_pdu_size ≤ 9000))

  -- The session stands in the list.
  abbrev pub Listed : SessionConfig → List SessionConfig → Type 0
  Listed sc [] = ⊥
  Listed sc (x ∷ rest) = (sc ≡ x) ⊎ Listed sc rest

  good_one :
      (sc : SessionConfig) (l : List SessionConfig)
      → AllGood (IsGoodSession lib) l
      → Listed sc l
      → IsGoodSession lib sc
  good_one sc [] g l = absurd l
  good_one sc (x ∷ rest) (one, g) (inl e) = subst (IsGoodSession lib) (sym e) one
  good_one sc (x ∷ rest) (one, g) (inr l) = good_one sc rest g l

  type_valid : (name : Text) → is_valid_session_type (config_session_type_to_bfd name) ≡ true
  unfolding is_valid_session_type config_session_type_to_bfd
  type_valid name = ground arith

  peer_of :
      (s : Text)
      → IsPeer lib s
      → (addr : Addr) × (lib.parse_addr s ≡ some addr) × (peer_addr lib s ≡ ok addr)
  unfolding peer_addr
  peer_of [] (given, found) = absurd (given refl)
  peer_of (c ∷ s) (given, (addr, parses)) = (addr, parses, rw parses refl)

  checked :
      (out : Session.SessionConfig) (discr : ℕ)
      → 1 ≤ out.cfg_detect_multiplier
      → InRange out.cfg_desired_min_tx
      → InRange out.cfg_required_min_rx
      → is_valid_session_type out.cfg_type ≡ true
      → out.cfg_role ≡ Session.active
      → discr ≢ 0
      → (out.cfg_padded_pdu_size ≡ 0)
        ⊎ ((24 ≤ out.cfg_padded_pdu_size) × (out.cfg_padded_pdu_size ≤ 9000))
      → validate_session_auth_config out.cfg_auth out.cfg_auth_keys ≡ ok tt
      → validate_session_config out discr ≡ ok tt
  unfolding validate_session_config
  checked out discr mult tx rx typed role nonzero size accepted = ground arith

  -- A session of a configuration that Validate accepts, and whose local address, multiplier,
  -- intervals and padded size are plausible, is converted, under the address that its peer's text
  -- names, and NewSession's checks accept what it becomes under every discriminator but zero. So
  -- neither the authentication section nor the type can fail after Validate.
  pub valid_session_accepted :
      (cfg : Config) (sc : SessionConfig) (discr : ℕ)
      → validate lib cfg ≡ ok tt
      → Listed sc cfg.sessions
      → IsPlausible cfg.bfd sc
      → discr ≢ 0
      → (out : Session.SessionConfig) × (config_session_to_bfd lib sc cfg.bfd ≡ ok out)
        × (lib.parse_addr sc.peer ≡ some out.cfg_peer_addr)
        × (validate_session_config out discr ≡ ok tt)
  unfolding config_session_to_bfd
  valid_session_accepted cfg sc discr valid listed p nonzero =
      let v = (validate_iff lib cfg).0 valid in
      let (is_peer, is_type, is_auth) = good_one sc cfg.sessions v.sessions_valid.0 listed in
      let (auth, keys, converts, accepted) = auth_accepted sc.auth is_auth in
      let (peer, parses, peer_ok) = peer_of sc.peer is_peer in
      let (local, local_ok) = p.local_given in
      let tx =
        aligned-InRange cfg.bfd.align_intervals
          (or_default sc.desired_min_tx cfg.bfd.default_desired_min_tx) p.tx_fits in
      let rx =
        aligned-InRange cfg.bfd.align_intervals
          (or_default sc.required_min_rx cfg.bfd.default_required_min_rx) p.rx_fits in
      let small : leb (nat_or_default sc.detect_mult cfg.bfd.default_detect_multiplier) 255 ≡ true =
        ground (arith, p.mult_fits) in
      (
        converted lib sc cfg.bfd peer local auth keys,
        rw (peer_ok, local_ok, small, converts) refl,
        parses,
        checked (converted lib sc cfg.bfd peer local auth keys) discr (ground (arith, v.multiplier))
            tx rx (type_valid sc.type_name) refl nonzero p.size_fits accepted,
      )

-- ===== src/Session/Create.antt =====
-- What NewSession (internal/bfd/session.go) accepts, and the session that it makes.
use gobfd.Common.{
  ℕ, ◌^◌, ◌<◌, ◌≤◌, ◌≡◌, ◌≢◌, ◌⊎◌, ◌↔◌, refl, sym, ap, List, Option, none, some, true, arith, inl,
  inr, length-replicate, ok, >>=-eq-ok, ok-injective,
}
use mathlib.Core.Path.{subst}
use gobfd.Packet.{auth_type_code}
use gobfd.Auth.{Authenticator, KeyStore, authenticator_type}
use gobfd.Duration.{pos_part}
use gobfd.Session.{
  SessionType, SessionConfig, Session, Env, Channel, other_type, echo_session, SessionRole,
  other_role,
}
use gobfd.Session.Config.{
  is_valid_session_type, is_valid_role, validate_session_auth_config, validate_session_config,
  initial_session, new_session, init_auth, buffer_size,
}
use gobfd.Session.Frame.{rebuild_cached_packet-Kept}
use gobfd.Session.Transmit.{rebuild_cached_packet}
use gobfd.Session.Loop.{start, run_loop, Input}
use gobfd.Session.Wire.{rebuilt_session}
use gobfd.Session.Sound.{IsSound, AllDecode, carry}
use gobfd.Session.Life.{AreDelivered, run_loop-IsSound, start-IsSound}

-- The authenticator, if there is one, comes with keys, and the current key is of its type.
abbrev pub HasKeys : Option Authenticator → Option KeyStore → Type 0
HasKeys none keys = Unit
HasKeys (some auth) none = ⊥
HasKeys (some auth) (some store) =
    auth_type_code store.current_key.key_type ≡ auth_type_code (authenticator_type auth)

keys_accepted :
    (a : Option Authenticator) (k : Option KeyStore)
    → (validate_session_auth_config a k ≡ ok tt) ↔ HasKeys a k
unfolding validate_session_auth_config
keys_accepted none k = (λ h. tt, λ h. refl)
keys_accepted (some a) none = (λ h. cc, λ h. absurd h)
keys_accepted (some a) (some k) = ground arith

-- What a configuration must satisfy.
pub record IsAcceptable (cfg : SessionConfig) (discr : ℕ) : Type 0 where
  pub some_mult : 1 ≤ cfg.cfg_detect_multiplier
  pub desired_range :
      (0 < pos_part cfg.cfg_desired_min_tx) × (pos_part cfg.cfg_desired_min_tx ≤ 4_294_967_295_000)
  pub required_range :
      (0 < pos_part cfg.cfg_required_min_rx)
      × (pos_part cfg.cfg_required_min_rx ≤ 4_294_967_295_000)
  pub real_type : (cfg.cfg_type ≢ other_type) × (cfg.cfg_type ≢ echo_session)
  pub real_role : cfg.cfg_role ≢ other_role
  pub some_discr : discr ≢ 0
  pub padded_range :
      (cfg.cfg_padded_pdu_size ≡ 0)
      ⊎ ((24 ≤ cfg.cfg_padded_pdu_size) × (cfg.cfg_padded_pdu_size ≤ 9000))
  pub has_keys : HasKeys cfg.cfg_auth cfg.cfg_auth_keys

type_accepted :
    (t : SessionType) → (is_valid_session_type t ≡ true) ↔ ((t ≢ other_type) × (t ≢ echo_session))
unfolding is_valid_session_type
type_accepted t = ground arith

role_accepted : (r : SessionRole) → (is_valid_role r ≡ true) ↔ (r ≢ other_role)
role_accepted r = ground arith

-- The configuration check accepts exactly the acceptable configurations.
pub validate_session_config_iff :
    (cfg : SessionConfig) (discr : ℕ)
    → (validate_session_config cfg discr ≡ ok tt) ↔ IsAcceptable cfg discr
unfolding validate_session_config
validate_session_config_iff cfg discr = ground (
  arith,
  type_accepted cfg.cfg_type,
  role_accepted cfg.cfg_role,
  keys_accepted cfg.cfg_auth cfg.cfg_auth_keys,
)

buffer_room : (p : ℕ) → (64 ≤ buffer_size p) × (p ≤ buffer_size p)
buffer_room p = ground arith

no_auth_security :
    (a : Option Authenticator) (k : Option KeyStore) (random : ℕ)
    → a ≡ none
    → init_auth a k random ≡ none
no_auth_security none k random e = refl
no_auth_security (some x) k random e = absurd (cc)

initial_session-IsSound :
    (cfg : SessionConfig) (discr : ℕ) (notify : Option Channel) (seed random : ℕ)
    → IsAcceptable cfg discr
    → cfg.cfg_auth ≡ none
    → cfg.cfg_detect_multiplier < 256
    → discr < 2 ^ 32
    → IsSound (initial_session cfg discr notify seed random)
unfolding initial_session
initial_session-IsSound cfg discr notify seed random a plain m d =
    let n = length-replicate {A = ℕ} (buffer_size cfg.cfg_padded_pdu_size) 0 in
    let room = buffer_room cfg.cfg_padded_pdu_size in
    record {
      can_send = record {
        plain = no_auth_security cfg.cfg_auth cfg.cfg_auth_keys random plain;
        mult_set = omega (arith, a.some_mult);
        mult_fits = m;
        local_set = a.some_discr;
        local_fits = d;
        remote_fits = omega arith;
        diag_fits = omega arith;
        named = tt;
        peer_known = inr (inl refl);
        room = omega (arith, n, room.0);
        padded_room = omega (arith, n, room.1);
      };
      copies_agree = refl;
      timers = record {
        desired_fits = a.desired_range.1;
        required_fits = a.required_range.1;
        remote_required_fits = omega arith;
        remote_desired_fits = omega arith;
        mult_fits = m;
        remote_mult_fits = omega arith;
      };
      no_poll = refl;
      no_pending_desired = refl;
      no_pending_required = refl;
      all_sent = tt;
    }

first_packet : (env : Env) (s : Session) → IsSound s → IsSound (rebuild_cached_packet env s)
first_packet env s i =
    let b = rebuilt_session env s i.can_send.plain in
    carry s _ (rebuild_cached_packet-Kept env s)
      (record {
        security_kept = ap (λ x. x.security) b;
        diag_kept = ap (λ x. x.local_diag) b;
        remote_kept = ap (λ x. x.remote_discr) b;
      })
      (subst (AllDecode s.local_discr) (ap (λ x. x.sent) (sym b)) i.all_sent) i

-- A session that NewSession makes without authentication, from a multiplier and a discriminator
-- that fit their types, is sound when it is made, and after any run of its event loop, which sets the
-- timers and then takes packets that UnmarshalControlPacket delivered, timers and commands from
-- the control channel: its state is one of the four, the copy that others read agrees with the
-- goroutine's, and all that it handed to the sender decodes to packets with its own discriminator.
-- The run is the loop alone: a SetAdminDown that finds the channel full writes past it and is not
-- part of a run.
pub new_session_life :
    (env : Env) (cfg : SessionConfig) (discr : ℕ) (notify : Option Channel) (seed random : ℕ)
    (s : Session) (run : List (Env × Input))
    → cfg.cfg_auth ≡ none
    → cfg.cfg_detect_multiplier < 256
    → discr < 2 ^ 32
    → new_session env cfg discr notify seed random ≡ ok s
    → AreDelivered run
    → IsSound s × IsSound (run_loop run (start s))
unfolding new_session
new_session_life env cfg discr notify seed random s run plain m d made delivered =
    let (u, valid_, same) = >>=-eq-ok (validate_session_config cfg discr) _ made in
    let accepted = (validate_session_config_iff cfg discr).0 valid_ in
    let fresh : IsSound s = subst IsSound (ok-injective same) (
      first_packet env _
        (initial_session-IsSound cfg discr notify seed random accepted plain m d)) in
    (fresh, run_loop-IsSound run (start s) delivered (start-IsSound s fresh))

-- ===== src/Echo/Create.antt =====
-- What NewEchoSession of internal/bfd/echo.go accepts, and the session that it makes.
use gobfd.Common.{
  ℕ, ◌^◌, ◌<◌, ◌≤◌, ◌≡◌, ◌≢◌, ◌↔◌, refl, List, [], ◌∷◌, Option, true, arith, inl, length-replicate,
  ok, >>=-eq-ok, ok-injective,
}
use mathlib.Core.Path.{subst}
use gobfd.Netip.{is_valid}
use gobfd.Packet.Sizes.{length-marshal}
use gobfd.Duration.{pos_part}
use gobfd.Session.{Channel}
use gobfd.Echo.{
  EchoSessionConfig, EchoSession, Event, validate_echo_config, initial_echo_session,
  new_echo_session, rebuild_cached_packet, echo_packet, run_loop,
}
use gobfd.Echo.Wire.{IsSound, on-IsSound}
use gobfd.Echo.Signals.{Shows, Watch, unheard, watch_all, run_loop-Shows}

-- What a configuration must satisfy.
pub record IsAcceptable (cfg : EchoSessionConfig) (discr : ℕ) : Type 0 where
  pub some_discr : discr ≢ 0
  pub some_mult : 1 ≤ cfg.echo_detect_multiplier
  pub some_interval : 0 < pos_part cfg.echo_tx_interval
  pub some_peer : is_valid cfg.echo_peer_addr ≡ true

pub validate_echo_config_iff :
    (cfg : EchoSessionConfig) (discr : ℕ)
    → (validate_echo_config cfg discr ≡ ok tt) ↔ IsAcceptable cfg discr
unfolding validate_echo_config
validate_echo_config_iff cfg discr = ground arith

initial-IsSound :
    (cfg : EchoSessionConfig) (discr : ℕ) (notify : Option Channel)
    → IsAcceptable cfg discr
    → cfg.echo_detect_multiplier < 256
    → discr < 2 ^ 32
    → IsSound (rebuild_cached_packet (initial_echo_session cfg discr notify))
unfolding initial_echo_session rebuild_cached_packet
initial-IsSound cfg discr notify a m d = record {
  mult_set = omega (arith, a.some_mult);
  mult_fits = m;
  local_set = a.some_discr;
  local_fits = d;
  diag_fits = omega arith;
  two_states = inl refl;
  room = omega (
    arith,
    length-marshal (echo_packet (initial_echo_session cfg discr notify))
        (initial_echo_session cfg discr notify).cached_packet,
    length-replicate {A = ℕ} 64 0,
  );
  all_sent = tt;
}

run_loop-IsSound :
    (events : List Event) (es : EchoSession) → IsSound es → IsSound (run_loop events es)
unfolding run_loop
run_loop-IsSound [] es i = i
run_loop-IsSound (e ∷ rest) es i = run_loop-IsSound rest _ (on-IsSound e es i)

abbrev pub unheard_of : Watch
unheard_of = record { verdict = unheard; waiting = 0 }

initial-Shows :
    (cfg : EchoSessionConfig) (discr : ℕ) (notify : Option Channel)
    → Shows unheard_of (rebuild_cached_packet (initial_echo_session cfg discr notify))
unfolding initial_echo_session rebuild_cached_packet
initial-Shows cfg discr notify = record {
  shows_state = refl;
  shows_diag = refl;
  shows_waiting = refl;
}

-- A session that NewEchoSession makes from a multiplier and a discriminator that fit their types
-- stays, through every sequence of events, in the state that the echoes and timeouts so far give
-- it, and every buffer that it hands to the sender decodes to a packet with its own discriminator.
pub echo_life :
    (cfg : EchoSessionConfig) (discr : ℕ) (notify : Option Channel) (es : EchoSession)
    (events : List Event)
    → cfg.echo_detect_multiplier < 256
    → discr < 2 ^ 32
    → new_echo_session cfg discr notify ≡ ok es
    → Shows (watch_all events unheard_of) (run_loop events es) × IsSound (run_loop events es)
unfolding new_echo_session
echo_life cfg discr notify es events m d made =
    let (u, valid, same) = >>=-eq-ok (validate_echo_config cfg discr) _ made in
    let accepted = (validate_echo_config_iff cfg discr).0 valid in
    let fresh = ok-injective same in
    (
      run_loop-Shows events unheard_of es
          (subst (Shows unheard_of) fresh (initial-Shows cfg discr notify)),
      run_loop-IsSound events es
          (subst IsSound fresh (initial-IsSound cfg discr notify accepted m d)),
    )

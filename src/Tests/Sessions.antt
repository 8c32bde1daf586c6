-- ===== src/Tests/Sessions.antt =====
-- Sessions (internal/bfd/session.go, session_packet.go, session_loop.go) on concrete inputs.
use gobfd.Common.{
  ℕ, ◌-◌, ◌*◌, ◌^◌, ◌<◌, ◌≡◌, ◌≢◌, refl, arith, List, [], ◌∷◌, none, some, true, false, length,
  drop, replicate, max, ok,
}
use gobfd.Packet.{admin_down, down, init, up}
use gobfd.Packet.Unmarshal.{unmarshal_control_packet}
use gobfd.Session.{active, StateChange, Session, Env}
use gobfd.Session.Config.{
  validate_session_config, initial_session, new_session, is_valid_session_type,
  validate_session_auth_config,
}
use gobfd.Session.Timing.{
  HasWireTimers, calc_detection_time_hot, calc_tx_interval_hot, calc_detection_time_hot_exact,
}
use gobfd.Session.Transmit.{
  cache_packet, build_control_packet, rebuild_cached_packet, send_control, control_packet,
}
use gobfd.Session.Receive.{handle_recv_packet}
use gobfd.Session.Loop.{
  Input, packet, command, control_admin_down, tx_fired, detect_fired, step, start, run_loop,
  set_admin_down,
}
use gobfd.Session.Protocol.{admitted, step-rfc}
use gobfd.Session.States.{InState}
use gobfd.Session.Traces.{rfc_run, run_loop-rfc, hears_start, up_needs_peer, admin_down_absorbing}
use gobfd.Session.Announced.{Announces}
use gobfd.Session.Wire.{send_control_decodes}
use gobfd.Session.Sound.{IsSound}
use gobfd.Session.Life.{step-IsSound}
use gobfd.Session.Reception.{IsReceived}
use gobfd.Session.Create.{new_session_life}
use gobfd.Session.Poll.{Answered, poll-Answered}
use gobfd.Session.Handshake.{handshake_comes_up}
use gobfd.Session.Exchange.{deliver}
use gobfd.Session.Stale.{expiry_diag_stale, full_channel_admin_down_lost}
use gobfd.Tests.{noon, hello, hello_bytes, fast_config, fresh_session}

hello-IsReceived : IsReceived hello
hello-IsReceived = record {
  sender_set = omega arith;
  sender_fits = omega arith;
  desired_low = omega arith;
  required_low = omega arith;
  mult_low = omega arith;
  state_named = tt;
}

abbrev born : Session
born = rebuild_cached_packet noon fresh_session

made : new_session noon fast_config 42 none 1 0 ≡ ok born
unfolding new_session validate_session_config is_valid_session_type validate_session_auth_config
    initial_session
made = refl

abbrev hello_run : List (Env × Input)
hello_run = (noon, packet hello hello_bytes) ∷ (noon, tx_fired) ∷ (noon, detect_fired) ∷ []

new_session_life_example : IsSound born × IsSound (run_loop hello_run (start born))
new_session_life_example =
    new_session_life noon fast_config 42 none 1 0 born hello_run refl (omega arith) (omega arith)
      made (hello-IsReceived, (tt, (tt, tt)))

born-IsSound : IsSound born
born-IsSound =
    (new_session_life noon fast_config 42 none 1 0 born [] refl (omega arith) (omega arith) made
      tt).0

poll-Answered_example : Answered born.sent (handle_recv_packet noon hello hello_bytes born)
poll-Answered_example =
    poll-Answered noon hello hello_bytes born born-IsSound hello-IsReceived refl refl

step-IsSound_example : IsSound (step noon (packet hello hello_bytes) born)
step-IsSound_example =
    step-IsSound noon (packet hello hello_bytes) born hello-IsReceived born-IsSound

send_control_decodes_example :
    (bytes : List ℕ) × ((send_control noon born).sent ≡ bytes ∷ born.sent)
    × (unmarshal_control_packet bytes ≡ ok (record (control_packet born) { length_field = 24 }))
    × (length bytes ≡ max 24 born.padded_pdu_size)
    × (drop 24 bytes ≡ replicate (born.padded_pdu_size - 24) 0)
    × Announces born (record (control_packet born) { length_field = 24 })
send_control_decodes_example = send_control_decodes noon born born-IsSound.can_send

in_down : InState down fresh_session
unfolding fresh_session
in_down = record { shown = refl; cached = refl }

step-rfc_example :
    (admitted noon (packet hello hello_bytes) fresh_session ≡ true
      → InState init (step noon (packet hello hello_bytes) fresh_session))
    × (admitted noon (packet hello hello_bytes) fresh_session ≡ false
        → step noon (packet hello hello_bytes) fresh_session ≡ fresh_session)
step-rfc_example = step-rfc noon (packet hello hello_bytes) down fresh_session tt tt in_down

run_loop-rfc_example :
    InState (rfc_run hello_run fresh_session down) (run_loop hello_run fresh_session)
run_loop-rfc_example = run_loop-rfc hello_run down fresh_session tt (tt, (tt, (tt, tt))) in_down

abbrev quiet_run : List (Env × Input)
quiet_run =
    (noon, tx_fired) ∷ (noon, packet hello hello_bytes) ∷ (noon, command control_admin_down) ∷ []

quiet_hears : hears_start quiet_run fresh_session ≡ false
unfolding hears_start admitted
quiet_hears = ground arith

up_needs_peer_example : (run_loop quiet_run fresh_session).state ≢ up
up_needs_peer_example =
    up_needs_peer quiet_run down fresh_session tt (tt, (tt, (tt, tt))) in_down (λ e. cc) quiet_hears

abbrev disabled_session : Session
disabled_session = record fresh_session { state = admin_down; cached_state = admin_down }

admin_down_absorbing_example : InState admin_down (run_loop hello_run disabled_session)
admin_down_absorbing_example =
    admin_down_absorbing hello_run disabled_session (tt, (tt, (tt, tt)))
      (record { shown = refl; cached = refl })

fresh_timers : HasWireTimers fresh_session
unfolding fresh_session
fresh_timers = record {
  desired_fits = omega arith;
  required_fits = omega arith;
  remote_required_fits = omega arith;
  remote_desired_fits = omega arith;
  mult_fits = omega arith;
  remote_mult_fits = omega arith;
}

calc_detection_time_hot_exact_example :
    (calc_detection_time_hot fresh_session < 2 ^ 63)
    × (fresh_session.remote_detect_mult ≡ 0
        → calc_detection_time_hot fresh_session
          ≡ calc_tx_interval_hot fresh_session * fresh_session.detect_mult)
    × (0 < fresh_session.remote_detect_mult
        → calc_detection_time_hot fresh_session
          ≡ max fresh_session.required_min_rx fresh_session.remote_desired_min_tx
            * fresh_session.remote_detect_mult)
calc_detection_time_hot_exact_example = calc_detection_time_hot_exact fresh_session fresh_timers

abbrev up_session : Session
up_session = record fresh_session {
  state = up;
  cached_state = up;
  notify_ch = some (record { capacity = 4; queue = [] });
}

up_is_plain : up_session.security ≡ none
unfolding fresh_session
up_is_plain = refl

expiry_diag_stale_example :
    ((step noon detect_fired up_session).state ≡ down)
    × ((step noon detect_fired up_session).local_diag ≡ 1)
    × (c : StateChange) × ((step noon detect_fired up_session).notify_ch
        ≡ some (record { capacity = 4; queue = c ∷ [] }))
    × (c.change_new ≡ down)
    × (c.change_diag ≡ up_session.local_diag)
expiry_diag_stale_example =
    expiry_diag_stale noon up_session (record { capacity = 4; queue = [] }) refl up_is_plain refl
      (omega arith)

full_channel_admin_down_lost_example :
    ((set_admin_down true false up_session).1.state ≡ admin_down)
    × ((set_admin_down true false up_session).1.cached_state ≡ up)
    × ((step noon detect_fired (set_admin_down true false up_session).1).state ≡ down)
full_channel_admin_down_lost_example = full_channel_admin_down_lost noon up_session refl up_is_plain

abbrev other_session : Session
unfolding initial_session
other_session = initial_session fast_config 43 none 2 0

abbrev other : Session
other = rebuild_cached_packet noon other_session

other_made : new_session noon fast_config 43 none 2 0 ≡ ok other
unfolding new_session validate_session_config is_valid_session_type validate_session_auth_config
    initial_session other_session
other_made = refl

other-IsSound : IsSound other
other-IsSound =
    (new_session_life noon fast_config 43 none 2 0 other [] refl (omega arith) (omega arith)
      other_made tt).0

born_ready : (born.cached_state ≡ down) × (born.role ≡ active) × (born.remote_min_rx ≢ 0)
unfolding fresh_session rebuild_cached_packet build_control_packet cache_packet
born_ready = (refl, refl, omega arith)

other_down : other.cached_state ≡ down
unfolding other_session rebuild_cached_packet build_control_packet cache_packet
other_down = refl

handshake_comes_up_example :
    ((deliver noon (step noon tx_fired born) other).state ≡ init)
    × ((deliver noon (deliver noon (step noon tx_fired born) other) (step noon tx_fired born)).state
        ≡ up)
    × ((deliver noon
          (deliver noon (deliver noon (step noon tx_fired born) other) (step noon tx_fired born))
          (deliver noon (step noon tx_fired born) other)).state
        ≡ up)
handshake_comes_up_example =
    handshake_comes_up noon born other born-IsSound other-IsSound born_ready.0 other_down
      born_ready.1 born_ready.2

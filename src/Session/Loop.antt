-- ===== src/Session/Loop.antt =====
-- The event loop: internal/bfd/session_loop.go, and SetAdminDown and SetPathDown of session.go. One
-- iteration of runLoop takes one input; the order of the inputs is that of the select's choices.
use gobfd.Common.{
  ℕ, ◌+◌, ◌*◌, List, [], ◌∷◌, ◌++◌, Option, none, some, Bool, true, false, not, ◌&&◌, ◌||◌, ltb,
  ◌==◌, if◌then◌else◌,
}
use gobfd.Packet.{admin_down, down, init, up, ControlPacket, diag_path_down, diag_admin_down}
use gobfd.Fsm.{timer_expired, event_admin_down, send_control, notify_down, apply_event, state_eq}
use gobfd.Session.{Security, Session, Env}
use gobfd.Session.Timing.{calc_detection_time_hot, reset_tx_timer, reset_detect_timer}
use gobfd.Session.Transmit.{maybe_send_control}
use gobfd.Session.Receive.{apply_fsm_event, execute_fsm_actions, handle_recv_packet}

-- `sessionControl`; `control_unknown` stands for the kinds with no name.
pub data Control : Type 0 where
  control_path_down control_admin_down control_unknown : Control

unfoldable pub handle_admin_down : Env → Session → Session
handle_admin_down env s =
    let r = apply_event s.cached_state event_admin_down in
    if not r.changed
    then record s { local_diag = diag_admin_down }
    else execute_fsm_actions env (record r { actions = r.actions ++ (send_control ∷ []) }) s

unfoldable pub handle_path_down : Env → Session → Session
handle_path_down env s =
    let s' = record s { local_diag = diag_path_down } in
    if state_eq s.cached_state down || state_eq s.cached_state admin_down
    then s'
    else execute_fsm_actions env
        (record {
          old_state = s.cached_state;
          new_state = down;
          actions = notify_down ∷ send_control ∷ [];
          changed = true;
        })
        s'

unfoldable pub handle_control_command : Env → Control → Session → Session
handle_control_command env control_path_down s = handle_path_down env s
handle_control_command env control_admin_down s = handle_admin_down env s
handle_control_command env control_unknown s = s

unfoldable pub handle_tx_timer : Env → Session → Session
handle_tx_timer env s = reset_tx_timer (maybe_send_control env s)

-- `time.Since(last) < 2*detectTime`, with the subtraction moved to the other side.
unfoldable pub maybe_reset_auth_seq_known : Env → Option Security → Session → Session
maybe_reset_auth_seq_known env none s = s
maybe_reset_auth_seq_known env (some sec) s =
    if not sec.auth_state.auth_seq_known
    then s
    else if s.last_packet_recv == 0
    then s
    else if ltb env.now (s.last_packet_recv + 2 * calc_detection_time_hot s)
    then s
    else record s {
      security =
          some (record sec { auth_state = record sec.auth_state { auth_seq_known = false } });
    }

unfoldable pub handle_detect_timer : Env → Session → Session
handle_detect_timer env s =
    let s' = maybe_reset_auth_seq_known env s.security s in
    if not (state_eq s'.cached_state init) && not (state_eq s'.cached_state up)
    then reset_detect_timer s'
    else apply_fsm_event env timer_expired s'

-- What the select of runLoop receives.
pub data Input : Type 0 where
  packet : ControlPacket → List ℕ → Input
  command : Control → Input
  tx_fired detect_fired : Input

unfoldable pub step : Env → Input → Session → Session
step env (packet pkt wire) s = handle_recv_packet env pkt wire s
step env (command c) s = handle_control_command env c s
step env tx_fired s = handle_tx_timer env s
step env detect_fired s = handle_detect_timer env s

-- The start of Run: the cached state is read and the timers are set.
unfoldable pub start : Session → Session
start s = reset_detect_timer (reset_tx_timer (record s { cached_state = s.state }))

-- runLoop over the inputs that arrive before the context ends; the environment may differ each time.
unfoldable pub run_loop : List (Env × Input) → Session → Session
run_loop [] s = s
run_loop ((env, i) ∷ rest) s = run_loop rest (step env i s)

-- SetAdminDown, called from another goroutine: whether the command went into the channel, and the
-- session. `free` says whether the control channel has room.
unfoldable pub set_admin_down : Bool → Bool → Session → Bool × Session
set_admin_down running free s =
    if running && free
    then (true, s)
    else (false, record s { local_diag = diag_admin_down; state = admin_down })

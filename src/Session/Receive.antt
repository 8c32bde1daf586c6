-- ===== src/Session/Receive.antt =====
-- FSM events and packet reception: applyFSMEvent, executeFSMActions, executeAction, logStateChange,
-- emitNotification, handleRecvPacket and the Poll Sequence of internal/bfd/session_packet.go.
use gobfd.Common.{
  ℕ, ◌+◌, ◌%◌, ◌^◌, List, [], ◌∷◌, ◌++◌, Option, none, some, Bool, true, false, not, ◌&&◌, ltb,
  if◌then◌else◌, length, ok, err,
}
use gobfd.Packet.{ControlPacket, diag_control_time_expired, diag_neighbor_down, diag_admin_down}
use gobfd.Auth.Verify.{verify}
use gobfd.Fsm.{
  Event, Action, send_control as act_send, notify_up, notify_down, set_diag_time_expired,
  set_diag_neighbor_down, set_diag_admin_down, unknown_action, FsmResult, apply_event,
  recv_state_to_event,
}
use gobfd.Duration.{duration_from_microseconds}
use gobfd.Session.{StateChange, Channel, Security, Session, Env}
use gobfd.Session.Timing.{reset_tx_timer, reset_detect_timer}
use gobfd.Session.Transmit.{rebuild_cached_packet, send_control}

-- The select with a default: a full channel drops the notification.
unfoldable pub emit : StateChange → Option Channel → Option Channel
emit change none = none
emit change (some ch) =
    if ltb (length ch.queue) ch.capacity
    then some (record ch { queue = ch.queue ++ (change ∷ []) })
    else some ch

unfoldable pub state_change_of : Env → FsmResult → Session → StateChange
state_change_of env r s = record {
  change_discr = s.local_discr;
  change_peer = s.peer_addr;
  change_old = r.old_state;
  change_new = r.new_state;
  change_diag = s.local_diag;
  change_time = env.now;
  change_type = s.session_type;
  change_interface = s.interface;
}

unfoldable pub emit_notification : Env → FsmResult → Session → Session
unfolding emit state_change_of
emit_notification env r s = record s { notify_ch = emit (state_change_of env r s) s.notify_ch }

unfoldable pub log_state_change : Env → FsmResult → Session → Session
log_state_change env r s = emit_notification env r (record s {
  state_transitions = (s.state_transitions + 1) % 2 ^ 64;
  last_state_change = env.now;
})

unfoldable pub execute_action : Env → Action → Session → Session
execute_action env act_send s = reset_tx_timer (send_control env s)
execute_action env notify_up s = reset_detect_timer (reset_tx_timer s)
execute_action env notify_down s =
    reset_detect_timer (reset_tx_timer (record s { remote_discr = 0 }))
execute_action env set_diag_time_expired s = record s { local_diag = diag_control_time_expired }
execute_action env set_diag_neighbor_down s = record s { local_diag = diag_neighbor_down }
execute_action env set_diag_admin_down s = record s { local_diag = diag_admin_down }
execute_action env unknown_action s = s

unfoldable pub execute_actions : Env → List Action → Session → Session
execute_actions env [] s = s
execute_actions env (a ∷ rest) s = execute_actions env rest (execute_action env a s)

-- The new state is stored, and told to the consumers, before any action runs.
unfoldable pub record_change : Env → FsmResult → Session → Session
record_change env r s =
    if r.changed
    then log_state_change env r (record s { state = r.new_state; cached_state = r.new_state })
    else s

unfoldable pub execute_fsm_actions : Env → FsmResult → Session → Session
execute_fsm_actions env r s = execute_actions env r.actions (record_change env r s)

unfoldable pub apply_fsm_event : Env → Event → Session → Session
apply_fsm_event env e s = execute_fsm_actions env (apply_event s.cached_state e) s

abbrev pub has_security : Option Security → Bool
has_security none = false
has_security (some sec) = true

unfoldable pub check_auth_consistency : ControlPacket → Session → Bool
check_auth_consistency pkt s =
    if pkt.auth_present && not (has_security s.security)
    then false
    else if not pkt.auth_present && has_security s.security
    then false
    else true

-- `s.auth.Verify` where authentication is configured; `none` discards the packet.
unfoldable pub authenticate :
    Env → Option Security → ControlPacket → List ℕ → Session → Option Session
authenticate env none pkt wire s = some s
authenticate env (some sec) pkt wire s =
    let v =
      verify env.crypto sec.authenticator sec.auth_state sec.key_store pkt wire (length wire) in
    elim v.outcome [
      | err e ↦ none
      | ok u ↦ some (record s { security = some (record sec { auth_state = v.new_state }) })
    ]

unfoldable pub record_valid_received_packet : Env → Session → Session
record_valid_received_packet env s = record s {
  packets_received = (s.packets_received + 1) % 2 ^ 64;
  last_packet_recv = env.now;
}

-- Steps 13 to 17.
unfoldable pub learn : ControlPacket → Session → Session
learn pkt s = record s {
  remote_discr = pkt.my_discriminator;
  remote_demand_mode = pkt.demand;
  remote_min_rx = duration_from_microseconds pkt.required_min_rx_interval;
  remote_desired_min_tx = duration_from_microseconds pkt.desired_min_tx_interval;
  remote_detect_mult = pkt.detect_mult;
  remote_state = pkt.state;
}

unfoldable pub apply_pending_params : Session → Session
apply_pending_params s =
    let s' =
      if ltb 0 s.pending_desired_min_tx
      then record s { desired_min_tx = s.pending_desired_min_tx; pending_desired_min_tx = 0 }
      else s in
    if ltb 0 s'.pending_required_min_rx
    then record s' { required_min_rx = s'.pending_required_min_rx; pending_required_min_rx = 0 }
    else s'

unfoldable pub terminate_poll_sequence : Env → Session → Session
terminate_poll_sequence env s =
    rebuild_cached_packet env (apply_pending_params (record s { poll_active = false }))

unfoldable pub answer_flags : Env → ControlPacket → Session → Session
answer_flags env pkt s =
    let s' = if pkt.final && s.poll_active then terminate_poll_sequence env s else s in
    if pkt.poll then record s' { pending_final = true } else s'

-- The end of handleRecvPacket: a Final that no action has sent is sent now.
unfoldable pub send_pending_final : Env → Session → Session
send_pending_final env s = if s.pending_final then reset_tx_timer (send_control env s) else s

-- handleRecvPacket behind the authentication checks.
unfoldable pub process_packet : Env → ControlPacket → Session → Session
process_packet env pkt s =
    let s1 = learn pkt (record_valid_received_packet env s) in
    let s2 = reset_detect_timer (answer_flags env pkt s1) in
    send_pending_final env (apply_fsm_event env (recv_state_to_event pkt.state) s2)

unfoldable pub handle_recv_packet : Env → ControlPacket → List ℕ → Session → Session
handle_recv_packet env pkt wire s =
    if not (check_auth_consistency pkt s)
    then s
    else elim (authenticate env s.security pkt wire s) [
      | none ↦ s
      | some s' ↦ process_packet env pkt s'
    ]

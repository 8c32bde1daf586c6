-- ===== src/Session/States.antt =====
-- How the parts of a step of a session (internal/bfd/session_packet.go, session_loop.go) change
-- its two copies of the state.
use gobfd.Common.{ℕ, ◌≡◌, sym, ◌∙◌, arith, List, Option, some, false}
use mathlib.Core.Path.{subst}
use gobfd.Packet.{State, admin_down, reserved, ControlPacket}
use gobfd.Fsm.{Event, recv_admin_down, FsmResult, apply_event, recv_state_to_event}
use gobfd.Fsm.Rules.{apply_event-result}
use gobfd.Session.{Session, Security, Env}
use gobfd.Session.Timing.{reset_detect_timer}
use gobfd.Session.Receive.{
  emit_notification, log_state_change, record_change, execute_fsm_actions, apply_fsm_event,
  authenticate, learn, record_valid_received_packet, apply_pending_params, terminate_poll_sequence,
  answer_flags, send_pending_final, process_packet,
}
use gobfd.Session.Transmit.{send_control}
use gobfd.Session.Loop.{maybe_reset_auth_seq_known}
use gobfd.Session.Frame.{
  Kept, execute_actions-Kept, send_control-Kept, rebuild_cached_packet-Kept, reset_tx_timer-Kept,
  reset_detect_timer-Kept,
}

-- The session is in a state, by what others read and by the goroutine's own copy.
pub record InState (st : State) (s : Session) : Type 0 where
  pub shown : s.state ≡ st
  pub cached : s.cached_state ≡ st

pub Kept-InState : {s t : Session} (st : State) → Kept s t → InState st s → InState st t
Kept-InState st k h = record {
  shown = k.state_kept ∙ h.shown;
  cached = k.cached_state_kept ∙ h.cached;
}

pub record_change-InState :
    (env : Env) (r : FsmResult) (s : Session)
    → InState r.old_state s
    → (r.changed ≡ false → r.new_state ≡ r.old_state)
    → InState r.new_state (record_change env r s)
unfolding record_change log_state_change emit_notification
record_change-InState env r s h same = ground (arith, same)

pub execute_fsm_actions-InState :
    (env : Env) (r : FsmResult) (s : Session)
    → InState r.old_state s
    → (r.changed ≡ false → r.new_state ≡ r.old_state)
    → InState r.new_state (execute_fsm_actions env r s)
unfolding execute_fsm_actions
execute_fsm_actions-InState env r s h same =
    Kept-InState r.new_state (execute_actions-Kept env r.actions (record_change env r s))
      (record_change-InState env r s h same)

pub apply_event_same :
    (st : State) (e : Event)
    → (apply_event st e).changed ≡ false
    → (apply_event st e).new_state ≡ (apply_event st e).old_state
unfolding apply_event
apply_event_same (reserved n) e h = ground arith
apply_event_same admin_down recv_admin_down h = ground arith
apply_event_same _ _ h = ground arith

pub apply_fsm_event-InState :
    (env : Env) (e : Event) (st : State) (s : Session)
    → InState st s
    → InState (apply_event st e).new_state (apply_fsm_event env e s)
unfolding apply_fsm_event
apply_fsm_event-InState env e st s h =
    subst (λ c. InState (apply_event st e).new_state (execute_fsm_actions env (apply_event c e) s))
      (sym h.cached)
      (execute_fsm_actions-InState env (apply_event st e) s
        (subst (λ c. InState c s) (sym (apply_event-result st e).0) h) (apply_event_same st e))

pub answer_flags-InState :
    (env : Env) (pkt : ControlPacket) (st : State) (s : Session)
    → InState st s
    → InState st (answer_flags env pkt s)
unfolding answer_flags terminate_poll_sequence apply_pending_params
answer_flags-InState env pkt st s h = ground (
  arith,
  rebuild_cached_packet-Kept env (apply_pending_params (record s { poll_active = false })),
)

pub learn-InState :
    (env : Env) (pkt : ControlPacket) (st : State) (s : Session)
    → InState st s
    → InState st (learn pkt (record_valid_received_packet env s))
unfolding learn record_valid_received_packet
learn-InState env pkt st s h = record { shown = h.shown; cached = h.cached }

pub send_pending_final-InState :
    (env : Env) (st : State) (s : Session) → InState st s → InState st (send_pending_final env s)
unfolding send_pending_final
send_pending_final-InState env st s h =
    ground (arith, send_control-Kept env s, reset_tx_timer-Kept (send_control env s))

pub process_packet-InState :
    (env : Env) (pkt : ControlPacket) (st : State) (s : Session)
    → InState st s
    → InState (apply_event st (recv_state_to_event pkt.state)).new_state (process_packet env pkt s)
unfolding process_packet
process_packet-InState env pkt st s h =
    let s1 = learn pkt (record_valid_received_packet env s) in
    let s2 = answer_flags env pkt s1 in
    send_pending_final-InState env _ _ (
      apply_fsm_event-InState env (recv_state_to_event pkt.state) st (reset_detect_timer s2) (
        Kept-InState st (reset_detect_timer-Kept s2)
          (answer_flags-InState env pkt st s1 (learn-InState env pkt st s h))))

pub authenticate-InState :
    (env : Env) (o : Option Security) (pkt : ControlPacket) (wire : List ℕ) (st : State)
    (s s' : Session)
    → InState st s
    → authenticate env o pkt wire s ≡ some s'
    → InState st s'
unfolding authenticate
authenticate-InState env o pkt wire st s s' h e = ground arith

pub maybe_reset-InState :
    (env : Env) (o : Option Security) (st : State) (s : Session)
    → InState st s
    → InState st (maybe_reset_auth_seq_known env o s)
unfolding maybe_reset_auth_seq_known
maybe_reset-InState env o st s h = ground arith

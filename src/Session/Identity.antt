-- ===== src/Session/Identity.antt =====
-- The local discriminator of a session through the event loop (internal/bfd/session_loop.go and
-- session_packet.go).
use gobfd.Common.{
  ℕ, ◌≡◌, ◌∙◌, refl, arith, List, Option, none, some, inl, inr, Option-cases, Bool, true, false,
  if◌then◌else◌,
}
use gobfd.Packet.{ControlPacket}
use gobfd.Fsm.{Event, FsmResult, apply_event}
use gobfd.Session.{Session, Security, Env}
use gobfd.Session.Timing.{reset_tx_timer, reset_detect_timer}
use gobfd.Session.Transmit.{send_control}
use gobfd.Session.Frame.{
  rebuild_cached_packet-Kept, send_control-Kept, maybe_send_control-Kept, execute_actions-Kept,
  reset_tx_timer-Kept,
}
use gobfd.Session.Receive.{
  record_change, log_state_change, emit_notification, execute_fsm_actions, apply_fsm_event,
  authenticate, record_valid_received_packet, learn, apply_pending_params, terminate_poll_sequence,
  answer_flags, send_pending_final, process_packet, handle_recv_packet,
}
use gobfd.Session.Loop.{
  Input, packet, command, tx_fired, detect_fired, control_path_down, control_admin_down,
  control_unknown, step, handle_admin_down, handle_path_down, handle_control_command,
  handle_tx_timer, handle_detect_timer, maybe_reset_auth_seq_known,
}

fsm_actions-discr :
    (env : Env) (r : FsmResult) (s : Session)
    → (execute_fsm_actions env r s).local_discr ≡ s.local_discr
unfolding execute_fsm_actions record_change log_state_change emit_notification
fsm_actions-discr env r s =
    (execute_actions-Kept env r.actions (record_change env r s)).local_discr_kept ∙ ground arith

apply_fsm_event-discr :
    (env : Env) (e : Event) (s : Session) → (apply_fsm_event env e s).local_discr ≡ s.local_discr
unfolding apply_fsm_event
apply_fsm_event-discr env e s = fsm_actions-discr env (apply_event s.cached_state e) s

answer_flags-discr :
    (env : Env) (pkt : ControlPacket) (s : Session)
    → (answer_flags env pkt s).local_discr ≡ s.local_discr
unfolding answer_flags terminate_poll_sequence apply_pending_params
answer_flags-discr env pkt s = ground (
  arith,
  rebuild_cached_packet-Kept env (apply_pending_params (record s { poll_active = false })),
)

send_pending_final-discr :
    (env : Env) (s : Session) → (send_pending_final env s).local_discr ≡ s.local_discr
unfolding send_pending_final
send_pending_final-discr env s =
    ground (arith, send_control-Kept env s, reset_tx_timer-Kept (send_control env s))

process_packet-discr :
    (env : Env) (pkt : ControlPacket) (s : Session)
    → (process_packet env pkt s).local_discr ≡ s.local_discr
unfolding process_packet learn record_valid_received_packet reset_detect_timer
process_packet-discr env pkt s =
    send_pending_final-discr env _ ∙ apply_fsm_event-discr env _ _ ∙ answer_flags-discr env pkt _

authenticate-discr :
    (env : Env) (o : Option Security) (pkt : ControlPacket) (wire : List ℕ) (s s' : Session)
    → authenticate env o pkt wire s ≡ some s'
    → s'.local_discr ≡ s.local_discr
unfolding authenticate
authenticate-discr env none pkt wire s s' h = ground arith
authenticate-discr env (some sec) pkt wire s s' h = ground arith

handle_recv_packet-discr :
    (env : Env) (pkt : ControlPacket) (wire : List ℕ) (s : Session)
    → (handle_recv_packet env pkt wire s).local_discr ≡ s.local_discr
unfolding handle_recv_packet
handle_recv_packet-discr env pkt wire s =
    elim (Option-cases (authenticate env s.security pkt wire s)) [
      | inl refused ↦ ground (arith, refused)
      | inr (s', e) ↦ ground (
        arith,
        e,
        process_packet-discr env pkt s',
        authenticate-discr env s.security pkt wire s s' e,
      )
    ]

either-discr :
    (b : Bool) (x y s : Session)
    → x.local_discr ≡ s.local_discr
    → y.local_discr ≡ s.local_discr
    → (if b then x else y).local_discr ≡ s.local_discr
either-discr true x y s p q = p
either-discr false x y s p q = q

handle_path_down-discr :
    (env : Env) (s : Session) → (handle_path_down env s).local_discr ≡ s.local_discr
unfolding handle_path_down
handle_path_down-discr env s = either-discr _ _ _ s refl (fsm_actions-discr env _ _)

handle_admin_down-discr :
    (env : Env) (s : Session) → (handle_admin_down env s).local_discr ≡ s.local_discr
unfolding handle_admin_down
handle_admin_down-discr env s = either-discr _ _ _ s refl (fsm_actions-discr env _ s)

reset_auth-discr :
    (env : Env) (o : Option Security) (s : Session)
    → (maybe_reset_auth_seq_known env o s).local_discr ≡ s.local_discr
unfolding maybe_reset_auth_seq_known
reset_auth-discr env none s = refl
reset_auth-discr env (some sec) s = ground arith

handle_detect_timer-discr :
    (env : Env) (s : Session) → (handle_detect_timer env s).local_discr ≡ s.local_discr
unfolding handle_detect_timer reset_detect_timer
handle_detect_timer-discr env s =
    either-discr _ _ _ s (reset_auth-discr env s.security s)
      (apply_fsm_event-discr env _ _ ∙ reset_auth-discr env s.security s)

-- No step of the event loop changes the discriminator.
pub step-local_discr :
    (env : Env) (i : Input) (s : Session) → (step env i s).local_discr ≡ s.local_discr
unfolding step handle_control_command handle_tx_timer reset_tx_timer
step-local_discr env (packet pkt wire) s = handle_recv_packet-discr env pkt wire s
step-local_discr env (command control_path_down) s = handle_path_down-discr env s
step-local_discr env (command control_admin_down) s = handle_admin_down-discr env s
step-local_discr env (command control_unknown) s = refl
step-local_discr env tx_fired s = ground (arith, maybe_send_control-Kept env s)
step-local_discr env detect_fired s = handle_detect_timer-discr env s

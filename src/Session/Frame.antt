-- ===== src/Session/Frame.antt =====
-- What the transmission and the actions of a session (internal/bfd/session_packet.go and
-- session_loop.go) leave alone.
use gobfd.Common.{
  ℕ, ◌-◌, ◌≡◌, arith, List, [], ◌∷◌, Option, none, some, false, length, replicate, get_or,
  length-write_at,
}
use gobfd.Packet.{ControlPacket}
use gobfd.Packet.Sizes.{length-marshal}
use gobfd.Auth.Sign.{Signed, sign}
use gobfd.Auth.Sizes.{length-sign}
use gobfd.Fsm.{Action, send_control as act_send, notify_up, notify_down}
use gobfd.Session.{Session, Security, Env}
use gobfd.Session.Timing.{reset_tx_timer, reset_detect_timer}
use gobfd.Session.Transmit.{
  control_packet, build_control_packet, cache_packet, store_signed, sign_cached_packet,
  rebuild_cached_packet, pad_cached_packet, hand_over, send_control, maybe_send_control,
}
use gobfd.Session.Receive.{execute_action, execute_actions}

-- The second session agrees with the first on all that no transmission and no action changes.
pub record Kept (s t : Session) : Type 0 where
  pub state_kept : t.state ≡ s.state
  pub cached_state_kept : t.cached_state ≡ s.cached_state
  pub remote_state_kept : t.remote_state ≡ s.remote_state
  pub local_discr_kept : t.local_discr ≡ s.local_discr
  pub desired_kept : t.desired_min_tx ≡ s.desired_min_tx
  pub required_kept : t.required_min_rx ≡ s.required_min_rx
  pub remote_required_kept : t.remote_min_rx ≡ s.remote_min_rx
  pub remote_desired_kept : t.remote_desired_min_tx ≡ s.remote_desired_min_tx
  pub remote_mult_kept : t.remote_detect_mult ≡ s.remote_detect_mult
  pub mult_kept : t.detect_mult ≡ s.detect_mult
  pub poll_kept : t.poll_active ≡ s.poll_active
  pub pending_desired_kept : t.pending_desired_min_tx ≡ s.pending_desired_min_tx
  pub pending_required_kept : t.pending_required_min_rx ≡ s.pending_required_min_rx
  pub role_kept : t.role ≡ s.role
  pub padded_kept : t.padded_pdu_size ≡ s.padded_pdu_size
  pub notify_kept : t.notify_ch ≡ s.notify_ch
  pub transitions_kept : t.state_transitions ≡ s.state_transitions
  pub buffer_kept : length t.cached_packet ≡ length s.cached_packet

pub Kept-refl : (s : Session) → Kept s s
Kept-refl s = ground arith

pub Kept-trans : {s t u : Session} → Kept s t → Kept t u → Kept s u
Kept-trans k l = ground arith

pub reset_tx_timer-Kept : (s : Session) → Kept s (reset_tx_timer s)
unfolding reset_tx_timer
reset_tx_timer-Kept s = ground arith

pub reset_detect_timer-Kept : (s : Session) → Kept s (reset_detect_timer s)
unfolding reset_detect_timer
reset_detect_timer-Kept s = ground arith

store_signed-Kept :
    (s : Session) (sec : Security) (x : Signed)
    → length x.buffer ≡ length s.cached_packet
    → Kept s (store_signed s sec x)
unfolding store_signed
store_signed-Kept s sec x h = ground (arith, length-marshal x.signed_packet x.buffer)

forget-Kept : (s : Session) → Kept s (record s { remote_discr = 0 })
forget-Kept s = ground arith

clear_final-Kept : (s : Session) → Kept s (record s { pending_final = false })
clear_final-Kept s = ground arith

cache_packet-Kept :
    (env : Env) (o : Option Security) (pkt : ControlPacket) (s : Session)
    → Kept s (cache_packet env o pkt s)
unfolding cache_packet sign_cached_packet
cache_packet-Kept env none pkt s = ground (arith, length-marshal pkt s.cached_packet)
cache_packet-Kept env (some sec) pkt s =
    store_signed-Kept s sec
      (sign env.crypto sec.authenticator sec.auth_state sec.key_store pkt s.cached_packet)
      (length-sign env.crypto sec.authenticator sec.auth_state sec.key_store pkt s.cached_packet)

pub rebuild_cached_packet-Kept : (env : Env) (s : Session) → Kept s (rebuild_cached_packet env s)
unfolding rebuild_cached_packet build_control_packet
rebuild_cached_packet-Kept env s =
    Kept-trans (clear_final-Kept s)
      (cache_packet-Kept env s.security (control_packet s) (record s { pending_final = false }))

pad_cached_packet-Kept : (s : Session) → Kept s (pad_cached_packet s).0
unfolding pad_cached_packet
pad_cached_packet-Kept s = ground (
  arith,
  length-write_at (get_or s.cached_packet 3 0)
      (replicate (s.padded_pdu_size - get_or s.cached_packet 3 0) 0) s.cached_packet,
)

hand_over-Kept : (env : Env) (bytes : List ℕ) (s : Session) → Kept s (hand_over env bytes s)
unfolding hand_over
hand_over-Kept env bytes s = ground arith

pub send_control-Kept : (env : Env) (s : Session) → Kept s (send_control env s)
unfolding send_control
send_control-Kept env s =
    Kept-trans (rebuild_cached_packet-Kept env s)
      (Kept-trans (pad_cached_packet-Kept (rebuild_cached_packet env s)) (hand_over-Kept env _ _))

pub maybe_send_control-Kept : (env : Env) (s : Session) → Kept s (maybe_send_control env s)
unfolding maybe_send_control
maybe_send_control-Kept env s = ground (arith, send_control-Kept env s)

pub execute_action-Kept : (env : Env) (a : Action) (s : Session) → Kept s (execute_action env a s)
unfolding execute_action
execute_action-Kept env act_send s = Kept-trans (send_control-Kept env s) (reset_tx_timer-Kept _)
execute_action-Kept env notify_up s = Kept-trans (reset_tx_timer-Kept s) (reset_detect_timer-Kept _)
execute_action-Kept env notify_down s =
    Kept-trans (forget-Kept s) (Kept-trans (reset_tx_timer-Kept _) (reset_detect_timer-Kept _))
execute_action-Kept env _ s = ground arith

pub execute_actions-Kept :
    (env : Env) (l : List Action) (s : Session) → Kept s (execute_actions env l s)
unfolding execute_actions
execute_actions-Kept env [] s = Kept-refl s
execute_actions-Kept env (a ∷ l) s =
    Kept-trans (execute_action-Kept env a s) (execute_actions-Kept env l (execute_action env a s))

-- ===== src/Session/Poll.antt =====
-- The Poll bit and its answer: handleRecvPacket of internal/bfd/session_packet.go.
use gobfd.Common.{
  ℕ, ◌≡◌, ◌⊎◌, refl, sym, ap, ◌∙◌, List, [], ◌∷◌, ◌++◌, true, false, arith, inl, inr, Bool-cases,
  ok, if◌then◌else◌, none,
}
use mathlib.Core.Path.{subst}
use gobfd.Packet.{down, ControlPacket}
use gobfd.Packet.Unmarshal.{unmarshal_control_packet}
use gobfd.Fsm.{
  Action, notify_down, FsmResult, apply_event, recv_state_to_event, Event, send_control as act_send,
}
use gobfd.Fsm.Rules.{IsState, has_action, apply_event-result}
use gobfd.Session.{Session, Env}
use gobfd.Session.Timing.{reset_tx_timer, reset_detect_timer}
use gobfd.Session.Transmit.{control_packet, send_control}
use gobfd.Session.Receive.{
  learn, record_valid_received_packet, answer_flags, send_pending_final, process_packet,
  handle_recv_packet, apply_fsm_event, execute_fsm_actions, execute_action, execute_actions,
  record_change, log_state_change, emit_notification, check_auth_consistency,
}
use gobfd.Session.Frame.{execute_action-Kept}
use gobfd.Session.Wire.{send_control_decodes}
use gobfd.Session.Invariant.{
  Known, execute_action-IsSound, record_change-IsSound, apply_fsm_event-IsSound,
}
use gobfd.Session.Sound.{IsSound}
use gobfd.Session.Reception.{IsReceived, learned, learned-IsReady, plain_passes}

-- One of the buffers decodes to a packet with the F bit.
abbrev pub HasFinal : List (List ℕ) → Type 0
HasFinal [] = ⊥
HasFinal (bytes ∷ rest) =
    ((pkt : ControlPacket) × (unmarshal_control_packet bytes ≡ ok pkt) × (pkt.final ≡ true))
    ⊎ HasFinal rest

-- Since `old` was sent, a packet with the F bit was.
abbrev pub Answered : List (List ℕ) → Session → Type 0
Answered old s = (new : List (List ℕ)) × (s.sent ≡ new ++ old) × HasFinal new

abbrev Answering : List (List ℕ) → Session → Type 0
Answering old s = ((s.pending_final ≡ true) × (s.sent ≡ old)) ⊎ Answered old s

send_answers :
    (env : Env) (old : List (List ℕ)) (s : Session)
    → IsSound s
    → Answering old s
    → Answered old (send_control env s)
unfolding control_packet
send_answers env old s i (inl (p, e)) =
    let (bytes, sent_, decodes, l, z, says) = send_control_decodes env s i.can_send in
    (bytes ∷ [], sent_ ∙ ap (λ x. bytes ∷ x) e, inl (_, decodes, p))
send_answers env old s i (inr (new, e, f)) =
    let (bytes, sent_, decodes, l, z, says) = send_control_decodes env s i.can_send in
    (bytes ∷ new, sent_ ∙ ap (λ x. bytes ∷ x) e, inr f)

-- The new session has sent and still owes what the other has.
abbrev Same : Session → Session → Type 0
Same s t = (t.sent ≡ s.sent) × (t.pending_final ≡ s.pending_final)

carry_answer : (old : List (List ℕ)) (s t : Session) → Same s t → Answering old s → Answering old t
carry_answer old s t (e, p) (inl (q, f)) = inl (p ∙ q, e ∙ f)
carry_answer old s t (e, p) (inr (new, f, h)) = inr (new, e ∙ f, h)

action_answers :
    (env : Env) (old : List (List ℕ)) (a : Action) (s : Session)
    → IsSound s
    → Answering old s
    → Answering old (execute_action env a s)
unfolding execute_action reset_tx_timer reset_detect_timer
action_answers env old act_send s i h = inr (send_answers env old s i h)
action_answers env old a s i h = carry_answer old s (execute_action env a s) (refl, refl) h

actions_answer :
    (env : Env) (old : List (List ℕ)) (l : List Action) (s : Session)
    → (has_action notify_down l ≡ true → s.cached_state ≡ down)
    → IsSound s
    → Answering old s
    → Answering old (execute_actions env l s)
unfolding execute_actions
actions_answer env old [] s d i h = h
actions_answer env old (a ∷ l) s d i h =
    let k = execute_action-Kept env a s in
    actions_answer env old l (execute_action env a s) (λ e. k.cached_state_kept ∙ d (ground arith))
      (execute_action-IsSound env a s (λ e. d (ground arith)) i) (action_answers env old a s i h)

change_answers : (env : Env) (r : FsmResult) (s : Session) → Same s (record_change env r s)
unfolding record_change log_state_change emit_notification
change_answers env r s = ground arith

event_answers :
    (env : Env) (old : List (List ℕ)) (e : Event) (s : Session)
    → IsState (apply_event s.cached_state e).new_state
    → Known s (apply_event s.cached_state e).new_state
    → IsSound s
    → Answering old s
    → Answering old (apply_fsm_event env e s)
unfolding apply_fsm_event execute_fsm_actions record_change log_state_change emit_notification
event_answers env old e s k known i h =
    let r = apply_event s.cached_state e in
    actions_answer env old r.actions (record_change env r s)
      (ground (arith, apply_event-result s.cached_state e))
      (record_change-IsSound env r s k known i)
      (carry_answer old s (record_change env r s) (change_answers env r s) h)

final_answers :
    (env : Env) (old : List (List ℕ)) (s : Session)
    → IsSound s
    → Answering old s
    → Answered old (send_pending_final env s)
unfolding send_pending_final reset_tx_timer
final_answers env old s i h = elim (Bool-cases s.pending_final) [
  | inl e ↦
      subst (λ b. Answered old (if b then reset_tx_timer (send_control env s) else s)) (sym e)
        (send_answers env old s i h)
  | inr e ↦
      subst (λ b. Answered old (if b then reset_tx_timer (send_control env s) else s)) (sym e)
        (settled h e)
]
  where
    settled : Answering old s → s.pending_final ≡ false → Answered old s
    settled (inl (p, q)) e = absurd (cc)
    settled (inr a) e = a

owed :
    (env : Env) (pkt : ControlPacket) (s : Session)
    → s.poll_active ≡ false
    → pkt.poll ≡ true
    → Answering s.sent
        (reset_detect_timer (answer_flags env pkt (learn pkt (record_valid_received_packet env s))))
unfolding reset_detect_timer answer_flags learn record_valid_received_packet
owed env pkt s quiet p = inl (ground arith)

pub plain_consistent :
    (pkt : ControlPacket) (s : Session)
    → pkt.auth_present ≡ false
    → s.security ≡ none
    → check_auth_consistency pkt s ≡ true
unfolding check_auth_consistency
plain_consistent pkt s a e = ground (arith, a, e)

-- A packet with the Poll bit is answered before the handler returns: a sound session without
-- authentication that takes in such a packet, delivered by UnmarshalControlPacket and without a
-- section, hands a packet with the Final bit to the sender. This holds in every state, also in
-- AdminDown, where RFC 5880 section 6.8.6 has the packet discarded before its Poll bit is answered,
-- and whichever actions the state machine takes.
pub poll-Answered :
    (env : Env) (pkt : ControlPacket) (wire : List ℕ) (s : Session)
    → IsSound s
    → IsReceived pkt
    → pkt.auth_present ≡ false
    → pkt.poll ≡ true
    → Answered s.sent (handle_recv_packet env pkt wire s)
unfolding handle_recv_packet process_packet
poll-Answered env pkt wire s i p a q =
    let r = learned-IsReady env pkt s p i in
    let e = recv_state_to_event pkt.state in
    let s3 = learned env pkt s in
    let passes : check_auth_consistency pkt s ≡ true = plain_consistent pkt s a i.can_send.plain in
    rw (passes, plain_passes env s.security pkt wire s i.can_send.plain)
      (final_answers env s.sent (apply_fsm_event env e s3)
        (apply_fsm_event-IsSound env e s3 r.named r.known r.sound)
        (event_answers env s.sent e s3 r.named r.known r.sound (owed env pkt s i.no_poll q)))

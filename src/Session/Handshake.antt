-- ===== src/Session/Handshake.antt =====
-- Two sessions that exchange their packets: the event loops (internal/bfd/session_loop.go) and
-- packet handlers (session_packet.go) of both ends of a path that loses nothing.
use gobfd.Common.{
  ℕ, ◌≡◌, ◌≢◌, ◌⊎◌, refl, sym, ap, ◌∙◌, arith, List, [], ◌∷◌, false, inl, inr, Bool-cases,
  if◌then◌else◌,
}
use mathlib.Core.Path.{subst}
use gobfd.Packet.{State, down, init, up, ControlPacket}
use gobfd.Fsm.{
  Action, send_control as act_send, notify_up, FsmResult, apply_event, recv_state_to_event,
}
use gobfd.Fsm.Rules.{apply_event-result}
use gobfd.Session.{Session, active, Env}
use gobfd.Session.Timing.{reset_tx_timer, reset_detect_timer}
use gobfd.Session.Transmit.{send_control}
use gobfd.Session.Receive.{
  learn, record_valid_received_packet, answer_flags, send_pending_final, process_packet,
  handle_recv_packet, apply_fsm_event, execute_fsm_actions, execute_action, execute_actions,
  record_change,
}
use gobfd.Session.Loop.{packet, tx_fired, step}
use gobfd.Session.States.{
  InState, record_change-InState, apply_event_same, process_packet-InState, apply_fsm_event-InState,
}
use gobfd.Session.Protocol.{step-rfc, admitted}
use gobfd.Session.Sound.{IsSound}
use gobfd.Session.Reception.{
  IsReceived, plain_passes, learned, learned-IsReady, process_packet-IsSound,
}
use gobfd.Session.Invariant.{apply_fsm_event-IsSound, record_change-IsSound}
use gobfd.Session.Life.{step-IsSound}
use gobfd.Session.Poll.{plain_consistent}
use gobfd.Session.Exchange.{receive, take_in, deliver, Says, send_control-Says, resent, tx-Says}

-- The actions behind the transmission send nothing.
quiet :
    (env : Env) (rest : List Action) (s : Session)
    → (rest ≡ []) ⊎ (rest ≡ notify_up ∷ [])
    → (execute_actions env rest s).sent ≡ s.sent
unfolding execute_actions execute_action reset_tx_timer reset_detect_timer
quiet env rest s (inl e) = ap (λ l. (execute_actions env l s).sent) e
quiet env rest s (inr e) = ap (λ l. (execute_actions env l s).sent) e

actions-Says :
    (env : Env) (r : FsmResult) (rest : List Action) (s : Session)
    → r.actions ≡ act_send ∷ rest
    → (rest ≡ []) ⊎ (rest ≡ notify_up ∷ [])
    → IsSound (record_change env r s)
    → (record_change env r s).cached_state ≡ r.new_state
    → Says r.new_state (execute_fsm_actions env r s)
unfolding execute_fsm_actions execute_actions execute_action reset_tx_timer
actions-Says env r rest s e q i c =
    let t = record_change env r s in
    resent r.new_state (send_control env t) (execute_fsm_actions env r s)
      (ap (λ l. (execute_actions env l t).sent) e
        ∙ quiet env rest (reset_tx_timer (send_control env t)) q)
      (subst (λ x. Says x (send_control env t)) c (send_control-Says env t i))

final-Says :
    (env : Env) (st : State) (s : Session)
    → IsSound s
    → s.cached_state ≡ st
    → Says st s
    → Says st (send_pending_final env s)
unfolding send_pending_final reset_tx_timer
final-Says env st s i c w = elim (Bool-cases s.pending_final) [
  | inl e ↦
      subst (λ b. Says st (if b then reset_tx_timer (send_control env s) else s)) (sym e)
        (resent st (send_control env s) (reset_tx_timer (send_control env s)) refl
          (subst (λ x. Says x (send_control env s)) c (send_control-Says env s i)))
  | inr e ↦ subst (λ b. Says st (if b then reset_tx_timer (send_control env s) else s)) (sym e) w
]

learned_state :
    (env : Env) (pkt : ControlPacket) (s : Session)
    → s.poll_active ≡ false
    → (learned env pkt s).cached_state ≡ s.cached_state
unfolding reset_detect_timer answer_flags learn record_valid_received_packet
learned_state env pkt s q = ground arith

process-Says :
    (env : Env) (pkt : ControlPacket) (st : State) (rest : List Action) (s : Session)
    → IsReceived pkt
    → IsSound s
    → s.cached_state ≡ st
    → (apply_event st (recv_state_to_event pkt.state)).actions ≡ act_send ∷ rest
    → (rest ≡ []) ⊎ (rest ≡ notify_up ∷ [])
    → Says (apply_event st (recv_state_to_event pkt.state)).new_state (process_packet env pkt s)
unfolding process_packet apply_fsm_event
process-Says env pkt st rest s p i c e q =
    let ready = learned-IsReady env pkt s p i in
    let ev = recv_state_to_event pkt.state in
    let s3 = learned env pkt s in
    let c3 : s3.cached_state ≡ st = learned_state env pkt s i.no_poll ∙ c in
    let r = apply_event s3.cached_state ev in
    let acts : r.actions ≡ act_send ∷ rest = ap (λ x. (apply_event x ev).actions) c3 ∙ e in
    let old : r.old_state ≡ s3.cached_state = (apply_event-result s3.cached_state ev).0 in
    let at : InState r.old_state s3 = record {
      shown = ready.sound.copies_agree ∙ sym old;
      cached = sym old;
    } in
    let moved = record_change-InState env r s3 at (apply_event_same s3.cached_state ev) in
    let after =
      apply_fsm_event-InState env ev s3.cached_state s3
        (record { shown = ready.sound.copies_agree; cached = refl }) in
    subst
      (λ x.
        Says (apply_event x ev).new_state (send_pending_final env (execute_fsm_actions env r s3)))
      c3
      (final-Says env r.new_state (apply_fsm_event env ev s3)
        (apply_fsm_event-IsSound env ev s3 ready.named ready.known ready.sound) after.cached
        (actions-Says env r rest s3 acts q
          (record_change-IsSound env r s3 ready.named ready.known ready.sound) moved.cached))

accepted :
    (env : Env) (pkt : ControlPacket) (wire : List ℕ) (s : Session)
    → IsSound s
    → pkt.auth_present ≡ false
    → step env (packet pkt wire) s ≡ process_packet env pkt s
unfolding step handle_recv_packet
accepted env pkt wire s i a = rw (
  plain_consistent pkt s a i.can_send.plain,
  plain_passes env s.security pkt wire s i.can_send.plain,
)

-- The receiver of what a session says.
delivered :
    (env : Env) (told st : State) (rest : List Action) (from to : Session)
    → Says told from
    → IsSound to
    → to.cached_state ≡ st
    → (apply_event st (recv_state_to_event told)).actions ≡ act_send ∷ rest
    → (rest ≡ []) ⊎ (rest ≡ notify_up ∷ [])
    → IsSound (deliver env from to)
      × Says (apply_event st (recv_state_to_event told)).new_state (deliver env from to)
      × ((deliver env from to).cached_state ≡ (apply_event st (recv_state_to_event told)).new_state)
unfolding deliver
delivered env told st rest from to w i c e q =
    let goal : State → Session → Type 0 = λ heard t.
      IsSound t
      × Says (apply_event st (recv_state_to_event heard)).new_state t
      × (t.cached_state ≡ (apply_event st (recv_state_to_event heard)).new_state) in
    let arrives : take_in env from.sent to ≡ process_packet env w.pkt to =
      ap (λ l. take_in env l to) w.latest
      ∙ ap (λ r. receive env r w.bytes to) w.decodes
      ∙ accepted env w.pkt w.bytes to i w.unsigned in
    let acts = ap (λ x. (apply_event st (recv_state_to_event x)).actions) w.reports ∙ e in
    let in_st : InState st to = record { shown = i.copies_agree ∙ c; cached = c } in
    subst (λ x. goal x (take_in env from.sent to)) w.reports
      (subst (goal w.pkt.state) (sym arrives) (
        process_packet-IsSound env w.pkt to w.acceptable i,
        process-Says env w.pkt st rest to w.acceptable i c acts q,
        (process_packet-InState env w.pkt st to in_st).cached,
      ))

-- Two sessions without authentication, both Down, come up on three packets: the first fires its
-- transmission timer and takes the active role, and its peer allows transmissions; then each takes
-- in the latest buffer of the other. The second goes to Init, the first to Up, and the second to Up.
pub handshake_comes_up :
    (env : Env) (a b : Session)
    → IsSound a
    → IsSound b
    → a.cached_state ≡ down
    → b.cached_state ≡ down
    → a.role ≡ active
    → a.remote_min_rx ≢ 0
    → let a1 = step env tx_fired a in
      let b1 = deliver env a1 b in
      let a2 = deliver env b1 a1 in
      let b2 = deliver env a2 b1 in (b1.state ≡ init) × (a2.state ≡ up) × (b2.state ≡ up)
unfolding apply_event recv_state_to_event admitted
handshake_comes_up env a b i j da db r m =
    let a1 = step env tx_fired a in
    let told = subst (λ x. Says x a1) da (tx-Says env a i r m) in
    let still =
      (step-rfc env tx_fired down a tt tt (record { shown = i.copies_agree ∙ da; cached = da })).0
        refl in
    let (j1, says_init, at_init) = delivered env down down [] a1 b told j db refl (inl refl) in
    let (i2, says_up, at_up) =
      delivered env init down (notify_up ∷ []) (deliver env a1 b) a1 says_init
        (step-IsSound env tx_fired a tt i) still.cached refl (inr refl) in
    let (j2, says_last, at_last) =
      delivered env up init (notify_up ∷ []) (deliver env (deliver env a1 b) a1) (deliver env a1 b)
        says_up j1 at_init refl (inr refl) in
    (j1.copies_agree ∙ at_init, i2.copies_agree ∙ at_up, j2.copies_agree ∙ at_last)

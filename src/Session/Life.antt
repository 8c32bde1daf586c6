-- ===== src/Session/Life.antt =====
-- The life of a session without authentication: NewSession (internal/bfd/session.go) and the event
-- loop (session_loop.go).
use gobfd.Common.{
  ◌≡◌, refl, sym, ap, ◌∙◌, List, [], ◌∷◌, ◌++◌, Option, none, some, false, arith, inl, inr,
  Bool-cases, not, ◌&&◌,
}
use mathlib.Core.Path.{subst}
use gobfd.Packet.{State, admin_down, down, init, up, reserved}
use gobfd.Fsm.{
  notify_down, apply_event, send_control as act_send, timer_expired, event_admin_down, state_eq,
}
use gobfd.Fsm.Rules.{IsState, rfc_expire, rfc_disable, has_action, apply_event-rfc}
use gobfd.Session.{Session, Security, Env}
use gobfd.Session.Transmit.{maybe_send_control}
use gobfd.Session.Receive.{record_change, log_state_change, emit_notification}
use gobfd.Session.Loop.{
  control_path_down, control_admin_down, control_unknown, Input, packet, command, tx_fired,
  detect_fired, handle_admin_down, handle_path_down, handle_control_command, handle_tx_timer,
  maybe_reset_auth_seq_known, handle_detect_timer, step, start, run_loop,
}
use gobfd.Session.Invariant.{diag-IsSound, execute_fsm_actions-IsSound, apply_fsm_event-IsSound}
use gobfd.Session.Sound.{
  IsSound, reset_tx_timer-IsSound, reset_detect_timer-IsSound, send_control-IsSound,
}
use gobfd.Session.Reception.{IsReceived, either-IsSound, handle_recv_packet-IsSound}

expire_named : (st : State) → IsState st → IsState (rfc_expire st)
expire_named (reserved n) k = absurd k
expire_named admin_down k = tt
expire_named _ k = tt

disable_named :
    (st : State) → IsState st → (IsState (rfc_disable st)) × (rfc_disable st ≡ admin_down)
disable_named (reserved n) k = absurd k
disable_named admin_down k = (tt, refl)
disable_named _ k = (tt, refl)

expire_down :
    (st : State)
    → IsState st
    → (not (state_eq st init) && not (state_eq st up)) ≡ false
    → rfc_expire st ≡ down
expire_down (reserved n) k e = absurd k
expire_down init k e = refl
expire_down up k e = refl
expire_down admin_down k e = cc
expire_down _ k e = cc

pub plain_reset :
    (env : Env) (o : Option Security) (s : Session)
    → o ≡ none
    → maybe_reset_auth_seq_known env o s ≡ s
unfolding maybe_reset_auth_seq_known
plain_reset env none s e = refl
plain_reset env (some x) s e = absurd (cc)

handle_detect_timer-IsSound :
    (env : Env) (s : Session) → IsSound s → IsSound (handle_detect_timer env s)
unfolding handle_detect_timer
handle_detect_timer-IsSound env s i =
    let c = s.cached_state in
    let rule = (apply_event-rfc c down i.can_send.named tt).1 in
    rw (plain_reset env s.security s i.can_send.plain)
      (elim (Bool-cases (not (state_eq c init) && not (state_eq c up))) [
        | inl e ↦ rw e (reset_detect_timer-IsSound s i)
        | inr e ↦ rw e (
            apply_fsm_event-IsSound env timer_expired s
              (subst IsState (sym rule) (expire_named c i.can_send.named))
              (inr (inl (rule ∙ expire_down c i.can_send.named e))) i)
      ])

handle_path_down-IsSound : (env : Env) (s : Session) → IsSound s → IsSound (handle_path_down env s)
unfolding handle_path_down record_change log_state_change emit_notification
handle_path_down-IsSound env s i =
    let t = diag-IsSound 5 s (omega arith) i in
    either-IsSound _ _ _ t (execute_fsm_actions-IsSound env _ _ tt (inr (inl refl)) (λ e. refl) t)

disable_quiet :
    (st : State)
    → IsState st
    → has_action notify_down ((apply_event st event_admin_down).actions ++ (act_send ∷ [])) ≡ false
unfolding apply_event
disable_quiet (reserved n) k = absurd k
disable_quiet admin_down k = refl
disable_quiet _ k = refl

handle_admin_down-IsSound :
    (env : Env) (s : Session) → IsSound s → IsSound (handle_admin_down env s)
unfolding handle_admin_down record_change log_state_change emit_notification
handle_admin_down-IsSound env s i =
    let c = s.cached_state in
    let r = apply_event c event_admin_down in
    let rule = (apply_event-rfc c down i.can_send.named tt).2 in
    either-IsSound _ _ _ (diag-IsSound 7 s (omega arith) i) (
      execute_fsm_actions-IsSound env (record r { actions = r.actions ++ (act_send ∷ []) }) s
        (subst IsState (sym rule) (disable_named c i.can_send.named).0)
        (inr (inr (rule ∙ (disable_named c i.can_send.named).1)))
        (λ e. absurd (ground (arith, e, disable_quiet c i.can_send.named))) i)

handle_tx_timer-IsSound : (env : Env) (s : Session) → IsSound s → IsSound (handle_tx_timer env s)
unfolding handle_tx_timer maybe_send_control
handle_tx_timer-IsSound env s i =
    reset_tx_timer-IsSound _
      (either-IsSound _ _ _ i (either-IsSound _ _ _ i (send_control-IsSound env s i)))

-- A packet comes from UnmarshalControlPacket.
abbrev pub IsDelivered : Input → Type 0
IsDelivered (packet pkt wire) = IsReceived pkt
IsDelivered _ = Unit

-- Every input, a packet being one that UnmarshalControlPacket delivered, keeps a session without
-- authentication sound: its two copies of the state agree and are one of the four states, the
-- peer's discriminator is known in Init and Up, intervals and multipliers stay in the range of
-- the wire, the buffer keeps its room, and every buffer handed to the sender so far decodes to a
-- packet with the session's discriminator.
pub step-IsSound :
    (env : Env) (i : Input) (s : Session) → IsDelivered i → IsSound s → IsSound (step env i s)
unfolding step handle_control_command
step-IsSound env (packet pkt wire) s d i = handle_recv_packet-IsSound env pkt wire s d i
step-IsSound env (command control_path_down) s d i = handle_path_down-IsSound env s i
step-IsSound env (command control_admin_down) s d i = handle_admin_down-IsSound env s i
step-IsSound env (command control_unknown) s d i = i
step-IsSound env tx_fired s d i = handle_tx_timer-IsSound env s i
step-IsSound env detect_fired s d i = handle_detect_timer-IsSound env s i

abbrev pub AreDelivered : List (Env × Input) → Type 0
AreDelivered [] = Unit
AreDelivered ((env, i) ∷ rest) = IsDelivered i × AreDelivered rest

pub run_loop-IsSound :
    (run : List (Env × Input)) (s : Session)
    → AreDelivered run
    → IsSound s
    → IsSound (run_loop run s)
unfolding run_loop
run_loop-IsSound [] s d i = i
run_loop-IsSound ((env, x) ∷ rest) s (d, ds) i =
    run_loop-IsSound rest (step env x s) ds (step-IsSound env x s d i)

pub start-IsSound : (s : Session) → IsSound s → IsSound (start s)
unfolding start
start-IsSound s i =
    let same = ap (λ c. record s { cached_state = c }) (i.copies_agree) in
    reset_detect_timer-IsSound _ (reset_tx_timer-IsSound _ (subst IsSound (sym same) i))

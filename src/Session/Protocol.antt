-- ===== src/Session/Protocol.antt =====
-- The inputs of the session's goroutine (internal/bfd/session_packet.go, session_loop.go) beside the
-- rules of RFC 5880.
use gobfd.Common.{
  ℕ, ◌≡◌, refl, sym, ◌∙◌, arith, List, [], ◌∷◌, ◌++◌, none, some, Bool, true, false, not, ◌&&◌,
  ◌||◌, inl, inr, Option-cases, if◌then◌else◌,
}
use mathlib.Core.Path.{subst}
use gobfd.Packet.{
  State, admin_down, down, init, up, reserved, ControlPacket, diag_path_down, diag_admin_down,
}
use gobfd.Fsm.{
  notify_down, send_control as act_send, timer_expired, event_admin_down, Action, FsmResult,
  apply_event, recv_state_to_event, state_eq,
}
use gobfd.Fsm.Rules.{
  rfc_receive, rfc_expire, rfc_disable, IsState, apply_event-rfc, apply_event-result,
}
use gobfd.Session.{Session, Env}
use gobfd.Session.Receive.{
  execute_fsm_actions, check_auth_consistency, authenticate, handle_recv_packet,
}
use gobfd.Session.Loop.{
  control_path_down, control_admin_down, control_unknown, Input, packet, command, tx_fired,
  detect_fired, handle_admin_down, handle_path_down, handle_control_command, handle_tx_timer,
  maybe_reset_auth_seq_known, handle_detect_timer, step,
}
use gobfd.Session.Frame.{
  Kept-trans, maybe_send_control-Kept, reset_tx_timer-Kept, reset_detect_timer-Kept,
}
use gobfd.Session.States.{
  InState, Kept-InState, execute_fsm_actions-InState, apply_event_same, apply_fsm_event-InState,
  process_packet-InState, authenticate-InState, maybe_reset-InState,
}

-- A path-down indication takes the session down from Init and Up.
abbrev pub rfc_path_down : State → State
rfc_path_down init = down
rfc_path_down up = down
rfc_path_down st = st

-- What each input may do to a session in state `st`, by the RFC's rules.
abbrev pub rfc_input : Input → State → State
rfc_input (packet pkt wire) st = rfc_receive st pkt.state
rfc_input (command control_path_down) st = rfc_path_down st
rfc_input (command control_admin_down) st = rfc_disable st
rfc_input (command control_unknown) st = st
rfc_input tx_fired st = st
rfc_input detect_fired st = rfc_expire st

-- A packet's state is one of four, as the two bits of the wire format give it.
abbrev pub IsInput : Input → Type 0
IsInput (packet pkt wire) = IsState pkt.state
IsInput _ = Unit

-- Whether the authentication steps let a packet through; every other input goes through.
unfoldable pub admitted : Env → Input → Session → Bool
admitted env (packet pkt wire) s =
    check_auth_consistency pkt s
    && (elim (authenticate env s.security pkt wire s) [ none ↦ false | some s' ↦ true ])
admitted env _ s = true

detect_skips :
    (c : State)
    → IsState c
    → ((not (state_eq c init) && not (state_eq c up)) ≡ true → rfc_expire c ≡ c)
detect_skips (reserved n) k h = absurd k
detect_skips admin_down k h = refl
detect_skips down k h = refl
detect_skips init k h = cc
detect_skips up k h = cc

handle_detect-InState :
    (env : Env) (st : State) (s : Session)
    → IsState st
    → InState st s
    → InState (rfc_expire st) (handle_detect_timer env s)
unfolding handle_detect_timer
handle_detect-InState env st s k h =
    let s' = maybe_reset_auth_seq_known env s.security s in
    let h' : InState st s' = maybe_reset-InState env s.security st s h in
    let expired : (apply_event st timer_expired).new_state ≡ rfc_expire st =
      (apply_event-rfc st down k tt).1 in
    ground (
      arith,
      detect_skips st k,
      Kept-InState st (reset_detect_timer-Kept s') h',
      apply_fsm_event-InState env timer_expired st s' h',
    )

path_skips :
    (c : State)
    → IsState c
    → ((state_eq c down || state_eq c admin_down) ≡ true → rfc_path_down c ≡ c)
      × ((state_eq c down || state_eq c admin_down) ≡ false → rfc_path_down c ≡ down)
path_skips (reserved n) k = absurd k
path_skips admin_down k = (λ h. refl, λ h. cc)
path_skips down k = (λ h. refl, λ h. cc)
path_skips init k = (λ h. cc, λ h. refl)
path_skips up k = (λ h. cc, λ h. refl)

by_cached :
    (s t : Session) (st : State) (f : State → State)
    → InState st s
    → InState (f s.cached_state) t
    → InState (f st) t
by_cached s t st f h k = subst (λ c. InState (f c) t) h.cached k

handle_path-InState :
    (env : Env) (st : State) (s : Session)
    → IsState st
    → InState st s
    → InState (rfc_path_down st) (handle_path_down env s)
unfolding handle_path_down
handle_path-InState env st s k h =
    let s' = record s { local_diag = diag_path_down } in
    let r : FsmResult = record {
      old_state = s.cached_state;
      new_state = down;
      actions = notify_down ∷ act_send ∷ [];
      changed = true;
    } in
    let same : s'.state ≡ s.cached_state = h.shown ∙ sym h.cached in
    by_cached s _ st rfc_path_down h (
      ground (
        arith,
        path_skips s.cached_state (subst IsState (sym h.cached) k),
        execute_fsm_actions-InState env r s' (record { shown = same; cached = refl }),
      ))

disabled :
    (env : Env) (acts : List Action) (r : FsmResult) (s : Session)
    → InState r.old_state s
    → (r.changed ≡ false → r.new_state ≡ r.old_state)
    → InState r.new_state (
        if not r.changed
        then record s { local_diag = diag_admin_down }
        else execute_fsm_actions env (record r { actions = acts }) s)
disabled env acts r s h same =
    ground (arith, same, execute_fsm_actions-InState env (record r { actions = acts }) s h same)

handle_admin-InState :
    (env : Env) (st : State) (s : Session)
    → IsState st
    → InState st s
    → InState (rfc_disable st) (handle_admin_down env s)
unfolding handle_admin_down
handle_admin-InState env st s k h =
    let c = s.cached_state in
    let r = apply_event c event_admin_down in
    let old : r.old_state ≡ c = (apply_event-result c event_admin_down).0 in
    let at_old : InState r.old_state s = record {
      shown = h.shown ∙ sym h.cached ∙ sym old;
      cached = sym old;
    } in
    let rule : r.new_state ≡ rfc_disable c =
      (apply_event-rfc c down (subst IsState (sym h.cached) k) tt).2 in
    by_cached s _ st rfc_disable h (
      subst (λ x. InState x (handle_admin_down env s)) rule
        (disabled env (r.actions ++ (act_send ∷ [])) r s at_old
          (apply_event_same c event_admin_down)))

handle_recv-InState :
    (env : Env) (pkt : ControlPacket) (wire : List ℕ) (st : State) (s : Session)
    → IsState st
    → IsState pkt.state
    → InState st s
    → (admitted env (packet pkt wire) s ≡ true
        → InState (rfc_receive st pkt.state) (handle_recv_packet env pkt wire s))
      × (admitted env (packet pkt wire) s ≡ false → handle_recv_packet env pkt wire s ≡ s)
unfolding handle_recv_packet admitted
handle_recv-InState env pkt wire st s k kp h =
    elim (Option-cases (authenticate env s.security pkt wire s)) [
      | inl none_ ↦ ground (arith, none_)
      | inr (s', some_) ↦
          let rule : (apply_event st (recv_state_to_event pkt.state)).new_state
              ≡ rfc_receive st pkt.state =
            (apply_event-rfc st pkt.state k kp).0 in
          ground (
            arith,
            some_,
            rule,
            process_packet-InState env pkt st s'
                (authenticate-InState env s.security pkt wire st s s' h some_),
          )
    ]

handle_tx-InState :
    (env : Env) (st : State) (s : Session) → InState st s → InState st (handle_tx_timer env s)
unfolding handle_tx_timer
handle_tx-InState env st s h =
    Kept-InState st (Kept-trans (maybe_send_control-Kept env s) (reset_tx_timer-Kept _)) h

-- Whatever the goroutine receives, the session moves as the RFC prescribes: a session in one of
-- the four states, whose cached copy agrees with the state that others read, ends a step in the
-- state that the RFC's rules give for the input, with both copies set; a received packet reports
-- one of the four states. A packet that the authentication checks refuse leaves the whole
-- session as it was.
pub step-rfc :
    (env : Env) (i : Input) (st : State) (s : Session)
    → IsState st
    → IsInput i
    → InState st s
    → (admitted env i s ≡ true → InState (rfc_input i st) (step env i s))
      × (admitted env i s ≡ false → step env i s ≡ s)
unfolding step handle_control_command admitted
step-rfc env (packet pkt wire) st s k ki h = handle_recv-InState env pkt wire st s k ki h
step-rfc env (command control_path_down) st s k ki h =
    (λ a. handle_path-InState env st s k h, λ a. cc)
step-rfc env (command control_admin_down) st s k ki h =
    (λ a. handle_admin-InState env st s k h, λ a. cc)
step-rfc env (command control_unknown) st s k ki h = (λ a. h, λ a. refl)
step-rfc env tx_fired st s k ki h = (λ a. handle_tx-InState env st s h, λ a. cc)
step-rfc env detect_fired st s k ki h = (λ a. handle_detect-InState env st s k h, λ a. cc)

-- ===== src/Session/Invariant.antt =====
-- What holds of a session without authentication through its life (internal/bfd/session.go,
-- session_packet.go and session_loop.go).
use gobfd.Common.{
  ℕ, ◌^◌, ◌<◌, ◌≡◌, ◌≢◌, ◌⊎◌, refl, sym, ap, ◌∙◌, List, [], ◌∷◌, true, arith, inl, inr, Bool-cases,
}
use gobfd.Packet.{State, admin_down, down}
use gobfd.Fsm.{
  set_diag_time_expired, set_diag_neighbor_down, set_diag_admin_down, unknown_action, Action,
  notify_down, FsmResult, apply_event, Event, send_control as act_send, notify_up,
}
use gobfd.Fsm.Rules.{IsState, has_action, apply_event-result}
use mathlib.Core.Path.{subst}
use gobfd.Session.{Session, Env}
use gobfd.Session.Receive.{
  log_state_change, emit_notification, record_change, execute_fsm_actions, apply_fsm_event,
  execute_action, execute_actions,
}
use gobfd.Session.Frame.{execute_action-Kept}
use gobfd.Session.Sound.{
  IsSound, send_control-IsSound, reset_tx_timer-IsSound, reset_detect_timer-IsSound,
}

-- The peer's discriminator is known in Init and in Up.
abbrev pub Known : Session → State → Type 0
Known s st = (s.remote_discr ≢ 0) ⊎ ((st ≡ down) ⊎ (st ≡ admin_down))

pub diag-IsSound :
    (d : ℕ) (s : Session) → d < 32 → IsSound s → IsSound (record s { local_diag = d })
diag-IsSound d s h i =
    let c = i.can_send in
    record {
      can_send = ground (arith, c, h);
      copies_agree = i.copies_agree;
      timers = ground (arith, i.timers);
      no_poll = i.no_poll;
      no_pending_desired = i.no_pending_desired;
      no_pending_required = i.no_pending_required;
      all_sent = i.all_sent;
    }

-- Another state, another discriminator of the peer, and other bookkeeping.
pub moved-IsSound :
    (s t : Session) (st : State) (d : ℕ)
    → ◌≡◌ {A = Session} t (record s {
      state = st;
      cached_state = st;
      remote_discr = d;
      state_transitions = t.state_transitions;
      last_state_change = t.last_state_change;
      notify_ch = t.notify_ch;
    })
    → d < 2 ^ 32
    → IsState st
    → (d ≢ 0) ⊎ ((st ≡ down) ⊎ (st ≡ admin_down))
    → IsSound s
    → IsSound t
moved-IsSound s t st d e h k known i =
    let c = i.can_send in
    subst IsSound (sym e) (record {
      can_send = ground (arith, c, h, k, known);
      copies_agree = refl;
      timers = ground (arith, i.timers);
      no_poll = i.no_poll;
      no_pending_desired = i.no_pending_desired;
      no_pending_required = i.no_pending_required;
      all_sent = i.all_sent;
    })

forget-IsSound :
    (s : Session) → s.cached_state ≡ down → IsSound s → IsSound (record s { remote_discr = 0 })
forget-IsSound s e i =
    moved-IsSound s _ s.cached_state 0
      (ap (λ x. record s { state = x; remote_discr = 0 }) i.copies_agree) (omega arith)
      i.can_send.named (inr (inl e)) i

pub execute_action-IsSound :
    (env : Env) (a : Action) (s : Session)
    → (has_action notify_down (a ∷ []) ≡ true → s.cached_state ≡ down)
    → IsSound s
    → IsSound (execute_action env a s)
unfolding execute_action
execute_action-IsSound env act_send s h i = reset_tx_timer-IsSound _ (send_control-IsSound env s i)
execute_action-IsSound env notify_up s h i =
    reset_detect_timer-IsSound _ (reset_tx_timer-IsSound s i)
execute_action-IsSound env notify_down s h i =
    reset_detect_timer-IsSound _ (reset_tx_timer-IsSound _ (forget-IsSound s (h refl) i))
execute_action-IsSound env set_diag_time_expired s h i = diag-IsSound _ s (omega arith) i
execute_action-IsSound env set_diag_neighbor_down s h i = diag-IsSound _ s (omega arith) i
execute_action-IsSound env set_diag_admin_down s h i = diag-IsSound _ s (omega arith) i
execute_action-IsSound env unknown_action s h i = i

execute_actions-IsSound :
    (env : Env) (l : List Action) (s : Session)
    → (has_action notify_down l ≡ true → s.cached_state ≡ down)
    → IsSound s
    → IsSound (execute_actions env l s)
unfolding execute_actions
execute_actions-IsSound env [] s h i = i
execute_actions-IsSound env (a ∷ l) s h i =
    let k = execute_action-Kept env a s in
    execute_actions-IsSound env l (execute_action env a s)
      (λ e. k.cached_state_kept ∙ h (ground arith))
      (execute_action-IsSound env a s (λ e. h (ground arith)) i)

pub record_change-IsSound :
    (env : Env) (r : FsmResult) (s : Session)
    → IsState r.new_state
    → Known s r.new_state
    → IsSound s
    → IsSound (record_change env r s)
unfolding record_change log_state_change emit_notification
record_change-IsSound env r s k known i = elim (Bool-cases r.changed) [
  | inl e ↦
      rw e (moved-IsSound s _ r.new_state s.remote_discr refl i.can_send.remote_fits k known i)
  | inr e ↦ rw e i
]

pub execute_fsm_actions-IsSound :
    (env : Env) (r : FsmResult) (s : Session)
    → IsState r.new_state
    → Known s r.new_state
    → (has_action notify_down r.actions ≡ true → (record_change env r s).cached_state ≡ down)
    → IsSound s
    → IsSound (execute_fsm_actions env r s)
unfolding execute_fsm_actions
execute_fsm_actions-IsSound env r s k known h i =
    execute_actions-IsSound env r.actions (record_change env r s) h
      (record_change-IsSound env r s k known i)

pub apply_fsm_event-IsSound :
    (env : Env) (e : Event) (s : Session)
    → IsState (apply_event s.cached_state e).new_state
    → Known s (apply_event s.cached_state e).new_state
    → IsSound s
    → IsSound (apply_fsm_event env e s)
unfolding apply_fsm_event record_change log_state_change emit_notification
apply_fsm_event-IsSound env e s k known i =
    let r = apply_event s.cached_state e in
    execute_fsm_actions-IsSound env r s k known
      (ground (arith, apply_event-result s.cached_state e)) i

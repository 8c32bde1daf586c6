-- ===== src/Session/Stale.antt =====
-- Two places where a session shows others something old: logStateChange before the actions
-- (internal/bfd/session_packet.go), and SetAdminDown with a full channel (session.go).
use gobfd.Common.{
  ◌<◌, ◌≡◌, ◌∙◌, refl, ap, [], ◌∷◌, ◌++◌, none, some, true, false, length, lt→ltb, not, ◌&&◌,
}
use gobfd.Packet.{admin_down, down, init, up}
use gobfd.Fsm.{timer_expired, apply_event, state_eq}
use gobfd.Session.{Session, StateChange, Channel, Env}
use gobfd.Session.Timing.{reset_tx_timer, reset_detect_timer}
use gobfd.Session.Receive.{
  emit, state_change_of, apply_fsm_event, execute_fsm_actions, execute_actions, execute_action,
  record_change, log_state_change, emit_notification,
}
use gobfd.Session.Loop.{handle_detect_timer, step, detect_fired, set_admin_down}
use gobfd.Session.Life.{plain_reset}

-- The expiry in Up, without the tests before it.
expires :
    (env : Env) (s : Session)
    → s.cached_state ≡ up
    → s.security ≡ none
    → handle_detect_timer env s ≡ execute_fsm_actions env (apply_event up timer_expired) s
unfolding handle_detect_timer apply_fsm_event
expires env s c p =
    let skip : (not (state_eq s.cached_state init) && not (state_eq s.cached_state up)) ≡ false =
      ap (λ x. not (state_eq x init) && not (state_eq x up)) c in
    rw (plain_reset env s.security s p, skip)
      (ap (λ x. execute_fsm_actions env (apply_event x timer_expired) s) c)

-- What the expiry leaves: the new diagnostic in the session, the old one in the notification.
expired_fields :
    (env : Env) (s : Session)
    → let t = execute_fsm_actions env (apply_event up timer_expired) s in
      (t.state ≡ down)
      × (t.local_diag ≡ 1)
      × (c : StateChange) × (t.notify_ch ≡ emit c s.notify_ch)
      × (c.change_new ≡ down)
      × (c.change_diag ≡ s.local_diag)
unfolding execute_fsm_actions apply_event record_change log_state_change emit_notification
    execute_actions execute_action reset_tx_timer reset_detect_timer state_change_of
expired_fields env s =
    (refl, refl, state_change_of env (apply_event up timer_expired) s, refl, refl, refl)

-- When the detection time of a session in Up without authentication expires and the channel of
-- notifications has room, the session goes Down with the diagnostic 1, Control Detection Time
-- Expired; but the notification of the change carries the diagnostic from before the expiry.
pub expiry_diag_stale :
    (env : Env) (s : Session) (ch : Channel)
    → s.cached_state ≡ up
    → s.security ≡ none
    → s.notify_ch ≡ some ch
    → length ch.queue < ch.capacity
    → let t = step env detect_fired s in
      (t.state ≡ down)
      × (t.local_diag ≡ 1)
      × (c : StateChange) × (t.notify_ch ≡ some (record ch { queue = ch.queue ++ (c ∷ []) }))
      × (c.change_new ≡ down)
      × (c.change_diag ≡ s.local_diag)
unfolding step emit
expiry_diag_stale env s ch c p n room =
    let e = expires env s c p in
    let (st, diag, change, told, new, old) = expired_fields env s in
    let fits = lt→ltb (length ch.queue) ch.capacity room in
    (
      ap (λ x. x.state) e ∙ st,
      ap (λ x. x.local_diag) e ∙ diag,
      change,
      ap (λ x. x.notify_ch) e ∙ told ∙ ap (emit change) n ∙ rw fits,
      new,
      old,
    )

-- SetAdminDown on a running session in Up without authentication whose control channel is full
-- shows AdminDown, but the goroutine's copy stays Up: the next expiry of the detection time
-- takes the session out of AdminDown into Down.
pub full_channel_admin_down_lost :
    (env : Env) (s : Session)
    → s.cached_state ≡ up
    → s.security ≡ none
    → let t = (set_admin_down true false s).1 in
      (t.state ≡ admin_down) × (t.cached_state ≡ up) × ((step env detect_fired t).state ≡ down)
unfolding set_admin_down step
full_channel_admin_down_lost env s c p =
    let t = record s { local_diag = 7; state = admin_down } in
    (refl, c, ap (λ x. x.state) (expires env t c p) ∙ (expired_fields env t).0)

-- ===== src/Fsm/Rules.antt =====
-- The transition rules of RFC 5880, written from its pseudocode, beside the table of
-- internal/bfd/fsm.go.
use gobfd.Common.{◌≡◌, ◌≢◌, ◌⊎◌, refl, arith, List, [], ◌∷◌, Bool, true, false, ◌↔◌, ◌||◌}
use gobfd.Packet.{State, admin_down, down, init, up, reserved}
use gobfd.Fsm.{
  Event, recv_admin_down, recv_init, recv_up, timer_expired, event_admin_down, event_admin_up,
  Action, send_control, notify_up, notify_down, apply_event, recv_state_to_event,
}

-- Section 6.8.6: what a packet that reports `remote` does to a session in state `local`.
abbrev pub rfc_receive : State → State → State
rfc_receive admin_down remote = admin_down
rfc_receive down down = init
rfc_receive down init = up
rfc_receive init admin_down = down
rfc_receive init init = up
rfc_receive init up = up
rfc_receive up admin_down = down
rfc_receive up down = down
rfc_receive local remote = local

-- Section 6.8.4: the detection time expires.
abbrev pub rfc_expire : State → State
rfc_expire init = down
rfc_expire up = down
rfc_expire local = local

-- Section 6.8.16: the operator disables the session, or enables it again.
abbrev pub rfc_disable : State → State
rfc_disable (reserved n) = reserved n
rfc_disable local = admin_down

abbrev pub rfc_enable : State → State
rfc_enable admin_down = down
rfc_enable local = local

-- A local state is one of the four that the RFC names.
abbrev pub IsState : State → Type 0
IsState (reserved n) = ⊥
IsState s = Unit

pub apply_event-rfc :
    (local remote : State)
    → IsState local
    → IsState remote
    → ((apply_event local (recv_state_to_event remote)).new_state ≡ rfc_receive local remote)
      × ((apply_event local timer_expired).new_state ≡ rfc_expire local)
      × ((apply_event local event_admin_down).new_state ≡ rfc_disable local)
      × ((apply_event local event_admin_up).new_state ≡ rfc_enable local)
unfolding apply_event recv_state_to_event
apply_event-rfc admin_down admin_down a b = (refl, refl, refl, refl)
apply_event-rfc (reserved n) remote a b = absurd a
apply_event-rfc local (reserved m) a b = absurd b
apply_event-rfc _ _ a b = (refl, refl, refl, refl)

abbrev pub action_eq : Action → Action → Bool
action_eq notify_up notify_up = true
action_eq notify_down notify_down = true
action_eq send_control send_control = true
action_eq _ _ = false

abbrev pub has_action : Action → List Action → Bool
has_action a [] = false
has_action a (x ∷ xs) = action_eq a x || has_action a xs

abbrev pub IsUp : State → Type 0
IsUp s = s ≡ up

-- What the caller may rely on, for every state and event, the reserved values included: the result
-- names the state it was asked about, `changed` is set exactly if the state differs, consumers are
-- told "up" exactly on a change to Up, and are told "down" exactly on a change to Down from Init or
-- Up.
pub apply_event-result :
    (s : State) (e : Event)
    → let r = apply_event s e in
      (r.old_state ≡ s)
      × ((r.changed ≡ true) ↔ (r.new_state ≢ s))
      × ((has_action notify_up r.actions ≡ true) ↔ ((r.changed ≡ true) × (r.new_state ≡ up)))
      × ((has_action notify_down r.actions ≡ true)
          ↔ ((r.changed ≡ true) × (r.new_state ≡ down) × ((s ≡ init) ⊎ (s ≡ up))))
unfolding apply_event
apply_event-result (reserved n) e = ground arith
apply_event-result admin_down recv_admin_down = ground arith
apply_event-result _ _ = ground arith

-- A session comes up only on hearing Init, or on hearing Up while it is itself in Init: a peer that
-- reports Down or AdminDown, a timer or an operator never brings it up.
pub up_needs_handshake :
    (s : State) (e : Event)
    → s ≢ up
    → (apply_event s e).new_state ≡ up
    → ((e ≡ recv_init) × ((s ≡ down) ⊎ (s ≡ init))) ⊎ ((e ≡ recv_up) × (s ≡ init))
unfolding apply_event
up_needs_handshake (reserved m) e n h = ground arith
up_needs_handshake admin_down recv_admin_down n h = ground arith
up_needs_handshake _ _ n h = ground arith

-- ===== src/Session/Traces.antt =====
-- Whole runs of the event loop of a session (internal/bfd/session_loop.go).
use gobfd.Common.{
  ◌≡◌, ◌≢◌, refl, arith, List, [], ◌∷◌, Bool, true, false, ◌||◌, ◌&&◌, sym, ◌∙◌, inl, inr,
  Bool-cases,
}
use gobfd.Packet.{State, admin_down, init, up, reserved}
use gobfd.Session.{Session, Env}
use gobfd.Session.Loop.{
  Input, packet, command, tx_fired, detect_fired, control_path_down, control_admin_down,
  control_unknown, step, run_loop,
}
use gobfd.Session.Protocol.{IsInput, admitted, rfc_input, step-rfc}
use gobfd.Session.States.{InState}
use mathlib.Core.Path.{subst}
use gobfd.Fsm.{state_eq}
use gobfd.Fsm.Rules.{IsState, rfc_receive}

-- Each packet of the run reports one of the four states.
abbrev pub AreInputs : List (Env × Input) → Type 0
AreInputs [] = Unit
AreInputs ((env, i) ∷ rest) = IsInput i × AreInputs rest

-- The states that the RFC's rules give over a run, a refused packet counting for nothing.
unfoldable pub rfc_run : List (Env × Input) → Session → State → State
rfc_run [] s st = st
rfc_run ((env, i) ∷ rest) s st =
    rfc_run rest (step env i s) (elim (admitted env i s) [ true ↦ rfc_input i st | false ↦ st ])

pub receive_IsState : (l r : State) → IsState l → IsState r → IsState (rfc_receive l r)
receive_IsState (reserved n) r k m = absurd k
receive_IsState l (reserved n) k m = absurd m
receive_IsState admin_down admin_down k m = tt
receive_IsState _ _ k m = tt

input_IsState : (i : Input) (st : State) → IsState st → IsInput i → IsState (rfc_input i st)
input_IsState i (reserved n) k ki = absurd k
input_IsState (packet pkt wire) st k ki = receive_IsState st pkt.state k ki
input_IsState (command control_path_down) admin_down k ki = tt
input_IsState (command control_path_down) _ k ki = tt
input_IsState (command control_admin_down) admin_down k ki = tt
input_IsState (command control_admin_down) _ k ki = tt
input_IsState (command control_unknown) _ k ki = k
input_IsState tx_fired _ k ki = k
input_IsState detect_fired admin_down k ki = tt
input_IsState detect_fired _ k ki = tt

-- Over any run of the event loop, on packets that report one of the four states, a session in
-- one of the four states with agreeing copies ends in the state that folding the RFC's rules
-- over the accepted inputs gives, both in what others read and in the goroutine's copy.
pub run_loop-rfc :
    (run : List (Env × Input)) (st : State) (s : Session)
    → IsState st
    → AreInputs run
    → InState st s
    → InState (rfc_run run s st) (run_loop run s)
unfolding run_loop rfc_run
run_loop-rfc [] st s k ki h = h
run_loop-rfc ((env, i) ∷ rest) st s k (ki, kr) h = elim (Bool-cases (admitted env i s)) [
  | inl e ↦ rw e (
      run_loop-rfc rest (rfc_input i st) (step env i s) (input_IsState i st k ki) kr
        ((step-rfc env i st s k ki h).0 e))
  | inr e ↦
      let kept = (step-rfc env i st s k ki h).1 e in
      rw e (run_loop-rfc rest st (step env i s) k kr (subst (InState st) (sym kept) h))
]

-- Whether the run has an accepted packet that reports Init or Up.
abbrev pub reports_start : Input → Bool
reports_start (packet pkt wire) = state_eq pkt.state init || state_eq pkt.state up
reports_start _ = false

unfoldable pub hears_start : List (Env × Input) → Session → Bool
hears_start [] s = false
hears_start ((env, i) ∷ rest) s =
    (admitted env i s && reports_start i) || hears_start rest (step env i s)

receive_not_up :
    (l r : State)
    → IsState l
    → l ≢ up
    → (state_eq r init || state_eq r up) ≡ false
    → rfc_receive l r ≢ up
receive_not_up (reserved n) r k n' h = absurd k
receive_not_up admin_down _ k n h = ground arith
receive_not_up _ init k n h = λ e. cc
receive_not_up _ up k n h = λ e. cc
receive_not_up _ _ k n h = ground arith

input_not_up :
    (i : Input) (st : State)
    → IsState st
    → IsInput i
    → st ≢ up
    → reports_start i ≡ false
    → rfc_input i st ≢ up
input_not_up i (reserved n) k ki n' r = absurd k
input_not_up (packet pkt wire) st k ki n r = receive_not_up st pkt.state k n r
input_not_up (command control_path_down) admin_down k ki n r = ground arith
input_not_up _ _ k ki n r = ground arith

stays_down :
    (run : List (Env × Input)) (st : State) (s : Session)
    → IsState st
    → AreInputs run
    → InState st s
    → st ≢ up
    → hears_start run s ≡ false
    → rfc_run run s st ≢ up
unfolding rfc_run hears_start
stays_down [] st s k ki h n e = n
stays_down ((env, i) ∷ rest) st s k (ki, kr) h n e =
    let later : hears_start rest (step env i s) ≡ false = ground arith in
    elim (Bool-cases (admitted env i s)) [
      | inl a ↦
          let quiet : reports_start i ≡ false = ground arith in
          rw a (
            stays_down rest (rfc_input i st) (step env i s) (input_IsState i st k ki) kr
              ((step-rfc env i st s k ki h).0 a) (input_not_up i st k ki n quiet) later)
      | inr a ↦
          let kept = (step-rfc env i st s k ki h).1 a in
          rw a (stays_down rest st (step env i s) k kr (subst (InState st) (sym kept) h) n later)
    ]

-- No run brings a session up by itself: if the session, in one of the four states with agreeing
-- copies, is not Up at the start, and no accepted packet of the run reports Init or Up while
-- every packet reports one of the four states, then the session is not Up at the end. Timers,
-- operator commands and refused packets are no way in.
pub up_needs_peer :
    (run : List (Env × Input)) (st : State) (s : Session)
    → IsState st
    → AreInputs run
    → InState st s
    → st ≢ up
    → hears_start run s ≡ false
    → (run_loop run s).state ≢ up
up_needs_peer run st s k kr h n e up_ =
    stays_down run st s k kr h n e (sym (run_loop-rfc run st s k kr h).shown ∙ up_)

disabled_input : (i : Input) → rfc_input i admin_down ≡ admin_down
disabled_input (packet pkt wire) = refl
disabled_input (command control_path_down) = refl
disabled_input (command _) = refl
disabled_input _ = refl

disabled_run :
    (run : List (Env × Input)) (s : Session)
    → AreInputs run
    → InState admin_down s
    → rfc_run run s admin_down ≡ admin_down
unfolding rfc_run
disabled_run [] s kr h = refl
disabled_run ((env, i) ∷ rest) s (ki, kr) h = elim (Bool-cases (admitted env i s)) [
  | inl a ↦
      let kept = (step-rfc env i admin_down s tt ki h).0 a in
      rw (a, disabled_input i)
        (disabled_run rest (step env i s) kr
          (subst (λ x. InState x (step env i s)) (disabled_input i) kept))
  | inr a ↦
      let kept = (step-rfc env i admin_down s tt ki h).1 a in
      rw a (disabled_run rest (step env i s) kr (subst (InState admin_down) (sym kept) h))
]

-- A session in AdminDown, by both copies of its state, stays there over every run of the event
-- loop, whatever its peer sends, on packets that report one of the four states.
pub admin_down_absorbing :
    (run : List (Env × Input)) (s : Session)
    → AreInputs run
    → InState admin_down s
    → InState admin_down (run_loop run s)
admin_down_absorbing run s kr h =
    subst (λ x. InState x (run_loop run s)) (disabled_run run s kr h)
      (run_loop-rfc run admin_down s tt kr h)

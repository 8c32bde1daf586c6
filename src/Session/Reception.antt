-- ===== src/Session/Reception.antt =====
-- What handleRecvPacket (internal/bfd/session_packet.go) makes of a sound session.
use gobfd.Common.{
  ℕ, ◌^◌, ◌<◌, ◌≡◌, ◌≢◌, refl, sym, ◌∙◌, List, Option, none, some, Bool, true, false, arith, inl,
  inr, Bool-cases, ok, if◌then◌else◌, not, ◌&&◌,
}
use mathlib.Core.Path.{subst}
use gobfd.Packet.{State, admin_down, reserved, state_code, ControlPacket}
use gobfd.Packet.Unmarshal.{unmarshal_control_packet}
use gobfd.Packet.Validation.{AreBytes, unmarshal_checks}
use gobfd.Duration.{duration_from_microseconds}
use gobfd.Fsm.{apply_event, recv_state_to_event}
use gobfd.Fsm.Rules.{IsState, apply_event-rfc}
use gobfd.Session.{Session, Security, Env}
use gobfd.Session.Timing.{reset_detect_timer}
use gobfd.Session.Receive.{
  learn, record_valid_received_packet, answer_flags, send_pending_final, process_packet,
  handle_recv_packet, authenticate, check_auth_consistency,
}
use gobfd.Session.Traces.{receive_IsState}
use gobfd.Session.Invariant.{Known, apply_fsm_event-IsSound}
use gobfd.Session.Sound.{
  IsSound, reset_tx_timer-IsSound, reset_detect_timer-IsSound, send_control-IsSound,
}

-- What UnmarshalControlPacket ensures of the fields that a session takes from a packet.
pub record IsReceived (pkt : ControlPacket) : Type 0 where
  pub sender_set : pkt.my_discriminator ≢ 0
  pub sender_fits : pkt.my_discriminator < 2 ^ 32
  pub desired_low : pkt.desired_min_tx_interval < 2 ^ 32
  pub required_low : pkt.required_min_rx_interval < 2 ^ 32
  pub mult_low : pkt.detect_mult < 256
  pub state_named : IsState pkt.state

pub named_state : (st : State) → state_code st < 4 → IsState st
named_state (reserved n) h = absurd (omega arith)
named_state admin_down h = tt
named_state _ h = tt

-- A packet that UnmarshalControlPacket accepts from bytes.
pub unmarshal-IsReceived :
    (buf : List ℕ) (pkt : ControlPacket)
    → AreBytes buf
    → unmarshal_control_packet buf ≡ ok pkt
    → IsReceived pkt
unmarshal-IsReceived buf pkt b h =
    let (c, f, s) = unmarshal_checks buf pkt b h in
    record {
      sender_set = c.my_set;
      sender_fits = f.my_discriminator_fits;
      desired_low = f.desired_fits;
      required_low = f.required_fits;
      mult_low = f.detect_mult_fits;
      state_named = named_state pkt.state f.state_fits;
    }

pub learn-IsSound :
    (env : Env) (pkt : ControlPacket) (s : Session)
    → IsReceived pkt
    → IsSound s
    → IsSound (learn pkt (record_valid_received_packet env s))
unfolding learn record_valid_received_packet duration_from_microseconds
learn-IsSound env pkt s p i =
    let c = i.can_send in
    record {
      can_send = ground (arith, c, p.sender_fits, p.sender_set);
      copies_agree = i.copies_agree;
      timers = record {
        desired_fits = i.timers.desired_fits;
        required_fits = i.timers.required_fits;
        remote_required_fits = omega (arith, p.required_low);
        remote_desired_fits = omega (arith, p.desired_low);
        mult_fits = i.timers.mult_fits;
        remote_mult_fits = p.mult_low;
      };
      no_poll = i.no_poll;
      no_pending_desired = i.no_pending_desired;
      no_pending_required = i.no_pending_required;
      all_sent = i.all_sent;
    }

pub flagged-IsSound :
    (f : Bool) (s : Session) → IsSound s → IsSound (record s { pending_final = f })
flagged-IsSound f s i =
    let c = i.can_send in
    record {
      can_send = ground (arith, c);
      copies_agree = i.copies_agree;
      timers = ground (arith, i.timers);
      no_poll = i.no_poll;
      no_pending_desired = i.no_pending_desired;
      no_pending_required = i.no_pending_required;
      all_sent = i.all_sent;
    }

pub answer_flags-IsSound :
    (env : Env) (pkt : ControlPacket) (s : Session) → IsSound s → IsSound (answer_flags env pkt s)
unfolding answer_flags
answer_flags-IsSound env pkt s i =
    let quiet : (pkt.final && s.poll_active) ≡ false = ground (arith, i.no_poll) in
    elim (Bool-cases pkt.poll) [
      | inl e ↦ rw (quiet, e) (flagged-IsSound true s i)
      | inr e ↦ rw (quiet, e) i
    ]

pub either-IsSound :
    (b : Bool) (x y : Session) → IsSound x → IsSound y → IsSound (if b then x else y)
either-IsSound true x y i j = i
either-IsSound false x y i j = j

pub send_pending_final-IsSound :
    (env : Env) (s : Session) → IsSound s → IsSound (send_pending_final env s)
unfolding send_pending_final
send_pending_final-IsSound env s i =
    either-IsSound s.pending_final _ _ (reset_tx_timer-IsSound _ (send_control-IsSound env s i)) i

pub answered_peer :
    (env : Env) (pkt : ControlPacket) (s : Session)
    → s.poll_active ≡ false
    → (reset_detect_timer
        (answer_flags env pkt (learn pkt (record_valid_received_packet env s)))).remote_discr
      ≡ pkt.my_discriminator
unfolding reset_detect_timer answer_flags learn record_valid_received_packet
answered_peer env pkt s quiet = ground arith

-- The session when the state machine is asked.
abbrev pub learned : Env → ControlPacket → Session → Session
learned env pkt s =
    reset_detect_timer (answer_flags env pkt (learn pkt (record_valid_received_packet env s)))

-- The state machine's answer keeps the session sound.
pub record IsReady (env : Env) (pkt : ControlPacket) (s : Session) : Type 0 where
  pub sound : IsSound (learned env pkt s)
  pub named :
      IsState
        (apply_event (learned env pkt s).cached_state (recv_state_to_event pkt.state)).new_state
  pub known :
      Known
        (learned env pkt s)
        (apply_event (learned env pkt s).cached_state (recv_state_to_event pkt.state)).new_state

pub learned-IsReady :
    (env : Env) (pkt : ControlPacket) (s : Session) → IsReceived pkt → IsSound s → IsReady env pkt s
learned-IsReady env pkt s p i =
    let s2 = answer_flags env pkt (learn pkt (record_valid_received_packet env s)) in
    let i2 : IsSound s2 = answer_flags-IsSound env pkt _ (learn-IsSound env pkt s p i) in
    let i3 = reset_detect_timer-IsSound s2 i2 in
    let peer = answered_peer env pkt s i.no_poll in
    let rule =
      (apply_event-rfc (learned env pkt s).cached_state pkt.state i3.can_send.named
        p.state_named).0 in
    record {
      sound = i3;
      named = subst IsState (sym rule) (receive_IsState _ _ i3.can_send.named p.state_named);
      known = inl (λ e. p.sender_set (sym peer ∙ e));
    }

pub process_packet-IsSound :
    (env : Env) (pkt : ControlPacket) (s : Session)
    → IsReceived pkt
    → IsSound s
    → IsSound (process_packet env pkt s)
unfolding process_packet
process_packet-IsSound env pkt s p i =
    let r = learned-IsReady env pkt s p i in
    send_pending_final-IsSound env _
      (apply_fsm_event-IsSound env (recv_state_to_event pkt.state) _ r.named r.known r.sound)

pub plain_passes :
    (env : Env) (o : Option Security) (pkt : ControlPacket) (wire : List ℕ) (s : Session)
    → o ≡ none
    → authenticate env o pkt wire s ≡ some s
unfolding authenticate
plain_passes env none pkt wire s e = refl
plain_passes env (some x) pkt wire s e = absurd (cc)

pub handle_recv_packet-IsSound :
    (env : Env) (pkt : ControlPacket) (wire : List ℕ) (s : Session)
    → IsReceived pkt
    → IsSound s
    → IsSound (handle_recv_packet env pkt wire s)
unfolding handle_recv_packet
handle_recv_packet-IsSound env pkt wire s p i =
    rw (plain_passes env s.security pkt wire s i.can_send.plain) (
      either-IsSound (not (check_auth_consistency pkt s)) _ _ i
        (process_packet-IsSound env pkt s p i))

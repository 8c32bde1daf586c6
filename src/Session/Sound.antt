-- ===== src/Session/Sound.antt =====
-- What holds of a session without authentication through its life, and how its transmissions and
-- timers (internal/bfd/session_loop.go, session_packet.go) keep it.
use gobfd.Common.{ℕ, ◌≡◌, refl, sym, ap, ◌∙◌, List, [], ◌∷◌, none, false, arith, ok}
use gobfd.Packet.{ControlPacket}
use gobfd.Packet.Unmarshal.{unmarshal_control_packet}
use gobfd.Fsm.Rules.{IsState}
use mathlib.Core.Path.{subst}
use gobfd.Session.{Session, Env}
use gobfd.Session.Timing.{HasWireTimers, reset_tx_timer, reset_detect_timer}
use gobfd.Session.Transmit.{
  control_packet, rebuild_cached_packet, pad_cached_packet, hand_over, send_control,
}
use gobfd.Session.Frame.{Kept, send_control-Kept, reset_tx_timer-Kept, reset_detect_timer-Kept}
use gobfd.Session.Wire.{CanSend, rebuilt_session, send_control_decodes}

-- The buffer decodes, to a packet from the session with this discriminator.
abbrev pub Decodes : ℕ → List ℕ → Type 0
Decodes d bytes =
    (pkt : ControlPacket) × (unmarshal_control_packet bytes ≡ ok pkt) × (pkt.my_discriminator ≡ d)

abbrev pub AllDecode : ℕ → List (List ℕ) → Type 0
AllDecode d [] = Unit
AllDecode d (bytes ∷ rest) = Decodes d bytes × AllDecode d rest

pub record IsSound (s : Session) : Type 0 where
  pub can_send : CanSend s
  pub copies_agree : s.state ≡ s.cached_state
  pub timers : HasWireTimers s
  pub no_poll : s.poll_active ≡ false
  pub no_pending_desired : s.pending_desired_min_tx ≡ 0
  pub no_pending_required : s.pending_required_min_rx ≡ 0
  pub all_sent : AllDecode s.local_discr s.sent

-- What the packet holds that no lemma on transmission in general keeps.
pub record Rest (s t : Session) : Type 0 where
  pub security_kept : t.security ≡ s.security
  pub diag_kept : t.local_diag ≡ s.local_diag
  pub remote_kept : t.remote_discr ≡ s.remote_discr

pub hand_over-Rest :
    (env : Env) (s : Session)
    → Rest s (hand_over env (pad_cached_packet s).1 (pad_cached_packet s).0)
unfolding hand_over pad_cached_packet
hand_over-Rest env s = ground arith

pub send_control-Rest : (env : Env) (s : Session) → s.security ≡ none → Rest s (send_control env s)
unfolding send_control
send_control-Rest env s e =
    let h = hand_over-Rest env (rebuild_cached_packet env s) in
    let b = rebuilt_session env s e in
    record {
      security_kept = h.security_kept ∙ ap (λ x. x.security) b;
      diag_kept = h.diag_kept ∙ ap (λ x. x.local_diag) b;
      remote_kept = h.remote_kept ∙ ap (λ x. x.remote_discr) b;
    }

pub can_carry : (s t : Session) → Kept s t → Rest s t → CanSend s → CanSend t
can_carry s t k r c = record {
  plain = r.security_kept ∙ c.plain;
  mult_set = ground arith;
  mult_fits = ground arith;
  local_set = ground arith;
  local_fits = ground arith;
  remote_fits = ground arith;
  diag_fits = ground arith;
  named = subst IsState (sym k.cached_state_kept) c.named;
  peer_known = ground arith;
  room = ground arith;
  padded_room = ground arith;
}

pub carry :
    (s t : Session) → Kept s t → Rest s t → AllDecode s.local_discr t.sent → IsSound s → IsSound t
carry s t k r a i =
    let c = i.can_send in
    let w = i.timers in
    record {
      can_send = can_carry s t k r i.can_send;
      copies_agree = ground arith;
      timers = ground (arith, k, w);
      no_poll = ground arith;
      no_pending_desired = ground arith;
      no_pending_required = ground arith;
      all_sent = subst (λ d. AllDecode d t.sent) (sym k.local_discr_kept) a;
    }

pub send_control-IsSound : (env : Env) (s : Session) → IsSound s → IsSound (send_control env s)
unfolding control_packet
send_control-IsSound env s i =
    let (bytes, e, d, l, z, says) = send_control_decodes env s i.can_send in
    carry s _ (send_control-Kept env s) (send_control-Rest env s i.can_send.plain)
      (subst (AllDecode s.local_discr) (sym e) ((_, d, refl), i.all_sent)) i

pub reset_tx_timer-IsSound : (s : Session) → IsSound s → IsSound (reset_tx_timer s)
unfolding reset_tx_timer
reset_tx_timer-IsSound s i =
    carry s _ (reset_tx_timer-Kept s)
      (record { security_kept = refl; diag_kept = refl; remote_kept = refl }) i.all_sent i

pub reset_detect_timer-IsSound : (s : Session) → IsSound s → IsSound (reset_detect_timer s)
unfolding reset_detect_timer
reset_detect_timer-IsSound s i =
    carry s _ (reset_detect_timer-Kept s)
      (record { security_kept = refl; diag_kept = refl; remote_kept = refl }) i.all_sent i

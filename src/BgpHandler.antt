-- ===== src/BgpHandler.antt =====
-- What BFD state changes do to BGP peers: internal/gobgp/handler.go. The calls of the client are
-- collected; whether a call succeeds is given, and a failure is only logged.
pub mod Stranded
pub mod Message
use gobfd.Common.{
  ℕ, ◌*◌, ◌≡◌, List, [], ◌∷◌, Bool, true, false, not, ◌&&◌, ◌||◌, if◌then◌else◌, Result, ok, err,
  ◌>>◌, guard,
}
use gobfd.Netip.{Addr}
use gobfd.Packet.{State, admin_down, down, init, up}
use gobfd.Session.{StateChange}
use gobfd.Duration.{ℤ, pos, second, not_positive}
use gobfd.Dampening.{
  Floats, DampeningConfig, Dampener, new_dampener, should_suppress, should_suppress_up,
}

pub data Strategy : Type 0 where
  disable_peer withdraw_routes other_strategy : Strategy

pub data HandlerError : Type 0 where
  invalid_strategy unsupported_strategy client_failed : HandlerError

abbrev pub default_action_timeout : ℤ
default_action_timeout = pos (5 * second)

-- A call of the client: DisablePeer with the diagnostic of its message, or EnablePeer.
pub data Action : Type 0 where
  disables : ℕ → ℕ → Action
  enables : ℕ → Action

-- The client's calls, the latest first, stand for the client.
pub record Handler : Type 0 where
  pub strategy : Strategy
  pub dampener : Dampener
  pub timeout : ℤ
  pub sent : List Action

unfoldable pub new_handler : Strategy → ℤ → Result HandlerError Handler
new_handler other_strategy timeout = err invalid_strategy
new_handler withdraw_routes timeout = err unsupported_strategy
new_handler disable_peer timeout = ok (record {
  strategy = disable_peer;
  dampener = new_dampener;
  timeout = if not_positive timeout then default_action_timeout else timeout;
  sent = [];
})

abbrev pub is_down : State → Bool
is_down down = true
is_down _ = false

abbrev pub is_up : State → Bool
is_up up = true
is_up _ = false

abbrev pub is_init : State → Bool
is_init init = true
is_init _ = false

unfoldable pub is_transition_to_down : StateChange → Bool
is_transition_to_down sc = is_down sc.change_new && (is_up sc.change_old || is_init sc.change_old)

unfoldable pub is_transition_to_up : StateChange → Bool
is_transition_to_up sc = is_up sc.change_new && not (is_up sc.change_old)

unfoldable pub apply_down_action : Bool → ℕ → ℕ → Handler → Handler × Result HandlerError (Unit {0})
apply_down_action client_ok addr diag h = elim h.strategy [
  | disable_peer ↦ (record h { sent = disables addr diag ∷ h.sent }, guard client_ok client_failed)
  | withdraw_routes ↦ (h, err unsupported_strategy)
  | other_strategy ↦ (h, err invalid_strategy)
]

unfoldable pub apply_up_action : Bool → ℕ → Handler → Handler × Result HandlerError (Unit {0})
apply_up_action client_ok addr h = elim h.strategy [
  | disable_peer ↦ (record h { sent = enables addr ∷ h.sent }, guard client_ok client_failed)
  | withdraw_routes ↦ (h, err unsupported_strategy)
  | other_strategy ↦ (h, err invalid_strategy)
]

-- A state change that Run takes from the channel, with the time and the client's answer.
pub record Event : Type 0 where
  pub change : StateChange
  pub at : ℕ
  pub client_ok : Bool

-- `peer_text` is the text of an address, by which the dampener and the client know a peer.
module _ (fl : Floats) (cfg : DampeningConfig) (peer_text : Addr → ℕ) where
  unfoldable pub handle_down : Bool → ℕ → ℕ → ℕ → Handler → Handler
  unfolding apply_down_action
  handle_down client_ok now addr diag h =
      let r = should_suppress fl cfg addr now h.dampener in
      let h' = record h { dampener = r.0 } in
      if r.1 then h' else (apply_down_action client_ok addr diag h').0

  unfoldable pub handle_up : Bool → ℕ → ℕ → Handler → Handler
  unfolding apply_up_action
  handle_up client_ok now addr h =
      let r = should_suppress_up fl cfg addr now h.dampener in
      let h' = record h { dampener = r.0 } in
      if r.1 then h' else (apply_up_action client_ok addr h').0

  unfoldable pub handle_state_change : Bool → ℕ → StateChange → Handler → Handler
  unfolding handle_down handle_up is_transition_to_down is_transition_to_up
  handle_state_change client_ok now sc h =
      if is_transition_to_down sc
      then handle_down client_ok now (peer_text sc.change_peer) sc.change_diag h
      else if is_transition_to_up sc
      then handle_up client_ok now (peer_text sc.change_peer) h
      else h

  unfoldable pub run : List Event → Handler → Handler
  unfolding handle_state_change
  run [] h = h
  run (e ∷ rest) h = run rest (handle_state_change e.client_ok e.at e.change h)

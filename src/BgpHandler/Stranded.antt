-- ===== src/BgpHandler/Stranded.antt =====
-- What the handler of internal/gobgp/handler.go does to a peer over time.
use gobfd.Common.{ℕ, ◌≡◌, ◌≢◌, ◌⊎◌, refl, ap, ◌∙◌, arith, List, [], ◌∷◌, ◌++◌, Bool, true, false}
use gobfd.Netip.{Addr}
use gobfd.Packet.{State, down, init, up}
use gobfd.Session.{StateChange}
use gobfd.Dampening.{Floats, DampeningConfig, should_suppress, should_suppress_up}
use gobfd.BgpHandler.{
  Action, disables, enables, Handler, disable_peer, handle_down, handle_up, handle_state_change,
  apply_down_action, apply_up_action, is_transition_to_down, is_transition_to_up, Event, run,
}

-- The latest call about the peer was DisablePeer.
abbrev pub Disabled : ℕ → List Action → Type 0
Disabled addr [] = ⊥
Disabled addr (disables a diag ∷ before) = (a ≡ addr) ⊎ Disabled addr before
Disabled addr (enables a ∷ before) = (a ≢ addr) × Disabled addr before

-- What a change from one state to another asks of the client: to disable the peer where a session
-- falls from Up or Init to Down, to enable it where one comes to Up from any other state.
abbrev pub asked_by : State → State → ℕ → ℕ → List Action
asked_by up down addr diag = disables addr diag ∷ []
asked_by init down addr diag = disables addr diag ∷ []
asked_by up up addr diag = []
asked_by old up addr diag = enables addr ∷ []
asked_by old new addr diag = []

module _ (fl : Floats) (cfg : DampeningConfig) (peer_text : Addr → ℕ) where
  abbrev NotUp : ℕ → StateChange → Type 0
  NotUp addr sc = (is_transition_to_up sc ≡ false) ⊎ (peer_text sc.change_peer ≢ addr)

  -- No event takes the peer to Up.
  abbrev pub NoUps : ℕ → List Event → Type 0
  NoUps addr [] = Unit
  NoUps addr (e ∷ rest) = NotUp addr e.change × NoUps addr rest

  stays :
      (addr now : ℕ) (client_ok : Bool) (sc : StateChange) (h : Handler)
      → NotUp addr sc
      → Disabled addr h.sent
      → Disabled addr (handle_state_change fl cfg peer_text client_ok now sc h).sent
  unfolding handle_state_change handle_down handle_up apply_down_action apply_up_action
  stays addr now client_ok sc h not_up d = ground arith

  run_stays :
      (addr : ℕ) (events : List Event) (h : Handler)
      → NoUps addr events
      → Disabled addr h.sent
      → Disabled addr (run fl cfg peer_text events h).sent
  unfolding run
  run_stays addr [] h n d = d
  run_stays addr (e ∷ rest) h (one, n) d =
      run_stays addr rest _ n (stays addr e.at e.client_ok e.change h one d)

  -- A peer that was disabled and whose way back to Up is answered as suppressed stays disabled
  -- through all later events, whatever their times, until its session reaches Up once more: neither
  -- the decay of the penalty nor the end of the longest suppression enables it.
  pub suppressed_up_strands :
      (sc : StateChange) (now : ℕ) (client_ok : Bool) (events : List Event) (h : Handler)
      → is_transition_to_down sc ≡ false
      → is_transition_to_up sc ≡ true
      → (should_suppress_up fl cfg (peer_text sc.change_peer) now h.dampener).1 ≡ true
      → Disabled (peer_text sc.change_peer) h.sent
      → NoUps (peer_text sc.change_peer) events
      → Disabled
          (peer_text sc.change_peer)
          (run fl cfg peer_text events
            (handle_state_change fl cfg peer_text client_ok now sc h)).sent
  unfolding handle_state_change handle_up
  suppressed_up_strands sc now client_ok events h not_down goes_up held d n =
      run_stays (peer_text sc.change_peer) events _ n
        (rw (not_down, goes_up, held, handle_state_change) d)

  -- The calls that events ask for, the latest first, in front of those before them.
  abbrev pub actions_of : List Event → List Action → List Action
  actions_of [] before = before
  actions_of (e ∷ rest) before = actions_of rest (
      asked_by e.change.change_old e.change.change_new (peer_text e.change.change_peer)
        e.change.change_diag
      ++ before)

  one_undamped :
      (e : Event) (h : Handler)
      → cfg.enabled ≡ false
      → h.strategy ≡ disable_peer
      → ((handle_state_change fl cfg peer_text e.client_ok e.at e.change h).sent
          ≡ actions_of (e ∷ []) h.sent)
        × ((handle_state_change fl cfg peer_text e.client_ok e.at e.change h).strategy
            ≡ disable_peer)
  unfolding handle_state_change handle_down handle_up apply_down_action apply_up_action
      should_suppress should_suppress_up
  one_undamped e h off s = ground arith

  -- Without dampening the client is called once for each transition, in their order: DisablePeer
  -- with the diagnostic where a session falls from Up or Init to Down, EnablePeer where one reaches
  -- Up; whether the client answers with an error makes no difference.
  pub run_undamped :
      (events : List Event) (h : Handler)
      → cfg.enabled ≡ false
      → h.strategy ≡ disable_peer
      → (run fl cfg peer_text events h).sent ≡ actions_of events h.sent
  unfolding run
  run_undamped [] h off s = refl
  run_undamped (e ∷ rest) h off s =
      let (called, same) = one_undamped e h off s in
      run_undamped rest (handle_state_change fl cfg peer_text e.client_ok e.at e.change h) off same
      ∙ ap (actions_of rest) called

-- ===== src/Manager/Serve.antt =====
-- The goroutine of one session among those of the manager: Run and the select of runLoop of
-- internal/bfd/session_loop.go, over the channels that the manager's calls fill. All sessions send
-- their changes to the manager's one channel.
use gobfd.Common.{ℕ, List, [], ◌∷◌, Option, none, some, true, false, if◌then◌else◌}
use gobfd.Session.{Env, Channel, Session}
use gobfd.Session.Endpoint.{Endpoint, RecvItem}
use gobfd.Session.Loop.{Input, packet, command, tx_fired, detect_fired, Control, step, start}
use gobfd.Manager.{Manager}
use gobfd.Manager.Demux.{at_entry}

-- What a turn of the select receives: from a channel, or from a timer.
pub data Choice : Type 0 where
  from_recv from_ctrl from_tx_timer from_detect_timer : Choice

abbrev pub first_packet : List RecvItem → Endpoint → Option (Input × Endpoint)
first_packet [] e = none
first_packet (item ∷ rest) e = some (packet item.pkt item.wire, record e { recv_ch = rest })

abbrev pub first_command : List Control → Endpoint → Option (Input × Endpoint)
first_command [] e = none
first_command (c ∷ rest) e = some (command c, record e { ctrl_ch = rest })

-- An empty channel is not chosen.
unfoldable pub receive : Choice → Endpoint → Option (Input × Endpoint)
receive from_recv e = first_packet e.recv_ch e
receive from_ctrl e = first_command e.ctrl_ch e
receive from_tx_timer e = some (tx_fired, e)
receive from_detect_timer e = some (detect_fired, e)

-- The session as its goroutine sees it: with the manager's channel.
abbrev pub with_channel : Channel → Session → Session
with_channel ch s = record s { notify_ch = some ch }

abbrev pub channel_or : Option Channel → Channel → Channel
channel_or none ch = ch
channel_or (some ch') ch = ch'

abbrev pub served : ℕ → Endpoint → Session → Manager → Manager
served p e s m = record (at_entry p (λ old. record e { session = s }) m) {
  raw_notify_ch = channel_or s.notify_ch m.raw_notify_ch;
}

unfoldable pub serve : Env → Choice → ℕ → Manager → Manager
unfolding receive
serve env choice p m = elim (receive choice (m.heap p).endpoint) [
  | none ↦ m
  | some (i, e) ↦
      if e.running then served p e (step env i (with_channel m.raw_notify_ch e.session)) m else m
]

-- The goroutine begins, and ends behind the cancellation of its context.
unfoldable pub begin : ℕ → Manager → Manager
begin p m = at_entry p (λ e. record e { session = start e.session; running = true }) m

unfoldable pub end : ℕ → Manager → Manager
end p m = if (m.heap p).cancelled then at_entry p (λ e. record e { running = false }) m else m

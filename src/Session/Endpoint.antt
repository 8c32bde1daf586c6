-- ===== src/Session/Endpoint.antt =====
-- A session as other goroutines see it: RecvPacket, SetAdminDown and SetPathDown of
-- internal/bfd/session.go, with the two channels that its goroutine reads.
use gobfd.Common.{ℕ, List, [], ◌∷◌, ◌++◌, Bool, true, false, ltb, if◌then◌else◌, length}
use gobfd.Packet.{ControlPacket}
use gobfd.Session.{Session}
use gobfd.Session.Loop.{Control, control_path_down, control_admin_down, set_admin_down}

-- `recvItem`; no wire bytes are the empty list.
pub record RecvItem : Type 0 where
  pub pkt : ControlPacket
  pub wire : List ℕ

-- The channels have room for 16 packets and for 4 commands; the oldest item is first.
pub record Endpoint : Type 0 where
  pub session : Session
  pub recv_ch : List RecvItem
  pub ctrl_ch : List Control
  pub running : Bool

abbrev pub recv_ch_size : ℕ
recv_ch_size = 16

abbrev pub ctrl_ch_size : ℕ
ctrl_ch_size = 4

-- What NewSession returns.
abbrev pub new_endpoint : Session → Endpoint
new_endpoint s = record { session = s; recv_ch = []; ctrl_ch = []; running = false }

unfoldable pub recv_packet : ControlPacket → List ℕ → Endpoint → Endpoint
recv_packet pkt wire e =
    if ltb (length e.recv_ch) recv_ch_size
    then record e { recv_ch = e.recv_ch ++ (record { pkt = pkt; wire = wire } ∷ []) }
    else e

-- SetAdminDown with the channel: a command that is taken is queued.
unfoldable pub send_admin_down : Endpoint → Endpoint
send_admin_down e =
    let (queued, s) = set_admin_down e.running (ltb (length e.ctrl_ch) ctrl_ch_size) e.session in
    if queued
    then record e { session = s; ctrl_ch = e.ctrl_ch ++ (control_admin_down ∷ []) }
    else record e { session = s }

unfoldable pub set_path_down : Endpoint → Endpoint × Bool
set_path_down e =
    if ltb (length e.ctrl_ch) ctrl_ch_size
    then (record e { ctrl_ch = e.ctrl_ch ++ (control_path_down ∷ []) }, true)
    else (e, false)

-- ===== src/Manager/Demux.antt =====
-- Demultiplexing: the lookups, Demux, DemuxWithWire, tryCreateUnsolicited and HandleInterfaceEvent
-- of internal/bfd/manager_session.go.
use gobfd.Common.{
  ℕ, ◌+◌, List, [], ◌∷◌, Option, none, some, Bool, true, not, ◌||◌, ◌==◌, if◌then◌else◌, Result, ok,
  err,
}
use gobfd.Assoc.{nat_key, lookup}
use gobfd.Netip.{Addr}
use gobfd.Packet.{ControlPacket}
use gobfd.Session.{SessionConfig, single_hop, passive}
use gobfd.Session.Endpoint.{Endpoint, recv_packet, set_path_down}
use gobfd.Unsolicited.{UnsolicitedError, UnsolicitedSessionDefaults, reserve, release}
use gobfd.Manager.{
  SessionKey, session_key, Entry, UnsolicitedState, Manager, ManagerError, demux_no_match,
  no_unsolicited_sender, policy_failed, Supply, store, create_session,
}

-- The fields of `PacketMeta` that the manager reads.
pub record PacketMeta : Type 0 where
  pub src_addr : Addr
  pub dst_addr : Addr
  pub if_name : ℕ

abbrev pub meta_key : PacketMeta → SessionKey
meta_key meta = record {
  key_peer_addr = meta.src_addr;
  key_local_addr = meta.dst_addr;
  key_if_name = meta.if_name;
}

-- A lookup gives the address of the entry; the session is reached through it.
unfoldable pub lookup_by_discriminator : ℕ → Manager → Option ℕ
lookup_by_discriminator discr m = lookup discr m.sessions

unfoldable pub lookup_by_peer : SessionKey → Manager → Option ℕ
lookup_by_peer key m = lookup key m.sessions_by_peer

-- A method of the session at an address.
abbrev pub at_entry : ℕ → (Endpoint → Endpoint) → Manager → Manager
at_entry p method m = record m {
  heap = store p (record (m.heap p) { endpoint = method (m.heap p).endpoint }) m.heap;
}

-- The delivery to what a lookup found.
unfoldable pub deliver :
    Option ℕ → ControlPacket → List ℕ → Manager → Manager × Result ManagerError (Unit {0})
deliver none pkt wire m = (m, err demux_no_match)
deliver (some p) pkt wire m = (at_entry p (recv_packet pkt wire) m, ok tt)

-- Demux passes no wire bytes.
unfoldable pub demux :
    ControlPacket → PacketMeta → Manager → Manager × Result ManagerError (Unit {0})
demux pkt meta m =
    if not (pkt.your_discriminator == 0)
    then deliver (lookup_by_discriminator pkt.your_discriminator m) pkt [] m
    else deliver (lookup_by_peer (meta_key meta) m) pkt [] m

unfoldable pub demux_by_discr :
    ControlPacket → List ℕ → Manager → Manager × Result ManagerError (Unit {0})
demux_by_discr pkt wire m = deliver (lookup_by_discriminator pkt.your_discriminator m) pkt wire m

abbrev pub unsolicited_config : PacketMeta → UnsolicitedSessionDefaults → SessionConfig
unsolicited_config meta defaults = record {
  cfg_peer_addr = meta.src_addr;
  cfg_local_addr = meta.dst_addr;
  cfg_interface = meta.if_name;
  cfg_type = single_hop;
  cfg_role = passive;
  cfg_desired_min_tx = defaults.desired_min_tx_interval;
  cfg_required_min_rx = defaults.required_min_rx_interval;
  cfg_detect_multiplier = defaults.detect_multiplier;
  cfg_auth = none;
  cfg_auth_keys = none;
  cfg_padded_pdu_size = 0;
}

-- The counter as a call leaves it.
abbrev pub with_count : ℕ → UnsolicitedState → Manager → Manager
with_count count u m = record m { unsolicited_state = some (record u { session_count = count }) }

abbrev pub mark_at : Option ℕ → Manager → Manager
mark_at none m = m
mark_at (some p) m = record m { heap = store p (record (m.heap p) { unsolicited = true }) m.heap }

unfoldable pub mark_session_unsolicited : ℕ → Manager → Manager
mark_session_unsolicited local_discr m = mark_at (lookup local_discr m.sessions) m

-- What becomes of the creation: the counter is given back, or the entry is marked and the packet
-- delivered.
unfoldable pub after_create :
    ControlPacket
    → List ℕ
    → Manager × Result ManagerError ℕ
    → Manager × Result ManagerError (Unit {0})
unfolding mark_session_unsolicited
after_create pkt wire (m, err failure) = elim m.unsolicited_state [
  | none ↦ (m, err failure)
  | some u ↦ (with_count (release u.session_count) u m, err failure)
]
after_create pkt wire (m, ok p) = (
  at_entry p (recv_packet pkt wire)
      (mark_session_unsolicited (m.heap p).endpoint.session.local_discr m),
  ok tt,
)

-- The call behind the reservation.
unfoldable pub reserved_by :
    Supply
    → ControlPacket
    → PacketMeta
    → List ℕ
    → UnsolicitedState
    → Manager
    → ℕ × Result UnsolicitedError (Unit {0})
    → Manager × Result ManagerError (Unit {0})
unfolding after_create
reserved_by supply pkt meta wire u m (count, err failure) =
    (with_count count u m, err (policy_failed failure))
reserved_by supply pkt meta wire u m (count, ok passed) =
    let m' = with_count count u m in
    if not m'.has_unsolicited_sender
    then (m', err no_unsolicited_sender)
    else after_create pkt wire
        (create_session supply (unsolicited_config meta u.policy.session_defaults) m')

unfoldable pub try_create_unsolicited :
    Supply
    → ControlPacket
    → PacketMeta
    → List ℕ
    → UnsolicitedState
    → Manager
    → Manager × Result ManagerError (Unit {0})
unfolding reserved_by
try_create_unsolicited supply pkt meta wire u m =
    reserved_by supply pkt meta wire u m
      (reserve (some u.policy) meta.src_addr meta.if_name u.session_count)

-- The branches of demuxByPeer on what the lookup found and on `m.unsolicited`.
unfoldable pub peer_found :
    Supply
    → ControlPacket
    → PacketMeta
    → List ℕ
    → Option ℕ
    → Option UnsolicitedState
    → Manager
    → Manager × Result ManagerError (Unit {0})
peer_found supply pkt meta wire (some p) u m = (at_entry p (recv_packet pkt wire) m, ok tt)
peer_found supply pkt meta wire none none m = (m, err demux_no_match)
peer_found supply pkt meta wire none (some u) m = try_create_unsolicited supply pkt meta wire u m

unfoldable pub demux_by_peer :
    Supply
    → ControlPacket
    → PacketMeta
    → List ℕ
    → Manager
    → Manager × Result ManagerError (Unit {0})
unfolding peer_found
demux_by_peer supply pkt meta wire m =
    peer_found supply pkt meta wire (lookup_by_peer (meta_key meta) m) m.unsolicited_state m

unfoldable pub demux_with_wire :
    Supply
    → ControlPacket
    → PacketMeta
    → List ℕ
    → Manager
    → Manager × Result ManagerError (Unit {0})
demux_with_wire supply pkt meta wire m =
    if not (pkt.your_discriminator == 0)
    then demux_by_discr pkt wire m
    else demux_by_peer supply pkt meta wire m

-- The addresses of the sessions on an interface.
unfoldable pub on_interface : ℕ → List (ℕ × ℕ) → (ℕ → Entry) → List ℕ
on_interface name [] heap = []
on_interface name ((d, p) ∷ rest) heap =
    let others = on_interface name rest heap in
    if (heap p).key.key_if_name == name then p ∷ others else others

-- SetPathDown on each of them, and how many commands were taken.
unfoldable pub path_down_all : List ℕ → Manager → Manager × ℕ
path_down_all [] m = (m, 0)
path_down_all (p ∷ rest) m =
    let (m', affected) = path_down_all rest (at_entry p (λ e. (set_path_down e).0) m) in
    (m', if (set_path_down (m.heap p).endpoint).1 then affected + 1 else affected)

unfoldable pub handle_interface_event : ℕ → Bool → Manager → Manager × ℕ
unfolding on_interface path_down_all
handle_interface_event name is_up m =
    if name == 0 || is_up then (m, 0) else path_down_all (on_interface name m.sessions m.heap) m
